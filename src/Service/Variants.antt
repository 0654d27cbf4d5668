-- ===== src/Service/Variants.antt =====
-- daemon/dbus/service.go: the maps of variants that the methods return, and `variantString`.
use kha_app.Prelude.{◌≡◌, refl, Bool, none, some, List, [], ◌∷◌, ℤ, Text, codes, same_text}
use kha_app.Prelude.Dict.{lookup}
use kha_app.Service.State.{GroupInfo}

pub data Variant : Type 0 where
  string : Text → Variant
  strings : List Text → Variant
  boolean : Bool → Variant
  int32 : ℤ → Variant
  int64 : ℤ → Variant

abbrev pub VariantMap : Type 0
VariantMap = List (Text × Variant)

-- `text, _ := value.Value().(string)`.
abbrev pub string_of : Variant → Text
string_of (string t) = t
string_of _ = []

unfoldable pub variant_string : VariantMap → Text → Text
unfolding lookup
variant_string values key = elim (lookup key values) [ none ↦ [] | some v ↦ string_of v ]

-- The map of `loadGroupInfo`.
unfoldable pub group_variants : GroupInfo → VariantMap
group_variants info =
    (codes "name", string info.name)
    ∷ (codes "description", string info.description)
    ∷ (codes "participant_count", int32 info.participant_count)
    ∷ (codes "participants", strings info.participants)
    ∷ []

pub variant_string-group_variants :
    (info : GroupInfo) → variant_string (group_variants info) (codes "name") ≡ info.name
unfolding variant_string group_variants lookup same_text
variant_string-group_variants info = refl
