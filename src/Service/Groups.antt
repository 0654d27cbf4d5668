-- ===== src/Service/Groups.antt =====
-- daemon/dbus/service.go: `loadGroupInfo`, `GetGroupInfo` and `invalidateGroupInfoCache`. The
-- clock's readings and the answer of whatsmeow are arguments.
pub mod Freshness
pub mod Race
use kha_app.Prelude.{
  ℕ, ◌+◌, ◌*◌, Option, none, some, List, [], map, ltb, ℤ, to_int32, Text, if◌then◌else◌,
}
use kha_app.Prelude.Result.{Result, ok, err}
use kha_app.Prelude.Dict.{lookup, insert, delete}
use kha_app.Service.Variants.{VariantMap, group_variants}
use kha_app.Service.State.{GroupInfo, CachedGroupInfo, Service}

-- The fields of `types.GroupInfo` that are read; a participant is the text of its JID.
pub record RawGroup : Type 0 where
  pub name : Text
  pub topic : Text
  pub participant_count : ℤ
  pub participants : List Text

unfoldable pub group_map : RawGroup → GroupInfo
unfolding to_int32
group_map g = record {
  name = g.name;
  description = g.topic;
  participant_count = to_int32 g.participant_count;
  participants = g.participants;
}

-- `5 * time.Minute`.
abbrev pub group_info_ttl : ℕ
group_info_ttl = 300

abbrev pub fresh : ℕ → Option CachedGroupInfo → Option GroupInfo
fresh now none = none
fresh now (some c) = if ltb now c.expires_at then some c.info else none

unfoldable pub store_group : Text → GroupInfo → ℕ → Service → Service
unfolding insert
store_group jid info later m = record m {
  group_info_cache =
      insert jid (record { info = info; expires_at = later + group_info_ttl }) m.group_info_cache;
}

abbrev pub fetched : Text → Result RawGroup → ℕ → Service → Result GroupInfo × Service
fetched jid (err e) later m = (err e, m)
fetched jid (ok g) later m = (ok (group_map g), store_group jid (group_map g) later m)

abbrev pub cached_or :
    Option GroupInfo → Text → Result RawGroup → ℕ → Service → Result GroupInfo × Service
cached_or (some info) jid answer later m = (ok info, m)
cached_or none jid answer later m = fetched jid answer later m

-- `now` is the clock at the look-up, `later` when the answer is stored.
unfoldable pub load_group_info :
    Text → ℕ → Result RawGroup → ℕ → Service → Result GroupInfo × Service
unfolding lookup store_group group_map
load_group_info jid now answer later m =
    cached_or (fresh now (lookup jid m.group_info_cache)) jid answer later m

-- An error is answered with an empty map, which is `none` here.
abbrev info_or_empty : Result GroupInfo → Option GroupInfo
info_or_empty (ok info) = some info
info_or_empty (err e) = none

unfoldable pub get_group_info :
    Text → ℕ → Result RawGroup → ℕ → Service → Option GroupInfo × Service
unfolding load_group_info
get_group_info jid now answer later m =
    let (r, n) = load_group_info jid now answer later m in (info_or_empty r, n)

-- The map that D-Bus carries.
unfoldable pub group_reply : Option GroupInfo → VariantMap
unfolding group_variants
group_reply none = []
group_reply (some info) = group_variants info

unfoldable pub invalidate_group_info_cache : Text → Service → Service
unfolding delete
invalidate_group_info_cache jid m = record m { group_info_cache = delete jid m.group_info_cache }
