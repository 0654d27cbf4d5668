-- ===== src/Prelude/Dict.antt =====
-- A Go map from texts, as an association list, and a set of texts.
use kha_app.Prelude.{
  ◌≡◌, refl, Bool, true, false, Option, none, some, List, [], ◌∷◌, arith, Text, same_text,
  same_text_iff, if◌then◌else◌,
}

module _ {ℓ} {V : Type ℓ} where
  unfoldable pub lookup : Text → List (Text × V) → Option V
  lookup k [] = none
  lookup k ((j, v) ∷ d) = if same_text j k then some v else lookup k d

  unfoldable pub insert : Text → V → List (Text × V) → List (Text × V)
  insert k v [] = (k, v) ∷ []
  insert k v ((j, w) ∷ d) = if same_text j k then (k, v) ∷ d else (j, w) ∷ insert k v d

  unfoldable pub delete : Text → List (Text × V) → List (Text × V)
  delete k [] = []
  delete k ((j, w) ∷ d) = if same_text j k then delete k d else (j, w) ∷ delete k d

  pub lookup-insert :
      (k j : Text) (v : V) (d : List (Text × V))
      → lookup j (insert k v d) ≡ (if same_text k j then some v else lookup j d)
  unfolding lookup insert
  lookup-insert k j v [] = refl
  lookup-insert k j v ((i, w) ∷ d) =
      ground (arith, same_text_iff k j, same_text_iff i k, same_text_iff i j, lookup-insert k j v d)

  pub lookup-delete :
      (k j : Text) (d : List (Text × V))
      → lookup j (delete k d) ≡ (if same_text k j then none else lookup j d)
  unfolding lookup delete
  lookup-delete k j [] = ground arith
  lookup-delete k j ((i, w) ∷ d) =
      ground (arith, same_text_iff k j, same_text_iff i k, same_text_iff i j, lookup-delete k j d)

unfoldable pub mem : Text → List Text → Bool
mem k [] = false
mem k (j ∷ s) = if same_text j k then true else mem k s

unfoldable pub remove : Text → List Text → List Text
remove k [] = []
remove k (j ∷ s) = if same_text j k then remove k s else j ∷ remove k s

pub mem-remove :
    (k j : Text) (s : List Text) → mem j (remove k s) ≡ (if same_text k j then false else mem j s)
unfolding mem remove
mem-remove k j [] = ground arith
mem-remove k j (i ∷ s) =
    ground (arith, same_text_iff k j, same_text_iff i k, same_text_iff i j, mem-remove k j s)
