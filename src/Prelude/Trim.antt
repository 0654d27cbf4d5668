-- ===== src/Prelude/Trim.antt =====
-- What `strings.TrimLeft` and `strings.TrimRight` take away.
use mathlib.Core.List.{reverse, reverse-cons, reverse-append, reverse-reverse}
use kha_app.Prelude.{
  ℕ, ◌≡◌, refl, sym, ap, ◌∙◌, inl, inr, Bool, true, false, List, [], ◌∷◌, ◌++◌, arith, All, Text,
  Bool-cases, trim_left, trim_right,
}

pub All-append {ℓ κ} :
    {A : Type ℓ} (P : A → Type κ) (xs ys : List A) → All P xs → All P ys → All P (xs ++ ys)
All-append P [] ys hx hy = hy
All-append P (x ∷ xs) ys hx hy = (hx.0, All-append P xs ys hx.1 hy)

pub All-reverse {ℓ κ} : {A : Type ℓ} (P : A → Type κ) (xs : List A) → All P xs → All P (reverse xs)
All-reverse P [] h = tt
All-reverse P (x ∷ xs) h =
    rw reverse-cons (All-append P (reverse xs) (x ∷ []) (All-reverse P xs h.1) (h.0, tt))

-- The first character does not pass the test.
abbrev pub HeadFails : (ℕ → Bool) → Text → Type 0
HeadFails p [] = Unit
HeadFails p (c ∷ s) = p c ≡ false

module _ (p : ℕ → Bool) where
  pub trim_left_lem :
      (s : Text)
      → (front : Text) × (s ≡ front ++ trim_left p s)
        × All (λ c. p c ≡ true) front
        × HeadFails p (trim_left p s)
  unfolding trim_left
  trim_left_lem [] = ([], refl, tt, tt)
  trim_left_lem (c ∷ s) = elim (Bool-cases (p c)) [
    | inl e ↦
        let (front, split, all, fails) = trim_left_lem s in
        rw e (c ∷ front, ap (λ (t : Text). c ∷ t) split, (e, all), fails)
    | inr e ↦ rw e ([], refl, tt, e)
  ]

  -- Only characters of the end that pass the test are gone, and all of them.
  pub trim_right_lem :
      (s : Text)
      → (tail : Text) × (s ≡ trim_right p s ++ tail)
        × All (λ c. p c ≡ true) tail
        × HeadFails p (reverse (trim_right p s))
  unfolding trim_right
  trim_right_lem s =
      let (front, split, all, fails) = trim_left_lem (reverse s) in
      (
        reverse front,
        sym (reverse-reverse s) ∙ ap reverse split ∙ reverse-append front (trim_left p (reverse s)),
        All-reverse _ front all,
        rw reverse-reverse fails,
      )

  trim_left-append :
      (s t : Text) → HeadFails p t → t ≡ trim_left p t → trim_left p (s ++ t) ≡ trim_left p s ++ t
  unfolding trim_left
  trim_left-append [] t h e = sym e
  trim_left-append (c ∷ s) t h e = ground (arith, trim_left-append s t h e)

  trim_left_fixed : (t : Text) → HeadFails p t → t ≡ trim_left p t
  unfolding trim_left
  trim_left_fixed [] h = refl
  trim_left_fixed (c ∷ t) h = rw h

  -- A front whose last character does not pass the test stays whole.
  pub trim_right-append :
      (s t : Text) → HeadFails p (reverse s) → trim_right p (s ++ t) ≡ s ++ trim_right p t
  unfolding trim_right
  trim_right-append s t h = rw (
    reverse-append s t,
    trim_left-append (reverse t) (reverse s) h (trim_left_fixed (reverse s) h),
    reverse-append (trim_left p (reverse t)) (reverse s),
    reverse-reverse s,
  )
