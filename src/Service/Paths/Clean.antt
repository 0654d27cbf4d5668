-- ===== src/Service/Paths/Clean.antt =====
-- `filepath.Clean` and `filepath.Join` on a directory and a name below it.
use mathlib.Core.List.{append_assoc}
use kha_app.Prelude.{
  ℕ, ◌≡◌, refl, inl, inr, Bool-cases, ap, sym, ◌∙◌, Bool, true, false, List, [], ◌∷◌, ◌++◌, arith,
  ◌==◌, Text, codes, is_empty, same_text, has_code,
}
use kha_app.Service.Paths.{
  slash, cons_head, is_rooted, split_slash, dot_dot, push, push_all, render, clean, join_elems,
  join,
}

abbrev pub NoSlash : Text → Type 0
NoSlash s = has_code slash s ≡ false

pub split_slash-NoSlash : (s : Text) → NoSlash s → split_slash s ≡ s ∷ []
unfolding split_slash has_code
split_slash-NoSlash [] h = refl
split_slash-NoSlash (c ∷ s) h = ground (arith, split_slash-NoSlash s)

-- A split has a first part.
pub split_slash-cons : (s : Text) → (p : Text) × (ps : List Text) × (split_slash s ≡ p ∷ ps)
unfolding split_slash
split_slash-cons [] = ([], [], refl)
split_slash-cons (c ∷ s) = elim (Bool-cases (c == slash)) [
  | inl e ↦ ([], split_slash s, rw e)
  | inr e ↦ let (p, ps, q) = split_slash-cons s in (c ∷ p, ps, rw e (rw q))
]

cons_head-append :
    (c : ℕ) (s : Text) (qs : List Text)
    → cons_head c (split_slash s ++ qs) ≡ cons_head c (split_slash s) ++ qs
cons_head-append c s qs = let (p, ps, e) = split_slash-cons s in rw e

pub split_slash-slash : (s t : Text) → split_slash (s ++ slash ∷ t) ≡ split_slash s ++ split_slash t
unfolding split_slash
split_slash-slash [] t = refl
split_slash-slash (c ∷ s) t =
    ground (arith, split_slash-slash s t, cons_head-append c s (split_slash t))

pub push_all-append :
    (r : Bool) (stack ps qs : List Text)
    → push_all r stack (ps ++ qs) ≡ push_all r (push_all r stack ps) qs
unfolding push_all
push_all-append r stack [] qs = refl
push_all-append r stack (p ∷ ps) qs = push_all-append r (push r stack p) ps qs

-- A file name: no slash, and none of the parts that `Clean` takes away.
pub record IsName (f : Text) : Type 0 where
  pub no_slash : has_code slash f ≡ false
  pub not_empty : is_empty f ≡ false
  pub not_dot : same_text f (codes ".") ≡ false
  pub not_dot_dot : same_text f dot_dot ≡ false

pub push_name : (r : Bool) (stack : List Text) (f : Text) → IsName f → push r stack f ≡ f ∷ stack
unfolding push
push_name r stack f h = rw (h.not_empty, h.not_dot, h.not_dot_dot)

-- The stack of a directory.
unfoldable pub stack_of : Bool → Text → List Text
stack_of r d = push_all r [] (split_slash d)

pub stack_of-append :
    (r : Bool) (p q : Text)
    → stack_of r (p ++ slash ∷ q) ≡ push_all r (stack_of r p) (split_slash q)
unfolding stack_of
stack_of-append r p q = rw (split_slash-slash, push_all-append) refl

pub stack_of-slash :
    (r : Bool) (d f : Text) → IsName f → stack_of r (d ++ slash ∷ f) ≡ f ∷ stack_of r d
unfolding stack_of push_all
stack_of-slash r d f h =
    rw (split_slash-slash, split_slash-NoSlash f h.no_slash, push_all-append) (push_name r _ f h)

pub is_rooted-append : (d t : Text) → is_empty d ≡ false → is_rooted (d ++ t) ≡ is_rooted d
is_rooted-append [] t h = cc
is_rooted-append (c ∷ d) t h = refl

pub render-cons :
    (r : Bool) (p q : Text) (ps : List Text)
    → render r (p ∷ q ∷ ps) ≡ render r (q ∷ ps) ++ slash ∷ p
unfolding render
render-cons true p q ps = refl
render-cons false p q ps = refl

pub is_empty-append : (d t : Text) → is_empty d ≡ false → is_empty (d ++ t) ≡ false
is_empty-append [] t h = cc
is_empty-append (c ∷ d) t h = refl

-- A name below a named directory is appended to the directory's path.
pub clean-name :
    (b d f : Text)
    → is_empty b ≡ false
    → IsName d
    → IsName f
    → clean ((b ++ slash ∷ d) ++ slash ∷ f) ≡ clean (b ++ slash ∷ d) ++ slash ∷ f
unfolding clean stack_of
clean-name b d f h hd hf =
    let r = is_rooted (b ++ slash ∷ d) in
    let under = stack_of-slash r b d hd in
    rw (is_rooted-append (b ++ slash ∷ d) (slash ∷ f) (is_empty-append b (slash ∷ d) h)) (
      ap (render r) (stack_of-slash r (b ++ slash ∷ d) f hf ∙ ap (λ (s : List Text). f ∷ s) under)
      ∙ render-cons r f d (stack_of r b)
      ∙ ap (λ (s : List Text). render r s ++ slash ∷ f) (sym under))

join_elems-snoc_empty :
    (f : Text) (es : List Text)
    → is_empty f ≡ false
    → is_empty (join_elems es) ≡ true
    → join_elems (es ++ f ∷ []) ≡ f
unfolding join_elems
join_elems-snoc_empty f [] h k = ground arith
join_elems-snoc_empty f ([] ∷ es) h k = join_elems-snoc_empty f es h k
join_elems-snoc_empty f ((c ∷ e) ∷ es) h k = ground arith

-- One more element is one more part of the path.
pub join_elems-snoc :
    (f : Text) (es : List Text)
    → is_empty f ≡ false
    → is_empty (join_elems es) ≡ false
    → join_elems (es ++ f ∷ []) ≡ join_elems es ++ slash ∷ f
unfolding join_elems
join_elems-snoc f [] h k = cc
join_elems-snoc f ([] ∷ es) h k = join_elems-snoc f es h k
join_elems-snoc f ((c ∷ e) ∷ es) h k = elim (Bool-cases (is_empty (join_elems es))) [
  | inl none_left ↦ rw (none_left, join_elems-snoc_empty f es h none_left) (rw h)
  | inr more ↦
      rw (more, join_elems-snoc f es h more)
        (rw (is_empty-append (join_elems es) (slash ∷ f) more)
          (sym (append_assoc (c ∷ e) (slash ∷ join_elems es) (slash ∷ f))))
]

pub join_lem :
    (es : List Text) (p : Text) → join_elems es ≡ p → is_empty p ≡ false → join es ≡ clean p
unfolding join
join_lem es p e h = rw e (rw h)

-- A name below a named directory, as elements of a path.
pub join-name :
    (d f : Text) (es : List Text)
    → is_empty (join_elems es) ≡ false
    → IsName d
    → IsName f
    → join ((es ++ d ∷ []) ++ f ∷ []) ≡ join (es ++ d ∷ []) ++ slash ∷ f
join-name d f es h hd hf =
    let dir = join_elems-snoc d es hd.not_empty h in
    let full = is_empty-append (join_elems es) (slash ∷ d) h in
    join_lem ((es ++ d ∷ []) ++ f ∷ []) _
      (join_elems-snoc f (es ++ d ∷ []) hf.not_empty (ap is_empty dir ∙ full)
        ∙ ap (λ (t : Text). t ++ slash ∷ f) dir)
      (is_empty-append _ (slash ∷ f) full)
    ∙ clean-name (join_elems es) d f h hd hf
    ∙ ap (λ (t : Text). t ++ slash ∷ f) (sym (join_lem (es ++ d ∷ []) _ dir full))

pub join_elems-not_empty :
    (e : Text) (es : List Text) → is_empty e ≡ false → is_empty (join_elems (e ∷ es)) ≡ false
unfolding join_elems
join_elems-not_empty [] es h = cc
join_elems-not_empty (c ∷ e) es h = ground arith
