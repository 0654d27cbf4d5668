-- ===== src/Service/Paths/Normal.antt =====
-- A path that `filepath.Clean` has made is what `Clean` makes of it again.
use kha_app.Prelude.{
  ℕ, ◌≡◌, ◌⊎◌, refl, ap, sym, ◌∙◌, inl, inr, Bool-cases, Bool, true, false, ◌||◌, List, [], ◌∷◌,
  ◌++◌, arith, ◌==◌, Text, codes, is_empty, same_text, has_code, All,
}
use kha_app.Service.Paths.{
  slash, cons_head, is_rooted, split_slash, dot_dot, pop, push, push_all, render, clean,
}
use kha_app.Service.Paths.Clean.{
  NoSlash, IsName, push_name, stack_of, stack_of-append, stack_of-slash, split_slash-NoSlash,
  is_rooted-append, is_empty-append, render-cons,
}

NoSlash-cons : (c : ℕ) (s : Text) → (c == slash) ≡ false → NoSlash s → NoSlash (c ∷ s)
unfolding has_code
NoSlash-cons c s e h = ground arith

cons_head-All :
    (c : ℕ) (ps : List Text) → (c == slash) ≡ false → All NoSlash ps → All NoSlash (cons_head c ps)
unfolding has_code
cons_head-All c [] e h = (NoSlash-cons c [] e refl, tt)
cons_head-All c (p ∷ ps) e h = (NoSlash-cons c p e h.0, h.1)

split_slash-All : (s : Text) → All NoSlash (split_slash s)
unfolding split_slash has_code
split_slash-All [] = (refl, tt)
split_slash-All (c ∷ s) = elim (Bool-cases (c == slash)) [
  | inl e ↦ rw e (refl, split_slash-All s)
  | inr e ↦ rw e (cons_head-All c (split_slash s) e (split_slash-All s))
]

abbrev AllUp : List Text → Type 0
AllUp s = All (λ p. p ≡ dot_dot) s

-- The parts that a stack can hold: names, and below them, in a path that is not rooted, parents.
abbrev pub Normal : Bool → List Text → Type 0
Normal r [] = Unit
Normal r (p ∷ s) = (IsName p ⊎ ((p ≡ dot_dot) × (r ≡ false) × AllUp s)) × Normal r s

same_dot_dot : same_text dot_dot dot_dot ≡ true
unfolding same_text
same_dot_dot = refl

pop-Normal : (r : Bool) (s : List Text) → Normal r s → Normal r (pop r s)
pop-Normal true [] h = tt
pop-Normal false [] h = (inr (refl, refl, tt), tt)
pop-Normal true (p ∷ s) (inl n, h) = rw n.not_dot_dot h
pop-Normal false (p ∷ s) (inl n, h) = rw n.not_dot_dot h
pop-Normal true (p ∷ s) (inr (e, f, u), h) = absurd (ground arith)
pop-Normal false (p ∷ s) (inr (e, f, u), h) =
    rw e (rw same_dot_dot (inr (refl, f, (refl, u)), (inr (refl, f, u), h)))

push-Normal : (r : Bool) (s : List Text) (p : Text) → NoSlash p → Normal r s → Normal r (push r s p)
unfolding push
push-Normal r s p n h = elim (Bool-cases (is_empty p || same_text p (codes "."))) [
  | inl e ↦ rw e h
  | inr e ↦ elim (Bool-cases (same_text p dot_dot)) [
    | inl d ↦ rw (e, d) (pop-Normal r s h)
    | inr d ↦
        rw (e, d)
          (
            inl (record {
              no_slash = n;
              not_empty = ground arith;
              not_dot = ground arith;
              not_dot_dot = d;
            }),
            h,
          )
  ]
]

push_all-Normal :
    (r : Bool) (s ps : List Text) → All NoSlash ps → Normal r s → Normal r (push_all r s ps)
unfolding push_all
push_all-Normal r s [] n h = h
push_all-Normal r s (p ∷ ps) n h = push_all-Normal r (push r s p) ps n.1 (push-Normal r s p n.0 h)

pub stack_of-Normal : (r : Bool) (d : Text) → Normal r (stack_of r d)
unfolding stack_of
stack_of-Normal r d = push_all-Normal r [] (split_slash d) (split_slash-All d) tt

-- What a stack can hold goes back on it.
push-top : (r : Bool) (p : Text) (s : List Text) → Normal r (p ∷ s) → push r s p ≡ p ∷ s
unfolding push same_text
push-top r p s (inl n, h) = push_name r s p n
push-top true p s (inr (e, f, u), h) = absurd (ground arith)
push-top false p [] (inr (e, f, u), h) = rw e refl
push-top false p (q ∷ s) (inr (e, f, u), h) = rw (e, u.0) refl

part-NoSlash : (r : Bool) (p : Text) (s : List Text) → Normal r (p ∷ s) → NoSlash p
unfolding has_code
part-NoSlash r p s (inl n, h) = n.no_slash
part-NoSlash r p s (inr (e, f, u), h) = rw e refl

part-is_empty : (r : Bool) (p : Text) (s : List Text) → Normal r (p ∷ s) → is_empty p ≡ false
part-is_empty r p s (inl n, h) = n.not_empty
part-is_empty r p s (inr (e, f, u), h) = rw e refl

is_rooted-NoSlash : (p : Text) → NoSlash p → is_rooted p ≡ false
unfolding has_code
is_rooted-NoSlash [] h = refl
is_rooted-NoSlash (c ∷ p) h = ground arith

is_empty-render : (r : Bool) (s : List Text) → Normal r s → is_empty (render r s) ≡ false
unfolding render
is_empty-render true [] h = refl
is_empty-render false [] h = refl
is_empty-render true (p ∷ []) h = refl
is_empty-render false (p ∷ []) h = part-is_empty false p [] h
is_empty-render r (p ∷ q ∷ s) h =
    rw (render-cons r p q s) (is_empty-append _ (slash ∷ p) (is_empty-render r (q ∷ s) h.1))

is_rooted-render : (r : Bool) (s : List Text) → Normal r s → is_rooted (render r s) ≡ r
unfolding render
is_rooted-render true [] h = refl
is_rooted-render false [] h = refl
is_rooted-render true (p ∷ []) h = refl
is_rooted-render false (p ∷ []) h = is_rooted-NoSlash p (part-NoSlash false p [] h)
is_rooted-render r (p ∷ q ∷ s) h = rw (render-cons r p q s) (
    is_rooted-append (render r (q ∷ s)) (slash ∷ p) (is_empty-render r (q ∷ s) h.1)
    ∙ is_rooted-render r (q ∷ s) h.1)

stack_of-part :
    (r : Bool) (p : Text) (s : List Text) → Normal r (p ∷ s) → push_all r s (split_slash p) ≡ p ∷ s
unfolding push_all
stack_of-part r p s h = rw (split_slash-NoSlash p (part-NoSlash r p s h)) (push-top r p s h)

stack_of-root : stack_of true (slash ∷ []) ≡ []
unfolding stack_of push_all push split_slash same_text
stack_of-root = refl

stack_of-dot : stack_of false (codes ".") ≡ []
unfolding stack_of push_all push split_slash same_text
stack_of-dot = refl

stack_of-empty : (r : Bool) → stack_of r [] ≡ []
unfolding stack_of push_all push split_slash same_text
stack_of-empty r = refl

-- A stack is read back from its path.
stack_of-render : (r : Bool) (s : List Text) → Normal r s → stack_of r (render r s) ≡ s
unfolding render
stack_of-render true [] h = stack_of-root
stack_of-render false [] h = stack_of-dot
stack_of-render true (p ∷ []) h =
    stack_of-append true [] p
    ∙ ap (λ (u : List Text). push_all true u (split_slash p)) (stack_of-empty true)
    ∙ stack_of-part true p [] h
stack_of-render false (p ∷ []) h = unfold stack_of in stack_of-part false p [] h
stack_of-render r (p ∷ q ∷ s) h = rw (render-cons r p q s) (
    stack_of-append r (render r (q ∷ s)) p
    ∙ ap (λ (u : List Text). push_all r u (split_slash p)) (stack_of-render r (q ∷ s) h.1)
    ∙ stack_of-part r p (q ∷ s) h)

stack_of-clean : (p : Text) → stack_of (is_rooted p) (clean p) ≡ stack_of (is_rooted p) p
unfolding clean stack_of
stack_of-clean p = stack_of-render (is_rooted p) _ (stack_of-Normal (is_rooted p) p)

is_rooted-clean : (p : Text) → is_rooted (clean p) ≡ is_rooted p
unfolding clean stack_of
is_rooted-clean p = is_rooted-render (is_rooted p) _ (stack_of-Normal (is_rooted p) p)

pub is_empty-clean : (p : Text) → is_empty (clean p) ≡ false
unfolding clean stack_of
is_empty-clean p = is_empty-render (is_rooted p) _ (stack_of-Normal (is_rooted p) p)

clean_stack : (p : Text) → clean p ≡ render (is_rooted p) (stack_of (is_rooted p) p)
unfolding clean stack_of
clean_stack p = refl

-- Two paths of one kind with one stack are cleaned alike.
clean_same :
    (p q : Text) (r : Bool)
    → is_rooted p ≡ r
    → is_rooted q ≡ r
    → stack_of r p ≡ stack_of r q
    → clean p ≡ clean q
clean_same p q r h k e = rw (clean_stack p, clean_stack q) (rw (h, k) (ap (render r) e))

pub clean-clean : (p : Text) → clean (clean p) ≡ clean p
clean-clean p = clean_same (clean p) p (is_rooted p) (is_rooted-clean p) refl (stack_of-clean p)

push_all-nothing : (r : Bool) (s : List Text) → push_all r s (split_slash []) ≡ s
unfolding push_all push split_slash
push_all-nothing r s = refl

stack_of-snoc_slash : (r : Bool) (p : Text) → stack_of r (p ++ slash ∷ []) ≡ stack_of r p
stack_of-snoc_slash r p = stack_of-append r p [] ∙ push_all-nothing r (stack_of r p)

-- A slash at the end is dropped.
pub clean-snoc_slash : (p : Text) → is_empty p ≡ false → clean (p ++ slash ∷ []) ≡ clean p
clean-snoc_slash p h =
    clean_same (p ++ slash ∷ []) p (is_rooted p) (is_rooted-append p (slash ∷ []) h) refl
      (stack_of-snoc_slash (is_rooted p) p)

-- A name below a cleaned path is a name below the path.
pub clean-clean-slash :
    (p f : Text)
    → is_empty p ≡ false
    → IsName f
    → clean (clean p ++ slash ∷ f) ≡ clean (p ++ slash ∷ f)
clean-clean-slash p f h n =
    let r = is_rooted p in
    clean_same (clean p ++ slash ∷ f) (p ++ slash ∷ f) r
      (is_rooted-append (clean p) (slash ∷ f) (is_empty-clean p) ∙ is_rooted-clean p)
      (is_rooted-append p (slash ∷ f) h)
      (stack_of-slash r (clean p) f n
        ∙ ap (λ (s : List Text). f ∷ s) (stack_of-clean p)
        ∙ sym (stack_of-slash r p f n))
