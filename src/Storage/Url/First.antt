-- ===== src/Storage/Url/First.antt =====
-- `extractFirstURL` against a description of the first URL of a text.
use mathlib.Core.List.{append-nil, append_assoc, reverse}
use kha_app.Prelude.{
  ℕ, ◌≡◌, refl, sym, ap, ◌∙◌, ◌≢◌, ◌⊎◌, inl, inr, ◌↔◌, Bool, true, false, none, some, [], ◌∷◌, ◌++◌,
  arith, All, Text, is_empty, ==_iff, Bool-cases, Option-cases, trim_right, has_code,
}
use kha_app.Prelude.Trim.{HeadFails, trim_right_lem, trim_right-append}
use kha_app.Storage.Url.{
  regexp_space, strip_prefix, non_spaces, https_scheme, http_scheme, match_rest, match_at,
  find_string, url_cutset, extract_first_url,
}

abbrev NoSpace : ℕ → Type 0
NoSpace c = regexp_space c ≡ false

-- A scheme and a run of one or more characters that are no space.
abbrev pub IsUrl : Text → Type 0
IsUrl u = (r : Text) × ((u ≡ https_scheme ++ r) ⊎ (u ≡ http_scheme ++ r)) × (r ≢ []) × All NoSpace r

-- No URL begins at the front of the text.
abbrev pub NoUrlAt : Text → Type 0
NoUrlAt s = (u v : Text) → IsUrl u → s ≢ u ++ v

-- The URL runs up to a space or the end of the text.
abbrev pub Stops : Text → Type 0
Stops [] = Unit
Stops (c ∷ s) = regexp_space c ≡ true

-- No URL begins in the first text, followed by the second.
abbrev pub Skips : Text → Text → Type 0
Skips [] rest = Unit
Skips (c ∷ s) rest = NoUrlAt (c ∷ (s ++ rest)) × Skips s rest

strip_prefix_iff : (p s r : Text) → (strip_prefix p s ≡ some r) ↔ (s ≡ p ++ r)
unfolding strip_prefix
strip_prefix_iff [] s r = ground arith
strip_prefix_iff (d ∷ p) [] r = ground arith
strip_prefix_iff (d ∷ p) (c ∷ s) r = ground (arith, ==_iff c d, strip_prefix_iff p s r)

-- The run splits the text at its first space.
non_spaces_lem :
    (s : Text)
    → (post : Text) × (s ≡ non_spaces s ++ post) × All NoSpace (non_spaces s) × Stops post
unfolding non_spaces
non_spaces_lem [] = ([], refl, tt, tt)
non_spaces_lem (c ∷ s) = elim (Bool-cases (regexp_space c)) [
  | inl e ↦ rw e (c ∷ s, refl, tt, e)
  | inr e ↦
      let (post, split, clean, stops) = non_spaces_lem s in
      rw e (post, ap (λ (t : Text). c ∷ t) split, (e, clean), stops)
]

-- A run of characters that are no space, at the front of a text, is not empty if one is there.
non_spaces-ne-nil : (r v : Text) → r ≢ [] → All NoSpace r → is_empty (non_spaces (r ++ v)) ≡ false
unfolding non_spaces
non_spaces-ne-nil [] v h clean = absurd (h refl)
non_spaces-ne-nil (c ∷ r) v h clean = rw (clean.0)

-- A URL of one scheme at the front of the text.
abbrev Front : Text → Text → Text → Type 0
Front scheme s r = (r ≢ []) × All NoSpace r × ((v : Text) × (s ≡ scheme ++ (r ++ v)))

strips : (scheme s r v : Text) → s ≡ scheme ++ (r ++ v) → strip_prefix scheme s ≡ some (r ++ v)
strips scheme s r v e = (strip_prefix_iff scheme s (r ++ v)).1 e

ne-nil_of_not_empty : (s : Text) → is_empty s ≡ false → s ≢ []
ne-nil_of_not_empty s h = ground arith

Front-empty :
    (scheme s t : Text)
    → strip_prefix scheme s ≡ some t
    → is_empty (non_spaces t) ≡ true
    → (r : Text) → ¬ Front scheme s r
Front-empty scheme s t e none_left r (h, clean, (v, split)) =
    ground (arith, strips scheme s r v split, non_spaces-ne-nil r v h clean)

-- One scheme at one position: either no URL of the scheme begins there, or the longest one does.
match_rest_lem :
    (scheme s : Text)
    → ((match_rest scheme (strip_prefix scheme s) ≡ none) × ((r : Text) → ¬ Front scheme s r))
      ⊎ ((r post : Text) × (match_rest scheme (strip_prefix scheme s) ≡ some (scheme ++ r))
          × (s ≡ scheme ++ (r ++ post))
          × (r ≢ [])
          × All NoSpace r
          × Stops post)
unfolding match_rest
match_rest_lem scheme s = elim (Option-cases (strip_prefix scheme s)) [
  | inl e ↦ inl (rw e, λ r f. cc (e, strips scheme s r f.2.0 f.2.1))
  | inr (t, e) ↦ elim (Bool-cases (is_empty (non_spaces t))) [
    | inl b ↦ inl (rw (e, match_rest) (rw b), Front-empty scheme s t e b)
    | inr b ↦
        let (post, split, clean, stops) = non_spaces_lem t in
        inr (
          non_spaces t,
          post,
          rw (e, match_rest) (rw b),
          (strip_prefix_iff scheme s t).0 e ∙ ap (λ (u : Text). scheme ++ u) split,
          ne-nil_of_not_empty _ b,
          clean,
          stops,
        )
  ]
]

-- One position: either no URL begins there, or the longest one that does is the match.
match_at_lem :
    (s : Text)
    → ((match_at s ≡ none) × NoUrlAt s)
      ⊎ ((m post : Text) × (match_at s ≡ some m) × (s ≡ m ++ post) × IsUrl m × Stops post)
unfolding match_at
match_at_lem s = elim (match_rest_lem https_scheme s) [
  | inr (r, post, e, split, ne, clean, stops) ↦ inr (
    https_scheme ++ r,
    post,
    rw e,
    split ∙ sym (append_assoc https_scheme r post),
    (r, inl refl, ne, clean),
    stops,
  )
  | inl (e, no_https) ↦ elim (match_rest_lem http_scheme s) [
    | inr (r, post, e', split, ne, clean, stops) ↦ inr (
      http_scheme ++ r,
      post,
      rw (e, e'),
      split ∙ sym (append_assoc http_scheme r post),
      (r, inr refl, ne, clean),
      stops,
    )
    | inl (e', no_http) ↦ inl (rw (e, e'), no_url no_https no_http)
  ]
]
  where
    no_url :
        ((r : Text) → ¬ Front https_scheme s r) → ((r : Text) → ¬ Front http_scheme s r) → NoUrlAt s
    no_url h k u v (r, inl e, ne, clean) split =
        h r (ne, clean, (v, split ∙ ap (λ (x : Text). x ++ v) e ∙ append_assoc https_scheme r v))
    no_url h k u v (r, inr e, ne, clean) split =
        k r (ne, clean, (v, split ∙ ap (λ (x : Text). x ++ v) e ∙ append_assoc http_scheme r v))

-- What `FindString` returns: nothing where no URL begins anywhere, and else the leftmost URL.
abbrev pub Finds : Text → Text → Type 0
Finds s m =
    ((m ≡ []) × Skips s [])
    ⊎ ((pre post : Text) × (s ≡ pre ++ (m ++ post)) × IsUrl m × Skips pre (m ++ post) × Stops post)

find_string-Finds : (s : Text) → Finds s (find_string s)
unfolding find_string
find_string-Finds [] = inl (refl, tt)
find_string-Finds (c ∷ s) = elim (match_at_lem (c ∷ s)) [
  | inr (m, post, e, split, url, stops) ↦
      rw (e, find_string) (inr ([], post, split, url, tt, stops))
  | inl (e, none_here) ↦
      rw (e, find_string) (further (find_string s) none_here (find_string-Finds s))
]
  where
    further : (m : Text) → NoUrlAt (c ∷ s) → Finds s m → Finds (c ∷ s) m
    further m here (inl (e, skips)) = inl (e, (rw append-nil here, skips))
    further m here (inr (pre, post, split, url, skips, stops)) =
        inr (c ∷ pre, post, ap (λ (x : Text). c ∷ x) split, url, (rw (← split) here, skips), stops)

abbrev in_cutset : ℕ → Bool
in_cutset c = has_code c url_cutset

-- The result is the URL less the characters of the cutset at its end, and no more of them is left.
abbrev pub IsTrimmed : Text → Text → Type 0
IsTrimmed m u =
    (tail : Text) × (m ≡ u ++ tail)
    × All (λ c. has_code c url_cutset ≡ true) tail
    × HeadFails (λ c. has_code c url_cutset) (reverse u)

abbrev pub HasScheme : Text → Type 0
HasScheme u = (r : Text) × ((u ≡ https_scheme ++ r) ⊎ (u ≡ http_scheme ++ r))

trimmed-HasScheme : (m : Text) → IsUrl m → HasScheme (trim_right in_cutset m)
unfolding has_code
trimmed-HasScheme m (r, inl e, ne, clean) =
    (trim_right in_cutset r, inl (rw e (trim_right-append in_cutset https_scheme r refl)))
trimmed-HasScheme m (r, inr e, ne, clean) =
    (trim_right in_cutset r, inr (rw e (trim_right-append in_cutset http_scheme r refl)))

-- The preview URL of a text: empty where no URL begins anywhere in the text, and else the leftmost
-- URL, up to the next space or the end, less the characters of the cutset at its end; the scheme
-- and its slashes are always kept.
pub extract_first_url_lem :
    (s : Text)
    → ((extract_first_url s ≡ []) × Skips s [])
      ⊎ ((pre m post : Text) × (s ≡ pre ++ (m ++ post))
          × IsUrl m
          × Skips pre (m ++ post)
          × Stops post
          × IsTrimmed m (extract_first_url s)
          × HasScheme (extract_first_url s))
unfolding extract_first_url
extract_first_url_lem s = elim (find_string-Finds s) [
  | inl (e, skips) ↦ inl (rw e refl, skips)
  | inr (pre, post, split, url, skips, stops) ↦ inr (
    pre,
    find_string s,
    post,
    split,
    url,
    skips,
    stops,
    trim_right_lem in_cutset (find_string s),
    trimmed-HasScheme (find_string s) url,
  )
]
