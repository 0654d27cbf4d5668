-- ===== src/Storage/Url.antt =====
-- daemon/storage/messages.go: `urlRegexp` and `extractFirstURL`. The regular expression
-- `https?://[^\s]+` is run as its leftmost match: each position is tried in turn, the `s` is taken
-- where it can be, and the run of characters that are no space is taken whole.
pub mod First
use mathlib.Core.Option
use kha_app.Prelude.{
  ℕ, ◌≡◌, refl, Bool, not, ◌&&◌, ◌||◌, Option, none, some, List, [], ◌∷◌, ◌++◌, ◌==◌, leb, Text,
  codes, is_empty, trim_left, trim_right, has_code, if◌then◌else◌,
}

-- The class `\s` of Go's regular expressions: tab, line feed, form feed, carriage return, blank.
unfoldable pub regexp_space : ℕ → Bool
regexp_space c = c == 9 || c == 10 || c == 12 || c == 13 || c == 32

-- What follows a literal, if the text begins with it.
unfoldable pub strip_prefix : Text → Text → Option Text
strip_prefix [] s = some s
strip_prefix (d ∷ p) [] = none
strip_prefix (d ∷ p) (c ∷ s) = if c == d then strip_prefix p s else none

-- `[^\s]*`, which takes as much as there is.
unfoldable pub non_spaces : Text → Text
unfolding regexp_space
non_spaces [] = []
non_spaces (c ∷ s) = if regexp_space c then [] else c ∷ non_spaces s

abbrev pub https_scheme : Text
https_scheme = codes "https://"

abbrev pub http_scheme : Text
http_scheme = codes "http://"

-- `[^\s]+` behind a scheme.
unfoldable pub match_rest : Text → Option Text → Option Text
unfolding non_spaces
match_rest scheme none = none
match_rest scheme (some r) = if is_empty (non_spaces r) then none else some (scheme ++ non_spaces r)

abbrev first_some : Option Text → Option Text → Option Text
first_some none b = b
first_some (some m) b = some m

-- The regular expression at one position.
unfoldable pub match_at : Text → Option Text
unfolding strip_prefix match_rest
match_at s =
    first_some (match_rest https_scheme (strip_prefix https_scheme s))
      (match_rest http_scheme (strip_prefix http_scheme s))

-- `urlRegexp.FindString`: the leftmost match, or the empty text.
unfoldable pub find_string : Text → Text
unfolding match_at
find_string [] = []
find_string (c ∷ s) =
    let rest = find_string s in elim (match_at (c ∷ s)) [ some m ↦ m | none ↦ rest ]

-- The cutset of `strings.TrimRight`.
abbrev pub url_cutset : Text
url_cutset = codes ".,;:!?)]}\"'"

unfoldable pub extract_first_url : Text → Text
unfolding find_string trim_right has_code
extract_first_url text = trim_right (λ c. has_code c url_cutset) (find_string text)
