-- ===== src/Service/Paths.antt =====
-- daemon/dbus/service.go: `avatarCachePath` and `mediaCacheDir`, with the lexical part of Go's
-- `filepath.Join`. The environment and the home directory are arguments.
pub mod Clean
pub mod Normal
pub mod Inside
use mathlib.Core.List.{reverse}
use kha_app.Prelude.{
  ℕ, Bool, true, false, ◌||◌, List, [], ◌∷◌, ◌++◌, map, ◌==◌, Text, codes, is_empty, same_text,
  if◌then◌else◌,
}
use kha_app.Prelude.Result.{Result, ok, err, ◌>>=◌}

abbrev pub slash : ℕ
slash = b'/'

-- The parts between the slashes: one more than there are slashes.
abbrev pub cons_head : ℕ → List Text → List Text
cons_head c [] = (c ∷ []) ∷ []
cons_head c (p ∷ ps) = (c ∷ p) ∷ ps

unfoldable pub split_slash : Text → List Text
split_slash [] = [] ∷ []
split_slash (c ∷ s) = if c == slash then [] ∷ split_slash s else cons_head c (split_slash s)

abbrev pub dot_dot : Text
dot_dot = codes ".."

abbrev pub is_rooted : Text → Bool
is_rooted [] = false
is_rooted (c ∷ s) = c == slash

abbrev pub pop : Bool → List Text → List Text
pop true [] = []
pop false [] = dot_dot ∷ []
pop rooted (top ∷ rest) = if same_text top dot_dot then dot_dot ∷ top ∷ rest else rest

-- One part of `filepath.Clean`, on the stack of the parts that stay, the last one on top.
unfoldable pub push : Bool → List Text → Text → List Text
unfolding same_text
push rooted stack p =
    if is_empty p || same_text p (codes ".")
    then stack
    else if same_text p dot_dot
    then pop rooted stack
    else p ∷ stack

unfoldable pub push_all : Bool → List Text → List Text → List Text
unfolding push
push_all rooted stack [] = stack
push_all rooted stack (p ∷ ps) = push_all rooted (push rooted stack p) ps

-- The stack as a path.
unfoldable pub render : Bool → List Text → Text
render true [] = slash ∷ []
render false [] = codes "."
render true (p ∷ []) = slash ∷ p
render false (p ∷ []) = p
render rooted (p ∷ q ∷ ps) = render rooted (q ∷ ps) ++ slash ∷ p

unfoldable pub clean : Text → Text
unfolding split_slash push_all render
clean path = render (is_rooted path) (push_all (is_rooted path) [] (split_slash path))

-- `strings.Join(elems, "/")` without the empty elements.
unfoldable pub join_elems : List Text → Text
join_elems [] = []
join_elems (e ∷ es) =
    let rest = join_elems es in
    if is_empty e then rest else if is_empty rest then e else e ++ slash ∷ rest

unfoldable pub join : List Text → Text
unfolding join_elems clean
join elems = if is_empty (join_elems elems) then [] else clean (join_elems elems)

-- `os.Getenv("XDG_CACHE_HOME")` and `os.UserHomeDir`.
pub record Env : Type 0 where
  pub cache_home : Text
  pub home_dir : Result Text

-- `strings.NewReplacer("@", "_", ".", "_", "/", "_")`.
unfoldable pub sanitize_code : ℕ → ℕ
sanitize_code c = if c == b'@' || c == b'.' || c == b'/' then b'_' else c

unfoldable pub sanitized : Text → Text
unfolding sanitize_code
sanitized jid = map sanitize_code jid

unfoldable pub avatar_file_name : Text → Text
unfolding sanitized
avatar_file_name jid = sanitized jid ++ codes ".png"

unfoldable pub avatar_cache_path : Env → Text → Result Text
unfolding avatar_file_name join
avatar_cache_path e jid =
    if is_empty e.cache_home
    then (e.home_dir >>= λ home. ok (
        join
          (home ∷ codes ".cache" ∷ codes "khaapp" ∷ codes "avatars" ∷ avatar_file_name jid ∷ [])))
    else ok (join (e.cache_home ∷ codes "khaapp" ∷ codes "avatars" ∷ avatar_file_name jid ∷ []))

unfoldable pub media_cache_dir : Env → Text → Result Text
unfolding join
media_cache_dir e jid =
    if is_empty e.cache_home
    then (e.home_dir >>= λ home.
        ok (join (home ∷ codes ".cache" ∷ codes "khaapp" ∷ codes "media" ∷ jid ∷ [])))
    else ok (join (e.cache_home ∷ codes "khaapp" ∷ codes "media" ∷ jid ∷ []))
