-- ===== src/Main.antt =====
-- daemon/cmd/main.go: `resolveStorePath`, and the paths of the two databases that `main` opens.
pub mod Stores
pub mod Start
use mathlib.Core.List.{reverse}
use kha_app.Prelude.{
  Bool, true, false, ◌==◌, List, [], ◌∷◌, ◌++◌, Text, codes, is_empty, if◌then◌else◌,
}
use kha_app.Prelude.Result.{Result, ok, err, ◌>>=◌}
use kha_app.Service.Paths.{slash, clean, join}

-- `os.Getenv("XDG_DATA_HOME")` and `os.UserHomeDir`.
pub record DataEnv : Type 0 where
  pub data_home : Text
  pub home_dir : Result Text

abbrev pub store_in_home : Text → Result Text
store_in_home home =
    if is_empty home
    then err (codes "user home directory is empty")
    else ok
        (join (home ∷ codes ".local" ∷ codes "share" ∷ codes "khaapp" ∷ codes "session.db" ∷ []))

unfoldable pub resolve_store_path : DataEnv → Result Text
unfolding join
resolve_store_path e =
    if is_empty e.data_home
    then e.home_dir >>= store_in_home
    else ok (join (e.data_home ∷ codes "khaapp" ∷ codes "session.db" ∷ []))

-- The text up to the last slash, which stays.
abbrev pub up_to_slash : Text → Text
up_to_slash [] = []
up_to_slash (c ∷ s) = if c == slash then c ∷ s else up_to_slash s

-- `filepath.Dir`.
unfoldable pub dir : Text → Text
unfolding clean
dir path = clean (reverse (up_to_slash (reverse path)))

unfoldable pub message_store_path : Text → Text
unfolding dir join
message_store_path store_path = join (dir store_path ∷ codes "messages.db" ∷ [])
