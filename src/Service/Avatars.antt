-- ===== src/Service/Avatars.antt =====
-- daemon/dbus/service.go: `GetProfilePicture`, `scheduleAvatarFetch` with its goroutine, and
-- `invalidateAvatarCache`. Paths, the clock, and what the file system and the client answer are
-- arguments.
pub mod Downloads
pub mod Race
pub mod Fetched
use kha_app.Prelude.{
  ℕ, ◌+◌, Bool, true, false, Option, none, some, List, [], ◌∷◌, ltb, Text, is_empty, same_text,
  if◌then◌else◌,
}
use kha_app.Prelude.Result.{Result, ok, err, Outcome}
use kha_app.Prelude.Dict.{mem, remove}
use kha_app.Service.State.{Service, File, emit, avatar_updated}

-- `os.Stat`, `os.Remove` and `os.WriteFile` on the files of the avatar cache.
unfoldable pub stat : Text → List File → Option File
stat path [] = none
stat path (f ∷ fs) = if same_text path f.path then some f else stat path fs

unfoldable pub remove_file : Text → List File → List File
remove_file path [] = []
remove_file path (f ∷ fs) =
    if same_text path f.path then remove_file path fs else f ∷ remove_file path fs

unfoldable pub write_file : Text → ℕ → List File → List File
unfolding remove_file
write_file path now fs = record { path = path; mod_time = now } ∷ remove_file path fs

-- A chat whose download runs is not scheduled again.
unfoldable pub schedule_avatar_fetch : Text → Service → Service
unfolding mem
schedule_avatar_fetch jid m =
    if mem jid m.avatar_downloads
    then m
    else record m { avatar_downloads = jid ∷ m.avatar_downloads; fetches = jid ∷ m.fetches }

-- `24 * time.Hour`.
abbrev pub avatar_ttl : ℕ
avatar_ttl = 86400

abbrev pub picture_at : Text → Text → ℕ → Option File → Service → Text × Service
picture_at jid path now none m = ([], schedule_avatar_fetch jid m)
picture_at jid path now (some f) m =
    (path, if ltb now (f.mod_time + avatar_ttl) then m else schedule_avatar_fetch jid m)

unfoldable pub get_profile_picture : Result Text → Text → ℕ → Service → Text × Service
unfolding stat schedule_avatar_fetch
get_profile_picture (err e) jid now m = ([], m)
get_profile_picture (ok path) jid now m = picture_at jid path now (stat path m.files) m

-- The error of `os.Remove` is ignored; the file then stays.
unfoldable pub invalidate_avatar_cache : Outcome → Result Text → Service → Service
unfolding remove_file
invalidate_avatar_cache o (err e) m = m
invalidate_avatar_cache none (ok path) m = record m { files = remove_file path m.files }
invalidate_avatar_cache (some e) (ok path) m = m

-- What the goroutine is answered: the path, the URL of the picture (`none` where `info` is nil),
-- the download, the two calls of the file system, whether a write that fails has begun the file,
-- and the clock at the write.
pub record FetchAnswers : Type 0 where
  pub path : Result Text
  pub picture_url : Result (Option Text)
  pub download : Outcome
  pub mkdir : Outcome
  pub write : Outcome
  pub begins_file : Bool
  pub now : ℕ

abbrev pub has_url : Result (Option Text) → Bool
has_url (err e) = false
has_url (ok none) = false
has_url (ok (some [])) = false
has_url (ok (some (c ∷ url))) = true

abbrev pub all_done : FetchAnswers → Bool
all_done a = elim a.download [
  | some e ↦ false
  | none ↦ elim a.mkdir [ some e ↦ false | none ↦ elim a.write [ some e ↦ false | none ↦ true ] ]
]

-- Where not all is done, a write that failed may have left a part of the picture, which nobody
-- removes.
abbrev pub leaves_part : FetchAnswers → Bool
leaves_part a = elim a.download [
  | some e ↦ false
  | none ↦ elim a.mkdir [ some e ↦ false | none ↦ a.begins_file ]
]

-- The body of the goroutine, up to its deferred deletion.
unfoldable pub fetch_body : Text → FetchAnswers → Service → Service
unfolding write_file
fetch_body jid a m = elim a.path [
  | err e ↦ m
  | ok path ↦
      if has_url a.picture_url
      then (if all_done a
          then emit (avatar_updated jid path) (record m { files = write_file path a.now m.files })
          else if leaves_part a
          then record m { files = write_file path a.now m.files }
          else m)
      else m
]

-- The goroutine of a chat runs to its end.
unfoldable pub fetch_avatar : Text → FetchAnswers → Service → Service
unfolding mem remove fetch_body
fetch_avatar jid a m =
    if mem jid m.fetches
    then (let n = fetch_body jid a m in
        record n {
          avatar_downloads = remove jid n.avatar_downloads;
          fetches = remove jid n.fetches;
        })
    else m
