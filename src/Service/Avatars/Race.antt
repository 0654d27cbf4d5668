-- ===== src/Service/Avatars/Race.antt =====
-- daemon/dbus/service.go: the event `Picture` while the goroutine of `scheduleAvatarFetch` runs.
use kha_app.Prelude.{
  ℕ, ◌+◌, ◌<◌, ◌≡◌, refl, arith, true, false, none, some, List, Text, same_text_refl,
}
use kha_app.Prelude.Result.{Result, ok, err, Outcome}
use kha_app.Prelude.Dict.{mem, remove, mem-remove}
use kha_app.Protocol.Event.{picture}
use kha_app.Service.State.{Service, File, emit}
use kha_app.Service.Avatars.{
  stat, write_file, schedule_avatar_fetch, avatar_ttl, get_profile_picture, invalidate_avatar_cache,
  FetchAnswers, has_url, all_done, fetch_body, fetch_avatar,
}
use kha_app.Service.Avatars.Downloads.{Tracked}
use kha_app.Service.Loop.{LoopAnswers, on_event}

-- The fetch has a path, a picture and its bytes, and writes them.
pub record Succeeds (b : FetchAnswers) (path : Text) : Type 0 where
  pub has_path : b.path ≡ ok path
  pub has_picture : has_url b.picture_url ≡ true
  pub has_bytes : all_done b ≡ true

-- The event is handled while the fetch runs, which then comes to its end.
abbrev pub overtaken : LoopAnswers → FetchAnswers → Text → Service → Service
overtaken a b jid m = fetch_avatar jid b (on_event a (picture jid) m)

-- Where the fetch of a chat's picture runs, the event only removes the file, if it can.
on_event-running :
    (a : LoopAnswers) (jid : Text) (m : Service)
    → Tracked m
    → mem jid m.fetches ≡ true
    → on_event a (picture jid) m ≡ invalidate_avatar_cache a.avatar_removed (a.avatar_path jid) m
unfolding on_event schedule_avatar_fetch invalidate_avatar_cache
on_event-running a jid m h runs = ground (arith, h.marks jid)

-- What a fetch that succeeds leaves.
record Written (b : FetchAnswers) (path jid : Text) (m n : Service) : Type 0 where
  files : n.files ≡ write_file path b.now m.files
  fetches : n.fetches ≡ remove jid m.fetches

fetch_avatar-Written :
    (b : FetchAnswers) (path jid : Text) (m : Service)
    → Succeeds b path
    → mem jid m.fetches ≡ true
    → Written b path jid m (fetch_avatar jid b m)
unfolding fetch_avatar fetch_body emit
fetch_avatar-Written b path jid m s runs = record {
  files = rw (runs, s.has_path, s.has_picture, s.has_bytes) refl;
  fetches = rw (runs, s.has_path, s.has_picture, s.has_bytes) refl;
}

stat-write_file :
    (path : Text) (now : ℕ) (fs : List File)
    → stat path (write_file path now fs) ≡ some (record { path = path; mod_time = now })
unfolding stat write_file
stat-write_file path now fs = rw (same_text_refl path) refl

fetches-invalidate :
    (o : Outcome) (r : Result Text) (m : Service)
    → (invalidate_avatar_cache o r m).fetches ≡ m.fetches
unfolding invalidate_avatar_cache
fetches-invalidate o (err e) m = refl
fetches-invalidate none (ok path) m = refl
fetches-invalidate (some e) (ok path) m = refl

-- Where a chat's picture changes while it is being fetched, the event is lost: it starts no fetch,
-- and if the fetch that runs then writes the picture that it was given, this is the picture that
-- is shown for a day from then on, without a fetch of the new one.
pub overtaken_is_shown :
    (a : LoopAnswers) (b : FetchAnswers) (jid path : Text) (t : ℕ) (m : Service)
    → Tracked m
    → mem jid m.fetches ≡ true
    → Succeeds b path
    → t < b.now + avatar_ttl
    → (get_profile_picture (ok path) jid t (overtaken a b jid m) ≡ (path, overtaken a b jid m))
      × (mem jid (overtaken a b jid m).fetches ≡ false)
unfolding get_profile_picture
overtaken_is_shown a b jid path t m h runs s soon =
    let m1 = invalidate_avatar_cache a.avatar_removed (a.avatar_path jid) m in
    let w =
      fetch_avatar-Written b path jid m1 s
        (rw (fetches-invalidate a.avatar_removed (a.avatar_path jid) m) runs) in
    rw (on_event-running a jid m h runs) (
      rw (w.files, stat-write_file path b.now m1.files) (ground arith),
      rw (w.fetches, mem-remove jid jid m1.fetches, same_text_refl jid) refl,
    )
