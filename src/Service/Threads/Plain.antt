-- ===== src/Service/Threads/Plain.antt =====
-- daemon/dbus/service.go: that only `setStatus` emits `ConnectionStatusChanged`.
pub mod Calls
use kha_app.Prelude.{
  ℕ, ◌≡◌, refl, Bool, true, false, not, ◌&&◌, ◌||◌, ltb, ◌+◌, pos, eqb_ℤ, Option, none, some, List,
  [], ◌∷◌, arith, ℤ, Text, if◌then◌else◌,
}
use kha_app.Prelude.Result.{Result, ok, err, Outcome}
use kha_app.Storage.Message.{StoredMessage}
use kha_app.Storage.Table.{Table}
use kha_app.Storage.Query.{Engine, get_recent_chats}
use kha_app.Protocol.Event.{
  Event, MessageEvent, ContactInfo, composing, paused, unknown_presence, message, connected,
  disconnected, logged_out, receipt, chat_presence, group_info, picture, unhandled,
}
use kha_app.Protocol.Receipt.{map_receipt_type}
use kha_app.Service.State.{Status, GroupInfo, File, avatar_updated}
use kha_app.Service.Told.{is_other}
use kha_app.Service.Login.{AutoAnswers, LoginAnswers, is_pending, QrItem, code, timeout, other_item}
use kha_app.Service.Groups.{RawGroup}
use kha_app.Service.Avatars.{FetchAnswers, avatar_ttl, has_url, all_done, leaves_part}
use kha_app.Service.Loop.{LoopAnswers}
use kha_app.Service.Chats.{ChatAnswers, group_name, person_name}
use kha_app.Service.Run.{
  Call, auto_connects, requests_login, reads_qr, logs_out, gets_event, loads_group, gets_picture,
  lists_chats, fetches_avatar,
}
use kha_app.Service.Threads.{
  Program, ◌>>=◌, returns, sets_status, reads_status, emits, looks_up, stores, deletes, stats,
  removes_file, writes_file, schedules, unmarks,
}
use kha_app.Service.Threads.Programs.{
  auto_connect_program, request_login_program, qr_item_program, logout_program,
  load_group_info_program, get_profile_picture_program, fetch_program, cached_program,
  picture_program, connect_program, qr_channel_program, encoded_program,
}
use kha_app.Service.Threads.Loops.{
  message_program, acknowledge_program, on_event_program, invalidate_program, chat_name_program,
  chat_program, chats_program, listed_program, get_chats_program, program_of,
}

-- A program that emits `ConnectionStatusChanged` through `setStatus` alone.
abbrev pub Plain : {A : Type 0} → Program A → Type 0
Plain (returns a) = Unit
Plain (sets_status s p) = Plain p
Plain (reads_status f) = (s : Status) → Plain (f s)
Plain (emits x p) = (is_other x ≡ true) × Plain p
Plain (looks_up jid now f) = (o : _) → Plain (f o)
Plain (stores jid info later p) = Plain p
Plain (deletes jid p) = Plain p
Plain (stats path f) = (o : _) → Plain (f o)
Plain (removes_file path p) = Plain p
Plain (writes_file path now p) = Plain p
Plain (schedules jid p) = Plain p
Plain (unmarks jid p) = Plain p

pub Plain->>= :
    {A B : Type 0} (p : Program A) (k : A → Program B)
    → Plain p
    → ((a : A) → Plain (k a))
    → Plain (p >>= k)
Plain->>= (returns a) k h f = f a
Plain->>= (sets_status s p) k h f = Plain->>= p k h f
Plain->>= (reads_status g) k h f = λ s. Plain->>= (g s) k (h s) f
Plain->>= (emits x p) k h f = (h.0, Plain->>= p k h.1 f)
Plain->>= (looks_up jid now g) k h f = λ o. Plain->>= (g o) k (h o) f
Plain->>= (stores jid info later p) k h f = Plain->>= p k h f
Plain->>= (deletes jid p) k h f = Plain->>= p k h f
Plain->>= (stats path g) k h f = λ o. Plain->>= (g o) k (h o) f
Plain->>= (removes_file path p) k h f = Plain->>= p k h f
Plain->>= (writes_file path now p) k h f = Plain->>= p k h f
Plain->>= (schedules jid p) k h f = Plain->>= p k h f
Plain->>= (unmarks jid p) k h f = Plain->>= p k h f

pub if-Plain :
    {A : Type 0} (b : Bool) (p q : Program A) → Plain p → Plain q → Plain (if b then p else q)
if-Plain true p q h k = h
if-Plain false p q h k = k

pub auto_connect-Plain : (a : AutoAnswers) → Plain (auto_connect_program a)
unfolding auto_connect_program
auto_connect-Plain a =
    if-Plain (not a.has_session || a.is_connected) (returns none) _ tt (connected_as a.connect)
  where
    connected_as : (o : Outcome) → Plain (connect_program o)
    connected_as none = tt
    connected_as (some e) = tt

pub request_login-Plain : (a : LoginAnswers) → Plain (request_login_program a)
unfolding request_login_program
request_login-Plain a = λ s.
    if-Plain (a.is_connected || is_pending s) (returns (none, false)) _ tt (
      if-Plain a.has_session (auto_connect_program a.auto >>= (λ e. returns (e, false)))
        (sets_status Status.connecting (qr_channel_program a.get_qr_channel a.connect))
        (Plain->>= (auto_connect_program a.auto) _ (auto_connect-Plain a.auto) (λ e. tt))
        (by_qr a.get_qr_channel a.connect))
  where
    by_qr : (o p : Outcome) → Plain (qr_channel_program o p)
    by_qr none none = tt
    by_qr none (some e) = tt
    by_qr (some e) p = tt

pub qr_item-Plain :
    (gen : Text → Result Text) (phone : Text) (i : QrItem) → Plain (qr_item_program gen phone i)
unfolding qr_item_program
qr_item-Plain gen phone (code c) = encoded_as (gen c)
  where
    encoded_as : (r : Result Text) → Plain (encoded_program gen phone r)
    encoded_as (ok x) = (refl, tt)
    encoded_as (err e) = tt
qr_item-Plain gen phone QrItem.success = (refl, tt)
qr_item-Plain gen phone timeout = tt
qr_item-Plain gen phone (other_item e) = tt

pub load_group_info-Plain :
    (jid : Text) (now : ℕ) (answer : Result RawGroup) (later : ℕ)
    → Plain (load_group_info_program jid now answer later)
unfolding load_group_info_program
load_group_info-Plain jid now answer later = λ o. cached_as o answer
  where
    cached_as : (o : Option GroupInfo) (r : Result RawGroup) → Plain (cached_program jid r later o)
    cached_as (some i) r = tt
    cached_as none (ok g) = tt
    cached_as none (err e) = tt

pub get_profile_picture-Plain :
    (r : Result Text) (jid : Text) (now : ℕ) → Plain (get_profile_picture_program r jid now)
unfolding get_profile_picture_program
get_profile_picture-Plain (err e) jid now = tt
get_profile_picture-Plain (ok path) jid now = λ o. found o
  where
    found : (o : Option File) → Plain (picture_program jid path now o)
    found none = tt
    found (some f) =
        if-Plain (ltb now (f.mod_time + avatar_ttl)) (returns path) (schedules jid (returns path))
          tt tt

pub fetch-Plain : (jid : Text) (a : FetchAnswers) → Plain (fetch_program jid a)
unfolding fetch_program
fetch-Plain jid a = written a.path
  where
    written : (r : Result Text) → Plain (fetch_program jid (record a { path = r }))
    written (err e) = tt
    written (ok path) =
        if-Plain (has_url a.picture_url && all_done a)
          (writes_file path a.now (emits (avatar_updated jid path) (unmarks jid (returns tt))))
          (if has_url a.picture_url && leaves_part a
            then writes_file path a.now (unmarks jid (returns tt))
            else unmarks jid (returns tt))
          (refl, tt)
          (if-Plain (has_url a.picture_url && leaves_part a)
            (writes_file path a.now (unmarks jid (returns tt))) (unmarks jid (returns tt)) tt tt)
