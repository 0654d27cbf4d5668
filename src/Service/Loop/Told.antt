-- ===== src/Service/Loop/Told.antt =====
-- Every operation of the service that touches the status keeps its signals true.
use kha_app.Prelude.{
  ℕ, ◌≡◌, refl, Bool, true, false, not, ◌||◌, Option, none, some, List, [], ◌∷◌, ℤ, Text,
  if◌then◌else◌,
}
use kha_app.Prelude.Dict.{mem, lookup}
use kha_app.Prelude.Result.{Result, ok, err, Outcome}
use kha_app.Protocol.Event.{
  Event, composing, paused, unknown_presence, message, connected, disconnected, logged_out, receipt,
  chat_presence, group_info, picture, unhandled,
}
use kha_app.Service.State.{Status, Service, File, GroupInfo}
use kha_app.Service.Told.{Told, emit-Told, set_status-Told, Told-same}
use kha_app.Service.Login.{
  auto_connect, connecting_done, LoginAnswers, LoginReply, qr_connect, qr_channel, request_login,
  qr_login, QrItem, code, success, timeout, other_item, qr_item, qr_encoded, LogoutAnswers, logout,
  AutoAnswers,
}
use kha_app.Service.Groups.{
  RawGroup, fresh, cached_or, load_group_info, store_group, invalidate_group_info_cache,
}
use kha_app.Service.Avatars.{
  schedule_avatar_fetch, invalidate_avatar_cache, fetch_avatar, fetch_body, FetchAnswers,
  get_profile_picture, picture_at, stat,
}
use kha_app.Service.Loop.{LoopAnswers, message_arrived, acknowledge, presence_changed, on_event}

module _ {A : Type 0} where
  -- Both branches of a test.
  Told-if : (b : Bool) (p q : A × Service) → Told p.1 → Told q.1 → Told (if b then p else q).1
  Told-if true p q h k = h
  Told-if false p q h k = k

if-Told : (b : Bool) (m n : Service) → Told m → Told n → Told (if b then m else n)
if-Told true m n h k = h
if-Told false m n h k = k

connecting_done-Told : (o : Outcome) (m : Service) → Told m → Told (connecting_done o m).1
connecting_done-Told none m h = h
connecting_done-Told (some e) m h = set_status-Told Status.disconnected m h

pub auto_connect-Told : (a : AutoAnswers) (m : Service) → Told m → Told (auto_connect a m).1
unfolding auto_connect
auto_connect-Told a m h =
    Told-if (not a.has_session || a.is_connected) (none, m) _ h
      (connecting_done-Told a.connect _ (set_status-Told Status.connecting m h))

reply-Told :
    (b : Bool) (p q : LoginReply)
    → Told p.service
    → Told q.service
    → Told (if b then p else q).service
reply-Told true p q h k = h
reply-Told false p q h k = k

qr_connect-Told : (o : Outcome) (m : Service) → Told m → Told (qr_connect o m).service
qr_connect-Told none m h = set_status-Told Status.qr_pending m h
qr_connect-Told (some e) m h = set_status-Told Status.disconnected m h

qr_login-Told : (a : LoginAnswers) (m : Service) → Told m → Told (qr_login a m).service
unfolding qr_login
qr_login-Told a m h = qr_channel-Told a.get_qr_channel (set_status-Told Status.connecting m h)
  where
    qr_channel-Told : (o : Outcome) {n : Service} → Told n → Told (qr_channel o a.connect n).service
    qr_channel-Told none k = qr_connect-Told a.connect _ k
    qr_channel-Told (some e) k = set_status-Told Status.disconnected _ k

-- Every branch of a login signals the changes of the status, each once.
pub request_login-Told :
    (a : LoginAnswers) (m : Service) → Told m → Told (request_login a m).service
unfolding request_login
request_login-Told a m h =
    reply-Told _ _ _ h
      (reply-Told a.has_session _ _ (auto_connect-Told a.auto m h) (qr_login-Told a m h))

pub qr_item-Told :
    (gen : Text → Result Text) (phone : Text) (i : QrItem) (m : Service)
    → Told m
    → Told (qr_item gen phone i m)
unfolding qr_item
qr_item-Told gen phone (code c) m h = encoded (gen c)
  where
    encoded : (r : Result Text) → Told (qr_encoded gen phone r m)
    encoded (ok t) = emit-Told _ m refl h
    encoded (err e) = h
qr_item-Told gen phone success m h = emit-Told _ _ refl (set_status-Told Status.connected m h)
qr_item-Told gen phone timeout m h = set_status-Told Status.disconnected m h
qr_item-Told gen phone (other_item e) m h = h

pub logout-Told : (a : LogoutAnswers) (m : Service) → Told m → Told (logout a m).1
unfolding logout
logout-Told a m h = set_status-Told Status.disconnected m h

acknowledge-Told : (k : ℤ) (ids : List Text) (m : Service) → Told m → Told (acknowledge k ids m)
unfolding acknowledge
acknowledge-Told k [] m h = h
acknowledge-Told k (i ∷ ids) m h = acknowledge-Told k ids _ (emit-Told _ m refl h)

schedule_avatar_fetch-Told :
    (jid : Text) (m : Service) → Told m → Told (schedule_avatar_fetch jid m)
unfolding schedule_avatar_fetch
schedule_avatar_fetch-Told jid m h =
    if-Told (mem jid m.avatar_downloads) m _ h (Told-same m _ refl refl h)

invalidate_avatar_cache-Told :
    (o : Outcome) (r : Result Text) (m : Service) → Told m → Told (invalidate_avatar_cache o r m)
unfolding invalidate_avatar_cache
invalidate_avatar_cache-Told o (err e) m h = h
invalidate_avatar_cache-Told none (ok path) m h = Told-same m _ refl refl h
invalidate_avatar_cache-Told (some e) (ok path) m h = h

pub on_event-Told : (a : LoopAnswers) (e : Event) (m : Service) → Told m → Told (on_event a e m)
unfolding on_event message_arrived presence_changed invalidate_group_info_cache
on_event-Told a (message event) m h = if-Told _ _ m (emit-Told _ m refl h) h
on_event-Told a connected m h = emit-Told _ _ refl (set_status-Told Status.connected m h)
on_event-Told a disconnected m h = set_status-Told Status.disconnected m h
on_event-Told a logged_out m h = set_status-Told Status.disconnected m h
on_event-Told a (receipt receipt_type ids) m h = if-Told _ m _ h (acknowledge-Told _ ids m h)
on_event-Told a (chat_presence chat sender composing) m h = emit-Told _ m refl h
on_event-Told a (chat_presence chat sender paused) m h = emit-Told _ m refl h
on_event-Told a (chat_presence chat sender unknown_presence) m h = h
on_event-Told a (group_info jid) m h = Told-same m _ refl refl h
on_event-Told a (picture jid) m h =
    schedule_avatar_fetch-Told jid _
      (invalidate_avatar_cache-Told a.avatar_removed (a.avatar_path jid) m h)
on_event-Told a unhandled m h = h

fetch_body-Told : (jid : Text) (a : FetchAnswers) (m : Service) → Told m → Told (fetch_body jid a m)
unfolding fetch_body
fetch_body-Told jid a m h = body a.path refl
  where
    body : (r : Result Text) → a.path ≡ r → Told (fetch_body jid a m)
    body (err e) q = rw (q, fetch_body) h
    body (ok path) q =
        rw (q, fetch_body)
          (if-Told _ _ m
            (if-Told _ _ _ (emit-Told _ _ refl (Told-same m _ refl refl h))
              (if-Told _ _ m (Told-same m _ refl refl h) h))
            h)

pub fetch_avatar-Told :
    (jid : Text) (a : FetchAnswers) (m : Service) → Told m → Told (fetch_avatar jid a m)
unfolding fetch_avatar
fetch_avatar-Told jid a m h =
    if-Told (mem jid m.fetches) _ m
      (Told-same (fetch_body jid a m) _ refl refl (fetch_body-Told jid a m h)) h

pub get_profile_picture-Told :
    (r : Result Text) (jid : Text) (now : ℕ) (m : Service)
    → Told m
    → Told (get_profile_picture r jid now m).1
unfolding get_profile_picture
get_profile_picture-Told (err e) jid now m h = h
get_profile_picture-Told (ok path) jid now m h = at (stat path m.files)
  where
    at : (o : Option File) → Told (picture_at jid path now o m).1
    at none = schedule_avatar_fetch-Told jid m h
    at (some f) = if-Told _ m _ h (schedule_avatar_fetch-Told jid m h)

pub load_group_info-Told :
    (jid : Text) (now : ℕ) (answer : Result RawGroup) (later : ℕ) (m : Service)
    → Told m
    → Told (load_group_info jid now answer later m).1
unfolding load_group_info store_group
load_group_info-Told jid now answer later m h =
    cached (fresh now (lookup jid m.group_info_cache)) answer
  where
    cached : (o : Option GroupInfo) (r : Result RawGroup) → Told (cached_or o jid r later m).1
    cached (some i) r = h
    cached none (err e) = h
    cached none (ok g) = Told-same m _ refl refl h
