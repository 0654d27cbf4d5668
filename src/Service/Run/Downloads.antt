-- ===== src/Service/Run/Downloads.antt =====
-- The downloads of pictures under every interleaving.
use kha_app.Prelude.{
  ℕ, ◌≡◌, refl, Bool, true, false, Option, none, some, List, [], ◌∷◌, arith, ℤ, Text, if◌then◌else◌,
}
use kha_app.Prelude.Result.{Result, ok, err, Outcome}
use kha_app.Protocol.Event.{
  Event, MessageEvent, Presence, message, connected, disconnected, logged_out, receipt,
  chat_presence, group_info, picture, unhandled,
}
use kha_app.Service.Receipt.{map_receipt_type}
use kha_app.Service.State.{
  Service, File, Signal, message_acknowledged, Status, new_messenger_service, emit, set_status,
}
use kha_app.Service.Login.{
  AutoAnswers, auto_connect, LoginAnswers, request_login, QrItem, qr_item, logout,
}
use kha_app.Service.Groups.{RawGroup, load_group_info, invalidate_group_info_cache}
use kha_app.Service.Avatars.{
  get_profile_picture, picture_at, stat, schedule_avatar_fetch, invalidate_avatar_cache,
}
use kha_app.Service.Avatars.Downloads.{
  Tracked, Tracked-same, schedule_avatar_fetch-Tracked, fetch_avatar-Tracked,
}
use kha_app.Service.Loop.{LoopAnswers, on_event, message_arrived, acknowledge, presence_changed}
use kha_app.Service.Chats.Keeps.{get_chats-keeps}
use kha_app.Service.Run.{
  Call, auto_connects, requests_login, reads_qr, logs_out, gets_event, loads_group, gets_picture,
  lists_chats, fetches_avatar, step, run,
}

-- The two fields are those of another service.
record SameDownloads (m n : Service) : Type 0 where
  fetches : n.fetches ≡ m.fetches
  marks : n.avatar_downloads ≡ m.avatar_downloads

same-Tracked : (m n : Service) → SameDownloads m n → Tracked m → Tracked n
same-Tracked m n s h = Tracked-same m n s.fetches s.marks h

same-set_status : (s : Status) (m : Service) → SameDownloads m (set_status s m)
unfolding set_status emit
same-set_status s m = ground arith

same-emit : (x : Signal) (m : Service) → SameDownloads m (emit x m)
unfolding emit
same-emit x m = ground arith

same-auto_connect : (a : AutoAnswers) (m : Service) → SameDownloads m (auto_connect a m).1
unfolding auto_connect set_status emit
same-auto_connect a m = ground arith

same-request_login : (a : LoginAnswers) (m : Service) → SameDownloads m (request_login a m).service
unfolding request_login set_status emit
same-request_login a m = ground arith

same-qr_item :
    (gen : Text → Result Text) (phone : Text) (i : QrItem) (m : Service)
    → SameDownloads m (qr_item gen phone i m)
unfolding qr_item set_status emit
same-qr_item gen phone i m = ground arith

same-load_group_info :
    (jid : Text) (now : ℕ) (answer : Result RawGroup) (later : ℕ) (m : Service)
    → SameDownloads m (load_group_info jid now answer later m).1
unfolding load_group_info
same-load_group_info jid now answer later m = ground arith

same-acknowledge : (k : ℤ) (ids : List Text) (m : Service) → SameDownloads m (acknowledge k ids m)
unfolding acknowledge emit
same-acknowledge k [] m = ground arith
same-acknowledge k (i ∷ ids) m =
    ground (arith, same-acknowledge k ids (emit (message_acknowledged i k) m))

same-presence_changed :
    (chat sender : Text) (p : Presence) (m : Service)
    → SameDownloads m (presence_changed chat sender p m)
unfolding presence_changed emit
same-presence_changed chat sender p m = ground arith

same-message_arrived :
    (a : LoopAnswers) (e : MessageEvent) (m : Service) → SameDownloads m (message_arrived a e m)
unfolding message_arrived emit
same-message_arrived a e m = ground arith

on_event-Tracked :
    (a : LoopAnswers) (e : Event) (m : Service) → Tracked m → Tracked (on_event a e m)
unfolding on_event invalidate_group_info_cache
on_event-Tracked a (message event) m h = same-Tracked m _ (same-message_arrived a event m) h
on_event-Tracked a connected m h =
    same-Tracked _ _ (same-emit _ _) (same-Tracked m _ (same-set_status Status.connected m) h)
on_event-Tracked a disconnected m h = same-Tracked m _ (same-set_status Status.disconnected m) h
on_event-Tracked a logged_out m h = same-Tracked m _ (same-set_status Status.disconnected m) h
on_event-Tracked a (receipt receipt_type ids) m h =
    same-Tracked m _ (ground (arith, same-acknowledge (map_receipt_type receipt_type) ids m)) h
on_event-Tracked a (chat_presence chat sender p) m h =
    same-Tracked m _ (same-presence_changed chat sender p m) h
on_event-Tracked a (group_info jid) m h = Tracked-same m _ refl refl h
on_event-Tracked a (picture jid) m h =
    schedule_avatar_fetch-Tracked jid _ (invalidated a.avatar_removed (a.avatar_path jid))
  where
    invalidated : (o : Outcome) (r : Result Text) → Tracked (invalidate_avatar_cache o r m)
    invalidated o (err x) = unfold invalidate_avatar_cache in h
    invalidated none (ok path) = unfold invalidate_avatar_cache in Tracked-same m _ refl refl h
    invalidated (some e) (ok path) = unfold invalidate_avatar_cache in h
on_event-Tracked a unhandled m h = h

get_profile_picture-Tracked :
    (r : Result Text) (jid : Text) (now : ℕ) (m : Service)
    → Tracked m
    → Tracked (get_profile_picture r jid now m).1
unfolding get_profile_picture
get_profile_picture-Tracked (err x) jid now m h = h
get_profile_picture-Tracked (ok path) jid now m h = at (stat path m.files)
  where
    chosen : (b : Bool) → Tracked (if b then m else schedule_avatar_fetch jid m)
    chosen true = h
    chosen false = schedule_avatar_fetch-Tracked jid m h

    at : (o : Option File) → Tracked (picture_at jid path now o m).1
    at none = schedule_avatar_fetch-Tracked jid m h
    at (some f) = chosen _

load_group_info-Tracked :
    (jid : Text) (now : ℕ) (answer : Result RawGroup) (later : ℕ) (m : Service)
    → Tracked m
    → Tracked (load_group_info jid now answer later m).1
load_group_info-Tracked jid now answer later m h =
    same-Tracked m _ (same-load_group_info jid now answer later m) h

step-Tracked : (m : Service) (c : Call) → Tracked m → Tracked (step m c)
unfolding step logout
step-Tracked m (auto_connects a) h = same-Tracked m _ (same-auto_connect a m) h
step-Tracked m (requests_login a) h = same-Tracked m _ (same-request_login a m) h
step-Tracked m (reads_qr gen phone i) h = same-Tracked m _ (same-qr_item gen phone i m) h
step-Tracked m (logs_out a) h = same-Tracked m _ (same-set_status Status.disconnected m) h
step-Tracked m (gets_event a e) h = on_event-Tracked a e m h
step-Tracked m (loads_group jid now answer later) h =
    load_group_info-Tracked jid now answer later m h
step-Tracked m (gets_picture path jid now) h = get_profile_picture-Tracked path jid now m h
step-Tracked m (lists_chats e a t) h =
    get_chats-keeps Tracked
      (record { by_group_info = load_group_info-Tracked; by_picture = get_profile_picture-Tracked })
      e a t m h
step-Tracked m (fetches_avatar jid a) h = fetch_avatar-Tracked jid a m h

pub run_from-Tracked : (m : Service) (cs : List Call) → Tracked m → Tracked (run m cs)
unfolding run
run_from-Tracked m [] h = h
run_from-Tracked m (c ∷ cs) h = run_from-Tracked (step m c) cs (step-Tracked m c h)

-- After any calls in any order a chat is marked in `avatarDownloads` exactly if the goroutine that
-- fetches its picture runs, and no chat has two of them.
pub run-Tracked : (cs : List Call) → Tracked (run new_messenger_service cs)
unfolding new_messenger_service
run-Tracked cs =
    run_from-Tracked new_messenger_service cs (record { marks = λ j. refl; distinct = tt })
