-- ===== src/Service/Threads/Alone.antt =====
-- The functions of daemon/dbus/service.go that nothing interrupts, action by action and as one step.
use kha_app.Prelude.{
  ℕ, ◌≡◌, Bool, refl, ◌∙◌, inl, inr, Bool-cases, true, List, [], ◌∷◌, arith, ℤ, Text, none, some,
}
use kha_app.Prelude.Result.{Result, ok, err, Outcome}
use kha_app.Prelude.Dict.{mem}
use kha_app.Storage.Message.{StoredMessage}
use kha_app.Storage.Table.{Table}
use kha_app.Storage.Query.{Engine, get_recent_chats}
use kha_app.Protocol.Event.{
  Event, MessageEvent, Presence, ContactInfo, message, connected, disconnected, logged_out, receipt,
  chat_presence, group_info, picture, unhandled,
}
use kha_app.Service.Receipt.{map_receipt_type}
use kha_app.Service.State.{Service, emit, current_status, message_acknowledged}
use kha_app.Service.Login.{
  AutoAnswers, auto_connect, LoginAnswers, LoginReply, reply, request_login, qr_login, QrItem,
  qr_item, LogoutAnswers, logout,
}
use kha_app.Service.Groups.{RawGroup, load_group_info}
use kha_app.Service.Avatars.{
  get_profile_picture, FetchAnswers, fetch_body, fetch_avatar, invalidate_avatar_cache,
  schedule_avatar_fetch,
}
use kha_app.Service.Loop.{LoopAnswers, on_event, message_arrived, acknowledge, presence_changed}
use kha_app.Service.Chats.{ChatAnswers, chat_name, chat_of, chats_of, with_contacts, get_chats}
use kha_app.Service.Threads.{
  Program, ◌>>=◌, returns, sets_status, reads_status, emits, looks_up, stores, deletes, stats,
  removes_file, writes_file, schedules, unmarks, alone, drop_file, put_file, end_fetch,
}
use kha_app.Service.Threads.Programs.{
  auto_connect_program, request_login_program, qr_item_program, logout_program,
  load_group_info_program, get_profile_picture_program, fetch_program,
}
use kha_app.Service.Threads.Loops.{
  message_program, acknowledge_program, presence_program, on_event_program, chat_name_program,
  chat_program, chats_program, listed_program, get_chats_program, invalidate_program,
}

abbrev pub continue : {A B : Type 0} → (A → Program B) → A × Service → B × Service
continue k (a, m) = alone (k a) m

-- A call inside a function is what it does alone, and then the rest.
pub alone->>= :
    {A B : Type 0} (p : Program A) (k : A → Program B) (m : Service)
    → alone (p >>= k) m ≡ continue k (alone p m)
unfolding alone
alone->>= (returns a) k m = refl
alone->>= (sets_status s p) k m = alone->>= p k _
alone->>= (reads_status f) k m = alone->>= (f _) k m
alone->>= (emits x p) k m = alone->>= p k _
alone->>= (looks_up jid now f) k m = alone->>= (f _) k m
alone->>= (stores jid info later p) k m = alone->>= p k _
alone->>= (deletes jid p) k m = alone->>= p k _
alone->>= (stats path f) k m = alone->>= (f _) k m
alone->>= (removes_file path p) k m = alone->>= p k _
alone->>= (writes_file path now p) k m = alone->>= p k _
alone->>= (schedules jid p) k m = alone->>= p k _
alone->>= (unmarks jid p) k m = alone->>= p k _

pub auto_connect-alone :
    (a : AutoAnswers) (m : Service) → alone (auto_connect_program a) m ≡ auto_connect a m
unfolding alone auto_connect_program auto_connect
auto_connect-alone a m = ground arith

abbrev replied : (Outcome × Bool) × Service → LoginReply
replied ((e, b), m) = reply e b m

pub request_login-alone :
    (a : LoginAnswers) (m : Service)
    → replied (alone (request_login_program a) m) ≡ request_login a m
unfolding alone request_login_program auto_connect_program request_login auto_connect qr_login
    current_status
request_login-alone a m = ground arith

pub qr_item-alone :
    (gen : Text → Result Text) (phone : Text) (i : QrItem) (m : Service)
    → (alone (qr_item_program gen phone i) m).1 ≡ qr_item gen phone i m
unfolding alone qr_item_program qr_item
qr_item-alone gen phone i m = ground arith

pub logout-alone : (a : LogoutAnswers) (m : Service) → alone (logout_program a) m ≡ logout a m
unfolding alone logout_program logout
logout-alone a m = refl

pub load_group_info-alone :
    (jid : Text) (now : ℕ) (answer : Result RawGroup) (later : ℕ) (m : Service)
    → alone (load_group_info_program jid now answer later) m
      ≡ load_group_info jid now answer later m
unfolding alone load_group_info_program load_group_info
load_group_info-alone jid now answer later m = ground arith

pub get_profile_picture-alone :
    (r : Result Text) (jid : Text) (now : ℕ) (m : Service)
    → alone (get_profile_picture_program r jid now) m ≡ get_profile_picture r jid now m
unfolding alone get_profile_picture_program get_profile_picture
get_profile_picture-alone r jid now m = ground arith

pub fetch-alone :
    (jid : Text) (a : FetchAnswers) (m : Service)
    → mem jid m.fetches ≡ true
    → (alone (fetch_program jid a) m).1 ≡ fetch_avatar jid a m
unfolding alone fetch_program fetch_avatar fetch_body put_file end_fetch emit
fetch-alone jid a m runs = ground arith

acknowledge-alone :
    (k : ℤ) (ids : List Text) (m : Service)
    → (alone (acknowledge_program k ids) m).1 ≡ acknowledge k ids m
unfolding alone acknowledge_program acknowledge
acknowledge-alone k [] m = refl
acknowledge-alone k (i ∷ ids) m = acknowledge-alone k ids (emit (message_acknowledged i k) m)

message-alone :
    (a : LoopAnswers) (event : MessageEvent) (m : Service)
    → (alone (message_program a event) m).1 ≡ message_arrived a event m
unfolding alone message_program message_arrived
message-alone a event m = ground arith

presence-alone :
    (chat sender : Text) (p : Presence) (m : Service)
    → (alone (presence_program chat sender p) m).1 ≡ presence_changed chat sender p m
unfolding alone presence_changed
presence-alone chat sender p m = ground arith

pub on_event-alone :
    (a : LoopAnswers) (e : Event) (m : Service)
    → (alone (on_event_program a e) m).1 ≡ on_event a e m
unfolding alone on_event_program on_event
on_event-alone a (message event) m = message-alone a event m
on_event-alone a connected m = refl
on_event-alone a disconnected m = refl
on_event-alone a logged_out m = refl
on_event-alone a (receipt receipt_type ids) m =
    ground (arith, acknowledge-alone (map_receipt_type receipt_type) ids m)
on_event-alone a (chat_presence chat sender p) m = presence-alone chat sender p m
on_event-alone a (group_info jid) m = refl
on_event-alone a (picture jid) m = invalidated a.avatar_removed (a.avatar_path jid)
  where
    invalidated :
        (o : Outcome) (r : Result Text)
        → (alone (invalidate_program o r >>= (λ _. schedules jid (returns tt))) m).1
          ≡ schedule_avatar_fetch jid (invalidate_avatar_cache o r m)
    invalidated o (err x) = unfold invalidate_avatar_cache in refl
    invalidated none (ok path) = unfold invalidate_avatar_cache in unfold drop_file in refl
    invalidated (some e) (ok path) = unfold invalidate_avatar_cache in refl
on_event-alone a unhandled m = refl

chat_name-alone :
    (a : ChatAnswers) (contacts : Text → ContactInfo) (msg : StoredMessage) (m : Service)
    → alone (chat_name_program a contacts msg) m ≡ chat_name a contacts msg m
unfolding alone chat_name_program chat_name
chat_name-alone a contacts msg m = elim (Bool-cases msg.is_group) [
  | inl e ↦ rw e (
      alone->>=
        (load_group_info_program msg.jid (a.group_now msg.jid) (a.group msg.jid)
          (a.group_later msg.jid))
        _ m
      ∙ rw
          (load_group_info-alone msg.jid (a.group_now msg.jid) (a.group msg.jid)
            (a.group_later msg.jid) m)
          refl)
  | inr e ↦ rw e refl
]

chat_of-alone :
    (a : ChatAnswers) (contacts : Text → ContactInfo) (t : Table) (msg : StoredMessage)
    (m : Service)
    → alone (chat_program a contacts t msg) m ≡ chat_of a contacts t msg m
unfolding alone chat_program chat_of
chat_of-alone a contacts t msg m =
    alone->>= (chat_name_program a contacts msg) _ m
    ∙ rw (chat_name-alone a contacts msg m) (
        alone->>=
          (get_profile_picture_program (a.avatar_path msg.jid) msg.jid (a.avatar_now msg.jid)) _ _
        ∙ rw
            (get_profile_picture-alone (a.avatar_path msg.jid) msg.jid (a.avatar_now msg.jid)
              (chat_name a contacts msg m).1)
            refl)

chats_of-alone :
    (a : ChatAnswers) (contacts : Text → ContactInfo) (t : Table) (msgs : List StoredMessage)
    (m : Service)
    → alone (chats_program a contacts t msgs) m ≡ chats_of a contacts t msgs m
unfolding alone chats_program chats_of
chats_of-alone a contacts t [] m = refl
chats_of-alone a contacts t (msg ∷ msgs) m =
    alone->>= (chat_program a contacts t msg) _ m
    ∙ rw (chat_of-alone a contacts t msg m) (
        alone->>= (chats_program a contacts t msgs) _ _
        ∙ rw (chats_of-alone a contacts t msgs (chat_of a contacts t msg m).1) refl)

pub get_chats-alone :
    (e : Engine) (a : ChatAnswers) (t : Table) (m : Service)
    → alone (get_chats_program e a t) m ≡ get_chats e a t m
unfolding alone get_chats_program get_chats
get_chats-alone e a t m = listed a.contacts (get_recent_chats e a.recent t)
  where
    listed :
        (r : Result (Text → ContactInfo)) (q : Result (List StoredMessage))
        → alone (listed_program a r t q) m ≡ with_contacts a r t q m
    listed (err x) q = refl
    listed (ok contacts) (err x) = refl
    listed (ok contacts) (ok msgs) = chats_of-alone a contacts t msgs m
