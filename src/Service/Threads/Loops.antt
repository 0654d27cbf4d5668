-- ===== src/Service/Threads/Loops.antt =====
-- daemon/dbus/service.go: `RunEventLoop` and `GetChats`, action by action, and all functions.
use kha_app.Prelude.{
  not, ◌&&◌, List, [], ◌∷◌, pos, ℤ, eqb_ℤ, Text, is_empty, if◌then◌else◌, none, some,
}
use kha_app.Prelude.Result.{Result, ok, err, Outcome}
use kha_app.Storage.Message.{StoredMessage}
use kha_app.Storage.Table.{Table, get_unread_count}
use kha_app.Storage.Query.{Engine, get_recent_chats}
use kha_app.Protocol.Event.{
  Event, MessageEvent, Presence, ContactInfo, composing, paused, unknown_presence, message,
  connected, disconnected, logged_out, receipt, chat_presence, group_info, picture, unhandled,
}
use kha_app.Service.Receipt.{map_receipt_type}
use kha_app.Service.Contacts.{extract_display_text}
use kha_app.Service.State.{
  Status, login_successful, message_received, typing_started, typing_stopped, message_acknowledged,
}
use kha_app.Service.Loop.{LoopAnswers, sender_name}
use kha_app.Service.Chats.{Chat, ChatAnswers, group_name, person_name, unread_or_0}
use kha_app.Service.Threads.{
  Program, ◌>>=◌, returns, sets_status, emits, deletes, removes_file, schedules,
}
use kha_app.Service.Threads.Programs.{
  auto_connect_program, request_login_program, qr_item_program, logout_program,
  load_group_info_program, get_profile_picture_program, fetch_program,
}
use kha_app.Service.Run.{
  Call, auto_connects, requests_login, reads_qr, logs_out, gets_event, loads_group, gets_picture,
  lists_chats, fetches_avatar,
}

unfoldable pub message_program : LoopAnswers → MessageEvent → Program Unit
unfolding sender_name extract_display_text
message_program a event =
    if not (is_empty (extract_display_text event)) && not event.is_from_me
    then emits
        (message_received event.chat (sender_name a event) (extract_display_text event)
          event.timestamp)
        (returns tt)
    else returns tt

-- One signal for each message of the receipt.
unfoldable pub acknowledge_program : ℤ → List Text → Program Unit
acknowledge_program k [] = returns tt
acknowledge_program k (i ∷ ids) = emits (message_acknowledged i k) (acknowledge_program k ids)

abbrev pub presence_program : Text → Text → Presence → Program Unit
presence_program chat sender composing = emits (typing_started chat sender) (returns tt)
presence_program chat sender paused = emits (typing_stopped chat sender) (returns tt)
presence_program chat sender unknown_presence = returns tt

-- `invalidateAvatarCache`; the file is removed where its path is known and `os.Remove` works.
abbrev pub invalidate_program : Outcome → Result Text → Program Unit
invalidate_program o (err e) = returns tt
invalidate_program none (ok path) = removes_file path (returns tt)
invalidate_program (some e) (ok path) = returns tt

-- One event of the channel.
unfoldable pub on_event_program : LoopAnswers → Event → Program Unit
unfolding message_program acknowledge_program map_receipt_type
on_event_program a (message event) = message_program a event
on_event_program a connected =
    sets_status Status.connected (emits (login_successful a.phone_number) (returns tt))
on_event_program a disconnected = sets_status Status.disconnected (returns tt)
on_event_program a logged_out = sets_status Status.disconnected (returns tt)
on_event_program a (receipt receipt_type ids) =
    let k = map_receipt_type receipt_type in
    if eqb_ℤ k (pos 0) then returns tt else acknowledge_program k ids
on_event_program a (chat_presence chat sender state) = presence_program chat sender state
on_event_program a (group_info jid) = deletes jid (returns tt)
on_event_program a (picture jid) =
    invalidate_program a.avatar_removed (a.avatar_path jid) >>= (λ _. schedules jid (returns tt))
on_event_program a unhandled = returns tt

-- The name of a chat.
unfoldable pub chat_name_program : ChatAnswers → (Text → ContactInfo) → StoredMessage → Program Text
unfolding load_group_info_program
chat_name_program a contacts msg =
    if msg.is_group
    then load_group_info_program msg.jid (a.group_now msg.jid) (a.group msg.jid)
        (a.group_later msg.jid)
      >>= (λ info. returns (group_name info msg.jid))
    else returns (person_name contacts (a.parse_jid msg.jid) msg.jid)

abbrev pub chat_map : ChatAnswers → Table → StoredMessage → Text → Text → Chat
chat_map a t msg name avatar_path = record {
  jid = msg.jid;
  name = name;
  last_message = msg.text;
  timestamp = msg.timestamp;
  unread = unread_or_0 (get_unread_count (a.unread msg.jid) msg.jid t);
  is_group = msg.is_group;
  avatar_path = avatar_path;
}

-- The body of the loop.
unfoldable pub chat_program :
    ChatAnswers → (Text → ContactInfo) → Table → StoredMessage → Program Chat
unfolding chat_name_program get_profile_picture_program get_unread_count
chat_program a contacts t msg = do
  name ← chat_name_program a contacts msg
  avatar_path ← get_profile_picture_program (a.avatar_path msg.jid) msg.jid (a.avatar_now msg.jid)
  returns (chat_map a t msg name avatar_path)

unfoldable pub chats_program :
    ChatAnswers → (Text → ContactInfo) → Table → List StoredMessage → Program (List Chat)
unfolding chat_program
chats_program a contacts t [] = returns []
chats_program a contacts t (msg ∷ msgs) = do
  chat ← chat_program a contacts t msg
  chats ← chats_program a contacts t msgs
  returns (chat ∷ chats)

abbrev pub listed_program :
    ChatAnswers
    → Result (Text → ContactInfo)
    → Table
    → Result (List StoredMessage)
    → Program (List Chat)
listed_program a (err e) t recent = returns []
listed_program a (ok contacts) t (err e) = returns []
listed_program a (ok contacts) t (ok msgs) = chats_program a contacts t msgs

unfoldable pub get_chats_program : Engine → ChatAnswers → Table → Program (List Chat)
unfolding get_recent_chats chats_program
get_chats_program e a t = listed_program a a.contacts t (get_recent_chats e a.recent t)

abbrev ends : {A : Type 0} → A → Program Unit
ends a = returns tt

-- The call of a function, whatever it returns.
abbrev pub program_of : Call → Program Unit
program_of (auto_connects a) = auto_connect_program a >>= ends
program_of (requests_login a) = request_login_program a >>= ends
program_of (reads_qr gen phone i) = qr_item_program gen phone i
program_of (logs_out a) = logout_program a >>= ends
program_of (gets_event a e) = on_event_program a e
program_of (loads_group jid now answer later) =
    load_group_info_program jid now answer later >>= ends
program_of (gets_picture path jid now) = get_profile_picture_program path jid now >>= ends
program_of (lists_chats e a t) = get_chats_program e a t >>= ends
program_of (fetches_avatar jid a) = fetch_program jid a
