-- ===== src/Service/Threads/Plain/Calls.antt =====
-- daemon/dbus/service.go: that the event loop, `GetChats` and every other call emit
-- `ConnectionStatusChanged` only through `setStatus`.
use kha_app.Prelude.{refl, pos, eqb_ℤ, List, [], ◌∷◌, arith, ℤ, Text, none, some}
use kha_app.Prelude.Result.{Result, ok, err, Outcome}
use kha_app.Storage.Message.{StoredMessage}
use kha_app.Storage.Table.{Table}
use kha_app.Storage.Query.{Engine, get_recent_chats}
use kha_app.Protocol.Event.{
  Event, MessageEvent, ContactInfo, composing, paused, unknown_presence, message, connected,
  disconnected, logged_out, receipt, chat_presence, group_info, picture, unhandled,
}
use kha_app.Service.Receipt.{map_receipt_type}
use kha_app.Service.Loop.{LoopAnswers}
use kha_app.Service.Chats.{ChatAnswers, group_name, person_name}
use kha_app.Service.Run.{
  Call, auto_connects, requests_login, reads_qr, logs_out, gets_event, loads_group, gets_picture,
  lists_chats, fetches_avatar,
}
use kha_app.Service.Threads.{◌>>=◌, returns}
use kha_app.Service.Threads.Programs.{
  auto_connect_program, request_login_program, logout_program, load_group_info_program,
  get_profile_picture_program,
}
use kha_app.Service.Threads.Loops.{
  message_program, acknowledge_program, on_event_program, invalidate_program, chat_name_program,
  chat_program, chats_program, listed_program, get_chats_program, program_of,
}
use kha_app.Service.Threads.Plain.{
  Plain, Plain->>=, if-Plain, auto_connect-Plain, request_login-Plain, qr_item-Plain,
  load_group_info-Plain, get_profile_picture-Plain, fetch-Plain,
}

acknowledge-Plain : (k : ℤ) (ids : List Text) → Plain (acknowledge_program k ids)
unfolding acknowledge_program
acknowledge-Plain k [] = tt
acknowledge-Plain k (i ∷ ids) = (refl, acknowledge-Plain k ids)

message-Plain : (a : LoopAnswers) (event : MessageEvent) → Plain (message_program a event)
unfolding message_program
message-Plain a event = ground arith

on_event-Plain : (a : LoopAnswers) (e : Event) → Plain (on_event_program a e)
unfolding on_event_program
on_event-Plain a (message event) = message-Plain a event
on_event-Plain a connected = (refl, tt)
on_event-Plain a disconnected = tt
on_event-Plain a logged_out = tt
on_event-Plain a (receipt receipt_type ids) =
    let k = map_receipt_type receipt_type in
    if-Plain (eqb_ℤ k (pos 0)) (returns tt) (acknowledge_program k ids) tt (acknowledge-Plain k ids)
on_event-Plain a (chat_presence chat sender composing) = (refl, tt)
on_event-Plain a (chat_presence chat sender paused) = (refl, tt)
on_event-Plain a (chat_presence chat sender unknown_presence) = tt
on_event-Plain a (group_info jid) = tt
on_event-Plain a (picture jid) =
    Plain->>= (invalidate_program a.avatar_removed (a.avatar_path jid)) _
      (removed a.avatar_removed (a.avatar_path jid)) (λ x. tt)
  where
    removed : (o : Outcome) (r : Result Text) → Plain (invalidate_program o r)
    removed o (err e) = tt
    removed none (ok path) = tt
    removed (some e) (ok path) = tt
on_event-Plain a unhandled = tt

name-Plain :
    (a : ChatAnswers) (contacts : Text → ContactInfo) (msg : StoredMessage)
    → Plain (chat_name_program a contacts msg)
unfolding chat_name_program
name-Plain a contacts msg =
    let load =
      load_group_info_program msg.jid (a.group_now msg.jid) (a.group msg.jid)
        (a.group_later msg.jid) in
    if-Plain msg.is_group (load >>= (λ info. returns (group_name info msg.jid)))
      (returns (person_name contacts (a.parse_jid msg.jid) msg.jid))
      (Plain->>= load _
        (load_group_info-Plain msg.jid (a.group_now msg.jid) (a.group msg.jid)
          (a.group_later msg.jid))
        (λ r. tt))
      tt

chat-Plain :
    (a : ChatAnswers) (contacts : Text → ContactInfo) (t : Table) (msg : StoredMessage)
    → Plain (chat_program a contacts t msg)
unfolding chat_program
chat-Plain a contacts t msg =
    Plain->>= (chat_name_program a contacts msg) _ (name-Plain a contacts msg) (λ name.
      Plain->>= (get_profile_picture_program (a.avatar_path msg.jid) msg.jid (a.avatar_now msg.jid))
        _ (get_profile_picture-Plain (a.avatar_path msg.jid) msg.jid (a.avatar_now msg.jid))
        (λ path. tt))

chats-Plain :
    (a : ChatAnswers) (contacts : Text → ContactInfo) (t : Table) (msgs : List StoredMessage)
    → Plain (chats_program a contacts t msgs)
unfolding chats_program
chats-Plain a contacts t [] = tt
chats-Plain a contacts t (msg ∷ msgs) =
    Plain->>= (chat_program a contacts t msg) _ (chat-Plain a contacts t msg) (λ chat.
      Plain->>= (chats_program a contacts t msgs) _ (chats-Plain a contacts t msgs) (λ chats. tt))

get_chats-Plain : (e : Engine) (a : ChatAnswers) (t : Table) → Plain (get_chats_program e a t)
unfolding get_chats_program
get_chats-Plain e a t = listed a.contacts (get_recent_chats e a.recent t)
  where
    listed :
        (r : Result (Text → ContactInfo)) (q : Result (List StoredMessage))
        → Plain (listed_program a r t q)
    listed (err x) q = tt
    listed (ok contacts) (err x) = tt
    listed (ok contacts) (ok msgs) = chats-Plain a contacts t msgs

pub program_of-Plain : (c : Call) → Plain (program_of c)
unfolding logout_program
program_of-Plain (auto_connects a) =
    Plain->>= (auto_connect_program a) _ (auto_connect-Plain a) (λ r. tt)
program_of-Plain (requests_login a) =
    Plain->>= (request_login_program a) _ (request_login-Plain a) (λ r. tt)
program_of-Plain (reads_qr gen phone i) = qr_item-Plain gen phone i
program_of-Plain (logs_out a) = tt
program_of-Plain (gets_event a e) = on_event-Plain a e
program_of-Plain (loads_group jid now answer later) =
    Plain->>= (load_group_info_program jid now answer later) _
      (load_group_info-Plain jid now answer later) (λ r. tt)
program_of-Plain (gets_picture path jid now) =
    Plain->>= (get_profile_picture_program path jid now) _ (get_profile_picture-Plain path jid now)
      (λ r. tt)
program_of-Plain (lists_chats e a t) =
    Plain->>= (get_chats_program e a t) _ (get_chats-Plain e a t) (λ r. tt)
program_of-Plain (fetches_avatar jid a) = fetch-Plain jid a
