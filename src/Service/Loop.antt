-- ===== src/Service/Loop.antt =====
-- daemon/dbus/service.go: `RunEventLoop`, one event of the channel at a time.
pub mod Told
pub mod Stored
pub mod Acknowledged
use kha_app.Prelude.{
  ℕ, Bool, true, false, not, ◌&&◌, Option, none, some, List, [], ◌∷◌, pos, ℤ, eqb_ℤ, Text, is_empty,
  if◌then◌else◌,
}
use kha_app.Prelude.Result.{Result, ok, err, Outcome}
use kha_app.Protocol.Event.{
  Event, MessageEvent, Presence, composing, paused, unknown_presence, message, connected,
  disconnected, logged_out, receipt, chat_presence, group_info, picture, unhandled,
}
use kha_app.Protocol.Contact.{Contacts}
use kha_app.Service.Receipt.{map_receipt_type}
use kha_app.Service.Contacts.{lookup_contact_name, extract_display_text}
use kha_app.Service.State.{
  Status, Service, emit, set_status, login_successful, message_received, typing_started,
  typing_stopped, message_acknowledged,
}
use kha_app.Service.Groups.{invalidate_group_info_cache}
use kha_app.Service.Avatars.{schedule_avatar_fetch, invalidate_avatar_cache}

-- What the loop is answered: the contacts, the phone number, and the path of a picture.
pub record LoopAnswers : Type 0 where
  pub contacts : Contacts
  pub phone_number : Text
  pub avatar_path : Text → Result Text
  pub avatar_removed : Outcome

-- `event.Info.Sender.String()`; the text of an empty JID is empty.
abbrev sender_text : Option Text → Text
sender_text none = []
sender_text (some s) = s

abbrev or_text : Text → Text → Text
or_text s t = if is_empty s then t else s

unfoldable pub sender_name : LoopAnswers → MessageEvent → Text
sender_name a event =
    if is_empty event.push_name
    then lookup_contact_name a.contacts (sender_text event.sender) event.chat
    else event.push_name

unfoldable pub message_arrived : LoopAnswers → MessageEvent → Service → Service
unfolding sender_name
message_arrived a event m =
    if not (is_empty (extract_display_text event)) && not event.is_from_me
    then emit
        (message_received event.chat (sender_name a event) (extract_display_text event)
          event.timestamp)
        m
    else m

unfoldable pub acknowledge : ℤ → List Text → Service → Service
acknowledge k [] m = m
acknowledge k (i ∷ ids) m = acknowledge k ids (emit (message_acknowledged i k) m)

unfoldable pub presence_changed : Text → Text → Presence → Service → Service
presence_changed chat sender composing m = emit (typing_started chat sender) m
presence_changed chat sender paused m = emit (typing_stopped chat sender) m
presence_changed chat sender unknown_presence m = m

unfoldable pub on_event : LoopAnswers → Event → Service → Service
unfolding message_arrived acknowledge presence_changed
on_event a (message event) m = message_arrived a event m
on_event a connected m = emit (login_successful a.phone_number) (set_status Status.connected m)
on_event a disconnected m = set_status Status.disconnected m
on_event a logged_out m = set_status Status.disconnected m
on_event a (receipt receipt_type ids) m =
    let k = map_receipt_type receipt_type in if eqb_ℤ k (pos 0) then m else acknowledge k ids m
on_event a (chat_presence chat sender state) m = presence_changed chat sender state m
on_event a (group_info jid) m = invalidate_group_info_cache jid m
on_event a (picture jid) m =
    schedule_avatar_fetch jid (invalidate_avatar_cache a.avatar_removed (a.avatar_path jid) m)
on_event a unhandled m = m

-- The events of the channel, in order.
unfoldable pub run_event_loop : List (LoopAnswers × Event) → Service → Service
unfolding on_event
run_event_loop [] m = m
run_event_loop ((a, e) ∷ es) m = run_event_loop es (on_event a e m)
