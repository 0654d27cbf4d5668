-- ===== src/Protocol/Client.antt =====
-- daemon/protocol/client.go: the event handler that `replaceClient` installs.
pub mod Persistence
pub mod Channel
use kha_app.Prelude.{
  ℕ, suc, Bool, true, false, not, ◌||◌, none, some, List, [], ◌∷◌, ◌++◌, pos, ltb, ltb_ℤ, length, ℤ,
  Text, is_empty, if◌then◌else◌,
}
use kha_app.Prelude.Result.{Outcome}
use kha_app.Storage.Message.{StoredMessage}
use kha_app.Storage.Table.{Table, save, update_receipt}
use kha_app.Protocol.Event.{
  Event, MessageEvent, message, connected, disconnected, logged_out, receipt, chat_presence,
  group_info, picture, unhandled,
}
use kha_app.Protocol.Receipt.{map_receipt_type}
use kha_app.Protocol.Contact.{Contacts}
use kha_app.Protocol.Content.{build_stored_message}
use kha_app.Protocol.Reconnect.{Reconnect, stop_reconnect, start_reconnect_loop}

-- The message store, the channel of events (oldest first), the reconnect loops, and how often the
-- presence "available" was sent.
pub record Client : Type 0 where
  pub table : Table
  pub events : List Event
  pub reconnect : Reconnect
  pub presences : ℕ

-- `make(chan interface{}, 32)`.
abbrev pub events_capacity : ℕ
events_capacity = 32

-- What the handler is answered by the database, by the contact store and by `HasSession`.
pub record Answers : Type 0 where
  pub contacts : Contacts
  pub save_outcome : Outcome
  pub receipt_outcome : Text → Outcome
  pub has_session : Bool

-- `select { case w.eventsCh <- event: default: }`.
unfoldable pub forward : Event → Client → Client
forward e w =
    if ltb (length w.events) events_capacity then record w { events = w.events ++ e ∷ [] } else w

unfoldable pub is_stored : StoredMessage → Bool
is_stored msg = not (is_empty msg.text) || msg.has_media

unfoldable pub persist_message : Answers → StoredMessage → Table → Table
unfolding is_stored save
persist_message a msg t = if is_stored msg then (save a.save_outcome msg t).1 else t

unfoldable pub persist_receipts : Answers → ℤ → List Text → Table → Table
unfolding update_receipt
persist_receipts a k [] t = t
persist_receipts a k (i ∷ ids) t =
    persist_receipts a k ids (update_receipt (a.receipt_outcome i) i k t).1

unfoldable pub persist_receipt_event : Answers → Text → List Text → Table → Table
unfolding persist_receipts map_receipt_type
persist_receipt_event a receipt_type ids t =
    if ltb_ℤ (pos 0) (map_receipt_type receipt_type)
    then persist_receipts a (map_receipt_type receipt_type) ids t
    else t

unfoldable pub handle : Answers → Event → Client → Client
unfolding forward persist_message persist_receipt_event build_stored_message stop_reconnect
    start_reconnect_loop
handle a (message event) w =
    forward (message event)
      (record w { table = persist_message a (build_stored_message a.contacts event) w.table })
handle a connected w =
    forward connected
      (record w { reconnect = stop_reconnect w.reconnect; presences = suc w.presences })
handle a disconnected w =
    forward disconnected (record w { reconnect = start_reconnect_loop a.has_session w.reconnect })
handle a logged_out w = forward logged_out (record w { reconnect = stop_reconnect w.reconnect })
handle a (receipt receipt_type ids) w =
    forward (receipt receipt_type ids)
      (record w { table = persist_receipt_event a receipt_type ids w.table })
handle a (chat_presence chat sender state) w = forward (chat_presence chat sender state) w
handle a (group_info jid) w = forward (group_info jid) w
handle a (picture jid) w = forward (picture jid) w
handle a unhandled w = w

unfoldable pub handle_all : Client → List (Answers × Event) → Client
unfolding handle
handle_all w [] = w
handle_all w ((a, e) ∷ es) = handle_all (handle a e w) es
