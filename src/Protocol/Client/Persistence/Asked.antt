-- ===== src/Protocol/Client/Persistence/Asked.antt =====
-- Which writes an event asks for, described from the event alone.
use kha_app.Prelude.{
  ◌≡◌, refl, ap, ◌∙◌, Bool, false, not, ◌||◌, Option, none, some, List, [], ◌∷◌, ◌++◌, arith, ℤ,
  pos, ltb_ℤ, Text, codes, is_empty, same_text, if◌then◌else◌, map,
}
use kha_app.Prelude.Result.{Outcome}
use kha_app.Storage.Table.{Write, saves, sets_receipt, write_all}
use kha_app.Protocol.Event.{
  Event, MessageEvent, message, connected, disconnected, logged_out, receipt, chat_presence,
  group_info, picture, unhandled,
}
use kha_app.Protocol.Receipt.{map_receipt_type}
use kha_app.Protocol.Content.{build_stored_message, or_no_content}
use kha_app.Protocol.Content.Built.{
  own_text, extract_message_text_lem, has_part, build_stored_message_lem,
}
use kha_app.Protocol.Client.{Client, Answers, is_stored, handle_all}
use kha_app.Protocol.Client.Persistence.{receipt_writes, writes, all_writes, table-writes_all}

-- A message is saved for its own text or for a part of one of the five kinds.
abbrev save_for : Answers → MessageEvent → Bool → Text → List (Outcome × Write)
save_for a event false [] = []
save_for a event _ _ = (a.save_outcome, saves (build_stored_message a.contacts event)) ∷ []

-- The value that a receipt of a type brings, if the types are these.
abbrev listed : Text → List Text → Bool
listed t [] = false
listed t (x ∷ xs) = same_text t x || listed t xs

abbrev brings : Text → Option ℤ
brings [] = some (pos 1)
brings t =
    if listed t (codes "read" ∷ codes "read-self" ∷ codes "played" ∷ codes "played-self" ∷ [])
    then some (pos 2)
    else none

abbrev raises : Answers → Option ℤ → List Text → List (Outcome × Write)
raises a none ids = []
raises a (some k) ids = map (λ i. (a.receipt_outcome i, sets_receipt i k)) ids

abbrev pub asked_for : Answers → Event → List (Outcome × Write)
asked_for a (message event) =
    save_for a event (has_part (or_no_content event.message)) (own_text event.message)
asked_for a (receipt receipt_type ids) = raises a (brings receipt_type) ids
asked_for a _ = []

abbrev pub all_asked : List (Answers × Event) → List (Outcome × Write)
all_asked [] = []
all_asked ((a, e) ∷ es) = asked_for a e ++ all_asked es

is_stored_lem :
    (a : Answers) (event : MessageEvent)
    → is_stored (build_stored_message a.contacts event)
      ≡ (not (is_empty (own_text event.message)) || has_part (or_no_content event.message))
unfolding is_stored
is_stored_lem a event =
    ground
      (arith, build_stored_message_lem a.contacts event, extract_message_text_lem event.message)

save_for_lem :
    (a : Answers) (event : MessageEvent) (part : Bool) (text : Text)
    → (if not (is_empty text) || part
        then (a.save_outcome, saves (build_stored_message a.contacts event)) ∷ []
        else [])
      ≡ save_for a event part text
save_for_lem a event part text = ground arith

receipt_writes_lem :
    (a : Answers) (k : ℤ) (ids : List Text) → receipt_writes a k ids ≡ raises a (some k) ids
unfolding receipt_writes
receipt_writes_lem a k [] = refl
receipt_writes_lem a k (i ∷ ids) =
    ap (λ ws. (a.receipt_outcome i, sets_receipt i k) ∷ ws) (receipt_writes_lem a k ids)

raised_lem :
    (a : Answers) (receipt_type : Text) (ids : List Text)
    → (if ltb_ℤ (pos 0) (map_receipt_type receipt_type)
        then receipt_writes a (map_receipt_type receipt_type) ids
        else [])
      ≡ raises a (brings receipt_type) ids
unfolding map_receipt_type same_text
raised_lem a [] ids = receipt_writes_lem a (pos 1) ids
raised_lem a (x ∷ xs) ids = ground (arith, receipt_writes_lem a (pos 2) ids)

writes-asked_for : (a : Answers) (e : Event) → writes a e ≡ asked_for a e
unfolding writes
writes-asked_for a (message event) =
    rw (is_stored_lem a event)
      (save_for_lem a event (has_part (or_no_content event.message)) (own_text event.message))
writes-asked_for a (receipt receipt_type ids) = raised_lem a receipt_type ids
writes-asked_for a connected = refl
writes-asked_for a disconnected = refl
writes-asked_for a logged_out = refl
writes-asked_for a (chat_presence chat sender state) = refl
writes-asked_for a (group_info jid) = refl
writes-asked_for a (picture jid) = refl
writes-asked_for a unhandled = refl

all_writes-asked_for : (es : List (Answers × Event)) → all_writes es ≡ all_asked es
unfolding all_writes
all_writes-asked_for [] = refl
all_writes-asked_for ((a, e) ∷ es) = rw (writes-asked_for a e, all_writes-asked_for es) refl

-- Over any sequence of events the message store is what the writes that the events ask for, in
-- their order, make of it, however many events the full channel drops: a message with a text of its
-- own or a part of one of the five kinds is saved, as it is built, an empty receipt type raises
-- the receipt of each of its messages to 1, a "read" or "played" one, by oneself or not, to 2, and
-- nothing else writes.
pub table-handle_all :
    (w : Client) (es : List (Answers × Event))
    → (handle_all w es).table ≡ write_all w.table (all_asked es)
unfolding write_all
table-handle_all w es = table-writes_all w es ∙ ap (write_all w.table) (all_writes-asked_for es)
