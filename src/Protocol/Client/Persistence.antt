-- ===== src/Protocol/Client/Persistence.antt =====
-- What the handler does to the message store.
pub mod Asked
use kha_app.Prelude.{
  ◌≡◌, refl, sym, ap, ◌∙◌, List, [], ◌∷◌, ◌++◌, arith, ℤ, pos, ltb_ℤ, Text, if◌then◌else◌,
}
use kha_app.Prelude.Result.{Outcome}
use kha_app.Storage.Table.{Table, Write, saves, sets_receipt, write, write_all}
use kha_app.Storage.Table.Keys.{IsKeyed, write_all-IsKeyed}
use kha_app.Storage.Table.Receipts.{Kept, write_all-Kept}
use kha_app.Protocol.Event.{
  Event, message, connected, disconnected, logged_out, receipt, chat_presence, group_info, picture,
  unhandled,
}
use kha_app.Protocol.Receipt.{map_receipt_type}
use kha_app.Protocol.Content.{build_stored_message}
use kha_app.Protocol.Client.{
  Client, Answers, forward, is_stored, persist_message, persist_receipts, persist_receipt_event,
  handle, handle_all,
}

-- The writes that an event asks for.
unfoldable pub receipt_writes : Answers → ℤ → List Text → List (Outcome × Write)
receipt_writes a k [] = []
receipt_writes a k (i ∷ ids) = (a.receipt_outcome i, sets_receipt i k) ∷ receipt_writes a k ids

unfoldable pub writes : Answers → Event → List (Outcome × Write)
writes a (message event) =
    let msg = build_stored_message a.contacts event in
    if is_stored msg then (a.save_outcome, saves msg) ∷ [] else []
writes a (receipt receipt_type ids) =
    if ltb_ℤ (pos 0) (map_receipt_type receipt_type)
    then receipt_writes a (map_receipt_type receipt_type) ids
    else []
writes a _ = []

persist_receipts-writes :
    (a : Answers) (k : ℤ) (ids : List Text) (t : Table)
    → persist_receipts a k ids t ≡ write_all t (receipt_writes a k ids)
unfolding persist_receipts write_all receipt_writes
persist_receipts-writes a k [] t = refl
persist_receipts-writes a k (i ∷ ids) t = persist_receipts-writes a k ids _

table-forward : (e : Event) (w : Client) → (forward e w).table ≡ w.table
unfolding forward
table-forward e w = ground arith

-- What is persisted does not depend on the channel: an event that is dropped from it is stored.
pub table-handle :
    (a : Answers) (e : Event) (w : Client) → (handle a e w).table ≡ write_all w.table (writes a e)
unfolding handle writes write_all persist_message persist_receipt_event
table-handle a (message event) w = rw table-forward (ground arith)
table-handle a (receipt receipt_type ids) w =
    rw table-forward
      (ground (arith, persist_receipts-writes a (map_receipt_type receipt_type) ids w.table))
table-handle a connected w = table-forward _ _
table-handle a disconnected w = table-forward _ _
table-handle a logged_out w = table-forward _ _
table-handle a (chat_presence chat sender state) w = table-forward _ _
table-handle a (group_info jid) w = table-forward _ _
table-handle a (picture jid) w = table-forward _ _
table-handle a unhandled w = refl

pub all_writes : List (Answers × Event) → List (Outcome × Write)
all_writes [] = []
all_writes ((a, e) ∷ es) = writes a e ++ all_writes es

pub write_all-append :
    (t : Table) (ws vs : List (Outcome × Write))
    → write_all t (ws ++ vs) ≡ write_all (write_all t ws) vs
unfolding write_all
write_all-append t [] vs = refl
write_all-append t (w ∷ ws) vs = write_all-append (write t w) ws vs

pub table-writes_all :
    (w : Client) (es : List (Answers × Event))
    → (handle_all w es).table ≡ write_all w.table (all_writes es)
unfolding handle_all all_writes write_all
table-writes_all w [] = refl
table-writes_all w ((a, e) ∷ es) =
    table-writes_all (handle a e w) es
    ∙ ap (λ (t : Table). write_all t (all_writes es)) (table-handle a e w)
    ∙ sym (write_all-append w.table (writes a e) (all_writes es))

-- From a table with distinct ids, no sequence of events, with failing writes among them, takes a
-- stored message away, lowers a receipt or takes back a read flag, media or a sender's name, and
-- the ids stay distinct.
pub handle_all-Kept :
    (w : Client) (es : List (Answers × Event))
    → IsKeyed w.table
    → Kept w.table (handle_all w es).table × IsKeyed (handle_all w es).table
handle_all-Kept w es h =
    rw table-writes_all
      (write_all-Kept w.table (all_writes es), write_all-IsKeyed w.table (all_writes es) h)
