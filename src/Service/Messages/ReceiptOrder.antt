-- ===== src/Service/Messages/ReceiptOrder.antt =====
-- A receipt that the event handler stores before or after `SendTextMessage` has stored the message.
use mathlib.Core.Option
use kha_app.Prelude.{ℕ, ◌≡◌, refl, Option, none, some, [], ◌∷◌, arith, ℤ, pos, Text, max_ℤ}
use kha_app.Prelude.Result.{ok}
use kha_app.Storage.Message.{StoredMessage, Row, scan_message}
use kha_app.Storage.Table.{
  Table, find, with_preview, has_id, raise_receipt, update_where, update_receipt, get_by_id,
  scan_row,
}
use kha_app.Service.Messages.{sent_message, send_text_message}
use kha_app.Service.Messages.Results.{get_by_id-send_text_message, update_where-none}

-- What the store says of one message.
pub record ReadsBack (t : Table) (message_id jid text : Text) (k : ℤ) : Type 0 where
  pub msg : StoredMessage
  pub found : get_by_id none message_id t ≡ ok msg
  pub of_chat : msg.jid ≡ jid
  pub as_written : msg.text ≡ text
  pub receipt : msg.receipt ≡ k

sent-ReadsBack :
    (message_id jid text : Text) (now : ℤ) (t : Table)
    → find message_id t ≡ none
    → ReadsBack
        (send_text_message (ok message_id) now none jid text t).1
        message_id
        jid
        text
        (pos 0)
unfolding sent_message with_preview
sent-ReadsBack message_id jid text now t fresh = record {
  msg = with_preview (sent_message message_id jid text now);
  found = get_by_id-send_text_message message_id jid text now t fresh;
  of_chat = ground arith;
  as_written = ground arith;
  receipt = ground arith;
}

find-raise_receipt :
    (i : Text) (k : ℤ) (t : Table)
    → find i (update_where (has_id i) (raise_receipt k) t) ≡ Option.map (raise_receipt k) (find i t)
unfolding find update_where
find-raise_receipt i k [] = refl
find-raise_receipt i k (q ∷ t) = ground (arith, find-raise_receipt i k t)

scanned-raise_receipt :
    (q : Option Row) (k : ℤ) (msg : StoredMessage)
    → scan_row q ≡ ok msg
    → scan_row (Option.map (raise_receipt k) q) ≡ ok (record msg { receipt = max_ℤ msg.receipt k })
unfolding scan_message
scanned-raise_receipt none k msg h = ground arith
scanned-raise_receipt (some q) k msg h = ground arith

receipt-ReadsBack :
    (message_id jid text : Text) (n : ℕ) (t : Table)
    → ReadsBack t message_id jid text (pos 0)
    → ReadsBack (update_receipt none message_id (pos n) t).1 message_id jid text (pos n)
unfolding update_receipt get_by_id
receipt-ReadsBack message_id jid text n t h = record {
  msg = record h.msg { receipt = max_ℤ h.msg.receipt (pos n) };
  found =
      rw (find-raise_receipt message_id (pos n) t)
        (scanned-raise_receipt (find message_id t) (pos n) h.msg h.found);
  of_chat = h.of_chat;
  as_written = h.as_written;
  receipt = rw h.receipt (ground arith);
}

early_receipt-none :
    (message_id : Text) (k : ℤ) (t : Table)
    → find message_id t ≡ none
    → (update_receipt none message_id k t).1 ≡ t
unfolding update_receipt
early_receipt-none message_id k t fresh = update_where-none message_id (raise_receipt k) t fresh

-- For a message that is sent under a new id and stored without an error, the order of storing it
-- and of storing a receipt for it matters: a receipt that comes after it is read back with the
-- message, and one that comes before it, while the message is on its way, is lost.
pub receipt_order :
    (message_id jid text : Text) (now : ℤ) (n : ℕ) (t : Table)
    → find message_id t ≡ none
    → ReadsBack
        (update_receipt none message_id
          (pos n)
          (send_text_message (ok message_id) now none jid text t).1).1
        message_id
        jid
        text
        (pos n)
      × ReadsBack
          (send_text_message
            (ok message_id)
            now
            none
            jid
            text
            (update_receipt none message_id (pos n) t).1).1
          message_id
          jid
          text
          (pos 0)
receipt_order message_id jid text now n t fresh = (
  receipt-ReadsBack message_id jid text n _ (sent-ReadsBack message_id jid text now t fresh),
  rw (early_receipt-none message_id (pos n) t fresh)
      (sent-ReadsBack message_id jid text now t fresh),
)
