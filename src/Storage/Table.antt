-- ===== src/Storage/Table.antt =====
-- daemon/storage/messages.go: the methods of `MessageStore` that read and write single rows. A
-- table is the list of its rows. The driver's answer to a statement is an argument: on an error
-- the statement has changed nothing, as SQLite's statements are atomic.
pub mod Lookup
pub mod Refines
pub mod Keys
pub mod Receipts
pub mod Unread
use mathlib.Core.Option
use kha_app.Prelude.{
  ℕ, Bool, ◌&&◌, Option, none, some, List, [], ◌∷◌, ℤ, pos, eqb_ℤ, max_ℤ, Text, codes, is_empty,
  same_text, length, select, if◌then◌else◌,
}
use kha_app.Prelude.Result.{Result, ok, err, Outcome}
use kha_app.Storage.Message.{StoredMessage, Row, to_row, scan_message}
use kha_app.Storage.Url.{extract_first_url}
use kha_app.Storage.Upsert.{merge}

abbrev pub Table : Type 0
Table = List Row

-- `INSERT … ON CONFLICT(id) DO UPDATE`: the row of the id is merged in place, or a row is added.
unfoldable pub upsert : Row → Table → Table
upsert r [] = r ∷ []
upsert r (q ∷ t) = if same_text r.id q.id then merge r q ∷ t else q ∷ upsert r t

-- `UPDATE messages SET … WHERE …`.
unfoldable pub update_where : (Row → Bool) → (Row → Row) → Table → Table
update_where p f [] = []
update_where p f (q ∷ t) = (if p q then f q else q) ∷ update_where p f t

-- `SELECT … WHERE id = ?`.
unfoldable pub find : Text → Table → Option Row
find i [] = none
find i (q ∷ t) = if same_text i q.id then some q else find i t

-- The link of the text stands in for an empty preview.
unfoldable pub with_preview : StoredMessage → StoredMessage
with_preview msg =
    if is_empty msg.url_preview
    then record msg { url_preview = extract_first_url msg.text }
    else msg

unfoldable pub save : Outcome → StoredMessage → Table → Outcome × Table
unfolding upsert with_preview
save none msg t = (none, upsert (to_row (with_preview msg)) t)
save (some e) msg t = (some e, t)

abbrev pub has_id : Text → Row → Bool
has_id i q = same_text i q.id

abbrev pub set_local_path : Text → Row → Row
set_local_path path q = record q { local_path = path }

unfoldable pub update_local_path : Outcome → Text → Text → Table → Outcome × Table
unfolding update_where
update_local_path none i path t = (none, update_where (has_id i) (set_local_path path) t)
update_local_path (some e) i path t = (some e, t)

-- `SET receipt = MAX(receipt, ?)`.
abbrev pub raise_receipt : ℤ → Row → Row
raise_receipt receipt q = record q { receipt = max_ℤ q.receipt receipt }

unfoldable pub update_receipt : Outcome → Text → ℤ → Table → Outcome × Table
unfolding update_where
update_receipt none i receipt t = (none, update_where (has_id i) (raise_receipt receipt) t)
update_receipt (some e) i receipt t = (some e, t)

-- `WHERE jid = ? AND from_me = 0`.
abbrev pub received_in : Text → Row → Bool
received_in jid q = same_text jid q.jid && eqb_ℤ q.from_me (pos 0)

abbrev pub set_read : Row → Row
set_read q = record q { is_read = pos 1 }

unfoldable pub mark_jid_as_read : Outcome → Text → Table → Outcome × Table
unfolding update_where
mark_jid_as_read none jid t = (none, update_where (received_in jid) set_read t)
mark_jid_as_read (some e) jid t = (some e, t)

-- `WHERE jid = ? AND from_me = 0 AND is_read = 0`.
abbrev pub unread_in : Text → Row → Bool
unread_in jid q = received_in jid q && eqb_ℤ q.is_read (pos 0)

unfoldable pub get_unread_count : Outcome → Text → Table → Result ℕ
unfolding select
get_unread_count none jid t = ok (length (select (unread_in jid) t))
get_unread_count (some e) jid t = err e

-- `sql.ErrNoRows`.
abbrev pub no_rows : Text
no_rows = codes "sql: no rows in result set"

abbrev pub scan_row : Option Row → Result StoredMessage
scan_row none = err no_rows
scan_row (some q) = ok (scan_message q)

unfoldable pub get_by_id : Outcome → Text → Table → Result StoredMessage
unfolding find
get_by_id none i t = scan_row (find i t)
get_by_id (some e) i t = err e

-- The calls that change the table.
pub data Write : Type 0 where
  saves : StoredMessage → Write
  sets_path : Text → Text → Write
  sets_receipt : Text → ℤ → Write
  marks_read : Text → Write

unfoldable pub write : Table → Outcome × Write → Table
unfolding save update_local_path update_receipt mark_jid_as_read
write t (o, saves msg) = (save o msg t).1
write t (o, sets_path i path) = (update_local_path o i path t).1
write t (o, sets_receipt i receipt) = (update_receipt o i receipt t).1
write t (o, marks_read jid) = (mark_jid_as_read o jid t).1

unfoldable pub write_all : Table → List (Outcome × Write) → Table
unfolding write
write_all t [] = t
write_all t (w ∷ ws) = write_all (write t w) ws
