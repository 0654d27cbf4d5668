-- ===== src/Storage/Table/Unread.antt =====
-- Unread counts, and the message that a save stores.
use kha_app.Prelude.{
  ◌≡◌, none, [], ◌∷◌, arith, Text, same_text, same_text_iff, select, if◌then◌else◌,
}
use kha_app.Prelude.Result.{ok}
use kha_app.Storage.Table.{
  Table, update_where, received_in, unread_in, set_read, mark_jid_as_read, get_unread_count,
}

-- Marking a chat as read leaves no unread message in it, and changes no other chat's count.
unread-set_read :
    (jid other : Text) (t : Table)
    → select (unread_in other) (update_where (received_in jid) set_read t)
      ≡ (if same_text other jid then [] else select (unread_in other) t)
unfolding select update_where
unread-set_read jid other [] = ground arith
unread-set_read jid other (q ∷ t) = ground (
  arith,
  same_text_iff other jid,
  same_text_iff other q.jid,
  same_text_iff jid q.jid,
  unread-set_read jid other t,
)

-- Where no statement fails, after a chat has been marked as read its unread count is 0, and that
-- of every other chat is what it was.
pub get_unread_count-mark_jid_as_read :
    (jid other : Text) (t : Table)
    → get_unread_count none other (mark_jid_as_read none jid t).1
      ≡ (if same_text other jid then ok 0 else get_unread_count none other t)
unfolding get_unread_count mark_jid_as_read
get_unread_count-mark_jid_as_read jid other t = rw (unread-set_read jid other t) (ground arith)
