-- ===== src/Storage/Table/Keys.antt =====
-- `id TEXT PRIMARY KEY`: no two rows of the table have one id.
use kha_app.Prelude.{◌≡◌, refl, Bool, none, some, List, [], ◌∷◌, arith, same_text_iff}
use kha_app.Prelude.Result.{Outcome}
use kha_app.Storage.Message.{Row, to_row}
use kha_app.Storage.Table.{
  Table, upsert, update_where, find, with_preview, Write, saves, sets_path, sets_receipt,
  marks_read, write, write_all,
}
use kha_app.Storage.Table.Lookup.{id-merge, find-upsert, find-update_where}

abbrev pub IsKeyed : Table → Type 0
IsKeyed [] = Unit
IsKeyed (q ∷ t) = (find q.id t ≡ none) × IsKeyed t

upsert-IsKeyed : (r : Row) (t : Table) → IsKeyed t → IsKeyed (upsert r t)
unfolding upsert find
upsert-IsKeyed r [] h = (refl, tt)
upsert-IsKeyed r (q ∷ t) h = ground (
  arith,
  id-merge r q,
  same_text_iff r.id q.id,
  same_text_iff q.id r.id,
  find-upsert r q.id t,
  upsert-IsKeyed r t h.1,
)

update_where-IsKeyed :
    (p : Row → Bool) (f : Row → Row) (t : Table)
    → ((q : Row) → (f q).id ≡ q.id)
    → IsKeyed t
    → IsKeyed (update_where p f t)
unfolding update_where
update_where-IsKeyed p f [] keeps h = tt
update_where-IsKeyed p f (q ∷ t) keeps h =
    ground
      (arith, keeps q, find-update_where p f q.id t keeps, update_where-IsKeyed p f t keeps h.1)

write-IsKeyed : (t : Table) (w : Outcome × Write) → IsKeyed t → IsKeyed (write t w)
unfolding write
write-IsKeyed t (none, saves msg) h = upsert-IsKeyed (to_row (with_preview msg)) t h
write-IsKeyed t (none, sets_path i path) h = update_where-IsKeyed _ _ t (λ q. refl) h
write-IsKeyed t (none, sets_receipt i k) h = update_where-IsKeyed _ _ t (λ q. refl) h
write-IsKeyed t (none, marks_read jid) h = update_where-IsKeyed _ _ t (λ q. refl) h
write-IsKeyed t (some e, saves msg) h = h
write-IsKeyed t (some e, sets_path i path) h = h
write-IsKeyed t (some e, sets_receipt i k) h = h
write-IsKeyed t (some e, marks_read jid) h = h

-- From a table whose ids are distinct, every history of writes leads to such a table.
pub write_all-IsKeyed :
    (t : Table) (ws : List (Outcome × Write)) → IsKeyed t → IsKeyed (write_all t ws)
unfolding write_all
write_all-IsKeyed t [] h = h
write_all-IsKeyed t (w ∷ ws) h = write_all-IsKeyed (write t w) ws (write-IsKeyed t w h)
