-- ===== src/Storage/Table/Lookup.antt =====
-- The table as a finite map from message ids to rows, and a write as a change of it.
use mathlib.Core.Option
use kha_app.Prelude.{
  ◌≡◌, refl, Bool, Option, none, some, [], ◌∷◌, arith, Text, same_text, same_text_iff,
  same_text_refl, if◌then◌else◌,
}
use kha_app.Prelude.Result.{ok, Outcome}
use kha_app.Storage.Message.{StoredMessage, Row, to_row, scan_message-to_row}
use kha_app.Storage.Upsert.{merge}
use kha_app.Storage.Table.{
  Table, save, get_by_id, upsert, update_where, find, with_preview, has_id, set_local_path,
  raise_receipt, received_in, set_read, Write, saves, sets_path, sets_receipt, marks_read, write,
}

-- The row that an upsert leaves under its id.
abbrev pub placed : Row → Option Row → Row
placed r none = r
placed r (some q) = merge r q

pub id-merge : (r q : Row) → (merge r q).id ≡ q.id
unfolding merge
id-merge r q = refl

pub find-upsert :
    (r : Row) (j : Text) (t : Table)
    → find j (upsert r t) ≡ (if same_text j r.id then some (placed r (find j t)) else find j t)
unfolding find upsert
find-upsert r j [] = ground arith
find-upsert r j (q ∷ t) = ground (
  arith,
  id-merge r q,
  same_text_iff r.id q.id,
  same_text_iff j q.id,
  same_text_iff j r.id,
  find-upsert r j t,
)

id-with_preview : (msg : StoredMessage) → (with_preview msg).id ≡ msg.id
unfolding with_preview
id-with_preview msg = ground arith

id-to_row : (msg : StoredMessage) → (to_row msg).id ≡ msg.id
unfolding to_row
id-to_row msg = refl

pub get_by_id-save :
    (msg : StoredMessage) (t : Table)
    → find msg.id t ≡ none
    → get_by_id none msg.id (save none msg t).1 ≡ ok (with_preview msg)
unfolding get_by_id save
get_by_id-save msg t fresh = ground (
  arith,
  fresh,
  find-upsert (to_row (with_preview msg)) msg.id t,
  id-to_row (with_preview msg),
  id-with_preview msg,
  same_text_refl msg.id,
  scan_message-to_row (with_preview msg),
)

abbrev pub rewritten : (Row → Bool) → (Row → Row) → Row → Row
rewritten p f q = if p q then f q else q

pub find-update_where :
    (p : Row → Bool) (f : Row → Row) (j : Text) (t : Table)
    → ((q : Row) → (f q).id ≡ q.id)
    → find j (update_where p f t) ≡ Option.map (rewritten p f) (find j t)
unfolding find update_where
find-update_where p f j [] keeps = refl
find-update_where p f j (q ∷ t) keeps = ground (arith, keeps q, find-update_where p f j t keeps)

-- The change of a write, of the rows as a map from ids. A failed call changes nothing.
abbrev pub View : Type 0
View = Text → Option Row

abbrev pub view : Table → View
view t j = find j t

abbrev pub spec : View → Outcome × Write → View
spec v (some e, w) j = v j
spec v (none, saves msg) j =
    let r = to_row (with_preview msg) in if same_text j r.id then some (placed r (v j)) else v j
spec v (none, sets_path i path) j = Option.map (rewritten (has_id i) (set_local_path path)) (v j)
spec v (none, sets_receipt i k) j = Option.map (rewritten (has_id i) (raise_receipt k)) (v j)
spec v (none, marks_read jid) j = Option.map (rewritten (received_in jid) set_read) (v j)

pub find-write :
    (t : Table) (w : Outcome × Write) (j : Text) → find j (write t w) ≡ spec (view t) w j
unfolding write
find-write t (none, saves msg) j = find-upsert (to_row (with_preview msg)) j t
find-write t (none, sets_path i path) j = find-update_where _ _ j t (λ q. refl)
find-write t (none, sets_receipt i k) j = find-update_where _ _ j t (λ q. refl)
find-write t (none, marks_read jid) j = find-update_where _ _ j t (λ q. refl)
find-write t (some e, saves msg) j = refl
find-write t (some e, sets_path i path) j = refl
find-write t (some e, sets_receipt i k) j = refl
find-write t (some e, marks_read jid) j = refl
