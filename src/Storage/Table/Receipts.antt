-- ===== src/Storage/Table/Receipts.antt =====
-- What no write takes back: receipts only rise, and what was read, downloaded or known stays so.
use mathlib.Core.Option
use kha_app.Prelude.{
  ◌≡◌, ◌≢◌, ◌≤ℤ◌, refl, ap, Bool, true, false, Option, none, some, List, [], ◌∷◌, arith, ℤ, pos,
  Text, same_text, max_ℤ, if◌then◌else◌,
}
use kha_app.Prelude.Result.{Outcome}
use kha_app.Storage.Message.{Row, to_row}
use kha_app.Storage.Upsert.{merge, case_text, case_int, case_greater, case_set}
use kha_app.Storage.Table.{
  Table, update_where, find, with_preview, has_id, set_local_path, raise_receipt, received_in,
  set_read, update_receipt, Write, saves, sets_path, sets_receipt, marks_read, write, write_all,
}
use kha_app.Storage.Table.Lookup.{placed, rewritten, find-write}

-- From the first row to the second nothing is lost.
pub record Progress (q r : Row) : Type 0 where
  pub same_id : r.id ≡ q.id
  pub receipt : q.receipt ≤ℤ r.receipt
  pub is_read : q.is_read ≡ pos 1 → r.is_read ≡ pos 1
  pub is_group : q.is_group ≢ pos 0 → r.is_group ≢ pos 0
  pub has_media : q.has_media ≢ pos 0 → r.has_media ≢ pos 0
  pub sender_name : q.sender_name ≢ [] → r.sender_name ≢ []
  pub direct_path : q.direct_path ≢ [] → r.direct_path ≢ []

Progress-refl : (q : Row) → Progress q q
Progress-refl q = ground arith

Progress-trans : (q r s : Row) → Progress q r → Progress r s → Progress q s
Progress-trans q r s h k = record {
  same_id = cc (h.same_id, k.same_id);
  receipt = omega (arith, h.receipt, k.receipt);
  is_read = λ e. k.is_read (h.is_read e);
  is_group = λ e. k.is_group (h.is_group e);
  has_media = λ e. k.has_media (h.has_media e);
  sender_name = λ e. k.sender_name (h.sender_name e);
  direct_path = λ e. k.direct_path (h.direct_path e);
}

case_int-ne_zero : (n o : ℤ) → o ≢ pos 0 → case_int n o ≢ pos 0
unfolding case_int
case_int-ne_zero n o h = ground arith

case_text-ne-nil : (n o : Text) → o ≢ [] → case_text n o ≢ []
unfolding case_text
case_text-ne-nil n o h = ground arith

case_set-one : (n o : ℤ) → o ≡ pos 1 → case_set n o ≡ pos 1
unfolding case_set
case_set-one n o h = ground arith

case_greater-le : (n o : ℤ) → o ≤ℤ case_greater n o
unfolding case_greater
case_greater-le n o = ground arith

merge-Progress : (r q : Row) → Progress q (merge r q)
unfolding merge
merge-Progress r q = record {
  same_id = refl;
  receipt = case_greater-le r.receipt q.receipt;
  is_read = case_set-one r.is_read q.is_read;
  is_group = case_int-ne_zero r.is_group q.is_group;
  has_media = case_int-ne_zero r.has_media q.has_media;
  sender_name = case_text-ne-nil r.sender_name q.sender_name;
  direct_path = case_text-ne-nil r.direct_path q.direct_path;
}

rewritten-Progress :
    (p : Row → Bool) (f : Row → Row) (q : Row) → Progress q (f q) → Progress q (rewritten p f q)
rewritten-Progress p f q h = elim (p q) as (λ b. Progress q (if b then f q else q)) [
  | true ↦ h
  | false ↦ Progress-refl q
]

-- The row of an id, before and after.
abbrev pub Kept : Table → Table → Type 0
Kept t u = (j : Text) (q : Row) → find j t ≡ some q → (r : Row) × (find j u ≡ some r) × Progress q r

saved_row :
    (r : Row) (j : Text) (q : Row) (o : Option Row)
    → o ≡ some q
    → (s : Row) × ((if same_text j r.id then some (placed r o) else o) ≡ some s) × Progress q s
saved_row r j q o e =
    elim (same_text j r.id)
      as (λ b. (s : Row) × ((if b then some (placed r o) else o) ≡ some s) × Progress q s) [
        | true ↦ (merge r q, rw e, merge-Progress r q)
        | false ↦ (q, e, Progress-refl q)
      ]

rewritten_row :
    (p : Row → Bool) (f : Row → Row) (q : Row) (o : Option Row)
    → o ≡ some q
    → Progress q (f q)
    → (s : Row) × (Option.map (rewritten p f) o ≡ some s) × Progress q s
rewritten_row p f q o e h = (rewritten p f q, rw e, rewritten-Progress p f q h)

raise_receipt-Progress : (k : ℤ) (q : Row) → Progress q (raise_receipt k q)
raise_receipt-Progress k q = ground arith

set_read-Progress : (q : Row) → Progress q (set_read q)
set_read-Progress q = ground arith

set_local_path-Progress : (path : Text) (q : Row) → Progress q (set_local_path path q)
set_local_path-Progress path q = ground arith

write-Kept : (t : Table) (w : Outcome × Write) → Kept t (write t w)
write-Kept t (none, saves msg) j q e =
    rw find-write (saved_row (to_row (with_preview msg)) j q (find j t) e)
write-Kept t (none, sets_path i path) j q e =
    rw find-write (
      rewritten_row (has_id i) (set_local_path path) q (find j t) e
        (set_local_path-Progress path q))
write-Kept t (none, sets_receipt i k) j q e =
    rw find-write
      (rewritten_row (has_id i) (raise_receipt k) q (find j t) e (raise_receipt-Progress k q))
write-Kept t (none, marks_read jid) j q e =
    rw find-write (rewritten_row (received_in jid) set_read q (find j t) e (set_read-Progress q))
write-Kept t (some x, w) j q e = rw find-write (q, e, Progress-refl q)

-- Over any history of writes, failed ones among them, the row of a stored id stays, its receipt
-- never falls, a read message stays read, and a message that had media, a sender's name, a
-- download path or was a group's keeps having them.
pub write_all-Kept : (t : Table) (ws : List (Outcome × Write)) → Kept t (write_all t ws)
unfolding write_all
write_all-Kept t [] j q e = (q, e, Progress-refl q)
write_all-Kept t (w ∷ ws) j q e =
    let (r, e', h) = write-Kept t w j q e in
    let (s, e'', k) = write_all-Kept (write t w) ws j r e' in (s, e'', Progress-trans q r s h k)

update_where_comm :
    (p f' : Row → Bool) (f g : Row → Row) (t : Table)
    → ((q : Row) → rewritten p f (rewritten f' g q) ≡ rewritten f' g (rewritten p f q))
    → update_where p f (update_where f' g t) ≡ update_where f' g (update_where p f t)
unfolding update_where
update_where_comm p f' f g [] h = refl
update_where_comm p f' f g (q ∷ t) h = cc (h q, update_where_comm p f' f g t h)

max_ℤ_swap : (a b c : ℤ) → max_ℤ (max_ℤ a b) c ≡ max_ℤ (max_ℤ a c) b
max_ℤ_swap a b c = ground arith

raised : Bool → ℤ → Row → Row
raised b k q = if b then raise_receipt k q else q

raised_swap :
    (a b : Bool) (k l : ℤ) (q : Row) → raised a k (raised b l q) ≡ raised b l (raised a k q)
unfolding raised
raised_swap true true k l q = ap (λ r. record q { receipt = r }) (max_ℤ_swap q.receipt l k)
raised_swap true false k l q = refl
raised_swap false true k l q = refl
raised_swap false false k l q = refl

id-raised : (b : Bool) (k : ℤ) (q : Row) → (raised b k q).id ≡ q.id
unfolding raised
id-raised true k q = refl
id-raised false k q = refl

raised_swap_at :
    (i j x y : Text) (k l : ℤ) (q : Row)
    → x ≡ q.id
    → y ≡ q.id
    → raised (same_text i x) k (raised (same_text j q.id) l q)
      ≡ raised (same_text j y) l (raised (same_text i q.id) k q)
raised_swap_at i j x y k l q ex ey =
    rw (ex, ey) (raised_swap (same_text i q.id) (same_text j q.id) k l q)

-- Two receipts, of one message or of two, leave the same table in either order, where neither
-- statement fails.
pub update_receipt_comm :
    (i j : Text) (k l : ℤ) (t : Table)
    → (update_receipt none i k (update_receipt none j l t).1).1
      ≡ (update_receipt none j l (update_receipt none i k t).1).1
unfolding update_receipt raised
update_receipt_comm i j k l t =
    update_where_comm (has_id i) (has_id j) (raise_receipt k) (raise_receipt l) t (λ q.
      raised_swap_at i j _ _ k l q (id-raised (same_text j q.id) l q)
        (id-raised (same_text i q.id) k q))
