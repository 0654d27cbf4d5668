-- ===== src/Tests/Sorted.antt =====
-- An engine: SQLite's answers replaced by a sort and by plain tests.
use mathlib.Core.List.{Perm}
use mathlib.Core.List.Perm
use kha_app.Prelude.{◌≤ℤ◌, inl, inr, Bool-cases, true, [], ◌∷◌, arith, leb_ℤ, All, if◌then◌else◌}
use kha_app.Storage.Message.{Row}
use kha_app.Storage.Table.{Table}
use kha_app.Storage.Query.{Engine, IsDescending}

unfoldable pub insert_row : Row → Table → Table
insert_row q [] = q ∷ []
insert_row q (r ∷ t) = if leb_ℤ r.timestamp q.timestamp then q ∷ r ∷ t else r ∷ insert_row q t

unfoldable pub sort_rows : Table → Table
unfolding insert_row
sort_rows [] = []
sort_rows (q ∷ t) = insert_row q (sort_rows t)

insert_row-Perm : (q : Row) (t : Table) → Perm (insert_row q t) (q ∷ t)
unfolding insert_row
insert_row-Perm q [] = Perm.refl _
insert_row-Perm q (r ∷ t) = elim (Bool-cases (leb_ℤ r.timestamp q.timestamp)) [
  | inl e ↦ rw e (Perm.refl _)
  | inr e ↦ rw e (Perm.trans (Perm.cons r (insert_row-Perm q t)) (Perm.swap _ _ _))
]

pub sort_rows-Perm : (t : Table) → Perm (sort_rows t) t
unfolding sort_rows
sort_rows-Perm [] = Perm.refl _
sort_rows-Perm (q ∷ t) =
    Perm.trans (insert_row-Perm q (sort_rows t)) (Perm.cons q (sort_rows-Perm t))

abbrev Below : Row → Table → Type 0
Below q t = All (λ r. r.timestamp ≤ℤ q.timestamp) t

Below-trans : (q r : Row) (t : Table) → r.timestamp ≤ℤ q.timestamp → Below r t → Below q t
Below-trans q r [] h k = tt
Below-trans q r (s ∷ t) h k = (omega (arith, h, k.0), Below-trans q r t h k.1)

Below-insert_row :
    (p q : Row) (t : Table) → q.timestamp ≤ℤ p.timestamp → Below p t → Below p (insert_row q t)
unfolding insert_row
Below-insert_row p q [] h k = (h, tt)
Below-insert_row p q (r ∷ t) h k = ground (arith, Below-insert_row p q t h k.1)

insert_row-IsDescending : (q : Row) (t : Table) → IsDescending t → IsDescending (insert_row q t)
unfolding insert_row
insert_row-IsDescending q [] h = (tt, tt)
insert_row-IsDescending q (r ∷ t) h = elim (Bool-cases (leb_ℤ r.timestamp q.timestamp)) [
  | inl e ↦ rw e ((ground arith, Below-trans q r t (ground arith) h.0), (h.0, h.1))
  | inr e ↦ rw e (Below-insert_row r q t (ground arith) h.0, insert_row-IsDescending q t h.1)
]

pub sort_rows-IsDescending : (t : Table) → IsDescending (sort_rows t)
unfolding sort_rows
sort_rows-IsDescending [] = tt
sort_rows-IsDescending (q ∷ t) = insert_row-IsDescending q (sort_rows t) (sort_rows-IsDescending t)

abbrev pub engine : Engine
engine = record {
  order = sort_rows;
  order_perm = sort_rows-Perm;
  order_descending = sort_rows-IsDescending;
  lower = λ s. s;
  like = λ s pattern. true;
}
