-- ===== src/Storage/Schema/Migrated.antt =====
-- What `init` leaves in the schema.
use mathlib.Core.List.{append-nil, append_assoc}
use kha_app.Prelude.{
  ◌≡◌, refl, sym, ap, ◌∙◌, map, true, ◌||◌, Option, none, some, List, [], ◌∷◌, ◌++◌, arith, Text,
  All, Bool-cases, inl, inr, if◌then◌else◌,
}
use kha_app.Prelude.Result.{Outcome}
use kha_app.Storage.Raw.{RawRow}
use kha_app.Storage.Schema.{
  Column, RawTable, names, created, has_column, with_default, add_column, alter_columns, init,
}

has_column-append :
    (c : Text) (xs ys : List Text) → has_column c (xs ++ ys) ≡ (has_column c xs || has_column c ys)
unfolding has_column
has_column-append c [] ys = refl
has_column-append c (x ∷ xs) ys = ground (arith, has_column-append c xs ys)

-- No ALTER fails.
abbrev pub all_done : Text → Outcome
all_done name = none

-- The columns that are not there yet.
abbrev pub missing : List Text → List Column → List Column
missing existing [] = []
missing existing (c ∷ cs) =
    let rest = missing existing cs in if has_column c.name existing then rest else c ∷ rest

abbrev pub defaults : List Column → RawRow
defaults cs = map (λ c. (c.name, c.default_value)) cs

-- The missing columns are added to the table, and their defaults to every row.
abbrev pub extended : List Column → RawTable → RawTable
extended cs t = record { columns = t.columns ++ cs; rows = map (λ r. r ++ defaults cs) t.rows }

map-append-nil : (rs : List RawRow) → map (λ r. r ++ []) rs ≡ rs
map-append-nil [] = refl
map-append-nil (r ∷ rs) = cc (append-nil r, map-append-nil rs)

map-with_default :
    (c : Column) (cs : List Column) (rs : List RawRow)
    → map (λ r. r ++ defaults cs) (map (with_default c) rs) ≡ map (λ r. r ++ defaults (c ∷ cs)) rs
map-with_default c cs [] = refl
map-with_default c cs (r ∷ rs) =
    cc (append_assoc r ((c.name, c.default_value) ∷ []) (defaults cs), map-with_default c cs rs)

extended-nil : (t : RawTable) → extended [] t ≡ t
extended-nil t = rw (append-nil t.columns, map-append-nil t.rows) refl

extended-add_column :
    (c : Column) (cs : List Column) (t : RawTable)
    → extended cs (add_column c t) ≡ extended (c ∷ cs) t
unfolding add_column
extended-add_column c cs t =
    rw (append_assoc t.columns (c ∷ []) cs, map-with_default c cs t.rows) refl

alter_columns-done :
    (existing : List Text) (order : List Column) (t : RawTable)
    → alter_columns all_done existing order t ≡ (none, extended (missing existing order) t)
unfolding alter_columns
alter_columns-done existing [] t = ap (λ u. (none, u)) (sym (extended-nil t))
alter_columns-done existing (c ∷ cs) t = elim (Bool-cases (has_column c.name existing)) [
  | inl e ↦ rw e (alter_columns-done existing cs t)
  | inr e ↦ rw e (
      alter_columns-done existing cs (add_column c t)
      ∙ ap (λ u. (none, u)) (extended-add_column c (missing existing cs) t))
]

-- Without a failure `init` succeeds, in whatever order the columns of the map come: the columns
-- that the table (or the table that is created) does not have are added behind the others, and
-- to every row their defaults.
pub init-extended :
    (order : List Column) (table : Option RawTable)
    → init none none all_done order table
      ≡ (none, some (extended (missing (names (created table).columns) order) (created table)))
unfolding init
init-extended order table =
    ap (λ (r : Outcome × RawTable). (r.0, some r.1))
      (alter_columns-done (names (created table).columns) order (created table))

alter_columns-present :
    (alter : Text → Outcome) (existing : List Text) (order : List Column) (t : RawTable)
    → All (λ c. has_column c.name existing ≡ true) order
    → alter_columns alter existing order t ≡ (none, t)
unfolding alter_columns
alter_columns-present alter existing [] t h = refl
alter_columns-present alter existing (c ∷ cs) t h =
    rw (h.0) (alter_columns-present alter existing cs t h.1)

-- A table that has every column of the map is left as it is, whatever an ALTER would answer, as
-- none is tried.
pub init_again :
    (alter : Text → Outcome) (order : List Column) (t : RawTable)
    → All (λ c. has_column c.name (names t.columns) ≡ true) order
    → init none none alter order (some t) ≡ (none, some t)
unfolding init
init_again alter order t h = rw (alter_columns-present alter (names t.columns) order t h) refl
