-- ===== src/Storage/Schema/Filled.antt =====
-- What a row of an older table holds in each column after `migrateColumns`, and what is scanned of it.
use kha_app.Prelude.{
  ◌≡◌, refl, ap, ◌∙◌, Bool, true, false, Option, none, some, List, [], ◌∷◌, ◌++◌, map, arith, ℤ,
  pos, Text, codes, same_text, same_text_iff, All, if◌then◌else◌,
}
use kha_app.Prelude.Result.{ok, ◌>>=◌}
use kha_app.Prelude.Dict.{lookup}
use kha_app.Storage.Message.{Bytes}
use kha_app.Storage.Raw.{
  Value, sql_null, sql_integer, sql_text, sql_blob, RawRow, Conversions, column, scan_text,
  scan_integer, scan_bytes, text_at, integer_at, bytes_at,
}
use kha_app.Storage.Schema.{
  SqlType, sql_text_type, sql_integer_type, sql_blob_type, Column, text_column, integer_column,
  blob_column, migrated_columns, has_column,
}
use kha_app.Storage.Schema.Migrated.{missing, defaults}

-- A value of the column's type; a BLOB may be NULL.
abbrev pub is_of : SqlType → Value → Bool
is_of sql_text_type (sql_text t) = true
is_of sql_integer_type (sql_integer k) = true
is_of sql_blob_type (sql_blob b) = true
is_of sql_blob_type sql_null = true
is_of _ _ = false

abbrev pub there : SqlType → Option Value → Bool
there k none = false
there k (some v) = is_of k v

abbrev pub absent_or_there : SqlType → Option Value → Bool
absent_or_there k none = true
absent_or_there k (some v) = is_of k v

abbrev pub is_there : Option Value → Bool
is_there none = false
is_there (some v) = true

-- A row of a table from an earlier version: it has a value for exactly the columns of the table, the
-- five columns that every version had are there, and each other one may be.
pub record IsOld (existing : List Text) (r : RawRow) : Type 0 where
  pub same_names : (name : Text) → has_column name existing ≡ is_there (lookup name r)
  pub id : there sql_text_type (lookup (codes "id") r) ≡ true
  pub jid : there sql_text_type (lookup (codes "jid") r) ≡ true
  pub from_me : there sql_integer_type (lookup (codes "from_me") r) ≡ true
  pub text : there sql_text_type (lookup (codes "text") r) ≡ true
  pub timestamp : there sql_integer_type (lookup (codes "timestamp") r) ≡ true
  pub others : All (λ c. absent_or_there c.sql_type (lookup c.name r) ≡ true) migrated_columns

-- A table whose columns are those of the row.
pub has_column-row :
    (name : Text) (r : RawRow) → has_column name (map (λ x. x.0) r) ≡ is_there (lookup name r)
unfolding has_column lookup
has_column-row name [] = refl
has_column-row name ((j, v) ∷ r) =
    ground (arith, same_text_iff name j, same_text_iff j name, has_column-row name r)

abbrev pub find_column : Text → List Column → Option Column
find_column name [] = none
find_column name (c ∷ cs) = if same_text c.name name then some c else find_column name cs

-- The columns of the map, in some order.
abbrev pub IsOrder : List Column → Type 0
IsOrder order = All (λ c. find_column c.name order ≡ some c) migrated_columns

abbrev pub text_or : Option Value → Text
text_or (some (sql_text t)) = t
text_or _ = []

abbrev pub integer_or : Option Value → ℤ
integer_or (some (sql_integer k)) = k
integer_or _ = pos 0

abbrev pub bytes_or : Option Value → Bytes
bytes_or (some (sql_blob b)) = some b
bytes_or _ = none

abbrev pub or_else : Option Value → Option Value → Option Value
or_else none o = o
or_else (some v) o = some v

lookup-append : (k : Text) (r s : RawRow) → lookup k (r ++ s) ≡ or_else (lookup k r) (lookup k s)
unfolding lookup
lookup-append k [] s = refl
lookup-append k ((j, v) ∷ r) s = ground (arith, lookup-append k r s)

lookup-defaults :
    (existing : List Text) (c : Column) (order : List Column)
    → has_column c.name existing ≡ false
    → find_column c.name order ≡ some c
    → lookup c.name (defaults (missing existing order)) ≡ some c.default_value
unfolding lookup
lookup-defaults existing c [] e f = cc
lookup-defaults existing c (d ∷ ds) e f =
    ground (arith, same_text_iff d.name c.name, lookup-defaults existing c ds e)

abbrev pub or_default : Column → Option Value → Value
or_default c none = c.default_value
or_default c (some v) = v

-- The value that a column is scanned from.
module _ (c : Conversions) (s : RawRow) (name : Text) (v : Value) (e : lookup name s ≡ some v) where
  column-found : column name s ≡ ok v
  column-found = rw (e, column) refl

  pub text_at-found : text_at c s name ≡ scan_text c v
  unfolding text_at
  text_at-found = ap (λ r. r >>= scan_text c) column-found

  pub integer_at-found : integer_at c s name ≡ scan_integer c v
  unfolding integer_at
  integer_at-found = ap (λ r. r >>= scan_integer c) column-found

  pub bytes_at-found : bytes_at c s name ≡ scan_bytes c v
  unfolding bytes_at
  bytes_at-found = ap (λ r. r >>= scan_bytes c) column-found

-- What is scanned of a value that the row has, and of the default.
pub scanned-text :
    (c : Conversions) (name : Text) (o : Option Value)
    → absent_or_there sql_text_type o ≡ true
    → scan_text c (or_default (text_column name) o) ≡ ok (text_or o)
scanned-text c name none t = refl
scanned-text c name (some sql_null) t = cc
scanned-text c name (some (sql_text x)) t = refl
scanned-text c name (some (sql_integer x)) t = cc
scanned-text c name (some (sql_blob x)) t = cc

pub scanned-integer :
    (c : Conversions) (name : Text) (o : Option Value)
    → absent_or_there sql_integer_type o ≡ true
    → scan_integer c (or_default (integer_column name) o) ≡ ok (integer_or o)
scanned-integer c name none t = refl
scanned-integer c name (some sql_null) t = cc
scanned-integer c name (some (sql_text x)) t = cc
scanned-integer c name (some (sql_integer x)) t = refl
scanned-integer c name (some (sql_blob x)) t = cc

pub scanned-bytes :
    (c : Conversions) (name : Text) (o : Option Value)
    → absent_or_there sql_blob_type o ≡ true
    → scan_bytes c (or_default (blob_column name) o) ≡ ok (bytes_or o)
scanned-bytes c name none t = refl
scanned-bytes c name (some sql_null) t = refl
scanned-bytes c name (some (sql_text x)) t = cc
scanned-bytes c name (some (sql_integer x)) t = cc
scanned-bytes c name (some (sql_blob x)) t = refl

-- What a row holds in a column after the migration.
module _ (existing : List Text) (order : List Column) (r : RawRow) (h : IsOld existing r) where
  abbrev pub after : RawRow
  after = r ++ defaults (missing existing order)

  pub lookup-after :
      (c : Column)
      → find_column c.name order ≡ some c
      → lookup c.name after ≡ some (or_default c (lookup c.name r))
  lookup-after c f =
      rw (lookup-append c.name r (defaults (missing existing order))) (found (lookup c.name r) refl)
    where
      found :
          (o : Option Value)
          → lookup c.name r ≡ o
          → or_else o (lookup c.name (defaults (missing existing order))) ≡ some (or_default c o)
      found (some v) e = refl
      found none e = lookup-defaults existing c order (h.same_names c.name ∙ ap is_there e) f

  -- A column that was there is kept.
  pub lookup-there :
      (k : SqlType) (c : Column)
      → there k (lookup c.name r) ≡ true
      → lookup c.name after ≡ some (or_default c (lookup c.name r))
  lookup-there k c t =
      rw (lookup-append c.name r (defaults (missing existing order))) (found (lookup c.name r) t)
    where
      found :
          (o : Option Value)
          → there k o ≡ true
          → or_else o (lookup c.name (defaults (missing existing order))) ≡ some (or_default c o)
      found none t = cc
      found (some v) t = refl
