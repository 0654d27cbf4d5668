-- ===== src/Storage/Schema/Readable.antt =====
-- Which rows of an older table `scanMessage` reads after `init`.
use kha_app.Prelude.{
  ◌≡◌, refl, ◌∙◌, true, Option, none, some, List, [], ◌∷◌, ◌++◌, map, Text, codes, All,
}
use kha_app.Prelude.Result.{ok}
use kha_app.Prelude.Dict.{lookup}
use kha_app.Storage.Message.{Row, scan_message}
use kha_app.Storage.Raw.{
  Value, RawRow, Conversions, text_at, integer_at, bytes_at, scan_columns, scan_raw, scan_raws,
}
use kha_app.Storage.Schema.{
  SqlType, sql_text_type, sql_integer_type, sql_blob_type, Column, text_column, integer_column,
  blob_column, RawTable, names, init,
}
use kha_app.Storage.Schema.Filled.{
  there, absent_or_there, IsOld, find_column, IsOrder, text_or, integer_or, bytes_or, lookup-after,
  lookup-there, text_at-found, integer_at-found, bytes_at-found, scanned-text, scanned-integer,
  scanned-bytes,
}
use kha_app.Storage.Schema.Migrated.{all_done, missing, defaults, extended, init-extended}

-- The row with what the new columns hold by default.
unfoldable pub row_of : RawRow → Row
unfolding lookup
row_of r = record {
  id = text_or (lookup (codes "id") r);
  jid = text_or (lookup (codes "jid") r);
  from_me = integer_or (lookup (codes "from_me") r);
  text = text_or (lookup (codes "text") r);
  timestamp = integer_or (lookup (codes "timestamp") r);
  sender_jid = text_or (lookup (codes "sender_jid") r);
  sender_name = text_or (lookup (codes "sender_name") r);
  is_group = integer_or (lookup (codes "is_group") r);
  receipt = integer_or (lookup (codes "receipt") r);
  has_media = integer_or (lookup (codes "has_media") r);
  media_type = text_or (lookup (codes "media_type") r);
  media_mime = text_or (lookup (codes "media_mime") r);
  media_size = integer_or (lookup (codes "media_size") r);
  local_path = text_or (lookup (codes "local_path") r);
  media_key = bytes_or (lookup (codes "media_key") r);
  direct_path = text_or (lookup (codes "direct_path") r);
  media_url = text_or (lookup (codes "media_url") r);
  file_enc_sha256 = bytes_or (lookup (codes "file_enc_sha256") r);
  file_sha256 = bytes_or (lookup (codes "file_sha256") r);
  is_read = integer_or (lookup (codes "is_read") r);
  url_preview = text_or (lookup (codes "url_preview") r);
}

there_or : (k : SqlType) (o : Option Value) → there k o ≡ true → absent_or_there k o ≡ true
there_or k none t = cc
there_or k (some v) t = t

module _ (existing : List Text) (order : List Column) (r : RawRow) (h : IsOld existing r)
    (ord : IsOrder order) (c : Conversions) where
  -- The row after the migration.
  abbrev filled : RawRow
  filled = r ++ defaults (missing existing order)

  text_other :
      (name : Text)
      → find_column name order ≡ some (text_column name)
      → absent_or_there sql_text_type (lookup name r) ≡ true
      → text_at c filled name ≡ ok (text_or (lookup name r))
  text_other name f t =
      text_at-found c filled name _ (lookup-after existing order r h (text_column name) f)
      ∙ scanned-text c name (lookup name r) t

  text_base :
      (name : Text)
      → there sql_text_type (lookup name r) ≡ true
      → text_at c filled name ≡ ok (text_or (lookup name r))
  text_base name t =
      text_at-found c filled name _
        (lookup-there existing order r h sql_text_type (text_column name) t)
      ∙ scanned-text c name (lookup name r) (there_or sql_text_type (lookup name r) t)

  integer_other :
      (name : Text)
      → find_column name order ≡ some (integer_column name)
      → absent_or_there sql_integer_type (lookup name r) ≡ true
      → integer_at c filled name ≡ ok (integer_or (lookup name r))
  integer_other name f t =
      integer_at-found c filled name _ (lookup-after existing order r h (integer_column name) f)
      ∙ scanned-integer c name (lookup name r) t

  integer_base :
      (name : Text)
      → there sql_integer_type (lookup name r) ≡ true
      → integer_at c filled name ≡ ok (integer_or (lookup name r))
  integer_base name t =
      integer_at-found c filled name _
        (lookup-there existing order r h sql_integer_type (integer_column name) t)
      ∙ scanned-integer c name (lookup name r) (there_or sql_integer_type (lookup name r) t)

  bytes_other :
      (name : Text)
      → find_column name order ≡ some (blob_column name)
      → absent_or_there sql_blob_type (lookup name r) ≡ true
      → bytes_at c filled name ≡ ok (bytes_or (lookup name r))
  bytes_other name f t =
      bytes_at-found c filled name _ (lookup-after existing order r h (blob_column name) f)
      ∙ scanned-bytes c name (lookup name r) t

  scan_columns-filled : scan_columns c filled ≡ ok (row_of r)
  unfolding scan_columns row_of
  scan_columns-filled =
      rw
        (
          text_base (codes "id") h.id,
          text_base (codes "jid") h.jid,
          integer_base (codes "from_me") h.from_me,
          text_base (codes "text") h.text,
          integer_base (codes "timestamp") h.timestamp,
          text_other (codes "sender_jid") ord.0 h.others.0,
          text_other (codes "sender_name") ord.1.0 h.others.1.0,
          integer_other (codes "is_group") ord.1.1.0 h.others.1.1.0,
          integer_other (codes "receipt") ord.1.1.1.0 h.others.1.1.1.0,
          integer_other (codes "has_media") ord.1.1.1.1.0 h.others.1.1.1.1.0,
          text_other (codes "media_type") ord.1.1.1.1.1.0 h.others.1.1.1.1.1.0,
          text_other (codes "media_mime") ord.1.1.1.1.1.1.0 h.others.1.1.1.1.1.1.0,
          integer_other (codes "media_size") ord.1.1.1.1.1.1.1.0 h.others.1.1.1.1.1.1.1.0,
          text_other (codes "local_path") ord.1.1.1.1.1.1.1.1.0 h.others.1.1.1.1.1.1.1.1.0,
          bytes_other (codes "media_key") ord.1.1.1.1.1.1.1.1.1.0 h.others.1.1.1.1.1.1.1.1.1.0,
          text_other (codes "direct_path") ord.1.1.1.1.1.1.1.1.1.1.0 h.others.1.1.1.1.1.1.1.1.1.1.0,
          text_other (codes "media_url") ord.1.1.1.1.1.1.1.1.1.1.1.0
              h.others.1.1.1.1.1.1.1.1.1.1.1.0,
          bytes_other (codes "file_enc_sha256") ord.1.1.1.1.1.1.1.1.1.1.1.1.0
              h.others.1.1.1.1.1.1.1.1.1.1.1.1.0,
          bytes_other (codes "file_sha256") ord.1.1.1.1.1.1.1.1.1.1.1.1.1.0
              h.others.1.1.1.1.1.1.1.1.1.1.1.1.1.0,
          integer_other (codes "is_read") ord.1.1.1.1.1.1.1.1.1.1.1.1.1.1.0
              h.others.1.1.1.1.1.1.1.1.1.1.1.1.1.1.0,
          text_other (codes "url_preview") ord.1.1.1.1.1.1.1.1.1.1.1.1.1.1.1.0
              h.others.1.1.1.1.1.1.1.1.1.1.1.1.1.1.1.0,
        )
        refl

scan_raws-filled :
    (existing : List Text) (order : List Column) (rs : List RawRow) (c : Conversions)
    → IsOrder order
    → All (IsOld existing) rs
    → scan_raws c (map (λ r. r ++ defaults (missing existing order)) rs)
      ≡ ok (map (λ r. scan_message (row_of r)) rs)
unfolding scan_raws scan_raw
scan_raws-filled existing order [] c ord h = refl
scan_raws-filled existing order (r ∷ rs) c ord h =
    rw (scan_columns-filled existing order r h.0 ord c)
      (rw (scan_raws-filled existing order rs c ord h.1) refl)

-- Where every row of a table has values for exactly the table's columns, among them the five that
-- every version had, each of its column's type, and every other value that it has for a column of
-- the map is of this column's type, `init` without a failure makes every row readable: the rows are
-- read with the values that they had, and with "", 0, false or nil for each column that was added, in
-- whatever order these were.
pub scan_raws-init :
    (c : Conversions) (order : List Column) (t : RawTable)
    → IsOrder order
    → All (IsOld (names t.columns)) t.rows
    → (u : RawTable) × ((init none none all_done order (some t) ≡ (none, some u))
        × (scan_raws c u.rows ≡ ok (map (λ r. scan_message (row_of r)) t.rows)))
scan_raws-init c order t ord h = (
  extended (missing (names t.columns) order) t,
  (init-extended order (some t), scan_raws-filled (names t.columns) order t.rows c ord h),
)
