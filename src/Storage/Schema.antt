-- ===== src/Storage/Schema.antt =====
-- daemon/storage/messages.go: `init` and `migrateColumns`. A table is its columns and its rows, `none`
-- before there is one. The order in which Go ranges over the map of columns is an argument, as are
-- the driver's answers; an ALTER that fails has added nothing.
pub mod Migrated
pub mod Filled
pub mod Readable
use kha_app.Prelude.{
  Bool, true, false, Option, none, some, List, [], ◌∷◌, ◌++◌, map, pos, Text, codes, same_text, any,
  if◌then◌else◌,
}
use kha_app.Prelude.Result.{Outcome}
use kha_app.Storage.Raw.{Value, sql_null, sql_integer, sql_text, RawRow}

pub data SqlType : Type 0 where
  sql_text_type sql_integer_type sql_blob_type : SqlType

-- A column's name, its type, whether it is NOT NULL, and what it holds by DEFAULT.
pub record Column : Type 0 where
  pub name : Text
  pub sql_type : SqlType
  pub not_null : Bool
  pub default_value : Value

-- `TEXT NOT NULL DEFAULT ''`, `INTEGER NOT NULL DEFAULT 0`, and `BLOB`.
abbrev pub text_column : Text → Column
text_column name = record {
  name = name;
  sql_type = sql_text_type;
  not_null = true;
  default_value = sql_text [];
}

abbrev pub integer_column : Text → Column
integer_column name = record {
  name = name;
  sql_type = sql_integer_type;
  not_null = true;
  default_value = sql_integer (pos 0);
}

abbrev pub blob_column : Text → Column
blob_column name = record {
  name = name;
  sql_type = sql_blob_type;
  not_null = false;
  default_value = sql_null;
}

-- The columns without a DEFAULT: without a value they are NULL, which NOT NULL then refuses.
abbrev pub without_default : Column → Column
without_default c = record c { default_value = sql_null }

-- The columns of `CREATE TABLE IF NOT EXISTS messages`. The primary key has no NOT NULL.
abbrev pub created_columns : List Column
created_columns =
    record (without_default (text_column (codes "id"))) { not_null = false }
    ∷ without_default (text_column (codes "jid"))
    ∷ without_default (integer_column (codes "from_me"))
    ∷ text_column (codes "text")
    ∷ without_default (integer_column (codes "timestamp"))
    ∷ integer_column (codes "has_media")
    ∷ text_column (codes "media_type")
    ∷ text_column (codes "media_mime")
    ∷ integer_column (codes "media_size")
    ∷ text_column (codes "local_path")
    ∷ blob_column (codes "media_key")
    ∷ text_column (codes "direct_path")
    ∷ text_column (codes "media_url")
    ∷ blob_column (codes "file_enc_sha256")
    ∷ blob_column (codes "file_sha256")
    ∷ integer_column (codes "is_read")
    ∷ text_column (codes "url_preview")
    ∷ []

-- The map `columns`, in the order of the source.
abbrev pub migrated_columns : List Column
migrated_columns =
    text_column (codes "sender_jid")
    ∷ text_column (codes "sender_name")
    ∷ integer_column (codes "is_group")
    ∷ integer_column (codes "receipt")
    ∷ integer_column (codes "has_media")
    ∷ text_column (codes "media_type")
    ∷ text_column (codes "media_mime")
    ∷ integer_column (codes "media_size")
    ∷ text_column (codes "local_path")
    ∷ blob_column (codes "media_key")
    ∷ text_column (codes "direct_path")
    ∷ text_column (codes "media_url")
    ∷ blob_column (codes "file_enc_sha256")
    ∷ blob_column (codes "file_sha256")
    ∷ integer_column (codes "is_read")
    ∷ text_column (codes "url_preview")
    ∷ []

pub record RawTable : Type 0 where
  pub columns : List Column
  pub rows : List RawRow

-- What `PRAGMA table_info` gives.
abbrev pub names : List Column → List Text
names cols = map (λ c. c.name) cols

-- `existingColumns[name]`.
unfoldable pub has_column : Text → List Text → Bool
unfolding any
has_column name cols = any (same_text name) cols

-- `ALTER TABLE messages ADD COLUMN`: each row holds the column's default.
abbrev pub with_default : Column → RawRow → RawRow
with_default c r = r ++ (c.name, c.default_value) ∷ []

unfoldable pub add_column : Column → RawTable → RawTable
add_column c t = record { columns = t.columns ++ c ∷ []; rows = map (with_default c) t.rows }

-- The loop of ALTER statements, over the names that `PRAGMA table_info` gave at its start.
unfoldable pub alter_columns :
    (Text → Outcome) → List Text → List Column → RawTable → Outcome × RawTable
unfolding has_column add_column
alter_columns alter existing [] t = (none, t)
alter_columns alter existing (c ∷ cs) t =
    let rest = alter_columns alter existing cs t in
    let added = alter_columns alter existing cs (add_column c t) in
    if has_column c.name existing
    then rest
    else elim (alter c.name) [ none ↦ added | some e ↦ (some e, t) ]

unfoldable pub migrate_columns :
    Outcome → (Text → Outcome) → List Column → RawTable → Outcome × RawTable
unfolding alter_columns
migrate_columns none alter order t = alter_columns alter (names t.columns) order t
migrate_columns (some e) alter order t = (some e, t)

abbrev pub created : Option RawTable → RawTable
created none = record { columns = created_columns; rows = [] }
created (some t) = t

abbrev keep_table : Outcome × RawTable → Outcome × Option RawTable
keep_table (o, t) = (o, some t)

-- `CREATE TABLE IF NOT EXISTS`, then the migration.
unfoldable pub init :
    Outcome → Outcome → (Text → Outcome) → List Column → Option RawTable → Outcome × Option RawTable
unfolding migrate_columns
init none pragma alter order table = keep_table (migrate_columns pragma alter order (created table))
init (some e) pragma alter order table = (some e, table)
