-- ===== src/Storage/Raw.antt =====
-- daemon/storage/messages.go: `scanMessage` on the values that SQLite stores, column by column.
use kha_app.Prelude.{ℕ, ◌≡◌, refl, ap, none, some, List, [], ◌∷◌, ◌++◌, same_text, ℤ, Text, codes}
use kha_app.Prelude.Result.{Result, ok, err, ◌>>=◌}
use kha_app.Prelude.Dict.{lookup}
use kha_app.Storage.Message.{Bytes, Row, StoredMessage, to_row, scan_message, scan_message-to_row}

pub data Value : Type 0 where
  sql_null : Value
  sql_integer : ℤ → Value
  sql_text : Text → Value
  sql_blob : List ℕ → Value

-- The values of a row, by the names of the columns.
abbrev pub RawRow : Type 0
RawRow = List (Text × Value)

-- What `database/sql` makes of a value of another type, where it does not refuse it.
pub record Conversions : Type 0 where
  pub to_string : Value → Result Text
  pub to_integer : Value → Result ℤ
  pub to_bytes : Value → Result Bytes

-- NULL is refused for a string and for an integer; a `[]byte` is then nil.
abbrev pub scan_text : Conversions → Value → Result Text
scan_text c sql_null = err (codes "converting NULL to string is unsupported")
scan_text c (sql_text t) = ok t
scan_text c v = c.to_string v

abbrev pub scan_integer : Conversions → Value → Result ℤ
scan_integer c sql_null = err (codes "converting NULL to int is unsupported")
scan_integer c (sql_integer k) = ok k
scan_integer c v = c.to_integer v

abbrev pub scan_bytes : Conversions → Value → Result Bytes
scan_bytes c sql_null = ok none
scan_bytes c (sql_blob b) = ok (some b)
scan_bytes c v = c.to_bytes v

-- A query for a column that the table does not have fails.
abbrev pub column : Text → RawRow → Result Value
column name r = elim (lookup name r) [
  | some v ↦ ok v
  | none ↦ err (codes "no such column: " ++ name)
]

module _ (c : Conversions) (r : RawRow) where
  unfoldable pub text_at : Text → Result Text
  unfolding lookup
  text_at name = column name r >>= scan_text c

  unfoldable pub integer_at : Text → Result ℤ
  unfolding lookup
  integer_at name = column name r >>= scan_integer c

  unfoldable pub bytes_at : Text → Result Bytes
  unfolding lookup
  bytes_at name = column name r >>= scan_bytes c

  -- The 21 columns of the queries, in their order; the first that fails is the error.
  unfoldable pub scan_columns : Result Row
  unfolding text_at integer_at bytes_at
  scan_columns = do
    id ← text_at (codes "id")
    jid ← text_at (codes "jid")
    from_me ← integer_at (codes "from_me")
    text ← text_at (codes "text")
    timestamp ← integer_at (codes "timestamp")
    sender_jid ← text_at (codes "sender_jid")
    sender_name ← text_at (codes "sender_name")
    is_group ← integer_at (codes "is_group")
    receipt ← integer_at (codes "receipt")
    has_media ← integer_at (codes "has_media")
    media_type ← text_at (codes "media_type")
    media_mime ← text_at (codes "media_mime")
    media_size ← integer_at (codes "media_size")
    local_path ← text_at (codes "local_path")
    media_key ← bytes_at (codes "media_key")
    direct_path ← text_at (codes "direct_path")
    media_url ← text_at (codes "media_url")
    file_enc_sha256 ← bytes_at (codes "file_enc_sha256")
    file_sha256 ← bytes_at (codes "file_sha256")
    is_read ← integer_at (codes "is_read")
    url_preview ← text_at (codes "url_preview")
    ok (record {
      id = id;
      jid = jid;
      from_me = from_me;
      text = text;
      timestamp = timestamp;
      sender_jid = sender_jid;
      sender_name = sender_name;
      is_group = is_group;
      receipt = receipt;
      has_media = has_media;
      media_type = media_type;
      media_mime = media_mime;
      media_size = media_size;
      local_path = local_path;
      media_key = media_key;
      direct_path = direct_path;
      media_url = media_url;
      file_enc_sha256 = file_enc_sha256;
      file_sha256 = file_sha256;
      is_read = is_read;
      url_preview = url_preview;
    })

  unfoldable pub scan_raw : Result StoredMessage
  unfolding scan_columns scan_message
  scan_raw = scan_columns >>= (λ row. ok (scan_message row))

-- `scanMessages`: the first row that fails is the error.
unfoldable pub scan_raws : Conversions → List RawRow → Result (List StoredMessage)
unfolding scan_raw
scan_raws c [] = ok []
scan_raws c (r ∷ rs) = do msg ← scan_raw c r; messages ← scan_raws c rs; ok (msg ∷ messages)

abbrev blob_or_null : Bytes → Value
blob_or_null none = sql_null
blob_or_null (some b) = sql_blob b

-- The values that `Save` binds to the columns.
unfoldable pub raw_of : Row → RawRow
raw_of row =
    (codes "id", sql_text row.id)
    ∷ (codes "jid", sql_text row.jid)
    ∷ (codes "from_me", sql_integer row.from_me)
    ∷ (codes "text", sql_text row.text)
    ∷ (codes "timestamp", sql_integer row.timestamp)
    ∷ (codes "sender_jid", sql_text row.sender_jid)
    ∷ (codes "sender_name", sql_text row.sender_name)
    ∷ (codes "is_group", sql_integer row.is_group)
    ∷ (codes "receipt", sql_integer row.receipt)
    ∷ (codes "has_media", sql_integer row.has_media)
    ∷ (codes "media_type", sql_text row.media_type)
    ∷ (codes "media_mime", sql_text row.media_mime)
    ∷ (codes "media_size", sql_integer row.media_size)
    ∷ (codes "local_path", sql_text row.local_path)
    ∷ (codes "media_key", blob_or_null row.media_key)
    ∷ (codes "direct_path", sql_text row.direct_path)
    ∷ (codes "media_url", sql_text row.media_url)
    ∷ (codes "file_enc_sha256", blob_or_null row.file_enc_sha256)
    ∷ (codes "file_sha256", blob_or_null row.file_sha256)
    ∷ (codes "is_read", sql_integer row.is_read)
    ∷ (codes "url_preview", sql_text row.url_preview)
    ∷ []

scan-blob_or_null : (c : Conversions) (b : Bytes) → scan_bytes c (blob_or_null b) ≡ ok b
scan-blob_or_null c none = refl
scan-blob_or_null c (some b) = refl

scan_columns-raw_of : (c : Conversions) (row : Row) → scan_columns c (raw_of row) ≡ ok row
unfolding scan_columns raw_of text_at integer_at bytes_at lookup same_text
scan_columns-raw_of c row =
    rw
      (
        scan-blob_or_null c row.media_key,
        scan-blob_or_null c row.file_enc_sha256,
        scan-blob_or_null c row.file_sha256,
      )
      refl

-- A message that is bound to the columns and read back, column by column, is the same message,
-- whatever the driver would make of values of other types.
pub scan_raw-raw_of :
    (c : Conversions) (msg : StoredMessage) → scan_raw c (raw_of (to_row msg)) ≡ ok msg
unfolding scan_raw
scan_raw-raw_of c msg = rw (scan_columns-raw_of c (to_row msg)) (ap ok (scan_message-to_row msg))
