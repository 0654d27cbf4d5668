-- ===== src/Storage/Upsert.antt =====
-- daemon/storage/messages.go: the `ON CONFLICT(id) DO UPDATE SET` of `Save`, one CASE form to a
-- function. `excluded` is the row that the statement brings, `messages` the row that is there.
use kha_app.Prelude.{
  ◌≡◌, ◌≤ℤ◌, refl, none, some, [], ◌∷◌, arith, ℤ, pos, eqb_ℤ, ltb_ℤ, Text, is_empty, if◌then◌else◌,
}
use kha_app.Storage.Message.{Bytes, Row}

-- `CASE WHEN excluded.c != '' THEN excluded.c ELSE messages.c END`.
unfoldable pub case_text : Text → Text → Text
case_text excluded old = if is_empty excluded then old else excluded

-- `CASE WHEN excluded.c != 0 THEN excluded.c ELSE messages.c END`.
unfoldable pub case_int : ℤ → ℤ → ℤ
case_int excluded old = if eqb_ℤ excluded (pos 0) then old else excluded

-- `CASE WHEN excluded.c > messages.c THEN excluded.c ELSE messages.c END`.
unfoldable pub case_greater : ℤ → ℤ → ℤ
case_greater excluded old = if ltb_ℤ old excluded then excluded else old

-- `CASE WHEN excluded.c != 0 THEN 1 ELSE messages.c END`.
unfoldable pub case_set : ℤ → ℤ → ℤ
case_set excluded old = if eqb_ℤ excluded (pos 0) then old else pos 1

-- `CASE WHEN excluded.c IS NOT NULL AND length(excluded.c) > 0 THEN … END`.
unfoldable pub case_blob : Bytes → Bytes → Bytes
case_blob none old = old
case_blob (some []) old = old
case_blob (some (b ∷ bs)) old = some (b ∷ bs)

-- The row that stays under the id.
unfoldable pub merge : Row → Row → Row
merge excluded messages = record {
  id = messages.id;
  jid = excluded.jid;
  from_me = excluded.from_me;
  text = excluded.text;
  timestamp = excluded.timestamp;
  sender_jid = case_text excluded.sender_jid messages.sender_jid;
  sender_name = case_text excluded.sender_name messages.sender_name;
  is_group = case_int excluded.is_group messages.is_group;
  receipt = case_greater excluded.receipt messages.receipt;
  has_media = case_int excluded.has_media messages.has_media;
  media_type = case_text excluded.media_type messages.media_type;
  media_mime = case_text excluded.media_mime messages.media_mime;
  media_size = case_int excluded.media_size messages.media_size;
  local_path = case_text excluded.local_path messages.local_path;
  media_key = case_blob excluded.media_key messages.media_key;
  direct_path = case_text excluded.direct_path messages.direct_path;
  media_url = case_text excluded.media_url messages.media_url;
  file_enc_sha256 = case_blob excluded.file_enc_sha256 messages.file_enc_sha256;
  file_sha256 = case_blob excluded.file_sha256 messages.file_sha256;
  is_read = case_set excluded.is_read messages.is_read;
  url_preview = case_text excluded.url_preview messages.url_preview;
}

case_text_idem : (n o : Text) → case_text n (case_text n o) ≡ case_text n o
unfolding case_text
case_text_idem n o = ground arith

case_int_idem : (n o : ℤ) → case_int n (case_int n o) ≡ case_int n o
unfolding case_int
case_int_idem n o = ground arith

case_greater_idem : (n o : ℤ) → case_greater n (case_greater n o) ≡ case_greater n o
unfolding case_greater
case_greater_idem n o = ground arith

case_set_idem : (n o : ℤ) → case_set n (case_set n o) ≡ case_set n o
unfolding case_set
case_set_idem n o = ground arith

case_blob_idem : (n o : Bytes) → case_blob n (case_blob n o) ≡ case_blob n o
unfolding case_blob
case_blob_idem none o = refl
case_blob_idem (some []) o = refl
case_blob_idem (some (b ∷ bs)) o = refl

ruleset case_laws =
    (case_text_idem, case_int_idem, case_greater_idem, case_set_idem, case_blob_idem)

-- Merging the same row twice is merging it once, so that a message that is delivered and saved
-- again changes nothing more.
pub merge_idem :
    (excluded messages : Row) → merge excluded (merge excluded messages) ≡ merge excluded messages
unfolding merge
merge_idem n o = simp case_laws

case_text_self : (o : Text) → case_text o o ≡ o
unfolding case_text
case_text_self o = ground arith

case_int_self : (o : ℤ) → case_int o o ≡ o
unfolding case_int
case_int_self o = ground arith

case_greater_self : (o : ℤ) → case_greater o o ≡ o
unfolding case_greater
case_greater_self o = ground arith

-- The receipt of a merged row is the greater of the two.
pub case_greater_bounds : (n o : ℤ) → (o ≤ℤ case_greater n o) × (n ≤ℤ case_greater n o)
unfolding case_greater
case_greater_bounds n o = ground arith
