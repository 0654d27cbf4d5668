-- ===== src/Storage/Message.antt =====
-- daemon/storage/messages.go: the stored message, its row in the table `messages`, and the
-- conversions between the two.
use kha_app.Prelude.{ℕ, ◌≡◌, Bool, Option, List, arith, ℤ, pos, eqb_ℤ, Text, if◌then◌else◌}

-- A Go `[]byte`, and a BLOB: `none` is nil, and NULL.
abbrev pub Bytes : Type 0
Bytes = Option (List ℕ)

pub record StoredMessage : Type 0 where
  pub id : Text
  pub jid : Text
  pub from_me : Bool
  pub text : Text
  pub timestamp : ℤ
  pub sender_jid : Text
  pub sender_name : Text
  pub is_group : Bool
  pub receipt : ℤ
  pub has_media : Bool
  pub media_type : Text
  pub media_mime : Text
  pub media_size : ℤ
  pub local_path : Text
  pub media_key : Bytes
  pub direct_path : Text
  pub media_url : Text
  pub file_enc_sha256 : Bytes
  pub file_sha256 : Bytes
  pub is_read : Bool
  pub url_preview : Text

-- One row of the table. A flag is an INTEGER there.
pub record Row : Type 0 where
  pub id : Text
  pub jid : Text
  pub from_me : ℤ
  pub text : Text
  pub timestamp : ℤ
  pub sender_jid : Text
  pub sender_name : Text
  pub is_group : ℤ
  pub receipt : ℤ
  pub has_media : ℤ
  pub media_type : Text
  pub media_mime : Text
  pub media_size : ℤ
  pub local_path : Text
  pub media_key : Bytes
  pub direct_path : Text
  pub media_url : Text
  pub file_enc_sha256 : Bytes
  pub file_sha256 : Bytes
  pub is_read : ℤ
  pub url_preview : Text

unfoldable pub bool_to_int : Bool → ℤ
bool_to_int value = if value then pos 1 else pos 0

-- The arguments that `Save` binds to the columns.
unfoldable pub to_row : StoredMessage → Row
unfolding bool_to_int
to_row msg = record {
  id = msg.id;
  jid = msg.jid;
  from_me = bool_to_int msg.from_me;
  text = msg.text;
  timestamp = msg.timestamp;
  sender_jid = msg.sender_jid;
  sender_name = msg.sender_name;
  is_group = bool_to_int msg.is_group;
  receipt = msg.receipt;
  has_media = bool_to_int msg.has_media;
  media_type = msg.media_type;
  media_mime = msg.media_mime;
  media_size = msg.media_size;
  local_path = msg.local_path;
  media_key = msg.media_key;
  direct_path = msg.direct_path;
  media_url = msg.media_url;
  file_enc_sha256 = msg.file_enc_sha256;
  file_sha256 = msg.file_sha256;
  is_read = bool_to_int msg.is_read;
  url_preview = msg.url_preview;
}

unfoldable pub scan_message : Row → StoredMessage
scan_message row = record {
  id = row.id;
  jid = row.jid;
  from_me = eqb_ℤ row.from_me (pos 1);
  text = row.text;
  timestamp = row.timestamp;
  sender_jid = row.sender_jid;
  sender_name = row.sender_name;
  is_group = eqb_ℤ row.is_group (pos 1);
  receipt = row.receipt;
  has_media = eqb_ℤ row.has_media (pos 1);
  media_type = row.media_type;
  media_mime = row.media_mime;
  media_size = row.media_size;
  local_path = row.local_path;
  media_key = row.media_key;
  direct_path = row.direct_path;
  media_url = row.media_url;
  file_enc_sha256 = row.file_enc_sha256;
  file_sha256 = row.file_sha256;
  is_read = eqb_ℤ row.is_read (pos 1);
  url_preview = row.url_preview;
}

eqb-bool_to_int : (b : Bool) → eqb_ℤ (bool_to_int b) (pos 1) ≡ b
unfolding bool_to_int
eqb-bool_to_int b = ground arith

-- A message read back from the row that was written for it is the same message.
pub scan_message-to_row : (msg : StoredMessage) → scan_message (to_row msg) ≡ msg
unfolding scan_message to_row
scan_message-to_row msg = ground (
  arith,
  eqb-bool_to_int msg.from_me,
  eqb-bool_to_int msg.is_group,
  eqb-bool_to_int msg.has_media,
  eqb-bool_to_int msg.is_read,
)
