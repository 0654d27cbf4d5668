-- ===== src/Protocol/Content.antt =====
-- daemon/protocol/client.go: `extractMessageText` and `buildStoredMessage`.
pub mod Built
use kha_app.Prelude.{
  ℕ, Bool, true, false, not, Option, none, some, [], ℤ, pos, to_int64, Text, codes, is_empty,
  has_suffix, if◌then◌else◌,
}
use kha_app.Storage.Message.{StoredMessage}
use kha_app.Protocol.Event.{Media, Content, no_content, MessageEvent}
use kha_app.Protocol.Contact.{Contacts, lookup_contact_name}

unfoldable pub extract_message_text : Option Content → Text
extract_message_text none = []
extract_message_text (some m) =
    if not (is_empty m.conversation)
    then m.conversation
    else if not (is_empty m.extended_text)
    then m.extended_text
    else []

-- `strings.HasSuffix(jid, "@g.us")`.
unfoldable pub is_group_jid : Text → Bool
unfolding has_suffix
is_group_jid jid = has_suffix jid (codes "@g.us")

-- The assignments that the five cases of the switch share.
unfoldable pub set_media : Text → Media → StoredMessage → StoredMessage
unfolding to_int64
set_media media_type media msg = record msg {
  has_media = true;
  media_type = media_type;
  media_mime = media.mimetype;
  media_size = to_int64 media.file_length;
  media_key = media.media_key;
  direct_path = media.direct_path;
  media_url = media.url;
  file_enc_sha256 = media.file_enc_sha256;
  file_sha256 = media.file_sha256;
}

-- The caption stands in for an empty text.
unfoldable pub set_caption : Media → StoredMessage → StoredMessage
set_caption media msg = if is_empty msg.text then record msg { text = media.caption } else msg

-- The switch: the first part that is there decides.
unfoldable pub add_sticker : Content → StoredMessage → StoredMessage
unfolding set_media
add_sticker m msg = elim m.sticker [
  | some media ↦ set_media (codes "sticker") media msg
  | none ↦ msg
]

unfoldable pub add_media : Content → StoredMessage → StoredMessage
unfolding set_media set_caption add_sticker
add_media m msg = elim m.image [
  | some media ↦ set_caption media (set_media (codes "image") media msg)
  | none ↦ elim m.audio [
    | some media ↦ set_media (codes "audio") media msg
    | none ↦ elim m.document [
      | some media ↦ set_caption media (set_media (codes "document") media msg)
      | none ↦ elim m.video [
        | some media ↦ set_caption media (set_media (codes "video") media msg)
        | none ↦ add_sticker m msg
      ]
    ]
  ]
]

abbrev or_else : Option Text → Text → Text
or_else none t = t
or_else (some s) t = s

abbrev pub or_no_content : Option Content → Content
or_no_content none = no_content
or_no_content (some m) = m

-- The stored message before the switch.
unfoldable pub text_message : Contacts → MessageEvent → StoredMessage
unfolding extract_message_text is_group_jid lookup_contact_name
text_message contacts event =
    let sender_jid = or_else event.sender event.chat in
    record {
      id = event.id;
      jid = event.chat;
      from_me = event.is_from_me;
      text = extract_message_text event.message;
      timestamp = event.timestamp;
      sender_jid = sender_jid;
      sender_name = lookup_contact_name contacts sender_jid event.push_name;
      is_group = is_group_jid event.chat;
      receipt = pos 0;
      has_media = false;
      media_type = [];
      media_mime = [];
      media_size = pos 0;
      local_path = [];
      media_key = none;
      direct_path = [];
      media_url = [];
      file_enc_sha256 = none;
      file_sha256 = none;
      is_read = event.is_from_me;
      url_preview = [];
    }

unfoldable pub build_stored_message : Contacts → MessageEvent → StoredMessage
unfolding text_message add_media
build_stored_message contacts event =
    add_media (or_no_content event.message) (text_message contacts event)
