-- ===== src/Protocol/Event.antt =====
-- The events of go.mau.fi/whatsmeow that daemon/protocol/client.go and daemon/dbus/service.go
-- handle, with the fields that they read. A JID stands as the text of its `String()`.
use kha_app.Prelude.{ℕ, Bool, Option, none, List, [], ℤ, Text}
use kha_app.Storage.Message.{Bytes}

-- What the getters of an image, audio, document, video or sticker message return.
pub record Media : Type 0 where
  pub mimetype : Text
  pub file_length : ℕ
  pub media_key : Bytes
  pub direct_path : Text
  pub url : Text
  pub file_enc_sha256 : Bytes
  pub file_sha256 : Bytes
  pub caption : Text

-- `waProto.Message`; a getter of a part that is nil returns the zero value.
pub record Content : Type 0 where
  pub conversation : Text
  pub extended_text : Text
  pub image : Option Media
  pub audio : Option Media
  pub document : Option Media
  pub video : Option Media
  pub sticker : Option Media

abbrev pub no_content : Content
no_content = record {
  conversation = [];
  extended_text = [];
  image = none;
  audio = none;
  document = none;
  video = none;
  sticker = none;
}

-- `sender` is `none` for an empty JID, `message` for a nil pointer.
pub record MessageEvent : Type 0 where
  pub id : Text
  pub chat : Text
  pub sender : Option Text
  pub is_from_me : Bool
  pub timestamp : ℤ
  pub push_name : Text
  pub message : Option Content

-- `composing`, `paused`, or another state.
pub data Presence : Type 0 where
  composing paused unknown_presence : Presence

pub data Event : Type 0 where
  message : MessageEvent → Event
  connected disconnected logged_out : Event
  receipt : Text → List Text → Event
  chat_presence : Text → Text → Presence → Event
  group_info : Text → Event
  picture : Text → Event
  unhandled : Event

-- `types.ContactInfo`; the zero value for a contact that is not there.
pub record ContactInfo : Type 0 where
  pub business_name : Text
  pub full_name : Text
  pub first_name : Text
  pub push_name : Text
