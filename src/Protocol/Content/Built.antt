-- ===== src/Protocol/Content/Built.antt =====
-- What `buildStoredMessage` makes of a message.
use kha_app.Prelude.{
  ◌≡◌, ◌≢◌, ◌⊎◌, ◌∷◌, inl, inr, Bool-cases, refl, Bool, true, false, not, ◌&&◌, ◌||◌, Option, none,
  some, [], arith, Text, codes, is_empty, same_text, if◌then◌else◌,
}
use kha_app.Storage.Message.{StoredMessage}
use kha_app.Protocol.Event.{Media, Content, MessageEvent}
use kha_app.Protocol.Contact.{Contacts}
use kha_app.Protocol.Content.{
  extract_message_text, add_media, or_no_content, text_message, build_stored_message,
}
use kha_app.Protocol.Media.{MediaType, media_none, map_media_type, map_mms_type}

-- The text that a message has of its own: a conversation's, else that of an extended text.
abbrev pub own_text : Option Content → Text
own_text none = []
own_text (some m) = elim m.conversation [ [] ↦ m.extended_text | c ∷ cs ↦ c ∷ cs ]

pub extract_message_text_lem : (m : Option Content) → extract_message_text m ≡ own_text m
unfolding extract_message_text
extract_message_text_lem none = refl
extract_message_text_lem (some m) = ground arith

abbrev is_there : Option Media → Bool
is_there none = false
is_there (some media) = true

-- The message has a part of one of the five kinds.
abbrev pub has_part : Content → Bool
has_part m =
    is_there m.image
    || is_there m.audio
    || is_there m.document
    || is_there m.video
    || is_there m.sticker

abbrev caption_or : Option Media → Text → Text
caption_or none t = t
caption_or (some media) t = media.caption

-- The caption of the part that decides: an image's before all, none beside an audio, then a
-- document's, then a video's.
abbrev pub caption : Content → Text
caption m =
    if is_there m.image
    then caption_or m.image []
    else if is_there m.audio
    then []
    else caption_or m.document (caption_or m.video [])

add_media-has_media :
    (m : Content) (msg : StoredMessage)
    → (add_media m msg).has_media ≡ (has_part m || msg.has_media)
unfolding add_media
add_media-has_media m msg = ground arith

add_media-text :
    (m : Content) (msg : StoredMessage)
    → (add_media m msg).text
      ≡ (if is_empty msg.text then (if has_part m then caption m else msg.text) else msg.text)
unfolding add_media
add_media-text m msg = ground arith

-- A test that the five kinds pass is passed by the kind under which media is stored.
add_media-passes :
    (p : Text → Bool) (m : Content) (msg : StoredMessage)
    → p (codes "image") ≡ true
    → p (codes "audio") ≡ true
    → p (codes "document") ≡ true
    → p (codes "video") ≡ true
    → p (codes "sticker") ≡ true
    → msg.has_media ≡ false
    → (add_media m msg).has_media ≡ true
    → p (add_media m msg).media_type ≡ true
unfolding add_media
add_media-passes p m msg i a d v s plain there = ground arith

-- The kind has a media type and an MMS type.
abbrev pub IsKind : Text → Type 0
IsKind k = (map_media_type k ≢ media_none) × (map_mms_type k ≢ [])

is_no_media : MediaType → Bool
is_no_media media_none = true
is_no_media _ = false

is_kind : Text → Bool
is_kind k = not (is_no_media (map_media_type k)) && not (is_empty (map_mms_type k))

is_kind-IsKind : (k : Text) → is_kind k ≡ true → IsKind k
unfolding is_kind is_no_media
is_kind-IsKind k h = ground arith

add_media-IsKind :
    (m : Content) (msg : StoredMessage)
    → msg.has_media ≡ false
    → (add_media m msg).has_media ≡ true
    → IsKind (add_media m msg).media_type
unfolding is_kind is_no_media map_media_type map_mms_type same_text
add_media-IsKind m msg plain there =
    is_kind-IsKind (add_media m msg).media_type
      (add_media-passes is_kind m msg refl refl refl refl refl plain there)

pub id-build_stored_message :
    (c : Contacts) (event : MessageEvent) → (build_stored_message c event).id ≡ event.id
unfolding build_stored_message add_media text_message
id-build_stored_message c event = ground arith

-- A stored message has media exactly when the message has a part of one of the five kinds; its text
-- is the message's own or, where that is empty, the caption of the part that decides; and it
-- has no media, or a kind that maps to a media type and an MMS type for the later download.
pub build_stored_message_lem :
    (c : Contacts) (e : MessageEvent)
    → ((build_stored_message c e).has_media ≡ has_part (or_no_content e.message))
      × ((build_stored_message c e).text ≡ (
          if is_empty (extract_message_text e.message)
          then (if has_part (or_no_content e.message)
              then caption (or_no_content e.message)
              else [])
          else extract_message_text e.message))
      × (((build_stored_message c e).has_media ≡ false)
          ⊎ IsKind (build_stored_message c e).media_type)
unfolding build_stored_message text_message
build_stored_message_lem c e = (
  ground (arith, add_media-has_media (or_no_content e.message) (text_message c e)),
  ground (arith, add_media-text (or_no_content e.message) (text_message c e)),
  elim (Bool-cases (build_stored_message c e).has_media) [
    | inl there ↦ inr (add_media-IsKind (or_no_content e.message) (text_message c e) refl there)
    | inr none_there ↦ inl none_there
  ],
)
