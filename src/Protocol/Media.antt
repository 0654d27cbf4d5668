-- ===== src/Protocol/Media.antt =====
-- daemon/protocol/client.go: `mapMediaType`, `mapMMSType` and `MediaFilename`.
pub mod Names
use mathlib.Core.List.{reverse}
use kha_app.Prelude.{
  ℕ, Bool, List, [], ◌∷◌, ◌++◌, ◌==◌, Text, codes, is_empty, same_text, if◌then◌else◌,
}
use kha_app.Storage.Message.{StoredMessage}

-- The constants of type `whatsmeow.MediaType`; `media_none` is the empty one.
pub data MediaType : Type 0 where
  media_image media_audio media_document media_video media_none : MediaType

unfoldable pub map_media_type : Text → MediaType
unfolding same_text
map_media_type media_type =
    if same_text media_type (codes "image")
    then media_image
    else if same_text media_type (codes "audio")
    then media_audio
    else if same_text media_type (codes "document")
    then media_document
    else if same_text media_type (codes "video")
    then media_video
    else if same_text media_type (codes "sticker")
    then media_image
    else media_none

-- `filepath.Ext`, over the characters from the end.
unfoldable pub ext_back : Text → Text → Text
ext_back [] seen = []
ext_back (c ∷ s) seen =
    let rest = ext_back s (c ∷ seen) in
    if c == b'/' then [] else if c == b'.' then c ∷ seen else rest

unfoldable pub path_ext : Text → Text
unfolding ext_back
path_ext path = ext_back (reverse path) []

-- `strings.TrimPrefix` of a dot.
unfoldable pub trim_dot : Text → Text
trim_dot [] = []
trim_dot (c ∷ s) = if c == b'.' then s else c ∷ s

unfoldable pub map_mms_type : Text → Text
unfolding same_text path_ext trim_dot
map_mms_type media_type =
    if same_text media_type (codes "image")
    then codes "image"
    else if same_text media_type (codes "audio")
    then codes "audio"
    else if same_text media_type (codes "document")
    then codes "document"
    else if same_text media_type (codes "video")
    then codes "video"
    else if same_text media_type (codes "sticker")
    then codes "image"
    else trim_dot (path_ext media_type)

abbrev first_or : Text → List Text → Text
first_or d [] = d
first_or d (x ∷ xs) = x

-- The table of `mime.ExtensionsByType` is the system's.
unfoldable pub media_filename : (Text → List Text) → StoredMessage → Text
media_filename extensions_by_type msg =
    msg.id
    ++ (if is_empty msg.media_mime
        then codes ".bin"
        else first_or (codes ".bin") (extensions_by_type msg.media_mime))
