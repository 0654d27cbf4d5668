-- ===== src/Protocol/Calls/Downloads.antt =====
-- What is downloaded, and when.
use mathlib.Core.Path.{subst}
use kha_app.Prelude.{
  ℕ, ◌≤◌, ◌<◌, ◌≡◌, ◌↔◌, refl, ◌∙◌, arith, true, Option, none, some, List, Text, codes,
}
use kha_app.Prelude.Result.{Result, ok, err, Outcome, ◌>>=◌}
use kha_app.Storage.Message.{StoredMessage}
use kha_app.Storage.Table.{Table, find, save, with_preview, get_by_id, write, write_all}
use kha_app.Storage.Table.Lookup.{get_by_id-save}
use kha_app.Protocol.Event.{Media, Content, MessageEvent, message}
use kha_app.Protocol.Contact.{Contacts}
use kha_app.Protocol.Content.{
  add_media, add_sticker, set_media, set_caption, or_no_content, text_message, build_stored_message,
}
use kha_app.Protocol.Content.Built.{id-build_stored_message}
use kha_app.Protocol.Media.{map_media_type, map_mms_type}
use kha_app.Protocol.Client.{Client, Answers, is_stored, handle}
use kha_app.Protocol.Calls.{DownloadMedia, download_stored_media, Response, body_of, download_file}
use kha_app.Protocol.Client.Persistence

-- A request that can be made, a status code from 200 to 299, and a body that can be read.
abbrev pub Delivers : Outcome → Result Response → List ℕ → Type 0
Delivers o r bytes =
    (o ≡ none)
    × ((a : Response) × ((r ≡ ok a)
          × (200 ≤ a.status_code)
          × (a.status_code < 300)
          × (a.body ≡ ok bytes)))

body_of_lem :
    (r : Result Response) (bytes : List ℕ)
    → (body_of r ≡ ok bytes) ↔ (
        (a : Response) × ((r ≡ ok a)
          × (200 ≤ a.status_code)
          × (a.status_code < 300)
          × (a.body ≡ ok bytes)))
body_of_lem (err e) bytes = ((λ h. cc), (λ x. cc (x.1.0)))
body_of_lem (ok a) bytes = ((λ h. (a, ground arith)), (λ x. ground arith))

-- `DownloadFile` returns bytes exactly if the request can be made, the server answers with a status
-- code from 200 to 299, and the body that is read is these bytes.
pub download_file-Delivers :
    (o : Outcome) (r : Result Response) (bytes : List ℕ)
    → (download_file o r ≡ ok bytes) ↔ Delivers o r bytes
unfolding download_file
download_file-Delivers (some e) r bytes = ((λ h. cc), (λ x. cc (x.0)))
download_file-Delivers none r bytes =
    ((λ h. (refl, (body_of_lem r bytes).0 h)), (λ x. (body_of_lem r bytes).1 x.1))

-- The part that decides, with its kind.
abbrev pub first_part : Content → Option (Text × Media)
first_part m = elim m.image [
  | some media ↦ some (codes "image", media)
  | none ↦ elim m.audio [
    | some media ↦ some (codes "audio", media)
    | none ↦ elim m.document [
      | some media ↦ some (codes "document", media)
      | none ↦ elim m.video [
        | some media ↦ some (codes "video", media)
        | none ↦ elim m.sticker [ some media ↦ some (codes "sticker", media) | none ↦ none ]
      ]
    ]
  ]
]

-- The stored message describes the part.
record Describes (msg : StoredMessage) (kind : Text) (media : Media) : Type 0 where
  there : msg.has_media ≡ true
  same_kind : msg.media_type ≡ kind
  same_path : msg.direct_path ≡ media.direct_path
  same_enc : msg.file_enc_sha256 ≡ media.file_enc_sha256
  same_hash : msg.file_sha256 ≡ media.file_sha256
  same_key : msg.media_key ≡ media.media_key

add_media-Describes :
    (m : Content) (msg : StoredMessage) (kind : Text) (media : Media)
    → first_part m ≡ some (kind, media)
    → Describes (add_media m msg) kind media
unfolding add_media add_sticker set_media set_caption
add_media-Describes m msg kind media h = record {
  there = ground arith;
  same_kind = ground arith;
  same_path = ground arith;
  same_enc = ground arith;
  same_hash = ground arith;
  same_key = ground arith;
}

with_preview-Describes :
    (msg : StoredMessage) (kind : Text) (media : Media)
    → Describes msg kind media
    → Describes (with_preview msg) kind media
unfolding with_preview
with_preview-Describes msg kind media d = record {
  there = ground (arith, d.there);
  same_kind = ground (arith, d.same_kind);
  same_path = ground (arith, d.same_path);
  same_enc = ground (arith, d.same_enc);
  same_hash = ground (arith, d.same_hash);
  same_key = ground (arith, d.same_key);
}

-- What `DownloadMediaWithPath` is asked for a part.
abbrev pub asked_for : DownloadMedia → Text → Media → Result (List ℕ)
asked_for download kind media =
    download media.direct_path media.file_enc_sha256 media.file_sha256 media.media_key
      (map_media_type kind) (map_mms_type kind)

download-Describes :
    (download : DownloadMedia) (msg : StoredMessage) (kind : Text) (media : Media)
    → Describes msg kind media
    → download_stored_media download msg ≡ asked_for download kind media
unfolding download_stored_media
download-Describes download msg kind media d =
    rw (d.same_path, d.same_enc, d.same_hash, d.same_key, d.same_kind) refl

build_stored_message-Describes :
    (c : Contacts) (event : MessageEvent) (kind : Text) (media : Media)
    → first_part (or_no_content event.message) ≡ some (kind, media)
    → Describes (build_stored_message c event) kind media
unfolding build_stored_message
build_stored_message-Describes c event kind media h =
    add_media-Describes (or_no_content event.message) (text_message c event) kind media h

is_stored-media : (msg : StoredMessage) → msg.has_media ≡ true → is_stored msg ≡ true
unfolding is_stored
is_stored-media msg h = ground (arith, h)

read_back :
    (c : Contacts) (event : MessageEvent) (t : Table)
    → find event.id t ≡ none
    → get_by_id none event.id (save none (build_stored_message c event) t).1
      ≡ ok (with_preview (build_stored_message c event))
read_back c event t fresh =
    subst
      (λ (i : Text).
        find i t ≡ none
        → get_by_id none i (save none (build_stored_message c event) t).1
          ≡ ok (with_preview (build_stored_message c event)))
      (id-build_stored_message c event) (get_by_id-save (build_stored_message c event) t) fresh

table-arrived :
    (a : Answers) (event : MessageEvent) (w : Client)
    → is_stored (build_stored_message a.contacts event) ≡ true
    → a.save_outcome ≡ none
    → (handle a (message event) w).table
      ≡ (save none (build_stored_message a.contacts event) w.table).1
unfolding Persistence.writes write_all write
table-arrived a event w stored saved =
    Persistence.table-handle a (message event) w ∙ rw (stored, saved) refl

-- When a message with a media part arrives under an id that is new, and the store takes it, reading
-- it back by its id and downloading its media asks whatsmeow for exactly this part: its path,
-- its two hashes, its key, and the media type and MMS type of its kind, even if the event finds
-- the channel full.
pub download-arrived :
    (download : DownloadMedia) (a : Answers) (event : MessageEvent) (w : Client) (kind : Text)
    (media : Media)
    → first_part (or_no_content event.message) ≡ some (kind, media)
    → a.save_outcome ≡ none
    → find event.id w.table ≡ none
    → (get_by_id none event.id (handle a (message event) w).table
        >>= download_stored_media download)
      ≡ asked_for download kind media
download-arrived download a event w kind media part saved fresh =
    let msg = build_stored_message a.contacts event in
    let d = build_stored_message-Describes a.contacts event kind media part in
    rw (table-arrived a event w (is_stored-media msg d.there) saved) (
      rw (read_back a.contacts event w.table fresh) (
        download-Describes download (with_preview msg) kind media
          (with_preview-Describes msg kind media d)))
