-- ===== src/Service/Messages.antt =====
-- daemon/dbus/service.go: the D-Bus methods over the message store.
pub mod Results
pub mod ReceiptOrder
pub mod Written
use kha_app.Prelude.{
  ℕ, ◌&&◌, Bool, true, false, Option, none, some, List, [], ◌∷◌, ◌++◌, map, ℤ, pos, leb_ℤ, ltb_ℤ,
  to_int32, Text, codes, is_empty, trim_space, if◌then◌else◌,
}
use kha_app.Prelude.Result.{Result, ok, err, Outcome}
use kha_app.Storage.Message.{StoredMessage}
use kha_app.Storage.Table.{Table, save, mark_jid_as_read, update_local_path, get_by_id}
use kha_app.Storage.Query.{Engine, get_by_jid, search_by_jid}
use kha_app.Service.Variants.{VariantMap, string, boolean, int32, int64}
use kha_app.Protocol.Content.{is_group_jid}
use kha_app.Protocol.Media.{media_filename}
use kha_app.Protocol.Preview.{LinkPreview}
use kha_app.Service.Paths.{join}

-- `client.SendText`: the JID is parsed, then the message is sent.
unfoldable pub send_text :
    (Text → Result Text) → (Text → Text → Result Text) → Text → Text → Result Text
send_text parse_jid send_message jid text = elim (parse_jid jid) [
  | err e ↦ err e
  | ok parsed ↦ send_message parsed text
]

-- The message that `SendTextMessage` stores.
unfoldable pub sent_message : Text → Text → Text → ℤ → StoredMessage
unfolding is_group_jid
sent_message message_id jid text now = record {
  id = message_id;
  jid = jid;
  from_me = true;
  text = text;
  timestamp = now;
  sender_jid = jid;
  sender_name = [];
  is_group = is_group_jid jid;
  receipt = pos 0;
  has_media = false;
  media_type = [];
  media_mime = [];
  media_size = pos 0;
  local_path = [];
  media_key = none;
  direct_path = [];
  media_url = [];
  file_enc_sha256 = none;
  file_sha256 = none;
  is_read = true;
  url_preview = [];
}

-- `sent` is the result of `SendText`; an error of the store is only logged.
unfoldable pub send_text_message :
    Result Text → ℤ → Outcome → Text → Text → Table → Result Text × Table
unfolding sent_message save
send_text_message (err e) now saved jid text t = (err e, t)
send_text_message (ok message_id) now saved jid text t =
    (ok message_id, (save saved (sent_message message_id jid text now) t).1)

abbrev media_entries : StoredMessage → VariantMap
media_entries msg =
    if msg.has_media
    then (codes "has_media", boolean msg.has_media)
      ∷ (codes "media_type", string msg.media_type)
      ∷ (codes "media_mime", string msg.media_mime)
      ∷ (codes "media_size", int64 msg.media_size)
      ∷ (codes "local_path", string msg.local_path)
      ∷ []
    else []

abbrev preview_entries : StoredMessage → VariantMap
preview_entries msg =
    if is_empty msg.url_preview then [] else (codes "url_preview", string msg.url_preview) ∷ []

unfoldable pub message_variant : StoredMessage → VariantMap
unfolding to_int32
message_variant msg =
    (codes "id", string msg.id)
    ∷ (codes "from_me", boolean msg.from_me)
    ∷ (codes "text", string msg.text)
    ∷ (codes "timestamp", int64 msg.timestamp)
    ∷ (codes "sender_jid", string msg.sender_jid)
    ∷ (codes "sender_name", string msg.sender_name)
    ∷ (codes "receipt", int32 (to_int32 msg.receipt))
    ∷ (media_entries msg ++ preview_entries msg)

unfoldable pub message_variants : List StoredMessage → List VariantMap
unfolding message_variant
message_variants = map message_variant

abbrev variants_or_none : Result (List StoredMessage) → List VariantMap
variants_or_none (err e) = []
variants_or_none (ok messages) = message_variants messages

abbrev pub page_limit : ℤ → ℤ
page_limit limit = if leb_ℤ limit (pos 0) then pos 50 else limit

abbrev pub page_offset : ℤ → ℤ
page_offset offset = if ltb_ℤ offset (pos 0) then pos 0 else offset

module _ (e : Engine) where
  unfoldable pub get_messages : Outcome → Text → ℤ → ℤ → Table → List VariantMap
  unfolding get_by_jid message_variants
  get_messages o jid limit offset t =
      variants_or_none (get_by_jid e o jid (page_limit limit) (page_offset offset) t)

  unfoldable pub search_messages : Outcome → Text → Text → Table → List VariantMap
  unfolding search_by_jid message_variants trim_space
  search_messages o jid query t =
      if is_empty (trim_space query)
      then []
      else variants_or_none (search_by_jid e o jid (trim_space query) (pos 50) t)

-- The map that `FetchLinkPreview` returns.
unfoldable pub link_preview_variants : LinkPreview → VariantMap
link_preview_variants preview =
    if is_empty preview.title && is_empty preview.description && is_empty preview.image_url
    then []
    else (codes "title", string preview.title)
      ∷ (codes "description", string preview.description)
      ∷ (codes "image_url", string preview.image_url)
      ∷ []

-- `MarkAsRead` returns no error.
unfoldable pub mark_as_read : Outcome → Text → Table → Table
unfolding mark_jid_as_read
mark_as_read o jid t = (mark_jid_as_read o jid t).1

-- What `DownloadMedia` is answered by the store, the file system, the client and `mime`.
pub record DownloadAnswers : Type 0 where
  pub loaded : Outcome
  pub media_dir : Result Text
  pub mkdir : Outcome
  pub download : Result (List ℕ)
  pub write : Outcome
  pub extensions_by_type : Text → List Text
  pub stored : Outcome

-- The path that is returned, the file that is written (its path and content), and the table.
pub record Download : Type 0 where
  pub path : Text
  pub written : Option (Text × List ℕ)
  pub table : Table

abbrev no_download : Table → Download
no_download t = record { path = []; written = none; table = t }

-- From the resolved directory on.
unfoldable pub download_to : DownloadAnswers → Text → StoredMessage → Text → Table → Download
unfolding media_filename join update_local_path
download_to a message_id msg dir t = elim a.mkdir [
  | some e ↦ no_download t
  | none ↦ elim a.download [
    | err e ↦ no_download t
    | ok content ↦
        let file_path = join (dir ∷ media_filename a.extensions_by_type msg ∷ []) in
        elim a.write [
          | some e ↦ no_download t
          | none ↦ record {
            path = file_path;
            written = some (file_path, content);
            table = (update_local_path a.stored message_id file_path t).1;
          }
        ]
  ]
]

abbrev pub download_in : DownloadAnswers → Text → StoredMessage → Result Text → Table → Download
download_in a message_id msg (err e) t = no_download t
download_in a message_id msg (ok dir) t = download_to a message_id msg dir t

abbrev pub download_loaded : DownloadAnswers → Text → Result StoredMessage → Table → Download
download_loaded a message_id (err e) t = no_download t
download_loaded a message_id (ok msg) t =
    if msg.has_media
    then (if is_empty msg.local_path
        then download_in a message_id msg a.media_dir t
        else record { path = msg.local_path; written = none; table = t })
    else no_download t

unfoldable pub download_media : DownloadAnswers → Text → Table → Download
unfolding get_by_id download_to
download_media a message_id t = download_loaded a message_id (get_by_id a.loaded message_id t) t
