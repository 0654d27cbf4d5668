-- ===== src/Protocol/Calls.antt =====
-- daemon/protocol/client.go: `GetGroupInfo`, `GetProfilePictureInfo`, `DownloadStoredMedia` and
-- `DownloadFile`. The functions of whatsmeow and of net/http that they call are arguments.
pub mod Downloads
use kha_app.Prelude.{
  ℕ, ◌||◌, Bool, true, false, Option, none, some, List, ◌++◌, ltb, leb, Text, codes, has_suffix,
  if◌then◌else◌,
}
use kha_app.Prelude.Result.{Result, ok, err, Outcome, ◌>>=◌}
use kha_app.Storage.Message.{Bytes, StoredMessage}
use kha_app.Protocol.Media.{MediaType, map_media_type, map_mms_type}

-- `types.ParseJID` comes first; its result is what `Info` is asked for.
unfoldable pub get_group_info :
    {Info : Type 0} → (Text → Result Text) → (Text → Result Info) → Text → Result Info
get_group_info parse_jid get_info jid = parse_jid jid >>= get_info

-- `whatsmeow.GetProfilePictureParams`, in the field that is set.
pub record PictureParams : Type 0 where
  pub is_community : Bool

abbrev no_params : PictureParams
no_params = record { is_community = false }

unfoldable pub get_profile_picture_info :
    {Info : Type 0}
    → (Text → Result Text)
    → (Text → PictureParams → Result Info)
    → Text
    → Result Info
unfolding has_suffix
get_profile_picture_info parse_jid get_info jid = parse_jid jid >>= (λ parsed. get_info parsed (
    if has_suffix jid (codes "@g.us")
    then record no_params { is_community = false }
    else no_params))

-- `DownloadMediaWithPath`: the direct path, the two hashes, the key, the kind and the MMS type.
abbrev pub DownloadMedia : Type 0
DownloadMedia = Text → Bytes → Bytes → Bytes → MediaType → Text → Result (List ℕ)

unfoldable pub download_stored_media : DownloadMedia → StoredMessage → Result (List ℕ)
unfolding map_media_type map_mms_type
download_stored_media download_media_with_path message =
    download_media_with_path message.direct_path message.file_enc_sha256 message.file_sha256
      message.media_key (map_media_type message.media_type) (map_mms_type message.media_type)

pub record Response : Type 0 where
  pub status_code : ℕ
  pub status : Text
  pub body : Result (List ℕ)

-- `response` is what `http.DefaultClient.Do` returns, `body` what `io.ReadAll` does.
abbrev pub body_of : Result Response → Result (List ℕ)
body_of (err e) = err e
body_of (ok response) =
    if ltb response.status_code 200 || leb 300 response.status_code
    then err (codes "unexpected HTTP status " ++ response.status)
    else response.body

unfoldable pub download_file : Outcome → Result Response → Result (List ℕ)
download_file (some e) response = err e
download_file none response = body_of response
