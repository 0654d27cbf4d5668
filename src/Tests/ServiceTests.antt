-- ===== src/Tests/ServiceTests.antt =====
-- The theorems on the D-Bus service at concrete inputs.
use kha_app.Prelude.{
  ◌≡◌, ◌≤◌, refl, true, false, none, some, List, [], ◌∷◌, ◌++◌, map, pos, negsuc, Text, codes,
  same_text, has_code, length, select,
}
use kha_app.Prelude.Result.{Result, ok, err}
use kha_app.Storage.Message.{to_row, scan_message}
use kha_app.Storage.Table.{find, get_by_id, update_receipt}
use kha_app.Storage.Query.Recent.{is_newest}
use kha_app.Protocol.Event.{connected, picture, receipt}
use kha_app.Protocol.Client.Persistence.{writes}
use kha_app.Service.State.{Status, Service, new_messenger_service, set_status}
use kha_app.Service.Login.{LoginAnswers, reply, request_login, QrItem, code, other_item, qr_loop}
use kha_app.Service.Login.Stuck.{request_login_stuck}
use kha_app.Service.Groups.{RawGroup}
use kha_app.Service.Avatars.{FetchAnswers}
use kha_app.Service.Told.{Told}
use kha_app.Service.Paths.{slash, join, Env, media_cache_dir}
use kha_app.Service.Paths.Clean.{IsName}
use kha_app.Service.Messages.Written.{media_dir, written-download_in}
use kha_app.Protocol.Media.{media_filename}
use kha_app.Service.Messages.{
  send_text_message, get_messages, DownloadAnswers, download_media, download_in,
}
use kha_app.Service.Messages.ReceiptOrder.{ReadsBack, receipt_order}
use kha_app.Service.Messages.Results.{length-get_messages-le, download_media_again}
use kha_app.Service.Chats.{ChatAnswers, get_chats}
use kha_app.Service.Chats.Listed.{shown_chat, shown_message, get_chats_lem}
use kha_app.Service.Loop.{LoopAnswers, message_arrived, on_event}
use kha_app.Service.Loop.Acknowledged.{told_for, signals-receipt}
use kha_app.Service.Run.{
  Call, requests_login, reads_qr, gets_event, lists_chats, fetches_avatar, logs_out, run,
}
use kha_app.Service.Run.Told.{run-Told}
use kha_app.Service.Loop.Stored.{told_of, signals-message_arrived}
use kha_app.Tests.Data.{answers, extended_event, photo, alice, three_rows, contacts, known}
use kha_app.Tests.Sorted.{sort_rows, engine}

abbrev pub new_login : LoginAnswers
new_login = record {
  is_connected = false;
  has_session = false;
  auto = record { has_session = false; is_connected = false; connect = none };
  get_qr_channel = none;
  connect = none;
}

abbrev pub png : Text → Result Text
png c = ok (codes "png" ++ c)

abbrev pub loop_answers : LoopAnswers
loop_answers = record {
  contacts = contacts;
  phone_number = codes "49123";
  avatar_path = λ jid. ok (codes "/cache/" ++ jid);
  avatar_removed = none;
}

abbrev pub fetch_answers : FetchAnswers
fetch_answers = record {
  path = ok (codes "/cache/alice");
  picture_url = ok (some (codes "https://pps.whatsapp.net"));
  download = none;
  mkdir = none;
  write = none;
  begins_file = true;
  now = 1000;
}

abbrev pub raw_team : RawGroup
raw_team = record {
  name = codes "Team";
  topic = [];
  participant_count = pos 2;
  participants = alice ∷ [];
}

abbrev chat_answers : ChatAnswers
chat_answers = record {
  contacts = ok known;
  parse_jid = λ s. ok s;
  recent = none;
  group_now = λ s. 10;
  group = λ s. ok raw_team;
  group_later = λ s. 11;
  unread = λ s. none;
  avatar_path = λ jid. ok (codes "/cache/" ++ jid);
  avatar_now = λ s. 12;
}

abbrev pub a_session : List Call
a_session =
    requests_login new_login
    ∷ reads_qr png (codes "49123") (code (codes "2@x"))
    ∷ reads_qr png (codes "49123") QrItem.success
    ∷ gets_event loop_answers connected
    ∷ gets_event loop_answers (picture alice)
    ∷ lists_chats engine chat_answers three_rows
    ∷ fetches_avatar alice fetch_answers
    ∷ logs_out (record { is_connected = true; has_device = true })
    ∷ []

run-Told_example : Told (run new_messenger_service a_session)
run-Told_example = run-Told a_session

abbrev waiting : Service
waiting = (request_login new_login new_messenger_service).service

abbrev outdated : List QrItem
outdated = other_item (codes "err-client-outdated") ∷ []

request_login_stuck_example :
    let n = qr_loop png (codes "49123") outdated waiting in
    (n.status ≡ Status.qr_pending) × (request_login new_login n ≡ reply none false n)
unfolding request_login new_messenger_service set_status
request_login_stuck_example =
    request_login_stuck png (codes "49123") outdated waiting new_login refl (refl, tt)

abbrev env : Env
env = record { cache_home = codes "/home/a/.cache"; home_dir = ok (codes "/home/a") }

no_m9 : find (codes "M9") three_rows ≡ none
unfolding find same_text to_row
no_m9 = refl

abbrev downloads : DownloadAnswers
downloads = record {
  loaded = none;
  media_dir = ok (codes "/cache/khaapp/media/alice");
  mkdir = none;
  download = ok (1 ∷ 2 ∷ 3 ∷ []);
  write = none;
  extensions_by_type = λ s. codes ".jpg" ∷ [];
  stored = none;
}

abbrev offline : DownloadAnswers
offline = record downloads { download = err (codes "offline") }

-- A sender chose this id.
abbrev climbing_id : Text
climbing_id = codes "../x"

abbrev below_cache : DownloadAnswers
below_cache = record downloads { media_dir = media_cache_dir env alice }

alice-IsName : IsName alice
unfolding has_code same_text
alice-IsName = record { no_slash = refl; not_empty = refl; not_dot = refl; not_dot_dot = refl }

file-IsName : IsName (codes "x.bin")
unfolding has_code same_text
file-IsName = record { no_slash = refl; not_empty = refl; not_dot = refl; not_dot_dot = refl }

written-download_in_example :
    (download_in below_cache climbing_id
      (record photo { id = climbing_id })
      below_cache.media_dir
      three_rows).written
    ≡ some (media_dir (codes "/home/a/.cache") ++ slash ∷ codes "x.bin", 1 ∷ 2 ∷ 3 ∷ [])
unfolding media_filename
written-download_in_example =
    written-download_in env below_cache climbing_id (record photo { id = climbing_id }) three_rows
      alice (codes "x.bin") true (1 ∷ 2 ∷ 3 ∷ []) refl alice-IsName file-IsName refl refl refl refl
      refl

photo_path :
    (download_media downloads (codes "A2") three_rows).written
    ≡ some (codes "/cache/khaapp/media/alice/A2.bin", 1 ∷ 2 ∷ 3 ∷ [])
unfolding download_media find same_text to_row scan_message get_by_id join
photo_path = refl

download_media_again_example :
    let t' = (download_media downloads (codes "A2") three_rows).table in
    download_media offline (codes "A2") t'
    ≡ record { path = codes "/cache/khaapp/media/alice/A2.bin"; written = none; table = t' }
download_media_again_example =
    download_media_again downloads offline (codes "A2") three_rows
      (codes "/cache/khaapp/media/alice/A2.bin") (1 ∷ 2 ∷ 3 ∷ []) photo_path refl refl refl

length-get_messages-le_example :
    length (get_messages engine none alice (negsuc 0) (pos 0) three_rows) ≤ 50
length-get_messages-le_example =
    length-get_messages-le engine none alice (negsuc 0) (pos 0) three_rows

get_chats_lem_example :
    map shown_chat (get_chats engine chat_answers three_rows new_messenger_service).0
    ≡ map
        (shown_message chat_answers three_rows)
        (map scan_message (sort_rows (select (is_newest three_rows) three_rows)))
get_chats_lem_example =
    get_chats_lem engine chat_answers known three_rows new_messenger_service refl refl

signals-message_arrived_example :
    (message_arrived loop_answers extended_event new_messenger_service).signals
    ≡ new_messenger_service.signals ++ told_of contacts loop_answers extended_event
signals-message_arrived_example =
    signals-message_arrived contacts loop_answers extended_event new_messenger_service

signals-receipt_example :
    (on_event loop_answers
      (receipt (codes "read") (codes "A1" ∷ codes "A2" ∷ []))
      new_messenger_service).signals
    ≡ new_messenger_service.signals
      ++ told_for (writes answers (receipt (codes "read") (codes "A1" ∷ codes "A2" ∷ [])))
signals-receipt_example =
    signals-receipt loop_answers answers (codes "read") (codes "A1" ∷ codes "A2" ∷ [])
      new_messenger_service

receipt_order_example :
    ReadsBack
      (update_receipt none
        (codes "M9")
        (pos 2)
        (send_text_message (ok (codes "M9")) (pos 200) none alice (codes "hi") three_rows).1).1
      (codes "M9")
      alice
      (codes "hi")
      (pos 2)
    × ReadsBack
        (send_text_message
          (ok (codes "M9"))
          (pos 200)
          none
          alice
          (codes "hi")
          (update_receipt none (codes "M9") (pos 2) three_rows).1).1
        (codes "M9")
        alice
        (codes "hi")
        (pos 0)
receipt_order_example = receipt_order (codes "M9") alice (codes "hi") (pos 200) 2 three_rows no_m9
