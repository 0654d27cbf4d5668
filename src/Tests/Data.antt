-- ===== src/Tests/Data.antt =====
-- Messages, rows and answers for the tests.
use kha_app.Prelude.{true, false, none, some, List, [], ◌∷◌, pos, Text, codes}
use kha_app.Prelude.Result.{ok, Outcome}
use kha_app.Storage.Message.{StoredMessage, to_row}
use kha_app.Storage.Table.{Table, Write, saves, sets_path, sets_receipt, marks_read}
use kha_app.Protocol.Event.{ContactInfo, Media, Content, MessageEvent, Event, message, receipt}
use kha_app.Protocol.Contact.{Contacts}
use kha_app.Protocol.Client.{Client, Answers}
use kha_app.Protocol.Reconnect.{idle}

abbrev pub alice : Text
alice = codes "alice@s.whatsapp.net"

abbrev pub team : Text
team = codes "team@g.us"

abbrev pub hello : StoredMessage
hello = record {
  id = codes "A1";
  jid = alice;
  from_me = false;
  text = codes "see https://kha.app.";
  timestamp = pos 100;
  sender_jid = alice;
  sender_name = codes "Alice";
  is_group = false;
  receipt = pos 0;
  has_media = false;
  media_type = [];
  media_mime = [];
  media_size = pos 0;
  local_path = [];
  media_key = none;
  direct_path = [];
  media_url = [];
  file_enc_sha256 = none;
  file_sha256 = none;
  is_read = false;
  url_preview = [];
}

abbrev pub photo : StoredMessage
photo = record hello {
  id = codes "A2";
  text = codes "photo";
  timestamp = pos 130;
  has_media = true;
  media_type = codes "image";
  media_key = some (1 ∷ 2 ∷ []);
  direct_path = codes "/v/t62";
}

abbrev pub group_talk : StoredMessage
group_talk = record hello { id = codes "G1"; jid = team; timestamp = pos 120; is_group = true }

abbrev pub three_rows : Table
three_rows = to_row hello ∷ to_row photo ∷ to_row group_talk ∷ []

abbrev pub some_writes : List (Outcome × Write)
some_writes =
    (none, saves (record photo { text = codes "edited" }))
    ∷ (some (codes "database is locked"), sets_receipt (codes "A1") (pos 2))
    ∷ (none, sets_receipt (codes "A2") (pos 2))
    ∷ (none, sets_path (codes "A2") (codes "/cache/A2.jpg"))
    ∷ (none, marks_read alice)
    ∷ []

abbrev pub nobody : ContactInfo
nobody = record { business_name = []; full_name = []; first_name = []; push_name = [] }

abbrev pub known : Text → ContactInfo
known jid = record nobody { full_name = codes "Alice A." }

abbrev pub contacts : Contacts
contacts = record {
  has_contacts = true;
  parse_jid = λ s. ok s;
  get_contact = λ s. ok (known s);
  all_contacts = ok known;
}

abbrev pub picture_media : Media
picture_media = record {
  mimetype = codes "image/jpeg";
  file_length = 2048;
  media_key = some (7 ∷ []);
  direct_path = codes "/v/t62";
  url = codes "https://mmg.whatsapp.net/x";
  file_enc_sha256 = none;
  file_sha256 = none;
  caption = codes "look";
}

abbrev pub picture_content : Content
picture_content = record {
  conversation = [];
  extended_text = [];
  image = some picture_media;
  audio = none;
  document = none;
  video = none;
  sticker = none;
}

abbrev pub picture_event : MessageEvent
picture_event = record {
  id = codes "B1";
  chat = alice;
  sender = some alice;
  is_from_me = false;
  timestamp = pos 140;
  push_name = [];
  message = some picture_content;
}

-- A link with its title, whose text is not in the conversation.
abbrev pub extended_event : MessageEvent
extended_event = record picture_event {
  id = codes "B2";
  message = some (record picture_content { extended_text = codes "see this"; image = none });
}

abbrev pub answers : Answers
answers = record {
  contacts = contacts;
  save_outcome = none;
  receipt_outcome = λ i. none;
  has_session = true;
}

abbrev pub some_events : List (Answers × Event)
some_events =
    (answers, message picture_event)
    ∷ (answers, Event.disconnected)
    ∷ (answers, receipt (codes "read") (codes "A1" ∷ codes "B1" ∷ []))
    ∷ []

abbrev pub new_client : Client
new_client = record { table = three_rows; events = []; reconnect = idle; presences = 0 }
