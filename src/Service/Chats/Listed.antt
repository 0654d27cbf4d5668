-- ===== src/Service/Chats/Listed.antt =====
-- What the list of chats shows.
use kha_app.Prelude.{
  inl, inr, Bool-cases, ◌≡◌, ◌≢◌, refl, ap, ◌∙◌, Bool, none, List, [], ◌∷◌, map, arith, ℤ, Text,
  select, All,
}
use kha_app.Prelude.Result.{Result, ok, err, Outcome}
use kha_app.Storage.Message.{StoredMessage, scan_message}
use kha_app.Storage.Table.{Table, get_unread_count}
use kha_app.Storage.Query.{Engine, scan_messages, get_recent_chats}
use kha_app.Storage.Query.Recent.{is_newest, get_recent_chats_lem}
use kha_app.Protocol.Event.{ContactInfo}
use kha_app.Service.Contacts.{contact_name}
use kha_app.Service.State.{GroupInfo, Service}
use kha_app.Service.Chats.{
  Chat, ChatAnswers, unread_or_0, chat_name, chat_of, chats_of, with_contacts, get_chats,
  group_name, person_name,
}

-- What a chat shows of its message and of the table.
pub record Shown : Type 0 where
  pub jid : Text
  pub last_message : Text
  pub timestamp : ℤ
  pub unread : ℤ
  pub is_group : Bool

abbrev pub shown_chat : Chat → Shown
shown_chat c = record {
  jid = c.jid;
  last_message = c.last_message;
  timestamp = c.timestamp;
  unread = c.unread;
  is_group = c.is_group;
}

abbrev pub shown_message : ChatAnswers → Table → StoredMessage → Shown
shown_message a t msg = record {
  jid = msg.jid;
  last_message = msg.text;
  timestamp = msg.timestamp;
  unread = unread_or_0 (get_unread_count (a.unread msg.jid) msg.jid t);
  is_group = msg.is_group;
}

shown-chats_of :
    (a : ChatAnswers) (contacts : Text → ContactInfo) (t : Table) (msgs : List StoredMessage)
    (m : Service)
    → map shown_chat (chats_of a contacts t msgs m).0 ≡ map (shown_message a t) msgs
unfolding chats_of chat_of
shown-chats_of a contacts t [] m = refl
shown-chats_of a contacts t (msg ∷ msgs) m =
    ap (λ r. shown_message a t msg ∷ r)
      (shown-chats_of a contacts t msgs (chat_of a contacts t msg m).1)

shown-with_contacts :
    (a : ChatAnswers) (r : Result (Text → ContactInfo)) (contacts : Text → ContactInfo) (t : Table)
    (q : Result (List StoredMessage)) (msgs : List StoredMessage) (m : Service)
    → r ≡ ok contacts
    → q ≡ ok msgs
    → map shown_chat (with_contacts a r t q m).0 ≡ map (shown_message a t) msgs
shown-with_contacts a r contacts t q msgs m known found =
    rw (known, found) (shown-chats_of a contacts t msgs m)

scan_messages_lem : (t : Table) → scan_messages t ≡ map scan_message t
unfolding scan_messages
scan_messages_lem t = refl

-- Where the contacts and the store answer, the list of chats shows, in the order of the query, the
-- chat, text, time and unread count of each stored message that is the newest of its chat, whatever
-- the answers about groups, contacts, pictures and counts are.
pub get_chats_lem :
    (e : Engine) (a : ChatAnswers) (contacts : Text → ContactInfo) (t : Table) (m : Service)
    → a.contacts ≡ ok contacts
    → a.recent ≡ none
    → map shown_chat (get_chats e a t m).0
      ≡ map (shown_message a t) (map scan_message (e.order (select (is_newest t) t)))
unfolding get_chats
get_chats_lem e a contacts t m known answered =
    shown-with_contacts a a.contacts contacts t _ _ m known
      (ap (λ (o : Outcome). get_recent_chats e o t) answered ∙ get_recent_chats_lem e t)
    ∙ ap (map (shown_message a t)) (scan_messages_lem (e.order (select (is_newest t) t)))

group_name-ne-nil : (r : Result GroupInfo) (jid : Text) → jid ≢ [] → group_name r jid ≢ []
unfolding group_name
group_name-ne-nil (err x) jid h = h
group_name-ne-nil (ok info) jid h = ground arith

person_name-ne-nil :
    (contacts : Text → ContactInfo) (r : Result Text) (jid : Text)
    → jid ≢ []
    → person_name contacts r jid ≢ []
unfolding contact_name
person_name-ne-nil contacts (err x) jid h = h
person_name-ne-nil contacts (ok parsed) jid h = ground arith

chat_name-ne-nil :
    (a : ChatAnswers) (contacts : Text → ContactInfo) (msg : StoredMessage) (m : Service)
    → msg.jid ≢ []
    → (chat_name a contacts msg m).0 ≢ []
unfolding chat_name
chat_name-ne-nil a contacts msg m h = elim (Bool-cases msg.is_group) [
  | inl e ↦ rw e (group_name-ne-nil _ msg.jid h)
  | inr e ↦ rw e (person_name-ne-nil contacts (a.parse_jid msg.jid) msg.jid h)
]

-- No chat that is listed has an empty name, where no message has an empty JID.
pub chats_of-ne-nil :
    (a : ChatAnswers) (contacts : Text → ContactInfo) (t : Table) (msgs : List StoredMessage)
    (m : Service)
    → All (λ msg. msg.jid ≢ []) msgs
    → All (λ c. c.name ≢ []) (chats_of a contacts t msgs m).0
unfolding chats_of chat_of
chats_of-ne-nil a contacts t [] m h = tt
chats_of-ne-nil a contacts t (msg ∷ msgs) m h = (
  chat_name-ne-nil a contacts msg m h.0,
  chats_of-ne-nil a contacts t msgs (chat_of a contacts t msg m).1 h.1,
)
