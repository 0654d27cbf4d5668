-- ===== src/Service/Chats.antt =====
-- daemon/dbus/service.go: `GetChats`. What the client, the store, the clock and the paths answer for
-- each chat is an argument.
pub mod Listed
pub mod Keeps
use kha_app.Prelude.{
  ℕ, Bool, true, false, none, some, List, [], ◌∷◌, ℤ, pos, codes, to_int32, Text, is_empty,
  if◌then◌else◌,
}
use kha_app.Prelude.Result.{Result, ok, err, Outcome}
use kha_app.Storage.Message.{StoredMessage}
use kha_app.Storage.Table.{Table, get_unread_count}
use kha_app.Storage.Query.{Engine, get_recent_chats}
use kha_app.Protocol.Event.{ContactInfo}
use kha_app.Service.Contacts.{contact_name}
use kha_app.Service.State.{GroupInfo, Service}
use kha_app.Service.Variants.{
  VariantMap, string, int32, int64, boolean, variant_string, group_variants,
}
use kha_app.Service.Groups.{RawGroup, load_group_info}
use kha_app.Service.Avatars.{get_profile_picture}

-- The map of one chat.
pub record Chat : Type 0 where
  pub jid : Text
  pub name : Text
  pub last_message : Text
  pub timestamp : ℤ
  pub unread : ℤ
  pub is_group : Bool
  pub avatar_path : Text

pub record ChatAnswers : Type 0 where
  pub contacts : Result (Text → ContactInfo)
  pub parse_jid : Text → Result Text
  pub recent : Outcome
  -- for a chat: the clock, the answer of whatsmeow and the clock after it
  pub group_now : Text → ℕ
  pub group : Text → Result RawGroup
  pub group_later : Text → ℕ
  pub unread : Text → Outcome
  pub avatar_path : Text → Result Text
  pub avatar_now : Text → ℕ

-- `variantString(info, "name")`, where it is not empty.
unfoldable pub group_name : Result GroupInfo → Text → Text
unfolding variant_string group_variants
group_name (err e) jid = jid
group_name (ok info) jid =
    let name = variant_string (group_variants info) (codes "name") in
    if is_empty name then jid else name

abbrev pub person_name : (Text → ContactInfo) → Result Text → Text → Text
person_name contacts (err e) jid = jid
person_name contacts (ok parsed) jid = contact_name (contacts parsed) jid

abbrev pub unread_or_0 : Result ℕ → ℤ
unread_or_0 (err e) = pos 0
unread_or_0 (ok n) = to_int32 (pos n)

-- The name of a chat; only a group's changes the service.
unfoldable pub chat_name :
    ChatAnswers → (Text → ContactInfo) → StoredMessage → Service → Text × Service
unfolding load_group_info contact_name group_name
chat_name a contacts msg m =
    let (info, n) =
      load_group_info msg.jid (a.group_now msg.jid) (a.group msg.jid) (a.group_later msg.jid) m in
    if msg.is_group
    then (group_name info msg.jid, n)
    else (person_name contacts (a.parse_jid msg.jid) msg.jid, m)

-- The body of the loop.
unfoldable pub chat_of :
    ChatAnswers → (Text → ContactInfo) → Table → StoredMessage → Service → Chat × Service
unfolding chat_name get_unread_count get_profile_picture
chat_of a contacts t msg m =
    let (name, n) = chat_name a contacts msg m in
    let (avatar_path, o) =
      get_profile_picture (a.avatar_path msg.jid) msg.jid (a.avatar_now msg.jid) n in
    (
      record {
        jid = msg.jid;
        name = name;
        last_message = msg.text;
        timestamp = msg.timestamp;
        unread = unread_or_0 (get_unread_count (a.unread msg.jid) msg.jid t);
        is_group = msg.is_group;
        avatar_path = avatar_path;
      },
      o,
    )

unfoldable pub chats_of :
    ChatAnswers → (Text → ContactInfo) → Table → List StoredMessage → Service → List Chat × Service
unfolding chat_of
chats_of a contacts t [] m = ([], m)
chats_of a contacts t (msg ∷ msgs) m =
    let (chat, n) = chat_of a contacts t msg m in
    let (chats, o) = chats_of a contacts t msgs n in (chat ∷ chats, o)

abbrev pub listed :
    ChatAnswers
    → (Text → ContactInfo)
    → Table
    → Result (List StoredMessage)
    → Service
    → List Chat × Service
listed a contacts t (err e) m = ([], m)
listed a contacts t (ok msgs) m = chats_of a contacts t msgs m

abbrev pub with_contacts :
    ChatAnswers
    → Result (Text → ContactInfo)
    → Table
    → Result (List StoredMessage)
    → Service
    → List Chat × Service
with_contacts a (err e) t recent m = ([], m)
with_contacts a (ok contacts) t recent m = listed a contacts t recent m

unfoldable pub get_chats : Engine → ChatAnswers → Table → Service → List Chat × Service
unfolding get_recent_chats chats_of
get_chats e a t m = with_contacts a a.contacts t (get_recent_chats e a.recent t) m

-- The map of a chat that D-Bus carries.
unfoldable pub chat_variants : Chat → VariantMap
chat_variants chat =
    (codes "jid", string chat.jid)
    ∷ (codes "name", string chat.name)
    ∷ (codes "last_message", string chat.last_message)
    ∷ (codes "timestamp", int64 chat.timestamp)
    ∷ (codes "unread", int32 chat.unread)
    ∷ (codes "is_group", boolean chat.is_group)
    ∷ (codes "avatar_path", string chat.avatar_path)
    ∷ []
