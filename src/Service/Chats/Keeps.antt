-- ===== src/Service/Chats/Keeps.antt =====
-- What building the list of chats keeps: whatever the two calls that it makes of the service keep.
use kha_app.Prelude.{ℕ, inl, inr, Bool-cases, List, [], ◌∷◌, Text}
use kha_app.Prelude.Result.{Result, ok, err}
use kha_app.Storage.Message.{StoredMessage}
use kha_app.Storage.Table.{Table}
use kha_app.Storage.Query.{Engine, get_recent_chats}
use kha_app.Protocol.Event.{ContactInfo}
use kha_app.Service.State.{Service}
use kha_app.Service.Groups.{RawGroup, load_group_info}
use kha_app.Service.Avatars.{get_profile_picture}
use kha_app.Service.Chats.{ChatAnswers, chat_name, chat_of, chats_of, with_contacts, get_chats}

-- A property of the service that the two calls keep.
pub record Kept (P : Service → Type 0) : Type 0 where
  pub by_group_info :
      (jid : Text) (now : ℕ) (answer : Result RawGroup) (later : ℕ) (m : Service)
      → P m
      → P (load_group_info jid now answer later m).1
  pub by_picture :
      (path : Result Text) (jid : Text) (now : ℕ) (m : Service)
      → P m
      → P (get_profile_picture path jid now m).1

module _ (P : Service → Type 0) (k : Kept P) where
  chat_name-keeps :
      (a : ChatAnswers) (contacts : Text → ContactInfo) (msg : StoredMessage) (m : Service)
      → P m
      → P (chat_name a contacts msg m).1
  unfolding chat_name
  chat_name-keeps a contacts msg m h = elim (Bool-cases msg.is_group) [
    | inl e ↦ rw e (k.by_group_info _ _ _ _ m h)
    | inr e ↦ rw e h
  ]

  chats_of-keeps :
      (a : ChatAnswers) (contacts : Text → ContactInfo) (t : Table) (msgs : List StoredMessage)
      (m : Service)
      → P m
      → P (chats_of a contacts t msgs m).1
  unfolding chats_of chat_of
  chats_of-keeps a contacts t [] m h = h
  chats_of-keeps a contacts t (msg ∷ msgs) m h =
      chats_of-keeps a contacts t msgs _ (k.by_picture _ _ _ _ (chat_name-keeps a contacts msg m h))

  pub get_chats-keeps :
      (e : Engine) (a : ChatAnswers) (t : Table) (m : Service) → P m → P (get_chats e a t m).1
  unfolding get_chats
  get_chats-keeps e a t m h = contacts a.contacts (get_recent_chats e a.recent t)
    where
      contacts :
          (r : Result (Text → ContactInfo)) (q : Result (List StoredMessage))
          → P (with_contacts a r t q m).1
      contacts (err x) q = h
      contacts (ok c) (err x) = h
      contacts (ok c) (ok msgs) = chats_of-keeps a c t msgs m h
