-- ===== src/Service/Loop/Stored.antt =====
-- What the event loop tells of a message, against what the event handler of the client has stored.
use mathlib.Core.List.{append-nil}
use kha_app.Prelude.{
  ◌≡◌, ◌∙◌, sym, arith, Bool, true, false, ◌||◌, List, [], ◌∷◌, ◌++◌, Text, is_empty, if◌then◌else◌,
}
use kha_app.Protocol.Event.{MessageEvent}
use kha_app.Protocol.Contact.{Contacts}
use kha_app.Protocol.Content.{extract_message_text, build_stored_message}
use kha_app.Protocol.Content.Built.{own_text, extract_message_text_lem, build_stored_message_lem}
use kha_app.Service.Contacts.{extract_display_text}
use kha_app.Service.State.{Signal, Service, emit, message_received}
use kha_app.Service.Loop.{LoopAnswers, sender_name, message_arrived}

pub display_lem :
    (event : MessageEvent) → extract_display_text event ≡ extract_message_text event.message
unfolding extract_display_text extract_message_text
display_lem event = ground arith

stored_text :
    (c : Contacts) (event : MessageEvent)
    → is_empty (extract_display_text event) ≡ false
    → (build_stored_message c event).text ≡ extract_display_text event
stored_text c event h = ground (arith, build_stored_message_lem c event, display_lem event)

own_text_lem : (event : MessageEvent) → extract_display_text event ≡ own_text event.message
own_text_lem event = display_lem event ∙ extract_message_text_lem event.message

-- The signal of a message from another person that has a text of its own.
abbrev signal_with : Contacts → LoopAnswers → MessageEvent → Bool → Text → List Signal
signal_with c a event true text = []
signal_with c a event false [] = []
signal_with c a event false (x ∷ xs) =
    message_received event.chat (sender_name a event) (build_stored_message c event).text
      event.timestamp
    ∷ []

abbrev pub told_of : Contacts → LoopAnswers → MessageEvent → List Signal
told_of c a event = signal_with c a event event.is_from_me (own_text event.message)

signal_with_lem :
    (c : Contacts) (a : LoopAnswers) (event : MessageEvent) (b : Bool) (text : Text)
    → (if is_empty text || b
        then []
        else message_received event.chat
            (sender_name a event)
            (build_stored_message c event).text
            event.timestamp
          ∷ [])
      ≡ signal_with c a event b text
signal_with_lem c a event b text = ground arith

-- The event loop tells of a message exactly if it comes from another person and has a text of its
-- own, in the conversation or else in an extended text, under the name that it finds for the
-- sender, with the chat, with the time, and with the text that the event handler stores for it.
pub signals-message_arrived :
    (c : Contacts) (a : LoopAnswers) (event : MessageEvent) (m : Service)
    → (message_arrived a event m).signals ≡ m.signals ++ told_of c a event
unfolding message_arrived emit
signals-message_arrived c a event m =
    rw (sym (signal_with_lem c a event event.is_from_me (own_text event.message)))
      (ground (arith, stored_text c event, own_text_lem event, append-nil m.signals))
