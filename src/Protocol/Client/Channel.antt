-- ===== src/Protocol/Client/Channel.antt =====
-- What the handler does to the channel of events and to the reconnect loops.
use mathlib.Core.List.{append-nil}
use kha_app.Prelude.{
  ◌≤◌, ◌≡◌, refl, List, [], ◌∷◌, ◌++◌, arith, length, length-append, if◌then◌else◌, ltb,
}
use kha_app.Protocol.Event.{
  Event, message, connected, disconnected, logged_out, receipt, chat_presence, group_info, picture,
  unhandled,
}
use kha_app.Protocol.Reconnect.{Happening, starts, stops, step, run}
use kha_app.Protocol.Reconnect.Invariant.{Inv, run-Inv}
use kha_app.Protocol.Client.{Client, events_capacity, Answers, forward, handle, handle_all}

reconnect-forward : (e : Event) (w : Client) → (forward e w).reconnect ≡ w.reconnect
unfolding forward
reconnect-forward e w = ground arith

-- The steps of the reconnect loops that an event causes.
abbrev pub happenings : Answers → Event → List Happening
happenings a connected = stops ∷ []
happenings a disconnected = starts a.has_session ∷ []
happenings a logged_out = stops ∷ []
happenings a _ = []

pub reconnect-handle :
    (a : Answers) (e : Event) (w : Client)
    → (handle a e w).reconnect ≡ run w.reconnect (happenings a e)
unfolding handle run step
reconnect-handle a connected w = rw reconnect-forward
reconnect-handle a disconnected w = rw reconnect-forward
reconnect-handle a logged_out w = rw reconnect-forward
reconnect-handle a (message event) w = rw reconnect-forward
reconnect-handle a (receipt receipt_type ids) w = rw reconnect-forward
reconnect-handle a (chat_presence chat sender state) w = rw reconnect-forward
reconnect-handle a (group_info jid) w = rw reconnect-forward
reconnect-handle a (picture jid) w = rw reconnect-forward
reconnect-handle a unhandled w = refl

handle-Inv : (a : Answers) (e : Event) (w : Client) → Inv w.reconnect → Inv (handle a e w).reconnect
handle-Inv a e w h = rw reconnect-handle (run-Inv w.reconnect (happenings a e) h)

-- From reconnect loops with the invariant, every sequence of events leads to loops with it.
pub handle_all-Inv :
    (w : Client) (es : List (Answers × Event)) → Inv w.reconnect → Inv (handle_all w es).reconnect
unfolding handle_all
handle_all-Inv w [] h = h
handle_all-Inv w ((a, e) ∷ es) h = handle_all-Inv (handle a e w) es (handle-Inv a e w h)

-- The event that reaches the service, if the handler passes it on at all.
abbrev pub passed_on : Event → List Event
passed_on unhandled = []
passed_on e = e ∷ []

events-forward :
    (e : Event) (w : Client)
    → (forward e w).events
      ≡ (if ltb (length w.events) events_capacity then w.events ++ e ∷ [] else w.events)
unfolding forward
events-forward e w = ground arith

-- An event goes to the end of the channel if there is room, and is dropped from it if there is none.
pub events-handle :
    (a : Answers) (e : Event) (w : Client)
    → (handle a e w).events
      ≡ (if ltb (length w.events) events_capacity then w.events ++ passed_on e else w.events)
unfolding handle
events-handle a unhandled w = ground (arith, append-nil w.events)
events-handle a connected w = rw events-forward
events-handle a disconnected w = rw events-forward
events-handle a logged_out w = rw events-forward
events-handle a (message event) w = rw events-forward
events-handle a (receipt receipt_type ids) w = rw events-forward
events-handle a (chat_presence chat sender state) w = rw events-forward
events-handle a (group_info jid) w = rw events-forward
events-handle a (picture jid) w = rw events-forward

length-passed_on : (e : Event) → length (passed_on e) ≤ 1
length-passed_on unhandled = omega arith
length-passed_on _ = omega arith

-- A channel of at most 32 events holds at most 32 after any sequence of events.
pub handle_all-bounded :
    (w : Client) (es : List (Answers × Event))
    → length w.events ≤ events_capacity
    → length (handle_all w es).events ≤ events_capacity
unfolding handle_all
handle_all-bounded w [] h = h
handle_all-bounded w ((a, e) ∷ es) h =
    handle_all-bounded (handle a e w) es (
      ground (arith, events-handle a e w, length-append w.events (passed_on e), length-passed_on e))
