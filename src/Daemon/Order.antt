-- ===== src/Daemon/Order.antt =====
-- The order in which events go from whatsmeow to the service.
use mathlib.Core.List.{append-nil, append_assoc}
use kha_app.Prelude.{◌≡◌, refl, sym, ap, List, [], ◌∷◌, ◌++◌, arith, length, ltb, if◌then◌else◌}
use kha_app.Protocol.Event.{Event}
use kha_app.Protocol.Client.Channel.{passed_on, events-handle}
use kha_app.Service.Loop.{LoopAnswers}
use kha_app.Service.Run
use kha_app.Service.Run.{Call, gets_event}
use kha_app.Daemon.{Daemon, Step, arrives, takes, serves, writes, happens, take_event, step, run}
use kha_app.Daemon.Parts.{taken, served, service_calls, all_calls, run-PartsOf}

-- The event that a step puts into the channel: one that arrives while there is room.
abbrev accepted : Daemon → Step → List Event
accepted d (arrives a e) = if ltb (length d.client.events) 32 then passed_on e else []
accepted d _ = []

abbrev pub all_accepted : Daemon → List Step → List Event
all_accepted d [] = []
all_accepted d (s ∷ ss) = accepted d s ++ all_accepted (step d s) ss

-- The events that the service gets.
abbrev pub events_of : List Call → List Event
events_of [] = []
events_of (gets_event a e ∷ cs) = e ∷ events_of cs
events_of (_ ∷ cs) = events_of cs

pub events_of-append : (cs bs : List Call) → events_of (cs ++ bs) ≡ events_of cs ++ events_of bs
events_of-append [] bs = refl
events_of-append (gets_event a e ∷ cs) bs = ap (λ es. e ∷ es) (events_of-append cs bs)
events_of-append (_ ∷ cs) bs = events_of-append cs bs

pub events_of-served : (c : Call) → events_of (served c) ≡ []
events_of-served (gets_event a e) = refl
events_of-served _ = refl

taken_lem :
    (a : LoopAnswers) (es : List Event) (d : Daemon)
    → d.client.events ≡ es
    → es ++ [] ≡ events_of (taken a es) ++ (take_event a es d).client.events
unfolding take_event
taken_lem a [] d h = sym h
taken_lem a (e ∷ es) d h = ap (λ r. e ∷ r) (append-nil es)

step_lem :
    (d : Daemon) (s : Step)
    → d.client.events ++ accepted d s ≡ events_of (service_calls d s) ++ (step d s).client.events
unfolding step
step_lem d (arrives a e) = ground (arith, events-handle a e d.client, append-nil d.client.events)
step_lem d (takes a) = taken_lem a d.client.events d refl
step_lem d (serves c) = rw (events_of-served c) (append-nil d.client.events)
step_lem d (writes w) = append-nil d.client.events
step_lem d (happens h) = append-nil d.client.events

run_order :
    (d : Daemon) (ss : List Step)
    → d.client.events ++ all_accepted d ss ≡ events_of (all_calls d ss) ++ (run d ss).client.events
unfolding run
run_order d [] = append-nil d.client.events
run_order d (s ∷ ss) = ground (
  arith,
  step_lem d s,
  run_order (step d s) ss,
  events_of-append (service_calls d s) (all_calls (step d s) ss),
  append_assoc d.client.events (accepted d s) (all_accepted (step d s) ss),
  append_assoc (events_of (service_calls d s)) (step d s).client.events
      (all_accepted (step d s) ss),
  append_assoc (events_of (service_calls d s)) (events_of (all_calls (step d s) ss))
      (run (step d s) ss).client.events,
)

-- Under every schedule there is one sequence of calls that makes the service what it is at the end,
-- and whose events are in order: the events that wait in the channel, followed by those that
-- arrive while it holds less than 32, are the events of these calls followed by those that wait
-- at the end, so that the service handles them in the order of their arrival, each once, and
-- none that was not accepted.
pub run-in_order :
    (d : Daemon) (ss : List Step)
    → (calls : List Call) × ((run d ss).service ≡ Run.run d.service calls)
      × (d.client.events ++ all_accepted d ss ≡ events_of calls ++ (run d ss).client.events)
run-in_order d ss = (all_calls d ss, (run-PartsOf d ss).service, run_order d ss)
