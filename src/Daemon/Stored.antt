-- ===== src/Daemon/Stored.antt =====
-- A message is in the message store before the service gets it.
use kha_app.Prelude.{
  ◌≡◌, refl, Bool, true, false, none, List, [], ◌∷◌, ◌++◌, ltb, length, All, if◌then◌else◌,
}
use kha_app.Storage.Table.{Table, write_all}
use kha_app.Protocol.Event.{Event}
use kha_app.Protocol.Client.{Answers, events_capacity}
use kha_app.Protocol.Client.Persistence
use kha_app.Protocol.Client.Channel.{passed_on, events-handle}
use kha_app.Service.Loop.{LoopAnswers}
use kha_app.Daemon.{Daemon, Step, arrives, takes, serves, writes, happens, take_event, step, run}
use kha_app.Daemon.Rows.{AllIn, AllIn-write_all, AllIn-append, AllIn-passed_on}
use kha_app.Daemon.Order.{events_of, events_of-append, events_of-served}
use kha_app.Daemon.Parts.{taken, service_calls, all_calls, all_table_writes, run-PartsOf}

-- Every message that waits in the channel is in the message store.
abbrev pub WaitingAreStored : Daemon → Type 0
WaitingAreStored d = AllIn d.client.table d.client.events

AllIn-if :
    (b : Bool) (t : Table) (es fs : List Event)
    → AllIn t es
    → AllIn t fs
    → AllIn t (if b then es else fs)
AllIn-if true t es fs h k = h
AllIn-if false t es fs h k = k

-- The store saves the message of the step.
abbrev pub SavesWork : Step → Type 0
SavesWork (arrives a e) = a.save_outcome ≡ none
SavesWork _ = Unit

AllIn-arrives :
    (a : Answers) (e : Event) (d : Daemon)
    → a.save_outcome ≡ none
    → WaitingAreStored d
    → WaitingAreStored (step d (arrives a e))
unfolding step
AllIn-arrives a e d saved h =
    let t = write_all d.client.table (Persistence.writes a e) in
    let old = AllIn-write_all d.client.table (Persistence.writes a e) d.client.events h in
    rw (Persistence.table-handle a e d.client, events-handle a e d.client)
      (AllIn-if (ltb (length d.client.events) events_capacity) t (d.client.events ++ passed_on e)
        d.client.events
        (AllIn-append t d.client.events (passed_on e) old
          (AllIn-passed_on a e d.client.table saved))
        old)

AllIn-take :
    (a : LoopAnswers) (es : List Event) (d : Daemon)
    → d.client.events ≡ es
    → WaitingAreStored d
    → WaitingAreStored (take_event a es d)
unfolding take_event
AllIn-take a [] d e h = h
AllIn-take a (x ∷ es) d e h = (rw e at h).1

step-WaitingAreStored :
    (d : Daemon) (s : Step) → SavesWork s → WaitingAreStored d → WaitingAreStored (step d s)
unfolding step write_all
step-WaitingAreStored d (arrives a e) saved h = AllIn-arrives a e d saved h
step-WaitingAreStored d (takes a) saved h = AllIn-take a d.client.events d refl h
step-WaitingAreStored d (serves c) saved h = h
step-WaitingAreStored d (writes w) saved h =
    AllIn-write_all d.client.table (w ∷ []) d.client.events h
step-WaitingAreStored d (happens x) saved h = h

run-Waiting :
    (d : Daemon) (ss : List Step)
    → All SavesWork ss
    → WaitingAreStored d
    → WaitingAreStored (run d ss)
unfolding run
run-Waiting d [] saved h = h
run-Waiting d (s ∷ ss) saved h =
    run-Waiting (step d s) ss saved.1 (step-WaitingAreStored d s saved.0 h)

AllIn-taken :
    (t : Table) (a : LoopAnswers) (es : List Event) → AllIn t es → AllIn t (events_of (taken a es))
AllIn-taken t a [] h = tt
AllIn-taken t a (e ∷ es) h = (h.0, tt)

-- The event that the service gets in a step has waited in the channel.
AllIn-step :
    (d : Daemon) (s : Step)
    → WaitingAreStored d
    → AllIn d.client.table (events_of (service_calls d s))
AllIn-step d (takes a) h = AllIn-taken d.client.table a d.client.events h
AllIn-step d (serves c) h = rw (events_of-served c) tt
AllIn-step d (arrives a e) h = tt
AllIn-step d (writes w) h = tt
AllIn-step d (happens x) h = tt

-- No row goes away.
AllIn-run :
    (d : Daemon) (ss : List Step) (es : List Event)
    → AllIn d.client.table es
    → AllIn (run d ss).client.table es
AllIn-run d ss es h =
    rw ((run-PartsOf d ss).table) (AllIn-write_all d.client.table (all_table_writes ss) es h)

got_lem :
    (d : Daemon) (ss : List Step)
    → All SavesWork ss
    → WaitingAreStored d
    → AllIn (run d ss).client.table (events_of (all_calls d ss))
unfolding run
got_lem d [] saved h = tt
got_lem d (s ∷ ss) saved h = rw (events_of-append (service_calls d s) (all_calls (step d s) ss)) (
    AllIn-append (run (step d s) ss).client.table (events_of (service_calls d s))
      (events_of (all_calls (step d s) ss))
      (AllIn-run d (s ∷ ss) (events_of (service_calls d s)) (AllIn-step d s h))
      (got_lem (step d s) ss saved.1 (step-WaitingAreStored d s saved.0 h)))

-- Under every schedule in which the store saves what the event handler gives it, from a daemon
-- whose waiting messages with text are all stored, those that wait at the end are stored, and so is
-- every message with text that the service has got, at any time up to the end.
pub run-WaitingAreStored :
    (d : Daemon) (ss : List Step)
    → All SavesWork ss
    → WaitingAreStored d
    → WaitingAreStored (run d ss) × AllIn (run d ss).client.table (events_of (all_calls d ss))
run-WaitingAreStored d ss saved h = (run-Waiting d ss saved h, got_lem d ss saved h)
