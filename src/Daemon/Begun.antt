-- ===== src/Daemon/Begun.antt =====
-- daemon/cmd/main.go: the daemon as `main` starts it, and what holds of it from then on.
use kha_app.Prelude.{◌≤◌, ◌≡◌, refl, Bool, true, false, List, [], ◌∷◌, arith, length, if◌then◌else◌}
use kha_app.Storage.Table.{Table}
use kha_app.Storage.Table.Keys.{IsKeyed, write_all-IsKeyed}
use kha_app.Storage.Table.Receipts.{Kept, write_all-Kept}
use kha_app.Protocol.Reconnect.{idle}
use kha_app.Protocol.Reconnect.Invariant.{Inv, run-Inv, idle-Inv}
use kha_app.Protocol.Event.{Event}
use kha_app.Protocol.Client.{events_capacity, handle_all}
use kha_app.Protocol.Client.Channel.{handle_all-bounded}
use kha_app.Service.State.{new_messenger_service}
use kha_app.Service.Login.{AutoAnswers, auto_connect}
use kha_app.Service.Told.{Told}
use kha_app.Service.Avatars.Downloads.{Tracked}
use kha_app.Service.Run
use kha_app.Service.Run.{Call, auto_connects}
use kha_app.Service.Run.Told.{run_from-Told, run-Told}
use kha_app.Service.Run.Downloads.{run_from-Tracked, run-Tracked}
use kha_app.Service.Loop.{LoopAnswers}
use kha_app.Daemon.{Daemon, Step, arrives, takes, serves, writes, happens, take_event, step, run}
use kha_app.Daemon.Parts.{run-PartsOf, all_calls, all_table_writes, all_reconnects}

-- `NewWAClient`, `NewMessengerService`, and `AutoConnect` where there is a session.
unfoldable pub started : AutoAnswers → Table → Daemon
unfolding new_messenger_service auto_connect
started a t = record {
  client = record { table = t; events = []; reconnect = idle; presences = 0 };
  service =
      if a.has_session then (auto_connect a new_messenger_service).1 else new_messenger_service;
}

abbrev begun : Bool → AutoAnswers → List Call
begun true a = auto_connects a ∷ []
begun false a = []

service-started :
    (a : AutoAnswers) (t : Table)
    → (started a t).service ≡ Run.run new_messenger_service (begun a.has_session a)
unfolding started Run.run Run.step
service-started a t = ground arith

started-Told : (a : AutoAnswers) (t : Table) → Told (started a t).service
started-Told a t = rw (service-started a t) (run-Told (begun a.has_session a))

started-Tracked : (a : AutoAnswers) (t : Table) → Tracked (started a t).service
started-Tracked a t = rw (service-started a t) (run-Tracked (begun a.has_session a))

length-take_event :
    (a : LoopAnswers) (es : List Event) (d : Daemon)
    → d.client.events ≡ es
    → length (take_event a es d).client.events ≤ length es
unfolding take_event
length-take_event a [] d h = rw h (omega arith)
length-take_event a (e ∷ es) d h = omega arith

step-bounded :
    (d : Daemon) (s : Step)
    → length d.client.events ≤ events_capacity
    → length (step d s).client.events ≤ events_capacity
unfolding step handle_all
step-bounded d (arrives a e) h = handle_all-bounded d.client ((a, e) ∷ []) h
step-bounded d (takes a) h = omega (arith, h, length-take_event a d.client.events d refl)
step-bounded d (serves c) h = h
step-bounded d (writes w) h = h
step-bounded d (happens x) h = h

run-bounded :
    (d : Daemon) (ss : List Step)
    → length d.client.events ≤ events_capacity
    → length (run d ss).client.events ≤ events_capacity
unfolding run
run-bounded d [] h = h
run-bounded d (s ∷ ss) h = run-bounded (step d s) ss (step-bounded d s h)

-- What holds of a daemon at any time; `t` is the message store that it started with.
pub record IsSound (t : Table) (d : Daemon) : Type 0 where
  pub told : Told d.service
  pub tracked : Tracked d.service
  pub loops : Inv d.client.reconnect
  pub channel : length d.client.events ≤ events_capacity
  pub keyed : IsKeyed d.client.table
  pub kept : Kept t d.client.table

-- From its start with a message store of distinct ids, whatever the automatic connection does and
-- under every schedule of events, D-Bus calls, goroutines and timers, each of which is one step,
-- the daemon has told its status exactly, runs at most one download for a chat, has at most one
-- reconnect loop that is not cancelled, holds at most 32 events, and has lost no stored message, no
-- receipt and no read flag.
pub run-IsSound :
    (a : AutoAnswers) (t : Table) (ss : List Step) → IsKeyed t → IsSound t (run (started a t) ss)
unfolding started
run-IsSound a t ss keyed =
    let d = started a t in
    let parts = run-PartsOf d ss in
    record {
      told = rw parts.service (run_from-Told d.service (all_calls d ss) (started-Told a t));
      tracked =
          rw parts.service (run_from-Tracked d.service (all_calls d ss) (started-Tracked a t));
      loops = rw parts.reconnect (run-Inv idle (all_reconnects ss) idle-Inv);
      channel = run-bounded d ss (omega arith);
      keyed = rw parts.table (write_all-IsKeyed t (all_table_writes ss) keyed);
      kept = rw parts.table (write_all-Kept t (all_table_writes ss));
    }
