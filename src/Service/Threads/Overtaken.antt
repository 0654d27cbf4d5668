-- ===== src/Service/Threads/Overtaken.antt =====
-- daemon/dbus/service.go: a signal of `setStatus` that another goroutine's overtakes.
use mathlib.Core.Path.{subst}
use kha_app.Prelude.{ℕ, sym, ◌≡◌, refl, true, false, some, List, [], ◌∷◌, ◌++◌, Text}
use kha_app.Protocol.Event.{disconnected}
use kha_app.Service.State.{Status, Service, connection_status_changed, emit}
use kha_app.Service.Told.{shown, shown-change}
use kha_app.Service.Login.{AutoAnswers}
use kha_app.Service.Loop.{LoopAnswers}
use kha_app.Service.Run.{auto_connects, gets_event}
use kha_app.Service.Threads.{
  Program, returns, sets_status, ready, Pool, act, advance, advance_at, interleave,
}
use kha_app.Service.Threads.Programs.{auto_connect_program}
use kha_app.Service.Threads.Loops.{on_event_program, program_of}

-- One call of `AutoConnect`, and the event loop at a `Disconnected`.
abbrev pub two_goroutines : AutoAnswers → LoopAnswers → Service → Pool
two_goroutines a b m = record {
  threads =
      ready (program_of (auto_connects a)) ∷ ready (program_of (gets_event b disconnected)) ∷ [];
  service = m;
}

-- The call sets its status, the event loop sets and signals another, the call signals the first,
-- and comes to its end.
abbrev pub overtaking : List ℕ
overtaking = 0 ∷ 1 ∷ 1 ∷ 0 ∷ 0 ∷ []

-- Both goroutines are done, in the status "disconnected"; the signals say "connecting".
pub record Diverged (q : Pool) : Type 0 where
  pub all_ended : q.threads ≡ ready (returns tt) ∷ ready (returns tt) ∷ []
  pub is_disconnected : q.service.status ≡ Status.disconnected
  pub is_shown : shown Status.disconnected q.service.signals ≡ Status.connecting

-- The client has a session and no connection, and connecting fails.
pub record Fails (a : AutoAnswers) (e : Text) : Type 0 where
  pub has_session : a.has_session ≡ true
  pub offline : a.is_connected ≡ false
  pub refused : a.connect ≡ some e

abbrev connects_in_vain : Program Unit
connects_in_vain = sets_status Status.connecting (sets_status Status.disconnected (returns tt))

abbrev is_cut_off : Program Unit
is_cut_off = sets_status Status.disconnected (returns tt)

-- What the call does then.
calls : (a : AutoAnswers) (e : Text) → Fails a e → program_of (auto_connects a) ≡ connects_in_vain
unfolding auto_connect_program
calls a e f = rw (f.has_session, f.offline, f.refused) refl

meet :
    (m : Service)
    → Diverged (
        interleave overtaking (record {
          threads = ready connects_in_vain ∷ ready is_cut_off ∷ [];
          service = record m { status = Status.connected };
        }))
unfolding interleave advance_at advance act emit
meet m = record {
  all_ended = refl;
  is_disconnected = refl;
  is_shown =
      shown-change Status.disconnected Status.connecting
        (m.signals ++ connection_status_changed Status.disconnected ∷ []);
}

-- Where the service still has the status "connected" when `AutoConnect` and the event loop's
-- `Disconnected` meet, there is a schedule after which both are done and the status is
-- "disconnected", while the last status that was signalled is "connecting".
pub overtaking-Diverged :
    (a : AutoAnswers) (b : LoopAnswers) (e : Text) (m : Service)
    → Fails a e
    → m.status ≡ Status.connected
    → Diverged (interleave overtaking (two_goroutines a b m))
unfolding on_event_program
overtaking-Diverged a b e m f h = rw (calls a e f) (
    subst
      (λ (s : Status). Diverged (
        interleave overtaking (record {
          threads = ready connects_in_vain ∷ ready is_cut_off ∷ [];
          service = record m { status = s };
        })))
      (sym h) (meet m))
