-- ===== src/Protocol/Reconnect/Attempt.antt =====
-- daemon/protocol/client.go: the goroutine of `startReconnectLoop`, action by action. Between the timer,
-- `IsConnected`, `Connect` and the deferred `StopReconnect`, each one action, the other goroutines run.
use kha_app.Prelude.{
  ℕ, ◌≡◌, refl, Bool, true, false, Option, none, some, List, [], ◌∷◌, arith, ◌==◌, if◌then◌else◌,
}
use kha_app.Prelude.Result.{Outcome}
use kha_app.Protocol.Reconnect.{
  Loop, Reconnect, stop_reconnect, start_reconnect_loop, timer, round, find_loop, wake, Happening,
  starts, stops, wakes, step, run,
}
use kha_app.Protocol.Reconnect.Invariant.{Inv, run-Inv}

-- Where a goroutine is: in the `select`, before `IsConnected`, before `Connect`, or before the
-- deferred call.
pub data Phase : Type 0 where
  sleeping checking dialing leaving : Phase

-- The phase that was noted last counts; a new goroutine sleeps. `online` is what `IsConnected` tells.
pub record Attempts : Type 0 where
  pub reconnect : Reconnect
  pub phases : List (ℕ × Phase)
  pub online : Bool

abbrev pub phase_of : ℕ → List (ℕ × Phase) → Phase
phase_of k [] = sleeping
phase_of k ((j, p) ∷ ps) = if j == k then p else phase_of k ps

abbrev pub in_phase : ℕ → Phase → Attempts → Attempts
in_phase k p x = record x { phases = (k, p) ∷ x.phases }

pub data Action : Type 0 where
  begins : Bool → Action
  cancels disconnects loses_connection : Action
  fires is_done asks leaves : ℕ → Action
  connects : ℕ → Outcome → Action

-- The actions of the goroutine with a loop, in the phase in which it is.
abbrev fired : ℕ → Phase → Option Loop → Attempts → Attempts
fired k sleeping (some l) x = in_phase k checking x
fired k _ _ x = x

abbrev done : ℕ → Phase → Option Loop → Attempts → Attempts
done k sleeping (some l) x = if l.cancelled then in_phase k leaving x else x
done k _ _ x = x

abbrev asked : ℕ → Phase → Attempts → Attempts
asked k checking x = in_phase k (if x.online then leaving else dialing) x
asked k _ x = x

abbrev connected_or_not : ℕ → Phase → Outcome → Attempts → Attempts
connected_or_not k dialing none x = in_phase k leaving (record x { online = true })
connected_or_not k dialing (some e) x =
    in_phase k sleeping (record x { reconnect = wake k (timer false (some e)) x.reconnect })
connected_or_not k _ o x = x

-- The loop is removed as in a round in which the client was connected.
abbrev left : ℕ → Phase → Attempts → Attempts
left k leaving x = record x { reconnect = wake k (timer true none) x.reconnect }
left k _ x = x

-- `Disconnect` stops the loop and then closes the connection.
unfoldable pub act : Attempts → Action → Attempts
unfolding start_reconnect_loop stop_reconnect find_loop wake
act x (begins has_session) = record x { reconnect = start_reconnect_loop has_session x.reconnect }
act x cancels = record x { reconnect = stop_reconnect x.reconnect }
act x disconnects = record x { reconnect = stop_reconnect x.reconnect; online = false }
act x loses_connection = record x { online = false }
act x (fires k) = fired k (phase_of k x.phases) (find_loop k x.reconnect.loops) x
act x (is_done k) = done k (phase_of k x.phases) (find_loop k x.reconnect.loops) x
act x (asks k) = asked k (phase_of k x.phases) x
act x (connects k o) = connected_or_not k (phase_of k x.phases) o x
act x (leaves k) = left k (phase_of k x.phases) x

unfoldable pub run_actions : Attempts → List Action → Attempts
unfolding act
run_actions x [] = x
run_actions x (a ∷ actions) = run_actions (act x a) actions

-- At most one step of the loops that are one step to a round.
abbrev Simulates : Reconnect → Reconnect → Type 0
Simulates r q = (hs : List Happening) × (q ≡ run r hs)

stutters : (r : Reconnect) → Simulates r r
unfolding run
stutters r = ([], refl)

steps : (r : Reconnect) (h : Happening) → Simulates r (step r h)
unfolding run
steps r h = (h ∷ [], refl)

act-Simulates : (x : Attempts) (a : Action) → Simulates x.reconnect (act x a).reconnect
unfolding act step
act-Simulates x (begins b) = steps x.reconnect (starts b)
act-Simulates x cancels = steps x.reconnect stops
act-Simulates x disconnects = steps x.reconnect stops
act-Simulates x loses_connection = stutters x.reconnect
act-Simulates x (fires k) = at (phase_of k x.phases) (find_loop k x.reconnect.loops)
  where
    at : (p : Phase) (o : Option Loop) → Simulates x.reconnect (fired k p o x).reconnect
    at sleeping (some l) = stutters x.reconnect
    at sleeping none = stutters x.reconnect
    at checking o = stutters x.reconnect
    at dialing o = stutters x.reconnect
    at leaving o = stutters x.reconnect
act-Simulates x (is_done k) = at (phase_of k x.phases) (find_loop k x.reconnect.loops)
  where
    noticed : (b : Bool) → Simulates x.reconnect (if b then in_phase k leaving x else x).reconnect
    noticed true = stutters x.reconnect
    noticed false = stutters x.reconnect

    at : (p : Phase) (o : Option Loop) → Simulates x.reconnect (done k p o x).reconnect
    at sleeping (some l) = noticed l.cancelled
    at sleeping none = stutters x.reconnect
    at checking o = stutters x.reconnect
    at dialing o = stutters x.reconnect
    at leaving o = stutters x.reconnect
act-Simulates x (asks k) = at (phase_of k x.phases)
  where
    at : (p : Phase) → Simulates x.reconnect (asked k p x).reconnect
    at checking = stutters x.reconnect
    at sleeping = stutters x.reconnect
    at dialing = stutters x.reconnect
    at leaving = stutters x.reconnect
act-Simulates x (connects k o) = at (phase_of k x.phases) o
  where
    at : (p : Phase) (o : Outcome) → Simulates x.reconnect (connected_or_not k p o x).reconnect
    at dialing none = stutters x.reconnect
    at dialing (some e) = steps x.reconnect (wakes k (timer false (some e)))
    at sleeping o = stutters x.reconnect
    at checking o = stutters x.reconnect
    at leaving o = stutters x.reconnect
act-Simulates x (leaves k) = at (phase_of k x.phases)
  where
    at : (p : Phase) → Simulates x.reconnect (left k p x).reconnect
    at leaving = steps x.reconnect (wakes k (timer true none))
    at sleeping = stutters x.reconnect
    at checking = stutters x.reconnect
    at dialing = stutters x.reconnect

act-Inv : (x : Attempts) (a : Action) → Inv x.reconnect → Inv (act x a).reconnect
act-Inv x a h = let (hs, e) = act-Simulates x a in rw e (run-Inv x.reconnect hs h)

-- From a state with the invariant on, however the single actions of the goroutines interleave, with
-- each other and with starts, stops, disconnections and losses of the connection, the loops keep it: the contexts are
-- distinct, the delays lie between 2 and 60 seconds, at most the current loop is not cancelled, and
-- while `cancelRetry` is set its loop does run.
pub run_actions-Inv :
    (x : Attempts) (actions : List Action) → Inv x.reconnect → Inv (run_actions x actions).reconnect
unfolding run_actions
run_actions-Inv x [] h = h
run_actions-Inv x (a ∷ actions) h = run_actions-Inv (act x a) actions (act-Inv x a h)

cancel_retry-stop_reconnect : (r : Reconnect) → (stop_reconnect r).cancel_retry ≡ none
unfolding stop_reconnect
cancel_retry-stop_reconnect r = ground arith

cancel_retry-wake :
    (k : ℕ) (r : Reconnect)
    → r.cancel_retry ≡ none
    → (wake k (timer true none) r).cancel_retry ≡ none
unfolding wake round stop_reconnect
cancel_retry-wake k r h = ground arith

phase_of-in_phase : (k : ℕ) (p : Phase) (ps : List (ℕ × Phase)) → phase_of k ((k, p) ∷ ps) ≡ p
phase_of-in_phase k p ps = ground arith

-- A goroutine that has found the client without a connection goes on to `Connect` although
-- `Disconnect` is called in between: where connecting works, the client is connected when the
-- goroutine has ended, and no loop is current.
pub online-disconnects :
    (x : Attempts) (k : ℕ)
    → phase_of k x.phases ≡ dialing
    → let y = run_actions x (disconnects ∷ connects k none ∷ leaves k ∷ []) in
      (y.online ≡ true) × (y.reconnect.cancel_retry ≡ none)
unfolding run_actions act
online-disconnects x k h = rw h (
    rw (phase_of-in_phase k leaving x.phases) (
      refl,
      cancel_retry-wake k (stop_reconnect x.reconnect) (cancel_retry-stop_reconnect x.reconnect),
    ))
