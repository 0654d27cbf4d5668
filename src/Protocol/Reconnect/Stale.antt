-- ===== src/Protocol/Reconnect/Stale.antt =====
-- A loop that was cancelled while a newer one runs.
use kha_app.Prelude.{ℕ, ◌≡◌, refl, true, none, some}
use kha_app.Protocol.Reconnect.{
  Loop, Reconnect, stop_reconnect, ctx_done, round, find_loop, remove_loop, wake,
}
use kha_app.Protocol.Reconnect.Invariant.{
  Inv, OnlyCurrent, cancel-OnlyCurrent, remove_loop-OnlyCurrent,
}

-- In a state with the invariant, when a cancelled loop notices that its context is done while
-- another loop is current, its deferred `StopReconnect` takes the current one: `cancelRetry` is
-- cleared and every loop is cancelled, so that the reconnecting of the newer loop is given up.
pub stale_exit :
    (r : Reconnect) (j k : ℕ) (l : Loop)
    → Inv r
    → r.cancel_retry ≡ some k
    → find_loop j r.loops ≡ some l
    → l.cancelled ≡ true
    → ((wake j ctx_done r).cancel_retry ≡ none) × OnlyCurrent none (wake j ctx_done r).loops
unfolding wake round stop_reconnect
stale_exit r j k l h current found stale =
    rw (found, wake)
      (rw (stale, round)
        (rw (current, stop_reconnect)
          (
            refl,
            cancel-OnlyCurrent k (remove_loop j r.loops)
                (remove_loop-OnlyCurrent (some k) j r.loops (rw current at h.only_current)),
          )))
