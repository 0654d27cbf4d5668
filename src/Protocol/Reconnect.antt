-- ===== src/Protocol/Reconnect.antt =====
-- daemon/protocol/client.go: `StopReconnect` and `startReconnectLoop`. A goroutine of the loop is a
-- `Loop`, named by its context; the mutex makes each of the functions one step. What happens, a
-- timer, a cancelled context, a lost connection, is a schedule of steps in any order.
pub mod Invariant
pub mod Backoff
pub mod Stale
pub mod Ends
pub mod Attempt
use kha_app.Prelude.{
  ℕ, suc, ◌*◌, ◌+◌, Bool, true, false, Option, none, some, List, [], ◌∷◌, ltb, ◌==◌, if◌then◌else◌,
}
use kha_app.Prelude.Result.{Outcome}

-- The delay is in seconds; `cancelled` is the state of the context.
pub record Loop : Type 0 where
  pub ctx : ℕ
  pub delay : ℕ
  pub cancelled : Bool

-- `cancelRetry` and `reconnectCtx` are set and cleared together: both are the context's name.
pub record Reconnect : Type 0 where
  pub cancel_retry : Option ℕ
  pub next_ctx : ℕ
  pub loops : List Loop

abbrev pub idle : Reconnect
idle = record { cancel_retry = none; next_ctx = 0; loops = [] }

unfoldable pub cancel : ℕ → List Loop → List Loop
cancel k [] = []
cancel k (l ∷ ls) = (if l.ctx == k then record l { cancelled = true } else l) ∷ cancel k ls

unfoldable pub stop_reconnect : Reconnect → Reconnect
unfolding cancel
stop_reconnect r = elim r.cancel_retry [
  | none ↦ r
  | some k ↦ record r { cancel_retry = none; loops = cancel k r.loops }
]

unfoldable pub start_reconnect_loop : Bool → Reconnect → Reconnect
start_reconnect_loop false r = r
start_reconnect_loop true r = elim r.cancel_retry [
  | some k ↦ r
  | none ↦ record r {
    cancel_retry = some r.next_ctx;
    next_ctx = suc r.next_ctx;
    loops = record { ctx = r.next_ctx; delay = 2; cancelled = false } ∷ r.loops;
  }
]

-- `delay *= 2; if delay > 60*time.Second { delay = 60 * time.Second }`
unfoldable pub next_delay : ℕ → ℕ
next_delay delay = if ltb 60 (delay * 2) then 60 else delay * 2

-- What the `select` of a waiting loop receives. After the timer come the answers of `IsConnected`
-- and of `Connect`.
pub data Wake : Type 0 where
  ctx_done : Wake
  timer : Bool → Outcome → Wake

-- One round of the loop: `none` is a `return`.
unfoldable pub round : Wake → Loop → Option Loop
unfolding next_delay
round ctx_done l = if l.cancelled then none else some l
round (timer true connect) l = none
round (timer false none) l = none
round (timer false (some e)) l = some (record l { delay = next_delay l.delay })

unfoldable pub find_loop : ℕ → List Loop → Option Loop
find_loop k [] = none
find_loop k (l ∷ ls) = if l.ctx == k then some l else find_loop k ls

unfoldable pub remove_loop : ℕ → List Loop → List Loop
remove_loop k [] = []
remove_loop k (l ∷ ls) = if l.ctx == k then ls else l ∷ remove_loop k ls

unfoldable pub set_loop : ℕ → Loop → List Loop → List Loop
set_loop k m [] = []
set_loop k m (l ∷ ls) = if l.ctx == k then m ∷ ls else l ∷ set_loop k m ls

-- The goroutine of a context runs to its next `select`, or returns through the deferred
-- `StopReconnect`.
unfoldable pub wake : ℕ → Wake → Reconnect → Reconnect
unfolding find_loop round remove_loop set_loop stop_reconnect
wake k w r = elim (find_loop k r.loops) [
  | none ↦ r
  | some l ↦ elim (round w l) [
    | none ↦ stop_reconnect (record r { loops = remove_loop k r.loops })
    | some m ↦ record r { loops = set_loop k m r.loops }
  ]
]

pub data Happening : Type 0 where
  starts : Bool → Happening
  stops : Happening
  wakes : ℕ → Wake → Happening

unfoldable pub step : Reconnect → Happening → Reconnect
step r (starts has_session) = start_reconnect_loop has_session r
step r stops = stop_reconnect r
step r (wakes k w) = wake k w r

unfoldable pub run : Reconnect → List Happening → Reconnect
unfolding step
run r [] = r
run r (h ∷ hs) = run (step r h) hs
