-- ===== src/Protocol/Reconnect/Ends.antt =====
-- The end of a reconnect loop.
use kha_app.Prelude.{
  ℕ, suc, ◌<◌, ◌≡◌, refl, ap, ◌∙◌, Bool, true, false, Option, none, some, List, [], ◌∷◌, ◌++◌,
  arith, ◌==◌, Text,
}
use kha_app.Protocol.Reconnect.{
  Loop, Reconnect, cancel, stop_reconnect, start_reconnect_loop, next_delay, Wake, ctx_done, timer,
  round, find_loop, remove_loop, set_loop, wake, Happening, starts, wakes, step, run,
}
use kha_app.Protocol.Reconnect.Invariant.{Listed}

-- The timer fires and connecting fails.
abbrev pub fails : ℕ → Text → Happening
fails k e = wakes k (timer false (some e))

-- What happens while a loop runs: a round in which connecting fails, with its error, or another
-- `Disconnected`, told by `none`.
abbrev pub meanwhile : ℕ → List (Option Text) → List Happening
meanwhile k [] = []
meanwhile k (some e ∷ es) = fails k e ∷ meanwhile k es
meanwhile k (none ∷ es) = starts true ∷ meanwhile k es

-- The connection is there, by the loop's own `Connect` or otherwise.
abbrev pub connects : Wake → Bool
connects ctx_done = false
connects (timer true o) = true
connects (timer false none) = true
connects (timer false (some e)) = false

-- The loop runs under the next context, with a delay.
waiting : Reconnect → ℕ → Reconnect
waiting r delay = record r {
  cancel_retry = some r.next_ctx;
  next_ctx = suc r.next_ctx;
  loops = record { ctx = r.next_ctx; delay = delay; cancelled = false } ∷ r.loops;
}

cancel-above : (k n : ℕ) (ls : List Loop) → Listed n ls → n < suc k → cancel k ls ≡ ls
unfolding cancel
cancel-above k n [] h le = refl
cancel-above k n (l ∷ ls) h le =
    rw (ne_lem l.ctx k (omega arith)) (ap (λ m. l ∷ m) (cancel-above k l.ctx ls h.3 (omega arith)))
  where
    ne_lem : (a b : ℕ) → a < b → (a == b) ≡ false
    ne_lem a b h = ground arith

find_loop-head : (l : Loop) (ls : List Loop) → find_loop l.ctx (l ∷ ls) ≡ some l
unfolding find_loop
find_loop-head l ls = ground arith

set_loop-head : (l m : Loop) (ls : List Loop) → set_loop l.ctx m (l ∷ ls) ≡ m ∷ ls
unfolding set_loop
set_loop-head l m ls = ground arith

remove_loop-head : (l : Loop) (ls : List Loop) → remove_loop l.ctx (l ∷ ls) ≡ ls
unfolding remove_loop
remove_loop-head l ls = ground arith

abbrev pub loop_of : ℕ → ℕ → Loop
loop_of k delay = record { ctx = k; delay = delay; cancelled = false }

step-fails :
    (r : Reconnect) (delay : ℕ) (e : Text)
    → step (waiting r delay) (fails r.next_ctx e) ≡ waiting r (next_delay delay)
unfolding step waiting round wake
step-fails r delay e =
    let l = loop_of r.next_ctx delay in
    rw (wake, find_loop-head l r.loops)
      (rw (set_loop-head l (loop_of r.next_ctx (next_delay delay)) r.loops) refl)

round-connects : (w : Wake) (l : Loop) → connects w ≡ true → round w l ≡ none
unfolding round
round-connects ctx_done l c = cc
round-connects (timer true o) l c = refl
round-connects (timer false none) l c = refl
round-connects (timer false (some e)) l c = cc

step-connects :
    (r : Reconnect) (delay : ℕ) (w : Wake)
    → Listed r.next_ctx r.loops
    → connects w ≡ true
    → step (waiting r delay) (wakes r.next_ctx w)
      ≡ record r { cancel_retry = none; next_ctx = suc r.next_ctx }
unfolding step waiting wake stop_reconnect
step-connects r delay w h c =
    let l = loop_of r.next_ctx delay in
    rw (wake, find_loop-head l r.loops)
      (rw (round-connects w l c, remove_loop-head l r.loops)
        (rw (stop_reconnect, cancel-above r.next_ctx r.next_ctx r.loops h (omega arith)) refl))

-- The loop that runs keeps another from being started.
step-starts : (r : Reconnect) (delay : ℕ) → step (waiting r delay) (starts true) ≡ waiting r delay
unfolding step waiting start_reconnect_loop
step-starts r delay = refl

run-meanwhile :
    (r : Reconnect) (delay : ℕ) (es : List (Option Text)) (w : Wake)
    → Listed r.next_ctx r.loops
    → connects w ≡ true
    → run (waiting r delay) (meanwhile r.next_ctx es ++ wakes r.next_ctx w ∷ [])
      ≡ record r { cancel_retry = none; next_ctx = suc r.next_ctx }
unfolding run
run-meanwhile r delay [] w h c = step-connects r delay w h c
run-meanwhile r delay (some e ∷ es) w h c =
    ap (λ q. run q (meanwhile r.next_ctx es ++ wakes r.next_ctx w ∷ [])) (step-fails r delay e)
    ∙ run-meanwhile r (next_delay delay) es w h c
run-meanwhile r delay (none ∷ es) w h c =
    ap (λ q. run q (meanwhile r.next_ctx es ++ wakes r.next_ctx w ∷ [])) (step-starts r delay)
    ∙ run-meanwhile r delay es w h c

-- Where no loop is current, a disconnection with a session starts one that ends: after any
-- number of rounds in which connecting fails, of further disconnections, and one round in which
-- the connection is there, everything is as it was before, but for the number of contexts. So
-- the further disconnections, which come before the loop has ended, start none.
pub run-ends :
    (r : Reconnect) (es : List (Option Text)) (w : Wake)
    → Listed r.next_ctx r.loops
    → r.cancel_retry ≡ none
    → connects w ≡ true
    → run r (starts true ∷ (meanwhile r.next_ctx es ++ wakes r.next_ctx w ∷ []))
      ≡ record r { next_ctx = suc r.next_ctx }
unfolding run step start_reconnect_loop waiting
run-ends r es w h idle c = rw (start_reconnect_loop, idle) (run-meanwhile r 2 es w h c)
