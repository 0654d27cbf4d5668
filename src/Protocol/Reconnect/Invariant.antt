-- ===== src/Protocol/Reconnect/Invariant.antt =====
-- What holds of the reconnect loops under every schedule.
use kha_app.Prelude.{
  ℕ, ◌≤◌, ◌<◌, ◌≡◌, refl, Bool, true, false, Option, none, some, List, [], ◌∷◌, arith, ◌==◌, ==_iff,
  inl, inr, Bool-cases, Option-cases, if◌then◌else◌,
}
use kha_app.Protocol.Reconnect.{
  Loop, Reconnect, idle, cancel, stop_reconnect, start_reconnect_loop, next_delay, Wake, ctx_done,
  timer, round, find_loop, remove_loop, set_loop, wake, Happening, starts, stops, wakes, step, run,
}

-- The loops are newest first, under distinct contexts, with delays from 2 to 60 seconds.
abbrev pub Listed : ℕ → List Loop → Type 0
Listed n [] = Unit
Listed n (l ∷ ls) = (l.ctx < n) × (2 ≤ l.delay) × (l.delay ≤ 60) × Listed l.ctx ls

-- Every loop that is not cancelled is the current one.
abbrev pub OnlyCurrent : Option ℕ → List Loop → Type 0
OnlyCurrent o [] = Unit
OnlyCurrent o (l ∷ ls) = (l.cancelled ≡ false → o ≡ some l.ctx) × OnlyCurrent o ls

-- The current loop is there, and is not cancelled.
abbrev pub CurrentRuns : Option ℕ → List Loop → Type 0
CurrentRuns none ls = Unit
CurrentRuns (some k) ls = (l : Loop) × (find_loop k ls ≡ some l) × (l.cancelled ≡ false)

pub record Inv (r : Reconnect) : Type 0 where
  pub listed : Listed r.next_ctx r.loops
  pub only_current : OnlyCurrent r.cancel_retry r.loops
  pub current_runs : CurrentRuns r.cancel_retry r.loops

Listed-mono : {m n : ℕ} (ls : List Loop) → m ≤ n → Listed m ls → Listed n ls
Listed-mono [] h b = tt
Listed-mono (l ∷ ls) h b = (omega arith, b.1, b.2, b.3)

cancel-Listed : (k n : ℕ) (ls : List Loop) → Listed n ls → Listed n (cancel k ls)
unfolding cancel
cancel-Listed k n [] h = tt
cancel-Listed k n (l ∷ ls) h = ground (arith, cancel-Listed k l.ctx ls h.3)

remove_loop-Listed : (k n : ℕ) (ls : List Loop) → Listed n ls → Listed n (remove_loop k ls)
unfolding remove_loop
remove_loop-Listed k n [] h = tt
remove_loop-Listed k n (l ∷ ls) h =
    ground (arith, remove_loop-Listed k l.ctx ls h.3, Listed-mono {m = l.ctx} {n = n} ls)

-- Cancelling the only loop that may run leaves none that runs.
pub cancel-OnlyCurrent :
    (k : ℕ) (ls : List Loop) → OnlyCurrent (some k) ls → OnlyCurrent none (cancel k ls)
unfolding cancel
cancel-OnlyCurrent k [] h = tt
cancel-OnlyCurrent k (l ∷ ls) h = ground (arith, cancel-OnlyCurrent k ls h.1)

pub remove_loop-OnlyCurrent :
    (o : Option ℕ) (k : ℕ) (ls : List Loop) → OnlyCurrent o ls → OnlyCurrent o (remove_loop k ls)
unfolding remove_loop
remove_loop-OnlyCurrent o k [] h = tt
remove_loop-OnlyCurrent o k (l ∷ ls) h = ground (arith, remove_loop-OnlyCurrent o k ls h.1)

find_loop-above : (k n : ℕ) (ls : List Loop) → Listed n ls → n ≤ k → find_loop k ls ≡ none
unfolding find_loop
find_loop-above k n [] h le = refl
find_loop-above k n (l ∷ ls) h le = ground (arith, find_loop-above k l.ctx ls h.3)

stop_reconnect-Inv :
    (r : Reconnect)
    → Listed r.next_ctx r.loops
    → OnlyCurrent r.cancel_retry r.loops
    → Inv (stop_reconnect r)
unfolding stop_reconnect
stop_reconnect-Inv r h only = stopped r.cancel_retry refl
  where
    stopped : (o : Option ℕ) → r.cancel_retry ≡ o → Inv (stop_reconnect r)
    stopped none e =
        rw (e, stop_reconnect) (record { listed = h; only_current = only; current_runs = rw e tt })
    stopped (some k) e =
        rw (e, stop_reconnect)
          (record {
            listed = cancel-Listed k r.next_ctx r.loops h;
            only_current = cancel-OnlyCurrent k r.loops (rw e at only);
            current_runs = tt;
          })

OnlyCurrent-none : (o : Option ℕ) (ls : List Loop) → OnlyCurrent none ls → OnlyCurrent o ls
OnlyCurrent-none o [] h = tt
OnlyCurrent-none o (l ∷ ls) h = ((λ e. cc (h.0 e)), OnlyCurrent-none o ls h.1)

start_reconnect_loop-Inv : (b : Bool) (r : Reconnect) → Inv r → Inv (start_reconnect_loop b r)
unfolding start_reconnect_loop find_loop
start_reconnect_loop-Inv false r h = h
start_reconnect_loop-Inv true r h = started r.cancel_retry refl
  where
    new_loop :
        find_loop r.next_ctx (record { ctx = r.next_ctx; delay = 2; cancelled = false } ∷ r.loops)
        ≡ some (record { ctx = r.next_ctx; delay = 2; cancelled = false })
    new_loop = ground arith

    started : (o : Option ℕ) → r.cancel_retry ≡ o → Inv (start_reconnect_loop true r)
    started (some k) e = rw (e, start_reconnect_loop) h
    started none e =
        rw (e, start_reconnect_loop)
          (record {
            listed = (omega arith, omega arith, omega arith, h.listed);
            only_current =
                (λ _. refl, OnlyCurrent-none (some r.next_ctx) r.loops (rw e at h.only_current));
            current_runs =
                (record { ctx = r.next_ctx; delay = 2; cancelled = false }, new_loop, refl);
          })

-- A loop that goes on keeps its context and is as cancelled as it was.
record Continues (l m : Loop) : Type 0 where
  same_ctx : m.ctx ≡ l.ctx
  same_cancelled : m.cancelled ≡ l.cancelled
  at_least : 2 ≤ m.delay
  at_most : m.delay ≤ 60

round-Continues :
    (w : Wake) (l m : Loop) → 2 ≤ l.delay → l.delay ≤ 60 → round w l ≡ some m → Continues l m
unfolding round next_delay
round-Continues ctx_done l m lo hi e = ground arith
round-Continues (timer true c) l m lo hi e = cc
round-Continues (timer false none) l m lo hi e = cc
round-Continues (timer false (some x)) l m lo hi e = ground arith

set_loop-Listed :
    (k n : ℕ) (l m : Loop) (ls : List Loop)
    → find_loop k ls ≡ some l
    → Continues l m
    → Listed n ls
    → Listed n (set_loop k m ls)
unfolding find_loop set_loop
set_loop-Listed k n l m [] e c h = tt
set_loop-Listed k n l m (x ∷ ls) e c h = ground (arith, set_loop-Listed k x.ctx l m ls)

set_loop-OnlyCurrent :
    (o : Option ℕ) (k : ℕ) (l m : Loop) (ls : List Loop)
    → find_loop k ls ≡ some l
    → Continues l m
    → OnlyCurrent o ls
    → OnlyCurrent o (set_loop k m ls)
unfolding find_loop set_loop
set_loop-OnlyCurrent o k l m [] e c h = tt
set_loop-OnlyCurrent o k l m (x ∷ ls) e c h = ground (arith, set_loop-OnlyCurrent o k l m ls)

ctx-find_loop : (k : ℕ) (l : Loop) (ls : List Loop) → find_loop k ls ≡ some l → l.ctx ≡ k
unfolding find_loop
ctx-find_loop k l [] e = cc
ctx-find_loop k l (x ∷ ls) e = ground (arith, ctx-find_loop k l ls)

find_loop-set_loop :
    (j k : ℕ) (l m : Loop) (ls : List Loop)
    → find_loop k ls ≡ some l
    → Continues l m
    → find_loop j (set_loop k m ls) ≡ (if j == k then some m else find_loop j ls)
unfolding find_loop set_loop
find_loop-set_loop j k l m [] e c = cc
find_loop-set_loop j k l m (x ∷ ls) e c =
    ground (arith, ctx-find_loop k l (x ∷ ls) e, find_loop-set_loop j k l m ls)

set_loop-CurrentRuns :
    (o : Option ℕ) (k : ℕ) (l m : Loop) (ls : List Loop)
    → find_loop k ls ≡ some l
    → Continues l m
    → CurrentRuns o ls
    → CurrentRuns o (set_loop k m ls)
set_loop-CurrentRuns none k l m ls e c h = tt
set_loop-CurrentRuns (some j) k l m ls e c (x, found, runs) = elim (Bool-cases (j == k)) [
  | inl same ↦ (
    m,
    rw (find_loop-set_loop j k l m ls e c, same),
    ground (arith, ==_iff j k, c.same_cancelled),
  )
  | inr other ↦ (x, rw (find_loop-set_loop j k l m ls e c, other) found, runs)
]

-- The delay of a listed loop.
delay-find_loop :
    (k n : ℕ) (l : Loop) (ls : List Loop)
    → Listed n ls
    → find_loop k ls ≡ some l
    → (2 ≤ l.delay) × (l.delay ≤ 60)
unfolding find_loop
delay-find_loop k n l [] h e = cc
delay-find_loop k n l (x ∷ ls) h e = ground (arith, delay-find_loop k x.ctx l ls h.3)

wake-Inv : (k : ℕ) (w : Wake) (r : Reconnect) → Inv r → Inv (wake k w r)
unfolding wake
wake-Inv k w r h = elim (Option-cases (find_loop k r.loops)) [
  | inl e ↦ rw (e, wake) h
  | inr (l, e) ↦ elim (Option-cases (round w l)) [
    | inl stop ↦
        rw (e, wake)
          (rw stop (
            stop_reconnect-Inv _ (remove_loop-Listed k r.next_ctx r.loops h.listed)
              (remove_loop-OnlyCurrent r.cancel_retry k r.loops h.only_current)))
    | inr (m, go) ↦
        let (lo, hi) = delay-find_loop k r.next_ctx l r.loops h.listed e in
        let c = round-Continues w l m lo hi go in
        rw (e, wake)
          (rw go (record {
            listed = set_loop-Listed k r.next_ctx l m r.loops e c h.listed;
            only_current = set_loop-OnlyCurrent r.cancel_retry k l m r.loops e c h.only_current;
            current_runs = set_loop-CurrentRuns r.cancel_retry k l m r.loops e c h.current_runs;
          }))
  ]
]

step-Inv : (r : Reconnect) (x : Happening) → Inv r → Inv (step r x)
unfolding step
step-Inv r (starts b) h = start_reconnect_loop-Inv b r h
step-Inv r stops h = stop_reconnect-Inv r h.listed h.only_current
step-Inv r (wakes k w) h = wake-Inv k w r h

-- A state with the invariant keeps it under every schedule of starts, stops and wakes: the
-- contexts are distinct, the delays lie between 2 and 60 seconds, at most the current loop is not
-- cancelled, and while `cancelRetry` is set its loop does run.
pub run-Inv : (r : Reconnect) (hs : List Happening) → Inv r → Inv (run r hs)
unfolding run
run-Inv r [] h = h
run-Inv r (x ∷ hs) h = run-Inv (step r x) hs (step-Inv r x h)

pub idle-Inv : Inv idle
idle-Inv = record { listed = tt; only_current = tt; current_runs = tt }
