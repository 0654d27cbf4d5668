-- ===== src/Service/Threads/Follows/Single.antt =====
-- daemon/dbus/service.go: any goroutines of which one alone sets statuses.
use kha_app.Prelude.{ℕ, zero, suc, ◌≡◌, ◌≢◌, refl, Option, none, List, [], ◌∷◌, map, All}
use kha_app.Service.State.{Status, Service, new_messenger_service}
use kha_app.Service.Told.{Told}
use kha_app.Service.Threads.{Program, Thread, ready, advance, Pool, advance_at, interleave}
use kha_app.Service.Threads.Plain.{Plain}
use kha_app.Service.Threads.Follows.{
  Follows, Quiet, StaysQuiet, act-StaysQuiet, Leads, advance-Leads,
}

abbrev AllQuiet : List Thread → Type 0
AllQuiet [] = Unit
AllQuiet (t ∷ ts) = ((t.pending ≡ none) × Quiet t.rest) × AllQuiet ts

advance-StaysQuiet :
    (o : Option Status) (t : Thread) (m : Service)
    → (t.pending ≡ none) × Quiet t.rest
    → Follows o m
    → StaysQuiet o (advance t m)
unfolding advance
advance-StaysQuiet o t m q h = rw (q.0, advance) (act-StaysQuiet o t.rest m q.1 h)

advance_at-Follows :
    (o : Option Status) (i : ℕ) (ts : List Thread) (m : Service)
    → AllQuiet ts
    → Follows o m
    → Follows o (advance_at i ts m).service × AllQuiet (advance_at i ts m).threads
unfolding advance_at
advance_at-Follows o i [] m q h = (h, tt)
advance_at-Follows o zero (t ∷ ts) m q h =
    let s = advance-StaysQuiet o t m q.0 h in (s.follows, ((s.settled, s.quiet), q.1))
advance_at-Follows o (suc i) (t ∷ ts) m q h =
    let (f, r) = advance_at-Follows o i ts m q.1 h in (f, (q.0, r))

-- The first goroutine leads.
abbrev pub Led : List Thread → Service → Type 0
Led [] m = Unit
Led (t ∷ ts) m = Leads (t, m) × AllQuiet ts

advance_at-Led :
    (i : ℕ) (ts : List Thread) (m : Service)
    → Led ts m
    → Led (advance_at i ts m).threads (advance_at i ts m).service
unfolding advance_at
advance_at-Led i [] m h = tt
advance_at-Led zero (t ∷ ts) m h = (advance-Leads t m h.0, h.1)
advance_at-Led (suc i) (t ∷ ts) m h =
    let (f, r) = advance_at-Follows t.pending i ts m h.1 h.0.follows in
    (record { follows = f; plain = h.0.plain }, r)

interleave-Led :
    (is : List ℕ) (p : Pool)
    → Led p.threads p.service
    → Led (interleave is p).threads (interleave is p).service
unfolding interleave
interleave-Led [] p h = h
interleave-Led (i ∷ is) p h =
    interleave-Led is (advance_at i p.threads p.service) (advance_at-Led i p.threads p.service h)

ready-AllQuiet : (ps : List (Program Unit)) → All Quiet ps → AllQuiet (map ready ps)
ready-AllQuiet [] h = tt
ready-AllQuiet (p ∷ ps) h = ((refl, h.0), ready-AllQuiet ps h.1)

-- Nothing is between its lock and its signal.
abbrev pub Settled : List Thread → Type 0
Settled [] = Unit
Settled (t ∷ ts) = (t.pending ≡ none) × Settled ts

Led-Settled : (ts : List Thread) (m : Service) → ts ≢ [] → Led ts m → Settled ts → Told m
Led-Settled [] m n h s = absurd (n refl)
Led-Settled (t ∷ ts) m n h s = rw s.0 at h.0.follows

threads-advance_at :
    (i : ℕ) (ts : List Thread) (m : Service) → ts ≢ [] → (advance_at i ts m).threads ≢ []
unfolding advance_at
threads-advance_at i [] m n e = n refl
threads-advance_at zero (t ∷ ts) m n e = cc
threads-advance_at (suc i) (t ∷ ts) m n e = cc

threads-interleave : (is : List ℕ) (p : Pool) → p.threads ≢ [] → (interleave is p).threads ≢ []
unfolding interleave
threads-interleave [] p n = n
threads-interleave (i ∷ is) p n =
    threads-interleave is (advance_at i p.threads p.service)
      (threads-advance_at i p.threads p.service n)

-- Where one goroutine alone sets statuses and emits `ConnectionStatusChanged` through `setStatus`,
-- and the others do neither, then from a new service on, however their single actions interleave,
-- whenever no signal of `setStatus` is still to come, the last `ConnectionStatusChanged` carries the
-- current status ("disconnected" before the first), and no such signal repeats the status that was
-- known before it.
pub interleave-Told :
    (is : List ℕ) (p : Program Unit) (ps : List (Program Unit)) (q : Pool)
    → Plain p
    → All Quiet ps
    → interleave is (record { threads = map ready (p ∷ ps); service = new_messenger_service }) ≡ q
    → Settled q.threads
    → Told q.service
unfolding new_messenger_service
interleave-Told is p ps q h k e s =
    let start : Pool = record { threads = map ready (p ∷ ps); service = new_messenger_service } in
    let led = interleave-Led is start (
      record { follows = record { is_shown = refl; are_changes = tt }; plain = h },
      ready-AllQuiet ps k,
    ) in
    let started = threads-interleave is start (λ x. cc) in
    Led-Settled q.threads q.service (rw e at started) (rw e at led) s
