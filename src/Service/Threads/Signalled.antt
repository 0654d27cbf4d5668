-- ===== src/Service/Threads/Signalled.antt =====
-- daemon/dbus/service.go: the signals of `setStatus`, whose lock is released before it emits, under
-- every interleaving of single actions.
use kha_app.Prelude.{
  ℕ, zero, suc, ◌+◌, ◌≡◌, refl, inl, inr, Bool-cases, true, Option, none, some, List, [], ◌∷◌, ◌++◌,
  map, arith, if◌then◌else◌,
}
use kha_app.Service.State.{
  Status, Signal, Service, connection_status_changed, same_status, emit, new_messenger_service,
}
use kha_app.Service.Told.{is_other}
use kha_app.Service.Groups.{store_group, invalidate_group_info_cache}
use kha_app.Service.Avatars.{schedule_avatar_fetch}
use kha_app.Service.Run.{Call}
use kha_app.Service.Threads.{
  Program, returns, sets_status, reads_status, emits, looks_up, stores, deletes, stats,
  removes_file, writes_file, schedules, unmarks, Thread, ready, advance, act, status_set, Pool,
  advance_at, interleave, drop_file, put_file, end_fetch,
}
use kha_app.Service.Threads.Loops.{program_of}
use kha_app.Service.Threads.Plain.{Plain}
use kha_app.Service.Threads.Plain.Calls.{program_of-Plain}

-- How often a status is among some.
abbrev pub times : Status → List Status → ℕ
times s [] = 0
times s (t ∷ r) = (if same_status t s then 1 else 0) + times s r

-- How often it was signalled.
abbrev pub told : Status → List Signal → ℕ
told s [] = 0
told s (connection_status_changed t ∷ r) = (if same_status t s then 1 else 0) + told s r
told s (_ ∷ r) = told s r

-- How many goroutines have set it and are still to signal it.
abbrev pub waits : Status → Option Status → ℕ
waits s none = 0
waits s (some t) = if same_status t s then 1 else 0

abbrev pub waiting : Status → List Thread → ℕ
waiting s [] = 0
waiting s (t ∷ ts) = waits s t.pending + waiting s ts

-- The statuses that the service takes, one after the other.
abbrev pub noted : Status → Status → List Status → List Status
noted s t r = if same_status s t then r else t ∷ r

abbrev pub taken : List ℕ → Pool → List Status
taken [] p = []
taken (i ∷ is) p =
    let q = advance_at i p.threads p.service in noted p.service.status q.service.status (taken is q)

abbrev pub AllPlain : List Thread → Type 0
AllPlain [] = Unit
AllPlain (t ∷ ts) = Plain t.rest × AllPlain ts

told-snoc :
    (s : Status) (r : List Signal) (x : Signal) → told s (r ++ x ∷ []) ≡ told s r + told s (x ∷ [])
told-snoc s [] x = omega arith
told-snoc s (connection_status_changed t ∷ r) x = ground (arith, told-snoc s r x)
told-snoc s (_ ∷ r) x = told-snoc s r x

told-other : (s : Status) (x : Signal) → is_other x ≡ true → told s (x ∷ []) ≡ 0
told-other s x h = ground arith

same_status_refl : (s : Status) → same_status s s ≡ true
same_status_refl s = ground arith

-- What an action of a goroutine does to the counts.
record Counts (s : Status) (t : Thread) (m : Service) (r : Thread × Service) : Type 0 where
  counts :
      times s (noted m.status r.1.status []) + (told s m.signals + waits s t.pending)
      ≡ told s r.1.signals + waits s r.0.pending
  plain : Plain r.0.rest

-- Nothing of the status.
same-Counts :
    (s : Status) (p q : Program Unit) (m n : Service)
    → n.status ≡ m.status
    → n.signals ≡ m.signals
    → Plain q
    → Counts s (ready p) m (ready q, n)
same-Counts s p q m n e f h = record {
  counts = rw (e, f, same_status_refl m.status) (omega arith);
  plain = h;
}

status_set-Counts :
    (s u : Status) (p : Program Unit) (m : Service)
    → Plain p
    → Counts s (ready (sets_status u p)) m (status_set u p m)
status_set-Counts s u p m h = elim (Bool-cases (same_status m.status u)) [
  | inl e ↦ rw e (same-Counts s (sets_status u p) p m m refl refl h)
  | inr e ↦ rw e (record { counts = rw e (omega arith); plain = h })
]

emits-Counts :
    (s : Status) (x : Signal) (p : Program Unit) (m : Service)
    → is_other x ≡ true
    → Plain p
    → Counts s (ready (emits x p)) m (ready p, emit x m)
unfolding emit
emits-Counts s x p m o h = record {
  counts = rw (same_status_refl m.status, told-snoc s m.signals x, told-other s x o) (omega arith);
  plain = h;
}

scheduled-same :
    (jid : _) (m : Service)
    → ((schedule_avatar_fetch jid m).status ≡ m.status)
      × ((schedule_avatar_fetch jid m).signals ≡ m.signals)
unfolding schedule_avatar_fetch
scheduled-same jid m = ground arith

act-Counts :
    (s : Status) (p : Program Unit) (m : Service) → Plain p → Counts s (ready p) m (act p m)
unfolding act store_group invalidate_group_info_cache drop_file put_file end_fetch
act-Counts s (returns a) m h = same-Counts s _ _ m m refl refl tt
act-Counts s (sets_status u p) m h = status_set-Counts s u p m h
act-Counts s (reads_status f) m h = same-Counts s _ _ m m refl refl (h _)
act-Counts s (emits x p) m h = emits-Counts s x p m h.0 h.1
act-Counts s (looks_up jid now f) m h = same-Counts s _ _ m m refl refl (h _)
act-Counts s (stores jid info later p) m h = same-Counts s _ _ m _ refl refl h
act-Counts s (deletes jid p) m h = same-Counts s _ _ m _ refl refl h
act-Counts s (stats path f) m h = same-Counts s _ _ m m refl refl (h _)
act-Counts s (removes_file path p) m h = same-Counts s _ _ m _ refl refl h
act-Counts s (writes_file path now p) m h = same-Counts s _ _ m _ refl refl h
act-Counts s (schedules jid p) m h =
    same-Counts s _ _ m _ (scheduled-same jid m).0 (scheduled-same jid m).1 h
act-Counts s (unmarks jid p) m h = same-Counts s _ _ m _ refl refl h

advance-Counts : (s : Status) (t : Thread) (m : Service) → Plain t.rest → Counts s t m (advance t m)
unfolding advance emit
advance-Counts s t m h = from t.pending refl
  where
    from : (o : Option Status) → t.pending ≡ o → Counts s t m (advance t m)
    from none e = rw (e, advance) (act-Counts s t.rest m h)
    from (some u) e =
        rw (e, advance)
          (record {
            counts =
                rw (same_status_refl m.status, told-snoc s m.signals (connection_status_changed u))
                  (omega arith);
            plain = h;
          })

record PoolCounts (s : Status) (ts : List Thread) (m : Service) (q : Pool) : Type 0 where
  counts :
      times s (noted m.status q.service.status []) + (told s m.signals + waiting s ts)
      ≡ told s q.service.signals + waiting s q.threads
  plain : AllPlain q.threads

advance_at-Counts :
    (s : Status) (i : ℕ) (ts : List Thread) (m : Service)
    → AllPlain ts
    → PoolCounts s ts m (advance_at i ts m)
unfolding advance_at
advance_at-Counts s i [] m h = record {
  counts = rw (same_status_refl m.status) (omega arith);
  plain = tt;
}
advance_at-Counts s zero (t ∷ ts) m h =
    let c = advance-Counts s t m h.0 in
    record { counts = omega (arith, c.counts); plain = (c.plain, h.1) }
advance_at-Counts s (suc i) (t ∷ ts) m h =
    let c = advance_at-Counts s i ts m h.1 in
    record { counts = omega (arith, c.counts); plain = (h.0, c.plain) }

times-noted :
    (s t u : Status) (r : List Status) → times s (noted t u r) ≡ times s (noted t u []) + times s r
times-noted s t u r = ground arith

interleave-Counts :
    (s : Status) (is : List ℕ) (p : Pool)
    → AllPlain p.threads
    → times s (taken is p) + (told s p.service.signals + waiting s p.threads)
      ≡ told s (interleave is p).service.signals + waiting s (interleave is p).threads
unfolding interleave
interleave-Counts s [] p h = omega arith
interleave-Counts s (i ∷ is) p h =
    let q = advance_at i p.threads p.service in
    let c = advance_at-Counts s i p.threads p.service h in
    rw (times-noted s p.service.status q.service.status (taken is q))
      (omega (arith, c.counts, interleave-Counts s is q c.plain))

-- One goroutine for each call, none of which has begun.
abbrev pub goroutines : List Call → Pool
goroutines cs = record {
  threads = map (λ c. ready (program_of c)) cs;
  service = new_messenger_service;
}

goroutines-AllPlain : (cs : List Call) → AllPlain (map (λ c. ready (program_of c)) cs)
goroutines-AllPlain [] = tt
goroutines-AllPlain (c ∷ cs) = (program_of-Plain c, goroutines-AllPlain cs)

waiting-goroutines :
    (s : Status) (cs : List Call) → waiting s (map (λ c. ready (program_of c)) cs) ≡ 0
waiting-goroutines s [] = refl
waiting-goroutines s (c ∷ cs) = omega (arith, waiting-goroutines s cs)

-- From a new service on, whatever calls run as goroutines and however their single actions
-- interleave, each status was signalled exactly as often as the service took it, less the
-- goroutines that have set it and are still to signal it.
pub interleave-times :
    (cs : List Call) (is : List ℕ) (s : Status)
    → times s (taken is (goroutines cs))
      ≡ told s (interleave is (goroutines cs)).service.signals
        + waiting s (interleave is (goroutines cs)).threads
unfolding new_messenger_service
interleave-times cs is s = omega (
  arith,
  interleave-Counts s is (goroutines cs) (goroutines-AllPlain cs),
  waiting-goroutines s cs,
)
