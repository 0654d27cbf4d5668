-- ===== src/Service/Threads/Follows.antt =====
-- daemon/dbus/service.go: the signals of `setStatus` where one goroutine alone sets statuses.
pub mod Single
use kha_app.Prelude.{
  ℕ, zero, suc, ◌≡◌, ◌≢◌, refl, sym, ap, ◌∙◌, inl, inr, Bool-cases, true, false, Option, none, some,
  List, [], ◌∷◌, ◌++◌, arith, Text,
}
use kha_app.Service.State.{Status, Signal, Service, connection_status_changed, same_status, emit}
use kha_app.Service.Told.{
  shown, Changes, Told, is_other, shown-snoc, Changes-snoc, shown-change, Changes-change,
  same_status_iff,
}
use kha_app.Service.Groups.{store_group, invalidate_group_info_cache}
use kha_app.Service.Avatars.{schedule_avatar_fetch}
use kha_app.Service.Threads.{
  Program, returns, sets_status, reads_status, emits, looks_up, stores, deletes, stats,
  removes_file, writes_file, schedules, unmarks, Thread, ready, status_set, act, advance, Pool,
  advance_at, interleave, drop_file, put_file, end_fetch,
}
use kha_app.Service.Threads.Plain.{Plain}

-- The signals tell the status, or the one goroutine is about to signal it.
abbrev pub Follows : Option Status → Service → Type 0
Follows none m = Told m
Follows (some s) m =
    (m.status ≡ s)
    × (s ≢ shown Status.disconnected m.signals)
    × Changes Status.disconnected m.signals

-- What keeps both.
Follows-same :
    (o : Option Status) (m n : Service)
    → n.status ≡ m.status
    → n.signals ≡ m.signals
    → Follows o m
    → Follows o n
Follows-same none m n e f h = record {
  is_shown = rw (e, f) h.is_shown;
  are_changes = rw f h.are_changes;
}
Follows-same (some s) m n e f h = rw (e, f) h

Follows-emit :
    (o : Option Status) (x : Signal) (m : Service)
    → is_other x ≡ true
    → Follows o m
    → Follows o (emit x m)
unfolding emit
Follows-emit none x m k h = record {
  is_shown = shown-snoc Status.disconnected m.signals x k ∙ h.is_shown;
  are_changes = Changes-snoc Status.disconnected m.signals x k h.are_changes;
}
Follows-emit (some s) x m k h = (
  h.0,
  rw (shown-snoc Status.disconnected m.signals x k) h.1,
  Changes-snoc Status.disconnected m.signals x k h.2,
)

-- The pending signal is emitted.
Follows-told :
    (s : Status) (m : Service) → Follows (some s) m → Told (emit (connection_status_changed s) m)
unfolding emit
Follows-told s m h = record {
  is_shown = shown-change Status.disconnected s m.signals ∙ sym h.0;
  are_changes = Changes-change Status.disconnected s m.signals h.1 h.2;
}

-- A program that sets no status and does not signal one.
abbrev pub Quiet : Program Unit → Type 0
Quiet (returns a) = Unit
Quiet (sets_status s p) = ⊥
Quiet (reads_status f) = (s : Status) → Quiet (f s)
Quiet (emits x p) = (is_other x ≡ true) × Quiet p
Quiet (looks_up jid now f) = (o : _) → Quiet (f o)
Quiet (stores jid info later p) = Quiet p
Quiet (deletes jid p) = Quiet p
Quiet (stats path f) = (o : _) → Quiet (f o)
Quiet (removes_file path p) = Quiet p
Quiet (writes_file path now p) = Quiet p
Quiet (schedules jid p) = Quiet p
Quiet (unmarks jid p) = Quiet p

scheduled-same :
    (jid : Text) (m : Service)
    → ((schedule_avatar_fetch jid m).status ≡ m.status)
      × ((schedule_avatar_fetch jid m).signals ≡ m.signals)
unfolding schedule_avatar_fetch
scheduled-same jid m = ground arith

pub record StaysQuiet (o : Option Status) (r : Thread × Service) : Type 0 where
  pub follows : Follows o r.1
  pub quiet : Quiet r.0.rest
  pub settled : r.0.pending ≡ none

pub act-StaysQuiet :
    (o : Option Status) (p : Program Unit) (m : Service)
    → Quiet p
    → Follows o m
    → StaysQuiet o (act p m)
unfolding act store_group invalidate_group_info_cache drop_file put_file end_fetch
act-StaysQuiet o (returns a) m q h = record { follows = h; quiet = q; settled = refl }
act-StaysQuiet o (sets_status s p) m q h = absurd q
act-StaysQuiet o (reads_status f) m q h = record { follows = h; quiet = q _; settled = refl }
act-StaysQuiet o (emits x p) m q h = record {
  follows = Follows-emit o x m q.0 h;
  quiet = q.1;
  settled = refl;
}
act-StaysQuiet o (looks_up jid now f) m q h = record { follows = h; quiet = q _; settled = refl }
act-StaysQuiet o (stores jid info later p) m q h = record {
  follows = Follows-same o m _ refl refl h;
  quiet = q;
  settled = refl;
}
act-StaysQuiet o (deletes jid p) m q h = record {
  follows = Follows-same o m _ refl refl h;
  quiet = q;
  settled = refl;
}
act-StaysQuiet o (stats path f) m q h = record { follows = h; quiet = q _; settled = refl }
act-StaysQuiet o (removes_file path p) m q h = record {
  follows = Follows-same o m _ refl refl h;
  quiet = q;
  settled = refl;
}
act-StaysQuiet o (writes_file path now p) m q h = record {
  follows = Follows-same o m _ refl refl h;
  quiet = q;
  settled = refl;
}
act-StaysQuiet o (schedules jid p) m q h = record {
  follows = Follows-same o m _ (scheduled-same jid m).0 (scheduled-same jid m).1 h;
  quiet = q;
  settled = refl;
}
act-StaysQuiet o (unmarks jid p) m q h = record {
  follows = Follows-same o m _ refl refl h;
  quiet = q;
  settled = refl;
}

-- The goroutine that sets statuses.
pub record Leads (r : Thread × Service) : Type 0 where
  pub follows : Follows r.0.pending r.1
  pub plain : Plain r.0.rest

status_set-Leads :
    (s : Status) (p : Program Unit) (m : Service) → Plain p → Told m → Leads (status_set s p m)
status_set-Leads s p m q h = elim (Bool-cases (same_status m.status s)) [
  | inl e ↦ rw e (record { follows = h; plain = q })
  | inr e ↦ rw e (record {
    follows = (refl, (λ k. ground (arith, same_status_iff m.status s, h.is_shown)), h.are_changes);
    plain = q;
  })
]

act-Leads : (p : Program Unit) (m : Service) → Plain p → Told m → Leads (act p m)
unfolding act store_group invalidate_group_info_cache drop_file put_file end_fetch
act-Leads (returns a) m q h = record { follows = h; plain = q }
act-Leads (sets_status s p) m q h = status_set-Leads s p m q h
act-Leads (reads_status f) m q h = record { follows = h; plain = q _ }
act-Leads (emits x p) m q h = record { follows = Follows-emit none x m q.0 h; plain = q.1 }
act-Leads (looks_up jid now f) m q h = record { follows = h; plain = q _ }
act-Leads (stores jid info later p) m q h = record {
  follows = Follows-same none m _ refl refl h;
  plain = q;
}
act-Leads (deletes jid p) m q h = record { follows = Follows-same none m _ refl refl h; plain = q }
act-Leads (stats path f) m q h = record { follows = h; plain = q _ }
act-Leads (removes_file path p) m q h = record {
  follows = Follows-same none m _ refl refl h;
  plain = q;
}
act-Leads (writes_file path now p) m q h = record {
  follows = Follows-same none m _ refl refl h;
  plain = q;
}
act-Leads (schedules jid p) m q h = record {
  follows = Follows-same none m _ (scheduled-same jid m).0 (scheduled-same jid m).1 h;
  plain = q;
}
act-Leads (unmarks jid p) m q h = record { follows = Follows-same none m _ refl refl h; plain = q }

pub advance-Leads : (t : Thread) (m : Service) → Leads (t, m) → Leads (advance t m)
unfolding advance
advance-Leads t m h = from t.pending h.follows
  where
    from :
        (o : Option Status)
        → Follows o m
        → Leads (advance (record { pending = o; rest = t.rest }) m)
    from none f = act-Leads t.rest m h.plain f
    from (some s) f = record { follows = Follows-told s m f; plain = h.plain }
