-- ===== src/Service/Threads.antt =====
-- daemon/dbus/service.go: what one lock or one call of another component guards, as the single
-- actions of a goroutine. A goroutine is a `Program` of these actions; between two of them the
-- other goroutines run.
pub mod Programs
pub mod Loops
pub mod Alone
pub mod Plain
pub mod Signalled
pub mod Overtaken
pub mod Follows
use kha_app.Prelude.{ℕ, zero, suc, Bool, Option, none, some, List, [], ◌∷◌, Text, if◌then◌else◌}
use kha_app.Prelude.Dict.{lookup, remove}
use kha_app.Service.State.{
  Status, Signal, GroupInfo, File, Service, connection_status_changed, same_status, emit,
  set_status,
}
use kha_app.Service.Groups.{fresh, store_group, invalidate_group_info_cache}
use kha_app.Service.Avatars.{stat, remove_file, write_file, schedule_avatar_fetch}

-- `A` is what the function returns. `schedules` stands for the locked part of
-- `scheduleAvatarFetch`, which may start a goroutine, `unmarks` for that goroutine's end.
pub data Program (A : Type 0) : Type 0 where
  returns : A → Program A
  sets_status : Status → Program A → Program A
  reads_status : (Status → Program A) → Program A
  emits : Signal → Program A → Program A
  looks_up : Text → ℕ → (Option GroupInfo → Program A) → Program A
  stores : Text → GroupInfo → ℕ → Program A → Program A
  deletes : Text → Program A → Program A
  stats : Text → (Option File → Program A) → Program A
  removes_file : Text → Program A → Program A
  writes_file : Text → ℕ → Program A → Program A
  schedules : Text → Program A → Program A
  unmarks : Text → Program A → Program A

-- One function calls another.
infixl 5 ◌>>=◌
abbrev pub ◌>>=◌ : {A B : Type 0} → Program A → (A → Program B) → Program B
returns a >>= k = k a
sets_status s p >>= k = sets_status s (p >>= k)
reads_status f >>= k = reads_status (λ s. f s >>= k)
emits x p >>= k = emits x (p >>= k)
looks_up jid now f >>= k = looks_up jid now (λ c. f c >>= k)
stores jid info later p >>= k = stores jid info later (p >>= k)
deletes jid p >>= k = deletes jid (p >>= k)
stats path f >>= k = stats path (λ c. f c >>= k)
removes_file path p >>= k = removes_file path (p >>= k)
writes_file path now p >>= k = writes_file path now (p >>= k)
schedules jid p >>= k = schedules jid (p >>= k)
unmarks jid p >>= k = unmarks jid (p >>= k)

unfoldable pub drop_file : Text → Service → Service
unfolding remove_file
drop_file path m = record m { files = remove_file path m.files }

unfoldable pub put_file : Text → ℕ → Service → Service
unfolding write_file
put_file path now m = record m { files = write_file path now m.files }

unfoldable pub end_fetch : Text → Service → Service
unfolding remove
end_fetch jid m = record m {
  avatar_downloads = remove jid m.avatar_downloads;
  fetches = remove jid m.fetches;
}

-- A program that nothing interrupts.
unfoldable pub alone : {A : Type 0} → Program A → Service → A × Service
unfolding lookup set_status emit store_group invalidate_group_info_cache stat drop_file put_file
    schedule_avatar_fetch end_fetch
alone (returns a) m = (a, m)
alone (sets_status s p) m = alone p (set_status s m)
alone (reads_status f) m = alone (f m.status) m
alone (emits x p) m = alone p (emit x m)
alone (looks_up jid now f) m = alone (f (fresh now (lookup jid m.group_info_cache))) m
alone (stores jid info later p) m = alone p (store_group jid info later m)
alone (deletes jid p) m = alone p (invalidate_group_info_cache jid m)
alone (stats path f) m = alone (f (stat path m.files)) m
alone (removes_file path p) m = alone p (drop_file path m)
alone (writes_file path now p) m = alone p (put_file path now m)
alone (schedules jid p) m = alone p (schedule_avatar_fetch jid m)
alone (unmarks jid p) m = alone p (end_fetch jid m)

-- A goroutine: `pending` is a status that `setStatus` has set and, the lock being released, has not
-- emitted yet.
pub record Thread : Type 0 where
  pub pending : Option Status
  pub rest : Program Unit

abbrev pub ready : Program Unit → Thread
ready p = record { pending = none; rest = p }

-- The locked part of `setStatus`.
abbrev pub status_set : Status → Program Unit → Service → Thread × Service
status_set s p m =
    if same_status m.status s
    then (ready p, m)
    else (record { pending = some s; rest = p }, record m { status = s })

-- One action of a program.
unfoldable pub act : Program Unit → Service → Thread × Service
unfolding lookup emit store_group invalidate_group_info_cache stat drop_file put_file
    schedule_avatar_fetch end_fetch
act (returns a) m = (ready (returns a), m)
act (sets_status s p) m = status_set s p m
act (reads_status f) m = (ready (f m.status), m)
act (emits x p) m = (ready p, emit x m)
act (looks_up jid now f) m = (ready (f (fresh now (lookup jid m.group_info_cache))), m)
act (stores jid info later p) m = (ready p, store_group jid info later m)
act (deletes jid p) m = (ready p, invalidate_group_info_cache jid m)
act (stats path f) m = (ready (f (stat path m.files)), m)
act (removes_file path p) m = (ready p, drop_file path m)
act (writes_file path now p) m = (ready p, put_file path now m)
act (schedules jid p) m = (ready p, schedule_avatar_fetch jid m)
act (unmarks jid p) m = (ready p, end_fetch jid m)

unfoldable pub advance : Thread → Service → Thread × Service
unfolding act emit
advance t m = elim t.pending [
  | some s ↦ (ready t.rest, emit (connection_status_changed s) m)
  | none ↦ act t.rest m
]

-- The goroutines, oldest last, with the service that they share.
pub record Pool : Type 0 where
  pub threads : List Thread
  pub service : Service

abbrev pub with_thread : Thread → Pool → Pool
with_thread t p = record p { threads = t ∷ p.threads }

abbrev pub moved : List Thread → Thread × Service → Pool
moved ts (t, m) = record { threads = t ∷ ts; service = m }

-- The goroutine with this number does one action.
unfoldable pub advance_at : ℕ → List Thread → Service → Pool
unfolding advance
advance_at i [] m = record { threads = []; service = m }
advance_at zero (t ∷ ts) m = moved ts (advance t m)
advance_at (suc i) (t ∷ ts) m = with_thread t (advance_at i ts m)

-- The numbers in the schedule say whose turn it is.
unfoldable pub interleave : List ℕ → Pool → Pool
unfolding advance_at
interleave [] p = p
interleave (i ∷ is) p = interleave is (advance_at i p.threads p.service)
