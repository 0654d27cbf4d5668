-- ===== src/Main/Start/Completes.antt =====
-- Which answers let `main` start, serve and return.
use kha_app.Prelude.{◌≡◌, ◌↔◌, refl, arith, none, some, List, Text}
use kha_app.Prelude.Result.{Result, ok, err, Outcome}
use kha_app.Main.{resolve_store_path, message_store_path}
use kha_app.Main.Start.{
  Effect, reads_first_device, NameReply, primary_owner, StartAnswers, Calls, call, done,
  init_or_close, new_store, new_message_store, owned, connect_session_bus, export, Exit, returns,
  or_fatal, main_at, main_with, logged, main,
}
use kha_app.Main.Start.Ordered.{Runs, all_calls, main-Runs}

-- Every call is answered without an error, and the bus name is this process's own.
pub record AllWork (a : StartAnswers) : Type 0 where
  pub logger : a.logger ≡ none
  pub path : (p : Text) × (resolve_store_path a.env ≡ ok p)
  pub store_dir : a.store_dir ≡ none
  pub store : a.store ≡ none
  pub message_dir : a.message_dir ≡ none
  pub database : a.database ≡ none
  pub schema : a.schema ≡ none
  pub first_device : a.first_device ≡ none
  pub bus : a.bus ≡ none
  pub name : a.name ≡ ok primary_owner
  pub export_service : a.export_service ≡ none
  pub export_introspection : a.export_introspection ≡ none

call_lem :
    (e : Effect) (o : Outcome) (c : Calls) → ((call e o c).1 ≡ none) ↔ ((o ≡ none) × (c.1 ≡ none))
call_lem e o c = ground arith

or_fatal_lem :
    (text : Text) (c : Calls) (r : List Effect × Exit)
    → ((or_fatal text c r).1 ≡ returns) ↔ ((c.1 ≡ none) × (r.1 ≡ returns))
or_fatal_lem text c r = ground arith

owned_lem : (r : Result NameReply) → ((owned r).1 ≡ none) ↔ (r ≡ ok primary_owner)
owned_lem r = ground arith

init_or_close_lem : (o : Outcome) → ((init_or_close o).1 ≡ none) ↔ (o ≡ none)
init_or_close_lem o = ground arith

new_store_lem :
    (a : StartAnswers) (p : Text)
    → ((new_store a p).1 ≡ none) ↔ ((a.store_dir ≡ none) × (a.store ≡ none))
unfolding new_store
new_store_lem a p = ground arith

new_message_store_lem :
    (a : StartAnswers) (p : Text)
    → ((new_message_store a p).1 ≡ none)
      ↔ ((a.message_dir ≡ none) × (a.database ≡ none) × (a.schema ≡ none))
unfolding new_message_store
new_message_store_lem a p = ground arith

connect_session_bus_lem :
    (a : StartAnswers)
    → ((connect_session_bus a).1 ≡ none) ↔ ((a.bus ≡ none) × (a.name ≡ ok primary_owner))
unfolding connect_session_bus
connect_session_bus_lem a = ground (arith, owned_lem a.name)

export_lem :
    (a : StartAnswers)
    → ((export a).1 ≡ none) ↔ ((a.export_service ≡ none) × (a.export_introspection ≡ none))
unfolding export
export_lem a = ground arith

-- The answers after the path of the store.
abbrev CallsWork : StartAnswers → Type 0
CallsWork a =
    ((a.store_dir ≡ none) × (a.store ≡ none))
    × ((a.message_dir ≡ none) × (a.database ≡ none) × (a.schema ≡ none))
    × (a.first_device ≡ none)
    × ((a.bus ≡ none) × (a.name ≡ ok primary_owner))
    × ((a.export_service ≡ none) × (a.export_introspection ≡ none))

main_at_to : (a : StartAnswers) (p : Text) → (main_at a p).1 ≡ returns → CallsWork a
unfolding main_at
main_at_to a p h =
    let s0 = (or_fatal_lem _ _ _).0 h in
    let s1 = (or_fatal_lem _ _ _).0 s0.1 in
    let s2 = (or_fatal_lem _ _ _).0 s1.1 in
    let s3 = (or_fatal_lem _ _ _).0 s2.1 in
    let s4 = (or_fatal_lem _ _ _).0 s3.1 in
    (
      (new_store_lem a p).0 s0.0,
      (new_message_store_lem a (message_store_path p)).0 s1.0,
      ((call_lem reads_first_device a.first_device done).0 s2.0).0,
      (connect_session_bus_lem a).0 s3.0,
      (export_lem a).0 s4.0,
    )

main_at_from : (a : StartAnswers) (p : Text) → CallsWork a → (main_at a p).1 ≡ returns
unfolding main_at
main_at_from a p (s, m, d, b, e) = (or_fatal_lem _ (new_store a p) _).1 (
  (new_store_lem a p).1 s,
  (or_fatal_lem _ (new_message_store a (message_store_path p)) _).1 (
    (new_message_store_lem a (message_store_path p)).1 m,
    (or_fatal_lem _ (call reads_first_device a.first_device done) _).1 (
      (call_lem reads_first_device a.first_device done).1 (d, refl),
      (or_fatal_lem _ (connect_session_bus a) _).1 (
        (connect_session_bus_lem a).1 b,
        (or_fatal_lem _ (export a) _).1 ((export_lem a).1 e, refl),
      ),
    ),
  ),
)

main_with_to :
    (a : StartAnswers) (r : Result Text)
    → (main_with a r).1 ≡ returns
    → ((p : Text) × (r ≡ ok p)) × CallsWork a
main_with_to a (err x) h = cc
main_with_to a (ok p) h = ((p, refl), main_at_to a p h)

logged_to :
    (a : StartAnswers) (o : Outcome)
    → (logged a o).1 ≡ returns
    → (o ≡ none) × (((p : Text) × (resolve_store_path a.env ≡ ok p)) × CallsWork a)
logged_to a (some x) h = cc
logged_to a none h = (refl, main_with_to a (resolve_store_path a.env) h)

works_from :
    (a : StartAnswers)
    → (a.logger ≡ none) × (((p : Text) × (resolve_store_path a.env ≡ ok p)) × CallsWork a)
    → AllWork a
works_from a (l, (path, (s, m, d, b, e))) = record {
  logger = l;
  path = path;
  store_dir = s.0;
  store = s.1;
  message_dir = m.0;
  database = m.1;
  schema = m.2;
  first_device = d;
  bus = b.0;
  name = b.1;
  export_service = e.0;
  export_introspection = e.1;
}

calls_work : (a : StartAnswers) → AllWork a → CallsWork a
calls_work a w = (
  (w.store_dir, w.store),
  (w.message_dir, w.database, w.schema),
  w.first_device,
  (w.bus, w.name),
  (w.export_service, w.export_introspection),
)

main-returns : (a : StartAnswers) → ((main a).1 ≡ returns) ↔ AllWork a
unfolding main
main-returns a = (
  (λ h. works_from a (logged_to a a.logger h)),
  (λ w. rw (w.logger, w.path.1) (main_at_from a w.path.0 (calls_work a w))),
)

-- Where the store's path resolves, `main` returns exactly if the logger, both databases with their
-- directories and schema, the device, the bus, its name and both exports are there. A process
-- that returns makes all its calls in their one order: the two databases are opened, the device is
-- read, the bus name is taken, the service is exported, the event loop runs, and after the signal
-- the reconnect loops are stopped and the client is disconnected before the databases and the bus
-- are closed. A process that ends in a panic or a fatal error makes the first of these calls, and
-- closes at most the database whose schema failed or the bus whose name is taken.
pub main_lem :
    (a : StartAnswers) (p : Text)
    → resolve_store_path a.env ≡ ok p
    → (((main a).1 ≡ returns) ↔ AllWork a) × Runs (all_calls p a.has_session) (main a)
main_lem a p h = (main-returns a, main-Runs a p h)
