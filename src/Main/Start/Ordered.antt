-- ===== src/Main/Start/Ordered.antt =====
-- The order of the calls of `main`, whichever of them fails.
use mathlib.Core.List.{append_assoc}
use kha_app.Prelude.{
  ◌≡◌, refl, ap, ◌∙◌, Bool, true, false, none, some, List, [], ◌∷◌, ◌++◌, Text, codes,
}
use kha_app.Prelude.Result.{Result, ok, err, Outcome, ok_inj}
use kha_app.Main.{resolve_store_path, dir, message_store_path}
use kha_app.Service.Interface.{service_name, object_path, interface_name}
use kha_app.Main.Start.{
  Effect, makes_dir, opens_store, opens_database, makes_schema, reads_first_device, connects_bus,
  requests_name, exports, starts_event_loop, auto_connects, stops_reconnect, disconnects,
  closes_database, closes_store, closes_bus, NameReply, primary_owner, StartAnswers, Calls, call,
  done, data_source, init_or_close, new_store, new_message_store, owned, connect_session_bus,
  export, Exit, panics, fatal, returns, or_fatal, serving, main_at, main_with, logged, main,
}

-- What an error leaves to be closed at once: nothing, the database, or the bus.
pub data IsCleanup : List Effect → Type 0 where
  none_to_close : IsCleanup []
  database_to_close : IsCleanup (closes_database ∷ [])
  bus_to_close : IsCleanup (closes_bus ∷ [])

-- The calls are the first of the full list, and then what is closed at once.
pub record Begins (full es : List Effect) : Type 0 where
  pub made : List Effect
  pub left : List Effect
  pub closed : List Effect
  pub splits : full ≡ made ++ left
  pub are_calls : es ≡ made ++ closed
  pub cleans : IsCleanup closed

-- A function that makes all its calls, or returns an error after the first of them.
abbrev Follows : List Effect → Calls → Type 0
Follows full (es, none) = es ≡ full
Follows full (es, some x) = Begins full es

abbrev pub Runs : List Effect → List Effect × Exit → Type 0
Runs full (es, returns) = es ≡ full
Runs full (es, _) = Begins full es

nothing_begun : (full : List Effect) → Begins full []
nothing_begun full = record {
  made = [];
  left = full;
  closed = [];
  splits = refl;
  are_calls = refl;
  cleans = none_to_close;
}

Begins-cons : (e : Effect) (full es : List Effect) → Begins full es → Begins (e ∷ full) (e ∷ es)
Begins-cons e full es b = record {
  made = e ∷ b.made;
  left = b.left;
  closed = b.closed;
  splits = ap (λ l. e ∷ l) b.splits;
  are_calls = ap (λ l. e ∷ l) b.are_calls;
  cleans = b.cleans;
}

Begins-append : (full more es : List Effect) → Begins full es → Begins (full ++ more) es
Begins-append full more es b = record {
  made = b.made;
  left = b.left ++ more;
  closed = b.closed;
  splits = ap (λ (l : List Effect). l ++ more) b.splits ∙ append_assoc b.made b.left more;
  are_calls = b.are_calls;
  cleans = b.cleans;
}

Begins-after : (first full es : List Effect) → Begins full es → Begins (first ++ full) (first ++ es)
Begins-after [] full es b = b
Begins-after (e ∷ first) full es b =
    Begins-cons e (first ++ full) (first ++ es) (Begins-after first full es b)

call-Follows :
    (e : Effect) (o : Outcome) (full : List Effect) (c : Calls)
    → Follows full c
    → Follows (e ∷ full) (call e o c)
call-Follows e (some x) full c h = Begins-cons e full [] (nothing_begun full)
call-Follows e none full (es, none) h = ap (λ l. e ∷ l) h
call-Follows e none full (es, some x) h = Begins-cons e full es h

or_fatal-Runs :
    (text : Text) (first full : List Effect) (c : Calls) (r : List Effect × Exit)
    → Follows first c
    → Runs full r
    → Runs (first ++ full) (or_fatal text c r)
or_fatal-Runs text first full (es, some x) r h k = Begins-append first full es h
or_fatal-Runs text first full (es, none) (fs, returns) h k = rw (h, k) refl
or_fatal-Runs text first full (es, none) (fs, fatal t) h k = rw h (Begins-after first full fs k)
or_fatal-Runs text first full (es, none) (fs, panics t) h k = rw h (Begins-after first full fs k)

-- The calls of a start without errors.
abbrev store_calls : Text → List Effect
store_calls p = makes_dir (dir p) ∷ opens_store (data_source p) ∷ []

abbrev message_store_calls : Text → List Effect
message_store_calls p = makes_dir (dir p) ∷ opens_database p ∷ makes_schema ∷ []

abbrev bus_calls : List Effect
bus_calls = connects_bus ∷ requests_name service_name ∷ []

abbrev export_calls : List Effect
export_calls =
    exports object_path interface_name
    ∷ exports object_path (codes "org.freedesktop.DBus.Introspectable")
    ∷ []

-- After the signal: the reconnect loops, by the service and by the client, and the connection, then
-- the two databases, then the bus.
abbrev ending : List Effect
ending =
    stops_reconnect ∷ stops_reconnect ∷ disconnects ∷ closes_database ∷ closes_store ∷ closes_bus
    ∷ []

-- The service, which connects by itself only where it has a session.
abbrev service_calls : Bool → List Effect
service_calls true = starts_event_loop ∷ auto_connects ∷ ending
service_calls false = starts_event_loop ∷ ending

-- All calls of a process that starts, serves and shuts down.
abbrev pub all_calls : Text → Bool → List Effect
all_calls p has_session =
    store_calls p
    ++ (message_store_calls (message_store_path p)
        ++ (reads_first_device ∷ [])
        ++ (bus_calls ++ (export_calls ++ service_calls has_session)))

serving-calls : (b : Bool) → Runs (service_calls b) (serving b)
serving-calls true = refl
serving-calls false = refl

init_or_close-Follows : (o : Outcome) → Follows (makes_schema ∷ []) (init_or_close o)
init_or_close-Follows none = refl
init_or_close-Follows (some x) = record {
  made = makes_schema ∷ [];
  left = [];
  closed = closes_database ∷ [];
  splits = refl;
  are_calls = refl;
  cleans = database_to_close;
}

owned-Follows : (r : Result NameReply) → Follows [] (owned r)
owned-Follows (err x) = nothing_begun []
owned-Follows (ok primary_owner) = refl
owned-Follows (ok _) = record {
  made = [];
  left = [];
  closed = closes_bus ∷ [];
  splits = refl;
  are_calls = refl;
  cleans = bus_to_close;
}

new_store-Follows : (a : StartAnswers) (p : Text) → Follows (store_calls p) (new_store a p)
unfolding new_store
new_store-Follows a p =
    call-Follows (makes_dir (dir p)) a.store_dir _ _
      (call-Follows (opens_store (data_source p)) a.store _ _ refl)

new_message_store-Follows :
    (a : StartAnswers) (p : Text) → Follows (message_store_calls p) (new_message_store a p)
unfolding new_message_store
new_message_store-Follows a p =
    call-Follows (makes_dir (dir p)) a.message_dir _ _
      (call-Follows (opens_database p) a.database _ _ (init_or_close-Follows a.schema))

connect_session_bus-Follows : (a : StartAnswers) → Follows bus_calls (connect_session_bus a)
unfolding connect_session_bus
connect_session_bus-Follows a =
    call-Follows connects_bus a.bus _ _
      (call-Follows (requests_name service_name) none _ _ (owned-Follows a.name))

export-Follows : (a : StartAnswers) → Follows export_calls (export a)
unfolding export
export-Follows a = call-Follows (exports object_path interface_name) a.export_service _ _ (
    call-Follows (exports object_path (codes "org.freedesktop.DBus.Introspectable"))
      a.export_introspection _ _ refl)

main_at-Runs : (a : StartAnswers) (p : Text) → Runs (all_calls p a.has_session) (main_at a p)
unfolding main_at
main_at-Runs a p = or_fatal-Runs _ (store_calls p) _ (new_store a p) _ (new_store-Follows a p) (
    or_fatal-Runs _ (message_store_calls (message_store_path p)) _
      (new_message_store a (message_store_path p)) _
      (new_message_store-Follows a (message_store_path p))
      (or_fatal-Runs _ (reads_first_device ∷ []) _ (call reads_first_device a.first_device done) _
        (call-Follows reads_first_device a.first_device [] done refl)
        (or_fatal-Runs _ bus_calls _ (connect_session_bus a) _ (connect_session_bus-Follows a) (
          or_fatal-Runs _ export_calls _ (export a) _ (export-Follows a)
            (serving-calls a.has_session)))))

main_with-Runs :
    (a : StartAnswers) (p : Text) (r : Result Text)
    → r ≡ ok p
    → Runs (all_calls p a.has_session) (main_with a r)
main_with-Runs a p (err x) h = cc
main_with-Runs a p (ok q) h = rw (ok_inj h) (main_at-Runs a p)

logged-Runs :
    (a : StartAnswers) (p : Text) (o : Outcome)
    → resolve_store_path a.env ≡ ok p
    → Runs (all_calls p a.has_session) (logged a o)
logged-Runs a p (some x) h = nothing_begun (all_calls p a.has_session)
logged-Runs a p none h = main_with-Runs a p (resolve_store_path a.env) h

-- The calls of `main` and their order.
pub main-Runs :
    (a : StartAnswers) (p : Text)
    → resolve_store_path a.env ≡ ok p
    → Runs (all_calls p a.has_session) (main a)
unfolding main
main-Runs a p h = logged-Runs a p a.logger h
