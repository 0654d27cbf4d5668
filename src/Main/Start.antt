-- ===== src/Main/Start.antt =====
-- daemon/cmd/main.go: `main`, with `NewStore` of daemon/storage/store.go, `NewMessageStore` and `Close`
-- of daemon/storage/messages.go and `ConnectSessionBus`, `Export` and `Shutdown` of
-- daemon/dbus/service.go, as the calls that leave the process, up to the first error.
pub mod Ordered
pub mod Completes
use kha_app.Prelude.{
  Bool, true, false, Option, none, some, List, [], ◌∷◌, ◌++◌, Text, codes, if◌then◌else◌,
}
use kha_app.Prelude.Result.{Result, ok, err, Outcome}
use kha_app.Main.{DataEnv, resolve_store_path, dir, message_store_path}
use kha_app.Service.Interface.{service_name, object_path, interface_name}

pub data Effect : Type 0 where
  makes_dir : Text → Effect
  opens_store : Text → Effect
  opens_database : Text → Effect
  makes_schema reads_first_device connects_bus : Effect
  requests_name : Text → Effect
  exports : Text → Text → Effect
  starts_event_loop auto_connects : Effect
  stops_reconnect disconnects closes_database closes_store closes_bus : Effect

-- `godbus.RequestNameReply`.
pub data NameReply : Type 0 where
  primary_owner in_queue exists already_owner : NameReply

-- What the calls are answered, in the order of `main`.
pub record StartAnswers : Type 0 where
  pub logger : Outcome
  pub env : DataEnv
  pub store_dir : Outcome
  pub store : Outcome
  pub message_dir : Outcome
  pub database : Outcome
  pub schema : Outcome
  pub first_device : Outcome
  pub bus : Outcome
  pub name : Result NameReply
  pub export_service : Outcome
  pub export_introspection : Outcome
  pub has_session : Bool

-- The calls of a function and the error that it returns.
abbrev pub Calls : Type 0
Calls = List Effect × Outcome

-- A call, its answer, and what follows if that is no error.
abbrev call : Effect → Outcome → Calls → Calls
call e (some x) rest = (e ∷ [], some x)
call e none (es, o) = (e ∷ es, o)

abbrev done : Calls
done = ([], none)

-- `"file:"+dbPath+"?_foreign_keys=on"`.
abbrev pub data_source : Text → Text
data_source db_path = codes "file:" ++ (db_path ++ codes "?_foreign_keys=on")

unfoldable pub new_store : StartAnswers → Text → Calls
unfolding dir
new_store a db_path =
    call (makes_dir (dir db_path)) a.store_dir
      (call (opens_store (data_source db_path)) a.store done)

abbrev init_or_close : Outcome → Calls
init_or_close none = (makes_schema ∷ [], none)
init_or_close (some x) = (makes_schema ∷ closes_database ∷ [], some x)

unfoldable pub new_message_store : StartAnswers → Text → Calls
unfolding dir
new_message_store a db_path =
    call (makes_dir (dir db_path)) a.message_dir
      (call (opens_database db_path) a.database (init_or_close a.schema))

abbrev owned : Result NameReply → Calls
owned (err x) = ([], some x)
owned (ok primary_owner) = done
owned (ok _) =
    (closes_bus ∷ [], some (codes "D-Bus name " ++ (service_name ++ codes " is already owned")))

unfoldable pub connect_session_bus : StartAnswers → Calls
connect_session_bus a =
    call connects_bus a.bus (call (requests_name service_name) none (owned a.name))

unfoldable pub export : StartAnswers → Calls
export a = call (exports object_path interface_name) a.export_service (
    call (exports object_path (codes "org.freedesktop.DBus.Introspectable")) a.export_introspection
      done)

-- `Shutdown` of the service: `Disconnect` of the client stops the reconnect loop once more.
abbrev pub shutdown : List Effect
shutdown = stops_reconnect ∷ stops_reconnect ∷ disconnects ∷ []

-- How `main` ends.
pub data Exit : Type 0 where
  panics : Text → Exit
  fatal : Text → Exit
  returns : Exit

-- `if err != nil { logger.Fatal(…) }`: the process exits at once, without the deferred calls.
abbrev or_fatal : Text → Calls → List Effect × Exit → List Effect × Exit
or_fatal text (es, some x) rest = (es, fatal text)
or_fatal text (es, none) (fs, exit) = (es ++ fs, exit)

-- From the event loop on. An error of `AutoConnect` is only logged, as are those of the two
-- `Close`; the bus is closed by a deferred call.
abbrev pub serving : Bool → List Effect × Exit
serving has_session = (
  starts_event_loop
      ∷ ((if has_session then auto_connects ∷ [] else [])
          ++ (shutdown ++ closes_database ∷ closes_store ∷ closes_bus ∷ [])),
  returns,
)

unfoldable pub main_at : StartAnswers → Text → List Effect × Exit
unfolding new_store new_message_store message_store_path connect_session_bus export
main_at a store_path = or_fatal (codes "failed to initialize store") (new_store a store_path) (
    or_fatal (codes "failed to initialize message store")
      (new_message_store a (message_store_path store_path))
      (or_fatal (codes "failed to initialize WhatsApp client")
        (call reads_first_device a.first_device done)
        (or_fatal (codes "failed to connect to session bus") (connect_session_bus a)
          (or_fatal (codes "failed to export D-Bus service") (export a) (serving a.has_session)))))

abbrev pub main_with : StartAnswers → Result Text → List Effect × Exit
main_with a (err x) = ([], fatal (codes "failed to resolve store path"))
main_with a (ok store_path) = main_at a store_path

abbrev pub logged : StartAnswers → Outcome → List Effect × Exit
logged a (some x) = ([], panics (codes "failed to initialize logger: " ++ x))
logged a none = main_with a (resolve_store_path a.env)

-- `main`, to its end: the calls and the exit.
unfoldable pub main : StartAnswers → List Effect × Exit
unfolding main_at resolve_store_path
main a = logged a a.logger
