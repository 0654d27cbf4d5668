-- ===== src/Tests/DaemonTests.antt =====
-- The theorems on the daemon as a whole, on its start, on the D-Bus interface and on the QR codes at
-- concrete inputs.
use kha_app.Prelude.{
  ◌≡◌, ◌↔◌, refl, arith, ℕ, Bool, true, false, Option, none, some, List, [], ◌∷◌, ◌++◌, Text, codes,
}
use kha_app.Prelude.Result.{Result, ok, ◌>>=◌}
use kha_app.Storage.Table.{marks_read}
use kha_app.Protocol.Event.{Event, message}
use kha_app.Protocol.Reconnect.{wakes, timer}
use kha_app.Service.State.{Status, connection_status_changed}
use kha_app.Service.Login.{AutoAnswers}
use kha_app.Service.Run
use kha_app.Service.Run.{Call, requests_login}
use kha_app.Service.Interface.{
  GoType, go_string, go_int32, go_int64, go_variant, go_dbus_error, go_slice, go_map, Godbus,
  Documented, last_result,
}
use kha_app.Service.Interface.Signals.{emission_of, SentAsDeclared, emission_of-SentAsDeclared}
use kha_app.Service.Qr.{RecoveryLevel, medium, generate_qr_code_base64}
use kha_app.Service.Qr.Decoded.{decode, generate_qr_code_base64_lem}
use kha_app.Main.{resolve_store_path}
use kha_app.Main.Start.{exists, StartAnswers, returns, main}
use kha_app.Main.Start.Ordered.{Runs, all_calls}
use kha_app.Main.Start.Completes.{AllWork, main_lem}
use kha_app.Daemon.{Daemon, Step, arrives, takes, serves, writes, happens, run}
use kha_app.Daemon.Parts.{PartsOf, run-PartsOf}
use kha_app.Daemon.Order.{all_accepted, events_of, run-in_order}
use kha_app.Daemon.Parts
use kha_app.Daemon.Rows.{AllIn}
use kha_app.Daemon.Stored.{WaitingAreStored, run-WaitingAreStored}
use kha_app.Daemon.Begun.{started, IsSound, run-IsSound}
use kha_app.Tests.Data.{alice, three_rows, picture_event, answers}
use kha_app.Tests.StorageTests.{three_rows-IsKeyed}
use kha_app.Tests.ServiceTests.{loop_answers, new_login}

abbrev connects_first : AutoAnswers
connects_first = record { has_session = true; is_connected = false; connect = none }

abbrev an_hour : List Step
an_hour =
    arrives answers Event.connected
    ∷ arrives answers (message picture_event)
    ∷ takes loop_answers
    ∷ arrives answers Event.disconnected
    ∷ happens (wakes 0 (timer false (some (codes "no route"))))
    ∷ writes (none, marks_read alice)
    ∷ takes loop_answers
    ∷ serves (requests_login new_login)
    ∷ []

abbrev at_start : Daemon
at_start = started connects_first three_rows

run-IsSound_example : IsSound three_rows (run (started connects_first three_rows) an_hour)
run-IsSound_example = run-IsSound connects_first three_rows an_hour three_rows-IsKeyed

run-PartsOf_example : PartsOf at_start (run at_start an_hour) an_hour
run-PartsOf_example = run-PartsOf at_start an_hour

run-in_order_example :
    (calls : List Call) × ((run at_start an_hour).service ≡ Run.run at_start.service calls)
    × (at_start.client.events ++ all_accepted at_start an_hour
        ≡ events_of calls ++ (run at_start an_hour).client.events)
run-in_order_example = run-in_order at_start an_hour

run-WaitingAreStored_example :
    WaitingAreStored (run at_start an_hour)
    × AllIn (run at_start an_hour).client.table (events_of (Parts.all_calls at_start an_hour))
unfolding started
run-WaitingAreStored_example =
    run-WaitingAreStored at_start an_hour (refl, (refl, (tt, (refl, (tt, (tt, (tt, (tt, tt))))))))
      tt

abbrev name_taken : StartAnswers
name_taken = record {
  logger = none;
  env = record { data_home = codes "/home/a/.data"; home_dir = ok (codes "/home/a") };
  store_dir = none;
  store = none;
  message_dir = none;
  database = none;
  schema = none;
  first_device = none;
  bus = none;
  name = ok exists;
  export_service = none;
  export_introspection = none;
  has_session = true;
}

abbrev session_path : Text
session_path = codes "/home/a/.data/khaapp/session.db"

main_lem_example :
    (((main name_taken).1 ≡ returns) ↔ AllWork name_taken)
    × Runs (all_calls session_path true) (main name_taken)
unfolding resolve_store_path
main_lem_example = main_lem name_taken session_path refl

-- godbus's rules, written out.
signature : GoType → Text
signature go_string = codes "s"
signature go_int32 = codes "i"
signature go_int64 = codes "x"
signature go_variant = codes "v"
signature (go_slice t) = codes "a" ++ signature t
signature (go_map t u) = codes "a{" ++ (signature t ++ (signature u ++ codes "}"))
signature _ = []

abbrev ends_in_error : Option GoType → Bool
ends_in_error (some go_dbus_error) = true
ends_in_error _ = false

abbrev godbus : Godbus
godbus = record {
  signature_of = signature;
  is_exported = λ m. ends_in_error (last_result m.results);
}

ends_in_error_iff : (o : Option GoType) → (ends_in_error o ≡ true) ↔ (o ≡ some go_dbus_error)
ends_in_error_iff o = ground arith

godbus-Documented : Documented godbus
unfolding signature
godbus-Documented = record {
  of_string = refl;
  of_int32 = refl;
  of_int64 = refl;
  of_variant = refl;
  of_slice = λ t. refl;
  of_map = λ t u. refl;
  exported_iff = λ m. ends_in_error_iff (last_result m.results);
}

emission_of-SentAsDeclared_example :
    SentAsDeclared godbus (emission_of (connection_status_changed Status.qr_pending))
emission_of-SentAsDeclared_example =
    emission_of-SentAsDeclared godbus godbus-Documented
      (connection_status_changed Status.qr_pending)

-- The first bytes of a PNG file.
abbrev encoder : Text → RecoveryLevel → ℕ → Result (List ℕ)
encoder s level size = ok (137 ∷ 80 ∷ 78 ∷ 71 ∷ 13 ∷ [])

generate_qr_code_base64_lem_example :
    (generate_qr_code_base64 encoder (codes "2@x") >>= decode) ≡ encoder (codes "2@x") medium 256
generate_qr_code_base64_lem_example =
    generate_qr_code_base64_lem encoder (codes "2@x")
      (omega arith, (omega arith, (omega arith, (omega arith, (omega arith, tt)))))
