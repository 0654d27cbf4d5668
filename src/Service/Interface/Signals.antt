-- ===== src/Service/Interface/Signals.antt =====
-- daemon/dbus/service.go: what each `Emit` sends, against the introspection data.
use kha_app.Prelude.{
  ◌≡◌, refl, Option, none, some, ℤ, List, [], ◌∷◌, ◌++◌, map, Text, codes, same_text, if◌then◌else◌,
}
use kha_app.Service.State.{
  Status, Signal, qr_code_updated, login_successful, message_received, connection_status_changed,
  typing_started, typing_stopped, message_acknowledged, avatar_updated,
}
use kha_app.Service.Interface.{
  SignalInfo, introspected_signals, object_path, interface_name, GoType, go_string, go_int32,
  go_int64, Godbus, Documented,
}

-- A value that is handed to `Emit`.
pub data GoValue : Type 0 where
  string_value : Text → GoValue
  int32_value : ℤ → GoValue
  int64_value : ℤ → GoValue

unfoldable pub type_of : GoValue → GoType
type_of (string_value s) = go_string
type_of (int32_value i) = go_int32
type_of (int64_value i) = go_int64

pub record Emission : Type 0 where
  pub path : Text
  pub name : Text
  pub values : List GoValue

abbrev emission : Text → List GoValue → Emission
emission member values = record {
  path = object_path;
  name = interface_name ++ member;
  values = values;
}

-- The texts of the source.
unfoldable pub status_text : Status → Text
status_text Status.disconnected = codes "disconnected"
status_text Status.connecting = codes "connecting"
status_text Status.qr_pending = codes "qr_pending"
status_text Status.connected = codes "connected"

unfoldable pub emission_of : Signal → Emission
unfolding status_text
emission_of (qr_code_updated encoded) =
    emission (codes ".QRCodeUpdated") (string_value encoded ∷ [])
emission_of (login_successful phone_number) =
    emission (codes ".LoginSuccessful") (string_value phone_number ∷ [])
emission_of (message_received chat sender_name text timestamp) =
    emission (codes ".MessageReceived") (
      string_value chat ∷ string_value sender_name ∷ string_value text ∷ int64_value timestamp ∷ [])
emission_of (connection_status_changed status) =
    emission (codes ".ConnectionStatusChanged") (string_value (status_text status) ∷ [])
emission_of (typing_started chat sender) =
    emission (codes ".TypingStarted") (string_value chat ∷ string_value sender ∷ [])
emission_of (typing_stopped chat sender) =
    emission (codes ".TypingStopped") (string_value chat ∷ string_value sender ∷ [])
emission_of (message_acknowledged message_id receipt_type) =
    emission (codes ".MessageAcknowledged")
      (string_value message_id ∷ int32_value receipt_type ∷ [])
emission_of (avatar_updated jid path) =
    emission (codes ".AvatarUpdated") (string_value jid ∷ string_value path ∷ [])

-- The signal that the introspection data declares under the name of an `Emit`.
abbrev pub declared_in : Text → List SignalInfo → Option SignalInfo
declared_in name [] = none
declared_in name (d ∷ ds) =
    let rest = declared_in name ds in
    if same_text (interface_name ++ (codes "." ++ d.name)) name then some d else rest

-- The types of the values that an `Emit` sends are those that are declared under its name.
abbrev pub SentAsDeclared : Godbus → Emission → Type 0
SentAsDeclared g e =
    (d : SignalInfo) × (declared_in e.name introspected_signals ≡ some d)
    × (map (λ a. a.type) d.args ≡ map (λ v. g.signature_of (type_of v)) e.values)

-- Under godbus's signatures of string, int32 and int64, every signal that the service can emit is
-- declared in the introspection data under its name, with as many arguments as it sends, of the
-- types that it sends.
pub emission_of-SentAsDeclared :
    (g : Godbus) → Documented g → (s : Signal) → SentAsDeclared g (emission_of s)
unfolding emission_of type_of same_text
emission_of-SentAsDeclared g d (qr_code_updated encoded) = (_, refl, rw d.of_string refl)
emission_of-SentAsDeclared g d (login_successful phone_number) = (_, refl, rw d.of_string refl)
emission_of-SentAsDeclared g d (message_received chat sender_name text timestamp) =
    (_, refl, rw (d.of_string, d.of_int64) refl)
emission_of-SentAsDeclared g d (connection_status_changed status) = (_, refl, rw d.of_string refl)
emission_of-SentAsDeclared g d (typing_started chat sender) = (_, refl, rw d.of_string refl)
emission_of-SentAsDeclared g d (typing_stopped chat sender) = (_, refl, rw d.of_string refl)
emission_of-SentAsDeclared g d (message_acknowledged message_id receipt_type) =
    (_, refl, rw (d.of_string, d.of_int32) refl)
emission_of-SentAsDeclared g d (avatar_updated jid path) = (_, refl, rw d.of_string refl)
