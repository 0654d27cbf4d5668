-- ===== src/Service/Interface.antt =====
-- daemon/dbus/service.go: the names of the D-Bus service, the introspection data that `Export` hands
-- out, the signatures of the methods of `MessengerService`, and the arguments of each `Emit`.
pub mod Signals
pub mod Methods
use kha_app.Prelude.{
  ◌≡◌, ◌↔◌, Bool, true, false, Option, none, some, ℤ, List, [], ◌∷◌, ◌++◌, Text, codes,
}
use kha_app.Service.State.{
  Status, Signal, qr_code_updated, login_successful, message_received, connection_status_changed,
  typing_started, typing_stopped, message_acknowledged, avatar_updated,
}

abbrev pub service_name : Text
service_name = codes "org.khaapp.Daemon"

abbrev pub object_path : Text
object_path = codes "/org/khaapp/Daemon"

abbrev pub interface_name : Text
interface_name = codes "org.khaapp.IMessenger"

-- `introspect.Arg`, `introspect.Method` and `introspect.Signal`.
pub record Arg : Type 0 where
  pub name : Text
  pub type : Text
  pub direction : Text

pub record MethodInfo : Type 0 where
  pub name : Text
  pub args : List Arg

pub record SignalInfo : Type 0 where
  pub name : Text
  pub args : List Arg

abbrev in_arg : Text → Text → Arg
in_arg name type = record { name = name; type = type; direction = codes "in" }

abbrev out_arg : Text → Text → Arg
out_arg name type = record { name = name; type = type; direction = codes "out" }

abbrev plain_arg : Text → Text → Arg
plain_arg name type = record { name = name; type = type; direction = [] }

abbrev method : Text → List Arg → MethodInfo
method name args = record { name = name; args = args }

abbrev signal : Text → List Arg → SignalInfo
signal name args = record { name = name; args = args }

abbrev pub introspected_methods : List MethodInfo
introspected_methods =
    method (codes "GetStatus") (out_arg (codes "status") (codes "s") ∷ [])
    ∷ method (codes "RequestLogin") []
    ∷ method (codes "Logout") []
    ∷ method (codes "SendTextMessage") (
        in_arg (codes "jid") (codes "s")
        ∷ in_arg (codes "text") (codes "s")
        ∷ out_arg (codes "message_id") (codes "s")
        ∷ [])
    ∷ method (codes "GetChats") (out_arg (codes "chats") (codes "aa{sv}") ∷ [])
    ∷ method (codes "GetMessages") (
        in_arg (codes "jid") (codes "s")
        ∷ in_arg (codes "limit") (codes "i")
        ∷ in_arg (codes "offset") (codes "i")
        ∷ out_arg (codes "messages") (codes "aa{sv}")
        ∷ [])
    ∷ method (codes "GetGroupInfo")
        (in_arg (codes "jid") (codes "s") ∷ out_arg (codes "info") (codes "a{sv}") ∷ [])
    ∷ method (codes "GetProfilePicture")
        (in_arg (codes "jid") (codes "s") ∷ out_arg (codes "local_path") (codes "s") ∷ [])
    ∷ method (codes "SearchMessages") (
        in_arg (codes "jid") (codes "s")
        ∷ in_arg (codes "query") (codes "s")
        ∷ out_arg (codes "messages") (codes "aa{sv}")
        ∷ [])
    ∷ method (codes "DownloadMedia") (
        in_arg (codes "message_id") (codes "s")
        ∷ in_arg (codes "jid") (codes "s")
        ∷ out_arg (codes "local_path") (codes "s")
        ∷ [])
    ∷ method (codes "MarkAsRead") (in_arg (codes "jid") (codes "s") ∷ [])
    ∷ method (codes "FetchLinkPreview")
        (in_arg (codes "url") (codes "s") ∷ out_arg (codes "preview") (codes "a{sv}") ∷ [])
    ∷ []

abbrev pub introspected_signals : List SignalInfo
introspected_signals =
    signal (codes "QRCodeUpdated") (plain_arg (codes "qr_data") (codes "s") ∷ [])
    ∷ signal (codes "LoginSuccessful") (plain_arg (codes "phone_number") (codes "s") ∷ [])
    ∷ signal (codes "MessageReceived") (
        plain_arg (codes "jid") (codes "s")
        ∷ plain_arg (codes "sender_name") (codes "s")
        ∷ plain_arg (codes "text") (codes "s")
        ∷ plain_arg (codes "timestamp_unix") (codes "x")
        ∷ [])
    ∷ signal (codes "ConnectionStatusChanged") (plain_arg (codes "status") (codes "s") ∷ [])
    ∷ signal (codes "TypingStarted")
        (plain_arg (codes "jid") (codes "s") ∷ plain_arg (codes "sender_jid") (codes "s") ∷ [])
    ∷ signal (codes "TypingStopped")
        (plain_arg (codes "jid") (codes "s") ∷ plain_arg (codes "sender_jid") (codes "s") ∷ [])
    ∷ signal (codes "MessageAcknowledged") (
        plain_arg (codes "message_id") (codes "s")
        ∷ plain_arg (codes "receipt_type") (codes "i")
        ∷ [])
    ∷ signal (codes "AvatarUpdated")
        (plain_arg (codes "jid") (codes "s") ∷ plain_arg (codes "local_path") (codes "s") ∷ [])
    ∷ []

-- The Go types of parameters, results and emitted values.
pub data GoType : Type 0 where
  go_string go_int32 go_int64 go_variant go_context go_error go_dbus_error : GoType
  go_slice : GoType → GoType
  go_map : GoType → GoType → GoType

-- A method of `*MessengerService` with a capital name.
pub record GoMethod : Type 0 where
  pub name : Text
  pub params : List GoType
  pub results : List GoType

-- What `conn.Export` and `conn.Emit` do with Go's types: the signature of a type, and whether a
-- method is offered on the bus.
pub record Godbus : Type 0 where
  pub signature_of : GoType → Text
  pub is_exported : GoMethod → Bool

-- The last of a method's results.
abbrev pub last_result : List GoType → Option GoType
last_result [] = none
last_result (t ∷ []) = some t
last_result (t ∷ u ∷ ts) = last_result (u ∷ ts)

-- What godbus and the D-Bus specification state of the two: the codes of the types, and that the
-- methods whose last result is a `*godbus.Error` are offered.
pub record Documented (g : Godbus) : Type 0 where
  pub of_string : g.signature_of go_string ≡ codes "s"
  pub of_int32 : g.signature_of go_int32 ≡ codes "i"
  pub of_int64 : g.signature_of go_int64 ≡ codes "x"
  pub of_variant : g.signature_of go_variant ≡ codes "v"
  pub of_slice : (t : GoType) → g.signature_of (go_slice t) ≡ codes "a" ++ g.signature_of t
  pub of_map :
      (t u : GoType)
      → g.signature_of (go_map t u)
        ≡ codes "a{" ++ (g.signature_of t ++ (g.signature_of u ++ codes "}"))
  pub exported_iff :
      (m : GoMethod) → (g.is_exported m ≡ true) ↔ (last_result m.results ≡ some go_dbus_error)
