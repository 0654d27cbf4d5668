-- ===== src/Service/Login.antt =====
-- daemon/dbus/service.go: `AutoConnect`, `RequestLogin` with its goroutine over the QR channel, and
-- `Logout`. What the client answers is an argument; a client's method may be asked twice and answer
-- differently, as the connection changes meanwhile.
pub mod Outcomes
pub mod Stuck
pub mod Performed
use kha_app.Prelude.{
  ℕ, Bool, true, false, not, ◌&&◌, ◌||◌, Option, none, some, List, [], ◌∷◌, ◌++◌, Text,
  if◌then◌else◌,
}
use kha_app.Prelude.Result.{Result, ok, err, Outcome}
use kha_app.Service.State.{
  Status, Service, emit, set_status, same_status, current_status, qr_code_updated, login_successful,
}

-- What `AutoConnect` is answered by `HasSession`, `IsConnected` and `Connect`.
pub record AutoAnswers : Type 0 where
  pub has_session : Bool
  pub is_connected : Bool
  pub connect : Outcome

abbrev pub connecting_done : Outcome → Service → Outcome × Service
connecting_done none m = (none, m)
connecting_done (some e) m = (some e, set_status Status.disconnected m)

unfoldable pub auto_connect : AutoAnswers → Service → Outcome × Service
auto_connect a m =
    if not a.has_session || a.is_connected
    then (none, m)
    else connecting_done a.connect (set_status Status.connecting m)

pub record LoginAnswers : Type 0 where
  pub is_connected : Bool
  pub has_session : Bool
  pub auto : AutoAnswers
  pub get_qr_channel : Outcome
  pub connect : Outcome

-- `RequestLogin` returns an error or none; the flag tells whether it has started the goroutine
-- that reads the QR channel.
pub record LoginReply : Type 0 where
  pub error : Outcome
  pub reads_qr : Bool
  pub service : Service

abbrev pub reply : Outcome → Bool → Service → LoginReply
reply e b m = record { error = e; reads_qr = b; service = m }

abbrev pub no_qr : Outcome × Service → LoginReply
no_qr (e, m) = reply e false m

abbrev pub is_pending : Status → Bool
is_pending status = same_status status Status.connecting || same_status status Status.qr_pending

abbrev pub qr_connect : Outcome → Service → LoginReply
qr_connect none m = reply none true (set_status Status.qr_pending m)
qr_connect (some e) m = reply (some e) false (set_status Status.disconnected m)

abbrev pub qr_channel : Outcome → Outcome → Service → LoginReply
qr_channel none connect m = qr_connect connect m
qr_channel (some e) connect m = reply (some e) false (set_status Status.disconnected m)

-- The QR login, from `m.setStatus("connecting")` on.
unfoldable pub qr_login : LoginAnswers → Service → LoginReply
qr_login a m = qr_channel a.get_qr_channel a.connect (set_status Status.connecting m)

unfoldable pub request_login : LoginAnswers → Service → LoginReply
unfolding auto_connect qr_login current_status
request_login a m =
    if a.is_connected || is_pending (current_status m)
    then reply none false m
    else if a.has_session
    then no_qr (auto_connect a.auto m)
    else qr_login a m

-- The items of the QR channel; `other_item` is one with another event, such as
-- "err-client-outdated" or "error".
pub data QrItem : Type 0 where
  code : Text → QrItem
  success timeout : QrItem
  other_item : Text → QrItem

module _ (generate_qr_code_base64 : Text → Result Text) (phone_number : Text) where
  abbrev pub qr_encoded : Result Text → Service → Service
  qr_encoded (ok encoded) m = emit (qr_code_updated encoded) m
  qr_encoded (err e) m = m

  unfoldable pub qr_item : QrItem → Service → Service
  qr_item (code c) m = qr_encoded (generate_qr_code_base64 c) m
  qr_item success m = emit (login_successful phone_number) (set_status Status.connected m)
  qr_item timeout m = set_status Status.disconnected m
  qr_item (other_item e) m = m

  -- `for item := range qrChan`.
  unfoldable pub qr_loop : List QrItem → Service → Service
  unfolding qr_item
  qr_loop [] m = m
  qr_loop (i ∷ items) m = qr_loop items (qr_item i m)

-- The calls that `Logout` makes to the client, in their order.
pub data ClientCall : Type 0 where
  stops_reconnect logs_out disconnects deletes_device resets_session : ClientCall

pub record LogoutAnswers : Type 0 where
  pub is_connected : Bool
  pub has_device : Bool

abbrev when : Bool → ClientCall → List ClientCall
when true c = c ∷ []
when false c = []

-- The errors of the calls are only logged, and `Logout` returns none.
unfoldable pub logout_calls : LogoutAnswers → List ClientCall
logout_calls a =
    stops_reconnect
    ∷ (when a.is_connected logs_out
        ++ disconnects ∷ (when a.has_device deletes_device ++ resets_session ∷ []))

unfoldable pub logout : LogoutAnswers → Service → List ClientCall × Service
unfolding logout_calls
logout a m = (logout_calls a, set_status Status.disconnected m)
