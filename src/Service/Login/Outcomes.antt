-- ===== src/Service/Login/Outcomes.antt =====
-- The branches of the login.
use kha_app.Prelude.{◌≡◌, ◌≢◌, ◌⊎◌, true, false, none, arith}
use kha_app.Service.State.{Status, Service, emit, set_status}
use kha_app.Service.Login.{LoginAnswers, request_login}

-- A login from the status "disconnected", without a connection and a session, either succeeds,
-- with the QR channel being read, the status "qr_pending" and no error from the channel and from
-- connecting, or it returns an error, with nothing started and the status "disconnected" again.
pub request_login_lem :
    (a : LoginAnswers) (m : Service)
    → m.status ≡ Status.disconnected
    → a.is_connected ≡ false
    → a.has_session ≡ false
    → let r = request_login a m in
      ((r.error ≡ none)
        × (r.reads_qr ≡ true)
        × (r.service.status ≡ Status.qr_pending)
        × (a.get_qr_channel ≡ none)
        × (a.connect ≡ none))
      ⊎ ((r.error ≢ none) × (r.reads_qr ≡ false) × (r.service.status ≡ Status.disconnected))
unfolding request_login set_status emit
request_login_lem a m e c s = ground arith
