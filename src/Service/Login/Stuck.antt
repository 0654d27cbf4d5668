-- ===== src/Service/Login/Stuck.antt =====
-- A QR login that ends in neither success nor timeout.
use kha_app.Prelude.{◌≡◌, refl, Bool, true, false, none, List, [], ◌∷◌, arith, All, Text}
use kha_app.Prelude.Result.{Result}
use kha_app.Service.State.{Status, Service, emit}
use kha_app.Service.Login.{
  LoginAnswers, reply, request_login, QrItem, code, success, timeout, other_item, qr_item, qr_loop,
}

abbrev pub ends_login : QrItem → Bool
ends_login success = true
ends_login timeout = true
ends_login _ = false

module _ (generate_qr_code_base64 : Text → Result Text) (phone_number : Text) where
  status-qr_item :
      (i : QrItem) (m : Service)
      → ends_login i ≡ false
      → (qr_item generate_qr_code_base64 phone_number i m).status ≡ m.status
  unfolding qr_item emit
  status-qr_item (code c) m h = ground arith
  status-qr_item success m h = cc
  status-qr_item timeout m h = cc
  status-qr_item (other_item e) m h = refl

  status-qr_loop :
      (items : List QrItem) (m : Service)
      → All (λ i. ends_login i ≡ false) items
      → (qr_loop generate_qr_code_base64 phone_number items m).status ≡ m.status
  unfolding qr_loop
  status-qr_loop [] m h = refl
  status-qr_loop (i ∷ items) m h = ground (
    arith,
    status-qr_item i m h.0,
    status-qr_loop items (qr_item generate_qr_code_base64 phone_number i m) h.1,
  )

  -- From the status "qr_pending", items of the QR channel that are neither success nor timeout
  -- leave the status, and so does the end of the channel; a `RequestLogin` after it returns
  -- without an error, starts nothing and changes nothing, whatever the client answers.
  pub request_login_stuck :
      (items : List QrItem) (m : Service) (a : LoginAnswers)
      → m.status ≡ Status.qr_pending
      → All (λ i. ends_login i ≡ false) items
      → let n = qr_loop generate_qr_code_base64 phone_number items m in
        (n.status ≡ Status.qr_pending) × (request_login a n ≡ reply none false n)
  unfolding request_login
  request_login_stuck items m a e h = ground (arith, status-qr_loop items m h)
