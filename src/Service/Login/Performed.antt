-- ===== src/Service/Login/Performed.antt =====
-- daemon/dbus/service.go: the calls that `Logout` makes to the client, against what they do to it.
use kha_app.Prelude.{
  ◌≡◌, refl, sym, ◌∙◌, inl, inr, Bool-cases, Bool, true, false, List, [], ◌∷◌, if◌then◌else◌,
}
use kha_app.Service.Login.{
  ClientCall, stops_reconnect, logs_out, disconnects, deletes_device, resets_session, LogoutAnswers,
  logout_calls,
}
use kha_app.Protocol.Session.{
  Whatsmeow, WaClient, is_some, is_connected, device_store, stop, logout, disconnect, delete_device,
  reset_session, log_out_remotely, delete_present, then_reset, logout_session,
}

module _ {H C : Type 0} (W : Whatsmeow H C) where
  -- What each call does to the client.
  unfoldable pub perform : ClientCall → WaClient H C → WaClient H C
  unfolding stop logout disconnect delete_device reset_session
  perform stops_reconnect w = stop W w
  perform logs_out w = (logout W w).1
  perform disconnects w = disconnect W w
  perform deletes_device w = (delete_device W w).1
  perform resets_session w = (reset_session W w).1

  unfoldable pub perform_all : List ClientCall → WaClient H C → WaClient H C
  unfolding perform
  perform_all [] w = w
  perform_all (c ∷ cs) w = perform_all cs (perform c w)

  -- What the client answers during a `Logout`.
  abbrev pub answers_of : WaClient H C → LogoutAnswers
  answers_of w = record {
    is_connected = is_connected W w;
    has_device = is_some (device_store W (disconnect W (log_out_remotely W (stop W w))));
  }

  is_connected-stop : (w : WaClient H C) → is_connected W (stop W w) ≡ is_connected W w
  unfolding is_connected stop
  is_connected-stop w = refl

  after_calls : Bool → Bool → WaClient H C → WaClient H C
  after_calls online device w =
      let u = disconnect W (if online then (logout W (stop W w)).1 else stop W w) in
      (reset_session W (if device then (delete_device W u).1 else u)).1

  perform_all-cases :
      (online device : Bool) (w : WaClient H C)
      → perform_all (logout_calls (record { is_connected = online; has_device = device })) w
        ≡ after_calls online device w
  unfolding logout_calls perform_all after_calls
  perform_all-cases true true w = refl
  perform_all-cases true false w = refl
  perform_all-cases false true w = refl
  perform_all-cases false false w = refl

  deleted_lem :
      (u : WaClient H C)
      → (then_reset W (delete_present W u)).1.1
        ≡ (reset_session W (if is_some (device_store W u) then (delete_device W u).1 else u)).1
  unfolding delete_present
  deleted_lem u = elim (Bool-cases (is_some (device_store W u))) [
    | inl e ↦ rw e refl
    | inr e ↦ rw e refl
  ]

  -- The calls that the service's `Logout` makes, on the answers that the client gives it on the way,
  -- leave the client that the client's side of `Logout` leaves.
  pub perform_all-logout_calls :
      (w : WaClient H C) → perform_all (logout_calls (answers_of w)) w ≡ (logout_session W w).1.1
  unfolding logout_session after_calls log_out_remotely
  perform_all-logout_calls w =
      perform_all-cases (is_connected W w)
        (is_some (device_store W (disconnect W (log_out_remotely W (stop W w))))) w
      ∙ sym (deleted_lem (disconnect W (log_out_remotely W (stop W w))))
