-- ===== src/Protocol/Session/LoggedOut.antt =====
-- daemon/dbus/service.go: what `Logout` leaves behind, from what whatsmeow documents of its client
-- and of its database of devices.
use kha_app.Prelude.{false, ◌≡◌, ◌≢◌, refl, sym, ap, ◌∙◌, arith, Option, none, some, List, []}
use kha_app.Prelude.Result.{Result, ok, err, ok_inj}
use kha_app.Storage.Table.{Table}
use kha_app.Protocol.Reconnect.{Reconnect, stop_reconnect}
use kha_app.Protocol.Session.{
  DeviceId, Device, Whatsmeow, WaClient, is_some, replace_client, opened, new_wa_client,
  device_store, has_session, is_connected, phone_number, stop, disconnect, reset_to, reset_session,
  logout_session, log_out_remotely, delete_present, user_of,
}
use kha_app.Protocol.Session.Devices.{
  first, listed, Documented, OnlyDevice, session_id, disconnect-OnlyDevice,
  log_out_remotely-OnlyDevice, delete_present-OnlyDevice, session_id-delete_present,
  session_id-delete_present_fails, session_id-kept,
}

module _ {H C : Type 0} (W : Whatsmeow H C) (devices : C → List DeviceId) where
  -- No session, no phone number, no connection and no reconnect loop.
  pub record LoggedOut (w : WaClient H C) : Type 0 where
    pub no_session : has_session W w ≡ false
    pub no_number : phone_number W w ≡ []
    pub offline : is_connected W w ≡ false
    pub no_retry : w.inner.reconnect.cancel_retry ≡ none

  no_retry_stop : (r : Reconnect) → (stop_reconnect r).cancel_retry ≡ none
  unfolding stop_reconnect
  no_retry_stop r = ground arith

  module _ (doc : Documented W devices) where
    -- The client that a reset leaves, with the device that the database has first.
    session_id-replace_client :
        (d : Device) (w : WaClient H C) → session_id W devices (replace_client W d w) ≡ d.id
    unfolding replace_client
    session_id-replace_client d w = rw doc.store_new refl

    reset_to-session_id :
        (w : WaClient H C) (r : Result Device)
        → W.get_first_device w.container ≡ r
        → (reset_to W w r).0 ≡ none
        → session_id W devices (reset_to W w r).1 ≡ first (devices w.container)
    reset_to-session_id w (err x) e h = cc
    reset_to-session_id w (ok d) e h =
        rw (session_id-replace_client d w) (doc.first_device w.container d e)

    reset_to-offline :
        (w : WaClient H C) (r : Result Device)
        → (reset_to W w r).0 ≡ none
        → is_connected W (reset_to W w r).1 ≡ false
    unfolding is_connected replace_client
    reset_to-offline w (err x) h = cc
    reset_to-offline w (ok d) h = doc.new_is_offline d

    reset_to-no_retry :
        (w : WaClient H C) (r : Result Device)
        → w.inner.reconnect.cancel_retry ≡ none
        → (reset_to W w r).1.inner.reconnect.cancel_retry ≡ none
    unfolding replace_client
    reset_to-no_retry w (err x) h = h
    reset_to-no_retry w (ok d) h = h

    session_id-reset_session :
        (w : WaClient H C)
        → (reset_session W w).0 ≡ none
        → session_id W devices (reset_session W w).1 ≡ first (devices w.container)
    unfolding reset_session stop
    session_id-reset_session w h =
        reset_to-session_id (stop W w) (W.get_first_device w.container) refl h

    is_some-id_of : (o : Option DeviceId) → o ≡ none → is_some o ≡ false
    is_some-id_of o e = rw e refl

    reset_session-LoggedOut :
        (w : WaClient H C)
        → OnlyDevice W devices w
        → session_id W devices w ≡ none
        → (reset_session W w).0 ≡ none
        → LoggedOut (reset_session W w).1
    unfolding reset_session has_session phone_number device_store stop
    reset_session-LoggedOut w only e h =
        let no_id = session_id-reset_session w h ∙ rw (only, e) refl in
        record {
          no_session = is_some-id_of _ no_id;
          no_number = ap (user_of W) no_id;
          offline = reset_to-offline (stop W w) (W.get_first_device w.container) h;
          no_retry =
              reset_to-no_retry (stop W w) (W.get_first_device w.container)
                (no_retry_stop w.inner.reconnect);
        }

    -- Where whatsmeow does what it documents and its database has no device but that of the
    -- client, a `Logout` during which nothing else happens, and in which deleting the device and
    -- resetting the session report no error, leaves no session, no phone number, no connection and
    -- no reconnect loop, whether or not the remote logout succeeded.
    pub logout_session-LoggedOut :
        (w : WaClient H C)
        → OnlyDevice W devices w
        → (logout_session W w).0 ≡ none
        → (logout_session W w).1.0 ≡ none
        → LoggedOut (logout_session W w).1.1
    unfolding logout_session stop
    logout_session-LoggedOut w only deleted reset =
        let v = log_out_remotely W (stop W w) in
        let u = disconnect W v in
        let h =
          disconnect-OnlyDevice W devices doc v
            (log_out_remotely-OnlyDevice W devices doc (stop W w) only) in
        reset_session-LoggedOut (delete_present W u).1 (delete_present-OnlyDevice W devices doc u h)
          (session_id-delete_present W devices doc u deleted) reset

    is_some-id :
        (w v : WaClient H C)
        → session_id W devices w ≡ session_id W devices v
        → has_session W w ≡ has_session W v
    unfolding has_session device_store
    is_some-id w v e = ap is_some e

    first-listed : (o : Option DeviceId) → first (listed o) ≡ o
    first-listed none = refl
    first-listed (some i) = refl

    -- Where whatsmeow does what it documents, its database has no device but that of the client,
    -- and the client is not connected, a `Logout` in which deleting the device fails and resetting
    -- the session does not, leaves a client that has a session exactly if it had one before.
    pub has_session-logout_session :
        (w : WaClient H C)
        → OnlyDevice W devices w
        → is_connected W w ≡ false
        → (logout_session W w).0 ≢ none
        → (logout_session W w).1.0 ≡ none
        → has_session W (logout_session W w).1.1 ≡ has_session W w
    unfolding logout_session stop
    has_session-logout_session w only off failed reset =
        let v = log_out_remotely W (stop W w) in
        let u = disconnect W v in
        let h =
          disconnect-OnlyDevice W devices doc v
            (log_out_remotely-OnlyDevice W devices doc (stop W w) only) in
        let s = (delete_present W u).1 in
        is_some-id (reset_session W s).1 w (
          session_id-reset_session s reset
          ∙ (rw (delete_present-OnlyDevice W devices doc u h)
                (first-listed (session_id W devices s))
              ∙ (session_id-delete_present_fails W devices doc u failed
                  ∙ session_id-kept W devices doc w off)))

    opened-OnlyDevice :
        (c : C) (t : Table) (w : WaClient H C) (r : Result Device)
        → devices c ≡ listed (first (devices c))
        → W.get_first_device c ≡ r
        → opened W c t r ≡ ok w
        → OnlyDevice W devices w
    unfolding replace_client
    opened-OnlyDevice c t w (err x) one e h = cc
    opened-OnlyDevice c t w (ok d) one e h =
        rw (← ok_inj h) (rw (doc.store_new d) (one ∙ ap listed (sym (doc.first_device c d e))))

    -- A client that is made from a database with at most one device has the device of the database.
    pub new_wa_client-OnlyDevice :
        (c : C) (t : Table) (w : WaClient H C)
        → devices c ≡ listed (first (devices c))
        → new_wa_client W c t ≡ ok w
        → OnlyDevice W devices w
    unfolding new_wa_client
    new_wa_client-OnlyDevice c t w one h = opened-OnlyDevice c t w (W.get_first_device c) one refl h
