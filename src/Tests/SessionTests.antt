-- ===== src/Tests/SessionTests.antt =====
-- The theorems on the session at a concrete whatsmeow: a client is its device and whether it is
-- online, a database is the list of its devices.
use kha_app.Prelude.{
  ◌≡◌, refl, sym, ap, Bool, true, false, Option, none, some, List, [], ◌∷◌, codes, same_text,
}
use kha_app.Prelude.Result.{ok, Outcome, ok_inj}
use kha_app.Protocol.Session.{
  DeviceId, Device, Whatsmeow, WaClient, has_session, is_connected, logout_session, replace_client,
  stop, logout, disconnect, device_store, delete_device, reset_session, log_out_remotely,
  delete_present,
}
use kha_app.Protocol.Session.Devices.{without, first, Deleted, Documented}
use kha_app.Protocol.Session.LoggedOut.{
  LoggedOut, logout_session-LoggedOut, has_session-logout_session,
}
use kha_app.Tests.Data.{new_client}

record Handle : Type 0 where
  device : Device
  online : Bool

abbrev own_id : DeviceId
own_id = record { user = codes "49123"; device = 3 }

abbrev device_with : Option DeviceId → Device
device_with i = record { id = i; contacts = none }

abbrev without_id : Handle → Handle
without_id h = record h { device = record h.device { id = none } }

abbrev delete_row :
    Bool → Handle → List DeviceId → Option DeviceId → Outcome × (Handle × List DeviceId)
delete_row works h c none = (none, (h, c))
delete_row false h c (some i) = (some (codes "database is locked"), (h, c))
delete_row true h c (some i) = (none, (without_id h, without i c))

-- The argument tells whether the database can be written.
abbrev whatsmeow : Bool → Whatsmeow Handle (List DeviceId)
whatsmeow works = record {
  new_client = λ d. record { device = d; online = false };
  store = λ h. some h.device;
  is_connected = λ h. h.online;
  connect = λ h. (none, record h { online = true });
  disconnect = λ h. record h { online = false };
  logout = λ h c. delete_row works h c h.device.id;
  delete_device = λ h c. delete_row works h c h.device.id;
  get_first_device = λ c. ok (device_with (first c));
}

abbrev devices : List DeviceId → List DeviceId
devices c = c

delete_row-Deleted :
    (works : Bool) (h : Handle) (c : List DeviceId) (o : Option DeviceId)
    → h.device.id ≡ o
    → Deleted (whatsmeow works) devices (delete_row works h c o).0 (h, c) (delete_row works h c o).1
delete_row-Deleted works h c none e = record {
  no_id = e;
  same_rows = λ x. refl;
  row_gone = λ j x. cc (e, x);
}
delete_row-Deleted false h c (some i) e = record { same_store = refl; same_rows = refl }
delete_row-Deleted true h c (some i) e = record {
  no_id = refl;
  same_rows = λ x. cc;
  row_gone = λ j x. cc (e, x);
}

whatsmeow-Documented : (works : Bool) → Documented (whatsmeow works) devices
whatsmeow-Documented works = record {
  store_new = λ d. refl;
  new_is_offline = λ d. refl;
  store_disconnect = λ h. refl;
  logout_deletes = λ h c. delete_row-Deleted works h c h.device.id refl;
  delete_deletes = λ h c. delete_row-Deleted works h c h.device.id refl;
  first_device = λ c d e. sym (ap (λ (x : Device). x.id) (ok_inj e));
}

abbrev signed_in : Bool → WaClient Handle (List DeviceId)
signed_in online = record {
  client = some (record { device = device_with (some own_id); online = online });
  container = own_id ∷ [];
  inner = new_client;
}

logout_session-LoggedOut_example :
    LoggedOut (whatsmeow true) devices (logout_session (whatsmeow true) (signed_in true)).1.1
unfolding logout_session log_out_remotely delete_present logout disconnect device_store
    delete_device reset_session stop is_connected replace_client same_text
logout_session-LoggedOut_example =
    logout_session-LoggedOut (whatsmeow true) devices (whatsmeow-Documented true) (signed_in true)
      refl refl refl

has_session-logout_session_example :
    has_session (whatsmeow false) (logout_session (whatsmeow false) (signed_in false)).1.1
    ≡ has_session (whatsmeow false) (signed_in false)
unfolding logout_session log_out_remotely delete_present logout disconnect device_store
    delete_device reset_session stop is_connected replace_client same_text
has_session-logout_session_example =
    has_session-logout_session (whatsmeow false) devices (whatsmeow-Documented false)
      (signed_in false) refl refl (λ x. cc x) refl
