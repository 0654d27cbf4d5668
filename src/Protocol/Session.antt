-- ===== src/Protocol/Session.antt =====
-- daemon/protocol/client.go: `NewWAClient`, `replaceClient`, `Connect`, `Disconnect`, `Logout`,
-- `IsConnected`, `HasSession`, `DeviceStore`, `PhoneNumber`, `ContactNames` and `ResetSession`, and the
-- body of `Logout` of daemon/dbus/service.go, which calls them. whatsmeow's client (a `H`) and its
-- database of devices (a `C`) are parameters.
pub mod Devices
pub mod LoggedOut
use kha_app.Prelude.{
  ℕ, Bool, true, false, ◌≡◌, Option, none, some, List, [], ◌∷◌, Text, if◌then◌else◌,
}
use kha_app.Prelude.Result.{Result, ok, err, Outcome}
use kha_app.Storage.Table.{Table}
use kha_app.Protocol.Event.{ContactInfo}
use kha_app.Protocol.Reconnect.{Reconnect, idle, stop_reconnect}
use kha_app.Protocol.Client.{Client}

-- `types.JID` of a device, in the fields by which two devices differ.
pub record DeviceId : Type 0 where
  pub user : Text
  pub device : ℕ

-- `store.Device`: `id` is none for a nil pointer; `contacts` for a nil interface, else it is what
-- `GetAllContacts` returns.
pub record Device : Type 0 where
  pub id : Option DeviceId
  pub contacts : Option (Result (List (Text × ContactInfo)))

-- whatsmeow's functions. A client points to its device, so deleting the device is an operation on
-- the client here.
pub record Whatsmeow (H C : Type 0) : Type 0 where
  pub new_client : Device → H
  pub store : H → Option Device
  pub is_connected : H → Bool
  pub connect : H → Outcome × H
  pub disconnect : H → H
  pub logout : H → C → Outcome × (H × C)
  pub delete_device : H → C → Outcome × (H × C)
  pub get_first_device : C → Result Device

-- `WAClient`; `inner` is the part that the event handler works on.
pub record WaClient (H C : Type 0) : Type 0 where
  pub client : Option H
  pub container : C
  pub inner : Client

abbrev pub is_some {ℓ} : {A : Type ℓ} → Option A → Bool
is_some none = false
is_some (some a) = true

abbrev pub and_then : {A B : Type 0} → Option A → (A → Option B) → Option B
and_then none f = none
and_then (some a) f = f a

module _ {H C : Type 0} (W : Whatsmeow H C) where
  unfoldable pub replace_client : Device → WaClient H C → WaClient H C
  replace_client device w = record w { client = some (W.new_client device) }

  abbrev new_inner : Table → Client
  new_inner t = record { table = t; events = []; reconnect = idle; presences = 0 }

  abbrev pub opened : C → Table → Result Device → Result (WaClient H C)
  opened c t (err e) = err e
  opened c t (ok device) =
      ok (replace_client device (record { client = none; container = c; inner = new_inner t }))

  unfoldable pub new_wa_client : C → Table → Result (WaClient H C)
  unfolding replace_client
  new_wa_client c t = opened c t (W.get_first_device c)

  -- `w.client.Store`.
  unfoldable pub device_store : WaClient H C → Option Device
  device_store w = and_then w.client W.store

  unfoldable pub has_session : WaClient H C → Bool
  unfolding device_store
  has_session w = is_some (and_then (device_store w) (λ d. d.id))

  unfoldable pub is_connected : WaClient H C → Bool
  is_connected w = elim w.client [ none ↦ false | some h ↦ W.is_connected h ]

  abbrev user_of : Option DeviceId → Text
  user_of none = []
  user_of (some i) = i.user

  unfoldable pub phone_number : WaClient H C → Text
  unfolding device_store
  phone_number w = user_of (and_then (device_store w) (λ d. d.id))

  abbrev contacts_or_none :
      Option (Result (List (Text × ContactInfo))) → Result (List (Text × ContactInfo))
  contacts_or_none none = ok []
  contacts_or_none (some r) = r

  unfoldable pub contact_names : WaClient H C → Result (List (Text × ContactInfo))
  unfolding device_store
  contact_names w = contacts_or_none (and_then (device_store w) (λ d. d.contacts))

  -- `StopReconnect`.
  unfoldable pub stop : WaClient H C → WaClient H C
  unfolding stop_reconnect
  stop w = record w { inner = record w.inner { reconnect = stop_reconnect w.inner.reconnect } }

  abbrev with_client : WaClient H C → Outcome × H → Outcome × WaClient H C
  with_client w (o, h) = (o, record w { client = some h })

  abbrev with_both : WaClient H C → Outcome × (H × C) → Outcome × WaClient H C
  with_both w (o, (h, c)) = (o, record w { client = some h; container = c })

  -- The methods below call one of `w.client`, which `NewWAClient` has set; none of them is reached
  -- without.
  unfoldable pub connect : WaClient H C → Outcome × WaClient H C
  connect w = elim w.client [ none ↦ (none, w) | some h ↦ with_client w (W.connect h) ]

  unfoldable pub disconnect : WaClient H C → WaClient H C
  unfolding stop
  disconnect w =
      let v = stop w in
      elim v.client [ none ↦ v | some h ↦ record v { client = some (W.disconnect h) } ]

  unfoldable pub logout : WaClient H C → Outcome × WaClient H C
  logout w = elim w.client [ none ↦ (none, w) | some h ↦ with_both w (W.logout h w.container) ]

  abbrev pub reset_to : WaClient H C → Result Device → Outcome × WaClient H C
  reset_to w (err e) = (some e, w)
  reset_to w (ok device) = (none, replace_client device w)

  unfoldable pub reset_session : WaClient H C → Outcome × WaClient H C
  unfolding stop replace_client
  reset_session w = reset_to (stop w) (W.get_first_device w.container)

  -- `device.Delete` of the service, on the device of the client.
  unfoldable pub delete_device : WaClient H C → Outcome × WaClient H C
  delete_device w = elim w.client [
    | none ↦ (none, w)
    | some h ↦ with_both w (W.delete_device h w.container)
  ]

  -- The parts of the service's `Logout`, while nothing else happens.
  unfoldable pub log_out_remotely : WaClient H C → WaClient H C
  unfolding is_connected logout
  log_out_remotely w = if is_connected w then (logout w).1 else w

  unfoldable pub delete_present : WaClient H C → Outcome × WaClient H C
  unfolding device_store delete_device
  delete_present w = if is_some (device_store w) then delete_device w else (none, w)

  abbrev pub then_reset : Outcome × WaClient H C → Outcome × (Outcome × WaClient H C)
  then_reset (deleted, w) = (deleted, reset_session w)

  -- The errors of the deletion and of the reset, which are only logged, and the client.
  unfoldable pub logout_session : WaClient H C → Outcome × (Outcome × WaClient H C)
  unfolding stop disconnect log_out_remotely delete_present reset_session
  logout_session w = then_reset (delete_present (disconnect (log_out_remotely (stop w))))
