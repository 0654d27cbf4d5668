-- ===== src/Protocol/Session/Devices.antt =====
-- What whatsmeow documents of its client and of its database of devices, and what the steps of the
-- service's `Logout` keep of it.
use kha_app.Prelude.{
  Bool, false, ◌≡◌, ◌≢◌, refl, ◌∙◌, arith, Option, none, some, List, [], ◌∷◌, inl, inr, ◌&&◌,
  Option-cases, Bool-cases, ◌==◌, ==_iff, same_text, same_text_refl, if◌then◌else◌,
}
use kha_app.Prelude.Result.{ok, Outcome}
use kha_app.Protocol.Session.{
  DeviceId, Device, Whatsmeow, WaClient, is_some, and_then, device_store, is_connected, stop,
  disconnect, logout, delete_device, log_out_remotely, delete_present,
}

abbrev pub same_id : DeviceId → DeviceId → Bool
same_id i j = same_text i.user j.user && i.device == j.device

-- The devices but one.
abbrev pub without : DeviceId → List DeviceId → List DeviceId
without i [] = []
without i (j ∷ js) = let rest = without i js in if same_id i j then rest else j ∷ rest

abbrev pub first : List DeviceId → Option DeviceId
first [] = none
first (i ∷ is) = some i

abbrev pub listed : Option DeviceId → List DeviceId
listed none = []
listed (some i) = i ∷ []

module _ {H C : Type 0} (W : Whatsmeow H C) (devices : C → List DeviceId) where
  abbrev pub id_of : H → Option DeviceId
  id_of h = and_then (W.store h) (λ d. d.id)

  -- The device of a client was deleted: it has no id any more, and its row is gone.
  pub record Deletes (before after : H × C) : Type 0 where
    pub no_id : id_of after.0 ≡ none
    pub same_rows : id_of before.0 ≡ none → devices after.1 ≡ devices before.1
    pub row_gone :
        (i : DeviceId) → id_of before.0 ≡ some i → devices after.1 ≡ without i (devices before.1)

  -- The device of a client and the rows are as they were.
  pub record Keeps (before after : H × C) : Type 0 where
    pub same_store : W.store after.0 ≡ W.store before.0
    pub same_rows : devices after.1 ≡ devices before.1

  abbrev pub Deleted : Outcome → H × C → H × C → Type 0
  Deleted none before after = Deletes before after
  Deleted (some e) before after = Keeps before after

  -- What whatsmeow documents: a new client has the device that it is given and is not connected;
  -- `Disconnect` closes the connection and keeps the device; `Logout` and `Delete` delete the device
  -- or, on an error, keep it; `GetFirstDevice` returns the first device of the database or, if it
  -- has none, a new one, which has no id.
  pub record Documented : Type 0 where
    pub store_new : (d : Device) → W.store (W.new_client d) ≡ some d
    pub new_is_offline : (d : Device) → W.is_connected (W.new_client d) ≡ false
    pub store_disconnect : (h : H) → W.store (W.disconnect h) ≡ W.store h
    pub logout_deletes : (h : H) (c : C) → Deleted (W.logout h c).0 (h, c) (W.logout h c).1
    pub delete_deletes :
        (h : H) (c : C) → Deleted (W.delete_device h c).0 (h, c) (W.delete_device h c).1
    pub first_device : (c : C) (d : Device) → W.get_first_device c ≡ ok d → d.id ≡ first (devices c)

  abbrev pub session_id : WaClient H C → Option DeviceId
  session_id w = and_then (and_then w.client W.store) (λ d. d.id)

  -- The database has the device of the client and no other.
  abbrev pub OnlyDevice : WaClient H C → Type 0
  OnlyDevice w = devices w.container ≡ listed (session_id w)

  listed_without : (i : DeviceId) → without i (listed (some i)) ≡ []
  listed_without i = ground (arith, same_text_refl i.user, ==_iff i.device i.device)

  Deleted-Only :
      (o : Outcome) (before after : H × C)
      → Deleted o before after
      → devices before.1 ≡ listed (id_of before.0)
      → devices after.1 ≡ listed (id_of after.0)
  Deleted-Only none before after d only = elim (Option-cases (id_of before.0)) [
    | inl e ↦ rw (d.no_id, d.same_rows e, only, e) refl
    | inr (i, e) ↦ rw (d.no_id, d.row_gone i e, only, e) (listed_without i)
  ]
  Deleted-Only (some x) before after k only = rw (k.same_store, k.same_rows, only) refl

  Deleted-no_id :
      (o : Outcome) (before after : H × C)
      → Deleted o before after
      → o ≡ none
      → id_of after.0 ≡ none
  Deleted-no_id none before after d e = d.no_id
  Deleted-no_id (some x) before after d e = cc

  Deleted-same :
      (o : Outcome) (before after : H × C)
      → Deleted o before after
      → o ≢ none
      → id_of after.0 ≡ id_of before.0
  Deleted-same none before after d ne = ground (arith, ne refl)
  Deleted-same (some x) before after k ne = rw k.same_store refl

  no_id-no_device : (o : Option Device) → is_some o ≡ false → and_then o (λ d. d.id) ≡ none
  no_id-no_device none e = refl
  no_id-no_device (some d) e = cc

  module _ (doc : Documented) where
    pub logout-OnlyDevice : (w : WaClient H C) → OnlyDevice w → OnlyDevice (logout W w).1
    unfolding logout
    logout-OnlyDevice w only = elim (Option-cases w.client) [
      | inl e ↦ rw e (rw e at only)
      | inr (h, e) ↦ rw e (
          Deleted-Only (W.logout h w.container).0 (h, w.container) (W.logout h w.container).1
            (doc.logout_deletes h w.container) (rw e at only))
    ]

    pub delete_device-OnlyDevice :
        (w : WaClient H C) → OnlyDevice w → OnlyDevice (delete_device W w).1
    unfolding delete_device
    delete_device-OnlyDevice w only = elim (Option-cases w.client) [
      | inl e ↦ rw e (rw e at only)
      | inr (h, e) ↦ rw e (
          Deleted-Only (W.delete_device h w.container).0 (h, w.container)
            (W.delete_device h w.container).1 (doc.delete_deletes h w.container) (rw e at only))
    ]

    pub session_id-delete_device :
        (w : WaClient H C) → (delete_device W w).0 ≡ none → session_id (delete_device W w).1 ≡ none
    unfolding delete_device
    session_id-delete_device w e = elim (Option-cases w.client) [
      | inl c ↦ rw (delete_device, c) (rw c refl)
      | inr (h, c) ↦
          rw (delete_device, c)
            (Deleted-no_id (W.delete_device h w.container).0 (h, w.container)
              (W.delete_device h w.container).1 (doc.delete_deletes h w.container)
              (rw (delete_device, c) at e))
    ]

    pub disconnect-OnlyDevice : (w : WaClient H C) → OnlyDevice w → OnlyDevice (disconnect W w)
    unfolding disconnect stop
    disconnect-OnlyDevice w only = elim (Option-cases w.client) [
      | inl e ↦ rw e (rw e at only)
      | inr (h, e) ↦ rw (e, doc.store_disconnect h) (rw e at only)
    ]

    pub log_out_remotely-OnlyDevice :
        (w : WaClient H C) → OnlyDevice w → OnlyDevice (log_out_remotely W w)
    unfolding log_out_remotely
    log_out_remotely-OnlyDevice w only = elim (Bool-cases (is_connected W w)) [
      | inl e ↦ rw e (logout-OnlyDevice w only)
      | inr e ↦ rw e only
    ]

    pub delete_present-OnlyDevice :
        (w : WaClient H C) → OnlyDevice w → OnlyDevice (delete_present W w).1
    unfolding delete_present
    delete_present-OnlyDevice w only = elim (Bool-cases (is_some (device_store W w))) [
      | inl e ↦ rw e (delete_device-OnlyDevice w only)
      | inr e ↦ rw e only
    ]

    pub session_id-delete_present :
        (w : WaClient H C)
        → (delete_present W w).0 ≡ none
        → session_id (delete_present W w).1 ≡ none
    unfolding delete_present device_store
    session_id-delete_present w e = elim (Bool-cases (is_some (device_store W w))) [
      | inl x ↦ rw x (session_id-delete_device w (rw x at e))
      | inr x ↦ rw x (no_id-no_device (and_then w.client W.store) x)
    ]

    session_id-disconnect : (w : WaClient H C) → session_id (disconnect W w) ≡ session_id w
    unfolding disconnect stop
    session_id-disconnect w = elim (Option-cases w.client) [
      | inl e ↦ rw e refl
      | inr (h, e) ↦ rw (e, doc.store_disconnect h) refl
    ]

    session_id-delete_fails :
        (w : WaClient H C)
        → (delete_device W w).0 ≢ none
        → session_id (delete_device W w).1 ≡ session_id w
    unfolding delete_device
    session_id-delete_fails w ne = elim (Option-cases w.client) [
      | inl c ↦ rw (delete_device, c) (rw c refl)
      | inr (h, c) ↦
          rw (delete_device, c)
            (Deleted-same (W.delete_device h w.container).0 (h, w.container)
              (W.delete_device h w.container).1 (doc.delete_deletes h w.container)
              (rw (delete_device, c) at ne))
    ]

    pub session_id-delete_present_fails :
        (w : WaClient H C)
        → (delete_present W w).0 ≢ none
        → session_id (delete_present W w).1 ≡ session_id w
    unfolding delete_present
    session_id-delete_present_fails w ne = elim (Bool-cases (is_some (device_store W w))) [
      | inl x ↦ rw x (session_id-delete_fails w (rw x at ne))
      | inr x ↦ rw x refl
    ]

    pub session_id-kept :
        (w : WaClient H C)
        → is_connected W w ≡ false
        → session_id (disconnect W (log_out_remotely W (stop W w))) ≡ session_id w
    unfolding log_out_remotely is_connected stop
    session_id-kept w off = session_id-disconnect (log_out_remotely W (stop W w)) ∙ rw off refl
