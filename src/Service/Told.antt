-- ===== src/Service/Told.antt =====
-- What a frontend that follows the signals knows of the status.
use kha_app.Prelude.{
  ◌≡◌, ◌≢◌, ◌↔◌, ◌∙◌, refl, inl, inr, Bool-cases, Bool, true, false, List, [], ◌∷◌, ◌++◌, arith,
}
use kha_app.Service.State.{
  Status, Signal, connection_status_changed, Service, same_status, emit, set_status,
}

-- The status after some signals.
abbrev pub shown : Status → List Signal → Status
shown s [] = s
shown s (connection_status_changed t ∷ r) = shown t r
shown s (_ ∷ r) = shown s r

-- Every change that is signalled is one.
abbrev pub Changes : Status → List Signal → Type 0
Changes s [] = Unit
Changes s (connection_status_changed t ∷ r) = (t ≢ s) × Changes t r
Changes s (_ ∷ r) = Changes s r

-- From the status at the start the signals lead to the current one.
pub record Told (m : Service) : Type 0 where
  pub is_shown : shown Status.disconnected m.signals ≡ m.status
  pub are_changes : Changes Status.disconnected m.signals

-- A signal that says nothing of the status.
abbrev pub is_other : Signal → Bool
is_other (connection_status_changed t) = false
is_other _ = true

pub shown-snoc :
    (s : Status) (r : List Signal) (x : Signal)
    → is_other x ≡ true
    → shown s (r ++ x ∷ []) ≡ shown s r
shown-snoc s [] x h = ground arith
shown-snoc s (connection_status_changed t ∷ r) x h = shown-snoc t r x h
shown-snoc s (_ ∷ r) x h = shown-snoc s r x h

pub Changes-snoc :
    (s : Status) (r : List Signal) (x : Signal)
    → is_other x ≡ true
    → Changes s r
    → Changes s (r ++ x ∷ [])
Changes-snoc s [] x h c = ground arith
Changes-snoc s (connection_status_changed t ∷ r) x h c = (c.0, Changes-snoc t r x h c.1)
Changes-snoc s (_ ∷ r) x h c = Changes-snoc s r x h c

pub shown-change :
    (s t : Status) (r : List Signal) → shown s (r ++ connection_status_changed t ∷ []) ≡ t
shown-change s t [] = refl
shown-change s t (connection_status_changed u ∷ r) = shown-change u t r
shown-change s t (_ ∷ r) = shown-change s t r

pub Changes-change :
    (s t : Status) (r : List Signal)
    → t ≢ shown s r
    → Changes s r
    → Changes s (r ++ connection_status_changed t ∷ [])
Changes-change s t [] h c = (h, tt)
Changes-change s t (connection_status_changed u ∷ r) h c = (c.0, Changes-change u t r h c.1)
Changes-change s t (_ ∷ r) h c = Changes-change s t r h c

pub same_status_iff : (s t : Status) → (same_status s t ≡ true) ↔ (s ≡ t)
same_status_iff s t = ground arith

pub emit-Told : (x : Signal) (m : Service) → is_other x ≡ true → Told m → Told (emit x m)
unfolding emit
emit-Told x m h k = record {
  is_shown = shown-snoc Status.disconnected m.signals x h ∙ k.is_shown;
  are_changes = Changes-snoc Status.disconnected m.signals x h k.are_changes;
}

-- A change of the status is signalled exactly if it is one.
pub set_status-Told : (s : Status) (m : Service) → Told m → Told (set_status s m)
unfolding set_status emit
set_status-Told s m k = elim (Bool-cases (same_status m.status s)) [
  | inl e ↦ rw e k
  | inr e ↦ rw e (record {
    is_shown = shown-change Status.disconnected s m.signals;
    are_changes =
        Changes-change Status.disconnected s m.signals
          (λ q. ground (arith, same_status_iff m.status s, k.is_shown)) k.are_changes;
  })
]

-- The signals and the status alone decide.
pub Told-same : (m n : Service) → n.status ≡ m.status → n.signals ≡ m.signals → Told m → Told n
Told-same m n e f k = record { is_shown = rw (e, f) k.is_shown; are_changes = rw f k.are_changes }
