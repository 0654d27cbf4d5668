-- ===== src/Service/Loop/Acknowledged.antt =====
-- The receipts that are stored and those that are told.
use mathlib.Core.List.{append-nil, append_assoc}
use kha_app.Prelude.{◌≡◌, sym, ◌∙◌, ◌⊎◌, inl, inr, List, [], ◌∷◌, ◌++◌, arith, ℤ, pos, Text}
use kha_app.Prelude.Result.{Outcome}
use kha_app.Storage.Table.{Write, sets_receipt}
use kha_app.Protocol.Event.{receipt}
use kha_app.Protocol.Client.{Answers}
use kha_app.Protocol.Client.Persistence.{receipt_writes, writes}
use kha_app.Protocol.Receipt
use kha_app.Service.State.{Service, Signal, emit, message_acknowledged}
use kha_app.Service.Receipt.{map_receipt_type_lem}
use kha_app.Service.Loop.{LoopAnswers, acknowledge, on_event}

-- The signals for some writes.
abbrev pub told_for : List (Outcome × Write) → List Signal
told_for [] = []
told_for ((o, sets_receipt i k) ∷ ws) = message_acknowledged i k ∷ told_for ws
told_for (_ ∷ ws) = told_for ws

signals-acknowledge :
    (b : Answers) (k : ℤ) (ids : List Text) (m : Service)
    → (acknowledge k ids m).signals ≡ m.signals ++ told_for (receipt_writes b k ids)
unfolding acknowledge receipt_writes emit
signals-acknowledge b k [] m = sym (append-nil m.signals)
signals-acknowledge b k (i ∷ ids) m =
    signals-acknowledge b k ids (emit (message_acknowledged i k) m)
    ∙ append_assoc m.signals (message_acknowledged i k ∷ []) (told_for (receipt_writes b k ids))

receipt_cases :
    (receipt_type : Text)
    → (Receipt.map_receipt_type receipt_type ≡ pos 0)
      ⊎ ((Receipt.map_receipt_type receipt_type ≡ pos 1)
          ⊎ (Receipt.map_receipt_type receipt_type ≡ pos 2))
unfolding Receipt.map_receipt_type
receipt_cases receipt_type = ground arith

-- For a receipt the event loop tells what the event handler asks the store to write: one signal for
-- each update, in the same order and with the same value, and none where there is no update.
pub signals-receipt :
    (a : LoopAnswers) (b : Answers) (receipt_type : Text) (ids : List Text) (m : Service)
    → (on_event a (receipt receipt_type ids) m).signals
      ≡ m.signals ++ told_for (writes b (receipt receipt_type ids))
unfolding on_event writes
signals-receipt a b receipt_type ids m = elim (receipt_cases receipt_type) [
  | inl e ↦ rw (map_receipt_type_lem receipt_type, e) (sym (append-nil m.signals))
  | inr (inl e) ↦ rw (map_receipt_type_lem receipt_type, e) (signals-acknowledge b (pos 1) ids m)
  | inr (inr e) ↦ rw (map_receipt_type_lem receipt_type, e) (signals-acknowledge b (pos 2) ids m)
]
