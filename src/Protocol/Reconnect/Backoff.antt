-- ===== src/Protocol/Reconnect/Backoff.antt =====
-- The delays between two attempts.
use native.Mathlib.Nat.{zero-add, add-zero}
use kha_app.Prelude.{
  ℕ, zero, suc, ◌+◌, ◌^◌, ◌≡◌, refl, ap, ◌∙◌, false, Option, none, some, List, [], ◌∷◌, Text, arith,
  ltb, length, if◌then◌else◌,
}
use kha_app.Protocol.Reconnect.{Loop, next_delay, timer, round}

-- The delay of a loop after some failed attempts in a row.
delay_after : ℕ → ℕ
delay_after zero = 2
delay_after (suc n) = next_delay (delay_after n)

delay_after_five : (n : ℕ) → delay_after (suc (suc (suc (suc (suc n))))) ≡ 60
unfolding delay_after next_delay
delay_after_five zero = refl
delay_after_five (suc n) = rw (delay_after_five n) refl

abbrev pub bounded_power : ℕ → ℕ
bounded_power n = if ltb n 5 then 2 ^ suc n else 60

delay_after_lem : (n : ℕ) → delay_after n ≡ bounded_power n
unfolding delay_after next_delay
delay_after_lem zero = refl
delay_after_lem (suc zero) = refl
delay_after_lem (suc (suc zero)) = refl
delay_after_lem (suc (suc (suc zero))) = refl
delay_after_lem (suc (suc (suc (suc zero)))) = refl
delay_after_lem (suc (suc (suc (suc (suc n))))) = delay_after_five n ∙ ground arith

-- Rounds in which the timer fires, there is no connection, and `Connect` returns an error.
unfoldable pub fail_rounds : List Text → Loop → Option Loop
unfolding round
fail_rounds [] l = some l
fail_rounds (e ∷ es) l = elim (round (timer false (some e)) l) [
  | none ↦ none
  | some m ↦ fail_rounds es m
]

fail_rounds_from :
    (es : List Text) (l : Loop) (n : ℕ)
    → l.delay ≡ delay_after n
    → fail_rounds es l ≡ some (record l { delay = delay_after (length es + n) })
unfolding fail_rounds delay_after
fail_rounds_from [] l n h = rw (zero-add, ← h)
fail_rounds_from (e ∷ es) l n h =
    fail_rounds_from es (record l { delay = next_delay l.delay }) (suc n) (ap next_delay h)
    ∙ ap (λ d. some (record l { delay = delay_after d })) {x = length es + suc n}
        {y = suc (length es) + n} (omega arith)

-- A loop whose delay is 2 seconds goes on after any number of attempts that fail, with a delay of
-- 4, 8, 16 and 32 seconds and from the fifth on of 60.
pub fail_rounds_lem :
    (es : List Text) (l : Loop)
    → l.delay ≡ 2
    → fail_rounds es l ≡ some (record l { delay = bounded_power (length es) })
unfolding delay_after
fail_rounds_lem es l h =
    fail_rounds_from es l 0 h
    ∙ ap (λ d. some (record l { delay = d }))
        (ap delay_after (add-zero (length es)) ∙ delay_after_lem (length es))
