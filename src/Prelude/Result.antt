-- ===== src/Prelude/Result.antt =====
-- A Go function that returns a value and an `error`.
use kha_app.Prelude.{◌≡◌, Text, Option}

pub data Result {ℓ} (A : Type ℓ) : Type ℓ where
  ok : A → Result A
  err : Text → Result A

infixl 5 ◌>>=◌
abbrev pub ◌>>=◌ {ℓ κ} : {A : Type ℓ} {B : Type κ} → Result A → (A → Result B) → Result B
ok a >>= f = f a
err e >>= f = err e

-- What an operation of a component outside the program returns where it gives an `error` alone:
-- `none` is nil.
abbrev pub Outcome : Type 0
Outcome = Option Text

pub ok_inj {ℓ} : {A : Type ℓ} {a b : A} → ok a ≡ ok b → a ≡ b
ok_inj h = cc
