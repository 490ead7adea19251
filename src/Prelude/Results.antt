-- ===== src/Prelude/Results.antt =====
-- Rust's `Result`, and methods that mutate an object and may fail.
use mathlib.Core.Option.{Option, none, some}

pub data Result {ℓ} (E A : Type ℓ) : Type ℓ where
  ok : A → Result E A
  err : E → Result E A

-- A method with `&mut self` that returns a `Result`: what was written before an error stays
-- written. `none` means that the method does not return.
abbrev pub Exec {ℓ} : Type ℓ → Type ℓ → Type ℓ → Type ℓ
Exec S E A = S → Option (Result E A × S)

module _ {ℓ} {S E A B : Type ℓ} where
  abbrev continue : Option (Result E A × S) → (A → Exec S E B) → Option (Result E B × S)
  continue none f = none
  continue (some (ok a, s)) f = f a s
  continue (some (err e, s)) f = some (err e, s)

  infixl 5 ◌>>=◌ ◌>>◌
  -- The `?` operator.
  abbrev pub ◌>>=◌ : Exec S E A → (A → Exec S E B) → Exec S E B
  ◌>>=◌ m f s = continue (m s) f

  abbrev pub ◌>>◌ : Exec S E A → Exec S E B → Exec S E B
  m >> n = m >>= λ _. n

module _ {ℓ} {S E A : Type ℓ} where
  abbrev pub pure : A → Exec S E A
  pure a s = some (ok a, s)

  abbrev pub raise : E → Exec S E A
  raise e s = some (err e, s)

-- `?` on a value that is already computed.
abbrev pub and_then {ℓ} : {E A B : Type ℓ} → Result E A → (A → Result E B) → Result E B
and_then (ok a) f = f a
and_then (err e) f = err e
