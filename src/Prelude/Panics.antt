-- ===== src/Prelude/Panics.antt =====
-- Code that may panic: an index out of range or a nil dereference.
use mathlib.Core.Path.{◌≡◌, subst}

pub data Run {ℓ} (V : Type ℓ) : Type ℓ where
  panic : Run V
  ok : V → Run V

infixl 5 ◌>>=◌
abbrev pub ◌>>=◌ {ℓ κ} : {V : Type ℓ} {W : Type κ} → Run V → (V → Run W) → Run W
panic >>= next = panic
ok v >>= next = next v

-- The run ends normally, in a value that satisfies `P`.
abbrev pub Returns {ℓ κ} : {V : Type ℓ} → Run V → (V → Type κ) → Type (ℓ ⊔ κ)
Returns {V} run P = (v : V) × (run ≡ ok v) × P v

-- If the run ends normally, its value satisfies `P`.
abbrev pub Ensures {ℓ κ} : {V : Type ℓ} → (V → Type κ) → Run V → Type κ
Ensures P panic = Unit
Ensures P (ok v) = P v

pub Ensures-ok {ℓ κ} :
    {V : Type ℓ} (P : V → Type κ) (run : Run V) (v : V) → Ensures P run → run ≡ ok v → P v
Ensures-ok P run v h q = subst (Ensures P) q h
