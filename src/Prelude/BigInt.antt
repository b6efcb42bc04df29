-- ===== src/Prelude/BigInt.antt =====
-- `math/big` on natural numbers: `SetBytes` and `Bytes`, big endian without leading zeros.
use Prim.Native.Nat.{ℕ, zero, suc, ◌+◌, ◌*◌, ◌/◌, ◌%◌, ◌<◌}
use mathlib.Core.Path.{◌≡◌, refl, ◌∙◌, ap, sym}
use mathlib.Core.Logic.{inl, inr}
use mathlib.Core.Bool.{true, false}
use mathlib.Core.List.{[], ◌∷◌, ◌++◌, append_assoc}
use native.Mathlib.Omega.{arith}
use upgrade.Prelude.Tests.{Bytes, nat_eq, ◌==◌, Bool-cases}
use upgrade.Prelude.Lists.{All, append_nil}

set_bytes_from : ℕ → Bytes → ℕ
set_bytes_from acc [] = acc
set_bytes_from acc (b ∷ bs) = set_bytes_from (acc * 256 + b) bs

unfoldable pub set_bytes : Bytes → ℕ
unfolding set_bytes_from
set_bytes bs = set_bytes_from 0 bs

-- The fuel `suc n` exceeds the number of digits of `n`.
to_bytes_loop : ℕ → ℕ → Bytes → Bytes
to_bytes_loop zero n acc = acc
to_bytes_loop (suc f) n acc = elim (n == 0) [
  | true ↦ acc
  | false ↦ to_bytes_loop f (n / 256) ((n % 256) ∷ acc)
]

unfoldable pub to_bytes : ℕ → Bytes
unfolding to_bytes_loop
to_bytes n = to_bytes_loop (suc n) n []

set_bytes-to_bytes_loop :
    (f n : ℕ) (acc : Bytes)
    → n < f
    → set_bytes_from 0 (to_bytes_loop f n acc) ≡ set_bytes_from n acc
unfolding to_bytes_loop set_bytes_from
set_bytes-to_bytes_loop zero n acc h = absurd (omega arith)
set_bytes-to_bytes_loop (suc f) n acc h = elim (Bool-cases (n == 0)) [
  | inl z ↦ ground arith
  | inr more ↦
      rw (more, to_bytes_loop)
        (set_bytes-to_bytes_loop f (n / 256) ((n % 256) ∷ acc) (ground arith)
          ∙ ap (λ k. set_bytes_from k acc) (omega arith))
]

-- A number is what its bytes stand for.
pub set_bytes-to_bytes : (n : ℕ) → set_bytes (to_bytes n) ≡ n
unfolding set_bytes to_bytes set_bytes_from
set_bytes-to_bytes n = set_bytes-to_bytes_loop (suc n) n [] (omega arith)

-- The bytes without the zeros in front.
abbrev pub drop_zeros : Bytes → Bytes
drop_zeros [] = []
drop_zeros (zero ∷ bs) = drop_zeros bs
drop_zeros (suc b ∷ bs) = suc b ∷ bs

to_bytes_loop-append : (f n : ℕ) (acc : Bytes) → to_bytes_loop f n acc ≡ to_bytes_loop f n [] ++ acc
unfolding to_bytes_loop
to_bytes_loop-append zero n acc = refl
to_bytes_loop-append (suc f) n acc = elim (Bool-cases (n == 0)) [
  | inl z ↦ ground arith
  | inr more ↦
      rw (more, to_bytes_loop)
        (to_bytes_loop-append f (n / 256) ((n % 256) ∷ acc)
          ∙ sym (append_assoc (to_bytes_loop f (n / 256) []) ((n % 256) ∷ []) acc)
          ∙ ap (λ xs. xs ++ acc) (sym (to_bytes_loop-append f (n / 256) ((n % 256) ∷ []))))
]

-- More fuel changes nothing.
to_bytes_loop-fuel :
    (f g n : ℕ) (acc : Bytes) → n < f → n < g → to_bytes_loop f n acc ≡ to_bytes_loop g n acc
unfolding to_bytes_loop
to_bytes_loop-fuel zero g n acc h k = absurd (omega arith)
to_bytes_loop-fuel (suc f) zero n acc h k = absurd (omega arith)
to_bytes_loop-fuel (suc f) (suc g) n acc h k = elim (Bool-cases (n == 0)) [
  | inl z ↦ ground arith
  | inr more ↦
      rw (more, to_bytes_loop)
        (to_bytes_loop-fuel f g (n / 256) ((n % 256) ∷ acc) (ground arith) (ground arith))
]

-- The last digit.
to_bytes-digit :
    (n b : ℕ) → b < 256 → 0 < n * 256 + b → to_bytes (n * 256 + b) ≡ to_bytes n ++ b ∷ []
unfolding to_bytes to_bytes_loop
to_bytes-digit n b h pos =
    let more : (n * 256 + b == 0) ≡ false = ground arith in
    let quotient : (n * 256 + b) / 256 ≡ n = omega arith in
    let digit : (n * 256 + b) % 256 ≡ b = omega arith in
    rw (more, to_bytes_loop)
      (rw (quotient, digit)
        (to_bytes_loop-fuel (n * 256 + b) (suc n) n (b ∷ []) (omega arith) (omega arith)
          ∙ to_bytes_loop-append (suc n) n (b ∷ [])))

to_bytes-set_bytes_from :
    (n : ℕ) (bs : Bytes)
    → 0 < n
    → All (λ b. b < 256) bs
    → to_bytes (set_bytes_from n bs) ≡ to_bytes n ++ bs
unfolding set_bytes_from
to_bytes-set_bytes_from n [] pos h = sym (append_nil (to_bytes n))
to_bytes-set_bytes_from n (b ∷ bs) pos h =
    to_bytes-set_bytes_from (n * 256 + b) bs (omega arith) h.1
    ∙ ap (λ xs. xs ++ bs) (to_bytes-digit n b h.0 (omega arith))
    ∙ append_assoc (to_bytes n) (b ∷ []) bs

-- Bytes that go through a number lose the zeros in front, and nothing else.
pub to_bytes-set_bytes :
    (bs : Bytes) → All (λ b. b < 256) bs → to_bytes (set_bytes bs) ≡ drop_zeros bs
unfolding set_bytes set_bytes_from to_bytes to_bytes_loop
to_bytes-set_bytes [] h = refl
to_bytes-set_bytes (zero ∷ bs) h = to_bytes-set_bytes bs h.1
to_bytes-set_bytes (suc b ∷ bs) h =
    to_bytes-set_bytes_from (0 * 256 + suc b) bs (omega arith) h.1
    ∙ ap (λ xs. xs ++ bs) (to_bytes-digit 0 (suc b) h.0 (omega arith))
