-- ===== src/Prelude/Bags.antt =====
-- How often an item stands in a list, for keys that can be compared.
use Prim.Native.Nat.{ℕ, zero, suc, ◌+◌, ◌≤◌}
use mathlib.Core.Path.{◌≡◌, refl}
use mathlib.Core.Logic.{◌≢◌}
use mathlib.Core.Bool.{Bool, true, false}
use mathlib.Core.List.{List, [], ◌∷◌, ◌++◌}
use mathlib.Core.Option.{some}
use native.Mathlib.Omega.{arith}
use upgrade.Prelude.Tests.{GoKey, ◌==◌, if◌then◌else◌}
use upgrade.Prelude.Lists.{length, get_elem?, set, take}
use upgrade.Prelude.Maps.{get_or}

module _ {K : Type 0} ⦃e : GoKey K⦄ where
  unfoldable pub count : K → List K → ℕ
  count x [] = 0
  count x (y ∷ ys) = (if x == y then 1 else 0) + count x ys

  unfoldable pub contains : K → List K → Bool
  contains x [] = false
  contains x (y ∷ ys) = if x == y then true else contains x ys

  pub count-append : (x : K) (xs ys : List K) → count x (xs ++ ys) ≡ count x xs + count x ys
  unfolding count
  count-append x [] ys = omega arith
  count-append x (z ∷ xs) ys = omega (arith, count-append x xs ys)

  pub count-get_elem? : (x : K) (xs : List K) (i : ℕ) → count x xs ≡ 0 → get_elem? xs i ≢ some x
  unfolding count
  count-get_elem? x [] i h p = cc
  count-get_elem? x (y ∷ ys) zero h p = ground (arith, e.beq_iff x y)
  count-get_elem? x (y ∷ ys) (suc i) h p = count-get_elem? x ys i (ground arith) p

  -- The last item of `k + 1` is the one at index `k`.
  pub count-take-suc :
      (x d : K) (xs : List K) (k : ℕ)
      → length xs ≡ suc k
      → count x xs ≡ count x (take k xs) + (if x == get_or (get_elem? xs k) d then 1 else 0)
  unfolding count
  count-take-suc x d [] k h = absurd (omega arith)
  count-take-suc x d (y ∷ []) zero h = omega arith
  count-take-suc x d (y ∷ z ∷ ys) zero h = absurd (omega arith)
  count-take-suc x d (y ∷ ys) (suc k) h = omega (arith, count-take-suc x d ys k (omega arith))

  -- Writing the last item over item `i`, and dropping it from the end, takes item `i` out.
  pub count-swap_remove :
      (x d : K) (xs : List K) (i k : ℕ)
      → length xs ≡ suc k
      → i ≤ k
      → count x (take k (set xs i (get_or (get_elem? xs k) d)))
          + (if x == get_or (get_elem? xs i) d then 1 else 0)
        ≡ count x xs
  unfolding count
  count-swap_remove x d [] i k h l = absurd (omega arith)
  count-swap_remove x d (y ∷ ys) zero zero h l = omega (arith, count-take-suc x d (y ∷ ys) 0 h)
  count-swap_remove x d (y ∷ ys) zero (suc k) h l =
      omega (arith, count-take-suc x d ys k (omega arith))
  count-swap_remove x d (y ∷ ys) (suc i) zero h l = absurd (omega arith)
  count-swap_remove x d (y ∷ ys) (suc i) (suc k) h l =
      omega (arith, count-swap_remove x d ys i k (omega arith) (omega arith))

  pub count-of_absent : (x : K) (xs : List K) → count x xs ≡ 0 → contains x xs ≡ false
  unfolding count contains
  count-of_absent x [] h = refl
  count-of_absent x (y ∷ ys) h = ground (arith, count-of_absent x ys)

  pub count-take_at :
      (x : K) (xs : List K) (i : ℕ) {y : K}
      → get_elem? xs i ≡ some y
      → count x (take (suc i) xs) ≡ count x (take i xs) + (if x == y then 1 else 0)
  unfolding count
  count-take_at x [] i h = absurd (ground arith)
  count-take_at x (z ∷ zs) zero h = ground arith
  count-take_at x (z ∷ zs) (suc i) h = omega (arith, count-take_at x zs i h)
