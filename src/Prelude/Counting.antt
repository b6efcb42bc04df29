-- ===== src/Prelude/Counting.antt =====
-- How many numbers below a bound satisfy a test, and when two quorums meet.
use Prim.Native.Nat.{ℕ, zero, suc, ◌+◌, ◌<◌, ◌≤◌}
use mathlib.Core.Path.{◌≡◌, refl}
use mathlib.Core.Logic.{◌⊎◌, inl, inr}
use mathlib.Core.Bool.{Bool, true, false, not, ◌&&◌}
use mathlib.Core.List.{[], ◌∷◌}
use mathlib.Core.Option.{some, none}
use native.Mathlib.Omega.{arith}
use upgrade.Prelude.Tests.{nat_eq, ◌==◌, if◌then◌else◌, Bool-cases, Option-cases}
use upgrade.Prelude.Lists.{length}
use upgrade.Prelude.Maps.{
  GoMap, lookup, is_some, IsFresh, IsMap, AllEntries, AllEntries-map, AllEntries-lookup,
}

unfoldable pub count_below : ℕ → (ℕ → Bool) → ℕ
count_below zero p = 0
count_below (suc n) p = (if p n then 1 else 0) + count_below n p

pub count_below_mono :
    (n : ℕ) (p q : ℕ → Bool)
    → ((i : ℕ) → i < n → p i ≡ true → q i ≡ true)
    → count_below n p ≤ count_below n q
unfolding count_below
count_below_mono zero p q h = omega arith
count_below_mono (suc n) p q h =
    ground (arith, h n (omega arith), count_below_mono n p q (λ i l. h i (omega arith)))

pub count_below-le : (n : ℕ) (p : ℕ → Bool) → count_below n p ≤ n
unfolding count_below
count_below-le zero p = omega arith
count_below-le (suc n) p = ground (arith, count_below-le n p)

-- Inclusion and exclusion, without the union.
pub count_below-and :
    (n : ℕ) (p q : ℕ → Bool)
    → count_below n p + count_below n q ≤ n + count_below n (λ i. p i && q i)
unfolding count_below
count_below-and zero p q = omega arith
count_below-and (suc n) p q = ground (arith, count_below-and n p q)

-- More hits than the test `q` can absorb: one of them fails `q`.
pub count_below-find :
    (n : ℕ) (p q : ℕ → Bool)
    → count_below n q < count_below n p
    → (i : ℕ) × (i < n) × (p i ≡ true) × (q i ≡ false)
unfolding count_below
count_below-find zero p q h = absurd (omega arith)
count_below-find (suc n) p q h = elim (Bool-cases (p n && not (q n))) [
  | inl hit ↦ (n, omega arith, ground arith, ground arith)
  | inr miss ↦ let (i, l, a, b) = count_below-find n p q (ground arith) in (i, omega arith, a, b)
]

-- Two sets of more than `n + f` members between them share a member outside a set of `f`.
pub quorums_meet :
    (n : ℕ) (p q faulty : ℕ → Bool)
    → n + count_below n faulty < count_below n p + count_below n q
    → (i : ℕ) × (i < n) × (p i ≡ true) × (q i ≡ true) × (faulty i ≡ false)
quorums_meet n p q faulty h =
    let (i, l, b, f) =
      count_below-find n (λ i. p i && q i) faulty (omega (arith, count_below-and n p q)) in
    (i, l, ground arith, ground arith, f)

count_below_congr :
    (n k : ℕ) (p : ℕ → Bool)
    → n ≤ k
    → count_below n (λ i. if k == i then true else p i) ≡ count_below n p
unfolding count_below
count_below_congr zero k p h = refl
count_below_congr (suc n) k p h = ground (arith, count_below_congr n k p)

pub count_below-add :
    (n k : ℕ) (p : ℕ → Bool)
    → k < n
    → p k ≡ false
    → count_below n (λ i. if k == i then true else p i) ≡ suc (count_below n p)
unfolding count_below
count_below-add zero k p h f = absurd (omega arith)
count_below-add (suc n) k p h f = elim (Bool-cases (k == n)) [
  | inl e ↦ ground (arith, count_below_congr n k p)
  | inr e ↦ ground (arith, count_below-add n k p)
]

module _ {V : Type 0} where
  pub IsFresh-lookup : (k : ℕ) (m : GoMap ℕ V) → IsFresh k m → lookup k m ≡ none
  unfolding lookup
  IsFresh-lookup k [] f = refl
  IsFresh-lookup k ((j, v) ∷ m) f = ground (arith, IsFresh-lookup k m)

  -- Distinct keys below `n` are no more than the numbers below `n` that are keys.
  length-le-count_keys :
      (n : ℕ) (m : GoMap ℕ V)
      → IsMap m
      → AllEntries (λ k v. k < n) m
      → length m ≤ count_below n (λ i. is_some (lookup i m))
  length-le-count_keys n [] h a = omega arith
  length-le-count_keys n ((j, v) ∷ m) h a = omega (
    arith,
    length-le-count_keys n m h.1 a.1,
    count_below-add n j (λ i. is_some (lookup i m)) a.0 (rw (IsFresh-lookup j m h.0)),
    count_below_mono n (λ i. if j == i then true else is_some (lookup i m))
        (λ i. is_some (lookup i ((j, v) ∷ m))) (λ i l. step i),
  )
    where
      step :
          (i : ℕ)
          → (if j == i then true else is_some (lookup i m)) ≡ true
          → is_some (lookup i ((j, v) ∷ m)) ≡ true
      step i e = unfold lookup in ground arith

  -- So a map of `k` nodes that all satisfy `p` is a set of `k` nodes that satisfy `p`.
  pub length-le-count :
      (n : ℕ) (p : ℕ → Bool) (m : GoMap ℕ V)
      → IsMap m
      → AllEntries (λ k v. (k < n) × (p k ≡ true)) m
      → length m ≤ count_below n p
  length-le-count n p m h a = omega (
    arith,
    length-le-count_keys n m h
        (AllEntries-map (λ k v. (k < n) × (p k ≡ true)) (λ k v. k < n) (λ k v b. b.0) m a),
    count_below_mono n (λ i. is_some (lookup i m)) p
        (λ i l e. found i e (Option-cases (lookup i m))),
  )
    where
      found :
          (i : ℕ)
          → is_some (lookup i m) ≡ true
          → (lookup i m ≡ none) ⊎ ((v : V) × (lookup i m ≡ some v))
          → p i ≡ true
      found i e (inl z) = ground arith
      found i e (inr (v, z)) = (AllEntries-lookup (λ k v. (k < n) × (p k ≡ true)) i m a z).1

pub count_below-none : (n : ℕ) → count_below n (λ i. false) ≡ 0
unfolding count_below
count_below-none zero = refl
count_below-none (suc n) = omega (arith, count_below-none n)

count_below-add_le :
    (n k : ℕ) (p : ℕ → Bool)
    → count_below n (λ i. if k == i then true else p i) ≤ suc (count_below n p)
unfolding count_below
count_below-add_le zero k p = omega arith
count_below-add_le (suc n) k p = elim (Bool-cases (k == n)) [
  | inl e ↦ ground (arith, count_below_congr n k p)
  | inr e ↦ ground (arith, count_below-add_le n k p)
]

module _ {V : Type 0} where
  pub count_keys-le-length :
      (n : ℕ) (m : GoMap ℕ V) → count_below n (λ i. is_some (lookup i m)) ≤ length m
  unfolding lookup
  count_keys-le-length n [] = omega (arith, count_below-none n)
  count_keys-le-length n ((j, v) ∷ m) = omega (
    arith,
    count_keys-le-length n m,
    count_below-add_le n j (λ i. is_some (lookup i m)),
    count_below_mono n (λ i. is_some (if j == i then some v else lookup i m))
        (λ i. if j == i then true else is_some (lookup i m)) (λ i l e. ground arith),
  )
