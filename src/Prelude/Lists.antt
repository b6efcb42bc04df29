-- ===== src/Prelude/Lists.antt =====
-- Lists measured and indexed by native numbers, under the library's names.
use Prim.Native.Nat.{ℕ, zero, suc, ◌+◌, ◌<◌, ◌≤◌}
use mathlib.Core.Path.{◌≡◌, refl, sym, subst, ap}
use mathlib.Core.Logic.{◌≢◌, ◌⊎◌, inl, inr}
use mathlib.Core.List.{List, [], ◌∷◌, ◌++◌}
use mathlib.Core.Option.{Option, none, some}
use native.Mathlib.Omega.{arith}

module _ {ℓ} {A : Type ℓ} where
  abbrev pub length : List A → ℕ
  length [] = 0
  length (x ∷ xs) = suc (length xs)

  abbrev pub get_elem? : List A → ℕ → Option A
  get_elem? [] i = none
  get_elem? (x ∷ xs) zero = some x
  get_elem? (x ∷ xs) (suc i) = get_elem? xs i

  -- A write out of bounds changes nothing.
  abbrev pub set : List A → ℕ → A → List A
  set [] i v = []
  set (x ∷ xs) zero v = v ∷ xs
  set (x ∷ xs) (suc i) v = x ∷ set xs i v

  abbrev pub replicate : ℕ → A → List A
  replicate zero a = []
  replicate (suc n) a = a ∷ replicate n a

  abbrev pub take : ℕ → List A → List A
  take zero xs = []
  take (suc n) [] = []
  take (suc n) (x ∷ xs) = x ∷ take n xs

  abbrev pub drop : ℕ → List A → List A
  drop zero xs = xs
  drop (suc n) [] = []
  drop (suc n) (x ∷ xs) = drop n xs

  pub length-append : (xs ys : List A) → length (xs ++ ys) ≡ length xs + length ys
  length-append [] ys = omega arith
  length-append (x ∷ xs) ys = omega (arith, length-append xs ys)

  pub append_nil : (xs : List A) → xs ++ [] ≡ xs
  append_nil [] = refl
  append_nil (x ∷ xs) = ap (λ ys. x ∷ ys) (append_nil xs)

  pub length-set : (xs : List A) (i : ℕ) (v : A) → length (set xs i v) ≡ length xs
  length-set [] i v = refl
  length-set (x ∷ xs) zero v = refl
  length-set (x ∷ xs) (suc i) v = ap suc (length-set xs i v)

  pub length-replicate : (n : ℕ) (a : A) → length (replicate n a) ≡ n
  length-replicate zero a = refl
  length-replicate (suc n) a = ap suc (length-replicate n a)

  pub get_elem?-replicate :
      (n : ℕ) (a : A) (i : ℕ) {b : A} → get_elem? (replicate n a) i ≡ some b → a ≡ b
  get_elem?-replicate zero a i h = absurd (ground arith)
  get_elem?-replicate (suc n) a zero h = ground arith
  get_elem?-replicate (suc n) a (suc i) h = get_elem?-replicate n a i h

  pub get_elem?-set_self :
      (xs : List A) (i : ℕ) (v : A) → i < length xs → get_elem? (set xs i v) i ≡ some v
  get_elem?-set_self [] i v h = elim h [ ]
  get_elem?-set_self (x ∷ xs) zero v h = refl
  get_elem?-set_self (x ∷ xs) (suc i) v h = get_elem?-set_self xs i v (omega arith)

  pub get_elem?-set_ne :
      (xs : List A) (i j : ℕ) (v : A) → i ≢ j → get_elem? (set xs i v) j ≡ get_elem? xs j
  get_elem?-set_ne [] i j v h = refl
  get_elem?-set_ne (x ∷ xs) zero zero v h = absurd (h refl)
  get_elem?-set_ne (x ∷ xs) zero (suc j) v h = refl
  get_elem?-set_ne (x ∷ xs) (suc i) zero v h = refl
  get_elem?-set_ne (x ∷ xs) (suc i) (suc j) v h = get_elem?-set_ne xs i j v (λ e. h (ap suc e))

  pub get_elem?-lt : (xs : List A) (i : ℕ) {a : A} → get_elem? xs i ≡ some a → i < length xs
  get_elem?-lt [] i h = absurd (ground arith)
  get_elem?-lt (x ∷ xs) zero h = omega arith
  get_elem?-lt (x ∷ xs) (suc i) h = omega (arith, get_elem?-lt xs i h)

  pub take-append : (xs ys : List A) (k : ℕ) → length xs ≡ k → take k (xs ++ ys) ≡ xs
  take-append [] ys zero h = refl
  take-append [] ys (suc k) h = absurd (omega arith)
  take-append (x ∷ xs) ys zero h = absurd (omega arith)
  take-append (x ∷ xs) ys (suc k) h = ap (λ zs. x ∷ zs) (take-append xs ys k (omega arith))

  pub drop-append : (xs ys : List A) (k : ℕ) → length xs ≡ k → drop k (xs ++ ys) ≡ ys
  drop-append [] ys zero h = refl
  drop-append [] ys (suc k) h = absurd (omega arith)
  drop-append (x ∷ xs) ys zero h = absurd (omega arith)
  drop-append (x ∷ xs) ys (suc k) h = drop-append xs ys k (omega arith)

  -- A write past the first `k` items does not show among them.
  pub take-set : (xs : List A) (k j : ℕ) (v : A) → k ≤ j → take k (set xs j v) ≡ take k xs
  take-set xs zero j v h = refl
  take-set [] (suc k) j v h = refl
  take-set (x ∷ xs) (suc k) zero v h = absurd (omega arith)
  take-set (x ∷ xs) (suc k) (suc j) v h = ap (λ ys. x ∷ ys) (take-set xs k j v (omega arith))

  pub take_all : (xs : List A) (k : ℕ) → length xs ≤ k → take k xs ≡ xs
  take_all [] zero h = refl
  take_all [] (suc k) h = refl
  take_all (x ∷ xs) zero h = absurd (omega arith)
  take_all (x ∷ xs) (suc k) h = ap (λ ys. x ∷ ys) (take_all xs k (omega arith))

  pub length-take : (xs : List A) (k : ℕ) → k ≤ length xs → length (take k xs) ≡ k
  length-take xs zero h = refl
  length-take [] (suc k) h = absurd (omega arith)
  length-take (x ∷ xs) (suc k) h = ap suc (length-take xs k (omega arith))

  -- Out of range a read gives nothing.
  pub get_elem?-eq-none : (xs : List A) (i : ℕ) → length xs ≤ i → get_elem? xs i ≡ none
  get_elem?-eq-none [] i h = refl
  get_elem?-eq-none (x ∷ xs) zero h = absurd (omega arith)
  get_elem?-eq-none (x ∷ xs) (suc i) h = get_elem?-eq-none xs i (omega arith)

  pub get_elem?-append :
      (xs ys : List A) (i : ℕ) → i < length xs → get_elem? (xs ++ ys) i ≡ get_elem? xs i
  get_elem?-append [] ys i h = elim h [ ]
  get_elem?-append (x ∷ xs) ys zero h = refl
  get_elem?-append (x ∷ xs) ys (suc i) h = get_elem?-append xs ys i (omega arith)

  pub get_elem?-append_length :
      (xs : List A) (a : A) (i : ℕ) → length xs ≡ i → get_elem? (xs ++ a ∷ []) i ≡ some a
  get_elem?-append_length [] a zero h = refl
  get_elem?-append_length [] a (suc i) h = absurd (omega arith)
  get_elem?-append_length (x ∷ xs) a zero h = absurd (omega arith)
  get_elem?-append_length (x ∷ xs) a (suc i) h = get_elem?-append_length xs a i (omega arith)

  -- Every item satisfies `P`.
  abbrev pub All {κ} : (A → Type κ) → List A → Type κ
  All P [] = Unit
  All P (x ∷ xs) = P x × All P xs

  pub All-of {κ} : {P : A → Type κ} → ((a : A) → P a) → (xs : List A) → All P xs
  All-of h [] = tt
  All-of h (x ∷ xs) = (h x, All-of h xs)

  pub All-append {κ} : (P : A → Type κ) (xs ys : List A) → All P xs → All P ys → All P (xs ++ ys)
  All-append P [] ys h k = k
  All-append P (x ∷ xs) ys h k = (h.0, All-append P xs ys h.1 k)

  pub get_elem?-eq-some :
      (xs : List A) (i : ℕ) → i < length xs → (a : A) × (get_elem? xs i ≡ some a)
  get_elem?-eq-some [] i h = elim h [ ]
  get_elem?-eq-some (x ∷ xs) zero h = (x, refl)
  get_elem?-eq-some (x ∷ xs) (suc i) h = get_elem?-eq-some xs i (omega arith)

  pub All-map {κ μ} :
      (P : A → Type κ) (Q : A → Type μ)
      → ((a : A) → P a → Q a)
      → (xs : List A) → All P xs
      → All Q xs
  All-map P Q f [] h = tt
  All-map P Q f (x ∷ xs) h = (f x h.0, All-map P Q f xs h.1)

module _ {A : Type 0} where
  -- The item stands in the list.
  abbrev pub IsIn : A → List A → Type 0
  IsIn a [] = ⊥
  IsIn a (x ∷ xs) = (a ≡ x) ⊎ IsIn a xs

  pub IsIn-append_left : (a : A) (xs ys : List A) → IsIn a xs → IsIn a (xs ++ ys)
  IsIn-append_left a [] ys h = absurd h
  IsIn-append_left a (x ∷ xs) ys (inl e) = inl e
  IsIn-append_left a (x ∷ xs) ys (inr h) = inr (IsIn-append_left a xs ys h)

  pub IsIn-append_right : (a : A) (xs ys : List A) → IsIn a ys → IsIn a (xs ++ ys)
  IsIn-append_right a [] ys h = h
  IsIn-append_right a (x ∷ xs) ys h = inr (IsIn-append_right a xs ys h)

  pub All-IsIn {κ} : (P : A → Type κ) (xs : List A) (a : A) → All P xs → IsIn a xs → P a
  All-IsIn P [] a h i = absurd i
  All-IsIn P (x ∷ xs) a h (inl e) = subst P (sym e) h.0
  All-IsIn P (x ∷ xs) a h (inr i) = All-IsIn P xs a h.1 i
