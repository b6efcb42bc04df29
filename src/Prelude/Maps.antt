-- ===== src/Prelude/Maps.antt =====
-- Go maps as association lists with distinct keys, written through `insert` alone.
use Prim.Native.Nat.{suc, ◌≤◌}
use mathlib.Core.Path.{◌≡◌, refl, sym, subst₂, ap}
use mathlib.Core.Logic.{◌≢◌, inl, inr}
use mathlib.Core.Bool.{Bool, true, false}
use mathlib.Core.List.{List, [], ◌∷◌}
use mathlib.Core.Option.{Option, none, some}
use native.Mathlib.Omega.{arith}
use upgrade.Prelude.Tests.{GoKey, ◌==◌, if◌then◌else◌, Bool-cases}
use upgrade.Prelude.Lists.{length, IsIn}

abbrev pub GoMap {ℓ} : Type ℓ → Type ℓ → Type ℓ
GoMap K V = List (K × V)

abbrev pub is_some {ℓ} : {A : Type ℓ} → Option A → Bool
is_some none = false
is_some (some a) = true

-- `m[k]` at a value type whose zero value is `d`.
abbrev pub get_or {ℓ} : {A : Type ℓ} → Option A → A → A
get_or none d = d
get_or (some a) d = a

module _ {ℓ} {K V : Type ℓ} where
  abbrev pub IsFresh : K → GoMap K V → Type ℓ
  IsFresh k [] = Unit
  IsFresh k ((j, v) ∷ m) = (j ≢ k) × IsFresh k m

  -- No key stands twice.
  abbrev pub IsMap : GoMap K V → Type ℓ
  IsMap [] = Unit
  IsMap ((j, v) ∷ m) = IsFresh j m × IsMap m

  -- Every entry of the map satisfies `P`.
  abbrev pub AllEntries {κ} : (K → V → Type κ) → GoMap K V → Type κ
  AllEntries P [] = Unit
  AllEntries P ((j, v) ∷ m) = P j v × AllEntries P m

module _ {ℓ} {K V : Type ℓ} ⦃e : GoKey K⦄ where
  unfoldable pub lookup : K → GoMap K V → Option V
  lookup k [] = none
  lookup k ((j, v) ∷ m) = if j == k then some v else lookup k m

  -- `m[k] = v`
  unfoldable pub insert : K → V → GoMap K V → GoMap K V
  insert k v [] = (k, v) ∷ []
  insert k v ((j, w) ∷ m) = if j == k then (j, v) ∷ m else (j, w) ∷ insert k v m

  pub lookup-insert :
      (k q : K) (v : V) (m : GoMap K V)
      → lookup q (insert k v m) ≡ (if k == q then some v else lookup q m)
  unfolding lookup insert
  lookup-insert k q v [] = refl
  lookup-insert k q v ((j, w) ∷ m) =
      ground (arith, lookup-insert k q v m, e.beq_iff j k, e.beq_iff j q, e.beq_iff k q)

  pub lookup-insert_self : (k : K) (v : V) (m : GoMap K V) → lookup k (insert k v m) ≡ some v
  lookup-insert_self k v m = rw (lookup-insert, (e.beq_iff k k).1 refl)

  pub lookup-insert_ne :
      (k q : K) (v : V) (m : GoMap K V) → k ≢ q → lookup q (insert k v m) ≡ lookup q m
  lookup-insert_ne k q v m h = ground (arith, lookup-insert k q v m, e.beq_iff k q)

  -- Writing a key adds an entry exactly when the key is new.
  pub length-insert :
      (k : K) (v : V) (m : GoMap K V)
      → length (insert k v m) ≡ (if is_some (lookup k m) then length m else suc (length m))
  unfolding lookup insert
  length-insert k v [] = refl
  length-insert k v ((j, w) ∷ m) = ground (arith, length-insert k v m)

  pub length-le-insert : (k : K) (v : V) (m : GoMap K V) → length m ≤ length (insert k v m)
  length-le-insert k v m = ground (arith, length-insert k v m)

  pub length-insert-le : (k : K) (v : V) (m : GoMap K V) → length (insert k v m) ≤ suc (length m)
  length-insert-le k v m = ground (arith, length-insert k v m)

  pub IsFresh-insert :
      (j k : K) (v : V) (m : GoMap K V) → j ≢ k → IsFresh j m → IsFresh j (insert k v m)
  unfolding insert
  IsFresh-insert j k v [] h f = (λ p. h (sym p), tt)
  IsFresh-insert j k v ((i, w) ∷ m) h f = elim (Bool-cases (i == k)) [
    | inl hit ↦ rw hit (f.0, f.1)
    | inr miss ↦ rw miss (f.0, IsFresh-insert j k v m h f.1)
  ]

  pub lookup-IsFresh : (k : K) (m : GoMap K V) → IsFresh k m → lookup k m ≡ none
  unfolding lookup
  lookup-IsFresh k [] f = refl
  lookup-IsFresh k ((i, w) ∷ m) f = elim (Bool-cases (i == k)) [
    | inl hit ↦ absurd (f.0 ((e.beq_iff i k).0 hit))
    | inr miss ↦ rw miss (lookup-IsFresh k m f.1)
  ]

  pub insert-IsMap : (k : K) (v : V) (m : GoMap K V) → IsMap m → IsMap (insert k v m)
  unfolding insert
  insert-IsMap k v [] h = (tt, tt)
  insert-IsMap k v ((i, w) ∷ m) h = elim (Bool-cases (i == k)) [
    | inl hit ↦ rw hit (h.0, h.1)
    | inr miss ↦ rw miss (
      IsFresh-insert i k v m (λ p. absurd (ground (arith, e.beq_iff i k))) h.0,
      insert-IsMap k v m h.1,
    )
  ]

  pub AllEntries-insert {κ} :
      (P : K → V → Type κ) (k : K) (v : V) (m : GoMap K V)
      → ((j : K) → j ≡ k → P j v)
      → AllEntries P m
      → AllEntries P (insert k v m)
  unfolding insert
  AllEntries-insert P k v [] h a = (h k refl, tt)
  AllEntries-insert P k v ((i, w) ∷ m) h a = elim (Bool-cases (i == k)) [
    | inl hit ↦ rw hit (h i ((e.beq_iff i k).0 hit), a.1)
    | inr miss ↦ rw miss (a.0, AllEntries-insert P k v m h a.1)
  ]

  -- A binding that a lookup finds satisfies what all entries satisfy.
  pub AllEntries-lookup {κ} :
      (P : K → V → Type κ) (k : K) (m : GoMap K V) {v : V}
      → AllEntries P m
      → lookup k m ≡ some v
      → P k v
  unfolding lookup
  AllEntries-lookup P k [] a h = cc
  AllEntries-lookup P k ((i, w) ∷ m) {v} a h = elim (Bool-cases (i == k)) [
    | inl hit ↦ subst₂ P ((e.beq_iff i k).0 hit) (ground arith) a.0
    | inr miss ↦ AllEntries-lookup P k m a.1 (ground arith)
  ]

module _ {ℓ} {K V : Type ℓ} where
  pub AllEntries-map {κ μ} :
      (P : K → V → Type κ) (Q : K → V → Type μ)
      → ((k : K) (v : V) → P k v → Q k v)
      → (m : GoMap K V) → AllEntries P m
      → AllEntries Q m
  AllEntries-map P Q h [] a = tt
  AllEntries-map P Q h ((j, v) ∷ m) a = (h j v a.0, AllEntries-map P Q h m a.1)

module _ {K V : Type 0} ⦃e : GoKey K⦄ where
  pub lookup-IsIn : (k : K) (v : V) (m : GoMap K V) → IsMap m → IsIn (k, v) m → lookup k m ≡ some v
  unfolding lookup
  lookup-IsIn k v [] h p = elim p [ ]
  lookup-IsIn k v ((i, w) ∷ m) h (inl p) =
      let key : i ≡ k = sym (ap (λ x. x.0) p) in
      let value : w ≡ v = sym (ap (λ x. x.1) p) in rw (key, value, (e.beq_iff k k).1 refl) refl
  lookup-IsIn k v ((i, w) ∷ m) h (inr p) = elim (Bool-cases (i == k)) [
    | inl hit ↦
        absurd
          (ground (arith, (e.beq_iff i k).0 hit, lookup-IsFresh i m h.0, lookup-IsIn k v m h.1 p))
    | inr miss ↦ rw miss (lookup-IsIn k v m h.1 p)
  ]
