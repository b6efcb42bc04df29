-- ===== src/Block/Quality.antt =====
-- utils/block.go: the quality of a pre-block through `AddMessage`.
use upgrade.Prelude.{
  ℕ, zero, suc, ◌≤◌, ◌<◌, ◌≡◌, refl, ◌≢◌, Option, none, some, List, [], ◌∷◌, if◌then◌else◌,
  get_elem?, set, replicate, length, length-set, get_elem?-set_self, get_elem?-set_ne,
  get_elem?-eq-none, get_elem?-eq-some, is_some, get_or, panic, Returns, Ensures, arith, ◌↔◌,
}
use upgrade.Crypto.{Crypto}
use upgrade.Block.{
  PreBlock, PreBlockMessage, add_at, add_message, count_set, quality, new_pre_block,
}

module _ ⦃c : Crypto⦄ where
  count_set-le : (vec : List (Option PreBlockMessage)) → count_set vec ≤ length vec
  unfolding count_set
  count_set-le [] = omega arith
  count_set-le (none ∷ vec) = omega (arith, count_set-le vec)
  count_set-le (some m ∷ vec) = omega (arith, count_set-le vec)

  count_set-set :
      (vec : List (Option PreBlockMessage)) (i : ℕ) (m : PreBlockMessage)
      → get_elem? vec i ≡ some none
      → count_set (set vec i (some m)) ≡ suc (count_set vec)
  unfolding count_set
  count_set-set [] i m h = absurd (ground arith)
  count_set-set (none ∷ vec) zero m h = refl
  count_set-set (some o ∷ vec) zero m h = absurd (ground arith)
  count_set-set (none ∷ vec) (suc i) m h = count_set-set vec i m h
  count_set-set (some o ∷ vec) (suc i) m h = omega (arith, count_set-set vec i m h)

  count_set-replicate : (n : ℕ) → count_set (replicate n none) ≡ 0
  unfolding count_set
  count_set-replicate zero = refl
  count_set-replicate (suc n) = count_set-replicate n

  pub quality-new_pre_block : (n : ℕ) → quality (new_pre_block n) ≡ 0
  unfolding quality new_pre_block
  quality-new_pre_block n = count_set-replicate n

  pub quality-le-length : (pre : PreBlock) → quality pre ≤ length pre.vec
  unfolding quality
  quality-le-length pre = count_set-le pre.vec

  -- What `AddMessage` at an index in range leaves: one more set entry if the slot was free, the
  -- first message of the node kept if not, and every other slot, the length and the size untouched.
  pub record Adds (pre : PreBlock) (node : ℕ) (m : PreBlockMessage) (r : PreBlock) : Type 0 where
    pub entry : get_elem? r.vec node ≡ some (some (get_or (get_or (get_elem? pre.vec node) none) m))
    pub others : (j : ℕ) → node ≢ j → get_elem? r.vec j ≡ get_elem? pre.vec j
    pub width : length r.vec ≡ length pre.vec
    pub size : r.size ≡ pre.size
    pub counted : quality r ≡ (
        if is_some (get_or (get_elem? pre.vec node) none) then quality pre else suc (quality pre))

  add_at-Adds :
      (pre : PreBlock) (node : ℕ) (m : PreBlockMessage) (o : Option (Option PreBlockMessage))
      → get_elem? pre.vec node ≡ o
      → node < length pre.vec
      → Returns (add_at pre node m o) (Adds pre node m)
  unfolding add_at quality
  add_at-Adds pre node m none e h = let (a, p) = get_elem?-eq-some pre.vec node h in cc
  add_at-Adds pre node m (some none) e h = (
    record pre { vec = set pre.vec node (some m) },
    refl,
    record {
      entry = rw e (get_elem?-set_self pre.vec node (some m) h);
      others = λ j ne. get_elem?-set_ne pre.vec node j (some m) ne;
      width = length-set pre.vec node (some m);
      size = refl;
      counted = rw e (count_set-set pre.vec node m e);
    },
  )
  add_at-Adds pre node m (some (some old)) e h = (
    pre,
    refl,
    record { entry = rw e; others = λ j ne. refl; width = refl; size = refl; counted = rw e },
  )

  -- In range `AddMessage` returns, and does what `Adds` says.
  pub add_message-Adds :
      (pre : PreBlock) (node : ℕ) (m : PreBlockMessage)
      → node < length pre.vec
      → Returns (add_message pre node m) (Adds pre node m)
  unfolding add_message
  add_message-Adds pre node m h = add_at-Adds pre node m (get_elem? pre.vec node) refl h

  -- `AddMessage` panics exactly when the node's index is past the end of the vector.
  pub add_message-eq-panic :
      (pre : PreBlock) (node : ℕ) (m : PreBlockMessage)
      → (add_message pre node m ≡ panic) ↔ (length pre.vec ≤ node)
  unfolding add_message
  add_message-eq-panic pre node m = (to, from)
    where
      to : add_at pre node m (get_elem? pre.vec node) ≡ panic → length pre.vec ≤ node
      to e = ground (arith, add_at-Adds pre node m (get_elem? pre.vec node) refl)

      from : length pre.vec ≤ node → add_at pre node m (get_elem? pre.vec node) ≡ panic
      from h = rw (get_elem?-eq-none pre.vec node h) (unfold add_at in refl)

  count_set-le-set :
      (vec : List (Option PreBlockMessage)) (i : ℕ) (m : PreBlockMessage)
      → count_set vec ≤ count_set (set vec i (some m))
  unfolding count_set
  count_set-le-set [] i m = omega arith
  count_set-le-set (none ∷ vec) zero m = omega arith
  count_set-le-set (some old ∷ vec) zero m = omega arith
  count_set-le-set (none ∷ vec) (suc i) m = count_set-le-set vec i m
  count_set-le-set (some old ∷ vec) (suc i) m = omega (arith, count_set-le-set vec i m)

  quality-add_at :
      (pre : PreBlock) (i : ℕ) (m : PreBlockMessage) (o : Option (Option PreBlockMessage))
      → Ensures (λ r. quality pre ≤ quality r) (add_at pre i m o)
  unfolding add_at quality
  quality-add_at pre i m none = tt
  quality-add_at pre i m (some none) = count_set-le-set pre.vec i m
  quality-add_at pre i m (some (some old)) = omega arith

  pub quality-le-add_message :
      (pre : PreBlock) (i : ℕ) (m : PreBlockMessage)
      → Ensures (λ r. quality pre ≤ quality r) (add_message pre i m)
  unfolding add_message
  quality-le-add_message pre i m = quality-add_at pre i m (get_elem? pre.vec i)
