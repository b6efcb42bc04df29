-- ===== src/BinaryAgreement/Votes.antt =====
-- The nested maps and queues of `Run`, and what their updates leave.
use upgrade.Prelude.{
  ℕ, ◌<◌, ◌≤◌, ◌≡◌, Bool, true, ◌&&◌, List, [], ◌∷◌, ◌++◌, lookup, insert, lookup-insert, length,
  IsMap, insert-IsMap, AllEntries, AllEntries-insert, AllEntries-map, length-le-count, count_below,
  ◌==◌, nat_eq, nat_beq_iff, if◌then◌else◌, Bool-cases, inl, inr, subst, arith, All, All-append,
}
use upgrade.BinaryAgreement.{Votes, Values, Queues, at, voters, has, handle_bcs, add_value, enqueue}

pub at-insert :
    {V : Type 0} (r q : ℕ) (v : List V) (m : List (ℕ × List V))
    → at q (insert r v m) ≡ (if r == q then v else at q m)
at-insert r q v m = ground (arith, lookup-insert r q v m)

voters-handle_bcs :
    (r v s q w : ℕ) (vals : Votes)
    → voters q w (handle_bcs r v s vals)
      ≡ (if (r == q) && (v == w) then insert s true (voters r v vals) else voters q w vals)
unfolding handle_bcs
voters-handle_bcs r v s q w vals = ground (
  arith,
  at-insert r q (insert v (insert s true (voters r v vals)) (at r vals)) vals,
  at-insert v w (insert s true (voters r v vals)) (at r vals),
)

pub has-add_value :
    (r v q w : ℕ) (vals : Values)
    → has q w (add_value r v vals) ≡ (if (r == q) && (v == w) then true else has q w vals)
unfolding add_value
has-add_value r v q w vals =
    ground
      (arith, at-insert r q (insert v true (at r vals)) vals, lookup-insert v w true (at r vals))

-- What holds of every entry of a queue, and of the new one, holds after `enqueue`.
pub enqueue-All {κ} :
    (P : ℕ → List ℕ → Type κ) (r : ℕ) (vs : List ℕ) (q : Queues)
    → P r vs
    → ((i : ℕ) → All (P i) (at i q))
    → (i : ℕ) → All (P i) (at i (enqueue r vs q))
unfolding enqueue
enqueue-All P r vs q p h i = elim (Bool-cases (r == i)) [
  | inl same ↦
      let e = (nat_beq_iff r i).0 same in
      rw (at-insert r i (at r q ++ vs ∷ []) q, same)
        (subst (λ j. All (P j) (at r q ++ vs ∷ [])) e
          (All-append (P r) (at r q) (vs ∷ []) (h r) (p, tt)))
  | inr differ ↦ rw (at-insert r i (at r q ++ vs ∷ []) q, differ) (h i)
]

-- What holds of every entry of a queue holds after the oldest is taken off.
pub dequeue-All {κ} :
    (P : ℕ → List ℕ → Type κ) (r : ℕ) (rest : List (List ℕ)) (q : Queues)
    → All (P r) rest
    → ((i : ℕ) → All (P i) (at i q))
    → (i : ℕ) → All (P i) (at i (insert r rest q))
dequeue-All P r rest q p h i = elim (Bool-cases (r == i)) [
  | inl same ↦
      rw (at-insert r i rest q, same) (subst (λ j. All (P j) rest) ((nat_beq_iff r i).0 same) p)
  | inr differ ↦ rw (at-insert r i rest q, differ) (h i)
]

-- Every voter of the maps is a node below `n` of which the test holds, and stands once.
abbrev pub Counts : ℕ → (ℕ → ℕ → ℕ → Bool) → Votes → Type 0
Counts n p vals =
    (r v : ℕ)
    → IsMap (voters r v vals) × AllEntries (λ i _. (i < n) × (p r v i ≡ true)) (voters r v vals)

pub Counts-empty : (n : ℕ) (p : ℕ → ℕ → ℕ → Bool) → Counts n p []
unfolding lookup
Counts-empty n p r v = (tt, tt)

pub Counts-mono :
    (n : ℕ) (p q : ℕ → ℕ → ℕ → Bool) (vals : Votes)
    → ((r v i : ℕ) → p r v i ≡ true → q r v i ≡ true)
    → Counts n p vals
    → Counts n q vals
Counts-mono n p q vals f k r v = (
  (k r v).0,
  AllEntries-map (λ i _. (i < n) × (p r v i ≡ true)) (λ i _. (i < n) × (q r v i ≡ true))
      (λ i _ a. (a.0, f r v i a.1)) (voters r v vals) (k r v).1,
)

pub handle_bcs-Counts :
    (n : ℕ) (p : ℕ → ℕ → ℕ → Bool) (r v s : ℕ) (vals : Votes)
    → s < n
    → p r v s ≡ true
    → Counts n p vals
    → Counts n p (handle_bcs r v s vals)
handle_bcs-Counts n p r v s vals l e k q w = elim (Bool-cases ((r == q) && (v == w))) [
  | inl same ↦
      let er = (nat_beq_iff r q).0 (ground arith) in
      let ev = (nat_beq_iff v w).0 (ground arith) in
      rw (voters-handle_bcs r v s q w vals, same, ← er, ← ev)
        (
          insert-IsMap s true (voters r v vals) (k r v).0,
          AllEntries-insert (λ i _. (i < n) × (p r v i ≡ true)) s true (voters r v vals)
              (λ j z. rw z (l, e)) (k r v).1,
        )
  | inr differ ↦ rw (voters-handle_bcs r v s q w vals, differ) (k q w)
]

pub Counts-count :
    (n : ℕ) (p : ℕ → ℕ → ℕ → Bool) (vals : Votes) (r v : ℕ)
    → Counts n p vals
    → length (voters r v vals) ≤ count_below n (p r v)
Counts-count n p vals r v k = length-le-count n (p r v) (voters r v vals) (k r v).0 (k r v).1
