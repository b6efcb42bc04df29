-- ===== src/Tardigrade/Buffer/Draws.antt =====
-- tardigrade/tardigrade.go: what `proposeTxs` picks.
use upgrade.Prelude.{
  ℕ, zero, suc, ◌+◌, ◌%◌, ◌<◌, ◌≤◌, ◌≡◌, ◌≢◌, ◌⊎◌, refl, Option-cases, lookup-insert,
  count_below-le, count_keys-le-length, is_some, ◌||◌, AllEntries-map, AllEntries-lookup,
  nat_beq_iff, get_elem?-eq-some, ap, ◌∙◌, Bytes, Bool, true, false, Option, none, some, inl, inr,
  List, [], ◌∷◌, ◌++◌, GoMap, lookup, insert, get_or, get_elem?, length, ltb, ◌==◌, nat_eq,
  if◌then◌else◌, Run, ok, arith, IsMap, AllEntries, All, Bool-cases, count_below, length-le-count,
  insert-IsMap, AllEntries-insert, length-insert, count_below_mono, append_nil,
}
use mathlib.Core.List.{append_assoc}
use upgrade.Tardigrade.Buffer.{Node, choose, propose_txs}

-- The transactions at some indices of the buffer.
abbrev pub At : List Bytes → List ℕ → List Bytes → Type 0
At buf [] [] = Unit
At buf [] (tx ∷ txs) = ⊥
At buf (i ∷ is) [] = ⊥
At buf (i ∷ is) (tx ∷ txs) = (get_elem? buf i ≡ some tx) × At buf is txs

abbrev pub IsNew : ℕ → List ℕ → Type 0
IsNew i [] = Unit
IsNew i (j ∷ js) = (j ≢ i) × IsNew i js

abbrev pub AreDistinct : List ℕ → Type 0
AreDistinct [] = Unit
AreDistinct (i ∷ is) = IsNew i is × AreDistinct is

-- A choice of `l` transactions at distinct indices below `m`.
pub record IsChoice (buf : List Bytes) (m l : ℕ) (txs : List Bytes) : Type 0 where
  pub indices : List ℕ
  pub distinct : AreDistinct indices
  pub below : All (λ i. i < m) indices
  pub taken : At buf indices txs
  pub many : length txs ≡ l
  pub enough : l ≤ m

-- Index `i` is drawn.
abbrev pub drawn : ℕ → List ℕ → ℕ → Bool
drawn m [] i = false
drawn m (d ∷ draws) i = if d % m == i then true else drawn m draws i

-- What the loop still adds, from the indices `seen` on.
record Rest (buf : List Bytes) (m l : ℕ) (seen : GoMap ℕ Bool) (txs : List Bytes) : Type 0 where
  indices : List ℕ
  distinct : AreDistinct indices
  below : All (λ i. i < m) indices
  fresh : All (λ i. lookup i seen ≡ none) indices
  taken : At buf indices txs
  many : length txs ≡ l
  enough : length seen + l ≤ m

abbrev IsSeen : ℕ → GoMap ℕ Bool → Type 0
IsSeen m seen = IsMap seen × AllEntries (λ k v. (k < m) × (v ≡ true)) seen

abbrev shown : ℕ → List ℕ → GoMap ℕ Bool → ℕ → Bool
shown m draws seen i = is_some (lookup i seen) || drawn m draws i

-- The loop goes on, with too few indices shown, or it ends.
abbrev Picks :
    List Bytes → ℕ → ℕ → List ℕ → GoMap ℕ Bool → List Bytes → Run (Option (List Bytes)) → Type 0
Picks buf m l draws seen result run =
    ((run ≡ ok none) × (count_below m (shown m draws seen) < length seen + l))
    ⊎ ((more : List Bytes) × (run ≡ ok (some (result ++ more))) × Rest buf m l seen more)

length-seen : (m : ℕ) (seen : GoMap ℕ Bool) → IsSeen m seen → length seen ≤ m
length-seen m seen h = omega (
  arith,
  length-le-count m (λ i. true) seen h.0
      (AllEntries-map (λ k v. (k < m) × (v ≡ true)) (λ k v. (k < m) × (true ≡ true))
        (λ k v a. (a.0, refl)) seen h.1),
  count_below-le m (λ i. true),
)

unseen :
    (seen : GoMap ℕ Bool) (m i : ℕ)
    → IsSeen m seen
    → get_or (lookup i seen) false ≡ false
    → lookup i seen ≡ none
unseen seen m i h e = elim (Option-cases (lookup i seen)) [
  | inl p ↦ p
  | inr (v, p) ↦
      absurd (ground (arith, (AllEntries-lookup (λ k v. (k < m) × (v ≡ true)) i seen h.1 p).1))
]

insert-IsSeen :
    (seen : GoMap ℕ Bool) (m i : ℕ) → i < m → IsSeen m seen → IsSeen m (insert i true seen)
insert-IsSeen seen m i l h = (
  insert-IsMap i true seen h.0,
  AllEntries-insert (λ k v. (k < m) × (v ≡ true)) i true seen (λ j e. (rw e l, refl)) h.1,
)

older :
    (seen : GoMap ℕ Bool) (i : ℕ) (is : List ℕ)
    → All (λ j. lookup j (insert i true seen) ≡ none) is
    → IsNew i is × All (λ j. lookup j seen ≡ none) is
older seen i [] h = (tt, tt)
older seen i (j ∷ js) h =
    let ih = older seen i js h.1 in
    elim (Bool-cases (i == j)) [
      | inl same ↦ absurd (ground (arith, lookup-insert i j true seen, h.0))
      | inr other ↦ (
        (λ e. absurd (ground (arith, nat_beq_iff i j)), ih.0),
        (ground (arith, lookup-insert i j true seen, h.0), ih.1),
      )
    ]

module _ (buf : List Bytes) (m d : ℕ) (draws : List ℕ) (l : ℕ) (seen : GoMap ℕ Bool)
    (result : List Bytes) (pos : 0 < m) where
  -- A repeated index is drawn anew.
  choose_again :
      get_or (lookup (d % m) seen) false ≡ true
      → choose buf m (d ∷ draws) (suc l) seen result ≡ choose buf m draws (suc l) seen result
  unfolding choose
  choose_again again = ground arith

  choose_new :
      (tx : Bytes)
      → get_or (lookup (d % m) seen) false ≡ false
      → get_elem? buf (d % m) ≡ some tx
      → choose buf m (d ∷ draws) (suc l) seen result
        ≡ choose buf m draws l (insert (d % m) true seen) (result ++ tx ∷ [])
  unfolding choose
  choose_new tx new at = ground arith

choose-Picks :
    (buf : List Bytes) (m : ℕ) (draws : List ℕ) (l : ℕ) (seen : GoMap ℕ Bool) (result : List Bytes)
    → 0 < m
    → m ≤ length buf
    → IsSeen m seen
    → Picks buf m l draws seen result (choose buf m draws l seen result)
unfolding choose
choose-Picks buf m draws zero seen result pos len h = inr (
  [],
  rw append_nil refl,
  record {
    indices = [];
    distinct = tt;
    below = tt;
    fresh = tt;
    taken = tt;
    many = refl;
    enough = omega (arith, length-seen m seen h);
  },
)
choose-Picks buf m [] (suc l) seen result pos len h = inl (
  ground arith,
  omega (
    arith,
    count_keys-le-length m seen,
    count_below_mono m (shown m [] seen) (λ i. is_some (lookup i seen)) (λ i l e. ground arith),
  ),
)
choose-Picks buf m (d ∷ draws) (suc l) seen result pos len h =
    let below : d % m < m = grind arith in
    elim (Bool-cases (get_or (lookup (d % m) seen) false)) [
      | inl again ↦
          rw (choose_again buf m d draws l seen result pos again)
            (repeated again (choose-Picks buf m draws (suc l) seen result pos len h))
      | inr new ↦
          let (tx, at) = get_elem?-eq-some buf (d % m) (omega arith) in
          rw (choose_new buf m d draws l seen result pos tx new at) (
            extended tx below (unseen seen m (d % m) h new) at (
              choose-Picks buf m draws l (insert (d % m) true seen) (result ++ tx ∷ []) pos len
                (insert-IsSeen seen m (d % m) below h)))
    ]
  where
    repeated :
        get_or (lookup (d % m) seen) false ≡ true
        → Picks buf m (suc l) draws seen result (choose buf m draws (suc l) seen result)
        → Picks buf m (suc l) (d ∷ draws) seen result (choose buf m draws (suc l) seen result)
    repeated again (inr r) = inr r
    repeated again (inl (p, few)) = inl (
      p,
      omega (
        arith,
        few,
        count_below_mono m (shown m (d ∷ draws) seen) (shown m draws seen)
            (λ i l e. ground (arith, nat_beq_iff (d % m) i)),
      ),
    )

    extended :
        (tx : Bytes)
        → d % m < m
        → lookup (d % m) seen ≡ none
        → get_elem? buf (d % m) ≡ some tx
        → Picks buf m l draws
            (insert (d % m) true seen)
            (result ++ tx ∷ [])
            (choose buf m draws l (insert (d % m) true seen) (result ++ tx ∷ []))
        → Picks buf m
            (suc l)
            (d ∷ draws)
            seen
            result
            (choose buf m draws l (insert (d % m) true seen) (result ++ tx ∷ []))
    extended tx below new at (inl (p, few)) = inl (
      p,
      ground (
        arith,
        few,
        length-insert (d % m) true seen,
        count_below_mono m (shown m (d ∷ draws) seen) (shown m draws (insert (d % m) true seen))
            (λ i l e. ground (arith, nat_beq_iff (d % m) i, lookup-insert (d % m) i true seen)),
      ),
    )
    extended tx below new at (inr (more, p, r)) = inr (
      tx ∷ more,
      p ∙ ap (λ (xs : List Bytes). ok (some xs)) (append_assoc result (tx ∷ []) more),
      let (fresh_index, fresh) = older seen (d % m) r.indices r.fresh in
          record {
            indices = (d % m) ∷ r.indices;
            distinct = (fresh_index, r.distinct);
            below = (below, r.below);
            fresh = (new, fresh);
            taken = (at, r.taken);
            many = ap suc r.many;
            enough = ground (arith, r.enough, length-insert (d % m) true seen);
          },
    )

-- The number of transactions to choose from.
abbrev pub first_of : ℕ → Node → ℕ
first_of m node = if ltb (length node.buf) m then length node.buf else m

-- Whatever numbers are drawn, on a buffer that is not empty `proposeTxs` does not panic. It goes on
-- drawing, while fewer than `l` different indices have come, or it returns `l` transactions at distinct indices among the first `m` of the buffer, and
-- then `l` is at most their number: past that it never returns.
pub propose_txs-IsChoice :
    (l m : ℕ) (draws : List ℕ) (node : Node)
    → 0 < m
    → 0 < length node.buf
    → ((propose_txs l m draws node ≡ ok none)
        × (count_below (first_of m node) (drawn (first_of m node) draws) < l))
      ⊎ ((txs : List Bytes) × (propose_txs l m draws node ≡ ok (some txs))
          × IsChoice node.buf (first_of m node) l txs)
unfolding propose_txs
propose_txs-IsChoice l m draws node pos filled =
    chosen
      (choose-Picks node.buf (first_of m node) draws l [] [] (ground arith) (ground arith) (tt, tt))
  where
    chosen :
        Picks node.buf (first_of m node) l draws [] [] (propose_txs l m draws node)
        → ((propose_txs l m draws node ≡ ok none)
            × (count_below (first_of m node) (drawn (first_of m node) draws) < l))
          ⊎ ((txs : List Bytes) × (propose_txs l m draws node ≡ ok (some txs))
              × IsChoice node.buf (first_of m node) l txs)
    chosen (inl (p, few)) = inl (p, unfold lookup in omega (arith, few))
    chosen (inr (more, p, r)) = inr (
      more,
      p,
      record {
        indices = r.indices;
        distinct = r.distinct;
        below = r.below;
        taken = r.taken;
        many = r.many;
        enough = omega (arith, r.enough);
      },
    )
