-- ===== src/CommonSubset/Agreement.antt =====
-- The output conditions: what the values they pick have, and when two nodes pick the same.
use upgrade.Prelude.{
  ℕ, ◌+◌, ◌-◌, ◌<◌, ◌≤◌, ◌≡◌, refl, sym, ◌∙◌, ap, subst, Bytes, bytes_eq, Bool, true, false, Option,
  none, some, List, [], ◌∷◌, ◌++◌, GoMap, lookup, get_or, length, ltb, ◌==◌, nat_eq, if◌then◌else◌,
  if_ind, Run, ok, panic, ◌>>=◌, IsMap, AllEntries, IsFresh-lookup, count_below, count_below-add,
  count_below_mono, count_below-none, quorums_meet, Bool-cases, Option-cases, inl, inr, ◌⊎◌, arith,
}
use upgrade.Crypto.{Crypto}
use upgrade.Block.{BlockShare, share_hash}
use upgrade.CommonSubset.State.{Config, State, below}
use upgrade.CommonSubset.Conditions.{
  count_same, first_value, c_one_helper, c_one, c_two, c_three, outputs_at,
}
use upgrade.CommonSubset.Commits.{
  values_bytes, hash_values, sign_hash, commit_payload, multicast_commit,
}
use upgrade.CommonSubset.Events.{commit_to, third_condition, commit_or, event_handler}

module _ ⦃c : Crypto⦄ where
  -- The value read from the map is there and has the hash of `v`.
  abbrev holds : BlockShare → Option BlockShare → Bool
  holds v none = false
  holds v (some w) = share_hash v == share_hash w

  count_same-le :
      (n : ℕ) (v : BlockShare) (m : GoMap ℕ BlockShare)
      → IsMap m
      → AllEntries (λ k w. k < n) m
      → count_same v m ≤ count_below n (λ i. holds v (lookup i m))
  unfolding count_same lookup
  count_same-le n v [] h a = omega arith
  count_same-le n v ((j, w) ∷ m) h a = elim (Bool-cases (share_hash v == share_hash w)) [
    | inl same ↦ rw same (
        omega (
          arith,
          count_same-le n v m h.1 a.1,
          count_below-add n j (λ i. holds v (lookup i m)) a.0 (rw (IsFresh-lookup j m h.0) refl),
          count_below_mono n (λ i. if j == i then true else holds v (lookup i m))
              (λ i. holds v (lookup i ((j, w) ∷ m))) (λ i l e. here i same e),
        ))
    | inr other ↦ rw other (
        omega (
          arith,
          count_same-le n v m h.1 a.1,
          count_below_mono n (λ i. holds v (lookup i m)) (λ i. holds v (lookup i ((j, w) ∷ m)))
              (λ i l e. there i (Bool-cases (j == i)) e),
        ))
  ]
    where
      here :
          (i : ℕ)
          → (share_hash v == share_hash w) ≡ true
          → (if j == i then true else holds v (lookup i m)) ≡ true
          → holds v (lookup i ((j, w) ∷ m)) ≡ true
      here i same e = elim (Bool-cases (j == i)) [
        | inl hit ↦ rw hit same
        | inr miss ↦ rw miss (rw miss at e)
      ]

      there :
          (i : ℕ)
          → ((j == i) ≡ true) ⊎ ((j == i) ≡ false)
          → holds v (lookup i m) ≡ true
          → holds v (lookup i ((j, w) ∷ m)) ≡ true
      there i (inl hit) e =
          absurd (ground (arith, e, IsFresh-lookup j m h.0, (nat_eq.beq_iff j i).0 hit))
      there i (inr miss) e = rw miss e

  first_value-true :
      (test : BlockShare → Bool) (m : GoMap ℕ BlockShare) {v : BlockShare}
      → first_value test m ≡ some v
      → test v ≡ true
  unfolding first_value
  first_value-true test [] e = absurd (ground (arith, e))
  first_value-true test ((i, w) ∷ m) {v} e = elim (Bool-cases (test w)) [
    | inl hit ↦ let same : w ≡ v = ground (arith, e, hit) in subst (λ x. test x ≡ true) same hit
    | inr miss ↦ first_value-true test m (ground (arith, e, miss))
  ]

  c_one-count :
      (cfg : Config) (m : GoMap ℕ BlockShare) {v : BlockShare}
      → c_one cfg m ≡ some v
      → cfg.n - cfg.t ≤ count_same v m
  unfolding c_one c_one_helper
  c_one-count cfg m {v} e = elim (Bool-cases (ltb (length m) (cfg.n - cfg.t))) [
    | inl few ↦ absurd (ground (arith, few, e))
    | inr _ ↦
        let found : c_one_helper cfg v m ≡ true =
          first_value-true (λ x. c_one_helper cfg x m) m (ground arith) in
        ground (arith, found)
  ]

  -- Two nodes with `2 * t < n`, whose maps hold outputs of the `n` instances of reliable broadcast
  -- and never two of different hash for one instance: if the first condition holds at both, the
  -- values that they commit to have the same hash.
  pub c_one_agreement :
      (cfg other : Config) (a b : GoMap ℕ BlockShare) {v w : BlockShare}
      → other.n ≡ cfg.n
      → other.t ≡ cfg.t
      → cfg.n < (cfg.n - cfg.t) + (cfg.n - cfg.t)
      → IsMap a
      → IsMap b
      → AllEntries (λ i x. i < cfg.n) a
      → AllEntries (λ i x. i < cfg.n) b
      → ((i : ℕ) (x y : BlockShare)
          → lookup i a ≡ some x
          → lookup i b ≡ some y
          → share_hash x ≡ share_hash y)
      → c_one cfg a ≡ some v
      → c_one other b ≡ some w
      → share_hash v ≡ share_hash w
  c_one_agreement cfg other a b {v} {w} n_same t_same third ma mb ka kb agree ea eb =
      let (i, l, p, q, f) =
        quorums_meet cfg.n (λ i. holds v (lookup i a)) (λ i. holds w (lookup i b)) (λ i. false)
          (omega (
            arith,
            third,
            n_same,
            t_same,
            count_below-none cfg.n,
            count_same-le cfg.n v a ma ka,
            count_same-le cfg.n w b mb kb,
            c_one-count cfg a ea,
            c_one-count other b eb,
          )) in
      elim (Option-cases (lookup i a)) [
        | inl z ↦ absurd (ground (arith, z, p))
        | inr (x, z) ↦ elim (Option-cases (lookup i b)) [
          | inl u ↦ absurd (ground (arith, u, q))
          | inr (y, u) ↦
              (bytes_eq.beq_iff (share_hash v) (share_hash x)).0 (rw z at p)
              ∙ agree i x y z u
              ∙ sym ((bytes_eq.beq_iff (share_hash w) (share_hash y)).0 (rw u at q))
        ]
      ]

  abbrev Ends : {A : Type 0} → Run A → Type 0
  Ends {A} r = (a : A) × (r ≡ ok a)

  -- A map of values has one at every index that a set of nodes has.
  abbrev pub Covers : GoMap ℕ BlockShare → GoMap ℕ Bool → Type 0
  Covers rbc_vals s =
      (i : ℕ) → lookup i s ≡ some true → (v : BlockShare) × (lookup i rbc_vals ≡ some v)

  values_bytes-outputs_at :
      (rbc_vals : GoMap ℕ BlockShare) (s : GoMap ℕ Bool) (is : List ℕ)
      → Covers rbc_vals s
      → Ends (values_bytes (outputs_at rbc_vals s is))
  unfolding outputs_at values_bytes
  values_bytes-outputs_at rbc_vals s [] k = ([], refl)
  values_bytes-outputs_at rbc_vals s (i ∷ is) k =
      let rest = values_bytes-outputs_at rbc_vals s is k in
      if_ind (λ vs. Ends (values_bytes vs)) (get_or (lookup i s) false) _ _
        (λ hit.
          let found = k i (elim (Option-cases (lookup i s)) [
            | inl z ↦ absurd (ground (arith, z, hit))
            | inr (b, z) ↦ z ∙ ap some (ground (arith, z, hit))
          ]) in
          (share_hash found.0 ++ rest.0, rw (found.1, rest.1) refl))
        (λ _. rest)

  commit_to-Ends :
      (cfg : Config) (values : List (Option BlockShare)) (st : State)
      → Ends (values_bytes values)
      → Ends (commit_to cfg values st)
  unfolding commit_to multicast_commit hash_values
  commit_to-Ends cfg values st e =
      if_ind Ends (get_or (lookup cfg.node_id cfg.committee) false) _ _
        (λ _. go (values_bytes values) e) (λ _. (_, refl))
    where
      go :
          (r : Run Bytes)
          → Ends r
          → Ends (
              ((r >>= λ bytes. ok (c.sha256 bytes)) >>= λ hash.
              ok (commit_payload cfg values hash (sign_hash cfg hash)))
              >>= λ ms. ok (record st {
                commit = true;
                acs_out = st.acs_out ++ values ∷ [];
                sent = st.sent ++ ms;
              }))
      go panic e = absurd (ground (arith, e.1))
      go (ok bytes) e = (_, refl)

  commit_one-Ends :
      (cfg : Config) (v : Option BlockShare) (rest : Run State) (st : State)
      → Ends rest
      → Ends (commit_or cfg v rest st)
  unfolding values_bytes
  commit_one-Ends cfg none rest st e = e
  commit_one-Ends cfg (some v) rest st e = commit_to-Ends cfg (some v ∷ []) st (_, refl)

  -- `eventHandler` does not panic when every instance in the set `s` has an output in `rbcVals`.
  pub event_handler_returns :
      (cfg : Config) (st : State)
      → Covers st.rbc_vals st.s
      → (result : State) × (event_handler cfg st ≡ ok result)
  unfolding event_handler third_condition
  event_handler_returns cfg st k =
      if_ind Ends st.commit _ _ (λ _. (st, refl))
        (λ _. commit_one-Ends cfg (c_one cfg st.rbc_vals) _ st (
          commit_one-Ends cfg (c_two cfg st.rbc_vals st.s st.aba_finished) _ st (
            if_ind Ends (c_three cfg st.rbc_vals st.s st.aba_finished) _ _
              (λ _.
                commit_to-Ends cfg (outputs_at st.rbc_vals st.s (below cfg.n)) st
                  (values_bytes-outputs_at st.rbc_vals st.s (below cfg.n) k))
              (λ _. (st, refl)))))
