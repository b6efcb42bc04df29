-- ===== src/BlockAgreement/Propose/Maximum.antt =====
-- The vote that `findMaxVote` picks, over a map whose order is any.
use upgrade.Prelude.{
  ℕ, ◌<◌, ◌≤◌, ◌≡◌, refl, sym, ◌∙◌, ap, subst, none, some, [], ◌∷◌, GoMap, lookup, ltb, nat_eq,
  IsMap, AllEntries, AllEntries-lookup, lookup-IsIn, IsIn, Bool-cases, Option-cases, inl, inr, ◌⊎◌,
  arith,
}
use upgrade.Crypto.{Crypto}
use upgrade.BlockAgreement.Messages.{Vote, VoteMessage}
use upgrade.BlockAgreement.Propose.{better, update_max, max_from, find_max_vote}

-- The vote of round `r` at index `j` comes before that of round `s` at index `k`, or is the same.
unfoldable pub Beats : ℕ → ℕ → ℕ → ℕ → Type 0
Beats j r k s = (s < r) ⊎ ((s ≡ r) × (j ≤ k))

Beats-trans : (i r j s k u : ℕ) → Beats i r j s → Beats j s k u → Beats i r k u
unfolding Beats
Beats-trans i r j s k u (inl a) (inl b) = inl (omega arith)
Beats-trans i r j s k u (inl a) (inr b) = inl (omega arith)
Beats-trans i r j s k u (inr a) (inl b) = inl (omega arith)
Beats-trans i r j s k u (inr a) (inr b) = inr (omega arith, omega arith)

module _ ⦃c : Crypto⦄ where
  -- The index and the message of a vote that is in the map and comes before all the others.
  pub record IsFirst (votes : GoMap ℕ VoteMessage) (j : ℕ) (m : VoteMessage) : Type 0 where
    pub present : IsIn (j, m) votes
    pub before : AllEntries (λ k x. Beats j m.vote.round k x.vote.round) votes

  -- Where the loop ends when it has a best vote already.
  pub record Ends (votes : GoMap ℕ VoteMessage) (i : ℕ) (v : Vote) (j : ℕ) (w : Vote) : Type 0 where
    pub stops : max_from votes (i, some v) ≡ (j, some w)
    pub origin : ((j ≡ i) × (w ≡ v)) ⊎ ((m : VoteMessage) × IsIn (j, m) votes × (m.vote ≡ w))
    pub start : Beats j w.round i v.round
    pub before : AllEntries (λ k x. Beats j w.round k x.vote.round) votes

  max_from-Ends :
      (votes : GoMap ℕ VoteMessage) (i : ℕ) (v : Vote) → (j : ℕ) × (w : Vote) × Ends votes i v j w
  unfolding max_from update_max better Beats
  max_from-Ends [] i v = (
    i,
    v,
    record {
      stops = refl;
      origin = inl (refl, refl);
      start = inr (refl, omega arith);
      before = tt;
    },
  )
  max_from-Ends ((k, x) ∷ votes) i v = elim (Bool-cases (better k x.vote (i, some v))) [
    | inl new ↦
        let rest = max_from-Ends votes k x.vote in
        let won : Beats k x.vote.round i v.round = elim (Bool-cases (ltb v.round x.vote.round)) [
          | inl a ↦ inl (ground arith)
          | inr b ↦ inr (ground arith, ground arith)
        ] in
        (
          rest.0,
          rest.1,
          record {
            stops = rw new rest.2.stops;
            origin = elim rest.2.origin [
              | inl p ↦ inr (x, inl (ap (λ j. (j, x)) p.0), sym p.1)
              | inr (m, p, q) ↦ inr (m, inr p, q)
            ];
            start = Beats-trans _ _ _ _ _ _ rest.2.start won;
            before = (rest.2.start, rest.2.before);
          },
        )
    | inr old ↦
        let rest = max_from-Ends votes i v in
        let kept : Beats i v.round k x.vote.round = elim (Bool-cases (ltb x.vote.round v.round)) [
          | inl a ↦ inl (ground arith)
          | inr b ↦ inr (ground arith, ground arith)
        ] in
        (
          rest.0,
          rest.1,
          record {
            stops = rw old rest.2.stops;
            origin = elim rest.2.origin [ inl p ↦ inl p | inr (m, p, q) ↦ inr (m, inr p, q) ];
            start = rest.2.start;
            before = (Beats-trans _ _ _ _ _ _ rest.2.start kept, rest.2.before);
          },
        )
  ]

  find_max_vote-IsFirst :
      (votes : GoMap ℕ VoteMessage) {v : Vote}
      → find_max_vote votes ≡ some v
      → (j : ℕ) × (m : VoteMessage) × IsFirst votes j m × (m.vote ≡ v)
  unfolding find_max_vote max_from update_max better Beats
  find_max_vote-IsFirst [] e = absurd (ground arith)
  find_max_vote-IsFirst ((k, x) ∷ votes) {v} e =
      let rest = max_from-Ends votes k x.vote in
      let same : rest.1 ≡ v = ground (arith, rest.2.stops) in
      elim rest.2.origin [
        | inl p ↦ (
          k,
          x,
          record {
            present = inl refl;
            before = (
              inr (refl, omega arith),
              subst (λ (u : ℕ × Vote). AllEntries (λ i y. Beats u.0 u.1.round i y.vote.round) votes)
                  (ap (λ j. (j, rest.1)) p.0 ∙ ap (λ w. (k, w)) p.1) rest.2.before,
            );
          },
          sym p.1 ∙ same,
        )
        | inr (m, p, q) ↦ (
          rest.0,
          m,
          record {
            present = inr p;
            before =
                subst
                  (λ w. AllEntries (λ i y. Beats rest.0 w.round i y.vote.round) ((k, x) ∷ votes))
                  (sym q) (rest.2.start, rest.2.before);
          },
          q ∙ same,
        )
      ]

  find_max_vote-none :
      (votes : GoMap ℕ VoteMessage) → find_max_vote votes ≡ none → (k : ℕ) → lookup k votes ≡ none
  unfolding find_max_vote max_from update_max better lookup
  find_max_vote-none [] e k = refl
  find_max_vote-none ((i, x) ∷ votes) e k =
      absurd (ground (arith, (max_from-Ends votes i x.vote).2.stops))

  first_unique :
      (a b : GoMap ℕ VoteMessage) (i j : ℕ) (x y : VoteMessage)
      → IsMap a
      → IsMap b
      → ((k : ℕ) → lookup k a ≡ lookup k b)
      → IsFirst a i x
      → IsFirst b j y
      → x ≡ y
  unfolding Beats
  first_unique a b i j x y p q s f g =
      let in_a = lookup-IsIn i x a p f.present in
      let in_b = lookup-IsIn j y b q g.present in
      let j_after : Beats i x.vote.round j y.vote.round =
        AllEntries-lookup _ j a f.before (s j ∙ in_b) in
      let i_after : Beats j y.vote.round i x.vote.round =
        AllEntries-lookup _ i b g.before (sym (s i) ∙ in_a) in
      let index : i ≡ j = elim j_after [
        | inl u ↦ elim i_after [ inl v ↦ omega arith | inr v ↦ omega arith ]
        | inr u ↦ elim i_after [ inl v ↦ omega arith | inr v ↦ omega arith ]
      ] in
      ground (arith, in_a, in_b, s i, index)

  -- The vote that is picked is one of the votes, and no vote of the map has a higher round, nor the
  -- same round at a lower index.
  pub find_max_vote_first :
      (votes : GoMap ℕ VoteMessage) {v : Vote}
      → find_max_vote votes ≡ some v
      → (j : ℕ) × (m : VoteMessage) × IsIn (j, m) votes
        × (m.vote ≡ v)
        × AllEntries (λ k x. (x.vote.round < v.round) ⊎ ((x.vote.round ≡ v.round) × (j ≤ k))) votes
  unfolding Beats
  find_max_vote_first votes e =
      let first = find_max_vote-IsFirst votes e in
      (
        first.0,
        first.1,
        first.2.present,
        first.3,
        subst (λ w. AllEntries (λ k x. Beats first.0 w.round k x.vote.round) votes) first.3
            first.2.before,
      )

  -- The choice does not depend on the order of the map's iteration: two maps with the same entries
  -- give the same vote.
  pub find_max_vote_order :
      (a b : GoMap ℕ VoteMessage)
      → IsMap a
      → IsMap b
      → ((k : ℕ) → lookup k a ≡ lookup k b)
      → find_max_vote a ≡ find_max_vote b
  find_max_vote_order a b p q s = elim (Option-cases (find_max_vote a)) [
    | inl e ↦ elim (Option-cases (find_max_vote b)) [
      | inl f ↦ e ∙ sym f
      | inr (w, f) ↦
          let y = find_max_vote-IsFirst b f in
          absurd
            (ground (arith, find_max_vote-none a e y.0, s y.0, lookup-IsIn y.0 y.1 b q y.2.present))
    ]
    | inr (v, e) ↦ elim (Option-cases (find_max_vote b)) [
      | inl f ↦
          let x = find_max_vote-IsFirst a e in
          absurd
            (ground (arith, find_max_vote-none b f x.0, s x.0, lookup-IsIn x.0 x.1 a p x.2.present))
      | inr (w, f) ↦
          let x = find_max_vote-IsFirst a e in
          let y = find_max_vote-IsFirst b f in
          let same = first_unique a b x.0 y.0 x.1 y.1 p q s x.2 y.2 in
          e ∙ ap some (sym x.3 ∙ (ap (λ m. m.vote) same ∙ y.3)) ∙ sym f
    ]
  ]
