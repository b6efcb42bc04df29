-- ===== src/BinaryAgreement/Invariant.antt =====
-- What holds of the state in every schedule: the maps count distinct nodes that were heard, and
-- the values that are accepted, announced and decided have the support that the protocol asks for.
use upgrade.Prelude.{
  ℕ, ◌<◌, ◌≤◌, ◌+◌, ◌-◌, ◌*◌, ◌≡◌, Bool, true, not, List, [], ◌∷◌, All, All-append, length,
  count_below, leb, nat_eq, nat_beq_iff, if◌then◌else◌, if_ind, arith,
}
use upgrade.BinaryAgreement.Votes.{
  Counts, Counts-count, handle_bcs-Counts, has-add_value, enqueue-All,
}
use upgrade.BinaryAgreement.{
  est, aux, AbaMessage, Votes, Queues, at, voters, has, handle_bcs, add_value, Phase, wait_est,
  wait_aux, returned, Config, State, multicast, message_of, echo_est, accept_value, handle_est,
  notify_if, one_value, notify, handle_aux,
}

-- How many outputs a phase stands for.
abbrev pub outputs : Phase → ℕ
outputs wait_est = 0
outputs wait_aux = 0
outputs returned = 1

-- `e r v i` and `a r v i`: node `i` sent EST or AUX with the value `v` in round `r`.
module _ (cfg : Config) (coin : ℕ → ℕ) (e a : ℕ → ℕ → ℕ → Bool) where
  -- `2 t + 1` nodes sent EST on the value.
  abbrev pub IsAccepted : ℕ → ℕ → Type 0
  IsAccepted r v = 2 * cfg.t + 1 ≤ count_below cfg.n (e r v)

  abbrev pub IsAcceptedEntry : ℕ → List ℕ → Type 0
  IsAcceptedEntry r [] = ⊥
  IsAcceptedEntry r (v ∷ []) = IsAccepted r v
  IsAcceptedEntry r (v ∷ w ∷ vs) = ⊥

  -- One accepted value with `n - t` AUX messages, or `n - t` AUX messages on 0 and 1 together.
  abbrev pub IsAnnounced : ℕ → List ℕ → Type 0
  IsAnnounced r [] = ⊥
  IsAnnounced r (v ∷ []) = IsAccepted r v × (cfg.n - cfg.t ≤ count_below cfg.n (a r v))
  IsAnnounced r (v ∷ w ∷ vs) = cfg.n - cfg.t ≤ count_below cfg.n (a r 0) + count_below cfg.n (a r 1)

  -- The coin of some round, with that round's support.
  abbrev pub IsDecision : ℕ → Type 0
  IsDecision d =
      (r : ℕ) × (coin r ≡ d) × IsAccepted r d × (cfg.n - cfg.t ≤ count_below cfg.n (a r d))

  -- An AUX message is on an accepted value.
  abbrev pub IsBacked : AbaMessage → Type 0
  IsBacked m = m.status ≡ aux → IsAccepted m.round m.value

  pub record Inv (s : State) : Type 0 where
    pub ests : Counts cfg.n e s.est_values
    pub auxs : Counts cfg.n a s.aux_values
    pub bins : (r v : ℕ) → has r v s.bin_values ≡ true → IsAccepted r v
    pub est_queue : (r : ℕ) → All (IsAcceptedEntry r) (at r s.notify_est)
    pub aux_queue : (r : ℕ) → All (IsAnnounced r) (at r s.notify_aux)
    pub backed : All (λ x. IsBacked x.message.payload) s.sent
    pub decided : All IsDecision s.out
    pub once : length s.out ≡ outputs s.phase

  pub multicast-Inv : (m : AbaMessage) (s : State) → IsBacked m → Inv s → Inv (multicast m s)
  multicast-Inv m s b i = record {
    ests = i.ests;
    auxs = i.auxs;
    bins = i.bins;
    est_queue = i.est_queue;
    aux_queue = i.aux_queue;
    backed = All-append (λ x. IsBacked x.message.payload) s.sent _ i.backed (b, tt);
    decided = i.decided;
    once = i.once;
  }

  pub echo_est-Inv : (r v : ℕ) (s : State) → Inv s → Inv (echo_est cfg r v s)
  unfolding echo_est
  echo_est-Inv r v s i =
      if_ind Inv (not (has r v s.est_echoes)) _ _
        (λ _.
          multicast-Inv (message_of cfg est r v)
            (record s { est_echoes = add_value r v s.est_echoes }) (λ x. absurd (cc x))
            (record {
              ests = i.ests;
              auxs = i.auxs;
              bins = i.bins;
              est_queue = i.est_queue;
              aux_queue = i.aux_queue;
              backed = i.backed;
              decided = i.decided;
              once = i.once;
            }))
        (λ _. i)

  pub accept_value-Inv : (r v : ℕ) (s : State) → IsAccepted r v → Inv s → Inv (accept_value r v s)
  unfolding accept_value
  accept_value-Inv r v s h i = record {
    ests = i.ests;
    auxs = i.auxs;
    bins = λ q w x.
        ground
          (arith, has-add_value r v q w s.bin_values, i.bins q w, nat_beq_iff r q, nat_beq_iff v w);
    est_queue = enqueue-All IsAcceptedEntry r (v ∷ []) s.notify_est h i.est_queue;
    aux_queue = i.aux_queue;
    backed = i.backed;
    decided = i.decided;
    once = i.once;
  }

  pub handle_est-Inv :
      (r v s : ℕ) (st : State) → s < cfg.n → e r v s ≡ true → Inv st → Inv (handle_est cfg r v s st)
  unfolding handle_est
  handle_est-Inv r v s st l h i =
      if_ind Inv (leb (2 * cfg.t + 1) count) _ _
        (λ enough. accept_value-Inv r v _ (ground (arith, quorum)) echoed) (λ few. echoed)
    where
      votes : Votes
      votes = handle_bcs r v s st.est_values

      count : ℕ
      count = length (voters r v votes)

      counted : Counts cfg.n e votes
      counted = handle_bcs-Counts cfg.n e r v s st.est_values l h i.ests

      quorum : count ≤ count_below cfg.n (e r v)
      quorum = Counts-count cfg.n e votes r v counted

      st1 : State
      st1 = record st { est_values = votes }

      i' : Inv st1
      i' = record {
        ests = counted;
        auxs = i.auxs;
        bins = i.bins;
        est_queue = i.est_queue;
        aux_queue = i.aux_queue;
        backed = i.backed;
        decided = i.decided;
        once = i.once;
      }

      echoed : Inv (if leb (cfg.t + 1) count then echo_est cfg r v st1 else st1)
      echoed = if_ind Inv (leb (cfg.t + 1) count) _ _ (λ _. echo_est-Inv r v st1 i') (λ _. i')

  pub notify_if-All :
      (b : Bool) (r : ℕ) (vs : List ℕ) (q : Queues)
      → (b ≡ true → IsAnnounced r vs)
      → ((i : ℕ) → All (IsAnnounced i) (at i q))
      → (i : ℕ) → All (IsAnnounced i) (at i (notify_if b r vs q))
  unfolding notify_if
  notify_if-All b r vs q h k i =
      if_ind (λ x. All (IsAnnounced i) (at i x)) b _ _
        (λ p. enqueue-All IsAnnounced r vs q (h p) k i) (λ p. k i)

  pub handle_aux-Inv :
      (r v s : ℕ) (st : State) → s < cfg.n → a r v s ≡ true → Inv st → Inv (handle_aux cfg r v s st)
  unfolding handle_aux notify
  handle_aux-Inv r v s st l h i = record {
    ests = i.ests;
    auxs = counted;
    bins = i.bins;
    est_queue = i.est_queue;
    aux_queue =
        notify_if-All _ r (0 ∷ 1 ∷ []) _ (λ p. ground (arith, quorum 0, quorum 1))
          (notify_if-All _ r (1 ∷ []) _ (one 1)
            (notify_if-All _ r (0 ∷ []) st.notify_aux (one 0) i.aux_queue));
    backed = i.backed;
    decided = i.decided;
    once = i.once;
  }
    where
      votes : Votes
      votes = handle_bcs r v s st.aux_values

      counted : Counts cfg.n a votes
      counted = handle_bcs-Counts cfg.n a r v s st.aux_values l h i.auxs

      quorum : (w : ℕ) → length (voters r w votes) ≤ count_below cfg.n (a r w)
      quorum w = Counts-count cfg.n a votes r w counted

      one :
          (w : ℕ)
          → one_value cfg r w (record st { aux_values = votes }) ≡ true
          → IsAnnounced r (w ∷ [])
      one w p = (i.bins r w (ground arith), ground (arith, quorum w))
