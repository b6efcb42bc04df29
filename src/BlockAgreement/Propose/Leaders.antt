-- ===== src/BlockAgreement/Propose/Leaders.antt =====
-- What `handleProposals` keeps: one output, and only a proposal that passed the proposer's check.
use upgrade.Prelude.{
  ◌≡◌, refl, sym, ◌∙◌, ap, subst, Bool, true, false, not, ◌||◌, Option, none, some, List, [], ◌∷◌,
  ◌++◌, length, ◌==◌, nat_eq, bytes_eq, if◌then◌else◌, if_ind, is_some, Run, ok, panic, ◌>>=◌,
  Ensures, All, IsIn, Bool-cases, Option-cases, inl, inr, arith,
}
use upgrade.Crypto.{Crypto}
use upgrade.BlockAgreement.Messages.{ProposeMessage, propose_hash}
use upgrade.BlockAgreement.Propose.{
  Config, Proposals, ProposalEvent, proposal, tick, is_valid_proposal, accept_leader,
  handle_proposal, all_equal_to, proposals_are_equal, end_proposals, proposal_step,
  handle_proposals,
}
use upgrade.BlockAgreement.Propose.Once.{stays_done}

module _ ⦃c : Crypto⦄ (cfg : Config) where
  -- The proposer's valid proposal.
  abbrev pub IsLeader : ProposeMessage → Type 0
  IsLeader pm = (pm.sender ≡ cfg.proposer_id) × (is_valid_proposal cfg pm ≡ ok true)

  pub data Leader (s : Proposals) : Type 0 where
    unset : s.leader_proposal ≡ none → s.sent ≡ [] → Leader s
    set_to :
        (pm : ProposeMessage)
        → s.leader_proposal ≡ some pm
        → s.sent ≡ pm ∷ []
        → s.received ≡ true
        → IsLeader pm
        → Leader s

  pub data Outcome (s : Proposals) : Type 0 where
    waiting : s.done ≡ false → s.out ≡ [] → Outcome s
    nothing : s.done ≡ true → s.out ≡ none ∷ [] → Outcome s
    chosen :
        (pm : ProposeMessage)
        → s.done ≡ true
        → s.out ≡ some pm.vote.block_share ∷ []
        → IsLeader pm
        → s.sent ≡ pm ∷ []
        → all_equal_to pm s.proposals ≡ ok true
        → Outcome s

  pub record IsSound (s : Proposals) : Type 0 where
    pub leader : Leader s
    pub outcome : Outcome s

  no_output : (s : Proposals) → s.done ≡ false → Outcome s → s.out ≡ []
  no_output s d (waiting e o) = o
  no_output s d (nothing e o) = absurd (ground (arith, d, e))
  no_output s d (chosen pm e o l q a) = absurd (ground (arith, d, e))

  collect-IsSound :
      (pm : ProposeMessage) (s : Proposals)
      → s.done ≡ false
      → IsSound s
      → IsSound (record s { proposals = s.proposals ++ pm ∷ [] })
  collect-IsSound pm s d h = record {
    leader = elim h.leader [ unset e q ↦ unset e q | set_to m e q r l ↦ set_to m e q r l ];
    outcome = waiting d (no_output s d h.outcome);
  }

  nothing_sent :
      (s : Proposals) → s.received ≡ false → Leader s → (s.leader_proposal ≡ none) × (s.sent ≡ [])
  nothing_sent s r (unset e q) = (e, q)
  nothing_sent s r (set_to m e q t l) = absurd (ground (arith, r, t))

  accept_leader-IsSound :
      (pm : ProposeMessage) (s : Proposals) (valid : Bool)
      → pm.sender ≡ cfg.proposer_id
      → is_valid_proposal cfg pm ≡ ok valid
      → s.received ≡ false
      → s.done ≡ false
      → IsSound s
      → IsSound (accept_leader pm s valid)
  unfolding accept_leader
  accept_leader-IsSound pm s true p v r d h =
      let fresh = nothing_sent s r h.leader in
      record {
        leader = set_to pm refl (ap (λ l. l ++ pm ∷ []) fresh.1) refl (p, v);
        outcome = waiting d (no_output s d h.outcome);
      }
  accept_leader-IsSound pm s false p v r d h =
      let fresh = nothing_sent s r h.leader in
      record {
        leader = unset fresh.0 fresh.1;
        outcome = nothing refl (ap (λ l. l ++ none ∷ []) (no_output s d h.outcome));
      }

  accepted :
      (pm : ProposeMessage) (s : Proposals) (v : Run Bool)
      → is_valid_proposal cfg pm ≡ v
      → pm.sender ≡ cfg.proposer_id
      → s.received ≡ false
      → s.done ≡ false
      → IsSound s
      → Ensures IsSound (v >>= λ valid. ok (accept_leader pm s valid))
  accepted pm s panic e p r d h = tt
  accepted pm s (ok valid) e p r d h = accept_leader-IsSound pm s valid p e r d h

  handle_proposal-IsSound :
      (pm : ProposeMessage) (s : Proposals)
      → s.done ≡ false
      → IsSound s
      → Ensures IsSound (handle_proposal cfg pm s)
  unfolding handle_proposal
  handle_proposal-IsSound pm s d h =
      if_ind (Ensures IsSound) (pm.sender == cfg.proposer_id) _ _
        (λ own.
          if_ind (Ensures IsSound) (not (is_some pm.sig) || s.received) _ _ (λ _. h)
            (λ first.
              accepted pm s (is_valid_proposal cfg pm) refl
                (ground (arith, nat_eq.beq_iff pm.sender cfg.proposer_id)) (ground arith) d h))
        (λ _. collect-IsSound pm s d h)

  agreed :
      (pm : ProposeMessage) (s : Proposals) (v : Run Bool)
      → all_equal_to pm s.proposals ≡ v
      → s.leader_proposal ≡ some pm
      → s.sent ≡ pm ∷ []
      → s.received ≡ true
      → IsLeader pm
      → s.done ≡ false
      → s.out ≡ []
      → Ensures IsSound (
          v >>= λ same. ok (record s {
            out = s.out ++ (if same then some pm.vote.block_share else none) ∷ [];
            done = true;
          }))
  agreed pm s panic e l q r v d o = tt
  agreed pm s (ok true) e l q r v d o = record {
    leader = set_to pm l q r v;
    outcome = chosen pm refl (ap (λ x. x ++ some pm.vote.block_share ∷ []) o) v q e;
  }
  agreed pm s (ok false) e l q r v d o = record {
    leader = set_to pm l q r v;
    outcome = nothing refl (ap (λ x. x ++ none ∷ []) o);
  }

  end_proposals-IsSound :
      (s : Proposals)
      → s.done ≡ false
      → IsSound s
      → Ensures IsSound (end_proposals s.leader_proposal s)
  unfolding end_proposals
  end_proposals-IsSound s d h =
      let o = no_output s d h.outcome in
      elim h.leader [
        | unset e q ↦
            subst (λ l. Ensures IsSound (end_proposals l s)) (sym e)
              (record { leader = unset e q; outcome = nothing refl (ap (λ x. x ++ none ∷ []) o) })
        | set_to pm e q r v ↦
            subst (λ l. Ensures IsSound (end_proposals l s)) (sym e)
              (agreed pm s (all_equal_to pm s.proposals) refl e q r v d o)
      ]

  proposal_step-IsSound :
      (e : ProposalEvent) (s : Proposals) → IsSound s → Ensures IsSound (proposal_step cfg e s)
  unfolding proposal_step
  proposal_step-IsSound (proposal pm) s h =
      if_ind (Ensures IsSound) s.done _ _ (λ _. h) (λ d. handle_proposal-IsSound pm s d h)
  proposal_step-IsSound tick s h =
      if_ind (Ensures IsSound) s.done _ _ (λ _. h) (λ d. end_proposals-IsSound s d h)

  pub handle_proposals-IsSound :
      (es : List ProposalEvent) (r : Run Proposals)
      → Ensures IsSound r
      → Ensures IsSound (r >>= handle_proposals cfg es)
  unfolding handle_proposals
  handle_proposals-IsSound es panic h = tt
  handle_proposals-IsSound [] (ok s) h = h
  handle_proposals-IsSound (e ∷ es) (ok s) h =
      handle_proposals-IsSound es (proposal_step cfg e s) (proposal_step-IsSound e s h)

  pub done-once : (s : Proposals) → IsSound s → s.done ≡ true → length s.out ≡ 1
  done-once s h d = elim h.outcome [
    | waiting e o ↦ absurd (ground (arith, d, e))
    | nothing e o ↦ rw o refl
    | chosen pm e o l q a ↦ rw o refl
  ]

  end_proposals-done :
      (l : Option ProposeMessage) (s : Proposals) → Ensures (λ x. x.done ≡ true) (end_proposals l s)
  unfolding end_proposals
  end_proposals-done none s = refl
  end_proposals-done (some leader) s = go (all_equal_to leader s.proposals)
    where
      go :
          (v : Run Bool)
          → Ensures
              (λ x. x.done ≡ true)
              (v >>= λ same. ok (record s {
                out = s.out ++ (if same then some leader.vote.block_share else none) ∷ [];
                done = true;
              }))
      go panic = tt
      go (ok b) = refl

  ends_done :
      (es : List ProposalEvent) (r : Run Proposals)
      → Ensures (λ x. x.done ≡ true) r
      → Ensures (λ x. x.done ≡ true) (r >>= handle_proposals cfg es)
  ends_done es panic h = tt
  ends_done es (ok s) h = subst (Ensures (λ x. x.done ≡ true)) (sym (stays_done cfg es s h)) h

  pub ticked-done :
      (es : List ProposalEvent) (r : Run Proposals)
      → IsIn tick es
      → Ensures (λ x. x.done ≡ true) (r >>= handle_proposals cfg es)
  unfolding handle_proposals proposal_step
  ticked-done es panic i = tt
  ticked-done [] (ok s) i = elim i [ ]
  ticked-done (e ∷ es) (ok s) (inr i) = ticked-done es (proposal_step cfg e s) i
  ticked-done (tick ∷ es) (ok s) (inl p) = ends_done es (proposal_step cfg tick s) (
      if_ind (Ensures (λ x. x.done ≡ true)) s.done _ _ (λ d. d)
        (λ d. end_proposals-done s.leader_proposal s))
  ticked-done (proposal pm ∷ es) (ok s) (inl p) = absurd (ground (arith, p))

  pub all_equal_to-All :
      (pm : ProposeMessage) (ps : List ProposeMessage)
      → all_equal_to pm ps ≡ ok true
      → All (λ p. propose_hash p ≡ propose_hash pm) ps
  unfolding all_equal_to proposals_are_equal
  all_equal_to-All pm [] e = tt
  all_equal_to-All pm (p ∷ ps) e = elim (Option-cases (propose_hash p)) [
    | inl q ↦ absurd (ground (arith, q, e))
    | inr (h, q) ↦ elim (Option-cases (propose_hash pm)) [
      | inl u ↦ absurd (ground (arith, q, u, e))
      | inr (g, u) ↦ elim (Bool-cases (h == g)) [
        | inl same ↦ (
          q ∙ ap some ((bytes_eq.beq_iff h g).0 same) ∙ sym u,
          all_equal_to-All pm ps (ground (arith, q, u, same, e)),
        )
        | inr other ↦ absurd (ground (arith, q, u, other, e))
      ]
    ]
  ]
