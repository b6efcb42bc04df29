-- ===== src/BlockAgreement/Propose/Collected.antt =====
-- Which of the received proposals `handleProposals` compares with the leader's.
use upgrade.Prelude.{
  ◌≡◌, refl, sym, ◌∙◌, ap, subst, Bool, true, false, not, ◌||◌, ◌⊎◌, Option, none, some, List, [],
  ◌∷◌, ◌++◌, ◌==◌, nat_eq, if◌then◌else◌, if_ind, is_some, Run, ok, panic, ◌>>=◌, Ensures, IsIn,
  append_nil, inl, inr, arith,
}
use mathlib.Core.List.{append_assoc}
use upgrade.Crypto.{Crypto}
use upgrade.BlockAgreement.Messages.{ProposeMessage}
use upgrade.BlockAgreement.Propose.{
  Config, Proposals, ProposalEvent, proposal, tick, is_valid_proposal, accept_leader,
  handle_proposal, all_equal_to, end_proposals, proposal_step, handle_proposals,
}
use upgrade.BlockAgreement.Propose.Once.{stays_done}

module _ ⦃c : Crypto⦄ (cfg : Config) where
  -- The proposals under another sender's id than the proposer's, before the tick.
  abbrev pub forwards : List ProposalEvent → List ProposeMessage
  forwards [] = []
  forwards (tick ∷ es) = []
  forwards (proposal pm ∷ es) =
      if pm.sender == cfg.proposer_id then forwards es else pm ∷ forwards es

  -- The leader's proposal is the one there was, or a received one.
  abbrev pub Leads : List ProposalEvent → Proposals → Proposals → Type 0
  Leads es s s' =
      (m : ProposeMessage)
      → s'.leader_proposal ≡ some m
      → (s.leader_proposal ≡ some m) ⊎ IsIn (proposal m) es

  abbrev pub Collects : List ProposalEvent → Proposals → Proposals → Type 0
  Collects es s s' =
      (s'.out ≡ none ∷ []) ⊎ ((s'.proposals ≡ s.proposals ++ forwards es) × Leads es s s')

  weaken :
      (P Q : Proposals → Type 0) (r : Run Proposals)
      → ((s : Proposals) → P s → Q s)
      → Ensures P r
      → Ensures Q r
  weaken P Q panic f h = tt
  weaken P Q (ok s) f h = f s h

  -- A message of the leader, after which the collected proposals are the same.
  from_leader :
      (pm : ProposeMessage) (es : List ProposalEvent) (s s1 s' : Proposals)
      → (pm.sender == cfg.proposer_id) ≡ true
      → s1.proposals ≡ s.proposals
      → ((m : ProposeMessage)
          → s1.leader_proposal ≡ some m
          → (s.leader_proposal ≡ some m) ⊎ (m ≡ pm))
      → Collects es s1 s'
      → Collects (proposal pm ∷ es) s s'
  from_leader pm es s s1 s' own same lead (inl nothing) = inl nothing
  from_leader pm es s s1 s' own same lead (inr (all, leads)) = inr (
    all
        ∙ ap (λ ps. ps ++ forwards es) same
        ∙ ap (λ b. s.proposals ++ (if b then forwards es else pm ∷ forwards es)) (sym own),
    (λ m e. elim (leads m e) [
      | inr there ↦ inr (inr there)
      | inl before ↦ elim (lead m before) [
        | inl old ↦ inl old
        | inr new ↦ inr (inl (ap proposal new))
      ]
    ]),
  )

  from_other :
      (pm : ProposeMessage) (es : List ProposalEvent) (s s' : Proposals)
      → (pm.sender == cfg.proposer_id) ≡ false
      → Collects es (record s { proposals = s.proposals ++ pm ∷ [] }) s'
      → Collects (proposal pm ∷ es) s s'
  from_other pm es s s' other (inl nothing) = inl nothing
  from_other pm es s s' other (inr (all, leads)) = inr (
    all
        ∙ append_assoc s.proposals (pm ∷ []) (forwards es)
        ∙ ap (λ b. s.proposals ++ (if b then forwards es else pm ∷ forwards es)) (sym other),
    (λ m e. elim (leads m e) [ inr there ↦ inr (inr there) | inl before ↦ inl before ]),
  )

  -- The tick compares, and leaves what was collected.
  end_proposals-Collects :
      (es : List ProposalEvent) (l : Option ProposeMessage) (s : Proposals)
      → Ensures (Collects (tick ∷ es) s) (end_proposals l s >>= handle_proposals cfg es)
  unfolding end_proposals
  end_proposals-Collects es none s =
      subst (Ensures (Collects (tick ∷ es) s)) (sym (stays_done cfg es _ refl))
        (inr (sym (append_nil s.proposals), (λ m e. inl e)))
  end_proposals-Collects es (some leader) s = compared (all_equal_to leader s.proposals)
    where
      compared :
          (v : Run Bool)
          → Ensures (Collects (tick ∷ es) s) (
              (v >>= λ same. ok (record s {
                out = s.out ++ (if same then some leader.vote.block_share else none) ∷ [];
                done = true;
              }))
              >>= handle_proposals cfg es)
      compared panic = tt
      compared (ok same) =
          subst (Ensures (Collects (tick ∷ es) s)) (sym (stays_done cfg es _ refl))
            (inr (sym (append_nil s.proposals), (λ m e. inl e)))

  pub handle_proposals-Collects :
      (es : List ProposalEvent) (s : Proposals)
      → s.done ≡ false
      → s.out ≡ []
      → Ensures (Collects es s) (handle_proposals cfg es s)
  unfolding handle_proposals proposal_step handle_proposal accept_leader
  handle_proposals-Collects [] s d o = inr (sym (append_nil s.proposals), (λ m e. inl e))
  handle_proposals-Collects (tick ∷ es) s d o =
      if_ind (λ r. Ensures (Collects (tick ∷ es) s) (r >>= handle_proposals cfg es)) s.done _ _
        (λ over. absurd (ground (arith, over, d)))
        (λ _. end_proposals-Collects es s.leader_proposal s)
  handle_proposals-Collects (proposal pm ∷ es) s d o =
      if_ind (λ r. Ensures (Collects (proposal pm ∷ es) s) (r >>= handle_proposals cfg es)) s.done _
        _ (λ over. absurd (ground (arith, over, d)))
        (λ _.
          if_ind (λ r. Ensures (Collects (proposal pm ∷ es) s) (r >>= handle_proposals cfg es))
            (pm.sender == cfg.proposer_id) _ _
            (λ own.
              if_ind (λ r. Ensures (Collects (proposal pm ∷ es) s) (r >>= handle_proposals cfg es))
                (not (is_some pm.sig) || s.received) _ _
                (λ _.
                  weaken (Collects es s) _ (handle_proposals cfg es s)
                    (λ s' h. from_leader pm es s s s' own refl (λ m e. inl e) h)
                    (handle_proposals-Collects es s d o))
                (λ _.
                  checked own (is_valid_proposal cfg pm)
                    (λ s1 d1 o1. handle_proposals-Collects es s1 d1 o1)))
            (λ other.
              let s1 = record s { proposals = s.proposals ++ pm ∷ [] } in
              weaken (Collects es s1) _ (handle_proposals cfg es s1)
                (λ s' h. from_other pm es s s' other h) (handle_proposals-Collects es s1 d o)))
    where
      checked :
          (pm.sender == cfg.proposer_id) ≡ true
          → (v : Run Bool)
          → ((s1 : Proposals)
              → s1.done ≡ false
              → s1.out ≡ []
              → Ensures (Collects es s1) (handle_proposals cfg es s1))
          → Ensures
              (Collects (proposal pm ∷ es) s)
              ((v >>= λ valid. ok (accept_leader pm s valid)) >>= handle_proposals cfg es)
      checked own panic ih = tt
      checked own (ok false) ih =
          subst (Ensures (Collects (proposal pm ∷ es) s)) (sym (stays_done cfg es _ refl))
            (inl (ap (λ x. x ++ none ∷ []) o))
      checked own (ok true) ih =
          let s1 = record s {
            leader_proposal = some pm;
            received = true;
            sent = s.sent ++ pm ∷ [];
          } in
          weaken (Collects es s1) _ (handle_proposals cfg es s1)
            (λ s' h. from_leader pm es s s1 s' own refl (λ m e. inr (ground (arith, e))) h)
            (ih s1 d o)
