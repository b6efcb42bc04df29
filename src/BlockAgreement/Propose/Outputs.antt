-- ===== src/BlockAgreement/Propose/Outputs.antt =====
-- What `handleProposals` outputs: once, and only a proposal that passed the proposer's check.
use upgrade.Prelude.{
  ◌≡◌, refl, sym, ap, subst, true, none, some, List, [], ◌∷◌, length, nat_eq, bytes_eq, get_or, ok,
  Ensures-ok, All, IsIn, inl, inr, arith,
}
use upgrade.Crypto.{Crypto}
use upgrade.Block.{BlockShare}
use upgrade.BlockAgreement.Messages.{ProposeMessage, propose_hash}
use upgrade.BlockAgreement.Propose.{
  Config, Proposals, ProposalEvent, proposal, tick, is_valid_proposal, handle_proposals,
  no_proposals,
}
use upgrade.BlockAgreement.Propose.Leaders.{
  Leader, unset, set_to, waiting, nothing, chosen, IsSound, handle_proposals-IsSound, done-once,
  ticked-done, all_equal_to-All,
}
use upgrade.BlockAgreement.Propose.Collected.{forwards, Leads, Collects, handle_proposals-Collects}

module _ ⦃c : Crypto⦄ (cfg : Config) where
  -- Unless the code panics, one value is output, and no more, by every sequence of events that has
  -- the tick of time 3 in it.
  pub handle_proposals_once :
      (es : List ProposalEvent) {s : Proposals}
      → IsIn tick es
      → handle_proposals cfg es no_proposals ≡ ok s
      → length s.out ≡ 1
  unfolding no_proposals
  handle_proposals_once es {s} i e =
      done-once cfg s
        (Ensures-ok (IsSound cfg) (handle_proposals cfg es no_proposals) s
          (handle_proposals-IsSound cfg es (ok no_proposals)
            (record { leader = unset refl refl; outcome = waiting refl refl }))
          e)
        (Ensures-ok (λ x. x.done ≡ true) (handle_proposals cfg es no_proposals) s
          (ticked-done cfg es (ok no_proposals) i) e)

  -- A block share that is output is the one of a proposal that was received from the proposer of the
  -- round and passed the check; this node forwarded that proposal and no other, and all the proposals
  -- that it received under another sender's id before the tick have the same hash.
  pub output_from_leader :
      (es : List ProposalEvent) {s : Proposals} {bs : BlockShare}
      → handle_proposals cfg es no_proposals ≡ ok s
      → IsIn (some bs) s.out
      → (pm : ProposeMessage) × (pm.vote.block_share ≡ bs)
        × IsIn (proposal pm) es
        × (pm.sender ≡ cfg.proposer_id)
        × (is_valid_proposal cfg pm ≡ ok true)
        × (s.sent ≡ pm ∷ [])
        × All (λ p. propose_hash p ≡ propose_hash pm) (forwards cfg es)
  unfolding no_proposals
  output_from_leader es {s} {bs} e i =
      let sound =
        Ensures-ok (IsSound cfg) (handle_proposals cfg es no_proposals) s
          (handle_proposals-IsSound cfg es (ok no_proposals)
            (record { leader = unset refl refl; outcome = waiting refl refl }))
          e in
      let collected =
        Ensures-ok (Collects cfg es no_proposals) (handle_proposals cfg es no_proposals) s
          (handle_proposals-Collects cfg es no_proposals refl refl) e in
      elim sound.outcome [
        | waiting d o ↦ absurd (subst (IsIn (some bs)) o i)
        | nothing d o ↦ absurd (nothing_in o i)
        | chosen pm d o l q a ↦ elim (subst (IsIn (some bs)) o i) [
          | inr f ↦ absurd f
          | inl p ↦ elim collected [
            | inl nil ↦ absurd (nothing_in nil i)
            | inr (all, leads) ↦ (
              pm,
              sym (ap (λ o. get_or o bs) p),
              from_events leads (leader_of sound.leader q),
              l.0,
              l.1,
              q,
              subst (All (λ p. propose_hash p ≡ propose_hash pm)) all
                  (all_equal_to-All cfg pm s.proposals a),
            )
          ]
        ]
      ]
    where
      nothing_in : s.out ≡ none ∷ [] → IsIn (some bs) s.out → ⊥
      nothing_in o j = elim (subst (IsIn (some bs)) o j) [
        | inl q ↦ absurd (ground (arith, q))
        | inr f ↦ absurd f
      ]

      leader_of :
          {pm : ProposeMessage} → Leader cfg s → s.sent ≡ pm ∷ [] → s.leader_proposal ≡ some pm
      leader_of (unset n q) same = absurd (ground (arith, q, same))
      leader_of (set_to m n q r v) same = ground (arith, n, q, same)

      from_events :
          {pm : ProposeMessage}
          → Leads cfg es no_proposals s
          → s.leader_proposal ≡ some pm
          → IsIn (proposal pm) es
      from_events {pm} leads same = elim (leads pm same) [
        | inl before ↦ absurd (ground (arith, before))
        | inr there ↦ there
      ]
