-- ===== src/BlockAgreement/Propose/Once.antt =====
-- After `handleProposals` has returned, nothing changes.
use upgrade.Prelude.{◌≡◌, refl, ◌∙◌, ap, true, List, [], ◌∷◌, nat_eq, bytes_eq, ok, ◌>>=◌, arith}
use upgrade.Crypto.{Crypto}
use upgrade.BlockAgreement.Propose.{
  Config, Proposals, ProposalEvent, proposal, tick, proposal_step, handle_proposals,
}

module _ ⦃c : Crypto⦄ (cfg : Config) where
  step-done : (e : ProposalEvent) (s : Proposals) → s.done ≡ true → proposal_step cfg e s ≡ ok s
  unfolding proposal_step
  step-done (proposal pm) s d = ground (arith, d)
  step-done tick s d = ground (arith, d)

  pub stays_done :
      (es : List ProposalEvent) (s : Proposals) → s.done ≡ true → handle_proposals cfg es s ≡ ok s
  unfolding handle_proposals
  stays_done [] s d = refl
  stays_done (e ∷ es) s d =
      ap (λ r. r >>= handle_proposals cfg es) (step-done e s d) ∙ stays_done es s d
