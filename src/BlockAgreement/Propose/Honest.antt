-- ===== src/BlockAgreement/Propose/Honest.antt =====
-- What `isValidProposal` says of the proposal that `propose` makes of the votes of `handleVotes`.
use upgrade.Prelude.{
  nat_eq, Bytes, AllEntries-map, ◌⊎◌, ℕ, suc, ◌+◌, ◌-◌, ◌≤◌, ◌≡◌, refl, sym, ap, subst, ◌∙◌, true,
  false, Option, none, some, List, [], ◌∷◌, GoMap, length, leb, ltb, le→leb, ok, IsIn, AllEntries,
  Bool-cases, Option-cases, inl, inr, arith,
}
use upgrade.Crypto.{Crypto}
use upgrade.Block.{BlockShare, PreBlockMessage, quality}
use upgrade.BlockAgreement.Messages.{Vote, VoteMessage, ProposeMessage, propose_hash_without_sig}
use upgrade.BlockAgreement.Propose.{
  Config, propose_payload, is_valid_proposal, verify_propose_message, verify_vote_message,
  verify_hash, sign_hash, new_signed_propose_message, are_signed, is_valid_entry,
  is_valid_block_share, are_valid_entries, has_round_vote, votes_within, as_messages, handle_votes,
  find_max_vote, propose_max, propose, also,
}
use upgrade.BlockAgreement.Propose.Maximum.{find_max_vote_first}
use upgrade.BlockAgreement.Propose.Validity.{
  AreEntries, IsGoodShare, IsVote, AreVotes, handle_votes-AreVotes,
}

module _ ⦃c : Crypto⦄ (cfg : Config) where
  -- Another node of the same round: its id, vote and key share are its own.
  abbrev pub node_at : ℕ → Vote → c.KeyShare → Config
  node_at id vote share = record cfg { node_id = id; vote = vote; key_share = share }

  entry_of :
      (P : ℕ → VoteMessage → Type 0) (j : ℕ) (m : VoteMessage) (votes : GoMap ℕ VoteMessage)
      → AllEntries P votes
      → IsIn (j, m) votes
      → P j m
  entry_of P j m [] all h = absurd h
  entry_of P j m ((i, v) ∷ votes) all (inl e) =
      subst (λ (x : ℕ × VoteMessage). P x.0 x.1) (sym e) all.0
  entry_of P j m ((i, v) ∷ votes) all (inr h) = entry_of P j m votes all.1 h

  length-as_messages : (votes : GoMap ℕ VoteMessage) → length (as_messages votes) ≡ length votes
  length-as_messages [] = refl
  length-as_messages (_ ∷ votes) = omega (arith, length-as_messages votes)

  module _ (id : ℕ) (vote : Vote) (share : c.KeyShare) where
    entries_pass :
        (i : ℕ) (vec : List (Option PreBlockMessage))
        → AreEntries cfg i vec
        → are_valid_entries (node_at id vote share) i vec ≡ ok true
    unfolding are_valid_entries is_valid_entry
    entries_pass i [] h = refl
    entries_pass i (none ∷ vec) ((m, e, v), h) = absurd (ground (arith, e))
    entries_pass i (some m' ∷ vec) ((m, e, v), h) =
        let rest = entries_pass (suc i) vec h in
        let same : m ≡ m' = ground (arith, e) in
        let valid : is_valid_entry (node_at id vote share) i m' ≡ true =
          subst (λ k. is_valid_entry (node_at id vote share) i k ≡ true) same v in
        rw valid rest

    share_passes :
        (bs : BlockShare)
        → IsGoodShare cfg bs
        → is_valid_block_share (node_at id vote share) bs ≡ ok true
    unfolding is_valid_block_share
    share_passes bs h =
        let high : ltb (quality bs.block) (cfg.n - cfg.t) ≡ false = ground (arith, h.0) in
        rw high (entries_pass 0 bs.block.vec h.1)

    votes_signed :
        (votes : GoMap ℕ VoteMessage)
        → AllEntries (IsVote cfg) votes
        → are_signed (node_at id vote share) (as_messages votes) ≡ ok true
    unfolding are_signed verify_vote_message
    votes_signed [] all = refl
    votes_signed ((i, v) ∷ votes) ((_, signed, _), all) = rw signed (votes_signed votes all)

    votes_below :
        (r : ℕ) (votes : GoMap ℕ VoteMessage)
        → AllEntries (λ i v. v.vote.round ≤ r) votes
        → votes_within (node_at id vote share) r (as_messages votes) ≡ ok true
    unfolding votes_within
    votes_below r [] all = refl
    votes_below r ((i, v) ∷ votes) (low, all) =
        let within : ltb r v.vote.round ≡ false = ground (arith, low) in
        rw within (votes_below r votes all)

    signature_passes :
        (pm : ProposeMessage) (max : Vote) (votes : GoMap ℕ VoteMessage)
        → ((b : Bytes) (sig : c.SigShare)
            → c.sign cfg.key_share b cfg.key_meta ≡ some sig
            → c.verify sig b cfg.key_meta ≡ true)
        → new_signed_propose_message cfg max (as_messages votes) ≡ some pm
        → (pm.vote ≡ max)
          × (pm.vote_messages ≡ as_messages votes)
          × ((sig : c.SigShare) × (pm.sig ≡ some sig)
              × (verify_propose_message (node_at id vote share) pm sig ≡ true))
    unfolding new_signed_propose_message verify_propose_message sign_hash verify_hash
    signature_passes pm max votes verifies e =
        let hash = propose_hash_without_sig cfg.node_id max (as_messages votes) in
        elim (Option-cases (c.prepare_document_hash (c.public_key_size cfg.key_meta) hash)) [
          | inl p ↦ absurd (ground (arith, p, e))
          | inr (padded, p) ↦ elim (Option-cases (c.sign cfg.key_share padded cfg.key_meta)) [
            | inl q ↦ absurd (ground (arith, p, q, e))
            | inr (sig, q) ↦
                let made : pm ≡ record {
                  sender = cfg.node_id;
                  vote = max;
                  vote_messages = as_messages votes;
                  sig = some sig;
                } =
                  ground (arith, p, q, e) in
                (
                  ap (λ m. m.vote) made,
                  ap (λ m. m.vote_messages) made,
                  (
                    sig,
                    ap (λ m. m.sig) made,
                    subst
                        (λ (m : ProposeMessage).
                          verify_propose_message (node_at id vote share) m sig ≡ true)
                        (sym made)
                        (rw (p, verify_propose_message, verify_hash) (verifies padded sig q)),
                  ),
                )
          ]
        ]

    proposal_passes :
        (pm : ProposeMessage) (max : Vote) (votes : GoMap ℕ VoteMessage)
        → ((b : Bytes) (sig : c.SigShare)
            → c.sign cfg.key_share b cfg.key_meta ≡ some sig
            → c.verify sig b cfg.key_meta ≡ true)
        → AreVotes cfg votes
        → cfg.t + 1 ≤ length votes
        → find_max_vote votes ≡ some max
        → new_signed_propose_message cfg max (as_messages votes) ≡ some pm
        → is_valid_proposal (node_at id vote share) pm
          ≡ ok (has_round_vote (node_at id vote share) pm.vote)
    unfolding is_valid_proposal
    proposal_passes pm max votes verifies kept many found made =
        let (same_vote, same_votes, (sig, signed, verified)) =
          signature_passes pm max votes verifies made in
        let (j, m, present, is_max, before) = find_max_vote_first votes found in
        let good : IsGoodShare cfg max.block_share =
          subst (λ (v : Vote). IsGoodShare cfg v.block_share) is_max
            (entry_of (IsVote cfg) j m votes kept.1 present).2 in
        let low : AllEntries (λ i v. v.vote.round ≤ max.round) votes =
          AllEntries-map _ _
            (λ k v h. elim h [ inl l ↦ omega (arith, l) | inr (e, l) ↦ omega (arith, e) ]) votes
            before in
        let enough : leb (cfg.t + 1) (length pm.vote_messages) ≡ true = le→leb _ _ (
          subst (λ k. cfg.t + 1 ≤ k)
            (sym (ap (λ l. length l) same_votes ∙ length-as_messages votes)) many) in
        let ss : are_signed (node_at id vote share) pm.vote_messages ≡ ok true =
          ap (are_signed (node_at id vote share)) same_votes ∙ votes_signed votes kept.1 in
        let bs : is_valid_block_share (node_at id vote share) pm.vote.block_share ≡ ok true =
          ap (λ (v : Vote). is_valid_block_share (node_at id vote share) v.block_share) same_vote
          ∙ share_passes max.block_share good in
        let ws : votes_within (node_at id vote share) pm.vote.round pm.vote_messages ≡ ok true =
          ap (votes_within (node_at id vote share) pm.vote.round) same_votes
          ∙ ap (λ (v : Vote). votes_within (node_at id vote share) v.round (as_messages votes))
              same_vote
          ∙ votes_below max.round votes low in
        rw signed (rw verified (rw ss (rw bs (last ws enough (Bool-cases _)))))
      where
        last :
            votes_within (node_at id vote share) pm.vote.round pm.vote_messages ≡ ok true
            → leb (cfg.t + 1) (length pm.vote_messages) ≡ true
            → (has_round_vote (node_at id vote share) pm.vote ≡ true)
              ⊎ (has_round_vote (node_at id vote share) pm.vote ≡ false)
            → also (node_at id vote share) (ok (has_round_vote (node_at id vote share) pm.vote)) (
                also
                  (node_at id vote share)
                  (ok (leb (cfg.t + 1) (length pm.vote_messages)))
                  (votes_within (node_at id vote share) pm.vote.round pm.vote_messages))
              ≡ ok (has_round_vote (node_at id vote share) pm.vote)
        last w l (inl h) = rw h (rw l w)
        last w l (inr h) = rw h refl

  -- The proposal that a proposer makes of the votes it received, at least `t + 1` of which it kept,
  -- passes `isValidProposal` at every node of the same round exactly when the vote it proposes passes
  -- the third test, on the round and the number of the vote's commits; all other tests pass, and none
  -- panics. It is supposed that what the proposer's key share signs verifies.
  pub propose-passes :
      (id : ℕ) (vote : Vote) (share : c.KeyShare) (received : List VoteMessage)
      (pm : ProposeMessage) {votes : GoMap ℕ VoteMessage}
      → ((b : Bytes) (sig : c.SigShare)
          → c.sign cfg.key_share b cfg.key_meta ≡ some sig
          → c.verify sig b cfg.key_meta ≡ true)
      → handle_votes cfg received [] ≡ ok votes
      → propose cfg votes ≡ record { receiver = none; payload = propose_payload (some pm) } ∷ []
      → is_valid_proposal (node_at id vote share) pm
        ≡ ok (has_round_vote (node_at id vote share) pm.vote)
  unfolding propose propose_max
  propose-passes id vote share received pm {votes} verifies kept sent =
      elim (Bool-cases (leb (cfg.t + 1) (length votes))) [
        | inr few ↦ absurd (ground (arith, few, sent))
        | inl many ↦ elim (Option-cases (find_max_vote votes)) [
          | inl p ↦ absurd (ground (arith, p, many, sent))
          | inr (max, p) ↦
              proposal_passes id vote share pm max votes verifies
                (handle_votes-AreVotes cfg received kept) (ground (arith, many)) p
                (ground (arith, p, many, sent))
        ]
      ]
