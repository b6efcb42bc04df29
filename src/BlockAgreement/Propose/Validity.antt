-- ===== src/BlockAgreement/Propose/Validity.antt =====
-- What `isValidBlockShare` establishes, and what `handleVotes` keeps.
use upgrade.Prelude.{
  nat_eq, ℕ, suc, ◌-◌, ◌≤◌, ◌≡◌, refl, sym, Bool, true, false, not, Option, none, some, List, [],
  ◌∷◌, GoMap, lookup, ltb, nat_eq, bytes_eq, if_ind, is_some, Run, ok, panic, ◌>>=◌, Ensures,
  Ensures-ok, IsMap, insert-IsMap, AllEntries, AllEntries-insert, Bool-cases, inl, inr, arith,
}
use upgrade.Crypto.{Crypto}
use upgrade.Block.{BlockShare, PreBlockMessage, quality}
use upgrade.BlockAgreement.Messages.{VoteMessage}
use upgrade.BlockAgreement.Propose.{
  Config, verify_vote_message, is_valid_entry, is_valid_block_share, are_valid_entries, also,
  keep_vote, handle_vote, handle_votes,
}

module _ ⦃c : Crypto⦄ (cfg : Config) where
  also-true : (x y : Run Bool) → also cfg x y ≡ ok true → (x ≡ ok true) × (y ≡ ok true)
  also-true panic y e = absurd (ground (arith, e))
  also-true (ok true) y e = (refl, e)
  also-true (ok false) y e = absurd (ground (arith, e))

  -- Every entry of the vector is there and is the signed message of the node at its index.
  abbrev pub AreEntries : ℕ → List (Option PreBlockMessage) → Type 0
  AreEntries i [] = Unit
  AreEntries i (o ∷ os) =
      ((m : PreBlockMessage) × (o ≡ some m) × (is_valid_entry cfg i m ≡ true))
      × AreEntries (suc i) os

  are_valid_entries-AreEntries :
      (i : ℕ) (vec : List (Option PreBlockMessage))
      → are_valid_entries cfg i vec ≡ ok true
      → AreEntries i vec
  unfolding are_valid_entries
  are_valid_entries-AreEntries i [] e = tt
  are_valid_entries-AreEntries i (none ∷ vec) e = absurd (ground (arith, e))
  are_valid_entries-AreEntries i (some m ∷ vec) e = elim (Bool-cases (is_valid_entry cfg i m)) [
    | inl v ↦ ((m, refl, v), are_valid_entries-AreEntries (suc i) vec (ground arith))
    | inr v ↦ absurd (ground arith)
  ]

  abbrev pub IsGoodShare : BlockShare → Type 0
  IsGoodShare bs = (cfg.n - cfg.t ≤ quality bs.block) × AreEntries 0 bs.block.vec

  is_valid_block_share-IsGoodShare :
      (bs : BlockShare) → is_valid_block_share cfg bs ≡ ok true → IsGoodShare bs
  unfolding is_valid_block_share
  is_valid_block_share-IsGoodShare bs e =
      elim (Bool-cases (ltb (quality bs.block) (cfg.n - cfg.t))) [
        | inl low ↦ absurd (ground arith)
        | inr high ↦ (ground arith, are_valid_entries-AreEntries 0 bs.block.vec (ground arith))
      ]

  -- A kept vote: validly signed, on a good block share, under its sender's index.
  abbrev pub IsVote : ℕ → VoteMessage → Type 0
  IsVote i v = (v.sender ≡ i) × (verify_vote_message cfg v ≡ true) × IsGoodShare v.vote.block_share

  abbrev pub AreVotes : GoMap ℕ VoteMessage → Type 0
  AreVotes votes = IsMap votes × AllEntries IsVote votes

  keep_vote-AreVotes :
      (v : VoteMessage) (votes : GoMap ℕ VoteMessage) (r : Run Bool)
      → verify_vote_message cfg v ≡ true
      → is_valid_block_share cfg v.vote.block_share ≡ r
      → AreVotes votes
      → Ensures AreVotes (r >>= λ valid. ok (keep_vote cfg v votes valid))
  unfolding keep_vote
  keep_vote-AreVotes v votes panic s e h = tt
  keep_vote-AreVotes v votes (ok false) s e h = h
  keep_vote-AreVotes v votes (ok true) s e h =
      if_ind AreVotes (not (is_some (lookup v.sender votes))) _ _
        (λ _. (
          insert-IsMap v.sender v votes h.0,
          AllEntries-insert IsVote v.sender v votes
              (λ j q. (sym q, s, is_valid_block_share-IsGoodShare v.vote.block_share e)) h.1,
        ))
        (λ _. h)

  handle_vote-AreVotes :
      (v : VoteMessage) (votes : GoMap ℕ VoteMessage)
      → AreVotes votes
      → Ensures AreVotes (handle_vote cfg v votes)
  unfolding handle_vote
  handle_vote-AreVotes v votes h =
      if_ind (Ensures AreVotes) (verify_vote_message cfg v) _ _
        (λ s. keep_vote-AreVotes v votes (is_valid_block_share cfg v.vote.block_share) s refl h)
        (λ _. h)

  handle_votes-Ensures :
      (vs : List VoteMessage) (r : Run (GoMap ℕ VoteMessage))
      → Ensures AreVotes r
      → Ensures AreVotes (r >>= handle_votes cfg vs)
  unfolding handle_votes
  handle_votes-Ensures vs panic h = tt
  handle_votes-Ensures [] (ok votes) h = h
  handle_votes-Ensures (v ∷ vs) (ok votes) h =
      handle_votes-Ensures vs (handle_vote cfg v votes) (handle_vote-AreVotes v votes h)

  -- Unless the code panics, the votes that the proposer holds at the tick are one per node, each
  -- under its sender's index, with a valid signature, and on a block share of quality at least `n -
  -- t` whose vector has, at every index, the signed message of the node of that index.
  pub handle_votes-AreVotes :
      (vs : List VoteMessage) {votes : GoMap ℕ VoteMessage}
      → handle_votes cfg vs [] ≡ ok votes
      → AreVotes votes
  handle_votes-AreVotes vs e =
      Ensures-ok AreVotes (handle_votes cfg vs []) _ (handle_votes-Ensures vs (ok []) (tt, tt)) e
