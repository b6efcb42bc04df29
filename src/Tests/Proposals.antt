-- ===== src/Tests/Proposals.antt =====
-- Block agreement at one node, which is its own proposer.
use upgrade.Prelude.{
  ℕ, ◌<◌, ◌≤◌, ◌≡◌, refl, true, false, some, none, List, [], ◌∷◌, inl, inr, ◌⊎◌, IsIn, arith,
  lookup, insert, length, nat_eq, IsMap, GoMap, AllEntries, ok,
}
use upgrade.Crypto.{itoa}
use upgrade.Block.{share_hash, quality}
use upgrade.BlockAgreement.Messages.{Vote, VoteMessage, ProposeMessage, propose_hash}
use upgrade.BlockAgreement.Propose.{
  Config, handle_votes, find_max_vote, is_valid_proposal, Proposals, ProposalEvent, proposal, tick,
  no_proposals, handle_proposals, propose, propose_payload, has_round_vote,
}
use upgrade.BlockAgreement.Propose.Honest.{propose-passes, node_at}
use upgrade.BlockAgreement.Propose.Maximum.{find_max_vote_first, find_max_vote_order}
use upgrade.BlockAgreement.Propose.Validity.{AreVotes, handle_votes-AreVotes}
use upgrade.BlockAgreement.Propose.Outputs.{handle_proposals_once}
use upgrade.Tests.Toy.{toy, share}

abbrev vote : Vote
vote = record { round = 0; block_share = share 9; commits = [] }

abbrev cfg : Config
cfg = record {
  n = 1;
  node_id = 0;
  t = 0;
  proposer_id = 0;
  round = 0;
  vote = vote;
  key_share = 3;
  key_meta = 5;
}

abbrev vote_of : ℕ → ℕ → VoteMessage
vote_of i r = record {
  sender = i;
  vote = record { round = r; block_share = share i; commits = [] };
  sig = 3;
}

abbrev own_vote : VoteMessage
own_vote = record { sender = 0; vote = vote; sig = 3 }

abbrev proposed : ProposeMessage
proposed = record { sender = 0; vote = vote; vote_messages = (0, some own_vote) ∷ []; sig = some 3 }

kept : handle_votes cfg (own_vote ∷ own_vote ∷ []) [] ≡ ok ((0, own_vote) ∷ [])
unfolding handle_votes lookup insert quality
kept = refl

handle_votes-AreVotes_example : AreVotes cfg ((0, own_vote) ∷ [])
handle_votes-AreVotes_example = handle_votes-AreVotes cfg (own_vote ∷ own_vote ∷ []) kept

abbrev three_votes : GoMap ℕ VoteMessage
three_votes = (2, vote_of 2 4) ∷ (0, vote_of 0 1) ∷ (1, vote_of 1 4) ∷ []

abbrev other_order : GoMap ℕ VoteMessage
other_order = (0, vote_of 0 1) ∷ (1, vote_of 1 4) ∷ (2, vote_of 2 4) ∷ []

maximal : find_max_vote three_votes ≡ some (vote_of 1 4).vote
unfolding find_max_vote
maximal = refl

find_max_vote_first_example :
    (j : ℕ) × (m : VoteMessage) × IsIn (j, m) three_votes
    × (m.vote ≡ (vote_of 1 4).vote)
    × AllEntries (λ k x. (x.vote.round < 4) ⊎ ((x.vote.round ≡ 4) × (j ≤ k))) three_votes
find_max_vote_first_example = find_max_vote_first three_votes maximal

same_entries : (k : ℕ) → lookup k three_votes ≡ lookup k other_order
unfolding lookup
same_entries k = ground arith

distinct : IsMap three_votes
distinct = (ground arith)

distinct_other : IsMap other_order
distinct_other = (ground arith)

find_max_vote_order_example : find_max_vote three_votes ≡ find_max_vote other_order
find_max_vote_order_example =
    find_max_vote_order three_votes other_order distinct distinct_other same_entries

-- The vote of node 1 has round 4 and no commits.
abbrev two_votes : List VoteMessage
two_votes = own_vote ∷ vote_of 1 4 ∷ []

abbrev two_kept : GoMap ℕ VoteMessage
two_kept = (0, own_vote) ∷ (1, vote_of 1 4) ∷ []

keeps : handle_votes cfg two_votes [] ≡ ok two_kept
unfolding handle_votes lookup insert quality
keeps = refl

abbrev late : ProposeMessage
late = record {
  sender = 0;
  vote = (vote_of 1 4).vote;
  vote_messages = (0, some own_vote) ∷ (1, some (vote_of 1 4)) ∷ [];
  sig = some 3;
}

proposes :
    propose cfg two_kept ≡ record { receiver = none; payload = propose_payload (some late) } ∷ []
unfolding propose find_max_vote
proposes = refl

propose-passes_example :
    is_valid_proposal (node_at cfg 1 vote 2) late
    ≡ ok (has_round_vote (node_at cfg 1 vote 2) late.vote)
propose-passes_example = propose-passes cfg 1 vote 2 two_votes late (λ b sig e. refl) keeps proposes

-- The proposer is honest, and its proposal is rejected.
rejected : is_valid_proposal (node_at cfg 1 vote 2) late ≡ ok false
unfolding is_valid_proposal has_round_vote quality
rejected = refl

-- A proposal with another sender in it has another hash, so that nothing is chosen.
abbrev events : List ProposalEvent
events = proposal proposed ∷ proposal (record proposed { sender = 1 }) ∷ tick ∷ []

abbrev after_tick : Proposals
after_tick = record {
  proposals = record proposed { sender = 1 } ∷ [];
  leader_proposal = some proposed;
  received = true;
  sent = proposed ∷ [];
  out = none ∷ [];
  done = true;
}

runs : handle_proposals cfg events no_proposals ≡ ok after_tick
unfolding handle_proposals no_proposals propose_hash quality itoa share_hash
runs = refl

handle_proposals_once_example : length after_tick.out ≡ 1
handle_proposals_once_example = handle_proposals_once cfg events (inr (inr (inl refl))) runs
