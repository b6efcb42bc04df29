-- ===== src/Tests/Forwards.antt =====
-- The proposals of a round with a hash in which all messages agree, at a node that gets the leader's
-- proposal and one under another sender's id.
use upgrade.Prelude.{◌≡◌, refl, true, some, List, [], ◌∷◌, inl, All, IsIn, nat_eq, ok}
use upgrade.Crypto.{Crypto, itoa}
use upgrade.Block.{unset, share_hash, quality}
use upgrade.BlockAgreement.Messages.{Vote, ProposeMessage, propose_hash}
use upgrade.BlockAgreement.Propose.{
  Config, is_valid_proposal, Proposals, ProposalEvent, proposal, tick, no_proposals,
  handle_proposals,
}
use upgrade.BlockAgreement.Propose.Collected.{forwards}
use upgrade.BlockAgreement.Propose.Outputs.{output_from_leader}
use upgrade.Tests.Toy as Toy

-- The stand-in with one hash for all.
instance abbrev flat : Crypto
flat = record Toy.toy { sha256 = λ b. 0 ∷ [] }

abbrev vote : Vote
vote = record {
  round = 0;
  block_share = record {
    block = record { vec = some (record { message = 9 ∷ []; sig = 1 }) ∷ []; size = unset };
    pointer = record { block_hash = 9 ∷ []; sig = [] };
  };
  commits = [];
}

abbrev cfg : Config
cfg = record {
  n = 1;
  node_id = 0;
  t = 0;
  proposer_id = 0;
  round = 0;
  vote = vote;
  key_share = 3;
  key_meta = 5;
}

abbrev proposed : ProposeMessage
proposed = record {
  sender = 0;
  vote = vote;
  vote_messages = (0, some (record { sender = 0; vote = vote; sig = 3 })) ∷ [];
  sig = some 3;
}

abbrev from_other : ProposeMessage
from_other = record proposed { sender = 1 }

abbrev events : List ProposalEvent
events = proposal from_other ∷ proposal proposed ∷ tick ∷ []

abbrev accepted : Proposals
accepted = record {
  proposals = from_other ∷ [];
  leader_proposal = some proposed;
  received = true;
  sent = proposed ∷ [];
  out = some vote.block_share ∷ [];
  done = true;
}

accepts : handle_proposals cfg events no_proposals ≡ ok accepted
unfolding handle_proposals no_proposals propose_hash quality itoa share_hash
accepts = refl

output_from_leader_example :
    (pm : ProposeMessage) × (pm.vote.block_share ≡ vote.block_share)
    × IsIn (proposal pm) events
    × (pm.sender ≡ 0)
    × (is_valid_proposal cfg pm ≡ ok true)
    × (accepted.sent ≡ pm ∷ [])
    × All (λ p. propose_hash p ≡ propose_hash pm) (forwards cfg events)
output_from_leader_example = output_from_leader cfg events accepts (inl refl)
