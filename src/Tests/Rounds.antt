-- ===== src/Tests/Rounds.antt =====
-- The graded consensus and the rounds of block agreement at one node.
use upgrade.Prelude.{
  ◌⊎◌, ℕ, ◌+◌, ◌≤◌, ◌≡◌, refl, true, false, some, none, [], ◌∷◌, All, arith, lookup, insert, nat_eq,
  bytes_eq, ok,
}
use upgrade.Block.{share_hash, quality}
use upgrade.BlockAgreement.Messages.{CommitMessage, NotifyMessage, VoteMessage, ProposeMessage}
use upgrade.BlockAgreement.GradedConsensus as GradedConsensus
use upgrade.BlockAgreement.GradedConsensus.{
  run_grading, find_subset, handle_commits, verify_commit_message,
}
use upgrade.BlockAgreement.GradedConsensus.Subset.{IsSound}
use upgrade.BlockAgreement.GradedConsensus.Notify.{announced-IsSound, notify_gives_grade}
use upgrade.BlockAgreement.Propose as Propose
use upgrade.BlockAgreement.Driver.{
  no_notify, received_notify, round_ticks, Config, Inbox, State, from_propose, notified, initial,
  propose_config, proposing, receiving, run_rounds,
}
use upgrade.BlockAgreement.Driver.Ticks.{Begins, one_early, round_in_step, cut_short_blocks}
use upgrade.BlockAgreement.Driver.Rounds.{AreTimely, IsBacked, rounds_finish, outputs-IsBacked}
use upgrade.Tests.Toy.{toy, share}

abbrev grading : GradedConsensus.Config
grading = record { n = 1; node_id = 0; t = 0; round = 0; key_share = 3; key_meta = 5 }

abbrev commit : CommitMessage
commit = record { sender = 0; round = 0; block_share = share 9; sig = 3 }

abbrev announced : NotifyMessage
announced = record { sender = 0; round = 0; block_share = share 9; commits = commit ∷ [] }

finds : (run_grading grading (commit ∷ []) none).0 ≡ some announced
unfolding run_grading lookup insert quality share_hash
finds = refl

announced-IsSound_example :
    IsSound
      (λ x. (verify_commit_message grading x ≡ true) × (1 ≤ quality x.block_share.block))
      1
      announced
announced-IsSound_example = announced-IsSound grading (commit ∷ []) none finds

good_block : 1 ≤ quality (share 9).block
unfolding quality
good_block = omega arith

-- A node that heard no commit gets a grade from the notify.
notify_gives_grade_example :
    let result = (run_grading (record grading { node_id = 1 }) [] (some announced)).1 in
    (result.grade ≡ 2)
    ⊎ ((result.grade ≡ 1) × (result.block_share ≡ some (share 9)) × (result.commits ≡ commit ∷ []))
notify_gives_grade_example =
    notify_gives_grade grading (record grading { node_id = 1 }) (commit ∷ []) [] none refl refl refl
      (omega arith, tt) finds good_block

round_in_step_example :
    (d : ℕ) × (round_ticks 3 false false received_notify 11 ≡ some d) × Begins 3 d
round_in_step_example = round_in_step 3 2 11 false received_notify (omega arith) (one_early refl)

cut_short_blocks_example :
    (d : ℕ) × (round_ticks 3 true true received_notify 6 ≡ some d)
    × (d + 2 ≡ 12)
    × (round_ticks 3 false false no_notify d ≡ none)
    × ((e : ℕ) × (round_ticks 3 true false no_notify d ≡ some e) × Begins 3 e)
cut_short_blocks_example = cut_short_blocks 3 1 true false no_notify (omega arith)

-- The node is the leader of every round.
abbrev cfg : Config
cfg = record { n = 1; node_id = 0; t = 0; kappa = 2; key_share = 3; key_meta = 5; leader = λ r. 0 }

abbrev empty : Inbox
empty = record { votes = []; proposals = []; commits = []; notify = none }

-- The leader's proposal of round 0, which is valid there and in no other round.
abbrev own_vote : VoteMessage
own_vote = record {
  sender = 0;
  vote = record { round = 0; block_share = share 9; commits = [] };
  sig = 3;
}

abbrev proposal : ProposeMessage
proposal = record {
  sender = 0;
  vote = own_vote.vote;
  vote_messages = (0, some own_vote) ∷ [];
  sig = some 3;
}

-- Round 0 with the votes, a valid proposal and a commit, and round 1 with nothing.
abbrev busy : Inbox
busy = record {
  votes = own_vote ∷ [];
  proposals = proposal ∷ [];
  commits = commit ∷ [];
  notify = none;
}

timely : AreTimely cfg (busy ∷ empty ∷ []) (initial (share 9))
unfolding initial proposing receiving Propose.handle_votes Propose.handle_proposals
    Propose.no_proposals Propose.propose GradedConsensus.commit_on lookup insert quality share_hash
timely = (((_, refl), (_, refl)), (λ s e. (((_, refl), (_, refl)), (λ s' e'. tt))))

rounds_finish_example :
    (s : State) × (run_rounds cfg (busy ∷ empty ∷ []) (initial (share 9)) ≡ ok (some s))
    × (s.round ≡ 2)
rounds_finish_example = rounds_finish cfg (share 9) (busy ∷ empty ∷ []) timely (omega arith)

abbrev inbox : Inbox
inbox = record empty { commits = commit ∷ [] }

abbrev after : State
after = record {
  round = 1;
  block_share = share 9;
  commits = commit ∷ [];
  out = share 9 ∷ [];
  ticks = 6;
  sent =
      from_propose (Propose.send_votes (propose_config cfg (initial (share 9))))
      ∷ notified announced
      ∷ [];
}

runs : run_rounds cfg (inbox ∷ []) (initial (share 9)) ≡ ok (some after)
unfolding run_rounds initial run_grading lookup insert quality share_hash Propose.handle_votes
    Propose.handle_proposals Propose.no_proposals Propose.propose GradedConsensus.commit_on
runs = refl

outputs-IsBacked_example : All (IsBacked cfg) (share 9 ∷ [])
outputs-IsBacked_example = outputs-IsBacked cfg (share 9) (inbox ∷ []) runs
