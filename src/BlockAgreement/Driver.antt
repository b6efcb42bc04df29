-- ===== src/BlockAgreement/Driver.antt =====
-- blockagreement/blockagreement.go: the rounds of block agreement at one node, with the ticks that
-- the protocols of a round take from the one ticker they share (`propose.run`,
-- `gradedConsensus.run`).
pub mod Ticks
pub mod Rounds
use upgrade.Prelude.{
  ℕ, zero, suc, ◌+◌, ◌-◌, ◌*◌, ◌%◌, Bool, true, false, not, ◌&&◌, Option, none, some, List, [], ◌∷◌,
  ◌++◌, ltb, leb, ◌==◌, nat_eq, if◌then◌else◌, Run, ok, panic, ◌>>=◌, map, get_elem?,
}
use upgrade.Crypto.{Crypto}
use upgrade.Block.{BlockShare}
use upgrade.BlockAgreement.Messages.{
  CommitMessage, Vote, VoteMessage, ProposeMessage, NotifyMessage, GradedConsensusResult,
}
use upgrade.BlockAgreement.Propose as Propose
use upgrade.BlockAgreement.GradedConsensus as GradedConsensus

-- `<-tickerChan` after `c` ticks, of the `7 * kappa - 1` that the ticker sends: the number of ticks
-- then, or none when the read blocks for ever. The value of tick `c` is `c % 6`.
unfoldable pub next_tick : ℕ → ℕ → Option ℕ
next_tick kappa c = if ltb (suc c) (7 * kappa) then some (suc c) else none

abbrev pub time_of : ℕ → ℕ
time_of c = c % 6

-- What the loop of `propose.run` comes to: time 2 after so many ticks, or a return without an output,
-- on which `GetValue` blocks for ever, or a blocked read.
pub data Waited : Type 0 where
  at_two : ℕ → Waited
  too_late blocked : Waited

-- A read of a tick in the loop, and what follows for each time. The fuel 6 is enough: two of six
-- ticks in a row have a time of 2 or more.
unfoldable pub wait_for_two : ℕ → ℕ → ℕ → Waited
unfolding next_tick
wait_for_two kappa zero c = blocked
wait_for_two kappa (suc f) c =
    let rest = wait_for_two kappa f (suc c) in
    if not (ltb (suc c) (7 * kappa))
    then blocked
    else if time_of (suc c) == 2
    then at_two (suc c)
    else if ltb 2 (time_of (suc c))
    then too_late
    else rest

-- How a graded consensus ends: with its own notify, with a received one, or with the last tick.
pub data Ending : Type 0 where
  own_notify received_notify no_notify : Ending

-- The ticks of the phases after time 2: the end of `handleProposals` unless an invalid proposal
-- ended it, that of the commits, the last tick unless a notify was received, and the one that `Run`
-- waits for.
unfoldable pub ticks_after : Bool → Ending → ℕ
ticks_after early received_notify = if early then 2 else 3
ticks_after early ending = if early then 3 else 4

-- The ticks when a round is over, out of those when it began; none when the node is blocked.
unfoldable pub round_ticks : ℕ → Bool → Bool → Ending → ℕ → Option ℕ
unfolding wait_for_two ticks_after
round_ticks kappa proposer early ending c =
    let start = if proposer then suc c else c in
    if not (ltb start (7 * kappa)) then none else elim (wait_for_two kappa 6 start) [
      | too_late ↦ none
      | blocked ↦ none
      | at_two d ↦
          if ltb (d + ticks_after early ending) (7 * kappa)
          then some (d + ticks_after early ending)
          else none
    ]

module _ ⦃c : Crypto⦄ where
  -- The fields of BlockAgreement that never change.
  pub record Config : Type 0 where
    pub n : ℕ
    pub node_id : ℕ
    pub t : ℕ
    pub kappa : ℕ
    pub key_share : c.KeyShare
    pub key_meta : c.KeyMeta
    -- `leaderFunc`, at this `n`.
    pub leader : ℕ → ℕ

  -- What the node receives in one round: the votes before the proposer's first tick, the proposals
  -- before time 3, the commits before time 4, and the first notify before time 5.
  pub record Inbox : Type 0 where
    pub votes : List VoteMessage
    pub proposals : List ProposeMessage
    pub commits : List CommitMessage
    pub notify : Option NotifyMessage

  pub data Sent : Type 0 where
    from_propose : Propose.Sent → Sent
    forwarded : ProposeMessage → Sent
    committed : CommitMessage → Sent
    notified : NotifyMessage → Sent

  pub record State : Type 0 where
    pub round : ℕ
    pub block_share : BlockShare
    pub commits : List CommitMessage
    pub out : List BlockShare
    pub ticks : ℕ
    pub sent : List Sent

  -- `NewBlockAgreement`, with the input block share.
  unfoldable pub initial : BlockShare → State
  initial bs = record { round = 0; block_share = bs; commits = []; out = []; ticks = 0; sent = [] }

  module _ (cfg : Config) where
    -- `updateVotes`, with the fields of the propose protocol.
    abbrev pub propose_config : State → Propose.Config
    propose_config s = record {
      n = cfg.n;
      node_id = cfg.node_id;
      t = cfg.t;
      proposer_id = cfg.leader s.round;
      round = s.round;
      vote = record { round = s.round; block_share = s.block_share; commits = s.commits };
      key_share = cfg.key_share;
      key_meta = cfg.key_meta;
    }

    abbrev pub grading_config : ℕ → GradedConsensus.Config
    grading_config round = record {
      n = cfg.n;
      node_id = cfg.node_id;
      t = cfg.t;
      round = round;
      key_share = cfg.key_share;
      key_meta = cfg.key_meta;
    }

    abbrev pub is_proposer : State → Bool
    is_proposer s = cfg.node_id == cfg.leader s.round

    -- The first part of `propose.run`: the vote, and for the proposer the votes and the proposal.
    unfoldable pub proposing : Inbox → State → Run (List Propose.Sent)
    proposing inbox s =
        let vote = Propose.send_votes (propose_config s) in
        if is_proposer s
        then (Propose.handle_votes (propose_config s) inbox.votes [] >>= λ votes.
            ok (vote ∷ Propose.propose (propose_config s) votes))
        else ok (vote ∷ [])

    -- `handleProposals` up to time 3, with whether an invalid proposal ended it before.
    unfoldable pub receiving : Inbox → State → Run (Bool × Propose.Proposals)
    receiving inbox s =
        Propose.handle_proposals (propose_config s) (map Propose.proposal inbox.proposals)
          Propose.no_proposals
        >>= λ p. Propose.proposal_step (propose_config s) Propose.tick p >>= λ q. ok (p.done, q)

    -- `ba.blockShare` and `ba.commits` after a grade, and the output of a grade 2.
    unfoldable pub take_grade : GradedConsensusResult → State → State
    take_grade res s = elim res.block_share [
      | none ↦ s
      | some bs ↦
          if ltb 0 res.grade
          then record s {
            block_share = bs;
            commits = res.commits;
            out = if res.grade == 2 then s.out ++ bs ∷ [] else s.out;
          }
          else s
    ]

    unfoldable pub ending_of : Option NotifyMessage → Option NotifyMessage → Ending
    ending_of (some own) received = own_notify
    ending_of none (some m) = received_notify
    ending_of none none = no_notify

    abbrev to_list : {A B : Type 0} → (A → B) → Option A → List B
    to_list f none = []
    to_list f (some a) = f a ∷ []

    -- The state after a round, with what the round multicast.
    unfoldable pub next_state :
        GradedConsensusResult
        → List Propose.Sent
        → List ProposeMessage
        → Option CommitMessage
        → Option NotifyMessage
        → ℕ
        → State
        → State
    unfolding take_grade
    next_state res proposed forwards commit own ticks s = record (take_grade res s) {
      round = suc s.round;
      ticks = ticks;
      sent =
          s.sent
          ++ (map from_propose proposed
              ++ (map forwarded forwards ++ (to_list committed commit ++ to_list notified own)));
    }

    unfoldable pub advance : Option ℕ → (ℕ → State → State) → State → Option State
    advance none next s = none
    advance (some ticks) next s = some (next ticks s)

    -- What `propose.GetValue` gives: the one value in its channel.
    abbrev pub first_output : List (Option BlockShare) → Option BlockShare
    first_output [] = none
    first_output (bs ∷ out) = bs

    -- The end of a round: `gradedConsensus.run` after the propose protocol, and `incrementRound`.
    unfoldable pub conclude :
        Inbox → List Propose.Sent → Bool → Propose.Proposals → State → Option State
    unfolding round_ticks next_state ending_of advance
    conclude inbox proposed early p s =
        let grading = grading_config s.round in
        let result = GradedConsensus.run_grading grading inbox.commits inbox.notify in
        advance
          (round_ticks cfg.kappa (is_proposer s) early (ending_of result.0 inbox.notify) s.ticks)
          (next_state result.1 proposed p.sent
            (GradedConsensus.commit_on grading (first_output p.out)) result.0)
          s

    -- One round of the loop of `Run`; none when the node is blocked in it for ever.
    unfoldable pub run_round : Inbox → State → Run (Option State)
    unfolding proposing receiving conclude
    run_round inbox s = proposing inbox s >>= λ proposed.
        receiving inbox s >>= λ r. ok (conclude inbox proposed r.0 r.1 s)

    unfoldable pub run_rounds : List Inbox → State → Run (Option State)
    unfolding run_round
    run_rounds [] s = ok (some s)
    run_rounds (inbox ∷ inboxes) s =
        if not (ltb s.round cfg.kappa)
        then ok (some s)
        else run_round inbox s >>= λ o. elim o [ none ↦ ok none | some s' ↦ run_rounds inboxes s' ]

  -- `GetValue` takes the oldest output.
  unfoldable pub get_value : State → Option BlockShare × State
  get_value s = elim s.out [ [] ↦ (none, s) | bs ∷ rest ↦ (some bs, record s { out = rest }) ]
