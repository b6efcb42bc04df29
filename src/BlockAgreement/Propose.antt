-- ===== src/BlockAgreement/Propose.antt =====
-- blockagreement/propose.go: the propose protocol of one round at one node. What the node multicasts
-- is the list `sent`, oldest first; `proposerId` and the ticker belong to the caller.
pub mod Maximum
pub mod Validity
pub mod Honest
pub mod Once
pub mod Leaders
pub mod Collected
pub mod Outputs
use upgrade.Prelude.{
  ℕ, zero, suc, ◌+◌, ◌-◌, ◌%◌, ◌^◌, Bytes, Bool, true, false, not, ◌&&◌, ◌||◌, Option, none, some,
  List, [], ◌∷◌, ◌++◌, GoMap, lookup, insert, get_or, is_some, length, leb, ltb, nat_beq, ◌==◌,
  nat_eq, bytes_eq, if◌then◌else◌, Run, ok, panic, ◌>>=◌,
}
use upgrade.Crypto.{Crypto}
use upgrade.Block.{PreBlock, PreBlockMessage, BlockShare, quality}
use upgrade.BlockAgreement.Messages.{
  CommitMessage, Vote, VoteMessage, ProposeMessage, vote_message_hash_without_sig,
  propose_hash_without_sig, propose_hash,
}

module _ ⦃c : Crypto⦄ where
  pub record Config : Type 0 where
    pub n : ℕ
    pub node_id : ℕ
    pub t : ℕ
    pub proposer_id : ℕ
    pub round : ℕ
    pub vote : Vote
    pub key_share : c.KeyShare
    pub key_meta : c.KeyMeta

  -- A message whose creation failed is sent as nil all the same.
  pub data Payload : Type 0 where
    vote_payload : Option VoteMessage → Payload
    propose_payload : Option ProposeMessage → Payload

  -- `receiver` is none for a multicast to every node.
  pub record Sent : Type 0 where
    pub receiver : Option ℕ
    pub payload : Payload

  -- `p.signs` of the padded hash, as the three `newSigned…` functions do it.
  unfoldable pub sign_hash : c.KeyShare → c.KeyMeta → Bytes → Option c.SigShare
  sign_hash share meta hash = elim (c.prepare_document_hash (c.public_key_size meta) hash) [
    | none ↦ none
    | some padded ↦ c.sign share padded meta
  ]

  -- The check of the padded hash, as the `verify…` functions do it.
  unfoldable pub verify_hash : c.KeyMeta → c.SigShare → Bytes → Bool
  verify_hash meta sig hash = elim (c.prepare_document_hash (c.public_key_size meta) hash) [
    | none ↦ false
    | some padded ↦ c.verify sig padded meta
  ]

  module _ (cfg : Config) where
    unfoldable pub new_signed_vote_message : Option VoteMessage
    unfolding sign_hash
    new_signed_vote_message =
        elim (sign_hash cfg.key_share cfg.key_meta
          (vote_message_hash_without_sig cfg.node_id cfg.vote)) [
            | none ↦ none
            | some sig ↦ some (record { sender = cfg.node_id; vote = cfg.vote; sig = sig })
          ]

    unfoldable pub new_signed_propose_message :
        Vote → GoMap ℕ (Option VoteMessage) → Option ProposeMessage
    unfolding sign_hash
    new_signed_propose_message vote votes =
        elim (sign_hash cfg.key_share cfg.key_meta
          (propose_hash_without_sig cfg.node_id vote votes)) [
            | none ↦ none
            | some sig ↦ some (record {
              sender = cfg.node_id;
              vote = vote;
              vote_messages = votes;
              sig = some sig;
            })
          ]

    unfoldable pub send_votes : Sent
    unfolding new_signed_vote_message
    send_votes = record {
      receiver = some cfg.proposer_id;
      payload = vote_payload new_signed_vote_message;
    }

    unfoldable pub verify_vote_message : VoteMessage → Bool
    unfolding verify_hash
    verify_vote_message vm =
        verify_hash cfg.key_meta vm.sig (vote_message_hash_without_sig vm.sender vm.vote)

    unfoldable pub verify_propose_message : ProposeMessage → c.SigShare → Bool
    unfolding verify_hash
    verify_propose_message pm sig =
        verify_hash cfg.key_meta sig (propose_hash_without_sig pm.sender pm.vote pm.vote_messages)

    -- The entry at index `i`: its share's id, a uint16, is one more, and its signature is valid. A
    -- failed padding leaves a nil hash.
    unfoldable pub is_valid_entry : ℕ → PreBlockMessage → Bool
    is_valid_entry i mes =
        if not (i == (c.share_id mes.sig + 65535) % 2 ^ 16)
        then false
        else c.verify mes.sig
            (get_or
              (c.prepare_document_hash (c.public_key_size cfg.key_meta) (c.sha256 mes.message)) [])
            cfg.key_meta

    -- A nil entry is dereferenced.
    unfoldable pub are_valid_entries : ℕ → List (Option PreBlockMessage) → Run Bool
    unfolding is_valid_entry
    are_valid_entries i [] = ok true
    are_valid_entries i (none ∷ vec) = panic
    are_valid_entries i (some mes ∷ vec) =
        let rest = are_valid_entries (suc i) vec in
        if not (is_valid_entry i mes) then ok false else rest

    unfoldable pub is_valid_block_share : BlockShare → Run Bool
    unfolding are_valid_entries
    is_valid_block_share bs =
        if ltb (quality bs.block) (cfg.n - cfg.t)
        then ok false
        else are_valid_entries 0 bs.block.vec

    keep_vote : VoteMessage → GoMap ℕ VoteMessage → Bool → GoMap ℕ VoteMessage
    keep_vote v votes valid =
        if valid && not (is_some (lookup v.sender votes)) then insert v.sender v votes else votes

    -- The first valid vote of each node is kept.
    unfoldable pub handle_vote : VoteMessage → GoMap ℕ VoteMessage → Run (GoMap ℕ VoteMessage)
    unfolding verify_vote_message is_valid_block_share keep_vote
    handle_vote v votes =
        if verify_vote_message v
        then (is_valid_block_share v.vote.block_share >>= λ valid. ok (keep_vote v votes valid))
        else ok votes

    -- `handleVotes` over the votes received before the tick.
    unfoldable pub handle_votes : List VoteMessage → GoMap ℕ VoteMessage → Run (GoMap ℕ VoteMessage)
    unfolding handle_vote
    handle_votes [] votes = ok votes
    handle_votes (v ∷ vs) votes = handle_vote v votes >>= handle_votes vs

  -- The pair of `index` and `maxVote`.
  abbrev pub Best : Type 0
  Best = ℕ × Option Vote

  better : ℕ → Vote → Best → Bool
  better i v (index, none) = true
  better i v (index, some best) = ltb best.round v.round || (v.round == best.round && ltb i index)

  unfoldable pub update_max : ℕ → VoteMessage → Best → Best
  unfolding better
  update_max i v best = if better i v.vote best then (i, some v.vote) else best

  unfoldable pub max_from : GoMap ℕ VoteMessage → Best → Best
  unfolding update_max
  max_from [] best = best
  max_from ((i, v) ∷ votes) best = max_from votes (update_max i v best)

  -- The loop over the map, whose order is any.
  unfoldable pub find_max_vote : GoMap ℕ VoteMessage → Option Vote
  unfolding max_from
  find_max_vote votes = (max_from votes (0, none)).1

  -- The map as the field VoteMessages holds it.
  abbrev pub as_messages : GoMap ℕ VoteMessage → GoMap ℕ (Option VoteMessage)
  as_messages [] = []
  as_messages ((i, v) ∷ votes) = (i, some v) ∷ as_messages votes

  module _ (cfg : Config) where
    propose_max : GoMap ℕ VoteMessage → Option Vote → List Sent
    unfolding new_signed_propose_message
    propose_max votes none = []
    propose_max votes (some vote) =
        record {
          receiver = none;
          payload = propose_payload (new_signed_propose_message cfg vote (as_messages votes));
        }
        ∷ []

    -- `propose`: with `t + 1` votes the proposer multicasts the maximal one.
    unfoldable pub propose : GoMap ℕ VoteMessage → List Sent
    unfolding propose_max find_max_vote
    propose votes =
        if leb (cfg.t + 1) (length votes) then propose_max votes (find_max_vote votes) else []

    unfoldable pub are_signed : GoMap ℕ (Option VoteMessage) → Run Bool
    unfolding verify_vote_message
    are_signed [] = ok true
    are_signed ((i, none) ∷ vs) = panic
    are_signed ((i, some v) ∷ vs) =
        let rest = are_signed vs in if not (verify_vote_message cfg v) then ok false else rest

    unfoldable pub commits_within : ℕ → List CommitMessage → Bool
    commits_within round [] = true
    commits_within round (m ∷ ms) = if ltb round m.round then false else commits_within round ms

    -- Condition 3, as the code checks it.
    unfoldable pub has_round_vote : Vote → Bool
    unfolding commits_within
    has_round_vote vote =
        if cfg.round == 0
        then not (not (vote.round == 0) || not (length vote.commits == 0))
        else if ltb (length vote.commits) (cfg.t + 1)
        then false
        else commits_within vote.round vote.commits

    unfoldable pub votes_within : ℕ → GoMap ℕ (Option VoteMessage) → Run Bool
    votes_within round [] = ok true
    votes_within round ((i, none) ∷ vs) = panic
    votes_within round ((i, some v) ∷ vs) =
        let rest = votes_within round vs in if ltb round v.vote.round then ok false else rest

    -- A test of `isValidProposal` that returns false when it fails.
    abbrev pub also : Run Bool → Run Bool → Run Bool
    also test rest = test >>= λ b. if b then rest else ok false

    -- A nil signature panics; the proposal's vote is taken to be set.
    unfoldable pub is_valid_proposal : ProposeMessage → Run Bool
    unfolding verify_propose_message are_signed is_valid_block_share has_round_vote votes_within
    is_valid_proposal pm = elim pm.sig [
      | none ↦ panic
      | some sig ↦ also (ok (verify_propose_message cfg pm sig)) (
          also (are_signed pm.vote_messages) (
            also (is_valid_block_share cfg pm.vote.block_share) (
              also (ok (has_round_vote pm.vote)) (
                also (ok (leb (cfg.t + 1) (length pm.vote_messages)))
                  (votes_within pm.vote.round pm.vote_messages)))))
    ]

  -- The local variables of `handleProposals` with the channel `out`; `done` says that it returned.
  pub record Proposals : Type 0 where
    pub proposals : List ProposeMessage
    pub leader_proposal : Option ProposeMessage
    pub received : Bool
    pub sent : List ProposeMessage
    pub out : List (Option BlockShare)
    pub done : Bool

  unfoldable pub no_proposals : Proposals
  no_proposals = record {
    proposals = [];
    leader_proposal = none;
    received = false;
    sent = [];
    out = [];
    done = false;
  }

  -- `proposalsAreEqual`; a nil signature panics.
  unfoldable pub proposals_are_equal : ProposeMessage → ProposeMessage → Run Bool
  proposals_are_equal p q = elim (propose_hash p) [
    | none ↦ panic
    | some h ↦ elim (propose_hash q) [ none ↦ panic | some g ↦ ok (h == g) ]
  ]

  unfoldable pub all_equal_to : ProposeMessage → List ProposeMessage → Run Bool
  unfolding proposals_are_equal
  all_equal_to leader [] = ok true
  all_equal_to leader (p ∷ ps) =
      proposals_are_equal p leader >>= λ same. if same then all_equal_to leader ps else ok false

  abbrev output : Option BlockShare → Proposals → Proposals
  output bs s = record s { out = s.out ++ bs ∷ []; done = true }

  accept_leader : ProposeMessage → Proposals → Bool → Proposals
  accept_leader pm s valid =
      if valid
      then record s { leader_proposal = some pm; received = true; sent = s.sent ++ pm ∷ [] }
      else output none s

  module _ (cfg : Config) where
    -- The proposer's first proposal is checked and forwarded; the others are collected.
    unfoldable pub handle_proposal : ProposeMessage → Proposals → Run Proposals
    unfolding is_valid_proposal accept_leader
    handle_proposal pm s =
        if pm.sender == cfg.proposer_id
        then (if not (is_some pm.sig) || s.received
            then ok s
            else (is_valid_proposal cfg pm >>= λ valid. ok (accept_leader pm s valid)))
        else ok (record s { proposals = s.proposals ++ pm ∷ [] })

  -- The tick of time 3.
  end_proposals : Option ProposeMessage → Proposals → Run Proposals
  unfolding all_equal_to
  end_proposals none s = ok (output none s)
  end_proposals (some leader) s = all_equal_to leader s.proposals >>= λ same.
      ok (output (if same then some leader.vote.block_share else none) s)

  pub data ProposalEvent : Type 0 where
    proposal : ProposeMessage → ProposalEvent
    tick : ProposalEvent

  module _ (cfg : Config) where
    unfoldable pub proposal_step : ProposalEvent → Proposals → Run Proposals
    unfolding handle_proposal end_proposals
    proposal_step (proposal pm) s = if s.done then ok s else handle_proposal cfg pm s
    proposal_step tick s = if s.done then ok s else end_proposals s.leader_proposal s

    -- `handleProposals` over the events that its `select` sees, oldest first.
    unfoldable pub handle_proposals : List ProposalEvent → Proposals → Run Proposals
    unfolding proposal_step
    handle_proposals [] s = ok s
    handle_proposals (e ∷ es) s = proposal_step e s >>= handle_proposals es
