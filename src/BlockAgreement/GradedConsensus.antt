-- ===== src/BlockAgreement/GradedConsensus.antt =====
-- blockagreement/gradedconsensus.go: one graded consensus at one node, after the propose protocol
-- has returned: commits, the subset of commits, and notifies.
pub mod Subset
pub mod Notify
use upgrade.Prelude.{
  ℕ, suc, ◌+◌, ◌-◌, Bytes, Bool, true, false, not, ◌&&◌, ◌||◌, Option, none, some, List, [], ◌∷◌,
  ◌++◌, GoMap, lookup, insert, get_or, is_some, length, leb, ltb, ◌==◌, nat_eq, bytes_eq,
  if◌then◌else◌,
}
use upgrade.Crypto.{Crypto}
use upgrade.Block.{BlockShare, quality, share_hash}
use upgrade.BlockAgreement.Messages.{
  CommitMessage, NotifyMessage, GradedConsensusResult, commit_hash_without_sig,
}
use upgrade.BlockAgreement.Propose.{sign_hash, verify_hash}

module _ ⦃c : Crypto⦄ where
  pub record Config : Type 0 where
    pub n : ℕ
    pub node_id : ℕ
    pub t : ℕ
    pub round : ℕ
    pub key_share : c.KeyShare
    pub key_meta : c.KeyMeta

  -- Commits by sender; those with one block share's hash, in the order they were found.
  abbrev pub Commits : Type 0
  Commits = GoMap ℕ CommitMessage

  pub record Helper : Type 0 where
    pub block_share : BlockShare
    pub commit_messages : List CommitMessage

  abbrev pub Subsets : Type 0
  Subsets = GoMap Bytes Helper

  module _ (cfg : Config) where
    unfoldable pub new_signed_commit_message : BlockShare → Option CommitMessage
    unfolding sign_hash
    new_signed_commit_message bs =
        elim (sign_hash cfg.key_share cfg.key_meta
          (commit_hash_without_sig cfg.node_id cfg.round bs)) [
            | none ↦ none
            | some sig ↦
                some
                  (record { sender = cfg.node_id; round = cfg.round; block_share = bs; sig = sig })
          ]

    unfoldable pub verify_commit_message : CommitMessage → Bool
    unfolding verify_hash
    verify_commit_message cm =
        verify_hash cfg.key_meta cm.sig (commit_hash_without_sig cm.sender cm.round cm.block_share)

    -- What is multicast on the output of the propose protocol: nothing without one, nor when the
    -- signature fails.
    unfoldable pub commit_on : Option BlockShare → Option CommitMessage
    unfolding new_signed_commit_message
    commit_on none = none
    commit_on (some bs) = new_signed_commit_message bs

    -- The first valid commit of each node is kept.
    unfoldable pub handle_commit : CommitMessage → Commits → Commits
    unfolding verify_commit_message
    handle_commit m commits =
        if verify_commit_message m && leb (cfg.t + 1) (quality m.block_share.block)
        then (if is_some (lookup m.sender commits) then commits else insert m.sender m commits)
        else commits

    -- `handleCommitMessages` over the commits received before the tick, oldest first.
    unfoldable pub handle_commits : List CommitMessage → Commits → Commits
    unfolding handle_commit
    handle_commits [] commits = commits
    handle_commits (m ∷ ms) commits = handle_commits ms (handle_commit m commits)

  -- One round of the loop that groups the commits.
  add_to : Option Helper → Bytes → CommitMessage → Subsets → Subsets
  add_to none hash commit subsets =
      insert hash (record { block_share = commit.block_share; commit_messages = commit ∷ [] })
        subsets
  add_to (some h) hash commit subsets =
      insert hash (record h { commit_messages = h.commit_messages ++ commit ∷ [] }) subsets

  unfoldable pub group : CommitMessage → Subsets → Subsets
  unfolding add_to
  group commit subsets =
      let hash = share_hash commit.block_share in add_to (lookup hash subsets) hash commit subsets

  -- The loop over the map of commits, whose order is any.
  unfoldable pub group_all : Commits → Subsets → Subsets
  unfolding group
  group_all [] subsets = subsets
  group_all ((i, m) ∷ commits) subsets = group_all commits (group m subsets)

  -- The first subset with enough commits, in the order of the map.
  unfoldable pub choose : ℕ → Subsets → Option Helper
  choose k [] = none
  choose k ((hash, h) ∷ subsets) =
      if leb k (length h.commit_messages) then some h else choose k subsets

  module _ (cfg : Config) where
    -- `findSubset`: the notify that is multicast, if there is one. The result then has grade 2 and
    -- the notify's block share and commits.
    unfoldable pub find_subset : Commits → Option NotifyMessage
    unfolding group_all choose
    find_subset commits =
        if ltb (length commits) (cfg.t + 1)
        then none
        else elim (choose (cfg.t + 1) (group_all commits [])) [
          | none ↦ none
          | some h ↦ some (record {
            sender = cfg.node_id;
            round = cfg.round;
            block_share = h.block_share;
            commits = h.commit_messages;
          })
        ]

    -- The loop of `isValidNotify`, with its two sets; none when a commit's round is too small.
    unfoldable pub scan_commits :
        List CommitMessage
        → GoMap ℕ Bool
        → GoMap Bytes Bool
        → Option (GoMap ℕ Bool × GoMap Bytes Bool)
    scan_commits [] nodes blocks = some (nodes, blocks)
    scan_commits (m ∷ ms) nodes blocks =
        let rest =
          scan_commits ms (insert m.sender true nodes)
            (insert (share_hash m.block_share) true blocks) in
        if ltb m.round cfg.round then none else rest

    check_sets : Option (GoMap ℕ Bool × GoMap Bytes Bool) → Bool
    check_sets none = false
    check_sets (some (nodes, blocks)) =
        if ltb 1 (length blocks) then false else not (ltb (length nodes) (cfg.t + 1))

    unfoldable pub is_valid_notify : NotifyMessage → Bool
    unfolding scan_commits check_sets
    is_valid_notify m =
        if ltb (quality m.block_share.block) (cfg.n - cfg.t)
        then false
        else check_sets (scan_commits m.commits [] [])

    abbrev pub no_grade : GradedConsensusResult
    no_grade = record { block_share = none; commits = []; grade = 0 }

    -- The last phase, for a node that sent no notify: the first notify received before the tick.
    unfoldable pub await_notify : Option NotifyMessage → GradedConsensusResult
    unfolding is_valid_notify
    await_notify none = no_grade
    await_notify (some m) =
        if is_valid_notify m
        then record { block_share = some m.block_share; commits = m.commits; grade = 1 }
        else no_grade

    unfoldable pub finish : Option NotifyMessage → Option NotifyMessage → GradedConsensusResult
    unfolding await_notify
    finish (some m) received = record {
      block_share = some m.block_share;
      commits = m.commits;
      grade = 2;
    }
    finish none received = await_notify received

    -- The part of `run` after the propose protocol: the commits received before the tick of time 4,
    -- and the first notify received before the tick of time 5, if any.
    unfoldable pub run_grading :
        List CommitMessage → Option NotifyMessage → Option NotifyMessage × GradedConsensusResult
    unfolding handle_commits find_subset finish
    run_grading received notify =
        let sent = find_subset (handle_commits cfg received []) in (sent, finish sent notify)
