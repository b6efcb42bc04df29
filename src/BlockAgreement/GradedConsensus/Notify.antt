-- ===== src/BlockAgreement/GradedConsensus/Notify.antt =====
-- The notify of one node of a graded consensus, at another node and in the result of its own run.
use upgrade.Prelude.{
  ℕ, suc, ◌+◌, ◌-◌, ◌≤◌, ◌≡◌, refl, ◌≢◌, Bytes, Bool, true, false, Option, some, List, [], ◌∷◌,
  GoMap, insert, length, ltb, nat_eq, bytes_eq, All, All-map, All-of, IsFresh, Option-cases,
  IsFresh-insert, lookup-IsFresh, length-insert, inl, inr, arith, ◌⊎◌,
}
use upgrade.Crypto.{Crypto}
use upgrade.Block.{quality, share_hash}
use upgrade.BlockAgreement.Messages.{CommitMessage, NotifyMessage}
use upgrade.BlockAgreement.GradedConsensus.{
  Config, verify_commit_message, handle_commits, find_subset, scan_commits, check_sets,
  is_valid_notify, await_notify, finish, run_grading,
}
use upgrade.BlockAgreement.GradedConsensus.Subset.{
  Distinct, IsSound, find_subset-IsSound, handle_commits-AreCommits,
}

module _ ⦃c : Crypto⦄ where
  -- What the two sets of the loop hold when all the commits are on one block share.
  pub record OneBlock (nodes : GoMap ℕ Bool) (blocks : GoMap Bytes Bool) (hash : Bytes) (k : ℕ)
      : Type 0 where
    pub count : length nodes ≡ k
    pub only : (blocks ≡ []) ⊎ (blocks ≡ (hash, true) ∷ [])

  unseen-insert :
      (i : ℕ) (nodes : GoMap ℕ Bool) (ms : List CommitMessage)
      → All (λ x. x.sender ≢ i) ms
      → All (λ x. IsFresh x.sender nodes) ms
      → All (λ x. IsFresh x.sender (insert i true nodes)) ms
  unseen-insert i nodes [] a f = tt
  unseen-insert i nodes (m ∷ ms) a f =
      (IsFresh-insert m.sender i true nodes a.0 f.0, unseen-insert i nodes ms a.1 f.1)

  insert-only :
      (hash : Bytes) (blocks : GoMap Bytes Bool)
      → (blocks ≡ []) ⊎ (blocks ≡ (hash, true) ∷ [])
      → insert hash true blocks ≡ (hash, true) ∷ []
  unfolding insert
  insert-only hash blocks (inl e) = rw e refl
  insert-only hash blocks (inr e) = rw e (ground (arith, bytes_eq.beq_iff hash hash))

  module _ (cfg : Config) where
    -- Over commits that are late enough, from distinct senders and on one block share, the loop
    -- counts every commit and one block share.
    scan_commits-OneBlock :
        (hash : Bytes) (ms : List CommitMessage) (nodes : GoMap ℕ Bool) (blocks : GoMap Bytes Bool)
        → All (λ x. (share_hash x.block_share ≡ hash) × (cfg.round ≤ x.round)) ms
        → Distinct ms
        → All (λ x. IsFresh x.sender nodes) ms
        → (blocks ≡ []) ⊎ (blocks ≡ (hash, true) ∷ [])
        → (r : GoMap ℕ Bool × GoMap Bytes Bool) × (scan_commits cfg ms nodes blocks ≡ some r)
          × OneBlock r.0 r.1 hash (length ms + length nodes)
    unfolding scan_commits
    scan_commits-OneBlock hash [] nodes blocks a d f o =
        ((nodes, blocks), refl, record { count = omega arith; only = o })
    scan_commits-OneBlock hash (m ∷ ms) nodes blocks a d f o =
        let grown : length (insert m.sender true nodes) ≡ suc (length nodes) =
          ground (arith, length-insert m.sender true nodes, lookup-IsFresh m.sender nodes f.0) in
        let rest =
          scan_commits-OneBlock hash ms (insert m.sender true nodes)
            (insert (share_hash m.block_share) true blocks) a.1 d.1
            (unseen-insert m.sender nodes ms d.0 f.1)
            (inr (rw a.0.0 (insert-only hash blocks o))) in
        (
          rest.0,
          ground (arith, rest.1, a.0.1),
          record { count = omega (arith, rest.2.count, grown); only = rest.2.only },
        )

    -- A node accepts a notify that is sound, of a block of full quality, whose commits are of its
    -- round or later.
    is_valid_notify-IsSound :
        (m : NotifyMessage)
        → IsSound (λ x. cfg.round ≤ x.round) (cfg.t + 1) m
        → cfg.n - cfg.t ≤ quality m.block_share.block
        → is_valid_notify cfg m ≡ true
    unfolding is_valid_notify check_sets
    is_valid_notify-IsSound m s q =
        let scan =
          scan_commits-OneBlock (share_hash m.block_share) m.commits [] [] s.same s.distinct
            (All-map _ (λ x. IsFresh {V = Bool} x.sender []) (λ x y. tt) m.commits s.same)
            (inl refl) in
        let one : ltb 1 (length scan.0.1) ≡ false = elim scan.2.only [
          | inl e ↦ rw e refl
          | inr e ↦ rw e refl
        ] in
        ground (arith, scan.1, one, scan.2.count, s.enough)

  -- The notify that a node multicasts, out of the commits it received, names a block share and
  -- carries at least `t + 1` commits from distinct senders, each on a block share of the same hash,
  -- with a valid signature and a block of quality at least `t + 1`.
  pub announced-IsSound :
      (cfg : Config) (received : List CommitMessage) (notify : Option NotifyMessage)
      {m : NotifyMessage}
      → (run_grading cfg received notify).0 ≡ some m
      → IsSound
          (λ x. (verify_commit_message cfg x ≡ true) × (cfg.t + 1 ≤ quality x.block_share.block))
          (cfg.t + 1)
          m
  unfolding run_grading
  announced-IsSound cfg received notify e =
      find_subset-IsSound
        (λ x. (verify_commit_message cfg x ≡ true) × (cfg.t + 1 ≤ quality x.block_share.block)) cfg
        (handle_commits cfg received [])
        (handle_commits-AreCommits _ cfg received [] (All-of (λ m v q. (v, q)) received) (tt, tt)) e

  -- A notify that one node multicasts, after commits of its round or later and on a block of
  -- quality at least `n - t`, gives a grade to any other node of the graded consensus (with the
  -- same `n`, `t` and round) that receives it first: the grade is 2, or it is 1 and comes with
  -- the notify's block share and commits.
  pub notify_gives_grade :
      (cfg other : Config) (received heard : List CommitMessage) (notify : Option NotifyMessage)
      {m : NotifyMessage}
      → other.n ≡ cfg.n
      → other.t ≡ cfg.t
      → other.round ≡ cfg.round
      → All (λ x. cfg.round ≤ x.round) received
      → (run_grading cfg received notify).0 ≡ some m
      → cfg.n - cfg.t ≤ quality m.block_share.block
      → let result = (run_grading other heard (some m)).1 in
        (result.grade ≡ 2)
        ⊎ ((result.grade ≡ 1)
            × (result.block_share ≡ some m.block_share)
            × (result.commits ≡ m.commits))
  unfolding run_grading finish await_notify
  notify_gives_grade cfg other received heard notify {m} same_n same_t same_round late e q =
      let sound =
        find_subset-IsSound (λ x. cfg.round ≤ x.round) cfg (handle_commits cfg received [])
          (handle_commits-AreCommits (λ x. cfg.round ≤ x.round) cfg received []
            (All-map _
              (λ x.
                verify_commit_message cfg x ≡ true
                → cfg.t + 1 ≤ quality x.block_share.block
                → cfg.round ≤ x.round)
              (λ x h v k. h) received late)
            (tt, tt))
          e in
      let valid : is_valid_notify other m ≡ true =
        is_valid_notify-IsSound other m (rw (same_t, same_round) sound) (rw (same_n, same_t) q) in
      elim (Option-cases (find_subset other (handle_commits other heard []))) [
        | inl quiet ↦ rw (quiet, valid) (inr (refl, refl, refl))
        | inr (own, found) ↦ rw found (inl refl)
      ]
