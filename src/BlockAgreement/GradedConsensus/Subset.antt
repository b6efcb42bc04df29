-- ===== src/BlockAgreement/GradedConsensus/Subset.antt =====
-- The grouping of commits by block share, and the subset that `findSubset` announces.
use upgrade.Prelude.{
  ℕ, ◌+◌, ◌≤◌, ◌≡◌, refl, sym, ◌∙◌, ◌≢◌, Bytes, true, ◌&&◌, Option, none, some, List, [], ◌∷◌, ◌++◌,
  lookup, is_some, length, leb, ltb, nat_eq, bytes_eq, if_ind, All, All-append, All-map, IsFresh,
  IsMap, AllEntries, AllEntries-insert, AllEntries-lookup, AllEntries-map, Option-cases, Bool-cases,
  inl, inr, subst, arith, insert-IsMap,
}
use upgrade.Crypto.{Crypto}
use upgrade.Block.{quality, share_hash}
use upgrade.BlockAgreement.Messages.{CommitMessage, NotifyMessage}
use upgrade.BlockAgreement.GradedConsensus.{
  Config, Commits, Helper, Subsets, verify_commit_message, handle_commit, handle_commits, add_to,
  group, group_all, choose, find_subset,
}

module _ ⦃c : Crypto⦄ where
  -- No two commits of the list have one sender.
  abbrev pub Distinct : List CommitMessage → Type 0
  Distinct [] = Unit
  Distinct (x ∷ xs) = All (λ y. y.sender ≢ x.sender) xs × Distinct xs

  Distinct-append :
      (xs : List CommitMessage) (x : CommitMessage)
      → Distinct xs
      → All (λ y. x.sender ≢ y.sender) xs
      → Distinct (xs ++ x ∷ [])
  Distinct-append [] x d a = (tt, tt)
  Distinct-append (y ∷ ys) x d a =
      (All-append (λ z. z.sender ≢ y.sender) ys _ d.0 (a.0, tt), Distinct-append ys x d.1 a.1)

  module _ (P : CommitMessage → Type 0) where
    -- A subset of the commits that the loop has seen: all on one block share, all satisfying `P`,
    -- from distinct senders, none of whom has a commit among the rest.
    pub record IsSubset (rest : Commits) (hash : Bytes) (h : Helper) : Type 0 where
      pub block : share_hash h.block_share ≡ hash
      pub commits : All (λ x. (share_hash x.block_share ≡ hash) × P x) h.commit_messages
      pub distinct : Distinct h.commit_messages
      pub unseen : All (λ x. IsFresh x.sender rest) h.commit_messages

    -- What the loop needs of the commits to come.
    abbrev pub AreCommits : Commits → Type 0
    AreCommits m = IsMap m × AllEntries (λ i x. (x.sender ≡ i) × P x) m

    IsSubset-skip :
        (i : ℕ) (m : CommitMessage) (rest : Commits) (hash : Bytes) (h : Helper)
        → IsSubset ((i, m) ∷ rest) hash h
        → IsSubset rest hash h
    IsSubset-skip i m rest hash h s = record {
      block = s.block;
      commits = s.commits;
      distinct = s.distinct;
      unseen = All-map _ (λ x. IsFresh x.sender rest) (λ x f. f.1) h.commit_messages s.unseen;
    }

    add_to-IsSubset :
        (o : Option Helper) (m : CommitMessage) (rest : Commits) (s : Subsets)
        → P m
        → IsFresh m.sender rest
        → lookup (share_hash m.block_share) s ≡ o
        → AllEntries (IsSubset ((m.sender, m) ∷ rest)) s
        → AllEntries (IsSubset rest) (add_to o (share_hash m.block_share) m s)
    unfolding add_to
    add_to-IsSubset none m rest s p f e a =
        AllEntries-insert (IsSubset rest) _ _ s
          (λ j q. record {
            block = sym q;
            commits = ((sym q, p), tt);
            distinct = (tt, tt);
            unseen = (f, tt);
          })
          (AllEntries-map _ (IsSubset rest) (IsSubset-skip m.sender m rest) s a)
    add_to-IsSubset (some h) m rest s p f e a =
        let old = AllEntries-lookup (IsSubset ((m.sender, m) ∷ rest)) _ s a e in
        let kept = IsSubset-skip m.sender m rest _ h old in
        AllEntries-insert (IsSubset rest) _ _ s
          (λ j q. record {
            block = old.block ∙ sym q;
            commits = rw q (
                All-append (λ x. (share_hash x.block_share ≡ share_hash m.block_share) × P x)
                  h.commit_messages _ old.commits ((refl, p), tt));
            distinct =
                Distinct-append h.commit_messages m old.distinct
                  (All-map _ (λ y. m.sender ≢ y.sender) (λ y g. g.0) h.commit_messages old.unseen);
            unseen =
                All-append (λ x. IsFresh x.sender rest) h.commit_messages _ kept.unseen (f, tt);
          })
          (AllEntries-map _ (IsSubset rest) (IsSubset-skip m.sender m rest) s a)

    group_all-IsSubset :
        (commits : Commits) (s : Subsets)
        → AreCommits commits
        → AllEntries (IsSubset commits) s
        → AllEntries (IsSubset []) (group_all commits s)
    unfolding group_all group
    group_all-IsSubset [] s k a = a
    group_all-IsSubset ((i, m) ∷ commits) s k a =
        group_all-IsSubset commits (group m s) (k.0.1, k.1.1)
          (add_to-IsSubset (lookup (share_hash m.block_share) s) m commits s k.1.0.1
            (rw k.1.0.0 k.0.0) refl
            (subst (λ j. AllEntries (IsSubset ((j, m) ∷ commits)) s) (sym k.1.0.0) a))

    choose-IsSubset :
        (k : ℕ) (s : Subsets) {h : Helper}
        → AllEntries (IsSubset []) s
        → choose k s ≡ some h
        → (hash : Bytes) × IsSubset [] hash h × (k ≤ length h.commit_messages)
    unfolding choose
    choose-IsSubset k [] a e = absurd (ground arith)
    choose-IsSubset k ((hash, g) ∷ s) {h} a e =
        elim (Bool-cases (leb k (length g.commit_messages))) [
          | inl enough ↦
              let same : g ≡ h = ground arith in
              (hash, subst (IsSubset [] hash) same a.0, ground arith)
          | inr few ↦ choose-IsSubset k s a.1 (ground arith)
        ]

    -- What a notify carries: `t + 1` commits from distinct senders on the block share it names, each
    -- of them satisfying what all the commits did.
    pub record IsSound (k : ℕ) (m : NotifyMessage) : Type 0 where
      pub enough : k ≤ length m.commits
      pub same : All (λ x. (share_hash x.block_share ≡ share_hash m.block_share) × P x) m.commits
      pub distinct : Distinct m.commits

    handle_commit-AreCommits :
        (cfg : Config) (m : CommitMessage) (commits : Commits)
        → (verify_commit_message cfg m ≡ true → cfg.t + 1 ≤ quality m.block_share.block → P m)
        → AreCommits commits
        → AreCommits (handle_commit cfg m commits)
    unfolding handle_commit
    handle_commit-AreCommits cfg m commits p k =
        if_ind AreCommits
          (verify_commit_message cfg m && leb (cfg.t + 1) (quality m.block_share.block)) _ _
          (λ ok.
            if_ind AreCommits (is_some (lookup m.sender commits)) _ _ (λ _. k)
              (λ _. (
                insert-IsMap m.sender m commits k.0,
                AllEntries-insert (λ i x. (x.sender ≡ i) × P x) m.sender m commits
                    (λ j q. (sym q, p (ground arith) (ground arith))) k.1,
              )))
          (λ _. k)

    pub handle_commits-AreCommits :
        (cfg : Config) (ms : List CommitMessage) (commits : Commits)
        → All
            (λ m.
              verify_commit_message cfg m ≡ true → cfg.t + 1 ≤ quality m.block_share.block → P m)
            ms
        → AreCommits commits
        → AreCommits (handle_commits cfg ms commits)
    unfolding handle_commits
    handle_commits-AreCommits cfg [] commits p k = k
    handle_commits-AreCommits cfg (m ∷ ms) commits p k =
        handle_commits-AreCommits cfg ms (handle_commit cfg m commits) p.1
          (handle_commit-AreCommits cfg m commits p.0 k)

    pub find_subset-IsSound :
        (cfg : Config) (commits : Commits) {m : NotifyMessage}
        → AreCommits commits
        → find_subset cfg commits ≡ some m
        → IsSound (cfg.t + 1) m
    unfolding find_subset
    find_subset-IsSound cfg commits {m} k e = elim (Bool-cases (ltb (length commits) (cfg.t + 1))) [
      | inl few ↦ absurd (ground arith)
      | inr _ ↦ elim (Option-cases (choose (cfg.t + 1) (group_all commits []))) [
        | inl q ↦ absurd (ground arith)
        | inr (h, q) ↦
            let found =
              choose-IsSubset (cfg.t + 1) (group_all commits [])
                (group_all-IsSubset commits [] k tt) q in
            let same : record {
              sender = cfg.node_id;
              round = cfg.round;
              block_share = h.block_share;
              commits = h.commit_messages;
            }
                ≡ m =
              ground arith in
            subst (IsSound (cfg.t + 1)) same (record {
              enough = found.2;
              same = rw found.1.block found.1.commits;
              distinct = found.1.distinct;
            })
      ]
    ]
