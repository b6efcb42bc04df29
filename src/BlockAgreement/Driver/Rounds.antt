-- ===== src/BlockAgreement/Driver/Rounds.antt =====
-- The rounds of block agreement: that they end, and what is output.
use upgrade.Prelude.{
  ℕ, suc, ◌+◌, ◌<◌, ◌≤◌, ◌≡◌, refl, Bool, true, false, not, Option, none, some, List, [], ◌∷◌,
  length, ltb, ◌==◌, nat_eq, if_ind, Run, ok, panic, ◌>>=◌, Ensures, Ensures-ok, All, All-append,
  arith,
}
use upgrade.Crypto.{Crypto}
use upgrade.Block.{BlockShare, quality}
use upgrade.BlockAgreement.Messages.{NotifyMessage, GradedConsensusResult}
use upgrade.BlockAgreement.Propose as Propose
use upgrade.BlockAgreement.GradedConsensus.{
  verify_commit_message, find_subset, handle_commits, run_grading, commit_on, finish, await_notify,
}
use upgrade.BlockAgreement.GradedConsensus.Subset.{IsSound}
use upgrade.BlockAgreement.GradedConsensus.Notify.{announced-IsSound}
use upgrade.BlockAgreement.Driver.{
  round_ticks, Config, Inbox, State, initial, grading_config, is_proposer, proposing, receiving,
  take_grade, ending_of, first_output, advance, next_state, conclude, run_round, run_rounds,
}
use upgrade.BlockAgreement.Driver.Ticks.{Begins, on_time, round_in_step}

module _ ⦃c : Crypto⦄ (cfg : Config) where
  -- In the state the round does not panic on the messages, nor ends its proposals before time 3.
  abbrev pub IsTimely : Inbox → State → Type 0
  IsTimely inbox s =
      ((ps : List Propose.Sent) × (proposing cfg inbox s ≡ ok ps))
      × ((p : Propose.Proposals) × (receiving cfg inbox s ≡ ok (false, p)))

  -- So it is in each round of the run, in the state with which that round begins.
  abbrev pub AreTimely : List Inbox → State → Type 0
  AreTimely [] s = Unit
  AreTimely (inbox ∷ inboxes) s =
      IsTimely inbox s
      × ((next : State) → run_round cfg inbox s ≡ ok (some next) → AreTimely inboxes next)

  advance-some :
      (o : Option ℕ) (next : ℕ → State → State) (s : State) {d : ℕ}
      → o ≡ some d
      → advance cfg o next s ≡ some (next d s)
  unfolding advance
  advance-some o next s e = rw e refl

  conclude-in_step :
      (inbox : Inbox) (ps : List Propose.Sent) (p : Propose.Proposals) (s : State)
      → s.round < cfg.kappa
      → Begins s.round s.ticks
      → (s' : State) × (conclude cfg inbox ps false p s ≡ some s')
        × (s'.round ≡ suc s.round)
        × Begins s'.round s'.ticks
  unfolding conclude next_state
  conclude-in_step inbox ps p s l b =
      let own = (run_grading (grading_config cfg s.round) inbox.commits inbox.notify).0 in
      let (d, q, e) =
        round_in_step cfg.kappa s.round s.ticks (is_proposer cfg s) (ending_of cfg own inbox.notify)
          l b in
      (_, advance-some _ _ s q, refl, e)

  rounds_from :
      (inboxes : List Inbox) (s : State)
      → AreTimely inboxes s
      → length inboxes + s.round ≤ cfg.kappa
      → Begins s.round s.ticks
      → (s' : State) × (run_rounds cfg inboxes s ≡ ok (some s'))
        × (s'.round ≡ length inboxes + s.round)
  unfolding run_rounds run_round
  rounds_from [] s t l b = (s, refl, omega arith)
  rounds_from (inbox ∷ inboxes) s t l b =
      let (ps, proposed) = t.0.0 in
      let (p, received) = t.0.1 in
      let (next, done, counted, in_step) = conclude-in_step inbox ps p s (omega arith) b in
      let ran_round : run_round cfg inbox s ≡ ok (some next) =
        ground (arith, proposed, received, done) in
      let (last, ran, total) =
        rounds_from inboxes next (t.1 next ran_round) (omega (arith, counted)) in_step in
      (last, ground (arith, proposed, received, done, ran), omega (arith, total, counted))

  -- Block agreement runs through any number of rounds up to `kappa` without blocking, whatever is
  -- received, if in no round of the run, in the state with which it begins, a message makes the code
  -- panic or an invalid proposal of the leader ends the propose protocol before time 3.
  pub rounds_finish :
      (bs : BlockShare) (inboxes : List Inbox)
      → AreTimely inboxes (initial bs)
      → length inboxes ≤ cfg.kappa
      → (s : State) × (run_rounds cfg inboxes (initial bs) ≡ ok (some s))
        × (s.round ≡ length inboxes)
  unfolding initial
  rounds_finish bs inboxes t l =
      let (s, ran, total) =
        rounds_from inboxes (initial bs) t (omega arith) (on_time (omega arith)) in
      (s, ran, omega (arith, total))

  -- `t + 1` validly signed commits of distinct nodes in some round, on one block share's hash.
  abbrev pub IsBacked : BlockShare → Type 0
  IsBacked bs =
      (round : ℕ) × (m : NotifyMessage) × (m.block_share ≡ bs)
      × IsSound
          (λ x.
            (verify_commit_message (grading_config cfg round) x ≡ true)
            × (cfg.t + 1 ≤ quality x.block_share.block))
          (cfg.t + 1) m

  grade_two :
      (s : State) (own received : Option NotifyMessage) {bs : BlockShare}
      → let res = finish (grading_config cfg s.round) own received in
        res.grade ≡ 2
        → res.block_share ≡ some bs
        → (m : NotifyMessage) × (own ≡ some m) × (m.block_share ≡ bs)
  unfolding finish await_notify
  grade_two s (some m) received g e = (m, refl, ground (arith, e))
  grade_two s none none g e = absurd (ground (arith, g))
  grade_two s none (some m) g e = absurd (ground (arith, g))

  take_grade-out :
      (res : GradedConsensusResult) (o : Option BlockShare) (s : State)
      → res.block_share ≡ o
      → ((bs : BlockShare) → res.grade ≡ 2 → o ≡ some bs → IsBacked bs)
      → All IsBacked s.out
      → All IsBacked (take_grade cfg res s).out
  unfolding take_grade
  take_grade-out res none s e k h = rw e h
  take_grade-out res (some bs) s e k h = rw e (
      if_ind (λ x. All IsBacked x.out) (ltb 0 res.grade) _ s
        (λ _.
          if_ind (All IsBacked) (res.grade == 2) _ _
            (λ two.
              All-append IsBacked s.out _ h
                (k bs (ground (arith, nat_eq.beq_iff res.grade 2)) refl, tt))
            (λ _. h))
        (λ _. h))

  graded-IsBacked :
      (inbox : Inbox) (s : State)
      → All IsBacked s.out
      → All IsBacked
          (take_grade cfg
            (run_grading (grading_config cfg s.round) inbox.commits inbox.notify).1
            s).out
  unfolding run_grading
  graded-IsBacked inbox s h =
      let grading = grading_config cfg s.round in
      take_grade-out (run_grading grading inbox.commits inbox.notify).1 _ s refl
        (λ bs g e.
          let (m, own, same) =
            grade_two s (find_subset grading (handle_commits grading inbox.commits [])) inbox.notify
              g e in
          (s.round, m, same, announced-IsSound grading inbox.commits inbox.notify own))
        h

  abbrev pub OutBacked : Option State → Type 0
  OutBacked none = Unit
  OutBacked (some s) = All IsBacked s.out

  advance-backed :
      (o : Option ℕ) (next : ℕ → State → State) (s : State)
      → ((d : ℕ) → All IsBacked (next d s).out)
      → OutBacked (advance cfg o next s)
  unfolding advance
  advance-backed none next s h = tt
  advance-backed (some d) next s h = h d

  conclude-backed :
      (inbox : Inbox) (ps : List Propose.Sent) (early : Bool) (p : Propose.Proposals) (s : State)
      → All IsBacked s.out
      → OutBacked (conclude cfg inbox ps early p s)
  unfolding conclude next_state
  conclude-backed inbox ps early p s h =
      let result = run_grading (grading_config cfg s.round) inbox.commits inbox.notify in
      advance-backed
        (round_ticks cfg.kappa (is_proposer cfg s) early (ending_of cfg result.0 inbox.notify)
          s.ticks)
        (next_state cfg result.1 ps p.sent
          (commit_on (grading_config cfg s.round) (first_output cfg p.out)) result.0)
        s (λ d. graded-IsBacked inbox s h)

  run_round-backed :
      (inbox : Inbox) (s : State) → All IsBacked s.out → Ensures OutBacked (run_round cfg inbox s)
  unfolding run_round
  run_round-backed inbox s h = go (proposing cfg inbox s) (receiving cfg inbox s)
    where
      go :
          (x : Run (List Propose.Sent)) (y : Run (Bool × Propose.Proposals))
          → Ensures OutBacked (x >>= λ ps. y >>= λ r. ok (conclude cfg inbox ps r.0 r.1 s))
      go panic y = tt
      go (ok ps) panic = tt
      go (ok ps) (ok (early, p)) = conclude-backed inbox ps early p s h

  run_rounds-backed :
      (inboxes : List Inbox) (s : State)
      → All IsBacked s.out
      → Ensures OutBacked (run_rounds cfg inboxes s)
  unfolding run_rounds
  run_rounds-backed [] s h = h
  run_rounds-backed (inbox ∷ inboxes) s h =
      if_ind (Ensures OutBacked) (not (ltb s.round cfg.kappa)) _ _ (λ _. h)
        (λ _. go (run_round cfg inbox s) (run_rounds-backed inboxes) (run_round-backed inbox s h))
    where
      go :
          (r : Run (Option State))
          → ((next : State)
              → All IsBacked next.out
              → Ensures OutBacked (run_rounds cfg inboxes next))
          → Ensures OutBacked r
          → Ensures OutBacked
              (r >>= λ o. elim o [ none ↦ ok none | some s' ↦ run_rounds cfg inboxes s' ])
      go panic rest k = tt
      go (ok none) rest k = tt
      go (ok (some next)) rest k = rest next k

  -- Each block share that block agreement outputs is the one of a notify that carries at least `t +
  -- 1` commits of distinct nodes, all validly signed for one round and all on a block share of the
  -- same hash, with blocks of quality at least `t + 1`.
  pub outputs-IsBacked :
      (bs : BlockShare) (inboxes : List Inbox) {s : State}
      → run_rounds cfg inboxes (initial bs) ≡ ok (some s)
      → All IsBacked s.out
  unfolding initial
  outputs-IsBacked bs inboxes {s} e =
      Ensures-ok OutBacked (run_rounds cfg inboxes (initial bs)) (some s)
        (run_rounds-backed inboxes (initial bs) tt) e
