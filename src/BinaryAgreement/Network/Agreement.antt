-- ===== src/BinaryAgreement/Network/Agreement.antt =====
-- Agreement of binary agreement, with fewer than a third of the nodes faulty.
use upgrade.Prelude.{
  ℕ, ◌<◌, ◌≤◌, ◌+◌, ◌-◌, ◌*◌, ◌≡◌, sym, ap, ◌∙◌, inl, inr, IsIn, count_below, ltb, ltb→lt, arith,
  Bool-cases,
}
use upgrade.BinaryAgreement.{est, aux}
use upgrade.BinaryAgreement.Schedule.{heard}
use upgrade.BinaryAgreement.Safety.{decision_backed}
use upgrade.BinaryAgreement.Network.{Network, config, Histories, node, Reach}
use upgrade.BinaryAgreement.Network.Messages.{
  Reach-authentic, authentic-AreNodes, posted_or_faulty, heard-count,
}
use upgrade.BinaryAgreement.Network.Fixed.{heard-Fixed, accepted-Fixed}
use upgrade.BinaryAgreement.Network.Settled.{settled-AllFixed}

module _ (net : Network) where
  -- A value with the support of a later round.
  later_decision :
      {h : Histories}
      → Reach net h
      → count_below net.n net.faulty ≤ net.t
      → 3 * net.t < net.n
      → (i k r q d w : ℕ) → net.coin r ≡ d
      → net.n - net.t ≤ count_below net.n (λ j. heard aux r d j (h i))
      → net.t + 1 ≤ count_below net.n (λ j. heard est q w j (h k))
      → r < q
      → w ≡ d
  later_decision {h} reached few third i k r q d w toss quorum accepted later =
      let backed = heard-count net h h (h i) aux r d (Reach-authentic net reached i) (λ j x s. s) in
      let support : net.n - net.t ≤ count_below net.n (posted_or_faulty net h aux r d) =
        omega (arith, quorum, backed) in
      let fixed = settled-AllFixed net few third reached r d toss support reached (λ j x s. s) in
      accepted-Fixed net few (λ q. r < q) d (h k) q w
        (heard-Fixed net few (λ q. r < q) d h (h k) (Reach-authentic net reached k) fixed) accepted
        later

  -- Agreement of binary agreement: in every reachable network with more than `3 t` nodes, of which at
  -- most `t` are faulty, and a common coin that is the same at all nodes in a round, the values that
  -- any two nodes that run the protocol decide, in whatever rounds, are equal.
  pub decided_agreement :
      {h : Histories}
      → Reach net h
      → count_below net.n net.faulty ≤ net.t
      → 3 * net.t < net.n
      → (i k d w : ℕ) → IsIn d (node net h i).out
      → IsIn w (node net h k).out
      → d ≡ w
  decided_agreement {h} reached few third i k d w di wk =
      let (r, toss, acc, quorum) =
        decision_backed (config net i) net.coin (h i)
          (authentic-AreNodes net h i (h i) (Reach-authentic net reached i)) d di in
      let (q, toss', acc', quorum') =
        decision_backed (config net k) net.coin (h k)
          (authentic-AreNodes net h k (h k) (Reach-authentic net reached k)) w wk in
      elim (Bool-cases (ltb r q)) [
        | inl before ↦ sym (
            later_decision reached few third i k r q d w toss quorum (omega (arith, acc'))
              (ltb→lt r q before))
        | inr not_before ↦ elim (Bool-cases (ltb q r)) [
          | inl after ↦
              later_decision reached few third k i q r w d toss' quorum' (omega (arith, acc))
                (ltb→lt q r after)
          | inr not_after ↦ let same : r ≡ q = ground arith in sym toss ∙ ap net.coin same ∙ toss'
        ]
      ]
