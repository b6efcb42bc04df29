-- ===== src/BinaryAgreement/Safety.antt =====
-- What one node of binary agreement guarantees, under every schedule.
use upgrade.Prelude.{
  ℕ, ◌≤◌, ◌+◌, ◌-◌, ◌*◌, ◌≡◌, refl, Bool, true, false, List, IsIn, All-IsIn, length, count_below,
  count_below-find, ◌≢◌, ◌⊎◌, inl, inr, arith,
}
use upgrade.BinaryAgreement.Invariant.{outputs, IsDecision, IsBacked, Inv}
use upgrade.BinaryAgreement.Schedule.{heard_est, heard_aux, AreNodes, run-ScheduleInv, heard}
use upgrade.BinaryAgreement.{
  est, aux, Phase, wait_est, wait_aux, returned, Config, Sent, Event, run,
}

outputs-cases :
    (p : Phase) (n : ℕ) → n ≡ outputs p → ((p ≡ returned) × (n ≡ 1)) ⊎ ((p ≢ returned) × (n ≡ 0))
outputs-cases wait_est n h = inr ((λ e. absurd (ground arith)), h)
outputs-cases wait_aux n h = inr ((λ e. absurd (ground arith)), h)
outputs-cases returned n h = inl (refl, h)

module _ (cfg : Config) (coin : ℕ → ℕ) (es : List Event) (nodes : AreNodes cfg coin es) where
  inv : Inv cfg coin (heard_est cfg coin es) (heard_aux cfg coin es) (run cfg coin es)
  inv = run-ScheduleInv cfg coin es nodes

  -- In a schedule whose messages are from nodes, a decided value is the coin of some round, in
  -- which `2 t + 1` distinct nodes sent EST and `n - t` distinct nodes sent AUX on that value.
  pub decision_backed :
      (d : ℕ)
      → IsIn d (run cfg coin es).out
      → (r : ℕ) × (coin r ≡ d)
        × (2 * cfg.t + 1 ≤ count_below cfg.n (λ i. heard est r d i es))
        × (cfg.n - cfg.t ≤ count_below cfg.n (λ i. heard aux r d i es))
  decision_backed d =
      All-IsIn (IsDecision cfg coin (heard_est cfg coin es) (heard_aux cfg coin es)) _ d inv.decided

  -- So an honest node stands behind it, in a schedule whose messages are from nodes: with at most
  -- `t` faulty nodes, some node that is not faulty sent EST on the decided value.
  pub decision_from_honest :
      (faulty : ℕ → Bool)
      → count_below cfg.n faulty ≤ cfg.t
      → (d : ℕ) → IsIn d (run cfg coin es).out
      → (r j : ℕ) × (coin r ≡ d) × (faulty j ≡ false) × (heard est r d j es ≡ true)
  decision_from_honest faulty few d out =
      let (r, toss, quorum, _) = decision_backed d out in
      let (j, _, hit, good) =
        count_below-find cfg.n (λ i. heard est r d i es) faulty (omega (arith, quorum, few)) in
      (r, j, toss, good, hit)

  -- In a schedule whose messages are from nodes, a node sends AUX only on a value for which `2 t +
  -- 1` distinct nodes sent EST in that round.
  pub aux_backed :
      (x : Sent)
      → IsIn x (run cfg coin es).sent
      → x.message.payload.status ≡ aux
      → 2 * cfg.t + 1
        ≤ count_below cfg.n (λ i. heard est x.message.payload.round x.message.payload.value i es)
  aux_backed x sent =
      All-IsIn
        (λ x. IsBacked cfg coin (heard_est cfg coin es) (heard_aux cfg coin es) x.message.payload) _
        x inv.backed sent

  -- In a schedule whose messages are from nodes, the node decides at most once, and has decided
  -- exactly when its loop has returned.
  pub decides_once :
      (((run cfg coin es).phase ≡ returned) × (length (run cfg coin es).out ≡ 1))
      ⊎ (((run cfg coin es).phase ≢ returned) × (length (run cfg coin es).out ≡ 0))
  decides_once = outputs-cases (run cfg coin es).phase _ inv.once
