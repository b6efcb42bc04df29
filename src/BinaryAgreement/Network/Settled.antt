-- ===== src/BinaryAgreement/Network/Settled.antt =====
-- A round with a quorum of AUX messages on its coin settles the later rounds.
use upgrade.Prelude.{
  ℕ, ◌<◌, ◌≤◌, ◌-◌, ◌*◌, ◌≡◌, refl, sym, ap, subst, ◌∙◌, inl, inr, true, false, List, count_below,
  quorums_meet, ltb, ltb→lt, nat_eq, arith, Bool-cases,
}
use upgrade.BinaryAgreement.{aux, AbaMessage, Sent, Event}
use upgrade.BinaryAgreement.Lineage.{IsFrom, IsOnce}
use upgrade.BinaryAgreement.Lineage.Runs.{run-Line}
use upgrade.BinaryAgreement.Schedule.{heard, heard_est, heard_aux}
use upgrade.BinaryAgreement.Network.{Network, config, Histories, node, Reach}
use upgrade.BinaryAgreement.Network.Messages.{
  posted, posted-find, is_such-parts, AllAuthentic, Later, Reach-authentic, authentic-AreNodes,
  posted_or_faulty, heard-count,
}
use upgrade.BinaryAgreement.Network.Fixed.{
  IsFixed, AllFixed, HeardFixed, accepted-Fixed, IsTwo-absurd, Reach-AllFixed,
}

module _ (net : Network) where
  -- One value in the AUX messages of a round of a node.
  aux_one :
      (q v w : ℕ) (xs : List Sent)
      → IsOnce xs
      → posted aux q v xs ≡ true
      → posted aux q w xs ≡ true
      → v ≡ w
  aux_one q v w xs once pv pw =
      let (x, ix, sx) = posted-find aux q v xs pv in
      let (y, iy, sy) = posted-find aux q w xs pw in
      let (ax, rx, vx) = is_such-parts aux q v x.message.payload sx in
      let (ay, ry, vy) = is_such-parts aux q w y.message.payload sy in
      sym vx ∙ once x y ix iy ax ay (rx ∙ sym ry) ∙ vy

  module _ (few : count_below net.n net.faulty ≤ net.t) (third : 3 * net.t < net.n) {f : Histories}
      (final : Reach net f) (r d : ℕ) (toss : net.coin r ≡ d)
      (quorum : net.n - net.t ≤ count_below net.n (posted_or_faulty net f aux r d)) where
    -- Another value with a quorum of AUX messages in round `r` is the same.
    quorum-Fixed :
        (h : Histories) (es : List Event) (w : ℕ)
        → AllAuthentic net h es
        → Later net h f
        → net.n - net.t ≤ count_below net.n (λ j. heard aux r w j es)
        → w ≡ d
    quorum-Fixed h es w a l enough =
        let (j, _, p, q, good) =
          quorums_meet net.n (posted_or_faulty net f aux r w) (posted_or_faulty net f aux r d)
            net.faulty
            (omega (arith, few, third, quorum, enough, heard-count net h f es aux r w a l)) in
        let line =
          run-Line (config net j) net.coin (f j)
            (authentic-AreNodes net f j (f j) (Reach-authentic net final j)) in
        aux_one r w d (node net f j).sent line.once (ground arith) (ground arith)

    settles :
        (h : Histories) (i : ℕ) (es : List Event)
        → i < net.n
        → net.faulty i ≡ false
        → AllAuthentic net h es
        → Later net h f
        → HeardFixed net few (λ q. r < q) d es
        → (m : AbaMessage)
        → IsFrom
            (config net i)
            net.coin
            (heard_est (config net i) net.coin es)
            (heard_aux (config net i) net.coin es)
            m
        → IsFixed net few (λ q. r < q) d m
    settles h i es lt good a l hf m from st late = elim (from st) [
      | inl echoed ↦ accepted-Fixed net few (λ q. r < q) d es m.round m.value hf echoed late
      | inr (inl (first, _)) ↦ absurd (omega (arith, first, late))
      | inr (inr (q, next, inl (accepted, quorum'))) ↦ elim (Bool-cases (ltb r q)) [
        | inl later ↦
            accepted-Fixed net few (λ q. r < q) d es q m.value hf (omega (arith, accepted))
              (ltb→lt r q later)
        | inr same ↦
            let here : q ≡ r = ground (arith, same, late, next) in
            quorum-Fixed h es m.value a l (
              subst (λ k. net.n - net.t ≤ count_below net.n (λ j. heard aux k m.value j es)) here
                quorum')
      ]
      | inr (inr (q, next, inr (coin, two))) ↦ elim (Bool-cases (ltb r q)) [
        | inl later ↦ absurd (
            IsTwo-absurd net few (λ q. r < q) d (config net i) es q refl refl hf (ltb→lt r q later)
              two)
        | inr same ↦
            let here : q ≡ r = ground (arith, same, late, next) in
            sym coin ∙ ap net.coin here ∙ toss
      ]
    ]

    -- After round `r` the nodes that are not faulty send EST on `d` only.
    pub settled-AllFixed :
        {h : Histories} → Reach net h → Later net h f → AllFixed net few (λ q. r < q) d h
    settled-AllFixed = Reach-AllFixed net few (λ q. r < q) d f settles
