-- ===== src/Broadcast/Network/Agreement.antt =====
-- Agreement of the broadcast, with fewer than a third of the nodes faulty.
use upgrade.Prelude.{
  ℕ, ◌<◌, ◌≤◌, ◌-◌, ◌*◌, ◌≡◌, Bytes, true, [], ◌∷◌, All, All-map, ◌==◌, nat_eq, bytes_eq, if_ind,
  count_below, count_below-find, quorums_meet, arith,
}
use upgrade.Crypto.{Crypto}
use upgrade.Broadcast.Heard.{heard}
use upgrade.Broadcast.Invariant.{readied, run-boot-HistoryInv}
use upgrade.Broadcast.Network.{Network, config, Histories, node, deliver_to, Reach, begin, receive}
use upgrade.Broadcast.{echo, boot, run}
use upgrade.Broadcast.Network.Messages.{echoed_one}
use upgrade.Broadcast.Network.Later.{says_or_faulty, IsSupported, deliver_to-Later, AllAuthentic}
use upgrade.Broadcast.Network.Backed.{
  Reach-authentic, authentic-AreNodes, node-Inv, ReadySupported, ReadySupported-Later, AllSupported,
  IsBacked-supported, heard-IsSupported,
}

module _ ⦃c : Crypto⦄ where
  module _ (net : Network) where
    module _ (few : count_below net.n net.faulty ≤ net.t) where
      pub Reach-AllSupported : {h : Histories} → Reach net h → AllSupported net h
      unfolding heard
      Reach-AllSupported begin i good =
          All-map _ (λ m. ReadySupported net (λ _. []) m.payload)
            (λ m. IsBacked-supported net (λ _. []) i [] few tt (λ g j _ x. absurd (cc x)) m.payload)
            _ (node-Inv net (λ _. []) i tt).backed
      Reach-AllSupported (receive {h} r j m a) i good =
          let h' = deliver_to j m h in
          let later = deliver_to-Later net h j m in
          let heard_before : AllAuthentic net h (m ∷ h i) = (a, Reach-authentic net r i) in
          if_ind
            (λ ms.
              All (λ x. ReadySupported net h' x.payload)
                (run (config net i) (boot (config net i) (net.value i)) ms).sent)
            (j == i) (m ∷ h i) (h i)
            (λ _.
              All-map _ (λ x. ReadySupported net h' x.payload)
                (λ x b. ReadySupported-Later net h h' later x.payload (
                  IsBacked-supported net h i (m ∷ h i) few heard_before
                    (heard-IsSupported net h (m ∷ h i) (Reach-AllSupported r) heard_before)
                    x.payload b))
                _
                (run-boot-HistoryInv (config net i) (net.value i) (m ∷ h i)
                  (authentic-AreNodes net h i (m ∷ h i) heard_before)).backed)
            (λ _.
              All-map (λ x. ReadySupported net h x.payload) (λ x. ReadySupported net h' x.payload)
                (λ x. ReadySupported-Later net h h' later x.payload) _
                (Reach-AllSupported r i good))

      -- Two supported hashes are one, when fewer than a third of the nodes are faulty.
      pub IsSupported-unique :
          {h : Histories}
          → Reach net h
          → 3 * net.t < net.n
          → (g g' : Bytes) → IsSupported net h g
          → IsSupported net h g'
          → g ≡ g'
      IsSupported-unique {h} r third g g' s s' =
          let (j, _, p, q, good) =
            quorums_meet net.n (says_or_faulty net h echo g) (says_or_faulty net h echo g')
              net.faulty (omega (arith, s, s', few)) in
          let inv = node-Inv net h j (Reach-authentic net r j) in
          echoed_one g g' j (node net h j).sent (ground (arith, inv.echo_once)) (ground arith)
            (ground arith)

      -- A hash with a quorum of READYs at an honest node is supported.
      pub quorum-IsSupported :
          {h : Histories}
          → Reach net h
          → 2 * net.t < net.n
          → (i : ℕ) (g : Bytes) → net.n - net.t ≤ count_below net.n (readied (config net i) (h i) g)
          → IsSupported net h g
      quorum-IsSupported {h} r half i g q =
          let (j, _, hit, good) =
            count_below-find net.n (readied (config net i) (h i) g) net.faulty
              (omega (arith, q, few)) in
          heard-IsSupported net h (h i) (Reach-AllSupported r) (Reach-authentic net r i) g j good
            hit

      -- Agreement of Bracha's broadcast: in every reachable network with more than `3 t` nodes, of
      -- which at most `t` are faulty, the values that any two nodes that
      -- run the protocol deliver have one SHA-256 hash.
      pub delivered_agreement :
          {h : Histories}
          → Reach net h
          → 3 * net.t < net.n
          → (i k : ℕ) → (node net h i).broadcast_done ≡ true
          → (node net h k).broadcast_done ≡ true
          → c.sha256 (node net h i).broadcast_value ≡ c.sha256 (node net h k).broadcast_value
      delivered_agreement {h} r third i k di dk =
          IsSupported-unique r third _ _
            (quorum-IsSupported r (omega arith) i _
              ((node-Inv net h i (Reach-authentic net r i)).delivered di))
            (quorum-IsSupported r (omega arith) k _
              ((node-Inv net h k (Reach-authentic net r k)).delivered dk))
