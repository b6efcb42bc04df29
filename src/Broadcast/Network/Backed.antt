-- ===== src/Broadcast/Network/Backed.antt =====
-- READY messages in a reachable network, and the echoes behind them.
use upgrade.Prelude.{
  ℕ, ◌≤◌, ◌≡◌, refl, Bytes, true, false, List, All, All-map, All-IsIn, ◌==◌, nat_eq, bytes_eq,
  if_ind, count_below, count_below_mono, count_below-find, Bool-cases, inl, inr, arith,
}
use upgrade.Crypto.{Crypto}
use upgrade.Message.{Message}
use upgrade.Broadcast.Heard.{IsFrom, heard, says}
use upgrade.Broadcast.Invariant.{
  IsBacked, HistoryInv, AreNodes, echoed, readied, vouched, run-boot-HistoryInv,
}
use upgrade.Broadcast.Network.{
  Network, config, Histories, node, IsAuthentic, deliver_to, Reach, begin, receive,
}
use upgrade.Broadcast.{Status, echo, ready, Payload, bracha, committee_message, sender_message}
use upgrade.Broadcast.Network.Messages.{heard-IsIn, heard-find, says-Claims, says-hash}
use upgrade.Broadcast.Network.Later.{
  says_or_faulty, IsSupported, Later, deliver_to-Later, IsSupported-Later, IsAuthentic-Later,
  AllAuthentic,
}

module _ ⦃c : Crypto⦄ where
  module _ (net : Network) where
    -- In a reachable network every received message is authentic.
    pub Reach-authentic : {h : Histories} → Reach net h → (i : ℕ) → AllAuthentic net h (h i)
    Reach-authentic begin i = tt
    Reach-authentic (receive {h} r j m a) i =
        let later = deliver_to-Later net h j m in
        if_ind (All (IsAuthentic net (deliver_to j m h))) (j == i) _ _
          (λ _. (
            IsAuthentic-Later net h (deliver_to j m h) m later a,
            All-map (IsAuthentic net h) (IsAuthentic net (deliver_to j m h))
                (λ x. IsAuthentic-Later net h (deliver_to j m h) x later) (h i)
                (Reach-authentic r i),
          ))
          (λ _.
            All-map (IsAuthentic net h) (IsAuthentic net (deliver_to j m h))
              (λ x. IsAuthentic-Later net h (deliver_to j m h) x later) (h i) (Reach-authentic r i))

    pub authentic-AreNodes :
        (h : Histories) (i : ℕ) (ms : List (Message Payload))
        → AllAuthentic net h ms
        → AreNodes (config net i) ms
    authentic-AreNodes h i ms a =
        All-map (IsAuthentic net h) (λ m. IsFrom net.n m.payload) (λ m b. b.0) ms a

    -- The local invariant holds at every node.
    pub node-Inv :
        (h : Histories) (i : ℕ)
        → AllAuthentic net h (h i)
        → HistoryInv (config net i) (h i) (node net h i)
    node-Inv h i a =
        run-boot-HistoryInv (config net i) (net.value i) (h i) (authentic-AreNodes h i (h i) a)

    -- What a node heard from a node that is not faulty was sent.
    pub heard-sent :
        (h : Histories) (st : Status) (g : Bytes) (j : ℕ) (ms : List (Message Payload))
        → AllAuthentic net h ms
        → heard (says st g j) ms ≡ true
        → says_or_faulty net h st g j ≡ true
    heard-sent h st g j ms a e = elim (Bool-cases (net.faulty j)) [
      | inl bad ↦ rw bad refl
      | inr good ↦
          let (m, i, q) = heard-find (says st g j) ms e in
          let sent =
            (All-IsIn (IsAuthentic net h) ms m a i).1 j (says-Claims st g j m.payload q) good in
          ground (arith, heard-IsIn (says st g j) m (node net h j).sent q sent)
    ]

    -- Every READY that an honest node sent is for a supported hash.
    abbrev pub ReadySupported : Histories → Payload → Type 0
    ReadySupported h (bracha m) = m.status ≡ ready → IsSupported net h (c.sha256 m.value)
    ReadySupported h (committee_message m) = Unit
    ReadySupported h (sender_message m) = Unit

    pub ReadySupported-Later :
        (h h' : Histories)
        → Later net h h'
        → (p : Payload) → ReadySupported h p
        → ReadySupported h' p
    ReadySupported-Later h h' l (bracha m) s =
        λ e. IsSupported-Later net h h' (c.sha256 m.value) l (s e)
    ReadySupported-Later h h' l (committee_message m) s = tt
    ReadySupported-Later h h' l (sender_message m) s = tt

    abbrev pub AllSupported : Histories → Type 0
    AllSupported h =
        (i : ℕ) → net.faulty i ≡ false → All (λ m. ReadySupported h m.payload) (node net h i).sent

    -- Fewer than `n - t` echoes or `t + 1` READYs cannot back a READY: so a backed one has a
    -- supported hash, if the READYs in the history had.
    pub IsBacked-supported :
        (h : Histories) (i : ℕ) (ms : List (Message Payload))
        → count_below net.n net.faulty ≤ net.t
        → AllAuthentic net h ms
        → ((g : Bytes) (j : ℕ)
            → net.faulty j ≡ false
            → heard (says ready g j) ms ≡ true
            → IsSupported net h g)
        → (p : Payload)
        → IsBacked
            (config net i)
            (echoed (config net i) ms)
            (readied (config net i) ms)
            (vouched (config net i) ms)
            p
        → ReadySupported h p
    IsBacked-supported h i ms few a ih (bracha m) b = λ e.
        let g = c.sha256 m.value in
        elim (b e) [
          | inl q ↦ omega (
            arith,
            q,
            count_below_mono net.n (λ j. heard (says echo g j) ms) (says_or_faulty net h echo g)
                (λ j _ x. heard-sent h echo g j ms a x),
          )
          | inr q ↦
              let (j, _, hit, good) =
                count_below-find net.n (λ j. heard (says ready g j) ms) net.faulty
                  (omega (arith, q, few)) in
              ih g j good hit
        ]
    IsBacked-supported h i ms few a ih (committee_message m) b = tt
    IsBacked-supported h i ms few a ih (sender_message m) b = tt

    -- A supported hash stands behind every READY that a node sent.
    sent-IsSupported :
        (h : Histories) (g : Bytes) (j : ℕ) (ms : List (Message Payload))
        → All (λ m. ReadySupported h m.payload) ms
        → heard (says ready g j) ms ≡ true
        → IsSupported net h g
    sent-IsSupported h g j ms a e =
        let (m, i, q) = heard-find (says ready g j) ms e in
        payload m.payload (All-IsIn (λ m. ReadySupported h m.payload) ms m a i) q
      where
        payload : (p : Payload) → ReadySupported h p → says ready g j p ≡ true → IsSupported net h g
        payload (bracha m) s q = let (st, hash) = says-hash ready g j m q in rw (← hash) (s st)
        payload (committee_message m) s q = absurd (cc q)
        payload (sender_message m) s q = absurd (cc q)

    -- So does a READY that was heard from an honest node.
    pub heard-IsSupported :
        (h : Histories) (ms : List (Message Payload))
        → AllSupported h
        → AllAuthentic net h ms
        → (g : Bytes) (j : ℕ) → net.faulty j ≡ false
        → heard (says ready g j) ms ≡ true
        → IsSupported net h g
    heard-IsSupported h ms all a g j good hit =
        sent-IsSupported h g j (node net h j).sent (all j good)
          (ground (arith, heard-sent h ready g j ms a hit))
