-- ===== src/Broadcast/Network/Outputs.antt =====
-- Agreement on what the protocol outputs, when the committee's faulty members are at most `tk`.
use mathlib.Core.Bool.{false≢true}
use upgrade.Prelude.{
  ℕ, ◌<◌, ◌≤◌, ◌+◌, ◌*◌, ◌≡◌, Bytes, Bool, true, ◌&&◌, IsIn, All-IsIn, nat_eq, bytes_eq,
  bytes_beq_iff, nat_beq_iff, count_below, count_below-find, arith,
}
use upgrade.Crypto.{Crypto}
use upgrade.Block.{BlockShare, share_hash}
use upgrade.Broadcast.Heard.{vouches}
use upgrade.Broadcast.Invariant.{IsBacked, echoed, readied, vouched}
use upgrade.Broadcast.Network.{Network, config, Histories, node, Claims, IsAuthentic, Reach}
use upgrade.Broadcast.Network.Messages.{heard-find}
use upgrade.Broadcast.Network.Later.{IsSupported}
use upgrade.Broadcast.Network.Backed.{Reach-authentic, node-Inv}
use upgrade.Broadcast.Network.Agreement.{IsSupported-unique, quorum-IsSupported}
use upgrade.Broadcast.{
  Payload, bracha, committee_message, sender_message, is_in, is_valid_committee_message,
}

module _ ⦃c : Crypto⦄ (net : Network) where
  -- The faulty members of the committee.
  abbrev pub faulty_member : ℕ → Bool
  faulty_member j = net.faulty j && is_in j net.committee

  -- What a vouching message shows of its sender and its hash.
  IsVouch : Bytes → ℕ → Payload → Type 0
  IsVouch g j (bracha m) = ⊥
  IsVouch g j (committee_message m) = (m.sender ≡ j) × (m.hash ≡ g) × (is_in j net.committee ≡ true)
  IsVouch g j (sender_message m) = ⊥

  vouches-IsVouch :
      (i : ℕ) (g : Bytes) (j : ℕ) (p : Payload)
      → vouches (config net i) g j p ≡ true
      → IsVouch g j p
  unfolding IsVouch is_valid_committee_message
  vouches-IsVouch i g j (bracha m) e = absurd (false≢true e)
  vouches-IsVouch i g j (committee_message m) e =
      let same = (nat_beq_iff m.sender j).0 (ground arith) in
      (same, (bytes_beq_iff m.hash g).0 (ground arith), rw (← same) (ground arith))
  vouches-IsVouch i g j (sender_message m) e = absurd (false≢true e)

  module _ (few : count_below net.n net.faulty ≤ net.t) (half : 2 * net.t < net.n)
      (honest : count_below net.n faulty_member ≤ net.tk) where
    -- A vouching message that a node sent is for a hash whose own hash is supported.
    vouch-IsSupported :
        {h : Histories}
        → Reach net h
        → (j : ℕ) (g : Bytes) (p : Payload)
        → IsBacked
            (config net j)
            (echoed (config net j) (h j))
            (readied (config net j) (h j))
            (vouched (config net j) (h j))
            p
        → IsVouch g j p
        → IsSupported net h (c.sha256 g)
    unfolding IsVouch
    vouch-IsSupported r j g (bracha m) b v = absurd v
    vouch-IsSupported r j g (committee_message m) b v =
        quorum-IsSupported net few r half j (c.sha256 g) (rw (← v.1) b.1)
    vouch-IsSupported r j g (sender_message m) b v = absurd v

    vouch-Claims : (g : Bytes) (j : ℕ) (p : Payload) → IsVouch g j p → Claims j p
    unfolding IsVouch
    vouch-Claims g j (bracha m) v = absurd v
    vouch-Claims g j (committee_message m) v = v.0
    vouch-Claims g j (sender_message m) v = absurd v

    vouch-member : (g : Bytes) (j : ℕ) (p : Payload) → IsVouch g j p → is_in j net.committee ≡ true
    unfolding IsVouch
    vouch-member g j (bracha m) v = absurd v
    vouch-member g j (committee_message m) v = v.2
    vouch-member g j (sender_message m) v = absurd v

    output-IsSupported :
        {h : Histories}
        → Reach net h
        → (i : ℕ) (b : BlockShare) → IsIn b (node net h i).out
        → IsSupported net h (c.sha256 (share_hash b))
    output-IsSupported {h} r i b out =
        let g = share_hash b in
        let enough =
          All-IsIn
            (λ b. net.tk + 1 ≤ count_below net.n (vouched (config net i) (h i) (share_hash b))) _ b
            (node-Inv net h i (Reach-authentic net r i)).outputs out in
        let (j, _, hit, clean) =
          count_below-find net.n (vouched (config net i) (h i) g) faulty_member
            (omega (arith, enough, honest)) in
        let (m, received, q) = heard-find (vouches (config net i) g j) (h i) hit in
        let v = vouches-IsVouch i g j m.payload q in
        let member = vouch-member g j m.payload v in
        let sent =
          (All-IsIn (IsAuthentic net h) (h i) m (Reach-authentic net r i) received).1 j
            (vouch-Claims g j m.payload v) (ground arith) in
        vouch-IsSupported r j g m.payload
          (All-IsIn _ _ m (node-Inv net h j (Reach-authentic net r j)).backed sent) v

    -- Agreement of the protocol: in every reachable network with more than `3 t` nodes, at most `t`
    -- of them faulty, at most `tk` of those in the committee, any two outputs of any two nodes that
    -- run the protocol have share hashes with one SHA-256 hash.
    pub output_agreement :
        {h : Histories}
        → Reach net h
        → 3 * net.t < net.n
        → (i k : ℕ) (b b' : BlockShare) → IsIn b (node net h i).out
        → IsIn b' (node net h k).out
        → c.sha256 (share_hash b) ≡ c.sha256 (share_hash b')
    output_agreement r third i k b b' out out' =
        IsSupported-unique net few r third _ _ (output-IsSupported r i b out)
          (output-IsSupported r k b' out')
