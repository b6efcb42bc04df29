-- ===== src/Broadcast/Network/Later.antt =====
-- What a step of the network keeps: sent messages, support and authenticity.
use upgrade.Prelude.{
  ℕ, ◌≤◌, ◌-◌, ◌≡◌, Bytes, Bool, true, ◌||◌, List, IsIn, All, ◌==◌, nat_eq, bytes_eq, count_below,
  count_below_mono, Bool-cases, inl, inr, arith,
}
use upgrade.Crypto.{Crypto}
use upgrade.Message.{Message}
use upgrade.Broadcast.Heard.{heard, says}
use upgrade.Broadcast.Network.Keeps.{step-HasSent}
use upgrade.Broadcast.Network.{Network, config, Histories, node, IsAuthentic, deliver_to}
use upgrade.Broadcast.{Status, echo, Payload, run}
use upgrade.Broadcast.Network.Messages.{heard-IsIn, heard-find}

module _ ⦃c : Crypto⦄ where
  module _ (net : Network) where
    -- The node is faulty, or has sent such a message.
    abbrev pub says_or_faulty : Histories → Status → Bytes → ℕ → Bool
    says_or_faulty h st g j = net.faulty j || heard (says st g j) (node net h j).sent

    -- A hash that `n - t` nodes echoed, the faulty ones counted as if they had.
    abbrev pub IsSupported : Histories → Bytes → Type 0
    IsSupported h g = net.n - net.t ≤ count_below net.n (says_or_faulty h echo g)

    abbrev pub Later : Histories → Histories → Type 0
    Later h h' =
        (j : ℕ) (x : Message Payload) → IsIn x (node net h j).sent → IsIn x (node net h' j).sent

    pub deliver_to-Later :
        (h : Histories) (i : ℕ) (m : Message Payload) → Later h (deliver_to i m h)
    unfolding run
    deliver_to-Later h i m j x s = elim (Bool-cases (i == j)) [
      | inl same ↦ rw same (step-HasSent (config net j) x m.payload (node net h j) s)
      | inr differ ↦ rw differ s
    ]

    pub heard-Later :
        (f : Payload → Bool) (h h' : Histories) (j : ℕ)
        → Later h h'
        → heard f (node net h j).sent ≡ true
        → heard f (node net h' j).sent ≡ true
    heard-Later f h h' j l e = let (m, i, q) = heard-find f _ e in heard-IsIn f m _ q (l j m i)

    pub IsSupported-Later :
        (h h' : Histories) (g : Bytes) → Later h h' → IsSupported h g → IsSupported h' g
    IsSupported-Later h h' g l s = omega (
      arith,
      s,
      count_below_mono net.n (says_or_faulty h echo g) (says_or_faulty h' echo g)
          (λ j _ e. ground (arith, heard-Later (says echo g j) h h' j l)),
    )

    pub IsAuthentic-Later :
        (h h' : Histories) (m : Message Payload)
        → Later h h'
        → IsAuthentic net h m
        → IsAuthentic net h' m
    IsAuthentic-Later h h' m l a = (a.0, λ j cl f. l j m (a.1 j cl f))

    abbrev pub AllAuthentic : Histories → List (Message Payload) → Type 0
    AllAuthentic h ms = All (IsAuthentic net h) ms
