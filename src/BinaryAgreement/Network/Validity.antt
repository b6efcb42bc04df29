-- ===== src/BinaryAgreement/Network/Validity.antt =====
-- Validity of binary agreement.
use upgrade.Prelude.{ℕ, ◌<◌, ◌≤◌, ◌≡◌, refl, ◌∙◌, inl, inr, false, List, IsIn, count_below, arith}
use upgrade.BinaryAgreement.{AbaMessage, Event}
use upgrade.BinaryAgreement.Lineage.{IsFrom}
use upgrade.BinaryAgreement.Schedule.{heard_est, heard_aux}
use upgrade.BinaryAgreement.Safety.{decision_backed}
use upgrade.BinaryAgreement.Network.{Network, config, Histories, node, Reach}
use upgrade.BinaryAgreement.Network.Messages.{
  AllAuthentic, Later, Reach-authentic, authentic-AreNodes,
}
use upgrade.BinaryAgreement.Network.Fixed.{
  IsFixed, HeardFixed, heard-Fixed, accepted-Fixed, IsTwo-absurd, Reach-AllFixed,
}

module _ (net : Network) (few : count_below net.n net.faulty ≤ net.t) (v : ℕ)
    (unanimous : (i : ℕ) → i < net.n → net.faulty i ≡ false → net.value i ≡ v) where
  settles :
      (f h : Histories) (i : ℕ) (es : List Event)
      → i < net.n
      → net.faulty i ≡ false
      → AllAuthentic net h es
      → Later net h f
      → HeardFixed net few (λ _. Unit) v es
      → (m : AbaMessage)
      → IsFrom
          (config net i)
          net.coin
          (heard_est (config net i) net.coin es)
          (heard_aux (config net i) net.coin es)
          m
      → IsFixed net few (λ _. Unit) v m
  settles f h i es lt good a l hf m from st _ = elim (from st) [
    | inl echoed ↦ accepted-Fixed net few (λ _. Unit) v es m.round m.value hf echoed tt
    | inr (inl (_, own)) ↦ own ∙ unanimous i lt good
    | inr (inr (q, _, inl (accepted, _))) ↦
        accepted-Fixed net few (λ _. Unit) v es q m.value hf (omega (arith, accepted)) tt
    | inr (inr (q, _, inr (_, two))) ↦
        absurd (IsTwo-absurd net few (λ _. Unit) v (config net i) es q refl refl hf tt two)
  ]

  -- Validity of binary agreement: in a reachable network of which at most `t` nodes are faulty, and in
  -- which all the others start with the value `v`, no node that runs the protocol decides another
  -- value.
  pub decided_validity :
      {h : Histories} → Reach net h → (k d : ℕ) → IsIn d (node net h k).out → d ≡ v
  decided_validity {h} reached k d out =
      let (r, _, accepted, _) =
        decision_backed (config net k) net.coin (h k)
          (authentic-AreNodes net h k (h k) (Reach-authentic net reached k)) d out in
      let fixed = Reach-AllFixed net few (λ _. Unit) v h (settles h) reached (λ j x s. s) in
      accepted-Fixed net few (λ _. Unit) v (h k) r d
        (heard-Fixed net few (λ _. Unit) v h (h k) (Reach-authentic net reached k) fixed)
        (omega (arith, accepted)) tt
