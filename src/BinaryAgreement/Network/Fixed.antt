-- ===== src/BinaryAgreement/Network/Fixed.antt =====
-- What follows for the EST messages of a network, once each of them that rests on such messages is on
-- the value `d`, in the rounds that `P` holds of.
use upgrade.Prelude.{
  ℕ, ◌<◌, ◌≤◌, ◌+◌, ◌*◌, ◌≡◌, sym, subst, ◌∙◌, true, false, List, [], ◌∷◌, All, All-map, All-IsIn,
  count_below, count_below-find, ◌==◌, nat_eq, if_ind, arith,
}
use upgrade.BinaryAgreement.{Config, est, AbaMessage, Event, run}
use upgrade.BinaryAgreement.Lineage.{IsFrom, IsTwo}
use upgrade.BinaryAgreement.Lineage.Runs.{run-Line}
use upgrade.BinaryAgreement.Schedule.{heard, heard_est, heard_aux}
use upgrade.BinaryAgreement.Network.{Network, config, Histories, node, Reach, begin, happens}
use upgrade.BinaryAgreement.Network.Messages.{
  posted-find, is_such-parts, AllAuthentic, Later, extend-Later, Reach-authentic,
  authentic-AreNodes, heard-sent,
}

module _ (net : Network) (few : count_below net.n net.faulty ≤ net.t) (P : ℕ → Type 0) (d : ℕ) where
  abbrev pub IsFixed : AbaMessage → Type 0
  IsFixed m = m.status ≡ est → P m.round → m.value ≡ d

  -- The nodes that are not faulty send EST on `d` only.
  abbrev pub AllFixed : Histories → Type 0
  AllFixed h =
      (i : ℕ)
      → i < net.n
      → net.faulty i ≡ false
      → All (λ x. IsFixed x.message.payload) (node net h i).sent

  -- So it is with the EST messages that a history holds of them.
  abbrev pub HeardFixed : List Event → Type 0
  HeardFixed es =
      (q w j : ℕ) → j < net.n → net.faulty j ≡ false → heard est q w j es ≡ true → P q → w ≡ d

  pub heard-Fixed :
      (h : Histories) (es : List Event) → AllAuthentic net h es → AllFixed h → HeardFixed es
  heard-Fixed h es a fixed q w j lt good e later =
      let (x, i, such) =
        posted-find est q w (node net h j).sent (heard-sent net h es est q w j a good e) in
      let (st, round, value) = is_such-parts est q w x.message.payload such in
      sym value
      ∙ All-IsIn (λ x. IsFixed x.message.payload) (node net h j).sent x (fixed j lt good) i st
          (subst P (sym round) later)

  -- A value with an EST message of a node that is not faulty.
  pub accepted-Fixed :
      (es : List Event) (q w : ℕ)
      → HeardFixed es
      → net.t + 1 ≤ count_below net.n (λ j. heard est q w j es)
      → P q
      → w ≡ d
  accepted-Fixed es q w hf enough later =
      let (j, lt, hit, good) =
        count_below-find net.n (λ j. heard est q w j es) net.faulty (omega (arith, enough, few)) in
      hf q w j lt good hit later

  -- Two values that were accepted would both be `d`.
  pub IsTwo-absurd :
      (cfg : Config) (es : List Event) (q : ℕ)
      → cfg.n ≡ net.n
      → cfg.t ≡ net.t
      → HeardFixed es
      → P q
      → IsTwo cfg net.coin (heard_est cfg net.coin es) (heard_aux cfg net.coin es) q
      → ⊥
  IsTwo-absurd cfg es q en et hf later (u, w, ne, hu, hw) =
      let enough = λ (v : ℕ) (x : 2 * cfg.t + 1 ≤ count_below cfg.n (λ j. heard est q v j es)).
        accepted-Fixed es q v hf
          (subst (λ k. net.t + 1 ≤ count_below k (λ j. heard est q v j es)) en
            (omega (arith, x, et)))
          later in
      ne (enough u hu ∙ sym (enough w hw))

  module _ (f : Histories)
      (settles : (h : Histories) (i : ℕ) (es : List Event)
        → i < net.n
        → net.faulty i ≡ false
        → AllAuthentic net h es
        → Later net h f
        → HeardFixed es
        → (m : AbaMessage)
        → IsFrom
            (config net i)
            net.coin
            (heard_est (config net i) net.coin es)
            (heard_aux (config net i) net.coin es)
            m
        → IsFixed m) where
    -- The messages of a node, after a history that was authentic before.
    sent-Fixed :
        (h : Histories) (i : ℕ) (es : List Event)
        → i < net.n
        → net.faulty i ≡ false
        → AllAuthentic net h es
        → Later net h f
        → HeardFixed es
        → All (λ x. IsFixed x.message.payload) (run (config net i) net.coin es).sent
    sent-Fixed h i es lt good a l hf =
        All-map _ (λ x. IsFixed x.message.payload)
          (λ x from. settles h i es lt good a l hf x.message.payload from) _
          (run-Line (config net i) net.coin es (authentic-AreNodes net h i es a)).from

    pub Reach-AllFixed : {h : Histories} → Reach net h → Later net h f → AllFixed h
    unfolding heard
    Reach-AllFixed begin l i lt good =
        sent-Fixed (λ _. []) i [] lt good tt l (λ q w j _ _ e. absurd (cc e))
    Reach-AllFixed (happens {h} reached j ev a) l i lt good =
        let before : Later net h f = λ k x s. l k x (extend-Later net h j ev k x s) in
        let fixed = Reach-AllFixed reached before in
        let authentic : AllAuthentic net h (ev ∷ h i) = (a, Reach-authentic net reached i) in
        if_ind (λ es. All (λ x. IsFixed x.message.payload) (run (config net i) net.coin es).sent)
          (j == i) (ev ∷ h i) (h i)
          (λ _.
            sent-Fixed h i (ev ∷ h i) lt good authentic before
              (heard-Fixed h (ev ∷ h i) authentic fixed))
          (λ _. fixed i lt good)
