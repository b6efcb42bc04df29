-- ===== src/BinaryAgreement/Network/Messages.antt =====
-- Messages that were heard in the network, found where they were sent.
use upgrade.Prelude.{
  ℕ, ◌≤◌, ◌+◌, ◌*◌, ◌≡◌, refl, sym, subst, inl, inr, Bool, true, false, not, ◌&&◌, ◌||◌, List, [],
  ◌∷◌, All, All-map, All-IsIn, IsIn, IsIn-append_left, length, leb, count_below, count_below_mono,
  ◌==◌, nat_eq, nat_beq_iff, if◌then◌else◌, if_ind, arith, Bool-cases,
}
use upgrade.BinaryAgreement.{
  Status, est, aux, other, AbaMessage, Phase, wait_est, wait_aux, returned, Config, Sent, State,
  has, voters, handle_bcs, at, echo_est, accept_value, handle_est, handle_aux, dispatch, handle,
  send_est, send_aux, begin_round, take_est, decide, take_aux, resume, advance, Event, receives,
  advances, step, run_from, run,
}
use upgrade.BinaryAgreement.Schedule.{status_beq, says, heard, AreNodes}
use upgrade.BinaryAgreement.Network.{
  Network, config, Histories, node, IsAuthentic, extend, Reach, begin, happens,
}

-- A message that was sent stays sent.
module _ (cfg : Config) (x : Sent) where
  abbrev Has : State → Type 0
  Has s = IsIn x s.sent

  echo_est-Has : (r v : ℕ) (s : State) → Has s → Has (echo_est cfg r v s)
  unfolding echo_est
  echo_est-Has r v s i =
      if_ind Has (not (has r v s.est_echoes)) _ _ (λ _. IsIn-append_left x s.sent _ i) (λ _. i)

  handle_est-Has : (r v k : ℕ) (s : State) → Has s → Has (handle_est cfg r v k s)
  unfolding handle_est accept_value
  handle_est-Has r v k s i =
      let votes = handle_bcs r v k s.est_values in
      let s1 = record s { est_values = votes } in
      let s2 = if leb (cfg.t + 1) (length (voters r v votes)) then echo_est cfg r v s1 else s1 in
      let echoed : Has s2 =
        if_ind Has (leb (cfg.t + 1) (length (voters r v votes))) _ _ (λ _. echo_est-Has r v s1 i)
          (λ _. i) in
      if_ind Has (leb (2 * cfg.t + 1) (length (voters r v votes))) (accept_value r v s2) s2
        (λ _. echoed) (λ _. echoed)

  dispatch-Has : (st : Status) (m : AbaMessage) (s : State) → Has s → Has (dispatch cfg st m s)
  unfolding dispatch handle_aux
  dispatch-Has est m s i = handle_est-Has m.round m.value m.sender s i
  dispatch-Has aux m s i = i
  dispatch-Has other m s i = i

  begin_round-Has : (s : State) → Has s → Has (begin_round cfg s)
  unfolding begin_round send_est
  begin_round-Has s i =
      if_ind Has (not (has s.round s.est s.est_sent)) _ _ (λ _. IsIn-append_left x s.sent _ i)
        (λ _. i)

  decide-Has : (values : List ℕ) (coin : ℕ) (s : State) → Has s → Has (decide cfg values coin s)
  unfolding decide
  decide-Has [] coin s i = begin_round-Has (record s { est = coin; round = s.round + 1 }) i
  decide-Has (v ∷ []) coin s i =
      if_ind Has (v == coin) _ _ (λ _. i)
        (λ _. begin_round-Has (record s { est = v; round = s.round + 1 }) i)
  decide-Has (v ∷ w ∷ vs) coin s i =
      begin_round-Has (record s { est = coin; round = s.round + 1 }) i

  resume-Has : (ph : Phase) (coin : ℕ) (s : State) → Has s → Has (resume cfg ph coin s)
  unfolding resume take_est take_aux send_aux
  resume-Has wait_est coin s i = taken (at s.round s.notify_est)
    where
      taken : (q : List (List ℕ)) → Has (take_est cfg q s)
      taken [] = i
      taken ([] ∷ q) = i
      taken ((v ∷ vs) ∷ q) = IsIn-append_left x s.sent _ i
  resume-Has wait_aux coin s i = taken (at s.round s.notify_aux)
    where
      taken : (q : List (List ℕ)) → Has (take_aux cfg q coin s)
      taken [] = i
      taken (values ∷ q) = decide-Has values coin _ i
  resume-Has returned coin s i = i

  pub step-Has : (coin : ℕ → ℕ) (ev : Event) (s : State) → Has s → Has (step cfg coin ev s)
  unfolding step handle advance
  step-Has coin (receives m) s i = dispatch-Has m.status m s i
  step-Has coin advances s i = resume-Has s.phase (coin s.round) s i

-- Such a message is among those that were sent.
abbrev pub is_such : Status → ℕ → ℕ → AbaMessage → Bool
is_such st r v m = status_beq m.status st && (m.round == r && m.value == v)

unfoldable pub posted : Status → ℕ → ℕ → List Sent → Bool
posted st r v [] = false
posted st r v (x ∷ xs) = is_such st r v x.message.payload || posted st r v xs

posted-IsIn :
    (st : Status) (r v : ℕ) (x : Sent) (xs : List Sent)
    → is_such st r v x.message.payload ≡ true
    → IsIn x xs
    → posted st r v xs ≡ true
unfolding posted
posted-IsIn st r v x [] e i = absurd i
posted-IsIn st r v x (y ∷ xs) e (inl q) = rw (← q, e)
posted-IsIn st r v x (y ∷ xs) e (inr i) = ground (arith, posted-IsIn st r v x xs e i)

pub posted-find :
    (st : Status) (r v : ℕ) (xs : List Sent)
    → posted st r v xs ≡ true
    → (x : Sent) × IsIn x xs × (is_such st r v x.message.payload ≡ true)
unfolding posted
posted-find st r v [] e = absurd (cc e)
posted-find st r v (x ∷ xs) e = elim (Bool-cases (is_such st r v x.message.payload)) [
  | inl hit ↦ (x, inl refl, hit)
  | inr miss ↦ let (y, i, h) = posted-find st r v xs (ground arith) in (y, inr i, h)
]

pub is_such-parts :
    (st : Status) (r v : ℕ) (m : AbaMessage)
    → is_such st r v m ≡ true
    → (m.status ≡ st) × (m.round ≡ r) × (m.value ≡ v)
is_such-parts st r v m e = (
  status m.status st (ground arith),
  (nat_beq_iff m.round r).0 (ground arith),
  (nat_beq_iff m.value v).0 (ground arith),
)
  where
    status : (a b : Status) → status_beq a b ≡ true → a ≡ b
    status a b h = ground arith

-- A heard message stands in the history.
heard-find :
    (st : Status) (r v j : ℕ) (es : List Event)
    → heard st r v j es ≡ true
    → (m : AbaMessage) × IsIn (receives m) es × (is_such st r v m ≡ true) × (m.sender ≡ j)
unfolding heard
heard-find st r v j [] e = absurd (cc e)
heard-find st r v j (advances ∷ es) e =
    let (m, i, h, from) = heard-find st r v j es (ground arith) in (m, inr i, h, from)
heard-find st r v j (receives m ∷ es) e = elim (Bool-cases (says st r v j (receives m))) [
  | inl hit ↦ (m, inl refl, ground arith, (nat_beq_iff m.sender j).0 (ground arith))
  | inr miss ↦ let (m', i, h, from) = heard-find st r v j es (ground arith) in (m', inr i, h, from)
]

module _ (net : Network) where
  abbrev pub AllAuthentic : Histories → List Event → Type 0
  AllAuthentic h es = All (IsAuthentic net h) es

  abbrev pub Later : Histories → Histories → Type 0
  Later h h' = (j : ℕ) (x : Sent) → IsIn x (node net h j).sent → IsIn x (node net h' j).sent

  pub extend-Later : (h : Histories) (i : ℕ) (ev : Event) → Later h (extend i ev h)
  unfolding run run_from
  extend-Later h i ev j x s = elim (Bool-cases (i == j)) [
    | inl same ↦ rw same (step-Has (config net j) x net.coin ev (node net h j) s)
    | inr differ ↦ rw differ s
  ]

  IsAuthentic-Later :
      (h h' : Histories) (ev : Event) → Later h h' → IsAuthentic net h ev → IsAuthentic net h' ev
  IsAuthentic-Later h h' (receives m) l a =
      (a.0, λ good. let (x, i, e) = a.1 good in (x, l m.sender x i, e))
  IsAuthentic-Later h h' advances l a = tt

  -- In a reachable network every received message is authentic.
  pub Reach-authentic : {h : Histories} → Reach net h → (i : ℕ) → AllAuthentic h (h i)
  Reach-authentic begin i = tt
  Reach-authentic (happens {h} r j ev a) i =
      let h' = extend j ev h in
      let later = extend-Later h j ev in
      let old : AllAuthentic h' (h i) =
        All-map (IsAuthentic net h) (IsAuthentic net h') (λ x. IsAuthentic-Later h h' x later) (h i)
          (Reach-authentic r i) in
      if_ind (All (IsAuthentic net h')) (j == i) _ _ (λ _. (IsAuthentic-Later h h' ev later a, old))
        (λ _. old)

  pub authentic-AreNodes :
      (h : Histories) (i : ℕ) (es : List Event)
      → AllAuthentic h es
      → AreNodes (config net i) net.coin es
  authentic-AreNodes h i [] a = tt
  authentic-AreNodes h i (receives m ∷ es) a = (a.0.0, authentic-AreNodes h i es a.1)
  authentic-AreNodes h i (advances ∷ es) a = authentic-AreNodes h i es a.1

  -- What was heard from a node that is not faulty was sent there.
  pub heard-sent :
      (h : Histories) (es : List Event) (st : Status) (r v j : ℕ)
      → AllAuthentic h es
      → net.faulty j ≡ false
      → heard st r v j es ≡ true
      → posted st r v (node net h j).sent ≡ true
  heard-sent h es st r v j a good e =
      let (m, i, such, from) = heard-find st r v j es e in
      let authentic = All-IsIn (IsAuthentic net h) es (receives m) a i in
      let (x, there, same) = authentic.1 (subst (λ k. net.faulty k ≡ false) (sym from) good) in
      posted-IsIn st r v x (node net h j).sent
        (subst (λ w. is_such st r v w ≡ true) (sym same) such)
        (subst (λ k. IsIn x (node net h k).sent) from there)

  abbrev pub posted_or_faulty : Histories → Status → ℕ → ℕ → ℕ → Bool
  posted_or_faulty h st r v j = net.faulty j || posted st r v (node net h j).sent

  pub posted-Later :
      (h h' : Histories) (st : Status) (r v j : ℕ)
      → Later h h'
      → posted st r v (node net h j).sent ≡ true
      → posted st r v (node net h' j).sent ≡ true
  posted-Later h h' st r v j l e =
      let (x, i, such) = posted-find st r v (node net h j).sent e in
      posted-IsIn st r v x (node net h' j).sent such (l j x i)

  -- A count of what was heard is one of what was sent, then or later.
  pub heard-count :
      (h h' : Histories) (es : List Event) (st : Status) (r v : ℕ)
      → AllAuthentic h es
      → Later h h'
      → count_below net.n (λ j. heard st r v j es) ≤ count_below net.n (posted_or_faulty h' st r v)
  heard-count h h' es st r v a l =
      count_below_mono net.n (λ j. heard st r v j es) (posted_or_faulty h' st r v)
        (λ j _ e. elim (Bool-cases (net.faulty j)) [
          | inl bad ↦ rw bad refl
          | inr good ↦
              ground (arith, posted-Later h h' st r v j l (heard-sent h es st r v j a good e))
        ])
