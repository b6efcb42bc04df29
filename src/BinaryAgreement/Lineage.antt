-- ===== src/BinaryAgreement/Lineage.antt =====
-- Where the EST and AUX messages of a node come from: echoes of what it heard, and the results of
-- its rounds.
pub mod Rounds
pub mod Runs
use upgrade.Prelude.{
  ℕ, ◌<◌, ◌≤◌, ◌+◌, ◌-◌, ◌*◌, ◌≡◌, ◌≢◌, ◌⊎◌, refl, sym, ap, ◌∙◌, subst, inl, inr, Bool, true, not,
  ◌&&◌, List, [], ◌∷◌, ◌++◌, All, All-append, All-IsIn, All-map, length, lookup, insert, IsMap,
  IsIn, AllEntries, AllEntries-insert, insert-IsMap, IsFresh, count_below, count_below_mono,
  AllEntries-map, leb, ◌==◌, nat_eq, nat_beq_iff, if◌then◌else◌, if_ind, arith, Bool-cases,
}
use upgrade.BinaryAgreement.Votes.{
  Counts-count, handle_bcs-Counts, at-insert, enqueue-All, dequeue-All,
}
use upgrade.BinaryAgreement.Invariant.{IsAccepted, IsAcceptedEntry, IsAnnounced, Inv, notify_if-All}
use upgrade.BinaryAgreement.{
  est, aux, AbaMessage, Values, Votes, Queues, at, voters, has, handle_bcs, add_value, Phase,
  wait_est, wait_aux, returned, Config, Sent, State, multicast, message_of, echo_est, accept_value,
  handle_est, notify_if, one_value, both_values, notify, handle_aux, send_est, send_aux,
  begin_round, blank, initial, take_est, decide, take_aux, resume, advance, enqueue,
}

-- Before which round the AUX messages of a phase are.
abbrev pub limit : Phase → ℕ → ℕ
limit wait_est r = r
limit wait_aux r = r + 1
limit returned r = r + 1

abbrev pub IsBefore : ℕ → Sent → Type 0
IsBefore k x = x.message.payload.status ≡ aux → x.message.payload.round < k

-- One AUX message in a round.
abbrev pub IsOnce : List Sent → Type 0
IsOnce xs =
    (x y : Sent)
    → IsIn x xs
    → IsIn y xs
    → x.message.payload.status ≡ aux
    → y.message.payload.status ≡ aux
    → x.message.payload.round ≡ y.message.payload.round
    → x.message.payload.value ≡ y.message.payload.value

IsIn-snoc : {A : Type 0} (a z : A) (xs : List A) → IsIn a (xs ++ z ∷ []) → IsIn a xs ⊎ (a ≡ z)
IsIn-snoc a z [] (inl e) = inr e
IsIn-snoc a z [] (inr h) = absurd h
IsIn-snoc a z (x ∷ xs) (inl e) = inl (inl e)
IsIn-snoc a z (x ∷ xs) (inr h) = elim (IsIn-snoc a z xs h) [ inl i ↦ inl (inr i) | inr e ↦ inr e ]

-- A later AUX message is the only one of its round.
pub IsOnce-snoc :
    (k : ℕ) (z : Sent) (xs : List Sent)
    → All (IsBefore k) xs
    → (z.message.payload.status ≡ aux → k ≤ z.message.payload.round)
    → IsOnce xs
    → IsOnce (xs ++ z ∷ [])
IsOnce-snoc k z xs b late once x y ix iy ax ay e = elim (IsIn-snoc x z xs ix) [
  | inl ox ↦ elim (IsIn-snoc y z xs iy) [
    | inl oy ↦ once x y ox oy ax ay e
    | inr qy ↦ absurd (
        omega (
          arith,
          All-IsIn (IsBefore k) xs x b ox ax,
          late (subst (λ (w : Sent). w.message.payload.status ≡ aux) qy ay),
          e,
          ap (λ (w : Sent). w.message.payload.round) qy,
        ))
  ]
  | inr qx ↦ elim (IsIn-snoc y z xs iy) [
    | inl oy ↦ absurd (
        omega (
          arith,
          All-IsIn (IsBefore k) xs y b oy ay,
          late (subst (λ (w : Sent). w.message.payload.status ≡ aux) qx ax),
          e,
          ap (λ (w : Sent). w.message.payload.round) qx,
        ))
    | inr qy ↦ ap (λ (w : Sent). w.message.payload.value) (qx ∙ sym qy)
  ]
]

module _ (cfg : Config) (coin : ℕ → ℕ) (e a : ℕ → ℕ → ℕ → Bool) where
  -- Two values were accepted.
  abbrev pub IsTwo : ℕ → Type 0
  IsTwo q = (u w : ℕ) × (u ≢ w) × IsAccepted cfg coin e a q u × IsAccepted cfg coin e a q w

  -- What a round starts with: the own value, or what came of the round before.
  abbrev pub IsStart : ℕ → ℕ → Type 0
  IsStart r w =
      ((r ≡ 0) × (w ≡ cfg.value))
      ⊎ ((q : ℕ) × (r ≡ q + 1)
          × ((IsAccepted cfg coin e a q w × (cfg.n - cfg.t ≤ count_below cfg.n (a q w)))
              ⊎ ((coin q ≡ w) × IsTwo q)))

  -- An EST message is an echo, or what its round starts with.
  abbrev pub IsFrom : AbaMessage → Type 0
  IsFrom m =
      m.status ≡ est → (cfg.t + 1 ≤ count_below cfg.n (e m.round m.value)) ⊎ IsStart m.round m.value

  abbrev pub IsPair : ℕ → List ℕ → Type 0
  IsPair r [] = Unit
  IsPair r (v ∷ []) = Unit
  IsPair r (v ∷ w ∷ vs) = IsTwo r

  abbrev pub Bins : Values → Type 0
  Bins vals =
      (r : ℕ) → IsMap (at r vals) × AllEntries (λ v _. IsAccepted cfg coin e a r v) (at r vals)

  pub record Lineage (r : ℕ) (w : ℕ) (ph : Phase) (bins : Values) (q : Queues) (sent : List Sent)
      : Type 0 where
    pub start : IsStart r w
    pub bin_entries : Bins bins
    pub pairs : (i : ℕ) → All (IsPair i) (at i q)
    pub from : All (λ x. IsFrom x.message.payload) sent
    pub before : All (IsBefore (limit ph r)) sent
    pub once : IsOnce sent

  abbrev pub Line : State → Type 0
  Line s = Lineage s.round s.est s.phase s.bin_values s.notify_aux s.sent

  -- An EST message joins those that were sent.
  pub multicast_est-Line :
      (r v : ℕ) (s : State)
      → (cfg.t + 1 ≤ count_below cfg.n (e r v)) ⊎ IsStart r v
      → Line s
      → Line (multicast (message_of cfg est r v) s)
  multicast_est-Line r v s h l = record {
    start = l.start;
    bin_entries = l.bin_entries;
    pairs = l.pairs;
    from = All-append (λ x. IsFrom x.message.payload) s.sent _ l.from ((λ _. h), tt);
    before =
        All-append (IsBefore (limit s.phase s.round)) s.sent _ l.before ((λ q. absurd (cc q)), tt);
    once = IsOnce-snoc (limit s.phase s.round) _ s.sent l.before (λ q. absurd (cc q)) l.once;
  }

  echo_est-Line :
      (r v : ℕ) (s : State)
      → cfg.t + 1 ≤ count_below cfg.n (e r v)
      → Line s
      → Line (echo_est cfg r v s)
  unfolding echo_est
  echo_est-Line r v s h l =
      if_ind Line (not (has r v s.est_echoes)) _ _
        (λ _.
          multicast_est-Line r v (record s { est_echoes = add_value r v s.est_echoes }) (inl h) l)
        (λ _. l)

  add_value-Bins :
      (r v : ℕ) (vals : Values)
      → IsAccepted cfg coin e a r v
      → Bins vals
      → Bins (add_value r v vals)
  unfolding add_value
  add_value-Bins r v vals h b q = elim (Bool-cases (r == q)) [
    | inl same ↦
        let eq = (nat_beq_iff r q).0 same in
        rw (at-insert r q (insert v true (at r vals)) vals, same)
          (subst
            (λ k.
              IsMap (insert v true (at r vals))
              × AllEntries (λ w _. IsAccepted cfg coin e a k w) (insert v true (at r vals)))
            eq
            (
              insert-IsMap v true (at r vals) (b r).0,
              AllEntries-insert (λ w _. IsAccepted cfg coin e a r w) v true (at r vals)
                  (λ j z. rw z h) (b r).1,
            ))
    | inr differ ↦ rw (at-insert r q (insert v true (at r vals)) vals, differ) (b q)
  ]

  accept_value-Line :
      (r v : ℕ) (s : State) → IsAccepted cfg coin e a r v → Line s → Line (accept_value r v s)
  unfolding accept_value
  accept_value-Line r v s h l = record {
    start = l.start;
    bin_entries = add_value-Bins r v s.bin_values h l.bin_entries;
    pairs = l.pairs;
    from = l.from;
    before = l.before;
    once = l.once;
  }

  pub handle_est-Line :
      (r v s : ℕ) (st : State)
      → s < cfg.n
      → e r v s ≡ true
      → Inv cfg coin e a st
      → Line st
      → Line (handle_est cfg r v s st)
  unfolding handle_est
  handle_est-Line r v s st l h i line =
      if_ind Line (leb (2 * cfg.t + 1) count) _ _
        (λ enough.
          accept_value-Line r v (if leb (cfg.t + 1) count then echo_est cfg r v st1 else st1)
            (ground (arith, quorum)) echoed)
        (λ few. echoed)
    where
      votes : Votes
      votes = handle_bcs r v s st.est_values

      count : ℕ
      count = length (voters r v votes)

      quorum : count ≤ count_below cfg.n (e r v)
      quorum =
          Counts-count cfg.n e votes r v (handle_bcs-Counts cfg.n e r v s st.est_values l h i.ests)

      st1 : State
      st1 = record st { est_values = votes }

      echoed : Line (if leb (cfg.t + 1) count then echo_est cfg r v st1 else st1)
      echoed =
          if_ind Line (leb (cfg.t + 1) count) _ _
            (λ enough. echo_est-Line r v st1 (ground (arith, quorum)) line) (λ _. line)

  -- A map of two entries has two keys.
  map-IsTwo :
      (r : ℕ) (m : List (ℕ × Bool))
      → IsMap m
      → AllEntries (λ v _. IsAccepted cfg coin e a r v) m
      → length m ≡ 2
      → IsTwo r
  map-IsTwo r [] k h p = absurd (omega arith)
  map-IsTwo r ((u, b) ∷ []) k h p = absurd (omega arith)
  map-IsTwo r ((u, b) ∷ (w, c) ∷ []) k h p = (u, w, (λ q. k.0.0 (sym q)), h.0, h.1.0)
  map-IsTwo r ((u, b) ∷ (w, c) ∷ x ∷ m) k h p = absurd (omega arith)

  notify_if-pairs :
      (b : Bool) (r : ℕ) (vs : List ℕ) (q : Queues)
      → (b ≡ true → IsPair r vs)
      → ((i : ℕ) → All (IsPair i) (at i q))
      → (i : ℕ) → All (IsPair i) (at i (notify_if b r vs q))
  unfolding notify_if
  notify_if-pairs b r vs q h k i =
      if_ind (λ x. All (IsPair i) (at i x)) b _ _ (λ p. enqueue-All IsPair r vs q (h p) k i)
        (λ p. k i)

  pub handle_aux-Line : (r v s : ℕ) (st : State) → Line st → Line (handle_aux cfg r v s st)
  unfolding handle_aux notify
  handle_aux-Line r v s st l = record {
    start = l.start;
    bin_entries = l.bin_entries;
    pairs =
        notify_if-pairs (both_values cfg r st1) r (0 ∷ 1 ∷ []) _
          (λ p.
            map-IsTwo r (at r st.bin_values) (l.bin_entries r).0 (l.bin_entries r).1
              (ground (arith, p)))
          (notify_if-pairs (one_value cfg r 1 st1) r (1 ∷ []) _ (λ _. tt)
            (notify_if-pairs (one_value cfg r 0 st1) r (0 ∷ []) st.notify_aux (λ _. tt) l.pairs));
    from = l.from;
    before = l.before;
    once = l.once;
  }
    where
      st1 : State
      st1 = record st { aux_values = handle_bcs r v s st.aux_values }
