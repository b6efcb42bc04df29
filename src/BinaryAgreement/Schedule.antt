-- ===== src/BinaryAgreement/Schedule.antt =====
-- The invariant over schedules, against the messages that were received.
use upgrade.Prelude.{
  ℕ, ◌<◌, ◌≡◌, refl, Bool, true, false, ◌&&◌, ◌||◌, List, [], ◌∷◌, All-map, count_below_mono, ◌==◌,
  nat_eq, arith,
}
use upgrade.BinaryAgreement.Votes.{Counts-mono}
use upgrade.BinaryAgreement.Invariant.{
  IsAccepted, IsAcceptedEntry, IsAnnounced, IsDecision, IsBacked, Inv, handle_est-Inv,
  handle_aux-Inv,
}
use upgrade.BinaryAgreement.{
  Status, est, aux, other, AbaMessage, Config, State, dispatch, handle, Event, receives, advances,
  step, run_from, run,
}
use upgrade.BinaryAgreement.Rounds.{advance-Inv, initial-Inv}

abbrev pub status_beq : Status → Status → Bool
status_beq est est = true
status_beq aux aux = true
status_beq other other = true
status_beq _ _ = false

-- The event is the receipt of such a message.
abbrev pub says : Status → ℕ → ℕ → ℕ → Event → Bool
says st r v i (receives m) =
    (status_beq m.status st && (m.round == r)) && ((m.value == v) && (m.sender == i))
says st r v i advances = false

-- Some event of the schedule is.
unfoldable pub heard : Status → ℕ → ℕ → ℕ → List Event → Bool
heard st r v i [] = false
heard st r v i (x ∷ es) = says st r v i x || heard st r v i es

module _ (cfg : Config) (coin : ℕ → ℕ) where
  -- The claimed senders are nodes.
  abbrev pub AreNodes : List Event → Type 0
  AreNodes [] = Unit
  AreNodes (receives m ∷ es) = (m.sender < cfg.n) × AreNodes es
  AreNodes (advances ∷ es) = AreNodes es

  abbrev pub heard_est : List Event → ℕ → ℕ → ℕ → Bool
  heard_est es r v i = heard est r v i es

  abbrev pub heard_aux : List Event → ℕ → ℕ → ℕ → Bool
  heard_aux es r v i = heard aux r v i es

  abbrev pub ScheduleInv : List Event → State → Type 0
  ScheduleInv es = Inv cfg coin (heard_est es) (heard_aux es)

  pub heard-cons :
      (st : Status) (x : Event) (es : List Event) (r v i : ℕ)
      → heard st r v i es ≡ true
      → heard st r v i (x ∷ es) ≡ true
  unfolding heard
  heard-cons st x es r v i h = ground arith

  pub heard_self :
      (st : Status) (m : AbaMessage) (es : List Event)
      → m.status ≡ st
      → heard st m.round m.value m.sender (receives m ∷ es) ≡ true
  unfolding heard
  heard_self est m es q = ground arith
  heard_self aux m es q = ground arith
  heard_self other m es q = ground arith

  module _ (e a e' a' : ℕ → ℕ → ℕ → Bool) (he : (r v i : ℕ) → e r v i ≡ true → e' r v i ≡ true)
      (ha : (r v i : ℕ) → a r v i ≡ true → a' r v i ≡ true) where
    IsAnnounced-mono :
        (r : ℕ) (vs : List ℕ) → IsAnnounced cfg coin e a r vs → IsAnnounced cfg coin e' a' r vs
    IsAnnounced-mono r [] h = absurd h
    IsAnnounced-mono r (v ∷ []) h = omega (
      arith,
      h,
      count_below_mono cfg.n (e r v) (e' r v) (λ i _. he r v i),
      count_below_mono cfg.n (a r v) (a' r v) (λ i _. ha r v i),
    )
    IsAnnounced-mono r (v ∷ w ∷ vs) h = omega (
      arith,
      h,
      count_below_mono cfg.n (a r 0) (a' r 0) (λ i _. ha r 0 i),
      count_below_mono cfg.n (a r 1) (a' r 1) (λ i _. ha r 1 i),
    )

    IsAccepted-mono : (r v : ℕ) → IsAccepted cfg coin e a r v → IsAccepted cfg coin e' a' r v
    IsAccepted-mono r v h =
        omega (arith, h, count_below_mono cfg.n (e r v) (e' r v) (λ i _. he r v i))

    IsAcceptedEntry-mono :
        (r : ℕ) (vs : List ℕ)
        → IsAcceptedEntry cfg coin e a r vs
        → IsAcceptedEntry cfg coin e' a' r vs
    IsAcceptedEntry-mono r [] h = absurd h
    IsAcceptedEntry-mono r (v ∷ []) h = IsAccepted-mono r v h
    IsAcceptedEntry-mono r (v ∷ w ∷ vs) h = absurd h

    pub Inv-mono : (s : State) → Inv cfg coin e a s → Inv cfg coin e' a' s
    Inv-mono s i = record {
      ests = Counts-mono cfg.n e e' s.est_values he i.ests;
      auxs = Counts-mono cfg.n a a' s.aux_values ha i.auxs;
      bins = λ r v x. IsAccepted-mono r v (i.bins r v x);
      est_queue = λ r.
          All-map _ (IsAcceptedEntry cfg coin e' a' r) (IsAcceptedEntry-mono r) _ (i.est_queue r);
      aux_queue =
          λ r. All-map _ (IsAnnounced cfg coin e' a' r) (IsAnnounced-mono r) _ (i.aux_queue r);
      backed =
          All-map _ (λ x. IsBacked cfg coin e' a' x.message.payload)
            (λ x b q. IsAccepted-mono x.message.payload.round x.message.payload.value (b q)) _
            i.backed;
      decided =
          All-map _ (IsDecision cfg coin e' a')
            (λ d h. let m = IsAnnounced-mono h.0 (d ∷ []) (h.2, h.3) in (h.0, h.1, m.0, m.1)) _
            i.decided;
      once = i.once;
    }

  dispatch-Inv :
      (e a : ℕ → ℕ → ℕ → Bool) (st : Status) (m : AbaMessage) (s : State)
      → m.sender < cfg.n
      → (st ≡ est → e m.round m.value m.sender ≡ true)
      → (st ≡ aux → a m.round m.value m.sender ≡ true)
      → Inv cfg coin e a s
      → Inv cfg coin e a (dispatch cfg st m s)
  unfolding dispatch
  dispatch-Inv e a est m s l he ha i = handle_est-Inv cfg coin e a _ _ _ s l (he refl) i
  dispatch-Inv e a aux m s l he ha i = handle_aux-Inv cfg coin e a _ _ _ s l (ha refl) i
  dispatch-Inv e a other m s l he ha i = i

  -- Every schedule of messages from nodes keeps the invariant.
  pub run-ScheduleInv : (es : List Event) → AreNodes es → ScheduleInv es (run cfg coin es)
  unfolding run run_from step handle
  run-ScheduleInv [] h = initial-Inv cfg coin (heard_est []) (heard_aux [])
  run-ScheduleInv (receives m ∷ es) h =
      dispatch-Inv (heard_est (receives m ∷ es)) (heard_aux (receives m ∷ es)) m.status m
        (run cfg coin es) h.0 (heard_self est m es) (heard_self aux m es)
        (Inv-mono (heard_est es) (heard_aux es) (heard_est (receives m ∷ es))
          (heard_aux (receives m ∷ es)) (heard-cons est (receives m) es)
          (heard-cons aux (receives m) es) (run cfg coin es) (run-ScheduleInv es h.1))
  run-ScheduleInv (advances ∷ es) h =
      advance-Inv cfg coin (heard_est (advances ∷ es)) (heard_aux (advances ∷ es)) (run cfg coin es)
        (Inv-mono (heard_est es) (heard_aux es) (heard_est (advances ∷ es))
          (heard_aux (advances ∷ es)) (heard-cons est advances es) (heard-cons aux advances es)
          (run cfg coin es) (run-ScheduleInv es h))
