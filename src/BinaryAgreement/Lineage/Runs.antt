-- ===== src/BinaryAgreement/Lineage/Runs.antt =====
-- Every schedule keeps what is known of where messages come from.
use upgrade.Prelude.{
  ℕ, ◌<◌, ◌≤◌, ◌≡◌, refl, inl, inr, Bool, true, List, [], ◌∷◌, All-map, count_below,
  count_below_mono, AllEntries-map, nat_eq, arith,
}
use upgrade.BinaryAgreement.Invariant.{IsAccepted, Inv}
use upgrade.BinaryAgreement.{
  est, aux, AbaMessage, at, Config, State, Status, other, dispatch, handle, Event, receives,
  advances, step, run_from, run,
}
use upgrade.BinaryAgreement.Lineage.{
  IsTwo, IsStart, IsFrom, IsPair, Line, handle_est-Line, handle_aux-Line,
}
use upgrade.BinaryAgreement.Lineage.Rounds.{advance-Line, initial-Line}
use upgrade.BinaryAgreement.Schedule.{
  AreNodes, heard_est, heard_aux, heard-cons, heard_self, Inv-mono, run-ScheduleInv,
}

module _ (cfg : Config) (coin : ℕ → ℕ) (e a e' a' : ℕ → ℕ → ℕ → Bool)
    (he : (r v i : ℕ) → e r v i ≡ true → e' r v i ≡ true)
    (ha : (r v i : ℕ) → a r v i ≡ true → a' r v i ≡ true) where
  more_ests : (r v : ℕ) → count_below cfg.n (e r v) ≤ count_below cfg.n (e' r v)
  more_ests r v = count_below_mono cfg.n (e r v) (e' r v) (λ i _. he r v i)

  more_auxs : (r v : ℕ) → count_below cfg.n (a r v) ≤ count_below cfg.n (a' r v)
  more_auxs r v = count_below_mono cfg.n (a r v) (a' r v) (λ i _. ha r v i)

  IsTwo-mono : (q : ℕ) → IsTwo cfg coin e a q → IsTwo cfg coin e' a' q
  IsTwo-mono q (u, w, ne, hu, hw) =
      (u, w, ne, omega (arith, hu, more_ests q u), omega (arith, hw, more_ests q w))

  IsStart-mono : (r w : ℕ) → IsStart cfg coin e a r w → IsStart cfg coin e' a' r w
  IsStart-mono r w (inl own) = inl own
  IsStart-mono r w (inr (q, next, inl (x, y))) =
      inr (q, next, inl (omega (arith, x, more_ests q w), omega (arith, y, more_auxs q w)))
  IsStart-mono r w (inr (q, next, inr (x, two))) = inr (q, next, inr (x, IsTwo-mono q two))

  IsFrom-mono : (m : AbaMessage) → IsFrom cfg coin e a m → IsFrom cfg coin e' a' m
  IsFrom-mono m h p = elim (h p) [
    | inl x ↦ inl (omega (arith, x, more_ests m.round m.value))
    | inr x ↦ inr (IsStart-mono m.round m.value x)
  ]

  IsPair-mono : (r : ℕ) (vs : List ℕ) → IsPair cfg coin e a r vs → IsPair cfg coin e' a' r vs
  IsPair-mono r [] h = tt
  IsPair-mono r (v ∷ []) h = tt
  IsPair-mono r (v ∷ w ∷ vs) h = IsTwo-mono r h

  pub Line-mono : (s : State) → Line cfg coin e a s → Line cfg coin e' a' s
  Line-mono s l = record {
    start = IsStart-mono s.round s.est l.start;
    bin_entries = λ r. (
      (l.bin_entries r).0,
      AllEntries-map (λ v _. IsAccepted cfg coin e a r v) (λ v _. IsAccepted cfg coin e' a' r v)
          (λ v _ h. omega (arith, h, more_ests r v)) (at r s.bin_values) (l.bin_entries r).1,
    );
    pairs = λ r. All-map _ (IsPair cfg coin e' a' r) (IsPair-mono r) _ (l.pairs r);
    from =
        All-map _ (λ x. IsFrom cfg coin e' a' x.message.payload)
          (λ x. IsFrom-mono x.message.payload) _ l.from;
    before = l.before;
    once = l.once;
  }

module _ (cfg : Config) (coin : ℕ → ℕ) where
  dispatch-Line :
      (e a : ℕ → ℕ → ℕ → Bool) (st : Status) (m : AbaMessage) (s : State)
      → m.sender < cfg.n
      → (st ≡ est → e m.round m.value m.sender ≡ true)
      → Inv cfg coin e a s
      → Line cfg coin e a s
      → Line cfg coin e a (dispatch cfg st m s)
  unfolding dispatch
  dispatch-Line e a est m s l he i line = handle_est-Line cfg coin e a _ _ _ s l (he refl) i line
  dispatch-Line e a aux m s l he i line = handle_aux-Line cfg coin e a _ _ _ s line
  dispatch-Line e a other m s l he i line = line

  pub run-Line :
      (es : List Event)
      → AreNodes cfg coin es
      → Line cfg coin (heard_est cfg coin es) (heard_aux cfg coin es) (run cfg coin es)
  unfolding run run_from step handle
  run-Line [] h = initial-Line cfg coin (heard_est cfg coin []) (heard_aux cfg coin [])
  run-Line (receives m ∷ es) h =
      let e = heard_est cfg coin (receives m ∷ es) in
      let a = heard_aux cfg coin (receives m ∷ es) in
      let he = heard-cons cfg coin est (receives m) es in
      let ha = heard-cons cfg coin aux (receives m) es in
      dispatch-Line e a m.status m (run cfg coin es) h.0 (heard_self cfg coin est m es)
        (Inv-mono cfg coin (heard_est cfg coin es) (heard_aux cfg coin es) e a he ha
          (run cfg coin es) (run-ScheduleInv cfg coin es h.1))
        (Line-mono cfg coin (heard_est cfg coin es) (heard_aux cfg coin es) e a he ha
          (run cfg coin es) (run-Line es h.1))
  run-Line (advances ∷ es) h =
      let e = heard_est cfg coin (advances ∷ es) in
      let a = heard_aux cfg coin (advances ∷ es) in
      let he = heard-cons cfg coin est advances es in
      let ha = heard-cons cfg coin aux advances es in
      advance-Line cfg coin e a (run cfg coin es)
        (Inv-mono cfg coin (heard_est cfg coin es) (heard_aux cfg coin es) e a he ha
          (run cfg coin es) (run-ScheduleInv cfg coin es h))
        (Line-mono cfg coin (heard_est cfg coin es) (heard_aux cfg coin es) e a he ha
          (run cfg coin es) (run-Line es h))
