-- ===== src/BinaryAgreement/Stall.antt =====
-- When the main loop waits for AUX values: only the receipt of an AUX message looks at the counts,
-- so a value that is accepted after the last AUX message has come is never announced.
use upgrade.Prelude.{
  ℕ, ◌≡◌, refl, sym, ap, subst, ◌∙◌, if◌then◌else◌, nat_eq, not, List, [], ◌∷◌, All, if_ind, leb,
  length, ◌+◌, ◌*◌, ◌≢◌,
}
use upgrade.BinaryAgreement.{
  Status, est, aux, other, AbaMessage, at, voters, has, handle_bcs, wait_aux, Config, State,
  echo_est, accept_value, handle_est, dispatch, handle, take_aux, resume, advance, Event, receives,
  advances, step, run_from,
}

module _ (cfg : Config) (coin : ℕ → ℕ) where
  abbrev pub IsNoAux : Event → Type 0
  IsNoAux (receives m) = m.status ≢ aux
  IsNoAux advances = Unit

  -- The loop waits for AUX values in round `r` and the channel of that round is empty.
  pub record IsStuck (r : ℕ) (s : State) : Type 0 where
    pub round : s.round ≡ r
    pub phase : s.phase ≡ wait_aux
    pub queue : at r s.notify_aux ≡ []

  echo_est-IsStuck : (q v r : ℕ) (s : State) → IsStuck r s → IsStuck r (echo_est cfg q v s)
  unfolding echo_est
  echo_est-IsStuck q v r s h =
      if_ind (IsStuck r) (not (has q v s.est_echoes)) _ _
        (λ _. record { round = h.round; phase = h.phase; queue = h.queue }) (λ _. h)

  accept_value-IsStuck : (q v r : ℕ) (s : State) → IsStuck r s → IsStuck r (accept_value q v s)
  unfolding accept_value
  accept_value-IsStuck q v r s h = record { round = h.round; phase = h.phase; queue = h.queue }

  handle_est-IsStuck : (q v i r : ℕ) (s : State) → IsStuck r s → IsStuck r (handle_est cfg q v i s)
  unfolding handle_est
  handle_est-IsStuck q v i r s h =
      if_ind (IsStuck r) (leb (2 * cfg.t + 1) count) _ _ (λ _. accept_value-IsStuck q v r _ echoed)
        (λ _. echoed)
    where
      count : ℕ
      count = length (voters q v (handle_bcs q v i s.est_values))

      st1 : State
      st1 = record s { est_values = handle_bcs q v i s.est_values }

      h1 : IsStuck r st1
      h1 = record { round = h.round; phase = h.phase; queue = h.queue }

      echoed : IsStuck r (if leb (cfg.t + 1) count then echo_est cfg q v st1 else st1)
      echoed =
          if_ind (IsStuck r) (leb (cfg.t + 1) count) _ _ (λ _. echo_est-IsStuck q v r st1 h1)
            (λ _. h1)

  dispatch-IsStuck :
      (st : Status) (m : AbaMessage) (r : ℕ) (s : State)
      → st ≢ aux
      → IsStuck r s
      → IsStuck r (dispatch cfg st m s)
  unfolding dispatch
  dispatch-IsStuck est m r s n h = handle_est-IsStuck m.round m.value m.sender r s h
  dispatch-IsStuck aux m r s n h = absurd (n refl)
  dispatch-IsStuck other m r s n h = h

  advance-IsStuck : (r : ℕ) (s : State) → IsStuck r s → IsStuck r (advance cfg coin s)
  unfolding advance resume take_aux
  advance-IsStuck r s h = subst (λ (x : State). IsStuck r x) (sym blocked) h
    where
      blocked : resume cfg s.phase (coin s.round) s ≡ s
      blocked =
          ap (λ p. resume cfg p (coin s.round) s) h.phase
          ∙ ap (λ q. take_aux cfg q (coin s.round) s)
              (subst (λ k. at k s.notify_aux ≡ []) (sym h.round) h.queue)

  -- A node that waits for AUX values with an empty channel stays where it is, whatever EST messages
  -- still come and however many values they make it accept, until another AUX message comes.
  pub run_from-IsStuck :
      (r : ℕ) (s : State) (es : List Event)
      → All IsNoAux es
      → IsStuck r s
      → IsStuck r (run_from cfg coin s es)
  unfolding run_from step handle
  run_from-IsStuck r s [] n h = h
  run_from-IsStuck r s (receives m ∷ es) n h =
      dispatch-IsStuck m.status m r _ n.0 (run_from-IsStuck r s es n.1 h)
  run_from-IsStuck r s (advances ∷ es) n h = advance-IsStuck r _ (run_from-IsStuck r s es n.1 h)
