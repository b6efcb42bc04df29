-- ===== src/BinaryAgreement/Lineage/Rounds.antt =====
-- The main loop keeps what is known of where messages come from.
use upgrade.Prelude.{
  ℕ, ◌+◌, ◌≡◌, refl, subst, inl, inr, Bool, not, List, [], ◌∷◌, All, All-append, All-map, lookup,
  insert, ◌==◌, nat_eq, if_ind, arith,
}
use upgrade.BinaryAgreement.Votes.{dequeue-All}
use upgrade.BinaryAgreement.Invariant.{IsAnnounced, Inv}
use upgrade.BinaryAgreement.{
  at, has, add_value, Phase, wait_est, wait_aux, returned, Config, State, send_est, send_aux,
  begin_round, blank, initial, take_est, decide, take_aux, resume, advance,
}
use upgrade.BinaryAgreement.Lineage.{
  limit, IsBefore, IsOnce, IsOnce-snoc, IsStart, IsFrom, IsPair, Bins, Lineage, Line,
  multicast_est-Line,
}

module _ (cfg : Config) (coin : ℕ → ℕ) (e a : ℕ → ℕ → ℕ → Bool) where
  -- A round starts with a value that it may start with.
  begin_round-Line :
      (s : State)
      → IsStart cfg coin e a s.round s.est
      → Bins cfg coin e a s.bin_values
      → ((i : ℕ) → All (IsPair cfg coin e a i) (at i s.notify_aux))
      → All (λ x. IsFrom cfg coin e a x.message.payload) s.sent
      → All (IsBefore s.round) s.sent
      → IsOnce s.sent
      → Line cfg coin e a (begin_round cfg s)
  unfolding begin_round send_est
  begin_round-Line s start bins pairs from before once =
      if_ind (λ x. Line cfg coin e a (record x { phase = wait_est }))
        (not (has s.round s.est s.est_sent)) _ _
        (λ _.
          multicast_est-Line cfg coin e a s.round s.est
            (record s { est_sent = add_value s.round s.est s.est_sent; phase = wait_est })
            (inr start) line)
        (λ _. line)
    where
      line : Lineage cfg coin e a s.round s.est wait_est s.bin_values s.notify_aux s.sent
      line = record {
        start = start;
        bin_entries = bins;
        pairs = pairs;
        from = from;
        before = before;
        once = once;
      }

  take_est-Line :
      (q : List (List ℕ)) (s : State)
      → s.phase ≡ wait_est
      → Line cfg coin e a s
      → Line cfg coin e a (take_est cfg q s)
  unfolding take_est send_aux
  take_est-Line [] s p l = l
  take_est-Line ([] ∷ q) s p l = l
  take_est-Line ((v ∷ vs) ∷ q) s p l =
      let old : All (IsBefore s.round) s.sent =
        subst (λ ph. All (IsBefore (limit ph s.round)) s.sent) p l.before in
      record {
        start = l.start;
        bin_entries = l.bin_entries;
        pairs = l.pairs;
        from =
            All-append (λ x. IsFrom cfg coin e a x.message.payload) s.sent _ l.from
              ((λ q. absurd (cc q)), tt);
        before =
            All-append (IsBefore (s.round + 1)) s.sent _
              (All-map (IsBefore s.round) (IsBefore (s.round + 1)) (λ x b q. omega (arith, b q))
                s.sent old)
              ((λ _. omega arith), tt);
        once = IsOnce-snoc s.round _ s.sent old (λ _. omega arith) l.once;
      }

  decide-Line :
      (values : List ℕ) (s : State)
      → IsAnnounced cfg coin e a s.round values
      → IsPair cfg coin e a s.round values
      → s.phase ≡ wait_aux
      → Line cfg coin e a s
      → Line cfg coin e a (decide cfg values (coin s.round) s)
  unfolding decide
  decide-Line [] s h k p l = absurd h
  decide-Line (v ∷ []) s h k p l =
      if_ind (Line cfg coin e a) (v == coin s.round) _ _
        (λ same. record {
          start = l.start;
          bin_entries = l.bin_entries;
          pairs = l.pairs;
          from = l.from;
          before = subst (λ ph. All (IsBefore (limit ph s.round)) s.sent) p l.before;
          once = l.once;
        })
        (λ differ.
          begin_round-Line (record s { est = v; round = s.round + 1 }) (inr (s.round, refl, inl h))
            l.bin_entries l.pairs l.from
            (subst (λ ph. All (IsBefore (limit ph s.round)) s.sent) p l.before) l.once)
  decide-Line (v ∷ w ∷ vs) s h k p l =
      begin_round-Line (record s { est = coin s.round; round = s.round + 1 })
        (inr (s.round, refl, inr (refl, k))) l.bin_entries l.pairs l.from
        (subst (λ ph. All (IsBefore (limit ph s.round)) s.sent) p l.before) l.once

  take_aux-Line :
      (q : List (List ℕ)) (s : State)
      → All (IsAnnounced cfg coin e a s.round) q
      → All (IsPair cfg coin e a s.round) q
      → s.phase ≡ wait_aux
      → Line cfg coin e a s
      → Line cfg coin e a (take_aux cfg q (coin s.round) s)
  unfolding take_aux
  take_aux-Line [] s h k p l = l
  take_aux-Line (values ∷ q) s h k p l =
      decide-Line values (record s { notify_aux = insert s.round q s.notify_aux }) h.0 k.0 p
        (record {
          start = l.start;
          bin_entries = l.bin_entries;
          pairs = dequeue-All (IsPair cfg coin e a) s.round q s.notify_aux k.1 l.pairs;
          from = l.from;
          before = l.before;
          once = l.once;
        })

  resume-Line :
      (ph : Phase) (s : State)
      → s.phase ≡ ph
      → Inv cfg coin e a s
      → Line cfg coin e a s
      → Line cfg coin e a (resume cfg ph (coin s.round) s)
  unfolding resume
  resume-Line wait_est s p i l = take_est-Line (at s.round s.notify_est) s p l
  resume-Line wait_aux s p i l =
      take_aux-Line (at s.round s.notify_aux) s (i.aux_queue s.round) (l.pairs s.round) p l
  resume-Line returned s p i l = l

  pub advance-Line :
      (s : State)
      → Inv cfg coin e a s
      → Line cfg coin e a s
      → Line cfg coin e a (advance cfg coin s)
  unfolding advance
  advance-Line s i l = resume-Line s.phase s refl i l

  pub initial-Line : Line cfg coin e a (initial cfg)
  unfolding initial lookup
  initial-Line =
      begin_round-Line (blank cfg) (inl (refl, refl)) (λ r. (tt, tt)) (λ i. tt) tt tt
        (λ x y i. absurd i)
