-- ===== src/BinaryAgreement/Rounds.antt =====
-- The main loop keeps the invariant, and so does every schedule.
use mathlib.Core.Bool.{false≢true}
use upgrade.Prelude.{
  ℕ, ◌+◌, ◌≡◌, refl, ◌∙◌, Bool, not, List, [], ◌∷◌, All, All-append, lookup, length, ◌==◌, nat_eq,
  nat_beq_iff, if_ind, subst, arith, insert,
}
use upgrade.BinaryAgreement.Votes.{Counts-empty, dequeue-All}
use upgrade.BinaryAgreement.Invariant.{
  outputs, IsAcceptedEntry, IsAnnounced, IsDecision, Inv, multicast-Inv,
}
use upgrade.BinaryAgreement.{
  est, aux, at, has, add_value, Phase, wait_est, wait_aux, returned, Config, State, message_of,
  send_est, send_aux, begin_round, blank, initial, take_est, decide, take_aux, resume, advance,
}

module _ (cfg : Config) (coin : ℕ → ℕ) (e a : ℕ → ℕ → ℕ → Bool) where
  send_est-Inv : (r v : ℕ) (s : State) → Inv cfg coin e a s → Inv cfg coin e a (send_est cfg r v s)
  unfolding send_est
  send_est-Inv r v s i =
      if_ind (Inv cfg coin e a) (not (has r v s.est_sent)) _ _
        (λ _.
          multicast-Inv cfg coin e a (message_of cfg est r v)
            (record s { est_sent = add_value r v s.est_sent }) (λ x. absurd (cc x))
            (record {
              ests = i.ests;
              auxs = i.auxs;
              bins = i.bins;
              est_queue = i.est_queue;
              aux_queue = i.aux_queue;
              backed = i.backed;
              decided = i.decided;
              once = i.once;
            }))
        (λ _. i)

  send_est-out : (r v : ℕ) (s : State) → (send_est cfg r v s).out ≡ s.out
  unfolding send_est
  send_est-out r v s = ground arith

  -- A new round starts from a state that has no output.
  begin_round-Inv :
      (s : State) → s.out ≡ [] → Inv cfg coin e a s → Inv cfg coin e a (begin_round cfg s)
  unfolding begin_round
  begin_round-Inv s none_yet i =
      let j = send_est-Inv s.round s.est s i in
      record {
        ests = j.ests;
        auxs = j.auxs;
        bins = j.bins;
        est_queue = j.est_queue;
        aux_queue = j.aux_queue;
        backed = j.backed;
        decided = j.decided;
        once = ground (arith, send_est-out s.round s.est s);
      }

  no_output : (s : State) → outputs s.phase ≡ 0 → Inv cfg coin e a s → s.out ≡ []
  no_output s p i = empty s.out (i.once ∙ p)
    where
      empty : (xs : List ℕ) → length xs ≡ 0 → xs ≡ []
      empty [] h = refl
      empty (x ∷ xs) h = absurd (omega arith)

  take_est-Inv :
      (q : List (List ℕ)) (s : State)
      → All (IsAcceptedEntry cfg coin e a s.round) q
      → outputs s.phase ≡ 0
      → Inv cfg coin e a s
      → Inv cfg coin e a (take_est cfg q s)
  unfolding take_est send_aux
  take_est-Inv [] s h p i = i
  take_est-Inv ([] ∷ q) s h p i = i
  take_est-Inv ((v ∷ w ∷ vs) ∷ q) s h p i = absurd h.0
  take_est-Inv ((v ∷ []) ∷ q) s h p i =
      let j = multicast-Inv cfg coin e a (message_of cfg aux s.round v) s (λ _. h.0) i in
      record {
        ests = j.ests;
        auxs = j.auxs;
        bins = j.bins;
        est_queue =
            dequeue-All (IsAcceptedEntry cfg coin e a) s.round q s.notify_est h.1 i.est_queue;
        aux_queue = j.aux_queue;
        backed = j.backed;
        decided = j.decided;
        once = i.once ∙ p;
      }

  decide-Inv :
      (values : List ℕ) (s : State)
      → IsAnnounced cfg coin e a s.round values
      → outputs s.phase ≡ 0
      → Inv cfg coin e a s
      → Inv cfg coin e a (decide cfg values (coin s.round) s)
  unfolding decide
  decide-Inv [] s h p i = absurd h
  decide-Inv (v ∷ []) s h p i =
      if_ind (Inv cfg coin e a) (v == coin s.round) _ _
        (λ same.
          let q = (nat_beq_iff v (coin s.round)).0 same in
          record {
            ests = i.ests;
            auxs = i.auxs;
            bins = i.bins;
            est_queue = i.est_queue;
            aux_queue = i.aux_queue;
            backed = i.backed;
            decided =
                All-append (IsDecision cfg coin e a) s.out _ i.decided
                  (subst (IsDecision cfg coin e a) q (s.round, cc q, h.0, h.1), tt);
            once = ground (arith, no_output s p i);
          })
        (λ _.
          begin_round-Inv (record s { est = v; round = s.round + 1 }) (no_output s p i)
            (record {
              ests = i.ests;
              auxs = i.auxs;
              bins = i.bins;
              est_queue = i.est_queue;
              aux_queue = i.aux_queue;
              backed = i.backed;
              decided = i.decided;
              once = i.once;
            }))
  decide-Inv (v ∷ w ∷ vs) s h p i =
      begin_round-Inv (record s { est = coin s.round; round = s.round + 1 }) (no_output s p i)
        (record {
          ests = i.ests;
          auxs = i.auxs;
          bins = i.bins;
          est_queue = i.est_queue;
          aux_queue = i.aux_queue;
          backed = i.backed;
          decided = i.decided;
          once = i.once;
        })

  take_aux-Inv :
      (q : List (List ℕ)) (s : State)
      → All (IsAnnounced cfg coin e a s.round) q
      → outputs s.phase ≡ 0
      → Inv cfg coin e a s
      → Inv cfg coin e a (take_aux cfg q (coin s.round) s)
  unfolding take_aux
  take_aux-Inv [] s h p i = i
  take_aux-Inv (values ∷ q) s h p i =
      decide-Inv values (record s { notify_aux = insert s.round q s.notify_aux }) h.0 p
        (record {
          ests = i.ests;
          auxs = i.auxs;
          bins = i.bins;
          est_queue = i.est_queue;
          aux_queue = dequeue-All (IsAnnounced cfg coin e a) s.round q s.notify_aux h.1 i.aux_queue;
          backed = i.backed;
          decided = i.decided;
          once = i.once;
        })

  resume-Inv :
      (ph : Phase) (s : State)
      → s.phase ≡ ph
      → Inv cfg coin e a s
      → Inv cfg coin e a (resume cfg ph (coin s.round) s)
  unfolding resume
  resume-Inv wait_est s p i =
      take_est-Inv (at s.round s.notify_est) s (i.est_queue s.round) (rw p) i
  resume-Inv wait_aux s p i =
      take_aux-Inv (at s.round s.notify_aux) s (i.aux_queue s.round) (rw p) i
  resume-Inv returned s p i = i

  pub advance-Inv : (s : State) → Inv cfg coin e a s → Inv cfg coin e a (advance cfg coin s)
  unfolding advance
  advance-Inv s i = resume-Inv s.phase s refl i

  pub initial-Inv : Inv cfg coin e a (initial cfg)
  unfolding initial lookup
  initial-Inv = begin_round-Inv (blank cfg) refl (record {
    ests = Counts-empty cfg.n e;
    auxs = Counts-empty cfg.n a;
    bins = λ r v x. absurd (false≢true x);
    est_queue = λ r. tt;
    aux_queue = λ r. tt;
    backed = tt;
    decided = tt;
    once = refl;
  })
