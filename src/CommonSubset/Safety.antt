-- ===== src/CommonSubset/Safety.antt =====
-- The invariant through every schedule of a common subset, and what it says of commits and outputs.
use upgrade.Prelude.{
  ℕ, zero, suc, ◌≤◌, ◌≡◌, refl, sym, ◌∙◌, ap, subst, false, not, ◌&&◌, is_some, Option, none, some,
  List, [], ◌∷◌, lookup, get_or, length, ◌==◌, nat_eq, if_ind, Run, ok, panic, ◌>>=◌, Ensures,
  Ensures-ok, IsIn, Bytes, inl, inr, arith,
}
use upgrade.Crypto.{Crypto}
use upgrade.Block.{BlockShare}
use upgrade.CommonSubset.State.{
  Payload, signature_message, committee_message, Shares, Config, State, below, initial,
}
use upgrade.CommonSubset.Commits.{hash_values, Handled, handle_commit}
use upgrade.CommonSubset.Events.{
  Event, rbc_output, aba_start, aba_output, check, on_rbc_done, on_start_aba, on_acs_out, message,
  is_member, rbc_step, aba_start_step, add_to_s, aba_output_step, check_step, launch, launch_all,
  handle_message, finish_round, take_rbc_done, take_start_aba, take_acs_out, accept, handled,
  loop_step, unless_returned, step, run_from,
}
use upgrade.CommonSubset.Invariant.{
  count_commits, Certificate, view, running, output, Sound, IsSound,
}
use upgrade.CommonSubset.Invariant.Conditions.{event_handler-IsSound}
use upgrade.CommonSubset.Invariant.Handlers.{handle_message-IsSound}
use upgrade.CommonSubset.Invariant.Rounds.{finish_round-IsSound}

module _ ⦃c : Crypto⦄ (cfg : Config) where
  view-launch : (value i : ℕ) (st : State) → view cfg (launch cfg value i st) ≡ view cfg st
  unfolding launch
  view-launch value i st =
      if_ind (λ x. view cfg x ≡ view cfg st) (get_or (lookup i st.aba_running) false) _ _
        (λ _. refl) (λ _. refl)

  view-launch_all :
      (value : ℕ) (is : List ℕ) (st : State) → view cfg (launch_all cfg value is st) ≡ view cfg st
  unfolding launch_all
  view-launch_all value [] st = refl
  view-launch_all value (i ∷ is) st =
      view-launch_all value is (launch cfg value i st) ∙ view-launch value i st

  launched :
      (x st : State)
      → view cfg x ≡ view cfg st
      → st.returned ≡ false
      → IsSound cfg st
      → Ensures (IsSound cfg) (finish_round cfg x)
  launched x st e r h =
      finish_round-IsSound cfg x (ap (λ v. v.returned) e ∙ r) (subst (Sound cfg) (sym e) h)

  take_rbc_done-IsSound :
      (is : List ℕ) (st : State)
      → st.returned ≡ false
      → IsSound cfg st
      → Ensures (IsSound cfg) (take_rbc_done cfg is st)
  unfolding take_rbc_done
  take_rbc_done-IsSound [] st r h = h
  take_rbc_done-IsSound (i ∷ is) st r h =
      let rest = record st { rbc_done = is } in
      launched (launch cfg 1 i rest) rest (view-launch 1 i rest) r h

  take_start_aba-IsSound :
      (k : ℕ) (st : State)
      → st.returned ≡ false
      → IsSound cfg st
      → Ensures (IsSound cfg) (take_start_aba cfg k st)
  unfolding take_start_aba
  take_start_aba-IsSound zero st r h = h
  take_start_aba-IsSound (suc k) st r h =
      let rest = record st { start_aba = k } in
      launched (launch_all cfg 0 (below cfg.n) rest) rest (view-launch_all 0 (below cfg.n) rest) r h

  take_acs_out-IsSound :
      (out : List (List (Option BlockShare))) (st : State)
      → st.acs_out ≡ out
      → st.returned ≡ false
      → IsSound cfg st
      → Ensures (IsSound cfg) (take_acs_out cfg out st)
  unfolding take_acs_out
  take_acs_out-IsSound [] st e r h = h
  take_acs_out-IsSound (values ∷ rest) st e r h =
      finish_round-IsSound cfg (record st { acs_finished = values; acs_out = rest }) r
        (record {
          once = h.once;
          idle = λ f. absurd (ground (arith, (h.idle f).1, e));
          one_out = ground (arith, h.one_out, e);
          shares = h.shares;
          accepted = h.accepted;
          output = h.output;
        })

  accept-returned :
      (o : Option (Bytes × Bytes)) (ms : List Payload) (st : State)
      → (accept cfg o ms st).returned ≡ st.returned
  unfolding accept
  accept-returned none ms st = refl
  accept-returned (some (hash, signature)) ms st = refl

  -- Only the end of a round sets the flag of the return.
  handle_message-returned :
      (p : Payload) (st : State) → Ensures (λ x. x.returned ≡ st.returned) (handle_message cfg p st)
  unfolding handle_message handled
  handle_message-returned (signature_message m) st =
      if_ind (Ensures (λ x. x.returned ≡ st.returned))
        (is_some st.received_hash && not (length st.signature == 0)) _ _ (λ _. refl)
        (λ _. accept-returned _ _ st)
  handle_message-returned (committee_message m) st = go (handle_commit cfg m st.shares_received)
    where
      go :
          (r : Run (Handled × Shares))
          → Ensures
              (λ x. x.returned ≡ st.returned)
              (r >>= λ x. ok (handled cfg x.0 (record st { shares_received = x.1 })))
      go panic = tt
      go (ok (x, y)) = accept-returned x.result x.sent (record st { shares_received = y })

  handled_message :
      (p : Payload) (st : State)
      → st.returned ≡ false
      → IsSound cfg st
      → Ensures (IsSound cfg) (handle_message cfg p st >>= finish_round cfg)
  handled_message p st r h =
      go (handle_message cfg p st) (handle_message-IsSound cfg p st h)
        (handle_message-returned p st)
    where
      go :
          (x : Run State)
          → Ensures (IsSound cfg) x
          → Ensures (λ y. y.returned ≡ st.returned) x
          → Ensures (IsSound cfg) (x >>= finish_round cfg)
      go panic k q = tt
      go (ok y) k q = finish_round-IsSound cfg y (q ∙ r) k

  unless_returned-IsSound :
      (e : Event) (st : State) → IsSound cfg st → Ensures (IsSound cfg) (unless_returned cfg e st)
  unfolding loop_step
  unless_returned-IsSound e st h =
      if_ind (Ensures (IsSound cfg)) st.returned _ _ (λ _. h) (λ r. go e r)
    where
      go : (e : Event) → st.returned ≡ false → Ensures (IsSound cfg) (loop_step cfg e st)
      go on_rbc_done r = take_rbc_done-IsSound st.rbc_done st r h
      go on_start_aba r = take_start_aba-IsSound st.start_aba st r h
      go on_acs_out r = take_acs_out-IsSound st.acs_out st refl r h
      go (message p) r = handled_message p st r h
      go (rbc_output i v) r = h
      go (aba_start i) r = h
      go (aba_output i v) r = h
      go check r = h

  check_step-IsSound :
      (k : ℕ) (st : State) → IsSound cfg st → Ensures (IsSound cfg) (check_step cfg k st)
  unfolding check_step
  check_step-IsSound zero st h = h
  check_step-IsSound (suc k) st h = event_handler-IsSound cfg (record st { checks = k }) h

  view-aba_output :
      (i value : ℕ) (st : State) → view cfg (aba_output_step cfg i value st) ≡ view cfg st
  unfolding aba_output_step add_to_s
  view-aba_output i value st =
      if_ind (λ x. view cfg x ≡ view cfg st) (is_member i st.aba_waiting) _ _
        (λ _. if_ind (λ x. view cfg x ≡ view cfg st) (value == 1) _ _ (λ _. refl) (λ _. refl))
        (λ _. refl)

  step-IsSound : (e : Event) (st : State) → IsSound cfg st → Ensures (IsSound cfg) (step cfg e st)
  unfolding step rbc_step aba_start_step
  step-IsSound (rbc_output i v) st h =
      if_ind (IsSound cfg) (is_member i st.rbc_waiting) _ _ (λ _. h) (λ _. h)
  step-IsSound (aba_start i) st h =
      if_ind (IsSound cfg) (is_member i st.starting) _ _ (λ _. h) (λ _. h)
  step-IsSound (aba_output i value) st h = subst (Sound cfg) (sym (view-aba_output i value st)) h
  step-IsSound check st h = check_step-IsSound st.checks st h
  step-IsSound on_rbc_done st h = unless_returned-IsSound on_rbc_done st h
  step-IsSound on_start_aba st h = unless_returned-IsSound on_start_aba st h
  step-IsSound on_acs_out st h = unless_returned-IsSound on_acs_out st h
  step-IsSound (message p) st h = unless_returned-IsSound (message p) st h

  run_from-IsSound :
      (es : List Event) (r : Run State)
      → Ensures (IsSound cfg) r
      → Ensures (IsSound cfg) (r >>= run_from cfg es)
  unfolding run_from
  run_from-IsSound es panic h = tt
  run_from-IsSound [] (ok st) h = h
  run_from-IsSound (e ∷ es) (ok st) h = run_from-IsSound es (step cfg e st) (step-IsSound e st h)

  initial-IsSound : IsSound cfg (initial cfg)
  unfolding initial count_commits
  initial-IsSound = record {
    once = omega arith;
    idle = λ _. (refl, refl, refl);
    one_out = omega arith;
    shares = tt;
    accepted = inl refl;
    output = running refl refl;
  }

  -- However the steps are interleaved, a node multicasts at most one commit message.
  pub commits_once :
      (es : List Event) {st : State}
      → run_from cfg es (initial cfg) ≡ ok st
      → count_commits st.sent ≤ 1
  commits_once es {st} e =
      (Ensures-ok (IsSound cfg) (run_from cfg es (initial cfg)) st
        (run_from-IsSound es (ok (initial cfg)) initial-IsSound) e).once

  -- However the steps are interleaved, a node outputs at most once, and each list that it outputs
  -- hashes to a value for which the node has multicast a signature: one that verifies under the
  -- committee's key, or one joined from more than `tk` valid shares of committee members on that
  -- hash.
  pub outputs_certified :
      (es : List Event) {st : State} {values : List (Option BlockShare)}
      → run_from cfg es (initial cfg) ≡ ok st
      → IsIn values st.out
      → (st.out ≡ values ∷ [])
        × ((hash : Bytes) × (signature : Bytes) × (hash_values values ≡ ok hash)
            × Certificate cfg hash signature
            × IsIn
                (signature_message (record { sender = cfg.node_id; hash = hash; sig = signature }))
                st.sent)
  outputs_certified es {st} {values} e i = elim sound.output [
    | running r o ↦ absurd (subst (IsIn values) o i)
    | output found hash signature r o h a ↦ elim (subst (IsIn values) o i) [
      | inl same ↦
          (o ∙ ap (λ v. v ∷ []) (sym same), (hash, signature, ap hash_values same ∙ h, a.0, a.1))
      | inr none_left ↦ absurd none_left
    ]
  ]
    where
      sound : IsSound cfg st
      sound =
          Ensures-ok (IsSound cfg) (run_from cfg es (initial cfg)) st
            (run_from-IsSound es (ok (initial cfg)) initial-IsSound) e
