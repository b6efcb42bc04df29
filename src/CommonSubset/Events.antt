-- ===== src/CommonSubset/Events.antt =====
-- commonsubset/commonsubset.go: `eventHandler`, and `Run` with its goroutines as steps. A step is
-- what runs without letting go of the lock, or one round of the main loop; a schedule is a list of
-- them. A step whose goroutine is not there, or whose channel is empty, changes nothing.
use upgrade.Prelude.{
  ℕ, zero, suc, ◌-◌, Bytes, Bool, true, false, not, ◌&&◌, Option, none, some, List, [], ◌∷◌, ◌++◌,
  lookup, insert, get_or, is_some, length, leb, ◌==◌, nat_eq, if◌then◌else◌, Run, ok, ◌>>=◌,
}
use upgrade.Crypto.{Crypto}
use upgrade.Block.{BlockShare}
use upgrade.CommonSubset.State.{Payload, signature_message, committee_message, Config, State, below}
use upgrade.CommonSubset.Conditions.{c_one, c_two, c_three, outputs_at}
use upgrade.CommonSubset.Commits.{
  multicast_commit, Handled, handle_commit, handle_signature_message, can_terminate,
}

abbrev pub is_member : ℕ → List ℕ → Bool
is_member i [] = false
is_member i (j ∷ js) = if i == j then true else is_member i js

-- Without its first occurrence.
abbrev pub remove : ℕ → List ℕ → List ℕ
remove i [] = []
remove i (j ∷ js) = if i == j then js else j ∷ remove i js

module _ ⦃c : Crypto⦄ where
  pub data Event : Type 0 where
    -- rbc instance `i` outputs; its goroutine stores the value.
    rbc_output : ℕ → BlockShare → Event
    -- `handleAba` begins for instance `i`.
    aba_start : ℕ → Event
    -- aba instance `i` outputs; `handleAba` stores it.
    aba_output : ℕ → ℕ → Event
    -- A goroutine calls `eventHandler`.
    check : Event
    -- The four cases of the main loop's `select`.
    on_rbc_done on_start_aba on_acs_out : Event
    message : Payload → Event

  module _ (cfg : Config) where
    -- `*commit = true`, the output to `acsOut`, and the commit message of a committee member.
    unfoldable pub commit_to : List (Option BlockShare) → State → Run State
    unfolding multicast_commit
    commit_to values st =
        let committed = record st { commit = true; acs_out = st.acs_out ++ values ∷ [] } in
        if get_or (lookup cfg.node_id cfg.committee) false
        then (multicast_commit cfg values >>= λ ms. ok (record committed { sent = st.sent ++ ms }))
        else ok committed

    unfoldable pub third_condition : State → Run State
    unfolding commit_to c_three outputs_at
    third_condition st =
        if c_three cfg st.rbc_vals st.s st.aba_finished
        then commit_to (outputs_at st.rbc_vals st.s (below cfg.n)) st
        else ok st

    abbrev pub commit_or : Option BlockShare → Run State → State → Run State
    commit_or none rest st = rest
    commit_or (some v) rest st = commit_to (some v ∷ []) st

    unfoldable pub event_handler : State → Run State
    unfolding c_one c_two third_condition
    event_handler st =
        if st.commit
        then ok st
        else commit_or (c_one cfg st.rbc_vals)
            (commit_or (c_two cfg st.rbc_vals st.s st.aba_finished) (third_condition st) st) st

    unfoldable pub rbc_step : ℕ → BlockShare → State → State
    rbc_step i v st =
        if is_member i st.rbc_waiting
        then record st {
          rbc_waiting = remove i st.rbc_waiting;
          rbc_vals = insert i v st.rbc_vals;
          rbc_done = st.rbc_done ++ i ∷ [];
          checks = suc st.checks;
        }
        else st

    unfoldable pub aba_start_step : ℕ → State → State
    aba_start_step i st =
        if is_member i st.starting
        then record st {
          starting = remove i st.starting;
          aba_running = insert i true st.aba_running;
          aba_waiting = st.aba_waiting ++ i ∷ [];
        }
        else st

    -- The set `s` and the channel `startAba` after an output of an aba instance.
    unfoldable pub add_to_s : ℕ → ℕ → State → State
    add_to_s i value st =
        let s = insert i true st.s in
        if value == 1
        then record st {
          s = s;
          start_aba = if leb (cfg.n - cfg.t) (length s) then suc st.start_aba else st.start_aba;
        }
        else st

    unfoldable pub aba_output_step : ℕ → ℕ → State → State
    unfolding add_to_s
    aba_output_step i value st =
        if is_member i st.aba_waiting
        then add_to_s i value (record st {
          aba_waiting = remove i st.aba_waiting;
          aba_finished = insert i true st.aba_finished;
          checks = suc st.checks;
        })
        else st

    unfoldable pub check_step : ℕ → State → Run State
    unfolding event_handler
    check_step zero st = ok st
    check_step (suc k) st = event_handler (record st { checks = k })

    -- `SetValue` and `go handleAba(i)`, unless the instance runs.
    unfoldable pub launch : ℕ → ℕ → State → State
    launch value i st = if get_or (lookup i st.aba_running) false then st else record st {
      aba_inputs = st.aba_inputs ++ (i, value) ∷ [];
      starting = st.starting ++ i ∷ [];
    }

    unfoldable pub launch_all : ℕ → List ℕ → State → State
    unfolding launch
    launch_all value [] st = st
    launch_all value (i ∷ is) st = launch_all value is (launch value i st)

    -- The end of a round of the main loop.
    unfoldable pub finish_round : State → Run State
    finish_round st = can_terminate st.acs_finished st.signature st.received_hash >>= λ done.
        ok
          (if done then record st { out = st.out ++ st.acs_finished ∷ []; returned = true } else st)

    unfoldable pub accept : Option (Bytes × Bytes) → List Payload → State → State
    accept none ms st = record st { sent = st.sent ++ ms }
    accept (some (hash, signature)) ms st = record st {
      sent = st.sent ++ ms;
      received_hash = some hash;
      signature = signature;
    }

    unfoldable pub handled : Handled → State → State
    unfolding accept
    handled h st = accept h.result h.sent st

    unfoldable pub handle_message : Payload → State → Run State
    unfolding handled handle_signature_message handle_commit
    handle_message (signature_message m) st =
        if is_some st.received_hash && not (length st.signature == 0)
        then ok st
        else ok (handled (handle_signature_message cfg m) st)
    handle_message (committee_message m) st = handle_commit cfg m st.shares_received >>= λ r.
        ok (handled r.0 (record st { shares_received = r.1 }))

    unfoldable pub take_rbc_done : List ℕ → State → Run State
    unfolding launch finish_round
    take_rbc_done [] st = ok st
    take_rbc_done (i ∷ is) st = finish_round (launch 1 i (record st { rbc_done = is }))

    unfoldable pub take_start_aba : ℕ → State → Run State
    unfolding launch_all finish_round
    take_start_aba zero st = ok st
    take_start_aba (suc k) st =
        finish_round (launch_all 0 (below cfg.n) (record st { start_aba = k }))

    unfoldable pub take_acs_out : List (List (Option BlockShare)) → State → Run State
    unfolding finish_round
    take_acs_out [] st = ok st
    take_acs_out (values ∷ rest) st =
        finish_round (record st { acs_finished = values; acs_out = rest })

    -- The main loop has returned, or takes one of the cases.
    unfoldable pub loop_step : Event → State → Run State
    unfolding take_rbc_done take_start_aba take_acs_out handle_message finish_round
    loop_step on_rbc_done st = take_rbc_done st.rbc_done st
    loop_step on_start_aba st = take_start_aba st.start_aba st
    loop_step on_acs_out st = take_acs_out st.acs_out st
    loop_step (message p) st = handle_message p st >>= finish_round
    loop_step e st = ok st

    abbrev pub unless_returned : Event → State → Run State
    unless_returned e st = if st.returned then ok st else loop_step e st

    unfoldable pub step : Event → State → Run State
    unfolding rbc_step aba_start_step aba_output_step check_step loop_step
    step (rbc_output i v) st = ok (rbc_step i v st)
    step (aba_start i) st = ok (aba_start_step i st)
    step (aba_output i value) st = ok (aba_output_step i value st)
    step check st = check_step st.checks st
    step e st = unless_returned e st

    unfoldable pub run_from : List Event → State → Run State
    unfolding step
    run_from [] st = ok st
    run_from (e ∷ es) st = step e st >>= run_from es
