-- ===== src/CommonSubset/Invariant/Conditions.antt =====
-- The output conditions of a common subset keep what every step keeps.
use upgrade.Prelude.{
  ◌≤◌, ◌≡◌, subst, Bytes, bytes_eq, true, false, Option, none, some, List, [], ◌∷◌, ◌++◌, lookup,
  get_or, nat_eq, if_ind, Run, ok, panic, ◌>>=◌, Ensures, append_nil, arith,
}
use upgrade.Crypto.{Crypto}
use upgrade.Block.{BlockShare}
use upgrade.CommonSubset.State.{Payload, Config, State, below}
use upgrade.CommonSubset.Conditions.{c_one, c_two, c_three, outputs_at}
use upgrade.CommonSubset.Commits.{hash_values, sign_hash, commit_payload, multicast_commit}
use upgrade.CommonSubset.Events.{commit_to, third_condition, commit_or, event_handler}
use upgrade.CommonSubset.Invariant.{
  count_commits, count_commits-append, view, Output-later, accepted-later, Sound, IsSound,
}

module _ ⦃c : Crypto⦄ (cfg : Config) where
  commit_payload-le :
      (values : List (Option BlockShare)) (hash : Bytes) (sig : Option c.SigShare)
      → count_commits (commit_payload cfg values hash sig) ≤ 1
  unfolding commit_payload count_commits
  commit_payload-le values hash none = omega arith
  commit_payload-le values hash (some sig) = omega arith

  commits_with :
      (values : List (Option BlockShare)) (st : State) (ms : List Payload)
      → st.commit ≡ false
      → count_commits ms ≤ 1
      → IsSound cfg st
      → IsSound cfg
          (record st { commit = true; acs_out = st.acs_out ++ values ∷ []; sent = st.sent ++ ms })
  commits_with values st ms f k h =
      let idle = h.idle f in
      record {
        once = omega (arith, count_commits-append st.sent ms, idle.0, k);
        idle = λ e. absurd (ground (arith, e));
        one_out = rw idle.1 (omega arith);
        shares = h.shares;
        accepted = accepted-later cfg (view cfg st) ms h;
        output = Output-later cfg st.returned st.out st.sent ms h.output;
      }

  commit_to-IsSound :
      (values : List (Option BlockShare)) (st : State)
      → st.commit ≡ false
      → IsSound cfg st
      → Ensures (IsSound cfg) (commit_to cfg values st)
  unfolding commit_to multicast_commit count_commits
  commit_to-IsSound values st f h =
      if_ind (Ensures (IsSound cfg)) (get_or (lookup cfg.node_id cfg.committee) false) _ _
        (λ _. member (hash_values values))
        (λ _.
          subst
            (λ l. Sound cfg (record (view cfg st) {
              commit = true;
              acs_out = st.acs_out ++ values ∷ [];
              sent = l;
            }))
            (append_nil st.sent) (commits_with values st [] f none_sent h))
    where
      none_sent : count_commits [] ≤ 1
      none_sent = omega arith

      member :
          (r : Run Bytes)
          → Ensures (IsSound cfg) (
              (r >>= λ hash. ok (commit_payload cfg values hash (sign_hash cfg hash))) >>= λ ms.
              ok (record st {
                commit = true;
                acs_out = st.acs_out ++ values ∷ [];
                sent = st.sent ++ ms;
              }))
      member panic = tt
      member (ok hash) =
          commits_with values st _ f (commit_payload-le values hash (sign_hash cfg hash)) h

  commit_or-IsSound :
      (v : Option BlockShare) (rest : Run State) (st : State)
      → st.commit ≡ false
      → IsSound cfg st
      → Ensures (IsSound cfg) rest
      → Ensures (IsSound cfg) (commit_or cfg v rest st)
  commit_or-IsSound none rest st f h k = k
  commit_or-IsSound (some v) rest st f h k = commit_to-IsSound (some v ∷ []) st f h

  pub event_handler-IsSound :
      (st : State) → IsSound cfg st → Ensures (IsSound cfg) (event_handler cfg st)
  unfolding event_handler third_condition
  event_handler-IsSound st h =
      if_ind (Ensures (IsSound cfg)) st.commit _ _ (λ _. h)
        (λ f. commit_or-IsSound (c_one cfg st.rbc_vals) _ st f h (
          commit_or-IsSound (c_two cfg st.rbc_vals st.s st.aba_finished) _ st f h (
            if_ind (Ensures (IsSound cfg)) (c_three cfg st.rbc_vals st.s st.aba_finished) _ _
              (λ _. commit_to-IsSound (outputs_at st.rbc_vals st.s (below cfg.n)) st f h)
              (λ _. h))))
