-- ===== src/CommonSubset/Invariant/Rounds.antt =====
-- The end of a common subset, with the output, keeps what every step keeps.
use upgrade.Prelude.{
  ◌≡◌, refl, sym, ◌∙◌, ap, Bytes, bytes_eq, Bool, true, false, ◌||◌, Option, none, some, [], ◌∷◌,
  ◌++◌, get_or, length, ◌==◌, nat_eq, if◌then◌else◌, if_ind, Run, ok, panic, ◌>>=◌, Ensures, inl,
  inr, arith,
}
use upgrade.Crypto.{Crypto}
use upgrade.CommonSubset.State.{Config, State}
use upgrade.CommonSubset.Commits.{hash_values, can_terminate}
use upgrade.CommonSubset.Events.{finish_round}
use upgrade.CommonSubset.Invariant.{Output, running, output, IsSound}

module _ ⦃c : Crypto⦄ (cfg : Config) where
  finish_with :
      (st : State) (hash received : Bytes)
      → hash_values st.acs_finished ≡ ok hash
      → st.received_hash ≡ some received
      → st.returned ≡ false
      → IsSound cfg st
      → IsSound cfg (
          if hash == received
          then record st { out = st.out ++ st.acs_finished ∷ []; returned = true }
          else st)
  finish_with st hash received v e r h =
      if_ind (IsSound cfg) (hash == received) _ _
        (λ same. elim h.accepted [
          | inl z ↦ absurd (ground (arith, z, e))
          | inr (accepted, z, a) ↦ record {
            once = h.once;
            idle = h.idle;
            one_out = h.one_out;
            shares = h.shares;
            accepted = h.accepted;
            output =
                output st.acs_finished accepted st.signature refl (first h.output)
                  (v
                    ∙ ap ok (
                        (bytes_eq.beq_iff hash received).0 same
                        ∙ ap (λ o. get_or o []) (sym e ∙ z)))
                  a;
          }
        ])
        (λ _. h)
    where
      first :
          Output cfg st.returned st.out st.sent
          → st.out ++ st.acs_finished ∷ [] ≡ st.acs_finished ∷ []
      first (running f o) = rw o refl
      first (output values g s f o q a) = absurd (ground (arith, r, f))

  pub finish_round-IsSound :
      (st : State)
      → st.returned ≡ false
      → IsSound cfg st
      → Ensures (IsSound cfg) (finish_round cfg st)
  unfolding finish_round can_terminate
  finish_round-IsSound st r h = go st.received_hash refl
    where
      P : Run Bool → Type 0
      P x = Ensures (IsSound cfg) (
          x >>= λ done. ok (
            if done
            then record st { out = st.out ++ st.acs_finished ∷ []; returned = true }
            else st))

      hashed :
          (x : Run Bytes) (received : Bytes)
          → hash_values st.acs_finished ≡ x
          → st.received_hash ≡ some received
          → P (x >>= λ hash. ok (hash == received))
      hashed panic received v e = tt
      hashed (ok hash) received v e = finish_with st hash received v e r h

      go :
          (o : Option Bytes)
          → st.received_hash ≡ o
          → P (can_terminate st.acs_finished st.signature o)
      go none e = h
      go (some received) e =
          if_ind P (length st.acs_finished == 0 || length st.signature == 0) _ _ (λ _. h)
            (λ _. hashed (hash_values st.acs_finished) received refl e)
