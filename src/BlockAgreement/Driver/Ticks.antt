-- ===== src/BlockAgreement/Driver/Ticks.antt =====
-- When the rounds of block agreement keep step with the ticker, and when a node is left behind.
use upgrade.Prelude.{
  ℕ, suc, ◌+◌, ◌*◌, ◌<◌, ◌≡◌, Bool, true, false, none, some, ltb, nat_eq, if◌then◌else◌, inl, inr,
  ◌⊎◌, arith,
}
use upgrade.BlockAgreement.Driver.{
  at_two, wait_for_two, Ending, own_notify, received_notify, no_notify, ticks_after, round_ticks,
}

-- The ticks with which round `r` can begin: all those of the rounds before it, or all but the last.
pub data Begins (r c : ℕ) : Type 0 where
  on_time : c ≡ 6 * r → Begins r c
  one_early : suc c ≡ 6 * r → Begins r c

-- Where the wait for time 2 stops, from the four places where it can begin in round `r`.
wait-in_step :
    (kappa r c : ℕ)
    → (c ≡ 6 * r) ⊎ (c ≡ 6 * r + 1) ⊎ (suc c ≡ 6 * r)
    → 6 * r + 6 < 7 * kappa
    → wait_for_two kappa 6 c ≡ at_two (6 * r + 2)
unfolding wait_for_two
wait-in_step kappa r c (inl e) h = ground arith
wait-in_step kappa r c (inr (inl e)) h = ground arith
wait-in_step kappa r c (inr (inr e)) h = ground arith

after_two :
    (kappa r : ℕ) (ending : Ending)
    → 6 * r + 6 < 7 * kappa
    → (d : ℕ) × ((if ltb (6 * r + 2 + ticks_after false ending) (7 * kappa)
          then some (6 * r + 2 + ticks_after false ending)
          else none)
        ≡ some d)
      × Begins (suc r) d
unfolding ticks_after
after_two kappa r own_notify h = (6 * r + 6, ground arith, on_time (omega arith))
after_two kappa r received_notify h = (6 * r + 5, ground arith, one_early (omega arith))
after_two kappa r no_notify h = (6 * r + 6, ground arith, on_time (omega arith))

-- A round that begins in step with the ticker, before round `kappa`, and that no invalid proposal
-- cuts short is over after some number of ticks, with which the next round begins in step as well.
pub round_in_step :
    (kappa r c : ℕ) (proposer : Bool) (ending : Ending)
    → r < kappa
    → Begins r c
    → (d : ℕ) × (round_ticks kappa proposer false ending c ≡ some d) × Begins (suc r) d
unfolding round_ticks
round_in_step kappa r c true ending l (on_time e) =
    let (d, q, b) = after_two kappa r ending (omega arith) in
    (d, ground (arith, wait-in_step kappa r (suc c) (inr (inl (omega arith))) (omega arith), q), b)
round_in_step kappa r c false ending l (on_time e) =
    let (d, q, b) = after_two kappa r ending (omega arith) in
    (d, ground (arith, wait-in_step kappa r c (inl e) (omega arith), q), b)
round_in_step kappa r c true ending l (one_early e) =
    let (d, q, b) = after_two kappa r ending (omega arith) in
    (d, ground (arith, wait-in_step kappa r (suc c) (inl e) (omega arith), q), b)
round_in_step kappa r c false ending l (one_early e) =
    let (d, q, b) = after_two kappa r ending (omega arith) in
    (d, ground (arith, wait-in_step kappa r c (inr (inr e)) (omega arith), q), b)

-- The proposer takes one tick before the wait for time 2, and so is one tick early there.
proposer_in_step :
    (kappa r : ℕ) (ending : Ending)
    → suc r < kappa
    → (e : ℕ) × (round_ticks kappa true false ending (6 * r + 4) ≡ some e) × Begins (suc (suc r)) e
unfolding round_ticks
proposer_in_step kappa r ending l =
    let (e, q, b) = after_two kappa (suc r) ending (omega arith) in
    let start : suc (6 * r + 4) ≡ 6 * r + 5 = omega arith in
    (
      e,
      ground (
        arith,
        start,
        wait-in_step kappa (suc r) (suc (6 * r + 4)) (inr (inr (omega arith))) (omega arith),
        q,
      ),
      b,
    )

pub cut_short_blocks :
    (kappa r : ℕ) (proposer early : Bool) (ending : Ending)
    → suc r < kappa
    → (d : ℕ) × (round_ticks kappa proposer true received_notify (6 * r) ≡ some d)
      × (d + 2 ≡ 6 * suc r)
      × (round_ticks kappa false early ending d ≡ none)
      × ((e : ℕ) × (round_ticks kappa true false ending d ≡ some e) × Begins (suc (suc r)) e)
unfolding round_ticks wait_for_two ticks_after
cut_short_blocks kappa r true early ending l =
    (6 * r + 4, ground arith, omega arith, ground arith, proposer_in_step kappa r ending l)
cut_short_blocks kappa r false early ending l =
    (6 * r + 4, ground arith, omega arith, ground arith, proposer_in_step kappa r ending l)
