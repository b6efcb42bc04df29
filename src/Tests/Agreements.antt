-- ===== src/Tests/Agreements.antt =====
-- Binary agreement at node 0 of four, of which one may be faulty: all send 1, and the coin is 1.
use upgrade.Prelude.{
  ℕ, ◌≡◌, ◌≢◌, refl, true, false, List, [], ◌∷◌, inl, ◌⊎◌, IsIn, count_below, arith, lookup, insert,
  length, ◌==◌, nat_eq,
}
use upgrade.BinaryAgreement.{
  Status, est, aux, returned, Config, Event, receives, advances, step, run_from, run,
}
use upgrade.BinaryAgreement.Schedule.{heard, AreNodes}
use upgrade.BinaryAgreement.Safety.{decision_from_honest, decides_once}
use upgrade.BinaryAgreement.Stall.{IsStuck, run_from-IsStuck}

abbrev cfg : Config
cfg = record { n = 4; node_id = 0; t = 1; value = 1 }

abbrev coin : ℕ → ℕ
coin r = 1

abbrev says : Status → ℕ → Event
says st i = receives (record { sender = i; value = 1; round = 0; status = st })

abbrev waiting : List Event
waiting = advances ∷ says est 2 ∷ says est 1 ∷ says est 0 ∷ []

abbrev schedule : List Event
schedule = advances ∷ says aux 2 ∷ says aux 1 ∷ says aux 0 ∷ waiting

nodes : AreNodes cfg coin schedule
nodes = (omega arith, (omega arith, (omega arith, (omega arith, (omega arith, (omega arith, tt))))))

decided : IsIn 1 (run cfg coin schedule).out
unfolding run run_from step lookup insert
decided = inl refl

one_faulty : count_below 4 (λ i. i == 3) ≡ 1
unfolding count_below
one_faulty = refl

decision_from_honest_example :
    (r j : ℕ) × (coin r ≡ 1) × ((j == 3) ≡ false) × (heard est r 1 j schedule ≡ true)
decision_from_honest_example =
    decision_from_honest cfg coin schedule nodes (λ i. i == 3) (omega (arith, one_faulty)) 1 decided

decides_once_example :
    (((run cfg coin schedule).phase ≡ returned) × (length (run cfg coin schedule).out ≡ 1))
    ⊎ (((run cfg coin schedule).phase ≢ returned) × (length (run cfg coin schedule).out ≡ 0))
decides_once_example = decides_once cfg coin schedule nodes

-- The node has announced its value and waits for AUX values.
stuck : IsStuck cfg coin 0 (run cfg coin waiting)
unfolding run run_from step lookup insert
stuck = record { round = refl; phase = refl; queue = refl }

run_from-IsStuck_example :
    IsStuck cfg coin 0 (run_from cfg coin (run cfg coin waiting) (advances ∷ says est 3 ∷ []))
run_from-IsStuck_example =
    run_from-IsStuck cfg coin 0 (run cfg coin waiting) (advances ∷ says est 3 ∷ [])
      (tt, ((λ e. absurd (ground arith)), tt)) stuck
