-- ===== src/Tests/Configurations.antt =====
-- A simulation of five rounds with two faults among four nodes.
use upgrade.Prelude.{
  ℕ, suc, ◌-◌, ◌*◌, ◌/◌, ◌≤◌, ◌<◌, ◌≡◌, false, ◌&&◌, some, lookup, get_or, leb, ltb, nat_eq,
  Returns, arith,
}
use upgrade.Configuration.{RoundConfig, crashing_continuously}
use upgrade.Configuration.Bounds.{crashing_continuously_lem}

crashing_continuously_lem_example : Returns (crashing_continuously 4 2 5) (λ cfg.
    (f : ℕ) × (r : RoundConfig) × (lookup 4 cfg.round_cfgs ≡ some r)
    × (f * (5 / 2) ≤ 4)
    × (4 < suc f * (5 / 2))
    × (suc f ≤ 2 * 2)
    × (r.ta ≡ suc f)
    × (r.ts ≡ suc f)
    × (get_or (lookup 1 r.crashed) false ≡ (leb (4 - suc f) 1 && ltb 1 4)))
crashing_continuously_lem_example =
    crashing_continuously_lem 4 2 5 4 1 (omega arith) (omega arith) (omega arith) (omega arith)
