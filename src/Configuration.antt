-- ===== src/Configuration.antt =====
-- utils/config.go: the rounds of a simulation and the nodes that crash in them.
pub mod Bounds
use upgrade.Prelude.{
  ℕ, zero, suc, ◌+◌, ◌-◌, ◌/◌, Bool, true, false, not, List, [], GoMap, insert, nat_eq, ◌==◌,
  if◌then◌else◌, Run, ok, panic, ◌>>=◌,
}

pub record RoundConfig : Type 0 where
  pub ta : ℕ
  pub ts : ℕ
  pub crashed : GoMap ℕ Bool
  pub async : Bool

abbrev pub RoundConfigs : Type 0
RoundConfigs = GoMap ℕ RoundConfig

pub record SimulationConfig : Type 0 where
  pub rounds : ℕ
  pub round_cfgs : RoundConfigs

-- `t` is at most `n`, so that no id is negative. The count is that of the nodes left.
crash_from : ℕ → ℕ → GoMap ℕ Bool → GoMap ℕ Bool
crash_from zero i crashed = crashed
crash_from (suc count) i crashed = crash_from count (suc i) (insert i true crashed)

unfoldable pub make_crashed_map : ℕ → ℕ → GoMap ℕ Bool
unfolding crash_from
make_crashed_map n t = crash_from (n - (n - t)) (n - t) []

-- One configuration for all the rounds, of which `count` are left.
same_rounds : RoundConfig → ℕ → ℕ → RoundConfigs → RoundConfigs
same_rounds cfg zero i rcfgs = rcfgs
same_rounds cfg (suc count) i rcfgs = same_rounds cfg count (suc i) (insert i cfg rcfgs)

unfoldable pub sync_no_crashes : ℕ → SimulationConfig
unfolding same_rounds
sync_no_crashes rounds = record {
  rounds = rounds;
  round_cfgs = same_rounds (record { ta = 0; ts = 0; crashed = []; async = false }) rounds 0 [];
}

unfoldable pub crash_cfg : ℕ → ℕ → ℕ → Bool → SimulationConfig
unfolding same_rounds
crash_cfg n t rounds async = record {
  rounds = rounds;
  round_cfgs =
      same_rounds (record { ta = t; ts = t; crashed = make_crashed_map n t; async = async }) rounds
        0 [];
}

-- The rounds in which synchrony changes after every `steps` rounds.
abbrev pub flip : ℕ → ℕ → Bool → Bool
flip ctr steps sync = if ctr == steps then not sync else sync

abbrev pub restart : ℕ → ℕ → ℕ
restart ctr steps = if ctr == steps then 0 else ctr

changing_rounds : RoundConfig → RoundConfig → ℕ → ℕ → ℕ → Bool → ℕ → RoundConfigs → RoundConfigs
changing_rounds s_cfg a_cfg steps zero i sync ctr rcfgs = rcfgs
changing_rounds s_cfg a_cfg steps (suc count) i sync ctr rcfgs =
    changing_rounds s_cfg a_cfg steps count (suc i) (flip ctr steps sync) (suc (restart ctr steps))
      (insert i (if flip ctr steps sync then s_cfg else a_cfg) rcfgs)

unfoldable pub crashes_changing_network_cfg : ℕ → ℕ → ℕ → SimulationConfig
unfolding changing_rounds
crashes_changing_network_cfg n t rounds = record {
  rounds = rounds;
  round_cfgs =
      changing_rounds (record { ta = t; ts = t; crashed = make_crashed_map n t; async = false })
        (record { ta = 0; ts = 0; crashed = make_crashed_map n 0; async = true }) (rounds / 5)
        rounds 0 true 0 [];
}

-- One more fault after every `steps` rounds.
abbrev pub more_faults : ℕ → ℕ → ℕ → ℕ
more_faults ctr steps faults = if ctr == steps then suc faults else faults

abbrev pub faulty_round : ℕ → ℕ → RoundConfig
faulty_round n faults = record {
  ta = faults;
  ts = faults;
  crashed = make_crashed_map n faults;
  async = true;
}

continuous_rounds : ℕ → ℕ → ℕ → ℕ → ℕ → ℕ → RoundConfigs → RoundConfigs
continuous_rounds n steps zero i faults ctr rcfgs = rcfgs
continuous_rounds n steps (suc count) i faults ctr rcfgs =
    continuous_rounds n steps count (suc i) (more_faults ctr steps faults) (suc (restart ctr steps))
      (insert i (faulty_round n (more_faults ctr steps faults)) rcfgs)

-- The division by `t` panics at 0.
unfoldable pub crashing_continuously : ℕ → ℕ → ℕ → Run SimulationConfig
unfolding continuous_rounds
crashing_continuously n t rounds =
    if t == 0
    then panic
    else ok
        (record { rounds = rounds; round_cfgs = continuous_rounds n (rounds / t) rounds 0 1 0 [] })
