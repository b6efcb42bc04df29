-- ===== src/Configuration/Bounds.antt =====
-- utils/config.go: how many nodes crash in a round, and which.
use upgrade.Prelude.{
  ℕ, zero, suc, ◌+◌, ◌-◌, ◌*◌, ◌/◌, ◌≤◌, ◌<◌, ◌≡◌, refl, ◌∙◌, Bool, true, false, ◌&&◌, Option, some,
  inl, inr, [], GoMap, lookup, insert, get_or, nat_eq, nat_beq_iff, ◌==◌, leb, ltb, if◌then◌else◌,
  arith, Bool-cases, lookup-insert, Returns,
}
use native.Mathlib.Nat.{
  suc-mul, mul_comm, mul_assoc, mul-le-mul_right, le-mul_of_pos_right, div-add-mod', mod-lt,
}
use native.Mathlib.Decide.{dec_lt}
use upgrade.Configuration.{
  RoundConfig, RoundConfigs, crash_from, make_crashed_map, faulty_round, continuous_rounds,
  crashing_continuously,
}

-- The configuration of round `k` where the faults grow by one in every `steps` rounds.
abbrev pub IsFaulty : ℕ → ℕ → ℕ → Option RoundConfig → Type 0
IsFaulty n steps k o =
    (f : ℕ) × (o ≡ some (faulty_round n (suc f))) × (f * steps ≤ k) × (k < suc f * steps)

module _ (n steps : ℕ) (pos : 0 < steps) where
  continuous_rounds-IsFaulty :
      (count i q ctr : ℕ) (rcfgs : RoundConfigs) (k : ℕ)
      → i ≡ q * steps + ctr
      → ctr ≤ steps
      → k < i + count
      → (k < i → IsFaulty n steps k (lookup k rcfgs))
      → IsFaulty n steps k (lookup k (continuous_rounds n steps count i (suc q) ctr rcfgs))
  unfolding continuous_rounds
  continuous_rounds-IsFaulty zero i q ctr rcfgs k e l below old = old (omega arith)
  continuous_rounds-IsFaulty (suc count) i q ctr rcfgs k e l below old =
      elim (Bool-cases (ctr == steps)) [
        | inl full ↦ rw full (
            continuous_rounds-IsFaulty count (suc i) (suc q) 1
              (insert i (faulty_round n (suc (suc q))) rcfgs) k
              (grind (arith, nat_beq_iff ctr steps)) (omega arith) (omega arith)
              (written (suc q) (grind (arith, nat_beq_iff ctr steps))
                (grind (arith, nat_beq_iff ctr steps))))
        | inr more ↦ rw more (
            continuous_rounds-IsFaulty count (suc i) q (suc ctr)
              (insert i (faulty_round n (suc q)) rcfgs) k (omega arith)
              (ground (arith, nat_beq_iff ctr steps)) (omega arith)
              (written q (grind arith) (grind (arith, nat_beq_iff ctr steps))))
      ]
    where
      written :
          (f : ℕ)
          → f * steps ≤ i
          → i < suc f * steps
          → k < suc i
          → IsFaulty n steps k (lookup k (insert i (faulty_round n (suc f)) rcfgs))
      written f low high h = elim (Bool-cases (i == k)) [
        | inl same ↦ (
          f,
          lookup-insert i k (faulty_round n (suc f)) rcfgs ∙ rw same refl,
          ground (arith, nat_beq_iff i k),
          ground (arith, nat_beq_iff i k),
        )
        | inr other ↦
            let (f', p, a, b) = old (ground (arith, nat_beq_iff i k)) in
            (f', lookup-insert i k (faulty_round n (suc f)) rcfgs ∙ rw other p, a, b)
      ]

crash_from_lem :
    (count i : ℕ) (crashed : GoMap ℕ Bool) (j : ℕ)
    → get_or (lookup j (crash_from count i crashed)) false
      ≡ (if leb i j && ltb j (i + count) then true else get_or (lookup j crashed) false)
unfolding crash_from
crash_from_lem zero i crashed j = ground arith
crash_from_lem (suc count) i crashed j = ground (
  arith,
  crash_from_lem count (suc i) (insert i true crashed) j,
  lookup-insert i j true crashed,
  nat_beq_iff i j,
)

-- The nodes that crash are the last `t`.
make_crashed_map_lem :
    (n t j : ℕ)
    → t ≤ n
    → get_or (lookup j (make_crashed_map n t)) false ≡ (leb (n - t) j && ltb j n)
unfolding make_crashed_map lookup
make_crashed_map_lem n t j h = ground (arith, crash_from_lem (n - (n - t)) (n - t) [] j)

steps_pos : (t rounds : ℕ) → 0 < t → t ≤ rounds → 0 < rounds / t
steps_pos t rounds pos l = grind arith

-- The faults stay within `2 t`, since the rounds per fault are at least half of `rounds` by `t`.
faults_le :
    (t rounds k f steps : ℕ)
    → 0 < steps
    → rounds < suc steps * t
    → k < rounds
    → f * steps ≤ k
    → suc f ≤ 2 * t
faults_le t rounds k f steps pos r h low = elim (dec_lt f (2 * t)) [
  | yes p ↦ omega arith
  | no p ↦ absurd (
      omega (
        arith,
        mul-le-mul_right {m = 2 * t} {n = f} steps (omega arith),
        mul_assoc 2 t steps,
        suc-mul steps t,
        le-mul_of_pos_right {m = steps} t pos,
        mul_comm t steps,
      ))
]

rounds_lt : (t rounds : ℕ) → 0 < t → rounds < suc (rounds / t) * t
rounds_lt t rounds pos =
    omega (arith, div-add-mod' rounds t, mod-lt rounds pos, suc-mul (rounds / t) t)

-- With `0 < t`, at least `t` rounds and at least `2 t` nodes, `CrashingContinuously` does not panic
-- and configures every round. In round `k`, where `k` lies between `f` and `f + 1` times the number of rounds per fault,
-- `Ta` and `Ts` are `f + 1`, which is at most `2 t`, and exactly the last `f + 1` nodes crash.
pub crashing_continuously_lem :
    (n t rounds k j : ℕ)
    → 0 < t
    → t ≤ rounds
    → 2 * t ≤ n
    → k < rounds
    → Returns (crashing_continuously n t rounds) (λ cfg.
      (f : ℕ) × (r : RoundConfig) × (lookup k cfg.round_cfgs ≡ some r)
      × (f * (rounds / t) ≤ k)
      × (k < suc f * (rounds / t))
      × (suc f ≤ 2 * t)
      × (r.ta ≡ suc f)
      × (r.ts ≡ suc f)
      × (get_or (lookup j r.crashed) false ≡ (leb (n - suc f) j && ltb j n)))
unfolding crashing_continuously
crashing_continuously_lem n t rounds k j pos l enough h =
    let some_faults : (t == 0) ≡ false = ground arith in
    let steps = rounds / t in
    let (f, p, low, high) =
      continuous_rounds-IsFaulty n steps (steps_pos t rounds pos l) rounds 0 0 0 [] k (omega arith)
        (omega arith) (omega arith) (λ (z : k < 0). absurd (omega arith)) in
    let few : suc f ≤ 2 * t =
      faults_le t rounds k f steps (steps_pos t rounds pos l) (rounds_lt t rounds pos) h low in
    (
      record { rounds = rounds; round_cfgs = continuous_rounds n steps rounds 0 1 0 [] },
      rw some_faults refl,
      (
        f,
        faulty_round n (suc f),
        p,
        low,
        high,
        few,
        refl,
        refl,
        make_crashed_map_lem n (suc f) j (omega arith),
      ),
    )
