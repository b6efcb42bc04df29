-- ===== src/CommonSubset/Conditions.antt =====
-- commonsubset/commonsubset.go: the three output conditions.
use upgrade.Prelude.{
  ℕ, suc, ◌-◌, ◌/◌, Bool, false, ◌&&◌, Option, none, some, List, [], ◌∷◌, GoMap, lookup, get_or,
  length, leb, ltb, ◌==◌, nat_eq, bytes_eq, if◌then◌else◌,
}
use upgrade.Crypto.{Crypto}
use upgrade.Block.{BlockShare, share_hash}
use upgrade.CommonSubset.State.{Config}

module _ ⦃c : Crypto⦄ where
  -- How many of the values have the hash of `val`.
  unfoldable pub count_same : BlockShare → GoMap ℕ BlockShare → ℕ
  count_same val [] = 0
  count_same val ((i, v) ∷ vals) =
      let rest = count_same val vals in if share_hash val == share_hash v then suc rest else rest

  -- The first value of the map, in its order, that satisfies a test.
  unfoldable pub first_value : (BlockShare → Bool) → GoMap ℕ BlockShare → Option BlockShare
  first_value test [] = none
  first_value test ((i, v) ∷ vals) = if test v then some v else first_value test vals

  module _ (cfg : Config) where
    unfoldable pub c_one_helper : BlockShare → GoMap ℕ BlockShare → Bool
    unfolding count_same
    c_one_helper val rbc_vals = leb (cfg.n - cfg.t) (count_same val rbc_vals)

    -- The pair that the code returns is the option.
    unfoldable pub c_one : GoMap ℕ BlockShare → Option BlockShare
    unfolding c_one_helper first_value
    c_one rbc_vals =
        if ltb (length rbc_vals) (cfg.n - cfg.t)
        then none
        else first_value (λ v. c_one_helper v rbc_vals) rbc_vals

    unfoldable pub c_two_helper :
        BlockShare → GoMap ℕ BlockShare → GoMap ℕ Bool → GoMap ℕ Bool → Bool
    unfolding count_same
    c_two_helper val rbc_vals s aba_finished =
        if ltb (length s) (cfg.n - cfg.t)
        then false
        else if ltb (length aba_finished) cfg.n
        then false
        else ltb (length rbc_vals / 2) (count_same val rbc_vals)

    unfoldable pub c_two : GoMap ℕ BlockShare → GoMap ℕ Bool → GoMap ℕ Bool → Option BlockShare
    unfolding c_two_helper first_value
    c_two rbc_vals s aba_finished =
        if ltb (length s) (cfg.n - cfg.t)
        then none
        else first_value (λ v. c_two_helper v rbc_vals s aba_finished) rbc_vals

    unfoldable pub c_three : GoMap ℕ BlockShare → GoMap ℕ Bool → GoMap ℕ Bool → Bool
    c_three rbc_vals s aba_finished =
        leb (cfg.n - cfg.t) (length s)
        && (length aba_finished == (cfg.n - cfg.t) && length rbc_vals == (cfg.n - cfg.t))

  -- The outputs of the third condition: the entries of `rbcVals`, nil where there is none, at the
  -- indices of the list that are in `s`.
  unfoldable pub outputs_at : GoMap ℕ BlockShare → GoMap ℕ Bool → List ℕ → List (Option BlockShare)
  outputs_at rbc_vals s [] = []
  outputs_at rbc_vals s (i ∷ is) =
      let rest = outputs_at rbc_vals s is in
      if get_or (lookup i s) false then lookup i rbc_vals ∷ rest else rest
