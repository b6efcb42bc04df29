-- ===== src/Block/Hashes.antt =====
-- utils/block.go: what the hash of a pre-block binds.
use upgrade.Prelude.{◌≡◌, refl, ap, Option, none, some, List, [], ◌∷◌, ◌++◌}
use upgrade.Crypto.{Crypto}
use upgrade.Block.{PreBlockMessage, Size, vec_bytes, pre_block_hash}

module _ ⦃c : Crypto⦄ where
  vec_bytes-none :
      (xs ys : List (Option PreBlockMessage)) → vec_bytes (xs ++ none ∷ ys) ≡ vec_bytes (xs ++ ys)
  unfolding vec_bytes
  vec_bytes-none [] ys = refl
  vec_bytes-none (none ∷ xs) ys = vec_bytes-none xs ys
  vec_bytes-none (some m ∷ xs) ys = ap (λ b. (m.message ++ c.xi m.sig) ++ b) (vec_bytes-none xs ys)

  -- The hash of a pre-block does not bind the index of a message: a nil entry can be put in or taken
  -- out anywhere in the vector, and the size changed, without a change of the hash.
  pub pre_block_hash-none :
      (xs ys : List (Option PreBlockMessage)) (size size' : Size)
      → pre_block_hash (record { vec = xs ++ none ∷ ys; size = size })
        ≡ pre_block_hash (record { vec = xs ++ ys; size = size' })
  unfolding pre_block_hash
  pre_block_hash-none xs ys size size' = ap c.sha256 (vec_bytes-none xs ys)
