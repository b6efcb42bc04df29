-- ===== src/Crypto.antt =====
-- What the program takes from outside its own tree: `crypto/sha256`, `crypto/rsa`,
-- github.com/niclabs/tcrsa and github.com/niclabs/tcpaillier, as one interface. Nothing is assumed of the operations here; a theorem
-- that needs a law of one has it as a hypothesis.
use upgrade.Prelude.{
  ℕ, zero, suc, ◌+◌, ◌/◌, ◌%◌, Bytes, Bool, Option, List, [], ◌∷◌, ◌==◌, nat_eq, if◌then◌else◌,
}

pub record Crypto : Type 1 where
  pub KeyMeta : Type 0  -- tcrsa.KeyMeta
  pub KeyShare : Type 0  -- tcrsa.KeyShare
  pub SigShare : Type 0  -- tcrsa.SigShare
  pub xi : SigShare → Bytes  -- SigShare.Xi
  pub share_id : SigShare → ℕ  -- SigShare.Id, a uint16
  pub public_key_size : KeyMeta → ℕ
  pub sha256 : Bytes → Bytes
  -- `none` is a returned error.
  pub prepare_document_hash : ℕ → Bytes → Option Bytes
  pub sign : KeyShare → Bytes → KeyMeta → Option SigShare
  pub join_shares : List SigShare → Bytes → KeyMeta → Option Bytes
  -- `true` is a nil error.
  pub verify : SigShare → Bytes → KeyMeta → Bool
  pub verify_pkcs1v15 : KeyMeta → Bytes → Bytes → Bool
  pub EncryptionKey : Type 0  -- tcpaillier.PubKey
  pub DecryptionKey : Type 0  -- tcpaillier.KeyShare
  pub DecryptionShare : Type 0  -- tcpaillier.DecryptionShare
  pub modulus_bits : EncryptionKey → ℕ  -- PubKey.N.BitLen()
  -- The first number stands for the randomness that a call takes.
  pub encrypt : EncryptionKey → ℕ → ℕ → Option ℕ
  pub partial_decrypt : DecryptionKey → ℕ → Option DecryptionShare
  -- The shares are pointers; `none` as a result is a returned error.
  pub combine_shares : EncryptionKey → List (Option DecryptionShare) → Option ℕ

-- `strconv.Itoa` on the non-negative ints: the decimal digits, as ASCII bytes. The fuel `suc n`
-- exceeds the number of digits of `n`.
itoa_loop : ℕ → ℕ → Bytes → Bytes
itoa_loop zero n acc = acc
itoa_loop (suc f) n acc =
    let digits : Bytes = (b'0' + n % 10) ∷ acc in
    let rest = itoa_loop f (n / 10) digits in if n / 10 == 0 then digits else rest

unfoldable pub itoa : ℕ → Bytes
unfolding itoa_loop
itoa n = itoa_loop (suc n) n []
