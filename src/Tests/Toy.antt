-- ===== src/Tests/Toy.antt =====
-- A stand-in for the cryptography, for concrete runs: the hash is the identity, every signature
-- verifies, and a key signs with its own number. A ciphertext is the plain text
-- and 256, and a share of it is itself.
use upgrade.Prelude.{ℕ, ◌+◌, true, some, none, get_elem?, [], ◌∷◌}
use upgrade.Crypto.{Crypto}
use upgrade.Block.{BlockShare, unset}

instance abbrev pub toy : Crypto
toy = record {
  KeyMeta = ℕ;
  KeyShare = ℕ;
  SigShare = ℕ;
  xi = λ s. s ∷ [];
  share_id = λ s. s;
  public_key_size = λ m. m;
  sha256 = λ b. b;
  prepare_document_hash = λ n b. some b;
  sign = λ k b m. some k;
  join_shares = λ ss b m. some (1 ∷ []);
  verify = λ s b m. true;
  verify_pkcs1v15 = λ m b s. true;
  EncryptionKey = ℕ;
  DecryptionKey = ℕ;
  DecryptionShare = ℕ;
  modulus_bits = λ k. k;
  encrypt = λ k r m. some (256 + m);
  partial_decrypt = λ k m. some m;
  combine_shares = λ k ss. elim (get_elem? ss 0) [ none ↦ none | some d ↦ d ];
}

-- A block share of one node, whose one message is `k` and signed with share id 1.
abbrev pub share : ℕ → BlockShare
share k = record {
  block = record { vec = some (record { message = k ∷ []; sig = 1 }) ∷ []; size = unset };
  pointer = record { block_hash = k ∷ []; sig = [] };
}
