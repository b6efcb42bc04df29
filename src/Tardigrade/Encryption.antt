-- ===== src/Tardigrade/Encryption.antt =====
-- tardigrade/tardigrade.go: the encryption of transactions and the decryption shares of a node,
-- `handleSmallTransaction`, `handleLargeTransaction`, `sendDecryptionShares` and
-- `waitForMatchingBlock`.
pub mod Pieces
use upgrade.Prelude.{
  ℕ, zero, suc, ◌/◌, Bytes, bytes_eq, Bool, true, false, Option, none, some, List, [], ◌∷◌, ◌++◌,
  length, take, drop, ◌==◌, nat_eq, if◌then◌else◌, Run, ok, panic, ◌>>=◌, set_bytes, to_bytes,
}
use upgrade.Crypto.{Crypto}
use upgrade.Block.{PreBlock, PreBlockMessage, BlockPointer, BlockShare, Size, large, pre_block_hash}
use upgrade.Tardigrade.{
  Config, Payload, Sent, Decryption, block_message, pre_block_message, decryption_message,
  to_committee,
}

-- `for i := 0; i < len(v.Message); i += enclen`. Each round takes a byte at least, unless `enclen` is
-- 0: `none` is the loop that does not end.
pieces : ℕ → ℕ → Bytes → Option (List Bytes)
pieces fuel enclen [] = some []
pieces zero enclen (b ∷ bs) = none
pieces (suc fuel) enclen (b ∷ bs) = elim (pieces fuel enclen (drop enclen (b ∷ bs))) [
  | none ↦ none
  | some rest ↦ some (take enclen (b ∷ bs) ∷ rest)
]

unfoldable pub split_message : ℕ → Bytes → Option (List Bytes)
unfolding pieces
split_message enclen message = pieces (length message) enclen message

module _ ⦃c : Crypto⦄ where
  -- The keys of `tcs` beside those of the listener; `enc_sk` is nil outside the committee.
  pub record Keys : Type 0 where
    pub node_sk : c.KeyShare
    pub enc_pk : c.EncryptionKey
    pub enc_sk : Option c.DecryptionKey

  -- A failed encryption, a loop that goes on past the randomness that is given, or the bytes and what
  -- is left of the randomness.
  pub data Sealed : Type 0 where
    refused spent : Sealed
    sealed : Bytes → List ℕ → Sealed

  module _ (cfg : Config) (keys : Keys) where
    abbrev pub cipher_length : ℕ
    cipher_length = c.modulus_bits keys.enc_pk / 4

    -- The repetition until the ciphertext has its full length; a nil ciphertext panics.
    unfoldable pub retry : ℕ → List ℕ → ℕ → Run Sealed
    retry data' [] d =
        if length (to_bytes d) == cipher_length then ok (sealed (to_bytes d) []) else ok spent
    retry data' (r ∷ rs) d = elim (length (to_bytes d) == cipher_length) [
      | true ↦ ok (sealed (to_bytes d) (r ∷ rs))
      | false ↦ elim (c.encrypt keys.enc_pk r data') [ none ↦ panic | some d' ↦ retry data' rs d' ]
    ]

    unfoldable pub seal : Bytes → List ℕ → Run Sealed
    unfolding retry
    seal tx [] = ok spent
    seal tx (r ∷ rs) = elim (c.encrypt keys.enc_pk r (set_bytes tx)) [
      | none ↦ ok refused
      | some d ↦ retry (set_bytes tx) rs d
    ]

    -- The ciphertexts one after the other.
    unfoldable pub seal_all : List Bytes → Bytes → List ℕ → Run Sealed
    unfolding seal
    seal_all [] acc rs = ok (sealed acc rs)
    seal_all (tx ∷ txs) acc rs = seal tx rs >>= λ s. elim s [
      | refused ↦ ok refused
      | spent ↦ ok spent
      | sealed bytes rest ↦ seal_all txs (acc ++ bytes) rest
    ]

    -- The signature on the hash of a payload; `none` is an error.
    abbrev pub sign_payload : Bytes → Option c.SigShare
    sign_payload payload =
        elim (c.prepare_document_hash (c.public_key_size cfg.key_meta) (c.sha256 payload)) [
          | none ↦ none
          | some padded ↦ c.sign keys.node_sk padded cfg.key_meta
        ]

    abbrev pub block_of : Bool → Bytes → c.SigShare → Payload
    block_of is_large payload sig =
        block_message
          (record { sender = cfg.node_id; is_large = is_large; payload = payload; sig = sig })

    unfoldable pub send_if_signed : Bytes → Option c.SigShare → List Sent
    send_if_signed payload none = []
    send_if_signed payload (some sig) = to_committee cfg (block_of true payload sig) cfg.n

    unfoldable pub send_block : Bytes → List Sent
    unfolding send_if_signed
    send_block payload = send_if_signed payload (sign_payload payload)

    -- `none` when the randomness is used up before the last ciphertext.
    unfoldable pub handle_large_transaction : List Bytes → List ℕ → Run (Option (List Sent))
    unfolding seal_all send_block
    handle_large_transaction txs rs = seal_all txs [] rs >>= λ s. elim s [
      | refused ↦ ok (some [])
      | spent ↦ ok none
      | sealed payload rest ↦ ok (some (send_block payload))
    ]

    unfoldable pub encrypt_and_sign : ℕ → ℕ → Bool → Option Payload
    encrypt_and_sign r data' is_large = elim (c.encrypt keys.enc_pk r data') [
      | none ↦ none
      | some e ↦ elim (sign_payload (to_bytes e)) [
        | none ↦ none
        | some sig ↦ some (block_of is_large (to_bytes e) sig)
      ]
    ]

    unfoldable pub handle_small_transaction : ℕ → ℕ → Bytes → List Sent
    unfolding encrypt_and_sign
    handle_small_transaction i r tx = elim (encrypt_and_sign r (set_bytes tx) false) [
      | none ↦ []
      | some payload ↦ record { receiver = some i; payload = payload } ∷ []
    ]

    -- A nil committee key panics.
    unfoldable pub share_of : Bytes → Run (Option c.DecryptionShare)
    share_of message = elim keys.enc_sk [
      | none ↦ panic
      | some sk ↦ ok (c.partial_decrypt sk (set_bytes message))
    ]

    -- A failed decryption leaves its piece out.
    unfoldable pub shares_of_pieces : List Bytes → Run (List (Option c.DecryptionShare))
    unfolding share_of
    shares_of_pieces [] = ok []
    shares_of_pieces (piece ∷ rest) = share_of piece >>= λ share.
        shares_of_pieces rest >>= λ shares.
        ok (elim share [ none ↦ shares | some d ↦ some d ∷ shares ])

    -- A nil entry panics; `none` is a loop over a message that does not end.
    unfoldable pub large_shares : List (Option PreBlockMessage) → Run (Option Decryption)
    unfolding shares_of_pieces
    large_shares [] = ok (some [])
    large_shares (none ∷ vec) = panic
    large_shares (some m ∷ vec) = elim (split_message cipher_length m.message) [
      | none ↦ ok none
      | some parts ↦ shares_of_pieces parts >>= λ row. large_shares vec >>= λ rows.
          ok (elim rows [ none ↦ none | some rows ↦ some (row ∷ rows) ])
    ]

    -- One share for each message, nil where the decryption fails.
    unfoldable pub small_shares :
        List (Option PreBlockMessage) → Run (List (Option c.DecryptionShare))
    unfolding share_of
    small_shares [] = ok []
    small_shares (none ∷ vec) = panic
    small_shares (some m ∷ vec) =
        share_of m.message >>= λ share. small_shares vec >>= λ shares. ok (share ∷ shares)

    abbrev pub multicast_shares : Decryption → List Sent
    multicast_shares shares =
        record {
          receiver = none;
          payload = decryption_message (record { sender = cfg.node_id; shares = shares });
        }
        ∷ []

    -- The same with nil entries left nil, for the blocks of a common subset.
    unfoldable pub subset_row :
        List (Option PreBlockMessage) → Run (List (Option c.DecryptionShare))
    unfolding share_of
    subset_row [] = ok []
    subset_row (none ∷ vec) = subset_row vec >>= λ shares. ok (none ∷ shares)
    subset_row (some m ∷ vec) =
        share_of m.message >>= λ share. subset_row vec >>= λ shares. ok (share ∷ shares)

    unfoldable pub subset_rows : List BlockShare → Run Decryption
    unfolding subset_row
    subset_rows [] = ok []
    subset_rows (bs ∷ rest) =
        subset_row bs.block.vec >>= λ row. subset_rows rest >>= λ rows. ok (row ∷ rows)

    unfoldable pub send_decryption_shares : List BlockShare → Run (List Sent)
    unfolding subset_rows
    send_decryption_shares output = subset_rows output >>= λ shares. ok (multicast_shares shares)

    -- What `waitForMatchingBlock` multicasts, and whether it returns; otherwise it waits for the
    -- channel.
    pub record Waited : Type 0 where
      pub sent : List Sent
      pub returned : Bool

    abbrev pub multicast_pre_block : PreBlock → Sent
    multicast_pre_block pb = record {
      receiver = none;
      payload = pre_block_message (record { sender = cfg.node_id; pre_block = pb });
    }

    abbrev pub is_large_block : PreBlock → Bool
    is_large_block pb = elim pb.size [ large ↦ true | _ ↦ false ]

    -- `none` when the loop over a message does not end.
    unfoldable pub shares_of_block : PreBlock → Run (Option (List Sent))
    unfolding large_shares small_shares
    shares_of_block pb =
        if is_large_block pb
        then (large_shares pb.vec >>= λ rows.
            ok (elim rows [ none ↦ none | some rows ↦ some (multicast_shares rows) ]))
        else small_shares pb.vec >>= λ row. ok (some (multicast_shares (row ∷ [])))

    -- A second pre-block ends the loop; a nil one panics.
    unfoldable pub after_first : List Sent → List (Option PreBlock) → Run Waited
    after_first sent [] = ok (record { sent = sent; returned = false })
    after_first sent (none ∷ chan) = panic
    after_first sent (some pb ∷ chan) = ok (record { sent = sent; returned = true })

    unfoldable pub wait_for_matching_block : BlockPointer → List (Option PreBlock) → Run Waited
    unfolding shares_of_block after_first
    wait_for_matching_block ptr [] = ok (record { sent = []; returned = false })
    wait_for_matching_block ptr (none ∷ chan) = panic
    wait_for_matching_block ptr (some pb ∷ chan) =
        if pre_block_hash pb == ptr.block_hash
        then (shares_of_block pb >>= λ shares. elim shares [
          | none ↦ ok (record { sent = multicast_pre_block pb ∷ []; returned = false })
          | some sent ↦ after_first (multicast_pre_block pb ∷ sent) chan
        ])
        else after_first [] chan
