-- ===== src/Tests/Nodes.antt =====
-- The buffer, a block and the inputs of a round at one node, with the stand-in for the cryptography.
use upgrade.Prelude.{
  ℕ, ◌+◌, ◌<◌, ◌≤◌, ◌≡◌, ◌⊎◌, refl, true, false, some, none, List, [], ◌∷◌, Bytes, ok, lookup,
  insert, nat_eq, bytes_eq, arith, Returns, All, count, contains, length, count_below, set_bytes,
  to_bytes, if◌then◌else◌,
}
use upgrade.Block.{
  Block, BlockShare, PreBlock, small, pre_block_hash, quality, new_pre_block, add_message,
}
use upgrade.Tardigrade.{
  Sent, Decryption, Payload, State, block_message, is_well_formed_block_share, initial, listen,
}
use upgrade.Tardigrade.Buffer.{Node, new_node, set_block, propose_txs}
use upgrade.Tardigrade.Buffer.Removal.{set_block_lem}
use upgrade.Tardigrade.Buffer.Draws.{propose_txs-IsChoice, IsChoice, first_of, drawn}
use upgrade.Tardigrade.Encryption.{Keys, handle_large_transaction}
use upgrade.Tardigrade.Encryption.Pieces.{sent_block-IsDecryptable, IsDecryptable}
use upgrade.Tardigrade.Construction.{construct_block, total_quality, goal}
use upgrade.Tardigrade.Construction.Arrivals.{IsDecrypted, HasWidth, arrivals}
use upgrade.Tardigrade.Construction.Backed.{block_txs-AreDecrypted}
use upgrade.Tardigrade.Rounds.{acs_input}
use upgrade.Tardigrade.Rounds.Inputs.{acs_input_lem, IsOwn, IsVerified}
use upgrade.Tests.Toy.{toy, share}
use upgrade.Tests.Listeners.{cfg, messages, pointer, final}

abbrev node : Node
node = record new_node { buf = (1 ∷ []) ∷ (2 ∷ []) ∷ (3 ∷ []) ∷ [] }

abbrev block : Block
block = record { txs = (1 ∷ []) ∷ (9 ∷ []) ∷ []; txs_count = 2 }

once : (x : Bytes) → count x node.buf ≤ 1
unfolding count new_node
once [] = omega arith
once (a ∷ []) = ground arith
once (a ∷ b ∷ x) = ground arith

set_block_lem_example : Returns (set_block 5 0 block node) (λ out.
    ((x : Bytes) → count x out.0.buf ≡ (if contains x block.txs then 0 else count x node.buf))
    × (length out.0.buf + out.2 ≡ length node.buf)
    × (out.1 ≡ length block.txs)
    × (out.0 ≡ record node { buf = out.0.buf; blocks = insert 0 block node.blocks }))
set_block_lem_example =
    set_block_lem 5 0 block node
      ((λ e. absurd (ground (arith, e))), ((λ e. absurd (ground (arith, e))), tt)) once

propose_txs-IsChoice_example :
    ((propose_txs 2 3 (0 ∷ 3 ∷ 1 ∷ []) node ≡ ok none)
      × (count_below (first_of 3 node) (drawn (first_of 3 node) (0 ∷ 3 ∷ 1 ∷ [])) < 2))
    ⊎ ((txs : List Bytes) × (propose_txs 2 3 (0 ∷ 3 ∷ 1 ∷ []) node ≡ ok (some txs))
        × IsChoice node.buf (first_of 3 node) 2 txs)
propose_txs-IsChoice_example =
    propose_txs-IsChoice 2 3 (0 ∷ 3 ∷ 1 ∷ []) node (omega arith) (omega arith)

abbrev keys : Keys
keys = record { node_sk = 4; enc_pk = 8; enc_sk = some 7 }

abbrev sent : List Sent
sent =
    record {
      receiver = some 0;
      payload =
          block_message
            (record { sender = 0; is_large = true; payload = 1 ∷ 5 ∷ 1 ∷ 6 ∷ []; sig = 4 });
    }
    ∷ []

sends : handle_large_transaction cfg keys ((5 ∷ []) ∷ (6 ∷ []) ∷ []) (0 ∷ 0 ∷ []) ≡ ok (some sent)
unfolding handle_large_transaction set_bytes to_bytes lookup
sends = refl

sent_block-IsDecryptable_example :
    All
      (λ m.
        IsDecryptable cfg keys 7 refl (λ r m e p. (e, refl)) ((5 ∷ []) ∷ (6 ∷ []) ∷ []) m.payload)
      sent
sent_block-IsDecryptable_example =
    sent_block-IsDecryptable cfg keys 7 refl (λ r m e p. (e, refl)) ((5 ∷ []) ∷ (6 ∷ []) ∷ [])
      (0 ∷ 0 ∷ []) (omega arith) sends

abbrev chan : List Decryption
chan = ((some 300 ∷ []) ∷ []) ∷ []

builds :
    construct_block cfg 8 1 ((share 9).block ∷ []) chan
    ≡ ok (some (record { txs = (1 ∷ 44 ∷ []) ∷ []; txs_count = 2 }))
unfolding construct_block quality to_bytes
builds = refl

block_txs-AreDecrypted_example :
    All (IsDecrypted cfg 8 true (arrivals chan)) ((1 ∷ 44 ∷ []) ∷ [])
    × ((width : ℕ) × HasWidth chan width
        × (length {A = Bytes} ((1 ∷ 44 ∷ []) ∷ [])
            ≡ goal cfg 8 true (total_quality ((share 9).block ∷ [])) width))
block_txs-AreDecrypted_example = block_txs-AreDecrypted cfg 8 1 ((share 9).block ∷ []) chan builds

-- A round in which the node's small pre-block is full and its pointer is joined.
abbrev round_messages : List Payload
round_messages =
    block_message (record { sender = 0; is_large = false; payload = 7 ∷ []; sig = 4 }) ∷ messages

abbrev own : PreBlock
own = record { vec = some (record { message = 7 ∷ []; sig = 4 }) ∷ []; size = small }

abbrev round_final : State
round_final = record final { small_pb = own; ready_small = true; ready_chan = 1 }

round_runs : listen cfg round_messages (initial cfg) ≡ ok round_final
unfolding listen initial lookup insert pre_block_hash quality new_pre_block add_message
round_runs = refl

-- The input is the node's own block share.
own_input : acs_input cfg none round_final ≡ ok (some (record { block = own; pointer = pointer }))
unfolding acs_input is_well_formed_block_share
own_input = refl

acs_input_lem_example :
    ((acs_input cfg none round_final ≡ ok none)
      × (is_well_formed_block_share cfg none ≡ false)
      × ((round_final.ready_chan ≡ 0) ⊎ (round_final.ptr_chan ≡ 0)))
    ⊎ ((bs : BlockShare) × (acs_input cfg none round_final ≡ ok (some bs))
        × (((none ≡ some bs) × IsVerified cfg bs)
            ⊎ ((is_well_formed_block_share cfg none ≡ false)
                × IsOwn cfg round_messages round_final bs)))
acs_input_lem_example = acs_input_lem cfg round_messages none round_runs
