-- ===== src/Tests/Listeners.antt =====
-- The listener at the one member of the committee, which receives its own pre-block.
use upgrade.Prelude.{
  ◌≡◌, refl, true, some, none, List, [], ◌∷◌, ok, lookup, insert, nat_eq, bytes_eq,
}
use upgrade.Block.{BlockPointer, pre_block_hash}
use upgrade.Tardigrade.{Payload, committee_message, pointer_message, Config, State, initial, listen}
use upgrade.Tardigrade.Pointers.{Origin, pointer-Origin}
use upgrade.Tests.Toy.{toy, share}

abbrev pub cfg : Config
cfg = record {
  n = 1;
  node_id = 0;
  ta = 0;
  committee = (0, true) ∷ [];
  key_meta = 5;
  key_meta_c = 6;
  proof = 2;
  sig_sk = some 3;
}

abbrev pub messages : List Payload
messages =
    committee_message (record {
      sender = 0;
      pre_block = some (share 9).block;
      hash = 9 ∷ 1 ∷ [];
      hash_sig = some 3;
      proof = some 2;
    })
    ∷ []

abbrev pub pointer : BlockPointer
pointer = record { block_hash = 9 ∷ 1 ∷ []; sig = 1 ∷ [] }

abbrev pub final : State
final = record (initial cfg) {
  ptr_chan = 1;
  ptr = some pointer;
  large_block_chan = some (share 9).block ∷ [];
  blocks_received = (9 ∷ 1 ∷ [], (0, 3) ∷ []) ∷ [];
  sent =
      record {
        receiver = none;
        payload = pointer_message (record { sender = 0; pointer = pointer });
      }
      ∷ [];
}

runs : listen cfg messages (initial cfg) ≡ ok final
unfolding listen initial lookup insert pre_block_hash
runs = refl

pointer-Origin_example : Origin cfg messages pointer
pointer-Origin_example = pointer-Origin cfg messages runs refl
