-- ===== src/Tests/Blocks.antt =====
-- A pre-block of two nodes.
use upgrade.Prelude.{none, some, [], ◌∷◌, Returns, arith}
use upgrade.Block.{PreBlockMessage, PreBlock, unset, add_message}
use upgrade.Block.Quality.{Adds, add_message-Adds}
use upgrade.Tests.Toy.{toy}

abbrev entry : PreBlockMessage
entry = record { message = 4 ∷ []; sig = 1 }

abbrev half_full : PreBlock
half_full = record { vec = some entry ∷ none ∷ []; size = unset }

add_message-Adds_example : Returns (add_message half_full 1 entry) (Adds half_full 1 entry)
add_message-Adds_example = add_message-Adds half_full 1 entry (omega arith)
