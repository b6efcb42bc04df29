-- ===== src/Tardigrade/Buffer.antt =====
-- tardigrade/tardigrade.go: the buffer of transactions and the blocks of a node, `FillBuffer`,
-- `proposeTxs`, `setBlock` and `GetBlocks`.
pub mod Removal
pub mod Draws
use upgrade.Prelude.{
  ℕ, zero, suc, ◌+◌, ◌-◌, ◌^◌, ◌/◌, ◌%◌, Bytes, bytes_eq, Bool, true, false, Option, none, some,
  List, [], ◌∷◌, ◌++◌, GoMap, lookup, insert, get_or, get_elem?, set, take, length, ltb, ◌==◌,
  nat_eq, if◌then◌else◌, Run, ok, panic, ◌>>=◌,
}
use upgrade.Crypto.{Crypto}
use upgrade.Block.{Block}

-- The fields of `ABC` that change. A time is its nanoseconds since Go's zero time, so that a missing
-- key of `latency` reads as 0; a nil transaction is an empty one.
pub record Node : Type 0 where
  pub buf : List Bytes
  pub blocks : GoMap ℕ Block
  pub latency : GoMap Bytes ℕ
  pub latency_total : ℕ
  pub finished_rounds : ℕ

unfoldable pub new_node : Node
new_node = record { buf = []; blocks = []; latency = []; latency_total = 0; finished_rounds = 0 }

-- `time.Since`, which stops at the largest duration.
abbrev pub since : ℕ → ℕ → ℕ
since now start = if ltb (now - start) (2 ^ 63) then now - start else 2 ^ 63 - 1

-- The sum of two durations, 64-bit numbers in two's complement, of which the bits are kept: it wraps
-- around.
abbrev pub add_durations : ℕ → ℕ → ℕ
add_durations a b = (a + b) % 2 ^ 64

-- The quotient of a duration, negative from `2 ^ 63` on, which is rounded towards zero.
abbrev pub divide_duration : ℕ → ℕ → ℕ
divide_duration a k = if ltb a (2 ^ 63) then a / k else (2 ^ 64 - (2 ^ 64 - a) / k) % 2 ^ 64

-- `arr` while `remove` shortens it: its cells, of which the first `len` are the slice. Then what
-- `setBlock` counts.
pub record Scan : Type 0 where
  pub cells : List Bytes
  pub len : ℕ
  pub removed : ℕ
  pub waited : ℕ

abbrev pub last_of : Scan → Bytes
last_of s = get_or (get_elem? s.cells (s.len - 1)) []

-- The last transaction moves into place `i`; an index past the slice panics.
unfoldable pub remove : ℕ → Scan → Run Scan
remove i s =
    if ltb i s.len
    then ok (record s { cells = set (set s.cells i (last_of s)) (s.len - 1) []; len = s.len - 1 })
    else panic

-- What `rand.Intn` gives is read off a list of numbers, modulo `m`. `ok none` is a loop that goes on
-- past the end of that list.
choose : List Bytes → ℕ → List ℕ → ℕ → GoMap ℕ Bool → List Bytes → Run (Option (List Bytes))
choose buf m draws zero indices result = ok (some result)
choose buf m [] (suc l) indices result = if m == 0 then panic else ok none
choose buf m (d ∷ draws) (suc l) indices result = elim (m == 0) [
  | true ↦ panic
  | false ↦ elim (get_or (lookup (d % m) indices) false) [
    | true ↦ choose buf m draws (suc l) indices result
    | false ↦ elim (get_elem? buf (d % m)) [
      | none ↦ panic
      | some tx ↦ choose buf m draws l (insert (d % m) true indices) (result ++ tx ∷ [])
    ]
  ]
]

unfoldable pub propose_txs : ℕ → ℕ → List ℕ → Node → Run (Option (List Bytes))
unfolding choose
propose_txs l m draws node =
    choose node.buf (if ltb (length node.buf) m then length node.buf else m) draws l [] []

unfoldable pub get_blocks : Node → GoMap ℕ Block
get_blocks node = node.blocks

module _ ⦃c : Crypto⦄ where
  unfoldable pub stamp : ℕ → List Bytes → GoMap Bytes ℕ → GoMap Bytes ℕ
  stamp now [] latency = latency
  stamp now (tx ∷ txs) latency = stamp now txs (insert (c.sha256 tx) now latency)

  unfoldable pub fill_buffer : ℕ → List Bytes → Node → Node
  unfolding stamp
  fill_buffer now txs node = record node {
    buf = node.buf ++ txs;
    latency = stamp now txs node.latency;
  }

  module _ (now : ℕ) (latency : GoMap Bytes ℕ) (tx : Bytes) where
    -- One round of the loop over the buffer. The loop reads the cell of the array, also past the end
    -- of the shortened slice.
    unfoldable pub visit : ℕ → Scan → Run Scan
    unfolding remove
    visit i s = elim (get_elem? s.cells i) [
      | none ↦ panic
      | some buf_tx ↦
          if tx == buf_tx
          then remove i (record s {
            removed = suc s.removed;
            waited = add_durations s.waited (since now (get_or (lookup (c.sha256 tx) latency) 0));
          })
          else ok s
    ]

    -- `count` rounds from index `i` on.
    unfoldable pub scan : ℕ → ℕ → Scan → Run Scan
    unfolding visit
    scan zero i s = ok s
    scan (suc count) i s = visit i s >>= scan count (suc i)

  -- The number of rounds is the length of the buffer when the loop over it begins.
  unfoldable pub remove_all : ℕ → GoMap Bytes ℕ → List Bytes → Scan → Run Scan
  unfolding scan
  remove_all now latency [] s = ok s
  remove_all now latency (tx ∷ txs) s = scan now latency tx (length s.cells) 0 s >>= λ t.
      remove_all now latency txs (record t { cells = take t.len t.cells })

  -- The count of transactions in the block, of those removed, and the mean latency.
  unfoldable pub set_block : ℕ → ℕ → Block → Node → Run (Node × ℕ × ℕ × ℕ)
  unfolding remove_all
  set_block now r block node =
      remove_all now node.latency block.txs
        (record { cells = node.buf; len = length node.buf; removed = 0; waited = 0 })
      >>= λ s. ok (
        record node { buf = s.cells; blocks = insert r block node.blocks },
        length block.txs,
        s.removed,
        (if s.removed == 0 then s.waited else divide_duration s.waited s.removed),
      )
