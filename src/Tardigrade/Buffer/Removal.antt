-- ===== src/Tardigrade/Buffer/Removal.antt =====
-- tardigrade/tardigrade.go: what `setBlock` leaves in the buffer.
use upgrade.Prelude.{
  ℕ, zero, suc, ◌+◌, ◌≤◌, ◌≡◌, ◌≢◌, refl, sym, ap, subst, ◌∙◌, Bytes, bytes_eq, bytes_beq_iff,
  false, some, inl, inr, List, [], ◌∷◌, GoMap, lookup, insert, get_or, get_elem?, set, take, length,
  ◌==◌, if◌then◌else◌, ok, ◌>>=◌, Returns, arith, All, count, contains, Bool-cases,
  get_elem?-eq-some, get_elem?-set_self, length-set, length-take, take-set, take_all,
  count-get_elem?, count-take-suc, count-swap_remove, count-take_at, nat_eq,
}
use upgrade.Crypto.{Crypto}
use upgrade.Block.{Block}
use upgrade.Tardigrade.Buffer.{
  Node, Scan, since, remove, visit, scan, remove_all, set_block, add_durations, divide_duration,
}

-- What taking one transaction out of a full slice does.
record Removed (tx : Bytes) (s t : Scan) : Type 0 where
  shorter : suc t.len ≡ s.len
  same_length : length t.cells ≡ length s.cells
  counted : t.removed ≡ s.removed
  gone : count tx t.cells ≡ 0
  others : (x : Bytes) → count x (take t.len t.cells) + (if x == tx then 1 else 0) ≡ count x s.cells

-- The cells when the last of `k + 1` has moved into place `i`.
abbrev swapped : List Bytes → ℕ → ℕ → List Bytes
swapped cells i k = set (set cells i (get_or (get_elem? cells k) [])) k []

module _ (tx : Bytes) (cells : List Bytes) (i k : ℕ) (filled : tx ≢ []) (len : length cells ≡ suc k)
    (l : i ≤ k) (hit : get_elem? cells i ≡ some tx) where
  count-swapped :
      (x : Bytes)
      → count x (take k (swapped cells i k)) + (if x == tx then 1 else 0) ≡ count x cells
  count-swapped x =
      let kept = take-set (set cells i (get_or (get_elem? cells k) [])) k k [] (omega arith) in
      rw kept (let taken = count-swap_remove x [] cells i k len l in rw hit at taken)

  swapped_gone : count tx cells ≤ 1 → count tx (swapped cells i k) ≡ 0
  swapped_gone once =
      let same : length (swapped cells i k) ≡ suc k =
        length-set (set cells i (get_or (get_elem? cells k) [])) k []
        ∙ length-set cells i (get_or (get_elem? cells k) [])
        ∙ len in
      let end : get_elem? (swapped cells i k) k ≡ some [] =
        get_elem?-set_self (set cells i (get_or (get_elem? cells k) [])) k []
          (omega (arith, length-set cells i (get_or (get_elem? cells k) []))) in
      ground (
        arith,
        count-take-suc tx [] (swapped cells i k) k same,
        end,
        count-swapped tx,
        bytes_beq_iff tx tx,
        bytes_beq_iff tx [],
      )

abbrev full : List Bytes → ℕ → ℕ → ℕ → Scan
full cells len removed waited = record {
  cells = cells;
  len = len;
  removed = removed;
  waited = waited;
}

remove_last-Removed :
    (tx : Bytes) (i k removed waited : ℕ) (cells : List Bytes)
    → tx ≢ []
    → length cells ≡ suc k
    → get_elem? cells i ≡ some tx
    → i ≤ k
    → count tx cells ≤ 1
    → Returns
        (remove i (full cells (suc k) removed waited))
        (Removed tx (full cells (suc k) removed waited))
unfolding remove
remove_last-Removed tx i k removed waited cells e len hit l once = (
  full (swapped cells i k) k removed waited,
  ground arith,
  record {
    shorter = refl;
    same_length =
        length-set (set cells i (get_or (get_elem? cells k) [])) k []
        ∙ length-set cells i (get_or (get_elem? cells k) []);
    counted = refl;
    gone = swapped_gone tx cells i k e len l hit once;
    others = count-swapped tx cells i k e len l hit;
  },
)

remove-Removed :
    (tx : Bytes) (i k removed waited : ℕ) (cells : List Bytes)
    → tx ≢ []
    → length cells ≡ suc k
    → get_elem? cells i ≡ some tx
    → i ≤ k
    → count tx cells ≤ 1
    → Returns
        (remove i (full cells (length cells) removed waited))
        (Removed tx (full cells (length cells) removed waited))
remove-Removed tx i k removed waited cells e len hit l once =
    subst
      (λ m.
        Returns (remove i (full cells m removed waited)) (Removed tx (full cells m removed waited)))
      (sym len) (remove_last-Removed tx i k removed waited cells e len hit l once)

module _ ⦃c : Crypto⦄ (now : ℕ) (latency : GoMap Bytes ℕ) (tx : Bytes) where
  visit-miss :
      (i : ℕ) (s : Scan) {cell : Bytes}
      → get_elem? s.cells i ≡ some cell
      → (tx == cell) ≡ false
      → visit now latency tx i s ≡ ok s
  unfolding visit
  visit-miss i s at miss = rw (at, visit) (rw miss refl)

  -- Where the transaction is absent, the loop changes nothing.
  scan_idle :
      (n i : ℕ) (s : Scan)
      → i + n ≡ length s.cells
      → count tx s.cells ≡ 0
      → scan now latency tx n i s ≡ ok s
  unfolding scan
  scan_idle zero i s e h = refl
  scan_idle (suc n) i s e h =
      let (cell, at) = get_elem?-eq-some s.cells i (omega arith) in
      let miss : (tx == cell) ≡ false =
        ground (arith, bytes_beq_iff tx cell, count-get_elem? tx s.cells i h) in
      rw (visit-miss i s at miss) (scan_idle n (suc i) s (omega arith) h)

  visit-hit :
      (i : ℕ) (s : Scan)
      → get_elem? s.cells i ≡ some tx
      → visit now latency tx i s
        ≡ remove i (record s {
          removed = suc s.removed;
          waited = add_durations s.waited (since now (get_or (lookup (c.sha256 tx) latency) 0));
        })
  unfolding visit
  visit-hit i s at = rw (at, visit) (rw ((bytes_beq_iff tx tx).1 refl) refl)

  -- What the loop for one transaction leaves, in a buffer that has it once at most.
  record Swept (s t : Scan) : Type 0 where
    short : t.len ≤ length t.cells
    counted : t.len + t.removed ≡ s.len + s.removed
    kept : (x : Bytes) → count x (take t.len t.cells) ≡ (if x == tx then 0 else count x s.cells)

  module _ (cells : List Bytes) (filled : tx ≢ []) (once : count tx cells ≤ 1) where
    unswept : (s : Scan) → s.cells ≡ cells → s.len ≡ length cells → count tx cells ≡ 0 → Swept s s
    unswept s same full gone = record {
      short = rw (same, full) (omega arith);
      counted = refl;
      kept = λ x.
          rw (same, full)
            (rw (take_all cells (length cells) (omega arith)) (ground (arith, bytes_beq_iff x tx)));
    }

    swept :
        (removed waited waited' : ℕ) (t : Scan)
        → Removed tx (full cells (length cells) (suc removed) waited') t
        → Swept (full cells (length cells) removed waited) t
    swept removed waited waited' t r = record {
      short = ground (arith, r.shorter, r.same_length);
      counted = ground (arith, r.shorter, r.counted);
      kept = λ x. ground (arith, r.others x, bytes_beq_iff x tx);
    }

    scan-Swept :
        (n i removed waited : ℕ)
        → i + n ≡ length cells
        → count tx (take i cells) ≡ 0
        → Returns
            (scan now latency tx n i (full cells (length cells) removed waited))
            (Swept (full cells (length cells) removed waited))
    unfolding scan
    scan-Swept zero i removed waited e before = (
      full cells (length cells) removed waited,
      refl,
      unswept (full cells (length cells) removed waited) refl refl
          (let all : take i cells ≡ cells = take_all cells i (omega arith) in rw all at before),
    )
    scan-Swept (suc n) i removed waited e before =
        let (cell, at) = get_elem?-eq-some cells i (omega arith) in
        elim (Bool-cases (tx == cell)) [
          | inl same ↦ hit (at ∙ ap some (sym ((bytes_beq_iff tx cell).0 same)))
          | inr miss ↦ rw (visit-miss i (full cells (length cells) removed waited) at miss) (
              scan-Swept n (suc i) removed waited (omega arith)
                (ground (arith, count-take_at tx cells i at)))
        ]
      where
        hit :
            get_elem? cells i ≡ some tx
            → Returns
                (visit now latency tx i (full cells (length cells) removed waited)
                  >>= scan now latency tx n (suc i))
                (Swept (full cells (length cells) removed waited))
        hit at =
            let waited' =
              add_durations waited (since now (get_or (lookup (c.sha256 tx) latency) 0)) in
            let (t, ran, r) =
              remove-Removed tx i (i + n) (suc removed) waited' cells filled (omega arith) at
                (omega arith) once in
            let idle : scan now latency tx n (suc i) t ≡ ok t =
              scan_idle n (suc i) t (omega (arith, r.same_length)) r.gone in
            (
              t,
              rw (visit-hit i (full cells (length cells) removed waited) at) (rw ran idle),
              swept removed waited waited' t r,
            )

module _ ⦃c : Crypto⦄ where
  -- What the loops for all transactions of a block leave.
  record Cleared (txs : List Bytes) (s t : Scan) : Type 0 where
    counted : length t.cells + t.removed ≡ length s.cells + s.removed
    kept : (x : Bytes) → count x t.cells ≡ (if contains x txs then 0 else count x s.cells)

  remove_all-Cleared :
      (now : ℕ) (latency : GoMap Bytes ℕ) (txs : List Bytes) (cells : List Bytes)
      (removed waited : ℕ)
      → All (λ tx. tx ≢ []) txs
      → ((x : Bytes) → count x cells ≤ 1)
      → Returns
          (remove_all now latency txs (full cells (length cells) removed waited))
          (Cleared txs (full cells (length cells) removed waited))
  unfolding remove_all contains count
  remove_all-Cleared now latency [] cells removed waited filled once =
      (full cells (length cells) removed waited, refl, record { counted = refl; kept = λ x. refl })
  remove_all-Cleared now latency (tx ∷ txs) cells removed waited filled once =
      let (t, ran, w) =
        scan-Swept now latency tx cells filled.0 (once tx) (length cells) 0 removed waited
          (omega arith) refl in
      let short : length (take t.len t.cells) ≡ t.len = length-take t.cells t.len w.short in
      let (u, ran', d) =
        remove_all-Cleared now latency txs (take t.len t.cells) t.removed t.waited filled.1
          (λ x. ground (arith, w.kept x, once x)) in
      (
        u,
        rw ran (rw short at ran'),
        record {
          counted = omega (arith, w.counted, d.counted);
          kept = λ x. ground (arith, d.kept x, w.kept x);
        },
      )

  -- On a buffer without duplicates and a block without empty transactions, `setBlock` does not panic.
  -- It takes out exactly the transactions of the block that the buffer has, whatever their order, counts
  -- them, sets the block of the round, and leaves the other fields as they are.
  pub set_block_lem :
      (now r : ℕ) (block : Block) (node : Node)
      → All (λ tx. tx ≢ []) block.txs
      → ((x : Bytes) → count x node.buf ≤ 1)
      → Returns (set_block now r block node) (λ out.
        ((x : Bytes) → count x out.0.buf ≡ (if contains x block.txs then 0 else count x node.buf))
        × (length out.0.buf + out.2 ≡ length node.buf)
        × (out.1 ≡ length block.txs)
        × (out.0 ≡ record node { buf = out.0.buf; blocks = insert r block node.blocks }))
  unfolding set_block
  set_block_lem now r block node filled once =
      let (t, ran, d) = remove_all-Cleared now node.latency block.txs node.buf 0 0 filled once in
      (
        (
          record node { buf = t.cells; blocks = insert r block node.blocks },
          length block.txs,
          t.removed,
          (if t.removed == 0 then t.waited else divide_duration t.waited t.removed),
        ),
        rw ran refl,
        (d.kept, omega (arith, d.counted), refl, refl),
      )
