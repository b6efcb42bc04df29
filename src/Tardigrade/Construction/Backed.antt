-- ===== src/Tardigrade/Construction/Backed.antt =====
-- tardigrade/tardigrade.go: where the transactions of a block come from.
use mathlib.Core.List.{append_assoc}
use upgrade.Prelude.{
  ℕ, suc, ◌++◌, IsIn, append_nil, ◌≡◌, refl, sym, ap, subst, ◌∙◌, Bool, true, false, Option, none,
  some, inl, inr, List, [], ◌∷◌, length, get_elem?, replicate, nat_eq, Run, ok, panic, ◌>>=◌,
  Ensures, All, arith, get_elem?-replicate,
}
use upgrade.Crypto.{Crypto}
use upgrade.Block.{Block, PreBlock}
use upgrade.Tardigrade.{Config, Decryption}
use upgrade.Tardigrade.Construction.{
  Build, Progress, going, finished, total_quality, goal, take_share, take_row, take_rows,
  take_messages, empty_build, finish_block, construct_block,
}
use upgrade.Tardigrade.Construction.Arrivals.{
  Arrival, row_arrivals, rows_arrivals, arrivals, HasWidth, shares_at, IsDecrypted,
}
use upgrade.Tardigrade.Construction.Stored.{Inv, IsDone, Goes, take_share-Goes}

module _ ⦃c : Crypto⦄ (cfg : Config) (enc_pk : c.EncryptionKey) where
  module _ (all : List Arrival) (W : ℕ → Type 0) (is_large : Bool) (txs_count : ℕ) where
    after-Goes :
        (before done : List Arrival) (run : Run Progress) (next : Build → Run Progress)
        → ((b : Build)
            → Inv cfg enc_pk all W is_large txs_count before b
            → Ensures (Goes cfg enc_pk all W is_large txs_count done) (next b))
        → Ensures (Goes cfg enc_pk all W is_large txs_count before) run
        → Ensures
            (Goes cfg enc_pk all W is_large txs_count done)
            (run >>= λ p. elim p [ finished b' ↦ ok (finished b') | going b' ↦ next b' ])
    after-Goes before done panic next h g = tt
    after-Goes before done (ok (finished b)) next h g = g
    after-Goes before done (ok (going b)) next h g = h b g

    take_row-Goes :
        (width node message : ℕ) (row : List (Option c.DecryptionShare))
        (before after : List Arrival) (b : Build)
        → all ≡ (before ++ row_arrivals node message row) ++ after
        → W width
        → Inv cfg enc_pk all W is_large txs_count before b
        → Ensures
            (Goes cfg enc_pk all W is_large txs_count (before ++ row_arrivals node message row))
            (take_row cfg enc_pk is_large txs_count width node message row b)
    unfolding take_row row_arrivals
    take_row-Goes width node message [] before after b split w inv =
        subst (λ l. Inv cfg enc_pk all W is_large txs_count l b) (sym (append_nil before)) inv
    take_row-Goes width node message (share ∷ rest) before after b split w inv =
        let a : Arrival = record { node = node; message = message; share = share } in
        let regroup : (before ++ a ∷ []) ++ row_arrivals node (suc message) rest
            ≡ before ++ (a ∷ row_arrivals node (suc message) rest) =
          append_assoc before (a ∷ []) (row_arrivals node (suc message) rest) in
        after-Goes (before ++ a ∷ []) _
          (take_share cfg enc_pk is_large txs_count width node message share b) _
          (λ b' inv'.
            subst
              (λ l.
                Ensures (Goes cfg enc_pk all W is_large txs_count l)
                  (take_row cfg enc_pk is_large txs_count width node (suc message) rest b'))
              regroup
              (take_row-Goes width node (suc message) rest (before ++ a ∷ []) after b'
                (split ∙ ap (λ l. l ++ after) (sym regroup)) w inv'))
          (take_share-Goes cfg enc_pk all W is_large txs_count width a before
            (row_arrivals node (suc message) rest ++ after) b
            (split ∙ ap (λ l. l ++ after) (sym regroup) ∙ append_assoc (before ++ a ∷ []) _ after) w
            inv)

    take_rows-Goes :
        (node : ℕ) (rows : Decryption) (before after : List Arrival) (b : Build)
        → all ≡ (before ++ rows_arrivals node rows) ++ after
        → ((row : List (Option c.DecryptionShare)) → IsIn row rows → W (length row))
        → Inv cfg enc_pk all W is_large txs_count before b
        → Ensures
            (Goes cfg enc_pk all W is_large txs_count (before ++ rows_arrivals node rows))
            (take_rows cfg enc_pk is_large txs_count node rows b)
    unfolding take_rows rows_arrivals
    take_rows-Goes node [] before after b split w inv =
        subst (λ l. Inv cfg enc_pk all W is_large txs_count l b) (sym (append_nil before)) inv
    take_rows-Goes node (row ∷ rows) before after b split w inv =
        let here = row_arrivals node 0 row in
        let regroup : (before ++ here) ++ rows_arrivals (suc node) rows
            ≡ before ++ (here ++ rows_arrivals (suc node) rows) =
          append_assoc before here (rows_arrivals (suc node) rows) in
        after-Goes (before ++ here) _
          (take_row cfg enc_pk is_large txs_count (length row) node 0 row b) _
          (λ b' inv'.
            subst
              (λ l.
                Ensures (Goes cfg enc_pk all W is_large txs_count l)
                  (take_rows cfg enc_pk is_large txs_count (suc node) rows b'))
              regroup
              (take_rows-Goes (suc node) rows (before ++ here) after b'
                (split ∙ ap (λ l. l ++ after) (sym regroup)) (λ row' m. w row' (inr m)) inv'))
          (take_row-Goes (length row) node 0 row before (rows_arrivals (suc node) rows ++ after) b
            (split ∙ ap (λ l. l ++ after) (sym regroup) ∙ append_assoc (before ++ here) _ after)
            (w row (inl refl)) inv)

    abbrev Ends : Option Build → Type 0
    Ends none = Unit
    Ends (some b) = IsDone cfg enc_pk all W is_large txs_count b

    take_messages-IsDone :
        (chan : List Decryption) (before : List Arrival) (b : Build)
        → all ≡ before ++ arrivals chan
        → ((width : ℕ) → HasWidth chan width → W width)
        → Inv cfg enc_pk all W is_large txs_count before b
        → Ensures Ends (take_messages cfg enc_pk is_large txs_count chan b)
    unfolding take_messages arrivals
    take_messages-IsDone [] before b split w inv = tt
    take_messages-IsDone (s ∷ chan) before b split w inv =
        let regroup = sym (append_assoc before (rows_arrivals 0 s) (arrivals chan)) in
        then_next (take_rows cfg enc_pk is_large txs_count 0 s b)
          (take_rows-Goes 0 s before (arrivals chan) b (split ∙ regroup)
            (λ row m. w (length row) (s, row, inl refl, m, refl)) inv)
          (λ b' inv'.
            take_messages-IsDone chan (before ++ rows_arrivals 0 s) b' (split ∙ regroup)
              (λ width (s', row, m, m', e). w width (s', row, inr m, m', e)) inv')
      where
        then_next :
            (run : Run Progress)
            → Ensures (Goes cfg enc_pk all W is_large txs_count (before ++ rows_arrivals 0 s)) run
            → ((b' : Build)
                → Inv cfg enc_pk all W is_large txs_count (before ++ rows_arrivals 0 s) b'
                → Ensures Ends (take_messages cfg enc_pk is_large txs_count chan b'))
            → Ensures Ends (
                run >>= λ p. elim p [
                  | finished b' ↦ ok (some b')
                  | going b' ↦ take_messages cfg enc_pk is_large txs_count chan b'
                ])
        then_next panic g ih = tt
        then_next (ok (finished b')) g ih = g
        then_next (ok (going b')) g ih = ih b' g

    empty-Inv : (rows n : ℕ) → Inv cfg enc_pk all W is_large txs_count [] (empty_build rows n)
    unfolding shares_at
    empty-Inv rows n = record {
      stored = λ node message row old p q.
          let same_row : replicate n [] ≡ row = get_elem?-replicate rows _ node p in
          sym (
            get_elem?-replicate n _ message
              (subst (λ r. get_elem? r message ≡ some old) (sym same_row) q));
      decrypted = tt;
      counted = refl;
    }

    finish_block-IsDecrypted :
        (tx_size : ℕ) (run : Run (Option Build)) {block : Block}
        → Ensures Ends run
        → (run >>= finish_block tx_size) ≡ ok (some block)
        → All (IsDecrypted cfg enc_pk is_large all) block.txs
          × ((width : ℕ) × W width × (length block.txs ≡ goal cfg enc_pk is_large txs_count width))
    unfolding finish_block
    finish_block-IsDecrypted tx_size panic h e = absurd (ground arith)
    finish_block-IsDecrypted tx_size (ok none) h e = absurd (ground arith)
    finish_block-IsDecrypted tx_size (ok (some b)) {block} h e =
        let same : b.txs ≡ block.txs = ground arith in
        (
          subst (All (IsDecrypted cfg enc_pk is_large all)) same h.decrypted,
          (h.width, h.is_width, sym (ap (λ txs. length txs) same) ∙ h.counted),
        )

  ends :
      (is_large : Bool) (blocks : List PreBlock) (rows tx_size : ℕ) (chan : List Decryption)
      {block : Block}
      → (take_messages cfg enc_pk is_large (total_quality blocks) chan (empty_build rows cfg.n)
          >>= finish_block tx_size)
        ≡ ok (some block)
      → All (IsDecrypted cfg enc_pk is_large (arrivals chan)) block.txs
        × ((width : ℕ) × HasWidth chan width
            × (length block.txs ≡ goal cfg enc_pk is_large (total_quality blocks) width))
  ends is_large blocks rows tx_size chan e =
      finish_block-IsDecrypted (arrivals chan) (HasWidth chan) is_large (total_quality blocks)
        tx_size _
        (take_messages-IsDone (arrivals chan) (HasWidth chan) is_large (total_quality blocks) chan
          [] _ refl (λ width h. h)
          (empty-Inv (arrivals chan) (HasWidth chan) is_large (total_quality blocks) rows cfg.n))
        e

  abbrev pub is_single : List PreBlock → Bool
  is_single (pb ∷ []) = true
  is_single blocks = false

  -- Where `constructBlock` returns a block, each of its transactions is what `CombineShares` makes of
  -- the shares that had come for one place at some moment of the arrival, each share once and in the
  -- order of arrival, and these are more than half as many as the committee has members; nil shares
  -- are among them only where there is one pre-block. With several pre-blocks the number of
  -- transactions is the sum of their qualities, and with one it is its quality times the number of
  -- shares in a row of a message that came.
  pub block_txs-AreDecrypted :
      (tx_size : ℕ) (blocks : List PreBlock) (chan : List Decryption) {block : Block}
      → construct_block cfg enc_pk tx_size blocks chan ≡ ok (some block)
      → All (IsDecrypted cfg enc_pk (is_single blocks) (arrivals chan)) block.txs
        × ((width : ℕ) × HasWidth chan width
            × (length block.txs ≡ goal cfg enc_pk (is_single blocks) (total_quality blocks) width))
  unfolding construct_block
  block_txs-AreDecrypted tx_size [] chan e = ends false [] 0 tx_size chan e
  block_txs-AreDecrypted tx_size (pb ∷ []) chan e =
      ends true (pb ∷ []) (length pb.vec) tx_size chan e
  block_txs-AreDecrypted tx_size (pb ∷ pb' ∷ rest) chan e =
      ends false (pb ∷ pb' ∷ rest) (length (pb ∷ pb' ∷ rest)) tx_size chan e
