-- ===== src/Tardigrade/Construction.antt =====
-- tardigrade/tardigrade.go: `constructBlock`, which puts a block together from decryption shares.
pub mod Arrivals
pub mod Stored
pub mod Backed
use upgrade.Prelude.{
  ℕ, zero, suc, ◌+◌, ◌*◌, ◌/◌, Bytes, Bool, true, false, Option, none, some, List, [], ◌∷◌, ◌++◌,
  GoMap, get_elem?, set, replicate, length, leb, ◌==◌, nat_eq, if◌then◌else◌, Run, ok, panic, ◌>>=◌,
  to_bytes,
}
use upgrade.Crypto.{Crypto}
use upgrade.Block.{Block, PreBlock, quality}
use upgrade.Tardigrade.{Config, Decryption}

module _ ⦃c : Crypto⦄ where
  -- `decshares`, and the variables that the loops change.
  pub record Build : Type 0 where
    pub shares : List (List (List (Option c.DecryptionShare)))
    pub txs : List Bytes
    pub bytes_counter : ℕ
    pub dec_counter : ℕ

  -- `goto Done` leaves all the loops.
  pub data Progress : Type 0 where
    going finished : Build → Progress

  unfoldable pub total_quality : List PreBlock → ℕ
  total_quality [] = 0
  total_quality (pb ∷ rest) = quality pb + total_quality rest

  abbrev pub threshold : Config → ℕ
  threshold cfg = length cfg.committee / 2 + 1

  -- `is_large` is the branch of one pre-block, whose messages have as many ciphertexts as a row has
  -- shares.
  module _ (cfg : Config) (enc_pk : c.EncryptionKey) (is_large : Bool) (txs_count : ℕ) where
    abbrev pub goal : ℕ → ℕ
    goal width = if is_large then txs_count * width else txs_count

    -- Only the branch of several pre-blocks leaves nil shares out.
    abbrev pub append_share :
        Option c.DecryptionShare → List (Option c.DecryptionShare) → List (Option c.DecryptionShare)
    append_share (some d) old = old ++ some d ∷ []
    append_share none old = if is_large then old ++ none ∷ [] else old

    abbrev pub add_tx : ℕ → Build → Build
    add_tx d b = record b {
      txs = b.txs ++ to_bytes d ∷ [];
      bytes_counter = b.bytes_counter + length (to_bytes d);
      dec_counter = suc b.dec_counter;
    }

    unfoldable pub add_combined : ℕ → Option ℕ → Build → Progress
    add_combined width none b = going b
    add_combined width (some d) b =
        if suc b.dec_counter == goal width then finished (add_tx d b) else going (add_tx d b)

    unfoldable pub combine : ℕ → List (Option c.DecryptionShare) → Build → Progress
    unfolding add_combined
    combine width on b =
        if leb (threshold cfg) (length on)
        then add_combined width (c.combine_shares enc_pk on) b
        else going b

    -- An index past `decshares` panics.
    unfoldable pub take_share : ℕ → ℕ → ℕ → Option c.DecryptionShare → Build → Run Progress
    unfolding combine
    take_share width node message share b = elim (get_elem? b.shares node) [
      | none ↦ panic
      | some row ↦ elim (get_elem? row message) [
        | none ↦ panic
        | some old ↦ ok (
            combine width (append_share share old)
              (record b { shares = set b.shares node (set row message (append_share share old)) }))
      ]
    ]

    -- The shares of row `node` from index `message` on.
    unfoldable pub take_row : ℕ → ℕ → ℕ → List (Option c.DecryptionShare) → Build → Run Progress
    unfolding take_share
    take_row width node message [] b = ok (going b)
    take_row width node message (share ∷ rest) b = take_share width node message share b >>= λ p.
        elim p [
          | finished b' ↦ ok (finished b')
          | going b' ↦ take_row width node (suc message) rest b'
        ]

    unfoldable pub take_rows : ℕ → Decryption → Build → Run Progress
    unfolding take_row
    take_rows node [] b = ok (going b)
    take_rows node (row ∷ rows) b = take_row (length row) node 0 row b >>= λ p. elim p [
      | finished b' ↦ ok (finished b')
      | going b' ↦ take_rows (suc node) rows b'
    ]

    -- `none` while the loop waits for more shares.
    unfoldable pub take_messages : List Decryption → Build → Run (Option Build)
    unfolding take_rows
    take_messages [] b = ok none
    take_messages (s ∷ chan) b = take_rows 0 s b >>= λ p. elim p [
      | finished b' ↦ ok (some b')
      | going b' ↦ take_messages chan b'
    ]

  abbrev pub empty_build : ℕ → ℕ → Build
  empty_build rows n = record {
    shares = replicate rows (replicate n []);
    txs = [];
    bytes_counter = 0;
    dec_counter = 0;
  }

  -- A transaction size of 0 panics.
  unfoldable pub finish_block : ℕ → Option Build → Run (Option Block)
  finish_block tx_size none = ok none
  finish_block tx_size (some b) =
      if tx_size == 0
      then panic
      else ok (some (record { txs = b.txs; txs_count = b.bytes_counter / tx_size }))

  unfoldable pub construct_block :
      Config → c.EncryptionKey → ℕ → List PreBlock → List Decryption → Run (Option Block)
  unfolding total_quality take_messages finish_block
  construct_block cfg enc_pk tx_size (pb ∷ []) chan =
      take_messages cfg enc_pk true (total_quality (pb ∷ [])) chan
        (empty_build (length pb.vec) cfg.n)
      >>= finish_block tx_size
  construct_block cfg enc_pk tx_size blocks chan =
      take_messages cfg enc_pk false (total_quality blocks) chan (empty_build (length blocks) cfg.n)
      >>= finish_block tx_size
