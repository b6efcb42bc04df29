-- ===== src/Block.antt =====
-- utils/block.go: blocks, pre-blocks, block pointers, block shares and their hashes. A nil entry
-- of a pre-block's vector is `none`; the other pointers are taken to be set, as the code does.
pub mod Quality
pub mod Hashes
use upgrade.Prelude.{
  ℕ, suc, Bytes, Option, none, some, List, [], ◌∷◌, ◌++◌, get_elem?, set, replicate, Run, ok, panic,
}
use upgrade.Crypto.{Crypto}

pub record Block : Type 0 where
  pub txs : List Bytes
  pub txs_count : ℕ

unfoldable pub concat : List Bytes → Bytes
concat [] = []
concat (tx ∷ rest) = tx ++ concat rest

-- PreBlock.Size, a string that is compared with "large" only.
pub data Size : Type 0 where
  large small unset : Size

module _ ⦃c : Crypto⦄ where
  pub block_hash : Block → Bytes
  unfolding concat
  block_hash block = c.sha256 (concat block.txs)

  pub record PreBlockMessage : Type 0 where
    pub message : Bytes
    pub sig : c.SigShare

  pub record PreBlock : Type 0 where
    pub vec : List (Option PreBlockMessage)
    pub size : Size

  pub record BlockPointer : Type 0 where
    pub block_hash : Bytes
    pub sig : Bytes

  pub record BlockShare : Type 0 where
    pub block : PreBlock
    pub pointer : BlockPointer

  add_at : PreBlock → ℕ → PreBlockMessage → Option (Option PreBlockMessage) → Run PreBlock
  add_at pre node message none = panic
  add_at pre node message (some none) = ok (record pre { vec = set pre.vec node (some message) })
  add_at pre node message (some (some old)) = ok pre

  -- The first message of a node stays; an index out of range panics.
  unfoldable pub add_message : PreBlock → ℕ → PreBlockMessage → Run PreBlock
  unfolding add_at
  add_message pre node message = add_at pre node message (get_elem? pre.vec node)

  unfoldable pub count_set : List (Option PreBlockMessage) → ℕ
  count_set [] = 0
  count_set (none ∷ vec) = count_set vec
  count_set (some m ∷ vec) = suc (count_set vec)

  unfoldable pub quality : PreBlock → ℕ
  unfolding count_set
  quality pre = count_set pre.vec

  -- The bytes that a pre-block's hash covers.
  vec_bytes : List (Option PreBlockMessage) → Bytes
  vec_bytes [] = []
  vec_bytes (none ∷ vec) = vec_bytes vec
  vec_bytes (some m ∷ vec) = (m.message ++ c.xi m.sig) ++ vec_bytes vec

  unfoldable pub pre_block_hash : PreBlock → Bytes
  unfolding vec_bytes
  pre_block_hash pre = c.sha256 (vec_bytes pre.vec)

  unfoldable pub pointer_hash : BlockPointer → Bytes
  pointer_hash ptr = c.sha256 (ptr.block_hash ++ ptr.sig)

  unfoldable pub share_hash : BlockShare → Bytes
  unfolding pointer_hash pre_block_hash
  share_hash bs = c.sha256 (pointer_hash bs.pointer ++ pre_block_hash bs.block)

  unfoldable pub new_pre_block : ℕ → PreBlock
  new_pre_block n = record { vec = replicate n none; size = unset }

  sign_message : Bytes → c.KeyShare → c.KeyMeta → Option Bytes → Option PreBlockMessage
  sign_message mes share meta none = none
  sign_message mes share meta (some padded) = elim (c.sign share padded meta) [
    | none ↦ none
    | some sig ↦ some (record { message = mes; sig = sig })
  ]

  unfoldable pub new_pre_block_message : Bytes → c.KeyShare → c.KeyMeta → Option PreBlockMessage
  unfolding sign_message
  new_pre_block_message mes share meta =
      sign_message mes share meta (c.prepare_document_hash (c.public_key_size meta) (c.sha256 mes))
