-- ===== src/Tardigrade/Rounds/Inputs.antt =====
-- tardigrade/tardigrade.go: what a round gives the common subset.
use upgrade.Prelude.{
  ℕ, zero, suc, ◌-◌, ◌≤◌, ◌≡◌, ◌⊎◌, inl, inr, refl, ◌&&◌, true, false, Option, none, some, List,
  ltb, ok, arith, Bool-cases, Option-cases,
}
use upgrade.Crypto.{Crypto}
use upgrade.Block.{BlockShare, BlockPointer, quality}
use upgrade.Tardigrade.{Config, State, Payload, initial, listen, is_well_formed_block_share}
use upgrade.Tardigrade.Pointers.{Origin, pointer-Origin}
use upgrade.Tardigrade.Rounds.{acs_input, share_with}
use upgrade.Tardigrade.Rounds.Ready.{IsReady, listened-IsReady}

one_missing : (a b : ℕ) → (ltb 0 a && ltb 0 b) ≡ false → (a ≡ 0) ⊎ (b ≡ 0)
one_missing zero b h = inl refl
one_missing (suc a) zero h = inr refl
one_missing (suc a) (suc b) h = absurd (ground arith)

module _ ⦃c : Crypto⦄ (cfg : Config) where
  -- The node's own block share: its small pre-block, of enough messages, with the pointer that it has,
  -- which came from the messages.
  abbrev pub IsOwn : List Payload → State → BlockShare → Type 0
  IsOwn ps s bs =
      (ptr : BlockPointer) × (s.ptr ≡ some ptr)
      × (bs ≡ record { block = s.small_pb; pointer = ptr })
      × (cfg.n - cfg.ta ≤ quality s.small_pb)
      × Origin cfg ps ptr

  abbrev pub IsVerified : BlockShare → Type 0
  IsVerified bs = c.verify_pkcs1v15 cfg.key_meta_c bs.pointer.block_hash bs.pointer.sig ≡ true

  well_formed :
      (o : Option BlockShare)
      → is_well_formed_block_share cfg o ≡ true
      → (bs : BlockShare) × (o ≡ some bs) × IsVerified bs
  unfolding is_well_formed_block_share
  well_formed none h = absurd (ground arith)
  well_formed (some bs) h = (bs, refl, h)

  module _ (bla_output : Option BlockShare) (s : State) where
    from_bla :
        is_well_formed_block_share cfg bla_output ≡ true
        → acs_input cfg bla_output s ≡ ok bla_output
    unfolding acs_input
    from_bla h = rw (h, acs_input) refl

    waits :
        is_well_formed_block_share cfg bla_output ≡ false
        → (ltb 0 s.ready_chan && ltb 0 s.ptr_chan) ≡ false
        → acs_input cfg bla_output s ≡ ok none
    unfolding acs_input
    waits h e = rw (h, acs_input) (rw (e, acs_input) refl)

    from_state :
        (ptr : BlockPointer)
        → is_well_formed_block_share cfg bla_output ≡ false
        → (ltb 0 s.ready_chan && ltb 0 s.ptr_chan) ≡ true
        → s.ptr ≡ some ptr
        → acs_input cfg bla_output s ≡ ok (some (share_with s ptr))
    unfolding acs_input
    from_state ptr h e p = rw (h, acs_input) (rw (e, acs_input) (rw (p, acs_input) refl))

  -- After any messages of the listener, the choice of the input for the common subset does not panic.
  -- The input is the output of block agreement, if its pointer verifies; otherwise it is the node's small
  -- pre-block, which has `n - ta` messages, with the block pointer that the node has, which was joined or
  -- received from these messages; and the round waits only while one of the two notices is missing.
  pub acs_input_lem :
      (ps : List Payload) {s : State} (bla_output : Option BlockShare)
      → listen cfg ps (initial cfg) ≡ ok s
      → ((acs_input cfg bla_output s ≡ ok none)
          × (is_well_formed_block_share cfg bla_output ≡ false)
          × ((s.ready_chan ≡ 0) ⊎ (s.ptr_chan ≡ 0)))
        ⊎ ((bs : BlockShare) × (acs_input cfg bla_output s ≡ ok (some bs))
            × (((bla_output ≡ some bs) × IsVerified bs)
                ⊎ ((is_well_formed_block_share cfg bla_output ≡ false) × IsOwn ps s bs)))
  acs_input_lem ps {s} bla_output e =
      elim (Bool-cases (is_well_formed_block_share cfg bla_output)) [
        | inl h ↦
            let (bs, p, v) = well_formed bla_output h in
            inr (bs, rw (from_bla bla_output s h) (rw p refl), inl (p, v))
        | inr h ↦ elim (Bool-cases (ltb 0 s.ready_chan && ltb 0 s.ptr_chan)) [
          | inr missing ↦
              inl (waits bla_output s h missing, h, one_missing s.ready_chan s.ptr_chan missing)
          | inl noticed ↦ elim (Option-cases s.ptr) [
            | inl nil ↦ absurd (ground (arith, r.pointed))
            | inr (ptr, p) ↦ inr (
              share_with s ptr,
              from_state bla_output s ptr h noticed p,
              inr (h, (ptr, p, refl, ground (arith, r.noticed), pointer-Origin cfg ps e p)),
            )
          ]
        ]
      ]
    where
      r : IsReady cfg s
      r = listened-IsReady cfg ps e
