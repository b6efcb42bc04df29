-- ===== src/Tardigrade/Rounds.antt =====
-- tardigrade/tardigrade.go: `runProtocol`, one round of a node, and tardigrade/utils.go.
pub mod Ready
pub mod Inputs
use upgrade.Prelude.{
  ℕ, zero, suc, ◌+◌, ◌*◌, ◌/◌, Bytes, bytes_eq, Bool, true, false, ◌&&◌, Option, none, some, List,
  [], ◌∷◌, ◌++◌, GoMap, lookup, get_or, length, ltb, ◌==◌, nat_eq, if◌then◌else◌, Run, ok, panic,
  ◌>>=◌,
}
use upgrade.Crypto.{Crypto}
use upgrade.Block.{Block, PreBlock, BlockPointer, BlockShare, pre_block_hash}
use upgrade.Tardigrade.{Config, State, Sent, Decryption, is_in, is_well_formed_block_share}
use upgrade.Tardigrade.Buffer.{add_durations, Node, propose_txs, set_block}
use upgrade.Tardigrade.Encryption.{
  Keys, handle_small_transaction, handle_large_transaction, send_decryption_shares,
  wait_for_matching_block,
}
use upgrade.Tardigrade.Construction.{construct_block}

module _ ⦃c : Crypto⦄ where
  abbrev pub share_with : State → BlockPointer → BlockShare
  share_with s ptr = record { block = s.small_pb; pointer = ptr }

  abbrev pub share_of_state : State → Option BlockShare
  share_of_state s = elim s.ptr [ none ↦ none | some ptr ↦ some (share_with s ptr) ]

  -- At time 4 delta: the input of block agreement, where it is run at all.
  unfoldable pub bla_input : State → Option BlockShare
  bla_input s = if s.ready_small then share_of_state s else none

  -- `bla_output` is none too where block agreement is not run. Without a well-formed output the round
  -- waits until both channels have an entry; `s` is the listener's state then. `ok none` is a wait.
  unfoldable pub acs_input : Config → Option BlockShare → State → Run (Option BlockShare)
  acs_input cfg bla_output s =
      if is_well_formed_block_share cfg bla_output
      then ok bla_output
      else if ltb 0 s.ready_chan && ltb 0 s.ptr_chan
      then elim s.ptr [ none ↦ panic | some ptr ↦ ok (some (share_with s ptr)) ]
      else ok none

  abbrev pub blocks_of : List BlockShare → List PreBlock
  blocks_of [] = []
  blocks_of (bs ∷ rest) = bs.block ∷ blocks_of rest

  module _ (cfg : Config) (keys : Keys) (tx_size : ℕ) where
    -- The proposals of time 0, sent by a goroutine of their own: to each node one of the first
    -- transactions, encrypted with its number of `rs`, then the others to the committee. `n * n` of the code, divided by `n`, is `n`.
    abbrev pub send_small : ℕ → List ℕ → List Bytes → List Sent
    send_small i rs [] = []
    send_small i [] (tx ∷ txs) = []
    send_small i (r ∷ rs) (tx ∷ txs) =
        handle_small_transaction cfg keys i r tx ++ send_small (suc i) rs txs

    unfoldable pub propose_all :
        ℕ → List ℕ → List ℕ → List ℕ → List ℕ → Node → Run (Option (List Sent))
    propose_all kappa draws draws' rs rs' node =
        propose_txs (cfg.n * cfg.n / cfg.n) (cfg.n * cfg.n * kappa) draws node >>= λ v. elim v [
          | none ↦ ok none
          | some v ↦
              propose_txs (cfg.n * cfg.n / cfg.n) (cfg.n * cfg.n * kappa) draws' node >>= λ w.
              elim w [
                | none ↦ ok none
                | some w ↦ handle_large_transaction cfg keys w rs' >>= λ large. elim large [
                  | none ↦ ok none
                  | some large ↦ ok (some (send_small 0 rs v ++ large))
                ]
              ]
        ]

    -- The pre-block that matches the pointer; the others of the channel are dropped.
    unfoldable pub matching : BlockPointer → List PreBlock → Option PreBlock
    matching ptr [] = none
    matching ptr (pb ∷ chan) =
        if ptr.block_hash == pre_block_hash pb then some pb else matching ptr chan

    -- What a round ends with: the messages, and the block, none where the round waits for ever.
    pub record Result : Type 0 where
      pub sent : List Sent
      pub block : Option Block

    unfoldable pub build_matching :
        BlockPointer → List PreBlock → List Decryption → List Sent → Run Result
    unfolding matching
    build_matching ptr pb_chan dec_chan sent = elim (matching ptr pb_chan) [
      | none ↦ ok (record { sent = sent; block = none })
      | some pb ↦ construct_block cfg keys.enc_pk tx_size (pb ∷ []) dec_chan >>= λ block.
          ok (record { sent = sent; block = block })
    ]

    -- The output of the common subset with one block share: the pre-block of its pointer is looked for,
    -- by a committee member first among the committee messages.
    unfoldable pub conclude_large : BlockShare → State → Run Result
    unfolding build_matching
    conclude_large bs s =
        if is_in cfg.node_id cfg.committee
        then (wait_for_matching_block cfg keys bs.pointer s.large_block_chan >>= λ w.
            elim w.returned [
              | true ↦ build_matching bs.pointer s.pb_chan s.dec_chan w.sent
              | false ↦ ok (record { sent = w.sent; block = none })
            ])
        else build_matching bs.pointer s.pb_chan s.dec_chan []

    unfoldable pub conclude_small : List BlockShare → State → Run Result
    conclude_small output s =
        (if is_in cfg.node_id cfg.committee then send_decryption_shares cfg keys output else ok [])
        >>= λ sent.
            construct_block cfg keys.enc_pk tx_size (blocks_of output) s.dec_chan >>= λ block.
            ok (record { sent = sent; block = block })

    -- `s` has the channels with all that comes in the round.
    unfoldable pub conclude : List BlockShare → State → Run Result
    unfolding conclude_large conclude_small
    conclude (bs ∷ []) s = conclude_large bs s
    conclude output s = conclude_small output s

    -- The block is taken over, with the totals of the node.
    unfoldable pub finish_round : ℕ → ℕ → Option Block → Node → Run (Option Node)
    finish_round now r none node = ok none
    finish_round now r (some block) node = set_block now r block node >>= λ out. ok (
        some (record out.0 {
          latency_total = add_durations out.0.latency_total out.3;
          finished_rounds = suc out.0.finished_rounds;
        }))

    -- A round of a node: `bla` and `acs` are what block agreement and the common subset of the round
    -- return on an input, `early` the listener's state at time 4 delta and `later` the one after all
    -- messages of the round. `ok none` is a round that ends early, by a crash, or that waits.
    unfoldable pub run_protocol :
        (BlockShare → Option BlockShare)
        → (BlockShare → List BlockShare)
        → Bool
        → State
        → State
        → ℕ
        → ℕ
        → Node
        → Run (Option Node)
    unfolding bla_input acs_input conclude finish_round
    run_protocol bla acs crashed early later now r node =
        if crashed
        then ok none
        else (acs_input cfg (elim (bla_input early) [ none ↦ none | some bs ↦ bla bs ]) later
            >>= λ input. elim input [
              | none ↦ ok none
              | some bs ↦ conclude (acs bs) later >>= λ res. finish_round now r res.block node
            ])
