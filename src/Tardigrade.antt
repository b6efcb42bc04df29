-- ===== src/Tardigrade.antt =====
-- tardigrade/tardigrade.go: the listener of one round of the top protocol at one node, with its handlers,
-- and the buffer of transactions. The encryption, the order of the sub-protocols in `runProtocol` and the
-- construction of a block from decryption shares are not modelled.
pub mod Pointers
pub mod Buffer
pub mod Encryption
pub mod Construction
pub mod Rounds
use upgrade.Prelude.{
  ℕ, zero, suc, ◌+◌, ◌-◌, ◌/◌, Bytes, bytes_eq, Bool, true, false, not, ◌&&◌, Option, none, some,
  List, [], ◌∷◌, ◌++◌, GoMap, lookup, insert, get_or, get_elem?, set, length, leb, ◌==◌, nat_eq,
  if◌then◌else◌, Run, ok, panic, ◌>>=◌,
}
use upgrade.Crypto.{Crypto, itoa}
use upgrade.Block.{
  PreBlock, PreBlockMessage, BlockPointer, BlockShare, Size, large, small, new_pre_block,
  add_message, quality, pre_block_hash,
}

module _ ⦃c : Crypto⦄ where
  -- `status` is whether the string is "large".
  pub record BlockMessage : Type 0 where
    pub sender : ℕ
    pub is_large : Bool
    pub payload : Bytes
    pub sig : c.SigShare

  pub record CommitteeMessage : Type 0 where
    pub sender : ℕ
    pub pre_block : Option PreBlock
    pub hash : Bytes
    pub hash_sig : Option c.SigShare
    pub proof : Option c.SigShare

  -- A pointer that is received is taken to be set.
  pub record PointerMessage : Type 0 where
    pub sender : ℕ
    pub pointer : BlockPointer

  pub record ReceivedPreBlock : Type 0 where
    pub sender : ℕ
    pub pre_block : PreBlock

  -- A share is nil where the sender has none.
  abbrev pub Decryption : Type 0
  Decryption = List (List (Option c.DecryptionShare))

  pub record DecryptionMessage : Type 0 where
    pub sender : ℕ
    pub shares : Decryption

  pub data Payload : Type 0 where
    block_message : BlockMessage → Payload
    committee_message : CommitteeMessage → Payload
    pointer_message : PointerMessage → Payload
    pre_block_message : ReceivedPreBlock → Payload
    decryption_message : DecryptionMessage → Payload

  -- `receiver` is none for a multicast to every node.
  pub record Sent : Type 0 where
    pub receiver : Option ℕ
    pub payload : Payload

  -- `ta` is that of the round; `sig_sk` is the committee key, nil outside the committee.
  pub record Config : Type 0 where
    pub n : ℕ
    pub node_id : ℕ
    pub ta : ℕ
    pub committee : GoMap ℕ Bool
    pub key_meta : c.KeyMeta
    pub key_meta_c : c.KeyMeta
    pub proof : c.SigShare
    pub sig_sk : Option c.KeyShare

  abbrev pub Shares : Type 0
  Shares = GoMap Bytes (GoMap ℕ c.SigShare)

  -- The variables of `runProtocol` that the listener writes. A channel of empty structs is the number of
  -- them, the others are lists, oldest first.
  pub record State : Type 0 where
    pub large_pb : PreBlock
    pub ready_large : Bool
    pub small_pb : PreBlock
    pub ready_small : Bool
    pub ready_chan : ℕ
    pub ptr_chan : ℕ
    pub ptr : Option BlockPointer
    pub large_block_chan : List (Option PreBlock)
    pub pb_chan : List PreBlock
    pub dec_chan : List Decryption
    pub blocks_received : Shares
    pub sent : List Sent

  unfoldable pub initial : Config → State
  initial cfg = record {
    large_pb = record (new_pre_block (cfg.n - cfg.ta)) { size = large };
    ready_large = false;
    small_pb = record (new_pre_block (cfg.n - cfg.ta)) { size = small };
    ready_small = false;
    ready_chan = 0;
    ptr_chan = 0;
    ptr = none;
    large_block_chan = [];
    pb_chan = [];
    dec_chan = [];
    blocks_received = [];
    sent = [];
  }

  abbrev pub is_in : ℕ → GoMap ℕ Bool → Bool
  is_in i m = get_or (lookup i m) false

  abbrev pub entry_of : BlockMessage → PreBlockMessage
  entry_of m = record { message = m.payload; sig = m.sig }

  module _ (cfg : Config) where
    unfoldable pub save_small : BlockMessage → State → Option (Option PreBlockMessage) → Run State
    save_small m s none = panic
    save_small m s (some (some old)) = ok s
    save_small m s (some none) = add_message s.small_pb m.sender (entry_of m) >>= λ pb. ok (
        if leb (cfg.n - cfg.ta) (quality pb) && not s.ready_small
        then record s { small_pb = pb; ready_small = true; ready_chan = suc s.ready_chan }
        else record s { small_pb = pb })

    -- A sender past the vector, of `n - ta` entries, panics.
    unfoldable pub handle_small_block_message : BlockMessage → State → Run State
    unfolding save_small
    handle_small_block_message m s = save_small m s (get_elem? s.small_pb.vec m.sender)

    abbrev pub to_committee : Payload → ℕ → List Sent
    to_committee p zero = []
    to_committee p (suc k) =
        to_committee p k
        ++ (if is_in k cfg.committee then record { receiver = some k; payload = p } ∷ [] else [])

    sign_padded : Option Bytes → Option c.KeyShare → Run (Option c.SigShare)
    sign_padded none key = ok none
    sign_padded (some padded) none = panic
    sign_padded (some padded) (some key) = ok (c.sign key padded cfg.key_meta_c)

    -- The signature on a pre-block's hash; a nil committee key panics.
    unfoldable pub sign_hash : Bytes → Run (Option c.SigShare)
    unfolding sign_padded
    sign_hash hash =
        sign_padded (c.prepare_document_hash (c.public_key_size cfg.key_meta_c) hash) cfg.sig_sk

    unfoldable pub send_signed : PreBlock → State → Option c.SigShare → State
    send_signed pb s none = s
    send_signed pb s (some sig) = record s {
      sent =
          s.sent
          ++ to_committee
              (committee_message (record {
                sender = cfg.node_id;
                pre_block = some pb;
                hash = pre_block_hash pb;
                hash_sig = some sig;
                proof = some cfg.proof;
              }))
              cfg.n;
    }

    -- The message to the members of the committee.
    unfoldable pub send_large : PreBlock → State → Run State
    unfolding sign_hash send_signed
    send_large pb s = sign_hash (pre_block_hash pb) >>= λ sig. ok (send_signed pb s sig)

    unfoldable pub save_large : BlockMessage → State → Option (Option PreBlockMessage) → Run State
    unfolding send_large
    save_large m s none = panic
    save_large m s (some (some old)) = ok s
    save_large m s (some none) =
        let pb = record s.large_pb { vec = set s.large_pb.vec m.sender (some (entry_of m)) } in
        if leb (cfg.n - cfg.ta) (quality pb) && not s.ready_large
        then send_large pb (record s { large_pb = pb; ready_large = true })
        else ok (record s { large_pb = pb })

    unfoldable pub handle_large_block_message : BlockMessage → State → Run State
    unfolding save_large
    handle_large_block_message m s = save_large m s (get_elem? s.large_pb.vec m.sender)

    -- `*ptr = p`, with the notice on `ptrChan`.
    abbrev pub set_pointer : BlockPointer → State → State
    set_pointer p s = record s { ptr = some p; ptr_chan = suc s.ptr_chan }

    abbrev pub multicast_pointer : BlockPointer → State → State
    multicast_pointer p s = record s {
      sent =
          s.sent
          ++ record {
            receiver = none;
            payload = pointer_message (record { sender = cfg.node_id; pointer = p });
          }
            ∷ [];
    }

    unfoldable pub first_pointer : PointerMessage → Option BlockPointer → State → State
    first_pointer m (some p) s = s
    first_pointer m none s =
        if is_in cfg.node_id cfg.committee
        then (if c.verify_pkcs1v15 cfg.key_meta_c m.pointer.block_hash m.pointer.sig
            then multicast_pointer m.pointer (set_pointer m.pointer s)
            else s)
        else (if is_in m.sender cfg.committee then set_pointer m.pointer s else s)

    -- Only the first pointer is kept.
    unfoldable pub handle_pointer_message : PointerMessage → State → State
    unfolding first_pointer
    handle_pointer_message m s = first_pointer m s.ptr s

    abbrev pub verify_padded : c.SigShare → Bytes → c.KeyMeta → Bool
    verify_padded sig hash meta = elim (c.prepare_document_hash (c.public_key_size meta) hash) [
      | none ↦ false
      | some padded ↦ c.verify sig padded meta
    ]

    unfoldable pub check_committee_message :
        ℕ → Bytes → Option PreBlock → Option c.SigShare → Option c.SigShare → Bool
    check_committee_message sender hash (some pb) (some sig) (some proof) =
        verify_padded proof (c.sha256 (itoa sender)) cfg.key_meta
        && (verify_padded sig hash cfg.key_meta_c && pre_block_hash pb == hash)
    check_committee_message sender hash pb sig proof = false

    unfoldable pub is_valid_committee_message : CommitteeMessage → Bool
    unfolding check_committee_message
    is_valid_committee_message m =
        check_committee_message m.sender m.hash m.pre_block m.hash_sig m.proof

    abbrev pub share_list : GoMap ℕ c.SigShare → List c.SigShare
    share_list [] = []
    share_list ((i, sig) ∷ m) = sig ∷ share_list m

    unfoldable pub point_to : Bytes → Option Bytes → State → State
    point_to hash none s = s
    point_to hash (some signature) s =
        let p : BlockPointer = record { block_hash = hash; sig = signature } in
        multicast_pointer p (set_pointer p s)

    -- The shares on one hash are joined, in the order of the map.
    unfoldable pub join : Bytes → GoMap ℕ c.SigShare → State → State
    unfolding point_to
    join hash on s = elim (c.prepare_document_hash (c.public_key_size cfg.key_meta_c) hash) [
      | none ↦ s
      | some padded ↦ point_to hash (c.join_shares (share_list on) padded cfg.key_meta_c) s
    ]

    unfoldable pub record_share : ℕ → Bytes → c.SigShare → State → State
    unfolding join
    record_share sender hash sig s =
        let on = insert sender sig (get_or (lookup hash s.blocks_received) []) in
        let s' = record s { blocks_received = insert hash on s.blocks_received } in
        if leb (length cfg.committee / 2 + 1) (length on) then join hash on s' else s'

    -- The echo of a committee message is left out: it asks for `ptr == nil`, where `ptr` is the address of
    -- the pointer, which is never nil.
    unfoldable pub handle_committee_message : CommitteeMessage → State → State
    unfolding is_valid_committee_message record_share
    handle_committee_message m s = elim m.hash_sig [
      | none ↦ s
      | some sig ↦
          if not (is_in cfg.node_id cfg.committee)
          then s
          else if not (is_valid_committee_message m)
          then s
          else record_share m.sender m.hash sig s
    ]

    -- One round of the listener.
    unfoldable pub receive : Payload → State → Run State
    unfolding handle_large_block_message handle_small_block_message handle_pointer_message
        handle_committee_message
    receive (block_message m) s =
        if m.is_large && is_in cfg.node_id cfg.committee
        then handle_large_block_message m s
        else handle_small_block_message m s
    receive (pointer_message m) s = ok (handle_pointer_message m s)
    receive (committee_message m) s = ok (
        handle_committee_message m
          (record s { large_block_chan = s.large_block_chan ++ m.pre_block ∷ [] }))
    receive (pre_block_message m) s = ok (record s { pb_chan = s.pb_chan ++ m.pre_block ∷ [] })
    receive (decryption_message m) s = ok (record s { dec_chan = s.dec_chan ++ m.shares ∷ [] })

    unfoldable pub listen : List Payload → State → Run State
    unfolding receive
    listen [] s = ok s
    listen (p ∷ ps) s = receive p s >>= listen ps

    unfoldable pub is_well_formed_block_share : Option BlockShare → Bool
    is_well_formed_block_share none = false
    is_well_formed_block_share (some bs) =
        c.verify_pkcs1v15 cfg.key_meta_c bs.pointer.block_hash bs.pointer.sig
