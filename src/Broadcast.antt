-- ===== src/Broadcast.antt =====
-- broadcast/broadcast.go: the committee-based reliable broadcast, one instance at one node. `Run`
-- is a fold of `step` over the messages received; what the node multicasts is the list `sent`,
-- oldest first, and each such message goes to every node.
pub mod Heard
pub mod Invariant
pub mod Support
pub mod Network
use upgrade.Prelude.{
  ℕ, suc, ◌+◌, ◌-◌, ◌*◌, ◌/◌, ◌≡◌, Bytes, Bool, true, false, not, ◌&&◌, Option, none, some, List,
  [], ◌∷◌, ◌++◌, GoMap, lookup, insert, get_or, is_some, length, replicate, leb, ◌==◌, nat_eq,
  bytes_eq, if◌then◌else◌, Run, ok, panic,
}
use upgrade.Crypto.{Crypto, itoa}
use upgrade.Block.{BlockShare, share_hash}
use upgrade.Message.{Message}

-- BMessage.Status; `other` is a string that no case names.
pub data Status : Type 0 where
  val echo ready other : Status

pub record BMessage : Type 0 where
  pub sender : ℕ
  pub status : Status
  pub value : Bytes

-- Maps a hash to the nodes that sent it.
abbrev pub Received : Type 0
Received = GoMap Bytes (GoMap ℕ Bool)

-- `received[hash]`, the empty map if there is none.
abbrev pub senders : Bytes → Received → GoMap ℕ Bool
senders hash received = get_or (lookup hash received) []

-- `received[hash][sender] = true`, with the inner map made on demand.
unfoldable pub record_sender : Bytes → ℕ → Received → Received
record_sender hash sender received =
    insert hash (insert sender true (senders hash received)) received

-- A membership test of a `map[int]bool`.
abbrev pub is_in : ℕ → GoMap ℕ Bool → Bool
is_in i m = get_or (lookup i m) false

module _ ⦃c : Crypto⦄ where
  pub record CMessage : Type 0 where
    pub sender : ℕ
    pub value : BlockShare
    pub hash : Bytes
    pub proof : c.SigShare

  pub record SMessage : Type 0 where
    pub sender : ℕ
    pub value : BlockShare

  pub data Payload : Type 0 where
    bracha : BMessage → Payload
    committee_message : CMessage → Payload
    sender_message : SMessage → Payload

  -- The fields of ReliableBroadcast that never change; `proof` and `key_meta` are those of `Sig`.
  pub record Config : Type 0 where
    pub n : ℕ
    pub node_id : ℕ
    pub t : ℕ
    pub tk : ℕ
    pub sender_id : ℕ
    pub committee : GoMap ℕ Bool
    pub proof : c.SigShare
    pub key_meta : c.KeyMeta

  -- The local variables of `Run`, the channel `out`, and the messages multicast so far.
  pub record State : Type 0 where
    pub ready : Bool
    pub sender_sent : Bool
    pub initial_val : Bool
    pub broadcast_done : Bool
    pub echo_received : Received
    pub ready_received : Received
    pub committee_received : Received
    pub broadcast_value : Bytes
    pub sender_value : Option BlockShare
    pub out : List BlockShare
    pub sent : List (Message Payload)
    pub returned : Bool

  unfoldable pub initial : State
  initial = record {
    ready = false;
    sender_sent = false;
    initial_val = false;
    broadcast_done = false;
    echo_received = [];
    ready_received = [];
    committee_received = [];
    broadcast_value = replicate 32 0;
    sender_value = none;
    out = [];
    sent = [];
    returned = false;
  }

  -- `tk := (((1 - cfg.Epsilon) * cfg.Kappa * cfg.T) / cfg.N)`, at an epsilon of 0 or 1.
  unfoldable pub committee_threshold : ℕ → ℕ → ℕ → ℕ → ℕ
  committee_threshold epsilon kappa t n = ((1 - epsilon) * kappa * t) / n

  module _ (cfg : Config) where
    abbrev pub multicast : Payload → State → State
    multicast p s = record s { sent = s.sent ++ record { sender = cfg.node_id; payload = p } ∷ [] }

    abbrev pub bmessage : Status → Bytes → Payload
    bmessage status value = bracha (record { sender = cfg.node_id; status = status; value = value })

    unfoldable pub is_sender : Bool
    is_sender = cfg.node_id == cfg.sender_id

    unfoldable pub multicast_to_committee : BlockShare → State → State
    multicast_to_committee value =
        multicast (sender_message (record { sender = cfg.node_id; value = value }))

    unfoldable pub multicast_val : BlockShare → State → State
    multicast_val value = multicast (bmessage val (share_hash value))

    unfoldable pub multicast_echo : BMessage → State → State
    multicast_echo m = multicast (bmessage echo m.value)

    unfoldable pub multicast_ready : BMessage → State → State
    multicast_ready m = multicast (bmessage ready m.value)

    unfoldable pub multicast_committee_message : BlockShare → Bytes → State → State
    multicast_committee_message sender_value broadcast_value s =
        if share_hash sender_value == broadcast_value
        then multicast
            (committee_message (record {
              sender = cfg.node_id;
              value = sender_value;
              hash = broadcast_value;
              proof = cfg.proof;
            }))
            s
        else s

    -- Only the first VAL message is echoed.
    unfoldable pub handle_val : BMessage → State → State
    unfolding multicast_echo
    handle_val m s =
        if not s.initial_val then multicast_echo m (record s { initial_val = true }) else s

    unfoldable pub handle_echo : BMessage → State → State
    unfolding multicast_ready record_sender
    handle_echo m s =
        let hash = c.sha256 m.value in
        let received = record_sender hash m.sender s.echo_received in
        let s' = record s { echo_received = received } in
        if leb (cfg.n - cfg.t) (length (senders hash received)) && not s.ready
        then multicast_ready m (record s' { ready = true })
        else s'

    unfoldable pub amplify : BMessage → ℕ → State → State
    unfolding multicast_ready
    amplify m count s =
        if leb (cfg.t + 1) count && not s.ready
        then multicast_ready m (record s { ready = true })
        else s

    unfoldable pub deliver : BMessage → ℕ → State → State
    deliver m count s =
        if leb (cfg.n - cfg.t) count
        then record s { broadcast_done = true; broadcast_value = m.value }
        else s

    unfoldable pub handle_ready : BMessage → State → State
    unfolding amplify deliver record_sender
    handle_ready m s =
        let hash = c.sha256 m.value in
        let received = record_sender hash m.sender s.ready_received in
        let count = length (senders hash received) in
        deliver m count (amplify m count (record s { ready_received = received }))

    -- The second component says that the protocol can terminate.
    unfoldable pub handle_committee_message : CMessage → State → State × Bool
    unfolding record_sender
    handle_committee_message m s =
        let received = record_sender m.hash m.sender s.committee_received in
        let s' = record s { committee_received = received } in
        if leb (cfg.tk + 1) (length (senders m.hash received))
        then (record s' { out = s.out ++ m.value ∷ [] }, true)
        else (s', false)

    unfoldable pub is_valid_signature : CMessage → Bool
    is_valid_signature m =
        elim (c.prepare_document_hash (c.public_key_size cfg.key_meta) (c.sha256 (itoa m.sender))) [
          | none ↦ false
          | some padded ↦ c.verify m.proof padded cfg.key_meta
        ]

    unfoldable pub is_valid_committee_message : CMessage → Bool
    unfolding is_valid_signature
    is_valid_committee_message m =
        if not (is_in m.sender cfg.committee)
        then false
        else if not (share_hash m.value == m.hash)
        then false
        else is_valid_signature m

    -- The `switch m.Status` of `Run`.
    dispatch_status : Status → BMessage → State → State
    unfolding handle_val handle_echo handle_ready
    dispatch_status val m s = handle_val m s
    dispatch_status echo m s = handle_echo m s
    dispatch_status ready m s = handle_ready m s
    dispatch_status other m s = s

    unfoldable pub handle_bracha : BMessage → State → State
    unfolding dispatch_status
    handle_bracha m s = if s.broadcast_done then s else dispatch_status m.status m s

    -- A committee member that has finished Bracha's broadcast echoes a committee message.
    unfoldable pub echo_committee : CMessage → State → State
    unfolding multicast_committee_message
    echo_committee m s =
        if s.broadcast_done && is_in cfg.node_id cfg.committee
        then multicast_committee_message m.value s.broadcast_value s
        else s

    unfoldable pub handle_cmessage : CMessage → State → State
    unfolding echo_committee handle_committee_message is_valid_committee_message
    handle_cmessage m s =
        if is_valid_committee_message m
        then (let (s', done) = handle_committee_message m (echo_committee m s) in
            record s' { returned = done })
        else s

    -- The `switch` on the payload of a received message.
    unfoldable pub handle : Payload → State → State
    unfolding handle_bracha handle_cmessage
    handle (bracha m) s = handle_bracha m s
    handle (committee_message m) s = handle_cmessage m s
    handle (sender_message m) s = record s { sender_sent = true; sender_value = some m.value }

    -- The test at the head of the loop. `senderValue` is set whenever `senderSent` is.
    release : Option BlockShare → State → State
    unfolding multicast_committee_message
    release none s = s
    release (some value) s =
        if s.sender_sent && (s.broadcast_done && is_in cfg.node_id cfg.committee)
        then multicast_committee_message value s.broadcast_value s
        else s

    unfoldable pub loop_head : State → State
    unfolding release
    loop_head s = release s.sender_value s

    -- One round of the loop, from one `receive` to the next; after the return nothing happens.
    unfoldable pub step : Payload → State → State
    unfolding handle loop_head
    step p s =
        if s.returned then s else (let s' = handle p s in if s'.returned then s' else loop_head s')

    -- `Run` up to its first `receive`, where the sender's value is set.
    unfoldable pub boot : BlockShare → State
    unfolding is_sender multicast_to_committee multicast_val loop_head initial
    boot value =
        loop_head (
          if is_sender then multicast_val value (multicast_to_committee value initial) else initial)

    -- A sender whose value is nil panics in `multicastVal`.
    unfoldable pub start : Option BlockShare → Run State
    unfolding boot is_sender initial loop_head
    start none = if is_sender then panic else ok (loop_head initial)
    start (some value) = ok (boot value)

    -- `Run` over the messages received, the newest first.
    unfoldable pub run : State → List (Message Payload) → State
    run s [] = s
    run s (m ∷ ms) = step m.payload (run s ms)
