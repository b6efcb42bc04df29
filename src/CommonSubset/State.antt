-- ===== src/CommonSubset/State.antt =====
-- commonsubset/commonsubset.go: the messages, and the state that `Run` and the goroutines it starts
-- share. A slice that is nil is the empty list; a block share read from a map that has none is nil.
use upgrade.Prelude.{ℕ, suc, zero, Bytes, Bool, false, Option, none, List, [], ◌∷◌, ◌++◌, GoMap}
use upgrade.Crypto.{Crypto}
use upgrade.Block.{BlockShare}

module _ ⦃c : Crypto⦄ where
  pub record AcsSignatureMessage : Type 0 where
    pub sender : ℕ
    pub hash : Bytes
    pub sig : Bytes

  pub record AcsCommitteeMessage : Type 0 where
    pub sender : ℕ
    pub values : List (Option BlockShare)
    pub hash : Bytes
    pub sig_share : c.SigShare
    pub proof : c.SigShare

  pub data Payload : Type 0 where
    signature_message : AcsSignatureMessage → Payload
    committee_message : AcsCommitteeMessage → Payload

  -- The fields of CommonSubset that never change, with those of its ThresholdCrypto.
  pub record Config : Type 0 where
    pub n : ℕ
    pub node_id : ℕ
    pub t : ℕ
    pub tk : ℕ
    pub committee : GoMap ℕ Bool
    pub proof : c.SigShare
    pub key_meta : c.KeyMeta
    pub key_meta_c : c.KeyMeta
    pub sk_c : c.KeyShare

  -- Maps a hash to the signature shares of the nodes on it.
  abbrev pub Shares : Type 0
  Shares = GoMap Bytes (GoMap ℕ c.SigShare)

  -- The local variables of `Run`. The channels are their buffers, oldest first; a channel of empty
  -- structs is the number of them. `rbc_waiting` are the instances whose goroutine waits for an
  -- output, `starting` those for which `handleAba` is to begin, `aba_waiting` those that it waits
  -- for, `checks` the number of goroutines about to call `eventHandler`. `aba_inputs` are the calls
  -- of SetValue.
  pub record State : Type 0 where
    pub commit : Bool
    pub acs_finished : List (Option BlockShare)
    pub signature : Bytes
    pub received_hash : Option Bytes
    pub rbc_vals : GoMap ℕ BlockShare
    pub s : GoMap ℕ Bool
    pub start_aba : ℕ
    pub acs_out : List (List (Option BlockShare))
    pub rbc_done : List ℕ
    pub aba_running : GoMap ℕ Bool
    pub aba_finished : GoMap ℕ Bool
    pub shares_received : Shares
    pub rbc_waiting : List ℕ
    pub starting : List ℕ
    pub aba_waiting : List ℕ
    pub checks : ℕ
    pub aba_inputs : List (ℕ × ℕ)
    pub sent : List Payload
    pub out : List (List (Option BlockShare))
    pub returned : Bool

  -- The numbers below `k`, in order.
  abbrev pub below : ℕ → List ℕ
  below zero = []
  below (suc k) = below k ++ k ∷ []

  unfoldable pub initial : Config → State
  initial cfg = record {
    commit = false;
    acs_finished = [];
    signature = [];
    received_hash = none;
    rbc_vals = [];
    s = [];
    start_aba = 0;
    acs_out = [];
    rbc_done = [];
    aba_running = [];
    aba_finished = [];
    shares_received = [];
    rbc_waiting = below cfg.n;
    starting = [];
    aba_waiting = [];
    checks = 0;
    aba_inputs = [];
    sent = [];
    out = [];
    returned = false;
  }

  abbrev pub multicast : Payload → State → State
  multicast p st = record st { sent = st.sent ++ p ∷ [] }
