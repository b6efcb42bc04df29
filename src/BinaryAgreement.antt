-- ===== src/BinaryAgreement.antt =====
-- binaryagreement/binaryagreement.go: one instance of binary agreement at one node. The message
-- handler and the main loop of `Run` share the maps; a run is a sequence of events, each one a
-- message handled whole, or a step of the main loop from one blocking receive to the next.
pub mod Votes
pub mod Invariant
pub mod Rounds
pub mod Schedule
pub mod Safety
pub mod Stall
pub mod Lineage
pub mod Network
use upgrade.Prelude.{
  ℕ, zero, suc, ◌+◌, ◌-◌, ◌*◌, Bytes, Bool, true, false, not, ◌&&◌, Option, none, some, List, [],
  ◌∷◌, ◌++◌, GoMap, lookup, insert, get_or, length, leb, ◌==◌, nat_eq, if◌then◌else◌,
}
use upgrade.Crypto.{Crypto, itoa}
use upgrade.Message.{Message}

-- AbaMessage.Status; `other` is a string that no case names.
pub data Status : Type 0 where
  est aux other : Status

pub record AbaMessage : Type 0 where
  pub sender : ℕ
  pub value : ℕ
  pub round : ℕ
  pub status : Status

-- Maps round -> value.
abbrev pub Values : Type 0
Values = GoMap ℕ (GoMap ℕ Bool)

-- Maps round -> value -> nodes that sent this value.
abbrev pub Votes : Type 0
Votes = GoMap ℕ (GoMap ℕ (GoMap ℕ Bool))

-- `m[r]` where the value is a map.
abbrev pub at : {V : Type 0} → ℕ → GoMap ℕ (List V) → List V
at r m = get_or (lookup r m) []

abbrev pub voters : ℕ → ℕ → Votes → GoMap ℕ Bool
voters r v vals = at v (at r vals)

abbrev pub has : ℕ → ℕ → Values → Bool
has r v vals = get_or (lookup v (at r vals)) false

-- `vals[r][v][s] = true`, with the inner maps made on demand.
unfoldable pub handle_bcs : ℕ → ℕ → ℕ → Votes → Votes
handle_bcs r v s vals = insert r (insert v (insert s true (voters r v vals)) (at r vals)) vals

-- `vals[r][v] = true`
unfoldable pub add_value : ℕ → ℕ → Values → Values
add_value r v vals = insert r (insert v true (at r vals)) vals

-- The channels `notifyEST` and `notifyAUX` of each round, oldest first.
abbrev pub Queues : Type 0
Queues = GoMap ℕ (List (List ℕ))

unfoldable pub enqueue : ℕ → List ℕ → Queues → Queues
enqueue r vs q = insert r (at r q ++ vs ∷ []) q

-- Where the main loop stands: it waits for an EST value, for AUX values, or has returned.
pub data Phase : Type 0 where
  wait_est wait_aux returned : Phase

pub record Config : Type 0 where
  pub n : ℕ
  pub node_id : ℕ
  pub t : ℕ
  pub value : ℕ

-- A message is multicast on the channels of the node's round, which need not be the round that the
-- message names.
pub record Sent : Type 0 where
  pub channel : ℕ
  pub message : Message AbaMessage

pub record State : Type 0 where
  pub round : ℕ
  pub est : ℕ
  pub phase : Phase
  pub bin_values : Values
  pub est_values : Votes
  pub aux_values : Votes
  pub est_sent : Values
  pub est_echoes : Values
  pub notify_est : Queues
  pub notify_aux : Queues
  pub out : List ℕ
  pub sent : List Sent

abbrev pub multicast : AbaMessage → State → State
multicast m s = record s {
  sent =
      s.sent
      ++ record { channel = s.round; message = record { sender = m.sender; payload = m } } ∷ [];
}

-- The node has `2 t + 1` EST messages on the value: it joins the binary values of the round.
unfoldable pub accept_value : ℕ → ℕ → State → State
unfolding add_value enqueue
accept_value r v s = record s {
  bin_values = add_value r v s.bin_values;
  notify_est = enqueue r (v ∷ []) s.notify_est;
}

unfoldable pub notify_if : Bool → ℕ → List ℕ → Queues → Queues
unfolding enqueue
notify_if b r vs q = if b then enqueue r vs q else q

module _ (cfg : Config) where
  abbrev pub message_of : Status → ℕ → ℕ → AbaMessage
  message_of status round value = record {
    sender = cfg.node_id;
    value = value;
    round = round;
    status = status;
  }

  -- An EST value is sent once in a round.
  unfoldable pub send_est : ℕ → ℕ → State → State
  unfolding add_value
  send_est round value s =
      if not (has round value s.est_sent)
      then multicast (message_of est round value)
          (record s { est_sent = add_value round value s.est_sent })
      else s

  -- It is echoed once in a round.
  unfoldable pub echo_est : ℕ → ℕ → State → State
  unfolding add_value
  echo_est round value s =
      if not (has round value s.est_echoes)
      then multicast (message_of est round value)
          (record s { est_echoes = add_value round value s.est_echoes })
      else s

  unfoldable pub send_aux : ℕ → ℕ → State → State
  send_aux round value = multicast (message_of aux round value)

  unfoldable pub handle_est : ℕ → ℕ → ℕ → State → State
  unfolding handle_bcs echo_est accept_value
  handle_est r v s st =
      let votes = handle_bcs r v s st.est_values in
      let count = length (voters r v votes) in
      let st1 = record st { est_values = votes } in
      let st2 = if leb (cfg.t + 1) count then echo_est r v st1 else st1 in
      if leb (2 * cfg.t + 1) count then accept_value r v st2 else st2

  -- One value with `n - t` AUX messages on it.
  abbrev pub one_value : ℕ → ℕ → State → Bool
  one_value r v s = has r v s.bin_values && leb (cfg.n - cfg.t) (length (voters r v s.aux_values))

  -- Both values, with `n - t` AUX messages between them.
  abbrev pub both_values : ℕ → State → Bool
  both_values r s =
      (length (at r s.bin_values) == 2)
      && leb (cfg.n - cfg.t) (length (voters r 0 s.aux_values) + length (voters r 1 s.aux_values))

  unfoldable pub notify : ℕ → State → Queues
  unfolding notify_if
  notify r s =
      notify_if (both_values r s) r (0 ∷ 1 ∷ []) (
        notify_if (one_value r 1 s) r (1 ∷ [])
          (notify_if (one_value r 0 s) r (0 ∷ []) s.notify_aux))

  unfoldable pub handle_aux : ℕ → ℕ → ℕ → State → State
  unfolding handle_bcs notify
  handle_aux r v s st =
      let st1 = record st { aux_values = handle_bcs r v s st.aux_values } in
      record st1 { notify_aux = notify r st1 }

  -- One round of `messageHandler`.
  dispatch : Status → AbaMessage → State → State
  unfolding handle_est handle_aux
  dispatch est m s = handle_est m.round m.value m.sender s
  dispatch aux m s = handle_aux m.round m.value m.sender s
  dispatch other m s = s

  unfoldable pub handle : AbaMessage → State → State
  unfolding dispatch
  handle m s = dispatch m.status m s

  -- The main loop from the head of a round to its first receive.
  unfoldable pub begin_round : State → State
  unfolding send_est
  begin_round s = record (send_est s.round s.est s) { phase = wait_est }

  abbrev pub blank : State
  blank = record {
    round = 0;
    est = cfg.value;
    phase = wait_est;
    bin_values = [];
    est_values = [];
    aux_values = [];
    est_sent = [];
    est_echoes = [];
    notify_est = [];
    notify_aux = [];
    out = [];
    sent = [];
  }

  unfoldable pub initial : State
  unfolding begin_round
  initial = begin_round blank

  -- `w[0]` is broadcast; `w` always has one element.
  take_est : List (List ℕ) → State → State
  unfolding send_aux
  take_est [] s = s
  take_est ([] ∷ q) s = s
  take_est ((v ∷ vs) ∷ q) s = record (send_aux s.round v s) {
    phase = wait_aux;
    notify_est = insert s.round q s.notify_est;
  }

  -- Decide, or take the value or the coin into the next round.
  decide : List ℕ → ℕ → State → State
  unfolding begin_round
  decide (v ∷ []) coin s =
      if v == coin
      then record s { phase = returned; out = s.out ++ coin ∷ [] }
      else begin_round (record s { est = v; round = s.round + 1 })
  decide values coin s = begin_round (record s { est = coin; round = s.round + 1 })

  take_aux : List (List ℕ) → ℕ → State → State
  unfolding decide
  take_aux [] coin s = s
  take_aux (values ∷ q) coin s =
      decide values coin (record s { notify_aux = insert s.round q s.notify_aux })

  -- A step of the main loop: with an empty channel it blocks. `coin` is what the common coin
  -- answers in the node's round.
  resume : Phase → ℕ → State → State
  unfolding take_est take_aux
  resume wait_est coin s = take_est (at s.round s.notify_est) s
  resume wait_aux coin s = take_aux (at s.round s.notify_aux) coin s
  resume returned coin s = s

  unfoldable pub advance : (ℕ → ℕ) → State → State
  unfolding resume
  advance coin s = resume s.phase (coin s.round) s

-- A schedule: messages received by the handler, and steps of the main loop.
pub data Event : Type 0 where
  receives : AbaMessage → Event
  advances : Event

module _ (cfg : Config) (coin : ℕ → ℕ) where
  unfoldable pub step : Event → State → State
  unfolding handle advance
  step (receives m) s = handle cfg m s
  step advances s = advance cfg coin s

  -- What a schedule makes of a state, the newest event first.
  unfoldable pub run_from : State → List Event → State
  run_from s [] = s
  run_from s (e ∷ es) = step e (run_from s es)

  -- `Run` under a schedule.
  unfoldable pub run : List Event → State
  unfolding initial
  run es = run_from (initial cfg) es

-- The request that `callCommonCoin` sends. The error of the padding is dropped there, which leaves
-- a nil hash; a failed signature is nil.
module _ ⦃c : Crypto⦄ where
  pub record CoinRequest : Type 0 where
    pub sender : ℕ
    pub uround : ℕ
    pub round : ℕ
    pub sig : Option c.SigShare
    pub instance_id : ℕ

  unfoldable pub coin_request : c.KeyShare → c.KeyMeta → ℕ → ℕ → ℕ → ℕ → CoinRequest
  coin_request share meta node_id uround round instance_id = record {
    sender = node_id;
    uround = uround;
    round = round;
    sig =
        c.sign share
          (get_or (c.prepare_document_hash (c.public_key_size meta) (c.sha256 (itoa round))) [])
          meta;
    instance_id = instance_id;
  }
