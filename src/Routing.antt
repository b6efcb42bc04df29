-- ===== src/Routing.antt =====
-- utils/utils.go and utils/message.go: the channels of a node, from which its protocols receive.
pub mod Local
pub mod Network
pub mod Writes
pub mod Queues
pub mod Creation
pub mod Fifo
pub mod Present
pub mod Runs
pub mod CoinCalls
use upgrade.Prelude.{
  ℕ, zero, suc, Bool, true, false, Option, none, some, List, [], ◌∷◌, ◌++◌, GoMap, lookup, insert,
  get_or, get_elem?, set, replicate, length, ltb, if◌then◌else◌, nat_eq, Run, ok, panic, ◌>>=◌,
  is_some,
}

pub data Origin : Type 0 where
  aba bla rbc acs abc coin : Origin

-- What a channel is chosen by.
pub record Address : Type 0 where
  pub origin : Origin
  pub uround : ℕ
  pub round : ℕ
  pub instance_id : ℕ

module _ (A : Type 0) where
  pub record HandlerMessage : Type 0 where
    pub address : Address
    pub payload : A

  -- A buffered channel, oldest message first.
  pub record Chan : Type 0 where
    pub capacity : ℕ
    pub queue : List A

module _ {A : Type 0} where
  abbrev pub new_chan : ℕ → Chan A
  new_chan capacity = record { capacity = capacity; queue = [] }

module _ (A : Type 0) where
  -- `coin_chans` is nil in the local handler. A channel is owned by its place in the maps.
  pub record HandlerChans : Type 0 where
    pub rbc_chans : GoMap ℕ (List (Chan A))
    pub aba_chans : GoMap ℕ (GoMap ℕ (List (Chan A)))
    pub acs_chans : GoMap ℕ (Chan A)
    pub bla_chans : GoMap ℕ (GoMap ℕ (Chan A))
    pub abc_chans : GoMap ℕ (Chan A)
    pub coin_chans : Option (GoMap ℕ (GoMap ℕ (List (Chan A))))
    pub round : GoMap ℕ Bool

  -- What `receive` does: it waits at an empty or nil channel, or returns a message, or nil.
  pub data Reading : Type 0 where
    waits : HandlerChans → Reading
    got : A → HandlerChans → Reading
    nothing : HandlerChans → Reading

module _ {A : Type 0} where
  abbrev pub new_chans : Option (GoMap ℕ (GoMap ℕ (List (Chan A)))) → HandlerChans A
  new_chans coins = record {
    rbc_chans = [];
    aba_chans = [];
    acs_chans = [];
    bla_chans = [];
    abc_chans = [];
    coin_chans = coins;
    round = [];
  }

  -- The channels of the first rounds of binary agreement or of the coin, and of block agreement.
  unfoldable pub instance_rounds : ℕ → ℕ → GoMap ℕ (List (Chan A))
  instance_rounds n zero = []
  instance_rounds n (suc j) = insert j (replicate n (new_chan 999)) (instance_rounds n j)

  unfoldable pub single_rounds : ℕ → GoMap ℕ (Chan A)
  single_rounds zero = []
  single_rounds (suc j) = insert j (new_chan 999) (single_rounds j)

  -- The channels of a round of the top protocol.
  unfoldable pub create_round : ℕ → ℕ → ℕ → HandlerChans A → HandlerChans A
  unfolding instance_rounds single_rounds
  create_round uround n kappa h = record {
    rbc_chans = insert uround (replicate n (new_chan 999)) h.rbc_chans;
    aba_chans = insert uround (instance_rounds n 10) h.aba_chans;
    acs_chans = insert uround (new_chan 999) h.acs_chans;
    bla_chans = insert uround (single_rounds kappa) h.bla_chans;
    abc_chans = insert uround (new_chan 999) h.abc_chans;
    coin_chans = elim h.coin_chans [
      | none ↦ none
      | some coins ↦ some (insert uround (instance_rounds n 10) coins)
    ];
    round = insert uround true h.round;
  }

  unfoldable pub update_round : ℕ → ℕ → ℕ → HandlerChans A → HandlerChans A
  unfolding create_round
  update_round uround n kappa h =
      if get_or (lookup uround h.round) false then h else create_round uround n kappa h

  -- Channels for one more round of binary agreement or of the coin, where there are none. A write into
  -- a nil map panics.
  unfoldable pub create_in :
      ℕ → ℕ → ℕ → ℕ → GoMap ℕ (GoMap ℕ (List (Chan A))) → Run (GoMap ℕ (GoMap ℕ (List (Chan A))))
  create_in capacity n uround round chans = elim (lookup uround chans) [
    | none ↦ panic
    | some rounds ↦
        if is_some (lookup round rounds)
        then ok chans
        else ok (insert uround (insert round (replicate n (new_chan capacity)) rounds) chans)
  ]

  unfoldable pub create_aba : ℕ → ℕ → ℕ → ℕ → HandlerChans A → Run (HandlerChans A)
  unfolding create_in
  create_aba capacity n uround round h =
      create_in capacity n uround round h.aba_chans >>= λ chans. ok (record h { aba_chans = chans })

  unfoldable pub create_coin_in :
      ℕ
      → ℕ
      → ℕ
      → ℕ
      → HandlerChans A
      → Option (GoMap ℕ (GoMap ℕ (List (Chan A))))
      → Run (HandlerChans A)
  unfolding create_in
  create_coin_in capacity n uround round h none = panic
  create_coin_in capacity n uround round h (some coins) =
      create_in capacity n uround round coins >>= λ chans. ok (record h { coin_chans = some chans })

  unfoldable pub create_coin : ℕ → ℕ → ℕ → ℕ → HandlerChans A → Run (HandlerChans A)
  unfolding create_coin_in
  create_coin capacity n uround round h = create_coin_in capacity n uround round h h.coin_chans

  -- A read of a nil map gives a nil map, slice or channel; an index out of range panics.
  abbrev pub at_index : ℕ → Option (List (Chan A)) → Run (Option (Chan A))
  at_index i none = panic
  at_index i (some chans) = elim (get_elem? chans i) [ none ↦ panic | some ch ↦ ok (some ch) ]

  abbrev pub at_round : ℕ → Option (GoMap ℕ (List (Chan A))) → Option (List (Chan A))
  at_round r none = none
  at_round r (some rounds) = lookup r rounds

  abbrev pub bla_at : ℕ → Option (GoMap ℕ (Chan A)) → Option (Chan A)
  bla_at r none = none
  bla_at r (some rounds) = lookup r rounds

  abbrev pub coin_at :
      ℕ → Option (GoMap ℕ (GoMap ℕ (List (Chan A)))) → Option (GoMap ℕ (List (Chan A)))
  coin_at u none = none
  coin_at u (some coins) = lookup u coins

  -- The channel of an address; `ok none` is a nil channel.
  unfoldable pub channel : Origin → ℕ → ℕ → ℕ → HandlerChans A → Run (Option (Chan A))
  channel aba u r i h = at_index i (at_round r (lookup u h.aba_chans))
  channel bla u r i h = ok (bla_at r (lookup u h.bla_chans))
  channel rbc u r i h = at_index i (lookup u h.rbc_chans)
  channel acs u r i h = ok (lookup u h.acs_chans)
  channel abc u r i h = ok (lookup u h.abc_chans)
  channel coin u r i h = at_index i (at_round r (coin_at u h.coin_chans))

  abbrev pub write_index : ℕ → Chan A → Option (List (Chan A)) → List (Chan A)
  write_index i ch none = []
  write_index i ch (some chans) = set chans i ch

  abbrev pub write_rounds :
      ℕ → ℕ → Chan A → Option (GoMap ℕ (List (Chan A))) → GoMap ℕ (List (Chan A))
  write_rounds r i ch none = []
  write_rounds r i ch (some rounds) = insert r (write_index i ch (lookup r rounds)) rounds

  abbrev pub write_single : ℕ → Chan A → Option (GoMap ℕ (Chan A)) → GoMap ℕ (Chan A)
  write_single r ch none = []
  write_single r ch (some rounds) = insert r ch rounds

  -- The channel of an address after a send or a receive.
  unfoldable pub put_channel : Origin → ℕ → ℕ → ℕ → Chan A → HandlerChans A → HandlerChans A
  put_channel aba u r i ch h = record h {
    aba_chans = insert u (write_rounds r i ch (lookup u h.aba_chans)) h.aba_chans;
  }
  put_channel bla u r i ch h = record h {
    bla_chans = insert u (write_single r ch (lookup u h.bla_chans)) h.bla_chans;
  }
  put_channel rbc u r i ch h = record h {
    rbc_chans = insert u (write_index i ch (lookup u h.rbc_chans)) h.rbc_chans;
  }
  put_channel acs u r i ch h = record h { acs_chans = insert u ch h.acs_chans }
  put_channel abc u r i ch h = record h { abc_chans = insert u ch h.abc_chans }
  put_channel coin u r i ch h = record h {
    coin_chans = elim h.coin_chans [
      | none ↦ none
      | some coins ↦ some (insert u (write_rounds r i ch (lookup u coins)) coins)
    ];
  }

  -- `ch <- payload`. A send to a nil or full channel blocks: `ok none`.
  unfoldable pub send : Origin → ℕ → ℕ → ℕ → A → HandlerChans A → Run (Option (HandlerChans A))
  unfolding channel put_channel
  send o u r i m h = channel o u r i h >>= λ ch. elim ch [
    | none ↦ ok none
    | some ch ↦
        if ltb (length ch.queue) ch.capacity
        then ok (some (put_channel o u r i (record ch { queue = ch.queue ++ m ∷ [] }) h))
        else ok none
  ]

  unfoldable pub pop : Origin → ℕ → ℕ → ℕ → HandlerChans A → Option (Chan A) → Reading A
  unfolding put_channel
  pop o u r i h none = waits h
  pop o u r i h (some ch) = elim ch.queue [
    | [] ↦ waits h
    | m ∷ rest ↦ got m (put_channel o u r i (record ch { queue = rest }) h)
  ]

  -- `<-ch`
  unfoldable pub take_from : Origin → ℕ → ℕ → ℕ → HandlerChans A → Run (Reading A)
  unfolding channel pop
  take_from o u r i h = channel o u r i h >>= λ ch. ok (pop o u r i h ch)

  module _ (n kappa : ℕ) where
    -- One message of the `listener` of a connection.
    unfoldable pub listener :
        Origin → ℕ → ℕ → ℕ → A → HandlerChans A → Run (Option (HandlerChans A))
    unfolding update_round create_aba create_coin send
    listener aba u r i m h = create_aba 999 n u r (update_round u n kappa h) >>= send aba u r i m
    listener bla u r i m h = send bla u r i m (update_round u n kappa h)
    listener rbc u r i m h = send rbc u r i m (update_round u n kappa h)
    listener acs u r i m h = send acs u r i m (update_round u n kappa h)
    listener abc u r i m h = send abc u r i m (update_round u n kappa h)
    listener coin u r i m h = create_coin 999 n u r (update_round u n kappa h) >>= send coin u r i m
