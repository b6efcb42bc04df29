-- ===== src/CommonCoin.antt =====
-- binaryagreement/commoncoin.go: the common coin that all nodes ask. `Run` is a fold of `receive`
-- over the requests; what it answers is the list `answers`, oldest first. How requests travel
-- is not modelled; answers are in Routing/Network.
pub mod Tosses
use upgrade.Prelude.{
  ℕ, suc, ◌+◌, ◌/◌, ◌%◌, Bytes, Bool, true, false, not, Option, none, some, List, [], ◌∷◌, ◌++◌,
  GoMap, lookup, insert, get_or, length, leb, ◌==◌, nat_eq, if◌then◌else◌, Run, ok, panic, ◌>>=◌,
}
use upgrade.Crypto.{Crypto, itoa}
use upgrade.BinaryAgreement.{CoinRequest, at}

-- A map UROUND -> round -> instance -> nodeId.
abbrev pub Nested : Type 0 → Type 0
Nested V = GoMap ℕ (GoMap ℕ (GoMap ℕ V))

-- The last byte of a hash, which is never empty, and its least significant bit.
abbrev pub last_byte : Bytes → ℕ
last_byte [] = 0
last_byte (b ∷ []) = b
last_byte (b ∷ c ∷ bs) = last_byte (c ∷ bs)

module _ ⦃c : Crypto⦄ where
  pub record Config : Type 0 where
    pub n : ℕ
    pub key_meta : c.KeyMeta

  abbrev pub Requests : Type 0
  Requests = GoMap ℕ CoinRequest

  pub record State : Type 0 where
    pub received : Nested Requests
    pub already_sent : Nested Bool
    pub coin_vals : GoMap ℕ (GoMap ℕ ℕ)
    pub answers : List (CoinRequest × ℕ)

  unfoldable pub initial : State
  initial = record { received = []; already_sent = []; coin_vals = []; answers = [] }

  -- `received[u][r][i]`, and the map with the request in it.
  abbrev pub requests_of : ℕ → ℕ → ℕ → Nested Requests → Requests
  requests_of u r i m = at i (at r (at u m))

  unfoldable pub store : CoinRequest → Nested Requests → Nested Requests
  store q m =
      insert q.uround
        (insert q.round
          (insert q.instance_id (insert q.sender q (requests_of q.uround q.round q.instance_id m))
            (at q.round (at q.uround m)))
          (at q.uround m))
        m

  abbrev pub is_sent : CoinRequest → Nested Bool → Bool
  is_sent q m = get_or (lookup q.instance_id (at q.round (at q.uround m))) false

  unfoldable pub mark_sent : CoinRequest → Nested Bool → Nested Bool
  mark_sent q m =
      insert q.uround
        (insert q.round (insert q.instance_id true (at q.round (at q.uround m))) (at q.uround m)) m

  -- A request without a share has stopped the coin before it could be read here.
  abbrev pub sig_shares : Requests → List c.SigShare
  sig_shares [] = []
  sig_shares ((i, q) ∷ m) = elim q.sig [ none ↦ sig_shares m | some sig ↦ sig ∷ sig_shares m ]

  abbrev pub answer_all : ℕ → Requests → List (CoinRequest × ℕ)
  answer_all value [] = []
  answer_all value ((i, q) ∷ m) = (q, value) ∷ answer_all value m

  unfoldable pub coin_of : Bytes → ℕ
  coin_of certificate = last_byte (c.sha256 certificate) % 2

  module _ (cfg : Config) where
    -- The padded hash of a round number; a failed padding leaves a nil hash.
    abbrev pub round_hash : ℕ → Bytes
    round_hash r =
        get_or (c.prepare_document_hash (c.public_key_size cfg.key_meta) (c.sha256 (itoa r))) []

    -- The certificate is there, or `Join` has failed.
    unfoldable pub publish : CoinRequest → Option Bytes → State → State
    unfolding mark_sent coin_of
    publish q none st = st
    publish q (some certificate) st =
        let value = coin_of certificate in
        record st {
          answers =
              st.answers
              ++ answer_all value (requests_of q.uround q.round q.instance_id st.received);
          already_sent = mark_sent q st.already_sent;
          coin_vals =
              insert q.uround (insert q.round value (at q.uround st.coin_vals)) st.coin_vals;
        }

    unfoldable pub toss : CoinRequest → State → State
    unfolding publish
    toss q st =
        let requests = requests_of q.uround q.round q.instance_id st.received in
        if is_sent q st.already_sent
        then record st {
          answers = st.answers ++ (q, get_or (lookup q.round (at q.uround st.coin_vals)) 0) ∷ [];
        }
        else publish q (c.join_shares (sig_shares requests) (round_hash q.round) cfg.key_meta) st

    -- The request is stored before its share is verified; a nil share panics.
    unfoldable pub receive : CoinRequest → State → Run State
    unfolding store toss
    receive q st =
        let stored = record st { received = store q st.received } in
        elim q.sig [
          | none ↦ panic
          | some sig ↦ ok (
              if not (c.verify sig (round_hash q.round) cfg.key_meta)
              then stored
              else if leb (cfg.n / 2 + 1)
                  (length (requests_of q.uround q.round q.instance_id stored.received))
              then toss q stored
              else stored)
        ]

    unfoldable pub run : List CoinRequest → State → Run State
    unfolding receive
    run [] st = ok st
    run (q ∷ qs) st = receive q st >>= run qs
