-- ===== src/Routing/Network.antt =====
-- utils/networkhandler.go: the handler of nodes that are connected by TCP, `NewNetworkHandler`.
use upgrade.Prelude.{
  ℕ, zero, suc, false, Option, none, some, List, [], ◌∷◌, ◌++◌, lookup, get_or, nat_eq,
  if◌then◌else◌, Run, ok, ◌>>=◌, ◌%◌, ◌^◌,
}
use upgrade.BinaryAgreement.{CoinRequest}
use upgrade.Configuration.{RoundConfig}
use upgrade.Crypto.{Crypto}
use upgrade.Message.{Message}
use upgrade.Routing.{
  Origin, aba, bla, rbc, acs, abc, coin, HandlerMessage, HandlerChans, Reading, waits, got, nothing,
  update_round, create_aba, create_coin, take_from,
}

module _ {A : Type 0} where
  -- Nothing is sent to a node that is crashed in the round; a round without a configuration panics in
  -- the code and is taken to be configured.
  abbrev pub send_to : RoundConfig → ℕ → HandlerMessage A → List (ℕ × HandlerMessage A)
  send_to cfg node m = if get_or (lookup node cfg.crashed) false then [] else (node, m) ∷ []

  abbrev pub send_all : RoundConfig → HandlerMessage A → ℕ → List (ℕ × HandlerMessage A)
  send_all cfg m zero = []
  send_all cfg m (suc k) = send_all cfg m k ++ send_to cfg k m

  -- The messages that are encoded on a connection, in some order; a receiver of -1 is `none`.
  unfoldable pub multicast :
      RoundConfig → ℕ → HandlerMessage A → Option ℕ → List (ℕ × HandlerMessage A)
  multicast cfg n m (some node) = send_to cfg node m
  multicast cfg n m none = send_all cfg m n

  module _ (n kappa : ℕ) where
    unfoldable pub receive : Origin → ℕ → ℕ → ℕ → HandlerChans A → Run (Reading A)
    unfolding update_round create_aba create_coin take_from
    receive aba u r i h = create_aba 999 n u r (update_round u n kappa h) >>= take_from aba u r i
    receive bla u r i h = take_from bla u r i (update_round u n kappa h)
    receive rbc u r i h = take_from rbc u r i (update_round u n kappa h)
    receive acs u r i h = take_from acs u r i (update_round u n kappa h)
    receive abc u r i h = take_from abc u r i (update_round u n kappa h)
    receive coin u r i h = create_coin 999 n u r (update_round u n kappa h) >>= take_from coin u r i

-- The answer of the common coin to a request, which has no payload.
module _ ⦃c : Crypto⦄ where
  unfoldable pub answer : {P : Type 0} → CoinRequest → ℕ → HandlerMessage (Message (Option P))
  answer q val = record {
    address = record {
      origin = coin;
      uround = q.uround;
      round = q.round;
      instance_id = q.instance_id;
    };
    payload = record { sender = val; payload = none };
  }

  module _ (n kappa : ℕ) where
    -- What the node reads as the coin: `none` where it waits for the answer.
    unfoldable pub coin_call :
        {P : Type 0}
        → CoinRequest
        → HandlerChans (Message P)
        → Run (Option (ℕ × HandlerChans (Message P)))
    unfolding receive
    coin_call q h = receive n kappa coin q.uround q.round q.instance_id h >>= λ x. elim x [
      | waits h' ↦ ok none
      | nothing h' ↦ ok none
      | got m h' ↦ ok (some (m.sender % 2 ^ 8, h'))
    ]
