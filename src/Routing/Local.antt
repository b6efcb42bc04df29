-- ===== src/Routing/Local.antt =====
-- utils/localhandler.go: the handler of nodes in one process, `NewLocalHandler`.
-- An arrival, and a receive, of binary agreement makes the channels of a round where there are none, as
-- one step. The code lets go of the read lock between the test and the creation, so that two threads can
-- both make the channels, the later ones over the earlier and what these hold; no schedule of the
-- model does that.
pub mod Fresh
pub mod Returns
pub mod Multicasts
use upgrade.Prelude.{ℕ, zero, suc, Option, none, some, List, [], ◌∷◌, ◌++◌, Run, ok, ◌>>=◌}
use upgrade.Routing.{
  Origin, aba, bla, rbc, acs, abc, coin, HandlerMessage, HandlerChans, Reading, nothing,
  update_round, create_aba, send, take_from,
}

module _ {A : Type 0} where
  -- To one node, or to the nodes below `n`.
  abbrev pub to_all : HandlerMessage A → ℕ → List (ℕ × HandlerMessage A)
  to_all m zero = []
  to_all m (suc k) = to_all m k ++ (k, m) ∷ []

  -- A receiver of -1 is `none`.
  unfoldable pub multicast : ℕ → A → Origin → ℕ → ℕ → ℕ → Option ℕ → List (ℕ × HandlerMessage A)
  multicast n msg origin uround round instance_id (some node) =
      (
        node,
        record {
          address = record {
            origin = origin;
            uround = uround;
            round = round;
            instance_id = instance_id;
          };
          payload = msg;
        },
      )
      ∷ []
  multicast n msg origin uround round instance_id none =
      to_all
        (record {
          address = record {
            origin = origin;
            uround = uround;
            round = round;
            instance_id = instance_id;
          };
          payload = msg;
        })
        n

  module _ (n kappa : ℕ) where
    -- The local handler has no channels for the coin, and returns nil for it.
    unfoldable pub receive : Origin → ℕ → ℕ → ℕ → HandlerChans A → Run (Reading A)
    unfolding update_round create_aba take_from
    receive aba u r i h = create_aba 99999 n u r (update_round u n kappa h) >>= take_from aba u r i
    receive bla u r i h = take_from bla u r i (update_round u n kappa h)
    receive rbc u r i h = take_from rbc u r i (update_round u n kappa h)
    receive acs u r i h = take_from acs u r i (update_round u n kappa h)
    receive abc u r i h = take_from abc u r i (update_round u n kappa h)
    receive coin u r i h = ok (nothing (update_round u n kappa h))

    -- One message of `receiver`; one with the origin of the coin is dropped.
    unfoldable pub receiver :
        Origin → ℕ → ℕ → ℕ → A → HandlerChans A → Run (Option (HandlerChans A))
    unfolding update_round create_aba send
    receiver aba u r i m h = create_aba 999 n u r (update_round u n kappa h) >>= send aba u r i m
    receiver bla u r i m h = send bla u r i m (update_round u n kappa h)
    receiver rbc u r i m h = send rbc u r i m (update_round u n kappa h)
    receiver acs u r i m h = send acs u r i m (update_round u n kappa h)
    receiver abc u r i m h = send abc u r i m (update_round u n kappa h)
    receiver coin u r i m h = ok (some (update_round u n kappa h))

    -- The functions that the protocols are given. A parameter that is left out is 0.
    unfoldable pub rbc_multicast : A → ℕ → ℕ → List (ℕ × HandlerMessage A)
    unfolding multicast
    rbc_multicast msg u i = multicast n msg rbc u 0 i none

    unfoldable pub rbc_receive : ℕ → ℕ → HandlerChans A → Run (Reading A)
    unfolding receive
    rbc_receive u i = receive rbc u u i

    unfoldable pub aba_multicast : A → ℕ → ℕ → ℕ → List (ℕ × HandlerMessage A)
    unfolding multicast
    aba_multicast msg u r i = multicast n msg aba u r i none

    unfoldable pub aba_receive : ℕ → ℕ → ℕ → HandlerChans A → Run (Reading A)
    unfolding receive
    aba_receive u r i = receive aba u r i

    unfoldable pub bla_multicast : A → ℕ → ℕ → Option ℕ → List (ℕ × HandlerMessage A)
    unfolding multicast
    bla_multicast msg u r node = multicast n msg bla u r 0 node

    unfoldable pub bla_receive : ℕ → ℕ → HandlerChans A → Run (Reading A)
    unfolding receive
    bla_receive u r = receive bla u r 0

    unfoldable pub acs_multicast : A → ℕ → List (ℕ × HandlerMessage A)
    unfolding multicast
    acs_multicast msg u = multicast n msg acs u 0 0 none

    unfoldable pub acs_receive : ℕ → HandlerChans A → Run (Reading A)
    unfolding receive
    acs_receive u = receive acs u 0 0

    unfoldable pub abc_multicast : A → ℕ → Option ℕ → List (ℕ × HandlerMessage A)
    unfolding multicast
    abc_multicast msg u node = multicast n msg abc u 0 0 node

    unfoldable pub abc_receive : ℕ → HandlerChans A → Run (Reading A)
    unfolding receive
    abc_receive u = receive abc u 0 0
