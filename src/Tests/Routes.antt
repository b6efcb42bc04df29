-- ===== src/Tests/Routes.antt =====
-- Messages that arrive at the handler of the one node of a network.
use upgrade.Prelude.{
  ℕ, ◌≡◌, ◌≢◌, inr, true, false, get_or, nat_eq, arith, refl, subst, Option, none, some, List, [],
  ◌∷◌, ok, lookup, insert,
}
use upgrade.Routing.{HandlerChans, rbc, acs, coin, got, new_chans, listener, channel}
use upgrade.Routing.Writes.{queue_of}
use upgrade.Routing.Queues.{Changed}
use upgrade.Routing.Creation.{IsCurrent}
use upgrade.Routing.Fifo.{Delivers, listener-Delivers}
use upgrade.Routing.Runs.{
  Op, arrives, reads, run, replay, new-IsCurrent, run-refines, receive_returns,
}
use upgrade.Routing.Local.Multicasts.{multicast_of, receive_of, Reaches, multicast_received}
use upgrade.Routing.CoinCalls.{arrive, call-answer}
use upgrade.Routing.Network
use upgrade.BinaryAgreement.{CoinRequest}
use upgrade.Message.{Message}
use upgrade.Tests.Toy.{toy}

abbrev ops : List (Op ℕ)
ops = arrives rbc 0 0 0 5 ∷ arrives acs 0 0 0 6 ∷ arrives rbc 0 0 0 7 ∷ reads rbc 0 0 0 ∷ []

runs : run 1 1 ops (new_chans (some [])) ≡ ok (some (5 ∷ []))
unfolding run lookup insert
runs = refl

run-refines_example : replay ops (λ o u r i. []) ≡ some (5 ∷ [])
run-refines_example = run-refines 1 1 ops runs

new_IsCurrent : IsCurrent {A = ℕ} (new_chans (some []))
new_IsCurrent = new-IsCurrent 1 1

delivered : (h : HandlerChans ℕ) × (listener 1 1 rbc 0 0 0 5 (new_chans (some [])) ≡ ok (some h))
unfolding listener lookup insert
delivered = (_, refl)

waiting : queue_of delivered.0 rbc 0 0 0 ≡ 5 ∷ []
unfolding delivered channel lookup
waiting = refl

delivered_IsCurrent : IsCurrent delivered.0
delivered_IsCurrent =
    (subst (Delivers rbc 0 0 0 5 (new_chans (some []))) delivered.1
      (listener-Delivers 1 1 0 (new_chans (some [])) new_IsCurrent rbc 0 0 5)).0

receive_returns_example :
    (h' : HandlerChans ℕ) × (Network.receive 1 1 rbc 0 0 0 delivered.0 ≡ ok (got 5 h'))
    × Changed delivered.0 rbc 0 0 0 [] h'
receive_returns_example = receive_returns 1 1 rbc 0 0 0 delivered.0 delivered_IsCurrent waiting

channel_there :
    channel rbc 0 0 0 delivered.0 ≡ ok (some (record { capacity = 999; queue = 5 ∷ [] }))
unfolding delivered channel lookup
channel_there = refl

round_there : get_or (lookup 0 delivered.0.round) false ≡ true
unfolding delivered lookup
round_there = refl

not_coin : rbc ≢ coin
not_coin e = ground arith

multicast_received_example :
    Reaches 1 1 0 (multicast_of 1 1 rbc 6 0 0 0) (receive_of 1 1 rbc 0 0 0) rbc 0 0 0 6 delivered.0
multicast_received_example =
    multicast_received 1 1 rbc 6 0 0 0 0 delivered.0 (omega arith) delivered_IsCurrent
      (inr (not_coin, round_there, (_, channel_there, omega arith)))

abbrev request : CoinRequest
request = record { sender = 0; uround = 0; round = 2; sig = none; instance_id = 0 }

answered :
    (h : HandlerChans (Message (Option ℕ))) × (arrive 1 1
        (Network.answer request 1)
        (new_chans (some []))
      ≡ ok (some h))
unfolding listener lookup insert Network.answer
answered = (_, refl)

no_answer : queue_of {A = Message (Option ℕ)} (new_chans (some [])) coin 0 2 0 ≡ []
unfolding channel lookup
no_answer = refl

call-answer_example :
    (h'' : HandlerChans (Message (Option ℕ))) × (Network.coin_call 1 1 request answered.0
      ≡ ok (some (1, h'')))
    × (queue_of h'' coin 0 2 0 ≡ [])
call-answer_example =
    call-answer 1 1 request 1 (new_chans (some [])) answered.0 (omega arith) (new-IsCurrent 1 1)
      no_answer answered.1
