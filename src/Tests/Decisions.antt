-- ===== src/Tests/Decisions.antt =====
-- Binary agreement at four nodes, of which node 3 is faulty: nodes 0 and 1 decide, node 2 is silent.
use upgrade.Prelude.{
  ℕ, ◌≡◌, ◌<◌, refl, [], inl, inr, IsIn, count_below, lookup, insert, ◌==◌, nat_eq, arith,
}
use upgrade.BinaryAgreement.{
  Status, est, aux, AbaMessage, Sent, receives, advances, step, run_from, run,
}
use upgrade.BinaryAgreement.Network.{
  Network, Histories, node, IsAuthentic, extend, Reach, begin, happens,
}
use upgrade.BinaryAgreement.Network.Agreement.{decided_agreement}
use upgrade.BinaryAgreement.Network.Validity.{decided_validity}

abbrev net : Network
net = record { n = 4; t = 1; coin = λ r. 1; value = λ i. 1; faulty = λ i. i == 3 }

abbrev of_status : Status → ℕ → AbaMessage
of_status st i = record { sender = i; value = 1; round = 0; status = st }

abbrev sent_by : Status → ℕ → Sent
sent_by st i = record { channel = 0; message = record { sender = i; payload = of_status st i } }

-- A message of node 3 may come at any time.
from_faulty : (h : Histories) (st : Status) → IsAuthentic net h (receives (of_status st 3))
from_faulty h st = (omega arith, λ good. absurd (ground (arith, good)))

from_sender :
    (h : Histories) (st : Status) (i : ℕ)
    → i < 4
    → IsIn (sent_by st i) (node net h i).sent
    → IsAuthentic net h (receives (of_status st i))
from_sender h st i lt there = (lt, λ good. (sent_by st i, there, refl))

-- What the nodes have done after each step.
abbrev g0 : Histories
g0 = λ _. []

steps_0 : Reach net g0
steps_0 = begin

abbrev g1 : Histories
g1 = extend 0 (receives (of_status est 0)) g0

sent_0 : IsIn (sent_by est 0) (node net g0 0).sent
unfolding run run_from step lookup insert
sent_0 = (inl refl)

steps_1 : Reach net g1
steps_1 = happens steps_0 0 (receives (of_status est 0)) (from_sender g0 est 0 (omega arith) sent_0)

abbrev g2 : Histories
g2 = extend 0 (receives (of_status est 1)) g1

sent_1 : IsIn (sent_by est 1) (node net g1 1).sent
unfolding run run_from step lookup insert
sent_1 = (inl refl)

steps_2 : Reach net g2
steps_2 = happens steps_1 0 (receives (of_status est 1)) (from_sender g1 est 1 (omega arith) sent_1)

abbrev g3 : Histories
g3 = extend 0 (receives (of_status est 3)) g2

steps_3 : Reach net g3
steps_3 = happens steps_2 0 (receives (of_status est 3)) (from_faulty g2 est)

abbrev g4 : Histories
g4 = extend 1 (receives (of_status est 0)) g3

sent_3 : IsIn (sent_by est 0) (node net g3 0).sent
unfolding run run_from step lookup insert
sent_3 = (inl refl)

steps_4 : Reach net g4
steps_4 = happens steps_3 1 (receives (of_status est 0)) (from_sender g3 est 0 (omega arith) sent_3)

abbrev g5 : Histories
g5 = extend 1 (receives (of_status est 1)) g4

sent_4 : IsIn (sent_by est 1) (node net g4 1).sent
unfolding run run_from step lookup insert
sent_4 = (inl refl)

steps_5 : Reach net g5
steps_5 = happens steps_4 1 (receives (of_status est 1)) (from_sender g4 est 1 (omega arith) sent_4)

abbrev g6 : Histories
g6 = extend 1 (receives (of_status est 3)) g5

steps_6 : Reach net g6
steps_6 = happens steps_5 1 (receives (of_status est 3)) (from_faulty g5 est)

abbrev g7 : Histories
g7 = extend 0 advances g6

steps_7 : Reach net g7
steps_7 = happens steps_6 0 advances tt

abbrev g8 : Histories
g8 = extend 1 advances g7

steps_8 : Reach net g8
steps_8 = happens steps_7 1 advances tt

abbrev g9 : Histories
g9 = extend 0 (receives (of_status aux 0)) g8

sent_8 : IsIn (sent_by aux 0) (node net g8 0).sent
unfolding run run_from step lookup insert
sent_8 = (inr (inr (inl refl)))

steps_9 : Reach net g9
steps_9 = happens steps_8 0 (receives (of_status aux 0)) (from_sender g8 aux 0 (omega arith) sent_8)

abbrev g10 : Histories
g10 = extend 0 (receives (of_status aux 1)) g9

sent_9 : IsIn (sent_by aux 1) (node net g9 1).sent
unfolding run run_from step lookup insert
sent_9 = (inr (inr (inl refl)))

steps_10 : Reach net g10
steps_10 =
    happens steps_9 0 (receives (of_status aux 1)) (from_sender g9 aux 1 (omega arith) sent_9)

abbrev g11 : Histories
g11 = extend 0 (receives (of_status aux 3)) g10

steps_11 : Reach net g11
steps_11 = happens steps_10 0 (receives (of_status aux 3)) (from_faulty g10 aux)

abbrev g12 : Histories
g12 = extend 0 advances g11

steps_12 : Reach net g12
steps_12 = happens steps_11 0 advances tt

abbrev g13 : Histories
g13 = extend 1 (receives (of_status aux 0)) g12

sent_12 : IsIn (sent_by aux 0) (node net g12 0).sent
unfolding run run_from step lookup insert
sent_12 = (inr (inr (inl refl)))

steps_13 : Reach net g13
steps_13 =
    happens steps_12 1 (receives (of_status aux 0)) (from_sender g12 aux 0 (omega arith) sent_12)

abbrev g14 : Histories
g14 = extend 1 (receives (of_status aux 1)) g13

sent_13 : IsIn (sent_by aux 1) (node net g13 1).sent
unfolding run run_from step lookup insert
sent_13 = (inr (inr (inl refl)))

steps_14 : Reach net g14
steps_14 =
    happens steps_13 1 (receives (of_status aux 1)) (from_sender g13 aux 1 (omega arith) sent_13)

abbrev g15 : Histories
g15 = extend 1 (receives (of_status aux 3)) g14

steps_15 : Reach net g15
steps_15 = happens steps_14 1 (receives (of_status aux 3)) (from_faulty g14 aux)

abbrev g16 : Histories
g16 = extend 1 advances g15

steps_16 : Reach net g16
steps_16 = happens steps_15 1 advances tt

decided_0 : IsIn 1 (node net g16 0).out
unfolding run run_from step lookup insert
decided_0 = inl refl

decided_1 : IsIn 1 (node net g16 1).out
unfolding run run_from step lookup insert
decided_1 = inl refl

one_faulty : count_below 4 (λ i. i == 3) ≡ 1
unfolding count_below
one_faulty = refl

decided_agreement_example : ◌≡◌ {A = ℕ} 1 1
decided_agreement_example =
    decided_agreement net steps_16 (omega (arith, one_faulty)) (omega arith) 0 1 1 1 decided_0
      decided_1

decided_validity_example : ◌≡◌ {A = ℕ} 1 1
decided_validity_example =
    decided_validity net (omega (arith, one_faulty)) 1 (λ i lt good. refl) steps_16 0 1 decided_0
