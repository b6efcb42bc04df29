-- ===== src/Tests/Broadcasts.antt =====
-- One broadcast in a network of one node, which is the sender and the committee.
use upgrade.Prelude.{
  ℕ, ◌≡◌, refl, subst, true, false, some, List, [], ◌∷◌, inl, inr, IsIn, count_below, arith, ok,
  lookup, insert, ◌≤◌, ◌⊎◌,
}
use upgrade.Message.{Message}
use upgrade.Block.{share_hash}
use upgrade.Broadcast.{
  Status, val, echo, ready, Payload, bracha, committee_message, sender_message, State, boot, start,
  step, run,
}
use upgrade.Broadcast.Heard.{count_messages}
use upgrade.Broadcast.Invariant.{AreNodes, echoed, readied, vouched, is_ready, is_echo}
use upgrade.Broadcast.Support.{sent_ready_backed, sends_once, delivered_backed, output_backed}
use upgrade.Broadcast.Network.{
  Network, config, Histories, node, Claims, deliver_to, Reach, begin, receive,
}
use upgrade.Broadcast.Network.Agreement.{delivered_agreement}
use upgrade.Broadcast.Network.Outputs.{output_agreement}
use upgrade.Tests.Toy.{toy, share}

abbrev net : Network
net = record {
  n = 1;
  t = 0;
  tk = 0;
  sender_id = 0;
  committee = (0, true) ∷ [];
  key_meta = 5;
  proof = λ i. i;
  value = λ i. share 9;
  faulty = λ i. false;
}

abbrev of_status : Status → Message Payload
of_status st = record {
  sender = 0;
  payload = bracha (record { sender = 0; status = st; value = share_hash (share 9) });
}

abbrev committed : Message Payload
committed = record {
  sender = 0;
  payload =
      committee_message
        (record { sender = 0; value = share 9; hash = share_hash (share 9); proof = 0 });
}

abbrev from_sender : Message Payload
from_sender = record {
  sender = 0;
  payload = sender_message (record { sender = 0; value = share 9 });
}

abbrev history : List (Message Payload)
history = committed ∷ of_status ready ∷ of_status echo ∷ of_status val ∷ from_sender ∷ []

-- What the node has received after each delivery.
abbrev h0 : Histories
h0 = λ _. []

abbrev h1 : Histories
h1 = deliver_to 0 from_sender h0

abbrev h2 : Histories
h2 = deliver_to 0 (of_status val) h1

abbrev h3 : Histories
h3 = deliver_to 0 (of_status echo) h2

abbrev h4 : Histories
h4 = deliver_to 0 (of_status ready) h3

abbrev h5 : Histories
h5 = deliver_to 0 committed h4

-- The node has sent the message, and it is the only one whose index is 0.
authentic :
    (h : Histories) (m : Message Payload)
    → ((j : ℕ) → Claims j m.payload → 0 ≡ j)
    → IsIn m (node net h 0).sent
    → (j : ℕ) → Claims j m.payload
    → net.faulty j ≡ false
    → IsIn m (node net h j).sent
authentic h m only i j e f = subst (λ k. IsIn m (node net h k).sent) (only j e) i

sent_0 : IsIn from_sender (node net h0 0).sent
unfolding run boot step lookup insert share_hash
sent_0 = inl refl

sent_1 : IsIn (of_status val) (node net h1 0).sent
unfolding run boot step lookup insert share_hash
sent_1 = inr (inl refl)

sent_2 : IsIn (of_status echo) (node net h2 0).sent
unfolding run boot step lookup insert share_hash
sent_2 = inr (inr (inl refl))

sent_3 : IsIn (of_status ready) (node net h3 0).sent
unfolding run boot step lookup insert share_hash
sent_3 = inr (inr (inr (inl refl)))

sent_4 : IsIn committed (node net h4 0).sent
unfolding run boot step lookup insert share_hash
sent_4 = inr (inr (inr (inr (inl refl))))

deliveries_0 : Reach net h0
deliveries_0 = begin

deliveries_1 : Reach net h1
deliveries_1 = receive deliveries_0 0 from_sender (tt, authentic h0 from_sender (λ j e. e) sent_0)

deliveries_2 : Reach net h2
deliveries_2 =
    receive deliveries_1 0 (of_status val)
      (omega arith, authentic h1 (of_status val) (λ j e. e) sent_1)

deliveries_3 : Reach net h3
deliveries_3 =
    receive deliveries_2 0 (of_status echo)
      (omega arith, authentic h2 (of_status echo) (λ j e. e) sent_2)

deliveries_4 : Reach net h4
deliveries_4 =
    receive deliveries_3 0 (of_status ready)
      (omega arith, authentic h3 (of_status ready) (λ j e. e) sent_3)

deliveries_5 : Reach net h5
deliveries_5 =
    receive deliveries_4 0 committed (omega arith, authentic h4 committed (λ j e. e) sent_4)

no_faulty : count_below 1 (λ i. false) ≡ 0
unfolding count_below
no_faulty = refl

delivered : (node net h5 0).broadcast_done ≡ true
unfolding run boot step lookup insert share_hash
delivered = refl

has_output : IsIn (share 9) (node net h5 0).out
unfolding run boot step lookup insert share_hash
has_output = inl refl

-- The hash of the value that the node delivers.
delivered_agreement_example : (node net h5 0).broadcast_value ≡ (node net h5 0).broadcast_value
delivered_agreement_example =
    delivered_agreement net (omega (arith, no_faulty)) deliveries_5 (omega arith) 0 0 delivered
      delivered

output_agreement_example : share_hash (share 9) ≡ share_hash (share 9)
output_agreement_example =
    output_agreement net (omega (arith, no_faulty)) (omega arith) (omega (arith, no_faulty))
      deliveries_5 (omega arith) 0 0 (share 9) (share 9) has_output has_output

started : start (config net 0) (some (share 9)) ≡ ok (boot (config net 0) (share 9))
unfolding start
started = refl

from_nodes : AreNodes (config net 0) history
from_nodes = (omega arith, (omega arith, (omega arith, (omega arith, (tt, tt)))))

abbrev final : State
final = run (config net 0) (boot (config net 0) (share 9)) history

ready_sent : IsIn (of_status ready) final.sent
unfolding run boot step lookup insert share_hash
ready_sent = inr (inr (inr (inl refl)))

final_done : final.broadcast_done ≡ true
unfolding run boot step lookup insert share_hash
final_done = refl

final_out : IsIn (share 9) final.out
unfolding run boot step lookup insert share_hash
final_out = inl refl

sent_ready_backed_example :
    (1 ≤ count_below 1 (echoed (config net 0) history (share_hash (share 9))))
    ⊎ (1 ≤ count_below 1 (readied (config net 0) history (share_hash (share 9))))
sent_ready_backed_example =
    sent_ready_backed (config net 0) (some (share 9)) (boot (config net 0) (share 9)) history
      started from_nodes 0 (record { sender = 0; status = ready; value = share_hash (share 9) })
      refl ready_sent

sends_once_example :
    (count_messages is_ready final.sent ≤ 1) × (count_messages is_echo final.sent ≤ 1)
sends_once_example =
    sends_once (config net 0) (some (share 9)) (boot (config net 0) (share 9)) history started
      from_nodes

delivered_backed_example : 1 ≤ count_below 1 (readied (config net 0) history final.broadcast_value)
delivered_backed_example =
    delivered_backed (config net 0) (some (share 9)) (boot (config net 0) (share 9)) history started
      from_nodes final_done

output_backed_example : 1 ≤ count_below 1 (vouched (config net 0) history (share_hash (share 9)))
output_backed_example =
    output_backed (config net 0) (some (share 9)) (boot (config net 0) (share 9)) history started
      from_nodes (share 9) final_out
