-- ===== src/Routing/CoinCalls.antt =====
-- utils/networkhandler.go and binaryagreement/commoncoin.go: a request to the common coin and its answer.
use upgrade.Prelude.{
  ℕ, ◌≡◌, true, ap, subst, ◌∙◌, ◌<◌, ◌%◌, ◌^◌, ◌++◌, Option, none, some, [], ◌∷◌, nat_eq,
  nat_beq_iff, if◌then◌else◌, Run, ok, arith,
}
use upgrade.BinaryAgreement.{CoinRequest}
use upgrade.Crypto.{Crypto}
use upgrade.Message.{Message}
use upgrade.Routing.{coin, HandlerMessage, HandlerChans, listener}
use upgrade.Routing.Writes.{same, queue_of}
use upgrade.Routing.Creation.{IsCurrent}
use upgrade.Routing.Fifo.{Delivers, listener-Delivers}
use upgrade.Routing.Runs.{receive_returns}
use upgrade.Routing.Network

module _ ⦃c : Crypto⦄ {P : Type 0} (n kappa : ℕ) where
  -- The answer arrives at a node.
  abbrev pub arrive :
      HandlerMessage (Message (Option P))
      → HandlerChans (Message (Option P))
      → Run (Option (HandlerChans (Message (Option P))))
  arrive m h =
      listener n kappa m.address.origin m.address.uround m.address.round m.address.instance_id
        m.payload h

  -- Where no answer waits for the round and instance of a request, and the answer of the coin to it
  -- arrives, the call of the coin at the node returns the value of the answer, a byte, and takes the
  -- answer out.
  pub call-answer :
      (q : CoinRequest) (val : ℕ) (h h' : HandlerChans (Message (Option P)))
      → val < 2 ^ 8
      → IsCurrent h
      → queue_of h coin q.uround q.round q.instance_id ≡ []
      → arrive (Network.answer q val) h ≡ ok (some h')
      → (h'' : HandlerChans (Message (Option P))) × (Network.coin_call n kappa q h'
          ≡ ok (some (val, h'')))
        × (queue_of h'' coin q.uround q.round q.instance_id ≡ [])
  unfolding Network.answer Network.coin_call
  call-answer q val h h' byte current empty arrived =
      let message : Message (Option P) = record { sender = val; payload = none } in
      let same_self : same coin q.uround q.round q.instance_id coin q.uround q.round q.instance_id
          ≡ true =
        ground (
          arith,
          nat_beq_iff q.uround q.uround,
          nat_beq_iff q.round q.round,
          nat_beq_iff q.instance_id q.instance_id,
        ) in
      let (current', changed) =
        subst (Delivers coin q.uround q.round q.instance_id message h) arrived
          (listener-Delivers n kappa q.uround h current coin q.round q.instance_id message) in
      let waiting : queue_of h' coin q.uround q.round q.instance_id ≡ message ∷ [] =
        changed coin q.uround q.round q.instance_id
        ∙ ap
            (λ b.
              if b
              then queue_of h coin q.uround q.round q.instance_id ++ message ∷ []
              else queue_of h coin q.uround q.round q.instance_id)
            same_self
        ∙ ap (λ w. w ++ message ∷ []) empty in
      let (h'', received, after) =
        receive_returns n kappa coin q.uround q.round q.instance_id h' current' waiting in
      let whole : val % 2 ^ 8 ≡ val = omega (arith, byte) in
      (
        h'',
        rw received (ap (λ w. ok (some (w, h''))) whole),
        after coin q.uround q.round q.instance_id
            ∙ ap (λ b. if b then [] else queue_of h' coin q.uround q.round q.instance_id) same_self,
      )
