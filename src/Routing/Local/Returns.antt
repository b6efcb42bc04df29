-- ===== src/Routing/Local/Returns.antt =====
-- utils/localhandler.go: one message that a node takes in, and the next receive.
use upgrade.Prelude.{
  ℕ, ◌≡◌, refl, sym, ap, subst, ◌∙◌, true, false, some, inl, inr, List, [], ◌∷◌, ◌<◌, ◌⊎◌, ◌≢◌,
  ◌++◌, lookup, get_or, length, ltb, nat_eq, nat_beq_iff, if◌then◌else◌, ok, arith,
}
use upgrade.Routing.{
  Origin, aba, bla, rbc, acs, abc, coin, Chan, new_chan, HandlerChans, got, send, take_from,
  channel, put_channel,
}
use upgrade.Routing.Writes.{same, queue_of, contents}
use upgrade.Routing.Queues.{Sends, send-Sends, Takes, take_from-Takes}
use upgrade.Routing.Creation.{IsCurrent}
use upgrade.Routing.Present.{
  channel-nonempty, take_from-nonempty, update_round-created, create_aba-present,
}
use upgrade.Routing.Local.Fresh.{InRange, InRange-not_coin, create_round-receiver}
use upgrade.Routing.Local

same_self : (o : Origin) (u r i : ℕ) → same o u r i o u r i ≡ true
same_self aba u r i = ground (arith, nat_beq_iff u u, nat_beq_iff r r, nat_beq_iff i i)
same_self bla u r i = ground (arith, nat_beq_iff u u, nat_beq_iff r r)
same_self rbc u r i = ground (arith, nat_beq_iff u u, nat_beq_iff i i)
same_self acs u r i = ground (arith, nat_beq_iff u u)
same_self abc u r i = ground (arith, nat_beq_iff u u)
same_self coin u r i = ground (arith, nat_beq_iff u u, nat_beq_iff r r, nat_beq_iff i i)

module _ {A : Type 0} where
  -- The round is new, or the channel exists and is not full.
  abbrev pub HasRoom : ℕ → ℕ → Origin → ℕ → ℕ → ℕ → HandlerChans A → Type 0
  HasRoom n kappa o u r i h =
      ((get_or (lookup u h.round) false ≡ false) × InRange n kappa o r i)
      ⊎ ((o ≢ coin)
          × (get_or (lookup u h.round) false ≡ true)
          × ((ch : Chan A) × (channel o u r i h ≡ ok (some ch)) × (length ch.queue < ch.capacity)))

  snoc-first : (q : List A) (m : A) → (first : A) × (rest : List A) × (q ++ m ∷ [] ≡ first ∷ rest)
  snoc-first [] m = (m, [], refl)
  snoc-first (x ∷ q) m = (x, q ++ m ∷ [], refl)

  send-room :
      (o : Origin) (u r i : ℕ) (m : A) (h : HandlerChans A) {ch : Chan A}
      → channel o u r i h ≡ ok (some ch)
      → length ch.queue < ch.capacity
      → (h' : HandlerChans A) × (send o u r i m h ≡ ok (some h'))
  unfolding send
  send-room o u r i m h {ch} e room =
      let fits : ltb (length ch.queue) ch.capacity ≡ true = ground arith in
      (
        put_channel o u r i (record ch { queue = ch.queue ++ m ∷ [] }) h,
        rw (e, send) (rw (fits, send) refl),
      )

  module _ (n kappa : ℕ) where
    present-receiver :
        (o : Origin) (u r i : ℕ) (m : A) (h : HandlerChans A) {ch : Chan A}
        → o ≢ coin
        → get_or (lookup u h.round) false ≡ true
        → channel o u r i h ≡ ok (some ch)
        → Local.receiver n kappa o u r i m h ≡ send o u r i m h
    unfolding Local.receiver
    present-receiver aba u r i m h not_coin old e =
        rw (update_round-created n kappa u h old)
          (rw (create_aba-present n kappa 999 u r i h e) refl)
    present-receiver bla u r i m h not_coin old e =
        ap (send bla u r i m) (update_round-created n kappa u h old)
    present-receiver rbc u r i m h not_coin old e =
        ap (send rbc u r i m) (update_round-created n kappa u h old)
    present-receiver acs u r i m h not_coin old e =
        ap (send acs u r i m) (update_round-created n kappa u h old)
    present-receiver abc u r i m h not_coin old e =
        ap (send abc u r i m) (update_round-created n kappa u h old)
    present-receiver coin u r i m h not_coin old e = absurd (not_coin refl)

    present-receive :
        (o : Origin) (u r i : ℕ) (h : HandlerChans A) {ch : Chan A}
        → o ≢ coin
        → get_or (lookup u h.round) false ≡ true
        → channel o u r i h ≡ ok (some ch)
        → Local.receive n kappa o u r i h ≡ take_from o u r i h
    unfolding Local.receive
    present-receive aba u r i h not_coin old e =
        rw (update_round-created n kappa u h old)
          (rw (create_aba-present n kappa 99999 u r i h e) refl)
    present-receive bla u r i h not_coin old e =
        ap (take_from bla u r i) (update_round-created n kappa u h old)
    present-receive rbc u r i h not_coin old e =
        ap (take_from rbc u r i) (update_round-created n kappa u h old)
    present-receive acs u r i h not_coin old e =
        ap (take_from acs u r i) (update_round-created n kappa u h old)
    present-receive abc u r i h not_coin old e =
        ap (take_from abc u r i) (update_round-created n kappa u h old)
    present-receive coin u r i h not_coin old e = absurd (not_coin refl)

    -- The state at which the receiver of a node sends a message into the channel of its address.
    pub sends_into :
        (o : Origin) (u r i : ℕ) (m : A) (h : HandlerChans A)
        → IsCurrent h
        → HasRoom n kappa o u r i h
        → (o ≢ coin)
          × ((g : HandlerChans A) × (Local.receiver n kappa o u r i m h ≡ send o u r i m g)
              × (get_or (lookup u g.round) false ≡ true)
              × ((ch : Chan A) × (channel o u r i g ≡ ok (some ch))
                  × (length ch.queue < ch.capacity)
                  × (queue_of g o u r i ≡ queue_of h o u r i)))
    sends_into o u r i m h current (inl (new, range)) =
        let (g, ran, created, there) = create_round-receiver n kappa o u r i m h range new in
        (
          InRange-not_coin n kappa o r i range,
          (
            g,
            ran,
            created,
            (new_chan 999, there, omega arith, ap contents there ∙ sym (current o u r i new)),
          ),
        )
    sends_into o u r i m h current (inr (not_coin, old, (ch, there, room))) = (
      not_coin,
      (h, present-receiver o u r i m h not_coin old there, old, (ch, there, room, refl)),
    )

    -- A delivery returns, and the receive after it returns the message that is the first one then.
    pub receiver-receive :
        (o : Origin) (u r i : ℕ) (m : A) (h : HandlerChans A)
        → IsCurrent h
        → HasRoom n kappa o u r i h
        → (h' : HandlerChans A) × (Local.receiver n kappa o u r i m h ≡ ok (some h'))
          × ((first : A) × (rest : List A) × (queue_of h o u r i ++ m ∷ [] ≡ first ∷ rest)
              × ((h'' : HandlerChans A) × (Local.receive n kappa o u r i h' ≡ ok (got first h''))
                  × (queue_of h'' o u r i ≡ rest)))
    receiver-receive o u r i m h current has_room =
        let (not_coin, (g, ran, created, (ch, there, room, alike))) =
          sends_into o u r i m h current has_room in
        let (h', sent) = send-room o u r i m g there room in
        let (changed, rounds) = subst (Sends o u r i m g) sent (send-Sends o u r i m g) in
        let (first, rest, split) = snoc-first (queue_of h o u r i) m in
        let waiting : queue_of h' o u r i ≡ first ∷ rest =
          changed o u r i
          ∙ ap (λ b. if b then queue_of g o u r i ++ m ∷ [] else queue_of g o u r i)
              (same_self o u r i)
          ∙ ap (λ q. q ++ m ∷ []) alike
          ∙ split in
        let (ch', there', full) = channel-nonempty o u r i h' waiting in
        let (h'', taken) = take_from-nonempty o u r i h' waiting in
        let spec = subst (Takes o u r i h') taken (take_from-Takes o u r i h') in
        let rests : spec.0 ≡ rest = ground (arith, spec.1, waiting) in
        (
          h',
          ran ∙ sent,
          (
            first,
            rest,
            split,
            (
              h'',
              present-receive o u r i h' not_coin
                    (ap (λ x. get_or (lookup u x) false) rounds ∙ created) there'
                  ∙ taken,
              spec.2 o u r i
                  ∙ ap (λ b. if b then spec.0 else queue_of h' o u r i) (same_self o u r i)
                  ∙ rests,
            ),
          ),
        )
