-- ===== src/Routing/Local/Multicasts.antt =====
-- utils/localhandler.go: what a protocol multicasts and the next receive at a node.
use upgrade.Prelude.{
  ℕ, zero, suc, ◌≡◌, refl, sym, ap, ◌∙◌, Option, none, some, inl, inr, List, [], ◌∷◌, ◌<◌, ◌++◌,
  get_elem?, length, ltb, nat_eq, Run, ok, arith, ltb→lt, length-append, get_elem?-append,
  get_elem?-append_length, Bool-cases,
}
use upgrade.Routing.{
  Origin, aba, bla, rbc, acs, abc, coin, HandlerMessage, HandlerChans, Reading, got, nothing, pop,
  take_from, channel, put_channel,
}
use upgrade.Routing.Writes.{queue_of}
use upgrade.Routing.Creation.{IsCurrent}
use upgrade.Routing.Local.Returns.{HasRoom, sends_into, receiver-receive}
use upgrade.Routing.Local

module _ {A : Type 0} where
  module _ (n kappa : ℕ) where
    -- The functions that a protocol multicasts and receives with.
    abbrev pub multicast_of : Origin → A → ℕ → ℕ → ℕ → List (ℕ × HandlerMessage A)
    multicast_of aba m u r i = Local.aba_multicast n kappa m u r i
    multicast_of bla m u r i = Local.bla_multicast n kappa m u r none
    multicast_of rbc m u r i = Local.rbc_multicast n kappa m u i
    multicast_of acs m u r i = Local.acs_multicast n kappa m u
    multicast_of abc m u r i = Local.abc_multicast n kappa m u none
    multicast_of coin m u r i = []

    abbrev pub receive_of : Origin → ℕ → ℕ → ℕ → HandlerChans A → Run (Reading A)
    receive_of aba u r i h = Local.aba_receive n kappa u r i h
    receive_of bla u r i h = Local.bla_receive n kappa u r h
    receive_of rbc u r i h = Local.rbc_receive n kappa u i h
    receive_of acs u r i h = Local.acs_receive n kappa u h
    receive_of abc u r i h = Local.abc_receive n kappa u h
    receive_of coin u r i h = ok (nothing h)

    -- The receiver of a node takes a message from the channel of the node.
    abbrev pub take_in : HandlerMessage A → HandlerChans A → Run (Option (HandlerChans A))
    take_in hm h =
        Local.receiver n kappa hm.address.origin hm.address.uround hm.address.round
          hm.address.instance_id hm.payload h

    -- The one message of `sent` for node `k` comes in there, and the next receive takes the first one.
    abbrev pub Reaches :
        ℕ
        → List (ℕ × HandlerMessage A)
        → (HandlerChans A → Run (Reading A))
        → Origin
        → ℕ
        → ℕ
        → ℕ
        → A
        → HandlerChans A
        → Type 0
    Reaches k sent receive o u r i m h =
        (length sent ≡ n)
        × ((hm : HandlerMessage A) × (get_elem? sent k ≡ some (k, hm))
            × ((h' : HandlerChans A) × (take_in hm h ≡ ok (some h'))
                × ((first : A) × (rest : List A) × (queue_of h o u r i ++ m ∷ [] ≡ first ∷ rest)
                    × ((h'' : HandlerChans A) × (receive h' ≡ ok (got first h''))
                        × (queue_of h'' o u r i ≡ rest)))))

    length-to_all : (hm : HandlerMessage A) (k : ℕ) → length (Local.to_all hm k) ≡ k
    length-to_all hm zero = refl
    length-to_all hm (suc k) =
        length-append (Local.to_all hm k) ((k, hm) ∷ []) ∙ omega (arith, length-to_all hm k)

    to_all-get :
        (hm : HandlerMessage A) (j k : ℕ) → k < j → get_elem? (Local.to_all hm j) k ≡ some (k, hm)
    to_all-get hm zero k lt = absurd (omega arith)
    to_all-get hm (suc j) k lt = elim (Bool-cases (ltb k j)) [
      | inl below ↦
          get_elem?-append (Local.to_all hm j) ((j, hm) ∷ []) k
            (omega (arith, length-to_all hm j, ltb→lt k j below))
          ∙ to_all-get hm j k (ltb→lt k j below)
      | inr last ↦
          let here : k ≡ j = ground arith in
          get_elem?-append_length (Local.to_all hm j) (j, hm) k (length-to_all hm j ∙ sym here)
          ∙ ap (λ x. some (x, hm)) (sym here)
    ]

    -- What a protocol multicasts with the local handler goes to each node below n exactly once. At a
    -- node without the round, if the instance and the round of the protocol are in range, or with a
    -- channel that is not full, the receiver takes it in without blocking or a panic, and the next
    -- receive of that protocol there returns the first of the messages that waited and this one, and
    -- leaves the rest.
    pub multicast_received :
        (o : Origin) (m : A) (u r i k : ℕ) (h : HandlerChans A)
        → k < n
        → IsCurrent h
        → HasRoom n kappa o u r i h
        → Reaches k (multicast_of o m u r i) (receive_of o u r i) o u r i m h
    unfolding channel pop put_channel take_from Local.multicast Local.receive Local.receiver
        Local.aba_multicast Local.aba_receive Local.bla_multicast Local.bla_receive
        Local.rbc_multicast Local.rbc_receive Local.acs_multicast Local.acs_receive
        Local.abc_multicast Local.abc_receive
    multicast_received aba m u r i k h lt current room = (
      length-to_all _ n,
      (_, to_all-get _ n k lt, receiver-receive n kappa aba u r i m h current room),
    )
    multicast_received bla m u r i k h lt current room = (
      length-to_all _ n,
      (_, to_all-get _ n k lt, receiver-receive n kappa bla u r 0 m h current room),
    )
    multicast_received rbc m u r i k h lt current room = (
      length-to_all _ n,
      (_, to_all-get _ n k lt, receiver-receive n kappa rbc u 0 i m h current room),
    )
    multicast_received acs m u r i k h lt current room = (
      length-to_all _ n,
      (_, to_all-get _ n k lt, receiver-receive n kappa acs u 0 0 m h current room),
    )
    multicast_received abc m u r i k h lt current room = (
      length-to_all _ n,
      (_, to_all-get _ n k lt, receiver-receive n kappa abc u 0 0 m h current room),
    )
    multicast_received coin m u r i k h lt current room =
        absurd ((sends_into n kappa coin u r i m h current room).0 refl)
