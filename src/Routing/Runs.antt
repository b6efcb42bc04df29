-- ===== src/Routing/Runs.antt =====
-- utils/: a node's receives and the arrivals of messages, against queues.
use upgrade.Prelude.{
  ℕ, ◌≡◌, refl, sym, ap, subst, ◌∙◌, true, false, Option, none, some, inl, inr, List, [], ◌∷◌, ◌++◌,
  GoMap, lookup, get_or, nat_eq, if◌then◌else◌, Run, ok, panic, ◌>>=◌, arith, Bool-cases,
}
use upgrade.Routing.{
  Origin, aba, bla, rbc, acs, abc, coin, Chan, HandlerChans, Reading, waits, got, nothing,
  new_chans, take_from, listener, channel,
}
use upgrade.Routing.Writes.{same, queue_of}
use upgrade.Routing.Queues.{Changed}
use upgrade.Routing.Creation.{IsCurrent}
use upgrade.Routing.Fifo.{
  Queues, change, Agrees, Delivers, Receives, listener-Delivers, receive-Receives,
}
use upgrade.Routing.Present.{
  channel-nonempty, take_from-nonempty, update_round-created, create_aba-present,
  create_coin-present,
}
use upgrade.Routing.Network

-- An arrival of a message from a connection, or a receive of a protocol.
pub data Op (A : Type 0) : Type 0 where
  arrives : Origin → ℕ → ℕ → ℕ → A → Op A
  reads : Origin → ℕ → ℕ → ℕ → Op A

module _ {A : Type 0} where
  abbrev pub prepend : A → Option (List A) → Option (List A)
  prepend m none = none
  prepend m (some ms) = some (m ∷ ms)

  -- The messages that the receives return; `ok none` where one waits, or a send blocks.
  unfoldable pub run : ℕ → ℕ → List (Op A) → HandlerChans A → Run (Option (List A))
  unfolding listener Network.receive
  run n kappa [] h = ok (some [])
  run n kappa (arrives o u r i m ∷ ops) h =
      listener n kappa o u r i m h >>= λ x. elim x [ none ↦ ok none | some h' ↦ run n kappa ops h' ]
  run n kappa (reads o u r i ∷ ops) h = Network.receive n kappa o u r i h >>= λ x. elim x [
    | waits h' ↦ ok none
    | nothing h' ↦ ok none
    | got m h' ↦ run n kappa ops h' >>= λ ms. ok (prepend m ms)
  ]

  -- The same on queues.
  unfoldable pub replay : List (Op A) → Queues A → Option (List A)
  replay [] q = some []
  replay (arrives o u r i m ∷ ops) q = replay ops (change q o u r i (q o u r i ++ m ∷ []))
  replay (reads o u r i ∷ ops) q = elim (q o u r i) [
    | [] ↦ none
    | m ∷ rest ↦ prepend m (replay ops (change q o u r i rest))
  ]

  abbrev Refines : List (Op A) → Queues A → Run (Option (List A)) → Type 0
  Refines ops q panic = Unit
  Refines ops q (ok none) = Unit
  Refines ops q (ok (some ms)) = replay ops q ≡ some ms

  Changed-Agrees :
      (q : Queues A) (h h' : HandlerChans A) (o : Origin) (u r i : ℕ) (new new' : List A)
      → Agrees q h
      → new ≡ new'
      → Changed h o u r i new h'
      → Agrees (change q o u r i new') h'
  Changed-Agrees q h h' o u r i new new' a p e o' u' r' i' =
      e o' u' r' i'
      ∙ ap (λ x. if same o u r i o' u' r' i' then x else queue_of h o' u' r' i') p
      ∙ ap (λ x. if same o u r i o' u' r' i' then new' else x) (a o' u' r' i')

  arrives-Refines :
      (o : Origin) (u r i : ℕ) (m : A) (ops : List (Op A)) (q : Queues A)
      (x : Run (Option (List A)))
      → Refines ops (change q o u r i (q o u r i ++ m ∷ [])) x
      → Refines (arrives o u r i m ∷ ops) q x
  unfolding replay
  arrives-Refines o u r i m ops q panic h = tt
  arrives-Refines o u r i m ops q (ok none) h = tt
  arrives-Refines o u r i m ops q (ok (some ms)) h = h

  reads-Refines :
      (o : Origin) (u r i : ℕ) (m : A) (rest : List A) (ops : List (Op A)) (q : Queues A)
      (x : Run (Option (List A)))
      → q o u r i ≡ m ∷ rest
      → Refines ops (change q o u r i rest) x
      → Refines (reads o u r i ∷ ops) q (x >>= λ ms. ok (prepend m ms))
  unfolding replay
  reads-Refines o u r i m rest ops q panic e h = tt
  reads-Refines o u r i m rest ops q (ok none) e h = tt
  reads-Refines o u r i m rest ops q (ok (some ms)) e h = rw (e, replay) (ap (prepend m) h)

  module _ (n kappa : ℕ) where
    run-Refines :
        (ops : List (Op A)) (q : Queues A) (h : HandlerChans A)
        → IsCurrent h
        → Agrees q h
        → Refines ops q (run n kappa ops h)
    unfolding run replay
    run-Refines [] q h current a = refl
    run-Refines (arrives o u r i m ∷ ops) q h current a =
        delivered (listener n kappa o u r i m h) (listener-Delivers n kappa u h current o r i m)
          (λ q' h' c' a'. run-Refines ops q' h' c' a')
      where
        delivered :
            (x : Run (Option (HandlerChans A)))
            → Delivers o u r i m h x
            → ((q' : Queues A) (h' : HandlerChans A)
                → IsCurrent h'
                → Agrees q' h'
                → Refines ops q' (run n kappa ops h'))
            → Refines
                (arrives o u r i m ∷ ops)
                q
                (x >>= λ y. elim y [ none ↦ ok none | some h' ↦ run n kappa ops h' ])
        delivered panic d ih = tt
        delivered (ok none) d ih = tt
        delivered (ok (some h')) d ih = arrives-Refines o u r i m ops q (run n kappa ops h') (
            ih (change q o u r i (q o u r i ++ m ∷ [])) h' d.0
              (Changed-Agrees q h h' o u r i _ _ a (ap (λ w. w ++ m ∷ []) (a o u r i)) d.1))
    run-Refines (reads o u r i ∷ ops) q h current a =
        received (Network.receive n kappa o u r i h) (receive-Receives n kappa u h current o r i)
          (λ q' h' c' a'. run-Refines ops q' h' c' a')
      where
        received :
            (x : Run (Reading A))
            → Receives o u r i h x
            → ((q' : Queues A) (h' : HandlerChans A)
                → IsCurrent h'
                → Agrees q' h'
                → Refines ops q' (run n kappa ops h'))
            → Refines (reads o u r i ∷ ops) q (
                x >>= λ y. elim y [
                  | waits h' ↦ ok none
                  | nothing h' ↦ ok none
                  | got m h' ↦ run n kappa ops h' >>= λ ms. ok (prepend m ms)
                ])
        received panic d ih = tt
        received (ok (waits h')) d ih = tt
        received (ok (nothing h')) d ih = absurd d
        received (ok (got m h')) d ih =
            reads-Refines o u r i m d.1.0 ops q (run n kappa ops h') (sym (a o u r i) ∙ d.1.1) (
              ih (change q o u r i d.1.0) h' d.0
                (Changed-Agrees q h h' o u r i d.1.0 d.1.0 a refl d.1.2))

    new-queue :
        (coins : Option (GoMap ℕ (GoMap ℕ (List (Chan A))))) (o : Origin) (u r i : ℕ)
        → ((u' r' i' : ℕ) → queue_of (new_chans coins) coin u' r' i' ≡ [])
        → queue_of (new_chans coins) o u r i ≡ []
    unfolding channel lookup
    new-queue coins aba u r i h = refl
    new-queue coins bla u r i h = refl
    new-queue coins rbc u r i h = refl
    new-queue coins acs u r i h = refl
    new-queue coins abc u r i h = refl
    new-queue coins coin u r i h = h u r i

    pub new-IsCurrent : IsCurrent {A = A} (new_chans (some []))
    new-IsCurrent o u r i none_there =
        new-queue (some []) o u r i (λ u' r' i'. unfold channel lookup in refl)

    -- On the channels of a new network handler, the receives among any arrivals and receives return
    -- what one queue for each channel gives: the messages of an address in the order in which they
    -- came, each once, whatever comes to other addresses and whenever channels are created.
    pub run-refines :
        (ops : List (Op A)) {ms : List A}
        → run n kappa ops (new_chans (some [])) ≡ ok (some ms)
        → replay ops (λ o u r i. []) ≡ some ms
    run-refines ops {ms} e = subst (Refines ops (λ o u r i. [])) e (
        run-Refines ops (λ o u r i. []) (new_chans (some [])) (λ o u r i none_there. fresh o u r i)
          fresh)
      where
        fresh : (o : Origin) (u r i : ℕ) → queue_of {A = A} (new_chans (some [])) o u r i ≡ []
        fresh o u r i = new-queue (some []) o u r i (λ u' r' i'. unfold channel lookup in refl)

    present-receive :
        (o : Origin) (u r i : ℕ) (h : HandlerChans A) {ch : Chan A}
        → get_or (lookup u h.round) false ≡ true
        → channel o u r i h ≡ ok (some ch)
        → Network.receive n kappa o u r i h ≡ take_from o u r i h
    unfolding Network.receive
    present-receive aba u r i h old e =
        rw (update_round-created n kappa u h old)
          (rw (create_aba-present n kappa 999 u r i h e) refl)
    present-receive bla u r i h old e = rw (update_round-created n kappa u h old) refl
    present-receive rbc u r i h old e = rw (update_round-created n kappa u h old) refl
    present-receive acs u r i h old e = rw (update_round-created n kappa u h old) refl
    present-receive abc u r i h old e = rw (update_round-created n kappa u h old) refl
    present-receive coin u r i h old e =
        rw (update_round-created n kappa u h old) (rw (create_coin-present n kappa u r i h e) refl)

    -- Where a message waits at an address, a receive there does not block and does not panic: it
    -- returns the first message, takes it out, and leaves the other queues as they are.
    pub receive_returns :
        (o : Origin) (u r i : ℕ) (h : HandlerChans A) {m : A} {rest : List A}
        → IsCurrent h
        → queue_of h o u r i ≡ m ∷ rest
        → (h' : HandlerChans A) × (Network.receive n kappa o u r i h ≡ ok (got m h'))
          × Changed h o u r i rest h'
    receive_returns o u r i h {m} {rest} current e =
        let (ch, p, q) = channel-nonempty o u r i h e in
        let (h', ran) = take_from-nonempty o u r i h e in
        let old : get_or (lookup u h.round) false ≡ true =
          elim (Bool-cases (get_or (lookup u h.round) false)) [
            | inl t ↦ t
            | inr f ↦ absurd (ground (arith, current o u r i f, e))
          ] in
        let received = present-receive o u r i h old p ∙ ran in
        let spec : Receives o u r i h (ok (got m h')) =
          subst (Receives o u r i h) received (receive-Receives n kappa u h current o r i) in
        let rests : spec.1.0 ≡ rest = ground (arith, spec.1.1, e) in
        (h', received, subst (λ x. Changed h o u r i x h') rests spec.1.2)
