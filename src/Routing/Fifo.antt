-- ===== src/Routing/Fifo.antt =====
-- utils/: the handlers as queues, one for each channel.
use upgrade.Prelude.{
  ℕ, ◌≡◌, refl, sym, ap, ◌∙◌, true, false, Option, none, some, List, [], ◌∷◌, ◌++◌, lookup, get_or,
  nat_eq, nat_beq_iff, if◌then◌else◌, Run, ok, panic, ◌>>=◌, Ensures, arith, Bool-cases, inl, inr,
}
use upgrade.Routing.{
  Origin, aba, bla, rbc, acs, abc, coin, HandlerChans, Reading, waits, got, nothing, update_round,
  send, take_from, listener,
}
use upgrade.Routing.Writes.{same, queue_of}
use upgrade.Routing.Queues.{Changed, Sends, send-Sends, Takes, take_from-Takes}
use upgrade.Routing.Creation.{
  IsCurrent, SameQueues, update_round-queue, update_round-rounds, update_round-IsCurrent,
  create_aba-SameQueues, create_coin-SameQueues,
}
use upgrade.Routing.Network

same-uround :
    (o : Origin) (u r i : ℕ) (o' : Origin) (u' r' i' : ℕ) → same o u r i o' u' r' i' ≡ true → u ≡ u'
same-uround aba u r i aba u' r' i' h = ground (arith, nat_beq_iff u u')
same-uround o u r i o' u' r' i' h = ground (arith, nat_beq_iff u u')

-- The specification: a queue for each channel.
abbrev pub Queues : Type 0 → Type 0
Queues A = Origin → ℕ → ℕ → ℕ → List A

module _ {A : Type 0} where
  abbrev pub change : Queues A → Origin → ℕ → ℕ → ℕ → List A → Queues A
  change q o u r i new o' u' r' i' = if same o u r i o' u' r' i' then new else q o' u' r' i'

  abbrev pub Agrees : Queues A → HandlerChans A → Type 0
  Agrees q h = (o : Origin) (u r i : ℕ) → queue_of h o u r i ≡ q o u r i

  -- The round of the top protocol has its channels.
  abbrev Created : ℕ → HandlerChans A → Type 0
  Created u h = IsCurrent h × (get_or (lookup u h.round) false ≡ true)

  Changed-IsCurrent :
      (o : Origin) (u r i : ℕ) (q : List A) (h h' : HandlerChans A)
      → Created u h
      → Changed h o u r i q h'
      → h'.round ≡ h.round
      → IsCurrent h'
  Changed-IsCurrent o u r i q h h' current e rounds o' u' r' i' none_there =
      let was_none : get_or (lookup u' h.round) false ≡ false =
        ap (λ m. get_or (lookup u' m) false) (sym rounds) ∙ none_there in
      let other : same o u r i o' u' r' i' ≡ false = elim (Bool-cases (same o u r i o' u' r' i')) [
        | inr p ↦ p
        | inl p ↦ absurd (
            ground (
              arith,
              current.1,
              ap (λ k. get_or (lookup k h.round) false) (same-uround o u r i o' u' r' i' p),
            ))
      ] in
      e o' u' r' i'
      ∙ ap (λ b. if b then q else queue_of h o' u' r' i') other
      ∙ current.0 o' u' r' i' was_none

  -- What a delivery does: the message joins the end of its queue.
  abbrev pub Delivers :
      Origin → ℕ → ℕ → ℕ → A → HandlerChans A → Run (Option (HandlerChans A)) → Type 0
  Delivers o u r i m h panic = Unit
  Delivers o u r i m h (ok none) = Unit
  Delivers o u r i m h (ok (some h')) =
      IsCurrent h' × Changed h o u r i (queue_of h o u r i ++ m ∷ []) h'

  -- What a receive does: it takes the first message of the queue, or waits where there is none.
  abbrev pub Receives : Origin → ℕ → ℕ → ℕ → HandlerChans A → Run (Reading A) → Type 0
  Receives o u r i h panic = Unit
  Receives o u r i h (ok (waits h')) = queue_of h o u r i ≡ []
  Receives o u r i h (ok (nothing h')) = ⊥
  Receives o u r i h (ok (got m h')) =
      IsCurrent h' × ((rest : List A) × (queue_of h o u r i ≡ m ∷ rest) × Changed h o u r i rest h')

  -- The same from handlers with the same queues, of which the second has the round.
  module _ (o : Origin) (u r i : ℕ) (h g : HandlerChans A) (created : Created u g)
      (alike : (o' : Origin) (u' r' i' : ℕ) → queue_of g o' u' r' i' ≡ queue_of h o' u' r' i') where
    alike-Changed :
        (q q' : List A) (h' : HandlerChans A)
        → q ≡ q'
        → Changed g o u r i q h'
        → Changed h o u r i q' h'
    alike-Changed q q' h' p e o' u' r' i' =
        e o' u' r' i'
        ∙ ap (λ x. if same o u r i o' u' r' i' then x else queue_of g o' u' r' i') p
        ∙ ap (λ x. if same o u r i o' u' r' i' then q' else x) (alike o' u' r' i')

    alike-Delivers :
        (m : A) (run : Run (Option (HandlerChans A)))
        → Sends o u r i m g run
        → Delivers o u r i m h run
    alike-Delivers m panic s = tt
    alike-Delivers m (ok none) s = tt
    alike-Delivers m (ok (some h')) s = (
      Changed-IsCurrent o u r i (queue_of g o u r i ++ m ∷ []) g h' created s.0 s.1,
      alike-Changed (queue_of g o u r i ++ m ∷ []) (queue_of h o u r i ++ m ∷ []) h'
          (ap (λ q. q ++ m ∷ []) (alike o u r i)) s.0,
    )

    alike-Receives : (run : Run (Reading A)) → Takes o u r i g run → Receives o u r i h run
    alike-Receives panic t = tt
    alike-Receives (ok (waits h')) t = sym (alike o u r i) ∙ t.0
    alike-Receives (ok (nothing h')) t = t
    alike-Receives (ok (got m h')) t = (
      Changed-IsCurrent o u r i t.0 g h' created t.2 t.3,
      (t.0, sym (alike o u r i) ∙ t.1, alike-Changed t.0 t.0 h' refl t.2),
    )

  module _ (n kappa u : ℕ) (h : HandlerChans A) (current : IsCurrent h) where
    updated : Created u (update_round u n kappa h)
    updated = (
      update_round-IsCurrent n kappa u h current,
      update_round-rounds n kappa u h current u
          ∙ ap (λ b. if b then true else get_or (lookup u h.round) false)
              ((nat_beq_iff u u).1 refl),
    )

    Created-alike :
        (g : HandlerChans A)
        → SameQueues (update_round u n kappa h) g
        → Created u g × ((o : Origin) (u' r i : ℕ) → queue_of g o u' r i ≡ queue_of h o u' r i)
    Created-alike g e =
        let alike = λ (o : Origin) (u' r i : ℕ).
          e.0 o u' r i ∙ update_round-queue n kappa u h current o u' r i in
        (
          (
            (λ o u' r i none_there.
                e.0 o u' r i
                ∙ updated.0 o u' r i (ap (λ m. get_or (lookup u' m) false) (sym e.1) ∙ none_there)),
            ap (λ m. get_or (lookup u m) false) e.1 ∙ updated.1,
          ),
          alike,
        )

    after-Delivers :
        (o : Origin) (r i : ℕ) (m : A) (run : Run (HandlerChans A))
        → Ensures (SameQueues (update_round u n kappa h)) run
        → Delivers o u r i m h (run >>= send o u r i m)
    after-Delivers o r i m panic e = tt
    after-Delivers o r i m (ok g) e =
        let (created, alike) = Created-alike g e in
        alike-Delivers o u r i h g created alike m (send o u r i m g) (send-Sends o u r i m g)

    after-Receives :
        (o : Origin) (r i : ℕ) (run : Run (HandlerChans A))
        → Ensures (SameQueues (update_round u n kappa h)) run
        → Receives o u r i h (run >>= take_from o u r i)
    after-Receives o r i panic e = tt
    after-Receives o r i (ok g) e =
        let (created, alike) = Created-alike g e in
        alike-Receives o u r i h g created alike (take_from o u r i g) (take_from-Takes o u r i g)

    unchanged : Ensures (SameQueues (update_round u n kappa h)) (ok (update_round u n kappa h))
    unchanged = ((λ o u' r i. refl), refl)

    pub listener-Delivers :
        (o : Origin) (r i : ℕ) (m : A) → Delivers o u r i m h (listener n kappa o u r i m h)
    unfolding listener
    listener-Delivers aba r i m = after-Delivers aba r i m _ (create_aba-SameQueues 999 n u r _)
    listener-Delivers bla r i m = after-Delivers bla r i m (ok _) unchanged
    listener-Delivers rbc r i m = after-Delivers rbc r i m (ok _) unchanged
    listener-Delivers acs r i m = after-Delivers acs r i m (ok _) unchanged
    listener-Delivers abc r i m = after-Delivers abc r i m (ok _) unchanged
    listener-Delivers coin r i m = after-Delivers coin r i m _ (create_coin-SameQueues 999 n u r _)

    pub receive-Receives :
        (o : Origin) (r i : ℕ) → Receives o u r i h (Network.receive n kappa o u r i h)
    unfolding Network.receive
    receive-Receives aba r i = after-Receives aba r i _ (create_aba-SameQueues 999 n u r _)
    receive-Receives bla r i = after-Receives bla r i (ok _) unchanged
    receive-Receives rbc r i = after-Receives rbc r i (ok _) unchanged
    receive-Receives acs r i = after-Receives acs r i (ok _) unchanged
    receive-Receives abc r i = after-Receives abc r i (ok _) unchanged
    receive-Receives coin r i = after-Receives coin r i _ (create_coin-SameQueues 999 n u r _)
