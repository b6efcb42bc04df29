-- ===== src/Routing/Queues.antt =====
-- utils/utils.go: each channel as a queue of its own.
use upgrade.Prelude.{
  ℕ, ◌≡◌, refl, sym, ap, ◌∙◌, Option, none, some, List, [], ◌∷◌, ◌++◌, nat_eq, if◌then◌else◌, Run,
  ok, panic, ◌>>=◌, length, ltb, if_ind,
}
use upgrade.Routing.{
  Origin, aba, bla, rbc, acs, abc, coin, Chan, HandlerChans, channel, put_channel, send, take_from,
  pop, Reading, waits, got, nothing,
}
use upgrade.Routing.Writes.{same, contents, queue_of, put_channel-queue}

module _ {A : Type 0} where
  -- The queues of `h'` are those of `h` but for one address, where the queue is `q`.
  abbrev pub Changed : HandlerChans A → Origin → ℕ → ℕ → ℕ → List A → HandlerChans A → Type 0
  Changed h o u r i q h' =
      (o' : Origin) (u' r' i' : ℕ)
      → queue_of h' o' u' r' i' ≡ (if same o u r i o' u' r' i' then q else queue_of h o' u' r' i')

  put_channel-round :
      (o : Origin) (u r i : ℕ) (ch : Chan A) (h : HandlerChans A)
      → (put_channel o u r i ch h).round ≡ h.round
  unfolding put_channel
  put_channel-round aba u r i ch h = refl
  put_channel-round bla u r i ch h = refl
  put_channel-round rbc u r i ch h = refl
  put_channel-round acs u r i ch h = refl
  put_channel-round abc u r i ch h = refl
  put_channel-round coin u r i ch h = refl

  -- What a send does where it does not panic.
  abbrev pub Sends :
      Origin → ℕ → ℕ → ℕ → A → HandlerChans A → Run (Option (HandlerChans A)) → Type 0
  Sends o u r i m h panic = Unit
  Sends o u r i m h (ok none) = Unit
  Sends o u r i m h (ok (some h')) =
      Changed h o u r i (queue_of h o u r i ++ m ∷ []) h' × (h'.round ≡ h.round)

  pub send-Sends :
      (o : Origin) (u r i : ℕ) (m : A) (h : HandlerChans A) → Sends o u r i m h (send o u r i m h)
  unfolding send
  send-Sends o u r i m h = sent (channel o u r i h) refl
    where
      sent :
          (run : Run (Option (Chan A)))
          → channel o u r i h ≡ run
          → Sends o u r i m h (
              run >>= λ ch. elim ch [
                | none ↦ ok none
                | some ch ↦
                    if ltb (length ch.queue) ch.capacity
                    then ok
                        (some (put_channel o u r i (record ch { queue = ch.queue ++ m ∷ [] }) h))
                    else ok none
              ])
      sent panic e = tt
      sent (ok none) e = tt
      sent (ok (some ch)) e =
          if_ind (Sends o u r i m h) (ltb (length ch.queue) ch.capacity) _ _
            (λ room. (
              (λ o' u' r' i'.
                  put_channel-queue (record ch { queue = ch.queue ++ m ∷ [] }) o u r i h o' u' r' i'
                    e
                  ∙ ap
                      (λ q.
                        if same o u r i o' u' r' i' then q ++ m ∷ [] else queue_of h o' u' r' i')
                      (sym (ap contents e))),
              put_channel-round o u r i _ h,
            ))
            (λ full. tt)

  -- What a receive does where it does not panic.
  abbrev pub Takes : Origin → ℕ → ℕ → ℕ → HandlerChans A → Run (Reading A) → Type 0
  Takes o u r i h panic = Unit
  Takes o u r i h (ok (waits h')) = (queue_of h o u r i ≡ []) × (h' ≡ h)
  Takes o u r i h (ok (nothing h')) = ⊥
  Takes o u r i h (ok (got m h')) =
      (rest : List A) × (queue_of h o u r i ≡ m ∷ rest)
      × Changed h o u r i rest h'
      × (h'.round ≡ h.round)

  pub take_from-Takes :
      (o : Origin) (u r i : ℕ) (h : HandlerChans A) → Takes o u r i h (take_from o u r i h)
  unfolding take_from
  take_from-Takes o u r i h = taken (channel o u r i h) refl
    where
      popped :
          (capacity : ℕ) (q : List A)
          → channel o u r i h ≡ ok (some (record { capacity = capacity; queue = q }))
          → Takes o u r i h (ok (pop o u r i h (some (record { capacity = capacity; queue = q }))))
      popped capacity [] e = unfold pop in (ap contents e, refl)
      popped capacity (m ∷ rest) e =
          unfold pop in
          (
            rest,
            ap contents e,
            (λ o' u' r' i'.
                put_channel-queue (record { capacity = capacity; queue = rest }) o u r i h o' u' r'
                  i' e),
            put_channel-round o u r i _ h,
          )

      taken :
          (run : Run (Option (Chan A)))
          → channel o u r i h ≡ run
          → Takes o u r i h (run >>= λ ch. ok (pop o u r i h ch))
      taken panic e = tt
      taken (ok none) e = unfold pop in (ap contents e, refl)
      taken (ok (some ch)) e = popped ch.capacity ch.queue e
