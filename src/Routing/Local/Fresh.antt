-- ===== src/Routing/Local/Fresh.antt =====
-- utils/localhandler.go: the channels of a round that a message creates.
use upgrade.Prelude.{
  ℕ, zero, suc, ◌≡◌, refl, sym, ap, ◌∙◌, true, false, Option, none, some, inl, inr, List, ◌<◌, ◌≢◌,
  lookup, insert, get_or, get_elem?, replicate, ◌==◌, nat_eq, nat_beq_iff, if◌then◌else◌, ok, panic,
  ◌>>=◌, arith, Bool-cases, Option-cases, lookup-insert, lookup-insert_self,
}
use upgrade.Routing.{
  Origin, aba, bla, rbc, acs, abc, coin, Chan, new_chan, HandlerChans, instance_rounds,
  single_rounds, create_round, update_round, create_in, create_aba, send, channel, at_index,
  at_round, bla_at,
}
use upgrade.Routing.Local

-- The address is one of those for which a new round of the top protocol has a channel.
abbrev pub InRange : ℕ → ℕ → Origin → ℕ → ℕ → Type 0
InRange n kappa aba r i = i < n
InRange n kappa bla r i = r < kappa
InRange n kappa rbc r i = i < n
InRange n kappa acs r i = Unit
InRange n kappa abc r i = Unit
InRange n kappa coin r i = ⊥

pub InRange-not_coin : (n kappa : ℕ) (o : Origin) (r i : ℕ) → InRange n kappa o r i → o ≢ coin
InRange-not_coin n kappa coin r i range = absurd range
InRange-not_coin n kappa o r i range = λ e. ground arith

module _ {A : Type 0} where
  instance_rounds-some :
      (n k r : ℕ) {chans : List (Chan A)}
      → lookup r (instance_rounds n k) ≡ some chans
      → replicate n (new_chan 999) ≡ chans
  unfolding instance_rounds lookup
  instance_rounds-some n zero r e = absurd (ground arith)
  instance_rounds-some n (suc k) r {chans} e = elim (Bool-cases (k == r)) [
    | inl hit ↦
        let found : some (replicate n (new_chan 999)) ≡ some chans =
          sym (
            lookup-insert k r (replicate n (new_chan 999)) (instance_rounds n k)
            ∙ ap
                (λ b.
                  if b then some (replicate n (new_chan 999)) else lookup r (instance_rounds n k))
                hit)
          ∙ e in
        ground arith
    | inr miss ↦ instance_rounds-some n k r (
        sym (
          lookup-insert k r (replicate n (new_chan 999)) (instance_rounds n k)
          ∙ ap
              (λ b. if b then some (replicate n (new_chan 999)) else lookup r (instance_rounds n k))
              miss)
        ∙ e)
  ]

  single_rounds-lookup :
      (kappa r : ℕ) → r < kappa → lookup {V = Chan A} r (single_rounds kappa) ≡ some (new_chan 999)
  unfolding single_rounds lookup
  single_rounds-lookup zero r lt = absurd (omega arith)
  single_rounds-lookup (suc k) r lt = elim (Bool-cases (k == r)) [
    | inl hit ↦ rw (lookup-insert k r (new_chan {A = A} 999) (single_rounds k), hit) refl
    | inr miss ↦
        rw (lookup-insert k r (new_chan {A = A} 999) (single_rounds k), miss)
          (single_rounds-lookup k r (grind (arith, nat_beq_iff k r)))
  ]

  get_elem?-replicate_lt :
      (n : ℕ) (a : Chan A) (i : ℕ) → i < n → get_elem? (replicate n a) i ≡ some a
  get_elem?-replicate_lt zero a i lt = absurd (omega arith)
  get_elem?-replicate_lt (suc n) a zero lt = refl
  get_elem?-replicate_lt (suc n) a (suc i) lt = get_elem?-replicate_lt n a i (omega arith)

  module _ (n kappa : ℕ) where
    update_round-new :
        (u : ℕ) (h : HandlerChans A)
        → get_or (lookup u h.round) false ≡ false
        → update_round u n kappa h ≡ create_round u n kappa h
    unfolding update_round
    update_round-new u h new = rw (new, update_round) refl

    replicate-channel :
        (i : ℕ) (o : Option (List (Chan A)))
        → i < n
        → o ≡ some (replicate n (new_chan 999))
        → at_index i o ≡ ok (some (new_chan 999))
    replicate-channel i o lt e =
        ap (at_index i) e
        ∙ ap (λ x. elim x [ none ↦ panic | some ch ↦ ok (some ch) ])
            (get_elem?-replicate_lt n (new_chan 999) i lt)

    create_aba-new :
        (u r i : ℕ) (h : HandlerChans A)
        → i < n
        → lookup u h.aba_chans ≡ some (instance_rounds n 10)
        → (g : HandlerChans A) × (create_aba 999 n u r h ≡ ok g)
          × (g.round ≡ h.round)
          × (channel aba u r i g ≡ ok (some (new_chan 999)))
    unfolding create_aba create_in channel
    create_aba-new u r i h lt e = elim (Option-cases (lookup r (instance_rounds {A = A} n 10))) [
      | inl new ↦
          let rounds = insert r (replicate n (new_chan 999)) (instance_rounds {A = A} n 10) in
          (
            record h { aba_chans = insert u rounds h.aba_chans },
            rw (e, create_in) (rw (new, create_in) refl),
            refl,
            replicate-channel i (at_round r (lookup u (insert u rounds h.aba_chans))) lt (
                ap (at_round r) (lookup-insert_self u rounds h.aba_chans)
                ∙ lookup-insert_self r (replicate n (new_chan 999)) (instance_rounds n 10)),
          )
      | inr (chans, old) ↦ (
        h,
        rw (e, create_in) (rw (old, create_in) refl),
        refl,
        replicate-channel i (at_round r (lookup u h.aba_chans)) lt
            (ap (at_round r) e ∙ old ∙ ap some (sym (instance_rounds-some n 10 r old))),
      )
    ]

    pub create_round-receiver :
        (o : Origin) (u r i : ℕ) (m : A) (h : HandlerChans A)
        → InRange n kappa o r i
        → get_or (lookup u h.round) false ≡ false
        → (g : HandlerChans A) × (Local.receiver n kappa o u r i m h ≡ send o u r i m g)
          × (get_or (lookup u g.round) false ≡ true)
          × (channel o u r i g ≡ ok (some (new_chan 999)))
    unfolding Local.receiver create_round channel
    create_round-receiver o u r i m h range new = by_origin o range
      where
        g : HandlerChans A
        g = create_round u n kappa h

        updated : update_round u n kappa h ≡ create_round u n kappa h
        updated = update_round-new u h new

        created : get_or (lookup u (create_round u n kappa h).round) false ≡ true
        created = ap (λ x. get_or x false) (lookup-insert_self u true h.round)

        by_origin :
            (o : Origin)
            → InRange n kappa o r i
            → (g : HandlerChans A) × (Local.receiver n kappa o u r i m h ≡ send o u r i m g)
              × (get_or (lookup u g.round) false ≡ true)
              × (channel o u r i g ≡ ok (some (new_chan 999)))
        by_origin aba lt =
            let (g', ran, rounds, there) =
              create_aba-new u r i g lt (lookup-insert_self u (instance_rounds n 10) h.aba_chans) in
            (
              g',
              ap (λ x. create_aba 999 n u r x >>= send aba u r i m) updated
                  ∙ ap (λ x. x >>= send aba u r i m) ran,
              ap (λ x. get_or (lookup u x) false) rounds ∙ created,
              there,
            )
        by_origin bla lt = (
          g,
          ap (send bla u r i m) updated,
          created,
          ap (λ x. ok (bla_at r x)) (lookup-insert_self u (single_rounds kappa) h.bla_chans)
              ∙ ap ok (single_rounds-lookup kappa r lt),
        )
        by_origin rbc lt = (
          g,
          ap (send rbc u r i m) updated,
          created,
          replicate-channel i (lookup u g.rbc_chans) lt
              (lookup-insert_self u (replicate n (new_chan 999)) h.rbc_chans),
        )
        by_origin acs x = (
          g,
          ap (send acs u r i m) updated,
          created,
          ap ok (lookup-insert_self u (new_chan 999) h.acs_chans),
        )
        by_origin abc x = (
          g,
          ap (send abc u r i m) updated,
          created,
          ap ok (lookup-insert_self u (new_chan 999) h.abc_chans),
        )
        by_origin coin x = absurd x
