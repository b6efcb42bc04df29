-- ===== src/Routing/Writes.antt =====
-- utils/utils.go: what a write at an address changes.
use upgrade.Prelude.{
  ℕ, ◌≡◌, refl, sym, ap, ◌∙◌, Bool, false, ◌&&◌, Option, none, some, inl, inr, List, [], GoMap,
  lookup, insert, get_elem?, set, ◌==◌, nat_eq, nat_beq_iff, if◌then◌else◌, Run, ok, panic, arith,
  Bool-cases, Option-cases, lookup-insert, get_elem?-set_self, get_elem?-set_ne, get_elem?-lt,
}
use upgrade.Routing.{
  Origin, aba, bla, rbc, acs, abc, coin, Chan, HandlerChans, at_index, at_round, bla_at, coin_at,
  channel, write_index, write_rounds, write_single, put_channel,
}

-- Two addresses choose one channel; what an origin does not use is not compared.
abbrev pub same : Origin → ℕ → ℕ → ℕ → Origin → ℕ → ℕ → ℕ → Bool
same aba u r i aba u' r' i' = u == u' && (r == r' && i == i')
same bla u r i bla u' r' i' = u == u' && r == r'
same rbc u r i rbc u' r' i' = u == u' && i == i'
same acs u r i acs u' r' i' = u == u'
same abc u r i abc u' r' i' = u == u'
same coin u r i coin u' r' i' = u == u' && (r == r' && i == i')
same o u r i o' u' r' i' = false

module _ {A : Type 0} where
  abbrev pub contents : Run (Option (Chan A)) → List A
  contents panic = []
  contents (ok none) = []
  contents (ok (some ch)) = ch.queue

  -- The messages that wait at an address.
  abbrev pub queue_of : HandlerChans A → Origin → ℕ → ℕ → ℕ → List A
  queue_of h o u r i = contents (channel o u r i h)

  pub at_index-some :
      (i : ℕ) (o : Option (List (Chan A))) {ch : Chan A}
      → at_index i o ≡ ok (some ch)
      → (chans : List (Chan A)) × (o ≡ some chans) × (get_elem? chans i ≡ some ch)
  at_index-some i none h = absurd (ground arith)
  at_index-some i (some chans) {ch} h = (chans, refl, found (get_elem? chans i) h)
    where
      found :
          (o' : Option (Chan A))
          → ◌≡◌ {A = Run (Option (Chan A))}
              (elim o' [ none ↦ panic | some x ↦ ok (some x) ])
              (ok (some ch))
          → o' ≡ some ch
      found none e = absurd (ground arith)
      found (some x) e = ground arith

  pub at_round-some :
      (r : ℕ) (o : Option (GoMap ℕ (List (Chan A)))) {chans : List (Chan A)}
      → at_round r o ≡ some chans
      → (rounds : GoMap ℕ (List (Chan A))) × (o ≡ some rounds) × (lookup r rounds ≡ some chans)
  at_round-some r none h = absurd (ground arith)
  at_round-some r (some rounds) h = (rounds, refl, h)

  module _ (ch' : Chan A) where
    index-set :
        (chans : List (Chan A)) (i i' : ℕ) {ch : Chan A}
        → get_elem? chans i ≡ some ch
        → contents (at_index i' (some (set chans i ch')))
          ≡ (if i == i' then ch'.queue else contents (at_index i' (some chans)))
    index-set chans i i' h = elim (Bool-cases (i == i')) [
      | inl hit ↦ rw hit (
          ap (λ o. contents (elim o [ none ↦ panic | some x ↦ ok (some x) ]))
            (ap (get_elem? (set chans i ch')) (sym ((nat_beq_iff i i').0 hit))
              ∙ get_elem?-set_self chans i ch' (get_elem?-lt chans i h)))
      | inr miss ↦ rw miss (
          ap (λ o. contents (elim o [ none ↦ panic | some x ↦ ok (some x) ]))
            (get_elem?-set_ne chans i i' ch' (λ e. absurd (ground (arith, nat_beq_iff i i')))))
    ]

    rounds-set :
        (rounds : GoMap ℕ (List (Chan A))) (chans : List (Chan A)) (r i r' i' : ℕ) {ch : Chan A}
        → lookup r rounds ≡ some chans
        → get_elem? chans i ≡ some ch
        → contents (at_index i' (lookup r' (write_rounds r i ch' (some rounds))))
          ≡ (if r == r' && i == i' then ch'.queue else contents (at_index i' (lookup r' rounds)))
    rounds-set rounds chans r i r' i' p q = elim (Bool-cases (r == r')) [
      | inl hit ↦
          let e : lookup r' rounds ≡ some chans =
            ap (λ k. lookup k rounds) (sym ((nat_beq_iff r r').0 hit)) ∙ p in
          rw (lookup-insert r r' (write_index i ch' (lookup r rounds)) rounds, hit, p, e)
            (index-set chans i i' q)
      | inr miss ↦ rw (lookup-insert r r' (write_index i ch' (lookup r rounds)) rounds, miss) refl
    ]

    table-set :
        (table : GoMap ℕ (GoMap ℕ (List (Chan A)))) (rounds : GoMap ℕ (List (Chan A)))
        (chans : List (Chan A)) (u r i u' r' i' : ℕ) {ch : Chan A}
        → lookup u table ≡ some rounds
        → lookup r rounds ≡ some chans
        → get_elem? chans i ≡ some ch
        → contents (
            at_index i'
              (at_round r' (lookup u' (insert u (write_rounds r i ch' (lookup u table)) table))))
          ≡ (if u == u' && (r == r' && i == i')
              then ch'.queue
              else contents (at_index i' (at_round r' (lookup u' table))))
    table-set table rounds chans u r i u' r' i' o p q = elim (Bool-cases (u == u')) [
      | inl hit ↦
          let e : lookup u' table ≡ some rounds =
            ap (λ k. lookup k table) (sym ((nat_beq_iff u u').0 hit)) ∙ o in
          rw (lookup-insert u u' (write_rounds r i ch' (lookup u table)) table, hit, o, e)
            (rounds-set rounds chans r i r' i' p q)
      | inr miss ↦ rw (lookup-insert u u' (write_rounds r i ch' (lookup u table)) table, miss) refl
    ]

    list-set :
        (table : GoMap ℕ (List (Chan A))) (chans : List (Chan A)) (u i u' i' : ℕ) {ch : Chan A}
        → lookup u table ≡ some chans
        → get_elem? chans i ≡ some ch
        → contents (at_index i' (lookup u' (insert u (write_index i ch' (lookup u table)) table)))
          ≡ (if u == u' && i == i' then ch'.queue else contents (at_index i' (lookup u' table)))
    list-set table chans u i u' i' p q = rounds-set table chans u i u' i' p q

    single-set :
        (table : GoMap ℕ (Chan A)) (u u' : ℕ)
        → contents (ok (lookup u' (insert u ch' table)))
          ≡ (if u == u' then ch'.queue else contents (ok (lookup u' table)))
    single-set table u u' = elim (Bool-cases (u == u')) [
      | inl hit ↦ rw (lookup-insert u u' ch' table, hit) refl
      | inr miss ↦ rw (lookup-insert u u' ch' table, miss) refl
    ]

    bla-set :
        (table : GoMap ℕ (GoMap ℕ (Chan A))) (u r u' r' : ℕ) {ch : Chan A}
        → bla_at r (lookup u table) ≡ some ch
        → contents
            (ok (bla_at r' (lookup u' (insert u (write_single r ch' (lookup u table)) table))))
          ≡ (if u == u' && r == r' then ch'.queue else contents (ok (bla_at r' (lookup u' table))))
    bla-set table u r u' r' h = elim (Option-cases (lookup u table)) [
      | inl nil ↦ absurd (ground (arith, nil))
      | inr (rounds, o) ↦ elim (Bool-cases (u == u')) [
        | inl hit ↦
            let e : lookup u' table ≡ some rounds =
              ap (λ k. lookup k table) (sym ((nat_beq_iff u u').0 hit)) ∙ o in
            rw (lookup-insert u u' (write_single r ch' (lookup u table)) table, hit, o, e)
              (single-set rounds r r')
        | inr miss ↦ rw (lookup-insert u u' (write_single r ch' (lookup u table)) table, miss) refl
      ]
    ]

    -- A write at an address changes the queue there and no other.
    pub put_channel-queue :
        (o : Origin) (u r i : ℕ) (h : HandlerChans A) (o' : Origin) (u' r' i' : ℕ) {ch : Chan A}
        → channel o u r i h ≡ ok (some ch)
        → queue_of (put_channel o u r i ch' h) o' u' r' i'
          ≡ (if same o u r i o' u' r' i' then ch'.queue else queue_of h o' u' r' i')
    unfolding channel put_channel
    put_channel-queue aba u r i h aba u' r' i' e =
        let (chans, p, q) = at_index-some i (at_round r (lookup u h.aba_chans)) e in
        let (rounds, o, p') = at_round-some r (lookup u h.aba_chans) p in
        table-set h.aba_chans rounds chans u r i u' r' i' o p' q
    put_channel-queue aba u r i h bla u' r' i' e = refl
    put_channel-queue aba u r i h rbc u' r' i' e = refl
    put_channel-queue aba u r i h acs u' r' i' e = refl
    put_channel-queue aba u r i h abc u' r' i' e = refl
    put_channel-queue aba u r i h coin u' r' i' e = refl
    put_channel-queue bla u r i h bla u' r' i' {ch} e =
        let found : bla_at r (lookup u h.bla_chans) ≡ some ch = ground arith in
        bla-set h.bla_chans u r u' r' found
    put_channel-queue bla u r i h aba u' r' i' e = refl
    put_channel-queue bla u r i h rbc u' r' i' e = refl
    put_channel-queue bla u r i h acs u' r' i' e = refl
    put_channel-queue bla u r i h abc u' r' i' e = refl
    put_channel-queue bla u r i h coin u' r' i' e = refl
    put_channel-queue rbc u r i h rbc u' r' i' e =
        let (chans, p, q) = at_index-some i (lookup u h.rbc_chans) e in
        list-set h.rbc_chans chans u i u' i' p q
    put_channel-queue rbc u r i h aba u' r' i' e = refl
    put_channel-queue rbc u r i h bla u' r' i' e = refl
    put_channel-queue rbc u r i h acs u' r' i' e = refl
    put_channel-queue rbc u r i h abc u' r' i' e = refl
    put_channel-queue rbc u r i h coin u' r' i' e = refl
    put_channel-queue acs u r i h acs u' r' i' e = single-set h.acs_chans u u'
    put_channel-queue acs u r i h aba u' r' i' e = refl
    put_channel-queue acs u r i h bla u' r' i' e = refl
    put_channel-queue acs u r i h rbc u' r' i' e = refl
    put_channel-queue acs u r i h abc u' r' i' e = refl
    put_channel-queue acs u r i h coin u' r' i' e = refl
    put_channel-queue abc u r i h abc u' r' i' e = single-set h.abc_chans u u'
    put_channel-queue abc u r i h aba u' r' i' e = refl
    put_channel-queue abc u r i h bla u' r' i' e = refl
    put_channel-queue abc u r i h rbc u' r' i' e = refl
    put_channel-queue abc u r i h acs u' r' i' e = refl
    put_channel-queue abc u r i h coin u' r' i' e = refl
    put_channel-queue coin u r i h coin u' r' i' {ch} e = coin_queue h.coin_chans e
      where
        coin_queue :
            (coins : Option (GoMap ℕ (GoMap ℕ (List (Chan A)))))
            → at_index i (at_round r (coin_at u coins)) ≡ ok (some ch)
            → contents (
                at_index i' (
                  at_round r' (
                    coin_at u' (elim coins [
                      | none ↦ none
                      | some coins ↦ some (insert u (write_rounds r i ch' (lookup u coins)) coins)
                    ]))))
              ≡ (if u == u' && (r == r' && i == i')
                  then ch'.queue
                  else contents (at_index i' (at_round r' (coin_at u' coins))))
        coin_queue none e = absurd (ground arith)
        coin_queue (some coins) e =
            let (chans, p, q) = at_index-some i (at_round r (lookup u coins)) e in
            let (rounds, o, p') = at_round-some r (lookup u coins) p in
            table-set coins rounds chans u r i u' r' i' o p' q
    put_channel-queue coin u r i h aba u' r' i' e = refl
    put_channel-queue coin u r i h bla u' r' i' e = refl
    put_channel-queue coin u r i h rbc u' r' i' e = refl
    put_channel-queue coin u r i h acs u' r' i' e = refl
    put_channel-queue coin u r i h abc u' r' i' e = refl
