-- ===== src/Routing/Creation.antt =====
-- utils/utils.go: the creation of channels leaves the messages that wait where they are.
use upgrade.Prelude.{
  ℕ, zero, suc, ◌≡◌, refl, sym, ap, ◌∙◌, true, false, Option, none, some, inl, inr, List, [], GoMap,
  lookup, insert, get_or, get_elem?, replicate, ◌==◌, nat_eq, nat_beq_iff, if◌then◌else◌, Run, ok,
  panic, ◌>>=◌, Ensures, arith, Bool-cases, Option-cases, if_ind, lookup-insert,
  get_elem?-replicate,
}
use upgrade.Routing.{
  Origin, aba, bla, rbc, acs, abc, coin, Chan, new_chan, HandlerChans, instance_rounds,
  single_rounds, create_round, update_round, create_in, create_aba, create_coin, create_coin_in,
  at_index, at_round, bla_at, coin_at, channel,
}
use upgrade.Routing.Writes.{contents, queue_of}

module _ {A : Type 0} where
  -- No message waits in a round of the top protocol whose channels are not created.
  abbrev pub IsCurrent : HandlerChans A → Type 0
  IsCurrent h =
      (o : Origin) (u r i : ℕ) → get_or (lookup u h.round) false ≡ false → queue_of h o u r i ≡ []

  fresh_list :
      (n capacity i : ℕ)
      → contents {A = A} (at_index i (some (replicate n (new_chan capacity)))) ≡ []
  fresh_list n capacity i = fresh (get_elem? (replicate n (new_chan capacity)) i) refl
    where
      fresh :
          (o : Option (Chan A))
          → get_elem? (replicate n (new_chan capacity)) i ≡ o
          → contents (elim o [ none ↦ panic | some x ↦ ok (some x) ]) ≡ []
      fresh none e = refl
      fresh (some ch) e =
          ap (λ (x : Chan A). x.queue) (sym (get_elem?-replicate n (new_chan capacity) i e))

  fresh_instances :
      (n k r i : ℕ) → contents {A = A} (at_index i (lookup r (instance_rounds n k))) ≡ []
  unfolding instance_rounds lookup
  fresh_instances n zero r i = refl
  fresh_instances n (suc k) r i = elim (Bool-cases (k == r)) [
    | inl hit ↦
        rw (lookup-insert k r (replicate n (new_chan 999)) (instance_rounds n k), hit)
          (fresh_list n 999 i)
    | inr miss ↦
        rw (lookup-insert k r (replicate n (new_chan 999)) (instance_rounds n k), miss)
          (fresh_instances n k r i)
  ]

  fresh_singles : (k r : ℕ) → contents {A = A} (ok (lookup r (single_rounds k))) ≡ []
  unfolding single_rounds lookup
  fresh_singles zero r = refl
  fresh_singles (suc k) r = elim (Bool-cases (k == r)) [
    | inl hit ↦ rw (lookup-insert k r (new_chan 999) (single_rounds k), hit) refl
    | inr miss ↦ rw (lookup-insert k r (new_chan 999) (single_rounds k), miss) (fresh_singles k r)
  ]

  -- A new entry that reads as empty, where the old one read as empty.
  insert-read :
      {V : Type 0} (read : Option V → List A) (u u' : ℕ) (v : V) (table : GoMap ℕ V)
      → read (some v) ≡ []
      → read (lookup u table) ≡ []
      → read (lookup u' (insert u v table)) ≡ read (lookup u' table)
  insert-read read u u' v table new old = elim (Bool-cases (u == u')) [
    | inl hit ↦
        rw (lookup-insert u u' v table, hit)
          (new ∙ sym (ap (λ k. read (lookup k table)) (sym ((nat_beq_iff u u').0 hit)) ∙ old))
    | inr miss ↦ rw (lookup-insert u u' v table, miss) refl
  ]

  module _ (n kappa u : ℕ) (h : HandlerChans A) (current : IsCurrent h) where
    create_round-queue :
        (o : Origin) (u' r i : ℕ)
        → get_or (lookup u h.round) false ≡ false
        → queue_of (create_round u n kappa h) o u' r i ≡ queue_of h o u' r i
    unfolding create_round channel
    create_round-queue aba u' r i new =
        insert-read (λ x. contents (at_index i (at_round r x))) u u' (instance_rounds n 10)
          h.aba_chans (fresh_instances n 10 r i) (current aba u r i new)
    create_round-queue bla u' r i new =
        insert-read (λ x. contents (ok (bla_at r x))) u u' (single_rounds kappa) h.bla_chans
          (fresh_singles kappa r) (current bla u r i new)
    create_round-queue rbc u' r i new =
        insert-read (λ x. contents (at_index i x)) u u' (replicate n (new_chan 999)) h.rbc_chans
          (fresh_list n 999 i) (current rbc u r i new)
    create_round-queue acs u' r i new =
        insert-read (λ x. contents (ok x)) u u' (new_chan 999) h.acs_chans refl
          (current acs u r i new)
    create_round-queue abc u' r i new =
        insert-read (λ x. contents (ok x)) u u' (new_chan 999) h.abc_chans refl
          (current abc u r i new)
    create_round-queue coin u' r i new = created h.coin_chans (current coin u r i new)
      where
        created :
            (coins : Option (GoMap ℕ (GoMap ℕ (List (Chan A)))))
            → contents (at_index i (at_round r (coin_at u coins))) ≡ []
            → contents (
                at_index i (
                  at_round r (
                    coin_at u' (elim coins [
                      | none ↦ none
                      | some coins ↦ some (insert u (instance_rounds n 10) coins)
                    ]))))
              ≡ contents (at_index i (at_round r (coin_at u' coins)))
        created none e = refl
        created (some coins) e =
            insert-read (λ x. contents (at_index i (at_round r x))) u u' (instance_rounds n 10)
              coins (fresh_instances n 10 r i) e

    pub update_round-queue :
        (o : Origin) (u' r i : ℕ)
        → queue_of (update_round u n kappa h) o u' r i ≡ queue_of h o u' r i
    unfolding update_round
    update_round-queue o u' r i =
        if_ind (λ h'. queue_of h' o u' r i ≡ queue_of h o u' r i) (get_or (lookup u h.round) false)
          _ _ (λ old. refl) (λ new. create_round-queue o u' r i new)

    -- The round is created, and those that were created are.
    pub update_round-rounds :
        (u' : ℕ)
        → get_or (lookup u' (update_round u n kappa h).round) false
          ≡ (if u == u' then true else get_or (lookup u' h.round) false)
    unfolding update_round create_round
    update_round-rounds u' =
        if_ind
          (λ (h' : HandlerChans A).
            get_or (lookup u' h'.round) false
            ≡ (if u == u' then true else get_or (lookup u' h.round) false))
          (get_or (lookup u h.round) false) _ _ (λ old. ground (arith, old, nat_beq_iff u u'))
          (λ new. ground (arith, lookup-insert u u' true h.round))

    pub update_round-IsCurrent : IsCurrent (update_round u n kappa h)
    update_round-IsCurrent o u' r i e =
        update_round-queue o u' r i ∙ current o u' r i (ground (arith, update_round-rounds u', e))

  abbrev SameReads : GoMap ℕ (GoMap ℕ (List (Chan A))) → GoMap ℕ (GoMap ℕ (List (Chan A))) → Type 0
  SameReads table table' =
      (u r i : ℕ)
      → contents (at_index i (at_round r (lookup u table')))
        ≡ contents (at_index i (at_round r (lookup u table)))

  -- One more round of an agreement or of the coin.
  new_round-read :
      (capacity n u r : ℕ) (table : GoMap ℕ (GoMap ℕ (List (Chan A))))
      (rounds : GoMap ℕ (List (Chan A)))
      → lookup u table ≡ some rounds
      → lookup r rounds ≡ none
      → SameReads table (insert u (insert r (replicate n (new_chan capacity)) rounds) table)
  new_round-read capacity n u r table rounds p q u' r' i = elim (Bool-cases (u == u')) [
    | inr miss ↦
        rw (lookup-insert u u' (insert r (replicate n (new_chan capacity)) rounds) table, miss) refl
    | inl hit ↦
        let e : lookup u' table ≡ some rounds =
          ap (λ k. lookup k table) (sym ((nat_beq_iff u u').0 hit)) ∙ p in
        rw (lookup-insert u u' (insert r (replicate n (new_chan capacity)) rounds) table, hit, e)
          (insert-read (λ x. contents (at_index i x)) r r' (replicate n (new_chan capacity)) rounds
            (fresh_list n capacity i) (ap (λ x. contents (at_index i x)) q))
  ]

  create_in-SameReads :
      (capacity n u r : ℕ) (table : GoMap ℕ (GoMap ℕ (List (Chan A))))
      → Ensures (SameReads table) (create_in capacity n u r table)
  unfolding create_in
  create_in-SameReads capacity n u r table = elim (Option-cases (lookup u table)) [
    | inl p ↦ rw (p, create_in) tt
    | inr (rounds, p) ↦ elim (Option-cases (lookup r rounds)) [
      | inr (chans, q) ↦ rw (p, create_in) (rw q (λ u' r' i. refl))
      | inl q ↦ rw (p, create_in) (rw q (new_round-read capacity n u r table rounds p q))
    ]
  ]

  -- The same messages wait, in the same rounds.
  abbrev pub SameQueues : HandlerChans A → HandlerChans A → Type 0
  SameQueues h h' =
      ((o : Origin) (u r i : ℕ) → queue_of h' o u r i ≡ queue_of h o u r i) × (h'.round ≡ h.round)

  with_aba :
      (h : HandlerChans A) (table : GoMap ℕ (GoMap ℕ (List (Chan A))))
      → SameReads h.aba_chans table
      → (o : Origin) (u r i : ℕ)
      → queue_of (record h { aba_chans = table }) o u r i ≡ queue_of h o u r i
  unfolding channel
  with_aba h table e aba u r i = e u r i
  with_aba h table e bla u r i = refl
  with_aba h table e rbc u r i = refl
  with_aba h table e acs u r i = refl
  with_aba h table e abc u r i = refl
  with_aba h table e coin u r i = refl

  with_coin :
      (h : HandlerChans A) (coins table : GoMap ℕ (GoMap ℕ (List (Chan A))))
      → h.coin_chans ≡ some coins
      → SameReads coins table
      → (o : Origin) (u r i : ℕ)
      → queue_of (record h { coin_chans = some table }) o u r i ≡ queue_of h o u r i
  unfolding channel
  with_coin h coins table p e coin u r i =
      e u r i ∙ ap (λ x. contents (at_index i (at_round r (coin_at u x)))) (sym p)
  with_coin h coins table p e aba u r i = refl
  with_coin h coins table p e bla u r i = refl
  with_coin h coins table p e rbc u r i = refl
  with_coin h coins table p e acs u r i = refl
  with_coin h coins table p e abc u r i = refl

  pub create_aba-SameQueues :
      (capacity n u r : ℕ) (h : HandlerChans A)
      → Ensures (SameQueues h) (create_aba capacity n u r h)
  unfolding create_aba
  create_aba-SameQueues capacity n u r h =
      created (create_in capacity n u r h.aba_chans)
        (create_in-SameReads capacity n u r h.aba_chans)
    where
      created :
          (run : Run (GoMap ℕ (GoMap ℕ (List (Chan A)))))
          → Ensures (SameReads h.aba_chans) run
          → Ensures (SameQueues h) (run >>= λ chans. ok (record h { aba_chans = chans }))
      created panic e = tt
      created (ok table) e = (with_aba h table e, refl)

  pub create_coin-SameQueues :
      (capacity n u r : ℕ) (h : HandlerChans A)
      → Ensures (SameQueues h) (create_coin capacity n u r h)
  unfolding create_coin
  create_coin-SameQueues capacity n u r h = chosen h.coin_chans refl
    where
      created :
          (coins : GoMap ℕ (GoMap ℕ (List (Chan A))))
          → h.coin_chans ≡ some coins
          → (run : Run (GoMap ℕ (GoMap ℕ (List (Chan A))))) → Ensures (SameReads coins) run
          → Ensures (SameQueues h) (run >>= λ chans. ok (record h { coin_chans = some chans }))
      created coins p panic e = tt
      created coins p (ok table) e = (with_coin h coins table p e, refl)

      chosen :
          (o : Option (GoMap ℕ (GoMap ℕ (List (Chan A)))))
          → h.coin_chans ≡ o
          → Ensures (SameQueues h) (create_coin_in capacity n u r h o)
      chosen none p = unfold create_coin_in in tt
      chosen (some coins) p =
          unfold create_coin_in in
          created coins p (create_in capacity n u r coins)
            (create_in-SameReads capacity n u r coins)
