-- ===== src/Routing/Present.antt =====
-- utils/: channels that exist already, and those that a new round or receive creates.
use upgrade.Prelude.{
  ℕ, ◌≡◌, refl, sym, ap, ◌∙◌, true, false, Option, none, some, List, ◌∷◌, GoMap, lookup, get_or,
  nat_eq, Run, ok, panic, ◌>>=◌, arith,
}
use upgrade.Routing.{
  Origin, aba, coin, Chan, HandlerChans, got, update_round, create_in, create_aba, create_coin,
  create_coin_in, take_from, pop, put_channel, channel, at_index, at_round, coin_at,
}
use upgrade.Routing.Writes.{queue_of, contents, at_index-some, at_round-some}

module _ {A : Type 0} where
  -- A channel with a message in it exists.
  pub channel-nonempty :
      (o : Origin) (u r i : ℕ) (h : HandlerChans A) {m : A} {rest : List A}
      → queue_of h o u r i ≡ m ∷ rest
      → (ch : Chan A) × (channel o u r i h ≡ ok (some ch)) × (ch.queue ≡ m ∷ rest)
  channel-nonempty o u r i h {m} {rest} e = found (channel o u r i h) e
    where
      found :
          (x : Run (Option (Chan A)))
          → contents x ≡ m ∷ rest
          → (ch : Chan A) × (x ≡ ok (some ch)) × (ch.queue ≡ m ∷ rest)
      found panic p = absurd (ground arith)
      found (ok none) p = absurd (ground arith)
      found (ok (some ch)) p = (ch, refl, p)

  pub take_from-nonempty :
      (o : Origin) (u r i : ℕ) (h : HandlerChans A) {m : A} {rest : List A}
      → queue_of h o u r i ≡ m ∷ rest
      → (h' : HandlerChans A) × (take_from o u r i h ≡ ok (got m h'))
  unfolding take_from pop
  take_from-nonempty o u r i h {m} {rest} e =
      let (ch, p, q) = channel-nonempty o u r i h e in
      (put_channel o u r i (record ch { queue = rest }) h, rw (p, take_from) (rw (q, pop) refl))

  module _ (n kappa : ℕ) where
    pub create_in-present :
        (capacity u r i : ℕ) (table : GoMap ℕ (GoMap ℕ (List (Chan A)))) {ch : Chan A}
        → at_index i (at_round r (lookup u table)) ≡ ok (some ch)
        → create_in capacity n u r table ≡ ok table
    unfolding create_in
    create_in-present capacity u r i table e =
        let (chans, p, q) = at_index-some i (at_round r (lookup u table)) e in
        let (rounds, o, p') = at_round-some r (lookup u table) p in
        rw (o, create_in) (rw (p', create_in) refl)

    pub update_round-created :
        (u : ℕ) (h : HandlerChans A)
        → get_or (lookup u h.round) false ≡ true
        → update_round u n kappa h ≡ h
    unfolding update_round
    update_round-created u h e = rw (e, update_round) refl

    pub create_aba-present :
        (capacity u r i : ℕ) (h : HandlerChans A) {ch : Chan A}
        → channel aba u r i h ≡ ok (some ch)
        → create_aba capacity n u r h ≡ ok h
    unfolding create_aba channel
    create_aba-present capacity u r i h e =
        ap (λ x. x >>= λ chans. ok (record h { aba_chans = chans }))
          (create_in-present capacity u r i h.aba_chans e)

    pub create_coin-present :
        (u r i : ℕ) (h : HandlerChans A) {ch : Chan A}
        → channel coin u r i h ≡ ok (some ch)
        → create_coin 999 n u r h ≡ ok h
    unfolding create_coin channel
    create_coin-present u r i h {ch} e = present h.coin_chans refl e
      where
        present :
            (coins : Option (GoMap ℕ (GoMap ℕ (List (Chan A)))))
            → h.coin_chans ≡ coins
            → at_index i (at_round r (coin_at u coins)) ≡ ok (some ch)
            → create_coin_in 999 n u r h coins ≡ ok h
        present none p e' = absurd (ground arith)
        present (some coins) p e' =
            unfold create_coin_in in
            ap (λ x. x >>= λ chans. ok (record h { coin_chans = some chans }))
              (create_in-present 999 u r i coins e')
            ∙ ap (λ c. ok (record h { coin_chans = c })) (sym p)
