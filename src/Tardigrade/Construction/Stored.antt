-- ===== src/Tardigrade/Construction/Stored.antt =====
-- The lists of shares that `constructBlock` keeps while it goes through the shares.
use mathlib.Core.Path.{ap₂}
use upgrade.Prelude.{
  ℕ, suc, ◌++◌, ◌≤◌, ◌≡◌, refl, sym, ap, subst, ◌∙◌, Bool, Option, none, some, inl, inr, List, [],
  ◌∷◌, length, get_elem?, set, leb, leb→le, ◌==◌, nat_eq, nat_beq_iff, Ensures, All, All-append,
  to_bytes, arith, Bool-cases, Option-cases, length-append, if_ind, get_elem?-set_self,
  get_elem?-set_ne, get_elem?-lt,
}
use upgrade.Crypto.{Crypto}
use upgrade.Tardigrade.{Config}
use upgrade.Tardigrade.Construction.{
  Build, Progress, going, finished, goal, threshold, append_share, add_combined, combine,
  take_share,
}
use upgrade.Tardigrade.Construction.Arrivals.{
  Arrival, kept, shares_at, IsDecrypted, append_share-kept, shares_at-same, shares_at-other,
}

module _ ⦃c : Crypto⦄ (cfg : Config) (enc_pk : c.EncryptionKey) where
  module _ (all : List Arrival) (W : ℕ → Type 0) (is_large : Bool) (txs_count : ℕ) where
    abbrev pub AreStored : List Arrival → List (List (List (Option c.DecryptionShare))) → Type 0
    AreStored before shares =
        (node message : ℕ) (row : List (List (Option c.DecryptionShare)))
        (old : List (Option c.DecryptionShare))
        → get_elem? shares node ≡ some row
        → get_elem? row message ≡ some old
        → old ≡ shares_at is_large node message before

    -- At each place stand the shares that came for it, and all transactions are decrypted.
    pub record Inv (before : List Arrival) (b : Build) : Type 0 where
      pub stored : AreStored before b.shares
      pub decrypted : All (IsDecrypted cfg enc_pk is_large all) b.txs
      pub counted : b.dec_counter ≡ length b.txs

    pub record IsDone (b : Build) : Type 0 where
      pub decrypted : All (IsDecrypted cfg enc_pk is_large all) b.txs
      pub width : ℕ
      pub is_width : W width
      pub counted : length b.txs ≡ goal cfg enc_pk is_large txs_count width

    abbrev pub Goes : List Arrival → Progress → Type 0
    Goes before (going b) = Inv before b
    Goes before (finished b) = IsDone b

    store-AreStored :
        (a : Arrival) (before : List Arrival)
        (shares : List (List (List (Option c.DecryptionShare))))
        (row : List (List (Option c.DecryptionShare))) (old : List (Option c.DecryptionShare))
        → AreStored before shares
        → get_elem? shares a.node ≡ some row
        → get_elem? row a.message ≡ some old
        → AreStored (before ++ a ∷ []) (
            set shares a.node
              (set row a.message (append_share cfg enc_pk is_large txs_count a.share old)))
    store-AreStored a before shares row old h at_node at_message j i row' old' p q =
        elim (Bool-cases (a.node == j)) [
          | inr other ↦
              h j i row' old'
                (sym (
                    get_elem?-set_ne shares a.node j (set row a.message now)
                      (λ e. absurd (ground (arith, nat_beq_iff a.node j))))
                  ∙ p)
                q
              ∙ sym (
                  shares_at-other is_large j i a before
                    (λ e e'. absurd (ground (arith, nat_beq_iff a.node j))))
          | inl same ↦ here ((nat_beq_iff a.node j).0 same)
        ]
      where
        now : List (Option c.DecryptionShare)
        now = append_share cfg enc_pk is_large txs_count a.share old

        stored_now : now ≡ shares_at is_large a.node a.message (before ++ a ∷ [])
        stored_now =
            append_share-kept cfg enc_pk is_large txs_count a.share old
            ∙ ap (λ l. l ++ kept is_large a.share) (h a.node a.message row old at_node at_message)
            ∙ sym (shares_at-same is_large a before)

        here : a.node ≡ j → old' ≡ shares_at is_large j i (before ++ a ∷ [])
        here e =
            let changed : set row a.message now ≡ row' = ground (
              arith,
              e,
              p,
              get_elem?-set_self shares a.node (set row a.message now)
                  (get_elem?-lt shares a.node at_node),
            ) in
            elim (Bool-cases (a.message == i)) [
              | inr other ↦
                  h j i row old' (subst (λ k. get_elem? shares k ≡ some row) e at_node) (
                    sym (
                      get_elem?-set_ne row a.message i now
                        (λ e'. absurd (ground (arith, nat_beq_iff a.message i))))
                    ∙ ap (λ r. get_elem? r i) changed
                    ∙ q)
                  ∙ sym (
                      shares_at-other is_large j i a before
                        (λ e0 e'. absurd (ground (arith, nat_beq_iff a.message i))))
              | inl same ↦
                  let place : a.message ≡ i = (nat_beq_iff a.message i).0 same in
                  let value : old' ≡ now = ground (
                    arith,
                    q,
                    changed,
                    place,
                    get_elem?-set_self row a.message now (get_elem?-lt row a.message at_message),
                  ) in
                  value
                  ∙ stored_now
                  ∙ ap₂ (λ k l. shares_at is_large k l (before ++ a ∷ [])) e place
            ]

    add_combined-Goes :
        (width node message : ℕ) (before after : List Arrival) (b : Build) (o : Option ℕ)
        → all ≡ before ++ after
        → W width
        → c.combine_shares enc_pk (shares_at is_large node message before) ≡ o
        → threshold cfg ≤ length (shares_at is_large node message before)
        → Inv before b
        → Goes before (add_combined cfg enc_pk is_large txs_count width o b)
    unfolding add_combined
    add_combined-Goes width node message before after b none split w e l inv = inv
    add_combined-Goes width node message before after b (some d) split w e l inv =
        let decrypted : All (IsDecrypted cfg enc_pk is_large all) (b.txs ++ to_bytes d ∷ []) =
          All-append (IsDecrypted cfg enc_pk is_large all) b.txs (to_bytes d ∷ []) inv.decrypted
            ((before, after, node, message, d, split, l, e, refl), tt) in
        let counted : suc b.dec_counter ≡ length (b.txs ++ to_bytes d ∷ []) =
          omega (arith, inv.counted, length-append b.txs (to_bytes d ∷ [])) in
        if_ind (Goes before) (suc b.dec_counter == goal cfg enc_pk is_large txs_count width) _ _
          (λ h. record {
            decrypted = decrypted;
            width = width;
            is_width = w;
            counted = sym counted ∙ (nat_beq_iff _ _).0 h;
          })
          (λ h. record { stored = inv.stored; decrypted = decrypted; counted = counted })

    combine-Goes :
        (width node message : ℕ) (before after : List Arrival)
        (on : List (Option c.DecryptionShare)) (b : Build)
        → all ≡ before ++ after
        → W width
        → on ≡ shares_at is_large node message before
        → Inv before b
        → Goes before (combine cfg enc_pk is_large txs_count width on b)
    unfolding combine
    combine-Goes width node message before after on b split w e inv =
        if_ind (Goes before) (leb (threshold cfg) (length on)) _ _
          (λ h.
            add_combined-Goes width node message before after b (c.combine_shares enc_pk on) split w
              (ap (c.combine_shares enc_pk) (sym e))
              (subst (λ l. threshold cfg ≤ length l) e (leb→le _ _ h)) inv)
          (λ h. inv)

    pub take_share-Goes :
        (width : ℕ) (a : Arrival) (before after : List Arrival) (b : Build)
        → all ≡ (before ++ a ∷ []) ++ after
        → W width
        → Inv before b
        → Ensures
            (Goes (before ++ a ∷ []))
            (take_share cfg enc_pk is_large txs_count width a.node a.message a.share b)
    unfolding take_share
    take_share-Goes width a before after b split w inv =
        elim (Option-cases (get_elem? b.shares a.node)) [
          | inl p ↦ rw (p, take_share) tt
          | inr (row, p) ↦ elim (Option-cases (get_elem? row a.message)) [
            | inl q ↦ rw (p, take_share) (rw (q, take_share) tt)
            | inr (old, q) ↦ rw (p, take_share) (rw (q, take_share) (stores row old p q))
          ]
        ]
      where
        stores :
            (row : List (List (Option c.DecryptionShare))) (old : List (Option c.DecryptionShare))
            → get_elem? b.shares a.node ≡ some row
            → get_elem? row a.message ≡ some old
            → Goes (before ++ a ∷ []) (
                combine cfg enc_pk is_large txs_count width
                  (append_share cfg enc_pk is_large txs_count a.share old)
                  (record b {
                    shares = set b.shares a.node (
                        set row a.message (append_share cfg enc_pk is_large txs_count a.share old));
                  }))
        stores row old p q =
            let kept_now = store-AreStored a before b.shares row old inv.stored p q in
            combine-Goes width a.node a.message (before ++ a ∷ []) after _ _ split w
              (append_share-kept cfg enc_pk is_large txs_count a.share old
                ∙ ap (λ l. l ++ kept is_large a.share) (inv.stored a.node a.message row old p q)
                ∙ sym (shares_at-same is_large a before))
              (record { stored = kept_now; decrypted = inv.decrypted; counted = inv.counted })
