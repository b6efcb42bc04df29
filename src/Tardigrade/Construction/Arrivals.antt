-- ===== src/Tardigrade/Construction/Arrivals.antt =====
-- The decryption shares that a node receives for `constructBlock`, by the places that they are for.
use mathlib.Core.List.{append_assoc}
use upgrade.Prelude.{
  ℕ, suc, ◌++◌, IsIn, if◌then◌else◌, append_nil, ◌≤◌, ◌≡◌, ◌⊎◌, refl, sym, ap, ◌∙◌, Bytes, Bool,
  true, false, Option, none, some, inl, inr, List, [], ◌∷◌, length, ◌==◌, nat_eq, nat_beq_iff,
  to_bytes, Bool-cases,
}
use upgrade.Crypto.{Crypto}
use upgrade.Tardigrade.{Config, Decryption}
use upgrade.Tardigrade.Construction.{threshold, append_share}

module _ ⦃c : Crypto⦄ where
  -- A share with the place that it came for.
  pub record Arrival : Type 0 where
    pub node : ℕ
    pub message : ℕ
    pub share : Option c.DecryptionShare

  -- The shares of a message, row by row, in the order in which they are read.
  unfoldable pub row_arrivals : ℕ → ℕ → List (Option c.DecryptionShare) → List Arrival
  row_arrivals node message [] = []
  row_arrivals node message (share ∷ rest) =
      record { node = node; message = message; share = share }
      ∷ row_arrivals node (suc message) rest

  unfoldable pub rows_arrivals : ℕ → Decryption → List Arrival
  unfolding row_arrivals
  rows_arrivals node [] = []
  rows_arrivals node (row ∷ rows) = row_arrivals node 0 row ++ rows_arrivals (suc node) rows

  -- The shares of all messages, in the order of their arrival.
  unfoldable pub arrivals : List Decryption → List Arrival
  unfolding rows_arrivals
  arrivals [] = []
  arrivals (s ∷ chan) = rows_arrivals 0 s ++ arrivals chan

  -- A row of one of the messages has this many shares.
  abbrev pub HasWidth : List Decryption → ℕ → Type 0
  HasWidth chan width =
      (s : Decryption) × (row : List (Option c.DecryptionShare)) × IsIn s chan
      × IsIn row s
      × (width ≡ length row)

  module _ (is_large : Bool) where
    -- Nil shares count where there is one pre-block, and are left out where there are several.
    unfoldable pub kept : Option c.DecryptionShare → List (Option c.DecryptionShare)
    kept (some d) = some d ∷ []
    kept none = if is_large then none ∷ [] else []

    -- The shares that came for one place, each of them once.
    unfoldable pub shares_at : ℕ → ℕ → List Arrival → List (Option c.DecryptionShare)
    unfolding kept
    shares_at node message [] = []
    shares_at node message (a ∷ rest) =
        (if a.node == node then (if a.message == message then kept a.share else []) else [])
        ++ shares_at node message rest

    pub shares_at-append :
        (node message : ℕ) (xs ys : List Arrival)
        → shares_at node message (xs ++ ys) ≡ shares_at node message xs ++ shares_at node message ys
    unfolding shares_at
    shares_at-append node message [] ys = refl
    shares_at-append node message (a ∷ xs) ys =
        ap
          (λ l.
            ◌++◌
              (if a.node == node then (if a.message == message then kept a.share else []) else [])
              l)
          (shares_at-append node message xs ys)
        ∙ sym (
            append_assoc
              (if a.node == node then (if a.message == message then kept a.share else []) else [])
              (shares_at node message xs) (shares_at node message ys))

    pub shares_at-same :
        (a : Arrival) (before : List Arrival)
        → shares_at a.node a.message (before ++ a ∷ [])
          ≡ shares_at a.node a.message before ++ kept a.share
    unfolding shares_at
    shares_at-same a before =
        let here : (a.node == a.node) ≡ true = (nat_beq_iff _ _).1 refl in
        let there : (a.message == a.message) ≡ true = (nat_beq_iff _ _).1 refl in
        shares_at-append a.node a.message before (a ∷ [])
        ∙ ap (λ l. shares_at a.node a.message before ++ l)
            (rw here (rw there (append_nil (kept a.share))))

    pub shares_at-other :
        (node message : ℕ) (a : Arrival) (before : List Arrival)
        → ((a.node ≡ node) → (a.message ≡ message) → ⊥)
        → shares_at node message (before ++ a ∷ []) ≡ shares_at node message before
    unfolding shares_at
    shares_at-other node message a before other =
        shares_at-append node message before (a ∷ [])
        ∙ ap (λ l. shares_at node message before ++ l) (nothing (Bool-cases _) (Bool-cases _))
        ∙ append_nil (shares_at node message before)
      where
        nothing :
            ((a.node == node) ≡ true) ⊎ ((a.node == node) ≡ false)
            → ((a.message == message) ≡ true) ⊎ ((a.message == message) ≡ false)
            → shares_at node message (a ∷ []) ≡ []
        nothing (inr e) h = rw e refl
        nothing (inl e) (inr e') = rw e (rw e' refl)
        nothing (inl e) (inl e') = absurd (other ((nat_beq_iff _ _).0 e) ((nat_beq_iff _ _).0 e'))

  module _ (cfg : Config) (enc_pk : c.EncryptionKey) (is_large : Bool) where
    -- A transaction made of the shares that came for one place up to some moment, which are enough.
    abbrev pub IsDecrypted : List Arrival → Bytes → Type 0
    IsDecrypted all tx =
        (before : List Arrival) × (after : List Arrival) × (node : ℕ) × (message : ℕ) × (d : ℕ)
        × (all ≡ before ++ after)
        × (threshold cfg ≤ length (shares_at is_large node message before))
        × (c.combine_shares enc_pk (shares_at is_large node message before) ≡ some d)
        × (tx ≡ to_bytes d)

    pub append_share-kept :
        (txs_count : ℕ) (share : Option c.DecryptionShare) (old : List (Option c.DecryptionShare))
        → append_share cfg enc_pk is_large txs_count share old ≡ old ++ kept is_large share
    unfolding kept
    append_share-kept txs_count (some d) old = refl
    append_share-kept txs_count none old = elim (Bool-cases is_large) [
      | inl e ↦ rw e refl
      | inr e ↦ rw e (sym (append_nil old))
    ]
