-- ===== src/Tardigrade/Encryption/Pieces.antt =====
-- tardigrade/tardigrade.go: what a committee member decrypts of a large block.
use upgrade.Prelude.{
  ℕ, zero, suc, ◌<◌, ◌≤◌, ◌≡◌, refl, sym, ap, subst, ◌∙◌, Bytes, true, Option, none, some, inl, inr,
  List, [], ◌∷◌, ◌++◌, length, take, drop, ◌==◌, nat_eq, Run, ok, panic, ◌>>=◌, All, All-append,
  set_bytes, to_bytes, set_bytes-to_bytes, arith, Bool-cases, Option-cases, take-append,
  drop-append, length-append, append_nil, if_ind,
}
use mathlib.Core.List.{append_assoc}
use upgrade.Crypto.{Crypto}
use upgrade.Block.{concat}
use upgrade.Tardigrade.{Config, Payload, Sent, block_message, entry_of, to_committee, is_in}
use upgrade.Tardigrade.Encryption.{
  pieces, split_message, Keys, Sealed, refused, spent, sealed, cipher_length, retry, seal, seal_all,
  send_block, send_if_signed, sign_payload, block_of, handle_large_transaction, shares_of_pieces,
  large_shares,
}

pieces-step :
    (fuel k b : ℕ) (bs : Bytes) {rest : List Bytes}
    → pieces fuel k (drop k (b ∷ bs)) ≡ some rest
    → pieces (suc fuel) k (b ∷ bs) ≡ some (take k (b ∷ bs) ∷ rest)
unfolding pieces
pieces-step fuel k b bs h = rw (h, pieces) refl

-- Pieces of one length that are put together come apart again.
pieces-concat :
    (k : ℕ) (cs : List Bytes) (fuel : ℕ)
    → 0 < k
    → All (λ b. length b ≡ k) cs
    → length cs ≤ fuel
    → pieces fuel k (concat cs) ≡ some cs
unfolding pieces concat
pieces-concat k [] zero pos h l = refl
pieces-concat k [] (suc fuel) pos h l = refl
pieces-concat k ([] ∷ cs) fuel pos h l = absurd (omega (arith, h.0))
pieces-concat k ((b ∷ bs) ∷ cs) zero pos h l = absurd (omega arith)
pieces-concat k ((b ∷ bs) ∷ cs) (suc fuel) pos h l =
    let rest : drop k (b ∷ (bs ++ concat cs)) ≡ concat cs =
      drop-append (b ∷ bs) (concat cs) k h.0 in
    pieces-step fuel k b (bs ++ concat cs)
      (ap (pieces fuel k) rest ∙ pieces-concat k cs fuel pos h.1 (omega arith))
    ∙ ap (λ piece. some (piece ∷ cs)) (take-append (b ∷ bs) (concat cs) k h.0)

length-concat :
    (k : ℕ) (cs : List Bytes) → 0 < k → All (λ b. length b ≡ k) cs → length cs ≤ length (concat cs)
unfolding concat
length-concat k [] pos h = omega arith
length-concat k (b ∷ cs) pos h =
    omega (arith, h.0, length-append b (concat cs), length-concat k cs pos h.1)

split_message-concat :
    (k : ℕ) (cs : List Bytes)
    → 0 < k
    → All (λ b. length b ≡ k) cs
    → split_message k (concat cs) ≡ some cs
unfolding split_message
split_message-concat k cs pos h =
    pieces-concat k cs (length (concat cs)) pos h (length-concat k cs pos h)

module _ ⦃c : Crypto⦄ (cfg : Config) (keys : Keys) where
  abbrev pub Encrypts : Bytes → ℕ → Type 0
  Encrypts tx e = (r : ℕ) × (c.encrypt keys.enc_pk r (set_bytes tx) ≡ some e)

  -- The share of the transaction's ciphertext.
  abbrev pub IsShare : c.DecryptionKey → Bytes → Option c.DecryptionShare → Type 0
  IsShare sk tx share = (e : ℕ) × Encrypts tx e × (share ≡ c.partial_decrypt sk e)

  abbrev pub AreShares : c.DecryptionKey → List Bytes → List (Option c.DecryptionShare) → Type 0
  AreShares sk [] [] = Unit
  AreShares sk [] (share ∷ row) = ⊥
  AreShares sk (tx ∷ txs) [] = ⊥
  AreShares sk (tx ∷ txs) (share ∷ row) = IsShare sk tx share × AreShares sk txs row

  abbrev IsCipher : Bytes → Bytes → Type 0
  IsCipher tx b = (length b ≡ cipher_length cfg keys) × Encrypts tx (set_bytes b)

  abbrev AreCiphers : List Bytes → List Bytes → Type 0
  AreCiphers [] [] = Unit
  AreCiphers [] (b ∷ bs) = ⊥
  AreCiphers (tx ∷ txs) [] = ⊥
  AreCiphers (tx ∷ txs) (b ∷ bs) = IsCipher tx b × AreCiphers txs bs

  abbrev Seals : Bytes → Run Sealed → Type 0
  Seals tx panic = Unit
  Seals tx (ok refused) = Unit
  Seals tx (ok spent) = Unit
  Seals tx (ok (sealed b rest)) = IsCipher tx b

  fits :
      (tx : Bytes) (d : ℕ)
      → Encrypts tx d
      → (length (to_bytes d) == cipher_length cfg keys) ≡ true
      → IsCipher tx (to_bytes d)
  fits tx d (r, e) h = (ground (arith), (r, e ∙ ap some (sym (set_bytes-to_bytes d))))

  retry-Seals :
      (tx : Bytes) (rs : List ℕ) (d : ℕ)
      → Encrypts tx d
      → Seals tx (retry cfg keys (set_bytes tx) rs d)
  unfolding retry
  retry-Seals tx [] d e =
      if_ind (Seals tx) (length (to_bytes d) == cipher_length cfg keys) _ _ (fits tx d e) (λ h. tt)
  retry-Seals tx (r ∷ rs) d e = elim (Bool-cases (length (to_bytes d) == cipher_length cfg keys)) [
    | inl h ↦ rw (h, retry) (fits tx d e h)
    | inr h ↦ elim (Option-cases (c.encrypt keys.enc_pk r (set_bytes tx))) [
      | inl p ↦ rw (h, retry) (rw (p, retry) tt)
      | inr (d', p) ↦ rw (h, retry) (rw (p, retry) (retry-Seals tx rs d' (r, p)))
    ]
  ]

  seal-Seals : (tx : Bytes) (rs : List ℕ) → Seals tx (seal cfg keys tx rs)
  unfolding seal
  seal-Seals tx [] = tt
  seal-Seals tx (r ∷ rs) = elim (Option-cases (c.encrypt keys.enc_pk r (set_bytes tx))) [
    | inl p ↦ rw (p, seal) tt
    | inr (d, p) ↦ rw (p, seal) (retry-Seals tx rs d (r, p))
  ]

  abbrev SealsAll : List Bytes → Bytes → Run Sealed → Type 0
  SealsAll txs acc panic = Unit
  SealsAll txs acc (ok refused) = Unit
  SealsAll txs acc (ok spent) = Unit
  SealsAll txs acc (ok (sealed payload rest)) =
      (cs : List Bytes) × AreCiphers txs cs × (payload ≡ acc ++ concat cs)

  seal_all-Seals :
      (txs : List Bytes) (acc : Bytes) (rs : List ℕ)
      → SealsAll txs acc (seal_all cfg keys txs acc rs)
  unfolding seal_all concat
  seal_all-Seals [] acc rs = ([], tt, sym (append_nil acc))
  seal_all-Seals (tx ∷ txs) acc rs =
      sealed_all (λ b rest. seal_all-Seals txs (acc ++ b) rest) (seal cfg keys tx rs)
        (seal-Seals tx rs)
    where
      added :
          (b : Bytes)
          → IsCipher tx b
          → (run : Run Sealed) → SealsAll txs (acc ++ b) run
          → SealsAll (tx ∷ txs) acc run
      added b e panic h = tt
      added b e (ok refused) h = tt
      added b e (ok spent) h = tt
      added b e (ok (sealed payload rest)) (cs, all, p) =
          (b ∷ cs, (e, all), p ∙ append_assoc acc b (concat cs))

      sealed_all :
          ((b : Bytes) (rest : List ℕ)
            → SealsAll txs (acc ++ b) (seal_all cfg keys txs (acc ++ b) rest))
          → (run : Run Sealed) → Seals tx run
          → SealsAll (tx ∷ txs) acc (
              run >>= λ s. elim s [
                | refused ↦ ok refused
                | spent ↦ ok spent
                | sealed bytes rest ↦ seal_all cfg keys txs (acc ++ bytes) rest
              ])
      sealed_all ih panic h = tt
      sealed_all ih (ok refused) h = tt
      sealed_all ih (ok spent) h = tt
      sealed_all ih (ok (sealed b rest)) h =
          added b h (seal_all cfg keys txs (acc ++ b) rest) (ih b rest)

  lengths :
      (txs cs : List Bytes) → AreCiphers txs cs → All (λ b. length b ≡ cipher_length cfg keys) cs
  lengths [] [] h = tt
  lengths [] (b ∷ bs) h = absurd h
  lengths (tx ∷ txs) [] h = absurd h
  lengths (tx ∷ txs) (b ∷ bs) h = (h.0.0, lengths txs bs h.1)

  -- The member's key share decrypts what the encryption key encrypts.
  module _ (sk : c.DecryptionKey) (member : keys.enc_sk ≡ some sk)
      (decrypts : (r m e : ℕ)
        → c.encrypt keys.enc_pk r m ≡ some e
        → (d : c.DecryptionShare) × (c.partial_decrypt sk e ≡ some d)) where
    shares-AreShares :
        (txs cs : List Bytes)
        → AreCiphers txs cs
        → (row : List (Option c.DecryptionShare)) × (shares_of_pieces cfg keys cs ≡ ok row)
          × AreShares sk txs row
    unfolding shares_of_pieces
    shares-AreShares [] [] h = ([], refl, tt)
    shares-AreShares [] (b ∷ bs) h = absurd h
    shares-AreShares (tx ∷ txs) [] h = absurd h
    shares-AreShares (tx ∷ txs) (b ∷ bs) h =
        let (row, ran, all) = shares-AreShares txs bs h.1 in
        let (r, encrypted) = h.0.1 in
        let (d, share) = decrypts r (set_bytes tx) (set_bytes b) encrypted in
        (some d ∷ row, rw (member, ran, share) refl, ((set_bytes b, h.0.1, sym share), all))

    -- A message of a large block, of which a member decrypts its share of each transaction.
    abbrev pub IsDecryptable : List Bytes → Payload → Type 0
    IsDecryptable txs (block_message m) =
        (row : List (Option c.DecryptionShare)) × (large_shares cfg keys (some (entry_of m) ∷ [])
          ≡ ok (some (row ∷ [])))
        × AreShares sk txs row
    IsDecryptable txs p = ⊥

    block-IsDecryptable :
        (txs cs : List Bytes) (sig : c.SigShare)
        → 0 < cipher_length cfg keys
        → AreCiphers txs cs
        → IsDecryptable txs (block_of cfg keys true (concat cs) sig)
    unfolding large_shares
    block-IsDecryptable txs cs sig pos h =
        let (row, ran, all) = shares-AreShares txs cs h in
        let split = split_message-concat (cipher_length cfg keys) cs pos (lengths txs cs h) in
        (row, rw (split, large_shares) (rw (ran) refl), all)

    to_committee-All :
        (P : Payload → Type 0) (p : Payload) (k : ℕ)
        → P p
        → All (λ (m : Sent). P m.payload) (to_committee cfg p k)
    to_committee-All P p zero h = tt
    to_committee-All P p (suc k) h =
        All-append (λ (m : Sent). P m.payload) (to_committee cfg p k) _ (to_committee-All P p k h)
          (if_ind (All (λ (m : Sent). P m.payload)) (is_in k cfg.committee) _ [] (λ e. (h, tt))
            (λ e. tt))

    signed-AreDecryptable :
        (txs cs : List Bytes) (payload : Bytes) (sig : Option c.SigShare)
        → 0 < cipher_length cfg keys
        → AreCiphers txs cs
        → payload ≡ concat cs
        → All (λ m. IsDecryptable txs m.payload) (send_if_signed cfg keys payload sig)
    unfolding send_if_signed
    signed-AreDecryptable txs cs payload none pos h e = tt
    signed-AreDecryptable txs cs payload (some sig) pos h e =
        to_committee-All (IsDecryptable txs) (block_of cfg keys true payload sig) cfg.n
          (rw e (block-IsDecryptable txs cs sig pos h))

    -- Whatever `handleLargeTransaction` sends to the committee, a member that takes the message of the
    -- block apart has, for each transaction in order, a decryption share of a ciphertext of that
    -- transaction, and no others; if the member's key share decrypts every ciphertext that the
    -- encryption key makes, and the length of a ciphertext in bytes, which is computed from the size of
    -- the modulus, is positive.
    pub sent_block-IsDecryptable :
        (txs : List Bytes) (rs : List ℕ) {sent : List Sent}
        → 0 < cipher_length cfg keys
        → handle_large_transaction cfg keys txs rs ≡ ok (some sent)
        → All (λ m. IsDecryptable txs m.payload) sent
    unfolding handle_large_transaction send_block
    sent_block-IsDecryptable txs rs {sent} pos h =
        opened (seal_all cfg keys txs [] rs) (seal_all-Seals txs [] rs) h
      where
        opened :
            (run : Run Sealed)
            → SealsAll txs [] run
            → (run >>= λ s. elim s [
              | refused ↦ ok (some [])
              | spent ↦ ok none
              | sealed payload rest ↦ ok (some (send_block cfg keys payload))
            ])
              ≡ ok (some sent)
            → All (λ m. IsDecryptable txs m.payload) sent
        opened panic a e = absurd (ground arith)
        opened (ok refused) a e =
            let none_sent : [] ≡ sent = ground arith in
            subst (All (λ m. IsDecryptable txs m.payload)) none_sent tt
        opened (ok spent) a e = absurd (ground arith)
        opened (ok (sealed payload rest)) (cs, all, p) e =
            let same : send_block cfg keys payload ≡ sent = ground arith in
            subst (All (λ m. IsDecryptable txs m.payload)) same
              (signed-AreDecryptable txs cs payload (sign_payload cfg keys payload) pos all p)
