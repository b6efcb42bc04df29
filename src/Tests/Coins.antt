-- ===== src/Tests/Coins.antt =====
-- The common coin of three nodes: two requests make the toss, and the third is answered later.
use upgrade.Prelude.{
  ℕ, ◌≡◌, refl, Bytes, some, List, [], ◌∷◌, ok, lookup, insert, nat_eq, bytes_eq, ◌==◌, sym, ◌∙◌,
  inl, inr, arith, true,
}
use upgrade.BinaryAgreement.{CoinRequest}
use upgrade.CommonCoin.{Config, State, initial, run}
use upgrade.CommonCoin.Tosses.{coin_agreement}
use upgrade.Crypto.{Crypto}
use upgrade.Tests.Toy as Toy

-- The stand-in with one signature that verifies.
instance abbrev strict : Crypto
strict = record Toy.toy { verify_pkcs1v15 = λ m b s. s == (1 ∷ []) }

abbrev cfg : Config
cfg = record { n = 3; key_meta = 5 }

abbrev request : ℕ → ℕ → CoinRequest
request sender instance_id = record {
  sender = sender;
  uround = 0;
  round = 4;
  sig = some 3;
  instance_id = instance_id;
}

abbrev requests : List CoinRequest
requests = request 0 0 ∷ request 1 0 ∷ request 2 0 ∷ []

abbrev final : State
final = record {
  received =
      (0, (4, (0, (0, request 0 0) ∷ (1, request 1 0) ∷ (2, request 2 0) ∷ []) ∷ []) ∷ []) ∷ [];
  already_sent = (0, (4, (0, true) ∷ []) ∷ []) ∷ [];
  coin_vals = (0, (4, 1) ∷ []) ∷ [];
  answers = (request 0 0, 1) ∷ (request 1 0, 1) ∷ (request 2 0, 1) ∷ [];
}

runs : run cfg requests initial ≡ ok final
unfolding run initial lookup insert
runs = refl

-- The signature that `join_shares` makes is the one that verifies.
joins : (s : Bytes) → some (1 ∷ []) ≡ some s → (s == (1 ∷ [])) ≡ true
joins s e = (bytes_eq.beq_iff s (1 ∷ [])).1 (ground (arith, e))

one_signature : (s s' : Bytes) → (s == (1 ∷ [])) ≡ true → (s' == (1 ∷ [])) ≡ true → s ≡ s'
one_signature s s' e f =
    (bytes_eq.beq_iff s (1 ∷ [])).0 e ∙ sym ((bytes_eq.beq_iff s' (1 ∷ [])).0 f)

abbrev first_answer : CoinRequest × ℕ
first_answer = (request 0 0, 1)

abbrev third_answer : CoinRequest × ℕ
third_answer = (request 2 0, 1)

coin_agreement_example : first_answer.1 ≡ third_answer.1
coin_agreement_example =
    coin_agreement cfg requests first_answer third_answer (λ xs r s v e. joins s e)
      (λ hash s s' e f. one_signature s s' e f)
      ((3, refl, refl), ((3, refl, refl), ((3, refl, refl), tt))) runs (inl refl)
      (inr (inr (inl refl))) refl
