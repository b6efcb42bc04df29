-- ===== src/CommonCoin/Tosses.antt =====
-- What the common coin answers, over every sequence of requests.
use upgrade.Prelude.{
  ℕ, ◌+◌, ◌/◌, ◌≡◌, refl, sym, ◌∙◌, ap, subst, Bytes, Bool, true, false, not, ◌&&◌, Option, none,
  some, List, [], ◌∷◌, ◌++◌, GoMap, lookup, insert, lookup-insert, get_or, is_some, length, leb,
  ◌==◌, nat_eq, if◌then◌else◌, if_ind, Run, ok, panic, ◌>>=◌, Ensures, Ensures-ok, All, All-append,
  All-IsIn, IsIn, AllEntries, AllEntries-insert, Bool-cases, inl, inr, ◌⊎◌, arith,
}
use upgrade.Crypto.{Crypto, itoa}
use upgrade.BinaryAgreement.{CoinRequest, at}
use upgrade.BinaryAgreement.Votes.{at-insert}
use upgrade.CommonCoin.{
  Nested, Config, Requests, State, initial, requests_of, store, is_sent, mark_sent, sig_shares,
  answer_all, coin_of, round_hash, publish, toss, receive, run,
}

module _ ⦃c : Crypto⦄ where
  abbrev pub is_key : CoinRequest → ℕ → ℕ → ℕ → Bool
  is_key q u r i = (q.uround == u) && ((q.round == r) && (q.instance_id == i))

  requests_of-store :
      (q : CoinRequest) (u r i : ℕ) (m : Nested Requests)
      → requests_of u r i (store q m) ≡ (
          if is_key q u r i
          then insert q.sender q (requests_of q.uround q.round q.instance_id m)
          else requests_of u r i m)
  unfolding store
  requests_of-store q u r i m = ground (
    arith,
    at-insert q.uround u
        (insert q.round
          (insert q.instance_id (insert q.sender q (requests_of q.uround q.round q.instance_id m))
            (at q.round (at q.uround m)))
          (at q.uround m))
        m,
    at-insert q.round r
        (insert q.instance_id (insert q.sender q (requests_of q.uround q.round q.instance_id m))
          (at q.round (at q.uround m)))
        (at q.uround m),
    at-insert q.instance_id i (insert q.sender q (requests_of q.uround q.round q.instance_id m))
        (at q.round (at q.uround m)),
    nat_eq.beq_iff q.uround u,
    nat_eq.beq_iff q.round r,
  )

  abbrev pub is_marked : ℕ → ℕ → ℕ → Nested Bool → Bool
  is_marked u r i m = get_or (lookup i (at r (at u m))) false

  is_marked-mark_sent :
      (q : CoinRequest) (u r i : ℕ) (m : Nested Bool)
      → is_marked u r i (mark_sent q m) ≡ (if is_key q u r i then true else is_marked u r i m)
  unfolding mark_sent
  is_marked-mark_sent q u r i m = ground (
    arith,
    at-insert q.uround u
        (insert q.round (insert q.instance_id true (at q.round (at q.uround m))) (at q.uround m)) m,
    at-insert q.round r (insert q.instance_id true (at q.round (at q.uround m))) (at q.uround m),
    lookup-insert q.instance_id i true (at q.round (at q.uround m)),
    nat_eq.beq_iff q.uround u,
    nat_eq.beq_iff q.round r,
  )

  coin-insert :
      (u r u' r' v : ℕ) (m : GoMap ℕ (GoMap ℕ ℕ))
      → lookup r' (at u' (insert u (insert r v (at u m)) m))
        ≡ (if (u == u') && (r == r') then some v else lookup r' (at u' m))
  coin-insert u r u' r' v m = ground (
    arith,
    at-insert u u' (insert r v (at u m)) m,
    lookup-insert r r' v (at u m),
    nat_eq.beq_iff u u',
  )

  module _ (cfg : Config) where
    -- The share is a valid one of the hash of the round number.
    abbrev pub IsShare : ℕ → c.SigShare → Type 0
    IsShare r sig = c.verify sig (round_hash cfg r) cfg.key_meta ≡ true

    -- The request carries a valid share of its round.
    abbrev pub IsSigned : CoinRequest → Type 0
    IsSigned q = (sig : c.SigShare) × (q.sig ≡ some sig) × IsShare q.round sig

    abbrev IsOf : ℕ → CoinRequest → Type 0
    IsOf r q = (q.round ≡ r) × IsSigned q

    -- The value is the coin of a certificate joined from valid shares of the round's hash.
    abbrev pub IsToss : ℕ → ℕ → Type 0
    IsToss r v =
        (shares : List c.SigShare) × (certificate : Bytes) × All (IsShare r) shares
        × (c.join_shares shares (round_hash cfg r) cfg.key_meta ≡ some certificate)
        × (v ≡ coin_of certificate)

    sig_shares-All :
        (r : ℕ) (m : Requests) → AllEntries (λ s q. IsOf r q) m → All (IsShare r) (sig_shares m)
    sig_shares-All r [] a = tt
    sig_shares-All r ((i, q) ∷ m) ((same, (sig, e, v)), a) =
        rw e (subst (λ k. IsShare k sig) same v, sig_shares-All r m a)

    pub record Inv (st : State) : Type 0 where
      pub rounds : (u r i : ℕ) → AllEntries (λ s q. IsOf r q) (requests_of u r i st.received)
      pub answered : All (λ a. IsToss a.0.round a.1) st.answers
      pub values : (u r v : ℕ) → lookup r (at u st.coin_vals) ≡ some v → IsToss r v
      pub kept :
          (u r i : ℕ)
          → is_marked u r i st.already_sent ≡ true
          → is_some (lookup r (at u st.coin_vals)) ≡ true

    store-Inv :
        (q : CoinRequest) (st : State)
        → IsSigned q
        → Inv st
        → Inv (record st { received = store q st.received })
    store-Inv q st signed h = record {
      rounds = λ u r i.
          subst (AllEntries (λ s x. IsOf r x)) (sym (requests_of-store q u r i st.received)) (
            if_ind (AllEntries (λ s x. IsOf r x)) (is_key q u r i) _ _
              (λ k.
                let same : q.round ≡ r = (nat_eq.beq_iff q.round r).0 (ground arith) in
                AllEntries-insert (λ s x. IsOf r x) q.sender q _ (λ j e. (same, signed))
                  (subst
                    (λ n.
                      AllEntries (λ s x. IsOf n x)
                        (requests_of q.uround q.round q.instance_id st.received))
                    same (h.rounds q.uround q.round q.instance_id)))
              (λ _. h.rounds u r i));
      answered = h.answered;
      values = h.values;
      kept = h.kept;
    }

    answer_all-All :
        (r v : ℕ) (m : Requests)
        → IsToss r v
        → AllEntries (λ s q. IsOf r q) m
        → All (λ a. IsToss a.0.round a.1) (answer_all v m)
    answer_all-All r v [] t a = tt
    answer_all-All r v ((i, q) ∷ m) t a =
        (subst (λ n. IsToss n v) (sym a.0.0) t, answer_all-All r v m t a.1)

    publish-Inv :
        (q : CoinRequest) (st : State) (shares : List c.SigShare) (o : Option Bytes)
        → All (IsShare q.round) shares
        → c.join_shares shares (round_hash cfg q.round) cfg.key_meta ≡ o
        → Inv st
        → Inv (publish cfg q o st)
    unfolding publish
    publish-Inv q st shares none valid e h = h
    publish-Inv q st shares (some certificate) valid e h =
        let tossed : IsToss q.round (coin_of certificate) = (shares, certificate, valid, e, refl) in
        record {
          rounds = h.rounds;
          answered =
              All-append (λ a. IsToss a.0.round a.1) st.answers _ h.answered
                (answer_all-All q.round (coin_of certificate) _ tossed
                  (h.rounds q.uround q.round q.instance_id));
          values =
              λ u r v found. new_value u r v found (Bool-cases ((q.uround == u) && (q.round == r)));
          kept = λ u r i marked.
              new_mark u r i marked (Bool-cases ((q.uround == u) && (q.round == r)));
        }
      where
        new_value :
            (u r v : ℕ)
            → lookup r (
                at u (
                  insert q.uround
                    (insert q.round (coin_of certificate) (at q.uround st.coin_vals))
                    st.coin_vals))
              ≡ some v
            → (((q.uround == u) && (q.round == r)) ≡ true)
              ⊎ (((q.uround == u) && (q.round == r)) ≡ false)
            → IsToss r v
        new_value u r v found (inl k) =
            let place : q.round ≡ r = (nat_eq.beq_iff q.round r).0 (ground arith) in
            let same : coin_of certificate ≡ v = ground (
              arith,
              found,
              k,
              coin-insert q.uround q.round u r (coin_of certificate) st.coin_vals,
            ) in
            subst (IsToss r) same (
              subst (λ n. IsToss n (coin_of certificate)) place
                (shares, certificate, valid, e, refl))
        new_value u r v found (inr k) = h.values u r v (
            ground (
              arith,
              found,
              k,
              coin-insert q.uround q.round u r (coin_of certificate) st.coin_vals,
            ))

        new_mark :
            (u r i : ℕ)
            → is_marked u r i (mark_sent q st.already_sent) ≡ true
            → (((q.uround == u) && (q.round == r)) ≡ true)
              ⊎ (((q.uround == u) && (q.round == r)) ≡ false)
            → is_some (
                lookup r (
                  at u (
                    insert q.uround
                      (insert q.round (coin_of certificate) (at q.uround st.coin_vals))
                      st.coin_vals)))
              ≡ true
        new_mark u r i marked (inl k) =
            ground (arith, k, coin-insert q.uround q.round u r (coin_of certificate) st.coin_vals)
        new_mark u r i marked (inr k) = ground (
          arith,
          k,
          coin-insert q.uround q.round u r (coin_of certificate) st.coin_vals,
          h.kept u r i (ground (arith, marked, k, is_marked-mark_sent q u r i st.already_sent)),
        )

    toss-Inv : (q : CoinRequest) (st : State) → Inv st → Inv (toss cfg q st)
    unfolding toss
    toss-Inv q st h =
        if_ind Inv (is_sent q st.already_sent) _ _
          (λ sent.
            again (lookup q.round (at q.uround st.coin_vals)) refl
              (h.kept q.uround q.round q.instance_id sent))
          (λ _.
            publish-Inv q st (sig_shares (requests_of q.uround q.round q.instance_id st.received)) _
              (sig_shares-All q.round _ (h.rounds q.uround q.round q.instance_id)) refl h)
      where
        again :
            (o : Option ℕ)
            → lookup q.round (at q.uround st.coin_vals) ≡ o
            → is_some o ≡ true
            → Inv (record st { answers = st.answers ++ (q, get_or o 0) ∷ [] })
        again none e k = absurd (ground (arith, k))
        again (some v) e k = record {
          rounds = h.rounds;
          answered =
              All-append (λ a. IsToss a.0.round a.1) st.answers _ h.answered
                (h.values q.uround q.round v e, tt);
          values = h.values;
          kept = h.kept;
        }

    receive-Inv :
        (q : CoinRequest) (st : State) → IsSigned q → Inv st → Ensures Inv (receive cfg q st)
    unfolding receive
    receive-Inv q st signed h = go q.sig
      where
        stored : State
        stored = record st { received = store q st.received }

        go :
            (o : Option c.SigShare)
            → Ensures Inv (elim o [
              | none ↦ panic
              | some sig ↦ ok (
                  if not (c.verify sig (round_hash cfg q.round) cfg.key_meta)
                  then stored
                  else if leb
                      (cfg.n / 2 + 1)
                      (length (requests_of q.uround q.round q.instance_id stored.received))
                  then toss cfg q stored
                  else stored)
            ])
        go none = tt
        go (some sig) =
            if_ind Inv (not (c.verify sig (round_hash cfg q.round) cfg.key_meta)) _ _
              (λ _. store-Inv q st signed h)
              (λ _.
                if_ind Inv
                  (leb (cfg.n / 2 + 1)
                    (length (requests_of q.uround q.round q.instance_id stored.received)))
                  _ _ (λ _. toss-Inv q stored (store-Inv q st signed h))
                  (λ _. store-Inv q st signed h))

    run-Inv :
        (qs : List CoinRequest) (r : Run State)
        → All IsSigned qs
        → Ensures Inv r
        → Ensures Inv (r >>= run cfg qs)
    unfolding run
    run-Inv qs panic a h = tt
    run-Inv [] (ok st) a h = h
    run-Inv (q ∷ qs) (ok st) a h = run-Inv qs (receive cfg q st) a.1 (receive-Inv q st a.0 h)

    initial-Inv : Inv initial
    unfolding initial lookup
    initial-Inv = record {
      rounds = λ u r i. tt;
      answered = tt;
      values = λ u r v e. absurd (ground (arith, e));
      kept = λ u r i e. absurd (ground (arith, e));
    }

    pub coin_agreement :
        (qs : List CoinRequest) {st : State} (a b : CoinRequest × ℕ)
        → ((xs : List c.SigShare) (r : ℕ) (s : Bytes)
            → All (IsShare r) xs
            → c.join_shares xs (round_hash cfg r) cfg.key_meta ≡ some s
            → c.verify_pkcs1v15 cfg.key_meta (c.sha256 (itoa r)) s ≡ true)
        → ((hash s s' : Bytes)
            → c.verify_pkcs1v15 cfg.key_meta hash s ≡ true
            → c.verify_pkcs1v15 cfg.key_meta hash s' ≡ true
            → s ≡ s')
        → All IsSigned qs
        → run cfg qs initial ≡ ok st
        → IsIn a st.answers
        → IsIn b st.answers
        → a.0.round ≡ b.0.round
        → a.1 ≡ b.1
    coin_agreement qs {st} a b joins unique signed e i j same =
        let inv =
          Ensures-ok Inv (run cfg qs initial) st (run-Inv qs (ok initial) signed initial-Inv) e in
        let (xs, s, vx, x, p) = All-IsIn (λ z. IsToss z.0.round z.1) st.answers a inv.answered i in
        let tossed = All-IsIn (λ z. IsToss z.0.round z.1) st.answers b inv.answered j in
        let (ys, s', vy, y, q) = subst (λ r. IsToss r b.1) (sym same) tossed in
        let one =
          unique (c.sha256 (itoa a.0.round)) s s' (joins xs a.0.round s vx x)
            (joins ys a.0.round s' vy y) in
        p ∙ ap coin_of one ∙ sym q
