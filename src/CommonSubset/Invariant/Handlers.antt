-- ===== src/CommonSubset/Invariant/Handlers.antt =====
-- The two handlers of messages keep what every step of a common subset keeps.
use upgrade.Prelude.{
  ℕ, ◌+◌, ◌≤◌, ◌≡◌, refl, sym, subst, Bytes, bytes_eq, true, false, not, ◌&&◌, Option, none, some,
  [], ◌++◌, GoMap, lookup, insert, get_or, is_some, length, leb, ◌==◌, nat_eq, if◌then◌else◌,
  if_ind, Run, ok, panic, ◌>>=◌, Ensures, IsIn-append_right, AllEntries, AllEntries-insert,
  AllEntries-lookup, inl, inr, ◌⊎◌, arith,
}
use upgrade.Crypto.{Crypto, itoa}
use upgrade.CommonSubset.State.{
  AcsSignatureMessage, AcsCommitteeMessage, Payload, signature_message, committee_message, Config,
  Shares, State,
}
use upgrade.CommonSubset.Commits.{
  hash_values, verify_padded, share_list, shares_on, Handled, nothing, joined, join, record_share,
  is_valid_signature, handle_commit, handle_signature_message,
}
use upgrade.CommonSubset.Events.{accept, handled, handle_message}
use upgrade.CommonSubset.Invariant.{
  count_commits, count_commits-append, IsShare, Certificate, verified, joined_from, IsAnnounced,
  view, Output-later, accepted-later, IsSound,
}

module _ ⦃c : Crypto⦄ (cfg : Config) where
  -- What a handler of messages returns: no commit, and what it accepts is announced.
  pub record IsHandled (r : Handled) : Type 0 where
    pub quiet : count_commits r.sent ≡ 0
    pub accepts :
        (r.result ≡ none)
        ⊎ ((hash : Bytes) × (signature : Bytes) × (r.result ≡ some (hash, signature))
            × IsAnnounced cfg hash signature r.sent)

  nothing-IsHandled : IsHandled (nothing)
  unfolding count_commits
  nothing-IsHandled = record { quiet = refl; accepts = inl refl }

  joined-IsHandled :
      (hash : Bytes) (o : Option Bytes)
      → ((signature : Bytes) → o ≡ some signature → Certificate cfg hash signature)
      → IsHandled (joined cfg hash o)
  unfolding joined count_commits
  joined-IsHandled hash none f = record { quiet = refl; accepts = inl refl }
  joined-IsHandled hash (some signature) f = record {
    quiet = refl;
    accepts = inr (hash, signature, refl, (f signature refl, inl refl));
  }

  handle_signature_message-IsHandled :
      (m : AcsSignatureMessage) → IsHandled (handle_signature_message cfg m)
  unfolding handle_signature_message
  handle_signature_message-IsHandled m =
      if_ind IsHandled (c.verify_pkcs1v15 cfg.key_meta_c m.hash m.sig) _ _
        (λ v. joined-IsHandled m.hash (some m.sig) (λ s e.
          verified
            (subst (λ x. c.verify_pkcs1v15 cfg.key_meta_c m.hash x ≡ true) (ground arith) v)))
        (λ _. nothing-IsHandled)

  join-IsHandled :
      (hash : Bytes) (shares : GoMap ℕ c.SigShare)
      → AllEntries (IsShare cfg hash) shares
      → cfg.tk + 1 ≤ length shares
      → IsHandled (join cfg hash shares)
  unfolding join
  join-IsHandled hash shares a k =
      go (c.prepare_document_hash (c.public_key_size cfg.key_meta_c) hash) refl
    where
      go :
          (o : Option Bytes)
          → c.prepare_document_hash (c.public_key_size cfg.key_meta_c) hash ≡ o
          → IsHandled (elim o [
            | none ↦ nothing
            | some padded ↦
                joined cfg hash (c.join_shares (share_list shares) padded cfg.key_meta_c)
          ])
      go none e = nothing-IsHandled
      go (some padded) e =
          joined-IsHandled hash (c.join_shares (share_list shares) padded cfg.key_meta_c)
            (λ s q. joined_from shares padded a k e q)

  abbrev pub AreShares : Shares → Type 0
  AreShares = AllEntries (λ hash on. AllEntries (IsShare cfg hash) on)

  abbrev pub IsRecorded : Handled × Shares → Type 0
  IsRecorded r = IsHandled r.0 × AreShares r.1

  record_share-IsRecorded :
      (m : AcsCommitteeMessage) (shares : Shares)
      → IsShare cfg m.hash m.sender m.sig_share
      → AreShares shares
      → IsRecorded (record_share cfg m shares)
  unfolding record_share
  record_share-IsRecorded m shares s a =
      let on = insert m.sender m.sig_share (shares_on cfg m.hash shares) in
      let good : AllEntries (IsShare cfg m.hash) on =
        AllEntries-insert (IsShare cfg m.hash) m.sender m.sig_share (shares_on cfg m.hash shares)
          (λ j q. rw q s) (before (lookup m.hash shares) refl) in
      (
        if_ind IsHandled (leb (cfg.tk + 1) (length on)) _ _
            (λ k. join-IsHandled m.hash on good (ground arith)) (λ _. nothing-IsHandled),
        AllEntries-insert (λ hash on. AllEntries (IsShare cfg hash) on) m.hash on shares
            (λ j q. rw q good) a,
      )
    where
      before :
          (o : Option (GoMap ℕ c.SigShare))
          → lookup m.hash shares ≡ o
          → AllEntries (IsShare cfg m.hash) (get_or o [])
      before none e = tt
      before (some on) e =
          AllEntries-lookup (λ hash on. AllEntries (IsShare cfg hash) on) m.hash shares a e

  handle_commit-IsRecorded :
      (m : AcsCommitteeMessage) (shares : Shares)
      → AreShares shares
      → Ensures IsRecorded (handle_commit cfg m shares)
  unfolding handle_commit is_valid_signature
  handle_commit-IsRecorded m shares a =
      if_ind (Ensures IsRecorded) (not (get_or (lookup m.sender cfg.committee) false)) _ _
        (λ _. (nothing-IsHandled, a)) (λ member. go (hash_values m.values) (ground arith))
    where
      go :
          (r : Run Bytes)
          → get_or (lookup m.sender cfg.committee) false ≡ true
          → Ensures IsRecorded (
              (r >>= λ hash. ok (
                hash == m.hash
                && (verify_padded cfg m.sig_share hash cfg.key_meta_c
                    && verify_padded cfg m.proof (c.sha256 (itoa m.sender)) cfg.key_meta)))
              >>= λ valid. ok (if valid then record_share cfg m shares else (nothing, shares)))
      go panic q = tt
      go (ok hash) q =
          if_ind IsRecorded
            (hash == m.hash
              && (verify_padded cfg m.sig_share hash cfg.key_meta_c
                  && verify_padded cfg m.proof (c.sha256 (itoa m.sender)) cfg.key_meta))
            _ _
            (λ v.
              record_share-IsRecorded m shares
                (
                  q,
                  subst (λ x. verify_padded cfg m.sig_share x cfg.key_meta_c ≡ true)
                      ((bytes_eq.beq_iff hash m.hash).0 (ground arith)) (ground arith),
                )
                a)
            (λ _. (nothing-IsHandled, a))

  handled-IsSound :
      (r : Handled) (st : State) → IsHandled r → IsSound cfg st → IsSound cfg (handled cfg r st)
  unfolding handled accept
  handled-IsSound r st k h = elim k.accepts [
    | inl e ↦
        subst (λ o. IsSound cfg (accept cfg o r.sent st)) (sym e)
          (record {
            once = omega (arith, counted, h.once);
            idle = λ f. (omega (arith, counted, (h.idle f).0), (h.idle f).1, (h.idle f).2);
            one_out = h.one_out;
            shares = h.shares;
            accepted = accepted-later cfg (view cfg st) r.sent h;
            output = Output-later cfg st.returned st.out st.sent r.sent h.output;
          })
    | inr (hash, signature, e, a) ↦
        subst (λ o. IsSound cfg (accept cfg o r.sent st)) (sym e)
          (record {
            once = omega (arith, counted, h.once);
            idle = λ f. (omega (arith, counted, (h.idle f).0), (h.idle f).1, (h.idle f).2);
            one_out = h.one_out;
            shares = h.shares;
            accepted = inr (hash, refl, (a.0, IsIn-append_right _ st.sent r.sent a.1));
            output = Output-later cfg st.returned st.out st.sent r.sent h.output;
          })
  ]
    where
      counted : count_commits (st.sent ++ r.sent) ≡ count_commits st.sent
      counted = omega (arith, count_commits-append st.sent r.sent, k.quiet)

  pub handle_message-IsSound :
      (p : Payload) (st : State) → IsSound cfg st → Ensures (IsSound cfg) (handle_message cfg p st)
  unfolding handle_message
  handle_message-IsSound (signature_message m) st h =
      if_ind (Ensures (IsSound cfg)) (is_some st.received_hash && not (length st.signature == 0)) _
        _ (λ _. h)
        (λ _.
          handled-IsSound (handle_signature_message cfg m) st (handle_signature_message-IsHandled m)
            h)
  handle_message-IsSound (committee_message m) st h =
      go (handle_commit cfg m st.shares_received)
        (handle_commit-IsRecorded m st.shares_received h.shares)
    where
      go :
          (r : Run (Handled × Shares))
          → Ensures IsRecorded r
          → Ensures
              (IsSound cfg)
              (r >>= λ x. ok (handled cfg x.0 (record st { shares_received = x.1 })))
      go panic k = tt
      go (ok (x, y)) k =
          handled-IsSound x (record st { shares_received = y }) k.0
            (record {
              once = h.once;
              idle = h.idle;
              one_out = h.one_out;
              shares = k.1;
              accepted = h.accepted;
              output = h.output;
            })
