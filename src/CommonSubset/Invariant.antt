-- ===== src/CommonSubset/Invariant.antt =====
-- What every step of a common subset keeps: one commit, valid shares, a certificate for the hash that
-- is accepted, and at most one output, of that hash.
pub mod Conditions
pub mod Handlers
pub mod Rounds
use upgrade.Prelude.{
  ℕ, zero, suc, ◌+◌, ◌-◌, ◌≤◌, ◌≡◌, refl, sym, ◌∙◌, ap, subst, Bytes, bytes_eq, Bool, true, false,
  not, ◌&&◌, ◌||◌, Option, none, some, List, [], ◌∷◌, ◌++◌, GoMap, lookup, insert, get_or, is_some,
  length, leb, ◌==◌, nat_eq, if◌then◌else◌, if_ind, Run, ok, panic, ◌>>=◌, Ensures, Ensures-ok, All,
  All-of, IsIn, IsIn-append_left, AllEntries, AllEntries-insert, AllEntries-lookup, Bool-cases,
  Option-cases, inl, inr, ◌⊎◌, arith,
}
use upgrade.Crypto.{Crypto}
use upgrade.Block.{BlockShare}
use upgrade.CommonSubset.State.{
  AcsSignatureMessage, AcsCommitteeMessage, Payload, signature_message, committee_message, Config,
  Shares, State,
}
use upgrade.CommonSubset.Commits.{hash_values, multicast_commit, verify_padded, share_list, Handled}

module _ ⦃c : Crypto⦄ where
  -- The commit messages among those multicast.
  unfoldable pub count_commits : List Payload → ℕ
  count_commits [] = 0
  count_commits (committee_message m ∷ ps) = suc (count_commits ps)
  count_commits (signature_message m ∷ ps) = count_commits ps

  pub count_commits-append :
      (ps qs : List Payload) → count_commits (ps ++ qs) ≡ count_commits ps + count_commits qs
  unfolding count_commits
  count_commits-append [] qs = omega arith
  count_commits-append (committee_message m ∷ ps) qs = omega (arith, count_commits-append ps qs)
  count_commits-append (signature_message m ∷ ps) qs = count_commits-append ps qs

  module _ (cfg : Config) where
    -- A committee member's valid signature share on the hash.
    abbrev pub IsShare : Bytes → ℕ → c.SigShare → Type 0
    IsShare hash i sig =
        (get_or (lookup i cfg.committee) false ≡ true)
        × (verify_padded cfg sig hash cfg.key_meta_c ≡ true)

    -- A signature on the hash that verifies, or that was joined from more than `tk` valid shares.
    pub data Certificate (hash signature : Bytes) : Type 0 where
      verified : c.verify_pkcs1v15 cfg.key_meta_c hash signature ≡ true → Certificate hash signature
      joined_from :
          (shares : GoMap ℕ c.SigShare)
          → (padded : Bytes) → AllEntries (IsShare hash) shares
          → cfg.tk + 1 ≤ length shares
          → c.prepare_document_hash (c.public_key_size cfg.key_meta_c) hash ≡ some padded
          → c.join_shares (share_list shares) padded cfg.key_meta_c ≡ some signature
          → Certificate hash signature

    -- The hash and signature have a certificate, and the node has multicast them.
    abbrev pub IsAnnounced : Bytes → Bytes → List Payload → Type 0
    IsAnnounced hash signature sent =
        Certificate hash signature
        × IsIn (signature_message (record { sender = cfg.node_id; hash = hash; sig = signature }))
            sent

    pub record View : Type 0 where
      pub commit : Bool
      pub acs_finished : List (Option BlockShare)
      pub acs_out : List (List (Option BlockShare))
      pub shares_received : Shares
      pub received_hash : Option Bytes
      pub signature : Bytes
      pub sent : List Payload
      pub out : List (List (Option BlockShare))
      pub returned : Bool

    abbrev pub view : State → View
    view st = record {
      commit = st.commit;
      acs_finished = st.acs_finished;
      acs_out = st.acs_out;
      shares_received = st.shares_received;
      received_hash = st.received_hash;
      signature = st.signature;
      sent = st.sent;
      out = st.out;
      returned = st.returned;
    }

    pub data Output (returned : Bool) (out : List (List (Option BlockShare))) (sent : List Payload)
        : Type 0 where
      running : returned ≡ false → out ≡ [] → Output returned out sent
      output :
          (values : List (Option BlockShare)) (hash signature : Bytes)
          → returned ≡ true
          → out ≡ values ∷ []
          → hash_values values ≡ ok hash
          → IsAnnounced hash signature sent
          → Output returned out sent

    pub record Sound (v : View) : Type 0 where
      pub once : count_commits v.sent ≤ 1
      pub idle :
          v.commit ≡ false → (count_commits v.sent ≡ 0) × (v.acs_out ≡ []) × (v.acs_finished ≡ [])
      pub one_out : length v.acs_out ≤ 1
      pub shares : AllEntries (λ hash on. AllEntries (IsShare hash) on) v.shares_received
      pub accepted :
          (v.received_hash ≡ none)
          ⊎ ((hash : Bytes) × (v.received_hash ≡ some hash) × IsAnnounced hash v.signature v.sent)
      pub output : Output v.returned v.out v.sent

    abbrev pub IsSound : State → Type 0
    IsSound st = Sound (view st)

    -- Messages multicast later leave what was announced.
    pub IsAnnounced-later :
        (hash signature : Bytes) (ps qs : List Payload)
        → IsAnnounced hash signature ps
        → IsAnnounced hash signature (ps ++ qs)
    IsAnnounced-later hash signature ps qs h = (h.0, IsIn-append_left _ ps qs h.1)

    pub Output-later :
        (returned : Bool) (out : List (List (Option BlockShare))) (ps qs : List Payload)
        → Output returned out ps
        → Output returned out (ps ++ qs)
    Output-later returned out ps qs (running r o) = running r o
    Output-later returned out ps qs (output values hash signature r o h a) =
        output values hash signature r o h (IsAnnounced-later hash signature ps qs a)

    pub accepted-later :
        (v : View) (qs : List Payload)
        → Sound v
        → (v.received_hash ≡ none)
          ⊎ ((hash : Bytes) × (v.received_hash ≡ some hash)
              × IsAnnounced hash v.signature (v.sent ++ qs))
    accepted-later v qs h = elim h.accepted [
      | inl e ↦ inl e
      | inr (hash, e, a) ↦ inr (hash, e, IsAnnounced-later hash v.signature v.sent qs a)
    ]
