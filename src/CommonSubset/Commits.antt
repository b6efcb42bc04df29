-- ===== src/CommonSubset/Commits.antt =====
-- commonsubset/commonsubset.go: commit messages, signature messages and the test for termination. A
-- nil block share in a list that is hashed is dereferenced, and the code panics.
use upgrade.Prelude.{
  ℕ, ◌+◌, Bytes, bytes_eq, Bool, false, not, ◌&&◌, ◌||◌, Option, none, some, List, [], ◌∷◌, ◌++◌,
  GoMap, lookup, insert, get_or, length, leb, ◌==◌, nat_eq, if◌then◌else◌, Run, ok, panic, ◌>>=◌,
}
use upgrade.Crypto.{Crypto, itoa}
use upgrade.Block.{BlockShare, share_hash}
use upgrade.CommonSubset.State.{
  AcsSignatureMessage, AcsCommitteeMessage, Payload, signature_message, committee_message, Config,
  Shares,
}

module _ ⦃c : Crypto⦄ where
  unfoldable pub values_bytes : List (Option BlockShare) → Run Bytes
  values_bytes [] = ok []
  values_bytes (none ∷ vs) = panic
  values_bytes (some v ∷ vs) = values_bytes vs >>= λ bytes. ok (share_hash v ++ bytes)

  unfoldable pub hash_values : List (Option BlockShare) → Run Bytes
  unfolding values_bytes
  hash_values vs = values_bytes vs >>= λ bytes. ok (c.sha256 bytes)

  abbrev pub share_list : GoMap ℕ c.SigShare → List c.SigShare
  share_list [] = []
  share_list ((i, sig) ∷ m) = sig ∷ share_list m

  -- What the two handlers of messages return: the hash and the signature, with the messages
  -- multicast. The slices are nil or set together.
  pub record Handled : Type 0 where
    pub result : Option (Bytes × Bytes)
    pub sent : List Payload

  abbrev pub nothing : Handled
  nothing = record { result = none; sent = [] }

  module _ (cfg : Config) where
    unfoldable pub sign_hash : Bytes → Option c.SigShare
    sign_hash hash = elim (c.prepare_document_hash (c.public_key_size cfg.key_meta_c) hash) [
      | none ↦ none
      | some padded ↦ c.sign cfg.sk_c padded cfg.key_meta_c
    ]

    unfoldable pub commit_payload :
        List (Option BlockShare) → Bytes → Option c.SigShare → List Payload
    commit_payload values hash none = []
    commit_payload values hash (some sig) =
        committee_message (record {
          sender = cfg.node_id;
          values = values;
          hash = hash;
          sig_share = sig;
          proof = cfg.proof;
        })
        ∷ []

    unfoldable pub multicast_commit : List (Option BlockShare) → Run (List Payload)
    unfolding hash_values sign_hash commit_payload
    multicast_commit values =
        hash_values values >>= λ hash. ok (commit_payload values hash (sign_hash hash))

    -- The check of a share against the padded hash.
    abbrev pub verify_padded : c.SigShare → Bytes → c.KeyMeta → Bool
    verify_padded sig hash meta = elim (c.prepare_document_hash (c.public_key_size meta) hash) [
      | none ↦ false
      | some padded ↦ c.verify sig padded meta
    ]

    unfoldable pub is_valid_signature : AcsCommitteeMessage → Run Bool
    unfolding hash_values
    is_valid_signature m = hash_values m.values >>= λ hash. ok (
        hash == m.hash
        && (verify_padded m.sig_share hash cfg.key_meta_c
            && verify_padded m.proof (c.sha256 (itoa m.sender)) cfg.key_meta))

    unfoldable pub joined : Bytes → Option Bytes → Handled
    joined hash none = nothing
    joined hash (some signature) = record {
      result = some (hash, signature);
      sent = signature_message (record { sender = cfg.node_id; hash = hash; sig = signature }) ∷ [];
    }

    -- `sigShares.Join` on the shares of one hash, in the order of the map.
    unfoldable pub join : Bytes → GoMap ℕ c.SigShare → Handled
    unfolding joined
    join hash shares = elim (c.prepare_document_hash (c.public_key_size cfg.key_meta_c) hash) [
      | none ↦ nothing
      | some padded ↦ joined hash (c.join_shares (share_list shares) padded cfg.key_meta_c)
    ]

    abbrev pub shares_on : Bytes → Shares → GoMap ℕ c.SigShare
    shares_on hash shares = get_or (lookup hash shares) []

    -- The share is recorded, and with `tk + 1` of them on its hash they are joined.
    unfoldable pub record_share : AcsCommitteeMessage → Shares → Handled × Shares
    unfolding join
    record_share m shares =
        let on = insert m.sender m.sig_share (shares_on m.hash shares) in
        let all = insert m.hash on shares in
        (if leb (cfg.tk + 1) (length on) then join m.hash on else nothing, all)

    unfoldable pub handle_commit : AcsCommitteeMessage → Shares → Run (Handled × Shares)
    unfolding is_valid_signature record_share
    handle_commit m shares =
        if not (get_or (lookup m.sender cfg.committee) false)
        then ok (nothing, shares)
        else (is_valid_signature m >>= λ valid.
            ok (if valid then record_share m shares else (nothing, shares)))

    unfoldable pub handle_signature_message : AcsSignatureMessage → Handled
    unfolding joined
    handle_signature_message m =
        if c.verify_pkcs1v15 cfg.key_meta_c m.hash m.sig
        then joined m.hash (some m.sig)
        else nothing

  unfoldable pub can_terminate : List (Option BlockShare) → Bytes → Option Bytes → Run Bool
  unfolding hash_values
  can_terminate finished signature none = ok false
  can_terminate finished signature (some received) =
      if length finished == 0 || length signature == 0
      then ok false
      else (hash_values finished >>= λ hash. ok (hash == received))
