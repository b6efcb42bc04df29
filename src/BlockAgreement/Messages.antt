-- ===== src/BlockAgreement/Messages.antt =====
-- blockagreement/utils.go: the messages of block agreement and their hashes. The pointers that the
-- code tests against nil, or that can be nil in a map, are options; the others are taken to be set.
use upgrade.Prelude.{
  ℕ, Bytes, Option, none, some, List, [], ◌∷◌, ◌++◌, GoMap, lookup, length, replicate, leb,
  if◌then◌else◌, nat_eq,
}
use upgrade.Crypto.{Crypto, itoa}
use upgrade.Block.{BlockShare, share_hash}

-- `sort.Ints`
insert_sorted : ℕ → List ℕ → List ℕ
insert_sorted k [] = k ∷ []
insert_sorted k (j ∷ js) = if leb k j then k ∷ (j ∷ js) else j ∷ insert_sorted k js

pub sort_ints : List ℕ → List ℕ
unfolding insert_sorted
sort_ints [] = []
sort_ints (k ∷ ks) = insert_sorted k (sort_ints ks)

abbrev pub keys : {V : Type 0} → GoMap ℕ V → List ℕ
keys [] = []
keys ((k, v) ∷ m) = k ∷ keys m

module _ ⦃c : Crypto⦄ where
  pub record CommitMessage : Type 0 where
    pub sender : ℕ
    pub round : ℕ
    pub block_share : BlockShare
    pub sig : c.SigShare

  pub record Vote : Type 0 where
    pub round : ℕ
    pub block_share : BlockShare
    pub commits : List CommitMessage

  pub record VoteMessage : Type 0 where
    pub sender : ℕ
    pub vote : Vote
    pub sig : c.SigShare

  pub record ProposeMessage : Type 0 where
    pub sender : ℕ
    pub vote : Vote
    pub vote_messages : GoMap ℕ (Option VoteMessage)
    pub sig : Option c.SigShare

  pub record NotifyMessage : Type 0 where
    pub sender : ℕ
    pub round : ℕ
    pub block_share : BlockShare
    pub commits : List CommitMessage

  pub record GradedConsensusResult : Type 0 where
    pub block_share : Option BlockShare
    pub commits : List CommitMessage
    pub grade : ℕ

  -- The hash of the signed part: sender, round and block share.
  unfoldable pub commit_hash_without_sig : ℕ → ℕ → BlockShare → Bytes
  commit_hash_without_sig sender round bs =
      c.sha256 (share_hash bs ++ (c.sha256 (itoa sender) ++ c.sha256 (itoa round)))

  unfoldable pub commit_hash : CommitMessage → Bytes
  unfolding commit_hash_without_sig
  commit_hash m =
      c.sha256 (commit_hash_without_sig m.sender m.round m.block_share ++ c.sha256 (c.xi m.sig))

  commits_bytes : List CommitMessage → Bytes
  commits_bytes [] = []
  commits_bytes (m ∷ ms) = commit_hash m ++ commits_bytes ms

  unfoldable pub vote_hash : Vote → Bytes
  unfolding commits_bytes
  vote_hash v =
      c.sha256 (c.sha256 (itoa v.round) ++ (share_hash v.block_share ++ commits_bytes v.commits))

  unfoldable pub vote_message_hash_without_sig : ℕ → Vote → Bytes
  unfolding vote_hash
  vote_message_hash_without_sig sender vote = c.sha256 (c.sha256 (itoa sender) ++ vote_hash vote)

  unfoldable pub vote_message_hash : VoteMessage → Bytes
  unfolding vote_message_hash_without_sig
  vote_message_hash vm =
      c.sha256 (vote_message_hash_without_sig vm.sender vm.vote ++ c.sha256 (c.xi vm.sig))

  -- `make([]int, len(m))` has `len(m)` zeros already, and the keys are appended behind them.
  unfoldable pub hashed_keys : GoMap ℕ (Option VoteMessage) → List ℕ
  unfolding sort_ints
  hashed_keys m = sort_ints (replicate (length m) 0 ++ keys m)

  -- The bytes of one key: nothing where the map has no message.
  abbrev pub key_bytes : Option (Option VoteMessage) → Bytes
  key_bytes none = []
  key_bytes (some none) = []
  key_bytes (some (some vm)) = vote_message_hash vm

  unfoldable pub keyed_bytes : GoMap ℕ (Option VoteMessage) → List ℕ → Bytes
  keyed_bytes m [] = []
  keyed_bytes m (k ∷ ks) = key_bytes (lookup k m) ++ keyed_bytes m ks

  unfoldable pub propose_hash_without_sig : ℕ → Vote → GoMap ℕ (Option VoteMessage) → Bytes
  unfolding hashed_keys keyed_bytes vote_hash
  propose_hash_without_sig sender vote messages =
      c.sha256
        (c.sha256 (itoa sender) ++ (vote_hash vote ++ keyed_bytes messages (hashed_keys messages)))

  -- `none` is the panic of a nil signature.
  unfoldable pub propose_hash : ProposeMessage → Option Bytes
  unfolding propose_hash_without_sig
  propose_hash pm = elim pm.sig [
    | none ↦ none
    | some sig ↦ some (
        c.sha256
          (propose_hash_without_sig pm.sender pm.vote pm.vote_messages ++ c.sha256 (c.xi sig)))
  ]
