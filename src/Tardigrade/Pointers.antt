-- ===== src/Tardigrade/Pointers.antt =====
-- Where the block pointer of a round comes from.
use upgrade.Prelude.{
  ℕ, suc, ◌+◌, ◌-◌, ◌/◌, set, ◌≤◌, ◌≡◌, refl, sym, subst, Bytes, bytes_eq, true, false, not, ◌&&◌,
  Option, none, some, List, [], ◌∷◌, ◌++◌, GoMap, lookup, insert, get_or, get_elem?, length, leb,
  nat_eq, if◌then◌else◌, if_ind, Run, ok, panic, ◌>>=◌, Ensures, Ensures-ok, AllEntries, IsMap,
  insert-IsMap, IsIn, inl, inr, AllEntries-insert, AllEntries-lookup, arith,
}
use upgrade.Crypto.{Crypto}
use upgrade.Block.{PreBlock, PreBlockMessage, BlockPointer, add_message, quality, pre_block_hash}
use upgrade.Tardigrade.{
  BlockMessage, CommitteeMessage, PointerMessage, Payload, block_message, committee_message,
  pointer_message, pre_block_message, decryption_message, Config, Shares, State, initial, is_in,
  entry_of, save_small, sign_hash, send_signed, handle_small_block_message, send_large, save_large,
  handle_large_block_message, first_pointer, handle_pointer_message, verify_padded,
  check_committee_message, is_valid_committee_message, share_list, point_to, join, record_share,
  handle_committee_message, receive, listen,
}

-- `heard` are the messages that the listener receives.
module _ ⦃c : Crypto⦄ (cfg : Config) (heard : List Payload) where
  -- The share is the one of a valid committee message that was received from the sender, and verifies.
  abbrev pub IsShare : Bytes → ℕ → c.SigShare → Type 0
  IsShare hash i sig =
      (m : CommitteeMessage) × IsIn (committee_message m) heard
      × (m.sender ≡ i)
      × (m.hash ≡ hash)
      × (m.hash_sig ≡ some sig)
      × (is_valid_committee_message cfg m ≡ true)
      × (verify_padded cfg sig hash cfg.key_meta_c ≡ true)

  -- The shares of distinct senders.
  abbrev pub AreSharesOf : Bytes → GoMap ℕ c.SigShare → Type 0
  AreSharesOf hash on = IsMap on × AllEntries (IsShare hash) on

  -- The origin of a pointer: in the committee, a received pointer whose signature verifies, or shares of
  -- distinct senders, more than half as many as the committee has members, which join to its signature;
  -- outside, a received pointer under a committee member's id.
  pub data Origin (p : BlockPointer) : Type 0 where
    verified :
        (m : PointerMessage)
        → IsIn (pointer_message m) heard
        → m.pointer ≡ p
        → is_in cfg.node_id cfg.committee ≡ true
        → c.verify_pkcs1v15 cfg.key_meta_c p.block_hash p.sig ≡ true
        → Origin p
    joined_from :
        (shares : GoMap ℕ c.SigShare) (padded : Bytes)
        → is_in cfg.node_id cfg.committee ≡ true
        → AreSharesOf p.block_hash shares
        → length cfg.committee / 2 + 1 ≤ length shares
        → c.prepare_document_hash (c.public_key_size cfg.key_meta_c) p.block_hash ≡ some padded
        → c.join_shares (share_list cfg shares) padded cfg.key_meta_c ≡ some p.sig
        → Origin p
    from_member :
        (m : PointerMessage)
        → IsIn (pointer_message m) heard
        → m.pointer ≡ p
        → is_in cfg.node_id cfg.committee ≡ false
        → is_in m.sender cfg.committee ≡ true
        → Origin p

  abbrev pub AreShares : Shares → Type 0
  AreShares = AllEntries AreSharesOf

  pub record Inv (ptr : Option BlockPointer) (shares : Shares) : Type 0 where
    pub valid : AreShares shares
    pub origin : (p : BlockPointer) → ptr ≡ some p → Origin p

  abbrev pub Keeps : State → Type 0
  Keeps s = Inv s.ptr s.blocks_received

  first_pointer-Keeps :
      (m : PointerMessage) (o : Option BlockPointer) (s : State)
      → IsIn (pointer_message m) heard
      → Keeps s
      → Keeps (first_pointer cfg m o s)
  unfolding first_pointer
  first_pointer-Keeps m (some p) s i h = h
  first_pointer-Keeps m none s i h =
      if_ind Keeps (is_in cfg.node_id cfg.committee) _ _
        (λ inside.
          if_ind Keeps (c.verify_pkcs1v15 cfg.key_meta_c m.pointer.block_hash m.pointer.sig) _ _
            (λ v. record {
              valid = h.valid;
              origin = λ p e. subst Origin (same p e) (verified m i refl inside v);
            })
            (λ _. h))
        (λ outside.
          if_ind Keeps (is_in m.sender cfg.committee) _ _
            (λ member. record {
              valid = h.valid;
              origin = λ p e. subst Origin (same p e) (from_member m i refl outside member);
            })
            (λ _. h))
    where
      same : (p : BlockPointer) → some m.pointer ≡ some p → m.pointer ≡ p
      same p e = ground (arith, e)

  point_to-Keeps :
      (hash padded : Bytes) (on : GoMap ℕ c.SigShare) (o : Option Bytes) (s : State)
      → is_in cfg.node_id cfg.committee ≡ true
      → AreSharesOf hash on
      → length cfg.committee / 2 + 1 ≤ length on
      → c.prepare_document_hash (c.public_key_size cfg.key_meta_c) hash ≡ some padded
      → c.join_shares (share_list cfg on) padded cfg.key_meta_c ≡ o
      → Keeps s
      → Keeps (point_to cfg hash o s)
  unfolding point_to
  point_to-Keeps hash padded on none s inside a k e j h = h
  point_to-Keeps hash padded on (some signature) s inside a k e j h = record {
    valid = h.valid;
    origin = λ p q. subst Origin (same p q) (joined_from on padded inside a k e j);
  }
    where
      same :
          (p : BlockPointer)
          → some (record { block_hash = hash; sig = signature }) ≡ some p
          → record { block_hash = hash; sig = signature } ≡ p
      same p q = ground (arith, q)

  join-Keeps :
      (hash : Bytes) (on : GoMap ℕ c.SigShare) (s : State)
      → is_in cfg.node_id cfg.committee ≡ true
      → AreSharesOf hash on
      → length cfg.committee / 2 + 1 ≤ length on
      → Keeps s
      → Keeps (join cfg hash on s)
  unfolding join
  join-Keeps hash on s inside a k h =
      go (c.prepare_document_hash (c.public_key_size cfg.key_meta_c) hash) refl
    where
      go :
          (o : Option Bytes)
          → c.prepare_document_hash (c.public_key_size cfg.key_meta_c) hash ≡ o
          → Keeps (elim o [
            | none ↦ s
            | some padded ↦
                point_to cfg hash (c.join_shares (share_list cfg on) padded cfg.key_meta_c) s
          ])
      go none e = h
      go (some padded) e = point_to-Keeps hash padded on _ s inside a k e refl h

  record_share-Keeps :
      (sender : ℕ) (hash : Bytes) (sig : c.SigShare) (s : State)
      → is_in cfg.node_id cfg.committee ≡ true
      → IsShare hash sender sig
      → Keeps s
      → Keeps (record_share cfg sender hash sig s)
  unfolding record_share
  record_share-Keeps sender hash sig s inside v h =
      if_ind Keeps (leb (length cfg.committee / 2 + 1) (length on)) _ _
        (λ k. join-Keeps hash on stored inside good (ground arith) kept) (λ _. kept)
    where
      before :
          (o : Option (GoMap ℕ c.SigShare))
          → lookup hash s.blocks_received ≡ o
          → AreSharesOf hash (get_or o [])
      before none e = (tt, tt)
      before (some old) e = AllEntries-lookup AreSharesOf hash s.blocks_received h.valid e

      on : GoMap ℕ c.SigShare
      on = insert sender sig (get_or (lookup hash s.blocks_received) [])

      old : GoMap ℕ c.SigShare
      old = get_or (lookup hash s.blocks_received) []

      good : AreSharesOf hash on
      good =
          let kept = before (lookup hash s.blocks_received) refl in
          (
            insert-IsMap sender sig old kept.0,
            AllEntries-insert (IsShare hash) sender sig old
                (λ j q. subst (λ k. IsShare hash k sig) (sym q) v) kept.1,
          )

      stored : State
      stored = record s { blocks_received = insert hash on s.blocks_received }

      kept : Keeps stored
      kept = record {
        valid =
            AllEntries-insert AreSharesOf hash on s.blocks_received
              (λ j q. subst (λ g. AreSharesOf g on) (sym q) good) h.valid;
        origin = h.origin;
      }

  check-hash_sig :
      (sender : ℕ) (hash : Bytes) (pb : Option PreBlock) (sig : c.SigShare)
      (proof : Option c.SigShare)
      → check_committee_message cfg sender hash pb (some sig) proof ≡ true
      → verify_padded cfg sig hash cfg.key_meta_c ≡ true
  unfolding check_committee_message
  check-hash_sig sender hash (some pb) sig (some proof) e = ground arith
  check-hash_sig sender hash (some pb) sig none e = absurd (ground (arith, e))
  check-hash_sig sender hash none sig proof e = absurd (ground (arith, e))

  handle_committee_message-Keeps :
      (m : CommitteeMessage) (s : State)
      → IsIn (committee_message m) heard
      → Keeps s
      → Keeps (handle_committee_message cfg m s)
  unfolding handle_committee_message is_valid_committee_message
  handle_committee_message-Keeps m s i h = go m.hash_sig refl
    where
      go :
          (o : Option c.SigShare)
          → m.hash_sig ≡ o
          → Keeps (elim o [
            | none ↦ s
            | some sig ↦
                if not (is_in cfg.node_id cfg.committee)
                then s
                else if not
                    (check_committee_message cfg m.sender m.hash m.pre_block m.hash_sig m.proof)
                then s
                else record_share cfg m.sender m.hash sig s
          ])
      go none e = h
      go (some sig) e =
          if_ind Keeps (not (is_in cfg.node_id cfg.committee)) _ _ (λ _. h)
            (λ inside.
              if_ind Keeps
                (not (check_committee_message cfg m.sender m.hash m.pre_block m.hash_sig m.proof)) _
                _ (λ _. h)
                (λ v.
                  let valid : check_committee_message cfg m.sender m.hash m.pre_block m.hash_sig
                        m.proof
                      ≡ true =
                    ground arith in
                  let verifies = check-hash_sig m.sender m.hash m.pre_block sig m.proof (
                    subst
                      (λ o.
                        check_committee_message cfg m.sender m.hash m.pre_block o m.proof ≡ true)
                      e valid) in
                  record_share-Keeps m.sender m.hash sig s (ground arith)
                    (m, i, refl, refl, e, valid, verifies) h))

  save_small-Keeps :
      (m : BlockMessage) (s : State) (o : Option (Option PreBlockMessage))
      → Keeps s
      → Ensures Keeps (save_small cfg m s o)
  unfolding save_small
  save_small-Keeps m s none h = tt
  save_small-Keeps m s (some (some old)) h = h
  save_small-Keeps m s (some none) h = go (add_message s.small_pb m.sender (entry_of m))
    where
      go :
          (r : Run PreBlock)
          → Ensures Keeps (
              r >>= λ pb. ok (
                if leb (cfg.n - cfg.ta) (quality pb) && not s.ready_small
                then record s { small_pb = pb; ready_small = true; ready_chan = suc s.ready_chan }
                else record s { small_pb = pb }))
      go panic = tt
      go (ok pb) =
          if_ind Keeps (leb (cfg.n - cfg.ta) (quality pb) && not s.ready_small) _ _ (λ _. h)
            (λ _. h)

  send_large-Keeps : (pb : PreBlock) (s : State) → Keeps s → Ensures Keeps (send_large cfg pb s)
  unfolding send_large send_signed
  send_large-Keeps pb s h = go (sign_hash cfg (pre_block_hash pb))
    where
      go :
          (r : Run (Option c.SigShare)) → Ensures Keeps (r >>= λ sig. ok (send_signed cfg pb s sig))
      go panic = tt
      go (ok none) = h
      go (ok (some sig)) = h

  save_large-Keeps :
      (m : BlockMessage) (s : State) (o : Option (Option PreBlockMessage))
      → Keeps s
      → Ensures Keeps (save_large cfg m s o)
  unfolding save_large
  save_large-Keeps m s none h = tt
  save_large-Keeps m s (some (some old)) h = h
  save_large-Keeps m s (some none) h =
      if_ind (Ensures Keeps)
        (leb (cfg.n - cfg.ta)
            (quality (record s.large_pb { vec = set s.large_pb.vec m.sender (some (entry_of m)) }))
          && not s.ready_large)
        _ _ (λ _. send_large-Keeps _ (record s { large_pb = _; ready_large = true }) h) (λ _. h)

  receive-Keeps :
      (p : Payload) (s : State) → IsIn p heard → Keeps s → Ensures Keeps (receive cfg p s)
  unfolding receive handle_large_block_message handle_small_block_message handle_pointer_message
  receive-Keeps (block_message m) s i h =
      if_ind (Ensures Keeps) (m.is_large && is_in cfg.node_id cfg.committee) _ _
        (λ _. save_large-Keeps m s (get_elem? s.large_pb.vec m.sender) h)
        (λ _. save_small-Keeps m s (get_elem? s.small_pb.vec m.sender) h)
  receive-Keeps (committee_message m) s i h =
      handle_committee_message-Keeps m
        (record s { large_block_chan = s.large_block_chan ++ m.pre_block ∷ [] }) i h
  receive-Keeps (pointer_message m) s i h = first_pointer-Keeps m s.ptr s i h
  receive-Keeps (pre_block_message m) s i h = h
  receive-Keeps (decryption_message m) s i h = h

  listen-Keeps :
      (ps : List Payload) (r : Run State)
      → ((p : Payload) → IsIn p ps → IsIn p heard)
      → Ensures Keeps r
      → Ensures Keeps (r >>= listen cfg ps)
  unfolding listen
  listen-Keeps ps panic f h = tt
  listen-Keeps [] (ok s) f h = h
  listen-Keeps (p ∷ ps) (ok s) f h =
      listen-Keeps ps (receive cfg p s) (λ q i. f q (inr i)) (receive-Keeps p s (f p (inl refl)) h)

  initial-Keeps : Keeps (initial cfg)
  unfolding initial
  initial-Keeps = record { valid = tt; origin = λ p e. absurd (ground (arith, e)) }

module _ ⦃c : Crypto⦄ (cfg : Config) where
  -- The block pointer of a round, after any messages, comes from them. At a committee member it was
  -- received and its signature verifies; or its signature was joined from the shares of valid committee
  -- messages for its hash, received from distinct senders, more than half as many as the committee has
  -- members. At any other node it was received in a message that names a committee member as its
  -- sender.
  pub pointer-Origin :
      (ps : List Payload) {s : State} {p : BlockPointer}
      → listen cfg ps (initial cfg) ≡ ok s
      → s.ptr ≡ some p
      → Origin cfg ps p
  pointer-Origin ps {s} {p} e q =
      (Ensures-ok (Keeps cfg ps) (listen cfg ps (initial cfg)) s
          (listen-Keeps cfg ps ps (ok (initial cfg)) (λ p i. i) (initial-Keeps cfg ps)) e).origin
        p q
