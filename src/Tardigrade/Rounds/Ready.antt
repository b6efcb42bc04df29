-- ===== src/Tardigrade/Rounds/Ready.antt =====
-- tardigrade/tardigrade.go: what the notices on `readyChan` and `ptrChan` stand for.
use upgrade.Prelude.{
  ℕ, suc, ◌-◌, ◌≤◌, ◌≡◌, ◌⊎◌, inl, inr, refl, Bytes, true, false, not, ◌&&◌, Option, none, some,
  List, [], ◌∷◌, ◌++◌, get_elem?, set, leb, nat_eq, bytes_eq, if◌then◌else◌, if_ind, is_some, Run,
  ok, panic, ◌>>=◌, Ensures, Ensures-ok, arith, Option-cases,
}
use upgrade.Crypto.{Crypto}
use upgrade.Block.{PreBlock, PreBlockMessage, BlockPointer, add_message, quality}
use upgrade.Block.Quality.{quality-le-add_message}
use upgrade.Tardigrade.{
  BlockMessage, CommitteeMessage, PointerMessage, Payload, block_message, committee_message,
  pointer_message, pre_block_message, decryption_message, Config, State, initial, is_in, entry_of,
  save_small, handle_small_block_message, send_signed, send_large, sign_hash, save_large,
  handle_large_block_message, first_pointer, handle_pointer_message, point_to, join, record_share,
  is_valid_committee_message, handle_committee_message, receive, listen,
}

module _ ⦃c : Crypto⦄ where
  module _ (cfg : Config) where
    -- Where a flag is set or a notice stands in a channel, what it stands for is there.
    pub record IsReady (s : State) : Type 0 where
      pub small : (s.ready_small ≡ false) ⊎ (cfg.n - cfg.ta ≤ quality s.small_pb)
      pub noticed : (s.ready_chan ≡ 0) ⊎ (cfg.n - cfg.ta ≤ quality s.small_pb)
      pub pointed : (s.ptr_chan ≡ 0) ⊎ (is_some s.ptr ≡ true)

    first_pointer-IsReady :
        (m : PointerMessage) (o : Option BlockPointer) (s : State)
        → IsReady s
        → IsReady (first_pointer cfg m o s)
    unfolding first_pointer
    first_pointer-IsReady m (some p) s h = h
    first_pointer-IsReady m none s h = ground arith

    record_share-IsReady :
        (sender : ℕ) (hash : Bytes) (sig : c.SigShare) (s : State)
        → IsReady s
        → IsReady (record_share cfg sender hash sig s)
    unfolding record_share join point_to
    record_share-IsReady sender hash sig s h = ground arith

    handle_committee_message-IsReady :
        (m : CommitteeMessage) (s : State) → IsReady s → IsReady (handle_committee_message cfg m s)
    unfolding handle_committee_message
    handle_committee_message-IsReady m s h = elim (Option-cases m.hash_sig) [
      | inl p ↦ rw (p, handle_committee_message) h
      | inr (sig, p) ↦
          rw (p, handle_committee_message)
            (if_ind IsReady (not (is_in cfg.node_id cfg.committee)) _ _ (λ e. h)
              (λ e.
                if_ind IsReady (not (is_valid_committee_message cfg m)) _ _ (λ e'. h)
                  (λ e'. record_share-IsReady m.sender m.hash sig s h)))
    ]

    grown :
        (pb : PreBlock) (s : State)
        → quality s.small_pb ≤ quality pb
        → IsReady s
        → IsReady (record s { small_pb = pb })
    grown pb s l h = record {
      small = ground (arith, h.small);
      noticed = ground (arith, h.noticed);
      pointed = h.pointed;
    }

    save_small-IsReady :
        (m : BlockMessage) (s : State) (o : Option (Option PreBlockMessage))
        → IsReady s
        → Ensures IsReady (save_small cfg m s o)
    unfolding save_small
    save_small-IsReady m s none h = tt
    save_small-IsReady m s (some (some old)) h = h
    save_small-IsReady m s (some none) h =
        saved (add_message s.small_pb m.sender (entry_of m))
          (quality-le-add_message s.small_pb m.sender (entry_of m))
      where
        saved :
            (run : Run PreBlock)
            → Ensures (λ pb. quality s.small_pb ≤ quality pb) run
            → Ensures IsReady (
                run >>= λ pb. ok (
                  if leb (cfg.n - cfg.ta) (quality pb) && not s.ready_small
                  then record s { small_pb = pb; ready_small = true; ready_chan = suc s.ready_chan }
                  else record s { small_pb = pb }))
        saved panic l = tt
        saved (ok pb) l =
            if_ind IsReady (leb (cfg.n - cfg.ta) (quality pb) && not s.ready_small) _ _
              (λ e. record {
                small = inr (ground arith);
                noticed = inr (ground arith);
                pointed = h.pointed;
              })
              (λ e. grown pb s l h)

    save_large-IsReady :
        (m : BlockMessage) (s : State) (o : Option (Option PreBlockMessage))
        → IsReady s
        → Ensures IsReady (save_large cfg m s o)
    unfolding save_large send_large
    save_large-IsReady m s none h = tt
    save_large-IsReady m s (some (some old)) h = h
    save_large-IsReady m s (some none) h =
        if_ind (Ensures IsReady)
          (leb (cfg.n - cfg.ta) (
              quality (record s.large_pb { vec = set s.large_pb.vec m.sender (some (entry_of m)) }))
            && not s.ready_large)
          _ _ (λ e. signed _ (sign_hash cfg _)) (λ e. same_small _ h)
      where
        same_small : (pb : PreBlock) → IsReady s → IsReady (record s { large_pb = pb })
        same_small pb h = record { small = h.small; noticed = h.noticed; pointed = h.pointed }

        signed :
            (pb : PreBlock) (r : Run (Option c.SigShare))
            → Ensures IsReady (
                r >>= λ sig.
                ok (send_signed cfg pb (record s { large_pb = pb; ready_large = true }) sig))
        signed pb panic = tt
        signed pb (ok none) =
            unfold send_signed in
            record { small = h.small; noticed = h.noticed; pointed = h.pointed }
        signed pb (ok (some sig)) =
            unfold send_signed in
            record { small = h.small; noticed = h.noticed; pointed = h.pointed }

    receive-IsReady : (p : Payload) (s : State) → IsReady s → Ensures IsReady (receive cfg p s)
    unfolding receive handle_large_block_message handle_small_block_message handle_pointer_message
    receive-IsReady (block_message m) s h =
        if_ind (Ensures IsReady) (m.is_large && is_in cfg.node_id cfg.committee) _ _
          (λ e. save_large-IsReady m s (get_elem? s.large_pb.vec m.sender) h)
          (λ e. save_small-IsReady m s (get_elem? s.small_pb.vec m.sender) h)
    receive-IsReady (committee_message m) s h =
        handle_committee_message-IsReady m
          (record s { large_block_chan = s.large_block_chan ++ m.pre_block ∷ [] })
          (record { small = h.small; noticed = h.noticed; pointed = h.pointed })
    receive-IsReady (pointer_message m) s h = first_pointer-IsReady m s.ptr s h
    receive-IsReady (pre_block_message m) s h = record {
      small = h.small;
      noticed = h.noticed;
      pointed = h.pointed;
    }
    receive-IsReady (decryption_message m) s h = record {
      small = h.small;
      noticed = h.noticed;
      pointed = h.pointed;
    }

    listen-IsReady :
        (ps : List Payload) (r : Run State)
        → Ensures IsReady r
        → Ensures IsReady (r >>= listen cfg ps)
    unfolding listen
    listen-IsReady ps panic h = tt
    listen-IsReady [] (ok s) h = h
    listen-IsReady (p ∷ ps) (ok s) h = listen-IsReady ps (receive cfg p s) (receive-IsReady p s h)

    initial-IsReady : IsReady (initial cfg)
    unfolding initial
    initial-IsReady = record { small = inl refl; noticed = inl refl; pointed = inl refl }

    -- The listener keeps that.
    pub listened-IsReady :
        (ps : List Payload) {s : State} → listen cfg ps (initial cfg) ≡ ok s → IsReady s
    listened-IsReady ps {s} e =
        Ensures-ok IsReady (listen cfg ps (initial cfg)) s
          (listen-IsReady ps (ok (initial cfg)) initial-IsReady) e
