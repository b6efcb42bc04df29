-- ===== src/Broadcast/Invariant/Rounds.antt =====
-- The invariant over whole rounds of `Run`, against the history of messages.
use upgrade.Prelude.{
  ℕ, ◌<◌, ◌≤◌, ◌+◌, ◌≡◌, refl, Bytes, Bool, true, ◌&&◌, Option, none, some, List, [], ◌∷◌, nat_eq,
  nat_beq_iff, bytes_eq, All, if_ind, bytes_beq_iff, arith, ok, Ensures, Ensures-ok, count_below,
  count_below_mono, All-map,
}
use upgrade.Crypto.{Crypto}
use upgrade.Message.{Message}
use upgrade.Block.{BlockShare, share_hash}
use upgrade.Broadcast.Heard.{Counts-mono, heard, says, vouches, IsFrom, status_beq_refl}
use upgrade.Broadcast.Invariant.Defs.{Inv, IsBacked, initial-Inv}
use upgrade.Broadcast.Invariant.Handlers.{
  multicast-Inv, handle_val-Inv, handle_echo-Inv, handle_ready-Inv, echo_committee-Inv,
  handle_committee_message-Inv, multicast_committee_message-Inv,
}
use upgrade.Broadcast.{
  Status, val, echo, ready, other, BMessage, CMessage, Payload, bracha, committee_message,
  sender_message, Config, State, is_valid_committee_message, is_in, dispatch_status, handle_bracha,
  handle_cmessage, handle, release, loop_head, step, boot, bmessage, start, run, initial,
  multicast_val, multicast_to_committee, is_sender,
}

module _ ⦃c : Crypto⦄ (cfg : Config) where
  -- The three tests of a history: who echoed, who sent READY, who vouched.
  abbrev pub echoed : List (Message Payload) → Bytes → ℕ → Bool
  echoed ms h i = heard (says echo h i) ms

  abbrev pub readied : List (Message Payload) → Bytes → ℕ → Bool
  readied ms h i = heard (says ready h i) ms

  abbrev pub vouched : List (Message Payload) → Bytes → ℕ → Bool
  vouched ms h i = heard (vouches cfg h i) ms

  module _ (e r v : Bytes → ℕ → Bool) where
    dispatch_status-Inv :
        (st : Status) (m : BMessage) (s : State)
        → m.sender < cfg.n
        → (st ≡ echo → e (c.sha256 m.value) m.sender ≡ true)
        → (st ≡ ready → r (c.sha256 m.value) m.sender ≡ true)
        → Inv cfg e r v s
        → Inv cfg e r v (dispatch_status cfg st m s)
    unfolding dispatch_status
    dispatch_status-Inv val m s l he hr i = handle_val-Inv cfg e r v m s i
    dispatch_status-Inv echo m s l he hr i = handle_echo-Inv cfg e r v m s l (he refl) i
    dispatch_status-Inv ready m s l he hr i = handle_ready-Inv cfg e r v m s l (hr refl) i
    dispatch_status-Inv other m s l he hr i = i

    -- What the maps may count after the message has been handled.
    abbrev pub Covers : Payload → Type 0
    Covers (bracha m) =
        (m.status ≡ echo → e (c.sha256 m.value) m.sender ≡ true)
        × (m.status ≡ ready → r (c.sha256 m.value) m.sender ≡ true)
    Covers (committee_message m) =
        is_valid_committee_message cfg m ≡ true → v m.hash m.sender ≡ true
    Covers (sender_message m) = Unit

    handle-Inv :
        (p : Payload) (s : State)
        → IsFrom cfg.n p
        → Covers p
        → Inv cfg e r v s
        → Inv cfg e r v (handle cfg p s)
    unfolding handle handle_bracha handle_cmessage
    handle-Inv (bracha m) s l h i =
        if_ind (Inv cfg e r v) s.broadcast_done _ _ (λ done. i)
          (λ open_. dispatch_status-Inv m.status m s l h.0 h.1 i)
    handle-Inv (committee_message m) s l h i =
        if_ind (Inv cfg e r v) (is_valid_committee_message cfg m) _ _
          (λ valid.
            let j =
              handle_committee_message-Inv cfg e r v m _ l (h valid) (same valid)
                (echo_committee-Inv cfg e r v m s i) in
            record {
              echoes = j.echoes;
              readies = j.readies;
              vouchers = j.vouchers;
              backed = j.backed;
              delivered = j.delivered;
              outputs = j.outputs;
              ready_once = j.ready_once;
              echo_once = j.echo_once;
            })
          (λ invalid. i)
      where
        same : is_valid_committee_message cfg m ≡ true → share_hash m.value ≡ m.hash
        same valid =
            (bytes_beq_iff (share_hash m.value) m.hash).0
              (unfold is_valid_committee_message in ground arith)
    handle-Inv (sender_message m) s l h i = record {
      echoes = i.echoes;
      readies = i.readies;
      vouchers = i.vouchers;
      backed = i.backed;
      delivered = i.delivered;
      outputs = i.outputs;
      ready_once = i.ready_once;
      echo_once = i.echo_once;
    }

    release-Inv :
        (o : Option BlockShare) (s : State) → Inv cfg e r v s → Inv cfg e r v (release cfg o s)
    unfolding release
    release-Inv none s i = i
    release-Inv (some b) s i =
        if_ind (Inv cfg e r v)
          (s.sender_sent && (s.broadcast_done && is_in cfg.node_id cfg.committee)) _ _
          (λ h. multicast_committee_message-Inv cfg e r v b s (ground arith) i) (λ h. i)

    step-Inv :
        (p : Payload) (s : State)
        → IsFrom cfg.n p
        → Covers p
        → Inv cfg e r v s
        → Inv cfg e r v (step cfg p s)
    unfolding step loop_head
    step-Inv p s l h i =
        if_ind (Inv cfg e r v) s.returned _ _ (λ _. i)
          (λ _.
            if_ind (Inv cfg e r v) (handle cfg p s).returned _ _ (λ _. handle-Inv p s l h i)
              (λ _. release-Inv (handle cfg p s).sender_value _ (handle-Inv p s l h i)))

    -- More hearsay keeps the invariant.
    module _ (e' r' v' : Bytes → ℕ → Bool) (he : (h : Bytes) (i : ℕ) → e h i ≡ true → e' h i ≡ true)
        (hr : (h : Bytes) (i : ℕ) → r h i ≡ true → r' h i ≡ true)
        (hv : (h : Bytes) (i : ℕ) → v h i ≡ true → v' h i ≡ true) where
      IsBacked-mono : (p : Payload) → IsBacked cfg e r v p → IsBacked cfg e' r' v' p
      IsBacked-mono (bracha m) b =
          let h = c.sha256 m.value in
          λ x. ground (
            arith,
            b x,
            count_below_mono cfg.n (e h) (e' h) (λ j _. he h j),
            count_below_mono cfg.n (r h) (r' h) (λ j _. hr h j),
          )
      IsBacked-mono (committee_message m) b =
          let h = c.sha256 m.hash in
          (b.0, omega (arith, b.1, count_below_mono cfg.n (r h) (r' h) (λ j _. hr h j)))
      IsBacked-mono (sender_message m) b = tt

      Inv-mono : (s : State) → Inv cfg e r v s → Inv cfg e' r' v' s
      Inv-mono s i = record {
        echoes = Counts-mono cfg.n e e' s.echo_received he i.echoes;
        readies = Counts-mono cfg.n r r' s.ready_received hr i.readies;
        vouchers = Counts-mono cfg.n v v' s.committee_received hv i.vouchers;
        backed =
            All-map (λ m. IsBacked cfg e r v m.payload) (λ m. IsBacked cfg e' r' v' m.payload)
              (λ m. IsBacked-mono m.payload) s.sent i.backed;
        delivered = λ d. omega (
          arith,
          i.delivered d,
          count_below_mono cfg.n (r (c.sha256 s.broadcast_value)) (r' (c.sha256 s.broadcast_value))
              (λ j _. hr (c.sha256 s.broadcast_value) j),
        );
        outputs =
            All-map _ (λ b. cfg.tk + 1 ≤ count_below cfg.n (v' (share_hash b)))
              (λ b h. omega (
                arith,
                h,
                count_below_mono cfg.n (v (share_hash b)) (v' (share_hash b))
                    (λ j _. hv (share_hash b) j),
              ))
              s.out i.outputs;
        ready_once = i.ready_once;
        echo_once = i.echo_once;
      }

  -- The invariant against a history.
  abbrev pub HistoryInv : List (Message Payload) → State → Type 0
  HistoryInv ms = Inv cfg (echoed ms) (readied ms) (vouched ms)

  heard-cons :
      (f : Payload → Bool) (m : Message Payload) (ms : List (Message Payload))
      → heard f ms ≡ true
      → heard f (m ∷ ms) ≡ true
  unfolding heard
  heard-cons f m ms h = ground arith

  heard-head :
      (f : Payload → Bool) (m : Message Payload) (ms : List (Message Payload))
      → f m.payload ≡ true
      → heard f (m ∷ ms) ≡ true
  unfolding heard
  heard-head f m ms h = ground arith

  says_self :
      (st : Status) (b : BMessage)
      → b.status ≡ st
      → says st (c.sha256 b.value) b.sender (bracha b) ≡ true
  says_self st b q =
      rw (q, status_beq_refl st, (bytes_beq_iff (c.sha256 b.value) (c.sha256 b.value)).1 refl)
        ((nat_beq_iff b.sender b.sender).1 refl)

  vouches_self :
      (b : CMessage)
      → is_valid_committee_message cfg b ≡ true
      → vouches cfg b.hash b.sender (committee_message b) ≡ true
  vouches_self b q =
      rw (q, (bytes_beq_iff b.hash b.hash).1 refl) ((nat_beq_iff b.sender b.sender).1 refl)

  head-Covers :
      (p : Payload) (m : ℕ) (ms : List (Message Payload))
      → let now = record { sender = m; payload = p } ∷ ms in
        Covers (echoed now) (readied now) (vouched now) p
  head-Covers (bracha b) m ms = (
    (λ x. heard-head (says echo (c.sha256 b.value) b.sender) _ ms (says_self echo b x)),
    (λ x. heard-head (says ready (c.sha256 b.value) b.sender) _ ms (says_self ready b x)),
  )
  head-Covers (committee_message b) m ms =
      λ x. heard-head (vouches cfg b.hash b.sender) _ ms (vouches_self b x)
  head-Covers (sender_message b) m ms = tt

  -- The claimed senders of a history are nodes.
  abbrev pub AreNodes : List (Message Payload) → Type 0
  AreNodes ms = All (λ m. IsFrom cfg.n m.payload) ms

  run-HistoryInv :
      (s : State) (ms : List (Message Payload))
      → HistoryInv [] s
      → AreNodes ms
      → HistoryInv ms (run cfg s ms)
  unfolding run
  run-HistoryInv s [] i nodes = i
  run-HistoryInv s (m ∷ ms) i nodes =
      step-Inv (echoed (m ∷ ms)) (readied (m ∷ ms)) (vouched (m ∷ ms)) m.payload (run cfg s ms)
        nodes.0 (head-Covers m.payload m.sender ms)
        (Inv-mono (echoed ms) (readied ms) (vouched ms) (echoed (m ∷ ms)) (readied (m ∷ ms))
          (vouched (m ∷ ms)) (λ h i. heard-cons (says echo h i) m ms)
          (λ h i. heard-cons (says ready h i) m ms) (λ h i. heard-cons (vouches cfg h i) m ms)
          (run cfg s ms) (run-HistoryInv s ms i nodes.1))

  boot-HistoryInv : (b : BlockShare) → HistoryInv [] (boot cfg b)
  unfolding boot multicast_val multicast_to_committee loop_head
  boot-HistoryInv b = release-Inv (echoed []) (readied []) (vouched []) _ _ (
      if_ind (HistoryInv []) (is_sender cfg) _ _
        (λ _.
          multicast-Inv cfg _ _ _ (bmessage cfg val (share_hash b)) _ (λ x. absurd (cc x)) refl refl
            (multicast-Inv cfg _ _ _ _ _ tt refl refl (initial-Inv cfg _ _ _)))
        (λ _. initial-Inv cfg _ _ _))

  start-Ensures : (o : Option BlockShare) → Ensures (HistoryInv []) (start cfg o)
  unfolding start loop_head
  start-Ensures none =
      if_ind (Ensures (HistoryInv [])) (is_sender cfg) _ _ (λ _. tt)
        (λ _.
          release-Inv (echoed []) (readied []) (vouched []) initial.sender_value initial
            (initial-Inv cfg _ _ _))
  start-Ensures (some b) = boot-HistoryInv b

  -- Whatever messages from nodes a node receives, its state satisfies the invariant.
  pub run-boot-HistoryInv :
      (b : BlockShare) (ms : List (Message Payload))
      → AreNodes ms
      → HistoryInv ms (run cfg (boot cfg b) ms)
  run-boot-HistoryInv b ms = run-HistoryInv (boot cfg b) ms (boot-HistoryInv b)

  pub run-start-HistoryInv :
      (o : Option BlockShare) (s : State) (ms : List (Message Payload))
      → start cfg o ≡ ok s
      → AreNodes ms
      → HistoryInv ms (run cfg s ms)
  run-start-HistoryInv o s ms q =
      run-HistoryInv s ms (Ensures-ok (HistoryInv []) (start cfg o) s (start-Ensures o) q)
