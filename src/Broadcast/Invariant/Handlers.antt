-- ===== src/Broadcast/Invariant/Handlers.antt =====
-- Each handler of broadcast/broadcast.go keeps the invariant.
use upgrade.Prelude.{
  ℕ, ◌<◌, ◌≤◌, ◌+◌, ◌-◌, ◌≡◌, refl, sym, ◌∙◌, Bytes, Bool, true, false, not, ◌&&◌, [], ◌∷◌, ◌==◌,
  nat_eq, bytes_eq, All-append, length, leb, count_below, if_ind, inl, inr, ◌⊎◌, bytes_beq_iff,
  arith,
}
use upgrade.Crypto.{Crypto}
use upgrade.Block.{BlockShare, share_hash}
use upgrade.Broadcast.Heard.{Counts, Counts-count, record_sender-Counts, count_messages}
use upgrade.Broadcast.Invariant.Defs.{Inv, IsBacked, count_messages-append, is_ready, is_echo}
use upgrade.Broadcast.{
  BMessage, CMessage, Received, senders, record_sender, Payload, committee_message, Config, State,
  multicast, multicast_echo, multicast_ready, multicast_committee_message, handle_val, handle_echo,
  amplify, deliver, handle_ready, handle_committee_message, is_in, echo_committee,
}

module _ ⦃c : Crypto⦄ (cfg : Config) (e r v : Bytes → ℕ → Bool) where
  -- A backed message that is no READY and no ECHO may always be sent.
  pub multicast-Inv :
      (p : Payload) (s : State)
      → IsBacked cfg e r v p
      → is_ready p ≡ false
      → is_echo p ≡ false
      → Inv cfg e r v s
      → Inv cfg e r v (multicast cfg p s)
  unfolding count_messages
  multicast-Inv p s b nr ne i = record {
    echoes = i.echoes;
    readies = i.readies;
    vouchers = i.vouchers;
    backed = All-append (λ m. IsBacked cfg e r v m.payload) s.sent _ i.backed (b, tt);
    delivered = i.delivered;
    outputs = i.outputs;
    ready_once = ground (
      arith,
      i.ready_once,
      count_messages-append is_ready s.sent (record { sender = cfg.node_id; payload = p } ∷ []),
    );
    echo_once = ground (
      arith,
      i.echo_once,
      count_messages-append is_echo s.sent (record { sender = cfg.node_id; payload = p } ∷ []),
    );
  }

  -- The first READY may be sent when it is backed.
  pub multicast_ready-Inv :
      (m : BMessage) (s : State)
      → (cfg.n - cfg.t ≤ count_below cfg.n (e (c.sha256 m.value)))
        ⊎ (cfg.t + 1 ≤ count_below cfg.n (r (c.sha256 m.value)))
      → s.ready ≡ false
      → Inv cfg e r v s
      → Inv cfg e r v (multicast_ready cfg m (record s { ready = true }))
  unfolding multicast_ready count_messages
  multicast_ready-Inv m s b nr i = record {
    echoes = i.echoes;
    readies = i.readies;
    vouchers = i.vouchers;
    backed = All-append (λ m. IsBacked cfg e r v m.payload) s.sent _ i.backed ((λ _. b), tt);
    delivered = i.delivered;
    outputs = i.outputs;
    ready_once = count_messages-append is_ready s.sent _ ∙ ground (arith, i.ready_once);
    echo_once = count_messages-append is_echo s.sent _ ∙ ground (arith, i.echo_once);
  }

  pub handle_val-Inv :
      (m : BMessage) (s : State) → Inv cfg e r v s → Inv cfg e r v (handle_val cfg m s)
  unfolding handle_val multicast_echo count_messages
  handle_val-Inv m s i =
      if_ind (Inv cfg e r v) (not s.initial_val) _ _
        (λ new. record {
          echoes = i.echoes;
          readies = i.readies;
          vouchers = i.vouchers;
          backed =
              All-append (λ m. IsBacked cfg e r v m.payload) s.sent _ i.backed
                ((λ x. absurd (cc x)), tt);
          delivered = i.delivered;
          outputs = i.outputs;
          ready_once = count_messages-append is_ready s.sent _ ∙ ground (arith, i.ready_once);
          echo_once = count_messages-append is_echo s.sent _ ∙ ground (arith, i.echo_once);
        })
        (λ old. i)

  -- The state with new maps, where the maps count right.
  pub handle_echo-Inv :
      (m : BMessage) (s : State)
      → m.sender < cfg.n
      → e (c.sha256 m.value) m.sender ≡ true
      → Inv cfg e r v s
      → Inv cfg e r v (handle_echo cfg m s)
  unfolding handle_echo
  handle_echo-Inv m s l h i =
      if_ind (Inv cfg e r v) (leb (cfg.n - cfg.t) count && not s.ready) _ _
        (λ enough. multicast_ready-Inv m s' (inl (omega (arith, quorum enough))) (ground arith) i')
        (λ few. i')
    where
      received : Received
      received = record_sender (c.sha256 m.value) m.sender s.echo_received

      count : ℕ
      count = length (senders (c.sha256 m.value) received)

      s' : State
      s' = record s { echo_received = received }

      counted : Counts cfg.n e received
      counted =
          record_sender-Counts cfg.n e (c.sha256 m.value) m.sender s.echo_received l h i.echoes

      i' : Inv cfg e r v s'
      i' = record {
        echoes = counted;
        readies = i.readies;
        vouchers = i.vouchers;
        backed = i.backed;
        delivered = i.delivered;
        outputs = i.outputs;
        ready_once = i.ready_once;
        echo_once = i.echo_once;
      }

      quorum :
          (leb (cfg.n - cfg.t) count && not s.ready) ≡ true
          → cfg.n - cfg.t ≤ count_below cfg.n (e (c.sha256 m.value))
      quorum enough = ground (arith, Counts-count cfg.n e (c.sha256 m.value) received counted)

  pub amplify-Inv :
      (m : BMessage) (k : ℕ) (s : State)
      → k ≤ count_below cfg.n (r (c.sha256 m.value))
      → Inv cfg e r v s
      → Inv cfg e r v (amplify cfg m k s)
  unfolding amplify
  amplify-Inv m k s h i =
      if_ind (Inv cfg e r v) (leb (cfg.t + 1) k && not s.ready) _ _
        (λ enough. multicast_ready-Inv m s (inr (ground arith)) (ground arith) i) (λ few. i)

  pub deliver-Inv :
      (m : BMessage) (k : ℕ) (s : State)
      → k ≤ count_below cfg.n (r (c.sha256 m.value))
      → Inv cfg e r v s
      → Inv cfg e r v (deliver cfg m k s)
  unfolding deliver
  deliver-Inv m k s h i =
      if_ind (Inv cfg e r v) (leb (cfg.n - cfg.t) k) _ _
        (λ enough. record {
          echoes = i.echoes;
          readies = i.readies;
          vouchers = i.vouchers;
          backed = i.backed;
          delivered = λ _. ground arith;
          outputs = i.outputs;
          ready_once = i.ready_once;
          echo_once = i.echo_once;
        })
        (λ few. i)

  pub handle_ready-Inv :
      (m : BMessage) (s : State)
      → m.sender < cfg.n
      → r (c.sha256 m.value) m.sender ≡ true
      → Inv cfg e r v s
      → Inv cfg e r v (handle_ready cfg m s)
  unfolding handle_ready
  handle_ready-Inv m s l h i = deliver-Inv m count _ quorum (
      amplify-Inv m count _ quorum (record {
        echoes = i.echoes;
        readies = counted;
        vouchers = i.vouchers;
        backed = i.backed;
        delivered = i.delivered;
        outputs = i.outputs;
        ready_once = i.ready_once;
        echo_once = i.echo_once;
      }))
    where
      received : Received
      received = record_sender (c.sha256 m.value) m.sender s.ready_received

      count : ℕ
      count = length (senders (c.sha256 m.value) received)

      counted : Counts cfg.n r received
      counted =
          record_sender-Counts cfg.n r (c.sha256 m.value) m.sender s.ready_received l h i.readies

      quorum : count ≤ count_below cfg.n (r (c.sha256 m.value))
      quorum = Counts-count cfg.n r (c.sha256 m.value) received counted

  pub multicast_committee_message-Inv :
      (value : BlockShare) (s : State)
      → s.broadcast_done ≡ true
      → Inv cfg e r v s
      → Inv cfg e r v (multicast_committee_message cfg value s.broadcast_value s)
  unfolding multicast_committee_message
  multicast_committee_message-Inv value s d i =
      if_ind (Inv cfg e r v) (share_hash value == s.broadcast_value) _ _
        (λ same.
          multicast-Inv (committee_message _) s
            (sym ((bytes_beq_iff (share_hash value) s.broadcast_value).0 same), i.delivered d) refl
            refl i)
        (λ differ. i)

  pub echo_committee-Inv :
      (m : CMessage) (s : State) → Inv cfg e r v s → Inv cfg e r v (echo_committee cfg m s)
  unfolding echo_committee
  echo_committee-Inv m s i =
      if_ind (Inv cfg e r v) (s.broadcast_done && is_in cfg.node_id cfg.committee) _ _
        (λ h. multicast_committee_message-Inv m.value s (ground arith) i) (λ h. i)

  pub handle_committee_message-Inv :
      (m : CMessage) (s : State)
      → m.sender < cfg.n
      → v m.hash m.sender ≡ true
      → share_hash m.value ≡ m.hash
      → Inv cfg e r v s
      → Inv cfg e r v (handle_committee_message cfg m s).0
  unfolding handle_committee_message
  handle_committee_message-Inv m s l h same i =
      if_ind (λ (x : State × Bool). Inv cfg e r v x.0)
        (leb (cfg.tk + 1) (length (senders m.hash received))) _ _
        (λ enough. record {
          echoes = i.echoes;
          readies = i.readies;
          vouchers = counted;
          backed = i.backed;
          delivered = i.delivered;
          outputs = All-append _ s.out _ i.outputs (rw same (ground (arith, quorum)), tt);
          ready_once = i.ready_once;
          echo_once = i.echo_once;
        })
        (λ few. record {
          echoes = i.echoes;
          readies = i.readies;
          vouchers = counted;
          backed = i.backed;
          delivered = i.delivered;
          outputs = i.outputs;
          ready_once = i.ready_once;
          echo_once = i.echo_once;
        })
    where
      received : Received
      received = record_sender m.hash m.sender s.committee_received

      counted : Counts cfg.n v received
      counted = record_sender-Counts cfg.n v m.hash m.sender s.committee_received l h i.vouchers

      quorum : length (senders m.hash received) ≤ count_below cfg.n (v m.hash)
      quorum = Counts-count cfg.n v m.hash received counted
