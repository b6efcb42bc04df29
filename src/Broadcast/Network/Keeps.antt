-- ===== src/Broadcast/Network/Keeps.antt =====
-- A node never unsends a message.
use upgrade.Prelude.{
  ℕ, Bytes, Bool, not, ◌&&◌, Option, none, some, IsIn, IsIn-append_left, leb, length, if_ind, ◌==◌,
  bytes_eq, ◌+◌, ◌-◌,
}
use upgrade.Crypto.{Crypto}
use upgrade.Message.{Message}
use upgrade.Block.{BlockShare, share_hash}
use upgrade.Broadcast.{
  Status, val, echo, ready, other, BMessage, Payload, bracha, committee_message, sender_message,
  Config, State, multicast, multicast_echo, multicast_ready, multicast_committee_message,
  handle_val, handle_echo, amplify, deliver, handle_ready, handle_committee_message,
  is_valid_committee_message, is_in, dispatch_status, handle_bracha, echo_committee,
  handle_cmessage, handle, release, loop_head, step, record_sender, senders,
}

module _ ⦃c : Crypto⦄ (cfg : Config) (x : Message Payload) where
  abbrev HasSent : State → Type 0
  HasSent s = IsIn x s.sent

  multicast-HasSent : (p : Payload) (s : State) → HasSent s → HasSent (multicast cfg p s)
  multicast-HasSent p s h = IsIn-append_left x s.sent _ h

  multicast_committee_message-HasSent :
      (b : BlockShare) (v : Bytes) (s : State)
      → HasSent s
      → HasSent (multicast_committee_message cfg b v s)
  unfolding multicast_committee_message
  multicast_committee_message-HasSent b v s h =
      if_ind HasSent (share_hash b == v) _ _ (λ _. multicast-HasSent (committee_message _) s h)
        (λ _. h)

  amplify-HasSent : (m : BMessage) (k : ℕ) (s : State) → HasSent s → HasSent (amplify cfg m k s)
  unfolding amplify multicast_ready
  amplify-HasSent m k s h =
      if_ind HasSent (leb (cfg.t + 1) k && not s.ready) _ _ (λ _. IsIn-append_left x s.sent _ h)
        (λ _. h)

  deliver-HasSent : (m : BMessage) (k : ℕ) (s : State) → HasSent s → HasSent (deliver cfg m k s)
  unfolding deliver
  deliver-HasSent m k s h = if_ind HasSent (leb (cfg.n - cfg.t) k) _ _ (λ _. h) (λ _. h)

  dispatch_status-HasSent :
      (st : Status) (m : BMessage) (s : State) → HasSent s → HasSent (dispatch_status cfg st m s)
  unfolding dispatch_status handle_val handle_echo handle_ready multicast_echo multicast_ready
  dispatch_status-HasSent val m s h =
      if_ind HasSent (not s.initial_val) _ _ (λ _. IsIn-append_left x s.sent _ h) (λ _. h)
  dispatch_status-HasSent echo m s h =
      if_ind HasSent
        (leb (cfg.n - cfg.t) (
            length (
              senders (c.sha256 m.value)
                (record_sender (c.sha256 m.value) m.sender s.echo_received)))
          && not s.ready)
        _ _ (λ _. IsIn-append_left x s.sent _ h) (λ _. h)
  dispatch_status-HasSent ready m s h = deliver-HasSent m _ _ (amplify-HasSent m _ _ h)
  dispatch_status-HasSent other m s h = h

  handle-HasSent : (p : Payload) (s : State) → HasSent s → HasSent (handle cfg p s)
  unfolding handle handle_bracha handle_cmessage echo_committee handle_committee_message
  handle-HasSent (bracha m) s h =
      if_ind HasSent s.broadcast_done _ _ (λ _. h) (λ _. dispatch_status-HasSent m.status m s h)
  handle-HasSent (committee_message m) s h =
      if_ind HasSent (is_valid_committee_message cfg m) _ _
        (λ _. if_ind (λ (r : State × Bool). HasSent r.0) _ _ _ (λ _. echoed) (λ _. echoed)) (λ _. h)
    where
      echoed : HasSent (echo_committee cfg m s)
      echoed =
          if_ind HasSent (s.broadcast_done && is_in cfg.node_id cfg.committee) _ _
            (λ _. multicast_committee_message-HasSent m.value s.broadcast_value s h) (λ _. h)
  handle-HasSent (sender_message m) s h = h

  release-HasSent : (o : Option BlockShare) (s : State) → HasSent s → HasSent (release cfg o s)
  unfolding release
  release-HasSent none s h = h
  release-HasSent (some b) s h =
      if_ind HasSent _ _ _ (λ _. multicast_committee_message-HasSent b s.broadcast_value s h)
        (λ _. h)

  -- What has been sent stays sent in the next round.
  pub step-HasSent : (p : Payload) (s : State) → IsIn x s.sent → IsIn x (step cfg p s).sent
  unfolding step loop_head
  step-HasSent p s h =
      if_ind HasSent s.returned _ _ (λ _. h)
        (λ _.
          if_ind HasSent (handle cfg p s).returned _ _ (λ _. handle-HasSent p s h)
            (λ _. release-HasSent (handle cfg p s).sender_value _ (handle-HasSent p s h)))
