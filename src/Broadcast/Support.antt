-- ===== src/Broadcast/Support.antt =====
-- What one node of the broadcast guarantees by itself, over every history of messages from nodes.
use upgrade.Prelude.{
  ℕ, ◌≤◌, ◌+◌, ◌-◌, ◌≡◌, Option, List, IsIn, All-IsIn, count_below, ok, ◌⊎◌, true, arith,
}
use upgrade.Crypto.{Crypto}
use upgrade.Message.{Message}
use upgrade.Block.{BlockShare, share_hash}
use upgrade.Broadcast.Heard.{count_messages}
use upgrade.Broadcast.Invariant.{
  IsBacked, HistoryInv, AreNodes, echoed, readied, vouched, is_ready, is_echo, run-start-HistoryInv,
}
use upgrade.Broadcast.{Payload, bracha, ready, BMessage, Config, State, start, run}

module _ ⦃c : Crypto⦄ (cfg : Config) (o : Option BlockShare) (s : State)
    (ms : List (Message Payload)) (started : start cfg o ≡ ok s) (nodes : AreNodes cfg ms) where
  inv : HistoryInv cfg ms (run cfg s ms)
  inv = run-start-HistoryInv cfg o s ms started nodes

  -- In a run on messages whose senders are nodes, a node sends READY only for a value that `n - t`
  -- distinct nodes echoed to it, or for which `t + 1` distinct nodes sent it READY.
  pub sent_ready_backed :
      (from : ℕ) (m : BMessage)
      → m.status ≡ ready
      → IsIn (record { sender = from; payload = bracha m }) (run cfg s ms).sent
      → (cfg.n - cfg.t ≤ count_below cfg.n (echoed cfg ms (c.sha256 m.value)))
        ⊎ (cfg.t + 1 ≤ count_below cfg.n (readied cfg ms (c.sha256 m.value)))
  sent_ready_backed from m is_ready sent =
      All-IsIn (λ m. IsBacked cfg (echoed cfg ms) (readied cfg ms) (vouched cfg ms) m.payload) _ _
        inv.backed sent is_ready

  -- In a run on messages whose senders are nodes, a node sends at most one READY and at most one
  -- ECHO.
  pub sends_once :
      (count_messages is_ready (run cfg s ms).sent ≤ 1)
      × (count_messages is_echo (run cfg s ms).sent ≤ 1)
  sends_once = ground (arith, inv.ready_once, inv.echo_once)

  -- In a run on messages whose senders are nodes, Bracha's broadcast delivers a value only if `n -
  -- t` distinct nodes sent READY for it.
  pub delivered_backed :
      (run cfg s ms).broadcast_done ≡ true
      → cfg.n - cfg.t ≤ count_below cfg.n (readied cfg ms (c.sha256 (run cfg s ms).broadcast_value))
  delivered_backed = inv.delivered

  -- In a run on messages whose senders are nodes, the protocol outputs a value only if `tk + 1`
  -- distinct committee members sent a valid committee message on its hash.
  pub output_backed :
      (b : BlockShare)
      → IsIn b (run cfg s ms).out
      → cfg.tk + 1 ≤ count_below cfg.n (vouched cfg ms (share_hash b))
  output_backed b =
      All-IsIn (λ b. cfg.tk + 1 ≤ count_below cfg.n (vouched cfg ms (share_hash b))) _ b inv.outputs
