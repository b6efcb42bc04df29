-- ===== src/Broadcast/Invariant/Defs.antt =====
-- The invariant of `Run`: the maps count nodes that were heard, and what the node sends or outputs
-- has the support that the protocol asks for.
use upgrade.Prelude.{
  ℕ, ◌≤◌, ◌+◌, ◌-◌, ◌≡◌, refl, Bytes, Bool, true, false, List, [], ◌∷◌, ◌++◌, All, count_below, ◌⊎◌,
  arith, if◌then◌else◌,
}
use upgrade.Crypto.{Crypto}
use upgrade.Message.{Message}
use upgrade.Block.{share_hash}
use upgrade.Broadcast.Heard.{Counts, Counts-empty, count_messages}
use upgrade.Broadcast.{
  echo, ready, Payload, bracha, committee_message, sender_message, Config, State, initial,
}

module _ ⦃c : Crypto⦄ where
  abbrev pub is_ready : Payload → Bool
  is_ready (bracha m) = elim m.status [ ready ↦ true | _ ↦ false ]
  is_ready (committee_message m) = false
  is_ready (sender_message m) = false

  abbrev pub is_echo : Payload → Bool
  is_echo (bracha m) = elim m.status [ echo ↦ true | _ ↦ false ]
  is_echo (committee_message m) = false
  is_echo (sender_message m) = false

pub count_messages-append :
    {P : Type 0} (f : P → Bool) (xs ys : List (Message P))
    → count_messages f (xs ++ ys) ≡ count_messages f xs + count_messages f ys
unfolding count_messages
count_messages-append f [] ys = omega arith
count_messages-append f (x ∷ xs) ys = omega (arith, count_messages-append f xs ys)

-- `e h i`: node `i` echoed a value with hash `h`. `r h i`: it sent READY for one. `v h i`: it is a
-- committee member that vouched for the hash `h`.
module _ ⦃c : Crypto⦄ (cfg : Config) (e r v : Bytes → ℕ → Bool) where
  -- READY wants `n - t` echoes or `t + 1` READYs on the same value; a committee message wants the
  -- hash of its value to have `n - t` READYs.
  abbrev pub IsBacked : Payload → Type 0
  IsBacked (bracha m) =
      m.status ≡ ready
      → (cfg.n - cfg.t ≤ count_below cfg.n (e (c.sha256 m.value)))
        ⊎ (cfg.t + 1 ≤ count_below cfg.n (r (c.sha256 m.value)))
  IsBacked (committee_message m) =
      (m.hash ≡ share_hash m.value) × (cfg.n - cfg.t ≤ count_below cfg.n (r (c.sha256 m.hash)))
  IsBacked (sender_message m) = Unit

  pub record Inv (s : State) : Type 0 where
    pub echoes : Counts cfg.n e s.echo_received
    pub readies : Counts cfg.n r s.ready_received
    pub vouchers : Counts cfg.n v s.committee_received
    pub backed : All (λ m. IsBacked m.payload) s.sent
    pub delivered :
        s.broadcast_done ≡ true → cfg.n - cfg.t ≤ count_below cfg.n (r (c.sha256 s.broadcast_value))
    pub outputs : All (λ b. cfg.tk + 1 ≤ count_below cfg.n (v (share_hash b))) s.out
    pub ready_once : count_messages is_ready s.sent ≡ (if s.ready then 1 else 0)
    pub echo_once : count_messages is_echo s.sent ≡ (if s.initial_val then 1 else 0)

  pub initial-Inv : Inv initial
  unfolding initial count_messages
  initial-Inv = record {
    echoes = Counts-empty cfg.n e;
    readies = Counts-empty cfg.n r;
    vouchers = Counts-empty cfg.n v;
    backed = tt;
    delivered = λ h. absurd (cc h);
    outputs = tt;
    ready_once = refl;
    echo_once = refl;
  }
