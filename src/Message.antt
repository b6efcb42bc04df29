-- ===== src/Message.antt =====
-- utils/message.go: the envelope of every protocol message. The payload, an interface value in
-- the source, is a data type of each protocol.
use upgrade.Prelude.{ℕ}

pub record Message {ℓ} (A : Type ℓ) : Type ℓ where
  pub sender : ℕ
  pub payload : A
