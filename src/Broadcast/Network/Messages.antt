-- ===== src/Broadcast/Network/Messages.antt =====
-- Messages that were heard, sent or echoed, found in the lists that hold them.
use upgrade.Prelude.{
  ℕ, ◌≤◌, ◌≡◌, refl, sym, ap, ◌∙◌, Bytes, Bool, true, false, List, [], ◌∷◌, IsIn, nat_eq, bytes_eq,
  bytes_beq_iff, nat_beq_iff, Bool-cases, inl, inr, arith,
}
use mathlib.Core.Bool.{false≢true}
use upgrade.Crypto.{Crypto}
use upgrade.Message.{Message}
use upgrade.Broadcast.Heard.{heard, says, status_beq, count_messages}
use upgrade.Broadcast.Invariant.{is_echo}
use upgrade.Broadcast.Network.{Claims}
use upgrade.Broadcast.{Status, echo, BMessage, Payload, bracha, committee_message, sender_message}

module _ ⦃c : Crypto⦄ where
  pub heard-IsIn :
      (f : Payload → Bool) (m : Message Payload) (ms : List (Message Payload))
      → f m.payload ≡ true
      → IsIn m ms
      → heard f ms ≡ true
  unfolding heard
  heard-IsIn f m [] e i = absurd i
  heard-IsIn f m (x ∷ ms) e (inl q) = rw (← q, e)
  heard-IsIn f m (x ∷ ms) e (inr i) = ground (arith, heard-IsIn f m ms e i)

  -- A heard message stands in the history.
  pub heard-find :
      (f : Payload → Bool) (ms : List (Message Payload))
      → heard f ms ≡ true
      → (m : Message Payload) × IsIn m ms × (f m.payload ≡ true)
  unfolding heard
  heard-find f [] e = absurd (cc e)
  heard-find f (x ∷ ms) e = elim (Bool-cases (f x.payload)) [
    | inl hit ↦ (x, inl refl, hit)
    | inr miss ↦ let (m, i, h) = heard-find f ms (ground arith) in (m, inr i, h)
  ]

  pub says-Claims :
      (st : Status) (g : Bytes) (j : ℕ) (p : Payload) → says st g j p ≡ true → Claims j p
  says-Claims st g j (bracha m) e = ground (arith, nat_beq_iff m.sender j)
  says-Claims st g j (committee_message m) e = absurd (cc e)
  says-Claims st g j (sender_message m) e = absurd (cc e)

  pub says-hash :
      (st : Status) (g : Bytes) (j : ℕ) (m : BMessage)
      → says st g j (bracha m) ≡ true
      → (m.status ≡ st) × (c.sha256 m.value ≡ g)
  says-hash st g j m e = (status m.status st (ground arith), (bytes_beq_iff _ _).0 (ground arith))
    where
      status : (a b : Status) → status_beq a b ≡ true → a ≡ b
      status a b h = ground arith

  pub says_echo-is_echo :
      (g : Bytes) (j : ℕ) (p : Payload) → says echo g j p ≡ true → is_echo p ≡ true
  says_echo-is_echo g j (bracha m) e = ap status_echo (says-hash echo g j m e).0
    where
      status_echo : Status → Bool
      status_echo st = elim st [ echo ↦ true | _ ↦ false ]
  says_echo-is_echo g j (committee_message m) e = absurd (false≢true e)
  says_echo-is_echo g j (sender_message m) e = absurd (false≢true e)

  says-same :
      (st : Status) (g g' : Bytes) (j : ℕ) (p : Payload)
      → says st g j p ≡ true
      → says st g' j p ≡ true
      → g ≡ g'
  says-same st g g' j (bracha m) e e' = sym (says-hash st g j m e).1 ∙ (says-hash st g' j m e').1
  says-same st g g' j (committee_message m) e e' = absurd (false≢true e)
  says-same st g g' j (sender_message m) e e' = absurd (false≢true e)

  heard-count :
      (g : Bytes) (j : ℕ) (ms : List (Message Payload))
      → heard (says echo g j) ms ≡ true
      → 1 ≤ count_messages is_echo ms
  unfolding heard count_messages
  heard-count g j [] e = absurd (false≢true e)
  heard-count g j (m ∷ ms) e = ground (arith, says_echo-is_echo g j m.payload, heard-count g j ms)

  -- Two echoes of a node that echoes once are on one value.
  pub echoed_one :
      (g g' : Bytes) (j : ℕ) (ms : List (Message Payload))
      → count_messages is_echo ms ≤ 1
      → heard (says echo g j) ms ≡ true
      → heard (says echo g' j) ms ≡ true
      → g ≡ g'
  unfolding heard count_messages
  echoed_one g g' j [] k e e' = absurd (false≢true e)
  echoed_one g g' j (m ∷ ms) k e e' = ground (
    arith,
    says-same echo g g' j m.payload,
    says_echo-is_echo g j m.payload,
    says_echo-is_echo g' j m.payload,
    heard-count g j ms,
    heard-count g' j ms,
    echoed_one g g' j ms,
  )
