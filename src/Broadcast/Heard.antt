-- ===== src/Broadcast/Heard.antt =====
-- What a node has heard, read off the messages it received, and the maps of `Run` against it.
use upgrade.Prelude.{
  ℕ, ◌<◌, ◌≤◌, ◌+◌, ◌≡◌, refl, Bytes, Bool, true, false, ◌&&◌, ◌||◌, List, [], ◌∷◌, ◌==◌, nat_eq,
  bytes_eq, lookup, insert, lookup-insert, IsMap, insert-IsMap, AllEntries, AllEntries-insert,
  AllEntries-map, length, length-le-count, count_below, Bool-cases, inl, inr, bytes_beq_iff, arith,
  if◌then◌else◌, subst,
}
use upgrade.Crypto.{Crypto}
use upgrade.Message.{Message}
use upgrade.Broadcast.{
  Status, val, echo, ready, other, Received, senders, record_sender, Payload, bracha,
  committee_message, sender_message, Config, is_valid_committee_message,
}

abbrev pub status_beq : Status → Status → Bool
status_beq val val = true
status_beq echo echo = true
status_beq ready ready = true
status_beq other other = true
status_beq _ _ = false

pub status_beq_refl : (s : Status) → status_beq s s ≡ true
status_beq_refl val = refl
status_beq_refl echo = refl
status_beq_refl ready = refl
status_beq_refl other = refl

module _ ⦃c : Crypto⦄ where
  -- The payload is a Bracha message of this status from node `i`, on a value with hash `h`.
  abbrev pub says : Status → Bytes → ℕ → Payload → Bool
  says st h i (bracha m) = (status_beq m.status st && (c.sha256 m.value == h)) && (m.sender == i)
  says st h i (committee_message m) = false
  says st h i (sender_message m) = false

  -- The payload is a valid committee message from node `i` on the hash `h`.
  abbrev pub vouches : Config → Bytes → ℕ → Payload → Bool
  vouches cfg h i (bracha m) = false
  vouches cfg h i (committee_message m) =
      (is_valid_committee_message cfg m && (m.hash == h)) && (m.sender == i)
  vouches cfg h i (sender_message m) = false

  -- The claimed sender of a message, for the two kinds of message that are counted.
  abbrev pub IsFrom : ℕ → Payload → Type 0
  IsFrom n (bracha m) = m.sender < n
  IsFrom n (committee_message m) = m.sender < n
  IsFrom n (sender_message m) = Unit

-- Some message of the history satisfies the test.
unfoldable pub heard : {P : Type 0} → (P → Bool) → List (Message P) → Bool
heard f [] = false
heard f (m ∷ ms) = f m.payload || heard f ms

unfoldable pub count_messages : {P : Type 0} → (P → Bool) → List (Message P) → ℕ
count_messages f [] = 0
count_messages f (m ∷ ms) = (if f m.payload then 1 else 0) + count_messages f ms

-- Every entry of the map of a hash is a node below `n` of which `p` holds, and stands once.
abbrev pub Counts : ℕ → (Bytes → ℕ → Bool) → Received → Type 0
Counts n p received =
    (h : Bytes)
    → IsMap (senders h received) × AllEntries (λ i _. (i < n) × (p h i ≡ true)) (senders h received)

pub Counts-empty : (n : ℕ) (p : Bytes → ℕ → Bool) → Counts n p []
unfolding lookup
Counts-empty n p h = (tt, tt)

pub Counts-mono :
    (n : ℕ) (p q : Bytes → ℕ → Bool) (received : Received)
    → ((h : Bytes) (i : ℕ) → p h i ≡ true → q h i ≡ true)
    → Counts n p received
    → Counts n q received
Counts-mono n p q received f k h = (
  (k h).0,
  AllEntries-map (λ i _. (i < n) × (p h i ≡ true)) (λ i _. (i < n) × (q h i ≡ true))
      (λ i _ a. (a.0, f h i a.1)) (senders h received) (k h).1,
)

senders-record :
    (h g : Bytes) (i : ℕ) (received : Received)
    → senders g (record_sender h i received)
      ≡ (if h == g then insert i true (senders h received) else senders g received)
unfolding record_sender
senders-record h g i received =
    ground (arith, lookup-insert h g (insert i true (senders h received)) received)

-- Recording a sender that `p` holds of keeps the counts right.
pub record_sender-Counts :
    (n : ℕ) (p : Bytes → ℕ → Bool) (h : Bytes) (i : ℕ) (received : Received)
    → i < n
    → p h i ≡ true
    → Counts n p received
    → Counts n p (record_sender h i received)
record_sender-Counts n p h i received l e k g = elim (Bool-cases (h == g)) [
  | inl same ↦
      let q = (bytes_beq_iff h g).0 same in
      rw (senders-record h g i received, same)
        (
          insert-IsMap i true (senders h received) (k h).0,
          subst
              (λ x.
                AllEntries (λ j _. (j < n) × (p x j ≡ true)) (insert i true (senders h received)))
              q
              (AllEntries-insert (λ j _. (j < n) × (p h j ≡ true)) i true (senders h received)
                (λ j r. rw r (l, e)) (k h).1),
        )
  | inr differ ↦ rw (senders-record h g i received, differ) (k g)
]

-- A threshold that a map meets is met by the nodes of which `p` holds.
pub Counts-count :
    (n : ℕ) (p : Bytes → ℕ → Bool) (h : Bytes) (received : Received)
    → Counts n p received
    → length (senders h received) ≤ count_below n (p h)
Counts-count n p h received k = length-le-count n (p h) (senders h received) (k h).0 (k h).1
