-- ===== src/BinaryAgreement/Network.antt =====
-- One instance of binary agreement at all the nodes, under an asynchronous network: at any time the
-- main loop of a node may go on, or a node may receive, as often as the network likes, a message whose
-- claimed sender is faulty or has sent it. Faulty nodes are not limited otherwise.
pub mod Messages
pub mod Fixed
pub mod Settled
pub mod Agreement
pub mod Validity
use upgrade.Prelude.{
  ℕ, ◌<◌, ◌≡◌, Bool, true, false, List, [], ◌∷◌, IsIn, ◌==◌, nat_eq, if◌then◌else◌,
}
use upgrade.BinaryAgreement.{AbaMessage, Config, Sent, State, Event, receives, advances, run}

-- The parameters of the instance, the common coin of each round, which node is faulty, and the value
-- of each node.
pub record Network : Type 0 where
  pub n : ℕ
  pub t : ℕ
  pub coin : ℕ → ℕ
  pub value : ℕ → ℕ
  pub faulty : ℕ → Bool

abbrev pub config : Network → ℕ → Config
config net i = record { n = net.n; node_id = i; t = net.t; value = net.value i }

-- What each node has done, the newest first.
abbrev pub Histories : Type 0
Histories = ℕ → List Event

-- The state of a node after its history.
abbrev pub node : Network → Histories → ℕ → State
node net h i = run (config net i) net.coin (h i)

abbrev pub IsSent : AbaMessage → List Sent → Type 0
IsSent m xs = (x : Sent) × IsIn x xs × (x.message.payload ≡ m)

abbrev pub IsAuthentic : Network → Histories → Event → Type 0
IsAuthentic net h (receives m) =
    (m.sender < net.n) × (net.faulty m.sender ≡ false → IsSent m (node net h m.sender).sent)
IsAuthentic net h advances = Unit

abbrev pub extend : ℕ → Event → Histories → Histories
extend i ev h j = if i == j then ev ∷ h j else h j

pub data Reach (net : Network) : Histories → Type 0 where
  begin : Reach net (λ _. [])
  happens :
      {h : Histories}
      → Reach net h
      → (i : ℕ) (ev : Event) → IsAuthentic net h ev
      → Reach net (extend i ev h)
