-- ===== src/Broadcast/Network.antt =====
-- One broadcast instance at all the nodes, under an asynchronous network: any node may receive, at
-- any time and as often as the network likes, a message whose claimed sender is faulty or has sent
-- it. Faulty nodes are not limited otherwise.
pub mod Keeps
pub mod Messages
pub mod Later
pub mod Backed
pub mod Agreement
pub mod Outputs
use upgrade.Prelude.{
  ℕ, ◌<◌, ◌≡◌, Bytes, Bool, true, false, List, [], ◌∷◌, GoMap, IsIn, ◌==◌, nat_eq, if◌then◌else◌,
}
use upgrade.Crypto.{Crypto}
use upgrade.Message.{Message}
use upgrade.Block.{BlockShare}
use upgrade.Broadcast.Heard.{IsFrom}
use upgrade.Broadcast.{Payload, bracha, committee_message, sender_message, Config, State, boot, run}

module _ ⦃c : Crypto⦄ where
  -- The parameters of the instance, which node is faulty, and the value of each node.
  pub record Network : Type 0 where
    pub n : ℕ
    pub t : ℕ
    pub tk : ℕ
    pub sender_id : ℕ
    pub committee : GoMap ℕ Bool
    pub key_meta : c.KeyMeta
    pub proof : ℕ → c.SigShare
    pub value : ℕ → BlockShare
    pub faulty : ℕ → Bool

  abbrev pub config : Network → ℕ → Config
  config net i = record {
    n = net.n;
    node_id = i;
    t = net.t;
    tk = net.tk;
    sender_id = net.sender_id;
    committee = net.committee;
    proof = net.proof i;
    key_meta = net.key_meta;
  }

  -- What each node has received, the newest first.
  abbrev pub Histories : Type 0
  Histories = ℕ → List (Message Payload)

  -- The state of a node after its history.
  abbrev pub node : Network → Histories → ℕ → State
  node net h i = run (config net i) (boot (config net i) (net.value i)) (h i)

  -- The payload names this node as its sender.
  abbrev pub Claims : ℕ → Payload → Type 0
  Claims j (bracha m) = m.sender ≡ j
  Claims j (committee_message m) = m.sender ≡ j
  Claims j (sender_message m) = m.sender ≡ j

  abbrev pub IsAuthentic : Network → Histories → Message Payload → Type 0
  IsAuthentic net h m =
      IsFrom net.n m.payload
      × ((j : ℕ) → Claims j m.payload → net.faulty j ≡ false → IsIn m (node net h j).sent)

  abbrev pub deliver_to : ℕ → Message Payload → Histories → Histories
  deliver_to i m h j = if i == j then m ∷ h j else h j

  pub data Reach (net : Network) : Histories → Type 0 where
    begin : Reach net (λ _. [])
    receive :
        {h : Histories}
        → Reach net h
        → (i : ℕ) (m : Message Payload) → IsAuthentic net h m
        → Reach net (deliver_to i m h)
