-- ===== src/Tests/Subsets.antt =====
-- A common subset at one node, which is the committee.
use upgrade.Prelude.{
  ℕ, ◌≤◌, ◌≡◌, refl, Bytes, true, some, List, [], ◌∷◌, inl, IsIn, arith, lookup, insert, Run, ok,
  nat_eq, bytes_eq, ap,
}
use upgrade.Block.{BlockShare, share_hash}
use upgrade.CommonSubset.State.{
  AcsSignatureMessage, AcsCommitteeMessage, signature_message, committee_message, Config, State,
  initial,
}
use upgrade.CommonSubset.Conditions.{c_one}
use upgrade.CommonSubset.Commits.{hash_values, can_terminate}
use upgrade.CommonSubset.Events.{
  Event, rbc_output, check, on_acs_out, message, event_handler, run_from,
}
use upgrade.CommonSubset.Invariant.{count_commits, Certificate}
use upgrade.CommonSubset.Safety.{commits_once, outputs_certified}
use upgrade.CommonSubset.Agreement.{Covers, c_one_agreement, event_handler_returns}
use upgrade.Tests.Toy.{toy, share}

abbrev cfg : Config
cfg = record {
  n = 1;
  node_id = 0;
  t = 0;
  tk = 0;
  committee = (0, true) ∷ [];
  proof = 2;
  key_meta = 5;
  key_meta_c = 6;
  sk_c = 3;
}

abbrev commit : AcsCommitteeMessage
commit = record {
  sender = 0;
  values = some (share 9) ∷ [];
  hash = share_hash (share 9);
  sig_share = 3;
  proof = 2;
}

abbrev events : List Event
events = rbc_output 0 (share 9) ∷ check ∷ on_acs_out ∷ message (committee_message commit) ∷ []

abbrev final_run : Run State
final_run = run_from cfg events (initial cfg)

abbrev announced : AcsSignatureMessage
announced = record { sender = 0; hash = share_hash (share 9); sig = 1 ∷ [] }

abbrev final : State
final = record (initial cfg) {
  commit = true;
  acs_finished = some (share 9) ∷ [];
  signature = 1 ∷ [];
  received_hash = some (share_hash (share 9));
  rbc_vals = (0, share 9) ∷ [];
  rbc_done = 0 ∷ [];
  shares_received = (share_hash (share 9), (0, 3) ∷ []) ∷ [];
  rbc_waiting = [];
  sent = committee_message commit ∷ signature_message announced ∷ [];
  out = (some (share 9) ∷ []) ∷ [];
  returned = true;
}

runs : run_from cfg events (initial cfg) ≡ ok final
unfolding run_from initial lookup insert share_hash can_terminate
runs = refl

commits_once_example : count_commits final.sent ≤ 1
commits_once_example = commits_once cfg events runs

outputs_certified_example :
    (final.out ≡ (some (share 9) ∷ []) ∷ [])
    × ((hash : Bytes) × (signature : Bytes) × (hash_values (some (share 9) ∷ []) ≡ ok hash)
        × Certificate cfg hash signature
        × IsIn (signature_message (record { sender = 0; hash = hash; sig = signature })) final.sent)
outputs_certified_example = outputs_certified cfg events runs (inl refl)

picks : c_one cfg ((0, share 9) ∷ []) ≡ some (share 9)
unfolding c_one share_hash
picks = refl

one_output :
    (i : ℕ) (x y : BlockShare)
    → lookup i ((0, share 9) ∷ []) ≡ some x
    → lookup i ((0, share 9) ∷ []) ≡ some y
    → share_hash x ≡ share_hash y
one_output i x y a b = ap share_hash (ground (arith, a, b))

c_one_agreement_example : share_hash (share 9) ≡ share_hash (share 9)
c_one_agreement_example =
    c_one_agreement cfg cfg ((0, share 9) ∷ []) ((0, share 9) ∷ []) refl refl (omega arith) (tt, tt)
      (tt, tt) (omega arith, tt) (omega arith, tt) one_output picks picks

-- Instance 0 has output and is in the set.
abbrev with_one : State
with_one = record (initial cfg) { rbc_vals = (0, share 9) ∷ []; s = (0, true) ∷ [] }

covered : Covers with_one.rbc_vals with_one.s
unfolding lookup
covered i e = (share 9, ground (arith, e))

event_handler_returns_example : (result : State) × (event_handler cfg with_one ≡ ok result)
event_handler_returns_example = event_handler_returns cfg with_one covered
