-- ===== src/Console.antt =====
-- pkg/console/cluster.go: what the console makes of the answers of the nodes. `sort.Slice` of the
-- values is written out.
pub mod Client
pub mod Cluster
pub mod Status
pub mod Waiting
pub mod Scenario
pub mod Settling
pub mod Runs
pub mod Tail
pub mod Served
pub mod Toggling
pub mod Scenarios
pub mod Converged
use interactive_paxos.Prelude.{
  ℕ, ℤ, pos, suc, ◌+◌, Bool, true, false, ◌||◌, ◌&&◌, ltb, leb, ltb_ℤ, ◌==◌, List, [], ◌∷◌, length,
  if◌then◌else◌,
}
use interactive_paxos.Quorum.{quorum_of}
use interactive_paxos.Node.{Decision}
use interactive_paxos.Fault
use interactive_paxos.Fault.{Floats}

-- The fields of `node.Snapshot` that `Status` reads.
pub record Snapshot (F : Type 0) : Type 0 where
  pub alive : Bool
  pub chaos : Bool
  pub decision : Decision
  pub faults : Fault.Config F

pub record NodeStatus (F : Type 0) : Type 0 where
  pub id : ℤ
  pub reachable : Bool
  pub snapshot : Snapshot F

-- `ClusterStatus`, less the answers themselves.
pub record ClusterStatus : Type 0 where
  pub reachable : ℕ
  pub alive : ℕ
  pub learned : ℕ
  pub values : List ℕ
  pub agreed : Bool
  pub disagreement : Bool
  pub settled_value : ℕ
  pub has_settled : Bool
  pub faults_present : Bool

abbrev pub no_status : ClusterStatus
no_status = record {
  reachable = 0;
  alive = 0;
  learned = 0;
  values = [];
  agreed = true;
  disagreement = false;
  settled_value = 0;
  has_settled = false;
  faults_present = false;
}

abbrev pub is_in : ℕ → List ℕ → Bool
is_in v [] = false
is_in v (w ∷ vs) = if v == w then true else is_in v vs

abbrev pub append_value : ℕ → List ℕ → List ℕ
append_value v [] = v ∷ []
append_value v (w ∷ vs) = w ∷ append_value v vs

-- The values so far, in the order in which they came; the map `seen` holds the same values.
unfoldable pub add_value : ℕ → List ℕ → List ℕ
add_value v vs = if is_in v vs then vs else append_value v vs

abbrev pub insert : ℕ → List ℕ → List ℕ
insert v [] = v ∷ []
insert v (w ∷ vs) = let rest = insert v vs in if leb v w then v ∷ w ∷ vs else w ∷ rest

unfoldable pub sort : List ℕ → List ℕ
sort [] = []
sort (v ∷ vs) = insert v (sort vs)

abbrev pub only_value : List ℕ → ℕ
only_value [] = 0
only_value (v ∷ vs) = v

-- The end of `Status`, over the sorted values.
unfoldable pub conclude : ℕ → ClusterStatus → ClusterStatus
conclude quorum out =
    if ltb 1 (length out.values)
    then record out { agreed = false; disagreement = true }
    else if length out.values == 1
    then record out { settled_value = only_value out.values; has_settled = leb quorum out.learned }
    else out

module _ {F : Type 0} (floats : Floats F) where
  -- `faultsActive`
  unfoldable pub faults_active : Snapshot F → Bool
  faults_active s =
      s.faults.isolated
      || s.chaos
      || floats.less_f floats.zero_f s.faults.drop_prepare
      || floats.less_f floats.zero_f s.faults.drop_accept
      || ltb_ℤ (pos 0) s.faults.latency_max
      || ltb 0 (length s.faults.blocked)

  -- One round of the loop over the answers of the nodes.
  unfoldable pub observe : NodeStatus F → ClusterStatus → ClusterStatus
  observe n out =
      let s = n.snapshot in
      if n.reachable
      then record out {
        reachable = out.reachable + 1;
        alive = if s.alive then out.alive + 1 else out.alive;
        learned = if s.decision.learned then out.learned + 1 else out.learned;
        values = if s.decision.learned then add_value s.decision.value out.values else out.values;
        faults_present = if faults_active s then true else out.faults_present;
      }
      else out

  unfoldable pub observe_all : List (NodeStatus F) → ClusterStatus → ClusterStatus
  observe_all [] out = out
  observe_all (n ∷ nodes) out = observe_all nodes (observe n out)

  -- `Status` of a cluster with one client for each node.
  unfoldable pub status : List (NodeStatus F) → ClusterStatus
  status nodes =
      let out = observe_all nodes no_status in
      conclude (quorum_of (length nodes)) (record out { values = sort out.values })
