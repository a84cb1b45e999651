-- ===== src/Console/Cluster.antt =====
-- pkg/console/cluster.go: the calls that the console makes to all nodes of a cluster, or to some.
-- The goroutines of a call run one after the other, in the order of the clients.
use interactive_paxos.Prelude.{
  ℕ, zero, suc, ℤ, pos, negsuc, ◌+◌, ◌+ℤ◌, ltb, ltb_ℤ, eqb_ℤ, Bool, true, false, ◌&&◌, ◌==◌, Error,
  wrap, ok, err, Option, none, some, List, [], ◌∷◌, if◌then◌else◌,
}
use interactive_paxos.Harness.Check.{sort_ids}
use interactive_paxos.Fault.{Floats, healthy}
use interactive_paxos.Node.{no_decision}
use interactive_paxos.Console.{Snapshot, NodeStatus, ClusterStatus, status}
use interactive_paxos.Console.Client.{World, Call, snapshot}

-- `NewCluster` of the ids of its targets: a client stands for its node.
abbrev pub new_cluster : List ℤ → List ℤ
new_cluster ids = sort_ids ids

-- `containsInt`
abbrev pub contains_int : List ℤ → ℤ → Bool
contains_int [] needle = false
contains_int (v ∷ vs) needle = if eqb_ℤ v needle then true else contains_int vs needle

-- The test of `each`: without ids, it is every client.
unfoldable pub is_addressed : List ℤ → ℤ → Bool
is_addressed [] id = true
is_addressed (i ∷ ids) id = contains_int (i ∷ ids) id

module _ {W : Type 0} where
  -- The errors of the goroutines of `each`.
  unfoldable pub each_error : List ℤ → List ℤ → (ℤ → Call W) → W → List Error × W
  unfolding is_addressed
  each_error ids [] fn w = ([], w)
  each_error ids (client ∷ clients) fn w =
      let (r, w') = if is_addressed ids client then fn client w else (none, w) in
      let (errs, w'') = each_error ids clients fn w' in
      (elim r [ none ↦ errs | some e ↦ e ∷ errs ], w'')

  -- `each`
  unfoldable pub each : List ℤ → List ℤ → (ℤ → Call W) → Call W
  unfolding each_error
  each clients ids fn w =
      let (errs, w') = each_error ids clients fn w in
      (elim errs [ [] ↦ none | e ∷ rest ↦ some (wrap "nodes failed" e) ], w')

-- The test of `WaitConverged`.
unfoldable pub has_converged : ClusterStatus → Bool
has_converged last = last.has_settled && last.learned == last.alive && ltb 0 last.alive

-- Turns of the loop that are enough for a timeout.
abbrev pub turns : ℤ → ℕ
turns (pos timeout) = timeout + 2
turns (negsuc timeout) = 2

module _ {F W : Type 0} (floats : Floats F) (world : World F W) where
  -- `node.Snapshot{}`
  abbrev pub no_snapshot : Snapshot F
  no_snapshot = record {
    alive = false;
    chaos = false;
    decision = no_decision;
    faults = healthy floats;
  }

  -- The goroutines of `Status`.
  unfoldable pub ask_all : List ℤ → W → List (NodeStatus F) × W
  unfolding snapshot
  ask_all [] w = ([], w)
  ask_all (id ∷ ids) w =
      let (r, w') = snapshot world id w in
      let (nodes, w'') = ask_all ids w' in
      (
        elim r [
          | err e ↦ record { id = id; reachable = false; snapshot = no_snapshot }
          | ok s ↦ record { id = id; reachable = true; snapshot = s }
        ]
            ∷ nodes,
        w'',
      )

  -- `Status`
  unfoldable pub cluster_status : List ℤ → W → ClusterStatus × W
  unfolding ask_all status
  cluster_status clients w = let (nodes, w') = ask_all clients w in (status floats nodes, w')

  -- The loop of `WaitConverged`; `none` if it takes more turns than the fuel.
  unfoldable pub wait_loop : ℕ → ℤ → List ℤ → W → Option ((ClusterStatus × Bool) × W)
  unfolding cluster_status has_converged
  wait_loop zero deadline clients w = none
  wait_loop (suc fuel) deadline clients w =
      let (last, w1) = cluster_status clients w in
      let (stopped, w2) = world.tick w1 in
      elim (has_converged last) [
        | true ↦ some ((last, true), w1)
        | false ↦ elim (ltb_ℤ deadline (pos (world.now w1))) [
          | true ↦ some ((last, false), w1)
          | false ↦ elim stopped [
            | some e ↦ some ((last, false), w2)
            | none ↦ wait_loop fuel deadline clients w2
          ]
        ]
      ]

  -- `WaitConverged`
  unfoldable pub wait_converged : ℕ → ℤ → List ℤ → W → Option ((ClusterStatus × Bool) × W)
  unfolding wait_loop
  wait_converged fuel timeout clients w = wait_loop fuel (pos (world.now w) +ℤ timeout) clients w
