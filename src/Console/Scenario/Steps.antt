-- ===== src/Console/Scenario/Steps.antt =====
-- Steps of the scenarios of pkg/console/scenarios.go: sizes, the cut of a partition, reports and checks. A
-- slice out of range is an error here; in Go it ends the process.
use interactive_paxos.Prelude.{
  take, drop, ◌*◌, ℕ, ℤ, pos, negsuc, ◌-◌, ltb, leb, Bool, true, String, Error, new, Option, none,
  some, List, length, if◌then◌else◌,
}
use interactive_paxos.Fault.{Floats}
use interactive_paxos.Console.{ClusterStatus}
use interactive_paxos.Console.Client.{World, Call, ◌>>◌, ◌>>=◌, info, failure, blocked_of}
use interactive_paxos.Console.Cluster.{contains_int, cluster_status}
use interactive_paxos.Console.Scenario.{for_each, say}

-- `n * time.Second`
abbrev pub seconds : ℕ → ℤ
seconds n = pos (n * 1_000_000_000)

abbrev pub when : {W : Type 0} → Bool → Call W → Call W
when b m w = if b then m w else (none, w)

abbrev pub out_of_range : Error
out_of_range = new "slice bounds out of range"

-- The size of the minority of `partition`, of a cluster that has a node.
unfoldable pub minority_size : ℕ → ℤ → ℕ
minority_size n (negsuc size) = 1
minority_size n (pos size) =
    let cut = if leb n size then n - 1 else size in if ltb cut 1 then 1 else cut

-- How many nodes `quorumLoss` kills: `none` if the slice of the victims is out of range.
unfoldable pub kill_count : ℕ → ℤ → Option ℕ
kill_count n (pos count) = some (if leb n count then n else count)
kill_count n (negsuc count) = none

module _ {F W : Type 0} (world : World F W) (clients : List ℤ) where
  -- One side of the cut: the nodes of `as` no longer reach those of `bs`.
  unfoldable pub cut_links : List ℤ → List ℤ → Call W
  cut_links near far =
      for_each near λ a. when (contains_int clients a) (for_each far λ b. blocked_of world b true a)

  -- Both loops of `partition`, which cut a minority of a size off.
  unfoldable pub cut_apart : ℕ → Call W
  unfolding cut_links
  cut_apart size =
      let minority = drop (length clients - size) clients in
      let majority = take (length clients - size) clients in
      cut_links majority minority >> cut_links minority majority

  -- `status := r.cluster.Status(ctx)` and the report of the rounds.
  abbrev pub report_rounds : Floats F → Call W
  report_rounds floats = do status ← cluster_status floats world clients; say world info "%s"

  -- The end of a check of a status.
  abbrev pub check_agreement : String → ClusterStatus → Call W → Call W
  check_agreement message status next w =
      if status.disagreement
      then (some (new "agreement violated"), world.step failure message w)
      else next w
