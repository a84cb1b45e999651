-- ===== src/Console/Scenarios.antt =====
-- pkg/console/scenarios.go: the scenarios that drive a cluster through its nodes' interfaces.
pub mod Partition
pub mod Victims
pub mod Names
pub mod Minority
use interactive_paxos.Prelude.{
  take, drop, ◌*◌, ℕ, zero, suc, ℤ, pos, negsuc, ◌+◌, ◌-◌, ltb, leb, ltb_ℤ, leb_ℤ, eqb_ℤ, Bool,
  true, false, not, ◌&&◌, ◌==◌, String, Error, new, Option, none, some, List, [], ◌∷◌, ◌++◌, length,
  if◌then◌else◌,
}
use interactive_paxos.Quorum.{quorum_of}
use interactive_paxos.Fault.{Floats}
use interactive_paxos.Console.{ClusterStatus}
use interactive_paxos.Console.Client.{
  World, Call, done, ◌>>◌, ◌>>=◌, info, action, result, warn, failure, kill_node, revive_node,
  latency_of, drop_rates_of, blocked_of, chaos_of,
}
use interactive_paxos.Console.Cluster.{contains_int, each, cluster_status}
use interactive_paxos.Console.Scenario.{
  Parsers, Values, int_value, float_value, duration_value, bool_value, pick_nodes, for_each, say,
  sleep, repeat_for, reset_all, heal_all, revive_all, campaign_all, settle,
}
use interactive_paxos.Console.Scenario.Steps.{
  seconds, when, out_of_range, minority_size, kill_count, cut_links, cut_apart, report_rounds,
  check_agreement,
}

module _ {F W : Type 0} (floats : Floats F) (parsers : Parsers F) (world : World F W)
    (clients : List ℤ) (v : Values) where
  abbrev pub int : String → ℤ → ℤ
  int = int_value parsers v

  abbrev float : String → F → F
  float = float_value parsers v

  abbrev pub duration : String → ℤ → ℤ
  duration = duration_value parsers v

  abbrev bool : String → Bool → Bool
  bool = bool_value parsers v

  -- `if v.Bool("reset", true)`
  abbrev pub reset_first : Call W
  reset_first = when (bool "reset" true) (reset_all world clients)

  -- `freshElection`
  unfoldable pub fresh_election : Call W
  fresh_election = do
    reset_all world clients
    say world info "every acceptor is now at zero state, all nodes campaign on restart"
    settle world floats clients (duration "settle" (seconds 20))

  -- The latencies of `duelingProposers` and `slowNetwork`.
  abbrev with_latency : ℤ → ℤ → Call W
  with_latency low high =
      let top = if ltb_ℤ high low then low else high in each clients [] (latency_of world low top)

  -- One turn of the duel.
  abbrev duel_turn : List ℤ → ℤ → Call W
  duel_turn contenders retrigger = do
    sleep world retrigger
    campaign_all world clients contenders
    report_rounds world clients floats

  -- `duelingProposers`
  unfoldable pub dueling_proposers : Call W
  dueling_proposers =
      let contenders = pick_nodes (int "contenders" (pos 3)) clients in
      let asked = duration "retrigger" (seconds 1) in
      let retrigger = if leb_ℤ asked (pos 0) then seconds 1 else asked in
      do
        reset_all world clients
        say world action "injecting %d-%dms latency on every node"
        with_latency (int "latency_min" (pos 120)) (int "latency_max" (pos 400))
        say world action "kicking off simultaneous campaigns on nodes %v"
        campaign_all world clients contenders
        repeat_for world (duration "duration" (seconds 12)) (duel_turn contenders retrigger)
        status ← cluster_status floats world clients
        check_agreement world clients "SAFETY VIOLATED during the duel: %v" status do
          say world result "duel held for %s with rounds climbing and agreement intact"
          (if bool "heal" true
              then (do
                heal_all world clients
                campaign_all world clients clients
                settle world floats clients (duration "settle" (seconds 30)))
              else say world warn "leaving latency in place, the duel continues")

  -- `partition`
  unfoldable pub partition : Call W
  unfolding cut_apart
  partition =
      let size = minority_size (length clients) (int "minority" (pos 2)) in
      let majority = take (length clients - size) clients in
      do
        reset_first
        say world action "cutting every link between %v and %v"
        cut_apart world clients size
        say world info "majority side has %d of %d nodes, quorum is %d"
        (if leb (quorum_of (length clients)) (length majority)
            then say world info "the majority side can still choose, the minority side cannot"
            else say world warn "neither side holds a quorum")
        campaign_all world clients clients
        sleep world (duration "duration" (seconds 10))
        report_rounds world clients floats
        heal_all world clients
        campaign_all world clients clients
        settle world floats clients (duration "settle" (seconds 30))

  -- `quorumLoss` of a number of nodes.
  unfoldable pub quorum_loss_of : ℕ → Call W
  quorum_loss_of count =
      let survivors = length clients - count in
      let victims = drop survivors clients in
      do
        say world action "killing nodes %v, leaving %d of %d alive against a quorum of %d"
        each clients victims (kill_node world)
        (if ltb survivors (quorum_of (length clients))
            then say world info "survivors are below quorum, every round will stop at prepare"
            else say world warn "survivors still hold a quorum")
        campaign_all world clients (take survivors clients)
        sleep world (duration "duration" (seconds 8))
        report_rounds world clients floats
        say world action "reviving %v"
        each clients victims (revive_node world)
        campaign_all world clients clients
        settle world floats clients (duration "settle" (seconds 30))

  -- `quorumLoss`
  unfoldable pub quorum_loss : Call W
  unfolding quorum_loss_of
  quorum_loss = do
    reset_first
    (elim (kill_count (length clients) (int "kill" (pos 3))) [
      | none ↦ λ w. (some out_of_range, w)
      | some count ↦ quorum_loss_of count
    ])

  -- `packetLoss`
  unfoldable pub packet_loss : Call W
  packet_loss = do
    reset_first
    say world action "dropping %.0f%% of prepares and %.0f%% of accepts on every node"
    each clients [] (
        drop_rates_of world (float "prepare" (parsers.constant "0.4"))
          (float "accept" (parsers.constant "0.4")))
    campaign_all world clients clients
    sleep world (duration "duration" (seconds 15))
    report_rounds world clients floats
    heal_all world clients
    campaign_all world clients clients
    settle world floats clients (duration "settle" (seconds 45))

  -- `slowNetwork`
  unfoldable pub slow_network : Call W
  slow_network = do
    reset_first
    say world action "adding %d-%dms of latency to every peer link"
    with_latency (int "latency_min" (pos 100)) (int "latency_max" (pos 600))
    campaign_all world clients clients
    sleep world (duration "duration" (seconds 15))
    report_rounds world clients floats
    heal_all world clients
    settle world floats clients (duration "settle" (seconds 45))

  -- What a call of a client fails with is told, and forgotten.
  abbrev warned : String → Call W → Call W
  warned message m w =
      let (r, w') = m w in
      elim r [ some e ↦ (none, world.step warn message w') | none ↦ (none, w') ]

  -- The turn of one node in `rollingRestart`.
  unfoldable pub restart_node : ℤ → Call W
  restart_node id = do
    say world action "killing node %d"
    warned "node %d kill failed: %v" (kill_node world id)
    sleep world (duration "down" (pos 1_500_000_000))
    say world action "reviving node %d"
    warned "node %d revive failed: %v" (revive_node world id)
    sleep world (duration "pause" (seconds 2))

  -- The end of `rollingRestart`.
  abbrev check_decree : (before after : ClusterStatus) → Call W → Call W
  check_decree before after next w =
      if before.has_settled
        && after.has_settled
        && not (before.settled_value == after.settled_value)
      then (
        some (new "decree changed across restarts"),
        world.step failure "SAFETY VIOLATED: decree changed" w,
      )
      else next w

  -- `rollingRestart`
  unfoldable pub rolling_restart : Call W
  unfolding restart_node
  rolling_restart = do
    when (bool "reset" false) do reset_all world clients; settle world floats clients (seconds 20)
    before ← cluster_status floats world clients
    when before.has_settled (say world info "decree before the restart is value %d")
    for_each clients λ id. when (contains_int clients id) (restart_node id)
    after ← cluster_status floats world clients
    check_decree before after (settle world floats clients (duration "settle" (seconds 30)))

  -- One turn of the loop of `chaosMonkey`.
  abbrev chaos_check : Call W
  chaos_check = do
    sleep world (seconds 3)
    status ← cluster_status floats world clients
    check_agreement world clients "SAFETY VIOLATED under chaos: %v" status
        (say world info "%d of %d alive, %d have learned")

  -- `chaosMonkey`
  unfoldable pub chaos_monkey : Call W
  chaos_monkey =
      let victims = pick_nodes (int "nodes" (pos 2)) clients in
      let rate = float "drop" (parsers.constant "0.1") in
      do
        reset_first
        when (floats.less_f floats.zero_f rate) do
          say world action "dropping %.0f%% of messages everywhere"
          each clients [] (drop_rates_of world rate rate)
        say world action "enabling random death on nodes %v"
        each clients victims (chaos_of world true)
        repeat_for world (duration "duration" (seconds 30)) chaos_check
        heal_all world clients
        revive_all world clients
        campaign_all world clients clients
        settle world floats clients (duration "settle" (seconds 60))
