-- ===== src/Console/Scenarios/Names.antt =====
-- `Scenarios` and `ScenarioByName` of pkg/console/scenarios.go, and the request that starts a scenario
-- (`handleRunScenario` of pkg/console/server.go).
use interactive_paxos.Prelude.{ℕ, ℤ, Bool, String, Option, none, some, List, [], ◌∷◌, if◌then◌else◌}
use interactive_paxos.Fault.{Floats}
use interactive_paxos.Console.Client.{World, Call}
use interactive_paxos.Console.Scenario.{Parsers, Values}
use interactive_paxos.Console.Scenarios
use interactive_paxos.Console.Runs.{RunState, start}

-- The scenarios of `Scenarios`, by their names.
pub data ScenarioName : Type 0 where
  fresh_election dueling_proposers partition quorum_loss packet_loss slow_network rolling_restart
        chaos :
      ScenarioName

abbrev pub scenario_name : ScenarioName → String
scenario_name fresh_election = "fresh-election"
scenario_name dueling_proposers = "dueling-proposers"
scenario_name partition = "partition"
scenario_name quorum_loss = "quorum-loss"
scenario_name packet_loss = "packet-loss"
scenario_name slow_network = "slow-network"
scenario_name rolling_restart = "rolling-restart"
scenario_name chaos = "chaos"

abbrev pub scenarios : List ScenarioName
scenarios =
    fresh_election ∷ dueling_proposers ∷ partition ∷ quorum_loss ∷ packet_loss ∷ slow_network
    ∷ rolling_restart ∷ chaos ∷ []

abbrev find : (String → String → Bool) → String → List ScenarioName → Option ScenarioName
find same name [] = none
find same name (s ∷ rest) = if same (scenario_name s) name then some s else find same name rest

-- `ScenarioByName`
abbrev pub scenario_by_name : (String → String → Bool) → String → Option ScenarioName
scenario_by_name same name = find same name scenarios

module _ {F W : Type 0} (floats : Floats F) (parsers : Parsers F) (world : World F W)
    (clients : List ℤ) (v : Values) where
  -- The field `Run` of each scenario.
  unfoldable pub run_scenario : ScenarioName → Call W
  run_scenario fresh_election = Scenarios.fresh_election floats parsers world clients v
  run_scenario dueling_proposers = Scenarios.dueling_proposers floats parsers world clients v
  run_scenario partition = Scenarios.partition floats parsers world clients v
  run_scenario quorum_loss = Scenarios.quorum_loss floats parsers world clients v
  run_scenario packet_loss = Scenarios.packet_loss floats parsers world clients v
  run_scenario slow_network = Scenarios.slow_network floats parsers world clients v
  run_scenario rolling_restart = Scenarios.rolling_restart floats parsers world clients v
  run_scenario chaos = Scenarios.chaos_monkey floats parsers world clients v

-- `handleRunScenario`, with the name that its body decodes to: the status, and the state.
unfoldable pub handle_run_scenario :
    (String → String → Bool) → Option String → RunState → ℕ × RunState
handle_run_scenario same none s = (400, s)
handle_run_scenario same (some name) s = elim (scenario_by_name same name) [
  | none ↦ (404, s)
  | some scenario ↦
      let (failure, s') = start (scenario_name scenario) s in
      (elim failure [ some e ↦ 409 | none ↦ 202 ], s')
]
