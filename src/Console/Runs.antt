-- ===== src/Console/Runs.antt =====
-- pkg/console/server.go: the scenario that runs, its steps and those who follow them. What a method
-- does under the lock is one step; a context is its number.
pub mod History
pub mod Single
use interactive_paxos.Prelude.{
  ℕ, ℤ, zero, suc, ◌+◌, ◌-◌, ◌≡◌, Bool, true, false, ltb, ◌==◌, String, Error, new, Option, none,
  some, List, [], ◌∷◌, ◌++◌, map, length, drop, Has, if◌then◌else◌,
}
use interactive_paxos.Console.Client.{
  World, Call, ◌>>◌, StepKind, action, warn, kill_node, revive_node, reset_node, heal_node,
  campaign_node, chaos_of,
}
use interactive_paxos.Console.Cluster.{each}

-- `Step`, less its time.
pub record Step : Type 0 where
  pub seq : ℕ
  pub kind : StepKind
  pub message : String

-- A subscriber: its key in the map, and what its channel holds.
pub record Subscriber : Type 0 where
  pub key : ℕ
  pub channel : List Step

-- A goroutine of `start`: the context and the counter of its `Run`, and whether it has written how its
-- scenario ended.
pub record Goroutine : Type 0 where
  pub context : ℕ
  pub seq : ℕ
  pub ended : Bool

-- `runState`, less its followers of node logs, with the goroutines that `start` has made and the
-- contexts that `handleStopScenario` has canceled.
pub record RunState : Type 0 where
  pub scenario : String
  pub running : Bool
  pub steps : List Step
  pub failed : Bool
  pub cancel : Option ℕ
  pub subs : List Subscriber
  pub next_sub : ℕ
  pub made : ℕ
  pub goroutines : ℕ → Option Goroutine
  pub canceled : List ℕ

abbrev pub err_running : Error
err_running = new "a scenario is already running"

abbrev pub kept_steps : ℕ
kept_steps = 500

abbrev pub channel_size : ℕ
channel_size = 256

-- `steps[len(steps)-n:]`, if there are more.
unfoldable pub keep_last : {A : Type 0} → ℕ → List A → List A
keep_last n xs = if ltb n (length xs) then drop (length xs - n) xs else xs

-- A send that gives up where the channel is full.
abbrev pub offer : Step → Subscriber → Subscriber
offer step sub =
    if ltb (length sub.channel) channel_size
    then record sub { channel = sub.channel ++ step ∷ [] }
    else sub

-- `emit`
unfoldable pub emit : Step → RunState → RunState
unfolding keep_last
emit step s = record s {
  steps = keep_last kept_steps (s.steps ++ step ∷ []);
  subs = map (offer step) s.subs;
}

-- `subscribe`
abbrev pub subscribe : RunState → ℕ × RunState
subscribe s = (
  s.next_sub,
  record s {
    subs = s.subs ++ record { key = s.next_sub; channel = [] } ∷ [];
    next_sub = suc s.next_sub;
  },
)

abbrev pub without_sub : ℕ → List Subscriber → List Subscriber
without_sub k [] = []
without_sub k (sub ∷ subs) =
    let rest = without_sub k subs in if sub.key == k then rest else sub ∷ rest

-- The function that `subscribe` returns.
abbrev pub unsubscribe : ℕ → RunState → RunState
unsubscribe k s = record s { subs = without_sub k s.subs }

abbrev pub set_goroutine : Goroutine → RunState → RunState
set_goroutine g s = record s { goroutines = λ c. if c == g.context then some g else s.goroutines c }

-- `Run.step` of the run of a goroutine.
unfoldable pub run_step : StepKind → String → Goroutine → RunState → RunState
unfolding emit
run_step kind message g s =
    emit (record { seq = suc g.seq; kind = kind; message = message })
      (set_goroutine (record g { seq = suc g.seq }) s)

-- `start` under the lock: its error, and the state with the goroutine of the scenario.
unfoldable pub start : String → RunState → Option Error × RunState
start name s = if s.running then (some err_running, s) else (
  none,
  set_goroutine (record { context = s.made; seq = 0; ended = false })
      (record s {
        running = true;
        failed = false;
        scenario = name;
        steps = [];
        cancel = some s.made;
        made = suc s.made;
      }),
)

-- The goroutine of `start`, when its scenario has returned.
unfoldable pub end_run : Bool → Goroutine → RunState → RunState
end_run failed g s =
    set_goroutine (record g { ended = true }) (record s { running = false; failed = failed })

-- `handleStopScenario`
unfoldable pub stop_scenario : RunState → RunState
stop_scenario s = record s {
  canceled = elim s.cancel [ none ↦ s.canceled | some c ↦ c ∷ s.canceled ];
}

-- What happens to the state: requests, followers, and the goroutines of the scenarios.
pub data RunStep (s : RunState) : RunState → Type 0 where
  starts : (name : String) → RunStep s (start name s).1
  tells :
      (g : Goroutine) (kind : StepKind) (message : String)
      → s.goroutines g.context ≡ some g
      → RunStep s (run_step kind message g s)
  ends :
      (g : Goroutine) (failed : Bool)
      → s.goroutines g.context ≡ some g
      → g.ended ≡ false
      → RunStep s (end_run failed g s)
  stops : RunStep s (stop_scenario s)
  emits : (step : Step) → RunStep s (emit step s)
  subscribes : RunStep s (subscribe s).1
  unsubscribes : (k : ℕ) → RunStep s (unsubscribe k s)

pub data RunReach (s : RunState) : RunState → Type 0 where
  at_start : RunReach s s
  goes_on : {t u : RunState} → RunReach s t → RunStep t u → RunReach s u

-- The actions of `handleClusterAction`.
pub data ClusterAction : Type 0 where
  reset kill revive campaign heal : ClusterAction

module _ {F W : Type 0} (world : World F W) (clients : List ℤ) where
  -- The calls of `handleClusterAction`.
  unfoldable pub cluster_action : ClusterAction → Call W
  cluster_action reset = each clients [] (reset_node world) >> each clients [] (heal_node world)
  cluster_action kill = each clients [] (kill_node world)
  cluster_action revive = each clients [] (revive_node world)
  cluster_action campaign = each clients [] (campaign_node world)
  cluster_action heal = each clients [] (heal_node world) >> each clients [] (chaos_of world false)

  -- `handleClusterAction`: its status, and the state with what it has told.
  unfoldable pub handle_cluster_action : ClusterAction → String → W → RunState → ℕ × W × RunState
  unfolding cluster_action emit
  handle_cluster_action a name w s =
      let (failure, w') = cluster_action a w in
      let told = emit (record { seq = 0; kind = action; message = name }) s in
      elim failure [
        | none ↦ (204, w', told)
        | some e ↦ (500, w', emit (record { seq = 0; kind = warn; message = "" }) told)
      ]
