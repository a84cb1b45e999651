-- ===== src/Console/Scenario.antt =====
-- pkg/console/scenario.go: what the scenarios are made of. The packages strings and strconv and the
-- conversions of `float64` are parameters; a message is the format that the code gives.
pub mod Steps
use interactive_paxos.Prelude.{
  take, ℕ, zero, suc, ℤ, pos, negsuc, ◌+ℤ◌, leb_ℤ, ltb_ℤ, ltb, Bool, true, false, String, new,
  Option, none, some, List, [], ◌∷◌, length, if◌then◌else◌,
}
use interactive_paxos.Fault.{Floats}
use interactive_paxos.Console.{ClusterStatus}
use interactive_paxos.Console.Client.{
  World, Call, ◌>>◌, StepKind, action, result, warn, failure, reset_node, heal_node, revive_node,
  campaign_node, chaos_of,
}
use interactive_paxos.Console.Cluster.{each, turns, wait_converged}

-- `strings.TrimSpace`, `strings.ToLower`, `==` of strings, `strconv.Atoi`, `strconv.ParseFloat`,
-- `Duration.Seconds`, `<= 0`, `time.Duration(s * float64(time.Second))` and the constants of `float64`.
pub record Parsers (F : Type 0) : Type 0 where
  pub trim : String → String
  pub lower : String → String
  pub same : String → String → Bool
  pub atoi : String → Option ℤ
  pub parse_float : String → Option F
  pub seconds : ℤ → F
  pub not_positive : F → Bool
  pub duration : F → ℤ
  pub constant : String → F

-- `Values`
abbrev pub Values : Type 0
Values = String → Option String

module _ {F : Type 0} (parsers : Parsers F) (v : Values) where
  abbrev parsed : {A : Type 0} → (String → Option A) → String → A → A
  parsed parse name default = elim (v name) [
    | none ↦ default
    | some raw ↦
        if parsers.same (parsers.trim raw) ""
        then default
        else elim (parse (parsers.trim raw)) [ none ↦ default | some a ↦ a ]
  ]

  -- `Values.Int`
  abbrev pub int_value : String → ℤ → ℤ
  int_value = parsed parsers.atoi

  -- `Values.Float`
  abbrev pub float_value : String → F → F
  float_value = parsed parsers.parse_float

  -- `Values.Duration`
  abbrev pub duration_value : String → ℤ → ℤ
  duration_value name default =
      let seconds = float_value name (parsers.seconds default) in
      if parsers.not_positive seconds then pos 0 else parsers.duration seconds

  abbrev is_word : String → List String → Bool
  is_word word [] = false
  is_word word (w ∷ ws) = if parsers.same word w then true else is_word word ws

  -- `Values.Bool`
  abbrev pub bool_value : String → Bool → Bool
  bool_value name default = elim (v name) [
    | none ↦ default
    | some raw ↦
        let word = parsers.lower (parsers.trim raw) in
        if is_word word ("1" ∷ "true" ∷ "on" ∷ "yes" ∷ [])
        then true
        else if is_word word ("0" ∷ "false" ∷ "off" ∷ "no" ∷ "" ∷ [])
        then false
        else default
  ]

-- `pickNodes`
unfoldable pub pick_nodes : ℤ → List ℤ → List ℤ
pick_nodes (pos count) ids =
    take
      (if leb_ℤ (pos count) (pos 0)
        then length ids
        else if ltb (length ids) count
        then length ids
        else count)
      ids
pick_nodes (negsuc count) ids = take (length ids) ids

-- A body that may fail, for each element of a list.
module _ {W : Type 0} where
  unfoldable pub for_each : List ℤ → (ℤ → Call W) → Call W
  for_each [] body w = (none, w)
  for_each (id ∷ ids) body w = (body id >> for_each ids body) w

module _ {F W : Type 0} (world : World F W) where
  -- `Run.step`, and its names.
  abbrev pub say : StepKind → String → Call W
  say kind message w = (none, world.step kind message w)

  abbrev pub sleep : ℤ → Call W
  sleep d w = if leb_ℤ d (pos 0) then (none, w) else world.sleep d w

  -- `for time.Now().Before(deadline)`, with fuel.
  unfoldable pub while_before : ℕ → ℤ → Call W → Call W
  while_before zero deadline body w = (some (new "unfinished"), w)
  while_before (suc fuel) deadline body w = elim (ltb_ℤ (pos (world.now w)) deadline) [
    | true ↦ (body >> while_before fuel deadline body) w
    | false ↦ (none, w)
  ]

  -- The loop from now on, for a time.
  unfoldable pub repeat_for : ℤ → Call W → Call W
  unfolding while_before
  repeat_for d body w = while_before (turns d) (pos (world.now w) +ℤ d) body w

  module _ (clients : List ℤ) where
    -- `ResetAll`
    unfoldable pub reset_all : Call W
    reset_all = do
      say action "wiping durable state and restarting every node"
      each clients [] (reset_node world)
      each clients [] (heal_node world)

    -- `HealAll`
    unfoldable pub heal_all : Call W
    heal_all = do
      say action "clearing all injected faults"
      each clients [] (heal_node world)
      each clients [] (chaos_of world false)

    -- `ReviveAll`, which forgets the errors.
    unfoldable pub revive_all : Call W
    revive_all = do
      say action "reviving every node"
      each clients [] λ id w. (none, (revive_node world id w).1)

    -- `CampaignAll`
    unfoldable pub campaign_all : List ℤ → Call W
    campaign_all ids = each clients ids (campaign_node world)

  -- The end of `Settle`.
  abbrev pub settled : Option ((ClusterStatus × Bool) × W) → Call W
  settled none w = (some (new "unfinished"), w)
  settled (some ((status, converged), w')) w =
      if status.disagreement
      then (
        some (new "agreement violated"),
        world.step failure "SAFETY VIOLATED: nodes learned different values %v" w',
      )
      else if converged
      then (none, world.step result "all %d live nodes agree on value %d" w')
      else (none, world.step warn "did not fully converge within %s" w')

  -- `Settle`
  unfoldable pub settle : Floats F → List ℤ → ℤ → Call W
  settle floats clients timeout w =
      let w' = world.step action "waiting for the cluster to settle" w in
      settled (wait_converged floats world (turns timeout) timeout clients w') w'
