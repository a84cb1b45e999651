-- ===== src/Examples/Following.antt =====
-- The theorems about running scenarios and following nodes, and about the commands, at small cases.
use interactive_paxos.Prelude.{
  ℕ, pos, ◌+◌, ◌≤◌, ◌<◌, ◌^◌, ◌≡◌, refl, true, false, String, ok, none, some, List, [], ◌∷◌, Has,
  length, arith,
}
use interactive_paxos.Events.{new_recorder, publish}
use interactive_paxos.Events.Ring.{new_recorder-IsRing}
use interactive_paxos.Console.Runs.{
  Goroutine, RunState, RunReach, at_start, goes_on, starts, stops, start, stop_scenario,
}
use interactive_paxos.Console.Runs.Single.{one_scenario}
use interactive_paxos.Console.Tail
use interactive_paxos.Console.Tail.{Tail, TailReach, publishes, misses, ask}
use interactive_paxos.Console.Tail.Following.{IsFollowing, TailReach-IsFollowing}
use interactive_paxos.Peers.{Peer, parse_peer, parse_loop}
use interactive_paxos.Commands.{
  Texts, NodeFlags, NodeSettings, node_command, run_node, parse_format,
}
use interactive_paxos.Commands.Console.{
  ConsoleFlags, Target, run_console, console_command, public_loop, target_loop, has_target,
}
use interactive_paxos.Commands.Checked.{IsReady, node_command-IsReady}
use interactive_paxos.Commands.Targets.{AreTargets, console_command-AreTargets}
use interactive_paxos.Examples.Lives.{event}
use interactive_paxos.Examples.Reports.{strings}

abbrev quiet : RunState
quiet = record {
  scenario = "";
  running = false;
  steps = [];
  failed = false;
  cancel = none;
  subs = [];
  next_sub = 0;
  made = 0;
  goroutines = λ c. none;
  canceled = [];
}

abbrev first_run : Goroutine
first_run = record { context = 0; seq = 0; ended = false }

abbrev stopped : RunState
stopped = stop_scenario (start "chaos" (start "partition" quiet).1).1

running : RunReach quiet stopped
running = goes_on (goes_on (goes_on at_start (starts "partition")) (starts "chaos")) stops

run_known : stopped.goroutines 0 ≡ some first_run
unfolding stop_scenario start
run_known = refl

one_scenario_example :
    (◌≡◌ {A = ℕ} 0 0)
    × (stopped.running ≡ true)
    × ((stop_scenario stopped).canceled ≡ 0 ∷ stopped.canceled)
one_scenario_example =
    one_scenario (λ c. refl) running 0 0 first_run first_run run_known run_known refl refl

abbrev begun : Tail
begun = record { recorder = new_recorder (pos 8); seen = 0; emitted = [] }

begun-IsFollowing : IsFollowing begun
unfolding new_recorder
begun-IsFollowing = record {
  ring = new_recorder-IsRing (pos 8);
  behind = omega arith;
  run = tt;
  count = refl;
}

abbrev one_event : Tail
one_event = record begun { recorder = publish event (new_recorder (pos 8)) }

no_event : begun.recorder.next + 1 < 2 ^ 64
unfolding new_recorder
no_event = omega arith

room : one_event.recorder.next ≤ one_event.seen + one_event.recorder.limit
unfolding publish new_recorder
room = omega arith

TailReach-IsFollowing_example :
    IsFollowing one_event
    × IsFollowing (ask one_event)
    × ((ask one_event).seen ≡ one_event.recorder.next)
TailReach-IsFollowing_example =
    TailReach-IsFollowing begun-IsFollowing
      (Tail.goes_on (Tail.goes_on Tail.at_start misses) (publishes event no_event)) room

-- Functions that read every word as the format `auto`.
abbrev texts : Texts
texts = record {
  strings = strings;
  lower = λ s. s;
  same = λ s t. true;
  host_port = λ s. none;
  level = λ s. ok (pos 0);
}

abbrev flags : NodeFlags
flags = record {
  id = pos 2;
  listen = "127.0.0.1:8080";
  ui_listen = "127.0.0.1:8090";
  event_buffer = pos 512;
  chaos = true;
  chaos_min = pos 3;
  chaos_max = pos 12;
  data_dir = "./data";
  store_timeout = pos 5;
  peers = "1@a:1" ∷ [];
  value = none;
  campaign = true;
  campaign_delay = pos 0;
  campaign_jitter = pos 0;
  round_timeout = pos 2;
  min_backoff = pos 1;
  max_backoff = pos 5;
  log_format = "auto";
  log_level = "info";
}

abbrev settings : NodeSettings
settings = record {
  id = pos 2;
  value = 2;
  peers = record { id = pos 1; addr = "a:1" } ∷ [];
  campaign = true;
  proposer = record { round_timeout = pos 2; min_backoff = pos 1; max_backoff = pos 5 };
  chaos = some (pos 3, pos 12);
}

accepted : node_command texts flags ≡ ok settings
unfolding node_command run_node parse_format parse_peer parse_loop
accepted = refl

node_command-IsReady_example : IsReady texts flags settings
node_command-IsReady_example = node_command-IsReady texts flags settings accepted

abbrev console_flags : ConsoleFlags
console_flags = record {
  listen = "127.0.0.1:8080";
  nodes = "1@a:1" ∷ [];
  public = "1@a:1" ∷ [];
  log_format = "auto";
  log_level = "info";
}

abbrev targets : List Target
targets = record { id = pos 1; addr = "a:1"; public = "a:1" } ∷ []

told_targets : console_command texts console_flags ≡ ok targets
unfolding console_command run_console public_loop target_loop parse_format parse_peer
told_targets = refl

console_command-AreTargets_example :
    AreTargets [] targets
    × (length targets ≡ 1)
    × ((spec : String)
        → Has spec ("1@a:1" ∷ [])
        → (p : Peer) × (parse_peer strings spec ≡ ok p) × (has_target p.id targets ≡ true))
console_command-AreTargets_example =
    console_command-AreTargets texts console_flags targets told_targets
