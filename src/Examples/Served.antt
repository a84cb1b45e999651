-- ===== src/Examples/Served.antt =====
-- A world of three nodes that answer every request, and the theorems about the console and about a
-- node's interface in it.
use interactive_paxos.Prelude.{
  ◌≢◌, Result, Option, ℕ, ℤ, pos, negsuc, ◌+◌, ◌≡◌, ◌↔◌, refl, Bool, true, false, eqb_ℤ, ok, none,
  some, List, [], ◌∷◌, if◌then◌else◌, arith, ok-injective,
}
use interactive_paxos.Store.Memory.{MemoryStore, memory_store}
use interactive_paxos.Node.Lifecycle.{IsConsistent}
use interactive_paxos.Fault.{healthy}
use interactive_paxos.Ui.{toggle_chaos, latency, Served, Outside, handle, serve}
use interactive_paxos.Ui.Requests.{IsFloats, IsSound, healthy-IsSound, serve-IsSound}
use interactive_paxos.Console.{ClusterStatus, status}
use interactive_paxos.Console.Client.{
  ◌>>◌, revive_node, campaign_node, World, post, chaos_of, kill_node,
}
use interactive_paxos.Console.Cluster.{turns, wait_converged, each}
use interactive_paxos.Console.Served.{IsServed, IsRead, snapshot_of, is_cut}
use interactive_paxos.Console.Waiting.{IsTimed, wait_converged-returns}
use interactive_paxos.Console.Settling.{settle_fails_iff}
use interactive_paxos.Console.Toggling.{chaos_of-sets}
use interactive_paxos.Console.Scenario.{Parsers, Values, settle, for_each}
use interactive_paxos.Console.Scenario.Steps.{cut_apart, cut_links}
use interactive_paxos.Console.Scenarios.Partition.{cut_apart-sides}
use interactive_paxos.Console.Scenarios.Victims.{kill_nobody, loss}
use interactive_paxos.Console.Scenarios.{quorum_loss, reset_first}
use interactive_paxos.Console.Scenarios.Minority.{
  minority_chooses_nothing, slot_through, slot_of, SameIds,
}
use interactive_paxos.Proposal.{zero_proposal}
use interactive_paxos.Messages.{PrepareRequest, PrepareResponse}
use interactive_paxos.Proposer.{Proposer, Round, propose, new_proposer}
use interactive_paxos.Proposer.Outcome.{chosen}
use interactive_paxos.Fault.{Draws}
use interactive_paxos.Examples.Cluster.{no_config}
use interactive_paxos.Examples.Lives.{floats, idle, idle-IsConsistent, fine, resetting}

-- The nodes by their ids, and the clock.
record Local : Type 0 where
  sites : ℤ → Served ℕ MemoryStore
  clock : ℕ

abbrev outside : Outside
outside = record { close_error = none; opening = fine; resetting = resetting }

abbrev later : ℕ → Local → Local
later d w = record w { clock = w.clock + d }

abbrev put : ℤ → Served ℕ MemoryStore → Local → Local
put id s w = record w { sites = λ j. if eqb_ℤ id j then s else w.sites j }

abbrev local : World ℕ Local
local = record {
  encode = λ req. none;
  send = λ id req w.
      let (status, s) = handle floats memory_store outside req (w.sites id) in
      (ok status, put id s w);
  fetch = λ id w. (ok (200, some (snapshot_of (w.sites id))), w);
  now = λ w. w.clock;
  tick = λ w. (none, later 300_000_000 w);
  sleep = λ d w. (none, later 1 w);
  step = λ kind message w. w;
}

abbrev site : Served ℕ MemoryStore
site = record { node = idle; faults = healthy floats }

abbrev world : Local
world = record { sites = λ id. site; clock = 0 }

eqb_refl : (a : ℤ) → eqb_ℤ a a ≡ true
eqb_refl a = ground arith

local-IsServed : IsServed floats memory_store local (λ w. w.sites)
local-IsServed = record {
  handled = λ id req w status h. (
    outside,
    ground (
      arith,
      eqb_refl id,
      ok-injective {a = (handle floats memory_store outside req (w.sites id)).0} h,
    ),
  );
  others = λ id j req w e. rw e refl;
  steps = λ kind message w. refl;
}

local-IsRead : IsRead floats memory_store local (λ w. w.sites)
local-IsRead = record { own = λ id w status s h. ground arith; kept = λ id w. refl }

local-IsTimed : IsTimed local world
local-IsTimed = record {
  last_tick = λ w. w.clock;
  made = refl;
  fetch = λ id w. omega arith;
  fetch_tick = λ id w. refl;
  apart = λ w e. omega arith;
  received = λ w e. omega arith;
}

floats-IsFloats : IsFloats floats
floats-IsFloats = record { zero_zero = refl; one_one = refl; one_zero = refl }

serve-IsSound_example :
    IsConsistent
      (serve floats memory_store
        ((outside, toggle_chaos) ∷ (outside, latency (some (pos 9, negsuc 3))) ∷ [])
        site).node
    × IsSound floats
        (serve floats memory_store
          ((outside, toggle_chaos) ∷ (outside, latency (some (pos 9, negsuc 3))) ∷ [])
          site).faults
serve-IsSound_example =
    serve-IsSound floats floats-IsFloats memory_store
      ((outside, toggle_chaos) ∷ (outside, latency (some (pos 9, negsuc 3))) ∷ []) site
      idle-IsConsistent (healthy-IsSound floats floats-IsFloats)

abbrev ids : List ℤ
ids = pos 1 ∷ pos 2 ∷ pos 3 ∷ []

cut_done : (cut_apart local ids 1 world).0 ≡ none
unfolding cut_apart cut_links for_each post handle
cut_done = refl

cut_apart-sides_example :
    is_cut floats memory_store local (λ w. w.sites) (cut_apart local ids 1 world).1 (pos 3) (pos 1)
    ≡ true
cut_apart-sides_example =
    cut_apart-sides floats memory_store local (λ w. w.sites) local-IsServed ids 1
      (refl, (refl, (refl, tt))) world (λ x y. refl) cut_done (pos 3) (pos 1) refl refl

chaos_done : (chaos_of local true (pos 1) world).0 ≡ none
unfolding chaos_of post handle
chaos_done = refl

chaos_of-sets_example : ((chaos_of local true (pos 1) world).1.sites (pos 1)).node.chaos ≡ true
chaos_of-sets_example =
    chaos_of-sets floats memory_store local (λ w. w.sites) local-IsServed local-IsRead true (pos 1)
      world chaos_done

wait_converged-returns_example :
    (r : (ClusterStatus × Bool) × Local) × (wait_converged floats local
        (turns (pos 5))
        (pos 5)
        ids
        world
      ≡ some r)
wait_converged-returns_example = wait_converged-returns floats local world local-IsTimed (pos 5) ids

settle_fails_iff_example :
    (last : ClusterStatus) × (converged : Bool) × (w : Local) × (wait_converged floats local
        (turns (pos 5))
        (pos 5)
        ids
        world
      ≡ some ((last, converged), w))
    × (((settle local floats ids (pos 5) world).0 ≡ none) ↔ (last.disagreement ≡ false))
settle_fails_iff_example = settle_fails_iff floats local ids (pos 5) world local-IsTimed

-- Functions that read every parameter as 0.
abbrev parsers : Parsers ℕ
parsers = record {
  trim = λ s. s;
  lower = λ s. s;
  same = λ s t. false;
  atoi = λ s. some (pos 0);
  parse_float = λ s. some 0;
  seconds = λ d. 0;
  not_positive = λ f. true;
  duration = λ f. pos 0;
  constant = λ s. 0;
}

abbrev told : Values
told name = some "0"

kill_nobody_example : quorum_loss floats parsers local ids told ≡ (
    reset_first floats parsers local ids told
    >> loss floats parsers local ids told
        (each ids ids (kill_node local))
        (each ids ids (campaign_node local))
        (each ids ids (revive_node local))
        false)
kill_nobody_example = kill_nobody floats parsers local ids told refl (omega arith)

-- Node 3 is cut off from nodes 1 and 2, which would promise.
abbrev promise : ℤ → PrepareRequest → ℕ → Result PrepareResponse × ℕ
promise i req s = (
  ok (record {
    promised = true;
    highest_promised = req.proposal;
    accepted_proposal = zero_proposal;
    accepted_value = 0;
    has_accepted = false;
    acceptor_id = i;
  }),
  s,
)

abbrev draws : ℤ → Draws floats
draws i = record { float64 = 50; int64n = λ z. pos 0; done = none }

abbrev request : PrepareRequest
request = record { proposal = record { round = pos 1; node_id = pos 3 }; proposer_id = pos 3 }

abbrev through : ℤ → Option PrepareResponse
through =
    slot_through floats memory_store local (λ w. w.sites) local-IsServed ids 1 draws
      (λ i. healthy floats) promise request (λ i. 0) (cut_apart local ids 1 world).1 (pos 3)

abbrev cut_round : Round ℤ
cut_round = record {
  ctx_err = none;
  prepare_reply = λ i. if eqb_ℤ (pos 3) i then slot_of (promise i request 0).0 else through i;
  prepare_cause = none;
  accept_reply = λ i. none;
  accept_cause = none;
}

abbrev cut_proposer : Proposer ℤ
cut_proposer = new_proposer (pos 3) 7 (pos 3 ∷ pos 1 ∷ pos 2 ∷ []) no_config

proposer_peers : SameIds cut_proposer.peers ids
unfolding new_proposer
proposer_peers f = omega arith

minority_chooses_nothing_example : (propose cut_proposer cut_round).0.outcome ≢ chosen
minority_chooses_nothing_example =
    minority_chooses_nothing floats memory_store local (λ w. w.sites) local-IsServed ids 1 draws
      (λ i. healthy floats) promise request (λ i. 0) (refl, (refl, (refl, tt))) world (λ x y. refl)
      cut_done (pos 3) refl (omega arith) cut_proposer cut_round proposer_peers (λ i e. rw e refl)
