-- ===== src/Examples/Cluster.antt =====
-- Three nodes, 1 to 3, each with an acceptor over a `MemoryStore` and a proposer.
use interactive_paxos.Prelude.{
  ℕ, pos, refl, sym, ◌==◌, List, [], ◌∷◌, if◌then◌else◌, none, arith, ◌*◌,
}
use interactive_paxos.Quorum.{count}
use interactive_paxos.Messages.{empty_state}
use interactive_paxos.Store.Memory.{
  MemoryStore, memory_store, new_memory_store, memory_store-IsDurable, content-memory_store,
}
use interactive_paxos.Proposer.{Proposer, new_proposer}
use interactive_paxos.Proposer.Config.{ProposerConfig}
use interactive_paxos.Harness.{up}
use interactive_paxos.System.{System, here}
use interactive_paxos.System.Safety.{IsCluster}
use interactive_paxos.System.Safety.Steps.{IsFresh}
use interactive_paxos.System.Schedule.{
  Run, run, Action, start, ask, count_promises, send, count_accepts, crash_node, restart_node,
}

abbrev pub members : List ℕ
members = 1 ∷ 2 ∷ 3 ∷ []

abbrev pub no_config : ProposerConfig
no_config = record { round_timeout = pos 0; min_backoff = pos 0; max_backoff = pos 0 }

-- A node's proposer has its own acceptor first among its peers.
abbrev pub self_first : ℕ → List ℕ
self_first p = if p == 2 then 2 ∷ 1 ∷ 3 ∷ [] else if p == 3 then 3 ∷ 1 ∷ 2 ∷ [] else 1 ∷ 2 ∷ 3 ∷ []

abbrev pub member : (ℕ → ℕ) → ℕ → Proposer ℕ
member value p = new_proposer (pos p) (value p) (self_first p) no_config

abbrev pub init : System MemoryStore
init = record {
  sites = λ i. up (record { id = pos i; store = new_memory_store; state = empty_state });
  ledger = [];
  rounds = λ p. pos 0;
  started = 0;
  jobs = λ t. none;
  promises = [];
  acceptances = [];
}

pub init-IsFresh : IsFresh memory_store-IsDurable init
init-IsFresh = record {
  disks = λ i. content-memory_store new_memory_store;
  synced = λ i. sym (content-memory_store new_memory_store);
  ledger = refl;
  rounds = λ p. refl;
  started = refl;
  jobs = λ t. refl;
  promises = refl;
  acceptances = refl;
}

pub member-IsCluster : (value : ℕ → ℕ) → IsCluster members (member value)
unfolding new_proposer count
member-IsCluster value = record { distinct = λ p q h. ground arith; peers = λ p f. ground arith }

-- Proposer 1 asks nodes 1 and 2, gets their promises and their votes.
abbrev pub one_round : List Action
one_round =
    start 1
    ∷ ask 0 1
    ∷ ask 0 2
    ∷ count_promises 0 (1 ∷ 2 ∷ [])
    ∷ send 0 1
    ∷ send 0 2
    ∷ count_accepts 0 (1 ∷ 2 ∷ [])
    ∷ []

-- Then proposer 3 asks nodes 2 and 3 after node 2 has crashed and restarted.
abbrev pub two_rounds : List Action
two_rounds =
    start 1
    ∷ ask 0 1
    ∷ ask 0 2
    ∷ count_promises 0 (1 ∷ 2 ∷ [])
    ∷ send 0 1
    ∷ send 0 2
    ∷ count_accepts 0 (1 ∷ 2 ∷ [])
    ∷ crash_node 2
    ∷ start 3
    ∷ restart_node 2
    ∷ ask 1 2
    ∷ ask 1 3
    ∷ count_promises 1 (2 ∷ 3 ∷ [])
    ∷ send 1 3
    ∷ send 1 2
    ∷ count_accepts 1 (2 ∷ 3 ∷ [])
    ∷ []

abbrev pub value_of : ℕ → ℕ
value_of p = p * 10

abbrev pub reached : List Action → Run memory_store (member value_of) init
reached actions = run memory_store (member value_of) (record { last = init; reach = here }) actions
