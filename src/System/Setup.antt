-- ===== src/System/Setup.antt =====
-- `Options`, `New` and `Proposer` of pkg/paxostest/harness.go: the cluster that a test starts with.
use interactive_paxos.Prelude.{
  ℕ, zero, suc, ℤ, pos, negsuc, ◌≤◌, max_int, ◌≡◌, refl, sym, true, leb_ℤ, ok, err, none, some,
  List, [], ◌∷◌, ◌++◌, length, if◌then◌else◌, arith,
}
use interactive_paxos.Quorum.{quorum_of}
use interactive_paxos.Store.Memory.{
  MemoryStore, load, memory_store, new_memory_store, memory_store-IsDurable, content-memory_store,
}
use interactive_paxos.Acceptor.{new_acceptor}
use interactive_paxos.Proposer.{Proposer, new_proposer}
use interactive_paxos.Proposer.Config.{ProposerConfig}
use interactive_paxos.Harness.{Site, up, down}
use interactive_paxos.Harness.Check.{Ranging, assert_agreement}
use interactive_paxos.Harness.Check.Choices.{IsFair}
use interactive_paxos.System.{System}
use interactive_paxos.System.Safety.{IsCluster}
use interactive_paxos.System.Safety.Steps.{IsFresh}
use interactive_paxos.System.Handlers.{Overlap, OverlapReach, AreOrderly, at_rest}
use interactive_paxos.System.Handlers.Orderly.{Orderly-Reach}
use interactive_paxos.System.Checked.{assert_agreement-passes}

pub record Options : Type 0 where
  pub size : ℤ
  pub config : ProposerConfig

-- `withDefaults`
unfoldable pub with_defaults : Options → Options
with_defaults o =
    let at_least = λ (x default : ℤ). if leb_ℤ x (pos 0) then default else x in
    record {
      size = at_least o.size (pos 3);
      config = record {
        round_timeout = at_least o.config.round_timeout (pos 2_000_000_000);
        min_backoff = at_least o.config.min_backoff (pos 1_000_000);
        max_backoff = at_least o.config.max_backoff (pos 10_000_000);
      };
    }

abbrev pub up_to : ℕ → List ℕ
up_to zero = []
up_to (suc n) = up_to n ++ suc n ∷ []

-- `ids`: from 1 to the size.
abbrev pub ids_of : Options → List ℕ
ids_of o = elim o.size [ pos n ↦ up_to n | negsuc n ↦ [] ]

-- `&node{...}`; a test ends where `NewAcceptor` fails.
unfoldable pub new_node : ℕ → Site MemoryStore
new_node i = elim (new_acceptor memory_store (pos i) (some new_memory_store)) [
  | ok a ↦ up a
  | err e ↦ down new_memory_store
]

-- `New`: the nodes that no proposer has among its peers are never asked.
unfoldable pub new_harness : System MemoryStore
unfolding new_node
new_harness = record {
  sites = new_node;
  ledger = [];
  rounds = λ p. pos 0;
  started = 0;
  jobs = λ t. none;
  promises = [];
  acceptances = [];
}

-- `Harness.Proposer`, one for each id, with the value that a test gives it.
unfoldable pub harness_proposer : Options → (ℕ → ℕ) → ℕ → Proposer ℕ
unfolding with_defaults
harness_proposer o value p =
    let opts = with_defaults o in new_proposer (pos p) (value p) (ids_of opts) opts.config

new_harness-IsFresh : IsFresh memory_store-IsDurable new_harness
unfolding new_harness new_acceptor load
new_harness-IsFresh = record {
  disks = λ i. content-memory_store new_memory_store;
  synced = λ i. sym (content-memory_store new_memory_store);
  ledger = refl;
  rounds = λ p. refl;
  started = refl;
  jobs = λ t. refl;
  promises = refl;
  acceptances = refl;
}

harness_proposer-IsCluster :
    (o : Options) (value : ℕ → ℕ) → IsCluster (ids_of (with_defaults o)) (harness_proposer o value)
unfolding harness_proposer new_proposer
harness_proposer-IsCluster o value = record {
  distinct = λ p q h. ground arith;
  peers = λ p f. refl;
}

-- In a test of any size, however it runs its proposers, one for each id, crashes and restarts its nodes
-- and loses their messages, however the critical sections interleave, and whatever order maps are
-- visited in, `AssertAgreement` finds no disagreement: if a handler that a crash or a restart overtakes
-- goes on only while its node is down and its acceptor has in memory what the store holds, each restart
-- installs what the store still holds, and fewer than 2^63 calls of `Propose` have begun.
pub new_harness-agrees :
    (o : Options) (value : ℕ → ℕ) {u : Overlap MemoryStore}
    (r : OverlapReach memory_store (harness_proposer o value) (at_rest new_harness) u)
    → AreOrderly memory_store (harness_proposer o value) r
    → u.now.started ≤ max_int
    → (ranging : Ranging) → IsFair ranging
    → assert_agreement ranging (quorum_of (length (ids_of (with_defaults o)))) u.now.ledger ≡ true
new_harness-agrees o value r orderly small ranging fair =
    assert_agreement-passes memory_store-IsDurable (ids_of (with_defaults o))
      (harness_proposer o value) (harness_proposer-IsCluster o value) new_harness-IsFresh
      (Orderly-Reach r orderly) small ranging fair
