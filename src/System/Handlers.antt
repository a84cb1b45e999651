-- ===== src/System/Handlers.antt =====
-- pkg/paxostest/harness.go, where `Prepare` and `Accept` of a node are two critical sections: `current`
-- takes the node's acceptor under the node's lock, and the acceptor handles the request under its own.
-- `Restart` is two as well: it loads the store, and then it installs the acceptor. A handler that is
-- overtaken by `Crash` or `Restart` goes on with an acceptor that is no longer the node's, over the
-- store that the node's new acceptor has too.
pub mod Orderly
pub mod Schedule
use interactive_paxos.Prelude.{
  ℕ, suc, pos, ◌≡◌, Bool, true, false, Result, ok, err, Error, Option, some, none, ◌==◌, Has,
  if◌then◌else◌,
}
use interactive_paxos.Messages.{
  PrepareRequest, PrepareResponse, AcceptRequest, AcceptResponse, AcceptorState, empty_state,
}
use interactive_paxos.Store.{Store}
use interactive_paxos.Acceptor
use interactive_paxos.Acceptor.{Acceptor, new_acceptor}
use interactive_paxos.Proposer.{Proposer}
use interactive_paxos.Harness.{Site, up, down, current, crash, store_of, record_acceptance}
use interactive_paxos.System.{
  System, Job, Step, begins, prepares, counts_promises, accepts, counts_accepts, forwards, crashes,
  restarts, update, post, issued, deliver_prepare, deliver_accept, prepare_request, accept_request,
}

-- The acceptor that `current` has returned: its node, and how many acceptors the node had had before.
pub record Fetched : Type 0 where
  pub node : ℕ
  pub acceptor : ℕ

-- A call of `Restart` that has loaded the node's state.
pub record Loaded : Type 0 where
  pub node : ℕ
  pub state : AcceptorState

-- The cluster, how many acceptors each node has had and what those have in memory, and the calls that
-- are between their critical sections.
pub record Overlap (S : Type 0) : Type 0 where
  pub now : System S
  pub replaced : ℕ → ℕ
  pub memory : ℕ → ℕ → AcceptorState
  pub fetched : ℕ → Option Fetched
  pub loaded : ℕ → Option Loaded

module _ {S : Type 0} where
  abbrev pub memory_of : Site S → AcceptorState
  memory_of (up a) = a.state
  memory_of (down s) = empty_state

  -- The store is shared by all acceptors of a node.
  abbrev pub with_store : S → Site S → Site S
  with_store store (up a) = up (record a { store = store })
  with_store store (down s) = down store

  abbrev pub old_acceptor : Fetched → Overlap S → Acceptor S
  old_acceptor f s = record {
    id = pos f.node;
    store = store_of (s.now.sites f.node);
    state = s.memory f.node f.acceptor;
  }

  -- A node gives up its acceptor.
  abbrev pub replace : ℕ → Site S → Overlap S → Overlap S
  replace i site s = record s {
    now = record s.now { sites = update s.now.sites i site };
    replaced = update s.replaced i (suc (s.replaced i));
    memory = update s.memory i (update (s.memory i) (s.replaced i) (memory_of (s.now.sites i)));
  }

  -- What a handler leaves in the memory of an acceptor that is no longer the node's, and in the store.
  abbrev pub put_back : Fetched → Acceptor S → Overlap S → Overlap S
  put_back f a s = record s {
    now = record s.now {
      sites = update s.now.sites f.node (with_store a.store (s.now.sites f.node));
    };
    memory = update s.memory f.node (update (s.memory f.node) f.acceptor a.state);
  }

  -- No call is under way.
  abbrev pub at_rest : System S → Overlap S
  at_rest s = record {
    now = s;
    replaced = λ i. 0;
    memory = λ i e. empty_state;
    fetched = λ h. none;
    loaded = λ r. none;
  }

  abbrev pub is_current : Fetched → Overlap S → Bool
  is_current f s = f.acceptor == s.replaced f.node

module _ {S : Type 0} (ops : Store S) (member : ℕ → Proposer ℕ) where
  -- The end of `node.Prepare` with an acceptor that is no longer the node's.
  unfoldable pub prepare_overtaken : Fetched → Job → Overlap S → Overlap S
  prepare_overtaken f job s =
      let (reply, a) = Acceptor.prepare ops (old_acceptor f s) (prepare_request member job) in
      let after = put_back f a s in
      record after {
        now = record after.now { promises = post f.node job.proposal reply s.now.promises };
      }

  -- The end of `node.Accept` with an acceptor that is no longer the node's.
  unfoldable pub accept_overtaken : Fetched → Job → ℕ → Overlap S → Overlap S
  accept_overtaken f job v s =
      let req = accept_request member job v in
      let (reply, a) = Acceptor.accept ops (old_acceptor f s) req in
      let after = put_back f a s in
      record after {
        now = record after.now {
          ledger = record_acceptance (pos f.node) req reply s.now.ledger;
          acceptances = post f.node job.proposal reply s.now.acceptances;
        };
      }

  -- A step of a proposer, and of no node.
  abbrev pub IsOfProposer : {s u : System S} → Step ops member s u → Type 0
  IsOfProposer (begins p) = Unit
  IsOfProposer (prepares t i job known m) = ⊥
  IsOfProposer (counts_promises t job reply cause known at sent) = Unit
  IsOfProposer (accepts t i job v known at m) = ⊥
  IsOfProposer (counts_accepts t job attempt reply cause known at sent) = Unit
  IsOfProposer (forwards t job attempt known at) = Unit
  IsOfProposer (crashes i) = ⊥
  IsOfProposer (restarts i) = ⊥

  -- One critical section, or what a proposer does between two waits. A handler is known by a number;
  -- its request, which its proposer does not take back, is named where it is handled.
  pub data OverlapStep (s : Overlap S) : Overlap S → Type 0 where
    proposes :
        {u : System S} (st : Step ops member s.now u)
        → IsOfProposer st
        → OverlapStep s (record s { now = u })
    -- `current` finds the node up.
    fetches :
        (h i : ℕ) (a : Acceptor S)
        → current (s.now.sites i) ≡ ok a
        → OverlapStep s (record s {
          fetched = update s.fetched h (some (record { node = i; acceptor = s.replaced i }));
        })
    -- The acceptor is still the node's.
    handles_prepare :
        (h t : ℕ) (f : Fetched) (job : Job)
        → s.fetched h ≡ some f
        → is_current f s ≡ true
        → s.now.jobs t ≡ some job
        → Has f.node (member job.owner).peers
        → OverlapStep s (record s {
          now = deliver_prepare ops member f.node job s.now;
          fetched = update s.fetched h none;
        })
    handles_accept :
        (h t : ℕ) (f : Fetched) (job : Job) (v : ℕ)
        → s.fetched h ≡ some f
        → is_current f s ≡ true
        → s.now.jobs t ≡ some job
        → issued job.phase ≡ some v
        → Has f.node (member job.owner).peers
        → OverlapStep s (record s {
          now = deliver_accept ops member f.node job v s.now;
          fetched = update s.fetched h none;
        })
    -- The node has crashed, or restarted, in between.
    overtaken_prepare :
        (h t : ℕ) (f : Fetched) (job : Job)
        → s.fetched h ≡ some f
        → is_current f s ≡ false
        → s.now.jobs t ≡ some job
        → Has f.node (member job.owner).peers
        → OverlapStep s (record (prepare_overtaken f job s) { fetched = update s.fetched h none })
    overtaken_accept :
        (h t : ℕ) (f : Fetched) (job : Job) (v : ℕ)
        → s.fetched h ≡ some f
        → is_current f s ≡ false
        → s.now.jobs t ≡ some job
        → issued job.phase ≡ some v
        → Has f.node (member job.owner).peers
        → OverlapStep s (record (accept_overtaken f job v s) { fetched = update s.fetched h none })
    -- `Crash`
    falls : (i : ℕ) → OverlapStep s (replace i (crash (s.now.sites i)) s)
    -- `NewAcceptor` in `Restart`
    loads :
        (r i : ℕ) (a : Acceptor S)
        → new_acceptor ops (pos i) (some (store_of (s.now.sites i))) ≡ ok a
        → OverlapStep s
            (record s { loaded = update s.loaded r (some (record { node = i; state = a.state })) })
    -- The end of `Restart`, under the node's lock.
    installs :
        (r : ℕ) (l : Loaded)
        → s.loaded r ≡ some l
        → OverlapStep s
            (record (replace l.node
              (up (record {
                id = pos l.node;
                store = store_of (s.now.sites l.node);
                state = l.state;
              }))
              s) { loaded = update s.loaded r none })

  pub data OverlapReach (s : Overlap S) : Overlap S → Type 0 where
    no_step : OverlapReach s s
    one_more : {t u : Overlap S} → OverlapReach s t → OverlapStep t u → OverlapReach s u

  -- The node is down, and what the acceptor has in memory is what the store holds.
  abbrev pub IsHarmless : Fetched → Overlap S → Type 0
  IsHarmless f s =
      ((store : S) × (s.now.sites f.node ≡ down store))
      × (ops.load (store_of (s.now.sites f.node)) ≡ ok (s.memory f.node f.acceptor))

  -- A handler that is overtaken is harmless, and what `Restart` has loaded is what the store still
  -- holds.
  abbrev pub IsOrderly : {s u : Overlap S} → OverlapStep s u → Type 0
  IsOrderly (proposes st own) = Unit
  IsOrderly (fetches h i a up_now) = Unit
  IsOrderly (handles_prepare h t f job got own known m) = Unit
  IsOrderly (handles_accept h t f job v got own known at m) = Unit
  IsOrderly {s} (overtaken_prepare h t f job got old known m) = IsHarmless f s
  IsOrderly {s} (overtaken_accept h t f job v got old known at m) = IsHarmless f s
  IsOrderly (falls i) = Unit
  IsOrderly (loads r i a loaded) = Unit
  IsOrderly {s} (installs r l got) = ops.load (store_of (s.now.sites l.node)) ≡ ok l.state

  abbrev pub AreOrderly : {s u : Overlap S} → OverlapReach s u → Type 0
  AreOrderly no_step = Unit
  AreOrderly (one_more r st) = IsOrderly st × AreOrderly r
