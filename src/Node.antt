-- ===== src/Node.antt =====
-- pkg/node/node.go: the life of one node. What the node's methods do under its lock is one step.
-- The file that the store opens outlives the store; opening it, closing it and listening may fail.
pub mod Lifecycle
pub mod Wiping
use interactive_paxos.Prelude.{
  ℕ, ℤ, pos, add_int, leb_ℤ, suc, Bool, true, false, ◌||◌, not, ◌==◌, Result, ok, err, Error, new,
  wrap, ◌≡◌, Option, none, some, List, [], ◌∷◌, Has, if◌then◌else◌,
}
use interactive_paxos.Proposal.{ProposalNumber, zero_proposal}
use interactive_paxos.Messages.{PrepareRequest, AcceptRequest, empty_state}
use interactive_paxos.Store.{Store}
use interactive_paxos.Acceptor
use interactive_paxos.Acceptor.{Acceptor, new_acceptor}
use interactive_paxos.Proposer.{Proposer, new_proposer}
use interactive_paxos.Proposer.Config.{ProposerConfig}
use interactive_paxos.Proposer.Outcome.{Attempt}

-- The fields of `Config` that the node's own logic reads; peers are handles, `self` the acceptor's.
pub record Config : Type 0 where
  pub id : ℤ
  pub value : ℕ
  pub self : ℕ
  pub peers : List ℕ
  pub campaign : Bool
  pub proposer : ProposerConfig

pub record Decision : Type 0 where
  pub proposal : ProposalNumber
  pub value : ℕ
  pub learned : Bool
  pub time : ℤ

-- `Decision{}`
abbrev pub no_decision : Decision
no_decision = record { proposal = zero_proposal; value = 0; learned = false; time = pos 0 }

-- A goroutine of `campaign`: its context, and the proposer that it was given.
pub record Running : Type 0 where
  pub context : ℕ
  pub proposer : Option ℕ

-- `made` counts the contexts and proposers that have been made; a pointer to one is its number, and
-- `proposers` holds what it points to. `canceled` are the contexts that `Kill` and `SetChaos` have canceled.
pub record Node (S : Type 0) : Type 0 where
  pub cfg : Config
  pub alive : Bool
  pub campaigning : Bool
  pub chaos : Bool
  pub disk : S
  pub acceptor : Option (Acceptor S)
  pub server : Bool
  pub proposer : Option ℕ
  pub decision : Decision
  pub campaign_cancel : Option ℕ
  pub chaos_cancel : Option ℕ
  pub made : ℕ
  pub proposers : ℕ → Option (Proposer ℕ)
  pub running : List Running
  pub canceled : List ℕ

abbrev pub err_already_alive : Error
err_already_alive = new "node is already running"

-- What the outside answers to `Revive`: `OpenBolt` and `NewServer`.
pub record Opening : Type 0 where
  pub open_error : Option Error
  pub listen_error : Option Error

-- What the outside answers to `Reset`, besides its `Revive`: the errors of closing the store that is
-- open, of opening it again, and of closing that.
pub record Resetting : Type 0 where
  pub kill_error : Option Error
  pub open_error : Option Error
  pub close_error : Option Error
  pub opening : Opening

abbrev pub cancel : Option ℕ → List ℕ → List ℕ
cancel none canceled = canceled
cancel (some c) canceled = c ∷ canceled

abbrev pub without : ℕ → List Running → List Running
without c [] = []
without c (r ∷ rest) = if r.context == c then rest else r ∷ without c rest

module _ {S : Type 0} where
  -- `if err := ...; err != nil { return err }`, and what follows it.
  abbrev pub unless_failed :
      Option Error × Node S → (Node S → Option Error × Node S) → Option Error × Node S
  unless_failed (some e, n) next = (some e, n)
  unless_failed (none, n) next = next n

  -- The file as it is, whether the node is up or down.
  abbrev pub file : Node S → S
  file n = elim n.acceptor [ some a ↦ a.store | none ↦ n.disk ]

  -- `Kill`, with the error of closing the store.
  unfoldable pub kill : Option Error → Node S → Option Error × Node S
  kill close_error n = if not n.alive then (none, n) else (
    elim close_error [ some e ↦ some (wrap "close store" e) | none ↦ none ],
    record n {
      alive = false;
      server = false;
      disk = file n;
      acceptor = none;
      proposer = none;
      campaign_cancel = none;
      campaigning = false;
      canceled = cancel n.campaign_cancel n.canceled;
    },
  )

  -- `TriggerCampaign`
  unfoldable pub trigger_campaign : Node S → Node S
  trigger_campaign n = if not n.alive || n.campaigning then n else record n {
    campaign_cancel = some n.made;
    campaigning = true;
    running = record { context = n.made; proposer = n.proposer } ∷ n.running;
    made = suc n.made;
  }

  -- `SetChaos`
  unfoldable pub set_chaos : Bool → Node S → Node S
  set_chaos true n = record n {
    chaos = true;
    chaos_cancel = some n.made;
    canceled = cancel n.chaos_cancel n.canceled;
    made = suc n.made;
  }
  set_chaos false n = record n {
    chaos = false;
    chaos_cancel = none;
    canceled = cancel n.chaos_cancel n.canceled;
  }

  -- `campaign` writes what its proposer has returned without an error.
  unfoldable pub learn : Attempt → ℤ → Node S → Node S
  learn attempt time n = record n {
    decision = record {
      proposal = attempt.proposal;
      value = attempt.value;
      learned = true;
      time = time;
    };
  }

  -- The deferred function of `campaign`, when the goroutine of context `c` returns.
  unfoldable pub end_campaign : ℕ → Node S → Node S
  end_campaign c n = record n { campaigning = false; running = without c n.running }

module _ {S : Type 0} (ops : Store S) where
  -- `Revive`, with its errors in the order of the calls.
  unfoldable pub revive : Opening → Node S → Option Error × Node S
  revive o n = if n.alive then (some err_already_alive, n) else elim o.open_error [
    | some e ↦ (some e, n)
    | none ↦ elim (new_acceptor ops n.cfg.id (some n.disk)) [
      | err e ↦ (some e, n)
      | ok a ↦ elim o.listen_error [
        | some e ↦ (some e, n)
        | none ↦
            let p = new_proposer n.cfg.id n.cfg.value (n.cfg.self ∷ n.cfg.peers) n.cfg.proposer in
            (
              none,
              record n {
                acceptor = some a;
                server = true;
                proposer = some n.made;
                proposers = λ k. if k == n.made then some p else n.proposers k;
                made = suc n.made;
                alive = true;
              },
            )
      ]
    ]
  ]

  -- `Reset` once the file holds the zero state: the decision goes, and the node comes up.
  abbrev pub come_up : Opening → Node S → Option Error × Node S
  come_up o n =
      unless_failed (revive o (record n { decision = no_decision }))
        λ n'. (none, if n'.cfg.campaign then trigger_campaign n' else n')

  abbrev pub save_empty : Node S → Option Error × Node S
  save_empty n =
      let (failure, disk) = ops.save empty_state n.disk in (failure, record n { disk = disk })

  -- `Reset` once the node is down.
  abbrev pub wipe : Resetting → Node S → Option Error × Node S
  wipe r n =
      unless_failed (r.open_error, n)
        λ m. unless_failed (save_empty m) λ k. unless_failed (r.close_error, k) (come_up r.opening)

  -- `Reset`
  unfoldable pub reset : Resetting → Node S → Option Error × Node S
  reset r n = unless_failed (kill r.kill_error n) (wipe r)

module _ {S : Type 0} (ops : Store S) where
  -- `Run` until it waits for its context.
  abbrev pub run : Opening → Node S → Option Error × Node S
  run o n =
      unless_failed (revive ops o n) λ m. (none, if m.cfg.campaign then trigger_campaign m else m)

  -- The deferred function of `Run`, with the error of closing the store, which it forgets.
  abbrev pub shut_down : Option Error → Node S → Node S
  shut_down close_error n = (kill close_error n).1

-- The delays of `chaosLoop`; 4 * minDelay as the machine computes it.
unfoldable pub chaos_delays : ℤ → ℤ → ℤ × ℤ
chaos_delays min_delay max_delay =
    let low = if leb_ℤ min_delay (pos 0) then pos 1_000_000_000 else min_delay in
    let twice = add_int low low in
    (low, if leb_ℤ max_delay low then add_int twice twice else max_delay)

module _ {S : Type 0} (ops : Store S) where
  -- A turn of `chaosLoop` after its wait: a node that is up is killed, and one that is down is revived.
  unfoldable pub chaos_turn : Option Error → Opening → Node S → Node S
  chaos_turn close_error o n =
      if n.alive
      then (kill close_error n).1
      else (unless_failed (revive ops o n) λ m. (none, trigger_campaign m)).1

module _ {S : Type 0} (ops : Store S) where
  -- What can happen to a node. The acceptor of a node that is up changes as it handles requests.
  pub data NodeStep (n : Node S) : Node S → Type 0 where
    revives : (o : Opening) → NodeStep n (revive ops o n).1
    kills : (close_error : Option Error) → NodeStep n (kill close_error n).1
    triggers : NodeStep n (trigger_campaign n)
    learns :
        (r : Running) (attempt : Attempt) (time : ℤ)
        → Has r n.running
        → NodeStep n (learn attempt time n)
    ends : (r : Running) → Has r n.running → NodeStep n (end_campaign r.context n)
    sets_chaos : (enabled : Bool) → NodeStep n (set_chaos enabled n)
    chaos_turns :
        (close_error : Option Error) (o : Opening) → NodeStep n (chaos_turn ops close_error o n)
    resets : (r : Resetting) → NodeStep n (reset ops r n).1
    prepares :
        (a : Acceptor S) (req : PrepareRequest)
        → n.acceptor ≡ some a
        → NodeStep n (record n { acceptor = some (Acceptor.prepare ops a req).1 })
    accepts :
        (a : Acceptor S) (req : AcceptRequest)
        → n.acceptor ≡ some a
        → NodeStep n (record n { acceptor = some (Acceptor.accept ops a req).1 })

  pub data NodeReach (n : Node S) : Node S → Type 0 where
    at_start : NodeReach n n
    goes_on : {m k : Node S} → NodeReach n m → NodeStep m k → NodeReach n k
