-- ===== src/Harness.antt =====
-- pkg/paxostest/harness.go: the nodes of a cluster in one process, which crash and restart, and the
-- ledger of acceptances that it checks agreement by. The store is any store, not only the one in memory.
pub mod Sites
pub mod Promises
pub mod Check
use interactive_paxos.Prelude.{
  ℕ, ℤ, Result, ok, err, Error, new, wrap, some, List, [], ◌∷◌, ◌++◌, true, false,
}
use interactive_paxos.Proposal.{ProposalNumber}
use interactive_paxos.Messages.{PrepareRequest, PrepareResponse, AcceptRequest, AcceptResponse}
use interactive_paxos.Store.{Store}
use interactive_paxos.Acceptor
use interactive_paxos.Acceptor.{Acceptor, new_acceptor}

pub record Acceptance : Type 0 where
  pub acceptor_id : ℤ
  pub proposal : ProposalNumber
  pub value : ℕ

-- `Ledger`: its records, in the order in which they were made.
abbrev pub Ledger : Type 0
Ledger = List Acceptance

-- A running node has an acceptor, which holds the store; of a node that is down the store is left.
pub data Site (S : Type 0) : Type 0 where
  up : Acceptor S → Site S
  down : S → Site S

abbrev pub err_dead : Error
err_dead = wrap "acceptor" (new "paxostest: node is down")

module _ {S : Type 0} where
  -- `current`
  unfoldable pub current : Site S → Result (Acceptor S)
  current (up a) = ok a
  current (down s) = err err_dead

  -- `Crash`; a handler that has the acceptor already goes on (System/Handlers).
  unfoldable pub crash : Site S → Site S
  crash (up a) = down a.store
  crash (down s) = down s

  abbrev pub store_of : Site S → S
  store_of (up a) = a.store
  store_of (down s) = s

-- What `node.Accept` adds to the ledger: an entry for an acceptance, and nothing else.
unfoldable pub record_acceptance : ℤ → AcceptRequest → Result AcceptResponse → Ledger → Ledger
record_acceptance id req (err e) ledger = ledger
record_acceptance id req (ok resp) ledger = elim resp.accepted [
  | true ↦ ledger ++ record { acceptor_id = id; proposal = req.proposal; value = req.value } ∷ []
  | false ↦ ledger
]

module _ {S : Type 0} (ops : Store S) where
  -- `node.Prepare`, where no crash comes between `current` and the acceptor's handler.
  unfoldable pub node_prepare : PrepareRequest → Site S → Result PrepareResponse × Site S
  unfolding current
  node_prepare req site = elim (current site) [
    | err e ↦ (err e, site)
    | ok a ↦ let (reply, a') = Acceptor.prepare ops a req in (reply, up a')
  ]

  -- `node.Accept`, likewise, with what it leaves in the ledger.
  unfoldable pub node_accept :
      ℤ → AcceptRequest → Site S → Ledger → Result AcceptResponse × Site S × Ledger
  unfolding current record_acceptance
  node_accept id req site ledger = elim (current site) [
    | err e ↦ (err e, site, ledger)
    | ok a ↦
        let (reply, a') = Acceptor.accept ops a req in
        (reply, up a', record_acceptance id req reply ledger)
  ]

  -- `Restart`: a node whose state does not load stays as it is.
  unfoldable pub restart : ℤ → Site S → Site S
  restart id site = elim (new_acceptor ops id (some (store_of site))) [ ok a ↦ up a | err e ↦ site ]
