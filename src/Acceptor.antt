-- ===== src/Acceptor.antt =====
-- pkg/paxos/acceptor.go: an acceptor over a store. Each handler runs under the acceptor's lock, so
-- it is one step from an acceptor to a reply and the acceptor after it. Logging is left out.
pub mod Durability
pub mod Kept
use interactive_paxos.Prelude.{
  ℤ, Bool, true, false, not, ◌||◌, Result, ok, err, new, wrap, Option, none, some, if◌then◌else◌,
}
use interactive_paxos.Proposal.{ProposalNumber, is_zero, at_least}
use interactive_paxos.Messages.{
  PrepareRequest, PrepareResponse, AcceptRequest, AcceptResponse, AcceptorState,
}
use interactive_paxos.Store.{Store}

pub record Acceptor (S : Type 0) : Type 0 where
  pub id : ℤ
  pub store : S
  pub state : AcceptorState

-- The guard of both handlers: the number is lower than the promise, or zero.
unfoldable pub refuses : AcceptorState → ProposalNumber → Bool
unfolding at_least is_zero
refuses state proposal = not (at_least proposal state.promised) || is_zero proposal

-- What is stored when the request has passed the guard.
abbrev pub next_promise : AcceptorState → PrepareRequest → AcceptorState
next_promise state req = record state { promised = req.proposal }

abbrev pub next_vote : AcceptRequest → AcceptorState
next_vote req = record {
  promised = req.proposal;
  accepted_proposal = req.proposal;
  accepted_value = req.value;
  has_accepted = true;
}

module _ {S : Type 0} where
  -- The acceptor's state before the request, as the reply to a refused `prepare` reports it.
  abbrev pub refused_prepare : Acceptor S → PrepareResponse
  refused_prepare a = record {
    promised = false;
    highest_promised = a.state.promised;
    accepted_proposal = a.state.accepted_proposal;
    accepted_value = a.state.accepted_value;
    has_accepted = a.state.has_accepted;
    acceptor_id = a.id;
  }

  abbrev pub promised_reply : Acceptor S → PrepareRequest → PrepareResponse
  promised_reply a req = record (refused_prepare a) {
    promised = true;
    highest_promised = req.proposal;
  }

  abbrev pub refused_accept : Acceptor S → AcceptResponse
  refused_accept a = record {
    accepted = false;
    highest_promised = a.state.promised;
    acceptor_id = a.id;
  }

  abbrev pub accepted_reply : Acceptor S → AcceptRequest → AcceptResponse
  accepted_reply a req = record (refused_accept a) {
    accepted = true;
    highest_promised = req.proposal;
  }

module _ {S : Type 0} (ops : Store S) where
  -- `none` is a nil store.
  unfoldable pub new_acceptor : ℤ → Option S → Result (Acceptor S)
  new_acceptor id none = err (new "acceptor: a store is required")
  new_acceptor id (some store) = elim (ops.load store) [
    | err e ↦ err (wrap "acceptor: load state" e)
    | ok state ↦ ok (record { id = id; store = store; state = state })
  ]

  -- The end of `Prepare`, once the request has passed the guard.
  unfoldable pub promise : Acceptor S → PrepareRequest → Result PrepareResponse × Acceptor S
  promise a req =
      let next = next_promise a.state req in
      let (failure, store) = ops.save next a.store in
      elim failure [
        | some e ↦ (err (wrap "persist promise" e), record a { store = store })
        | none ↦ (ok (promised_reply a req), record a { store = store; state = next })
      ]

  unfoldable pub prepare : Acceptor S → PrepareRequest → Result PrepareResponse × Acceptor S
  prepare a req =
      if refuses a.state req.proposal then (ok (refused_prepare a), a) else promise a req

  -- The end of `Accept`, once the request has passed the guard.
  unfoldable pub vote : Acceptor S → AcceptRequest → Result AcceptResponse × Acceptor S
  vote a req =
      let next = next_vote req in
      let (failure, store) = ops.save next a.store in
      elim failure [
        | some e ↦ (err (wrap "persist acceptance" e), record a { store = store })
        | none ↦ (ok (accepted_reply a req), record a { store = store; state = next })
      ]

  unfoldable pub accept : Acceptor S → AcceptRequest → Result AcceptResponse × Acceptor S
  accept a req = if refuses a.state req.proposal then (ok (refused_accept a), a) else vote a req
