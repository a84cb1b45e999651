-- ===== src/Messages.antt =====
-- pkg/paxos/messages.go, and `AcceptorState` of pkg/paxos/acceptor.go. A `uint64` value is a number.
use interactive_paxos.Prelude.{ℕ, ℤ, Bool, false}
use interactive_paxos.Proposal.{ProposalNumber, zero_proposal}

pub record PrepareRequest : Type 0 where
  pub proposal : ProposalNumber
  pub proposer_id : ℤ

pub record PrepareResponse : Type 0 where
  pub promised : Bool
  pub highest_promised : ProposalNumber
  pub accepted_proposal : ProposalNumber
  pub accepted_value : ℕ
  pub has_accepted : Bool
  pub acceptor_id : ℤ

pub record AcceptRequest : Type 0 where
  pub proposal : ProposalNumber
  pub value : ℕ
  pub proposer_id : ℤ

pub record AcceptResponse : Type 0 where
  pub accepted : Bool
  pub highest_promised : ProposalNumber
  pub acceptor_id : ℤ

pub record AcceptorState : Type 0 where
  pub promised : ProposalNumber
  pub accepted_proposal : ProposalNumber
  pub accepted_value : ℕ
  pub has_accepted : Bool

-- Go's zero value of the struct, `AcceptorState{}`.
abbrev pub empty_state : AcceptorState
empty_state = record {
  promised = zero_proposal;
  accepted_proposal = zero_proposal;
  accepted_value = 0;
  has_accepted = false;
}
