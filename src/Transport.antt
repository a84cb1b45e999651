-- ===== src/Transport.antt =====
-- pkg/transport/convert.go over the messages of proto/paxos/v1/paxos.proto. A message is a pointer,
-- which may be nil; an `int` and an `int64` have the same 64 bits.
pub mod Peers
use interactive_paxos.Prelude.{ℕ, ℤ, pos, Bool, false, Option, none, some, ◌≡◌, refl}
use interactive_paxos.Proposal.{ProposalNumber, zero_proposal}
use interactive_paxos.Messages.{PrepareRequest, PrepareResponse, AcceptRequest, AcceptResponse}

pub record ProtoNumber : Type 0 where
  pub round : ℤ
  pub node_id : ℤ

pub record ProtoPrepareRequest : Type 0 where
  pub proposal : Option ProtoNumber
  pub proposer_id : ℤ

pub record ProtoPrepareResponse : Type 0 where
  pub promised : Bool
  pub highest_promised : Option ProtoNumber
  pub accepted_proposal : Option ProtoNumber
  pub accepted_value : ℕ
  pub has_accepted : Bool
  pub acceptor_id : ℤ

pub record ProtoAcceptRequest : Type 0 where
  pub proposal : Option ProtoNumber
  pub value : ℕ
  pub proposer_id : ℤ

pub record ProtoAcceptResponse : Type 0 where
  pub accepted : Bool
  pub highest_promised : Option ProtoNumber
  pub acceptor_id : ℤ

unfoldable pub proposal_to_proto : ProposalNumber → Option ProtoNumber
proposal_to_proto n = some (record { round = n.round; node_id = n.node_id })

unfoldable pub proposal_from_proto : Option ProtoNumber → ProposalNumber
proposal_from_proto none = zero_proposal
proposal_from_proto (some n) = record { round = n.round; node_id = n.node_id }

unfoldable pub prepare_request_to_proto : PrepareRequest → Option ProtoPrepareRequest
prepare_request_to_proto req =
    some (record { proposal = proposal_to_proto req.proposal; proposer_id = req.proposer_id })

-- A getter of a nil message gives the zero value of its field.
unfoldable pub prepare_request_from_proto : Option ProtoPrepareRequest → PrepareRequest
prepare_request_from_proto none = record {
  proposal = proposal_from_proto none;
  proposer_id = pos 0;
}
prepare_request_from_proto (some req) = record {
  proposal = proposal_from_proto req.proposal;
  proposer_id = req.proposer_id;
}

unfoldable pub prepare_response_to_proto : PrepareResponse → Option ProtoPrepareResponse
prepare_response_to_proto resp = some (record {
  promised = resp.promised;
  highest_promised = proposal_to_proto resp.highest_promised;
  accepted_proposal = proposal_to_proto resp.accepted_proposal;
  accepted_value = resp.accepted_value;
  has_accepted = resp.has_accepted;
  acceptor_id = resp.acceptor_id;
})

unfoldable pub prepare_response_from_proto : Option ProtoPrepareResponse → PrepareResponse
prepare_response_from_proto none = record {
  promised = false;
  highest_promised = proposal_from_proto none;
  accepted_proposal = proposal_from_proto none;
  accepted_value = 0;
  has_accepted = false;
  acceptor_id = pos 0;
}
prepare_response_from_proto (some resp) = record {
  promised = resp.promised;
  highest_promised = proposal_from_proto resp.highest_promised;
  accepted_proposal = proposal_from_proto resp.accepted_proposal;
  accepted_value = resp.accepted_value;
  has_accepted = resp.has_accepted;
  acceptor_id = resp.acceptor_id;
}

unfoldable pub accept_request_to_proto : AcceptRequest → Option ProtoAcceptRequest
accept_request_to_proto req = some (record {
  proposal = proposal_to_proto req.proposal;
  value = req.value;
  proposer_id = req.proposer_id;
})

unfoldable pub accept_request_from_proto : Option ProtoAcceptRequest → AcceptRequest
accept_request_from_proto none = record {
  proposal = proposal_from_proto none;
  value = 0;
  proposer_id = pos 0;
}
accept_request_from_proto (some req) = record {
  proposal = proposal_from_proto req.proposal;
  value = req.value;
  proposer_id = req.proposer_id;
}

unfoldable pub accept_response_to_proto : AcceptResponse → Option ProtoAcceptResponse
accept_response_to_proto resp = some (record {
  accepted = resp.accepted;
  highest_promised = proposal_to_proto resp.highest_promised;
  acceptor_id = resp.acceptor_id;
})

unfoldable pub accept_response_from_proto : Option ProtoAcceptResponse → AcceptResponse
accept_response_from_proto none = record {
  accepted = false;
  highest_promised = proposal_from_proto none;
  acceptor_id = pos 0;
}
accept_response_from_proto (some resp) = record {
  accepted = resp.accepted;
  highest_promised = proposal_from_proto resp.highest_promised;
  acceptor_id = resp.acceptor_id;
}

pub prepare_request-round_trip :
    (req : PrepareRequest) → prepare_request_from_proto (prepare_request_to_proto req) ≡ req
unfolding prepare_request_to_proto prepare_request_from_proto proposal_to_proto proposal_from_proto
prepare_request-round_trip req = refl

pub prepare_response-round_trip :
    (resp : PrepareResponse) → prepare_response_from_proto (prepare_response_to_proto resp) ≡ resp
unfolding prepare_response_to_proto prepare_response_from_proto proposal_to_proto
    proposal_from_proto
prepare_response-round_trip resp = refl

pub accept_request-round_trip :
    (req : AcceptRequest) → accept_request_from_proto (accept_request_to_proto req) ≡ req
unfolding accept_request_to_proto accept_request_from_proto proposal_to_proto proposal_from_proto
accept_request-round_trip req = refl

pub accept_response-round_trip :
    (resp : AcceptResponse) → accept_response_from_proto (accept_response_to_proto resp) ≡ resp
unfolding accept_response_to_proto accept_response_from_proto proposal_to_proto proposal_from_proto
accept_response-round_trip resp = refl
