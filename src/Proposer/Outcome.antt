-- ===== src/Proposer/Outcome.antt =====
-- pkg/paxos/outcome.go and pkg/paxos/attempt.go
use interactive_paxos.Prelude.{ℕ, Bool, false, String}
use interactive_paxos.Proposal.{ProposalNumber, zero_proposal}

pub data Outcome : Type 0 where
  unknown chosen prepare_failed accept_failed aborted : Outcome

-- `Outcome.String`
unfoldable pub outcome_string : Outcome → String
outcome_string chosen = "chosen"
outcome_string prepare_failed = "prepare_failed"
outcome_string accept_failed = "accept_failed"
outcome_string aborted = "aborted"
outcome_string unknown = "unknown"

pub record Attempt : Type 0 where
  pub proposal : ProposalNumber
  pub value : ℕ
  pub outcome : Outcome
  pub promises : ℕ
  pub accepts : ℕ
  pub quorum : ℕ
  pub has_adopted_peer_value : Bool
  pub highest_seen : ProposalNumber

-- Go's zero value of the struct, `Attempt{}`.
abbrev pub empty_attempt : Attempt
empty_attempt = record {
  proposal = zero_proposal;
  value = 0;
  outcome = unknown;
  promises = 0;
  accepts = 0;
  quorum = 0;
  has_adopted_peer_value = false;
  highest_seen = zero_proposal;
}
