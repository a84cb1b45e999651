-- ===== src/Proposer/Tally.antt =====
-- The counting loops of pkg/paxos/prepare.go and pkg/paxos/accept.go, over the slots that the
-- goroutines of a broadcast have filled. A slot is `none` where the call to its peer failed.
pub mod Adoption
pub mod Counting
use interactive_paxos.Prelude.{
  ℕ, ◌+◌, Bool, true, false, ◌&&◌, Option, none, some, List, [], ◌∷◌, if◌then◌else◌,
}
use interactive_paxos.Proposal.{ProposalNumber, zero_proposal, less, max_proposal}
use interactive_paxos.Messages.{PrepareResponse, AcceptResponse}

-- `prepareResponse`, with the loop's local variable `highestAccepted`.
pub record PrepareTally : Type 0 where
  pub promises_received : ℕ
  pub value : ℕ
  pub has_adopted_peer_value : Bool
  pub highest_proposal_number_seen : ProposalNumber
  pub highest_accepted : ProposalNumber

-- The loop's last `if`.
unfoldable pub adopt : PrepareResponse → PrepareTally → PrepareTally
adopt resp t =
    if resp.has_accepted && less t.highest_accepted resp.accepted_proposal
    then record t {
      highest_accepted = resp.accepted_proposal;
      value = resp.accepted_value;
      has_adopted_peer_value = true;
    }
    else t

-- One round of the loop. Each `continue` is a branch that returns.
unfoldable pub count_promise : PrepareTally → Option PrepareResponse → PrepareTally
unfolding adopt
count_promise t none = t
count_promise t (some resp) =
    let seen = record t {
      highest_proposal_number_seen =
          max_proposal t.highest_proposal_number_seen resp.highest_promised;
    } in
    if resp.promised
    then adopt resp (record seen { promises_received = seen.promises_received + 1 })
    else seen

unfoldable pub count_promises : PrepareTally → List (Option PrepareResponse) → PrepareTally
count_promises t [] = t
count_promises t (slot ∷ slots) = count_promises (count_promise t slot) slots

abbrev pub no_promises : ℕ → PrepareTally
no_promises value = record {
  promises_received = 0;
  value = value;
  has_adopted_peer_value = false;
  highest_proposal_number_seen = zero_proposal;
  highest_accepted = zero_proposal;
}

pub record AcceptResult : Type 0 where
  pub accepted_count : ℕ
  pub highest_proposal_number_seen : ProposalNumber

unfoldable pub count_accept : AcceptResult → Option AcceptResponse → AcceptResult
count_accept t none = t
count_accept t (some resp) =
    let seen = record t {
      highest_proposal_number_seen =
          max_proposal t.highest_proposal_number_seen resp.highest_promised;
    } in
    if resp.accepted then record seen { accepted_count = seen.accepted_count + 1 } else seen

unfoldable pub count_accepts : AcceptResult → List (Option AcceptResponse) → AcceptResult
count_accepts t [] = t
count_accepts t (slot ∷ slots) = count_accepts (count_accept t slot) slots

abbrev pub no_accepts : AcceptResult
no_accepts = record { accepted_count = 0; highest_proposal_number_seen = zero_proposal }
