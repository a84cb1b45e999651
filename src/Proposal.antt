-- ===== src/Proposal.antt =====
-- pkg/paxos/proposal.go: proposal numbers and their order. The proofs are in the modules below.
pub mod Order
use interactive_paxos.Prelude.{ℤ, pos, negsuc, ltb_ℤ, leb_ℤ, eqb_ℤ, Bool, ◌&&◌, if◌then◌else◌}

pub record ProposalNumber : Type 0 where
  pub round : ℤ
  pub node_id : ℤ

abbrev pub zero_proposal : ProposalNumber
zero_proposal = record { round = pos 0; node_id = pos 0 }

unfoldable pub is_zero : ProposalNumber → Bool
is_zero p = eqb_ℤ p.round (pos 0) && eqb_ℤ p.node_id (pos 0)

-- The cases of the `switch`, in its order.
unfoldable pub compare : ProposalNumber → ProposalNumber → ℤ
compare p other =
    if ltb_ℤ p.round other.round
    then negsuc 0
    else if ltb_ℤ other.round p.round
    then pos 1
    else if ltb_ℤ p.node_id other.node_id
    then negsuc 0
    else if ltb_ℤ other.node_id p.node_id
    then pos 1
    else pos 0

unfoldable pub less : ProposalNumber → ProposalNumber → Bool
unfolding compare
less p other = ltb_ℤ (compare p other) (pos 0)

unfoldable pub at_least : ProposalNumber → ProposalNumber → Bool
unfolding compare
at_least p other = leb_ℤ (pos 0) (compare p other)

-- The package's `max`.
unfoldable pub max_proposal : ProposalNumber → ProposalNumber → ProposalNumber
unfolding less
max_proposal a b = if less a b then b else a

-- Go's `==` of two proposal numbers, by which a map finds its key.
unfoldable pub same_number : ProposalNumber → ProposalNumber → Bool
same_number a b = eqb_ℤ a.round b.round && eqb_ℤ a.node_id b.node_id
