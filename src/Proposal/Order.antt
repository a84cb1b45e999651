-- ===== src/Proposal/Order.antt =====
-- `Less` is a strict total order on proposal numbers, `AtLeast` its converse, `max` its maximum.
use interactive_paxos.Prelude.{
  pos, ltb_ℤ, ◌≡◌, ◌⊎◌, ◌↔◌, true, false, not, arith, negsuc, Bool-cases, inl, inr,
}
use interactive_paxos.Proposal.{
  ProposalNumber, zero_proposal, is_zero, compare, less, at_least, max_proposal, same_number,
}

pub less_irrefl : (a : ProposalNumber) → less a a ≡ false
unfolding less
less_irrefl a = ground arith

pub less_trans : (a b c : ProposalNumber) → less a b ≡ true → less b c ≡ true → less a c ≡ true
unfolding less
less_trans a b c p q = ground arith

pub less_asymm : (a b : ProposalNumber) → less a b ≡ true → less b a ≡ false
unfolding less
less_asymm a b p = ground arith

pub less_connex : (a b : ProposalNumber) → less a b ≡ false → less b a ≡ false → a ≡ b
unfolding less
less_connex a b p q = ground arith

pub less-le_trans : (a b c : ProposalNumber) → less a b ≡ true → less c b ≡ false → less a c ≡ true
unfolding less
less-le_trans a b c p q = ground arith

pub le-less_trans : (a b c : ProposalNumber) → less b a ≡ false → less b c ≡ true → less a c ≡ true
unfolding less
le-less_trans a b c p q = ground arith

pub le_trans : (a b c : ProposalNumber) → less b a ≡ false → less c b ≡ false → less c a ≡ false
unfolding less
le_trans a b c p q = ground arith

-- `AtLeast` is the converse of `Less`.
pub at_least-less : (a b : ProposalNumber) → at_least a b ≡ not (less a b)
unfolding at_least less
at_least-less a b = ground arith

-- `Less` is the lexicographic order: the rounds first, then the node ids.
abbrev pub Lexicographic : ProposalNumber → ProposalNumber → Type 0
Lexicographic a b =
    (ltb_ℤ a.round b.round ≡ true) ⊎ ((a.round ≡ b.round) × (ltb_ℤ a.node_id b.node_id ≡ true))

pub less-Lexicographic : (a b : ProposalNumber) → (less a b ≡ true) ↔ Lexicographic a b
unfolding less
less-Lexicographic a b = (λ h. ground arith, λ h. ground arith)

pub compare_antisymm : (a b : ProposalNumber) → (compare a b ≡ pos 0) ↔ (a ≡ b)
unfolding compare
compare_antisymm a b = (λ h. ground arith, λ h. ground arith)

-- What `Compare` promises: it is 0 at equal numbers only, exactly one of "less", "equal" and
-- "greater" holds, and "less" goes on through a third number.
pub record IsTotalOrder : Type 0 where
  pub zero_iff : (a b : ProposalNumber) → (compare a b ≡ pos 0) ↔ (a ≡ b)
  pub flip : (a b : ProposalNumber) → (compare a b ≡ negsuc 0) ↔ (compare b a ≡ pos 1)
  pub trans : (a b c : ProposalNumber) → less a b ≡ true → less b c ≡ true → less a c ≡ true
  pub lexicographic : (a b : ProposalNumber) → (less a b ≡ true) ↔ Lexicographic a b
  pub converse : (a b : ProposalNumber) → at_least a b ≡ not (less a b)

compare_flip : (a b : ProposalNumber) → (compare a b ≡ negsuc 0) ↔ (compare b a ≡ pos 1)
unfolding compare
compare_flip a b = (λ h. ground arith, λ h. ground arith)

-- `Compare` returns 0 exactly at equal numbers, turns its sign when its arguments are swapped,
-- and the `Less` and `AtLeast` that read its sign are the lexicographic order of round and node id,
-- which is transitive, and the negation of it.
pub compare-IsTotalOrder : IsTotalOrder
compare-IsTotalOrder = record {
  zero_iff = compare_antisymm;
  flip = compare_flip;
  trans = less_trans;
  lexicographic = less-Lexicographic;
  converse = at_least-less;
}

-- The `max` of two numbers is at most a third exactly if both of them are: it is the least upper
-- bound in the order of `Less`.
pub max_proposal-lub :
    (a b c : ProposalNumber)
    → (less c (max_proposal a b) ≡ false) ↔ ((less c a ≡ false) × (less c b ≡ false))
unfolding max_proposal less
max_proposal-lub a b c = (λ h. (ground arith, ground arith), λ h. ground arith)

pub max_proposal-upper :
    (a b : ProposalNumber)
    → (less (max_proposal a b) a ≡ false) × (less (max_proposal a b) b ≡ false)
max_proposal-upper a b = (max_proposal-lub a b (max_proposal a b)).0 (less_irrefl _)

-- A number of a positive round lies above the zero proposal and is not zero.
pub less-zero : (p : ProposalNumber) → ltb_ℤ (pos 0) p.round ≡ true → less zero_proposal p ≡ true
unfolding less
less-zero p h = ground arith

pub is_zero_iff : (p : ProposalNumber) → (is_zero p ≡ true) ↔ (p ≡ zero_proposal)
unfolding is_zero
is_zero_iff p = (λ h. ground arith, λ h. ground arith)

pub max_proposal-cases : (a b : ProposalNumber) → (max_proposal a b ≡ a) ⊎ (max_proposal a b ≡ b)
unfolding max_proposal
max_proposal-cases a b = elim (Bool-cases (less a b)) [ inl e ↦ inr (rw e) | inr e ↦ inl (rw e) ]

pub same_number-eq : (a b : ProposalNumber) → same_number a b ≡ true → a ≡ b
unfolding same_number
same_number-eq a b h = ground arith

pub same_number_refl : (a : ProposalNumber) → same_number a a ≡ true
unfolding same_number
same_number_refl a = ground arith
