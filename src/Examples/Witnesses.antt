-- ===== src/Examples/Witnesses.antt =====
-- Two rounds of a cluster of three, to which the theorems apply.
use interactive_paxos.Prelude.{
  ℕ, pos, Bool, true, false, inl, inr, ◌↔◌, Has, ◌≡◌, refl, some, ◌≤◌, max_int, arith,
}
use interactive_paxos.Store.Memory.{memory_store-IsDurable, load, save}
use interactive_paxos.Proposal.{ProposalNumber}
use interactive_paxos.Prelude.Int.{add_int}
use interactive_paxos.Proposer.{new_proposer}
use interactive_paxos.Proposer.Outcome.{Attempt, chosen}
use interactive_paxos.System.{Job, decided}
use interactive_paxos.System.Safety.{IsChosen}
use interactive_paxos.System.Schedule.{run}
use interactive_paxos.System.Rounds.{IsBounded}
use interactive_paxos.System.Rounds.Steps.{Reach-IsBounded}
use interactive_paxos.System.Safety.Steps.{fresh-IsBounded}
use interactive_paxos.Harness.Check.{Ranging, Choice, chosen_of}
use interactive_paxos.Harness.Check.Choices.{IsFair}
use interactive_paxos.System.Checked.{choice_iff}
use interactive_paxos.System.Validity.{validity}
use interactive_paxos.System.Learning.Steps.{report-IsChosen}
use interactive_paxos.Examples.Cluster.{
  members, value_of, member, init, init-IsFresh, member-IsCluster, reached, two_rounds,
}

abbrev pub number : ℕ → ProposalNumber
number p = record { round = pos 1; node_id = pos p }

abbrev pub attempt : ℕ → Bool → Attempt
attempt p adopted = record {
  proposal = number p;
  value = 10;
  outcome = chosen;
  promises = 2;
  accepts = 2;
  quorum = 2;
  has_adopted_peer_value = adopted;
  highest_seen = number p;
}

abbrev pub job : ℕ → Bool → Job
job p adopted = record { owner = p; proposal = number p; phase = decided (attempt p adopted) }

first_call : (reached two_rounds).last.jobs 0 ≡ some (job 1 false)
unfolding run new_proposer load save add_int
first_call = refl

second_call : (reached two_rounds).last.jobs 1 ≡ some (job 3 true)
unfolding run new_proposer load save add_int
second_call = refl

few_rounds : (reached two_rounds).last.started ≤ max_int
unfolding run new_proposer load save add_int
few_rounds = omega arith

IsChosen-second : IsChosen members (reached two_rounds).last (number 3) 10
IsChosen-second =
    report-IsChosen memory_store-IsDurable members (member value_of) (member-IsCluster value_of)
      init-IsFresh (reached two_rounds).reach few_rounds 1 (job 3 true) (attempt 3 true) second_call
      refl refl

validity_example : (p : ℕ) × ((member value_of p).value ≡ 10)
validity_example =
    validity memory_store-IsDurable members (member value_of) (member-IsCluster value_of)
      init-IsFresh (reached two_rounds).reach few_rounds (number 3) 10 IsChosen-second

report-IsChosen_example : IsChosen members (reached two_rounds).last (number 3) 10
report-IsChosen_example =
    report-IsChosen memory_store-IsDurable members (member value_of) (member-IsCluster value_of)
      init-IsFresh (reached two_rounds).reach few_rounds 1 (job 3 true) (attempt 3 true) second_call
      refl refl

Reach-IsBounded_example :
    IsBounded memory_store-IsDurable (reached two_rounds).last.started (reached two_rounds).last
Reach-IsBounded_example =
    Reach-IsBounded memory_store-IsDurable (member value_of) (reached two_rounds).reach few_rounds (
      fresh-IsBounded memory_store-IsDurable members (member value_of) (member-IsCluster value_of)
        init init-IsFresh)

-- Maps visited in the order of their lists.
abbrev pub in_order : Ranging
in_order = record { rows = λ rows. rows; acceptors = λ vs. vs }

pub in_order-IsFair : IsFair in_order
in_order-IsFair = record { rows = λ rows r. (λ h. h, λ h. h); acceptors = λ vs x. (λ h. h, λ h. h) }

choice_iff_example : IsChosen members (reached two_rounds).last (number 3) 10 ↔ (
    (c : Choice) × Has c (chosen_of in_order 2 (reached two_rounds).last.ledger)
    × (c.proposal ≡ number 3)
    × (c.value ≡ 10))
choice_iff_example =
    choice_iff memory_store-IsDurable members (member value_of) (member-IsCluster value_of)
      init-IsFresh (reached two_rounds).reach few_rounds in_order in_order-IsFair
      (
        λ h. elim h [
          | inl e ↦ omega (arith, e)
          | inr later ↦ elim later [ inl e ↦ omega (arith, e) | inr f ↦ f ]
        ],
        (λ h. elim h [ inl e ↦ omega (arith, e) | inr f ↦ f ], (λ h. h, tt)),
      )
      (number 3) 10
