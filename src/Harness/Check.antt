-- ===== src/Harness/Check.antt =====
-- `Ledger.Chosen` and `Harness.AssertAgreement` of pkg/paxostest/harness.go. A map is a list of its
-- entries; the order in which `range` visits them is a parameter.
pub mod Table
pub mod Choices
pub mod Members
use interactive_paxos.Prelude.{
  ℕ, ℤ, ltb, leb_ℤ, eqb_ℤ, ◌==◌, length, map, Bool, true, false, Option, none, some, List, [], ◌∷◌,
  if◌then◌else◌,
}
use interactive_paxos.Proposal.{ProposalNumber, less, same_number}
use interactive_paxos.Harness.{Acceptance, Ledger}

-- `map[int]uint64`: the value that each acceptor has accepted last.
abbrev pub Values : Type 0
Values = List (ℤ × ℕ)

-- An entry of `byProposal`.
pub record Row : Type 0 where
  pub proposal : ProposalNumber
  pub acceptors : Values

pub record Choice : Type 0 where
  pub proposal : ProposalNumber
  pub value : ℕ
  pub acceptors : List ℤ

unfoldable pub put_value : ℤ → ℕ → Values → Values
put_value a v [] = (a, v) ∷ []
put_value a v ((b, w) ∷ vs) =
    let rest = put_value a v vs in if eqb_ℤ a b then (a, v) ∷ vs else (b, w) ∷ rest

-- The body of the first loop: the row of the proposal is made, if it is not there.
unfoldable pub put_vote : Acceptance → List Row → List Row
unfolding put_value
put_vote x [] = record { proposal = x.proposal; acceptors = (x.acceptor_id, x.value) ∷ [] } ∷ []
put_vote x (r ∷ rows) =
    let rest = put_vote x rows in
    if same_number x.proposal r.proposal
    then record r { acceptors = put_value x.acceptor_id x.value r.acceptors } ∷ rows
    else r ∷ rest

unfoldable pub by_proposal : Ledger → List Row → List Row
by_proposal [] rows = rows
by_proposal (x ∷ ledger) rows = by_proposal ledger (put_vote x rows)

-- The orders in which `range` visits the two maps.
pub record Ranging : Type 0 where
  pub rows : List Row → List Row
  pub acceptors : Values → Values

-- The inner loop leaves the value of the entry that it visits last.
unfoldable pub last_value : ℕ → Values → ℕ
last_value v [] = v
last_value v ((a, w) ∷ vs) = last_value w vs

abbrev pub insert_id : ℤ → List ℤ → List ℤ
insert_id a [] = a ∷ []
insert_id a (b ∷ bs) = let rest = insert_id a bs in if leb_ℤ a b then a ∷ b ∷ bs else b ∷ rest

-- `sort.Ints`
unfoldable pub sort_ids : List ℤ → List ℤ
sort_ids [] = []
sort_ids (a ∷ bs) = insert_id a (sort_ids bs)

abbrev pub key : ℤ × ℕ → ℤ
key (a, v) = a

-- `sort.Slice` by the proposals' `Less`.
unfoldable pub insert_choice : Choice → List Choice → List Choice
insert_choice c [] = c ∷ []
insert_choice c (d ∷ ds) =
    let rest = insert_choice c ds in if less d.proposal c.proposal then d ∷ rest else c ∷ d ∷ ds

unfoldable pub sort_choices : List Choice → List Choice
sort_choices [] = []
sort_choices (c ∷ cs) = insert_choice c (sort_choices cs)

-- The loop of `AssertAgreement`.
abbrev pub all_are : ℕ → List Choice → Bool
all_are want [] = true
all_are want (c ∷ cs) = let rest = all_are want cs in if c.value == want then rest else false

module _ (ranging : Ranging) where
  abbrev pub choice : Row → Choice
  choice r =
      let visited = ranging.acceptors r.acceptors in
      record {
        proposal = r.proposal;
        value = last_value 0 visited;
        acceptors = sort_ids (map key visited);
      }

  -- The second loop.
  unfoldable pub choices : ℕ → List Row → List Choice
  choices quorum [] = []
  choices quorum (r ∷ rows) =
      let rest = choices quorum rows in
      if ltb (length r.acceptors) quorum then rest else choice r ∷ rest

  -- `Ledger.Chosen`
  abbrev pub chosen_of : ℕ → Ledger → List Choice
  chosen_of quorum ledger = sort_choices (choices quorum (ranging.rows (by_proposal ledger [])))

  -- `Harness.AssertAgreement`: whether the test goes on.
  unfoldable pub assert_agreement : ℕ → Ledger → Bool
  assert_agreement quorum ledger = elim (chosen_of quorum ledger) [
    | [] ↦ true
    | c ∷ cs ↦ all_are c.value (c ∷ cs)
  ]

  -- `Harness.ChosenValue`
  unfoldable pub chosen_value : ℕ → Ledger → Option ℕ
  chosen_value quorum ledger = elim (chosen_of quorum ledger) [ [] ↦ none | c ∷ cs ↦ some c.value ]
