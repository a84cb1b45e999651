-- ===== src/Harness/Check/Table.antt =====
-- The table that `Ledger.Chosen` makes of a ledger, and what its choices are.
use interactive_paxos.Prelude.{
  ℕ, ℤ, ◌≡◌, refl, sym, ap, subst, ◌⊎◌, inl, inr, Bool, true, false, ◌||◌, ◌&&◌, eqb_ℤ, Has, List,
  [], ◌∷◌, if◌then◌else◌, Bool-cases, arith,
}
use interactive_paxos.Proposal.{ProposalNumber, same_number}
use interactive_paxos.Proposal.Order.{same_number-eq}
use interactive_paxos.Harness.{Acceptance, Ledger}
use interactive_paxos.Harness.Check.{Values, Row, put_value, put_vote, by_proposal}

abbrev pub has_key : ℤ → Values → Bool
has_key a [] = false
has_key a ((b, w) ∷ vs) = if eqb_ℤ a b then true else has_key a vs

-- No acceptor has two entries.
abbrev pub DistinctKeys : Values → Type 0
DistinctKeys [] = Unit
DistinctKeys ((a, v) ∷ vs) = (has_key a vs ≡ false) × DistinctKeys vs

has_key-put_value :
    (a b : ℤ) (v : ℕ) (vs : Values) → has_key b (put_value a v vs) ≡ (eqb_ℤ b a || has_key b vs)
unfolding put_value
has_key-put_value a b v [] = ground arith
has_key-put_value a b v ((c, w) ∷ vs) = ground (arith, has_key-put_value a b v vs)

module _ (a b : ℤ) (v w : ℕ) (vs : Values) where
  put_value_here : eqb_ℤ a b ≡ true → put_value a v ((b, w) ∷ vs) ≡ (a, v) ∷ vs
  unfolding put_value
  put_value_here e = rw e refl

  put_value_later : eqb_ℤ a b ≡ false → put_value a v ((b, w) ∷ vs) ≡ (b, w) ∷ put_value a v vs
  unfolding put_value
  put_value_later e = rw e refl

put_value-DistinctKeys :
    (a : ℤ) (v : ℕ) (vs : Values) → DistinctKeys vs → DistinctKeys (put_value a v vs)
unfolding put_value
put_value-DistinctKeys a v [] d = (refl, tt)
put_value-DistinctKeys a v ((b, w) ∷ vs) d = elim (Bool-cases (eqb_ℤ a b)) [
  | inl e ↦
      let same : a ≡ b = ground arith in
      subst DistinctKeys (sym (put_value_here a b v w vs e))
        (subst (λ k. has_key k vs ≡ false) (sym same) d.0, d.1)
  | inr e ↦
      subst DistinctKeys (sym (put_value_later a b v w vs e))
        (ground (arith, has_key-put_value a b v vs, d.0), put_value-DistinctKeys a v vs d.1)
]

-- What a vote puts into a row was there, or is the vote.
Has-put_value :
    (a : ℤ) (v : ℕ) (vs : Values) (x : ℤ × ℕ) → Has x (put_value a v vs) → Has x vs ⊎ (x ≡ (a, v))
unfolding put_value
Has-put_value a v [] x h = elim h [ inl e ↦ inr e | inr f ↦ absurd f ]
Has-put_value a v ((b, w) ∷ vs) x h = elim (Bool-cases (eqb_ℤ a b)) [
  | inl e ↦ elim (subst (Has x) (put_value_here a b v w vs e) h) [
    | inl new ↦ inr new
    | inr old ↦ inl (inr old)
  ]
  | inr e ↦ elim (subst (Has x) (put_value_later a b v w vs e) h) [
    | inl old ↦ inl (inl old)
    | inr later ↦ elim (Has-put_value a v vs x later) [
      | inl old ↦ inl (inr old)
      | inr new ↦ inr new
    ]
  ]
]

abbrev pub ballot_of : ProposalNumber → ℤ × ℕ → Acceptance
ballot_of n (a, v) = record { acceptor_id = a; proposal = n; value = v }

-- The row's entries are votes of the ledger at its proposal, one of each acceptor.
pub record IsRow (ledger : Ledger) (r : Row) : Type 0 where
  pub votes : (x : ℤ × ℕ) → Has x r.acceptors → Has (ballot_of r.proposal x) ledger
  pub distinct : DistinctKeys r.acceptors

module _ (x : Acceptance) (q : Row) (rows : List Row) where
  abbrev voted : Row
  voted = record q { acceptors = put_value x.acceptor_id x.value q.acceptors }

  put_vote_here : same_number x.proposal q.proposal ≡ true → put_vote x (q ∷ rows) ≡ voted ∷ rows
  unfolding put_vote
  put_vote_here e = rw e refl

  put_vote_later :
      same_number x.proposal q.proposal ≡ false → put_vote x (q ∷ rows) ≡ q ∷ put_vote x rows
  unfolding put_vote
  put_vote_later e = rw e refl

voted_row :
    (ledger : Ledger) (x : Acceptance) (q : Row)
    → Has x ledger
    → x.proposal ≡ q.proposal
    → IsRow ledger q
    → IsRow ledger (record q { acceptors = put_value x.acceptor_id x.value q.acceptors })
voted_row ledger x q here same row = record {
  votes = λ y m. elim (Has-put_value x.acceptor_id x.value q.acceptors y m) [
    | inl old ↦ row.votes y old
    | inr new ↦
        subst (λ z. Has (ballot_of q.proposal z) ledger) (sym new)
          (subst (λ n. Has (ballot_of n (x.acceptor_id, x.value)) ledger) same here)
  ];
  distinct = put_value-DistinctKeys x.acceptor_id x.value q.acceptors row.distinct;
}

-- A new row, a row that the vote has changed, or a row as it was.
put_vote-IsRow :
    (ledger : Ledger) (x : Acceptance) (rows : List Row)
    → Has x ledger
    → ((r : Row) → Has r rows → IsRow ledger r)
    → (r : Row) → Has r (put_vote x rows)
    → IsRow ledger r
unfolding put_vote
put_vote-IsRow ledger x [] here all r h = elim h [
  | inl e ↦ subst (IsRow ledger) (sym e) (record {
    votes = λ y m. elim m [
      | inl q ↦ subst (λ z. Has (ballot_of x.proposal z) ledger) (sym q) here
      | inr f ↦ absurd f
    ];
    distinct = (refl, tt);
  })
  | inr f ↦ absurd f
]
put_vote-IsRow ledger x (q ∷ rows) here all r h =
    elim (Bool-cases (same_number x.proposal q.proposal)) [
      | inr other ↦ elim (subst (Has r) (put_vote_later x q rows other) h) [
        | inl e ↦ all r (inl e)
        | inr later ↦ put_vote-IsRow ledger x rows here (λ k m. all k (inr m)) r later
      ]
      | inl same ↦ elim (subst (Has r) (put_vote_here x q rows same) h) [
        | inr old ↦ all r (inr old)
        | inl e ↦
            subst (IsRow ledger) (sym e)
              (voted_row ledger x q here (same_number-eq _ _ same) (all q (inl refl)))
      ]
    ]

-- Every row of the table is one of the ledger.
pub by_proposal-IsRow :
    (ledger rest : Ledger) (rows : List Row)
    → ((x : Acceptance) → Has x rest → Has x ledger)
    → ((r : Row) → Has r rows → IsRow ledger r)
    → (r : Row) → Has r (by_proposal rest rows)
    → IsRow ledger r
unfolding by_proposal
by_proposal-IsRow ledger [] rows sub all r h = all r h
by_proposal-IsRow ledger (x ∷ rest) rows sub all r h =
    by_proposal-IsRow ledger rest (put_vote x rows) (λ y m. sub y (inr m))
      (put_vote-IsRow ledger x rows (sub x (inl refl)) all) r h

-- The entries of the row of a proposal, where there is one.
abbrev pub values_at : ProposalNumber → List Row → Values
values_at n [] = []
values_at n (r ∷ rows) = if same_number n r.proposal then r.acceptors else values_at n rows

same_number_eqs :
    (a b c : ProposalNumber) → same_number a b ≡ true → same_number c a ≡ same_number c b
same_number_eqs a b c h = ap (same_number c) (same_number-eq a b h)

pub has_key-put_vote :
    (x : Acceptance) (n : ProposalNumber) (a : ℤ) (rows : List Row)
    → has_key a (values_at n (put_vote x rows))
      ≡ (same_number n x.proposal && eqb_ℤ a x.acceptor_id || has_key a (values_at n rows))
unfolding put_vote
has_key-put_vote x n a [] = ground arith
has_key-put_vote x n a (q ∷ rows) = ground (
  arith,
  same_number_eqs x.proposal q.proposal n,
  same_number-eq n q.proposal,
  same_number-eq n x.proposal,
  has_key-put_value x.acceptor_id a x.value q.acceptors,
  has_key-put_vote x n a rows,
)
