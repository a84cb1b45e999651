-- ===== src/Harness/Check/Choices.antt =====
-- What the choices of `Ledger.Chosen` are, whatever order the maps are visited in.
use interactive_paxos.Prelude.{
  ℕ, ℤ, ◌≤◌, ◌<◌, ◌≡◌, ◌↔◌, refl, sym, ◌∙◌, ap, subst, ◌⊎◌, inl, inr, true, false, ltb, eqb_ℤ,
  length, Has, List, [], ◌∷◌, Bool-cases, arith,
}
use interactive_paxos.Proposal.{ProposalNumber, same_number}
use interactive_paxos.Proposal.Order.{same_number-eq, same_number_refl}
use interactive_paxos.Harness.{Acceptance, Ledger}
use interactive_paxos.Harness.Check.{
  Values, Row, Choice, put_vote, by_proposal, Ranging, last_value, insert_choice, sort_choices,
  choice, choices, chosen_of, all_are, assert_agreement,
}
use interactive_paxos.Harness.Check.Table.{
  has_key, IsRow, by_proposal-IsRow, values_at, has_key-put_vote,
}

-- `range` visits every entry of a map, and no other.
pub record IsFair (ranging : Ranging) : Type 0 where
  pub rows : (rows : List Row) (r : Row) → Has r (ranging.rows rows) ↔ Has r rows
  pub acceptors : (vs : Values) (x : ℤ × ℕ) → Has x (ranging.acceptors vs) ↔ Has x vs

-- What a ledger says of an acceptor stands in the row of its proposal.
has_key-by_proposal :
    (n : ProposalNumber) (a : ℤ) (ledger : Ledger) (rows : List Row)
    → has_key a (values_at n rows) ≡ true
    → has_key a (values_at n (by_proposal ledger rows)) ≡ true
unfolding by_proposal
has_key-by_proposal n a [] rows h = h
has_key-by_proposal n a (x ∷ ledger) rows h =
    has_key-by_proposal n a ledger (put_vote x rows) (ground (arith, has_key-put_vote x n a rows))

eqb_refl : (a : ℤ) → eqb_ℤ a a ≡ true
eqb_refl a = ground arith

pub vote-by_proposal :
    (x : Acceptance) (ledger : Ledger) (rows : List Row)
    → Has x ledger
    → has_key x.acceptor_id (values_at x.proposal (by_proposal ledger rows)) ≡ true
unfolding by_proposal
vote-by_proposal x [] rows h = absurd h
vote-by_proposal x (y ∷ ledger) rows h = elim h [
  | inr later ↦ vote-by_proposal x ledger (put_vote y rows) later
  | inl e ↦ has_key-by_proposal x.proposal x.acceptor_id ledger (put_vote y rows) (
      subst (λ z. has_key x.acceptor_id (values_at x.proposal (put_vote z rows)) ≡ true) e
        (ground (
          arith,
          has_key-put_vote x x.proposal x.acceptor_id rows,
          same_number_refl x.proposal,
          eqb_refl x.acceptor_id,
        )))
]

-- An entry in the row of a proposal comes from a row of the table.
pub row_at :
    (n : ProposalNumber) (a : ℤ) (rows : List Row)
    → has_key a (values_at n rows) ≡ true
    → (r : Row) × Has r rows × (r.proposal ≡ n) × (r.acceptors ≡ values_at n rows)
row_at n a [] h = absurd (ground arith)
row_at n a (q ∷ rows) h = elim (Bool-cases (same_number n q.proposal)) [
  | inl same ↦ (q, inl refl, sym (same_number-eq n q.proposal same), sym (rw same refl))
  | inr other ↦
      let (r, m, e, f) = row_at n a rows (ground arith) in (r, inr m, e, f ∙ sym (rw other refl))
]

-- The last value of a visit is the value of an entry.
last_value-Has :
    (v : ℕ) (vs : Values) → (last_value v vs ≡ v) ⊎ ((a : ℤ) × Has (a, last_value v vs) vs)
unfolding last_value
last_value-Has v [] = inl refl
last_value-Has v ((a, w) ∷ vs) = elim (last_value-Has w vs) [
  | inl e ↦ inr (a, inl (ap (λ x. (a, x)) e))
  | inr (b, m) ↦ inr (b, inr m)
]

-- If there is an entry, the value is that of one, not the initial one.
last_value-entry : (x : ℤ × ℕ) (vs : Values) → Has x vs → (a : ℤ) × Has (a, last_value 0 vs) vs
unfolding last_value
last_value-entry x [] h = absurd h
last_value-entry x ((a, w) ∷ vs) h = elim (last_value-Has w vs) [
  | inl e ↦ (a, inl (ap (λ v. (a, v)) e))
  | inr (b, m) ↦ (b, inr m)
]

Has-insert_choice :
    (c x : Choice) (cs : List Choice) → Has x (insert_choice c cs) ↔ ((x ≡ c) ⊎ Has x cs)
unfolding insert_choice
Has-insert_choice c x [] = (λ h. h, λ h. h)
Has-insert_choice c x (d ∷ ds) = ground (arith, Has-insert_choice c x ds)

Has-sort_choices : (x : Choice) (cs : List Choice) → Has x (sort_choices cs) ↔ Has x cs
unfolding sort_choices
Has-sort_choices x [] = (λ h. h, λ h. h)
Has-sort_choices x (c ∷ cs) =
    ground (arith, Has-insert_choice c x (sort_choices cs), Has-sort_choices x cs)

module _ (ranging : Ranging) where
  choices_few :
      (quorum : ℕ) (r : Row) (rows : List Row)
      → ltb (length r.acceptors) quorum ≡ true
      → choices ranging quorum (r ∷ rows) ≡ choices ranging quorum rows
  unfolding choices
  choices_few quorum r rows e = rw e refl

  choices_many :
      (quorum : ℕ) (r : Row) (rows : List Row)
      → ltb (length r.acceptors) quorum ≡ false
      → choices ranging quorum (r ∷ rows) ≡ choice ranging r ∷ choices ranging quorum rows
  unfolding choices
  choices_many quorum r rows e = rw e refl

  Has-choices :
      (quorum : ℕ) (rows : List Row) (c : Choice)
      → Has c (choices ranging quorum rows)
      → (r : Row) × Has r rows × (quorum ≤ length r.acceptors) × (c ≡ choice ranging r)
  unfolding choices
  Has-choices quorum [] c h = absurd h
  Has-choices quorum (r ∷ rows) c h = elim (Bool-cases (ltb (length r.acceptors) quorum)) [
    | inl few ↦
        let (q, m, k, e) =
          Has-choices quorum rows c (subst (Has c) (choices_few quorum r rows few) h) in
        (q, inr m, k, e)
    | inr many ↦ elim (subst (Has c) (choices_many quorum r rows many) h) [
      | inl e ↦ (r, inl refl, ground arith, e)
      | inr later ↦ let (q, m, k, e) = Has-choices quorum rows c later in (q, inr m, k, e)
    ]
  ]

  choices-Has :
      (quorum : ℕ) (rows : List Row) (r : Row)
      → Has r rows
      → quorum ≤ length r.acceptors
      → Has (choice ranging r) (choices ranging quorum rows)
  unfolding choices
  choices-Has quorum [] r h k = absurd h
  choices-Has quorum (q ∷ rows) r h k = elim (Bool-cases (ltb (length q.acceptors) quorum)) [
    | inl few ↦ subst (Has (choice ranging r)) (sym (choices_few quorum q rows few)) (elim h [
      | inl e ↦ absurd (ground (arith, ap (λ x. length x.acceptors) e))
      | inr later ↦ choices-Has quorum rows r later k
    ])
    | inr many ↦ subst (Has (choice ranging r)) (sym (choices_many quorum q rows many)) (elim h [
      | inl e ↦ inl (ap (choice ranging) e)
      | inr later ↦ inr (choices-Has quorum rows r later k)
    ])
  ]

  -- A choice stands for a row with a quorum of entries, and its value is that of one of them.
  pub record Chooses (quorum : ℕ) (ledger : Ledger) (c : Choice) : Type 0 where
    pub row : Row
    pub valid : IsRow ledger row
    pub enough : quorum ≤ length row.acceptors
    pub proposal : c.proposal ≡ row.proposal
    pub voter : ℤ
    pub value : Has (voter, c.value) row.acceptors

  first_key : (vs : Values) → 0 < length vs → (a : ℤ) × (has_key a vs ≡ true)
  first_key [] h = absurd (omega arith)
  first_key ((a, v) ∷ vs) h = (a, ground (arith, eqb_refl a))

  first_entry : (vs : Values) → 0 < length vs → (x : ℤ × ℕ) × Has x vs
  first_entry [] h = absurd (omega arith)
  first_entry (x ∷ vs) h = (x, inl refl)

  module _ (fair : IsFair ranging) (quorum : ℕ) (positive : 0 < quorum) (ledger : Ledger) where
    pub Has-Chooses :
        (c : Choice) → Has c (chosen_of ranging quorum ledger) → Chooses quorum ledger c
    Has-Chooses c h =
        let (r, m, k, e) =
          Has-choices quorum (ranging.rows (by_proposal ledger [])) c
            ((Has-sort_choices c _).0 h) in
        let (x, at) = first_entry r.acceptors (omega arith) in
        let (a, last) =
          last_value-entry x (ranging.acceptors r.acceptors)
            ((fair.acceptors r.acceptors x).1 at) in
        record {
          row = r;
          valid =
              by_proposal-IsRow ledger ledger [] (λ y m. m) (λ y m. absurd m) r
                ((fair.rows (by_proposal ledger []) r).0 m);
          enough = k;
          proposal = ap (λ x. x.proposal) e;
          voter = a;
          value = (fair.acceptors r.acceptors (a, c.value)).0 (
              subst (λ v. Has (a, v) (ranging.acceptors r.acceptors)) (sym (ap (λ x. x.value) e))
                last);
        }

    -- A proposal whose row has a quorum of entries has a choice.
    pub row_chosen :
        (n : ProposalNumber)
        → quorum ≤ length (values_at n (by_proposal ledger []))
        → (c : Choice) × Has c (chosen_of ranging quorum ledger) × (c.proposal ≡ n)
    row_chosen n enough =
        let (a, keyed) = first_key (values_at n (by_proposal ledger [])) (omega arith) in
        let (r, m, e, same) = row_at n a (by_proposal ledger []) keyed in
        let many : quorum ≤ length r.acceptors =
          subst (λ vs. quorum ≤ length vs) (sym same) enough in
        (
          choice ranging r,
          (Has-sort_choices (choice ranging r) _).1 (
              choices-Has quorum (ranging.rows (by_proposal ledger [])) r
                ((fair.rows (by_proposal ledger []) r).1 m) many),
          e,
        )

module _ (want : ℕ) where
  all_are-true :
      (cs : List Choice) → ((c : Choice) → Has c cs → c.value ≡ want) → all_are want cs ≡ true
  all_are-true [] h = refl
  all_are-true (c ∷ cs) h = ground (arith, h c (inl refl), all_are-true cs (λ d m. h d (inr m)))

-- The check passes if the choices agree.
pub agreement_asserted :
    (ranging : Ranging) (quorum : ℕ) (ledger : Ledger)
    → ((c d : Choice)
        → Has c (chosen_of ranging quorum ledger)
        → Has d (chosen_of ranging quorum ledger)
        → c.value ≡ d.value)
    → assert_agreement ranging quorum ledger ≡ true
unfolding assert_agreement
agreement_asserted ranging quorum ledger h =
    elim (chosen_of ranging quorum ledger)
        as (λ cs.
          ((c d : Choice) → Has c cs → Has d cs → c.value ≡ d.value)
          → (elim cs [ [] ↦ true | c ∷ rest ↦ all_are c.value (c ∷ rest) ]) ≡ true) [
            | [] ↦ λ same. refl
            | c ∷ rest ↦ λ same. all_are-true c.value (c ∷ rest) (λ d m. same d c m (inl refl))
          ]
      h
