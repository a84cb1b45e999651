-- ===== src/Proposer/Tally/Adoption.antt =====
-- Which value phase 1 hands to phase 2: the loop's choice against its description.
use interactive_paxos.Prelude.{
  ℕ, ◌≡◌, refl, ◌⊎◌, inl, inr, true, false, Option, none, some, List, [], ◌∷◌, arith, Has, subst,
  sym, ◌∙◌, Bool-cases, ◌&&◌,
}
use interactive_paxos.Proposal.{zero_proposal, less}
use interactive_paxos.Proposal.Order.{less_irrefl, less_asymm, le_trans, le-less_trans}
use interactive_paxos.Messages.{PrepareResponse}
use interactive_paxos.Proposer.Tally.{PrepareTally, count_promise, count_promises, no_promises}

-- The slots hold the reply `r`, which promised and reports an acceptance.
pub record Reports (slots : List (Option PrepareResponse)) (r : PrepareResponse) : Type 0 where
  pub filled : Has (some r) slots
  pub promised : r.promised ≡ true
  pub accepted : r.has_accepted ≡ true

-- Where a tally's value comes from: a reported acceptance above the zero proposal.
pub record Adopted (slots : List (Option PrepareResponse)) (t : PrepareTally) : Type 0 where
  pub source : PrepareResponse
  pub reports : Reports slots source
  pub value : t.value ≡ source.accepted_value
  pub highest : t.highest_accepted ≡ source.accepted_proposal
  pub above : less zero_proposal source.accepted_proposal ≡ true
  pub adopted : t.has_adopted_peer_value ≡ true

-- The part of the tally that the choice of the value concerns.
pub record SameChoice (t u : PrepareTally) : Type 0 where
  pub value : u.value ≡ t.value
  pub highest : u.highest_accepted ≡ t.highest_accepted
  pub adopted : u.has_adopted_peer_value ≡ t.has_adopted_peer_value

highest-count_promise :
    (t : PrepareTally) (slot : Option PrepareResponse)
    → less (count_promise t slot).highest_accepted t.highest_accepted ≡ false
unfolding count_promise
highest-count_promise t none = less_irrefl t.highest_accepted
highest-count_promise t (some r) =
    ground
      (arith, less_irrefl t.highest_accepted, less_asymm t.highest_accepted r.accepted_proposal)

highest-count_promises :
    (t : PrepareTally) (slots : List (Option PrepareResponse))
    → less (count_promises t slots).highest_accepted t.highest_accepted ≡ false
unfolding count_promises
highest-count_promises t [] = less_irrefl t.highest_accepted
highest-count_promises t (slot ∷ slots) =
    le_trans _ _ _ (highest-count_promise t slot)
      (highest-count_promises (count_promise t slot) slots)

-- One reply that reports an acceptance is at most the running maximum.
report-le :
    (t : PrepareTally) (r : PrepareResponse)
    → r.promised ≡ true
    → r.has_accepted ≡ true
    → less (count_promise t (some r)).highest_accepted r.accepted_proposal ≡ false
unfolding count_promise
report-le t r p a = ground (arith, less_irrefl r.accepted_proposal)

-- Every reported acceptance is at most the tally's maximum.
pub reports-le :
    (t : PrepareTally) (slots : List (Option PrepareResponse)) (r : PrepareResponse)
    → Reports slots r
    → less (count_promises t slots).highest_accepted r.accepted_proposal ≡ false
unfolding count_promises
reports-le t [] r h = absurd h.filled
reports-le t (slot ∷ slots) r h = elim h.filled [
  | inl e ↦
      le_trans _ _ _
        (subst (λ s. less (count_promise t s).highest_accepted r.accepted_proposal ≡ false) e
          (report-le t r h.promised h.accepted))
        (highest-count_promises (count_promise t slot) slots)
  | inr later ↦
      reports-le (count_promise t slot) slots r
        (record { filled = later; promised = h.promised; accepted = h.accepted })
]

-- One slot leaves the choice alone, or it is a report above the running maximum, which is adopted.
step_choice :
    (t : PrepareTally) (slot : Option PrepareResponse)
    → SameChoice t (count_promise t slot)
      ⊎ ((r : PrepareResponse) × (slot ≡ some r)
          × (r.promised ≡ true)
          × (r.has_accepted ≡ true)
          × (less t.highest_accepted r.accepted_proposal ≡ true)
          × ((count_promise t slot).value ≡ r.accepted_value)
          × ((count_promise t slot).highest_accepted ≡ r.accepted_proposal)
          × ((count_promise t slot).has_adopted_peer_value ≡ true))
unfolding count_promise
step_choice t none = inl (record { value = refl; highest = refl; adopted = refl })
step_choice t (some r) = elim (Bool-cases r.promised) [
  | inr refused ↦
      inl (record { value = ground arith; highest = ground arith; adopted = ground arith })
  | inl promised ↦
      elim (Bool-cases (r.has_accepted && less t.highest_accepted r.accepted_proposal)) [
        | inr skipped ↦
            inl (record { value = ground arith; highest = ground arith; adopted = ground arith })
        | inl taken ↦ inr (
          r,
          refl,
          promised,
          ground arith,
          ground arith,
          ground arith,
          ground arith,
          ground arith,
        )
      ]
]

Adopted-later :
    {slot : Option PrepareResponse} {slots : List (Option PrepareResponse)} {t : PrepareTally}
    → Adopted slots t
    → Adopted (slot ∷ slots) t
Adopted-later h = record {
  source = h.source;
  reports = record {
    filled = inr h.reports.filled;
    promised = h.reports.promised;
    accepted = h.reports.accepted;
  };
  value = h.value;
  highest = h.highest;
  above = h.above;
  adopted = h.adopted;
}

-- The loop leaves the choice as it was, or takes it from a report.
count_promises-choice :
    (t : PrepareTally) (slots : List (Option PrepareResponse))
    → less t.highest_accepted zero_proposal ≡ false
    → SameChoice t (count_promises t slots) ⊎ Adopted slots (count_promises t slots)
unfolding count_promises
count_promises-choice t [] h = inl (record { value = refl; highest = refl; adopted = refl })
count_promises-choice t (slot ∷ slots) h =
    elim (count_promises-choice t' slots (le_trans _ _ _ h (highest-count_promise t slot))) [
      | inr later ↦ inr (Adopted-later later)
      | inl same ↦ elim (step_choice t slot) [
        | inl kept ↦ inl (record {
          value = same.value ∙ kept.value;
          highest = same.highest ∙ kept.highest;
          adopted = same.adopted ∙ kept.adopted;
        })
        | inr (r, e, promised, accepted, higher, value, highest, adopted) ↦ inr (record {
          source = r;
          reports = record { filled = inl (sym e); promised = promised; accepted = accepted };
          value = same.value ∙ value;
          highest = same.highest ∙ highest;
          above = le-less_trans _ _ _ h higher;
          adopted = same.adopted ∙ adopted;
        })
      ]
    ]
  where
    t' : PrepareTally
    t' = count_promise t slot

-- What phase 1 hands on: the proposer's own value, where no promise reports an acceptance, and
-- otherwise the value of the highest acceptance that a promise reports.
pub data Choice (own : ℕ) (slots : List (Option PrepareResponse)) (t : PrepareTally) : Type 0 where
  own_value :
      t.value ≡ own
      → t.has_adopted_peer_value ≡ false
      → ((r : PrepareResponse) → Reports slots r → less zero_proposal r.accepted_proposal ≡ false)
      → Choice own slots t
  peer_value :
      Adopted slots t
      → ((r : PrepareResponse)
          → Reports slots r
          → less t.highest_accepted r.accepted_proposal ≡ false)
      → Choice own slots t

-- The tally of a phase 1 broadcast holds the proposer's own value if no promise reports an
-- acceptance above the zero proposal, and otherwise the value of an acceptance that a promise
-- reports, such that no promise reports one with a higher number.
pub count_promises-Choice :
    (own : ℕ) (slots : List (Option PrepareResponse))
    → Choice own slots (count_promises (no_promises own) slots)
count_promises-Choice own slots =
    elim (count_promises-choice (no_promises own) slots (less_irrefl zero_proposal)) [
      | inl same ↦ own_value same.value same.adopted (λ r h.
          subst (λ p. less p r.accepted_proposal ≡ false) same.highest
            (reports-le (no_promises own) slots r h))
      | inr adopted ↦ peer_value adopted (reports-le (no_promises own) slots)
    ]
