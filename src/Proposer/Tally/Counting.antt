-- ===== src/Proposer/Tally/Counting.antt =====
-- The counters of both tallies, and the highest promise that they have seen.
use interactive_paxos.Prelude.{
  ℕ, ◌+◌, ◌≡◌, ◌⊎◌, inl, inr, refl, Bool, false, Option, none, some, List, [], ◌∷◌, arith, Has,
  if◌then◌else◌, subst, sym, ◌∙◌,
}
use mathlib.Core.Option.{some-injective}
use interactive_paxos.Proposal.{ProposalNumber, less, max_proposal}
use interactive_paxos.Proposal.Order.{less_irrefl, le_trans, max_proposal-upper, max_proposal-cases}
use interactive_paxos.Messages.{PrepareResponse, AcceptResponse}
use interactive_paxos.Proposer.Tally.{
  PrepareTally, count_promise, count_promises, AcceptResult, count_accept, count_accepts,
}

-- How many slots hold a reply that passes the test.
abbrev pub tally : {A : Type 0} → (A → Bool) → List (Option A) → ℕ
tally test [] = 0
tally test (none ∷ slots) = tally test slots
tally test (some r ∷ slots) = (if test r then 1 else 0) + tally test slots

abbrev pub is_promise : PrepareResponse → Bool
is_promise r = r.promised

abbrev pub is_acceptance : AcceptResponse → Bool
is_acceptance r = r.accepted

-- The number of promises is the number of slots whose reply promised.
pub promises-count_promises :
    (t : PrepareTally) (slots : List (Option PrepareResponse))
    → (count_promises t slots).promises_received ≡ t.promises_received + tally is_promise slots
unfolding count_promises count_promise
promises-count_promises t [] = omega arith
promises-count_promises t (none ∷ slots) = promises-count_promises t slots
promises-count_promises t (some r ∷ slots) =
    ground (arith, promises-count_promises (count_promise t (some r)) slots)

-- The number of accepts is the number of slots whose reply accepted.
pub accepts-count_accepts :
    (t : AcceptResult) (slots : List (Option AcceptResponse))
    → (count_accepts t slots).accepted_count ≡ t.accepted_count + tally is_acceptance slots
unfolding count_accepts count_accept
accepts-count_accepts t [] = omega arith
accepts-count_accepts t (none ∷ slots) = accepts-count_accepts t slots
accepts-count_accepts t (some r ∷ slots) =
    ground (arith, accepts-count_accepts (count_accept t (some r)) slots)

-- What a broadcast's counter `highestProposalNumberSeen` is: at least the promise in every reply,
-- also in one that rejected, and one of those promises unless it is where the loop began.
pub record IsHighest {A : Type 0} (promise : A → ProposalNumber) (slots : List (Option A))
    (start highest : ProposalNumber) : Type 0 where
  pub upper : (r : A) → Has (some r) slots → less highest (promise r) ≡ false
  pub grows : less highest start ≡ false
  pub attained : (highest ≡ start) ⊎ ((r : A) × Has (some r) slots × (highest ≡ promise r))

module _ {A : Type 0} (promise : A → ProposalNumber) where
  IsHighest-nil : (start : ProposalNumber) → IsHighest promise [] start start
  IsHighest-nil start = record {
    upper = λ r h. absurd h;
    grows = less_irrefl start;
    attained = inl refl;
  }

  IsHighest-skip :
      (slots : List (Option A)) (start highest : ProposalNumber)
      → IsHighest promise slots start highest
      → IsHighest promise (none ∷ slots) start highest
  IsHighest-skip slots start highest h = record {
    upper = λ r m. elim m [ inl e ↦ cc | inr later ↦ h.upper r later ];
    grows = h.grows;
    attained = elim h.attained [ inl e ↦ inl e | inr (r, m, e) ↦ inr (r, inr m, e) ];
  }

  IsHighest-more :
      (s : A) (slots : List (Option A)) (start highest : ProposalNumber)
      → IsHighest promise slots (max_proposal start (promise s)) highest
      → IsHighest promise (some s ∷ slots) start highest
  IsHighest-more s slots start highest h = record {
    upper = λ r m. elim m [
      | inl e ↦
          subst (λ a. less highest (promise a) ≡ false) (some-injective s r (sym e))
            (le_trans _ _ _ (max_proposal-upper start (promise s)).1 h.grows)
      | inr later ↦ h.upper r later
    ];
    grows = le_trans _ _ _ (max_proposal-upper start (promise s)).0 h.grows;
    attained = elim h.attained [
      | inl e ↦ elim (max_proposal-cases start (promise s)) [
        | inl old ↦ inl (e ∙ old)
        | inr new ↦ inr (s, inl refl, e ∙ new)
      ]
      | inr (r, m, e) ↦ inr (r, inr m, e)
    ];
  }

abbrev pub promise_of : PrepareResponse → ProposalNumber
promise_of r = r.highest_promised

abbrev pub promise_of_accept : AcceptResponse → ProposalNumber
promise_of_accept r = r.highest_promised

count_promise-none : (t : PrepareTally) → count_promise t none ≡ t
unfolding count_promise
count_promise-none t = refl

seen-count_promise :
    (t : PrepareTally) (r : PrepareResponse)
    → (count_promise t (some r)).highest_proposal_number_seen
      ≡ max_proposal t.highest_proposal_number_seen r.highest_promised
unfolding count_promise
seen-count_promise t r = ground arith

-- The highest number that phase 1 has seen is at least the promise in every reply, also in one
-- that rejects, and at least the number that the tally began with, and it is one of these.
pub count_promises-IsHighest :
    (t : PrepareTally) (slots : List (Option PrepareResponse))
    → IsHighest promise_of slots t.highest_proposal_number_seen
        (count_promises t slots).highest_proposal_number_seen
unfolding count_promises
count_promises-IsHighest t [] = IsHighest-nil promise_of _
count_promises-IsHighest t (none ∷ slots) = IsHighest-skip promise_of slots _ _ (
    subst
      (λ u.
        IsHighest promise_of slots u.highest_proposal_number_seen
          (count_promises (count_promise t none) slots).highest_proposal_number_seen)
      (count_promise-none t) (count_promises-IsHighest (count_promise t none) slots))
count_promises-IsHighest t (some r ∷ slots) = IsHighest-more promise_of r slots _ _ (
    subst
      (λ p.
        IsHighest promise_of slots p
          (count_promises (count_promise t (some r)) slots).highest_proposal_number_seen)
      (seen-count_promise t r) (count_promises-IsHighest (count_promise t (some r)) slots))

count_accept-none : (t : AcceptResult) → count_accept t none ≡ t
unfolding count_accept
count_accept-none t = refl

seen-count_accept :
    (t : AcceptResult) (r : AcceptResponse)
    → (count_accept t (some r)).highest_proposal_number_seen
      ≡ max_proposal t.highest_proposal_number_seen r.highest_promised
unfolding count_accept
seen-count_accept t r = ground arith

-- The highest number that phase 2 has seen is at least the promise in every reply, also in one
-- that rejects, and at least the number that the tally began with, and it is one of these.
pub count_accepts-IsHighest :
    (t : AcceptResult) (slots : List (Option AcceptResponse))
    → IsHighest promise_of_accept slots t.highest_proposal_number_seen
        (count_accepts t slots).highest_proposal_number_seen
unfolding count_accepts
count_accepts-IsHighest t [] = IsHighest-nil promise_of_accept _
count_accepts-IsHighest t (none ∷ slots) = IsHighest-skip promise_of_accept slots _ _ (
    subst
      (λ u.
        IsHighest promise_of_accept slots u.highest_proposal_number_seen
          (count_accepts (count_accept t none) slots).highest_proposal_number_seen)
      (count_accept-none t) (count_accepts-IsHighest (count_accept t none) slots))
count_accepts-IsHighest t (some r ∷ slots) = IsHighest-more promise_of_accept r slots _ _ (
    subst
      (λ p.
        IsHighest promise_of_accept slots p
          (count_accepts (count_accept t (some r)) slots).highest_proposal_number_seen)
      (seen-count_accept t r) (count_accepts-IsHighest (count_accept t (some r)) slots))
