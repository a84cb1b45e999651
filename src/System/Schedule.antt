-- ===== src/System/Schedule.antt =====
-- Runs of a cluster by evaluation: a list of actions, and the proof that its steps are steps.

use interactive_paxos.Prelude.{
  ℕ, ◌≡◌, refl, sym, ◌∙◌, inl, inr, Bool, true, false, ◌&&◌, ◌==◌, Option, some, none, List, [],
  ◌∷◌, Has, if◌then◌else◌, Option-cases, Bool-cases, arith, ℕ_discrete,
}
use interactive_paxos.Proposal.Order.{same_number-eq}
use interactive_paxos.Proposal.{same_number, ProposalNumber, at_least, is_zero, less, max_proposal}
use interactive_paxos.Store.{Store}
use interactive_paxos.Proposer.{Proposer, next_proposal_number, after_prepare, after_accept}
use interactive_paxos.Proposer
use interactive_paxos.Proposer.Tally
use interactive_paxos.Proposer.Tally.{count_promise, count_accept, adopt}
use interactive_paxos.Acceptor
use interactive_paxos.Acceptor.{promise, vote, refuses, new_acceptor}
use interactive_paxos.Harness.{node_prepare, node_accept, crash, restart, record_acceptance}
use interactive_paxos.Proposer.Outcome.{Attempt}
use interactive_paxos.System.{
  System, Job, Phase, Reply, Received, Reach, next, begins, prepares, counts_promises, accepts,
  counts_accepts, crashes, restarts, preparing, accepting, issued,
}

-- What the scheduler lets happen: `t` is the place of a call of `Propose`, `i` a node, and `from` are
-- the peers whose replies the call has when it counts.
pub data Action : Type 0 where
  start : (p : ℕ) → Action
  ask : (t i : ℕ) → Action
  count_promises : (t : ℕ) (from : List ℕ) → Action
  send : (t i : ℕ) → Action
  count_accepts : (t : ℕ) (from : List ℕ) → Action
  crash_node restart_node : (i : ℕ) → Action

-- The last reply of each node to the proposal number.
unfoldable pub replies : {R : Type 0} → ProposalNumber → List (Reply R) → ℕ → Option R
unfolding same_number
replies n [] i = none
replies n (x ∷ pool) i = elim (x.acceptor == i && same_number x.proposal n) [
  | true ↦ some x.reply
  | false ↦ replies n pool i
]

and-true : (a b : Bool) → (a && b) ≡ true → (a ≡ true) × (b ≡ true)
and-true a b h = ground arith

module _ {R : Type 0} (n : ProposalNumber) (x : Reply R) (pool : List (Reply R)) (i : ℕ) where
  replies_head :
      (x.acceptor == i && same_number x.proposal n) ≡ true → replies n (x ∷ pool) i ≡ some x.reply
  unfolding replies
  replies_head h = ground arith

  replies_tail :
      (x.acceptor == i && same_number x.proposal n) ≡ false
      → replies n (x ∷ pool) i ≡ replies n pool i
  unfolding replies
  replies_tail h = ground arith

  from_head :
      (r : R)
      → (x.acceptor == i && same_number x.proposal n) ≡ true
      → some x.reply ≡ some r
      → record { acceptor = i; proposal = n; reply = r } ≡ x
  from_head r h e =
      let (at, number) = and-true (x.acceptor == i) (same_number x.proposal n) h in
      ground (arith, same_number-eq x.proposal n number)

replies-Received :
    {R : Type 0} (n : ProposalNumber) (pool : List (Reply R)) → Received n pool (replies n pool)
unfolding replies
replies-Received {R} n [] i r h = cc
replies-Received {R} n (x ∷ pool) i r h =
    elim (Bool-cases (x.acceptor == i && same_number x.proposal n)) [
      | inl e ↦ inl (from_head n x pool i r e (sym (replies_head n x pool i e) ∙ h))
      | inr e ↦ inr (replies-Received n pool i r (sym (replies_tail n x pool i e) ∙ h))
    ]

-- The replies of the nodes in a list.
unfoldable pub heard : {R : Type 0} → List ℕ → (ℕ → Option R) → ℕ → Option R
heard [] reply i = none
heard (k ∷ from) reply i = if k == i then reply i else heard from reply i

heard-reply :
    {R : Type 0} (from : List ℕ) (reply : ℕ → Option R) (i : ℕ) (r : R)
    → heard from reply i ≡ some r
    → reply i ≡ some r
unfolding heard
heard-reply [] reply i r h = cc
heard-reply (k ∷ from) reply i r h = ground (arith, heard-reply from reply i r)

pub heard-Received :
    {R : Type 0} (n : ProposalNumber) (pool : List (Reply R)) (from : List ℕ)
    → Received n pool (heard from (replies n pool))
heard-Received n pool from i r h =
    replies-Received n pool i r (heard-reply from (replies n pool) i r h)

-- The place of an entry, if it is there.
unfoldable pub place : (i : ℕ) (xs : List ℕ) → Option (Has i xs)
unfolding ℕ_discrete
place i [] = none
place i (x ∷ xs) = elim (ℕ_discrete i x) [
  | yes e ↦ some (inl e)
  | no _ ↦ elim (place i xs) [ some h ↦ some (inr h) | none ↦ none ]
]

pub data PhaseCase (phase : Phase) : Type 0 where
  is_preparing : phase ≡ preparing → PhaseCase phase
  is_accepting : (a : Attempt) → phase ≡ accepting a → PhaseCase phase
  is_over : PhaseCase phase

unfoldable pub phase_case : (phase : Phase) → PhaseCase phase
phase_case preparing = is_preparing refl
phase_case (accepting a) = is_accepting a refl
phase_case _ = is_over

module _ {S : Type 0} (ops : Store S) (member : ℕ → Proposer ℕ) where
  -- A state with the steps that lead to it.
  pub record Run (s : System S) : Type 0 where
    pub last : System S
    pub reach : Reach ops member s last

  module _ {s : System S} (r : Run s) where
    -- An action on a call of `Propose`; one that the state does not allow changes nothing.
    perform_ask : ℕ → (t : ℕ) (j : Job) → r.last.jobs t ≡ some j → Run s
    unfolding place
    perform_ask i t j known = elim (place i (member j.owner).peers) [
      | some h ↦ record { last = _; reach = next r.reach (prepares t i j known h) }
      | none ↦ r
    ]

    perform_send : ℕ → (t : ℕ) (j : Job) → r.last.jobs t ≡ some j → Run s
    unfolding place Option-cases
    perform_send i t j known = elim (place i (member j.owner).peers) [
      | some h ↦ elim (Option-cases (issued j.phase)) [
        | inr (v, e) ↦ record { last = _; reach = next r.reach (accepts t i j v known e h) }
        | inl _ ↦ r
      ]
      | none ↦ r
    ]

    perform_count_promises : List ℕ → (t : ℕ) (j : Job) → r.last.jobs t ≡ some j → Run s
    unfolding phase_case replies heard
    perform_count_promises from t j known = elim (phase_case j.phase) [
      | is_preparing e ↦ record {
        last = _;
        reach = next r.reach (
            counts_promises t j (heard from (replies j.proposal r.last.promises)) none known e
              (heard-Received j.proposal r.last.promises from));
      }
      | _ ↦ r
    ]

    perform_count_accepts : List ℕ → (t : ℕ) (j : Job) → r.last.jobs t ≡ some j → Run s
    unfolding phase_case replies heard
    perform_count_accepts from t j known = elim (phase_case j.phase) [
      | is_accepting a e ↦ record {
        last = _;
        reach = next r.reach (
            counts_accepts t j a (heard from (replies j.proposal r.last.acceptances)) none known e
              (heard-Received j.proposal r.last.acceptances from));
      }
      | _ ↦ r
    ]

    with_call : (t : ℕ) → ((j : Job) → r.last.jobs t ≡ some j → Run s) → Run s
    unfolding Option-cases
    with_call t f = elim (Option-cases (r.last.jobs t)) [ inl _ ↦ r | inr (j, e) ↦ f j e ]

    perform : Action → Run s
    unfolding perform_ask perform_send perform_count_promises perform_count_accepts with_call
    perform (start p) = record { last = _; reach = next r.reach (begins p) }
    perform (ask t i) = with_call t (perform_ask i t)
    perform (count_promises t from) = with_call t (perform_count_promises from t)
    perform (send t i) = with_call t (perform_send i t)
    perform (count_accepts t from) = with_call t (perform_count_accepts from t)
    perform (crash_node i) = record { last = _; reach = next r.reach (crashes i) }
    perform (restart_node i) = record { last = _; reach = next r.reach (restarts i) }

  unfoldable pub run : {s : System S} → Run s → List Action → Run s
  unfolding perform next_proposal_number node_prepare node_accept after_prepare after_accept
      Proposer.prepare Proposer.accept Tally.count_promises Tally.count_accepts count_promise
      count_accept adopt max_proposal Acceptor.prepare Acceptor.accept promise vote refuses at_least
      is_zero less crash restart new_acceptor record_acceptance
  run r [] = r
  run r (a ∷ actions) = run (perform r a) actions
