-- ===== src/System/Handlers/Schedule.antt =====
-- Runs of overlapping handlers by evaluation.
use interactive_paxos.Prelude.{
  ℕ, pos, ◌≡◌, inl, inr, some, none, List, [], ◌∷◌, Option-cases, Result-cases, Bool-cases,
}
use interactive_paxos.Proposal.{at_least, is_zero, less, max_proposal, same_number}
use interactive_paxos.Store.{Store}
use interactive_paxos.Proposer.{Proposer, next_proposal_number, after_prepare, after_accept}
use interactive_paxos.Proposer
use interactive_paxos.Proposer.Tally
use interactive_paxos.Proposer.Tally.{count_promise, count_accept, adopt}
use interactive_paxos.Acceptor
use interactive_paxos.Acceptor.{promise, vote, refuses, new_acceptor}
use interactive_paxos.Harness.{
  node_prepare, node_accept, current, crash, record_acceptance, store_of,
}
use interactive_paxos.System.{Job, begins, counts_promises, counts_accepts, issued}
use interactive_paxos.System.Schedule.{
  place, phase_case, is_preparing, is_accepting, replies, heard, heard-Received,
}
use interactive_paxos.System.Handlers.{
  Overlap, OverlapStep, OverlapReach, one_more, Fetched, proposes, fetches, is_current,
  handles_prepare, handles_accept, overtaken_prepare, overtaken_accept, falls, loads, installs,
  prepare_overtaken, accept_overtaken,
}

-- What the scheduler lets happen: `t` is the place of a call of `Propose`, `h` a handler, `i` a node and
-- `r` a call of `Restart`.
pub data Turn : Type 0 where
  start : (p : ℕ) → Turn
  count_promises count_accepts : (t : ℕ) (from : List ℕ) → Turn
  fetch : (h i : ℕ) → Turn
  ask send : (h t : ℕ) → Turn
  fall : (i : ℕ) → Turn
  load_state : (r i : ℕ) → Turn
  install : (r : ℕ) → Turn

module _ {S : Type 0} (ops : Store S) (member : ℕ → Proposer ℕ) where
  pub record OverlapRun (s : Overlap S) : Type 0 where
    pub last : Overlap S
    pub reach : OverlapReach ops member s last

  module _ {s : Overlap S} (r : OverlapRun s) where
    then : {u : Overlap S} → OverlapStep ops member r.last u → OverlapRun s
    then st = record { last = _; reach = one_more r.reach st }

    take_ask :
        (h t : ℕ) (f : Fetched) (j : Job)
        → r.last.fetched h ≡ some f
        → r.last.now.jobs t ≡ some j
        → OverlapRun s
    unfolding then place Bool-cases
    take_ask h t f j got known = elim (place f.node (member j.owner).peers) [
      | none ↦ r
      | some m ↦ elim (Bool-cases (is_current f r.last)) [
        | inl own ↦ then (handles_prepare h t f j got own known m)
        | inr old ↦ then (overtaken_prepare h t f j got old known m)
      ]
    ]

    take_send :
        (h t : ℕ) (f : Fetched) (j : Job)
        → r.last.fetched h ≡ some f
        → r.last.now.jobs t ≡ some j
        → OverlapRun s
    unfolding then place Bool-cases Option-cases
    take_send h t f j got known = elim (place f.node (member j.owner).peers) [
      | none ↦ r
      | some m ↦ elim (Option-cases (issued j.phase)) [
        | inl _ ↦ r
        | inr (v, at) ↦ elim (Bool-cases (is_current f r.last)) [
          | inl own ↦ then (handles_accept h t f j v got own known at m)
          | inr old ↦ then (overtaken_accept h t f j v got old known at m)
        ]
      ]
    ]

    take_count_promises : List ℕ → (t : ℕ) (j : Job) → r.last.now.jobs t ≡ some j → OverlapRun s
    unfolding then phase_case replies heard
    take_count_promises from t j known = elim (phase_case j.phase) [
      | is_preparing e ↦ then (
          proposes
            (counts_promises t j (heard from (replies j.proposal r.last.now.promises)) none known e
              (heard-Received j.proposal r.last.now.promises from))
            tt)
      | _ ↦ r
    ]

    take_count_accepts : List ℕ → (t : ℕ) (j : Job) → r.last.now.jobs t ≡ some j → OverlapRun s
    unfolding then phase_case replies heard
    take_count_accepts from t j known = elim (phase_case j.phase) [
      | is_accepting a e ↦ then (
          proposes
            (counts_accepts t j a (heard from (replies j.proposal r.last.now.acceptances)) none
              known e (heard-Received j.proposal r.last.now.acceptances from))
            tt)
      | _ ↦ r
    ]

    of_call : (t : ℕ) → ((j : Job) → r.last.now.jobs t ≡ some j → OverlapRun s) → OverlapRun s
    unfolding Option-cases
    of_call t f = elim (Option-cases (r.last.now.jobs t)) [ inl _ ↦ r | inr (j, e) ↦ f j e ]

    of_handler : (h : ℕ) → ((f : Fetched) → r.last.fetched h ≡ some f → OverlapRun s) → OverlapRun s
    unfolding Option-cases
    of_handler h k = elim (Option-cases (r.last.fetched h)) [ inl _ ↦ r | inr (f, e) ↦ k f e ]

    take : Turn → OverlapRun s
    unfolding then take_ask take_send take_count_promises take_count_accepts of_call of_handler
        Option-cases Result-cases
    take (start p) = then (proposes (begins p) tt)
    take (count_promises t from) = of_call t (take_count_promises from t)
    take (count_accepts t from) = of_call t (take_count_accepts from t)
    take (fetch h i) = elim (Result-cases (current (r.last.now.sites i))) [
      | inl (a, e) ↦ then (fetches h i a e)
      | inr _ ↦ r
    ]
    take (ask h t) = of_handler h λ f got. of_call t λ j known. take_ask h t f j got known
    take (send h t) = of_handler h λ f got. of_call t λ j known. take_send h t f j got known
    take (fall i) = then (falls i)
    take (load_state k i) =
        elim (Result-cases (new_acceptor ops (pos i) (some (store_of (r.last.now.sites i))))) [
          | inl (a, e) ↦ then (loads k i a e)
          | inr _ ↦ r
        ]
    take (install k) = elim (Option-cases (r.last.loaded k)) [
      | inl _ ↦ r
      | inr (l, e) ↦ then (installs k l e)
    ]

  unfoldable pub overlap_run : {s : Overlap S} → OverlapRun s → List Turn → OverlapRun s
  unfolding take next_proposal_number node_prepare node_accept after_prepare after_accept current
      Proposer.prepare Proposer.accept Tally.count_promises Tally.count_accepts count_promise
      count_accept adopt max_proposal Acceptor.prepare Acceptor.accept promise vote refuses at_least
      is_zero less crash new_acceptor record_acceptance same_number prepare_overtaken
      accept_overtaken
  overlap_run r [] = r
  overlap_run r (a ∷ turns) = overlap_run (take r a) turns
