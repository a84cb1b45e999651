-- ===== src/System/Rounds.antt =====
-- How far rounds get: no round in the system, in a counter, a promise, a reply or an attempt, is
-- above the number of calls of `Propose` so far. So `round++` does not wrap within 2^63 calls.
pub mod Deliveries
pub mod Steps
use interactive_paxos.Prelude.{
  ℕ, zero, suc, ◌+◌, ◌≤◌, ℤ, pos, ltb_ℤ, add_int, add_int-pos, max_int, ◌≡◌, refl, sym, ◌∙◌, ap,
  ◌⊎◌, inl, inr, subst, Result, ok, Option, none, some, List, map, arith, Has, Bool-cases,
}
use interactive_paxos.Proposal.{ProposalNumber, zero_proposal, max_proposal}
use interactive_paxos.Proposal.Order.{max_proposal-cases}
use interactive_paxos.Messages.{PrepareResponse, AcceptResponse, AcceptorState}
use interactive_paxos.Store.{Store, IsDurable}
use interactive_paxos.Proposer.{
  Proposer, Cause, after_prepare, after_accept, next_proposal_number, fast_forward, quorum,
}
use interactive_paxos.Proposer
use interactive_paxos.Proposer.Outcome.{Attempt}
use interactive_paxos.Proposer.Tally.{PrepareTally, AcceptResult, no_promises, no_accepts}
use interactive_paxos.Proposer.Tally.Counting.{
  IsHighest, count_promises-IsHighest, count_accepts-IsHighest, promise_of, promise_of_accept,
}
use interactive_paxos.Harness.{Site, node_prepare, node_accept, crash, restart}
use interactive_paxos.Harness.Sites.{
  held, SiteSynced, PrepareEffect, node_prepare-PrepareEffect, node_prepare-SiteSynced,
  AcceptEffect, node_accept-AcceptEffect, node_accept-SiteSynced, held-crash, crash-SiteSynced,
  held-restart, restart-SiteSynced,
}
use interactive_paxos.System.{
  System, Job, Reply, Phase, Step, Received, update, post, proposer, attempt_of, after_phase_1,
  returned, prepare_request, accept_request, decided, set_phase, issued,
}
use interactive_paxos.System.Updates.{update_all, update-cases, post-cases, Has-map}

-- A round that is a number from 0 to `n`.
abbrev pub UpTo : ℕ → ℤ → Type 0
UpTo n r = (m : ℕ) × (r ≡ pos m) × (m ≤ n)

pub UpTo-suc : (n : ℕ) (r : ℤ) → UpTo n r → UpTo (suc n) r
UpTo-suc n r (m, e, h) = (m, e, omega arith)

pub UpTo-max :
    (n : ℕ) (a b : ProposalNumber)
    → UpTo n a.round
    → UpTo n b.round
    → UpTo n (max_proposal a b).round
UpTo-max n a b ha hb = elim (max_proposal-cases a b) [
  | inl e ↦ subst (λ p. UpTo n p.round) (sym e) ha
  | inr e ↦ subst (λ p. UpTo n p.round) (sym e) hb
]

-- The highest promise of a broadcast, where those of the replies are bounded.
pub UpTo-IsHighest :
    {R : Type 0} (promise : R → ProposalNumber) (slots : List (Option R)) (n : ℕ)
    (highest : ProposalNumber)
    → IsHighest promise slots zero_proposal highest
    → ((r : R) → Has (some r) slots → UpTo n (promise r).round)
    → UpTo n highest.round
UpTo-IsHighest promise slots n highest h bound = elim h.attained [
  | inl e ↦ subst (λ p. UpTo n p.round) (sym e) (0, refl, omega arith)
  | inr (r, m, e) ↦ subst (λ p. UpTo n p.round) (sym e) (bound r m)
]

pub fast_forward-round :
    {P : Type 0} (n : ProposalNumber) (p : Proposer P)
    → ((fast_forward n p).round ≡ p.round) ⊎ ((fast_forward n p).round ≡ n.round)
unfolding fast_forward
fast_forward-round n p = elim (Bool-cases (ltb_ℤ p.round n.round)) [
  | inl e ↦ inr (rw e)
  | inr e ↦ inl (rw e)
]

-- The attempt that phase 1 leaves has seen what its tally has seen.
pub after_prepare-highest_seen :
    (n : ProposalNumber) (q : ℕ) (t : PrepareTally) (cause : Option Cause) (a : Attempt)
    → attempt_of (after_phase_1 (after_prepare n q t cause)) ≡ some a
    → a.highest_seen ≡ t.highest_proposal_number_seen
unfolding after_prepare
after_prepare-highest_seen n q t cause a h = ground arith

pub after_accept-highest_seen :
    (a : Attempt) (r : AcceptResult) (cause : Option Cause)
    → (after_accept a r cause).highest_seen
      ≡ max_proposal a.highest_seen r.highest_proposal_number_seen
unfolding after_accept
after_accept-highest_seen a r cause = ground arith

pub returned-attempt_of :
    (phase : Phase) (a : Attempt) → returned phase ≡ some a → attempt_of phase ≡ some a
returned-attempt_of phase a h = ground arith

module _ {S : Type 0} {ops : Store S} (d : IsDurable ops) where
  -- Every round of the system is from 0 to `n`.
  pub record IsBounded (n : ℕ) (s : System S) : Type 0 where
    pub synced : (i : ℕ) → SiteSynced d (s.sites i)
    pub counter : (p : ℕ) → UpTo n (s.rounds p)
    pub promise : (i : ℕ) → UpTo n (held d (s.sites i)).promised.round
    pub job : (t : ℕ) (j : Job) → s.jobs t ≡ some j → UpTo n j.proposal.round
    pub attempt :
        (t : ℕ) (j : Job) (a : Attempt)
        → s.jobs t ≡ some j
        → attempt_of j.phase ≡ some a
        → UpTo n a.highest_seen.round
    pub prepare_reply :
        (x : Reply PrepareResponse) → Has x s.promises → UpTo n x.reply.highest_promised.round
    pub accept_reply :
        (x : Reply AcceptResponse) → Has x s.acceptances → UpTo n x.reply.highest_promised.round

  pub IsBounded-suc : (n : ℕ) (s : System S) → IsBounded n s → IsBounded (suc n) s
  IsBounded-suc n s b = record {
    synced = b.synced;
    counter = λ p. UpTo-suc n _ (b.counter p);
    promise = λ i. UpTo-suc n _ (b.promise i);
    job = λ t j e. UpTo-suc n _ (b.job t j e);
    attempt = λ t j a e h. UpTo-suc n _ (b.attempt t j a e h);
    prepare_reply = λ x h. UpTo-suc n _ (b.prepare_reply x h);
    accept_reply = λ x h. UpTo-suc n _ (b.accept_reply x h);
  }
