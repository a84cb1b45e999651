-- ===== src/System/Safety/Steps.antt =====
-- Every step keeps the invariant, and it holds where nothing has happened yet.
use interactive_paxos.Prelude.{
  ℕ, ◌≤◌, pos, ltb_ℤ, max_int, ◌≡◌, refl, sym, ◌∙◌, ap, subst, false, Option, some, none, List, [],
  arith, Has,
}
use interactive_paxos.Proposal.{ProposalNumber, less, zero_proposal}
use interactive_paxos.Proposal.Order.{less_irrefl}
use interactive_paxos.Messages.{empty_state}
use interactive_paxos.Store.{Store, IsDurable}
use interactive_paxos.Proposer.{Proposer, Cause, after_accept, fast_forward}
use interactive_paxos.Proposer.Outcome.{Attempt}
use interactive_paxos.Proposer.Tally.{AcceptResult}
use interactive_paxos.Harness.Sites.{held, SiteSynced, held-crash, held-restart}
use interactive_paxos.System.{
  System, Job, Step, Reach, here, next, begins, prepares, counts_promises, accepts, counts_accepts,
  forwards, crashes, restarts, issued, proposer,
}
use interactive_paxos.System.Rounds.{IsBounded}
use interactive_paxos.System.Rounds.Steps.{Reach-IsBounded, started-le}
use interactive_paxos.System.Safety.{IsCluster, Inv}
use interactive_paxos.System.Safety.Sites.{quiet-Inv, deliver_prepare-Inv}
use interactive_paxos.System.Safety.Votes.{deliver_accept-Inv}
use interactive_paxos.System.Safety.Jobs.{set_phase-Inv, rounds-Inv}
use interactive_paxos.System.Safety.Begin.{begin-Inv, preparing_issues_nothing}
use interactive_paxos.System.Safety.Choice.{proceeds-Backed}

-- The round of a proposer does not fall when it reads a higher number.
fast_forward-grows :
    {P : Type 0} (n : ProposalNumber) (p : Proposer P)
    → ltb_ℤ (fast_forward n p).round p.round ≡ false
unfolding fast_forward
fast_forward-grows n p = ground arith

-- Phase 2 returns the value that it has asked for.
pub value-after_accept :
    (a : Attempt) (r : AcceptResult) (cause : Option Cause)
    → (after_accept a r cause).value ≡ a.value
unfolding after_accept
value-after_accept a r cause = ground arith

-- Nothing has happened yet: disks are empty, no call of `Propose` and no message is under way.
pub record IsFresh {S : Type 0} {ops : Store S} (d : IsDurable ops) (s : System S) : Type 0 where
  pub disks : (i : ℕ) → held d (s.sites i) ≡ empty_state
  pub synced : (i : ℕ) → SiteSynced d (s.sites i)
  pub ledger : s.ledger ≡ []
  pub rounds : (p : ℕ) → s.rounds p ≡ pos 0
  pub started : s.started ≡ 0
  pub jobs : (t : ℕ) → s.jobs t ≡ none
  pub promises : s.promises ≡ []
  pub acceptances : s.acceptances ≡ []

module _ {S : Type 0} {ops : Store S} (d : IsDurable ops) (members : List ℕ)
    (member : ℕ → Proposer ℕ) (cluster : IsCluster members member) where
  pub Step-Inv :
      {s u : System S}
      → Step ops member s u
      → u.started ≤ max_int
      → IsBounded d s.started s
      → Inv d members member s
      → Inv d members member u
  Step-Inv {s} (begins p) small b inv =
      begin-Inv d members member cluster s inv p (b.counter p) small
  Step-Inv {s} (prepares t i j known _) small b inv =
      deliver_prepare-Inv d members member s inv i j (b.synced i)
  Step-Inv {s} (counts_promises t j reply cause known waiting sent) small b inv =
      set_phase-Inv d members member s inv t j _ known
        (λ v h. absurd (preparing_issues_nothing j v waiting h))
        (proceeds-Backed d members member cluster s inv t j known waiting reply sent cause)
  Step-Inv {s} (accepts t i j v known asked _) small b inv =
      deliver_accept-Inv d members member s inv t i j v known asked (b.synced i)
  Step-Inv {s} (counts_accepts t j a reply cause known e sent) small b inv =
      set_phase-Inv d members member s inv t j _ known
        (λ v h. ap some (value-after_accept a _ cause) ∙ sym (ap issued e) ∙ h)
        (λ v h.
          inv.backed j.proposal v
            (t, j, known, refl, ap issued e ∙ ap some (sym (value-after_accept a _ cause)) ∙ h))
  Step-Inv {s} (forwards t j a known e) small b inv =
      rounds-Inv d members member s inv j.owner _
        (fast_forward-grows a.highest_seen (proposer member s j.owner))
  Step-Inv {s} (crashes i) small b inv =
      quiet-Inv d members member s inv i _ s.acceptances (held-crash d (s.sites i))
  Step-Inv {s} (restarts i) small b inv =
      quiet-Inv d members member s inv i _ s.acceptances (held-restart d (pos i) (s.sites i))

  pub fresh-IsBounded : (s : System S) → IsFresh d s → IsBounded d s.started s
  fresh-IsBounded s f = record {
    synced = f.synced;
    counter = λ p. (0, f.rounds p, omega arith);
    promise = λ i. (0, ap (λ x. x.promised.round) (f.disks i), omega arith);
    job = λ t j e. cc (f.jobs t);
    attempt = λ t j a e h. cc (f.jobs t);
    prepare_reply = λ x h. absurd (subst (Has x) f.promises h);
    accept_reply = λ x h. absurd (subst (Has x) f.acceptances h);
  }

  fresh-Inv : (s : System S) → IsFresh d s → Inv d members member s
  fresh-Inv s f = record {
    job = λ t j e. cc (f.jobs t);
    unique = λ t u j k e. cc (f.jobs t);
    vote_issued = λ i n v h. absurd (subst (Has _) f.ledger h);
    vote_kept = λ i n v h. absurd (subst (Has _) f.ledger h);
    last_vote = λ i h. cc (f.disks i);
    valid = λ i.
        subst (λ x. less x.promised x.accepted_proposal ≡ false) (sym (f.disks i))
          (less_irrefl zero_proposal);
    report = λ x h. absurd (subst (Has x) f.promises h);
    backed = λ n v h. absurd (let (t, j, e, q, a) = h in not_known t j e);
  }
    where
      not_known : (t : ℕ) (j : Job) → s.jobs t ≡ some j → ⊥
      not_known t j e = cc (f.jobs t)

  -- The invariant holds in every state that is reached within 2^63 - 1 calls of `Propose`.
  pub Reach-Inv :
      {s u : System S}
      → IsFresh d s
      → Reach ops member s u
      → u.started ≤ max_int
      → Inv d members member u
  Reach-Inv {s} f here small = fresh-Inv s f
  Reach-Inv {s} f (next {t} r st) small =
      let before : t.started ≤ max_int = omega (arith, started-le d member st) in
      Step-Inv st small (Reach-IsBounded d member r before (fresh-IsBounded s f))
        (Reach-Inv f r before)
