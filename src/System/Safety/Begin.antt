-- ===== src/System/Safety/Begin.antt =====
-- A new call of `Propose` takes a proposal number that no other has, and so keeps the invariant.
use mathlib.Core.Bool.{false≢true}
use interactive_paxos.Prelude.{
  ℕ, suc, ◌+◌, ◌≤◌, pos, ℤ, ltb_ℤ, add_int, add_int-pos, max_int, ◌≡◌, refl, sym, ◌∙◌, ap, ◌⊎◌, inl,
  inr, subst, subst₂, true, false, some, List, arith,
}
use interactive_paxos.Proposal.{ProposalNumber}
use interactive_paxos.Store.{Store, IsDurable}
use interactive_paxos.Proposer.{Proposer, next_proposal_number}
use interactive_paxos.System.{System, Job, update, issued, begin, preparing}
use interactive_paxos.System.Updates.{update_all, update-at, update-cases}
use interactive_paxos.System.Rounds.{UpTo}
use interactive_paxos.System.Safety.{IsCluster, Issued, JobFacts, Inv}
use interactive_paxos.System.Safety.Extension.{Extends, Report-Extends, Backed-Extends}
use interactive_paxos.System.Safety.Jobs.{update-ne, same_Extends}

-- `round++` below the largest integer.
pub record Incremented (old new : ℤ) : Type 0 where
  pub above : ltb_ℤ old new ≡ true
  pub positive : ltb_ℤ (pos 0) new ≡ true
  pub no_fall : ltb_ℤ new old ≡ false

increment : (n : ℕ) (r : ℤ) → UpTo n r → n + 1 ≤ max_int → Incremented r (add_int r (pos 1))
increment n r (m, e, h) small =
    subst (λ x. Incremented x (add_int x (pos 1))) (sym e)
      (subst (Incremented (pos m)) (sym (add_int-pos m 1 (omega arith)))
        (record { above = ground arith; positive = ground arith; no_fall = ground arith }))

-- A call in phase 1 has issued nothing.
pub preparing_issues_nothing : (j : Job) (v : ℕ) → j.phase ≡ preparing → issued j.phase ≡ some v → ⊥
preparing_issues_nothing j v e h = ground arith

module _ {S : Type 0} {ops : Store S} (d : IsDurable ops) (members : List ℕ)
    (member : ℕ → Proposer ℕ) (cluster : IsCluster members member) (s : System S)
    (inv : Inv d members member s) where
  module _ (p : ℕ) (inc : Incremented (s.rounds p) (add_int (s.rounds p) (pos 1))) where
    abbrev new_round : ℤ
    new_round = add_int (s.rounds p) (pos 1)

    abbrev new_job : Job
    new_job = record {
      owner = p;
      proposal = record { round = new_round; node_id = (member p).id };
      phase = preparing;
    }

    abbrev begun : System S
    begun = record s {
      rounds = update s.rounds p new_round;
      started = suc s.started;
      jobs = update s.jobs s.started (some new_job);
    }

    new_facts : JobFacts d member begun s.started new_job
    new_facts = record {
      known = omega arith;
      own_id = refl;
      positive = inc.positive;
      reached =
          subst (λ x. ltb_ℤ x new_round ≡ false) (sym (update-at s.rounds p new_round))
            (ground arith);
    }

    old_facts : (t : ℕ) (j : Job) → JobFacts d member s t j → JobFacts d member begun t j
    old_facts t j f = record {
      known = omega (arith, f.known);
      own_id = f.own_id;
      positive = f.positive;
      reached =
          update_all
            (λ q x. ltb_ℤ (s.rounds q) j.proposal.round ≡ false → ltb_ℤ x j.proposal.round ≡ false)
            s.rounds p new_round (λ q h. h)
            (λ h. let up = inc.no_fall in let over = inc.above in ground arith) j.owner f.reached;
    }

    -- The new number is above those that this proposer has used; others have another node id.
    not_used : (t : ℕ) (j : Job) → s.jobs t ≡ some j → new_job.proposal ≡ j.proposal → ⊥
    not_used t j e same =
        let f = inv.job t j e in
        let own : p ≡ j.owner = cluster.distinct p j.owner (ap (λ x. x.node_id) same ∙ f.own_id) in
        let reached : ltb_ℤ (s.rounds p) new_round ≡ false =
          subst (λ x. ltb_ℤ (s.rounds p) x ≡ false) (sym (ap (λ x. x.round) same))
            (subst (λ q. ltb_ℤ (s.rounds q) j.proposal.round ≡ false) (sym own) f.reached) in
        false≢true (sym reached ∙ inc.above)

    cases :
        (u : ℕ) (k : Job)
        → begun.jobs u ≡ some k
        → ((u ≡ s.started) × (k ≡ new_job)) ⊎ (s.jobs u ≡ some k)
    cases u k e = update-cases s.jobs s.started new_job u k e

    begun_unique :
        (t u : ℕ) (j k : Job)
        → begun.jobs t ≡ some j
        → begun.jobs u ≡ some k
        → j.proposal ≡ k.proposal
        → t ≡ u
    begun_unique t u j k e e' same = elim (cases t j e) [
      | inl (at, q) ↦ elim (cases u k e') [
        | inl (at', _) ↦ at ∙ sym at'
        | inr old ↦ absurd (not_used u k old (sym (ap (λ x. x.proposal) q) ∙ same))
      ]
      | inr old ↦ elim (cases u k e') [
        | inl (_, r) ↦ absurd (not_used t j old (sym (ap (λ x. x.proposal) r) ∙ sym same))
        | inr old' ↦ inv.unique t u j k old old' same
      ]
    ]

    old-Issued : (n : ProposalNumber) (v : ℕ) → Issued s n v → Issued begun n v
    old-Issued n v (t, j, e, q, h) = (
      t,
      j,
      update-ne s.jobs s.started (some new_job) t
            (λ a. absurd (omega (arith, (inv.job t j e).known, a)))
          ∙ e,
      q,
      h,
    )

    new_issues_nothing : (n : ProposalNumber) (v : ℕ) → Issued begun n v → Issued s n v
    new_issues_nothing n v (t, j, e, q, h) = elim (cases t j e) [
      | inl (_, r) ↦ absurd (preparing_issues_nothing j v (ap (λ x. x.phase) r) h)
      | inr old ↦ (t, j, old, q, h)
    ]

    begun-Inv : Inv d members member begun
    begun-Inv = record {
      job = λ t j e. elim (cases t j e) [
        | inl (at, q) ↦ subst₂ (JobFacts d member begun) (sym at) (sym q) new_facts
        | inr old ↦ old_facts t j (inv.job t j old)
      ];
      unique = begun_unique;
      vote_issued = λ i n v h. old-Issued n v (inv.vote_issued i n v h);
      vote_kept = inv.vote_kept;
      last_vote = inv.last_vote;
      valid = inv.valid;
      report = λ x m q. Report-Extends d s begun ext x (inv.report x m q);
      backed = λ n v h.
          Backed-Extends d s begun ext members n v (inv.backed n v (new_issues_nothing n v h));
    }
      where
        ext : Extends d s begun
        ext =
            same_Extends d members member s inv (update s.jobs s.started (some new_job))
              (update s.rounds p new_round) (suc s.started)

  pub begin-Inv :
      (p : ℕ)
      → UpTo s.started (s.rounds p)
      → suc s.started ≤ max_int
      → Inv d members member (begin member p s)
  unfolding next_proposal_number
  begin-Inv p bound small = begun-Inv p (increment s.started (s.rounds p) bound (omega arith))
