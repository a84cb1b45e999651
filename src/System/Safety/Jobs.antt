-- ===== src/System/Safety/Jobs.antt =====
-- The steps of the proposers keep the invariant, given what phase 1 has to establish.
use mathlib.Core.Option.{some-injective}
use interactive_paxos.Proposal.Order.{less_irrefl}
use interactive_paxos.Prelude.{
  ℕ, ℤ, ltb_ℤ, ◌≡◌, ◌≢◌, refl, sym, ◌∙◌, ap, ◌⊎◌, inl, inr, subst, false, Option, some, List, ◌==◌,
  Bool-cases, arith,
}
use interactive_paxos.Proposal.{ProposalNumber}
use interactive_paxos.Store.{Store, IsDurable}
use interactive_paxos.Proposer.{Proposer}
use interactive_paxos.System.{System, Job, Phase, update, issued, set_phase}
use interactive_paxos.System.Updates.{update_all, update-at, update-cases}
use interactive_paxos.System.Safety.{Issued, Backed, JobFacts, Inv}
use interactive_paxos.System.Safety.Extension.{Extends, Report-Extends, Backed-Extends}

pub update-ne : {A : Type 0} (f : ℕ → A) (i : ℕ) (a : A) (j : ℕ) → j ≢ i → update f i a j ≡ f j
update-ne f i a j h = ground arith

module _ {S : Type 0} {ops : Store S} (d : IsDurable ops) (members : List ℕ)
    (member : ℕ → Proposer ℕ) (s : System S) (inv : Inv d members member s) where
  -- States with the same sites, ledger and replies.
  pub same_Extends :
      (jobs : ℕ → Option Job) (rounds : ℕ → ℤ) (started : ℕ)
      → Extends d s (record s { jobs = jobs; rounds = rounds; started = started })
  same_Extends jobs rounds started = record {
    votes = λ i n v h. h;
    new_votes = λ i n v h. inl h;
    promises = λ i. less_irrefl _;
  }

  -- A new phase keeps what the call had issued, and what it issues is backed.
  pub set_phase-Inv :
      (t : ℕ) (j : Job) (phase : Phase)
      → s.jobs t ≡ some j
      → ((v : ℕ) → issued j.phase ≡ some v → issued phase ≡ some v)
      → ((v : ℕ) → issued phase ≡ some v → Backed d members s j.proposal v)
      → Inv d members member (set_phase t j phase s)
  set_phase-Inv t j phase at_t kept backs = record {
    job = λ u k e.
        let (k₀, e₀, q) = old_job u k e in
        let f = inv.job u k₀ e₀ in
        subst (JobFacts d member after u) (sym q) (record {
          known = f.known;
          own_id = f.own_id;
          positive = f.positive;
          reached = f.reached;
        });
    unique = λ u w k l e e' same.
        let (k₀, e₀, q) = old_job u k e in
        let (l₀, e₁, r) = old_job w l e' in
        inv.unique u w k₀ l₀ e₀ e₁ (sym (ap (λ x. x.proposal) q) ∙ same ∙ ap (λ x. x.proposal) r);
    vote_issued = λ i n v h. still_issued n v (inv.vote_issued i n v h);
    vote_kept = inv.vote_kept;
    last_vote = inv.last_vote;
    valid = inv.valid;
    report = λ x m p. Report-Extends d s after ext x (inv.report x m p);
    backed = λ n v h. Backed-Extends d s after ext members n v (backing n v h);
  }
    where
      j' : Job
      j' = record j { phase = phase }

      after : System S
      after = set_phase t j phase s

      ext : Extends d s after
      ext = same_Extends (update s.jobs t (some j')) s.rounds s.started

      cases : (u : ℕ) (k : Job) → after.jobs u ≡ some k → ((u ≡ t) × (k ≡ j')) ⊎ (s.jobs u ≡ some k)
      cases u k e = update-cases s.jobs t j' u k e

      old_job :
          (u : ℕ) (k : Job)
          → after.jobs u ≡ some k
          → (k₀ : Job) × (s.jobs u ≡ some k₀) × (k ≡ record k₀ { phase = k.phase })
      old_job u k e = elim (cases u k e) [
        | inl (at, q) ↦ (
          j,
          subst (λ x. s.jobs x ≡ some j) (sym at) at_t,
          q ∙ ap (λ x. record j { phase = x }) (sym (ap (λ x. x.phase) q)),
        )
        | inr old ↦ (k, old, refl)
      ]

      still_issued : (n : ProposalNumber) (v : ℕ) → Issued s n v → Issued after n v
      still_issued n v (u, k, e, q, h) = elim (Bool-cases (t == u)) [
        | inl at ↦
            let at' : t ≡ u = ground arith in
            let r : j ≡ k = some-injective j k (sym at_t ∙ ap s.jobs at' ∙ e) in
            (
              t,
              j',
              update-at s.jobs t (some j'),
              ap (λ x. x.proposal) r ∙ q,
              kept v (ap (λ x. issued x.phase) r ∙ h),
            )
        | inr other ↦ (u, k, update-ne s.jobs t (some j') u (λ a. ground arith) ∙ e, q, h)
      ]

      backing : (n : ProposalNumber) (v : ℕ) → Issued after n v → Backed d members s n v
      backing n v (u, k, e, q, h) = elim (cases u k e) [
        | inl (_, r) ↦
            subst (λ m. Backed d members s m v) (sym (ap (λ x. x.proposal) r) ∙ q)
              (backs v (sym (ap (λ x. issued x.phase) r) ∙ h))
        | inr old ↦ inv.backed n v (u, k, old, q, h)
      ]

  -- A counter that does not fall.
  pub rounds-Inv :
      (p : ℕ) (r : ℤ)
      → ltb_ℤ r (s.rounds p) ≡ false
      → Inv d members member (record s { rounds = update s.rounds p r })
  rounds-Inv p r up = record {
    job = λ t j e.
        let f = inv.job t j e in
        record {
          known = f.known;
          own_id = f.own_id;
          positive = f.positive;
          reached =
              update_all
                (λ q x.
                  ltb_ℤ (s.rounds q) j.proposal.round ≡ false → ltb_ℤ x j.proposal.round ≡ false)
                s.rounds p r (λ q h. h) (λ h. ground arith) j.owner f.reached;
        };
    unique = inv.unique;
    vote_issued = inv.vote_issued;
    vote_kept = inv.vote_kept;
    last_vote = inv.last_vote;
    valid = inv.valid;
    report = λ x m q. Report-Extends d s after ext x (inv.report x m q);
    backed = λ n v h. Backed-Extends d s after ext members n v (inv.backed n v h);
  }
    where
      after : System S
      after = record s { rounds = update s.rounds p r }

      ext : Extends d s after
      ext = same_Extends s.jobs (update s.rounds p r) s.started
