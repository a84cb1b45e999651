-- ===== src/System/Safety/Sites.antt =====
-- The steps of the nodes keep the invariant.
use interactive_paxos.Prelude.{
  ℕ, pos, ◌≡◌, refl, sym, ◌∙◌, ap, inl, inr, subst, true, false, Result, ok, List, Has, subst₂,
  ok-injective,
}
use mathlib.Core.Bool.{false≢true}
use interactive_paxos.Proposal.{ProposalNumber, less}
use interactive_paxos.Proposal.Order.{le_trans, less_irrefl}
use interactive_paxos.Messages.{PrepareRequest, PrepareResponse, AcceptResponse}
use interactive_paxos.Store.{Store, IsDurable}
use interactive_paxos.Proposer.{Proposer}
use interactive_paxos.Harness.{Site, node_prepare}
use interactive_paxos.Harness.Sites.{held, SiteSynced, PrepareEffect, node_prepare-PrepareEffect}
use interactive_paxos.System.{System, Job, Reply, update, post, prepare_request, deliver_prepare}
use interactive_paxos.System.Updates.{update_all, update-at, post-cases}
use interactive_paxos.System.Safety.{Voted, disk, Report, Inv}
use interactive_paxos.System.Safety.Extension.{Extends, Report-Extends, Backed-Extends}

module _ {S : Type 0} {ops : Store S} (d : IsDurable ops) (members : List ℕ)
    (member : ℕ → Proposer ℕ) (s : System S) (inv : Inv d members member s) where
  -- One node's disk keeps its vote and raises its promise; the pools may grow.
  module _ (i : ℕ) (site : Site S) (promises : List (Reply PrepareResponse))
      (acceptances : List (Reply AcceptResponse)) where
    abbrev promised_state : System S
    promised_state = record s {
      sites = update s.sites i site;
      promises = promises;
      acceptances = acceptances;
    }

    module _ (m : ProposalNumber) (same : held d site ≡ record (disk d s i) { promised = m })
        (grows : less m (disk d s i).promised ≡ false) where
      promised-Extends : Extends d s promised_state
      promised-Extends = record {
        votes = λ k n v h. h;
        new_votes = λ k n v h. inl h;
        promises =
            update_all (λ k x. less (held d x).promised (disk d s k).promised ≡ false) s.sites i
              site (λ k. less_irrefl _)
              (subst (λ x. less x.promised (disk d s i).promised ≡ false) (sym same) grows);
      }

      promised-Inv :
          ((x : Reply PrepareResponse)
            → Has x promises
            → x.reply.promised ≡ true
            → Report d promised_state x)
          → Inv d members member promised_state
      promised-Inv reports = record {
        job = λ t j e.
            let f = inv.job t j e in
            record {
              known = f.known;
              own_id = f.own_id;
              positive = f.positive;
              reached = f.reached;
            };
        unique = inv.unique;
        vote_issued = inv.vote_issued;
        vote_kept =
            update_all
              (λ k x.
                (n : ProposalNumber) (v : ℕ)
                → Voted s k n v
                → ((held d x).has_accepted ≡ true) × (less (held d x).accepted_proposal n ≡ false))
              s.sites i site inv.vote_kept
              λ n v h.
                subst (λ x. (x.has_accepted ≡ true) × (less x.accepted_proposal n ≡ false))
                  (sym same) (inv.vote_kept i n v h);
        last_vote =
            update_all
              (λ k x.
                (held d x).has_accepted ≡ true
                → Voted s k (held d x).accepted_proposal (held d x).accepted_value)
              s.sites i site inv.last_vote
              (subst (λ x. x.has_accepted ≡ true → Voted s i x.accepted_proposal x.accepted_value)
                (sym same) (inv.last_vote i));
        valid =
            update_all (λ k x. less (held d x).promised (held d x).accepted_proposal ≡ false)
              s.sites i site inv.valid
              (subst (λ x. less x.promised x.accepted_proposal ≡ false) (sym same)
                (le_trans _ _ _ (inv.valid i) grows));
        report = reports;
        backed = λ n v h.
            Backed-Extends d s promised_state promised-Extends members n v (inv.backed n v h);
      }

  -- A disk that is as it was.
  pub quiet-Inv :
      (i : ℕ) (site : Site S) (acceptances : List (Reply AcceptResponse))
      → held d site ≡ disk d s i
      → Inv d members member (promised_state i site s.promises acceptances)
  quiet-Inv i site acceptances same =
      promised-Inv i site s.promises acceptances (disk d s i).promised same (less_irrefl _) λ x m p.
        Report-Extends d s _
          (promised-Extends i site s.promises acceptances (disk d s i).promised same
            (less_irrefl _))
          x (inv.report x m p)

  -- What a node reports with a promise covers its votes: it reports the last one.
  new_report :
      (i : ℕ) (n : ProposalNumber) (r : PrepareResponse)
      → r.accepted_proposal ≡ (disk d s i).accepted_proposal
      → r.accepted_value ≡ (disk d s i).accepted_value
      → r.has_accepted ≡ (disk d s i).has_accepted
      → less n (disk d s i).promised ≡ false
      → (u : System S) → u.ledger ≡ s.ledger
      → (disk d u i).promised ≡ n
      → Report d u (record { acceptor = i; proposal = n; reply = r })
  new_report i n r ep ev eh low u same now = record {
    kept = subst (λ m. less m n ≡ false) (sym now) (less_irrefl n);
    covers = λ c w voted below.
        let (held_vote, upper) = inv.vote_kept i c w (
          subst (λ l. Has (record { acceptor_id = pos i; proposal = c; value = w }) l) same
            voted) in
        (eh ∙ held_vote, subst (λ p. less p c ≡ false) (sym ep) upper);
    source = λ accepted. (
      subst
          (λ l.
            Has
              (record {
                acceptor_id = pos i;
                proposal = r.accepted_proposal;
                value = r.accepted_value;
              })
              l)
          (sym same)
          (subst₂ (λ p v. Voted s i p v) (sym ep) (sym ev) (inv.last_vote i (sym eh ∙ accepted))),
      subst (λ p. less n p ≡ false) (sym ep) (le_trans _ _ _ (inv.valid i) low),
    );
  }

  pub deliver_prepare-Inv :
      (i : ℕ) (j : Job)
      → SiteSynced d (s.sites i)
      → Inv d members member (deliver_prepare ops member i j s)
  deliver_prepare-Inv i j synced = elim (node_prepare-PrepareEffect d req (s.sites i) synced) [
    | PrepareEffect.kept same quiet ↦
        promised-Inv i result.1 pool s.acceptances (disk d s i).promised same (less_irrefl _) (
          reports (disk d s i).promised same (less_irrefl _)
            λ r e p. absurd (false≢true (sym (quiet r e).0 ∙ p)))
    | PrepareEffect.promised r e high ep ev eh same low ↦
        promised-Inv i result.1 pool s.acceptances j.proposal same low (
          reports j.proposal same low λ r' e' p.
            let q : r ≡ r' = ok-injective (sym e ∙ e') in
            subst (λ x. Report d u (record { acceptor = i; proposal = j.proposal; reply = x })) q
              (new_report i j.proposal r ep ev eh low u refl (
                ap (λ x. (held d x).promised) (update-at s.sites i result.1)
                ∙ ap (λ x. x.promised) same)))
  ]
    where
      req : PrepareRequest
      req = prepare_request member j

      result : Result PrepareResponse × Site S
      result = node_prepare ops req (s.sites i)

      pool : List (Reply PrepareResponse)
      pool = post i j.proposal result.0 s.promises

      u : System S
      u = promised_state i result.1 pool s.acceptances

      reports :
          (m : ProposalNumber)
          → held d result.1 ≡ record (disk d s i) { promised = m }
          → less m (disk d s i).promised ≡ false
          → ((r : PrepareResponse)
              → result.0 ≡ ok r
              → r.promised ≡ true
              → Report d u (record { acceptor = i; proposal = j.proposal; reply = r }))
          → (x : Reply PrepareResponse) → Has x pool
          → x.reply.promised ≡ true
          → Report d u x
      reports m same grows fresh x h p = elim (post-cases i j.proposal result.0 s.promises x h) [
        | inl old ↦
            Report-Extends d s u (promised-Extends i result.1 pool s.acceptances m same grows) x
              (inv.report x old p)
        | inr (r, e, q) ↦
            subst (Report d u) (sym q) (fresh r e (subst (λ y. y.reply.promised ≡ true) q p))
      ]
