-- ===== src/System/Rounds/Deliveries.antt =====
-- A request that reaches an acceptor keeps the bound on rounds.

use interactive_paxos.Prelude.{ℕ, pos, ◌≡◌, sym, inl, inr, subst, Result, some}
use interactive_paxos.Proposal.{ProposalNumber}
use interactive_paxos.Messages.{PrepareRequest, PrepareResponse, AcceptRequest, AcceptResponse}
use interactive_paxos.Harness.Promises.{
  OldOrNew, prepare-promise, prepare-highest, accept-promise, accept-highest,
}
use interactive_paxos.Store.{Store, IsDurable}
use interactive_paxos.Proposer.{Proposer}
use interactive_paxos.Harness.{Site, Ledger, node_prepare, node_accept}
use interactive_paxos.Harness.Sites.{
  held, SiteSynced, PrepareEffect, node_prepare-PrepareEffect, node_prepare-SiteSynced,
  AcceptEffect, node_accept-AcceptEffect, node_accept-SiteSynced,
}
use interactive_paxos.System.{
  System, Job, update, prepare_request, accept_request, deliver_prepare, deliver_accept,
}
use interactive_paxos.System.Updates.{update_all, post-cases}
use interactive_paxos.System.Rounds.{UpTo, IsBounded}

module _ {S : Type 0} {ops : Store S} (d : IsDurable ops) (member : ℕ → Proposer ℕ) (s : System S)
    (n : ℕ) (b : IsBounded d n s) where
  -- A change of one site only.
  pub site_IsBounded :
      (i : ℕ) (site : Site S)
      → SiteSynced d site
      → UpTo n (held d site).promised.round
      → IsBounded d n (record s { sites = update s.sites i site })
  site_IsBounded i site sync small = record {
    synced = update_all (λ j x. SiteSynced d x) s.sites i site b.synced sync;
    counter = b.counter;
    promise = update_all (λ j x. UpTo n (held d x).promised.round) s.sites i site b.promise small;
    job = b.job;
    attempt = b.attempt;
    prepare_reply = b.prepare_reply;
    accept_reply = b.accept_reply;
  }

  from_disk_or_request :
      (i : ℕ) (t : ℕ) (j : Job)
      → s.jobs t ≡ some j
      → (m : ProposalNumber) → OldOrNew (held d (s.sites i)).promised j.proposal m
      → UpTo n m.round
  from_disk_or_request i t j known m source = elim source [
    | inl e ↦ subst (λ q. UpTo n q.round) (sym e) (b.promise i)
    | inr e ↦ subst (λ q. UpTo n q.round) (sym e) (b.job t j known)
  ]

  pub deliver_prepare-IsBounded :
      (t i : ℕ) (j : Job) → s.jobs t ≡ some j → IsBounded d n (deliver_prepare ops member i j s)
  deliver_prepare-IsBounded t i j known = record {
    synced = sites.synced;
    counter = b.counter;
    promise = sites.promise;
    job = b.job;
    attempt = b.attempt;
    prepare_reply = λ x m. elim (post-cases i j.proposal result.0 s.promises x m) [
      | inl old ↦ b.prepare_reply x old
      | inr (r, e, q) ↦
          subst (λ y. UpTo n y.reply.highest_promised.round) (sym q)
            (from_disk_or_request i t j known _ (prepare-highest d req _ _ _ effect r e))
    ];
    accept_reply = b.accept_reply;
  }
    where
      req : PrepareRequest
      req = prepare_request member j

      result : Result PrepareResponse × Site S
      result = node_prepare ops req (s.sites i)

      effect : PrepareEffect d req (s.sites i) result.1 result.0
      effect = node_prepare-PrepareEffect d req (s.sites i) (b.synced i)

      sites : IsBounded d n (record s { sites = update s.sites i result.1 })
      sites =
          site_IsBounded i result.1 (node_prepare-SiteSynced d req (s.sites i) (b.synced i))
            (from_disk_or_request i t j known _ (prepare-promise d req _ _ _ effect))

  pub deliver_accept-IsBounded :
      (t i : ℕ) (j : Job) (v : ℕ)
      → s.jobs t ≡ some j
      → IsBounded d n (deliver_accept ops member i j v s)
  deliver_accept-IsBounded t i j v known = record {
    synced = sites.synced;
    counter = b.counter;
    promise = sites.promise;
    job = b.job;
    attempt = b.attempt;
    prepare_reply = b.prepare_reply;
    accept_reply = λ x m. elim (post-cases i j.proposal result.0 s.acceptances x m) [
      | inl old ↦ b.accept_reply x old
      | inr (r, e, q) ↦
          subst (λ y. UpTo n y.reply.highest_promised.round) (sym q)
            (from_disk_or_request i t j known _ (accept-highest d (pos i) req _ _ _ _ _ effect r e))
    ];
  }
    where
      req : AcceptRequest
      req = accept_request member j v

      result : Result AcceptResponse × Site S × Ledger
      result = node_accept ops (pos i) req (s.sites i) s.ledger

      effect : AcceptEffect d (pos i) req (s.sites i) result.1 s.ledger result.2 result.0
      effect = node_accept-AcceptEffect d (pos i) req (s.sites i) s.ledger (b.synced i)

      sites : IsBounded d n (record s { sites = update s.sites i result.1 })
      sites =
          site_IsBounded i result.1
            (node_accept-SiteSynced d (pos i) req (s.sites i) s.ledger (b.synced i))
            (from_disk_or_request i t j known _ (accept-promise d (pos i) req _ _ _ _ _ effect))
