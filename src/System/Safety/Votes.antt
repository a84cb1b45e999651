-- ===== src/System/Safety/Votes.antt =====
-- A node's vote keeps the invariant.
use interactive_paxos.Prelude.{
  ◌≢◌, ℕ, pos, ℤ, ◌≡◌, refl, sym, ap, ◌⊎◌, inl, inr, subst, subst₂, true, false, Result, some, List,
  [], ◌∷◌, ◌++◌,
}
use interactive_paxos.Proposal.{ProposalNumber, less}
use interactive_paxos.Proposal.Order.{le_trans, less_irrefl}
use interactive_paxos.Messages.{AcceptRequest, AcceptResponse}
use interactive_paxos.Store.{Store, IsDurable}
use interactive_paxos.Acceptor.{next_vote}
use interactive_paxos.Proposer.{Proposer}
use interactive_paxos.Harness.{Site, Acceptance, Ledger, node_accept}
use interactive_paxos.Harness.Sites.{
  held, SiteSynced, AcceptEffect, node_accept-AcceptEffect, entry,
}
use interactive_paxos.System.{
  System, Job, Reply, update, post, issued, accept_request, deliver_accept,
}
use interactive_paxos.System.Updates.{
  update_all, update_each, Has-append, Has-append_left, Has-append_last,
}
use interactive_paxos.System.Safety.{Voted, Issued, disk, Inv}
use interactive_paxos.System.Safety.Extension.{Extends, Report-Extends, Backed-Extends}
use interactive_paxos.System.Safety.Sites.{quiet-Inv}

magnitude : ℤ → ℕ
magnitude (pos n) = n
magnitude _ = 0

pos-injective : (a b : ℕ) → pos a ≡ pos b → a ≡ b
unfolding magnitude
pos-injective a b h = ap magnitude h

module _ {S : Type 0} {ops : Store S} (d : IsDurable ops) (members : List ℕ)
    (member : ℕ → Proposer ℕ) (s : System S) (inv : Inv d members member s) where
  module _ (i : ℕ) (req : AcceptRequest) (site : Site S) (acceptances : List (Reply AcceptResponse))
      (same : held d site ≡ next_vote req) (low : less req.proposal (disk d s i).promised ≡ false)
      (asked : Issued s req.proposal req.value) where
    abbrev voted_state : System S
    voted_state = record s {
      sites = update s.sites i site;
      ledger = s.ledger ++ entry (pos i) req ∷ [];
      acceptances = acceptances;
    }

    abbrev ballot : ℕ → ProposalNumber → ℕ → Acceptance
    ballot k n v = record { acceptor_id = pos k; proposal = n; value = v }

    -- A vote after the step is a vote before it, or the new one.
    vote-cases :
        (k : ℕ) (n : ProposalNumber) (v : ℕ)
        → Voted voted_state k n v
        → Voted s k n v ⊎ ((k ≡ i) × (n ≡ req.proposal) × (v ≡ req.value))
    vote-cases k n v h = elim (Has-append (ballot k n v) (entry (pos i) req) s.ledger h) [
      | inl old ↦ inl old
      | inr e ↦ inr (
        pos-injective k i (ap (λ x. x.acceptor_id) e),
        ap (λ x. x.proposal) e,
        ap (λ x. x.value) e,
      )
    ]

    old_votes : (k : ℕ) (n : ProposalNumber) (v : ℕ) → Voted s k n v → Voted voted_state k n v
    old_votes k n v h = Has-append_left (ballot k n v) (entry (pos i) req) s.ledger h

    voted-Extends : Extends d s voted_state
    voted-Extends = record {
      votes = old_votes;
      new_votes = λ k n v h. elim (vote-cases k n v h) [
        | inl old ↦ inl old
        | inr (at, number, _) ↦
            inr (subst₂ (λ a m. less m (disk d s a).promised ≡ false) (sym at) (sym number) low)
      ];
      promises =
          update_all (λ k x. less (held d x).promised (disk d s k).promised ≡ false) s.sites i site
            (λ k. less_irrefl _)
            (subst (λ x. less x.promised (disk d s i).promised ≡ false) (sym same) low);
    }

    -- The new disk covers the node's old votes, which lie below its old promise, and the new one.
    Voted-kept :
        (n : ProposalNumber) (v : ℕ)
        → Voted voted_state i n v
        → ((held d site).has_accepted ≡ true) × (less (held d site).accepted_proposal n ≡ false)
    Voted-kept n v h =
        subst (λ x. (x.has_accepted ≡ true) × (less x.accepted_proposal n ≡ false)) (sym same)
          (
            refl,
            elim (vote-cases i n v h) [
              | inl old ↦
                  le_trans _ _ _ (inv.vote_kept i n v old).1 (le_trans _ _ _ (inv.valid i) low)
              | inr (_, number, _) ↦
                  subst (λ m. less req.proposal m ≡ false) (sym number) (less_irrefl req.proposal)
            ],
          )

    -- Votes of the other nodes are the old ones.
    other_vote :
        (k : ℕ) → k ≢ i → (n : ProposalNumber) (v : ℕ) → Voted voted_state k n v → Voted s k n v
    other_vote k other n v h = elim (vote-cases k n v h) [
      | inl old ↦ old
      | inr (at, _, _) ↦ absurd (other at)
    ]

    voted-Inv : Inv d members member voted_state
    voted-Inv = record {
      job = λ t j e.
          let f = inv.job t j e in
          record { known = f.known; own_id = f.own_id; positive = f.positive; reached = f.reached };
      unique = inv.unique;
      vote_issued = λ k n v h. elim (vote-cases k n v h) [
        | inl old ↦ inv.vote_issued k n v old
        | inr (_, number, value) ↦ subst₂ (Issued s) (sym number) (sym value) asked
      ];
      vote_kept =
          update_each
            (λ k x.
              (n : ProposalNumber) (v : ℕ)
              → Voted voted_state k n v
              → ((held d x).has_accepted ≡ true) × (less (held d x).accepted_proposal n ≡ false))
            s.sites i site (λ k other n v h. inv.vote_kept k n v (other_vote k other n v h))
            Voted-kept;
      last_vote =
          update_all
            (λ k x.
              (held d x).has_accepted ≡ true
              → Voted voted_state k (held d x).accepted_proposal (held d x).accepted_value)
            s.sites i site (λ k h. old_votes k _ _ (inv.last_vote k h))
            (subst
              (λ x.
                x.has_accepted ≡ true → Voted voted_state i x.accepted_proposal x.accepted_value)
              (sym same) (λ _. Has-append_last (entry (pos i) req) s.ledger));
      valid =
          update_all (λ k x. less (held d x).promised (held d x).accepted_proposal ≡ false) s.sites
            i site inv.valid
            (subst (λ x. less x.promised x.accepted_proposal ≡ false) (sym same)
              (less_irrefl req.proposal));
      report = λ x m p. Report-Extends d s voted_state voted-Extends x (inv.report x m p);
      backed = λ n v h. Backed-Extends d s voted_state voted-Extends members n v (inv.backed n v h);
    }

  pub deliver_accept-Inv :
      (t i : ℕ) (j : Job) (v : ℕ)
      → s.jobs t ≡ some j
      → issued j.phase ≡ some v
      → SiteSynced d (s.sites i)
      → Inv d members member (deliver_accept ops member i j v s)
  deliver_accept-Inv t i j v known asked synced =
      elim (node_accept-AcceptEffect d (pos i) req (s.sites i) s.ledger synced) [
        | AcceptEffect.kept same unlogged _ ↦
            with_ledger s.ledger (sym unlogged)
              (quiet-Inv d members member s inv i result.1 pool same)
        | AcceptEffect.accepted r _ _ _ same logged low ↦
            with_ledger (s.ledger ++ entry (pos i) req ∷ []) (sym logged)
              (voted-Inv i req result.1 pool same low (t, j, known, refl, asked))
      ]
    where
      req : AcceptRequest
      req = accept_request member j v

      result : Result AcceptResponse × Site S × Ledger
      result = node_accept ops (pos i) req (s.sites i) s.ledger

      pool : List (Reply AcceptResponse)
      pool = post i j.proposal result.0 s.acceptances

      after : Ledger → System S
      after l = record s { sites = update s.sites i result.1; ledger = l; acceptances = pool }

      with_ledger :
          (l : Ledger)
          → l ≡ result.2
          → Inv d members member (after l)
          → Inv d members member (after result.2)
      with_ledger l e h = subst (λ x. Inv d members member (after x)) e h
