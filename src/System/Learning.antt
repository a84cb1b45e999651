-- ===== src/System/Learning.antt =====
-- What a proposer reports is true: a round that returns `OutcomeChosen` has had its value chosen.
pub mod Steps
use mathlib.Core.Option.{some-injective}
use mathlib.Core.Bool.{false≢true}
use interactive_paxos.Prelude.{
  ℕ, ℤ, pos, ◌+◌, ◌≤◌, max_int, ◌≡◌, refl, sym, ◌∙◌, ap, ◌⊎◌, inl, inr, subst, Bool, true, false,
  Option, some, none, List, [], ◌∷◌, ◌++◌, map, length, Has, Option-cases, if◌then◌else◌, arith,
  Result, ok, ok-injective,
}
use interactive_paxos.Quorum.{count, quorum_of, SameItems-length, SameItems-Has}
use interactive_paxos.Proposal.{ProposalNumber}
use interactive_paxos.Messages.{AcceptRequest, AcceptResponse}
use interactive_paxos.Store.{Store, IsDurable}
use interactive_paxos.Proposer.{Proposer, Cause, after_prepare, after_accept, quorum}
use interactive_paxos.Proposer
use interactive_paxos.Proposer.Outcome.{Attempt, chosen}
use interactive_paxos.Proposer.Tally.{PrepareTally, AcceptResult, no_accepts, count_accepts}
use interactive_paxos.Proposer.Tally.Counting.{tally, is_acceptance, accepts-count_accepts}
use interactive_paxos.Harness.{Site, Ledger, Acceptance, node_accept}
use interactive_paxos.Harness.Sites.{SiteSynced, AcceptEffect, node_accept-AcceptEffect, entry}
use interactive_paxos.System.{
  System, Job, Phase, Reply, Received, Step, Reach, here, next, begins, prepares, counts_promises,
  accepts, counts_accepts, forwards, crashes, restarts, accepting, decided, stopped, preparing,
  after_phase_1, post, update, set_phase, deliver_accept, accept_request, issued,
}
use interactive_paxos.System.Updates.{update-cases, post-cases, Has-append_left, Has-append_last}
use interactive_paxos.System.Rounds.{IsBounded}
use interactive_paxos.System.Rounds.Steps.{started-le}
use interactive_paxos.System.Safety.{IsCluster, Voted, Issued, IsChosen, Inv}
use interactive_paxos.System.Agreement.{Issued-unique, agreement}

-- The peer's slot is filled, and its reply accepted.
abbrev pub is_accepted : Option AcceptResponse → Bool
is_accepted none = false
is_accepted (some r) = r.accepted

pub accept_test : (ℕ → Option AcceptResponse) → ℕ → Bool
accept_test reply i = is_accepted (reply i)

pub tally-map :
    (reply : ℕ → Option AcceptResponse) (peers : List ℕ)
    → tally is_acceptance (map reply peers) ≡ count (accept_test reply) peers
unfolding count accept_test
tally-map reply [] = refl
tally-map reply (p ∷ peers) = elim (Option-cases (reply p)) [
  | inl e ↦ rw e (omega (arith, tally-map reply peers))
  | inr (r, e) ↦ rw e (ap (λ n. (if r.accepted then 1 else 0) + n) (tally-map reply peers))
]

-- A call that goes on to phase 2 asks for the quorum of its peers.
pub accepting-quorum :
    (n : ProposalNumber) (q : ℕ) (t : PrepareTally) (cause : Option Cause) (a : Attempt)
    → after_phase_1 (after_prepare n q t cause) ≡ accepting a
    → a.quorum ≡ q
unfolding after_prepare
accepting-quorum n q t cause a h = ground arith

pub not_decided :
    (n : ProposalNumber) (q : ℕ) (t : PrepareTally) (cause : Option Cause) (a : Attempt)
    → after_phase_1 (after_prepare n q t cause) ≡ decided a
    → ⊥
unfolding after_prepare
not_decided n q t cause a h = ground arith

-- Phase 2 reports `OutcomeChosen` only with a quorum of accepts.
pub chosen-quorum :
    (a : Attempt) (r : AcceptResult) (cause : Option Cause)
    → (after_accept a r cause).outcome ≡ chosen
    → (a.quorum ≤ r.accepted_count) × ((after_accept a r cause).value ≡ a.value)
unfolding after_accept
chosen-quorum a r cause h = ground arith

decided_attempt : Attempt → Phase → Attempt
decided_attempt a (decided b) = b
decided_attempt a _ = a

pub decided-injective : {a b : Attempt} → decided a ≡ decided b → a ≡ b
unfolding decided_attempt
decided-injective {a} h = ap (decided_attempt a) h

module _ {S : Type 0} (members : List ℕ) (member : ℕ → Proposer ℕ) where
  -- Replies that accept are about votes, and calls that report a chosen value are right.
  pub record Learn (s : System S) : Type 0 where
    pub accept_reply :
        (x : Reply AcceptResponse)
        → Has x s.acceptances
        → x.reply.accepted ≡ true
        → (v : ℕ) × Voted s x.acceptor x.proposal v
    pub asks :
        (t : ℕ) (j : Job) (a : Attempt)
        → s.jobs t ≡ some j
        → j.phase ≡ accepting a
        → a.quorum ≡ quorum (member j.owner)
    pub learned :
        (t : ℕ) (j : Job) (a : Attempt)
        → s.jobs t ≡ some j
        → j.phase ≡ decided a
        → a.outcome ≡ chosen
        → IsChosen members s j.proposal a.value

  -- Votes stay.
  IsChosen-mono :
      (s u : System S)
      → ((i : ℕ) (n : ProposalNumber) (v : ℕ) → Voted s i n v → Voted u i n v)
      → (n : ProposalNumber) (v : ℕ) → IsChosen members s n v
      → IsChosen members u n v
  IsChosen-mono s u votes n v c = record {
    voter = c.voter;
    enough = c.enough;
    voted = λ i m t. votes i n v (c.voted i m t);
  }

  -- Votes stay, new replies are about votes, and the calls are as they were.
  module _ (s u : System S) (learn : Learn s)
      (votes : (i : ℕ) (n : ProposalNumber) (v : ℕ) → Voted s i n v → Voted u i n v)
      (replies : (x : Reply AcceptResponse)
        → Has x u.acceptances
        → x.reply.accepted ≡ true
        → Has x s.acceptances ⊎ ((v : ℕ) × Voted u x.acceptor x.proposal v)) where
    accept_reply_mono :
        (x : Reply AcceptResponse)
        → Has x u.acceptances
        → x.reply.accepted ≡ true
        → (v : ℕ) × Voted u x.acceptor x.proposal v
    accept_reply_mono x h a = elim (replies x h a) [
      | inl old ↦ let (v, voted) = learn.accept_reply x old a in (v, votes _ _ v voted)
      | inr new ↦ new
    ]

    pub Learn-mono : ((t : ℕ) → u.jobs t ≡ s.jobs t) → Learn u
    Learn-mono same = record {
      accept_reply = accept_reply_mono;
      asks = λ t j a e h. learn.asks t j a (sym (same t) ∙ e) h;
      learned =
          λ t j a e h o. IsChosen-mono s u votes _ _ (learn.learned t j a (sym (same t) ∙ e) h o);
    }

  -- One call is in a new phase.
  pub phase-Learn :
      (s : System S) (t : ℕ) (k : Job) (rounds : ℕ → ℤ) (started : ℕ)
      → Learn s
      → ((a : Attempt) → k.phase ≡ accepting a → a.quorum ≡ quorum (member k.owner))
      → ((a : Attempt)
          → k.phase ≡ decided a
          → a.outcome ≡ chosen
          → IsChosen members s k.proposal a.value)
      → Learn (record s { jobs = update s.jobs t (some k); rounds = rounds; started = started })
  phase-Learn s t k rounds started learn asks learned = record {
    accept_reply = learn.accept_reply;
    asks = λ w l a e h. elim (update-cases s.jobs t k w l e) [
      | inl (_, q) ↦
          subst (λ x. a.quorum ≡ quorum (member x.owner)) (sym q)
            (asks a (sym (ap (λ x. x.phase) q) ∙ h))
      | inr old ↦ learn.asks w l a old h
    ];
    learned = λ w l a e h o.
        IsChosen-mono s _ (λ i n v voted. voted) l.proposal a.value
          (elim (update-cases s.jobs t k w l e) [
            | inl (_, q) ↦
                subst (λ x. IsChosen members s x.proposal a.value) (sym q)
                  (learned a (sym (ap (λ x. x.phase) q) ∙ h) o)
            | inr old ↦ learn.learned w l a old h o
          ]);
  }
