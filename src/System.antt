-- ===== src/System.antt =====
-- A cluster: acceptors on nodes that crash and restart, proposers that run rounds of `Propose`, and
-- a network that loses, delays, repeats and reorders. One step is what the code does under a lock,
-- or between two waits: `Propose` is cut where it waits for its peers (pkg/paxos/proposer.go), and
-- the calls that it waits for are the steps of the nodes (pkg/paxostest/harness.go). Here a call of a
-- node, and `Restart`, are one step each; Handlers cuts them into their critical sections, and says
-- which of those runs are runs of whole calls.
pub mod Updates
pub mod Rounds
pub mod Safety
pub mod Agreement
pub mod Learning
pub mod Validity
pub mod Checked
pub mod Setup
pub mod Schedule
pub mod Revival
pub mod Handlers
use interactive_paxos.Prelude.{
  ℕ, suc, ℤ, pos, ◌≡◌, Result, ok, err, Option, none, some, List, ◌∷◌, ◌==◌, if◌then◌else◌, Has,
}
use interactive_paxos.Proposal.{ProposalNumber}
use interactive_paxos.Messages.{PrepareRequest, PrepareResponse, AcceptRequest, AcceptResponse}
use interactive_paxos.Store.{Store}
use interactive_paxos.Proposer.{
  Proposer, Cause, Prepared, stop, proceed, after_prepare, after_accept, next_proposal_number,
  fast_forward, quorum,
}
use interactive_paxos.Proposer
use interactive_paxos.Proposer.Outcome.{Attempt}
use interactive_paxos.Harness.{Site, Ledger, crash, restart, node_prepare, node_accept}

-- Where a call of `Propose` stands: in phase 1, in phase 2, returned from phase 1, or from phase 2.
pub data Phase : Type 0 where
  preparing : Phase
  accepting : Attempt → Phase
  stopped : Attempt → Phase
  decided : Attempt → Phase

-- One call of `Propose` by the proposer `owner`.
pub record Job : Type 0 where
  pub owner : ℕ
  pub proposal : ProposalNumber
  pub phase : Phase

-- A reply that a node has sent to the proposer of a proposal number.
pub record Reply (R : Type 0) : Type 0 where
  pub acceptor : ℕ
  pub proposal : ProposalNumber
  pub reply : R

-- The nodes by their ids, the ledger of acceptances, each proposer's round, the calls of `Propose`
-- in the order in which they began, and every reply that has been sent.
pub record System (S : Type 0) : Type 0 where
  pub sites : ℕ → Site S
  pub ledger : Ledger
  pub rounds : ℕ → ℤ
  pub started : ℕ
  pub jobs : ℕ → Option Job
  pub promises : List (Reply PrepareResponse)
  pub acceptances : List (Reply AcceptResponse)

abbrev pub update : {A : Type 0} → (ℕ → A) → ℕ → A → ℕ → A
update f i a j = if i == j then a else f j

-- A reply goes on the network; an error does not.
abbrev pub post : {R : Type 0} → ℕ → ProposalNumber → Result R → List (Reply R) → List (Reply R)
post i n (ok r) pool = record { acceptor = i; proposal = n; reply = r } ∷ pool
post i n (err e) pool = pool

abbrev pub after_phase_1 : Prepared → Phase
after_phase_1 (stop attempt) = stopped attempt
after_phase_1 (proceed attempt) = accepting attempt

-- The value that a call of `Propose` has asked its peers to accept.
abbrev pub issued : Phase → Option ℕ
issued preparing = none
issued (stopped attempt) = none
issued (accepting attempt) = some attempt.value
issued (decided attempt) = some attempt.value

-- The attempt that a call of `Propose` has returned.
abbrev pub returned : Phase → Option Attempt
returned preparing = none
returned (accepting attempt) = none
returned (stopped attempt) = some attempt
returned (decided attempt) = some attempt

-- The attempt that a call of `Propose` has at hand, returned or not.
abbrev pub attempt_of : Phase → Option Attempt
attempt_of preparing = none
attempt_of (accepting attempt) = some attempt
attempt_of (stopped attempt) = some attempt
attempt_of (decided attempt) = some attempt

-- The slots that the goroutines of a broadcast have filled hold replies that were sent.
abbrev pub Received : {R : Type 0} → ProposalNumber → List (Reply R) → (ℕ → Option R) → Type 0
Received {R} n pool reply =
    (i : ℕ) (r : R) → reply i ≡ some r → Has (record { acceptor = i; proposal = n; reply = r }) pool

module _ {S : Type 0} where
  abbrev pub set_phase : ℕ → Job → Phase → System S → System S
  set_phase t job phase s = record s {
    jobs = update s.jobs t (some (record job { phase = phase }));
  }

module _ (member : ℕ → Proposer ℕ) where
  abbrev pub prepare_request : Job → PrepareRequest
  prepare_request job = record { proposal = job.proposal; proposer_id = (member job.owner).id }

  abbrev pub accept_request : Job → ℕ → AcceptRequest
  accept_request job v = record {
    proposal = job.proposal;
    value = v;
    proposer_id = (member job.owner).id;
  }

module _ {S : Type 0} (member : ℕ → Proposer ℕ) where
  -- A proposer as it stands: its round changes, and nothing else of it.
  abbrev pub proposer : System S → ℕ → Proposer ℕ
  proposer s p = record (member p) { round = s.rounds p }

  abbrev pub begin : ℕ → System S → System S
  begin p s =
      let (proposal, p') = next_proposal_number (proposer s p) in
      record s {
        rounds = update s.rounds p p'.round;
        started = suc s.started;
        jobs =
            update s.jobs s.started
              (some (record { owner = p; proposal = proposal; phase = preparing }));
      }

module _ {S : Type 0} (ops : Store S) (member : ℕ → Proposer ℕ) where
  abbrev pub deliver_prepare : ℕ → Job → System S → System S
  deliver_prepare i job s =
      let (reply, site) = node_prepare ops (prepare_request member job) (s.sites i) in
      record s { sites = update s.sites i site; promises = post i job.proposal reply s.promises }

  abbrev pub deliver_accept : ℕ → Job → ℕ → System S → System S
  deliver_accept i job v s =
      let (reply, site, ledger) =
        node_accept ops (pos i) (accept_request member job v) (s.sites i) s.ledger in
      record s {
        sites = update s.sites i site;
        ledger = ledger;
        acceptances = post i job.proposal reply s.acceptances;
      }

  -- A step of a run in which no crash or restart comes between the critical sections of a call. It keeps
  -- the round of every proposer, but for `round++` and `fastForwardProposalNumber`.
  pub data Step (s : System S) : System S → Type 0 where
    -- `Propose` takes the next proposal number.
    begins : (p : ℕ) → Step s (begin member p s)
    -- A node handles a `prepare` request.
    prepares :
        (t i : ℕ) (job : Job)
        → s.jobs t ≡ some job
        → Has i (member job.owner).peers
        → Step s (deliver_prepare i job s)
    -- `Propose` counts what phase 1 has brought.
    counts_promises :
        (t : ℕ) (job : Job) (reply : ℕ → Option PrepareResponse) (cause : Option Cause)
        → s.jobs t ≡ some job
        → job.phase ≡ preparing
        → Received job.proposal s.promises reply
        → Step s (
            set_phase t job
              (after_phase_1 (
                after_prepare job.proposal
                  (quorum (member job.owner))
                  (Proposer.prepare (member job.owner) reply)
                  cause))
              s)
    -- A node handles an `accept` request.
    accepts :
        (t i : ℕ) (job : Job) (v : ℕ)
        → s.jobs t ≡ some job
        → issued job.phase ≡ some v
        → Has i (member job.owner).peers
        → Step s (deliver_accept i job v s)
    -- `Propose` counts what phase 2 has brought, and returns.
    counts_accepts :
        (t : ℕ) (job : Job) (attempt : Attempt) (reply : ℕ → Option AcceptResponse)
        (cause : Option Cause)
        → s.jobs t ≡ some job
        → job.phase ≡ accepting attempt
        → Received job.proposal s.acceptances reply
        → Step s (
            set_phase t job
              (decided (after_accept attempt (Proposer.accept (member job.owner) reply) cause))
              s)
    -- `Campaign` reads the highest number that an attempt has seen.
    forwards :
        (t : ℕ) (job : Job) (attempt : Attempt)
        → s.jobs t ≡ some job
        → returned job.phase ≡ some attempt
        → Step s (record s {
          rounds =
              update s.rounds job.owner
                (fast_forward attempt.highest_seen (proposer member s job.owner)).round;
        })
    crashes : (i : ℕ) → Step s (record s { sites = update s.sites i (crash (s.sites i)) })
    restarts :
        (i : ℕ) → Step s (record s { sites = update s.sites i (restart ops (pos i) (s.sites i)) })

  pub data Reach (s : System S) : System S → Type 0 where
    here : Reach s s
    next : {t u : System S} → Reach s t → Step t u → Reach s u
