-- ===== src/System/Safety.antt =====
-- Why a chosen value stays chosen: the invariant of the cluster.
pub mod Extension
pub mod Sites
pub mod Votes
pub mod Jobs
pub mod Begin
pub mod Choice
pub mod Steps
use interactive_paxos.Prelude.{
  ℕ, ℤ, pos, ltb_ℤ, ◌≤◌, ◌<◌, ◌≡◌, ◌⊎◌, Bool, true, false, Option, some, List, length, Has,
}
use interactive_paxos.Quorum.{count, quorum_of, SameItems}
use interactive_paxos.Proposal.{ProposalNumber, less}
use interactive_paxos.Messages.{PrepareResponse, AcceptorState}
use interactive_paxos.Store.{Store, IsDurable}
use interactive_paxos.Proposer.{Proposer}
use interactive_paxos.Harness.{Site, Acceptance}
use interactive_paxos.Harness.Sites.{held}
use interactive_paxos.System.{System, Job, Reply, issued}

-- The proposers of a cluster: their ids differ, and each has the members as its peers, in an order
-- of its own.
pub record IsCluster (members : List ℕ) (member : ℕ → Proposer ℕ) : Type 0 where
  pub distinct : (p q : ℕ) → (member p).id ≡ (member q).id → p ≡ q
  pub peers : (p : ℕ) → SameItems (member p).peers members

module _ {S : Type 0} where
  -- Node `i` has accepted `v` at `n`: the ledger says so.
  abbrev pub Voted : System S → ℕ → ProposalNumber → ℕ → Type 0
  Voted s i n v = Has (record { acceptor_id = pos i; proposal = n; value = v }) s.ledger

  -- A call of `Propose` has asked its peers to accept `v` at `n`.
  abbrev pub Issued : System S → ProposalNumber → ℕ → Type 0
  Issued s n v =
      (t : ℕ) × (j : Job) × (s.jobs t ≡ some j) × (j.proposal ≡ n) × (issued j.phase ≡ some v)

  -- A value is chosen when a quorum of the members has accepted it at one proposal number.
  pub record IsChosen (members : List ℕ) (s : System S) (n : ProposalNumber) (v : ℕ) : Type 0 where
    pub voter : ℕ → Bool
    pub enough : quorum_of (length members) ≤ count voter members
    pub voted : (i : ℕ) → Has i members → voter i ≡ true → Voted s i n v

module _ {S : Type 0} {ops : Store S} (d : IsDurable ops) where
  abbrev pub disk : System S → ℕ → AcceptorState
  disk s i = held d (s.sites i)

  -- What a reply that promised says of the votes of its node below the proposal number.
  pub record Report (s : System S) (x : Reply PrepareResponse) : Type 0 where
    pub kept : less (disk s x.acceptor).promised x.proposal ≡ false
    pub covers :
        (c : ProposalNumber) (w : ℕ)
        → Voted s x.acceptor c w
        → less c x.proposal ≡ true
        → (x.reply.has_accepted ≡ true) × (less x.reply.accepted_proposal c ≡ false)
    pub source :
        x.reply.has_accepted ≡ true
        → Voted s x.acceptor x.reply.accepted_proposal x.reply.accepted_value
          × (less x.proposal x.reply.accepted_proposal ≡ false)

  -- No member that passes the test has voted below `n`, or the highest such vote was for `v`.
  pub data Choosable (members : List ℕ) (s : System S) (test : ℕ → Bool) (n : ProposalNumber)
      (v : ℕ) : Type 0 where
    free :
        ((i : ℕ) (c : ProposalNumber) (w : ℕ)
          → Has i members
          → test i ≡ true
          → Voted s i c w
          → less c n ≡ true
          → ⊥)
        → Choosable members s test n v
    bound :
        (c : ProposalNumber) (k : ℕ)
        → less c n ≡ true
        → Voted s k c v
        → ((i : ℕ) (e : ProposalNumber) (w : ℕ)
            → Has i members
            → test i ≡ true
            → Voted s i e w
            → less e n ≡ true
            → less c e ≡ false)
        → Choosable members s test n v

  -- A quorum has promised `n` and has left `v` the only value that could be chosen below.
  pub record Backed (members : List ℕ) (s : System S) (n : ProposalNumber) (v : ℕ) : Type 0 where
    pub test : ℕ → Bool
    pub enough : quorum_of (length members) ≤ count test members
    pub promised : (i : ℕ) → Has i members → test i ≡ true → less (disk s i).promised n ≡ false
    pub choosable : Choosable members s test n v

  -- What the invariant says of one call of `Propose`.
  pub record JobFacts (member : ℕ → Proposer ℕ) (s : System S) (t : ℕ) (j : Job) : Type 0 where
    pub known : t < s.started
    pub own_id : j.proposal.node_id ≡ (member j.owner).id
    pub positive : ltb_ℤ (pos 0) j.proposal.round ≡ true
    pub reached : ltb_ℤ (s.rounds j.owner) j.proposal.round ≡ false

  pub record Inv (members : List ℕ) (member : ℕ → Proposer ℕ) (s : System S) : Type 0 where
    pub job : (t : ℕ) (j : Job) → s.jobs t ≡ some j → JobFacts member s t j
    pub unique :
        (t u : ℕ) (j k : Job)
        → s.jobs t ≡ some j
        → s.jobs u ≡ some k
        → j.proposal ≡ k.proposal
        → t ≡ u
    pub vote_issued : (i : ℕ) (n : ProposalNumber) (v : ℕ) → Voted s i n v → Issued s n v
    pub vote_kept :
        (i : ℕ) (n : ProposalNumber) (v : ℕ)
        → Voted s i n v
        → ((disk s i).has_accepted ≡ true) × (less (disk s i).accepted_proposal n ≡ false)
    pub last_vote :
        (i : ℕ)
        → (disk s i).has_accepted ≡ true
        → Voted s i (disk s i).accepted_proposal (disk s i).accepted_value
    pub valid : (i : ℕ) → less (disk s i).promised (disk s i).accepted_proposal ≡ false
    pub report :
        (x : Reply PrepareResponse) → Has x s.promises → x.reply.promised ≡ true → Report s x
    pub backed : (n : ProposalNumber) (v : ℕ) → Issued s n v → Backed members s n v
