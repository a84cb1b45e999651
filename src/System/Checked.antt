-- ===== src/System/Checked.antt =====
-- The checks of the test harness against the cluster's meaning of a chosen value.
use interactive_paxos.Prelude.{
  subst₂, ℕ, ℤ, pos, ◌≤◌, max_int, ◌≡◌, ◌↔◌, sym, ap, ◌⊎◌, inl, inr, subst, true, false, ok, err,
  List, [], ◌∷◌, ◌++◌, length, Has, arith,
}
use interactive_paxos.Quorum.{quorum_of, SameItems-Has}
use interactive_paxos.Proposal.{ProposalNumber}
use interactive_paxos.Messages.{AcceptRequest}
use interactive_paxos.Store.{Store, IsDurable}
use interactive_paxos.Proposer.{Proposer}
use interactive_paxos.Acceptor
use interactive_paxos.Harness.{Site, up, down, Acceptance, Ledger, node_accept, record_acceptance}
use interactive_paxos.Harness.Check.{Choice, Ranging, by_proposal, chosen_of, assert_agreement}
use interactive_paxos.Harness.Check.Table.{has_key, values_at, ballot_of}
use interactive_paxos.Harness.Check.Choices.{
  IsFair, Chooses, Has-Chooses, row_chosen, vote-by_proposal, agreement_asserted,
}
use interactive_paxos.Harness.Check.Members.{length-members_of, has_key-Has, Distinct, count-length}
use interactive_paxos.System.{
  System, Step, Reach, here, next, begins, prepares, counts_promises, accepts, counts_accepts,
  forwards, crashes, restarts,
}
use interactive_paxos.System.Updates.{Has-append}
use interactive_paxos.System.Safety.{IsCluster, Voted, IsChosen, Inv}
use interactive_paxos.System.Safety.Steps.{IsFresh, Reach-Inv}
use interactive_paxos.System.Agreement.{agreement, Issued-unique}

-- Each entry of the ledger is the vote of a member.
abbrev OfMembers : List ℕ → Ledger → Type 0
OfMembers members ledger =
    (x : Acceptance) → Has x ledger → (i : ℕ) × Has i members × (x.acceptor_id ≡ pos i)

module _ {S : Type 0} (ops : Store S) where
  -- A node that handles `accept` adds at most one entry, of its own.
  node_accept-entry :
      (id : ℤ) (req : AcceptRequest) (site : Site S) (ledger : Ledger) (x : Acceptance)
      → Has x (node_accept ops id req site ledger).2
      → Has x ledger ⊎ (x.acceptor_id ≡ id)
  unfolding node_accept record_acceptance
  node_accept-entry id req (down store) ledger x h = inl h
  node_accept-entry id req (up a) ledger x h =
      elim (Acceptor.accept ops a req).0
          as (λ reply.
            Has x (record_acceptance id req reply ledger) → Has x ledger ⊎ (x.acceptor_id ≡ id)) [
              | err e ↦ λ m. inl m
              | ok r ↦
                  elim r.accepted
                    as (λ b.
                      Has x (elim b [
                        | true ↦
                            ledger
                            ++ record {
                              acceptor_id = id;
                              proposal = req.proposal;
                              value = req.value;
                            }
                              ∷ []
                        | false ↦ ledger
                      ])
                      → Has x ledger ⊎ (x.acceptor_id ≡ id)) [
                        | true ↦ λ m. elim (Has-append x _ ledger m) [
                          | inl old ↦ inl old
                          | inr e ↦ inr (ap (λ y. y.acceptor_id) e)
                        ]
                        | false ↦ λ m. inl m
                      ]
            ]
        h

module _ {S : Type 0} {ops : Store S} (member : ℕ → Proposer ℕ) (members : List ℕ)
    (cluster : IsCluster members member) where
  Step-OfMembers :
      {s u : System S}
      → Step ops member s u
      → OfMembers members s.ledger
      → OfMembers members u.ledger
  Step-OfMembers (begins p) all = all
  Step-OfMembers (prepares t i job known m) all = all
  Step-OfMembers (counts_promises t job reply cause known at sent) all = all
  Step-OfMembers {s} (accepts t i job v known at m) all = λ x h.
      elim (node_accept-entry ops (pos i) _ (s.sites i) s.ledger x h) [
        | inl old ↦ all x old
        | inr e ↦ (
          i,
          SameItems-Has members (member job.owner).peers (λ f. sym (cluster.peers job.owner f)) i m,
          e,
        )
      ]
  Step-OfMembers (counts_accepts t job attempt reply cause known at sent) all = all
  Step-OfMembers (forwards t job attempt known at) all = all
  Step-OfMembers (crashes i) all = all
  Step-OfMembers (restarts i) all = all

  Reach-OfMembers :
      {s u : System S}
      → Reach ops member s u
      → OfMembers members s.ledger
      → OfMembers members u.ledger
  Reach-OfMembers here all = all
  Reach-OfMembers (next r step) all = Step-OfMembers step (Reach-OfMembers r all)

-- What the checks of the harness read, in a state that a cluster has reached.
module _ {S : Type 0} {ops : Store S} (d : IsDurable ops) (members : List ℕ)
    (member : ℕ → Proposer ℕ) (cluster : IsCluster members member) {s u : System S}
    (f : IsFresh d s) (r : Reach ops member s u) (small : u.started ≤ max_int) (ranging : Ranging)
    (fair : IsFair ranging) where
  inv : Inv d members member u
  inv = Reach-Inv d members member cluster f r small

  of_members : OfMembers members u.ledger
  of_members = Reach-OfMembers member members cluster r (λ x h. absurd (subst (Has x) f.ledger h))

  abbrev choices_of : List Choice
  choices_of = chosen_of ranging (quorum_of (length members)) u.ledger

  -- At one number all votes are for one value.
  one_vote :
      (n : ProposalNumber) (a b : ℤ) (v w : ℕ)
      → Has (ballot_of n (a, v)) u.ledger
      → Has (ballot_of n (b, w)) u.ledger
      → v ≡ w
  one_vote n a b v w h k =
      let (i, _, p) = of_members (ballot_of n (a, v)) h in
      let (j, _, q) = of_members (ballot_of n (b, w)) k in
      Issued-unique d members member u inv n v w
        (inv.vote_issued i n v (subst (λ x. Has (ballot_of n (x, v)) u.ledger) p h))
        (inv.vote_issued j n w (subst (λ x. Has (ballot_of n (x, w)) u.ledger) q k))

  IsChosen-choice : (c : Choice) → Has c choices_of → IsChosen members u c.proposal c.value
  IsChosen-choice c h =
      let q : Chooses ranging (quorum_of (length members)) u.ledger c =
        Has-Chooses ranging fair (quorum_of (length members)) (omega arith) u.ledger c h in
      let own = q.valid.votes (q.voter, c.value) q.value in
      subst (λ n. IsChosen members u n c.value) (sym q.proposal)
        (record {
          voter = λ i. has_key (pos i) q.row.acceptors;
          enough = omega (
            arith,
            q.enough,
            length-members_of members q.row.acceptors q.valid.distinct
                (λ x m. of_members (ballot_of q.row.proposal x) (q.valid.votes x m)),
          );
          voted = λ i m e.
              let (w, at) = has_key-Has (pos i) q.row.acceptors e in
              let vote = q.valid.votes (pos i, w) at in
              subst (λ v. Voted u i q.row.proposal v)
                (one_vote q.row.proposal (pos i) q.voter w c.value vote own) vote;
        })

  choice-IsChosen :
      Distinct members
      → (n : ProposalNumber) (v : ℕ) → IsChosen members u n v
      → (c : Choice) × Has c choices_of × (c.proposal ≡ n) × (c.value ≡ v)
  choice-IsChosen distinct n v ch =
      let table = by_proposal u.ledger [] in
      let enough =
        count-length ch.voter members distinct (values_at n table)
          (λ i m e. vote-by_proposal (ballot_of n (pos i, v)) u.ledger [] (ch.voted i m e)) in
      let (c, h, e) =
        row_chosen ranging fair (quorum_of (length members)) (omega arith) u.ledger n
          (omega (arith, ch.enough, enough)) in
      (
        c,
        h,
        e,
        agreement d members member cluster f r small c.proposal n c.value v (IsChosen-choice c h)
            ch,
      )

  -- In a state that a fresh cluster with distinct members has reached within 2^63 - 1 rounds, the choices
  -- that `Ledger.Chosen` finds by counting are, whatever order maps are visited in, the values that are
  -- chosen.
  pub choice_iff :
      Distinct members
      → (n : ProposalNumber) (v : ℕ)
      → IsChosen members u n v
        ↔ ((c : Choice) × Has c choices_of × (c.proposal ≡ n) × (c.value ≡ v))
  choice_iff distinct n v = (
    choice-IsChosen distinct n v,
    λ (c, h, e, q). subst₂ (IsChosen members u) e q (IsChosen-choice c h),
  )

  -- In a state that a cluster has reached, as `agreement` says, `AssertAgreement` finds no
  -- disagreement, whatever order maps are visited in.
  pub assert_agreement-passes :
      assert_agreement ranging (quorum_of (length members)) u.ledger ≡ true
  assert_agreement-passes =
      agreement_asserted ranging (quorum_of (length members)) u.ledger (λ c e h k.
        agreement d members member cluster f r small c.proposal e.proposal c.value e.value
          (IsChosen-choice c h) (IsChosen-choice e k))
