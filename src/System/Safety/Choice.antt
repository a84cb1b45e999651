-- ===== src/System/Safety/Choice.antt =====
-- The heart of the protocol: a quorum of promises backs the value that phase 1 hands on.
use mathlib.Core.Option.{some-injective}
use mathlib.Core.Bool.{false≢true}
use interactive_paxos.Prelude.{
  ℕ, ◌+◌, ◌≤◌, ◌≡◌, refl, sym, ◌∙◌, ap, inl, inr, subst, Bool, true, false, Option, some, none,
  List, [], ◌∷◌, map, Has, Bool-cases, Option-cases, arith, if◌then◌else◌,
}
use interactive_paxos.Quorum.{count, SameItems-length, SameItems-Has}
use interactive_paxos.Proposal.{ProposalNumber, zero_proposal, less}
use interactive_paxos.Proposal.Order.{le_trans, less_connex, less-zero}
use interactive_paxos.Messages.{PrepareResponse}
use interactive_paxos.Store.{Store, IsDurable}
use interactive_paxos.Proposer.{Proposer, Cause, after_prepare, quorum}
use interactive_paxos.Proposer
use interactive_paxos.Proposer.Tally.{PrepareTally, count_promises, no_promises}
use interactive_paxos.Proposer.Tally.Adoption.{
  Reports, Choice, own_value, peer_value, count_promises-Choice,
}
use interactive_paxos.Proposer.Tally.Counting.{tally, is_promise, promises-count_promises}
use interactive_paxos.System.{System, Job, Received, issued, after_phase_1, preparing}
use interactive_paxos.System.Updates.{Has-map}
use interactive_paxos.System.Safety.{IsCluster, Voted, Report, Choosable, free, bound, Backed, Inv}
use interactive_paxos.System.Safety.Begin.{preparing_issues_nothing}

-- The peer's slot is filled, and its reply promised.
abbrev pub is_promised : Option PrepareResponse → Bool
is_promised none = false
is_promised (some r) = r.promised

pub promise_test : (ℕ → Option PrepareResponse) → ℕ → Bool
promise_test reply i = is_promised (reply i)

-- The tally counts the peers that promised.
tally-map :
    (reply : ℕ → Option PrepareResponse) (peers : List ℕ)
    → tally is_promise (map reply peers) ≡ count (promise_test reply) peers
unfolding count promise_test
tally-map reply [] = refl
tally-map reply (p ∷ peers) = elim (Option-cases (reply p)) [
  | inl e ↦ rw e (omega (arith, tally-map reply peers))
  | inr (r, e) ↦ rw e (ap (λ n. (if r.promised then 1 else 0) + n) (tally-map reply peers))
]

Has-slot :
    {R : Type 0} (reply : ℕ → Option R) (peers : List ℕ) (i : ℕ) (r : R)
    → Has i peers
    → reply i ≡ some r
    → Has (some r) (map reply peers)
Has-slot reply [] i r h e = absurd h
Has-slot reply (p ∷ peers) i r h e = elim h [
  | inl q ↦ inl (sym e ∙ ap reply q)
  | inr later ↦ inr (Has-slot reply peers i r later e)
]

-- If phase 1 goes on to phase 2, it has a quorum of promises, and hands on the tally's value.
pub proceeds :
    (n : ProposalNumber) (q : ℕ) (t : PrepareTally) (cause : Option Cause) (v : ℕ)
    → issued (after_phase_1 (after_prepare n q t cause)) ≡ some v
    → (q ≤ t.promises_received) × (t.value ≡ v)
unfolding after_prepare
proceeds n q t cause v h = ground arith

module _ {S : Type 0} {ops : Store S} (d : IsDurable ops) (members : List ℕ)
    (member : ℕ → Proposer ℕ) (cluster : IsCluster members member) (s : System S)
    (inv : Inv d members member s) where
  -- A number that was voted for lies above the zero proposal.
  Voted-above_zero :
      (i : ℕ) (n : ProposalNumber) (v : ℕ) → Voted s i n v → less zero_proposal n ≡ true
  Voted-above_zero i n v h =
      let (t, j, e, q, _) = inv.vote_issued i n v h in
      subst (λ m. less zero_proposal m ≡ true) q (less-zero j.proposal (inv.job t j e).positive)

  module _ (t : ℕ) (j : Job) (known : s.jobs t ≡ some j) (waiting : j.phase ≡ preparing)
      (reply : ℕ → Option PrepareResponse) (sent : Received j.proposal s.promises reply) where
    abbrev peers : List ℕ
    peers = (member j.owner).peers

    abbrev slots : List (Option PrepareResponse)
    slots = map reply peers

    -- The reply of a member that passes the test.
    record Promiser (i : ℕ) : Type 0 where
      reply_of : PrepareResponse
      reports : Report d s (record { acceptor = i; proposal = j.proposal; reply = reply_of })
      counted : reply_of.has_accepted ≡ true → Reports slots reply_of

    reply-Report :
        (i : ℕ) (r : PrepareResponse)
        → reply i ≡ some r
        → r.promised ≡ true
        → Report d s (record { acceptor = i; proposal = j.proposal; reply = r })
    reply-Report i r e p = inv.report _ (sent i r e) p

    promiser : (i : ℕ) → Has i members → promise_test reply i ≡ true → Promiser i
    unfolding promise_test
    promiser i m h = elim (Option-cases (reply i)) [
      | inl e ↦ absurd (false≢true (sym (ap is_promised e) ∙ h))
      | inr (r, e) ↦
          let p : r.promised ≡ true = sym (ap is_promised e) ∙ h in
          record {
            reply_of = r;
            reports = reply-Report i r e p;
            counted = λ a. record {
              filled =
                  Has-slot reply peers i r (SameItems-Has peers members (cluster.peers j.owner) i m)
                    e;
              promised = p;
              accepted = a;
            };
          }
    ]

    -- While the call is in phase 1, no vote has its number.
    not_own_number : (i : ℕ) (n : ProposalNumber) (v : ℕ) → Voted s i n v → n ≡ j.proposal → ⊥
    not_own_number i n v h e =
        let (u, k, at, q, asked) = inv.vote_issued i n v h in
        let same : u ≡ t = inv.unique u t k j at known (q ∙ e) in
        let own : k ≡ j = some-injective k j (sym at ∙ ap s.jobs same ∙ known) in
        preparing_issues_nothing j v waiting (subst (λ x. issued x.phase ≡ some v) own asked)

    choosable :
        (tallied : PrepareTally)
        → Choice (member j.owner).value slots tallied
        → Choosable d members s (promise_test reply) j.proposal tallied.value
    choosable tallied (own_value _ _ none_above) = free λ i c w m h voted low.
        let pr = promiser i m h in
        let (accepted, upper) = pr.reports.covers c w voted low in
        let (source, _) = pr.reports.source accepted in
        false≢true
          (sym (none_above pr.reply_of (pr.counted accepted)) ∙ Voted-above_zero i _ _ source)
    choosable tallied (peer_value adopted highest) =
        bound adopted.source.accepted_proposal voter below
          (subst (Voted s voter adopted.source.accepted_proposal) (sym adopted.value) told.0)
          λ i e w m h voted low.
            let pr = promiser i m h in
            let (accepted, upper) = pr.reports.covers e w voted low in
            le_trans _ _ _ upper (
              subst (λ x. less x pr.reply_of.accepted_proposal ≡ false) adopted.highest
                (highest pr.reply_of (pr.counted accepted)))
      where
        from : (i : ℕ) × (reply i ≡ some adopted.source)
        from = Has-map reply peers adopted.source adopted.reports.filled

        voter : ℕ
        voter = from.0

        told :
            Voted s voter adopted.source.accepted_proposal adopted.source.accepted_value
            × (less j.proposal adopted.source.accepted_proposal ≡ false)
        told =
            (reply-Report voter adopted.source from.1 adopted.reports.promised).source
              adopted.reports.accepted

        below : less adopted.source.accepted_proposal j.proposal ≡ true
        below = elim (Bool-cases (less adopted.source.accepted_proposal j.proposal)) [
          | inl low ↦ low
          | inr high ↦ absurd (
              not_own_number voter _ _ told.0
                (less_connex adopted.source.accepted_proposal j.proposal high told.1))
        ]

    -- What phase 1 hands on to phase 2 is backed by the quorum that has promised.
    pub proceeds-Backed :
        (cause : Option Cause) (v : ℕ)
        → issued (
            after_phase_1 (
              after_prepare j.proposal
                (quorum (member j.owner))
                (Proposer.prepare (member j.owner) reply)
                cause))
          ≡ some v
        → Backed d members s j.proposal v
    unfolding Proposer.prepare
    proceeds-Backed cause v h = record {
      test = promise_test reply;
      enough = omega (
        arith,
        (proceeds j.proposal _ tallied cause v h).0,
        promises-count_promises (no_promises (member j.owner).value) slots,
        tally-map reply peers,
        cluster.peers j.owner (promise_test reply),
        SameItems-length peers members (cluster.peers j.owner),
      );
      promised = λ i m p. (promiser i m p).reports.kept;
      choosable =
          subst (Choosable d members s (promise_test reply) j.proposal)
            (proceeds j.proposal _ tallied cause v h).1
            (choosable tallied (count_promises-Choice (member j.owner).value slots));
    }
      where
        tallied : PrepareTally
        tallied = count_promises (no_promises (member j.owner).value) slots
