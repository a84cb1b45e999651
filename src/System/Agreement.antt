-- ===== src/System/Agreement.antt =====
-- Agreement: no two values are chosen, and no two rounds of `Propose` report different ones.
use mathlib.Core.Option.{some-injective}
use interactive_paxos.Prelude.{
  ℕ, zero, suc, ◌+◌, ◌≤◌, ◌<◌, max_int, ◌≡◌, sym, ◌∙◌, ap, inl, inr, subst, Bool, true, false,
  Option, some, none, List, Has, Bool-cases, if◌then◌else◌, arith, ltb,
}
use interactive_paxos.Quorum.{quorums_meet, count_pos}
use interactive_paxos.Proposal.{ProposalNumber, less}
use interactive_paxos.Proposal.Order.{less_irrefl, less_trans, less_connex}
use interactive_paxos.Store.{Store, IsDurable}
use interactive_paxos.Proposer.{Proposer}
use interactive_paxos.System.{System, Job, Reach, issued}
use interactive_paxos.System.Safety.{IsCluster, Voted, Issued, IsChosen, free, bound, Backed, Inv}
use interactive_paxos.System.Safety.Steps.{IsFresh, Reach-Inv}

-- How many of the first `n` calls of `Propose` have a number below `c`.
job_below : Option Job → ProposalNumber → Bool
job_below none c = false
job_below (some j) c = less j.proposal c

below : ℕ → (ℕ → Option Job) → ProposalNumber → ℕ
unfolding job_below
below zero jobs c = 0
below (suc n) jobs c = below n jobs c + (if job_below (jobs n) c then 1 else 0)

job_below_mono :
    (o : Option Job) (c e : ProposalNumber)
    → less c e ≡ true
    → job_below o c ≡ true
    → job_below o e ≡ true
unfolding job_below
job_below_mono none c e h p = p
job_below_mono (some j) c e h p = less_trans j.proposal c e p h

below-le :
    (n : ℕ) (jobs : ℕ → Option Job) (c e : ProposalNumber)
    → less c e ≡ true
    → below n jobs c ≤ below n jobs e
unfolding below
below-le zero jobs c e h = omega arith
below-le (suc n) jobs c e h = ground (arith, below-le n jobs c e h, job_below_mono (jobs n) c e h)

-- There are fewer calls below the number of a call than below any number above it.
below-lt :
    (n : ℕ) (jobs : ℕ → Option Job) (t : ℕ) (j : Job) (e : ProposalNumber)
    → t < n
    → jobs t ≡ some j
    → less j.proposal e ≡ true
    → below n jobs j.proposal < below n jobs e
unfolding below
below-lt zero jobs t j e h known low = absurd (omega arith)
below-lt (suc n) jobs t j e h known low = elim (Bool-cases (ltb t n)) [
  | inl earlier ↦ ground (
    arith,
    below-lt n jobs t j e (ground arith) known low,
    job_below_mono (jobs n) j.proposal e low,
  )
  | inr last ↦
      let at : t ≡ n = ground arith in
      let here : jobs n ≡ some j = sym (ap jobs at) ∙ known in
      let not_self : job_below (jobs n) j.proposal ≡ false =
        ap (λ o. job_below o j.proposal) here ∙ less_irrefl j.proposal in
      let counted : job_below (jobs n) e ≡ true = ap (λ o. job_below o e) here ∙ low in
      ground (arith, below-le n jobs j.proposal e low)
]

module _ {S : Type 0} {ops : Store S} (d : IsDurable ops) (members : List ℕ)
    (member : ℕ → Proposer ℕ) (s : System S) (inv : Inv d members member s) where
  -- One value for each proposal number.
  pub Issued-unique : (n : ProposalNumber) (v w : ℕ) → Issued s n v → Issued s n w → v ≡ w
  Issued-unique n v w (t, j, e, q, h) (u, k, e', q', h') =
      let same : t ≡ u = inv.unique t u j k e e' (q ∙ sym q') in
      let own : j ≡ k = some-injective j k (sym e ∙ ap s.jobs same ∙ e') in
      some-injective v w (sym h ∙ ap (λ x. issued x.phase) own ∙ h')

  -- What is asked for above a chosen number is the chosen value.
  chosen_stays :
      (fuel : ℕ) (b c : ProposalNumber) (v w : ℕ)
      → below s.started s.jobs c < fuel
      → IsChosen members s b v
      → Issued s c w
      → less b c ≡ true
      → v ≡ w
  chosen_stays zero b c v w small ch is low = absurd (omega arith)
  chosen_stays (suc fuel) b c v w small ch is low = elim back.choosable [
    | free none_below ↦ absurd (none_below i b v m.1 m.3 voted low)
    | bound e k under last highest ↦ elim (Bool-cases (less b e)) [
      | inl higher ↦
          chosen_stays fuel b e v w (fewer e w (inv.vote_issued k e w last) under) ch
            (inv.vote_issued k e w last) higher
      | inr not_higher ↦ Issued-unique b v w (inv.vote_issued i b v voted) (
          subst (λ n. Issued s n w) (less_connex e b (highest i b v m.1 m.3 voted low) not_higher)
            (inv.vote_issued k e w last))
    ]
  ]
    where
      back : Backed d members s c w
      back = inv.backed c w is

      m : (i : ℕ) × Has i members × (ch.voter i ≡ true) × (back.test i ≡ true)
      m = quorums_meet ch.voter back.test members ch.enough back.enough

      i : ℕ
      i = m.0

      voted : Voted s i b v
      voted = ch.voted i m.1 m.2

      fewer :
          (e : ProposalNumber) (x : ℕ)
          → Issued s e x
          → less e c ≡ true
          → below s.started s.jobs e < fuel
      fewer e x (t, j, known, q, _) under = omega (
        arith,
        subst (λ n. below s.started s.jobs n < below s.started s.jobs c) q
            (below-lt s.started s.jobs t j c (inv.job t j known).known known
              (subst (λ n. less n c ≡ true) (sym q) under)),
      )

  -- A chosen value was asked for.
  pub chosen-Issued : (b : ProposalNumber) (v : ℕ) → IsChosen members s b v → Issued s b v
  chosen-Issued b v ch =
      let (i, m, p) = count_pos ch.voter members (omega (arith, ch.enough)) in
      inv.vote_issued i b v (ch.voted i m p)

  pub chosen_unique :
      (b c : ProposalNumber) (v w : ℕ) → IsChosen members s b v → IsChosen members s c w → v ≡ w
  chosen_unique b c v w hv hw = elim (Bool-cases (less b c)) [
    | inl low ↦
        chosen_stays (suc (below s.started s.jobs c)) b c v w (omega arith) hv
          (chosen-Issued c w hw) low
    | inr p ↦ elim (Bool-cases (less c b)) [
      | inl low ↦ sym (
          chosen_stays (suc (below s.started s.jobs b)) c b w v (omega arith) hw
            (chosen-Issued b v hv) low)
      | inr q ↦
          Issued-unique b v w (chosen-Issued b v hv)
            (subst (λ n. Issued s n w) (less_connex c b q p) (chosen-Issued c w hw))
    ]
  ]

module _ {S : Type 0} {ops : Store S} (d : IsDurable ops) (members : List ℕ)
    (member : ℕ → Proposer ℕ) (cluster : IsCluster members member) where
  -- In a cluster whose proposers have distinct ids and the members as their peers, and keep their
  -- rounds, over stores that are durable, from a state where nothing has happened, whatever the
  -- network loses, delays, repeats and reorders, whatever saves fail and whichever nodes crash
  -- and restart with their disks: two values that are chosen are the same, as long as fewer than
  -- 2^63 calls of `Propose` have begun.
  pub agreement :
      {s u : System S}
      → IsFresh d s
      → Reach ops member s u
      → u.started ≤ max_int
      → (b c : ProposalNumber) (v w : ℕ) → IsChosen members u b v
      → IsChosen members u c w
      → v ≡ w
  agreement {u = u} f r small =
      chosen_unique d members member u (Reach-Inv d members member cluster f r small)
