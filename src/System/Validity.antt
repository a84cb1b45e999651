-- ===== src/System/Validity.antt =====
-- Validity: only values that some proposer was given are ever asked for, accepted or chosen.

use interactive_paxos.Prelude.{
  ℕ, ℤ, ◌≤◌, max_int, ◌≡◌, refl, sym, ◌∙◌, ap, inl, inr, Option, some, List, arith,
}
use interactive_paxos.Proposal.{ProposalNumber}
use interactive_paxos.Messages.{PrepareResponse}
use interactive_paxos.Store.{Store, IsDurable}
use interactive_paxos.Proposer.{Proposer, Cause, after_prepare, quorum, next_proposal_number}
use interactive_paxos.Proposer
use interactive_paxos.Proposer.Tally.Adoption.{own_value, peer_value, count_promises-Choice}
use interactive_paxos.System.{
  System, Job, Received, Step, Reach, here, next, begins, prepares, counts_promises, accepts,
  counts_accepts, forwards, crashes, restarts, issued, after_phase_1, update,
}
use interactive_paxos.System.Updates.{update-cases, Has-map}
use interactive_paxos.System.Rounds.Steps.{started-le}
use interactive_paxos.System.Safety.{IsCluster, Issued, IsChosen, Inv}
use interactive_paxos.System.Safety.Choice.{proceeds}
use interactive_paxos.System.Safety.Steps.{IsFresh, value-after_accept, Reach-Inv}
use interactive_paxos.System.Agreement.{chosen-Issued}

module _ {S : Type 0} (member : ℕ → Proposer ℕ) where
  -- Every value that a proposer has asked for is the own value of a proposer.
  abbrev IsGiven : System S → Type 0
  IsGiven s = (n : ProposalNumber) (v : ℕ) → Issued s n v → (p : ℕ) × ((member p).value ≡ v)

  phase-IsGiven :
      (s : System S) (t : ℕ) (k : Job) (rounds : ℕ → ℤ) (started : ℕ)
      → IsGiven s
      → ((v : ℕ) → issued k.phase ≡ some v → (p : ℕ) × ((member p).value ≡ v))
      → IsGiven (record s { jobs = update s.jobs t (some k); rounds = rounds; started = started })
  phase-IsGiven s t k rounds started given fresh n v (u, l, e, q, h) =
      elim (update-cases s.jobs t k u l e) [
        | inl (_, r) ↦ fresh v (sym (ap (λ x. issued x.phase) r) ∙ h)
        | inr old ↦ given n v (u, l, old, q, h)
      ]

module _ {S : Type 0} {ops : Store S} (d : IsDurable ops) (members : List ℕ)
    (member : ℕ → Proposer ℕ) (cluster : IsCluster members member) where
  -- Phase 1 hands on the proposer's own value, or one that was asked for before.
  proceeds-IsGiven :
      (s : System S)
      → Inv d members member s
      → IsGiven member s
      → (j : Job) (reply : ℕ → Option PrepareResponse) (cause : Option Cause)
      → Received j.proposal s.promises reply
      → (v : ℕ)
      → issued (
          after_phase_1 (
            after_prepare j.proposal
              (quorum (member j.owner))
              (Proposer.prepare (member j.owner) reply)
              cause))
        ≡ some v
      → (p : ℕ) × ((member p).value ≡ v)
  unfolding Proposer.prepare
  proceeds-IsGiven s inv given j reply cause sent v h =
      elim (count_promises-Choice (member j.owner).value _) [
        | own_value e _ _ ↦ (j.owner, sym e ∙ (proceeds j.proposal _ _ cause v h).1)
        | peer_value adopted _ ↦
            let (i, at) =
              Has-map reply (member j.owner).peers adopted.source adopted.reports.filled in
            let (voted, _) =
              (inv.report _ (sent i adopted.source at) adopted.reports.promised).source
                adopted.reports.accepted in
            let (p, e) = given _ _ (inv.vote_issued i _ _ voted) in
            (p, e ∙ sym adopted.value ∙ (proceeds j.proposal _ _ cause v h).1)
      ]

  Step-IsGiven :
      {s u : System S}
      → Step ops member s u
      → Inv d members member s
      → IsGiven member s
      → IsGiven member u
  unfolding next_proposal_number
  Step-IsGiven {s} (begins p) inv given =
      phase-IsGiven member s s.started _ s.rounds s.started given (λ v h. cc)
  Step-IsGiven {s} (prepares t i j known _) inv given = given
  Step-IsGiven {s} (counts_promises t j reply cause known waiting sent) inv given =
      phase-IsGiven member s t _ s.rounds s.started given
        (proceeds-IsGiven s inv given j reply cause sent)
  Step-IsGiven {s} (accepts t i j v known asked _) inv given = given
  Step-IsGiven {s} (counts_accepts t j a reply cause known at sent) inv given =
      phase-IsGiven member s t _ s.rounds s.started given λ v h.
        given j.proposal v
          (t, j, known, refl, ap issued at ∙ ap some (sym (value-after_accept a _ cause)) ∙ h)
  Step-IsGiven {s} (forwards t j a known e) inv given = given
  Step-IsGiven {s} (crashes i) inv given = given
  Step-IsGiven {s} (restarts i) inv given = given

  Reach-IsGiven :
      {s u : System S} → IsFresh d s → Reach ops member s u → u.started ≤ max_int → IsGiven member u
  Reach-IsGiven {s} f here small = λ n v h. let (t, j, e, q, a) = h in absurd (cc (f.jobs t))
  Reach-IsGiven {s} f (next {t} r st) small =
      let before : t.started ≤ max_int = omega (arith, started-le d member st) in
      Step-IsGiven st (Reach-Inv d members member cluster f r before) (Reach-IsGiven f r before)

  -- A value that is chosen in a state that a fresh cluster reaches within 2^63 - 1 rounds is the
  -- value that one of the proposers was made with.
  pub validity :
      {s u : System S}
      → IsFresh d s
      → Reach ops member s u
      → u.started ≤ max_int
      → (b : ProposalNumber) (v : ℕ) → IsChosen members u b v
      → (p : ℕ) × ((member p).value ≡ v)
  validity {u = u} f r small b v c =
      Reach-IsGiven f r small b v
        (chosen-Issued d members member u (Reach-Inv d members member cluster f r small) b v c)
