-- ===== src/System/Learning/Steps.antt =====
-- Every step keeps the reports right; so no two rounds report different values.

use mathlib.Core.Bool.{false≢true}
use interactive_paxos.Prelude.{
  ℕ, ℤ, pos, ◌≤◌, max_int, ◌≡◌, refl, sym, ◌∙◌, ap, ◌⊎◌, inl, inr, subst, true, Option, some, List,
  map, Has, Option-cases, arith, Result, ok, add_int,
}
use interactive_paxos.Quorum.{SameItems-length}
use interactive_paxos.Proposal.{ProposalNumber}
use interactive_paxos.Messages.{PrepareResponse, AcceptRequest, AcceptResponse}
use interactive_paxos.Store.{Store, IsDurable}
use interactive_paxos.Proposer.{Proposer, Cause, after_prepare, after_accept, quorum}
use interactive_paxos.Proposer
use interactive_paxos.Proposer.Outcome.{Attempt, chosen}
use interactive_paxos.Proposer.Tally.{no_accepts}
use interactive_paxos.Proposer.Tally.Counting.{accepts-count_accepts}
use interactive_paxos.Harness.{Site, Ledger, node_accept}
use interactive_paxos.Harness.Sites.{SiteSynced, AcceptEffect, node_accept-AcceptEffect, entry}
use interactive_paxos.System.{
  System, Job, Reply, Received, Step, Reach, here, next, begins, prepares, counts_promises, accepts,
  counts_accepts, forwards, crashes, restarts, accepting, decided, preparing, deliver_accept,
  accept_request, issued,
}
use interactive_paxos.System.Updates.{post-cases, Has-append_left, Has-append_last}
use interactive_paxos.System.Rounds.{IsBounded}
use interactive_paxos.System.Rounds.Steps.{started-le, Reach-IsBounded}
use interactive_paxos.System.Safety.{IsCluster, Voted, Issued, IsChosen, Inv}
use interactive_paxos.System.Safety.Steps.{value-after_accept, IsFresh, fresh-IsBounded, Reach-Inv}
use interactive_paxos.System.Agreement.{Issued-unique, agreement}
use interactive_paxos.System.Learning.{
  Learn, Learn-mono, phase-Learn, decided-injective, is_accepted, accept_test, tally-map,
  accepting-quorum, not_decided, chosen-quorum,
}
use interactive_paxos.Proposer.{next_proposal_number}

module _ {S : Type 0} {ops : Store S} (d : IsDurable ops) (members : List ℕ)
    (member : ℕ → Proposer ℕ) (s : System S) (learn : Learn members member s) where
  -- A vote and its reply come together.
  deliver_accept-Learn :
      (i : ℕ) (j : Job) (v : ℕ)
      → SiteSynced d (s.sites i)
      → Learn members member (deliver_accept ops member i j v s)
  deliver_accept-Learn i j v synced = Learn-mono members member s u learn votes replies (λ t. refl)
    where
      req : AcceptRequest
      req = accept_request member j v

      result : Result AcceptResponse × Site S × Ledger
      result = node_accept ops (pos i) req (s.sites i) s.ledger

      u : System S
      u = deliver_accept ops member i j v s

      effect : AcceptEffect d (pos i) req (s.sites i) result.1 s.ledger result.2 result.0
      effect = node_accept-AcceptEffect d (pos i) req (s.sites i) s.ledger synced

      votes : (k : ℕ) (n : ProposalNumber) (w : ℕ) → Voted s k n w → Voted u k n w
      votes k n w h = elim effect [
        | AcceptEffect.kept _ unlogged _ ↦ subst (Has _) (sym unlogged) h
        | AcceptEffect.accepted _ _ _ _ _ logged _ ↦
            subst (Has _) (sym logged) (Has-append_left _ (entry (pos i) req) s.ledger h)
      ]

      voted_now :
          (r : AcceptResponse) → result.0 ≡ ok r → r.accepted ≡ true → Voted u i j.proposal v
      voted_now r e a = elim effect [
        | AcceptEffect.kept _ _ quiet ↦ absurd (false≢true (sym (quiet r e).0 ∙ a))
        | AcceptEffect.accepted _ _ _ _ _ logged _ ↦
            subst (Has _) (sym logged) (Has-append_last (entry (pos i) req) s.ledger)
      ]

      replies :
          (x : Reply AcceptResponse)
          → Has x u.acceptances
          → x.reply.accepted ≡ true
          → Has x s.acceptances ⊎ ((w : ℕ) × Voted u x.acceptor x.proposal w)
      replies x h a = elim (post-cases i j.proposal result.0 s.acceptances x h) [
        | inl old ↦ inl old
        | inr (r, e, q) ↦ inr (
            subst (λ y. (w : ℕ) × Voted u y.acceptor y.proposal w) (sym q)
              (v, voted_now r e (subst (λ y. y.reply.accepted ≡ true) q a)))
      ]

  -- A quorum of accepts is a quorum of votes for the value that was asked for.
  counted-IsChosen :
      IsCluster members member
      → Inv d members member s
      → (t : ℕ) (j : Job) (a : Attempt) (reply : ℕ → Option AcceptResponse) (cause : Option Cause)
      → s.jobs t ≡ some j
      → j.phase ≡ accepting a
      → Received j.proposal s.acceptances reply
      → (after_accept a (Proposer.accept (member j.owner) reply) cause).outcome ≡ chosen
      → IsChosen members s j.proposal a.value
  unfolding Proposer.accept accept_test
  counted-IsChosen cluster inv t j a reply cause known at sent ends = record {
    voter = accept_test reply;
    enough = omega (
      arith,
      (chosen-quorum a _ cause ends).0,
      learn.asks t j a known at,
      accepts-count_accepts no_accepts (map reply (member j.owner).peers),
      tally-map reply (member j.owner).peers,
      cluster.peers j.owner (accept_test reply),
      SameItems-length (member j.owner).peers members (cluster.peers j.owner),
    );
    voted = λ i m h. voted i h;
  }
    where
      voted : (i : ℕ) → accept_test reply i ≡ true → Voted s i j.proposal a.value
      voted i h = elim (Option-cases (reply i)) [
        | inl e ↦ absurd (false≢true (sym (ap is_accepted e) ∙ h))
        | inr (r, e) ↦
            let (w, vote) = learn.accept_reply _ (sent i r e) (sym (ap is_accepted e) ∙ h) in
            let asked : Issued s j.proposal a.value = (t, j, known, refl, ap issued at) in
            subst (Voted s i j.proposal)
              (Issued-unique d members member s inv j.proposal w a.value
                (inv.vote_issued i j.proposal w vote) asked)
              vote
      ]

module _ {S : Type 0} {ops : Store S} (d : IsDurable ops) (members : List ℕ)
    (member : ℕ → Proposer ℕ) (cluster : IsCluster members member) where
  -- A step that leaves the ledger, the replies to `accept` and the calls alone.
  same_calls :
      (s : System S) (sites : ℕ → Site S) (promises : List (Reply PrepareResponse)) (rounds : ℕ → ℤ)
      → Learn members member s
      → Learn members member (record s { sites = sites; promises = promises; rounds = rounds })
  same_calls s sites promises rounds learn =
      Learn-mono members member s (record s { sites = sites; promises = promises; rounds = rounds })
        learn (λ i n v h. h) (λ x h a. inl h) (λ t. refl)

  Step-Learn :
      {s u : System S}
      → Step ops member s u
      → IsBounded d s.started s
      → Inv d members member s
      → Learn members member s
      → Learn members member u
  unfolding next_proposal_number
  Step-Learn {s} (begins p) b inv learn =
      phase-Learn members member s s.started
        (record {
          owner = p;
          proposal = record { round = add_int (s.rounds p) (pos 1); node_id = (member p).id };
          phase = preparing;
        })
        _ _ learn (λ a h. cc) (λ a h o. cc)
  Step-Learn {s} (prepares t i j known _) b inv learn = same_calls s _ _ s.rounds learn
  Step-Learn {s} (counts_promises t j reply cause known waiting sent) b inv learn =
      phase-Learn members member s t (record j { phase = _ }) s.rounds s.started learn
        (λ a h. accepting-quorum _ _ _ cause a h) (λ a h o. absurd (not_decided _ _ _ cause a h))
  Step-Learn {s} (accepts t i j v known asked _) b inv learn =
      deliver_accept-Learn d members member s learn i j v (b.synced i)
  Step-Learn {s} (counts_accepts t j a reply cause known at sent) b inv learn =
      phase-Learn members member s t
        (record j {
          phase = decided (after_accept a (Proposer.accept (member j.owner) reply) cause);
        })
        s.rounds s.started learn (λ a' h. cc)
        λ a' h o.
          let q : after_accept a (Proposer.accept (member j.owner) reply) cause ≡ a' =
            decided-injective h in
          let ends : (after_accept a (Proposer.accept (member j.owner) reply) cause).outcome
              ≡ chosen =
            ap (λ x. x.outcome) q ∙ o in
          subst (IsChosen members s j.proposal)
            (sym (value-after_accept a (Proposer.accept (member j.owner) reply) cause)
              ∙ ap (λ x. x.value) q)
            (counted-IsChosen d members member s learn cluster inv t j a reply cause known at sent
              ends)
  Step-Learn {s} (forwards t j a known e) b inv learn = same_calls s s.sites s.promises _ learn
  Step-Learn {s} (crashes i) b inv learn = same_calls s _ s.promises s.rounds learn
  Step-Learn {s} (restarts i) b inv learn = same_calls s _ s.promises s.rounds learn

  fresh-Learn : (s : System S) → IsFresh d s → Learn members member s
  fresh-Learn s f = record {
    accept_reply = λ x h. absurd (subst (Has x) f.acceptances h);
    asks = λ t j a e. cc (f.jobs t);
    learned = λ t j a e. cc (f.jobs t);
  }

  Reach-Learn :
      {s u : System S}
      → IsFresh d s
      → Reach ops member s u
      → u.started ≤ max_int
      → Learn members member u
  Reach-Learn {s} f here small = fresh-Learn s f
  Reach-Learn {s} f (next {t} r st) small =
      let before : t.started ≤ max_int = omega (arith, started-le d member st) in
      Step-Learn st
        (Reach-IsBounded d member r before (fresh-IsBounded d members member cluster s f))
        (Reach-Inv d members member cluster f r before) (Reach-Learn f r before)

  -- In every state that a fresh cluster reaches within 2^63 - 1 rounds, the value of a round that
  -- has returned `OutcomeChosen` is chosen: a quorum of the members has accepted it at the
  -- round's number.
  pub report-IsChosen :
      {s u : System S}
      → IsFresh d s
      → Reach ops member s u
      → u.started ≤ max_int
      → (t : ℕ) (j : Job) (a : Attempt) → u.jobs t ≡ some j
      → j.phase ≡ decided a
      → a.outcome ≡ chosen
      → IsChosen members u j.proposal a.value
  report-IsChosen f r small = (Reach-Learn f r small).learned

  -- Two rounds of `Propose`, of whatever proposers, that return `OutcomeChosen` in a state that a
  -- fresh cluster reaches within 2^63 - 1 rounds return the same value.
  pub reports_agree :
      {s u : System S}
      → IsFresh d s
      → Reach ops member s u
      → u.started ≤ max_int
      → (t w : ℕ) (j k : Job) (a b : Attempt) → u.jobs t ≡ some j
      → j.phase ≡ decided a
      → a.outcome ≡ chosen
      → u.jobs w ≡ some k
      → k.phase ≡ decided b
      → b.outcome ≡ chosen
      → a.value ≡ b.value
  reports_agree f r small t w j k a b et ea oa ew eb ob =
      agreement d members member cluster f r small j.proposal k.proposal a.value b.value
        (report-IsChosen f r small t j a et ea oa) (report-IsChosen f r small w k b ew eb ob)
