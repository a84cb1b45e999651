-- ===== src/System/Rounds/Steps.antt =====
-- Each step keeps the bound on rounds.
use mathlib.Core.Option.{some-injective}
use interactive_paxos.Prelude.{
  ℕ, suc, ◌+◌, ◌≤◌, pos, add_int, add_int-pos, max_int, ◌≡◌, sym, ◌∙◌, ap, inl, inr, subst, Option,
  some, arith,
}
use interactive_paxos.Messages.{PrepareResponse, AcceptResponse}
use interactive_paxos.Store.{Store, IsDurable}
use interactive_paxos.Proposer.{
  Proposer, Cause, after_prepare, after_accept, next_proposal_number, fast_forward, quorum,
}
use interactive_paxos.Proposer
use interactive_paxos.Proposer.Outcome.{Attempt}
use interactive_paxos.Proposer.Tally.{no_promises, no_accepts}
use interactive_paxos.Proposer.Tally.Counting.{
  count_promises-IsHighest, count_accepts-IsHighest, promise_of, promise_of_accept,
}
use interactive_paxos.Harness.Sites.{held-crash, crash-SiteSynced, held-restart, restart-SiteSynced}
use interactive_paxos.System.{
  System, Job, Phase, Step, Received, update, proposer, attempt_of, returned, set_phase, begin,
  begins, prepares, counts_promises, accepts, counts_accepts, forwards, crashes, restarts, Reach,
  here, next,
}
use interactive_paxos.System.Updates.{update_all, update-cases, Has-map}
use interactive_paxos.System.Rounds.{
  UpTo, UpTo-max, UpTo-IsHighest, fast_forward-round, after_prepare-highest_seen,
  after_accept-highest_seen, returned-attempt_of, IsBounded, IsBounded-suc,
}
use interactive_paxos.System.Rounds.Deliveries.{
  site_IsBounded, deliver_prepare-IsBounded, deliver_accept-IsBounded,
}

module _ {S : Type 0} {ops : Store S} (d : IsDurable ops) (member : ℕ → Proposer ℕ) (s : System S)
    (n : ℕ) (b : IsBounded d n s) where
  -- A change of one job's phase only.
  set_phase-IsBounded :
      (t : ℕ) (j : Job) (phase : Phase)
      → s.jobs t ≡ some j
      → ((a : Attempt) → attempt_of phase ≡ some a → UpTo n a.highest_seen.round)
      → IsBounded d n (set_phase t j phase s)
  set_phase-IsBounded t j phase known seen = record {
    synced = b.synced;
    counter = b.counter;
    promise = b.promise;
    job = λ u k e. elim (update-cases s.jobs t (record j { phase = phase }) u k e) [
      | inl (_, q) ↦ subst (λ x. UpTo n x.proposal.round) (sym q) (b.job t j known)
      | inr old ↦ b.job u k old
    ];
    attempt = λ u k a e h. elim (update-cases s.jobs t (record j { phase = phase }) u k e) [
      | inl (_, q) ↦ seen a (subst (λ x. attempt_of x.phase ≡ some a) q h)
      | inr old ↦ b.attempt u k a old h
    ];
    prepare_reply = b.prepare_reply;
    accept_reply = b.accept_reply;
  }

  begin-IsBounded : suc n ≤ max_int → (p : ℕ) → IsBounded d (suc n) (begin member p s)
  unfolding next_proposal_number
  begin-IsBounded small p = record {
    synced = b.synced;
    counter =
        update_all (λ q r. UpTo (suc n) r) s.rounds p (add_int (s.rounds p) (pos 1)) more.counter
          one_more;
    promise = more.promise;
    job = λ u k e. elim (update-cases s.jobs s.started _ u k e) [
      | inl (_, q) ↦ subst (λ x. UpTo (suc n) x.proposal.round) (sym q) one_more
      | inr old ↦ more.job u k old
    ];
    attempt = λ u k a e h. elim (update-cases s.jobs s.started _ u k e) [
      | inl (_, q) ↦ ground arith
      | inr old ↦ more.attempt u k a old h
    ];
    prepare_reply = more.prepare_reply;
    accept_reply = more.accept_reply;
  }
    where
      more : IsBounded d (suc n) s
      more = IsBounded-suc d n s b

      one_more : UpTo (suc n) (add_int (s.rounds p) (pos 1))
      one_more =
          let (m, e, h) = b.counter p in
          (m + 1, ap (λ r. add_int r (pos 1)) e ∙ add_int-pos m 1 (omega arith), omega arith)

  -- What the tally of phase 1 has seen was in a reply.
  seen_promises :
      (j : Job) (reply : ℕ → Option PrepareResponse)
      → Received j.proposal s.promises reply
      → UpTo n (Proposer.prepare (member j.owner) reply).highest_proposal_number_seen.round
  unfolding Proposer.prepare
  seen_promises j reply sent =
      UpTo-IsHighest promise_of _ n _
        (count_promises-IsHighest (no_promises (member j.owner).value) _)
        λ r m. let (i, e) = Has-map reply _ r m in b.prepare_reply _ (sent i r e)

  -- What the tally of phase 2 has seen was in a reply.
  seen_acceptances :
      (j : Job) (reply : ℕ → Option AcceptResponse)
      → Received j.proposal s.acceptances reply
      → UpTo n (Proposer.accept (member j.owner) reply).highest_proposal_number_seen.round
  unfolding Proposer.accept
  seen_acceptances j reply sent =
      UpTo-IsHighest promise_of_accept _ n _ (count_accepts-IsHighest no_accepts _)
        λ r m. let (i, e) = Has-map reply _ r m in b.accept_reply _ (sent i r e)

  forward-IsBounded :
      (t : ℕ) (j : Job) (a : Attempt)
      → s.jobs t ≡ some j
      → returned j.phase ≡ some a
      → IsBounded d n (record s {
        rounds =
            update s.rounds j.owner (fast_forward a.highest_seen (proposer member s j.owner)).round;
      })
  forward-IsBounded t j a known e = record {
    synced = b.synced;
    counter =
        update_all (λ q r. UpTo n r) s.rounds j.owner _ b.counter
          (elim (fast_forward-round a.highest_seen (proposer member s j.owner)) [
            | inl stays ↦ subst (UpTo n) (sym stays) (b.counter j.owner)
            | inr jumps ↦
                subst (UpTo n) (sym jumps) (b.attempt t j a known (returned-attempt_of j.phase a e))
          ]);
    promise = b.promise;
    job = b.job;
    attempt = b.attempt;
    prepare_reply = b.prepare_reply;
    accept_reply = b.accept_reply;
  }

module _ {S : Type 0} {ops : Store S} (d : IsDurable ops) (member : ℕ → Proposer ℕ) where
  -- Every step keeps the bound, which is the number of calls of `Propose` so far.
  pub Step-IsBounded :
      {s u : System S}
      → Step ops member s u
      → u.started ≤ max_int
      → IsBounded d s.started s
      → IsBounded d u.started u
  Step-IsBounded {s} (begins p) small b = begin-IsBounded d member s s.started b small p
  Step-IsBounded {s} (prepares t i j known _) small b =
      deliver_prepare-IsBounded d member s s.started b t i j known
  Step-IsBounded {s} (counts_promises t j reply cause known _ sent) small b =
      set_phase-IsBounded d member s s.started b t j _ known λ a e.
        subst (λ q. UpTo s.started q.round) (sym (after_prepare-highest_seen _ _ _ cause a e))
          (seen_promises d member s s.started b j reply sent)
  Step-IsBounded {s} (accepts t i j v known _ _) small b =
      deliver_accept-IsBounded d member s s.started b t i j v known
  Step-IsBounded {s} (counts_accepts t j a reply cause known e sent) small b =
      set_phase-IsBounded d member s s.started b t j _ known λ a' e'.
        subst (λ x. UpTo s.started x.highest_seen.round) (some-injective _ _ e')
          (subst (λ q. UpTo s.started q.round) (sym (after_accept-highest_seen a _ cause))
            (UpTo-max s.started a.highest_seen _ (b.attempt t j a known (ap attempt_of e))
              (seen_acceptances d member s s.started b j reply sent)))
  Step-IsBounded {s} (forwards t j a known e) small b =
      forward-IsBounded d member s s.started b t j a known e
  Step-IsBounded {s} (crashes i) small b =
      site_IsBounded d member s s.started b i _ (crash-SiteSynced d (s.sites i)) (
        subst (λ x. UpTo s.started x.promised.round) (sym (held-crash d (s.sites i))) (b.promise i))
  Step-IsBounded {s} (restarts i) small b =
      site_IsBounded d member s s.started b i _
        (restart-SiteSynced d (pos i) (s.sites i) (b.synced i))
        (subst (λ x. UpTo s.started x.promised.round) (sym (held-restart d (pos i) (s.sites i)))
          (b.promise i))

  -- No call of `Propose` is forgotten.
  pub started-le : {s u : System S} → Step ops member s u → s.started ≤ u.started
  started-le (begins p) = omega arith
  started-le (prepares t i j known _) = omega arith
  started-le (counts_promises t j reply cause known _ sent) = omega arith
  started-le (accepts t i j v known _ _) = omega arith
  started-le (counts_accepts t j a reply cause known e sent) = omega arith
  started-le (forwards t j a known e) = omega arith
  started-le (crashes i) = omega arith
  started-le (restarts i) = omega arith

  -- From a state where every round is at most the number of calls of `Propose` so far, each state
  -- that is reached within 2^63 - 1 calls has that bound on all its rounds: those of the proposers'
  -- counters, of the promises on disk, of the proposal numbers, of the replies and of the attempts.
  pub Reach-IsBounded :
      {s u : System S}
      → Reach ops member s u
      → u.started ≤ max_int
      → IsBounded d s.started s
      → IsBounded d u.started u
  Reach-IsBounded here small b = b
  Reach-IsBounded (next r st) small b =
      Step-IsBounded st small (Reach-IsBounded r (omega (arith, started-le st)) b)
