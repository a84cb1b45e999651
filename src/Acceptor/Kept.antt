-- ===== src/Acceptor/Kept.antt =====
-- What a handler keeps: promises only grow, memory and disk stay
-- the same, and a restart gives back the state.
use interactive_paxos.Prelude.{
  ◌≡◌, refl, sym, ◌∙◌, ok, some, arith, true, false, Result-cases, inl, inr,
}
use interactive_paxos.Proposal.{ProposalNumber, zero_proposal, less}
use interactive_paxos.Proposal.Order.{less_irrefl, le_trans, at_least-less}
use interactive_paxos.Messages.{PrepareRequest, AcceptRequest, AcceptorState}
use interactive_paxos.Store.{Store, IsDurable}
use interactive_paxos.Acceptor.{Acceptor, refuses, prepare, accept, new_acceptor}
use interactive_paxos.Acceptor.Durability.{
  IsSynced, Prepared, prepare-Prepared, Voted, accept-Voted,
}

-- A number that passes the guard is at least the promise, and is not zero.
pub refuses-less :
    (s : AcceptorState) (n : ProposalNumber) → refuses s n ≡ false → less n s.promised ≡ false
unfolding refuses
refuses-less s n h = ground (arith, at_least-less n s.promised)

-- A number below the promise does not pass.
pub refuses_low :
    (s : AcceptorState) (n : ProposalNumber) → less n s.promised ≡ true → refuses s n ≡ true
unfolding refuses
refuses_low s n h = ground (arith, at_least-less n s.promised)

-- The accepted proposal is one that was promised, and no value is kept without an acceptance.
pub record IsValid (s : AcceptorState) : Type 0 where
  pub accepted_below : less s.promised s.accepted_proposal ≡ false
  pub nothing_kept : s.has_accepted ≡ false → s.accepted_proposal ≡ zero_proposal

module _ {S : Type 0} {ops : Store S} (d : IsDurable ops) (a : Acceptor S) where
  -- What one handler may do to an acceptor that is synced.
  pub record IsKept (a' : Acceptor S) : Type 0 where
    pub synced : IsSynced d a'
    pub grows : less a'.state.promised a.state.promised ≡ false
    pub same_id : a'.id ≡ a.id
    pub valid : IsValid a.state → IsValid a'.state

  unchanged : (a' : Acceptor S) → a' ≡ a → IsSynced d a → IsKept a'
  unchanged a' e h =
      rw e (record { synced = h; grows = less_irrefl _; same_id = refl; valid = λ v. v })

  lost_save :
      (s : S) → d.content s ≡ d.content a.store → IsSynced d a → IsKept (record a { store = s })
  lost_save s c h = record {
    synced = h ∙ sym c;
    grows = less_irrefl _;
    same_id = refl;
    valid = λ v. v;
  }

  -- `Prepare` on an acceptor whose memory is on its disk leaves one of the same kind, lowers no
  -- promise and keeps the state well formed, whether it promises, refuses or fails to save.
  pub prepare-IsKept : (req : PrepareRequest) → IsSynced d a → IsKept (prepare ops a req).1
  prepare-IsKept req h = elim (prepare-Prepared d a req) [
    | Prepared.refused r e ↦ rw e (unchanged a refl h)
    | Prepared.promised s r c e ↦ rw e (record {
      synced = sym c;
      grows = refuses-less a.state req.proposal r;
      same_id = refl;
      valid = λ v. record {
        accepted_below = le_trans _ _ _ v.accepted_below (refuses-less a.state req.proposal r);
        nothing_kept = v.nothing_kept;
      };
    })
    | Prepared.failed s f r c e ↦ rw e (lost_save s c h)
  ]

  -- `Accept` on an acceptor whose memory is on its disk leaves one of the same kind, lowers no promise
  -- and keeps the state well formed, whether it accepts, refuses or fails to save.
  pub accept-IsKept : (req : AcceptRequest) → IsSynced d a → IsKept (accept ops a req).1
  accept-IsKept req h = elim (accept-Voted d a req) [
    | Voted.refused r e ↦ rw e (unchanged a refl h)
    | Voted.accepted s r c e ↦ rw e (record {
      synced = sym c;
      grows = refuses-less a.state req.proposal r;
      same_id = refl;
      valid = λ v. record { accepted_below = less_irrefl req.proposal; nothing_kept = λ n. cc };
    })
    | Voted.failed s f r c e ↦ rw e (lost_save s c h)
  ]

  -- An acceptor made anew over the store of one whose memory is on its disk is that acceptor,
  -- unless the store does not load.
  pub new_acceptor-recovers :
      IsSynced d a → (b : Acceptor S) → new_acceptor ops a.id (some a.store) ≡ ok b → b ≡ a
  unfolding new_acceptor
  new_acceptor-recovers h b made = elim (Result-cases (ops.load a.store)) [
    | inl (x, e) ↦ ground (arith, d.load-content a.store x e)
    | inr (f, e) ↦ ground arith
  ]
