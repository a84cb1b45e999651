-- ===== src/Harness/Sites.antt =====
-- What the calls of a node do to the state on its disk, whether it is up or down.
use interactive_paxos.Prelude.{
  ℤ, ◌≡◌, refl, subst, ◌∙◌, ap, Result, ok, err, Error, [], ◌∷◌, ◌++◌, arith, true, false,
  Result-cases, inl, inr,
}
use interactive_paxos.Proposal.{less}
use interactive_paxos.Messages.{
  PrepareRequest, PrepareResponse, AcceptRequest, AcceptResponse, AcceptorState,
}
use interactive_paxos.Store.{Store, IsDurable}
use interactive_paxos.Acceptor.{new_acceptor, next_promise, next_vote}
use interactive_paxos.Acceptor.Durability.{
  IsSynced, Prepared, prepare-Prepared, Voted, accept-Voted,
}
use interactive_paxos.Acceptor.Kept.{refuses-less, prepare-IsKept, accept-IsKept}
use interactive_paxos.Harness.{
  Acceptance, Site, up, down, store_of, crash, restart, node_prepare, node_accept, Ledger,
}

-- The entry that an acceptance makes in the ledger.
abbrev pub entry : ℤ → AcceptRequest → Acceptance
entry id req = record { acceptor_id = id; proposal = req.proposal; value = req.value }

module _ {S : Type 0} {ops : Store S} (d : IsDurable ops) where
  -- The state on a node's disk.
  abbrev pub held : Site S → AcceptorState
  held site = d.content (store_of site)

  -- A node that is up has in memory what it has on disk.
  abbrev pub SiteSynced : Site S → Type 0
  SiteSynced (up a) = IsSynced d a
  SiteSynced (down s) = Unit

  -- A `prepare` call leaves the disk, and promises nothing; or it promises, and the promise and
  -- what the reply reports are those of the disk.
  pub data PrepareEffect (req : PrepareRequest) (old new : Site S) (reply : Result PrepareResponse)
      : Type 0 where
    kept :
        held new ≡ held old
        → ((r : PrepareResponse)
            → reply ≡ ok r
            → (r.promised ≡ false) × (r.highest_promised ≡ (held old).promised))
        → PrepareEffect req old new reply
    promised :
        (r : PrepareResponse)
        → reply ≡ ok r
        → r.highest_promised ≡ req.proposal
        → r.accepted_proposal ≡ (held old).accepted_proposal
        → r.accepted_value ≡ (held old).accepted_value
        → r.has_accepted ≡ (held old).has_accepted
        → held new ≡ next_promise (held old) req
        → less req.proposal (held old).promised ≡ false
        → PrepareEffect req old new reply

  pub node_prepare-PrepareEffect :
      (req : PrepareRequest) (site : Site S)
      → SiteSynced site
      → PrepareEffect req site (node_prepare ops req site).1 (node_prepare ops req site).0
  unfolding node_prepare
  node_prepare-PrepareEffect req (down s) h = kept refl (λ r e. cc)
  node_prepare-PrepareEffect req (up a) h = elim (prepare-Prepared d a req) [
    | Prepared.refused r e ↦ rw e (kept refl (λ resp q. ground arith))
    | Prepared.promised s r c e ↦ rw e (
        promised _ refl refl (ground arith) (ground arith) (ground arith)
          (c ∙ ap (λ x. next_promise x req) h)
          (subst (λ x. less req.proposal x.promised ≡ false) h
            (refuses-less a.state req.proposal r)))
    | Prepared.failed s f r c e ↦ rw e (kept c (λ resp q. cc))
  ]

  pub node_prepare-SiteSynced :
      (req : PrepareRequest) (site : Site S)
      → SiteSynced site
      → SiteSynced (node_prepare ops req site).1
  unfolding node_prepare
  node_prepare-SiteSynced req (down s) h = tt
  node_prepare-SiteSynced req (up a) h = (prepare-IsKept d a req h).synced

  -- An `accept` call leaves the disk and the ledger, and accepts nothing; or it accepts, and the
  -- acceptance is on the disk and in the ledger.
  pub data AcceptEffect (id : ℤ) (req : AcceptRequest) (old new : Site S) (before after : Ledger)
      (reply : Result AcceptResponse) : Type 0 where
    kept :
        held new ≡ held old
        → after ≡ before
        → ((r : AcceptResponse)
            → reply ≡ ok r
            → (r.accepted ≡ false) × (r.highest_promised ≡ (held old).promised))
        → AcceptEffect id req old new before after reply
    accepted :
        (r : AcceptResponse)
        → reply ≡ ok r
        → r.accepted ≡ true
        → r.highest_promised ≡ req.proposal
        → held new ≡ next_vote req
        → after ≡ before ++ entry id req ∷ []
        → less req.proposal (held old).promised ≡ false
        → AcceptEffect id req old new before after reply

  pub node_accept-AcceptEffect :
      (id : ℤ) (req : AcceptRequest) (site : Site S) (l : Ledger)
      → SiteSynced site
      → AcceptEffect id req site
          (node_accept ops id req site l).1
          l
          (node_accept ops id req site l).2
          (node_accept ops id req site l).0
  unfolding node_accept
  node_accept-AcceptEffect id req (down s) l h = AcceptEffect.kept refl refl (λ r e. cc)
  node_accept-AcceptEffect id req (up a) l h = elim (accept-Voted d a req) [
    | Voted.refused r e ↦ rw e (AcceptEffect.kept refl refl (λ resp q. ground arith))
    | Voted.accepted s r c e ↦ rw e (
        accepted _ refl refl refl c refl (
          subst (λ x. less req.proposal x.promised ≡ false) h
            (refuses-less a.state req.proposal r)))
    | Voted.failed s f r c e ↦ rw e (AcceptEffect.kept c refl (λ resp q. cc))
  ]

  pub node_accept-SiteSynced :
      (id : ℤ) (req : AcceptRequest) (site : Site S) (l : Ledger)
      → SiteSynced site
      → SiteSynced (node_accept ops id req site l).1
  unfolding node_accept
  node_accept-SiteSynced id req (down s) l h = tt
  node_accept-SiteSynced id req (up a) l h = (accept-IsKept d a req h).synced

  pub held-crash : (site : Site S) → held (crash site) ≡ held site
  unfolding crash
  held-crash (up a) = refl
  held-crash (down s) = refl

  pub crash-SiteSynced : (site : Site S) → SiteSynced (crash site)
  unfolding crash
  crash-SiteSynced (up a) = tt
  crash-SiteSynced (down s) = tt

  restart_loads :
      (id : ℤ) (site : Site S) (x : AcceptorState)
      → ops.load (store_of site) ≡ ok x
      → restart ops id site ≡ up (record { id = id; store = store_of site; state = x })
  unfolding restart new_acceptor
  restart_loads id site x e = ground arith

  restart_fails :
      (id : ℤ) (site : Site S) (f : Error)
      → ops.load (store_of site) ≡ err f
      → restart ops id site ≡ site
  unfolding restart new_acceptor
  restart_fails id site f e = ground arith

  -- A restart keeps the disk, and what it loads is what the disk holds.
  pub held-restart : (id : ℤ) (site : Site S) → held (restart ops id site) ≡ held site
  held-restart id site = elim (Result-cases (ops.load (store_of site))) [
    | inl (x, e) ↦ ap held (restart_loads id site x e)
    | inr (f, e) ↦ ap held (restart_fails id site f e)
  ]

  pub restart-SiteSynced :
      (id : ℤ) (site : Site S) → SiteSynced site → SiteSynced (restart ops id site)
  restart-SiteSynced id site h = elim (Result-cases (ops.load (store_of site))) [
    | inl (x, e) ↦ rw (restart_loads id site x e) (d.load-content (store_of site) x e)
    | inr (f, e) ↦ rw (restart_fails id site f e) h
  ]
