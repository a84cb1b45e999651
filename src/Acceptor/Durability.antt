-- ===== src/Acceptor/Durability.antt =====
-- The branches of the handlers over a store that keeps its promise, and memory against disk.
use interactive_paxos.Prelude.{
  ◌≡◌, Bool-cases, ok, err, Error, wrap, none, some, arith, Option-cases, inl, inr, true, false, ap,
}
use interactive_paxos.Messages.{PrepareRequest, AcceptRequest, AcceptorState}
use interactive_paxos.Store.{Store, IsDurable}
use interactive_paxos.Acceptor.{
  Acceptor, refuses, refused_prepare, promise, prepare, vote, accept, refused_accept, next_promise,
  next_vote, promised_reply, accepted_reply,
}

module _ {S : Type 0} {ops : Store S} (d : IsDurable ops) where
  -- The state in memory is the content of the store.
  abbrev pub IsSynced : Acceptor S → Type 0
  IsSynced a = a.state ≡ d.content a.store

  -- A `Save` of `x` at `s` succeeds and `s'` holds `x`, or it fails and `s'` holds what `s` held.
  data Saved (x : AcceptorState) (s : S) : Type 0 where
    stored : (s' : S) → ops.save x s ≡ (none, s') → d.content s' ≡ x → Saved x s
    lost :
        (s' : S) (e : Error) → ops.save x s ≡ (some e, s') → d.content s' ≡ d.content s → Saved x s

  saved : (x : AcceptorState) (s : S) → Saved x s
  saved x s = elim (Option-cases (ops.save x s).0) [
    | inl e ↦ stored (ops.save x s).1 (ap (λ o. (o, (ops.save x s).1)) e) (d.content-save x s e)
    | inr (f, e) ↦
        lost (ops.save x s).1 f (ap (λ o. (o, (ops.save x s).1)) e) (d.content-save_fails x s f e)
  ]

  -- What `Prepare` does: it refuses and changes nothing; it promises, after the promise is on disk;
  -- or the `Save` fails, and it answers with an error, with the state in memory and on disk as before.
  pub data Prepared (a : Acceptor S) (req : PrepareRequest) : Type 0 where
    refused :
        refuses a.state req.proposal ≡ true
        → prepare ops a req ≡ (ok (refused_prepare a), a)
        → Prepared a req
    promised :
        (s : S)
        → refuses a.state req.proposal ≡ false
        → d.content s ≡ next_promise a.state req
        → prepare ops a req
          ≡ (ok (promised_reply a req), record a { store = s; state = next_promise a.state req })
        → Prepared a req
    failed :
        (s : S) (e : Error)
        → refuses a.state req.proposal ≡ false
        → d.content s ≡ d.content a.store
        → prepare ops a req ≡ (err (wrap "persist promise" e), record a { store = s })
        → Prepared a req

  -- `Prepare` either refuses, with no change at all, or it promises once the promise is on disk, or its
  -- `Save` fails: then it returns an error, and memory and disk hold what they held. It refuses exactly
  -- where the guard `refuses` of both handlers says so.
  pub prepare-Prepared : (a : Acceptor S) (req : PrepareRequest) → Prepared a req
  unfolding prepare promise
  prepare-Prepared a req = elim (Bool-cases (refuses a.state req.proposal)) [
    | inl r ↦ refused r (rw r)
    | inr r ↦ elim (saved (next_promise a.state req) a.store) [
      | stored s e c ↦ promised s r c (rw r (ground arith))
      | lost s f e c ↦ failed s f r c (rw r (ground arith))
    ]
  ]

  -- What `Accept` does, in the same way.
  pub data Voted (a : Acceptor S) (req : AcceptRequest) : Type 0 where
    refused :
        refuses a.state req.proposal ≡ true
        → accept ops a req ≡ (ok (refused_accept a), a)
        → Voted a req
    accepted :
        (s : S)
        → refuses a.state req.proposal ≡ false
        → d.content s ≡ next_vote req
        → accept ops a req
          ≡ (ok (accepted_reply a req), record a { store = s; state = next_vote req })
        → Voted a req
    failed :
        (s : S) (e : Error)
        → refuses a.state req.proposal ≡ false
        → d.content s ≡ d.content a.store
        → accept ops a req ≡ (err (wrap "persist acceptance" e), record a { store = s })
        → Voted a req

  -- `Accept` either refuses, with no change at all, or it accepts once the vote is on disk, or its
  -- `Save` fails: then it returns an error, and memory and disk hold what they held. It refuses exactly
  -- where the guard `refuses` of both handlers says so.
  pub accept-Voted : (a : Acceptor S) (req : AcceptRequest) → Voted a req
  unfolding accept vote
  accept-Voted a req = elim (Bool-cases (refuses a.state req.proposal)) [
    | inl r ↦ Voted.refused r (rw r)
    | inr r ↦ elim (saved (next_vote req) a.store) [
      | stored s e c ↦ accepted s r c (rw r (ground arith))
      | lost s f e c ↦ Voted.failed s f r c (rw r (ground arith))
    ]
  ]
