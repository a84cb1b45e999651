-- ===== src/Harness/Promises.antt =====
-- Where a node's promise, and the promise in its reply, come from: its disk, or the request.
use interactive_paxos.Prelude.{ℤ, ◌≡◌, ap, inl, inr, ◌⊎◌, Result, ok, arith}
use interactive_paxos.Proposal.{ProposalNumber}
use interactive_paxos.Messages.{PrepareRequest, PrepareResponse, AcceptRequest, AcceptResponse}
use interactive_paxos.Store.{Store, IsDurable}
use interactive_paxos.Harness.{Site, Ledger}
use interactive_paxos.Harness.Sites.{held, PrepareEffect, AcceptEffect}

-- `m` is the promise on the disk, or the number of the request.
abbrev pub OldOrNew : ProposalNumber → ProposalNumber → ProposalNumber → Type 0
OldOrNew old new m = (m ≡ old) ⊎ (m ≡ new)

module _ {S : Type 0} {ops : Store S} (d : IsDurable ops) where
  module _ (req : PrepareRequest) (old new : Site S) (reply : Result PrepareResponse)
      (effect : PrepareEffect d req old new reply) where
    pub prepare-promise : OldOrNew (held d old).promised req.proposal (held d new).promised
    prepare-promise = elim effect [
      | PrepareEffect.kept same _ ↦ inl (ap (λ x. x.promised) same)
      | PrepareEffect.promised r _ _ _ _ _ c _ ↦ inr (ap (λ x. x.promised) c)
    ]

    pub prepare-highest :
        (r : PrepareResponse)
        → reply ≡ ok r
        → OldOrNew (held d old).promised req.proposal r.highest_promised
    prepare-highest r e = elim effect [
      | PrepareEffect.kept _ quiet ↦ inl (quiet r e).1
      | PrepareEffect.promised r' e' high _ _ _ _ _ ↦ inr (ground arith)
    ]

  module _ (id : ℤ) (req : AcceptRequest) (old new : Site S) (before after : Ledger)
      (reply : Result AcceptResponse)
      (effect : AcceptEffect d id req old new before after reply) where
    pub accept-promise : OldOrNew (held d old).promised req.proposal (held d new).promised
    accept-promise = elim effect [
      | AcceptEffect.kept same _ _ ↦ inl (ap (λ x. x.promised) same)
      | AcceptEffect.accepted r _ _ _ c _ _ ↦ inr (ap (λ x. x.promised) c)
    ]

    pub accept-highest :
        (r : AcceptResponse)
        → reply ≡ ok r
        → OldOrNew (held d old).promised req.proposal r.highest_promised
    accept-highest r e = elim effect [
      | AcceptEffect.kept _ _ quiet ↦ inl (quiet r e).1
      | AcceptEffect.accepted r' e' _ high _ _ _ ↦ inr (ground arith)
    ]
