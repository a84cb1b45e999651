-- ===== src/System/Safety/Extension.antt =====
-- What a step may add: votes at or above the promise, and promises. Reports and backed values stand.
use interactive_paxos.Prelude.{ℕ, ◌≡◌, ◌⊎◌, inl, inr, true, false, List, sym, ◌∙◌}
use mathlib.Core.Bool.{false≢true}
use interactive_paxos.Proposal.{ProposalNumber, less}
use interactive_paxos.Proposal.Order.{le_trans}
use interactive_paxos.Messages.{PrepareResponse}
use interactive_paxos.Store.{Store, IsDurable}
use interactive_paxos.System.{System, Reply}
use interactive_paxos.System.Safety.{Voted, disk, Report, free, bound, Backed}

module _ {S : Type 0} {ops : Store S} (d : IsDurable ops) (s u : System S) where
  pub record Extends : Type 0 where
    pub votes : (i : ℕ) (n : ProposalNumber) (v : ℕ) → Voted s i n v → Voted u i n v
    pub new_votes :
        (i : ℕ) (n : ProposalNumber) (v : ℕ)
        → Voted u i n v
        → Voted s i n v ⊎ (less n (disk d s i).promised ≡ false)
    pub promises : (i : ℕ) → less (disk d u i).promised (disk d s i).promised ≡ false

  -- A vote below a number that the node had promised is an old one.
  old_vote :
      (ext : Extends) (i : ℕ) (c n : ProposalNumber) (w : ℕ)
      → less (disk d s i).promised n ≡ false
      → Voted u i c w
      → less c n ≡ true
      → Voted s i c w
  old_vote ext i c n w promised voted low = elim (ext.new_votes i c w voted) [
    | inl old ↦ old
    | inr high ↦ absurd (false≢true (sym (le_trans n _ c promised high) ∙ low))
  ]

  pub Report-Extends : Extends → (x : Reply PrepareResponse) → Report d s x → Report d u x
  Report-Extends ext x r = record {
    kept = le_trans _ _ _ r.kept (ext.promises x.acceptor);
    covers =
        λ c w voted low. r.covers c w (old_vote ext x.acceptor c x.proposal w r.kept voted low) low;
    source = λ e. let (voted, high) = r.source e in (ext.votes _ _ _ voted, high);
  }

  pub Backed-Extends :
      Extends
      → (members : List ℕ) (n : ProposalNumber) (v : ℕ) → Backed d members s n v
      → Backed d members u n v
  Backed-Extends ext members n v b = record {
    test = b.test;
    enough = b.enough;
    promised = λ i m t. le_trans _ _ _ (b.promised i m t) (ext.promises i);
    choosable = elim b.choosable [
      | free none_below ↦ free λ i c w m t voted low.
          none_below i c w m t (old_vote ext i c n w (b.promised i m t) voted low) low
      | bound c k below voted highest ↦
          bound c k below (ext.votes k c v voted) λ i e w m t voted' low.
            highest i e w m t (old_vote ext i e n w (b.promised i m t) voted' low) low
    ];
  }
