-- ===== src/System/Revival.antt =====
-- `Node.Revive` of pkg/node/node.go: a proposer made anew in the middle of a run.
use interactive_paxos.Prelude.{ℕ}
use interactive_paxos.Store.{Store}
use interactive_paxos.Proposer.{Proposer, new_proposer}
use interactive_paxos.System.{System, Reach, update}

-- `paxos.NewProposer` of `Revive`: the proposer has its id, its value and its peers, and round 0.
abbrev pub revive : {S : Type 0} → (ℕ → Proposer ℕ) → ℕ → System S → System S
revive member p s = record s {
  rounds =
      update s.rounds p
        (new_proposer (member p).id (member p).value (member p).peers (member p).cfg).round;
}

-- A run in which proposers may be made anew.
pub data ReachRevived {S : Type 0} (ops : Store S) (member : ℕ → Proposer ℕ) (s : System S)
    : System S → Type 0 where
  runs : {u : System S} → Reach ops member s u → ReachRevived ops member s u
  revives :
      {u w : System S} (p : ℕ)
      → ReachRevived ops member s u
      → Reach ops member (revive member p u) w
      → ReachRevived ops member s w
