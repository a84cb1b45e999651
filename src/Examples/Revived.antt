-- ===== src/Examples/Revived.antt =====
-- `Node.Revive` of pkg/node/node.go makes a new proposer, whose round is 0 again: after that a
-- proposal number is used for the second time.
use interactive_paxos.Prelude.{ℕ, pos, ◌≡◌, ◌==◌, ◌||◌, List, [], ◌∷◌, Has, refl, arith, sym, subst}
use interactive_paxos.Prelude.Int.{add_int}
use interactive_paxos.Quorum.{count}
use interactive_paxos.Store.Memory.{MemoryStore, memory_store, load, save}
use interactive_paxos.Proposer.{new_proposer}
use interactive_paxos.Harness.{Acceptance}
use interactive_paxos.System.{System, here}
use interactive_paxos.System.Safety.{IsChosen}
use interactive_paxos.System.Schedule.{Run, run, Action, start, ask, count_promises, send}
use interactive_paxos.System.Revival.{ReachRevived, runs, revives, revive}
use interactive_paxos.Examples.Cluster.{members, member, value_of, init}

-- Proposer 1 gets a vote of node 3, which proposer 2 then has vote for the same value at (1, 2).
abbrev before : List Action
before =
    start 1
    ∷ ask 0 1
    ∷ ask 0 3
    ∷ count_promises 0 (1 ∷ 3 ∷ [])
    ∷ send 0 3
    ∷ start 2
    ∷ ask 1 2
    ∷ ask 1 3
    ∷ count_promises 1 (2 ∷ 3 ∷ [])
    ∷ send 1 3
    ∷ []

-- Proposer 2 uses (1, 2) again with nodes 1 and 2; proposer 3 adopts the vote of node 3.
abbrev after : List Action
after =
    start 2
    ∷ ask 2 2
    ∷ ask 2 1
    ∷ count_promises 2 (1 ∷ 2 ∷ [])
    ∷ send 2 1
    ∷ send 2 2
    ∷ start 3
    ∷ ask 3 3
    ∷ ask 3 1
    ∷ count_promises 3 (1 ∷ 3 ∷ [])
    ∷ send 3 3
    ∷ send 3 1
    ∷ []

abbrev first_run : (value : ℕ → ℕ) → Run memory_store (member value) init
first_run value = run memory_store (member value) (record { last = init; reach = here }) before

abbrev second_run :
    (value : ℕ → ℕ)
    → Run memory_store (member value) (revive (member value) 2 (first_run value).last)
second_run value =
    run memory_store (member value)
      (record { last = revive (member value) 2 (first_run value).last; reach = here }) after

abbrev vote_of : ℕ → ℕ → ℕ → Acceptance
vote_of i p v = record {
  acceptor_id = pos i;
  proposal = record { round = pos 1; node_id = pos p };
  value = v;
}

-- The votes at (1, 1) and (1, 2), then those at (1, 2) again, and those at (1, 3).
votes :
    (value : ℕ → ℕ)
    → (second_run value).last.ledger
      ≡ vote_of 3 1 (value 1)
        ∷ vote_of 3 2 (value 1)
        ∷ vote_of 1 2 (value 2)
        ∷ vote_of 2 2 (value 2)
        ∷ vote_of 3 3 (value 1)
        ∷ vote_of 1 3 (value 1)
        ∷ []
unfolding run new_proposer load save add_int
votes value = refl

module _ (value : ℕ → ℕ) where
  IsChosen-2 :
      IsChosen members (second_run value).last (record { round = pos 1; node_id = pos 2 }) (value 2)
  unfolding count
  IsChosen-2 = record {
    voter = λ i. i == 1 || i == 2;
    enough = omega arith;
    voted = λ i m t. subst (Has _) (sym (votes value)) (ground arith);
  }

  IsChosen-3 :
      IsChosen members (second_run value).last (record { round = pos 1; node_id = pos 3 }) (value 1)
  unfolding count
  IsChosen-3 = record {
    voter = λ i. i == 1 || i == 3;
    enough = omega arith;
    voted = λ i m t. subst (Has _) (sym (votes value)) (ground arith);
  }

  -- If proposers may be made anew, then whatever values the proposers of a cluster of three were
  -- given, some run from the state where nothing has happened gets the value of proposer 2 chosen
  -- at (1, 2) and that of proposer 1 at (1, 3).
  pub revived_conflict :
      (u : System MemoryStore) × ReachRevived memory_store (member value) init u
      × IsChosen members u (record { round = pos 1; node_id = pos 2 }) (value 2)
      × IsChosen members u (record { round = pos 1; node_id = pos 3 }) (value 1)
  revived_conflict =
      (_, revives 2 (runs (first_run value).reach) (second_run value).reach, IsChosen-2, IsChosen-3)

revived_conflict_example :
    (u : System MemoryStore) × ReachRevived memory_store (member value_of) init u
    × IsChosen members u (record { round = pos 1; node_id = pos 2 }) 20
    × IsChosen members u (record { round = pos 1; node_id = pos 3 }) 10
revived_conflict_example = revived_conflict value_of
