-- ===== src/Examples/Overtaken.antt =====
-- A handler of pkg/paxostest/harness.go that a crash and a restart of its node overtake: it votes with
-- what the acceptor that has been replaced has in memory, below what the node has promised since.
use interactive_paxos.Prelude.{ℕ, pos, ◌≡◌, ◌==◌, ◌||◌, List, [], ◌∷◌, Has, refl, arith, sym, subst}
use interactive_paxos.Prelude.Int.{add_int}
use interactive_paxos.Quorum.{count}
use interactive_paxos.Store.Memory.{MemoryStore, memory_store, load, save}
use interactive_paxos.Proposer.{new_proposer}
use interactive_paxos.Harness.{Acceptance}
use interactive_paxos.System.Safety.{IsChosen}
use interactive_paxos.System.Handlers.{Overlap, OverlapReach, no_step, at_rest}
use interactive_paxos.System.Handlers.Schedule.{
  Turn, OverlapRun, overlap_run, start, count_promises, fetch, ask, send, fall, load_state, install,
}
use interactive_paxos.Examples.Cluster.{members, member, value_of, init}

-- Handler 9 takes the acceptor of node 1, which crashes and restarts before the handler votes.
abbrev turns : List Turn
turns =
    start 1
    ∷ fetch 0 1
    ∷ ask 0 0
    ∷ fetch 0 3
    ∷ ask 0 0
    ∷ count_promises 0 (1 ∷ 3 ∷ [])
    ∷ fetch 9 1
    ∷ fall 1
    ∷ load_state 0 1
    ∷ install 0
    ∷ start 2
    ∷ fetch 0 1
    ∷ ask 0 1
    ∷ fetch 0 2
    ∷ ask 0 1
    ∷ count_promises 1 (1 ∷ 2 ∷ [])
    ∷ fetch 0 1
    ∷ send 0 1
    ∷ fetch 0 2
    ∷ send 0 1
    ∷ send 9 0
    ∷ fetch 0 3
    ∷ send 0 0
    ∷ []

abbrev overtaken : (value : ℕ → ℕ) → OverlapRun memory_store (member value) (at_rest init)
overtaken value =
    overlap_run memory_store (member value) (record { last = at_rest init; reach = no_step }) turns

abbrev vote_of : ℕ → ℕ → ℕ → Acceptance
vote_of i p v = record {
  acceptor_id = pos i;
  proposal = record { round = pos 1; node_id = pos p };
  value = v;
}

votes :
    (value : ℕ → ℕ)
    → (overtaken value).last.now.ledger
      ≡ vote_of 1 2 (value 2)
        ∷ vote_of 2 2 (value 2)
        ∷ vote_of 1 1 (value 1)
        ∷ vote_of 3 1 (value 1)
        ∷ []
unfolding overlap_run new_proposer load save add_int
votes value = refl

module _ (value : ℕ → ℕ) where
  IsChosen-1 :
      IsChosen members
        (overtaken value).last.now
        (record { round = pos 1; node_id = pos 1 })
        (value 1)
  unfolding count
  IsChosen-1 = record {
    voter = λ i. i == 1 || i == 3;
    enough = omega arith;
    voted = λ i m t. subst (Has _) (sym (votes value)) (ground arith);
  }

  IsChosen-2 :
      IsChosen members
        (overtaken value).last.now
        (record { round = pos 1; node_id = pos 2 })
        (value 2)
  unfolding count
  IsChosen-2 = record {
    voter = λ i. i == 1 || i == 2;
    enough = omega arith;
    voted = λ i m t. subst (Has _) (sym (votes value)) (ground arith);
  }

  -- If a handler may go on with an acceptor that a crash and a restart of its node have replaced, then
  -- whatever values the proposers of a cluster of three were given, some run from the state where
  -- nothing has happened gets the value of proposer 1 chosen at (1, 1) and that of proposer 2 at (1, 2).
  pub overtaken_conflict :
      (u : Overlap MemoryStore) × OverlapReach memory_store (member value) (at_rest init) u
      × IsChosen members u.now (record { round = pos 1; node_id = pos 1 }) (value 1)
      × IsChosen members u.now (record { round = pos 1; node_id = pos 2 }) (value 2)
  overtaken_conflict = (_, (overtaken value).reach, IsChosen-1, IsChosen-2)

overtaken_conflict_example :
    (u : Overlap MemoryStore) × OverlapReach memory_store (member value_of) (at_rest init) u
    × IsChosen members u.now (record { round = pos 1; node_id = pos 1 }) 10
    × IsChosen members u.now (record { round = pos 1; node_id = pos 2 }) 20
overtaken_conflict_example = overtaken_conflict value_of
