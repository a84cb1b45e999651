-- ===== src/Examples/Orderly.antt =====
-- Two rounds of a cluster of three whose calls interleave, with a crash that overtakes a handler, and a
-- restart.
use interactive_paxos.Prelude.{
  ℕ, pos, true, false, ◌≡◌, refl, some, ◌≤◌, max_int, List, [], ◌∷◌, arith,
}
use interactive_paxos.Prelude.Int.{add_int}
use interactive_paxos.Store.Memory.{memory_store, memory_store-IsDurable, load, save}
use interactive_paxos.Proposer.{new_proposer}
use interactive_paxos.System.Safety.{IsChosen}
use interactive_paxos.System.Learning.Steps.{report-IsChosen}
use interactive_paxos.System.Handlers.{AreOrderly, no_step, at_rest}
use interactive_paxos.System.Handlers.Orderly.{
  Orderly-Reach, agreement_unless_overtaken, reports_agree_unless_overtaken,
}
use interactive_paxos.System.Handlers.Schedule.{
  Turn, OverlapRun, overlap_run, start, count_promises, count_accepts, fetch, ask, send, fall,
  load_state, install,
}
use interactive_paxos.Acceptor.{new_acceptor}
use interactive_paxos.Harness.Check.{assert_agreement}
use interactive_paxos.System.Setup.{
  Options, with_defaults, new_harness, harness_proposer, new_harness-agrees,
}
use interactive_paxos.Examples.Cluster.{
  no_config, init, members, member, value_of, init-IsFresh, member-IsCluster,
}
use interactive_paxos.Examples.Witnesses.{in_order, in_order-IsFair, number, attempt, job}

infixr 4 ◌&◌
abbrev ◌&◌ : {A B : Type 0} → A → B → A × B
a & b = (a, b)

abbrev turns : List Turn
turns =
    start 1
    ∷ fetch 0 1
    ∷ fetch 1 2
    ∷ ask 0 0
    ∷ ask 1 0
    ∷ count_promises 0 (1 ∷ 2 ∷ [])
    ∷ fetch 1 2
    ∷ fetch 0 1
    ∷ send 0 0
    ∷ send 1 0
    ∷ count_accepts 0 (1 ∷ 2 ∷ [])
    ∷ fetch 5 2
    ∷ fall 2
    ∷ send 5 0
    ∷ start 3
    ∷ load_state 0 2
    ∷ install 0
    ∷ fetch 0 2
    ∷ fetch 1 3
    ∷ ask 1 1
    ∷ ask 0 1
    ∷ count_promises 1 (2 ∷ 3 ∷ [])
    ∷ fetch 0 2
    ∷ fetch 1 3
    ∷ send 0 1
    ∷ send 1 1
    ∷ count_accepts 1 (2 ∷ 3 ∷ [])
    ∷ []

abbrev interleaved : OverlapRun memory_store (member value_of) (at_rest init)
interleaved =
    overlap_run memory_store (member value_of) (record { last = at_rest init; reach = no_step })
      turns

interleaved-AreOrderly : AreOrderly memory_store (member value_of) interleaved.reach
unfolding overlap_run new_proposer load save add_int
interleaved-AreOrderly =
    tt
    & tt
    & tt
    & tt
    & tt
    & tt
    & tt
    & tt
    & tt
    & tt
    & refl
    & tt
    & tt
    & ((_, refl), refl)
    & tt
    & tt
    & tt
    & tt
    & tt
    & tt
    & tt
    & tt
    & tt
    & tt
    & tt
    & tt
    & tt
    & tt

first_call : interleaved.last.now.jobs 0 ≡ some (job 1 false)
unfolding overlap_run new_proposer load save add_int
first_call = refl

second_call : interleaved.last.now.jobs 1 ≡ some (job 3 true)
unfolding overlap_run new_proposer load save add_int
second_call = refl

few_rounds : interleaved.last.now.started ≤ max_int
unfolding overlap_run new_proposer load save add_int
few_rounds = omega arith

IsChosen-first : IsChosen members interleaved.last.now (number 1) 10
IsChosen-first =
    report-IsChosen memory_store-IsDurable members (member value_of) (member-IsCluster value_of)
      init-IsFresh (Orderly-Reach interleaved.reach interleaved-AreOrderly) few_rounds 0
      (job 1 false) (attempt 1 false) first_call refl refl

IsChosen-second : IsChosen members interleaved.last.now (number 3) 10
IsChosen-second =
    report-IsChosen memory_store-IsDurable members (member value_of) (member-IsCluster value_of)
      init-IsFresh (Orderly-Reach interleaved.reach interleaved-AreOrderly) few_rounds 1
      (job 3 true) (attempt 3 true) second_call refl refl

agreement_unless_overtaken_example : ◌≡◌ {A = ℕ} 10 10
agreement_unless_overtaken_example =
    agreement_unless_overtaken memory_store-IsDurable members (member value_of)
      (member-IsCluster value_of) init-IsFresh interleaved.reach interleaved-AreOrderly few_rounds
      (number 1) (number 3) 10 10 IsChosen-first IsChosen-second

reports_agree_unless_overtaken_example : (attempt 1 false).value ≡ (attempt 3 true).value
reports_agree_unless_overtaken_example =
    reports_agree_unless_overtaken memory_store-IsDurable members (member value_of)
      (member-IsCluster value_of) init-IsFresh interleaved.reach interleaved-AreOrderly few_rounds 0
      1 (job 1 false) (job 3 true) (attempt 1 false) (attempt 3 true) first_call refl refl
      second_call refl refl

abbrev options : Options
options = record { size = pos 0; config = no_config }

abbrev run_test : OverlapRun memory_store (harness_proposer options value_of) (at_rest new_harness)
run_test =
    overlap_run memory_store (harness_proposer options value_of)
      (record { last = at_rest new_harness; reach = no_step }) turns

run_test-AreOrderly : AreOrderly memory_store (harness_proposer options value_of) run_test.reach
unfolding overlap_run new_harness harness_proposer new_proposer new_acceptor load save add_int
    with_defaults
run_test-AreOrderly =
    tt
    & tt
    & tt
    & tt
    & tt
    & tt
    & tt
    & tt
    & tt
    & tt
    & refl
    & tt
    & tt
    & ((_, refl), refl)
    & tt
    & tt
    & tt
    & tt
    & tt
    & tt
    & tt
    & tt
    & tt
    & tt
    & tt
    & tt
    & tt
    & tt

few_calls : run_test.last.now.started ≤ max_int
unfolding overlap_run new_harness harness_proposer new_proposer new_acceptor load save add_int
    with_defaults
few_calls = omega arith

new_harness-agrees_example : assert_agreement in_order 2 run_test.last.now.ledger ≡ true
unfolding with_defaults
new_harness-agrees_example =
    new_harness-agrees options value_of run_test.reach run_test-AreOrderly few_calls in_order
      in_order-IsFair
