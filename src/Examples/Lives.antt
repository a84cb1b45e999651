-- ===== src/Examples/Lives.antt =====
-- The theorems about rounds and campaigns, a node's life, the recorder and the faults, at small cases.
use interactive_paxos.Prelude.{
  ℕ, pos, suc, true, false, ◌==◌, ltb, add_int, ◌+◌, ◌^◌, ◌≤◌, ◌<◌, ◌≡◌, ◌↔◌, refl, sym, inl, Error,
  new, err, none, some, [], ◌∷◌, Has, length, map, if◌then◌else◌, arith,
}
use interactive_paxos.Proposal.{ProposalNumber, zero_proposal}
use interactive_paxos.Messages.{empty_state}
use interactive_paxos.Store.Memory.{
  MemoryStore, load, save, memory_store, memory_store-IsDurable, new_memory_store,
  content-memory_store,
}
use interactive_paxos.Acceptor.{Acceptor, new_acceptor}
use interactive_paxos.Proposer.{
  Proposer, Round, new_proposer, propose, finish, after_prepare, after_accept, prepare, accept,
  quorum, abandoned_by, next_proposal_number, fast_forward, round_timeout,
}
use interactive_paxos.Proposer.Tally.{
  count_promises, count_promise, adopt, count_accepts, count_accept,
}
use interactive_paxos.Proposer.Tally.Counting.{tally, is_promise, is_acceptance}
use interactive_paxos.Proposer.Config.{with_defaults, next_backoff}
use interactive_paxos.Proposer.Outcome.{chosen}
use interactive_paxos.Proposer.Campaign.{Turn, campaign_loop, returns}
use interactive_paxos.Proposer.Progress.{propose_chosen_iff, campaign_loop_chosen}
use interactive_paxos.Node.{
  Node, Opening, Resetting, no_decision, kill, revive, reset, trigger_campaign, at_start, goes_on,
  revives, triggers, kills,
}
use interactive_paxos.Node.Lifecycle.{IsConsistent, NodeReach-IsConsistent, kill-revive}
use interactive_paxos.Node.Wiping.{reset-wiped}
use interactive_paxos.Events.{Event, State, new_recorder, since}
use interactive_paxos.Events.Ring.{IsRing, RunFrom, since-RunFrom}
use interactive_paxos.Fault
use interactive_paxos.Fault.{
  Floats, Draws, healthy, gate, delay, set_blocked, is_blocked, set_latency, faulty_prepare,
  faulty_accept,
}
use interactive_paxos.Fault.Gate.{cut_off, delay-bounds}
use interactive_paxos.Examples.Cluster.{no_config}

abbrev at : ℕ → ℕ → ProposalNumber
at round node = record { round = pos round; node_id = pos node }

abbrev proposer : Proposer ℕ
proposer = new_proposer (pos 2) 9 (2 ∷ 1 ∷ 3 ∷ []) no_config

-- Nodes 1 and 2 promise and accept; the round's time is over while node 3 is silent.
abbrev good_round : Round ℕ
good_round = record {
  ctx_err = none;
  prepare_reply = λ i.
      if i == 3
      then none
      else some (record {
        promised = true;
        highest_promised = at 1 2;
        accepted_proposal = zero_proposal;
        accepted_value = 0;
        has_accepted = false;
        acceptor_id = pos i;
      });
  prepare_cause = some round_timeout;
  accept_reply = λ i.
      if i == 3
      then none
      else some (record { accepted = true; highest_promised = at 1 2; acceptor_id = pos i });
  accept_cause = none;
}

-- Nobody answers.
abbrev silent_round : Round ℕ
silent_round = record {
  ctx_err = none;
  prepare_reply = λ i. none;
  prepare_cause = none;
  accept_reply = λ i. none;
  accept_cause = none;
}

abbrev turn : Round ℕ → Turn ℕ
turn r = record { round = r; ctx_err = some (new "canceled"); done = none }

propose_chosen_iff_example : ((propose proposer good_round).0.outcome ≡ chosen) ↔ (
    (good_round.ctx_err ≡ none)
    × (abandoned_by good_round.prepare_cause ≡ none)
    × (quorum proposer ≤ tally is_promise (map good_round.prepare_reply proposer.peers))
    × (quorum proposer ≤ tally is_acceptance (map good_round.accept_reply proposer.peers)))
propose_chosen_iff_example = propose_chosen_iff proposer good_round

turns_end : (t : Turn ℕ) → Has t (turn good_round ∷ []) → (e : Error) × (t.ctx_err ≡ some e)
turns_end t h = (new "canceled", ground arith)

first_wins :
    campaign_loop (turn good_round ∷ []) proposer (pos 1)
    ≡ returns (propose proposer good_round).0 none (propose proposer good_round).1
unfolding campaign_loop propose finish after_prepare after_accept next_proposal_number fast_forward
    prepare accept count_promises count_promise adopt count_accepts count_accept new_proposer
    with_defaults add_int next_backoff
first_wins = refl

campaign_loop_chosen_example : (propose proposer good_round).0.outcome ≡ chosen
campaign_loop_chosen_example =
    campaign_loop_chosen (turn good_round ∷ []) proposer (propose proposer good_round).1 (pos 1)
      (propose proposer good_round).0 turns_end first_wins

-- A node that has not run yet.
abbrev pub idle : Node MemoryStore
idle = record {
  cfg = record {
    id = pos 2;
    value = 9;
    self = 2;
    peers = 1 ∷ 3 ∷ [];
    campaign = true;
    proposer = no_config;
  };
  alive = false;
  campaigning = false;
  chaos = false;
  disk = new_memory_store;
  acceptor = none;
  server = false;
  proposer = none;
  decision = no_decision;
  campaign_cancel = none;
  chaos_cancel = none;
  made = 0;
  proposers = λ k. none;
  running = [];
  canceled = [];
}

abbrev pub fine : Opening
fine = record { open_error = none; listen_error = none }

pub idle-IsConsistent : IsConsistent idle
idle-IsConsistent = record { acceptor = refl; proposer = refl; server = refl; campaigning = λ h. h }

NodeReach-IsConsistent_example :
    IsConsistent (kill none (trigger_campaign (revive memory_store fine idle).1)).1
NodeReach-IsConsistent_example =
    NodeReach-IsConsistent memory_store idle-IsConsistent
      (goes_on (goes_on (goes_on at_start (revives fine)) triggers) (kills none))

abbrev first_acceptor : Acceptor MemoryStore
first_acceptor = record { id = pos 2; store = new_memory_store; state = empty_state }

is_up : (revive memory_store fine idle).1.alive ≡ true
unfolding revive new_acceptor load
is_up = refl

has_acceptor : (revive memory_store fine idle).1.acceptor ≡ some first_acceptor
unfolding revive new_acceptor load
has_acceptor = refl

has_id : first_acceptor.id ≡ (revive memory_store fine idle).1.cfg.id
unfolding revive new_acceptor load
has_id = refl

revived_again : (revive memory_store fine (kill none (revive memory_store fine idle).1).1).0 ≡ none
unfolding revive kill new_acceptor load
revived_again = refl

kill-revive_example :
    (revive memory_store fine (kill none (revive memory_store fine idle).1).1).1.acceptor
    ≡ some first_acceptor
kill-revive_example =
    kill-revive memory_store-IsDurable none fine (revive memory_store fine idle).1 first_acceptor
      is_up has_acceptor has_id (sym (content-memory_store new_memory_store)) revived_again

abbrev pub resetting : Resetting
resetting = record { kill_error = none; open_error = none; close_error = none; opening = fine }

reset_done : (reset memory_store resetting (revive memory_store fine idle).1).0 ≡ none
unfolding reset revive kill new_acceptor load save
reset_done = refl

reset-wiped_example :
    (a : Acceptor MemoryStore) × ((reset memory_store resetting
        (revive memory_store fine idle).1).1.acceptor
      ≡ some a)
    × (a.state ≡ empty_state)
    × ((reset memory_store resetting (revive memory_store fine idle).1).1.decision ≡ no_decision)
reset-wiped_example =
    reset-wiped memory_store-IsDurable resetting (revive memory_store fine idle).1 reset_done

abbrev pub event : Event
event = record { seq = 0; time = pos 0; level = "INFO"; message = "promised"; fields = [] }

one_left : (new_recorder (pos 1)).next + 1 < 2 ^ 64
unfolding new_recorder
one_left = omega arith

-- Two events of which the ring of one place has kept the last.
abbrev pub ring : State
ring = record { ring = record event { seq = 2 } ∷ []; limit = 1; next = 2 }

ring-IsRing : IsRing ring
ring-IsRing = record {
  start = 1;
  run = (refl, tt);
  last = omega arith;
  keeps = inl (omega arith);
  fits = omega arith;
  positive = omega arith;
}

since-RunFrom_example : RunFrom 2 (since 1 ring) × (length (since 1 ring) ≡ 1)
since-RunFrom_example = since-RunFrom 1 ring ring-IsRing (omega arith) (omega arith)

-- Numbers in the place of `float64`.
abbrev pub floats : Floats ℕ
floats = record { zero_f = 0; one_f = 100; less_f = ltb }

abbrev draws : Draws floats
draws = record { float64 = 50; int64n = λ z. pos 0; done = none }

abbrev cut : Fault.Config ℕ
cut = record (healthy floats) { isolated = true; latency_min = pos 3; latency_max = pos 5 }

cut_off_example :
    ((e : Error) × (faulty_prepare floats {S = ℕ} draws
          (pos 1)
          cut
          cut
          (λ q s. (err (new "no"), suc s))
          (record { proposal = at 1 1; proposer_id = pos 1 })
          0
        ≡ (err e, 0)))
    × ((e : Error) × (faulty_accept floats {S = ℕ} draws
            (pos 1)
            cut
            cut
            (λ q s. (err (new "no"), suc s))
            (record { proposal = at 1 1; value = 4; proposer_id = pos 1 })
            0
          ≡ (err e, 0)))
cut_off_example =
    cut_off floats draws (pos 1) cut cut (λ q s. (err (new "no"), suc s))
      (λ q s. (err (new "no"), suc s)) (record { proposal = at 1 1; proposer_id = pos 1 })
      (record { proposal = at 1 1; value = 4; proposer_id = pos 1 }) 0 (inl refl)

delay-bounds_example : (d : ℕ) × (delay floats draws cut ≡ pos d) × (3 ≤ d) × (d ≤ 5)
delay-bounds_example =
    delay-bounds floats draws cut 3 5 refl refl (omega arith) (omega arith)
      λ n. (0, refl, omega arith)
