-- ===== src/Console/Tail.antt =====
-- pkg/console/tail.go: how the console follows the events of one node, over the answers of the
-- node's interface to `GET /api/events`.
pub mod Following
use interactive_paxos.Prelude.{
  ℕ, suc, ◌+◌, ◌≤◌, ◌<◌, ◌^◌, ltb, Result, ok, err, some, List, [], ◌∷◌, ◌++◌, if◌then◌else◌,
}
use interactive_paxos.Events.{Event, State, publish}
use interactive_paxos.Ui.{EventBatch, handle_events}

abbrev pub highest_seq : ℕ → List Event → ℕ
highest_seq highest [] = highest
highest_seq highest (e ∷ es) = highest_seq (if ltb highest e.seq then e.seq else highest) es

-- A turn of `follow` after its tick, with what it has seen: the events that it emits, and what it has
-- seen then.
unfoldable pub follow_turn : Result EventBatch → ℕ → List Event × ℕ
follow_turn (err e) since = ([], since)
follow_turn (ok batch) since =
    let highest = highest_seq 0 batch.events in
    if ltb batch.latest since
    then ([], 0)
    else (batch.events, if ltb 0 highest then highest else since)

-- A node's recorder, and the goroutine that follows it.
pub record Tail : Type 0 where
  pub recorder : State
  pub seen : ℕ
  pub emitted : List Event

unfoldable pub ask : Tail → Tail
unfolding handle_events follow_turn
ask t =
    let (events, seen) = follow_turn (handle_events (some t.seen) t.recorder) t.seen in
    record t { seen = seen; emitted = t.emitted ++ events }

-- The node publishes an event, a turn gets its answer while the ring still holds all that is new, or a
-- turn gets none. The counter does not wrap around.
pub data TailStep (t : Tail) : Tail → Type 0 where
  publishes :
      (e : Event)
      → t.recorder.next + 1 < 2 ^ 64
      → TailStep t (record t { recorder = publish e t.recorder })
  asks : t.recorder.next ≤ t.seen + t.recorder.limit → TailStep t (ask t)
  misses : TailStep t t

pub data TailReach (t : Tail) : Tail → Type 0 where
  at_start : TailReach t t
  goes_on : {u v : Tail} → TailReach t u → TailStep u v → TailReach t v
