-- ===== src/Events/Followers.antt =====
-- The subscribers of a recorder of pkg/events/recorder.go: `publish` sends to them under the lock.
use interactive_paxos.Prelude.{ℕ, suc, ltb, ◌==◌, List, [], ◌∷◌, ◌++◌, map, length, if◌then◌else◌}
use interactive_paxos.Events.{Event, State, publish}

pub record Follower : Type 0 where
  pub key : ℕ
  pub channel : List Event

-- `state`, with its subscribers.
pub record Followed : Type 0 where
  pub state : State
  pub subs : List Follower
  pub next_sub : ℕ

-- A send that gives up where the channel is full.
abbrev pub offer : Event → Follower → Follower
offer e f = if ltb (length f.channel) 256 then record f { channel = f.channel ++ e ∷ [] } else f

-- The event as it has been numbered: the last one of the ring.
abbrev last_event : Event → List Event → Event
last_event e [] = e
last_event e (x ∷ xs) = last_event x xs

-- `publish` to the ring and to the subscribers.
unfoldable pub publish_to : Event → Followed → Followed
unfolding publish
publish_to e f =
    let state = publish e f.state in
    record f { state = state; subs = map (offer (last_event e state.ring)) f.subs }

-- `Subscribe`
abbrev pub subscribe : Followed → ℕ × Followed
subscribe f = (
  f.next_sub,
  record f {
    subs = f.subs ++ record { key = f.next_sub; channel = [] } ∷ [];
    next_sub = suc f.next_sub;
  },
)

abbrev without : ℕ → List Follower → List Follower
without k [] = []
without k (f ∷ fs) = let rest = without k fs in if f.key == k then rest else f ∷ rest

-- The function that `Subscribe` returns.
abbrev pub unsubscribe : ℕ → Followed → Followed
unsubscribe k f = record f { subs = without k f.subs }
