-- ===== src/Events.antt =====
-- pkg/events/recorder.go: the ring of the last events, which the lock makes one step each.
pub mod Ring
pub mod Attributes
pub mod Followers
use interactive_paxos.Prelude.{
  ℕ, ℤ, pos, negsuc, suc, ◌+◌, ◌%◌, ◌^◌, Bool, ltb, leb, ◌==◌, String, length, List, [], ◌∷◌, ◌++◌,
  if◌then◌else◌,
}

pub record Field : Type 0 where
  pub key : String
  pub value : String

pub record Event : Type 0 where
  pub seq : ℕ
  pub time : ℤ
  pub level : String
  pub message : String
  pub fields : List Field

-- `state`, less its subscribers: the events in order, how many it keeps, the last sequence number.
pub record State : Type 0 where
  pub ring : List Event
  pub limit : ℕ
  pub next : ℕ

-- `NewRecorder`
unfoldable pub new_recorder : ℤ → State
new_recorder (pos limit) = record { ring = []; limit = if limit == 0 then 512 else limit; next = 0 }
new_recorder (negsuc limit) = record { ring = []; limit = 512; next = 0 }

abbrev pub drop_first : List Event → List Event
drop_first [] = []
drop_first (e ∷ es) = es

-- `publish`: a full ring loses its first event. The counter is a `uint64`.
unfoldable pub publish : Event → State → State
publish e s =
    let next = (s.next + 1) % 2 ^ 64 in
    let e' = record e { seq = next } in
    record s {
      next = next;
      ring = (if length s.ring == s.limit then drop_first s.ring else s.ring) ++ e' ∷ [];
    }

-- The loop of `Since`.
unfoldable pub since_loop : ℕ → List Event → List Event
since_loop seq [] = []
since_loop seq (e ∷ es) = let rest = since_loop seq es in if ltb seq e.seq then e ∷ rest else rest

abbrev pub since : ℕ → State → List Event
since seq s = since_loop seq s.ring

-- `Latest`
abbrev pub latest : State → ℕ
latest s = s.next
