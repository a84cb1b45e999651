-- ===== src/Store/Memory.antt =====
-- `MemoryStore` of pkg/paxos/store.go. Its lock makes each method one step.
use interactive_paxos.Prelude.{Result, ok, Error, Option, none, ◌≡◌, refl, arith}
use interactive_paxos.Messages.{AcceptorState, empty_state}
use interactive_paxos.Store.{Store, IsDurable}

pub record MemoryStore : Type 0 where
  pub state : AcceptorState

abbrev pub new_memory_store : MemoryStore
new_memory_store = record { state = empty_state }

unfoldable pub load : MemoryStore → Result AcceptorState
load s = ok s.state

unfoldable pub save : AcceptorState → MemoryStore → Option Error × MemoryStore
save state s = (none, record s { state = state })

abbrev pub memory_store : Store MemoryStore
memory_store = record { load = load; save = save }

-- `MemoryStore` keeps the promise of the interface.
pub memory_store-IsDurable : IsDurable memory_store
unfolding load save
memory_store-IsDurable = record {
  content = λ s. s.state;
  load-content = λ s x h. ground arith;
  content-save = λ x s h. refl;
  content-save_fails = λ x s e h. ground arith;
}

pub content-memory_store : (s : MemoryStore) → memory_store-IsDurable.content s ≡ s.state
unfolding memory_store-IsDurable
content-memory_store s = refl
