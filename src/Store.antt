-- ===== src/Store.antt =====
-- pkg/paxos/store.go: the `Store` interface and what its clients rely on.
pub mod Memory
pub mod Bolt
use interactive_paxos.Prelude.{Result, ok, Error, Option, none, some, ◌≡◌}
use interactive_paxos.Messages.{AcceptorState}

-- The methods of the interface over a store's own state `S`. `save` returns its error, if any.
pub record Store (S : Type 0) : Type 0 where
  pub load : S → Result AcceptorState
  pub save : AcceptorState → S → Option Error × S

-- What a store promises: a `Load` that succeeds returns the content, a `Save` that succeeds
-- replaces it, and a `Save` that fails leaves it as it was.
pub record IsDurable {S : Type 0} (store : Store S) : Type 0 where
  pub content : S → AcceptorState
  pub load-content : (s : S) (x : AcceptorState) → store.load s ≡ ok x → x ≡ content s
  pub content-save :
      (x : AcceptorState) (s : S) → (store.save x s).0 ≡ none → content (store.save x s).1 ≡ x
  pub content-save_fails :
      (x : AcceptorState) (s : S) (e : Error)
      → (store.save x s).0 ≡ some e
      → content (store.save x s).1 ≡ content s
