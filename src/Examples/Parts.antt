-- ===== src/Examples/Parts.antt =====
-- The theorems about the parts of a cluster, at an acceptor that has promised (2, 1) and accepted 7
-- at (1, 3), at a proposer with three peers, and at stores, recorders, gates and connections.
use interactive_paxos.Prelude.{
  wrap, ℕ, pos, true, false, ◌==◌, ◌||◌, ◌≤◌, ◌≡◌, refl, sym, ok, Option, none, some, List, [], ◌∷◌,
  length, arith,
}
use interactive_paxos.Quorum.{quorum_of, count}
use interactive_paxos.Proposal.{ProposalNumber}
use interactive_paxos.Messages.{
  PrepareRequest, PrepareResponse, AcceptRequest, AcceptResponse, AcceptorState,
}
use interactive_paxos.Store.{IsDurable}
use interactive_paxos.Store.Memory.{
  MemoryStore, load, memory_store, memory_store-IsDurable, content-memory_store,
}
use interactive_paxos.Store.Bolt.{
  Bucket, IsTransactional, Json, StateRecord, bolt_store, bolt_store-IsDurable,
}
use interactive_paxos.Acceptor
use interactive_paxos.Acceptor.{Acceptor, new_acceptor}
use interactive_paxos.Acceptor.Durability.{
  Prepared, Voted, prepare-Prepared, accept-Voted, IsSynced,
}
use interactive_paxos.Acceptor.Kept.{IsKept, prepare-IsKept, accept-IsKept, new_acceptor-recovers}
use interactive_paxos.Proposer.Tally.{count_promises, no_promises}
use interactive_paxos.Proposer.Tally.Adoption.{Choice, count_promises-Choice}
use interactive_paxos.Transport.Peers.{
  carried, client_prepare, service_prepare, client_prepare-service_prepare,
}
use interactive_paxos.Transport.{prepare_request_to_proto}

abbrev at : ℕ → ℕ → ProposalNumber
at round node = record { round = pos round; node_id = pos node }

abbrev held_state : AcceptorState
held_state = record {
  promised = at 2 1;
  accepted_proposal = at 1 3;
  accepted_value = 7;
  has_accepted = true;
}

abbrev acceptor : Acceptor MemoryStore
acceptor = record { id = pos 2; store = record { state = held_state }; state = held_state }

abbrev prepare_request : ProposalNumber → PrepareRequest
prepare_request n = record { proposal = n; proposer_id = pos 3 }

abbrev accept_request : ProposalNumber → AcceptRequest
accept_request n = record { proposal = n; value = 9; proposer_id = pos 3 }

acceptor-IsSynced : IsSynced memory_store-IsDurable acceptor
acceptor-IsSynced = sym (content-memory_store acceptor.store)

prepare-Prepared_example : Prepared memory_store-IsDurable acceptor (prepare_request (at 2 3))
prepare-Prepared_example =
    prepare-Prepared memory_store-IsDurable acceptor (prepare_request (at 2 3))

accept-Voted_example : Voted memory_store-IsDurable acceptor (accept_request (at 2 1))
accept-Voted_example = accept-Voted memory_store-IsDurable acceptor (accept_request (at 2 1))

prepare-IsKept_example :
    IsKept memory_store-IsDurable acceptor
      (Acceptor.prepare memory_store acceptor (prepare_request (at 2 3))).1
prepare-IsKept_example =
    prepare-IsKept memory_store-IsDurable acceptor (prepare_request (at 2 3)) acceptor-IsSynced

accept-IsKept_example :
    IsKept memory_store-IsDurable acceptor
      (Acceptor.accept memory_store acceptor (accept_request (at 2 1))).1
accept-IsKept_example =
    accept-IsKept memory_store-IsDurable acceptor (accept_request (at 2 1)) acceptor-IsSynced

made_again : new_acceptor memory_store acceptor.id (some acceptor.store) ≡ ok acceptor
unfolding new_acceptor load
made_again = refl

new_acceptor-recovers_example : acceptor ≡ acceptor
new_acceptor-recovers_example =
    new_acceptor-recovers memory_store-IsDurable acceptor acceptor-IsSynced acceptor made_again

-- A database that holds records as they are.
abbrev bucket : Bucket (Option StateRecord) StateRecord
bucket = record { get = λ s. ok s; put = λ r s. (none, some r) }

abbrev json : Json StateRecord
json = record { marshal = λ r. ok r; unmarshal = λ r. ok r }

bucket-IsTransactional : IsTransactional bucket
bucket-IsTransactional = record {
  content = λ s. s;
  get-content = λ s x h. ground arith;
  content-put = λ x s h. refl;
  content-put_fails = λ x s e h. ground arith;
}

bolt_store-IsDurable_example : IsDurable (bolt_store bucket json)
bolt_store-IsDurable_example = bolt_store-IsDurable bucket-IsTransactional λ r b h. ground arith

abbrev reports : List (Option PrepareResponse)
reports =
    some (record {
      promised = true;
      highest_promised = at 2 3;
      accepted_proposal = at 1 3;
      accepted_value = 7;
      has_accepted = true;
      acceptor_id = pos 1;
    })
    ∷ none
    ∷ some (record {
      promised = false;
      highest_promised = at 4 1;
      accepted_proposal = at 3 1;
      accepted_value = 8;
      has_accepted = true;
      acceptor_id = pos 3;
    })
    ∷ []

abbrev answers : List (Option AcceptResponse)
answers =
    some (record { accepted = true; highest_promised = at 2 3; acceptor_id = pos 1 })
    ∷ none
    ∷ some (record { accepted = false; highest_promised = at 4 1; acceptor_id = pos 3 })
    ∷ []

count_promises-Choice_example : Choice 5 reports (count_promises (no_promises 5) reports)
count_promises-Choice_example = count_promises-Choice 5 reports

abbrev three : List ℕ
three = 1 ∷ 2 ∷ 3 ∷ []

enough_1 : quorum_of (length three) ≤ count (λ i. i == 1 || i == 2) three
unfolding count
enough_1 = omega arith

enough_3 : quorum_of (length three) ≤ count (λ i. i == 3 || i == 2) three
unfolding count
enough_3 = omega arith

client_prepare-service_prepare_example :
    (client_prepare
        (λ m. carried (wrap "rpc error") (service_prepare memory_store m acceptor).0)
        (prepare_request (at 2 3))
      ≡ carried
          (wrap "rpc error")
          (Acceptor.prepare memory_store acceptor (prepare_request (at 2 3))).0)
    × ((service_prepare memory_store
          (prepare_request_to_proto (prepare_request (at 2 3)))
          acceptor).1
        ≡ (Acceptor.prepare memory_store acceptor (prepare_request (at 2 3))).1)
client_prepare-service_prepare_example =
    client_prepare-service_prepare memory_store acceptor (wrap "rpc error")
      (prepare_request (at 2 3))
