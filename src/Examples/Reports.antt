-- ===== src/Examples/Reports.antt =====
-- The theorems about what is read from a command line and what the console shows, at small cases.
use interactive_paxos.Prelude.{
  ℕ, pos, Bool, Has, ◌&&◌, inl, inr, arith, true, false, ◌≤◌, ◌≡◌, ◌↔◌, refl, ok, some, List, [],
  ◌∷◌, length,
}
use interactive_paxos.Proposal.{zero_proposal}
use interactive_paxos.Fault.{healthy}
use interactive_paxos.Peers.{
  Strings, Peer, AreDistinct, parse_loop, parse_peer, parse_peers, parse_peers_distinct,
}
use interactive_paxos.Console.{
  NodeStatus, status, observe_all, observe, conclude, sort, add_value, faults_active,
}
use interactive_paxos.Console.Status.{HasLearned, status_agreed_iff}
use interactive_paxos.Console.Cluster.{has_converged}
use interactive_paxos.Console.Converged.{LearnedAlive, converged_learned}
use interactive_paxos.Examples.Lives.{floats}

-- Functions that read every specification as peer 1 at "a:1".
abbrev pub strings : Strings
strings = record {
  cut = λ s. some ("1", "a:1");
  trim = λ s. s;
  atoi = λ s. ok (pos 1);
  is_empty = λ s. false;
}

parsed : parse_peers strings ("1@a:1" ∷ []) (pos 2) ≡ ok (record { id = pos 1; addr = "a:1" } ∷ [])
unfolding parse_loop parse_peer
parsed = refl

parse_peers_distinct_example :
    AreDistinct strings (pos 2) [] (record { id = pos 1; addr = "a:1" } ∷ [])
    × (length {A = Peer} (record { id = pos 1; addr = "a:1" } ∷ []) ≡ 1)
parse_peers_distinct_example =
    parse_peers_distinct strings ("1@a:1" ∷ []) (pos 2) (record { id = pos 1; addr = "a:1" } ∷ [])
      parsed

-- Two nodes of three have learned 10; the third does not answer.
abbrev answer : ℕ → Bool → NodeStatus ℕ
answer id reachable = record {
  id = pos id;
  reachable = reachable;
  snapshot = record {
    alive = true;
    chaos = false;
    decision = record { proposal = zero_proposal; value = 10; learned = true; time = pos 0 };
    faults = healthy floats;
  };
}

abbrev nodes : List (NodeStatus ℕ)
nodes = answer 1 true ∷ answer 2 true ∷ answer 3 false ∷ []

settled : (status floats nodes).has_settled ≡ true
unfolding status observe_all observe conclude sort add_value faults_active
settled = refl

status_agreed_iff_example :
    ((status floats nodes).agreed ≡ true)
    ↔ ((v w : ℕ) → HasLearned floats nodes v → HasLearned floats nodes w → v ≡ w)
status_agreed_iff_example = status_agreed_iff floats nodes

all_up : LearnedAlive nodes
all_up n at knows = elim at [
  | inl e ↦ ground arith
  | inr rest ↦ elim rest [
    | inl e ↦ ground arith
    | inr last ↦ elim last [ inl e ↦ ground arith | inr f ↦ absurd f ]
  ]
]

converged : has_converged (status floats nodes) ≡ true
unfolding status observe_all observe conclude sort add_value faults_active has_converged
converged = refl

converged_learned_example :
    (2 ≤ (status floats nodes).learned)
    × (LearnedAlive nodes
        → (n : NodeStatus ℕ) → Has n nodes
        → (n.reachable && n.snapshot.alive) ≡ true
        → ((n.reachable && n.snapshot.decision.learned) ≡ true)
          × (n.snapshot.decision.value ≡ (status floats nodes).settled_value))
converged_learned_example = converged_learned floats nodes converged
