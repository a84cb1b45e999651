-- ===== src/Console/Converged.antt =====
-- What it means that a status has converged, as `WaitConverged` tests it.
use interactive_paxos.Prelude.{
  ℕ, ◌+◌, ◌≤◌, ◌≡◌, refl, sym, ◌∙◌, subst, inl, inr, Bool, true, false, ◌&&◌, List, [], ◌∷◌, Has,
  length, if◌then◌else◌, arith,
}
use interactive_paxos.Quorum.{quorum_of}
use interactive_paxos.Fault.{Floats}
use interactive_paxos.Console.{
  NodeStatus, ClusterStatus, no_status, observe, observe_all, conclude, status,
}
use interactive_paxos.Console.Cluster.{has_converged}
use interactive_paxos.Console.Status.{status_settled, status_agreed_iff}

module _ {F : Type 0} where
  abbrev is_alive : NodeStatus F → Bool
  is_alive n = n.reachable && n.snapshot.alive

  abbrev knows : NodeStatus F → Bool
  knows n = n.reachable && n.snapshot.decision.learned

  abbrev how_many : (NodeStatus F → Bool) → List (NodeStatus F) → ℕ
  how_many f [] = 0
  how_many f (n ∷ nodes) = (if f n then 1 else 0) + how_many f nodes

  -- Only nodes that are up have learned a value.
  abbrev pub LearnedAlive : List (NodeStatus F) → Type 0
  LearnedAlive nodes = (n : NodeStatus F) → Has n nodes → knows n ≡ true → is_alive n ≡ true

  how_many-le :
      (nodes : List (NodeStatus F))
      → LearnedAlive nodes
      → how_many knows nodes ≤ how_many is_alive nodes
  how_many-le [] h = omega arith
  how_many-le (n ∷ nodes) h =
      ground (arith, h n (inl refl), how_many-le nodes (λ m at. h m (inr at)))

  -- If those that have learned are as many as those that are up, they are the same.
  all_know :
      (nodes : List (NodeStatus F))
      → LearnedAlive nodes
      → how_many knows nodes ≡ how_many is_alive nodes
      → (n : NodeStatus F) → Has n nodes
      → is_alive n ≡ true
      → knows n ≡ true
  all_know [] h e n at up = absurd at
  all_know (m ∷ nodes) h e n at up = elim at [
    | inr later ↦
        all_know nodes (λ k at. h k (inr at))
          (ground (arith, h m (inl refl), how_many-le nodes (λ k at. h k (inr at)))) n later up
    | inl same ↦
        subst (λ k. knows k ≡ true) (sym same)
          (ground (
            arith,
            subst (λ k. is_alive k ≡ true) same up,
            how_many-le nodes (λ k at. h k (inr at)),
          ))
  ]

  module _ (floats : Floats F) where
    counted :
        (nodes : List (NodeStatus F)) (out : ClusterStatus)
        → ((observe_all floats nodes out).alive ≡ out.alive + how_many is_alive nodes)
          × ((observe_all floats nodes out).learned ≡ out.learned + how_many knows nodes)
    unfolding observe_all observe
    counted [] out = (omega arith, omega arith)
    counted (n ∷ nodes) out =
        let (a, l) = counted nodes (observe floats n out) in (ground arith, ground arith)

    concluded :
        (q : ℕ) (out : ClusterStatus)
        → out.agreed ≡ true
        → out.has_settled ≡ false
        → ((conclude q out).alive ≡ out.alive)
          × ((conclude q out).learned ≡ out.learned)
          × ((conclude q out).has_settled ≡ true → (conclude q out).agreed ≡ true)
    unfolding conclude
    concluded q out a s = (ground arith, ground arith, λ h. ground arith)

    flags :
        (nodes : List (NodeStatus F)) (out : ClusterStatus)
        → ((observe_all floats nodes out).agreed ≡ out.agreed)
          × ((observe_all floats nodes out).has_settled ≡ out.has_settled)
    unfolding observe_all observe
    flags [] out = (refl, refl)
    flags (n ∷ nodes) out =
        let (a, s) = flags nodes (observe floats n out) in (a ∙ ground arith, s ∙ ground arith)

    status_counts :
        (nodes : List (NodeStatus F))
        → ((status floats nodes).alive ≡ how_many is_alive nodes)
          × ((status floats nodes).learned ≡ how_many knows nodes)
          × ((status floats nodes).has_settled ≡ true → (status floats nodes).agreed ≡ true)
    unfolding status
    status_counts nodes =
        let (a, l) = counted nodes no_status in
        let (agreed, settled) = flags nodes no_status in
        let (ca, cl, cs) = concluded (quorum_of (length nodes)) _ agreed settled in
        (ca ∙ a ∙ omega arith, cl ∙ l ∙ omega arith, cs)

    -- A status that `WaitConverged` takes for converged has learned nodes in a quorum; and if only
    -- nodes that are up have learned a value, then every node that was reached and is up has learned
    -- the settled one.
    pub converged_learned :
        (nodes : List (NodeStatus F))
        → has_converged (status floats nodes) ≡ true
        → (quorum_of (length nodes) ≤ (status floats nodes).learned)
          × (LearnedAlive nodes
              → (n : NodeStatus F) → Has n nodes
              → is_alive n ≡ true
              → (knows n ≡ true)
                × (n.snapshot.decision.value ≡ (status floats nodes).settled_value))
    unfolding has_converged
    converged_learned nodes h =
        let (a, l, agrees) = status_counts nodes in
        let settled : (status floats nodes).has_settled ≡ true = ground arith in
        let (known, enough) = status_settled floats nodes settled in
        (
          enough,
          λ only n at up.
              let own = all_know nodes only (ground arith) n at up in
              (
                own,
                (status_agreed_iff floats nodes).0 (agrees settled) n.snapshot.decision.value _
                    (n, at, ground arith, ground arith, refl) known,
              ),
        )
