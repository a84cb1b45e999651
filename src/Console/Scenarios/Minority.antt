-- ===== src/Console/Scenarios/Minority.antt =====
-- While a cluster is cut apart, a node whose side is no quorum wins no round of `Propose`.
use interactive_paxos.Prelude.{
  ℕ, ℤ, ◌+◌, ◌-◌, ◌≤◌, ◌<◌, ◌≡◌, ◌≢◌, refl, sym, ◌∙◌, ap, subst, inl, inr, Bool, true, false, not,
  eqb_ℤ, new, Result, ok, err, Option, none, some, List, [], ◌∷◌, map, length, drop, if◌then◌else◌,
  Bool-cases, Option-cases, arith,
}
use interactive_paxos.Quorum.{quorum_of}
use interactive_paxos.Messages.{PrepareRequest, PrepareResponse}
use interactive_paxos.Store.{Store}
use interactive_paxos.Proposer.{Proposer, Round, propose, quorum}
use interactive_paxos.Proposer.Outcome.{chosen}
use interactive_paxos.Proposer.Tally.Counting.{tally, is_promise}
use interactive_paxos.Proposer.Progress.{propose_chosen_iff}
use interactive_paxos.Fault
use interactive_paxos.Fault.{Floats, Draws, faulty_prepare}
use interactive_paxos.Fault.Gate.{cut_off}
use interactive_paxos.Ui.{Served}
use interactive_paxos.Console.Client.{World, is_equal}
use interactive_paxos.Console.Cluster.{contains_int}
use interactive_paxos.Console.Scenario.Steps.{cut_apart}
use interactive_paxos.Console.Scenarios.Partition.{DistinctIds, cut_apart-sides}
use interactive_paxos.Console.Served.{IsServed, is_cut}

-- How many ids pass a test.
abbrev pub count_ids : (ℤ → Bool) → List ℤ → ℕ
count_ids f [] = 0
count_ids f (i ∷ ids) = (if f i then 1 else 0) + count_ids f ids

-- The same ids, as often, in whatever order.
abbrev pub SameIds : List ℤ → List ℤ → Type 0
SameIds xs ys = (f : ℤ → Bool) → count_ids f xs ≡ count_ids f ys

count_ids-length : (xs : List ℤ) → count_ids (λ i. true) xs ≡ length xs
count_ids-length [] = refl
count_ids-length (x ∷ xs) = omega (arith, count_ids-length xs)

count_ids-contains :
    (xs : List ℤ) (i : ℤ) → 0 < count_ids (λ k. eqb_ℤ k i) xs → contains_int xs i ≡ true
count_ids-contains [] i h = absurd (omega arith)
count_ids-contains (x ∷ xs) i h = ground (arith, count_ids-contains xs i)

contains-count_ids :
    (xs : List ℤ) (i : ℤ) → contains_int xs i ≡ true → 0 < count_ids (λ k. eqb_ℤ k i) xs
contains-count_ids [] i h = cc
contains-count_ids (x ∷ xs) i h = ground (arith, contains-count_ids xs i)

-- The slot that a call fills.
abbrev pub slot_of : {R : Type 0} → Result R → Option R
slot_of (ok r) = some r
slot_of (err e) = none

-- A reply that does not come is no promise.
tally-le :
    (reply : ℤ → Option PrepareResponse) (test : ℤ → Bool) (xs : List ℤ)
    → ((i : ℤ) → contains_int xs i ≡ true → test i ≡ false → reply i ≡ none)
    → tally is_promise (map reply xs) ≤ count_ids test xs
tally-le reply test [] h = omega arith
tally-le reply test (x ∷ xs) h =
    let rest = tally-le reply test xs (λ i m e. h i (ground arith) e) in
    let refl_x : eqb_ℤ x x ≡ true = ground arith in
    elim (Option-cases (reply x)) [
      | inl e ↦ rw e (ground arith)
      | inr (r, e) ↦ elim (Bool-cases (test x)) [
        | inl own ↦ rw (e, own) (ground arith)
        | inr other ↦ cc (h x (ground arith) other)
      ]
    ]

module _ {F S W : Type 0} (floats : Floats F) (ops : Store S) (world : World F W)
    (sites : W → ℤ → Served F S) (served : IsServed floats ops world sites) (clients : List ℤ)
    (size : ℕ) where
  abbrev pub same_side : ℤ → ℤ → Bool
  same_side x i =
      is_equal (contains_int (drop (length clients - size) clients) x)
        (contains_int (drop (length clients - size) clients) i)

  same_side_refl : (x i : ℤ) → same_side x i ≡ false → eqb_ℤ x i ≡ false
  same_side_refl x i h = elim (Bool-cases (eqb_ℤ x i)) [
    | inr e ↦ e
    | inl e ↦
        let at : x ≡ i = ground arith in
        absurd (ground (arith, subst (λ k. same_side x k ≡ false) (sym at) h))
  ]

  module _ {T : Type 0} (draws : ℤ → Draws floats) (before : ℤ → Fault.Config F)
      (on_prepare : ℤ → PrepareRequest → T → Result PrepareResponse × T) (req : PrepareRequest)
      (states : ℤ → T) where
    -- The slot of a peer in a round of the node `x`: the peer is called through the node's faults.
    abbrev pub slot_through : W → ℤ → ℤ → Option PrepareResponse
    slot_through w x i =
        slot_of
          (faulty_prepare floats (draws i) i (before i) (sites w x).faults (on_prepare i) req
            (states i)).0

    cut_slot :
        (w : W) (x i : ℤ) → is_cut floats ops world sites w x i ≡ true → slot_through w x i ≡ none
    cut_slot w x i cut =
        let ((e, did), _) =
          cut_off floats (draws i) i (before i) (sites w x).faults (on_prepare i)
            (λ r s. (err (new ""), s)) req
            (record { proposal = req.proposal; value = 0; proposer_id = req.proposer_id })
            (states i) (inr cut) in
        ap (λ r. slot_of r.0) did

    -- After both loops of `partition` over a cluster with distinct ids in which no link is cut, whose
    -- calls have all succeeded: a proposer of a node, whose peers are the nodes of the cluster in any
    -- order, reports no value as chosen, whatever its peers would answer, if the node's side has fewer
    -- nodes than a quorum and the node calls the others through its faults.
    pub minority_chooses_nothing :
        DistinctIds clients
        → (w : W) → ((x y : ℤ) → is_cut floats ops world sites w x y ≡ false)
        → (cut_apart world clients size w).0 ≡ none
        → (x : ℤ) → contains_int clients x ≡ true
        → count_ids (same_side x) clients < quorum_of (length clients)
        → (p : Proposer ℤ) (r : Round ℤ) → SameIds p.peers clients
        → ((i : ℤ)
            → eqb_ℤ x i ≡ false
            → r.prepare_reply i ≡ slot_through (cut_apart world clients size w).1 x i)
        → (propose p r).0.outcome ≢ chosen
    minority_chooses_nothing distinct w clear done x known few p r same calls h =
        let (_, _, enough, _) = (propose_chosen_iff p r).0 h in
        let bound = tally-le r.prepare_reply (same_side x) p.peers λ i m other.
          let apart = same_side_refl x i other in
          let member =
            count_ids-contains clients i
              (omega (arith, same (λ k. eqb_ℤ k i), contains-count_ids p.peers i m)) in
          calls i apart
          ∙ cut_slot (cut_apart world clients size w).1 x i (
              cut_apart-sides floats ops world sites served clients size distinct w clear done x i
                known member
              ∙ ap (not) other) in
        let count : length p.peers ≡ length clients =
          sym (count_ids-length p.peers) ∙ same (λ k. true) ∙ count_ids-length clients in
        let peers_bound = same (same_side x) in
        let quorums : quorum p ≡ quorum_of (length clients) = ap (quorum_of) count in omega arith
