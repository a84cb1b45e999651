-- ===== src/Console/Status.antt =====
-- What a status says of the answers that it is made of.
use interactive_paxos.Prelude.{
  ℕ, suc, ◌≤◌, ◌≡◌, ◌↔◌, refl, sym, ◌∙◌, ap, subst, ◌⊎◌, inl, inr, true, false, ◌||◌, ◌&&◌, ◌==◌,
  List, [], ◌∷◌, length, Has, if◌then◌else◌, Bool-cases, arith,
}
use interactive_paxos.Quorum.{quorum_of}
use interactive_paxos.Fault.{Floats}
use interactive_paxos.Console.{
  NodeStatus, ClusterStatus, no_status, is_in, append_value, add_value, insert, sort, observe,
  observe_all, only_value, conclude, status,
}

abbrev Distinct : List ℕ → Type 0
Distinct [] = Unit
Distinct (v ∷ vs) = (is_in v vs ≡ false) × Distinct vs

is_in-append_value : (v w : ℕ) (vs : List ℕ) → is_in v (append_value w vs) ≡ (v == w || is_in v vs)
is_in-append_value v w [] = ground arith
is_in-append_value v w (x ∷ vs) = ground (arith, is_in-append_value v w vs)

append_value-Distinct :
    (w : ℕ) (vs : List ℕ) → is_in w vs ≡ false → Distinct vs → Distinct (append_value w vs)
append_value-Distinct w [] new d = (refl, tt)
append_value-Distinct w (x ∷ vs) new d =
    (ground (arith, is_in-append_value x w vs, d.0), append_value-Distinct w vs (ground arith) d.1)

is_in-add_value : (v w : ℕ) (vs : List ℕ) → is_in v (add_value w vs) ≡ (v == w || is_in v vs)
unfolding add_value
is_in-add_value v w vs = ground (arith, is_in-append_value v w vs)

add_value-Distinct : (w : ℕ) (vs : List ℕ) → Distinct vs → Distinct (add_value w vs)
unfolding add_value
add_value-Distinct w vs d = elim (Bool-cases (is_in w vs)) [
  | inl old ↦ subst Distinct (sym (rw old refl)) d
  | inr new ↦ subst Distinct (sym (rw new refl)) (append_value-Distinct w vs new d)
]

length-insert : (v : ℕ) (vs : List ℕ) → length (insert v vs) ≡ suc (length vs)
length-insert v [] = refl
length-insert v (w ∷ vs) = ground (arith, length-insert v vs)

length-sort : (vs : List ℕ) → length (sort vs) ≡ length vs
unfolding sort
length-sort [] = refl
length-sort (v ∷ vs) = length-insert v (sort vs) ∙ ap suc (length-sort vs)

is_in-insert : (v w : ℕ) (vs : List ℕ) → is_in v (insert w vs) ≡ (v == w || is_in v vs)
is_in-insert v w [] = ground arith
is_in-insert v w (x ∷ vs) = ground (arith, is_in-insert v w vs)

is_in-sort : (v : ℕ) (vs : List ℕ) → is_in v (sort vs) ≡ is_in v vs
unfolding sort
is_in-sort v [] = refl
is_in-sort v (w ∷ vs) = ground (arith, is_in-insert v w (sort vs), is_in-sort v vs)

-- At most one value: no two that differ.
one_value :
    (vs : List ℕ) → length vs ≤ 1 → (v w : ℕ) → is_in v vs ≡ true → is_in w vs ≡ true → v ≡ w
one_value [] h v w p q = cc
one_value (x ∷ []) h v w p q = ground arith
one_value (x ∷ y ∷ vs) h v w p q = absurd (omega arith)

few_values :
    (vs : List ℕ)
    → Distinct vs
    → ((v w : ℕ) → is_in v vs ≡ true → is_in w vs ≡ true → v ≡ w)
    → length vs ≤ 1
few_values [] d h = omega arith
few_values (x ∷ []) d h = omega arith
few_values (x ∷ y ∷ vs) d h =
    let same : x ≡ y = h x y (ground arith) (ground arith) in absurd (ground (arith, d.0))

conclude_agreed :
    (q : ℕ) (out : ClusterStatus)
    → ((conclude q out).agreed ≡ true → length out.values ≤ 1)
      × (out.agreed ≡ true → length out.values ≤ 1 → (conclude q out).agreed ≡ true)
unfolding conclude
conclude_agreed q out = (λ h. ground arith, λ a h. ground arith)

only_value_in : (vs : List ℕ) → length vs ≡ 1 → is_in (only_value vs) vs ≡ true
only_value_in [] h = absurd (omega arith)
only_value_in (v ∷ vs) h = ground arith

conclude_settled :
    (q : ℕ) (out : ClusterStatus)
    → out.has_settled ≡ false
    → (conclude q out).has_settled ≡ true
    → (is_in (conclude q out).settled_value out.values ≡ true) × (q ≤ (conclude q out).learned)
unfolding conclude
conclude_settled q out f h =
    let member = only_value_in out.values in (ground (arith, member), ground arith)

module _ {F : Type 0} (floats : Floats F) where
  -- A node that was reached has learned the value.
  abbrev pub HasLearned : List (NodeStatus F) → ℕ → Type 0
  HasLearned nodes v =
      (n : NodeStatus F) × Has n nodes
      × (n.reachable ≡ true)
      × (n.snapshot.decision.learned ≡ true)
      × (n.snapshot.decision.value ≡ v)

  observed_values :
      (n : NodeStatus F) (out : ClusterStatus)
      → (observe floats n out).values ≡ (
          if n.reachable && n.snapshot.decision.learned
          then add_value n.snapshot.decision.value out.values
          else out.values)
  unfolding observe
  observed_values n out = ground arith

  observed-Distinct :
      (n : NodeStatus F) (out : ClusterStatus)
      → Distinct out.values
      → Distinct (observe floats n out).values
  observed-Distinct n out d =
      subst Distinct (sym (observed_values n out))
        (elim (n.reachable && n.snapshot.decision.learned)
          as (λ b.
            Distinct (if b then add_value n.snapshot.decision.value out.values else out.values)) [
              | true ↦ add_value-Distinct n.snapshot.decision.value out.values d
              | false ↦ d
            ])

  values-Distinct :
      (nodes : List (NodeStatus F)) (out : ClusterStatus)
      → Distinct out.values
      → Distinct (observe_all floats nodes out).values
  unfolding observe_all
  values-Distinct [] out d = d
  values-Distinct (n ∷ nodes) out d =
      values-Distinct nodes (observe floats n out) (observed-Distinct n out d)

  -- What one answer adds to the values.
  is_in-observe :
      (v : ℕ) (n : NodeStatus F) (out : ClusterStatus)
      → is_in v (observe floats n out).values ≡ (
          n.reachable && n.snapshot.decision.learned && v == n.snapshot.decision.value
          || is_in v out.values)
  unfolding observe
  is_in-observe v n out = ground (arith, is_in-add_value v n.snapshot.decision.value out.values)

  values_sound :
      (v : ℕ) (nodes : List (NodeStatus F)) (out : ClusterStatus)
      → is_in v (observe_all floats nodes out).values ≡ true
      → (is_in v out.values ≡ true) ⊎ HasLearned nodes v
  unfolding observe_all
  values_sound v [] out h = inl h
  values_sound v (n ∷ nodes) out h = elim (values_sound v nodes (observe floats n out) h) [
    | inr (m, at, up, knows, value) ↦ inr (m, inr at, up, knows, value)
    | inl here ↦ elim (Bool-cases (is_in v out.values)) [
      | inl old ↦ inl old
      | inr new ↦
          let added = is_in-observe v n out in
          inr (n, inl refl, ground arith, ground arith, ground arith)
    ]
  ]

  values_kept :
      (v : ℕ) (nodes : List (NodeStatus F)) (out : ClusterStatus)
      → is_in v out.values ≡ true
      → is_in v (observe_all floats nodes out).values ≡ true
  unfolding observe_all
  values_kept v [] out h = h
  values_kept v (n ∷ nodes) out h =
      values_kept v nodes (observe floats n out) (ground (arith, is_in-observe v n out))

  values_complete :
      (v : ℕ) (nodes : List (NodeStatus F)) (out : ClusterStatus)
      → HasLearned nodes v
      → is_in v (observe_all floats nodes out).values ≡ true
  unfolding observe_all
  values_complete v [] out (m, at, up, knows, value) = absurd at
  values_complete v (n ∷ nodes) out (m, at, up, knows, value) = elim at [
    | inr later ↦ values_complete v nodes (observe floats n out) (m, later, up, knows, value)
    | inl e ↦ values_kept v nodes (observe floats n out) (ground (arith, is_in-observe v n out))
  ]

  values_of : List (NodeStatus F) → List ℕ
  values_of nodes = (observe_all floats nodes no_status).values

  HasLearned-values_of :
      (v : ℕ) (nodes : List (NodeStatus F))
      → HasLearned nodes v ↔ (is_in v (values_of nodes) ≡ true)
  unfolding values_of
  HasLearned-values_of v nodes = (
    values_complete v nodes no_status,
    λ h. elim (values_sound v nodes no_status h) [ inl none_yet ↦ cc | inr found ↦ found ],
  )

  flags_observe_all :
      (nodes : List (NodeStatus F)) (out : ClusterStatus)
      → ((observe_all floats nodes out).agreed ≡ out.agreed)
        × ((observe_all floats nodes out).has_settled ≡ out.has_settled)
  unfolding observe_all observe
  flags_observe_all [] out = (refl, refl)
  flags_observe_all (n ∷ nodes) out =
      let (a, s) = flags_observe_all nodes (observe floats n out) in
      (a ∙ ground arith, s ∙ ground arith)

  agreed_few :
      (nodes : List (NodeStatus F))
      → ((status floats nodes).agreed ≡ true) ↔ (length (values_of nodes) ≤ 1)
  unfolding status values_of
  agreed_few nodes =
      let same = length-sort (values_of nodes) in
      let (agreed, c) = conclude_agreed (quorum_of (length nodes)) _ in
      (λ h. omega (arith, agreed h), λ h. c ((flags_observe_all nodes no_status).0) (omega arith))

  -- `Status` reports agreement exactly if all nodes that were reached and have learned a value have
  -- learned the same one.
  pub status_agreed_iff :
      (nodes : List (NodeStatus F))
      → ((status floats nodes).agreed ≡ true)
        ↔ ((v w : ℕ) → HasLearned nodes v → HasLearned nodes w → v ≡ w)
  unfolding values_of
  status_agreed_iff nodes = (
    λ h v w p q.
        one_value (values_of nodes) ((agreed_few nodes).0 h) v w
          ((HasLearned-values_of v nodes).0 p) ((HasLearned-values_of w nodes).0 q),
    λ h. (agreed_few nodes).1 (
        few_values (values_of nodes) (values-Distinct nodes no_status tt) λ v w p q.
          h v w ((HasLearned-values_of v nodes).1 p) ((HasLearned-values_of w nodes).1 q)),
  )

  -- A status that has settled reports a value that some node that was reached has learned, and at
  -- least a quorum of the nodes has learned a value.
  pub status_settled :
      (nodes : List (NodeStatus F))
      → (status floats nodes).has_settled ≡ true
      → HasLearned nodes (status floats nodes).settled_value
        × (quorum_of (length nodes) ≤ (status floats nodes).learned)
  unfolding status values_of
  status_settled nodes h =
      let (member, enough) =
        conclude_settled (quorum_of (length nodes)) _ ((flags_observe_all nodes no_status).1) h in
      ((HasLearned-values_of _ nodes).1 (sym (is_in-sort _ (values_of nodes)) ∙ member), enough)
