-- ===== src/Console/Scenarios/Partition.antt =====
-- The scenario `partition` cuts the links between its two sides, and no other.
use interactive_paxos.Prelude.{
  take, drop, ℕ, zero, suc, ℤ, pos, negsuc, ◌-◌, ◌≤◌, ◌<◌, ◌≡◌, refl, sym, ◌∙◌, ap, inl, inr, Bool,
  true, false, not, ◌&&◌, ◌||◌, eqb_ℤ, none, List, [], ◌∷◌, length, Bool-cases, arith,
}
use interactive_paxos.Store.{Store}
use interactive_paxos.Fault.{Floats}
use interactive_paxos.Ui.{Served}
use interactive_paxos.Console.Client.{World, Call, is_equal, blocked_of}
use interactive_paxos.Console.Cluster.{contains_int}
use interactive_paxos.Console.Scenario.{for_each}
use interactive_paxos.Console.Scenario.Steps.{minority_size, cut_links, cut_apart, when}
use interactive_paxos.Console.Served.{both_done, IsServed, is_cut, is_cut-blocked_of}

-- No two nodes of a cluster have one id.
abbrev pub DistinctIds : List ℤ → Type 0
DistinctIds [] = Unit
DistinctIds (id ∷ ids) = (contains_int ids id ≡ false) × DistinctIds ids

-- Each node stands on one side.
contains-sides :
    (n : ℕ) (ids : List ℤ) (x : ℤ)
    → (contains_int (take n ids) x || contains_int (drop n ids) x) ≡ contains_int ids x
contains-sides zero ids x = ground arith
contains-sides (suc n) [] x = refl
contains-sides (suc n) (id ∷ ids) x = ground (arith, contains-sides n ids x)

contains_eq : (ids : List ℤ) (x y : ℤ) → eqb_ℤ x y ≡ true → contains_int ids x ≡ contains_int ids y
contains_eq ids x y e = let same : x ≡ y = ground arith in ap (contains_int ids) same

contains-one_side :
    (n : ℕ) (ids : List ℤ)
    → DistinctIds ids
    → (x : ℤ) → contains_int (take n ids) x ≡ true
    → contains_int (drop n ids) x ≡ false
contains-one_side zero ids d x h = absurd (ground arith)
contains-one_side (suc n) [] d x h = refl
contains-one_side (suc n) (id ∷ ids) d x h = elim (Bool-cases (eqb_ℤ id x)) [
  | inl e ↦ ground (arith, d.0, contains_eq ids id x e, contains-sides n ids x)
  | inr e ↦ contains-one_side n ids d.1 x (ground arith)
]

-- The minority of two nodes or more is one node at least, and not all.
pub minority_size-bounds :
    (n : ℕ) (size : ℤ) → 2 ≤ n → (1 ≤ minority_size n size) × (minority_size n size < n)
unfolding minority_size
minority_size-bounds n (pos size) h = (ground arith, ground arith)
minority_size-bounds n (negsuc size) h = (omega arith, omega arith)

module _ {F S W : Type 0} (floats : Floats F) (ops : Store S) (world : World F W)
    (sites : W → ℤ → Served F S) (served : IsServed floats ops world sites) where
  abbrev cut : W → ℤ → ℤ → Bool
  cut = is_cut floats ops world sites

  cut_row :
      (a : ℤ) (far : List ℤ) (w : W)
      → (for_each far (λ b. blocked_of world b true a) w).0 ≡ none
      → (x y : ℤ)
      → cut (for_each far (λ b. blocked_of world b true a) w).1 x y
        ≡ (eqb_ℤ a x && contains_int far y || cut w x y)
  unfolding for_each
  cut_row a [] w h x y = ground arith
  cut_row a (b ∷ far) w h x y =
      let (first, later, e) =
        both_done (blocked_of world b true a) (for_each far (λ b. blocked_of world b true a)) w h in
      ap (λ r. cut r.1 x y) e
      ∙ cut_row a far (blocked_of world b true a w).1 later x y
      ∙ ground (arith, is_cut-blocked_of floats ops world sites served a b true w first x y)

  module _ (clients : List ℤ) where
    abbrev row : List ℤ → ℤ → Call W
    row far a = when (contains_int clients a) (for_each far λ b. blocked_of world b true a)

    row_known :
        (a : ℤ) (far : List ℤ)
        → contains_int clients a ≡ true
        → row far a ≡ for_each far (λ b. blocked_of world b true a)
    row_known a far e = rw e refl

    row_cut :
        (a : ℤ) (far : List ℤ)
        → contains_int clients a ≡ true
        → (w : W) → (row far a w).0 ≡ none
        → (x y : ℤ) → cut (row far a w).1 x y ≡ (eqb_ℤ a x && contains_int far y || cut w x y)
    row_cut a far known w h x y =
        let same = row_known a far known in
        ap (λ m. cut (m w).1 x y) same ∙ cut_row a far w (sym (ap (λ m. (m w).0) same) ∙ h) x y

    -- The loop over one side cuts its links to the other side.
    cut_side :
        (near far : List ℤ)
        → ((a : ℤ) → contains_int near a ≡ true → contains_int clients a ≡ true)
        → (w : W) → (cut_links world clients near far w).0 ≡ none
        → (x y : ℤ)
        → cut (cut_links world clients near far w).1 x y
          ≡ (contains_int near x && contains_int far y || cut w x y)
    unfolding cut_links for_each
    cut_side [] far known w h x y = refl
    cut_side (a ∷ near) far known w h x y =
        let (first, later, e) = both_done (row far a) (cut_links world clients near far) w h in
        ap (λ r. cut r.1 x y) e
        ∙ cut_side near far (λ k m. known k (ground arith)) (row far a w).1 later x y
        ∙ ground (arith, row_cut a far (known a (ground arith)) w first x y)

    -- Both loops of `partition` over a cluster with distinct ids in which no link is cut: if every call
    -- succeeds, and nothing else changes the nodes meanwhile, the link from one node to another is cut exactly if they stand on different sides.
    pub cut_apart-sides :
        (size : ℕ)
        → DistinctIds clients
        → (w : W) → ((x y : ℤ) → cut w x y ≡ false)
        → (cut_apart world clients size w).0 ≡ none
        → (x y : ℤ) → contains_int clients x ≡ true
        → contains_int clients y ≡ true
        → cut (cut_apart world clients size w).1 x y
          ≡ not (
              is_equal
                (contains_int (drop (length clients - size) clients) x)
                (contains_int (drop (length clients - size) clients) y))
    unfolding cut_apart
    cut_apart-sides size d w clear h x y hx hy =
        let n = length clients - size in
        let minority = drop n clients in
        let majority = take n clients in
        let (first, later, e) =
          both_done (cut_links world clients majority minority)
            (cut_links world clients minority majority) w h in
        let sides = contains-sides n clients in
        ap (λ r. cut r.1 x y) e
        ∙ cut_side minority majority (λ a m. ground (arith, sides a))
            (cut_links world clients majority minority w).1 later x y
        ∙ ground (
          arith,
          cut_side majority minority (λ a m. ground (arith, sides a)) w first x y,
          clear x y,
          sides x,
          sides y,
          contains-one_side n clients d x,
          contains-one_side n clients d y,
        )
