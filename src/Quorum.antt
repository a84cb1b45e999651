-- ===== src/Quorum.antt =====
-- Quorums of a cluster: `len(peers)/2 + 1` of pkg/paxos/proposer.go, pkg/paxostest/harness.go and
-- pkg/console/cluster.go. Two of them share a member.
use interactive_paxos.Prelude.{
  ℕ, ◌+◌, ◌/◌, ◌≤◌, ◌<◌, ◌==◌, ◌≡◌, refl, inl, inr, Bool, true, List, [], ◌∷◌, length, Has,
  if◌then◌else◌, arith, Bool-cases, ◌∙◌, sym, subst,
}

-- How many entries of a list pass a test.
unfoldable pub count : (ℕ → Bool) → List ℕ → ℕ
count test [] = 0
count test (x ∷ xs) = (if test x then 1 else 0) + count test xs

abbrev pub quorum_of : ℕ → ℕ
quorum_of n = n / 2 + 1

-- Tests that pass more often than there are entries pass together somewhere.
pub overlap :
    (f g : ℕ → Bool) (xs : List ℕ)
    → length xs < count f xs + count g xs
    → (i : ℕ) × Has i xs × (f i ≡ true) × (g i ≡ true)
unfolding count
overlap f g [] h = absurd (omega arith)
overlap f g (x ∷ xs) h = elim (Bool-cases (f x)) [
  | inl p ↦ elim (Bool-cases (g x)) [
    | inl q ↦ (x, inl refl, p, q)
    | inr q ↦ let (i, m, a, b) = overlap f g xs (ground arith) in (i, inr m, a, b)
  ]
  | inr p ↦ let (i, m, a, b) = overlap f g xs (ground arith) in (i, inr m, a, b)
]

-- Two tests that a quorum of the same members pass are both passed by one of the members.
pub quorums_meet :
    (f g : ℕ → Bool) (xs : List ℕ)
    → quorum_of (length xs) ≤ count f xs
    → quorum_of (length xs) ≤ count g xs
    → (i : ℕ) × Has i xs × (f i ≡ true) × (g i ≡ true)
quorums_meet f g xs p q = overlap f g xs (omega arith)

-- A test that passes somewhere passes at an entry.
pub count_pos : (f : ℕ → Bool) (xs : List ℕ) → 0 < count f xs → (i : ℕ) × Has i xs × (f i ≡ true)
unfolding count
count_pos f [] h = absurd (omega arith)
count_pos f (x ∷ xs) h = elim (Bool-cases (f x)) [
  | inl p ↦ (x, inl refl, p)
  | inr p ↦ let (i, m, q) = count_pos f xs (ground arith) in (i, inr m, q)
]

pub count-le : (f : ℕ → Bool) (xs : List ℕ) → count f xs ≤ length xs
unfolding count
count-le f [] = omega arith
count-le f (x ∷ xs) = ground (arith, count-le f xs)

count_has : (i : ℕ) (xs : List ℕ) → Has i xs → 0 < count (λ j. j == i) xs
unfolding count
count_has i [] h = absurd h
count_has i (x ∷ xs) (inl e) = ground arith
count_has i (x ∷ xs) (inr m) = ground (arith, count_has i xs m)

count_all : (xs : List ℕ) → count (λ _. true) xs ≡ length xs
unfolding count
count_all [] = refl
count_all (x ∷ xs) = omega (arith, count_all xs)

-- The same entries, as often, in whatever order.
abbrev pub SameItems : List ℕ → List ℕ → Type 0
SameItems xs ys = (f : ℕ → Bool) → count f xs ≡ count f ys

pub SameItems-length : (xs ys : List ℕ) → SameItems xs ys → length xs ≡ length ys
SameItems-length xs ys h = sym (count_all xs) ∙ h (λ _. true) ∙ count_all ys

pub SameItems-Has : (xs ys : List ℕ) → SameItems xs ys → (i : ℕ) → Has i ys → Has i xs
SameItems-Has xs ys h i m =
    let (j, here, e) =
      count_pos (λ k. k == i) xs (omega (arith, h (λ k. k == i), count_has i ys m)) in
    let same : j ≡ i = ground arith in subst (λ k. Has k xs) same here
