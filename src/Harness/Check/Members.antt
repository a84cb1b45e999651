-- ===== src/Harness/Check/Members.antt =====
-- The entries of a row against the members of a cluster.
use interactive_paxos.Prelude.{
  ℕ, ℤ, pos, ◌+◌, ◌≤◌, ◌≡◌, refl, ap, inl, inr, subst, Bool, true, false, ◌||◌, ◌==◌, eqb_ℤ, List,
  [], ◌∷◌, length, Has, Bool-cases, if◌then◌else◌, arith,
}
use interactive_paxos.Quorum.{count}
use interactive_paxos.Harness.Check.{Values}
use interactive_paxos.Harness.Check.Table.{has_key, DistinctKeys}

count_or :
    (test : ℕ → Bool) (i : ℕ) (members : List ℕ)
    → count test members ≤ count (λ k. k == i || test k) members
unfolding count
count_or test i [] = omega arith
count_or test i (m ∷ members) = ground (arith, count_or test i members)

-- A member that a test leaves out makes the test with it pass once more at least.
count_more :
    (test : ℕ → Bool) (i : ℕ) (members : List ℕ)
    → Has i members
    → test i ≡ false
    → count test members + 1 ≤ count (λ k. k == i || test k) members
unfolding count
count_more test i [] h e = absurd h
count_more test i (m ∷ members) (inl q) e = ground (arith, ap test q, count_or test i members)
count_more test i (m ∷ members) (inr later) e = ground (arith, count_more test i members later e)

abbrev members_of : Values → List ℕ → ℕ
members_of vs = count (λ i. has_key (pos i) vs)

count_same :
    (i : ℕ) (a : ℤ) (v : ℕ) (vs : Values)
    → a ≡ pos i
    → (members : List ℕ)
    → count (λ k. k == i || has_key (pos k) vs) members ≡ members_of ((a, v) ∷ vs) members
unfolding count
count_same i a v vs e [] = refl
count_same i a v vs e (m ∷ members) = ground (arith, count_same i a v vs e members)

-- Entries of distinct members are no more than the members.
pub length-members_of :
    (members : List ℕ) (vs : Values)
    → DistinctKeys vs
    → ((x : ℤ × ℕ) → Has x vs → (i : ℕ) × Has i members × (x.0 ≡ pos i))
    → length vs ≤ members_of vs members
length-members_of members [] d all = omega arith
length-members_of members ((a, v) ∷ vs) d all =
    let (i, m, e) = all (a, v) (inl refl) in
    let fewer = length-members_of members vs d.1 (λ x h. all x (inr h)) in
    let more =
      count_more (λ k. has_key (pos k) vs) i members m (subst (λ b. has_key b vs ≡ false) e d.0) in
    omega (arith, fewer, more, count_same i a v vs e members)

pub has_key-Has : (a : ℤ) (vs : Values) → has_key a vs ≡ true → (w : ℕ) × Has (a, w) vs
has_key-Has a [] h = absurd (ground arith)
has_key-Has a ((b, w) ∷ vs) h = elim (Bool-cases (eqb_ℤ a b)) [
  | inl e ↦ let same : a ≡ b = ground arith in (w, inl (ap (λ k. (k, w)) same))
  | inr e ↦ let (u, m) = has_key-Has a vs (ground arith) in (u, inr m)
]

-- No member stands twice in the list.
abbrev pub Distinct : List ℕ → Type 0
Distinct [] = Unit
Distinct (m ∷ members) = (Has m members → ⊥) × Distinct members

module _ (f : ℕ → Bool) (a : ℤ) where
  -- The test without the acceptor `a`.
  abbrev others : ℕ → Bool
  others k = if eqb_ℤ (pos k) a then false else f k

  count-others :
      (members : List ℕ)
      → ((k : ℕ) → Has k members → eqb_ℤ (pos k) a ≡ false)
      → count others members ≡ count f members
  unfolding count
  count-others [] none_is = refl
  count-others (m ∷ members) none_is =
      ground (arith, none_is m (inl refl), count-others members (λ k h. none_is k (inr h)))

  count_one_less :
      (members : List ℕ) → Distinct members → count f members ≤ count others members + 1
  unfolding count
  count_one_less [] d = omega arith
  count_one_less (m ∷ members) d = elim (Bool-cases (eqb_ℤ (pos m) a)) [
    | inr e ↦ ground (arith, count_one_less members d.1)
    | inl e ↦
        let same = count-others members (λ k h. elim (Bool-cases (eqb_ℤ (pos k) a)) [
          | inr q ↦ q
          | inl q ↦ let at : k ≡ m = ground arith in absurd (d.0 (subst (λ x. Has x members) at h))
        ]) in
        ground arith
  ]

count_none :
    (f : ℕ → Bool) (members : List ℕ)
    → ((k : ℕ) → Has k members → f k ≡ true → ⊥)
    → count f members ≡ 0
unfolding count
count_none f [] h = refl
count_none f (m ∷ members) h = elim (Bool-cases (f m)) [
  | inl e ↦ absurd (h m (inl refl) e)
  | inr e ↦ ground (arith, count_none f members (λ k m. h k (inr m)))
]

-- Distinct members with an entry are no more than the entries.
pub count-length :
    (f : ℕ → Bool) (members : List ℕ)
    → Distinct members
    → (vs : Values) → ((k : ℕ) → Has k members → f k ≡ true → has_key (pos k) vs ≡ true)
    → count f members ≤ length vs
count-length f members d [] h =
    omega (arith, count_none f members (λ k m e. ground (arith, h k m e)))
count-length f members d ((a, w) ∷ vs) h = omega (
  arith,
  count_one_less f a members d,
  count-length (others f a) members d vs (λ k m e. ground (arith, h k m)),
)
