-- ===== src/System/Updates.antt =====
-- Reading an updated family, a pool of replies after a post, and the slots of a broadcast.
use interactive_paxos.Prelude.{
  ℕ, ◌≡◌, refl, sym, ◌≢◌, ◌⊎◌, inl, inr, ◌==◌, Bool-cases, Result, ok, err, Option, some, List, [],
  ◌∷◌, ◌++◌, map, arith, subst, Has,
}
use interactive_paxos.Proposal.{ProposalNumber}
use interactive_paxos.System.{update, Reply, post}

module _ {A : Type 0} where
  pub update-at : (f : ℕ → A) (i : ℕ) (a : A) → update f i a i ≡ a
  update-at f i a = ground arith

  -- What held of every member, and holds of the new one, holds after the update.
  pub update_all :
      (P : ℕ → A → Type 0) (f : ℕ → A) (i : ℕ) (a : A)
      → ((j : ℕ) → P j (f j))
      → P i a
      → (j : ℕ) → P j (update f i a j)
  update_all P f i a old new j = elim (Bool-cases (i == j)) [
    | inl e ↦ let same : i ≡ j = ground arith in rw e (subst (λ k. P k a) same new)
    | inr e ↦ rw e (old j)
  ]

  -- The same, where the old members may use that they are not the one replaced.
  pub update_each :
      (P : ℕ → A → Type 0) (f : ℕ → A) (i : ℕ) (a : A)
      → ((j : ℕ) → j ≢ i → P j (f j))
      → P i a
      → (j : ℕ) → P j (update f i a j)
  update_each P f i a old new j = elim (Bool-cases (i == j)) [
    | inl e ↦ let same : i ≡ j = ground arith in rw e (subst (λ k. P k a) same new)
    | inr e ↦ rw e (old j (λ q. ground arith))
  ]

  -- A member of an updated family of options is the new one, or was there before.
  pub update-cases :
      (f : ℕ → Option A) (i : ℕ) (a : A) (j : ℕ) (b : A)
      → update f i (some a) j ≡ some b
      → ((j ≡ i) × (b ≡ a)) ⊎ (f j ≡ some b)
  update-cases f i a j b h = elim (Bool-cases (i == j)) [
    | inl e ↦ inl (ground arith, ground arith)
    | inr e ↦ inr (ground arith)
  ]

  pub Has-append : (x y : A) (xs : List A) → Has x (xs ++ y ∷ []) → Has x xs ⊎ (x ≡ y)
  Has-append x y [] h = elim h [ inl e ↦ inr e | inr f ↦ absurd f ]
  Has-append x y (z ∷ xs) h = elim h [
    | inl e ↦ inl (inl e)
    | inr later ↦ elim (Has-append x y xs later) [ inl m ↦ inl (inr m) | inr e ↦ inr e ]
  ]

  pub Has-append_left : (x y : A) (xs : List A) → Has x xs → Has x (xs ++ y ∷ [])
  Has-append_left x y [] h = absurd h
  Has-append_left x y (z ∷ xs) h = elim h [
    | inl e ↦ inl e
    | inr later ↦ inr (Has-append_left x y xs later)
  ]

  pub Has-append_last : (y : A) (xs : List A) → Has y (xs ++ y ∷ [])
  Has-append_last y [] = inl refl
  Has-append_last y (z ∷ xs) = inr (Has-append_last y xs)

-- What a pool holds after a post is what it held, or the reply that was posted.
pub post-cases :
    {R : Type 0} (i : ℕ) (n : ProposalNumber) (result : Result R) (pool : List (Reply R))
    (x : Reply R)
    → Has x (post i n result pool)
    → Has x pool
      ⊎ ((r : R) × (result ≡ ok r) × (x ≡ record { acceptor = i; proposal = n; reply = r }))
post-cases i n (ok r) pool x h = elim h [ inl e ↦ inr (r, refl, e) | inr old ↦ inl old ]
post-cases i n (err e) pool x h = inl h

pub Has-post :
    {R : Type 0} (i : ℕ) (n : ProposalNumber) (result : Result R) (pool : List (Reply R))
    (x : Reply R)
    → Has x pool
    → Has x (post i n result pool)
Has-post i n (ok r) pool x h = inr h
Has-post i n (err e) pool x h = h

-- A filled slot of a broadcast is the reply of one of the peers.
pub Has-map :
    {R : Type 0} (reply : ℕ → Option R) (peers : List ℕ) (r : R)
    → Has (some r) (map reply peers)
    → (i : ℕ) × (reply i ≡ some r)
Has-map reply [] r h = absurd h
Has-map reply (p ∷ peers) r h = elim h [
  | inl e ↦ (p, sym e)
  | inr later ↦ Has-map reply peers r later
]
