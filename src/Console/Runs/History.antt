-- ===== src/Console/Runs/History.antt =====
-- The steps that are kept, and what a follower receives.
use interactive_paxos.Prelude.{
  ℕ, zero, suc, ◌+◌, ◌-◌, ◌≤◌, ◌≡◌, refl, sym, ◌∙◌, ap, subst, inl, inr, true, ltb, List, [], ◌∷◌,
  ◌++◌, length, length-append, drop, map, Has, Bool-cases, arith,
}
use interactive_paxos.Console.Runs.{
  Step, RunState, Subscriber, kept_steps, channel_size, offer, keep_last, emit,
}

-- Steps one after the other.
abbrev pub emit_all : List Step → RunState → RunState
emit_all [] s = s
emit_all (e ∷ es) s = emit_all es (emit e s)

module _ {A : Type 0} where
  drop-append : (k : ℕ) (xs ys : List A) → k ≤ length xs → drop k (xs ++ ys) ≡ drop k xs ++ ys
  drop-append zero xs ys h = refl
  drop-append (suc k) [] ys h = absurd (omega arith)
  drop-append (suc k) (x ∷ xs) ys h = drop-append k xs ys (omega arith)

  drop-empty : (k : ℕ) → ◌≡◌ {A = List A} (drop k []) []
  drop-empty zero = refl
  drop-empty (suc k) = refl

  drop-drop : (j k : ℕ) (xs : List A) → drop j (drop k xs) ≡ drop (k + j) xs
  drop-drop j zero xs = let e : j ≡ 0 + j = omega arith in ap (λ m. drop m xs) e
  drop-drop j (suc k) [] = drop-empty j ∙ sym (drop-empty (suc k + j))
  drop-drop j (suc k) (x ∷ xs) =
      let e : suc (k + j) ≡ suc k + j = omega arith in
      drop-drop j k xs ∙ ap (λ m. drop m (x ∷ xs)) e

  length-drop : (k : ℕ) (xs : List A) → length (drop k xs) ≡ length xs - k
  length-drop zero xs = omega arith
  length-drop (suc k) [] = omega arith
  length-drop (suc k) (x ∷ xs) = omega (arith, length-drop k xs)

  keep_last-drop : (n : ℕ) (xs : List A) → keep_last n xs ≡ drop (length xs - n) xs
  unfolding keep_last
  keep_last-drop n xs = elim (Bool-cases (ltb n (length xs))) [
    | inl e ↦ rw e refl
    | inr e ↦
        let none_left : 0 ≡ length xs - n = ground arith in rw e (ap (λ m. drop m xs) none_left)
  ]

  -- What is kept of a list is enough to know what is kept of a longer one.
  keep_last-append :
      (n : ℕ) (xs ys : List A) → keep_last n (keep_last n xs ++ ys) ≡ keep_last n (xs ++ ys)
  keep_last-append n xs ys =
      let k = length xs - n in
      let e : length (drop k xs ++ ys) ≡ length xs - k + length ys =
        length-append (drop k xs) ys ∙ ap (λ m. m + length ys) (length-drop k xs) in
      let count : k + (length (drop k xs ++ ys) - n) ≡ length (xs ++ ys) - n =
        omega (arith, length-append xs ys) in
      ap (λ l. keep_last n (l ++ ys)) (keep_last-drop n xs)
      ∙ keep_last-drop n (drop k xs ++ ys)
      ∙ ap (drop (length (drop k xs ++ ys) - n)) (sym (drop-append k xs ys (omega arith)))
      ∙ drop-drop (length (drop k xs ++ ys) - n) k (xs ++ ys)
      ∙ ap (λ m. drop m (xs ++ ys)) count
      ∙ sym (keep_last-drop n (xs ++ ys))

  append_one : (xs : List A) (y : A) (ys : List A) → (xs ++ y ∷ []) ++ ys ≡ xs ++ y ∷ ys
  append_one [] y ys = refl
  append_one (x ∷ xs) y ys = ap (λ r. x ∷ r) (append_one xs y ys)

  append_nil : (xs : List A) → xs ++ [] ≡ xs
  append_nil [] = refl
  append_nil (x ∷ xs) = ap (λ r. x ∷ r) (append_nil xs)

  keep_last-few : (n : ℕ) (xs : List A) → length xs ≤ n → keep_last n xs ≡ xs
  keep_last-few n xs h =
      let none_left : length xs - n ≡ 0 = omega arith in
      keep_last-drop n xs ∙ ap (λ m. drop m xs) none_left

  length-keep_last : (n : ℕ) (xs : List A) → length (keep_last n xs) ≤ n
  length-keep_last n xs =
      omega (arith, ap (length) (keep_last-drop n xs), length-drop (length xs - n) xs)

-- Whatever steps are told, the state keeps the last 500 of those it had and of all of them, if it had
-- no more than 500.
pub steps_kept :
    (es : List Step) (s : RunState)
    → length s.steps ≤ kept_steps
    → (emit_all es s).steps ≡ keep_last kept_steps (s.steps ++ es)
unfolding emit
steps_kept [] s h =
    sym (keep_last-few kept_steps s.steps h) ∙ ap (keep_last kept_steps) (sym (append_nil s.steps))
steps_kept (e ∷ es) s h =
    steps_kept es (emit e s) (length-keep_last kept_steps (s.steps ++ e ∷ []))
    ∙ keep_last-append kept_steps (s.steps ++ e ∷ []) es
    ∙ ap (keep_last kept_steps) (append_one s.steps e es)

Has-map_offer :
    (e : Step) (sub : Subscriber) (subs : List Subscriber)
    → Has sub subs
    → Has (offer e sub) (map (offer e) subs)
Has-map_offer e sub [] h = absurd h
Has-map_offer e sub (x ∷ subs) h = elim h [
  | inl q ↦ inl (ap (offer e) q)
  | inr later ↦ inr (Has-map_offer e sub subs later)
]

abbrev with_channel : Subscriber → List Step → Subscriber
with_channel sub es = record sub { channel = es }

-- A follower whose channel has room for them receives all steps that are told, in order, whatever
-- the other followers do with theirs.
pub follower_receives :
    (es : List Step) (s : RunState) (sub : Subscriber)
    → Has sub s.subs
    → length sub.channel + length es ≤ channel_size
    → Has (with_channel sub (sub.channel ++ es)) (emit_all es s).subs
unfolding emit
follower_receives [] s sub m h =
    subst (λ l. Has (with_channel sub l) s.subs) (sym (append_nil sub.channel)) m
follower_receives (e ∷ es) s sub m h =
    let room : ltb (length sub.channel) channel_size ≡ true = ground arith in
    let offered : offer e sub ≡ with_channel sub (sub.channel ++ e ∷ []) = rw room refl in
    subst (λ l. Has (with_channel sub l) (emit_all es (emit e s)).subs)
      (append_one sub.channel e es)
      (follower_receives es (emit e s) (with_channel sub (sub.channel ++ e ∷ []))
        (subst (λ x. Has x (emit e s).subs) offered (Has-map_offer e sub s.subs m))
        (omega (arith, length-append sub.channel (e ∷ []))))
