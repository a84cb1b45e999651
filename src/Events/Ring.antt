-- ===== src/Events/Ring.antt =====
-- What a reader of the recorder can rely on.
use interactive_paxos.Prelude.{
  ℕ, ℤ, pos, negsuc, suc, ◌+◌, ◌-◌, ◌%◌, ◌^◌, ◌≤◌, ◌<◌, ◌≡◌, refl, sym, ◌∙◌, subst, ◌⊎◌, inl, inr,
  ltb, ◌==◌, length, length-append, List, [], ◌∷◌, ◌++◌, if◌then◌else◌, Bool-cases, arith,
}
use interactive_paxos.Events.{Event, State, new_recorder, drop_first, publish, since_loop, since}

-- The sequence numbers of the events go up by one from `k`.
abbrev pub RunFrom : ℕ → List Event → Type 0
RunFrom k [] = Unit
RunFrom k (e ∷ es) = (e.seq ≡ k) × RunFrom (suc k) es

-- The ring holds the last `limit` of all events, or all of them if there are fewer.
pub record IsRing (s : State) : Type 0 where
  pub start : ℕ
  pub run : RunFrom (suc start) s.ring
  pub last : start + length s.ring ≡ s.next
  pub keeps : (length s.ring ≡ s.limit) ⊎ (start ≡ 0)
  pub fits : length s.ring ≤ s.limit
  pub positive : 0 < s.limit

pub new_recorder-IsRing : (limit : ℤ) → IsRing (new_recorder limit)
unfolding new_recorder
new_recorder-IsRing (pos n) = record {
  start = 0;
  run = tt;
  last = omega arith;
  keeps = inr refl;
  fits = omega arith;
  positive = ground arith;
}
new_recorder-IsRing (negsuc n) = record {
  start = 0;
  run = tt;
  last = omega arith;
  keeps = inr refl;
  fits = omega arith;
  positive = omega arith;
}

RunFrom-append :
    (k : ℕ) (es : List Event) (e : Event)
    → RunFrom k es
    → e.seq ≡ k + length es
    → RunFrom k (es ++ e ∷ [])
RunFrom-append k [] e run h = (omega arith, tt)
RunFrom-append k (x ∷ es) e run h = (run.0, RunFrom-append (suc k) es e run.1 (omega arith))

length-drop_first : (es : List Event) → 0 < length es → length (drop_first es) + 1 ≡ length es
length-drop_first [] h = omega arith
length-drop_first (e ∷ es) h = omega arith

RunFrom-drop_first : (k : ℕ) (es : List Event) → RunFrom k es → RunFrom (suc k) (drop_first es)
RunFrom-drop_first k [] run = tt
RunFrom-drop_first k (e ∷ es) run = run.1

abbrev numbered : Event → State → Event
numbered e s = record e { seq = s.next + 1 }

publish_state :
    (e : Event) (s : State) (kept : List Event)
    → s.next + 1 < 2 ^ 64
    → (if length s.ring == s.limit then drop_first s.ring else s.ring) ≡ kept
    → publish e s ≡ record s { next = s.next + 1; ring = kept ++ numbered e s ∷ [] }
unfolding publish
publish_state e s kept small h =
    let number : (s.next + 1) % 2 ^ 64 ≡ s.next + 1 = omega arith in rw (h, number)

-- What is kept of the ring, and the new event after it.
push-IsRing :
    (e : Event) (s : State) (kept : List Event) (start : ℕ)
    → RunFrom (suc start) kept
    → start + length kept ≡ s.next
    → (length kept + 1 ≡ s.limit) ⊎ (start ≡ 0)
    → length kept + 1 ≤ s.limit
    → 0 < s.limit
    → IsRing (record s { next = s.next + 1; ring = kept ++ numbered e s ∷ [] })
push-IsRing e s kept start run last keeps fits positive =
    let more : length (kept ++ numbered e s ∷ []) ≡ length kept + 1 =
      length-append kept (numbered e s ∷ []) in
    record {
      start = start;
      run = RunFrom-append (suc start) kept (numbered e s) run (omega arith);
      last = omega (arith, more);
      keeps = elim keeps [ inl h ↦ inl (more ∙ h) | inr h ↦ inr h ];
      fits = omega (arith, more);
      positive = positive;
    }

-- Publishing keeps the ring what it is, as long as the counter does not wrap around: its sequence
-- numbers go up by one to the counter, and it holds the last `limit` events, or all there are.
pub publish-IsRing : (e : Event) (s : State) → IsRing s → s.next + 1 < 2 ^ 64 → IsRing (publish e s)
publish-IsRing e s h small = elim (Bool-cases (length s.ring == s.limit)) [
  | inl full ↦
      let all : length s.ring ≡ s.limit = ground arith in
      let one_less = length-drop_first s.ring (omega (arith, h.positive)) in
      subst IsRing (sym (publish_state e s (drop_first s.ring) small (rw full))) (
        push-IsRing e s (drop_first s.ring) (suc h.start)
          (RunFrom-drop_first (suc h.start) s.ring h.run) (omega (arith, h.last))
          (inl (omega arith)) (omega arith) h.positive)
  | inr room ↦
      let short : length s.ring < s.limit = ground (arith, h.fits) in
      subst IsRing (sym (publish_state e s s.ring small (rw room))) (
        push-IsRing e s s.ring h.start h.run h.last
          (elim h.keeps [ inl k ↦ absurd (omega arith) | inr z ↦ inr z ]) (omega arith) h.positive)
]

since_loop-all : (q a : ℕ) (es : List Event) → RunFrom (suc a) es → q ≤ a → since_loop q es ≡ es
unfolding since_loop
since_loop-all q a [] run h = refl
since_loop-all q a (e ∷ es) run h = ground (arith, since_loop-all q (suc a) es run.1)

since_loop-run :
    (q a : ℕ) (es : List Event)
    → RunFrom (suc a) es
    → a ≤ q
    → q ≤ a + length es
    → RunFrom (suc q) (since_loop q es) × (length (since_loop q es) ≡ a + length es - q)
unfolding since_loop
since_loop-run q a [] run h k = (tt, omega arith)
since_loop-run q a (e ∷ es) run h k = elim (Bool-cases (ltb a q)) [
  | inl above ↦
      let skip : since_loop q (e ∷ es) ≡ since_loop q es = ground (arith, run.0) in
      let (later, count) = since_loop-run q (suc a) es run.1 (ground arith) (omega arith) in
      subst (λ x. RunFrom (suc q) x × (length x ≡ a + suc (length es) - q)) (sym skip)
        (later, omega arith)
  | inr at ↦
      let same : a ≡ q = ground arith in
      let all = since_loop-all q a (e ∷ es) run (omega arith) in
      subst (λ x. RunFrom (suc q) x × (length x ≡ a + suc (length es) - q)) (sym all)
        (subst (λ b. RunFrom (suc b) (e ∷ es)) same run, omega arith)
]

-- A reader of a well-formed ring that asks for the events after a number `q` that has been given
-- gets exactly those from `q + 1` to the last one, in order, if there are at most `limit` of
-- them.
pub since-RunFrom :
    (q : ℕ) (s : State)
    → IsRing s
    → q ≤ s.next
    → s.next ≤ q + s.limit
    → RunFrom (suc q) (since q s) × (length (since q s) ≡ s.next - q)
since-RunFrom q s h seen few =
    let from : h.start ≤ q = elim h.keeps [
      | inl full ↦ omega (arith, h.last)
      | inr z ↦ omega arith
    ] in
    let (run, count) = since_loop-run q h.start s.ring h.run from (omega (arith, h.last)) in
    (run, omega (arith, h.last))
