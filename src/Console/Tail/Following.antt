-- ===== src/Console/Tail/Following.antt =====
-- Each event of a node is emitted once, in order.
use interactive_paxos.Prelude.{
  ℕ, suc, ◌+◌, ◌≤◌, ◌<◌, ◌^◌, ◌≡◌, refl, sym, ◌∙◌, ap, subst, inl, inr, false, ltb, List, [], ◌∷◌,
  ◌++◌, length, length-append, some, if◌then◌else◌, Bool-cases, arith,
}
use interactive_paxos.Events.{Event, State, publish, since}
use interactive_paxos.Events.Ring.{RunFrom, IsRing, publish-IsRing, since-RunFrom}
use interactive_paxos.Ui.{handle_events}
use interactive_paxos.Console.Tail.{
  highest_seq, follow_turn, Tail, ask, TailStep, publishes, asks, misses, TailReach, at_start,
  goes_on,
}

RunFrom-concat :
    (k : ℕ) (es fs : List Event) → RunFrom k es → RunFrom (k + length es) fs → RunFrom k (es ++ fs)
RunFrom-concat k [] fs run more =
    let e : k + 0 ≡ k = omega arith in subst (λ n. RunFrom n fs) e more
RunFrom-concat k (x ∷ es) fs run more =
    let e : k + suc (length es) ≡ suc k + length es = omega arith in
    (run.0, RunFrom-concat (suc k) es fs run.1 (subst (λ n. RunFrom n fs) e more))

-- The highest number of events in a run.
highest_run :
    (h k : ℕ) (es : List Event)
    → RunFrom (suc k) es
    → h ≤ k
    → 0 < length es
    → highest_seq h es ≡ k + length es
highest_run h k [] run low more = absurd (omega arith)
highest_run h k (e ∷ []) run low more = ground (arith, run.0)
highest_run h k (e ∷ f ∷ es) run low more =
    ap (λ n. highest_seq n (f ∷ es)) (above e.seq run.0)
    ∙ highest_run (suc k) (suc k) (f ∷ es) run.1 (omega arith) (omega arith)
    ∙ omega arith
  where
    above : (n : ℕ) → n ≡ suc k → (if ltb h n then n else h) ≡ suc k
    above n e = ground arith

-- What is known of a follower: it has emitted the events from 1 to the last one seen.
pub record IsFollowing (t : Tail) : Type 0 where
  pub ring : IsRing t.recorder
  pub behind : t.seen ≤ t.recorder.next
  pub run : RunFrom 1 t.emitted
  pub count : length t.emitted ≡ t.seen

module _ (t : Tail) (f : IsFollowing t) (few : t.recorder.next ≤ t.seen + t.recorder.limit) where
  abbrev fresh : List Event
  fresh = since t.seen t.recorder

  abbrev highest : ℕ
  highest = highest_seq 0 fresh

  turn :
      follow_turn (handle_events (some t.seen) t.recorder) t.seen
      ≡ (fresh, if ltb 0 highest then highest else t.seen)
  unfolding follow_turn handle_events
  turn =
      let answers : ltb t.recorder.next t.seen ≡ false = ground (arith, f.behind) in rw answers refl

  empty_highest : (es : List Event) → length es ≡ 0 → highest_seq 0 es ≡ 0
  empty_highest [] h = refl
  empty_highest (e ∷ es) h = absurd (omega arith)

  new_seen : (if ltb 0 highest then highest else t.seen) ≡ t.recorder.next
  new_seen =
      let (run, count) = since-RunFrom t.seen t.recorder f.ring f.behind few in
      elim (Bool-cases (ltb 0 (length fresh))) [
        | inl some_new ↦
            let top = highest_run 0 t.seen fresh run (omega arith) (ground arith) in
            ground (arith, f.behind)
        | inr none_new ↦
            let none_at = empty_highest fresh (ground arith) in ground (arith, f.behind)
      ]

  ask_state : ask t ≡ record t { seen = t.recorder.next; emitted = t.emitted ++ fresh }
  unfolding ask
  ask_state =
      ap (λ (r : List Event × ℕ). record t { seen = r.1; emitted = t.emitted ++ r.0 }) turn
      ∙ ap (λ n. record t { seen = n; emitted = t.emitted ++ fresh }) new_seen

  ask-IsFollowing : IsFollowing (ask t)
  ask-IsFollowing =
      let (run, count) = since-RunFrom t.seen t.recorder f.ring f.behind few in
      subst IsFollowing (sym ask_state) (record {
        ring = f.ring;
        behind = omega arith;
        run =
            RunFrom-concat 1 t.emitted fresh f.run
              (subst (λ n. RunFrom n fresh) (omega (arith, f.count)) run);
        count = omega (arith, length-append t.emitted fresh, f.count, f.behind);
      })

publish_next : (e : Event) (s : State) → s.next + 1 < 2 ^ 64 → (publish e s).next ≡ s.next + 1
unfolding publish
publish_next e s small = omega arith

TailStep-IsFollowing : {t u : Tail} → TailStep t u → IsFollowing t → IsFollowing u
TailStep-IsFollowing {t} (publishes e small) f = record {
  ring = publish-IsRing e t.recorder f.ring small;
  behind = omega (arith, publish_next e t.recorder small, f.behind);
  run = f.run;
  count = f.count;
}
TailStep-IsFollowing {t} (asks few) f = ask-IsFollowing t f few
TailStep-IsFollowing misses f = f

-- A follower that starts with an empty recorder, or goes on where it has emitted all it has seen: as
-- long as no more events than the ring holds come between two answers, and whatever turns fail, it
-- has emitted the events with the numbers from 1 to the last one it has seen, each once and in
-- order; and after a further answer it has emitted all.
pub TailReach-IsFollowing :
    {t u : Tail}
    → IsFollowing t
    → TailReach t u
    → u.recorder.next ≤ u.seen + u.recorder.limit
    → IsFollowing u × IsFollowing (ask u) × ((ask u).seen ≡ u.recorder.next)
TailReach-IsFollowing f r few =
    let g = follows f r in (g, ask-IsFollowing _ g few, ap (λ t. t.seen) (ask_state _ g few))
  where
    follows : {t u : Tail} → IsFollowing t → TailReach t u → IsFollowing u
    follows f at_start = f
    follows f (goes_on r step) = TailStep-IsFollowing step (follows f r)
