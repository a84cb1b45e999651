-- ===== src/Console/Runs/Single.antt =====
-- At most one scenario runs at a time, and stopping cancels that one.
use mathlib.Core.Option.{some-injective}
use interactive_paxos.Prelude.{
  ℕ, suc, ◌<◌, ◌≡◌, refl, sym, ◌∙◌, ap, subst, ◌⊎◌, inl, inr, Bool, true, false, ◌==◌, some, none,
  String, [], ◌∷◌, Bool-cases, arith,
}
use interactive_paxos.Console.Client.{StepKind}
use interactive_paxos.Console.Runs.{
  err_running, Goroutine, RunState, RunStep, RunReach, at_start, goes_on, starts, tells, ends,
  stops, emits, subscribes, unsubscribes, set_goroutine, emit, run_step, start, end_run,
  stop_scenario,
}

-- What the state says of a goroutine: a scenario that has not ended is the running one, and the context
-- of `cancel` is its own.
pub record GoroutineFacts (s : RunState) (c : ℕ) (g : Goroutine) : Type 0 where
  pub own : g.context ≡ c
  pub known : c < s.made
  pub working : g.ended ≡ false → (s.running ≡ true) × (s.cancel ≡ some c)

abbrev pub IsSingle : RunState → Type 0
IsSingle s = (c : ℕ) (g : Goroutine) → s.goroutines c ≡ some g → GoroutineFacts s c g

set_goroutine-cases :
    (g : Goroutine) (s : RunState) (c : ℕ) (h : Goroutine)
    → (set_goroutine g s).goroutines c ≡ some h
    → ((c ≡ g.context) × (h ≡ g)) ⊎ (((c == g.context) ≡ false) × (s.goroutines c ≡ some h))
set_goroutine-cases g s c h e = elim (Bool-cases (c == g.context)) [
  | inl q ↦ inl (ground arith, ground arith)
  | inr q ↦ inr (q, ground arith)
]

module _ (s : RunState) (name : String) where
  start_busy : s.running ≡ true → start name s ≡ (some err_running, s)
  unfolding start
  start_busy e = rw e refl

  abbrev taken : RunState
  taken = record s {
    running = true;
    failed = false;
    scenario = name;
    steps = [];
    cancel = some s.made;
    made = suc s.made;
  }

  abbrev started : RunState
  started = set_goroutine (record { context = s.made; seq = 0; ended = false }) taken

  start_idle : s.running ≡ false → start name s ≡ (none, started)
  unfolding start
  start_idle e = rw e refl

module _ (s : RunState) (single : IsSingle s) where
  start-IsSingle : (name : String) → IsSingle (start name s).1
  start-IsSingle name = elim (Bool-cases s.running) [
    | inl busy ↦ subst (λ r. IsSingle r.1) (sym (start_busy s name busy)) single
    | inr idle ↦
        subst (λ r. IsSingle r.1) (sym (start_idle s name idle))
          λ c g e.
            elim (set_goroutine-cases (record { context = s.made; seq = 0; ended = false })
              (taken s name) c g e) [
                | inl (at, same) ↦ subst (GoroutineFacts _ c) (sym same) (record {
                  own = sym at;
                  known = omega (arith, at);
                  working = λ w. (refl, ap (some) (sym at));
                })
                | inr (apart, old) ↦
                    let facts = single c g old in
                    record {
                      own = facts.own;
                      known = omega (arith, facts.known);
                      working = λ w. absurd (ground (arith, (facts.working w).0, idle));
                    }
              ]
  ]

  tell-IsSingle :
      (kind : StepKind) (message : String) (g : Goroutine)
      → s.goroutines g.context ≡ some g
      → IsSingle (run_step kind message g s)
  unfolding run_step
  tell-IsSingle kind message g known c h e =
      elim (set_goroutine-cases (record g { seq = suc g.seq }) s c h e) [
        | inl (at, same) ↦ subst (GoroutineFacts _ c) (sym same) (record {
          own = sym at;
          known = subst (λ k. k < s.made) (sym at) (single g.context g known).known;
          working = λ w.
              subst (λ k. (s.running ≡ true) × (s.cancel ≡ some k)) (sym at)
                ((single g.context g known).working w);
        })
        | inr (_, old) ↦
            let facts = single c h old in
            record { own = facts.own; known = facts.known; working = facts.working }
      ]

  end-IsSingle :
      (g : Goroutine) (failed : Bool)
      → s.goroutines g.context ≡ some g
      → g.ended ≡ false
      → IsSingle (end_run failed g s)
  unfolding end_run
  end-IsSingle g failed known working c h e =
      elim (set_goroutine-cases (record g { ended = true }) s c h e) [
        | inl (at, same) ↦ subst (GoroutineFacts _ c) (sym same) (record {
          own = sym at;
          known = subst (λ k. k < s.made) (sym at) (single g.context g known).known;
          working = λ w. cc;
        })
        | inr (apart, old) ↦
            let facts = single c h old in
            record {
              own = facts.own;
              known = facts.known;
              working = λ w. absurd (
                  ground (
                    arith,
                    some-injective c g.context (
                        sym ((facts.working w).1) ∙ ((single g.context g known).working working).1),
                  ));
            }
      ]

-- A change of the other fields.
same-IsSingle :
    (s t : RunState)
    → t.goroutines ≡ s.goroutines
    → t.made ≡ s.made
    → t.running ≡ s.running
    → t.cancel ≡ s.cancel
    → IsSingle s
    → IsSingle t
same-IsSingle s t gs made running cancel single c g e =
    let facts = single c g (sym (ap (λ f. f c) gs) ∙ e) in
    record {
      own = facts.own;
      known = subst (λ n. c < n) (sym made) facts.known;
      working = λ w. (running ∙ (facts.working w).0, cancel ∙ (facts.working w).1);
    }

RunStep-IsSingle : {s t : RunState} → RunStep s t → IsSingle s → IsSingle t
unfolding emit stop_scenario
RunStep-IsSingle {s} (starts name) single = start-IsSingle s single name
RunStep-IsSingle {s} (tells g kind message known) single =
    tell-IsSingle s single kind message g known
RunStep-IsSingle {s} (ends g failed known working) single =
    end-IsSingle s single g failed known working
RunStep-IsSingle {s} {t} stops single = same-IsSingle s t refl refl refl refl single
RunStep-IsSingle {s} {t} (emits step) single = same-IsSingle s t refl refl refl refl single
RunStep-IsSingle {s} {t} subscribes single = same-IsSingle s t refl refl refl refl single
RunStep-IsSingle {s} {t} (unsubscribes k) single = same-IsSingle s t refl refl refl refl single

RunReach-IsSingle : {s t : RunState} → RunReach s t → IsSingle s → IsSingle t
RunReach-IsSingle at_start single = single
RunReach-IsSingle (goes_on r step) single = RunStep-IsSingle step (RunReach-IsSingle r single)

stop_cancels :
    (s : RunState) (c : ℕ) → s.cancel ≡ some c → (stop_scenario s).canceled ≡ c ∷ s.canceled
unfolding stop_scenario
stop_cancels s c e = rw e refl

-- However the console is asked to start and to stop scenarios, from a state without goroutines: two
-- scenarios that have not ended are one, which the state shows as running, and `handleStopScenario`
-- cancels its context, and no other.
pub one_scenario :
    {s t : RunState}
    → ((c : ℕ) → s.goroutines c ≡ none)
    → RunReach s t
    → (c k : ℕ) (g h : Goroutine) → t.goroutines c ≡ some g
    → t.goroutines k ≡ some h
    → g.ended ≡ false
    → h.ended ≡ false
    → (c ≡ k) × (t.running ≡ true) × ((stop_scenario t).canceled ≡ c ∷ t.canceled)
one_scenario {t = t} empty r c k g h e q working busy =
    let single = RunReach-IsSingle r (λ c g e. cc (empty c)) in
    let (running, own) = (single c g e).working working in
    (some-injective c k (sym own ∙ ((single k h q).working busy).1), running, stop_cancels t c own)
