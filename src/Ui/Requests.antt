-- ===== src/Ui/Requests.antt =====
-- What any requests leave of a node and its fault controller.
use interactive_paxos.Prelude.{
  ℕ, ◌≡◌, refl, sym, subst, inl, inr, true, false, Option, none, some, Error, List, [], ◌∷◌, not,
  Bool-cases,
}
use interactive_paxos.Store.{Store}
use interactive_paxos.Node
use interactive_paxos.Node.{
  Node, NodeReach, at_start, goes_on, kills, revives, triggers, sets_chaos, resets,
  trigger_campaign, unless_failed,
}
use interactive_paxos.Node.Lifecycle.{IsConsistent, NodeReach-IsConsistent}
use interactive_paxos.Fault
use interactive_paxos.Fault.{
  Floats, clamp_rate, set_latency, set_drop_rates, healthy, set_isolated, set_blocked,
}
use interactive_paxos.Fault.Gate.{IsOrdered, set_latency-IsOrdered}
use interactive_paxos.Ui.{
  Request, kill, revive, campaign, reset, heal, toggle_chaos, drop, latency, isolate, peer, Served,
  Outside, answer, handle, serve, milliseconds,
}

-- What the code relies on of `float64`.
pub record IsFloats {F : Type 0} (floats : Floats F) : Type 0 where
  pub zero_zero : floats.less_f floats.zero_f floats.zero_f ≡ false
  pub one_one : floats.less_f floats.one_f floats.one_f ≡ false
  pub one_zero : floats.less_f floats.one_f floats.zero_f ≡ false

module _ {F : Type 0} (floats : Floats F) where
  -- A rate between 0 and 1.
  pub record IsRate (r : F) : Type 0 where
    pub low : floats.less_f r floats.zero_f ≡ false
    pub high : floats.less_f floats.one_f r ≡ false

  -- Faults as they may be set: rates between 0 and 1, latencies in order, from 0 on.
  pub record IsSound (c : Fault.Config F) : Type 0 where
    pub prepare : IsRate c.drop_prepare
    pub accept : IsRate c.drop_accept
    pub latency : IsOrdered c

  module _ (laws : IsFloats floats) where
    clamp_rate-IsRate : (r : F) → IsRate (clamp_rate floats r)
    unfolding clamp_rate
    clamp_rate-IsRate r = elim (Bool-cases (floats.less_f r floats.zero_f)) [
      | inl e ↦ rw e (record { low = laws.zero_zero; high = laws.one_zero })
      | inr e ↦ rw e (elim (Bool-cases (floats.less_f floats.one_f r)) [
        | inl q ↦ rw q (record { low = laws.one_zero; high = laws.one_one })
        | inr q ↦ rw q (record { low = e; high = q })
      ])
    ]

    pub healthy-IsSound : IsSound (healthy floats)
    healthy-IsSound = record {
      prepare = record { low = laws.zero_zero; high = laws.one_zero };
      accept = record { low = laws.zero_zero; high = laws.one_zero };
      latency = record { low = refl; high = refl };
    }

module _ {F S : Type 0} where
  answer-faults :
      (status : ℕ) (r : Option Error × Node S) (s : Served F S)
      → (answer status r s).1.faults ≡ s.faults
  answer-faults status (some e, n) s = refl
  answer-faults status (none, n) s = refl

  answer-node :
      (status : ℕ) (r : Option Error × Node S) (s : Served F S) → (answer status r s).1.node ≡ r.1
  answer-node status (some e, n) s = refl
  answer-node status (none, n) s = refl

module _ {F S : Type 0} (floats : Floats F) (laws : IsFloats floats) (ops : Store S) where
  handle-IsSound :
      (o : Outside) (req : Request F) (s : Served F S)
      → IsSound floats s.faults
      → IsSound floats (handle floats ops o req s).1.faults
  unfolding handle set_drop_rates set_latency set_blocked
  handle-IsSound o kill s h = subst (IsSound floats) (sym (answer-faults _ _ s)) h
  handle-IsSound o revive s h = subst (IsSound floats) (sym (answer-faults _ _ s)) h
  handle-IsSound o campaign s h = h
  handle-IsSound o reset s h = subst (IsSound floats) (sym (answer-faults _ _ s)) h
  handle-IsSound o heal s h = healthy-IsSound floats laws
  handle-IsSound o toggle_chaos s h = h
  handle-IsSound o (drop none) s h = h
  handle-IsSound o (drop (some (prepare, accept))) s h = record {
    prepare = clamp_rate-IsRate floats laws prepare;
    accept = clamp_rate-IsRate floats laws accept;
    latency = record { low = h.latency.low; high = h.latency.high };
  }
  handle-IsSound o (latency none) s h = h
  handle-IsSound o (latency (some (low, high))) s h = record {
    prepare = h.prepare;
    accept = h.accept;
    latency = set_latency-IsOrdered (milliseconds low) (milliseconds high) s.faults;
  }
  handle-IsSound o (isolate none) s h = h
  handle-IsSound o (isolate (some isolated)) s h = record {
    prepare = h.prepare;
    accept = h.accept;
    latency = record { low = h.latency.low; high = h.latency.high };
  }
  handle-IsSound o (peer none) s h = h
  handle-IsSound o (peer (some (id, true))) s h = record {
    prepare = h.prepare;
    accept = h.accept;
    latency = record { low = h.latency.low; high = h.latency.high };
  }
  handle-IsSound o (peer (some (id, false))) s h = record {
    prepare = h.prepare;
    accept = h.accept;
    latency = record { low = h.latency.low; high = h.latency.high };
  }

  -- A request is a step of the node's life, or two, or none.
  revived-NodeReach :
      (n : Node S) (o : Outside) (r : Option Error × Node S)
      → NodeReach ops n r.1
      → NodeReach ops n (unless_failed r (λ m. (none, trigger_campaign m))).1
  revived-NodeReach n o (some e, m) h = h
  revived-NodeReach n o (none, m) h = goes_on h triggers

  handle-NodeReach :
      (o : Outside) (req : Request F) (s : Served F S)
      → NodeReach ops s.node (handle floats ops o req s).1.node
  unfolding handle
  handle-NodeReach o kill s =
      subst (NodeReach ops s.node) (sym (answer-node _ _ s))
        (goes_on at_start (kills o.close_error))
  handle-NodeReach o revive s = subst (NodeReach ops s.node) (sym (answer-node _ _ s)) (
      revived-NodeReach s.node o (Node.revive ops o.opening s.node)
        (goes_on at_start (revives o.opening)))
  handle-NodeReach o campaign s = goes_on at_start triggers
  handle-NodeReach o reset s =
      subst (NodeReach ops s.node) (sym (answer-node _ _ s)) (goes_on at_start (resets o.resetting))
  handle-NodeReach o heal s = at_start
  handle-NodeReach o toggle_chaos s = goes_on at_start (sets_chaos (not s.node.chaos))
  handle-NodeReach o (drop none) s = at_start
  handle-NodeReach o (drop (some (prepare, accept))) s = at_start
  handle-NodeReach o (latency none) s = at_start
  handle-NodeReach o (latency (some (low, high))) s = at_start
  handle-NodeReach o (isolate none) s = at_start
  handle-NodeReach o (isolate (some isolated)) s = at_start
  handle-NodeReach o (peer none) s = at_start
  handle-NodeReach o (peer (some (id, blocked))) s = at_start

  -- Whatever requests a node's interface handles, bodies that do not decode and numbers that overflow
  -- included, and whatever fails in them: the node stays consistent, and the faults that are set
  -- have rates between 0 and 1 and latencies that are not negative and lie in order, if it is so at
  -- the start and comparison is irreflexive at 0 and 1 with 1 not below 0.
  pub serve-IsSound :
      (reqs : List (Outside × Request F)) (s : Served F S)
      → IsConsistent s.node
      → IsSound floats s.faults
      → IsConsistent (serve floats ops reqs s).node
        × IsSound floats (serve floats ops reqs s).faults
  unfolding serve
  serve-IsSound [] s c h = (c, h)
  serve-IsSound ((o, req) ∷ reqs) s c h =
      serve-IsSound reqs (handle floats ops o req s).1
        (NodeReach-IsConsistent ops c (handle-NodeReach o req s)) (handle-IsSound o req s h)
