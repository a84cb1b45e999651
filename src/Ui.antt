-- ===== src/Ui.antt =====
-- pkg/ui/server.go: the requests that a node's interface handles, over the node and its fault
-- controller. The body of a request is what its JSON decodes to, if it does.
pub mod Requests
use interactive_paxos.Prelude.{
  ℕ, ℤ, pos, negsuc, suc, ◌+◌, ◌*◌, ◌-◌, wrap_int, Bool, not, Error, Result, ok, err, Option, none,
  some, String, List, [], ◌∷◌, if◌then◌else◌,
}
use interactive_paxos.Store.{Store}
use interactive_paxos.Node
use interactive_paxos.Node.{Node, Opening, Resetting, trigger_campaign, set_chaos}
use interactive_paxos.Fault
use interactive_paxos.Fault.{
  Floats, healthy, set_drop_rates, set_latency, set_isolated, set_blocked,
}
use interactive_paxos.Events.{Event, State, since, latest}

-- The routes under POST.
pub data Request (F : Type 0) : Type 0 where
  kill revive campaign reset heal toggle_chaos : Request F
  drop : Option (F × F) → Request F
  latency : Option (ℤ × ℤ) → Request F
  isolate : Option Bool → Request F
  peer : Option (ℤ × Bool) → Request F

-- A node with its fault controller.
pub record Served (F S : Type 0) : Type 0 where
  pub node : Node S
  pub faults : Fault.Config F

-- What closing the store, `Revive` and `Reset` meet while a request is handled.
pub record Outside : Type 0 where
  pub close_error : Option Error
  pub opening : Opening
  pub resetting : Resetting

abbrev pub no_content : ℕ
no_content = 204

abbrev pub bad_request : ℕ
bad_request = 400

abbrev pub conflict : ℕ
conflict = 409

abbrev pub internal_error : ℕ
internal_error = 500

-- `time.Duration(ms) * time.Millisecond`, as the machine computes it.
unfoldable pub milliseconds : ℤ → ℤ
unfolding wrap_int
milliseconds (pos n) = wrap_int (pos (n * 1_000_000))
milliseconds (negsuc n) = wrap_int (negsuc (n * 1_000_000 + 999_999))

module _ {F S : Type 0} where
  -- `http.Error` with this status after an error, and no content without one.
  abbrev pub answer : ℕ → Option Error × Node S → Served F S → ℕ × Served F S
  answer status (some e, n) s = (status, record s { node = n })
  answer status (none, n) s = (no_content, record s { node = n })

  abbrev with_faults : Served F S → Fault.Config F → ℕ × Served F S
  with_faults s faults = (no_content, record s { faults = faults })

  -- `decode`, and what follows it.
  abbrev decoded : {A : Type 0} → Option A → (A → Fault.Config F) → Served F S → ℕ × Served F S
  decoded none next s = (bad_request, s)
  decoded (some a) next s = with_faults s (next a)

  -- `handleKill`
  abbrev pub handle_kill : Outside → Served F S → ℕ × Served F S
  handle_kill o s = answer internal_error (Node.kill o.close_error s.node) s

  -- `handleCampaign`
  abbrev pub handle_campaign : Served F S → ℕ × Served F S
  handle_campaign s = (no_content, record s { node = trigger_campaign s.node })

  -- `handleChaosToggle`
  abbrev pub handle_chaos_toggle : Served F S → ℕ × Served F S
  handle_chaos_toggle s = (no_content, record s { node = set_chaos (not s.node.chaos) s.node })

  -- `handleLatency`
  abbrev pub handle_latency : Option (ℤ × ℤ) → Served F S → ℕ × Served F S
  handle_latency body s =
      decoded body (λ (low, high). set_latency (milliseconds low) (milliseconds high) s.faults) s

  -- `handleIsolate`
  abbrev pub handle_isolate : Option Bool → Served F S → ℕ × Served F S
  handle_isolate body s = decoded body (λ isolated. set_isolated isolated s.faults) s

  -- `handlePeer`
  abbrev pub handle_peer : Option (ℤ × Bool) → Served F S → ℕ × Served F S
  handle_peer body s = decoded body (λ (id, blocked). set_blocked id blocked s.faults) s

module _ {F : Type 0} (floats : Floats F) {S : Type 0} where
  -- `handleHeal`
  abbrev pub handle_heal : Served F S → ℕ × Served F S
  handle_heal s = with_faults s (healthy floats)

  -- `handleDrop`
  abbrev pub handle_drop : Option (F × F) → Served F S → ℕ × Served F S
  handle_drop body s =
      decoded body (λ (prepare, accept). set_drop_rates floats prepare accept s.faults) s

module _ {F S : Type 0} (ops : Store S) where
  -- `handleRevive`
  abbrev pub handle_revive : Outside → Served F S → ℕ × Served F S
  handle_revive o s =
      answer conflict
        (Node.unless_failed (Node.revive ops o.opening s.node) λ n. (none, trigger_campaign n)) s

  -- `handleReset`
  abbrev pub handle_reset : Outside → Served F S → ℕ × Served F S
  handle_reset o s = answer conflict (Node.reset ops o.resetting s.node) s

module _ {F S : Type 0} (floats : Floats F) (ops : Store S) where
  -- The handler of each route.
  unfoldable pub handle : Outside → Request F → Served F S → ℕ × Served F S
  handle o kill s = handle_kill o s
  handle o revive s = handle_revive ops o s
  handle o campaign s = handle_campaign s
  handle o reset s = handle_reset ops o s
  handle o heal s = handle_heal floats s
  handle o toggle_chaos s = handle_chaos_toggle s
  handle o (drop body) s = handle_drop floats body s
  handle o (latency body) s = handle_latency body s
  handle o (isolate body) s = handle_isolate body s
  handle o (peer body) s = handle_peer body s

  -- Requests one after the other, each with what it meets.
  unfoldable pub serve : List (Outside × Request F) → Served F S → Served F S
  unfolding handle
  serve [] s = s
  serve ((o, req) ∷ reqs) s = serve reqs (handle o req s).1

-- The answer to `GET /api/events`.
pub record EventBatch : Type 0 where
  pub latest : ℕ
  pub events : List Event

-- `handleEvents`; the query is what `since` parses to, `none` if it does not.
unfoldable pub handle_events : Option ℕ → State → Result EventBatch
handle_events none s = err (Error.new "since must be a number")
handle_events (some seq) s = ok (record { latest = latest s; events = since seq s })
