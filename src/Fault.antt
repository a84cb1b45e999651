-- ===== src/Fault.antt =====
-- pkg/fault/fault.go: peers that are cut off, slowed and made to lose messages. The controller's lock
-- makes each method one step. A `float64` is a parameter, with its constants and its comparison.
pub mod Gate
use interactive_paxos.Prelude.{
  ℕ, ℤ, pos, negsuc, Bool, true, false, ◌&&◌, ltb_ℤ, eqb_ℤ, add_int, sub_int, Result, ok, err,
  Error, new, wrap, Option, none, some, List, [], ◌∷◌, if◌then◌else◌,
}
use interactive_paxos.Messages.{PrepareRequest, PrepareResponse, AcceptRequest, AcceptResponse}

pub record Floats (F : Type 0) : Type 0 where
  pub zero_f : F
  pub one_f : F
  pub less_f : F → F → Bool

-- `Config`: the keys of the map `Blocked`, all of whose values are true.
pub record Config (F : Type 0) : Type 0 where
  pub drop_prepare : F
  pub drop_accept : F
  pub latency_min : ℤ
  pub latency_max : ℤ
  pub isolated : Bool
  pub blocked : List ℤ

abbrev pub err_unreachable : Error
err_unreachable = new "fault: peer unreachable"

abbrev pub is_blocked : ℤ → List ℤ → Bool
is_blocked id [] = false
is_blocked id (k ∷ keys) = if eqb_ℤ id k then true else is_blocked id keys

abbrev pub delete : ℤ → List ℤ → List ℤ
delete id [] = []
delete id (k ∷ keys) = let rest = delete id keys in if eqb_ℤ id k then rest else k ∷ rest

module _ {F : Type 0} where
  -- `SetLatency`
  unfoldable pub set_latency : ℤ → ℤ → Config F → Config F
  set_latency min_latency max_latency c =
      let low = if ltb_ℤ min_latency (pos 0) then pos 0 else min_latency in
      let high = if ltb_ℤ max_latency low then low else max_latency in
      record c { latency_min = low; latency_max = high }

  abbrev pub set_isolated : Bool → Config F → Config F
  set_isolated isolated c = record c { isolated = isolated }

  -- `SetBlocked`
  unfoldable pub set_blocked : ℤ → Bool → Config F → Config F
  set_blocked id true c = record c { blocked = id ∷ delete id c.blocked }
  set_blocked id false c = record c { blocked = delete id c.blocked }

module _ {F : Type 0} (floats : Floats F) where
  -- `clampRate`
  unfoldable pub clamp_rate : F → F
  clamp_rate r =
      if floats.less_f r floats.zero_f
      then floats.zero_f
      else if floats.less_f floats.one_f r
      then floats.one_f
      else r

  -- `SetDropRates`
  unfoldable pub set_drop_rates : F → F → Config F → Config F
  unfolding clamp_rate
  set_drop_rates prepare accept c = record c {
    drop_prepare = clamp_rate prepare;
    drop_accept = clamp_rate accept;
  }

  -- The configuration of `NewController`, and of `Heal`.
  abbrev pub healthy : Config F
  healthy = record {
    drop_prepare = floats.zero_f;
    drop_accept = floats.zero_f;
    latency_min = pos 0;
    latency_max = pos 0;
    isolated = false;
    blocked = [];
  }

  -- What the outside does in one call of `gate`: the random numbers, `int64n` at a positive bound only,
  -- and the error of the context if it ends during the wait.
  pub record Draws : Type 0 where
    pub float64 : F
    pub int64n : ℤ → ℤ
    pub done : Option Error

  -- The delay of `gate`.
  unfoldable pub delay : Draws → Config F → ℤ
  delay draws c =
      let span = sub_int c.latency_max c.latency_min in
      let late = add_int c.latency_min (draws.int64n span) in
      if ltb_ℤ (pos 0) c.latency_max
      then (if ltb_ℤ (pos 0) span then late else c.latency_min)
      else pos 0

  -- The wait of `gate`, and its last test.
  abbrev pub after_wait : Draws → F → Option Error
  after_wait draws rate =
      if floats.less_f floats.zero_f rate && floats.less_f draws.float64 rate
      then some (wrap "message to peer dropped" err_unreachable)
      else none

  unfoldable pub gate : Draws → ℤ → F → Config F → Option Error
  unfolding delay
  gate draws peer rate c =
      if c.isolated
      then some (wrap "node is isolated" err_unreachable)
      else if is_blocked peer c.blocked
      then some (wrap "link to peer is cut" err_unreachable)
      else if ltb_ℤ (pos 0) (delay draws c)
      then elim draws.done [ some e ↦ some e | none ↦ after_wait draws rate ]
      else after_wait draws rate

  module _ {S : Type 0} where
    -- `faultyPeer.Prepare` around a peer with a state. The rate is read before the gate.
    unfoldable pub faulty_prepare :
        Draws
        → ℤ
        → (before now : Config F) → (PrepareRequest → S → Result PrepareResponse × S)
        → PrepareRequest
        → S
        → Result PrepareResponse × S
    faulty_prepare draws id before now inner req s = elim (gate draws id before.drop_prepare now) [
      | some e ↦ (err e, s)
      | none ↦ inner req s
    ]

    -- `faultyPeer.Accept`
    unfoldable pub faulty_accept :
        Draws
        → ℤ
        → (before now : Config F) → (AcceptRequest → S → Result AcceptResponse × S)
        → AcceptRequest
        → S
        → Result AcceptResponse × S
    faulty_accept draws id before now inner req s = elim (gate draws id before.drop_accept now) [
      | some e ↦ (err e, s)
      | none ↦ inner req s
    ]
