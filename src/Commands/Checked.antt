-- ===== src/Commands/Checked.antt =====
-- What `node` starts with is in order.
use mathlib.Core.Option.{some-injective}
use interactive_paxos.Prelude.{
  ℕ, ℤ, pos, negsuc, ◌≡◌, refl, sym, ◌∙◌, subst, inl, inr, Bool, true, false, leb_ℤ, ltb_ℤ, String,
  Error, new, Result, ok, err, Option, none, some, List, [], ◌∷◌, length, if◌then◌else◌,
  Option-cases, arith,
}
use interactive_paxos.Proposer.Config.{with_defaults}
use interactive_paxos.Peers.{Peer, parse_peers, AreDistinct, parse_peers_distinct}
use interactive_paxos.Commands.{
  Texts, NodeFlags, NodeSettings, ◌>>=◌, must_be_positive, first_error, parse_format, parse_level,
  node_checks, run_node, node_command, to_uint,
}

pub bind_ok :
    {A B : Type 0} (r : Result A) (f : A → Result B) (b : B)
    → (r >>= f) ≡ ok b
    → (a : A) × (r ≡ ok a) × (f a ≡ ok b)
bind_ok (ok a) f b h = (a, refl, h)
bind_ok (err e) f b h = cc

abbrev AllPass : List (Option Error) → Type 0
AllPass [] = Unit
AllPass (c ∷ cs) = (c ≡ none) × AllPass cs

first_error-AllPass : (cs : List (Option Error)) → first_error cs ≡ none → AllPass cs
first_error-AllPass [] h = tt
first_error-AllPass (some e ∷ cs) h = cc
first_error-AllPass (none ∷ cs) h = (refl, first_error-AllPass cs h)

positive : (name : String) (d : ℤ) → must_be_positive name d ≡ none → leb_ℤ d (pos 0) ≡ false
positive name d h = ground arith

not_negative :
    (id : ℤ)
    → (if ltb_ℤ id (pos 0) then some (new "--id must be non-negative") else none) ≡ none
    → ltb_ℤ id (pos 0) ≡ false
not_negative id h = ground arith

default_value :
    (value : Option ℕ) (id : ℤ)
    → value ≡ none
    → ltb_ℤ id (pos 0) ≡ false
    → pos (elim value [ some v ↦ v | none ↦ to_uint id ]) ≡ id
default_value none (pos n) e h = refl
default_value none (negsuc n) e h = cc
default_value (some v) id e h = cc

chaos_interval :
    (chaos : Bool) (low high : ℤ)
    → leb_ℤ low (pos 0) ≡ false
    → ltb_ℤ high low ≡ false
    → (a b : ℤ) → if◌then◌else◌ {A = Option (ℤ × ℤ)} chaos (some (low, high)) none ≡ some (a, b)
    → (leb_ℤ a (pos 0) ≡ false) × (ltb_ℤ b a ≡ false)
chaos_interval true low high p q a b h =
    let same : (low, high) ≡ (a, b) = some-injective {A = ℤ × ℤ} (low, high) (a, b) h in
    subst (λ r. (leb_ℤ r.0 (pos 0) ≡ false) × (ltb_ℤ r.1 r.0 ≡ false)) same (p, q)
chaos_interval false low high p q a b h = cc

-- What the settings of a node satisfy.
pub record IsReady (texts : Texts) (f : NodeFlags) (s : NodeSettings) : Type 0 where
  pub own_id : s.id ≡ f.id
  pub id : ltb_ℤ s.id (pos 0) ≡ false
  pub peers : AreDistinct texts.strings s.id [] s.peers
  pub all_peers : length s.peers ≡ length f.peers
  pub proposer : with_defaults s.proposer ≡ s.proposer
  pub default : f.value ≡ none → pos s.value ≡ s.id
  pub chaos :
      (low high : ℤ)
      → s.chaos ≡ some (low, high)
      → (leb_ℤ low (pos 0) ≡ false) × (ltb_ℤ high low ≡ false)

module _ (texts : Texts) (f : NodeFlags) (s : NodeSettings) where
  abbrev settings : List Peer → NodeSettings
  settings peers = record {
    id = f.id;
    value = elim f.value [ some v ↦ v | none ↦ to_uint f.id ];
    peers = peers;
    campaign = f.campaign;
    proposer = record {
      round_timeout = f.round_timeout;
      min_backoff = f.min_backoff;
      max_backoff = f.max_backoff;
    };
    chaos = if f.chaos then some (f.chaos_min, f.chaos_max) else none;
  }

  ran :
      run_node texts f ≡ ok s
      → (peers : List Peer) × (parse_peers texts.strings f.peers f.id ≡ ok peers)
        × (ltb_ℤ f.max_backoff f.min_backoff ≡ false)
        × (ltb_ℤ f.chaos_max f.chaos_min ≡ false)
        × (settings peers ≡ s)
  unfolding run_node
  ran h =
      let (format, _, h1) = bind_ok (parse_format texts f.log_format) _ s h in
      let (level, _, h2) = bind_ok (parse_level texts f.log_level) _ s h1 in
      let (peers, e, h3) = bind_ok (parse_peers texts.strings f.peers f.id) _ s h2 in
      (peers, e, ground arith, ground arith, ground arith)

  defaults_kept :
      (round low high : ℤ)
      → leb_ℤ round (pos 0) ≡ false
      → leb_ℤ low (pos 0) ≡ false
      → ltb_ℤ high low ≡ false
      → with_defaults (record { round_timeout = round; min_backoff = low; max_backoff = high })
        ≡ record { round_timeout = round; min_backoff = low; max_backoff = high }
  unfolding with_defaults
  defaults_kept round low high h k l = rw (h, k, l) refl

  checked : node_command texts f ≡ ok s → AllPass (node_checks texts f) × (run_node texts f ≡ ok s)
  unfolding node_command
  checked h = elim (Option-cases (first_error (node_checks texts f))) [
    | inl e ↦ (first_error-AllPass (node_checks texts f) e, sym (passed e) ∙ h)
    | inr (x, e) ↦ absurd (failing x e)
  ]
    where
      passed : first_error (node_checks texts f) ≡ none → node_command texts f ≡ run_node texts f
      passed e = rw (node_command, e) refl

      failing : (x : Error) → first_error (node_checks texts f) ≡ some x → ⊥
      failing x e =
          let r : node_command texts f ≡ err x = rw (node_command, e) refl in cc (sym r ∙ h)

  -- If the command accepts its flags, the node starts with an id that is not negative and the peers of
  -- all specifications, which are distinct and other than the node; with timeouts and backoffs that
  -- `withDefaults` leaves as they are; with its id as its value, where none is given; and if chaos
  -- is on, with a least interval above 0 and a greatest that is not below it.
  pub node_command-IsReady : node_command texts f ≡ ok s → IsReady texts f s
  node_command-IsReady h =
      let (pass, r) = checked h in
      let (peers, e, backoffs, intervals, same) = ran r in
      let (distinct, count) = parse_peers_distinct texts.strings f.peers f.id peers e in
      let id : ltb_ℤ f.id (pos 0) ≡ false = not_negative f.id pass.0 in
      let low = positive "chaos-min" f.chaos_min pass.1.1.1.1.0 in
      let round = positive "round-timeout" f.round_timeout pass.1.1.1.1.1.1.1.1.1.1.1.0 in
      let backoff = positive "min-backoff" f.min_backoff pass.1.1.1.1.1.1.1.1.1.1.1.1.0 in
      subst (IsReady texts f) same (record {
        own_id = refl;
        id = id;
        peers = distinct;
        all_peers = count;
        proposer = defaults_kept f.round_timeout f.min_backoff f.max_backoff round backoff backoffs;
        default = λ none_given. default_value f.value f.id none_given id;
        chaos = λ a b q. chaos_interval f.chaos f.chaos_min f.chaos_max low intervals a b q;
      })
