-- ===== src/Commands.antt =====
-- cmd/node/cli.go and the formats of pkg/logging/logging.go: what the node's command makes of its
-- flags before it starts. The packages strings, strconv, net and log/slog are
-- parameters. A flag's check accepts the flag's default, so that all checks may be made.
pub mod Checked
pub mod Console
pub mod Targets
use interactive_paxos.Prelude.{
  ℕ, ℤ, pos, negsuc, ◌-◌, ◌^◌, Bool, true, false, leb_ℤ, ltb_ℤ, eqb_ℤ, String, Error, new, wrap,
  Result, ok, err, Option, none, some, List, [], ◌∷◌, if◌then◌else◌,
}
use interactive_paxos.Proposer.Config.{ProposerConfig}
use interactive_paxos.Peers.{Strings, Peer, parse_peer, parse_peers, is_seen}

-- Besides those of `ParsePeer`: `strings.ToLower`, `==` of strings, `net.SplitHostPort` and
-- `Level.UnmarshalText`.
pub record Texts : Type 0 where
  pub strings : Strings
  pub lower : String → String
  pub same : String → String → Bool
  pub host_port : String → Option Error
  pub level : String → Result ℤ

pub data Format : Type 0 where
  auto json text console : Format

-- `node`'s flags; `value` is `none` where the flag is not set.
pub record NodeFlags : Type 0 where
  pub id : ℤ
  pub listen : String
  pub ui_listen : String
  pub event_buffer : ℤ
  pub chaos : Bool
  pub chaos_min : ℤ
  pub chaos_max : ℤ
  pub data_dir : String
  pub store_timeout : ℤ
  pub peers : List String
  pub value : Option ℕ
  pub campaign : Bool
  pub campaign_delay : ℤ
  pub campaign_jitter : ℤ
  pub round_timeout : ℤ
  pub min_backoff : ℤ
  pub max_backoff : ℤ
  pub log_format : String
  pub log_level : String

-- What `node` starts with.
pub record NodeSettings : Type 0 where
  pub id : ℤ
  pub value : ℕ
  pub peers : List Peer
  pub campaign : Bool
  pub proposer : ProposerConfig
  pub chaos : Option (ℤ × ℤ)

infixl 5 ◌>>=◌
abbrev pub ◌>>=◌ : {A B : Type 0} → Result A → (A → Result B) → Result B
ok a >>= f = f a
err e >>= f = err e

-- `uint64(id)`
abbrev pub to_uint : ℤ → ℕ
to_uint (pos n) = n
to_uint (negsuc n) = 2 ^ 64 - 1 - n

-- `mustBePositive`
abbrev pub must_be_positive : String → ℤ → Option Error
must_be_positive name d =
    if leb_ℤ d (pos 0) then some (wrap name (new "must be greater than zero")) else none

-- `mustNotBeNegative`
abbrev pub must_not_be_negative : String → ℤ → Option Error
must_not_be_negative name d =
    if ltb_ℤ d (pos 0) then some (wrap name (new "must not be negative")) else none

-- The first error of some checks.
abbrev pub first_error : List (Option Error) → Option Error
first_error [] = none
first_error (some e ∷ checks) = some e
first_error (none ∷ checks) = first_error checks

module _ (texts : Texts) where
  abbrev is_blank : String → Bool
  is_blank s = texts.strings.is_empty (texts.strings.trim s)

  -- `ParseFormat`
  unfoldable pub parse_format : String → Result Format
  parse_format s =
      let word = texts.lower (texts.strings.trim s) in
      if texts.same word "auto"
      then ok auto
      else if texts.same word "json"
      then ok json
      else if texts.same word "text"
      then ok text
      else if texts.same word "console"
      then ok console
      else err (new "unknown log format")

  -- `ParseLevel`
  abbrev pub parse_level : String → Result ℤ
  parse_level s = elim (texts.level (texts.strings.trim s)) [
    | err e ↦ err (new "unknown log level")
    | ok level ↦ ok level
  ]

  abbrev pub failure_of : {A : Type 0} → Result A → Option Error
  failure_of (ok a) = none
  failure_of (err e) = some e

  -- The check of `--listen`, and of `--ui-listen` where it is not blank.
  abbrev pub check_addr : String → Option Error
  check_addr addr = elim (texts.host_port addr) [
    | none ↦ none
    | some e ↦ some (wrap "not a valid host:port" e)
  ]

  -- The check of a list of peer specifications.
  abbrev pub check_specs : List String → Option Error
  check_specs [] = none
  check_specs (spec ∷ specs) = elim (parse_peer texts.strings spec) [
    | err e ↦ some e
    | ok p ↦ check_specs specs
  ]

  -- The actions of the flags of `node`.
  abbrev pub node_checks : NodeFlags → List (Option Error)
  node_checks f =
      (if ltb_ℤ f.id (pos 0) then some (new "--id must be non-negative") else none)
      ∷ (if is_blank f.listen then some (new "--listen must not be empty") else check_addr f.listen)
      ∷ (if is_blank f.ui_listen then none else check_addr f.ui_listen)
      ∷ must_be_positive "event-buffer" f.event_buffer
      ∷ must_be_positive "chaos-min" f.chaos_min
      ∷ must_be_positive "chaos-max" f.chaos_max
      ∷ (if is_blank f.data_dir then some (new "--data-dir must not be empty") else none)
      ∷ must_be_positive "store-timeout" f.store_timeout
      ∷ check_specs f.peers
      ∷ must_not_be_negative "campaign-delay" f.campaign_delay
      ∷ must_not_be_negative "campaign-jitter" f.campaign_jitter
      ∷ must_be_positive "round-timeout" f.round_timeout
      ∷ must_be_positive "min-backoff" f.min_backoff
      ∷ must_be_positive "max-backoff" f.max_backoff
      ∷ failure_of (parse_format f.log_format)
      ∷ failure_of (parse_level f.log_level)
      ∷ []

  -- `run` of `node`, up to `node.New`.
  unfoldable pub run_node : NodeFlags → Result NodeSettings
  run_node f = do
    format ← parse_format f.log_format
    level ← parse_level f.log_level
    peers ← parse_peers texts.strings f.peers f.id
    (if ltb_ℤ f.max_backoff f.min_backoff
        then err (new "--max-backoff must be at least --min-backoff")
        else if ltb_ℤ f.chaos_max f.chaos_min
        then err (new "--chaos-max must be at least --chaos-min")
        else ok (record {
          id = f.id;
          value = elim f.value [ some v ↦ v | none ↦ to_uint f.id ];
          peers = peers;
          campaign = f.campaign;
          proposer = record {
            round_timeout = f.round_timeout;
            min_backoff = f.min_backoff;
            max_backoff = f.max_backoff;
          };
          chaos = if f.chaos then some (f.chaos_min, f.chaos_max) else none;
        }))

  -- The `node` command: the actions of its flags, and `run`.
  unfoldable pub node_command : NodeFlags → Result NodeSettings
  unfolding run_node
  node_command f = elim (first_error (node_checks f)) [ some e ↦ err e | none ↦ run_node f ]
