-- ===== src/Commands/Console.antt =====
-- cmd/console/cli.go: what the console's command makes of its flags before it starts.
use interactive_paxos.Prelude.{
  ℤ, Bool, true, false, eqb_ℤ, String, Error, new, Result, ok, err, Option, none, some, List, [],
  ◌∷◌, if◌then◌else◌,
}
use interactive_paxos.Peers.{parse_peer, is_seen}
use interactive_paxos.Commands.{
  Texts, ◌>>=◌, first_error, parse_format, parse_level, failure_of, check_addr, check_specs,
}

-- `console`'s flags.
pub record ConsoleFlags : Type 0 where
  pub listen : String
  pub nodes : List String
  pub public : List String
  pub log_format : String
  pub log_level : String

pub record Target : Type 0 where
  pub id : ℤ
  pub addr : String
  pub public : String

abbrev lookup_addr : ℤ → List (ℤ × String) → Option String
lookup_addr id [] = none
lookup_addr id ((k, addr) ∷ rest) = if eqb_ℤ k id then some addr else lookup_addr id rest

module _ (texts : Texts) where
  -- The loop over `--node-public`: a later entry for an id stands in for an earlier one.
  unfoldable pub public_loop : List String → List (ℤ × String) → Result (List (ℤ × String))
  public_loop [] public = ok public
  public_loop (spec ∷ specs) public = elim (parse_peer texts.strings spec) [
    | err e ↦ err e
    | ok peer ↦ public_loop specs ((peer.id, peer.addr) ∷ public)
  ]

  abbrev pub public_of : ℤ → List (ℤ × String) → String
  public_of id public = elim (lookup_addr id public) [ none ↦ "" | some addr ↦ addr ]

  -- The loop over `--node`, with the keys of its map `seen`.
  unfoldable pub target_loop : List (ℤ × String) → List ℤ → List String → Result (List Target)
  target_loop public seen [] = ok []
  target_loop public seen (spec ∷ specs) = elim (parse_peer texts.strings spec) [
    | err e ↦ err e
    | ok peer ↦
        let rest = target_loop public (peer.id ∷ seen) specs in
        if is_seen peer.id seen then err (new "duplicate id") else elim rest [
          | err e ↦ err e
          | ok targets ↦ ok (
              record { id = peer.id; addr = peer.addr; public = public_of peer.id public }
              ∷ targets)
        ]
  ]

abbrev is_nil : List String → Bool
is_nil [] = true
is_nil (s ∷ ss) = false

-- The keys of the targets.
abbrev pub has_target : ℤ → List Target → Bool
has_target id [] = false
has_target id (t ∷ ts) = if eqb_ℤ id t.id then true else has_target id ts

-- The loop over the public addresses.
abbrev pub all_named : List (ℤ × String) → List Target → Bool
all_named [] targets = true
all_named ((id, addr) ∷ public) targets =
    let rest = all_named public targets in if has_target id targets then rest else false

module _ (texts : Texts) where
  -- The actions of the flags of `console`.
  abbrev pub console_checks : ConsoleFlags → List (Option Error)
  console_checks f =
      check_addr texts f.listen
      ∷ check_specs texts f.nodes
      ∷ check_specs texts f.public
      ∷ failure_of texts (parse_format texts f.log_format)
      ∷ failure_of texts (parse_level texts f.log_level)
      ∷ []

  -- `run` of `console`, up to `NewCluster`.
  unfoldable pub run_console : ConsoleFlags → Result (List Target)
  run_console f = do
    format ← parse_format texts f.log_format
    level ← parse_level texts f.log_level
    (if is_nil f.nodes then err (new "at least one --node is required") else (do
      public ← public_loop texts f.public []
      targets ← target_loop texts public [] f.nodes
      (if all_named public targets
          then ok targets
          else err (new "--node-public names a node that has no matching --node"))))

  -- The `console` command: the actions of its flags, and `run`.
  unfoldable pub console_command : ConsoleFlags → Result (List Target)
  unfolding run_console
  console_command f = elim (first_error (console_checks f)) [
    | some e ↦ err e
    | none ↦ run_console f
  ]
