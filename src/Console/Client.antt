-- ===== src/Console/Client.antt =====
-- pkg/console/client.go: the console's client of one node. What `http.Client.Do` brings, and what
-- waiting and telling do, are operations of a world, which changes with each of them.
use interactive_paxos.Prelude.{
  ℕ, ℤ, Bool, true, false, leb, ◌==◌, String, Error, new, Result, ok, err, Option, none, some,
  if◌then◌else◌,
}
use interactive_paxos.Ui.{
  Request, kill, revive, campaign, reset, heal, toggle_chaos, drop, latency, isolate, peer,
}
use interactive_paxos.Console.{Snapshot}

pub data StepKind : Type 0 where
  info action result warn failure : StepKind

-- `encode` is `json.Marshal` of a request's body, `send` is a POST to a node, with its status; `fetch` is the GET of its snapshot, with its status and
-- what the body decodes to. `now` reads the clock, `tick` waits for a ticker of 300 ms, `sleep` for
-- a time, both unless the context ends, and `step` tells a step of a scenario.
pub record World (F W : Type 0) : Type 0 where
  pub encode : Request F → Option Error
  pub send : ℤ → Request F → W → Result ℕ × W
  pub fetch : ℤ → W → Result (ℕ × Option (Snapshot F)) × W
  pub now : W → ℕ
  pub tick : W → Option Error × W
  pub sleep : ℤ → W → Option Error × W
  pub step : StepKind → String → W → W

-- A call that may fail.
abbrev pub Call : Type 0 → Type 0
Call W = W → Option Error × W

abbrev pub is_equal : Bool → Bool → Bool
is_equal true b = b
is_equal false b = if b then false else true

module _ {W : Type 0} where
  abbrev pub done : Call W
  done w = (none, w)

  infixl 5 ◌>>◌ ◌>>=◌
  -- `if err := ...; err != nil { return err }`, and what follows it.
  abbrev pub ◌>>◌ : Call W → Call W → Call W
  ◌>>◌ m k w = let (r, w') = m w in elim r [ some e ↦ (some e, w') | none ↦ k w' ]

  abbrev pub ◌>>=◌ : {A : Type 0} → (W → A × W) → (A → Call W) → Call W
  ◌>>=◌ m k w = let (a, w') = m w in k a w'

-- What `Snapshot` makes of the response: a status other than 200 is an error.
abbrev pub decode_snapshot : {F : Type 0} → Result (ℕ × Option (Snapshot F)) → Result (Snapshot F)
decode_snapshot (err e) = err e
decode_snapshot (ok (status, body)) =
    if status == 200
    then elim body [ none ↦ err (new "node: snapshot does not decode") | some s ↦ ok s ]
    else err (new "node: snapshot refused")

module _ {F W : Type 0} (world : World F W) where
  -- `post`: a status of 400 or more is an error.
  unfoldable pub post : ℤ → Request F → Call W
  post id req w = elim (world.encode req) [
    | some e ↦ (some e, w)
    | none ↦
        let (r, w') = world.send id req w in
        (
          elim r [
            | err e ↦ some e
            | ok status ↦ if leb 400 status then some (new "node: request refused") else none
          ],
          w',
        )
  ]

  -- `Snapshot`
  unfoldable pub snapshot : ℤ → W → Result (Snapshot F) × W
  snapshot id w = let (r, w') = world.fetch id w in (decode_snapshot r, w')

  abbrev pub kill_node : ℤ → Call W
  kill_node id = post id kill

  abbrev pub revive_node : ℤ → Call W
  revive_node id = post id revive

  abbrev pub reset_node : ℤ → Call W
  reset_node id = post id reset

  abbrev pub heal_node : ℤ → Call W
  heal_node id = post id heal

  abbrev pub campaign_node : ℤ → Call W
  campaign_node id = post id campaign

  abbrev pub drop_rates_of : F → F → ℤ → Call W
  drop_rates_of prepare accept id = post id (drop (some (prepare, accept)))

  abbrev pub latency_of : ℤ → ℤ → ℤ → Call W
  latency_of low high id = post id (latency (some (low, high)))

  abbrev pub isolated_of : Bool → ℤ → Call W
  isolated_of isolated id = post id (isolate (some isolated))

  abbrev pub blocked_of : ℤ → Bool → ℤ → Call W
  blocked_of peer_id blocked id = post id (peer (some (peer_id, blocked)))

  -- `SetChaos`: it reads the node's state, and toggles it if it is another.
  unfoldable pub chaos_of : Bool → ℤ → Call W
  unfolding snapshot post
  chaos_of enabled id w =
      let (r, w') = snapshot id w in
      elim r [
        | err e ↦ (some e, w')
        | ok s ↦ if is_equal s.chaos enabled then (none, w') else post id toggle_chaos w'
      ]
