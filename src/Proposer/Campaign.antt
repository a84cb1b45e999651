-- ===== src/Proposer/Campaign.antt =====
-- `Proposer.Campaign` of pkg/paxos/proposer.go: rounds of `Propose` with backoff between them.
use interactive_paxos.Prelude.{ℤ, Option, none, some, List, [], ◌∷◌, Error}
use interactive_paxos.Proposer.{Proposer, Round, propose, fast_forward}
use interactive_paxos.Proposer.Config.{next_backoff}
use interactive_paxos.Proposer.Outcome.{
  Attempt, Outcome, chosen, aborted, prepare_failed, accept_failed, unknown,
}

-- One turn of the loop as the outside has it: the round, what `ctx.Err()` is when the round has been
-- aborted, and its error if the context ends during the wait.
pub record Turn (P : Type 0) : Type 0 where
  pub round : Round P
  pub ctx_err : Option Error
  pub done : Option Error

-- `Campaign` returns an attempt with an error, if there is one, or it is still in its loop.
pub data Campaign (P : Type 0) : Type 0 where
  returns : Attempt → Option Error → Proposer P → Campaign P
  continues : Proposer P → ℤ → Campaign P

-- What `Campaign` tests of an outcome.
pub data Verdict : Type 0 where
  won given_up lost : Verdict

abbrev pub verdict : Outcome → Verdict
verdict chosen = won
verdict aborted = given_up
verdict prepare_failed = lost
verdict accept_failed = lost
verdict unknown = lost

module _ {P : Type 0} where
  -- The loop over the turns, with the backoff of the next wait.
  unfoldable pub campaign_loop : List (Turn P) → Proposer P → ℤ → Campaign P
  campaign_loop [] p backoff = continues p backoff
  campaign_loop (turn ∷ turns) p backoff =
      let (attempt, p') = propose p turn.round in
      let p'' = fast_forward attempt.highest_seen p' in
      let rest = campaign_loop turns p'' (next_backoff p.cfg backoff) in
      elim (verdict attempt.outcome) [
        | won ↦ returns attempt none p'
        | given_up ↦ returns attempt turn.ctx_err p'
        | lost ↦ elim turn.done [ some e ↦ returns attempt (some e) p'' | none ↦ rest ]
      ]

  abbrev pub campaign : List (Turn P) → Proposer P → Campaign P
  campaign turns p = campaign_loop turns p p.cfg.min_backoff
