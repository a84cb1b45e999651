-- ===== src/Proposer.antt =====
-- pkg/paxos/proposer.go, with the broadcasts of prepare.go and accept.go. The calls to the peers
-- and the context are arguments: what each peer answers, and why the context ended, if it did.
pub mod Config
pub mod Outcome
pub mod Tally
pub mod Campaign
pub mod Progress
use interactive_paxos.Prelude.{
  ℕ, ℤ, pos, ltb_ℤ, ltb, add_int, length, map, Bool, Error, Option, none, some, List, [], ◌∷◌,
  if◌then◌else◌,
}
use interactive_paxos.Quorum.{quorum_of}
use interactive_paxos.Proposal.{ProposalNumber, max_proposal}
use interactive_paxos.Messages.{PrepareResponse, AcceptResponse}
use Config.{ProposerConfig, with_defaults, next_backoff}
use Outcome.{Attempt, empty_attempt, chosen, aborted, prepare_failed, accept_failed}
use Tally.{PrepareTally, count_promises, no_promises, AcceptResult, count_accepts, no_accepts}

-- `P` is a handle of a peer. The lock makes each method below, down to `fast_forward`, one step.
pub record Proposer (P : Type 0) : Type 0 where
  pub id : ℤ
  pub value : ℕ
  pub cfg : ProposerConfig
  pub round : ℤ
  pub peers : List P

-- context.Cause: this round's own timeout, or what the caller gave up for.
pub data Cause : Type 0 where
  round_timeout : Cause
  caller : Error → Cause

unfoldable pub abandoned_by : Option Cause → Option Error
abandoned_by none = none
abandoned_by (some round_timeout) = none
abandoned_by (some (caller e)) = some e

-- What `Propose` does when phase 1 is over: it returns, or it goes on to phase 2.
pub data Prepared : Type 0 where
  stop : Attempt → Prepared
  proceed : Attempt → Prepared

-- `Proposer.abort`, less its logging.
abbrev pub abort : Attempt → Attempt
abort attempt = record attempt { outcome = aborted }

-- The attempt as `Propose` has it after phase 1, before its tests.
abbrev pub prepared_attempt : ProposalNumber → ℕ → PrepareTally → Attempt
prepared_attempt proposal quorum prepared = record empty_attempt {
  proposal = proposal;
  quorum = quorum;
  promises = prepared.promises_received;
  value = prepared.value;
  has_adopted_peer_value = prepared.has_adopted_peer_value;
  highest_seen = prepared.highest_proposal_number_seen;
}

unfoldable pub after_prepare : ProposalNumber → ℕ → PrepareTally → Option Cause → Prepared
unfolding abandoned_by
after_prepare proposal quorum prepared cause =
    let attempt = prepared_attempt proposal quorum prepared in
    elim (abandoned_by cause) [
      | some e ↦ stop (abort attempt)
      | none ↦
          if ltb attempt.promises quorum
          then stop (record attempt { outcome = prepare_failed })
          else proceed attempt
    ]

unfoldable pub after_accept : Attempt → AcceptResult → Option Cause → Attempt
unfolding abandoned_by
after_accept prepared accepted cause =
    let attempt = record prepared {
      accepts = accepted.accepted_count;
      highest_seen = max_proposal prepared.highest_seen accepted.highest_proposal_number_seen;
    } in
    if ltb attempt.accepts attempt.quorum
    then elim (abandoned_by cause) [
      | some e ↦ abort attempt
      | none ↦ record attempt { outcome = accept_failed }
    ]
    else record attempt { outcome = chosen }

-- What the outside does to one call of `Propose`.
pub record Round (P : Type 0) : Type 0 where
  pub ctx_err : Option Error
  pub prepare_reply : P → Option PrepareResponse
  pub prepare_cause : Option Cause
  pub accept_reply : P → Option AcceptResponse
  pub accept_cause : Option Cause

module _ {P : Type 0} where
  unfoldable pub new_proposer : ℤ → ℕ → List P → ProposerConfig → Proposer P
  unfolding with_defaults
  new_proposer id value peers cfg = record {
    id = id;
    value = value;
    cfg = with_defaults cfg;
    round = pos 0;
    peers = peers;
  }

  abbrev pub quorum : Proposer P → ℕ
  quorum p = quorum_of (length p.peers)

  unfoldable pub next_proposal_number : Proposer P → ProposalNumber × Proposer P
  next_proposal_number p =
      let round = add_int p.round (pos 1) in
      (record { round = round; node_id = p.id }, record p { round = round })

  unfoldable pub fast_forward : ProposalNumber → Proposer P → Proposer P
  fast_forward n p = if ltb_ℤ p.round n.round then record p { round = n.round } else p

  -- `prepare` and `accept`: one slot for each peer.
  unfoldable pub prepare : Proposer P → (P → Option PrepareResponse) → PrepareTally
  prepare p reply = count_promises (no_promises p.value) (map reply p.peers)

  unfoldable pub accept : Proposer P → (P → Option AcceptResponse) → AcceptResult
  accept p reply = count_accepts no_accepts (map reply p.peers)

  -- Phase 2, if there is one.
  unfoldable pub finish : Proposer P → Round P → Prepared → Attempt
  unfolding after_accept
  finish p r (stop attempt) = attempt
  finish p r (proceed attempt) = after_accept attempt (accept p r.accept_reply) r.accept_cause

  unfoldable pub propose : Proposer P → Round P → Attempt × Proposer P
  unfolding next_proposal_number after_prepare finish
  propose p r = elim r.ctx_err [
    | some e ↦ (record empty_attempt { quorum = quorum p; outcome = aborted }, p)
    | none ↦
        let (proposal, p') = next_proposal_number p in
        let prepared = prepare p' r.prepare_reply in
        (finish p' r (after_prepare proposal (quorum p) prepared r.prepare_cause), p')
  ]
