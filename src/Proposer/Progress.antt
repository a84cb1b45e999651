-- ===== src/Proposer/Progress.antt =====
-- What makes a round of `Propose` win, and what `Campaign` returns.
use interactive_paxos.Prelude.{
  ℕ, ℤ, pos, max_int, ◌≤◌, ◌<◌, ◌≡◌, ◌↔◌, refl, inl, inr, true, none, some, List, [], ◌∷◌, map, Has,
  Error, ltb_ℤ, arith, add_int-pos,
}
use interactive_paxos.Proposal.{ProposalNumber, less}
use interactive_paxos.Proposer.{
  Proposer, Round, propose, finish, after_prepare, after_accept, abandoned_by, prepare, accept,
  quorum, next_proposal_number, fast_forward,
}
use interactive_paxos.Proposer.Config.{next_backoff}
use interactive_paxos.Proposer.Outcome.{Attempt, chosen}
use interactive_paxos.Proposer.Tally.{no_promises, no_accepts}
use interactive_paxos.Proposer.Tally.Counting.{
  tally, is_promise, is_acceptance, promises-count_promises, accepts-count_accepts,
}
use interactive_paxos.Proposer.Campaign.{Turn, returns, campaign_loop}

module _ {P : Type 0} where
  -- A proposer that has fast-forwarded to a number takes a proposal number above that one and a
  -- round above its own, if both rounds are not negative and below 2^63 - 1.
  pub less-next_proposal_number :
      (n : ProposalNumber) (p : Proposer P) (k m : ℕ)
      → n.round ≡ pos m
      → p.round ≡ pos k
      → m < max_int
      → k < max_int
      → (less n (next_proposal_number (fast_forward n p)).0 ≡ true)
        × (ltb_ℤ p.round (next_proposal_number (fast_forward n p)).0.round ≡ true)
  unfolding next_proposal_number fast_forward less
  less-next_proposal_number n p k m en ep small_m small_k =
      let above_m = add_int-pos m 1 (omega arith) in
      let above_k = add_int-pos k 1 (omega arith) in
      (ground (arith, above_m, above_k), ground (arith, above_m, above_k))

  promises_of :
      (p : Proposer P) (r : Round P)
      → (prepare p r.prepare_reply).promises_received
        ≡ tally is_promise (map r.prepare_reply p.peers)
  unfolding prepare
  promises_of p r =
      omega (arith, promises-count_promises (no_promises p.value) (map r.prepare_reply p.peers))

  accepts_of :
      (p : Proposer P) (r : Round P)
      → (accept p r.accept_reply).accepted_count ≡ tally is_acceptance (map r.accept_reply p.peers)
  unfolding accept
  accepts_of p r = omega (arith, accepts-count_accepts no_accepts (map r.accept_reply p.peers))

  -- `Propose` reports `OutcomeChosen` exactly if its context is alive at the start and the caller is
  -- still waiting after phase 1, a quorum of the peers has promised and a quorum has accepted; the
  -- context may end during phase 2.
  pub propose_chosen_iff :
      (p : Proposer P) (r : Round P)
      → ((propose p r).0.outcome ≡ chosen) ↔ (
          (r.ctx_err ≡ none)
          × (abandoned_by r.prepare_cause ≡ none)
          × (quorum p ≤ tally is_promise (map r.prepare_reply p.peers))
          × (quorum p ≤ tally is_acceptance (map r.accept_reply p.peers)))
  unfolding propose finish after_prepare after_accept next_proposal_number prepare accept
  propose_chosen_iff p r =
      let promises = promises_of p r in
      let accepts = accepts_of p r in
      (λ h. ground (arith, promises, accepts), λ h. ground (arith, promises, accepts))

  -- `Campaign` returns no error only with an attempt that has been chosen, if the context has an
  -- error whenever a round has been aborted.
  pub campaign_loop_chosen :
      (turns : List (Turn P)) (p q : Proposer P) (backoff : ℤ) (a : Attempt)
      → ((t : Turn P) → Has t turns → (e : Error) × (t.ctx_err ≡ some e))
      → campaign_loop turns p backoff ≡ returns a none q
      → a.outcome ≡ chosen
  unfolding campaign_loop
  campaign_loop_chosen [] p q backoff a live h = cc
  campaign_loop_chosen (t ∷ turns) p q backoff a live h =
      let (e, ended) = live t (inl refl) in
      ground (
        arith,
        ended,
        campaign_loop_chosen turns
            (fast_forward (propose p t.round).0.highest_seen (propose p t.round).1) q
            (next_backoff p.cfg backoff) a (λ u m. live u (inr m)),
      )
