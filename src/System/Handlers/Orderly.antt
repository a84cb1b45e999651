-- ===== src/System/Handlers/Orderly.antt =====
-- Runs in which a handler that is overtaken is harmless: the critical sections of a call are as good as
-- one step, since a handler that goes on after a crash is one that a restart and a crash surround.
use mathlib.Core.Path.{fun_ext}
use interactive_paxos.Prelude.{
  arith, ap, sym, ◌∙◌, Has, ℕ, pos, ◌≤◌, max_int, ◌≡◌, refl, subst, ok, some, List,
}
use interactive_paxos.Messages.{AcceptorState}
use interactive_paxos.Proposal.{ProposalNumber}
use interactive_paxos.Store.{Store, IsDurable}
use interactive_paxos.Acceptor
use interactive_paxos.Acceptor.{Acceptor, new_acceptor}
use interactive_paxos.Proposer.{Proposer}
use interactive_paxos.Proposer.Outcome.{Attempt, chosen}
use interactive_paxos.Harness.{
  Site, up, down, crash, current, node_prepare, node_accept, restart, store_of,
}
use interactive_paxos.System.{
  System, Job, Reach, here, next, prepares, accepts, crashes, restarts, decided, update, post,
  issued, prepare_request, accept_request,
}
use interactive_paxos.System.Safety.{IsCluster, IsChosen}
use interactive_paxos.System.Safety.Steps.{IsFresh}
use interactive_paxos.System.Agreement.{agreement}
use interactive_paxos.System.Learning.Steps.{reports_agree}
use interactive_paxos.System.Handlers.{
  Fetched, IsHarmless, old_acceptor, with_store, prepare_overtaken, accept_overtaken, Overlap,
  OverlapStep, OverlapReach, no_step, one_more, IsOrderly, AreOrderly, proposes, fetches,
  handles_prepare, handles_accept, overtaken_prepare, overtaken_accept, falls, loads, installs,
}

module _ {S : Type 0} (ops : Store S) where
  pub restart_loaded :
      (i : ℕ) (site : Site S) (state : AcceptorState)
      → ops.load (store_of site) ≡ ok state
      → restart ops (pos i) site ≡ up (record { id = pos i; store = store_of site; state = state })
  unfolding restart new_acceptor
  restart_loaded i site state e = rw (restart, e) refl

module _ {A : Type 0} (f : ℕ → A) (i : ℕ) where
  update_self : (a : A) → update f i a i ≡ a
  update_self a = ground arith

  update_again : (a b : A) → update (update f i a) i b ≡ update f i b
  update_again a b = fun_ext λ j. ground arith

module _ {S : Type 0} (ops : Store S) (member : ℕ → Proposer ℕ) (s : Overlap S) (f : Fetched)
    (harmless : IsHarmless ops member f s) where
  -- The node as it is when it restarts.
  abbrev surrounded : System S
  surrounded = record s.now { sites = update s.now.sites f.node (up (old_acceptor f s)) }

  restarted : {r : System S} → Reach ops member r s.now → Reach ops member r surrounded
  restarted {r} reach =
      subst (λ x. Reach ops member r (record s.now { sites = update s.now.sites f.node x }))
        (restart_loaded ops f.node (s.now.sites f.node) (s.memory f.node f.acceptor) harmless.1)
        (next reach (restarts f.node))

  -- A node that crashes after a call leaves what the call has stored.
  crashed :
      {r : System S} (u : System S) (a : Acceptor S)
      → u.sites ≡ update surrounded.sites f.node (up a)
      → Reach ops member r u
      → Reach ops member r
          (record u { sites = update s.now.sites f.node (with_store a.store (s.now.sites f.node)) })
  unfolding crash
  crashed {r} u a e reach =
      subst (λ g. Reach ops member r (record u { sites = g })) sites (next reach (crashes f.node))
    where
      sites :
          update u.sites f.node (crash (u.sites f.node))
          ≡ update s.now.sites f.node (with_store a.store (s.now.sites f.node))
      sites =
          ap (λ g. update g f.node (crash (g f.node))) e
          ∙ ap (λ x. update (update surrounded.sites f.node (up a)) f.node (crash x))
              (update_self surrounded.sites f.node (up a))
          ∙ update_again surrounded.sites f.node (up a) (down a.store)
          ∙ update_again s.now.sites f.node (up (old_acceptor f s)) (down a.store)
          ∙ ap (λ x. update s.now.sites f.node (with_store a.store x)) (sym harmless.0.1)

  prepare_overtaken-Reach :
      {r : System S} (t : ℕ) (job : Job)
      → s.now.jobs t ≡ some job
      → Has f.node (member job.owner).peers
      → Reach ops member r s.now
      → Reach ops member r (prepare_overtaken ops member f job s).now
  unfolding prepare_overtaken node_prepare current
  prepare_overtaken-Reach {r} t job known m reach =
      crashed (called (up (old_acceptor f s)))
        (Acceptor.prepare ops (old_acceptor f s) (prepare_request member job)).1 refl
        (subst (λ x. Reach ops member r (called x))
          (update_self s.now.sites f.node (up (old_acceptor f s)))
          (next (restarted reach) (prepares t f.node job known m)))
    where
      called : Site S → System S
      called x =
          let (reply, site) = node_prepare ops (prepare_request member job) x in
          record surrounded {
            sites = update surrounded.sites f.node site;
            promises = post f.node job.proposal reply s.now.promises;
          }

  accept_overtaken-Reach :
      {r : System S} (t : ℕ) (job : Job) (v : ℕ)
      → s.now.jobs t ≡ some job
      → issued job.phase ≡ some v
      → Has f.node (member job.owner).peers
      → Reach ops member r s.now
      → Reach ops member r (accept_overtaken ops member f job v s).now
  unfolding accept_overtaken node_accept current
  accept_overtaken-Reach {r} t job v known at m reach =
      crashed (called (up (old_acceptor f s)))
        (Acceptor.accept ops (old_acceptor f s) (accept_request member job v)).1 refl
        (subst (λ x. Reach ops member r (called x))
          (update_self s.now.sites f.node (up (old_acceptor f s)))
          (next (restarted reach) (accepts t f.node job v known at m)))
    where
      called : Site S → System S
      called x =
          let (reply, site, ledger) =
            node_accept ops (pos f.node) (accept_request member job v) x s.now.ledger in
          record surrounded {
            sites = update surrounded.sites f.node site;
            ledger = ledger;
            acceptances = post f.node job.proposal reply s.now.acceptances;
          }

module _ {S : Type 0} {ops : Store S} {member : ℕ → Proposer ℕ} where
  Orderly-Step :
      {s : System S} {t u : Overlap S} (st : OverlapStep ops member t u)
      → IsOrderly ops member st
      → Reach ops member s t.now
      → Reach ops member s u.now
  Orderly-Step (proposes st own) o r = next r st
  Orderly-Step (fetches h i a up_now) o r = r
  Orderly-Step (handles_prepare h t f job got own known m) o r =
      next r (prepares t f.node job known m)
  Orderly-Step (handles_accept h t f job v got own known at m) o r =
      next r (accepts t f.node job v known at m)
  Orderly-Step {t = t} (overtaken_prepare h k f job got old known m) o r =
      prepare_overtaken-Reach ops member t f o k job known m r
  Orderly-Step {t = t} (overtaken_accept h k f job v got old known at m) o r =
      accept_overtaken-Reach ops member t f o k job v known at m r
  Orderly-Step (falls i) o r = next r (crashes i)
  Orderly-Step (loads k i a loaded) o r = r
  Orderly-Step {s} {t} (installs k l got) o r =
      subst (λ x. Reach ops member s (record t.now { sites = update t.now.sites l.node x }))
        (restart_loaded ops l.node (t.now.sites l.node) l.state o) (next r (restarts l.node))

  -- What an orderly run reaches is reached by whole calls.
  pub Orderly-Reach :
      {s u : Overlap S} (r : OverlapReach ops member s u)
      → AreOrderly ops member r
      → Reach ops member s.now u.now
  Orderly-Reach no_step o = here
  Orderly-Reach (one_more r st) (o, p) = Orderly-Step st o (Orderly-Reach r p)

module _ {S : Type 0} {ops : Store S} (d : IsDurable ops) (members : List ℕ)
    (member : ℕ → Proposer ℕ) (cluster : IsCluster members member) where
  -- In a cluster whose proposers have distinct ids and the members as their peers, and keep their
  -- rounds, over stores that are durable, from a state where nothing has happened, whatever the
  -- network loses, delays, repeats and reorders, whatever saves fail, whichever nodes crash and
  -- restart with their disks, and however the critical sections interleave, two values that are chosen
  -- are the same: if a handler that a crash or a restart overtakes goes on only while its node is down
  -- and its acceptor has in memory what the store holds, each restart installs what the store still
  -- holds, and fewer than 2^63 calls of `Propose` have begun.
  pub agreement_unless_overtaken :
      {s u : Overlap S}
      → IsFresh d s.now
      → (r : OverlapReach ops member s u) → AreOrderly ops member r
      → u.now.started ≤ max_int
      → (b c : ProposalNumber) (v w : ℕ) → IsChosen members u.now b v
      → IsChosen members u.now c w
      → v ≡ w
  agreement_unless_overtaken f r o small =
      agreement d members member cluster f (Orderly-Reach r o) small

  -- Two rounds of `Propose`, of whatever proposers, that return `OutcomeChosen` in a state that a fresh
  -- cluster reaches within 2^63 - 1 rounds return the same value: if a handler that a crash or a restart
  -- overtakes goes on only while its node is down and its acceptor has in memory what the store holds,
  -- and each restart installs what the store still holds.
  pub reports_agree_unless_overtaken :
      {s u : Overlap S}
      → IsFresh d s.now
      → (r : OverlapReach ops member s u) → AreOrderly ops member r
      → u.now.started ≤ max_int
      → (t w : ℕ) (j k : Job) (a b : Attempt) → u.now.jobs t ≡ some j
      → j.phase ≡ decided a
      → a.outcome ≡ chosen
      → u.now.jobs w ≡ some k
      → k.phase ≡ decided b
      → b.outcome ≡ chosen
      → a.value ≡ b.value
  reports_agree_unless_overtaken f r o small =
      reports_agree d members member cluster f (Orderly-Reach r o) small
