-- ===== src/Node/Lifecycle.antt =====
-- What holds of a node through its life: pkg/node/node.go.
use interactive_paxos.Proposer.Outcome.{Attempt}
use interactive_paxos.Prelude.{
  subst, ℤ, ℕ, Bool, true, false, ◌≡◌, refl, sym, ◌∙◌, ap, inl, inr, Option, none, some, Error, ok,
  Result-cases, Bool-cases, arith, if◌then◌else◌,
}
use interactive_paxos.Store.{Store, IsDurable}
use interactive_paxos.Acceptor.{Acceptor, new_acceptor}
use interactive_paxos.Acceptor.Durability.{IsSynced}
use interactive_paxos.Acceptor.Kept.{new_acceptor-recovers}
use interactive_paxos.Node.{
  Node, Opening, Resetting, kill, trigger_campaign, set_chaos, chaos_turn, sets_chaos, chaos_turns,
  learn, end_campaign, revive, come_up, reset, NodeStep, NodeReach, revives, kills, triggers,
  learns, ends, resets, prepares, accepts, at_start, goes_on, unless_failed, save_empty,
}

abbrev is_some : {A : Type 0} → Option A → Bool
is_some none = false
is_some (some a) = true

module _ {S : Type 0} where
  -- The parts of a node are there while it is up, and only then, and only a node that is up campaigns.
  pub record IsConsistent (n : Node S) : Type 0 where
    pub acceptor : is_some n.acceptor ≡ n.alive
    pub proposer : is_some n.proposer ≡ n.alive
    pub server : n.server ≡ n.alive
    pub campaigning : n.campaigning ≡ true → n.alive ≡ true

  kill-IsConsistent : (c : Option Error) (n : Node S) → IsConsistent n → IsConsistent (kill c n).1
  unfolding kill
  kill-IsConsistent c n h = elim (Bool-cases n.alive) [
    | inl up ↦ record {
      acceptor = ground arith;
      proposer = ground arith;
      server = ground arith;
      campaigning = λ e. ground arith;
    }
    | inr down ↦ record {
      acceptor = ground (arith, h.acceptor);
      proposer = ground (arith, h.proposer);
      server = ground (arith, h.server);
      campaigning = λ e. ground (arith, h.campaigning);
    }
  ]

  trigger_campaign-IsConsistent : (n : Node S) → IsConsistent n → IsConsistent (trigger_campaign n)
  unfolding trigger_campaign
  trigger_campaign-IsConsistent n h = record {
    acceptor = ground (arith, h.acceptor);
    proposer = ground (arith, h.proposer);
    server = ground (arith, h.server);
    campaigning = λ e. ground (arith, h.campaigning);
  }

  end_campaign-IsConsistent :
      (c : ℕ) (n : Node S) → IsConsistent n → IsConsistent (end_campaign c n)
  unfolding end_campaign
  end_campaign-IsConsistent c n h = record {
    acceptor = h.acceptor;
    proposer = h.proposer;
    server = h.server;
    campaigning = λ e. ground arith;
  }

  set_chaos-IsConsistent : (b : Bool) (n : Node S) → IsConsistent n → IsConsistent (set_chaos b n)
  unfolding set_chaos
  set_chaos-IsConsistent true n h = record {
    acceptor = h.acceptor;
    proposer = h.proposer;
    server = h.server;
    campaigning = h.campaigning;
  }
  set_chaos-IsConsistent false n h = record {
    acceptor = h.acceptor;
    proposer = h.proposer;
    server = h.server;
    campaigning = h.campaigning;
  }

  learn-IsConsistent :
      (a : Attempt) (t : ℤ) (n : Node S) → IsConsistent n → IsConsistent (learn a t n)
  unfolding learn
  learn-IsConsistent a t n h = record {
    acceptor = h.acceptor;
    proposer = h.proposer;
    server = h.server;
    campaigning = h.campaigning;
  }

module _ {S : Type 0} (ops : Store S) where
  killed :
      (c : Option Error) (n : Node S) (a : Acceptor S)
      → n.alive ≡ true
      → n.acceptor ≡ some a
      → a.id ≡ n.cfg.id
      → new_acceptor ops (kill c n).1.cfg.id (some (kill c n).1.disk)
        ≡ new_acceptor ops a.id (some a.store)
  unfolding kill
  killed c n a up has own = ground arith

  revive-IsConsistent :
      (o : Opening) (n : Node S) → IsConsistent n → IsConsistent (revive ops o n).1
  unfolding revive
  revive-IsConsistent o n h = record {
    acceptor = ground (arith, h.acceptor);
    proposer = ground (arith, h.proposer);
    server = ground (arith, h.server);
    campaigning = λ e. ground (arith, h.campaigning);
  }

  unless_failed-IsConsistent :
      (r : Option Error × Node S) (next : Node S → Option Error × Node S)
      → IsConsistent r.1
      → ((n : Node S) → IsConsistent n → IsConsistent (next n).1)
      → IsConsistent (unless_failed r next).1
  unless_failed-IsConsistent (some e, n) next h f = h
  unless_failed-IsConsistent (none, n) next h f = f n h

  campaign_if-IsConsistent :
      (b : Bool) (n : Node S) → IsConsistent n → IsConsistent (if b then trigger_campaign n else n)
  campaign_if-IsConsistent true n h = trigger_campaign-IsConsistent n h
  campaign_if-IsConsistent false n h = h

  come_up-IsConsistent :
      (o : Opening) (n : Node S) → IsConsistent n → IsConsistent (come_up ops o n).1
  come_up-IsConsistent o n h =
      unless_failed-IsConsistent (revive ops o _) _
        (revive-IsConsistent o _ (record {
          acceptor = h.acceptor;
          proposer = h.proposer;
          server = h.server;
          campaigning = h.campaigning;
        }))
        λ m k. campaign_if-IsConsistent m.cfg.campaign m k

  save_empty-IsConsistent : (n : Node S) → IsConsistent n → IsConsistent (save_empty ops n).1
  save_empty-IsConsistent n h = record {
    acceptor = h.acceptor;
    proposer = h.proposer;
    server = h.server;
    campaigning = h.campaigning;
  }

  reset-IsConsistent :
      (r : Resetting) (n : Node S) → IsConsistent n → IsConsistent (reset ops r n).1
  unfolding reset
  reset-IsConsistent r n h =
      unless_failed-IsConsistent (kill r.kill_error n) _ (kill-IsConsistent r.kill_error n h) λ m k.
        unless_failed-IsConsistent (r.open_error, m) _ k
          λ m' k'.
            unless_failed-IsConsistent (save_empty ops m') _ (save_empty-IsConsistent m' k') λ l q.
              unless_failed-IsConsistent (r.close_error, l) _ q (come_up-IsConsistent r.opening)

  chaos_turn-IsConsistent :
      (c : Option Error) (o : Opening) (n : Node S)
      → IsConsistent n
      → IsConsistent (chaos_turn ops c o n)
  unfolding chaos_turn
  chaos_turn-IsConsistent c o n h = elim (Bool-cases n.alive) [
    | inl up ↦ subst IsConsistent (sym (rw up refl)) (kill-IsConsistent c n h)
    | inr down ↦ subst IsConsistent (sym (rw down refl)) (
        unless_failed-IsConsistent (revive ops o n) (λ m. (none, trigger_campaign m))
          (revive-IsConsistent o n h) λ m k. trigger_campaign-IsConsistent m k)
  ]

  NodeStep-IsConsistent : {n m : Node S} → NodeStep ops n m → IsConsistent n → IsConsistent m
  NodeStep-IsConsistent {n} (revives o) h = revive-IsConsistent o n h
  NodeStep-IsConsistent {n} (kills c) h = kill-IsConsistent c n h
  NodeStep-IsConsistent {n} triggers h = trigger_campaign-IsConsistent n h
  NodeStep-IsConsistent {n} (learns r a t m) h = learn-IsConsistent a t n h
  NodeStep-IsConsistent {n} (ends r m) h = end_campaign-IsConsistent r.context n h
  NodeStep-IsConsistent {n} (sets_chaos e) h = set_chaos-IsConsistent e n h
  NodeStep-IsConsistent {n} (chaos_turns c o) h = chaos_turn-IsConsistent c o n h
  NodeStep-IsConsistent {n} (resets r) h = reset-IsConsistent r n h
  NodeStep-IsConsistent {n} (prepares a req e) h = record {
    acceptor = sym (ap is_some e) ∙ h.acceptor;
    proposer = h.proposer;
    server = h.server;
    campaigning = h.campaigning;
  }
  NodeStep-IsConsistent {n} (accepts a req e) h = record {
    acceptor = sym (ap is_some e) ∙ h.acceptor;
    proposer = h.proposer;
    server = h.server;
    campaigning = h.campaigning;
  }

  -- In every state that a consistent node reaches, whatever fails in opening, closing and listening,
  -- it has an acceptor, a proposer and a server exactly if it is alive, and campaigns only if it is.
  pub NodeReach-IsConsistent : {n m : Node S} → IsConsistent n → NodeReach ops n m → IsConsistent m
  NodeReach-IsConsistent h at_start = h
  NodeReach-IsConsistent h (goes_on r st) = NodeStep-IsConsistent st (NodeReach-IsConsistent h r)

module _ {S : Type 0} {ops : Store S} (d : IsDurable ops) where
  -- An acceptor that comes up from a file has the file's state.
  revive-acceptor :
      (o : Opening) (n : Node S)
      → (revive ops o n).0 ≡ none
      → (a : Acceptor S) × ((revive ops o n).1.acceptor ≡ some a)
        × (new_acceptor ops n.cfg.id (some n.disk) ≡ ok a)
  unfolding revive
  revive-acceptor o n up = elim (Result-cases (new_acceptor ops n.cfg.id (some n.disk))) [
    | inl (a, made) ↦ (a, ground arith, made)
    | inr (e, failed) ↦ absurd (ground arith)
  ]

  -- After `Kill` and a `Revive` without an error, the acceptor of a node that was up is the one it
  -- had, if that acceptor has the node's id and its state is what the file holds.
  pub kill-revive :
      (c : Option Error) (o : Opening) (n : Node S) (a : Acceptor S)
      → n.alive ≡ true
      → n.acceptor ≡ some a
      → a.id ≡ n.cfg.id
      → IsSynced d a
      → (revive ops o (kill c n).1).0 ≡ none
      → (revive ops o (kill c n).1).1.acceptor ≡ some a
  kill-revive c o n a up has own synced revived =
      let (b, here, made) = revive-acceptor o (kill c n).1 revived in
      here ∙ ap some (new_acceptor-recovers d a synced b (sym (killed ops c n a up has own) ∙ made))
