-- ===== src/Console/Scenarios/Victims.antt =====
-- Whom the calls of `quorumLoss` reach.
use mathlib.Core.Path.{fun_ext}
use interactive_paxos.Prelude.{
  Option, ℕ, false, drop, take, ◌<◌, ltb, ℤ, pos, ◌-◌, ◌≡◌, refl, sym, ◌∙◌, ap, Bool, true, none,
  some, Error, wrap, List, [], ◌∷◌, length, if◌then◌else◌, arith,
}
use interactive_paxos.Quorum.{quorum_of}
use interactive_paxos.Fault.{Floats}
use interactive_paxos.Console.Client.{
  World, Call, ◌>>◌, action, info, warn, kill_node, revive_node, campaign_node,
}
use interactive_paxos.Console.Scenario.{Parsers, Values, campaign_all, say, sleep, settle}
use interactive_paxos.Console.Scenarios.{int, duration, reset_first, quorum_loss, quorum_loss_of}
use interactive_paxos.Console.Cluster.{contains_int, is_addressed, each_error, each}
use interactive_paxos.Console.Scenario.Steps.{out_of_range, kill_count, seconds, report_rounds}

skip_all : (ids : List ℤ) → drop (length ids) ids ≡ []
skip_all [] = refl
skip_all (id ∷ ids) = skip_all ids

take_all : (ids : List ℤ) → take (length ids) ids ≡ ids
take_all [] = refl
take_all (id ∷ ids) = ap (λ rest. id ∷ rest) (take_all ids)

module _ {W : Type 0} (fn : ℤ → Call W) where
  abbrev called : Bool → ℤ → Call W
  called b id w = if b then fn id w else (none, w)

  -- The calls depend on which of the clients are addressed, and on nothing else of the ids.
  each_error-addressed :
      (ids ids' clients : List ℤ)
      → ((id : ℤ) → contains_int clients id ≡ true → is_addressed ids id ≡ is_addressed ids' id)
      → (w : W) → each_error ids clients fn w ≡ each_error ids' clients fn w
  unfolding each_error
  each_error-addressed ids ids' [] h w = refl
  each_error-addressed ids ids' (id ∷ clients) h w =
      let same = h id (ground arith) in
      ap
        (λ b.
          let (r, w') = called b id w in
          let (errs, w'') = each_error ids clients fn w' in
          ((elim r [ none ↦ errs | some e ↦ e ∷ errs ], w'')))
        same
      ∙ ap
          (λ (x : List Error × W).
            (elim (called (is_addressed ids' id) id w).0 [ none ↦ x.0 | some e ↦ e ∷ x.0 ], x.1))
          (each_error-addressed ids ids' clients (λ k m. h k (ground arith))
            (called (is_addressed ids' id) id w).1)

  -- A call to no node is a call to every node.
  pub each_nobody : (clients : List ℤ) (w : W) → each clients [] fn w ≡ each clients clients fn w
  unfolding each is_addressed
  each_nobody [] w = refl
  each_nobody (id ∷ clients) w =
      ap
        (λ (x : List Error × W).
          (elim x.0 [ [] ↦ none | e ∷ rest ↦ some (wrap "nodes failed" e) ], x.1))
        (each_error-addressed [] (id ∷ clients) (id ∷ clients) (λ k m. sym m) w)

-- The calls of `quorumLoss` after the count is known, by whom they are made to and by what is told.
module _ {F W : Type 0} (floats : Floats F) (parsers : Parsers F) (world : World F W)
    (clients : List ℤ) (v : Values) where
  abbrev pub loss : Call W → Call W → Call W → Bool → Call W
  loss kills campaigns revives short = do
    say world action "killing nodes %v, leaving %d of %d alive against a quorum of %d"
    kills
    (if short
        then say world info "survivors are below quorum, every round will stop at prepare"
        else say world warn "survivors still hold a quorum")
    campaigns
    sleep world (duration floats parsers world clients v "duration" (seconds 8))
    report_rounds world clients floats
    say world action "reviving %v"
    revives
    campaign_all world clients clients
    settle world floats clients (duration floats parsers world clients v "settle" (seconds 30))

  loss_of_nobody :
      quorum_loss_of floats parsers world clients v 0
      ≡ loss
          (each clients (drop (length clients - 0) clients) (kill_node world))
          (each clients (take (length clients - 0) clients) (campaign_node world))
          (each clients (drop (length clients - 0) clients) (revive_node world))
          (ltb (length clients - 0) (quorum_of (length clients)))
  unfolding quorum_loss_of campaign_all
  loss_of_nobody = refl

  -- In a cluster with a node, `quorumLoss` that is told to kill 0 nodes kills all of them and tells that
  -- the survivors still hold a quorum; it has all of them campaign, and revives all of them.
  pub kill_nobody :
      int floats parsers world clients v "kill" (pos 3) ≡ pos 0
      → 0 < length clients
      → quorum_loss floats parsers world clients v ≡ (
          reset_first floats parsers world clients v
          >> loss
              (each clients clients (kill_node world))
              (each clients clients (campaign_node world))
              (each clients clients (revive_node world))
              false)
  unfolding quorum_loss kill_count
  kill_nobody told some_client =
      ap
        (λ k.
          reset_first floats parsers world clients v >> chosen_loss (kill_count (length clients) k))
        told
      ∙ ap (λ k. reset_first floats parsers world clients v >> chosen_loss k) count_is
      ∙ ap (λ m. reset_first floats parsers world clients v >> m) (loss_of_nobody ∙ everyone)
    where
      chosen_loss : Option ℕ → Call W
      chosen_loss none w = (some out_of_range, w)
      chosen_loss (some count) w = quorum_loss_of floats parsers world clients v count w

      count_is : kill_count (length clients) (pos 0) ≡ some 0
      count_is = ground arith

      all_left : length clients - 0 ≡ length clients
      all_left = omega arith

      every :
          (fn : ℤ → Call W)
          → each clients (drop (length clients - 0) clients) fn ≡ each clients clients fn
      every fn =
          ap (λ n. each clients (drop n clients) fn) all_left
          ∙ ap (λ ids. each clients ids fn) (skip_all clients)
          ∙ fun_ext (each_nobody fn clients)

      rest :
          each clients (take (length clients - 0) clients) (campaign_node world)
          ≡ each clients clients (campaign_node world)
      rest =
          ap (λ n. each clients (take n clients) (campaign_node world)) all_left
          ∙ ap (λ ids. each clients ids (campaign_node world)) (take_all clients)

      told_so : ltb (length clients - 0) (quorum_of (length clients)) ≡ false
      told_so = ground arith

      everyone :
          loss
            (each clients (drop (length clients - 0) clients) (kill_node world))
            (each clients (take (length clients - 0) clients) (campaign_node world))
            (each clients (drop (length clients - 0) clients) (revive_node world))
            (ltb (length clients - 0) (quorum_of (length clients)))
          ≡ loss
              (each clients clients (kill_node world))
              (each clients clients (campaign_node world))
              (each clients clients (revive_node world))
              false
      everyone i =
          loss (every (kill_node world) i) (rest i) (every (revive_node world) i) (told_so i)
