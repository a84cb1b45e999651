-- ===== src/Console/Toggling.antt =====
-- `SetChaos` of the console's client, over the toggle that a node's interface has.
use interactive_paxos.Prelude.{
  ℕ, ℤ, ◌≡◌, refl, sym, ◌∙◌, ap, inl, inr, Bool, true, false, not, ◌==◌, Result, ok, err, Error,
  Option, none, some, Bool-cases, Result-cases, arith, ok-injective,
}
use interactive_paxos.Store.{Store}
use interactive_paxos.Node.{Node, set_chaos}
use interactive_paxos.Fault.{Floats}
use interactive_paxos.Ui.{Served, toggle_chaos, handle}
use interactive_paxos.Console.{Snapshot}
use interactive_paxos.Console.Client.{World, is_equal, decode_snapshot, snapshot, post, chaos_of}
use interactive_paxos.Console.Served.{IsServed, IsRead, snapshot_of, post_done}

decoded_from :
    {F : Type 0} (r : Result (ℕ × Option (Snapshot F))) (s : Snapshot F)
    → decode_snapshot r ≡ ok s
    → (status : ℕ) × (r ≡ ok (status, some s))
decoded_from (err e) s h = cc
decoded_from (ok (status, none)) s h = elim (Bool-cases (status == 200)) [
  | inl e ↦ absurd (ground arith)
  | inr e ↦ absurd (ground arith)
]
decoded_from (ok (status, some s')) s h = elim (Bool-cases (status == 200)) [
  | inl e ↦ (status, ap (λ x. ok (status, some x)) (ok-injective (sym (rw e refl) ∙ h)))
  | inr e ↦ absurd (ground arith)
]

set_chaos-chaos : {S : Type 0} (b : Bool) (n : Node S) → (set_chaos b n).chaos ≡ b
unfolding set_chaos
set_chaos-chaos true n = refl
set_chaos-chaos false n = refl

module _ {F S W : Type 0} (floats : Floats F) (ops : Store S) (world : World F W)
    (sites : W → ℤ → Served F S) (served : IsServed floats ops world sites)
    (read : IsRead floats ops world sites) where
  snapshot_ok :
      (id : ℤ) (w : W) (s : Snapshot F)
      → (snapshot world id w).0 ≡ ok s
      → s ≡ snapshot_of (sites w id)
  unfolding snapshot
  snapshot_ok id w s h =
      let (status, e) = decoded_from (world.fetch id w).0 s h in read.own id w status s e

  snapshot_kept : (id : ℤ) (w : W) → sites (snapshot world id w).1 ≡ sites w
  unfolding snapshot
  snapshot_kept id w = read.kept id w

  toggled :
      (id : ℤ) (w : W)
      → (post world id toggle_chaos w).0 ≡ none
      → (sites (post world id toggle_chaos w).1 id).node.chaos ≡ not (sites w id).node.chaos
  unfolding handle set_chaos
  toggled id w h =
      let (status, sent, done) = post_done floats ops world sites served id toggle_chaos w h in
      let (o, e) = served.handled id toggle_chaos w status sent in
      ap (λ k. (sites k id).node.chaos) done
      ∙ sym (ap (λ r. r.1.node.chaos) e)
      ∙ set_chaos-chaos (not (sites w id).node.chaos) (sites w id).node

  module _ (enabled : Bool) (id : ℤ) (w : W) where
    abbrev asked : W
    asked = (snapshot world id w).1

    failed :
        (x : Error)
        → (snapshot world id w).0 ≡ err x
        → chaos_of world enabled id w ≡ (some x, asked)
    unfolding chaos_of
    failed x e = rw (chaos_of, e) refl

    left :
        (s : Snapshot F)
        → (snapshot world id w).0 ≡ ok s
        → is_equal s.chaos enabled ≡ true
        → chaos_of world enabled id w ≡ (none, asked)
    unfolding chaos_of
    left s e same = rw (chaos_of, e, same) refl

    toggles :
        (s : Snapshot F)
        → (snapshot world id w).0 ≡ ok s
        → is_equal s.chaos enabled ≡ false
        → chaos_of world enabled id w ≡ post world id toggle_chaos asked
    unfolding chaos_of
    toggles s e other = rw (chaos_of, e, other) refl

    chaos_read :
        (s : Snapshot F) → (snapshot world id w).0 ≡ ok s → s.chaos ≡ (sites asked id).node.chaos
    chaos_read s e =
        ap (λ x. x.chaos) (snapshot_ok id w s e)
        ∙ ap (λ f. (f id).node.chaos) (sym (snapshot_kept id w))

    -- If a call of `SetChaos` succeeds, and nothing else changes the node between its two requests, the
    -- node's chaos is as it was told.
    pub chaos_of-sets :
        (chaos_of world enabled id w).0 ≡ none
        → (sites (chaos_of world enabled id w).1 id).node.chaos ≡ enabled
    chaos_of-sets h = elim (Result-cases (snapshot world id w).0) [
      | inr (x, e) ↦ cc (failed x e)
      | inl (s, e) ↦ elim (Bool-cases (is_equal s.chaos enabled)) [
        | inl same ↦
            ap (λ r. (sites r.1 id).node.chaos) (left s e same)
            ∙ sym (chaos_read s e)
            ∙ ground arith
        | inr other ↦
            let did = toggles s e other in
            ap (λ r. (sites r.1 id).node.chaos) did
            ∙ toggled id asked (sym (ap (λ r. r.0) did) ∙ h)
            ∙ ap (not) (sym (chaos_read s e))
            ∙ ground arith
      ]
    ]
