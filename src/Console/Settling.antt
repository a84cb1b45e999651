-- ===== src/Console/Settling.antt =====
-- How `Settle` ends, and the loops that a scenario runs for a time.
use interactive_paxos.Prelude.{
  ℕ, zero, suc, ℤ, pos, negsuc, ◌+◌, ◌+ℤ◌, ◌≤◌, ◌≡◌, ◌↔◌, refl, sym, ◌∙◌, ap, subst, inl, inr, Bool,
  true, false, ltb_ℤ, Error, some, none, List, Bool-cases, Option-cases, arith,
}
use interactive_paxos.Fault.{Floats}
use interactive_paxos.Console.{ClusterStatus}
use interactive_paxos.Console.Client.{World, Call, ◌>>◌, action}
use interactive_paxos.Console.Cluster.{turns, wait_converged}
use interactive_paxos.Console.Waiting.{IsTimed, wait_converged-returns}
use interactive_paxos.Console.Scenario.{settled, settle, while_before, repeat_for}

module _ {F W : Type 0} (floats : Floats F) (world : World F W) where
  settled_iff :
      (last : ClusterStatus) (converged : Bool) (w w' : W)
      → ((settled world (some ((last, converged), w')) w).0 ≡ none) ↔ (last.disagreement ≡ false)
  settled_iff last converged w w' = (λ h. ground arith, λ h. ground arith)

  -- `Settle` ends with the last status that `WaitConverged` has seen, and fails exactly if nodes
  -- disagree in that status, not for a cluster that has not converged in time: if time and the ticker
  -- are as for `WaitConverged`, from the state in which `Settle` calls it.
  pub settle_fails_iff :
      (clients : List ℤ) (timeout : ℤ) (w : W)
      → IsTimed world (world.step action "waiting for the cluster to settle" w)
      → (last : ClusterStatus) × (converged : Bool) × (w' : W) × (wait_converged floats world
            (turns timeout)
            timeout
            clients
            (world.step action "waiting for the cluster to settle" w)
          ≡ some ((last, converged), w'))
        × (((settle world floats clients timeout w).0 ≡ none) ↔ (last.disagreement ≡ false))
  unfolding settle
  settle_fails_iff clients timeout w timed =
      let begun = world.step action "waiting for the cluster to settle" w in
      let (((last, converged), w'), e) =
        wait_converged-returns floats world begun timed timeout clients in
      (
        last,
        converged,
        w',
        e,
        subst (λ r. ((settled world r begun).0 ≡ none) ↔ (last.disagreement ≡ false)) (sym e)
            (settled_iff last converged begun w'),
      )

-- A body that takes time when it succeeds.
abbrev pub TakesTime : {F W : Type 0} → World F W → Call W → Type 0
TakesTime {W = W} world body =
    (w : W) → (body w).0 ≡ none → suc (world.now w) ≤ world.now (body w).1

module _ {F W : Type 0} (world : World F W) (body : Call W) (slow : TakesTime world body) where
  loop_over :
      (fuel : ℕ) (deadline : ℤ) (w : W)
      → ltb_ℤ (pos (world.now w)) deadline ≡ false
      → while_before world (suc fuel) deadline body w ≡ (none, w)
  unfolding while_before
  loop_over fuel deadline w e = rw (while_before, e) refl

  loop_fails :
      (fuel : ℕ) (deadline : ℤ) (w : W) (x : Error)
      → ltb_ℤ (pos (world.now w)) deadline ≡ true
      → (body w).0 ≡ some x
      → while_before world (suc fuel) deadline body w ≡ (some x, (body w).1)
  unfolding while_before
  loop_fails fuel deadline w x e h = rw (while_before, e, ◌>>◌, h) refl

  loop_again :
      (fuel : ℕ) (deadline : ℤ) (w : W)
      → ltb_ℤ (pos (world.now w)) deadline ≡ true
      → (body w).0 ≡ none
      → while_before world (suc fuel) deadline body w
        ≡ while_before world fuel deadline body (body w).1
  unfolding while_before
  loop_again fuel deadline w e h = rw (while_before, e, ◌>>◌, h) refl

  enough :
      (fuel more : ℕ) (deadline : ℤ) (w : W)
      → ltb_ℤ (pos (world.now w + fuel)) deadline ≡ false
      → while_before world (suc (fuel + more)) deadline body w
        ≡ while_before world (suc fuel) deadline body w
  enough zero more deadline w h =
      let over : ltb_ℤ (pos (world.now w)) deadline ≡ false = ground arith in
      loop_over (zero + more) deadline w over ∙ sym (loop_over zero deadline w over)
  enough (suc fuel) more deadline w h = elim (Bool-cases (ltb_ℤ (pos (world.now w)) deadline)) [
    | inr over ↦
        loop_over (suc fuel + more) deadline w over ∙ sym (loop_over (suc fuel) deadline w over)
    | inl e ↦ elim (Option-cases (body w).0) [
      | inr (x, q) ↦
          loop_fails (suc fuel + more) deadline w x e q
          ∙ sym (loop_fails (suc fuel) deadline w x e q)
      | inl q ↦
          let count : suc fuel + more ≡ suc (fuel + more) = omega arith in
          loop_again (suc fuel + more) deadline w e q
          ∙ ap (λ n. while_before world n deadline body (body w).1) count
          ∙ enough fuel more deadline (body w).1 (ground (arith, slow w q))
          ∙ sym (loop_again (suc fuel) deadline w e q)
    ]
  ]

  -- A loop that a scenario runs for a time ends by itself: if its body takes time whenever it succeeds,
  -- fuel for more turns than the time has nanoseconds, and two, changes nothing.
  pub repeat_for-ends :
      (d : ℤ) (more : ℕ) (w : W)
      → while_before world (turns d + more) (pos (world.now w) +ℤ d) body w
        ≡ repeat_for world d body w
  unfolding repeat_for
  repeat_for-ends (pos t) more w =
      let deadline = pos (world.now w + t) in
      let up : t + 2 + more ≡ suc (t + 1 + more) = omega arith in
      let down : suc (t + 1) ≡ t + 2 = omega arith in
      ap (λ n. while_before world n deadline body w) up
      ∙ enough (t + 1) more deadline w (ground arith)
      ∙ ap (λ n. while_before world n deadline body w) down
  repeat_for-ends (negsuc t) more w =
      let deadline = pos (world.now w) +ℤ negsuc t in
      let up : 2 + more ≡ suc (1 + more) = omega arith in
      ap (λ n. while_before world n deadline body w) up ∙ enough 1 more deadline w (ground arith)
