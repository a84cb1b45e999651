-- ===== src/Console/Waiting.antt =====
-- `WaitConverged` ends, and what it means that it has seen the cluster converge.
use interactive_paxos.Prelude.{
  ℕ, zero, suc, ℤ, pos, negsuc, ◌+◌, ◌+ℤ◌, ◌≤◌, ◌≡◌, refl, ◌∙◌, subst, inl, inr, Bool, true, false,
  ltb_ℤ, some, none, Error, List, [], ◌∷◌, Bool-cases, Option-cases, arith,
}
use interactive_paxos.Fault.{Floats}
use interactive_paxos.Console.{ClusterStatus}
use interactive_paxos.Console.Client.{World, snapshot}
use interactive_paxos.Console.Cluster.{
  turns, ask_all, cluster_status, has_converged, wait_loop, wait_converged,
}

module _ {F W : Type 0} (world : World F W) where
  -- From a state in which a ticker of 300 ms is made: time does not run backward while nodes are asked;
  -- ticks are a period apart or more, counted from the making (a tick for which nobody waits is held,
  -- or dropped), and none is received before its time.
  pub record IsTimed (begun : W) : Type 0 where
    pub last_tick : W → ℕ
    pub made : last_tick begun ≡ world.now begun
    pub fetch : (id : ℤ) (w : W) → world.now w ≤ world.now (world.fetch id w).1
    pub fetch_tick : (id : ℤ) (w : W) → last_tick (world.fetch id w).1 ≡ last_tick w
    pub apart :
        (w : W) → (world.tick w).0 ≡ none → last_tick w + 300_000_000 ≤ last_tick (world.tick w).1
    pub received :
        (w : W) → (world.tick w).0 ≡ none → last_tick (world.tick w).1 ≤ world.now (world.tick w).1

module _ {F W : Type 0} (floats : Floats F) (world : World F W) (begun : W)
    (timed : IsTimed world begun) where
  snapshot-now : (id : ℤ) (w : W) → world.now w ≤ world.now (snapshot world id w).1
  unfolding snapshot
  snapshot-now id w = timed.fetch id w

  ask_all-now :
      (clients : List ℤ) (w : W) → world.now w ≤ world.now (ask_all floats world clients w).1
  unfolding ask_all
  ask_all-now [] w = omega arith
  ask_all-now (id ∷ ids) w =
      omega (arith, snapshot-now id w, ask_all-now ids (snapshot world id w).1)

  status-now :
      (clients : List ℤ) (w : W) → world.now w ≤ world.now (cluster_status floats world clients w).1
  unfolding cluster_status
  status-now clients w = ask_all-now clients w

  ask_all-last_tick :
      (clients : List ℤ) (w : W)
      → timed.last_tick (ask_all floats world clients w).1 ≡ timed.last_tick w
  unfolding ask_all snapshot
  ask_all-last_tick [] w = refl
  ask_all-last_tick (id ∷ ids) w =
      ask_all-last_tick ids (snapshot world id w).1 ∙ timed.fetch_tick id w

  status-last_tick :
      (clients : List ℤ) (w : W)
      → timed.last_tick (cluster_status floats world clients w).1 ≡ timed.last_tick w
  unfolding cluster_status
  status-last_tick clients w = ask_all-last_tick clients w

  module _ (fuel : ℕ) (deadline : ℤ) (clients : List ℤ) (w : W) where
    abbrev last : ClusterStatus
    last = (cluster_status floats world clients w).0

    abbrev asked : W
    asked = (cluster_status floats world clients w).1

    turn_converged :
        has_converged last ≡ true
        → wait_loop floats world (suc fuel) deadline clients w ≡ some ((last, true), asked)
    unfolding wait_loop
    turn_converged e = rw (wait_loop, e) refl

    turn_late :
        has_converged last ≡ false
        → ltb_ℤ deadline (pos (world.now asked)) ≡ true
        → wait_loop floats world (suc fuel) deadline clients w ≡ some ((last, false), asked)
    unfolding wait_loop
    turn_late e q = rw (wait_loop, e, q) refl

    turn_stopped :
        (x : Error)
        → has_converged last ≡ false
        → ltb_ℤ deadline (pos (world.now asked)) ≡ false
        → (world.tick asked).0 ≡ some x
        → wait_loop floats world (suc fuel) deadline clients w
          ≡ some ((last, false), (world.tick asked).1)
    unfolding wait_loop
    turn_stopped x e q t = rw (wait_loop, e, q, t) refl

    turn_again :
        has_converged last ≡ false
        → ltb_ℤ deadline (pos (world.now asked)) ≡ false
        → (world.tick asked).0 ≡ none
        → wait_loop floats world (suc fuel) deadline clients w
          ≡ wait_loop floats world fuel deadline clients (world.tick asked).1
    unfolding wait_loop
    turn_again e q t = rw (wait_loop, e, q, t) refl

    turn_ends :
        ((world.tick asked).0 ≡ none
          → ltb_ℤ deadline (pos (world.now asked)) ≡ false
          → (r : (ClusterStatus × Bool) × W) × (wait_loop floats world fuel deadline clients
                (world.tick asked).1
              ≡ some r))
        → (r : (ClusterStatus × Bool) × W) × (wait_loop floats world (suc fuel) deadline clients w
            ≡ some r)
    turn_ends again = elim (Bool-cases (has_converged last)) [
      | inl e ↦ (_, turn_converged e)
      | inr e ↦ elim (Bool-cases (ltb_ℤ deadline (pos (world.now asked)))) [
        | inl q ↦ (_, turn_late e q)
        | inr q ↦ elim (Option-cases (world.tick asked).0) [
          | inr (x, t) ↦ (_, turn_stopped x e q t)
          | inl t ↦ let (r, k) = again t q in (r, turn_again e q t ∙ k)
        ]
      ]
    ]

  later :
      (deadline : ℤ) (m n : ℕ)
      → m ≤ n
      → ltb_ℤ deadline (pos m) ≡ true
      → ltb_ℤ deadline (pos n) ≡ true
  later deadline m n le h = ground arith

  -- With time to spare, the fuel lasts.
  wait_loop-ends :
      (fuel : ℕ) (deadline : ℤ) (clients : List ℤ) (w : W)
      → timed.last_tick w ≤ world.now w
      → ltb_ℤ deadline (pos (timed.last_tick w + fuel)) ≡ true
      → (r : (ClusterStatus × Bool) × W) × (wait_loop floats world (suc fuel) deadline clients w
          ≡ some r)
  wait_loop-ends zero deadline clients w due h =
      turn_ends zero deadline clients w (λ t q. absurd (ground (arith, status-now clients w)))
  wait_loop-ends (suc fuel) deadline clients w due h =
      turn_ends (suc fuel) deadline clients w λ t q.
        let w' = asked (suc fuel) deadline clients w in
        let apart = timed.apart w' t in
        wait_loop-ends fuel deadline clients (world.tick w').1 (timed.received w' t)
          (later deadline _ _ (omega (arith, apart, status-last_tick clients w)) h)

  -- `WaitConverged` returns, and after at most two turns more than its timeout has nanoseconds: if time
  -- does not run backward while nodes are asked, its ticks are a period apart or more, counted from
  -- where it begins, and none is received before its time.
  pub wait_converged-returns :
      (timeout : ℤ) (clients : List ℤ)
      → (r : (ClusterStatus × Bool) × W) × (wait_converged floats world
            (turns timeout)
            timeout
            clients
            begun
          ≡ some r)
  unfolding wait_converged
  wait_converged-returns (pos timeout) clients =
      subst
        (λ f.
          (r : (ClusterStatus × Bool) × W) × (wait_loop floats world f
              (pos (world.now begun) +ℤ pos timeout) clients begun
            ≡ some r))
        more
        (wait_loop-ends (timeout + 1) (pos (world.now begun) +ℤ pos timeout) clients begun
          (omega (arith, timed.made)) (ground (arith, timed.made)))
    where
      more : suc (timeout + 1) ≡ timeout + 2
      more = omega arith
  wait_converged-returns (negsuc timeout) clients =
      wait_loop-ends 1 (pos (world.now begun) +ℤ negsuc timeout) clients begun
        (omega (arith, timed.made)) (ground (arith, timed.made))
