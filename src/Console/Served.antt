-- ===== src/Console/Served.antt =====
-- A world in which the nodes handle the console's requests as pkg/ui/server.go says: what a call of a
-- client that succeeds has done.
use interactive_paxos.Prelude.{
  Option, Result, err, new, ℕ, ℤ, ◌≡◌, refl, sym, ◌∙◌, ap, inl, inr, Bool, false, ◌&&◌, leb, eqb_ℤ,
  String, Error, ok, none, some, if◌then◌else◌, Bool-cases, Option-cases, arith,
}
use interactive_paxos.Store.{Store}
use interactive_paxos.Fault.{Floats, is_blocked}
use interactive_paxos.Fault.Gate.{is_blocked-set_blocked}
use interactive_paxos.Ui.{Request, peer, Served, Outside, handle}
use interactive_paxos.Console.{Snapshot}
use interactive_paxos.Console.Client.{World, Call, StepKind, ◌>>◌, post, blocked_of}

module _ {W : Type 0} (m k : Call W) (w : W) where
  then_fine : (m w).0 ≡ none → (m >> k) w ≡ k (m w).1
  then_fine e = rw (◌>>◌, e) refl

  then_failed : (x : Error) → (m w).0 ≡ some x → (m >> k) w ≡ (some x, (m w).1)
  then_failed x e = rw (◌>>◌, e) refl

  -- If both calls together succeed, each has succeeded.
  pub both_done :
      ((m >> k) w).0 ≡ none → ((m w).0 ≡ none) × ((k (m w).1).0 ≡ none) × ((m >> k) w ≡ k (m w).1)
  both_done h = elim (Option-cases (m w).0) [
    | inl e ↦ (e, sym (ap (λ r. r.0) (then_fine e)) ∙ h, then_fine e)
    | inr (x, e) ↦ cc (then_failed x e)
  ]

-- The fields of `Node.Snapshot` that the console reads.
abbrev pub snapshot_of : {F S : Type 0} → Served F S → Snapshot F
snapshot_of s = record {
  alive = s.node.alive;
  chaos = s.node.chaos;
  decision = s.node.decision;
  faults = s.faults;
}

module _ {F S W : Type 0} (floats : Floats F) (ops : Store S) (world : World F W)
    (sites : W → ℤ → Served F S) where
  -- A request that a node has answered it has handled, and no request is handled by another node.
  -- Of one that has failed nothing is said.
  pub record IsServed : Type 0 where
    pub handled :
        (id : ℤ) (req : Request F) (w : W) (status : ℕ)
        → (world.send id req w).0 ≡ ok status
        → (o : Outside) × (handle floats ops o req (sites w id)
            ≡ (status, sites (world.send id req w).1 id))
    pub others :
        (id j : ℤ) (req : Request F) (w : W)
        → eqb_ℤ id j ≡ false
        → sites (world.send id req w).1 j ≡ sites w j
    pub steps :
        (kind : StepKind) (message : String) (w : W) → sites (world.step kind message w) ≡ sites w

  -- A snapshot that a node has sent is its own, and asking changes no node.
  pub record IsRead : Type 0 where
    pub own :
        (id : ℤ) (w : W) (status : ℕ) (s : Snapshot F)
        → (world.fetch id w).0 ≡ ok (status, some s)
        → s ≡ snapshot_of (sites w id)
    pub kept : (id : ℤ) (w : W) → sites (world.fetch id w).1 ≡ sites w

  -- The link from a node to another is cut.
  abbrev pub is_cut : W → ℤ → ℤ → Bool
  is_cut w a b = is_blocked b (sites w a).faults.blocked

-- What `post` makes of the response.
abbrev reply_error : Result ℕ → Option Error
reply_error (err e) = some e
reply_error (ok status) = if leb 400 status then some (new "node: request refused") else none

replied : (r : Result ℕ) → reply_error r ≡ none → (status : ℕ) × (r ≡ ok status)
replied (ok status) h = (status, refl)
replied (err e) h = cc

module _ {F S W : Type 0} (floats : Floats F) (ops : Store S) (world : World F W)
    (sites : W → ℤ → Served F S) (served : IsServed floats ops world sites) where
  module _ (id : ℤ) (req : Request F) (w : W) where
    sends :
        (r : Result ℕ)
        → (world.send id req w).0 ≡ r
        → world.encode req ≡ none
        → post world id req w ≡ (reply_error r, (world.send id req w).1)
    unfolding post
    sends (ok status) q e = rw (post, e, q) refl
    sends (err x) q e = rw (post, e, q) refl

    stays : (x : Error) → world.encode req ≡ some x → post world id req w ≡ (some x, w)
    unfolding post
    stays x e = rw (post, e) refl

    -- A request of a call that succeeds has been sent and answered.
    pub post_done :
        (post world id req w).0 ≡ none
        → (status : ℕ) × ((world.send id req w).0 ≡ ok status)
          × ((post world id req w).1 ≡ (world.send id req w).1)
    post_done h = elim (Option-cases (world.encode req)) [
      | inr (x, e) ↦ cc (stays x e)
      | inl e ↦
          let did = sends (world.send id req w).0 refl e in
          let (status, q) = replied (world.send id req w).0 (sym (ap (λ r. r.0) did) ∙ h) in
          (status, q, ap (λ r. r.1) did)
    ]

  -- A call of `SetBlocked` that succeeds cuts one link, or mends it, and no other.
  pub is_cut-blocked_of :
      (a b : ℤ) (v : Bool) (w : W)
      → (blocked_of world b v a w).0 ≡ none
      → (x y : ℤ)
      → is_cut floats ops world sites (blocked_of world b v a w).1 x y
        ≡ (if eqb_ℤ a x && eqb_ℤ b y then v else is_cut floats ops world sites w x y)
  unfolding handle
  is_cut-blocked_of a b v w h x y =
      let (status, sent, done) = post_done a (peer (some (b, v))) w h in
      elim (Bool-cases (eqb_ℤ a x)) [
        | inr other ↦
            ap (λ k. is_cut floats ops world sites k x y) done
            ∙ ap (λ z. is_blocked y z.faults.blocked)
                (served.others a x (peer (some (b, v))) w other)
            ∙ ground arith
        | inl same ↦
            let (o, e) = served.handled a (peer (some (b, v))) w status sent in
            let at : a ≡ x = ground arith in
            ap (λ k. is_cut floats ops world sites k x y) done
            ∙ ap (λ z. is_blocked y z.faults.blocked)
                (ap (sites (world.send a (peer (some (b, v))) w).1) (sym at)
                  ∙ sym (ap (λ r. r.1) e))
            ∙ is_blocked-set_blocked b y v (sites w a).faults
            ∙ ground (arith, ap (λ z. is_blocked y (sites w z).faults.blocked) at)
      ]
