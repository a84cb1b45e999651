-- ===== src/Fault/Gate.antt =====
-- What the controller's methods do to the gate.
use interactive_paxos.Prelude.{
  ℕ, ℤ, pos, suc, Bool, true, false, ◌≡◌, sym, ◌∙◌, ap, ◌⊎◌, inl, inr, leb_ℤ, eqb_ℤ, sub_int, Error,
  none, some, List, [], ◌∷◌, Result, err, if◌then◌else◌, Bool-cases, arith, ◌≤◌, max_int, ◌+◌, ◌-◌,
  ltb, add_int-pos, sub_int-pos, subst₂, wrap,
}
use interactive_paxos.Messages.{PrepareRequest, PrepareResponse, AcceptRequest, AcceptResponse}
use interactive_paxos.Fault.{
  Floats, Config, is_blocked, delete, set_latency, set_blocked, healthy, Draws, err_unreachable,
  delay, gate, faulty_prepare, faulty_accept,
}

is_blocked-delete :
    (id k : ℤ) (keys : List ℤ)
    → is_blocked k (delete id keys) ≡ (if eqb_ℤ id k then false else is_blocked k keys)
is_blocked-delete id k [] = ground arith
is_blocked-delete id k (j ∷ keys) = ground (arith, is_blocked-delete id k keys)

module _ {F : Type 0} where
  -- `SetBlocked` changes the link to the one peer, and no other.
  pub is_blocked-set_blocked :
      (id k : ℤ) (b : Bool) (c : Config F)
      → is_blocked k (set_blocked id b c).blocked
        ≡ (if eqb_ℤ id k then b else is_blocked k c.blocked)
  unfolding set_blocked
  is_blocked-set_blocked id k true c = ground (arith, is_blocked-delete id k c.blocked)
  is_blocked-set_blocked id k false c = is_blocked-delete id k c.blocked

  -- The latencies of a configuration lie in order, above 0.
  pub record IsOrdered (c : Config F) : Type 0 where
    pub low : leb_ℤ (pos 0) c.latency_min ≡ true
    pub high : leb_ℤ c.latency_min c.latency_max ≡ true

  -- Whatever `SetLatency` is asked for, the least latency that it sets is not negative, and the
  -- greatest is not below it.
  pub set_latency-IsOrdered : (a b : ℤ) (c : Config F) → IsOrdered (set_latency a b c)
  unfolding set_latency
  set_latency-IsOrdered a b c = record { low = ground arith; high = ground arith }

module _ {F : Type 0} (floats : Floats F) where
  -- The delay lies between the two latencies, if these are not negative and lie in order, and the
  -- random number is below its bound.
  pub delay-bounds :
      (draws : Draws floats) (c : Config F) (low high : ℕ)
      → c.latency_min ≡ pos low
      → c.latency_max ≡ pos high
      → low ≤ high
      → high ≤ max_int
      → ((n : ℕ) → (k : ℕ) × (draws.int64n (pos (suc n)) ≡ pos k) × (k ≤ n))
      → (d : ℕ) × (delay floats draws c ≡ pos d) × (low ≤ d) × (d ≤ high)
  unfolding delay
  delay-bounds draws c low high e_low e_high ordered small below =
      let span : sub_int c.latency_max c.latency_min ≡ pos (high - low) =
        subst₂ (λ x y. sub_int x y ≡ pos (high - low)) (sym e_high) (sym e_low)
          (sub_int-pos high low ordered small) in
      elim (Bool-cases (ltb low high)) [
        | inl apart ↦
            let (k, drawn, k_le) = below (high - low - 1) in
            let width : suc (high - low - 1) ≡ high - low = ground arith in
            let random : draws.int64n (sub_int c.latency_max c.latency_min) ≡ pos k =
              ap draws.int64n (span ∙ ap pos (sym width)) ∙ drawn in
            let total = add_int-pos low k (ground arith) in
            (low + k, ground (arith, total), omega arith, ground arith)
        | inr same ↦ (low, ground arith, omega arith, omega arith)
      ]

  -- After `Heal` every call of `Prepare` passes the gate, to whatever peer and whatever random
  -- numbers are drawn, if 0 is not less than 0.
  pub gate-healthy :
      floats.less_f floats.zero_f floats.zero_f ≡ false
      → (draws : Draws floats) (peer : ℤ)
      → gate floats draws peer (healthy floats).drop_prepare (healthy floats) ≡ none
  unfolding gate delay
  gate-healthy irrefl draws peer = ground arith

  gate-cut :
      (draws : Draws floats) (id : ℤ) (rate : F) (now : Config F)
      → (now.isolated ≡ true) ⊎ (is_blocked id now.blocked ≡ true)
      → (e : Error) × (gate floats draws id rate now ≡ some e)
  unfolding gate
  gate-cut draws id rate now h = elim (Bool-cases now.isolated) [
    | inl out ↦ (wrap "node is isolated" err_unreachable, ground arith)
    | inr in_reach ↦ elim h [
      | inl out ↦ absurd (ground arith)
      | inr cut ↦ (wrap "link to peer is cut" err_unreachable, ground arith)
    ]
  ]

  -- A node that is isolated, or whose link to the peer is cut, does not reach the peer, whatever the
  -- rates and latencies are: both calls return an error, and the peer's state stays.
  pub cut_off :
      {S : Type 0} (draws : Draws floats) (id : ℤ) (before now : Config F)
      (on_prepare : PrepareRequest → S → Result PrepareResponse × S)
      (on_accept : AcceptRequest → S → Result AcceptResponse × S) (prepare : PrepareRequest)
      (accept : AcceptRequest) (s : S)
      → (now.isolated ≡ true) ⊎ (is_blocked id now.blocked ≡ true)
      → ((e : Error) × (faulty_prepare floats draws id before now on_prepare prepare s
            ≡ (err e, s)))
        × ((e : Error) × (faulty_accept floats draws id before now on_accept accept s ≡ (err e, s)))
  unfolding faulty_prepare faulty_accept
  cut_off draws id before now on_prepare on_accept prepare accept s h =
      let (e, p) = gate-cut draws id before.drop_prepare now h in
      let (f, q) = gate-cut draws id before.drop_accept now h in
      ((e, rw (p, faulty_prepare)), (f, rw (q, faulty_accept)))
