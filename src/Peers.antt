-- ===== src/Peers.antt =====
-- pkg/cluster/peer.go: the peers that a command line names. The functions of the packages strings and
-- strconv are parameters.
use interactive_paxos.Prelude.{
  ℤ, pos, Bool, true, false, ltb_ℤ, leb_ℤ, eqb_ℤ, String, Result, ok, err, new, wrap, Option, none,
  some, List, [], ◌∷◌, length, ◌≡◌, refl, inl, inr, if◌then◌else◌, arith, Result-cases, suc, subst,
  ok-injective,
}

-- `strings.Cut` at "@", `strings.TrimSpace`, `strconv.Atoi`, and the comparison with "".
pub record Strings : Type 0 where
  pub cut : String → Option (String × String)
  pub trim : String → String
  pub atoi : String → Result ℤ
  pub is_empty : String → Bool

pub record Peer : Type 0 where
  pub id : ℤ
  pub addr : String

abbrev pub is_seen : ℤ → List ℤ → Bool
is_seen id [] = false
is_seen id (k ∷ keys) = if eqb_ℤ id k then true else is_seen id keys

module _ (strings : Strings) where
  -- The tests of `ParsePeer` after the number has been read.
  abbrev pub checked_peer : ℤ → String → Result Peer
  checked_peer parsed addr =
      if ltb_ℤ parsed (pos 0)
      then err (new "peer: id must be non-negative")
      else if strings.is_empty addr
      then err (new "peer: empty address")
      else ok (record { id = parsed; addr = addr })

  -- `ParsePeer`
  unfoldable pub parse_peer : String → Result Peer
  parse_peer spec = elim (strings.cut spec) [
    | none ↦ err (new "peer: expected form <id>@<host:port>")
    | some (id, addr) ↦ elim (strings.atoi (strings.trim id)) [
      | err e ↦ err (wrap "peer: invalid id" e)
      | ok parsed ↦ checked_peer parsed (strings.trim addr)
    ]
  ]

  -- The loop of `ParsePeers`, with the keys of its map `seen`.
  unfoldable pub parse_loop : ℤ → List ℤ → List String → Result (List Peer)
  parse_loop self_id seen [] = ok []
  parse_loop self_id seen (spec ∷ specs) = elim (parse_peer spec) [
    | err e ↦ err e
    | ok peer ↦
        let rest = parse_loop self_id (peer.id ∷ seen) specs in
        if eqb_ℤ peer.id self_id
        then err (new "peer: id collides with this node's id")
        else if is_seen peer.id seen
        then err (new "peer: duplicate id")
        else elim rest [ err e ↦ err e | ok peers ↦ ok (peer ∷ peers) ]
  ]

  -- `ParsePeers`
  abbrev pub parse_peers : List String → ℤ → Result (List Peer)
  parse_peers specs self_id = parse_loop self_id [] specs

  -- Each peer has an id that is not negative, not the node's own and not one of the earlier ones, and an
  -- address.
  abbrev pub AreDistinct : ℤ → List ℤ → List Peer → Type 0
  AreDistinct self_id seen [] = Unit
  AreDistinct self_id seen (p ∷ ps) =
      (eqb_ℤ p.id self_id ≡ false)
      × (is_seen p.id seen ≡ false)
      × (leb_ℤ (pos 0) p.id ≡ true)
      × (strings.is_empty p.addr ≡ false)
      × AreDistinct self_id (p.id ∷ seen) ps

  parsed_peer :
      (spec : String) (p : Peer)
      → parse_peer spec ≡ ok p
      → (leb_ℤ (pos 0) p.id ≡ true) × (strings.is_empty p.addr ≡ false)
  unfolding parse_peer
  parsed_peer spec p h = (ground arith, ground arith)

  loop_parts :
      (self_id : ℤ) (seen : List ℤ) (spec : String) (specs : List String) (peers : List Peer)
      → parse_loop self_id seen (spec ∷ specs) ≡ ok peers
      → (p : Peer) × (rest : List Peer) × (parse_peer spec ≡ ok p)
        × (eqb_ℤ p.id self_id ≡ false)
        × (is_seen p.id seen ≡ false)
        × (parse_loop self_id (p.id ∷ seen) specs ≡ ok rest)
        × (p ∷ rest ≡ peers)
  unfolding parse_loop
  loop_parts self_id seen spec specs peers h = elim (Result-cases (parse_peer spec)) [
    | inr (e, failed) ↦ absurd (ground arith)
    | inl (p, parsed) ↦ elim (Result-cases (parse_loop self_id (p.id ∷ seen) specs)) [
      | inr (e, failed) ↦ absurd (ground arith)
      | inl (rest, done) ↦ (p, rest, parsed, ground arith, ground arith, done, ground arith)
    ]
  ]

  loop_distinct :
      (self_id : ℤ) (seen : List ℤ) (specs : List String) (peers : List Peer)
      → parse_loop self_id seen specs ≡ ok peers
      → AreDistinct self_id seen peers × (length peers ≡ length specs)
  unfolding parse_loop
  loop_distinct self_id seen [] peers h =
      subst (λ x. AreDistinct self_id seen x × (length x ≡ 0)) (ok-injective h) (tt, refl)
  loop_distinct self_id seen (spec ∷ specs) peers h =
      let (p, rest, parsed, other, fresh, done, e) = loop_parts self_id seen spec specs peers h in
      let (low, named) = parsed_peer spec p parsed in
      let (later, count) = loop_distinct self_id (p.id ∷ seen) specs rest done in
      subst (λ x. AreDistinct self_id seen x × (length x ≡ suc (length specs))) e
        ((other, fresh, low, named, later), omega arith)

  -- The peers that `ParsePeers` returns without an error are as many as the specifications; each has
  -- an address and an id that is not negative, not the node's own and not one of the earlier peers'.
  pub parse_peers_distinct :
      (specs : List String) (self_id : ℤ) (peers : List Peer)
      → parse_peers specs self_id ≡ ok peers
      → AreDistinct self_id [] peers × (length peers ≡ length specs)
  parse_peers_distinct specs self_id = loop_distinct self_id [] specs
