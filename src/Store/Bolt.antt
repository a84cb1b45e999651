-- ===== src/Store/Bolt.antt =====
-- `BoltStore` of pkg/storage/bolt.go. The database (bbolt) and the encoder (encoding/json) are
-- parameters, with what the store relies on.
use interactive_paxos.Prelude.{
  ℕ, ℤ, pos, Bool, eqb_ℤ, Result, ok, err, Error, new, wrap, Option, none, some, ◌≡◌, inl, inr,
  Result-cases, Option-cases, if◌then◌else◌, arith, ok_or,
}
use interactive_paxos.Messages.{AcceptorState, empty_state}
use interactive_paxos.Store.{Store, IsDurable}

-- The `record` that the file holds.
pub record StateRecord : Type 0 where
  pub version : ℤ
  pub promised_round : ℤ
  pub promised_node_id : ℤ
  pub accepted_round : ℤ
  pub accepted_node_id : ℤ
  pub accepted_value : ℕ
  pub has_accepted : Bool

abbrev pub state_version : ℤ
state_version = pos 1

-- The key of the acceptor's bucket: a `View` with `Get`, and an `Update` with `Put`.
pub record Bucket (D B : Type 0) : Type 0 where
  pub get : D → Result (Option B)
  pub put : B → D → Option Error × D

-- Transactions: a `View` that succeeds sees the content, an `Update` that succeeds replaces it, and
-- one that fails leaves it.
pub record IsTransactional {D B : Type 0} (bucket : Bucket D B) : Type 0 where
  pub content : D → Option B
  pub get-content : (s : D) (x : Option B) → bucket.get s ≡ ok x → x ≡ content s
  pub content-put :
      (x : B) (s : D) → (bucket.put x s).0 ≡ none → content (bucket.put x s).1 ≡ some x
  pub content-put_fails :
      (x : B) (s : D) (e : Error)
      → (bucket.put x s).0 ≡ some e
      → content (bucket.put x s).1 ≡ content s

-- `json.Marshal` and `json.Unmarshal` of the record.
pub record Json (B : Type 0) : Type 0 where
  pub marshal : StateRecord → Result B
  pub unmarshal : B → Result StateRecord

-- What has been encoded decodes to itself.
abbrev pub IsLossless : {B : Type 0} → Json B → Type 0
IsLossless {B} json = (r : StateRecord) (b : B) → json.marshal r ≡ ok b → json.unmarshal b ≡ ok r

abbrev pub to_record : AcceptorState → StateRecord
to_record state = record {
  version = state_version;
  promised_round = state.promised.round;
  promised_node_id = state.promised.node_id;
  accepted_round = state.accepted_proposal.round;
  accepted_node_id = state.accepted_proposal.node_id;
  accepted_value = state.accepted_value;
  has_accepted = state.has_accepted;
}

abbrev pub of_record : StateRecord → AcceptorState
of_record rec = record {
  promised = record { round = rec.promised_round; node_id = rec.promised_node_id };
  accepted_proposal = record { round = rec.accepted_round; node_id = rec.accepted_node_id };
  accepted_value = rec.accepted_value;
  has_accepted = rec.has_accepted;
}

module _ {D B : Type 0} (bucket : Bucket D B) (json : Json B) where
  -- The body of the transaction of `Load`: no key is the zero state.
  unfoldable pub decode : Option B → Result AcceptorState
  decode none = ok empty_state
  decode (some bytes) = elim (json.unmarshal bytes) [
    | err e ↦ err (wrap "state is corrupt" e)
    | ok rec ↦
        if eqb_ℤ rec.version state_version
        then ok (of_record rec)
        else err (new "state has another version")
  ]

  -- `BoltStore.Load`
  unfoldable pub bolt_load : D → Result AcceptorState
  bolt_load db = elim (bucket.get db) [
    | err e ↦ err (wrap "storage: load" e)
    | ok bytes ↦ elim (decode bytes) [ err e ↦ err (wrap "storage: load" e) | ok state ↦ ok state ]
  ]

  -- `BoltStore.Save`
  unfoldable pub bolt_save : AcceptorState → D → Option Error × D
  bolt_save state db = elim (json.marshal (to_record state)) [
    | err e ↦ (some (wrap "storage: encode state" e), db)
    | ok bytes ↦
        let (failure, db') = bucket.put bytes db in
        elim failure [ some e ↦ (some (wrap "storage: save" e), db') | none ↦ (none, db') ]
  ]

  abbrev pub bolt_store : Store D
  bolt_store = record { load = bolt_load; save = bolt_save }

module _ {D B : Type 0} {bucket : Bucket D B} {json : Json B} (bolt : IsTransactional bucket)
    (lossless : IsLossless json) where
  -- The state that a `Load` finds; the zero state if the file is corrupt.
  abbrev pub state_on_disk : D → AcceptorState
  state_on_disk db = ok_or empty_state (decode bucket json (bolt.content db))

  -- A `Load` that succeeds has decoded what the database holds.
  load-state_on_disk :
      (db : D) (x : AcceptorState) → bolt_load bucket json db ≡ ok x → x ≡ state_on_disk db
  unfolding bolt_load ok_or
  load-state_on_disk db x h = elim (Result-cases (bucket.get db)) [
    | inr (e, failed) ↦ ground arith
    | inl (bytes, got) ↦ elim (Result-cases (decode bucket json bytes)) [
      | inr (e, failed) ↦ ground arith
      | inl (state, decoded) ↦ ground (arith, bolt.get-content db bytes got)
    ]
  ]

  -- What was encoded from a state decodes to it.
  decode-marshal :
      (x : AcceptorState) (bytes : B)
      → json.marshal (to_record x) ≡ ok bytes
      → decode bucket json (some bytes) ≡ ok x
  unfolding decode
  decode-marshal x bytes h = ground (arith, lossless (to_record x) bytes h)

  state_on_disk-save :
      (x : AcceptorState) (db : D)
      → (bolt_save bucket json x db).0 ≡ none
      → state_on_disk (bolt_save bucket json x db).1 ≡ x
  unfolding bolt_save ok_or
  state_on_disk-save x db h = elim (Result-cases (json.marshal (to_record x))) [
    | inr (e, failed) ↦ ground arith
    | inl (bytes, coded) ↦ elim (Option-cases (bucket.put bytes db).0) [
      | inr (e, failed) ↦ ground arith
      | inl stored ↦ ground (arith, bolt.content-put bytes db stored, decode-marshal x bytes coded)
    ]
  ]

  state_on_disk-save_fails :
      (x : AcceptorState) (db : D) (e : Error)
      → (bolt_save bucket json x db).0 ≡ some e
      → state_on_disk (bolt_save bucket json x db).1 ≡ state_on_disk db
  unfolding bolt_save
  state_on_disk-save_fails x db e h = elim (Result-cases (json.marshal (to_record x))) [
    | inr (e', failed) ↦ ground arith
    | inl (bytes, coded) ↦ elim (Option-cases (bucket.put bytes db).0) [
      | inr (e', failed) ↦ ground (arith, bolt.content-put_fails bytes db e' failed)
      | inl stored ↦ ground arith
    ]
  ]

  -- Over a database with transactions and an encoder that loses nothing, `BoltStore` keeps the
  -- promise of the `Store` interface: a `Load` that succeeds returns the content, a `Save` that
  -- succeeds replaces it, and a `Save` that fails, in the encoder or in the database, leaves it.
  pub bolt_store-IsDurable : IsDurable (bolt_store bucket json)
  bolt_store-IsDurable = record {
    content = state_on_disk;
    load-content = load-state_on_disk;
    content-save = state_on_disk-save;
    content-save_fails = state_on_disk-save_fails;
  }
