-- ===== src/Gate/Store.antt =====
-- runtime/rx-host/src/journal.rs over the entities of sdk/crates/rx-storage/src/lib.rs.
-- A key of the store is a kind and the digest of a value, so each kind is a table of its own, and
-- a row is a revision with a document of that kind. A transaction is an action on the store.
pub mod Laws
use rx_solutions.Base.{
  ℕ, ◌+◌, Bool, true, false, Option, none, some, List, [], ◌∷◌, leb, ◌==◌, if◌then◌else◌, Result,
  ok, err, Action, ◌>>=◌, ◌>>◌, gets, modify, pure, raise, lift, or_raise, lookup, insert,
}
use rx_solutions.Domain.Types.{Uuid, Digest, Name, Counter, increment}
use rx_solutions.Gate.Model.{
  HostMeta, CellState, DeliveryRecord, StoredGrant, GateReceipt, VoidRecord, ResourceFence,
  EvidenceRecord, StoreError, integrity, revision_conflict, key_conflict, invalid_document,
}

pub record Row (V : Type 0) : Type 0 where
  pub revision : Counter
  pub document : V

abbrev pub Table : Type 0 → Type 0
Table V = List (ℕ × Row V)

pub record Store : Type 0 where
  pub host_meta : Option (Row HostMeta)
  pub cells : Table CellState
  pub resources : Table ResourceFence
  pub grants : Table StoredGrant
  pub grant_requests : Table (Digest × StoredGrant)
  pub fence_requests : Table (Digest × GateReceipt)
  pub arm_requests : Table (Digest × GateReceipt)
  pub deliveries : Table DeliveryRecord
  pub delivery_history : Table DeliveryRecord
  pub voids : Table VoidRecord
  pub retired_permits : Table Uuid
  pub consumed_permits : Table (Uuid × Uuid)
  pub evidence : List EvidenceRecord

abbrev pub Tx : Type 0 → Type 0
Tx A = Action Store StoreError A

-- `current.as_ref().map(|r| r.revision) != expected`.
abbrev pub same_revision : {V : Type 0} → Option (Row V) → Option Counter → Bool
same_revision none none = true
same_revision (some row) (some r) = row.revision == r
same_revision _ _ = false

abbrev pub or_zero : Option Counter → Counter
or_zero none = 0
or_zero (some r) = r

abbrev i64_max : ℕ
i64_max = 9223372036854775807

-- The revision that a row is written with; `signed` is the column's range.
unfoldable pub next_revision : Option Counter → Result StoreError Counter
unfolding increment
next_revision expected = elim (increment (or_zero expected)) [
  | err e ↦ err integrity
  | ok r ↦ if leb r i64_max then ok r else err invalid_document
]

-- `put`: refused unless the row has the expected revision, `none` for no row.
unfoldable pub put : {V : Type 0} → ℕ → Option Counter → V → Table V → Result StoreError (Table V)
unfolding next_revision
put k expected v t =
    if same_revision (lookup k t) expected
    then elim (next_revision expected) [
      | err e ↦ err e
      | ok r ↦ ok (insert k (record { revision = r; document = v }) t)
    ]
    else err revision_conflict

-- `next_sequence`.
unfoldable pub next_sequence : Tx (Counter × Uuid)
unfolding increment next_revision
next_sequence s = elim s.host_meta [
  | none ↦ (err integrity, s)
  | some row ↦ elim (increment row.document.delivery_seq) [
    | err e ↦ (err integrity, s)
    | ok n ↦ elim (next_revision (some row.revision)) [
      | err e ↦ (err e, s)
      | ok r ↦ (
        ok (n, row.document.delivery_journal),
        record s {
          host_meta =
              some (record { revision = r; document = record (row.document) { delivery_seq = n } });
        },
      )
    ]
  ]
]

-- `record_delivery`: the record with its place in the journal, written to its row and the history.
unfoldable pub record_delivery : DeliveryRecord → Option Counter → Tx DeliveryRecord
record_delivery r expected s =
    let (n, s') = next_sequence s in
    elim n [
      | err e ↦ (err e, s')
      | ok (seq, journal) ↦
          let r' = record r { journal_seq = seq } in
          elim (put r.operation expected r' s'.deliveries) [
            | err e ↦ (err e, s')
            | ok ds ↦ elim (put seq none r' s'.delivery_history) [
              | err e ↦ (err e, record s' { deliveries = ds })
              | ok hs ↦ (ok r', record s' { deliveries = ds; delivery_history = hs })
            ]
          ]
    ]
