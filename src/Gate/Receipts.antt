-- ===== src/Gate/Receipts.antt =====
-- runtime/rx-host/src/gate/receipts.rs: captures, voids and reconciliation.
use rx_solutions.Base.{
  Bool, true, false, not, Option, none, some, [], ◌∷◌, ◌++◌, ◌==◌, if◌then◌else◌, Result, ok, err,
  lookup,
}
use rx_solutions.Domain.Types.{Uuid, Digest}
use rx_solutions.Gate.Model.{
  Caller, DeliveryRecord, ReceiptState, prepared, send_entered, native_accepted, result_captured,
  voided_before_send, VoidRecord, NativeCapture, EvidenceRecord, StoreError, key_conflict,
  invalid_document, HostError, conflict, busy, not_found, native_unknown,
}
use rx_solutions.Gate.Store.{Row, Store, Tx, put, next_sequence, record_delivery}
use rx_solutions.Gate.Core.{Core, Method, authorized, transact}

abbrev pub is_prepared : ReceiptState → Bool
is_prepared prepared = true
is_prepared _ = false

-- `SendEntered | NativeAccepted`: handed to the native side, with no result yet.
abbrev pub is_outstanding : ReceiptState → Bool
is_outstanding send_entered = true
is_outstanding native_accepted = true
is_outstanding _ = false

abbrev pub add_evidence : Uuid → DeliveryRecord → DeliveryRecord
add_evidence id r = record r { state = result_captured; evidence_ids = r.evidence_ids ++ id ∷ [] }

-- The transaction of `persist_capture`. The identifier is new, so `append` adds the evidence.
unfoldable pub capture_tx : EvidenceRecord → DeliveryRecord → Tx DeliveryRecord
capture_tx evidence r s = elim (lookup r.operation s.deliveries) [
  | none ↦ (err invalid_document, s)
  | some row ↦
      record_delivery (add_evidence evidence.evidence_id r) (some row.revision)
        (record s { evidence = s.evidence ++ evidence ∷ [] })
]

-- `persist_capture`; `id` is the new identifier of the evidence.
unfoldable pub persist_capture : Uuid → DeliveryRecord → NativeCapture → Method DeliveryRecord
persist_capture id r capture c =
    if not (capture.device_session == r.device_session)
    then (err native_unknown, c)
    else elim r.invocation [
      | none ↦ (err conflict, c)
      | some invocation ↦
          transact
            (capture_tx
              (record {
                evidence_id = id;
                operation = r.operation;
                invocation = invocation;
                profile_digest = r.intent.profile_digest;
                capture = capture;
              })
              r)
            c
    ]

-- The end of the transaction of `void_before_send`: the void takes a place in the journal.
unfoldable pub void_tx : Uuid → Digest → Tx (Option VoidRecord)
void_tx operation digest s =
    let (n, s') = next_sequence s in
    elim n [
      | err e ↦ (err e, s')
      | ok (seq, journal) ↦
          let v : VoidRecord = record { operation = operation; digest = digest; sequence = seq } in
          elim (put operation none v s'.voids) [
            | err e ↦ (err e, s')
            | ok vs ↦ (ok (some v), record s' { voids = vs })
          ]
    ]

-- The void is written after the record that says so.
unfoldable pub then_void :
    Uuid
    → Digest
    → Result StoreError DeliveryRecord × Store
    → Result StoreError (Option VoidRecord) × Store
then_void operation digest (err e, s) = (err e, s)
then_void operation digest (ok r, s) = void_tx operation digest s

-- An operation that has a record: `none` is the answer for work past preparation.
unfoldable pub void_known : Uuid → Digest → Row DeliveryRecord → Tx (Option VoidRecord)
void_known operation digest row s =
    if not (row.document.digest == digest)
    then (err key_conflict, s)
    else if not (is_prepared row.document.state)
    then (ok none, s)
    else then_void operation digest (
        record_delivery (record (row.document) { state = voided_before_send }) (some row.revision)
          s)

-- The transaction of `void_before_send`.
unfoldable pub void_operation : Uuid → Digest → Tx (Option VoidRecord)
void_operation operation digest s = elim (lookup operation s.voids) [
  | some v ↦
      if not (v.document.digest == digest) then (err key_conflict, s) else (ok (some v.document), s)
  | none ↦ elim (lookup operation s.deliveries) [
    | none ↦ void_tx operation digest s
    | some row ↦ void_known operation digest row s
  ]
]

-- Work past preparation is not voided.
unfoldable pub or_busy :
    Result HostError (Option VoidRecord) × Core → Result HostError VoidRecord × Core
or_busy (err e, c) = (err e, c)
or_busy (ok none, c) = (err busy, c)
or_busy (ok (some v), c) = (ok v, c)

-- `void_before_send`.
unfoldable pub void_before_send : Caller → Uuid → Digest → Method VoidRecord
void_before_send caller operation digest c = elim (authorized caller c) [
  | err e ↦ (err e, c)
  | ok _ ↦ or_busy (transact (void_operation operation digest) c)
]

-- `receipt`.
unfoldable pub receipt : Caller → Uuid → Core → Result HostError DeliveryRecord
receipt caller operation c = elim (authorized caller c) [
  | err e ↦ err e
  | ok _ ↦ elim (lookup operation c.durable.deliveries) [
    | none ↦ err not_found
    | some row ↦ ok row.document
  ]
]

-- `reconcile`; `found` is the answer of the adapter's `lookup`, which is asked only for work that
-- is outstanding and has an invocation.
unfoldable pub reconcile :
    Caller → Uuid → Result HostError (Option NativeCapture) → Uuid → Method DeliveryRecord
reconcile caller operation found id c = elim (receipt caller operation c) [
  | err e ↦ (err e, c)
  | ok r ↦ if not (is_outstanding r.state) then (ok r, c) else elim r.invocation [
    | none ↦ (ok r, c)
    | some invocation ↦ elim found [
      | err e ↦ (err e, c)
      | ok none ↦ (ok r, c)
      | ok (some capture) ↦ persist_capture id r capture c
    ]
  ]
]
