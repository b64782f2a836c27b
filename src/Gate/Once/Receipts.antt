-- ===== src/Gate/Once/Receipts.antt =====
-- `persist_capture`, `void_before_send` and `reconcile` of runtime/rx-host/src/gate/receipts.rs keep the
-- invariant: they submit nothing, and a void leaves nothing to submit.
use rx_solutions.Base.{
  ◌≡◌, refl, true, ◌||◌, Option, none, some, [], ◌∷◌, ◌++◌, arith, ◌==◌, Result, ok, err, lookup,
  inl, inr, Option-cases, Bool-cases, Result-cases,
}
use rx_solutions.Domain.Types.{Uuid, Digest, Counter}
use rx_solutions.Gate.Model.{
  Caller, DeliveryRecord, VoidRecord, NativeCapture, HostError, StoreError, EvidenceRecord,
}
use rx_solutions.Gate.Store.{Row, Store, next_sequence}
use rx_solutions.Gate.Store.Laws.{document_at, put-document_at, next_sequence-frame}
use rx_solutions.Gate.Core.{Core, authorized}
use rx_solutions.Gate.Receipts.{
  is_prepared, is_outstanding, capture_tx, persist_capture, add_evidence, void_tx, then_void,
  void_known, void_operation, or_busy, void_before_send, receipt, reconcile,
}
use rx_solutions.Gate.Once.{
  is_past, is_unsent, is_some, Inv, Writes, record_delivery-Writes, write-Inv, transact-Inv,
}

capture_tx-Writes :
    (e : EvidenceRecord) (r : DeliveryRecord) (s : Store) {d : DeliveryRecord}
    → (capture_tx e r s).0 ≡ ok d
    → Writes d s (capture_tx e r s).1
      × (d ≡ record (add_evidence e.evidence_id r) { journal_seq = d.journal_seq })
unfolding capture_tx
capture_tx-Writes e r s h = elim (Option-cases (lookup r.operation s.deliveries)) [
  | inl f ↦ absurd (ground (arith, f, h))
  | inr (row, f) ↦
      rw (f, capture_tx)
        (record_delivery-Writes _ (some row.revision) (record s { evidence = s.evidence ++ e ∷ [] })
          (rw (f, capture_tx) at h))
]

-- Evidence is kept of an operation past its preparation only.
pub persist_capture-Inv :
    (id : Uuid) (r : DeliveryRecord) (capture : NativeCapture) (c : Core)
    → Inv c
    → is_past (document_at r.operation c.durable.deliveries) ≡ true
    → Inv (persist_capture id r capture c).1
unfolding persist_capture
persist_capture-Inv id r capture c v past =
    elim (Bool-cases (capture.device_session == r.device_session)) [
      | inr other ↦ rw other v
      | inl same ↦ elim (Option-cases r.invocation) [
        | inl f ↦ rw same (rw (f, persist_capture) v)
        | inr (i, f) ↦ rw same (
            rw (f, persist_capture)
              (transact-Inv _ c v λ d w.
                let (writes, e) = capture_tx-Writes _ r c.durable w in
                write-Inv d c _ writes (ground (arith, e, v.safe r.operation)) v))
      ]
    ]

receipt-row :
    (caller : Caller) (operation : Uuid) (c : Core) {r : DeliveryRecord}
    → receipt caller operation c ≡ ok r
    → document_at operation c.durable.deliveries ≡ some r
unfolding receipt
receipt-row caller operation c h = ground arith

pub reconcile-Inv :
    (caller : Caller) (operation : Uuid) (found : Result HostError (Option NativeCapture))
    (id : Uuid) (c : Core)
    → Inv c
    → Inv (reconcile caller operation found id c).1
unfolding reconcile
reconcile-Inv caller operation found id c v = elim (Result-cases (receipt caller operation c)) [
  | inr (x, e) ↦ rw (e, reconcile) v
  | inl (r, e) ↦ elim (Bool-cases (is_outstanding r.state)) [
    | inr settled ↦ rw (e, reconcile) (rw settled v)
    | inl open_ ↦ elim (Option-cases r.invocation) [
      | inl f ↦ rw (e, reconcile) (rw open_ (rw f v))
      | inr (i, f) ↦
          rw (e, reconcile)
            (rw open_ (
              rw f (
                answered r found
                  (ground (arith, receipt-row caller operation c e, v.keyed operation)))))
    ]
  ]
]
  where
    answered :
        (r : DeliveryRecord) (found : Result HostError (Option NativeCapture))
        → is_past (document_at r.operation c.durable.deliveries) ≡ true
        → Inv
            (elim found as (λ _. Result HostError DeliveryRecord × Core) [
              | err e ↦ (err e, c)
              | ok none ↦ (ok r, c)
              | ok (some capture) ↦ persist_capture id r capture c
            ]).1
    answered r (err e) p = v
    answered r (ok none) p = v
    answered r (ok (some capture)) p = persist_capture-Inv id r capture c v p

void_tx-frame :
    (operation : Uuid) (digest : Digest) (s : Store) {o : Option VoidRecord}
    → (void_tx operation digest s).0 ≡ ok o
    → ((void_tx operation digest s).1.deliveries ≡ s.deliveries)
      × ((j : Uuid)
          → is_some (document_at j (void_tx operation digest s).1.voids)
            ≡ (j == operation || is_some (document_at j s.voids)))
unfolding void_tx
void_tx-frame operation digest s {o} h = (
  ground (arith, next_sequence-frame s),
  λ j.
      let v : Counter → VoidRecord =
        λ n. record { operation = operation; digest = digest; sequence = n } in
      elim (Result-cases (next_sequence s).0) [
        | inr (x, e) ↦ absurd (ground (arith, e, h))
        | inl ((n, journal), e) ↦ ground (
          arith,
          e,
          next_sequence-frame s,
          put-document_at j operation none (v n) (next_sequence s).1.voids
              {t' = (void_tx operation digest s).1.voids},
        )
      ],
)

-- A void goes to an operation that is unknown, or whose record says that it is voided.
void_tx-Inv :
    (operation : Uuid) (digest : Digest) (c : Core) {o : Option VoidRecord}
    → Inv c
    → is_unsent (document_at operation c.durable.deliveries) ≡ true
    → (void_tx operation digest c.durable).0 ≡ ok o
    → Inv (record c { durable = (void_tx operation digest c.durable).1 })
void_tx-Inv operation digest c v u h =
    let (same, marks) = void_tx-frame operation digest c.durable h in
    record {
      keyed = λ j. ground (arith, same, v.keyed j);
      safe = λ op. ground (arith, same, marks op, v.safe op);
    }

then_void-Inv :
    (operation : Uuid) (digest : Digest) (c : Core) (x : Result StoreError DeliveryRecord × Store)
    {o : Option VoidRecord}
    → ((d : DeliveryRecord)
        → x.0 ≡ ok d
        → Inv (record c { durable = x.1 })
          × (is_unsent (document_at operation x.1.deliveries) ≡ true))
    → (then_void operation digest x).0 ≡ ok o
    → Inv (record c { durable = (then_void operation digest x).1 })
unfolding then_void
then_void-Inv operation digest c (err e, s) good h = cc
then_void-Inv operation digest c (ok d, s) good h =
    let (v, u) = good d refl in void_tx-Inv operation digest (record c { durable = s }) v u h

void_known-Inv :
    (operation : Uuid) (digest : Digest) (row : Row DeliveryRecord) (c : Core)
    {o : Option VoidRecord}
    → Inv c
    → lookup operation c.durable.deliveries ≡ some row
    → (void_known operation digest row c.durable).0 ≡ ok o
    → Inv (record c { durable = (void_known operation digest row c.durable).1 })
unfolding void_known
void_known-Inv operation digest row c v e h = elim (Bool-cases (row.document.digest == digest)) [
  | inr other ↦ rw other v
  | inl same ↦ elim (Bool-cases (is_prepared row.document.state)) [
    | inr past ↦ rw same (rw past v)
    | inl open_ ↦ rw same (
        rw open_ (
          then_void-Inv operation digest c _
            (λ d w.
              let (writes, k) = record_delivery-Writes _ (some row.revision) c.durable w in
              (
                write-Inv d c _ writes
                    (ground (arith, k, e, open_, v.keyed operation, v.safe operation)) v,
                ground (arith, k, e, writes.1 operation, v.keyed operation),
              ))
            (rw open_ at (rw same at h))))
  ]
]

void_operation-Inv :
    (operation : Uuid) (digest : Digest) (c : Core) {o : Option VoidRecord}
    → Inv c
    → (void_operation operation digest c.durable).0 ≡ ok o
    → Inv (record c { durable = (void_operation operation digest c.durable).1 })
unfolding void_operation
void_operation-Inv operation digest c v h = elim (Option-cases (lookup operation c.durable.voids)) [
  | inr (row, f) ↦ elim (Bool-cases (row.document.digest == digest)) [
    | inl same ↦ rw (f, void_operation) (rw same v)
    | inr other ↦ rw (f, void_operation) (rw other v)
  ]
  | inl f ↦ elim (Option-cases (lookup operation c.durable.deliveries)) [
    | inl e ↦
        rw (f, void_operation)
          (rw e
            (void_tx-Inv operation digest c v (rw e refl) (rw e at (rw (f, void_operation) at h))))
    | inr (row, e) ↦
        rw (f, void_operation)
          (rw e (void_known-Inv operation digest row c v e (rw e at (rw (f, void_operation) at h))))
  ]
]

or_busy-Inv : (x : Result HostError (Option VoidRecord) × Core) → Inv x.1 → Inv (or_busy x).1
unfolding or_busy
or_busy-Inv (err e, c) v = v
or_busy-Inv (ok none, c) v = v
or_busy-Inv (ok (some r), c) v = v

pub void_before_send-Inv :
    (caller : Caller) (operation : Uuid) (digest : Digest) (c : Core)
    → Inv c
    → Inv (void_before_send caller operation digest c).1
unfolding void_before_send
void_before_send-Inv caller operation digest c v = elim (Result-cases (authorized caller c)) [
  | inr (x, e) ↦ rw (e, void_before_send) v
  | inl (u, e) ↦
      rw (e, void_before_send)
        (or_busy-Inv _ (transact-Inv _ c v λ o w. void_operation-Inv operation digest c v w))
]
