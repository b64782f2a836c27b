-- ===== src/Gate/Once/Dispatch.antt =====
-- `authorize` of runtime/rx-host/src/gate/dispatch.rs submits an operation once.
use rx_solutions.Base.{
  ◌≡◌, ◌||◌, ◌≢◌, refl, true, not, Option, none, some, ◌∷◌, arith, ◌==◌, Result, ok, err, lookup,
  inl, inr, Option-cases, Bool-cases, Result-cases,
}
use rx_solutions.Domain.Types.{Uuid, Counter}
use rx_solutions.Gate.Model.{
  Caller, DeliveryRecord, send_entered, Request, NativeCapture, CellTarget, HostError,
}
use rx_solutions.Gate.Store.{Row, Store, put}
use rx_solutions.Gate.Store.Laws.{document_at}
use rx_solutions.Gate.Core.{Core, Hashes, before}
use rx_solutions.Gate.Validation.{Local, same_operation, validate_current}
use rx_solutions.Gate.Receipts.{is_prepared}
use rx_solutions.Gate.Dispatch.{
  admit, Entry, replayed, entered, enter_tx, protect_entry, protect_capture, submit_native, proceed,
  commit_entry, is_invocation, enter_row, enter, submit, authorize,
}
use rx_solutions.Gate.Once.Receipts.{persist_capture-Inv}
use rx_solutions.Gate.Once.{
  reframe-Inv, count, Inv, Writes, record_delivery-Writes, write-Inv, transact-ok, transact-err,
}
use rx_solutions.Gate.Once.Prepare.{prepared-Fits}

enter_tx-Writes :
    (permit operation : Uuid) (r : DeliveryRecord) (revision : Counter) (s : Store)
    {d : DeliveryRecord}
    → (enter_tx permit operation r revision s).0 ≡ ok d
    → Writes d s (enter_tx permit operation r revision s).1
      × (d ≡ record r { journal_seq = d.journal_seq })
unfolding enter_tx
enter_tx-Writes permit operation r revision s h =
    elim (Option-cases (lookup permit s.consumed_permits)) [
      | inr (row, f) ↦ absurd (ground (arith, f, h))
      | inl f ↦ elim (Result-cases (put permit none (permit, operation) s.consumed_permits)) [
        | inl (ps, e) ↦
            rw (f, enter_tx)
              (rw e (
                record_delivery-Writes r (some revision) (record s { consumed_permits = ps })
                  (rw e at (rw (f, enter_tx) at h))))
        | inr (x, e) ↦ absurd (ground (arith, f, e, h))
      ]
    ]

-- An operation whose send is in the journal and whose command is not yet submitted.
abbrev Entered : DeliveryRecord → Core → Type 0
Entered d c =
    (document_at d.operation c.durable.deliveries ≡ some d)
    × (d.state ≡ send_entered)
    × (count d.operation c.native ≡ 0)

-- What the first half of `authorize` ends with.
abbrev Enters : Result HostError Entry × Core → Type 0
Enters x = Inv x.1 × ((d : DeliveryRecord) → x.0 ≡ ok (entered d) → Entered d x.1)

stays-Enters :
    (x : Result HostError Entry) (c : Core)
    → ((d : DeliveryRecord) → x ≢ ok (entered d))
    → Inv c
    → Enters (x, c)
stays-Enters x c n v = (v, λ d e. absurd (n d e))

prepared-unsent :
    (k : Uuid) (row : Row DeliveryRecord) (c : Core)
    → Inv c
    → lookup k c.durable.deliveries ≡ some row
    → is_prepared row.document.state ≡ true
    → count row.document.operation c.native ≡ 0
prepared-unsent k row c v f p = ground (arith, v.keyed k, v.safe k)

commit_entry-Enters :
    (r : Request) (k : Uuid) (row : Row DeliveryRecord) (c : Core)
    → Inv c
    → lookup k c.durable.deliveries ≡ some row
    → is_prepared row.document.state ≡ true
    → Enters (commit_entry r row c)
unfolding commit_entry protect_entry
commit_entry-Enters r k row c v f p =
    let t =
      enter_tx r.permit.id r.operation (record (row.document) { state = send_entered })
        row.revision in
    elim (Result-cases (t c.durable).0) [
      | inr (x, e) ↦
          rw (transact-err t c e) (stays-Enters _ _ (λ d q. cc) (reframe-Inv c _ refl refl v))
      | inl (d, e) ↦
          let (writes, same) = enter_tx-Writes r.permit.id r.operation _ row.revision c.durable e in
          let sent = prepared-unsent k row c v f p in
          rw (transact-ok t c e) (
            write-Inv d c _ writes (prepared-Fits k row d c v f p (rw same refl)) v,
            λ d' q. ground (arith, writes.1 d'.operation, same, sent, q),
          )
    ]

enter_row-Enters :
    (caller : Caller) (r : Request) (invocation : Uuid) (l : Local) (k : Uuid)
    (row : Row DeliveryRecord) (c : Core)
    → Inv c
    → lookup k c.durable.deliveries ≡ some row
    → Enters (enter_row caller r invocation l row c)
unfolding enter_row
enter_row-Enters caller r invocation l k row c v f =
    elim (Bool-cases (
      not (is_invocation row.document.invocation invocation)
      || not (row.document.permit == r.permit.id))) [
        | inl e ↦ rw e (stays-Enters _ c (λ d q. cc) v)
        | inr e ↦ elim (Bool-cases (is_prepared row.document.state)) [
          | inr p ↦ rw e (rw p (stays-Enters _ c (λ d q. cc) v))
          | inl p ↦
              elim (Bool-cases (
                not (row.document.prepared_boot == c.boot)
                || not (before l.now row.document.prepare_until))) [
                  | inl b ↦ rw e (rw p (rw b (stays-Enters _ c (λ d q. cc) v)))
                  | inr b ↦ elim (Result-cases (validate_current caller r l c)) [
                    | inr (x, w) ↦
                        rw e (rw p (rw b (rw (w, enter_row) (stays-Enters _ c (λ d q. cc) v))))
                    | inl (g, w) ↦
                        elim (Bool-cases (g.device_session == row.document.device_session)) [
                          | inr o ↦ rw e (
                              rw p
                                (rw b (rw (w, enter_row) (rw o (stays-Enters _ c (λ d q. cc) v)))))
                          | inl o ↦ rw e (
                              rw p (
                                rw b
                                  (rw (w, enter_row) (rw o (commit_entry-Enters r k row c v f p)))))
                        ]
                  ]
                ]
        ]
      ]

enter-Enters :
    (h : Hashes) (caller : Caller) (r : Request) (invocation : Uuid)
    (target : Result HostError (Option CellTarget)) (l : Local) (c : Core)
    → Inv c
    → Enters (enter h caller r invocation target l c)
unfolding enter
enter-Enters h caller r invocation target l c v = elim (Result-cases (admit h caller r target c)) [
  | inr (x, k) ↦ rw (k, enter) (stays-Enters _ c (λ d q. cc) v)
  | inl (u, k) ↦ elim (Option-cases (lookup r.operation c.durable.deliveries)) [
    | inl f ↦ rw (k, enter) (rw f (stays-Enters _ c (λ d q. cc) v))
    | inr (row, f) ↦ elim (Result-cases (same_operation h row.document r)) [
      | inr (x, m) ↦ rw (k, enter) (rw f (rw m (stays-Enters _ c (λ d q. cc) v)))
      | inl (w, m) ↦
          rw (k, enter) (rw f (rw m (enter_row-Enters caller r invocation l r.operation row c v f)))
    ]
  ]
]

-- To submit an operation that is entered and was not submitted.
push-Inv :
    (d : DeliveryRecord) (c : Core)
    → Inv c
    → Entered d c
    → Inv (record c { native = d.operation ∷ c.native })
push-Inv d c v (row, state, none_yet) = record {
  keyed = v.keyed;
  safe = λ op. ground (arith, v.safe op, row, state, none_yet);
}

protect_capture-Inv :
    (x : Result HostError DeliveryRecord × Core) → Inv x.1 → Inv (protect_capture x).1
unfolding protect_capture
protect_capture-Inv (ok d, c) v = v
protect_capture-Inv (err (HostError.store e), c) v = reframe-Inv c _ refl refl v
protect_capture-Inv (err e, c) v = v

submit_native-Inv :
    (answer : Result HostError NativeCapture) (id : Uuid) (d : DeliveryRecord) (c : Core)
    → Inv c
    → Entered d c
    → Inv (submit_native answer id d c).1
unfolding submit_native
submit_native-Inv (err x) id d c v e = push-Inv d c v e
submit_native-Inv (ok capture) id d c v e = protect_capture-Inv _ (
    persist_capture-Inv id d capture (record c { native = d.operation ∷ c.native })
      (push-Inv d c v e) (ground (arith, e)))

submit-Inv :
    (caller : Caller) (r : Request) (l : Local) (answer : Result HostError NativeCapture)
    (id : Uuid) (d : DeliveryRecord) (c : Core)
    → Inv c
    → Entered d c
    → Inv (submit caller r l answer id d c).1
unfolding submit
submit-Inv caller r l answer id d c v e = elim (Result-cases (validate_current caller r l c)) [
  | inr (x, w) ↦ rw (w, submit) v
  | inl (g, w) ↦ elim (Bool-cases (g.device_session == d.device_session)) [
    | inr o ↦ rw (w, submit) (rw o v)
    | inl o ↦ rw (w, submit) (rw o (submit_native-Inv answer id d c v e))
  ]
]

proceed-Inv :
    (caller : Caller) (r : Request) (l : Local) (answer : Result HostError NativeCapture)
    (id : Uuid) (x : Result HostError Entry × Core)
    → Enters x
    → Inv (proceed caller r l answer id x).1
unfolding proceed
proceed-Inv caller r l answer id (err x, c) e = e.0
proceed-Inv caller r l answer id (ok (replayed d), c) e = e.0
proceed-Inv caller r l answer id (ok (entered d), c) e =
    submit-Inv caller r l answer id d c e.0 (e.1 d refl)

pub enter-Inv :
    (h : Hashes) (caller : Caller) (r : Request) (invocation : Uuid)
    (target : Result HostError (Option CellTarget)) (l : Local) (c : Core)
    → Inv c
    → Inv (enter h caller r invocation target l c).1
enter-Inv h caller r invocation target l c v = (enter-Enters h caller r invocation target l c v).0

pub authorize-Inv :
    (h : Hashes) (caller : Caller) (r : Request) (invocation : Uuid)
    (target : Result HostError (Option CellTarget)) (l again : Local)
    (answer : Result HostError NativeCapture) (id : Uuid) (c : Core)
    → Inv c
    → Inv (authorize h caller r invocation target l again answer id c).1
unfolding authorize
authorize-Inv h caller r invocation target l again answer id c v =
    proceed-Inv caller r again answer id _ (enter-Enters h caller r invocation target l c v)
