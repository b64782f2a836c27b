-- ===== src/Gate/Dispatch.antt =====
-- runtime/rx-host/src/gate/dispatch.rs: preparation of a request and its one native dispatch.
use rx_solutions.Base.{
  ℕ, ◌*◌, Bool, true, false, not, ◌||◌, Option, none, some, [], ◌∷◌, leb, ◌==◌, if◌then◌else◌,
  Result, ok, err, lookup,
}
use rx_solutions.Domain.Types.{Uuid, Counter, TimePoint, u64_max, checked_add}
use rx_solutions.Gate.Model.{
  Caller, DeliveryRecord, prepared, send_entered, Request, Guard, NativeCapture, CellTarget,
  store_fault, invalid_document, HostError, store, invalid, conflict, stale, not_found, voided,
}
use rx_solutions.Gate.Store.{Row, Tx, put, record_delivery}
use rx_solutions.Gate.Core.{Core, Hashes, Method, authorized, require_admission, transact, before}
use rx_solutions.Gate.Validation.{Local, validate_identity, same_operation, validate_current}
use rx_solutions.Gate.Receipts.{is_prepared, persist_capture}

-- `u64::checked_mul`.
abbrev checked_mul : ℕ → ℕ → Option ℕ
checked_mul a b = if leb (a * b) u64_max then some (a * b) else none

-- How long a preparation is good for.
unfoldable pub valid_until : Request → TimePoint → Result HostError TimePoint
valid_until r now = elim (checked_mul r.intent.prepare_validity_ms 1000000) [
  | none ↦ err invalid
  | some d ↦ elim (checked_add now.ticks_ns d) [
    | none ↦ err invalid
    | some t ↦ ok (record now { ticks_ns = t })
  ]
]

-- The checks that `prepare` and `authorize` begin with.
unfoldable pub admit :
    Hashes
    → Caller
    → Request
    → Result HostError (Option CellTarget)
    → Core
    → Result HostError (Unit {0})
admit h caller r target c = elim (authorized caller c) [
  | err e ↦ err e
  | ok _ ↦ elim (require_admission c) [ err e ↦ err e | ok _ ↦ validate_identity h target r c ]
]

-- The guard and the end of validity for a preparation made now.
unfoldable pub current : Caller → Request → Local → Core → Result HostError (Guard × TimePoint)
current caller r l c = elim (validate_current caller r l c) [
  | err e ↦ err e
  | ok g ↦ elim (valid_until r l.now) [ err e ↦ err e | ok t ↦ ok (g, t) ]
]

-- The transaction that binds a prepared record to another permit.
unfoldable pub rebind_tx : Uuid → DeliveryRecord → Counter → Tx DeliveryRecord
rebind_tx retired r revision s = elim (put retired none retired s.retired_permits) [
  | err e ↦ (err e, s)
  | ok ps ↦ record_delivery r (some revision) (record s { retired_permits = ps })
]

-- A record that exists: a repeated request, or one under a new permit.
unfoldable pub prepare_again :
    Hashes → Caller → Request → Local → Row DeliveryRecord → Method DeliveryRecord
prepare_again h caller r l row c = elim (same_operation h row.document r) [
  | err e ↦ (err e, c)
  | ok _ ↦
      if not (is_prepared row.document.state) || row.document.permit == r.permit.id
      then (ok row.document, c)
      else elim (current caller r l c) [
        | err e ↦ (err e, c)
        | ok (g, t) ↦
            transact
              (rebind_tx row.document.permit
                (record (row.document) {
                  permit = r.permit.id;
                  permit_digest = h.permit_hash r.permit;
                  prepared_boot = c.boot;
                  device_session = g.device_session;
                  prepare_until = t;
                })
                row.revision)
              c
      ]
]

-- The first record of an operation; `id` is the new identifier of its invocation.
unfoldable pub prepare_first : Hashes → Caller → Request → Local → Uuid → Method DeliveryRecord
prepare_first h caller r l id c = elim (current caller r l c) [
  | err e ↦ (err e, c)
  | ok (g, t) ↦
      transact
        (record_delivery
          (record {
            operation = r.operation;
            digest = r.digest;
            invocation = some id;
            state = prepared;
            journal_seq = 0;
            prepared_boot = c.boot;
            prepare_until = t;
            cell = r.permit.cell;
            intent = r.intent;
            permit = r.permit.id;
            device_session = g.device_session;
            evidence_ids = [];
            permit_digest = h.permit_hash r.permit;
          })
          none)
        c
]

-- `prepare`.
unfoldable pub prepare :
    Hashes
    → Caller
    → Request
    → Result HostError (Option CellTarget)
    → Local
    → Uuid
    → Method DeliveryRecord
prepare h caller r target l id c = elim (admit h caller r target c) [
  | err e ↦ (err e, c)
  | ok _ ↦ elim (lookup r.operation c.durable.voids) [
    | some v ↦ (if not (v.document.digest == r.digest) then err conflict else err voided, c)
    | none ↦ elim (lookup r.operation c.durable.deliveries) [
      | some row ↦ prepare_again h caller r l row c
      | none ↦ prepare_first h caller r l id c
    ]
  ]
]

-- Where `authorize` stands after its first half.
pub data Entry : Type 0 where
  replayed entered : DeliveryRecord → Entry

-- The transaction that consumes the permit and enters the send.
unfoldable pub enter_tx : Uuid → Uuid → DeliveryRecord → Counter → Tx DeliveryRecord
enter_tx permit operation r revision s = elim (lookup permit s.consumed_permits) [
  | some _ ↦ (err invalid_document, s)
  | none ↦ elim (put permit none (permit, operation) s.consumed_permits) [
    | err e ↦ (err e, s)
    | ok ps ↦ record_delivery r (some revision) (record s { consumed_permits = ps })
  ]
]

abbrev pub is_invocation : Option Uuid → Uuid → Bool
is_invocation none i = false
is_invocation (some j) i = j == i

-- A failure of the commit of `SendEntered` calls the local protection.
unfoldable pub protect_entry :
    Result HostError DeliveryRecord × Core → Result HostError Entry × Core
protect_entry (err x, c) = (err x, record c { incidents = store_fault ∷ c.incidents })
protect_entry (ok d, c) = (ok (entered d), c)

-- The commit of `SendEntered`.
unfoldable pub commit_entry : Request → Row DeliveryRecord → Method Entry
commit_entry r row c = protect_entry (
    transact
      (enter_tx r.permit.id r.operation (record (row.document) { state = send_entered })
        row.revision)
      c)

-- The checks of `authorize` over the record that it finds.
unfoldable pub enter_row : Caller → Request → Uuid → Local → Row DeliveryRecord → Method Entry
enter_row caller r invocation l row c =
    if not (is_invocation row.document.invocation invocation)
      || not (row.document.permit == r.permit.id)
    then (err conflict, c)
    else if not (is_prepared row.document.state)
    then (ok (replayed row.document), c)
    else if not (row.document.prepared_boot == c.boot)
        || not (before l.now row.document.prepare_until)
    then (err stale, c)
    else elim (validate_current caller r l c) [
      | err e ↦ (err e, c)
      | ok g ↦
          if not (g.device_session == row.document.device_session)
          then (err stale, c)
          else commit_entry r row c
    ]

-- The first half of `authorize`, up to and with the commit of `SendEntered`.
unfoldable pub enter :
    Hashes → Caller → Request → Uuid → Result HostError (Option CellTarget) → Local → Method Entry
enter h caller r invocation target l c = elim (admit h caller r target c) [
  | err e ↦ (err e, c)
  | ok _ ↦ elim (lookup r.operation c.durable.deliveries) [
    | none ↦ (err not_found, c)
    | some row ↦ elim (same_operation h row.document r) [
      | err e ↦ (err e, c)
      | ok _ ↦ enter_row caller r invocation l row c
    ]
  ]
]

abbrev pub is_store_error : HostError → Bool
is_store_error (store e) = true
is_store_error _ = false

-- A failure of the store after the command calls the local protection too.
unfoldable pub protect_capture :
    Result HostError DeliveryRecord × Core → Result HostError DeliveryRecord × Core
protect_capture (ok d, c) = (ok d, c)
protect_capture (err e, c) =
    (err e, if is_store_error e then record c { incidents = store_fault ∷ c.incidents } else c)

-- The command goes to the adapter, and its answer, that of `submit_with_context`, is kept.
unfoldable pub submit_native :
    Result HostError NativeCapture → Uuid → DeliveryRecord → Method DeliveryRecord
submit_native (err e) id d c = (err e, record c { native = d.operation ∷ c.native })
submit_native (ok capture) id d c =
    protect_capture (persist_capture id d capture (record c { native = d.operation ∷ c.native }))

-- The second half: the checks are made again before the command.
unfoldable pub submit :
    Caller
    → Request
    → Local
    → Result HostError NativeCapture
    → Uuid
    → DeliveryRecord
    → Method DeliveryRecord
submit caller r l answer id d c = elim (validate_current caller r l c) [
  | err e ↦ (err e, c)
  | ok g ↦
      if not (g.device_session == d.device_session)
      then (err stale, c)
      else submit_native answer id d c
]

-- What follows the first half.
unfoldable pub proceed :
    Caller
    → Request
    → Local
    → Result HostError NativeCapture
    → Uuid
    → Result HostError Entry × Core
    → Result HostError DeliveryRecord × Core
proceed caller r l answer id (err x, c) = (err x, c)
proceed caller r l answer id (ok (replayed d), c) = (ok d, c)
proceed caller r l answer id (ok (entered d), c) = submit caller r l answer id d c

-- `authorize`. The clock, the guard and the qualification are read before the commit (`l`) and
-- again before the submission (`again`).
unfoldable pub authorize :
    Hashes
    → Caller
    → Request
    → Uuid
    → Result HostError (Option CellTarget)
    → Local
    → Local
    → Result HostError NativeCapture
    → Uuid
    → Method DeliveryRecord
authorize h caller r invocation target l again answer id c =
    proceed caller r again answer id (enter h caller r invocation target l c)
