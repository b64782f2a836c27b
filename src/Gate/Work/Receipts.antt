-- ===== src/Gate/Work/Receipts.antt =====
-- `authorize` of runtime/rx-host/src/gate/dispatch.rs, and `void_before_send` and `reconcile` of
-- gate/receipts.rs, leave cells, grants, fences and arming alone.
use rx_solutions.Base.{
  refl, Option, none, some, ◌∷◌, arith, ◌==◌, Result, ok, err, lookup, inl, inr, Bool-cases,
  Result-cases, Option-cases,
}
use rx_solutions.Domain.Types.{Uuid, Digest}
use rx_solutions.Gate.Model.{
  Caller, Request, NativeCapture, CellTarget, DeliveryRecord, VoidRecord, StoreError, HostError,
}
use rx_solutions.Gate.Store.{Row, Store}
use rx_solutions.Gate.Store.Laws.{next_sequence-frame}
use rx_solutions.Gate.Core.{Core, Hashes, authorized}
use rx_solutions.Gate.Validation.{Local, validate_current}
use rx_solutions.Gate.Receipts.{
  is_prepared, is_outstanding, persist_capture, void_tx, then_void, void_known, void_operation,
  or_busy, void_before_send, receipt, reconcile,
}
use rx_solutions.Gate.Dispatch.{
  Entry, replayed, entered, enter, protect_capture, submit_native, submit, proceed, authorize,
}
use rx_solutions.Gate.Current.Submission.{Beside, enter-Beside}
use rx_solutions.Gate.Work.{
  SameTables, SameGate, itself-SameTables, itself-SameGate, then-SameGate, transact-SameGate,
  record_delivery-SameTables, persist_capture-SameGate,
}

Beside-SameGate : (c c' : Core) → Beside c c' → SameGate c c'
Beside-SameGate c c' b = record {
  tables = record {
    same_cells = b.same_durable.0;
    same_grants = b.same_durable.1;
    same_resources = b.same_durable.2;
  };
  same_armed = b.same_volatile.1;
}

protect_capture-SameGate :
    (c : Core) (x : Result HostError DeliveryRecord × Core)
    → SameGate c x.1
    → SameGate c (protect_capture x).1
unfolding protect_capture
protect_capture-SameGate c (ok d, c') s = s
protect_capture-SameGate c (err e, c') s = record {
  tables = record {
    same_cells = ground (arith, s);
    same_grants = ground (arith, s);
    same_resources = ground (arith, s);
  };
  same_armed = ground (arith, s);
}

submit_native-SameGate :
    (answer : Result HostError NativeCapture) (id : Uuid) (d : DeliveryRecord) (c : Core)
    → SameGate c (submit_native answer id d c).1
unfolding submit_native
submit_native-SameGate (err e) id d c = record {
  tables = itself-SameTables c.durable;
  same_armed = refl;
}
submit_native-SameGate (ok capture) id d c =
    let sent = record c { native = d.operation ∷ c.native } in
    protect_capture-SameGate c _ (
      then-SameGate c sent _ (record { tables = itself-SameTables c.durable; same_armed = refl })
        (persist_capture-SameGate id d capture sent))

submit-SameGate :
    (caller : Caller) (r : Request) (l : Local) (answer : Result HostError NativeCapture)
    (id : Uuid) (d : DeliveryRecord) (c : Core)
    → SameGate c (submit caller r l answer id d c).1
unfolding submit
submit-SameGate caller r l answer id d c = elim (Result-cases (validate_current caller r l c)) [
  | inr (x, w) ↦ rw (w, submit) (itself-SameGate c)
  | inl (g, w) ↦ elim (Bool-cases (g.device_session == d.device_session)) [
    | inr o ↦ rw (w, submit) (rw o (itself-SameGate c))
    | inl o ↦ rw (w, submit) (rw o (submit_native-SameGate answer id d c))
  ]
]

proceed-SameGate :
    (caller : Caller) (r : Request) (l : Local) (answer : Result HostError NativeCapture)
    (id : Uuid) (c : Core) (x : Result HostError Entry × Core)
    → SameGate c x.1
    → SameGate c (proceed caller r l answer id x).1
unfolding proceed
proceed-SameGate caller r l answer id c (err x, c') s = s
proceed-SameGate caller r l answer id c (ok (replayed d), c') s = s
proceed-SameGate caller r l answer id c (ok (entered d), c') s =
    then-SameGate c c' _ s (submit-SameGate caller r l answer id d c')

pub enter-SameGate :
    (h : Hashes) (caller : Caller) (r : Request) (invocation : Uuid)
    (target : Result HostError (Option CellTarget)) (l : Local) (c : Core)
    → SameGate c (enter h caller r invocation target l c).1
enter-SameGate h caller r invocation target l c =
    Beside-SameGate c (enter h caller r invocation target l c).1
      (enter-Beside h caller r invocation target l c)

pub authorize-SameGate :
    (h : Hashes) (caller : Caller) (r : Request) (invocation : Uuid)
    (target : Result HostError (Option CellTarget)) (l again : Local)
    (answer : Result HostError NativeCapture) (id : Uuid) (c : Core)
    → SameGate c (authorize h caller r invocation target l again answer id c).1
unfolding authorize
authorize-SameGate h caller r invocation target l again answer id c =
    proceed-SameGate caller r again answer id c _ (enter-SameGate h caller r invocation target l c)

pub reconcile-SameGate :
    (caller : Caller) (operation : Uuid) (found : Result HostError (Option NativeCapture))
    (id : Uuid) (c : Core)
    → SameGate c (reconcile caller operation found id c).1
unfolding reconcile
reconcile-SameGate caller operation found id c = elim (Result-cases (receipt caller operation c)) [
  | inr (x, e) ↦ rw (e, reconcile) (itself-SameGate c)
  | inl (r, e) ↦ elim (Bool-cases (is_outstanding r.state)) [
    | inr settled ↦ rw (e, reconcile) (rw settled (itself-SameGate c))
    | inl open_ ↦ elim (Option-cases r.invocation) [
      | inl f ↦ rw (e, reconcile) (rw open_ (rw f (itself-SameGate c)))
      | inr (i, f) ↦ rw (e, reconcile) (rw open_ (rw f (answered r found)))
    ]
  ]
]
  where
    answered :
        (r : DeliveryRecord) (found : Result HostError (Option NativeCapture))
        → SameGate c
            (elim found as (λ _. Result HostError DeliveryRecord × Core) [
              | err e ↦ (err e, c)
              | ok none ↦ (ok r, c)
              | ok (some capture) ↦ persist_capture id r capture c
            ]).1
    answered r (err e) = itself-SameGate c
    answered r (ok none) = itself-SameGate c
    answered r (ok (some capture)) = persist_capture-SameGate id r capture c

void_tx-SameTables :
    (operation : Uuid) (digest : Digest) (s s' : Store)
    → SameTables s s'
    → SameTables s (void_tx operation digest s').1
unfolding void_tx
void_tx-SameTables operation digest s s' e = record {
  same_cells = ground (arith, e, next_sequence-frame s');
  same_grants = ground (arith, e, next_sequence-frame s');
  same_resources = ground (arith, e, next_sequence-frame s');
}

then_void-SameTables :
    (operation : Uuid) (digest : Digest) (s : Store) (x : Result StoreError DeliveryRecord × Store)
    → SameTables s x.1
    → SameTables s (then_void operation digest x).1
unfolding then_void
then_void-SameTables operation digest s (err e, s') u = u
then_void-SameTables operation digest s (ok d, s') u = void_tx-SameTables operation digest s s' u

void_known-SameTables :
    (operation : Uuid) (digest : Digest) (row : Row DeliveryRecord) (s : Store)
    → SameTables s (void_known operation digest row s).1
unfolding void_known
void_known-SameTables operation digest row s = elim (Bool-cases (row.document.digest == digest)) [
  | inr other ↦ rw (other, void_known) (itself-SameTables s)
  | inl same ↦ elim (Bool-cases (is_prepared row.document.state)) [
    | inr past ↦ rw (same, void_known) (rw past (itself-SameTables s))
    | inl open_ ↦
        rw (same, void_known)
          (rw open_ (
            then_void-SameTables operation digest s _
              (record_delivery-SameTables _ (some row.revision) s s (itself-SameTables s))))
  ]
]

void_operation-SameTables :
    (operation : Uuid) (digest : Digest) (s : Store)
    → SameTables s (void_operation operation digest s).1
unfolding void_operation
void_operation-SameTables operation digest s = elim (Option-cases (lookup operation s.voids)) [
  | inr (row, f) ↦ elim (Bool-cases (row.document.digest == digest)) [
    | inl same ↦ rw (f, void_operation) (rw same (itself-SameTables s))
    | inr other ↦ rw (f, void_operation) (rw other (itself-SameTables s))
  ]
  | inl f ↦ elim (Option-cases (lookup operation s.deliveries)) [
    | inl e ↦
        rw (f, void_operation)
          (rw e (void_tx-SameTables operation digest s s (itself-SameTables s)))
    | inr (row, e) ↦ rw (f, void_operation) (rw e (void_known-SameTables operation digest row s))
  ]
]

or_busy-SameGate :
    (c : Core) (x : Result HostError (Option VoidRecord) × Core)
    → SameGate c x.1
    → SameGate c (or_busy x).1
unfolding or_busy
or_busy-SameGate c (err e, c') s = s
or_busy-SameGate c (ok none, c') s = s
or_busy-SameGate c (ok (some v), c') s = s

pub void_before_send-SameGate :
    (caller : Caller) (operation : Uuid) (digest : Digest) (c : Core)
    → SameGate c (void_before_send caller operation digest c).1
unfolding void_before_send
void_before_send-SameGate caller operation digest c = elim (Result-cases (authorized caller c)) [
  | inr (x, e) ↦ rw (e, void_before_send) (itself-SameGate c)
  | inl (u, e) ↦
      rw (e, void_before_send)
        (or_busy-SameGate c _
          (transact-SameGate _ c (void_operation-SameTables operation digest c.durable)))
]
