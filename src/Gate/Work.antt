-- ===== src/Gate/Work.antt =====
-- The calls of runtime/rx-host/src/gate on deliveries leave cells, grants, fences and arming alone.
pub mod Receipts
use rx_solutions.Base.{
  ◌≡◌, refl, ◌∙◌, not, ◌||◌, Option, none, some, List, [], ◌∷◌, ◌++◌, arith, ◌==◌, Result, lookup,
  inl, inr, Bool-cases, Result-cases, Option-cases,
}
use rx_solutions.Domain.Types.{Uuid, Counter}
use rx_solutions.Gate.Model.{
  Caller, Request, NativeCapture, CellTarget, DeliveryRecord, EvidenceRecord, HostError,
}
use rx_solutions.Gate.Store.{Row, Store, Tx, put, record_delivery}
use rx_solutions.Gate.Store.Laws.{record_delivery-frame}
use rx_solutions.Gate.Core.{Core, Hashes, transact}
use rx_solutions.Gate.Validation.{Local, same_operation}
use rx_solutions.Gate.Receipts.{is_prepared, capture_tx, persist_capture}
use rx_solutions.Gate.Dispatch.{admit, current, rebind_tx, prepare_again, prepare_first, prepare}

pub record SameTables (s s' : Store) : Type 0 where
  pub same_cells : s'.cells ≡ s.cells
  pub same_grants : s'.grants ≡ s.grants
  pub same_resources : s'.resources ≡ s.resources

pub record SameGate (c c' : Core) : Type 0 where
  pub tables : SameTables c.durable c'.durable
  pub same_armed : c'.armed ≡ c.armed

pub itself-SameTables : (s : Store) → SameTables s s
itself-SameTables s = record { same_cells = refl; same_grants = refl; same_resources = refl }

pub itself-SameGate : (c : Core) → SameGate c c
itself-SameGate c = record { tables = itself-SameTables c.durable; same_armed = refl }

pub then-SameGate : (a b c : Core) → SameGate a b → SameGate b c → SameGate a c
then-SameGate a b c u v = record {
  tables = record {
    same_cells = v.tables.same_cells ∙ u.tables.same_cells;
    same_grants = v.tables.same_grants ∙ u.tables.same_grants;
    same_resources = v.tables.same_resources ∙ u.tables.same_resources;
  };
  same_armed = v.same_armed ∙ u.same_armed;
}

pub transact-SameGate :
    {A : Type 0} (t : Tx A) (c : Core)
    → SameTables c.durable (t c.durable).1
    → SameGate c (transact t c).1
unfolding transact
transact-SameGate t c e = elim (Result-cases (t c.durable).0) [
  | inl (a, f) ↦ rw (f, transact) (record { tables = e; same_armed = refl })
  | inr (x, f) ↦ rw (f, transact) (itself-SameGate c)
]

pub record_delivery-SameTables :
    (r : DeliveryRecord) (expected : Option Counter) (s s' : Store)
    → SameTables s s'
    → SameTables s (record_delivery r expected s').1
record_delivery-SameTables r expected s s' e = record {
  same_cells = ground (arith, e, record_delivery-frame r expected s');
  same_grants = ground (arith, e, record_delivery-frame r expected s');
  same_resources = ground (arith, e, record_delivery-frame r expected s');
}

rebind_tx-SameTables :
    (retired : Uuid) (r : DeliveryRecord) (revision : Counter) (s : Store)
    → SameTables s (rebind_tx retired r revision s).1
unfolding rebind_tx
rebind_tx-SameTables retired r revision s =
    elim (Result-cases (put retired none retired s.retired_permits)) [
      | inr (x, e) ↦ rw (e, rebind_tx) (itself-SameTables s)
      | inl (ps, e) ↦
          rw (e, rebind_tx)
            (record_delivery-SameTables r (some revision) s (record s { retired_permits = ps })
              (record { same_cells = refl; same_grants = refl; same_resources = refl }))
    ]

prepare_first-SameGate :
    (h : Hashes) (caller : Caller) (r : Request) (l : Local) (id : Uuid) (c : Core)
    → SameGate c (prepare_first h caller r l id c).1
unfolding prepare_first
prepare_first-SameGate h caller r l id c = elim (Result-cases (current caller r l c)) [
  | inr (x, k) ↦ rw (k, prepare_first) (itself-SameGate c)
  | inl ((g, t), k) ↦
      rw (k, prepare_first)
        (transact-SameGate _ c
          (record_delivery-SameTables _ none c.durable _ (itself-SameTables c.durable)))
]

prepare_again-SameGate :
    (h : Hashes) (caller : Caller) (r : Request) (l : Local) (row : Row DeliveryRecord) (c : Core)
    → SameGate c (prepare_again h caller r l row c).1
unfolding prepare_again
prepare_again-SameGate h caller r l row c = elim (Result-cases (same_operation h row.document r)) [
  | inr (x, k) ↦ rw (k, prepare_again) (itself-SameGate c)
  | inl (u, k) ↦
      elim (Bool-cases
        (not (is_prepared row.document.state) || row.document.permit == r.permit.id)) [
          | inl done ↦ rw (k, prepare_again) (rw done (itself-SameGate c))
          | inr open_ ↦ elim (Result-cases (current caller r l c)) [
            | inr (x, m) ↦ rw (k, prepare_again) (rw open_ (rw m (itself-SameGate c)))
            | inl ((g, t), m) ↦
                rw (k, prepare_again)
                  (rw open_ (rw m (transact-SameGate _ c (rebind_tx-SameTables _ _ _ c.durable))))
          ]
        ]
]

pub prepare-SameGate :
    (h : Hashes) (caller : Caller) (r : Request) (target : Result HostError (Option CellTarget))
    (l : Local) (id : Uuid) (c : Core)
    → SameGate c (prepare h caller r target l id c).1
unfolding prepare
prepare-SameGate h caller r target l id c = elim (Result-cases (admit h caller r target c)) [
  | inr (x, k) ↦ rw (k, prepare) (itself-SameGate c)
  | inl (u, k) ↦ elim (Option-cases (lookup r.operation c.durable.voids)) [
    | inr (row, f) ↦ rw (k, prepare) (rw f (itself-SameGate c))
    | inl f ↦ elim (Option-cases (lookup r.operation c.durable.deliveries)) [
      | inr (row, e) ↦ rw (k, prepare) (rw f (rw e (prepare_again-SameGate h caller r l row c)))
      | inl e ↦ rw (k, prepare) (rw f (rw e (prepare_first-SameGate h caller r l id c)))
    ]
  ]
]

capture_tx-SameTables :
    (evidence : EvidenceRecord) (r : DeliveryRecord) (s : Store)
    → SameTables s (capture_tx evidence r s).1
unfolding capture_tx
capture_tx-SameTables evidence r s = elim (Option-cases (lookup r.operation s.deliveries)) [
  | inl e ↦ rw (e, capture_tx) (itself-SameTables s)
  | inr (row, e) ↦
      rw (e, capture_tx)
        (record_delivery-SameTables _ (some row.revision) s
          (record s { evidence = s.evidence ++ evidence ∷ [] })
          (record { same_cells = refl; same_grants = refl; same_resources = refl }))
]

pub persist_capture-SameGate :
    (id : Uuid) (r : DeliveryRecord) (capture : NativeCapture) (c : Core)
    → SameGate c (persist_capture id r capture c).1
unfolding persist_capture
persist_capture-SameGate id r capture c =
    elim (Bool-cases (capture.device_session == r.device_session)) [
      | inr other ↦ rw (other, persist_capture) (itself-SameGate c)
      | inl same ↦ elim (Option-cases r.invocation) [
        | inl f ↦ rw (same, persist_capture) (rw f (itself-SameGate c))
        | inr (i, f) ↦
            rw (same, persist_capture)
              (rw f (transact-SameGate _ c (capture_tx-SameTables _ r c.durable)))
      ]
    ]
