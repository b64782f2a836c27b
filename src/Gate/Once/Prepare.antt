-- ===== src/Gate/Once/Prepare.antt =====
-- `prepare` of runtime/rx-host/src/gate/dispatch.rs keeps an operation submitted once.
use rx_solutions.Base.{
  ◌≡◌, ◌||◌, refl, true, not, Option, none, some, arith, ◌==◌, Result, ok, lookup, inl, inr,
  Option-cases, Bool-cases, Result-cases,
}
use rx_solutions.Domain.Types.{Uuid, Counter}
use rx_solutions.Gate.Model.{Caller, DeliveryRecord, Request, CellTarget, HostError}
use rx_solutions.Gate.Store.{Row, Store, put}
use rx_solutions.Gate.Core.{Core, Hashes}
use rx_solutions.Gate.Validation.{Local, same_operation}
use rx_solutions.Gate.Receipts.{is_prepared}
use rx_solutions.Gate.Dispatch.{admit, current, rebind_tx, prepare_again, prepare_first, prepare}
use rx_solutions.Gate.Once.{Inv, Writes, record_delivery-Writes, Fits, write-Inv, transact-Inv}

-- A prepared record has nothing submitted and no void behind it.
pub prepared-Fits :
    (k : Uuid) (row : Row DeliveryRecord) (d : DeliveryRecord) (c : Core)
    → Inv c
    → lookup k c.durable.deliveries ≡ some row
    → is_prepared row.document.state ≡ true
    → d.operation ≡ row.document.operation
    → Fits d c
prepared-Fits k row d c v f p e = ground (arith, v.keyed k, v.safe k)

absent-Fits :
    (d : DeliveryRecord) (c : Core)
    → Inv c
    → lookup d.operation c.durable.deliveries ≡ none
    → lookup d.operation c.durable.voids ≡ none
    → Fits d c
absent-Fits d c v e f = ground (arith, v.safe d.operation)

pub rebind_tx-Writes :
    (retired : Uuid) (r : DeliveryRecord) (revision : Counter) (s : Store) {d : DeliveryRecord}
    → (rebind_tx retired r revision s).0 ≡ ok d
    → Writes d s (rebind_tx retired r revision s).1 × (d ≡ record r { journal_seq = d.journal_seq })
unfolding rebind_tx
rebind_tx-Writes retired r revision s h =
    elim (Result-cases (put retired none retired s.retired_permits)) [
      | inl (ps, e) ↦
          rw (e, rebind_tx)
            (record_delivery-Writes r (some revision) (record s { retired_permits = ps })
              (rw (e, rebind_tx) at h))
      | inr (x, e) ↦ absurd (ground (arith, e, h))
    ]

prepare_first-Inv :
    (h : Hashes) (caller : Caller) (r : Request) (l : Local) (id : Uuid) (c : Core)
    → Inv c
    → lookup r.operation c.durable.deliveries ≡ none
    → lookup r.operation c.durable.voids ≡ none
    → Inv (prepare_first h caller r l id c).1
unfolding prepare_first
prepare_first-Inv h caller r l id c v e f = elim (Result-cases (current caller r l c)) [
  | inr (x, k) ↦ rw (k, prepare_first) v
  | inl ((g, t), k) ↦
      rw (k, prepare_first)
        (transact-Inv _ c v λ d w.
          let (writes, same) = record_delivery-Writes _ none c.durable w in
          write-Inv d c _ writes (absent-Fits d c v (rw same e) (rw same f)) v)
]

prepare_again-Inv :
    (h : Hashes) (caller : Caller) (r : Request) (l : Local) (row : Row DeliveryRecord) (c : Core)
    → Inv c
    → lookup r.operation c.durable.deliveries ≡ some row
    → Inv (prepare_again h caller r l row c).1
unfolding prepare_again
prepare_again-Inv h caller r l row c v f = elim (Result-cases (same_operation h row.document r)) [
  | inr (x, k) ↦ rw (k, prepare_again) v
  | inl (u, k) ↦
      elim (Bool-cases
        (not (is_prepared row.document.state) || row.document.permit == r.permit.id)) [
          | inl done ↦ rw (k, prepare_again) (rw done v)
          | inr open_ ↦ elim (Result-cases (current caller r l c)) [
            | inr (x, m) ↦ rw (k, prepare_again) (rw open_ (rw m v))
            | inl ((g, t), m) ↦
                rw (k, prepare_again)
                  (rw open_ (
                    rw m (
                      transact-Inv _ c v λ d w.
                        let (writes, same) = rebind_tx-Writes _ _ _ c.durable w in
                        write-Inv d c _ writes
                          (prepared-Fits r.operation row d c v f (ground (arith, open_))
                            (rw same refl))
                          v)))
          ]
        ]
]

pub prepare-Inv :
    (h : Hashes) (caller : Caller) (r : Request) (target : Result HostError (Option CellTarget))
    (l : Local) (id : Uuid) (c : Core)
    → Inv c
    → Inv (prepare h caller r target l id c).1
unfolding prepare
prepare-Inv h caller r target l id c v = elim (Result-cases (admit h caller r target c)) [
  | inr (x, k) ↦ rw (k, prepare) v
  | inl (u, k) ↦ elim (Option-cases (lookup r.operation c.durable.voids)) [
    | inr (row, f) ↦ rw (k, prepare) (rw f v)
    | inl f ↦ elim (Option-cases (lookup r.operation c.durable.deliveries)) [
      | inr (row, e) ↦ rw (k, prepare) (rw f (rw e (prepare_again-Inv h caller r l row c v e)))
      | inl e ↦ rw (k, prepare) (rw f (rw e (prepare_first-Inv h caller r l id c v e f)))
    ]
  ]
]
