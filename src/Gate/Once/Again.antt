-- ===== src/Gate/Once/Again.antt =====
-- A repeated `prepare` of runtime/rx-host/src/gate/dispatch.rs gives the record that it gave before.
use rx_solutions.Base.{
  ◌≡◌, refl, ◌∙◌, true, not, ◌||◌, Option, none, some, [], arith, ◌==◌, Result, ok, lookup, inl,
  inr, Bool-cases, Result-cases, Option-cases,
}
use rx_solutions.Domain.Types.{Uuid}
use rx_solutions.Gate.Model.{Caller, Request, CellTarget, HostError, DeliveryRecord, prepared}
use rx_solutions.Gate.Store.{Row, Store, Tx}
use rx_solutions.Gate.Store.Laws.{document_at}
use rx_solutions.Gate.Core.{Core, Hashes, authorized, require_admission, transact}
use rx_solutions.Gate.Validation.{Local, same_operation, validate_identity}
use rx_solutions.Gate.Receipts.{is_prepared}
use rx_solutions.Gate.Dispatch.{admit, current, prepare_again, prepare_first, prepare}
use rx_solutions.Gate.Once.{IsKeyed, Writes, record_delivery-Writes, transact-ok, transact-err}
use rx_solutions.Gate.Once.Prepare.{rebind_tx-Writes}

-- The state of a gate that has answered the request with the record.
record Answered (h : Hashes) (r : Request) (d : DeliveryRecord) (s : Store) : Type 0 where
  no_void : lookup r.operation s.voids ≡ none
  kept : document_at r.operation s.deliveries ≡ some d
  same : same_operation h d r ≡ ok tt
  bound : (not (is_prepared d.state) || d.permit == r.permit.id) ≡ true

-- The entry checks do not read the store.
admit-frame :
    (h : Hashes) (caller : Caller) (r : Request) (target : Result HostError (Option CellTarget))
    (c : Core) (s : Store)
    → admit h caller r target (record c { durable = s }) ≡ admit h caller r target c
unfolding admit authorized require_admission validate_identity
admit-frame h caller r target c s = refl

Answered-prepare :
    (h : Hashes) (caller : Caller) (r : Request) (target : Result HostError (Option CellTarget))
    (l : Local) (id : Uuid) (c : Core) (d : DeliveryRecord)
    → admit h caller r target c ≡ ok tt
    → Answered h r d c.durable
    → prepare h caller r target l id c ≡ (ok d, c)
unfolding prepare prepare_again
Answered-prepare h caller r target l id c d k a =
    elim (Option-cases (lookup r.operation c.durable.deliveries)) [
      | inl e ↦ absurd (ground (arith, e, a.kept))
      | inr (row, e) ↦
          let same : row.document ≡ d = ground (arith, e, a.kept) in
          let again : same_operation h row.document r ≡ ok tt = rw same (a.same) in
          let bound : (not (is_prepared row.document.state) || row.document.permit == r.permit.id)
              ≡ true =
            rw same (a.bound) in
          rw (k, prepare)
            (rw (a.no_void) (rw e (rw (again, prepare_again) (rw bound (rw same refl)))))
    ]

-- A record that a transaction wrote answers the request.
written-prepare :
    (h : Hashes) (caller : Caller) (r : Request) (target : Result HostError (Option CellTarget))
    (l : Local) (id : Uuid) (t : Tx DeliveryRecord) (c : Core) (w : DeliveryRecord)
    {d : DeliveryRecord}
    → admit h caller r target c ≡ ok tt
    → lookup r.operation c.durable.voids ≡ none
    → w.operation ≡ r.operation
    → w.permit ≡ r.permit.id
    → same_operation h w r ≡ ok tt
    → ((a : DeliveryRecord)
        → (t c.durable).0 ≡ ok a
        → Writes a c.durable (t c.durable).1 × (a ≡ record w { journal_seq = a.journal_seq }))
    → (transact t c).0 ≡ ok d
    → prepare h caller r target l id (transact t c).1 ≡ (ok d, (transact t c).1)
unfolding same_operation
written-prepare h caller r target l id t c w {d} k f named permitted same writes done =
    elim (Result-cases (t c.durable).0) [
      | inr (x, e) ↦ absurd (ground (arith, transact-err t c e, done))
      | inl (a, e) ↦
          let (wrote, is) = writes a e in
          let s = (t c.durable).1 in
          let equal : a ≡ d = ground (arith, transact-ok t c e, done) in
          rw (transact-ok t c e) (
            Answered-prepare h caller r target l id (record c { durable = s }) d
              (admit-frame h caller r target c s ∙ k)
              (record {
                no_void = rw (wrote.0) f;
                kept = ground (arith, wrote.1 r.operation, is, named, equal);
                same = ground (arith, same, is, equal);
                bound = ground (arith, permitted, is, equal);
              }))
    ]

first-prepare :
    (h : Hashes) (caller : Caller) (r : Request) (target : Result HostError (Option CellTarget))
    (l again : Local) (id id' : Uuid) (c : Core) {d : DeliveryRecord}
    → admit h caller r target c ≡ ok tt
    → lookup r.operation c.durable.voids ≡ none
    → (prepare_first h caller r l id c).0 ≡ ok d
    → prepare h caller r target again id' (prepare_first h caller r l id c).1
      ≡ (ok d, (prepare_first h caller r l id c).1)
unfolding prepare_first same_operation
first-prepare h caller r target l again id id' c k f done =
    elim (Result-cases (current caller r l c)) [
      | inr (x, m) ↦ absurd (ground (arith, m, done))
      | inl ((g, t), m) ↦
          let w : DeliveryRecord = record {
            operation = r.operation;
            digest = r.digest;
            invocation = some id;
            state = prepared;
            journal_seq = 0;
            prepared_boot = c.boot;
            prepare_until = t;
            cell = r.permit.cell;
            intent = r.intent;
            permit = r.permit.id;
            device_session = g.device_session;
            evidence_ids = [];
            permit_digest = h.permit_hash r.permit;
          } in
          rw (m, prepare_first)
            (written-prepare h caller r target again id' _ c w k f refl refl (ground arith)
              (λ a e. record_delivery-Writes _ none c.durable e) (rw (m, prepare_first) at done))
    ]

again-prepare :
    (h : Hashes) (caller : Caller) (r : Request) (target : Result HostError (Option CellTarget))
    (l again : Local) (id' : Uuid) (row : Row DeliveryRecord) (c : Core) {d : DeliveryRecord}
    → admit h caller r target c ≡ ok tt
    → lookup r.operation c.durable.voids ≡ none
    → lookup r.operation c.durable.deliveries ≡ some row
    → row.document.operation ≡ r.operation
    → (prepare_again h caller r l row c).0 ≡ ok d
    → prepare h caller r target again id' (prepare_again h caller r l row c).1
      ≡ (ok d, (prepare_again h caller r l row c).1)
unfolding prepare_again same_operation
again-prepare h caller r target l again id' row c {d} k f e named done =
    elim (Result-cases (same_operation h row.document r)) [
      | inr (x, s) ↦ absurd (ground (arith, s, done))
      | inl (u, s) ↦
          elim (Bool-cases
            (not (is_prepared row.document.state) || row.document.permit == r.permit.id)) [
              | inl b ↦
                  let equal : row.document ≡ d = ground (arith, s, b, done) in
                  rw (s, prepare_again)
                    (rw b (
                      Answered-prepare h caller r target again id' c d k (record {
                        no_void = f;
                        kept = rw e (rw equal refl);
                        same = rw equal at s;
                        bound = rw equal at b;
                      })))
              | inr b ↦ elim (Result-cases (current caller r l c)) [
                | inr (x, m) ↦ absurd (ground (arith, s, b, m, done))
                | inl ((g, t), m) ↦
                    let w : DeliveryRecord = record (row.document) {
                      permit = r.permit.id;
                      permit_digest = h.permit_hash r.permit;
                      prepared_boot = c.boot;
                      device_session = g.device_session;
                      prepare_until = t;
                    } in
                    rw (s, prepare_again)
                      (rw b (
                        rw m (
                          written-prepare h caller r target again id' _ c w k f named refl
                            (ground (arith, s)) (λ a w. rebind_tx-Writes _ _ _ c.durable w)
                            (rw m at (rw b at (rw (s, prepare_again) at done))))))
              ]
            ]
    ]

prepare-admitted :
    (h : Hashes) (caller : Caller) (r : Request) (target : Result HostError (Option CellTarget))
    (l : Local) (id : Uuid) (c : Core) {d : DeliveryRecord}
    → (prepare h caller r target l id c).0 ≡ ok d
    → (admit h caller r target c ≡ ok tt) × (lookup r.operation c.durable.voids ≡ none)
unfolding prepare
prepare-admitted h caller r target l id c done = elim (Result-cases (admit h caller r target c)) [
  | inr (x, k) ↦ absurd (ground (arith, k, done))
  | inl (u, k) ↦ elim (Option-cases (lookup r.operation c.durable.voids)) [
    | inr (row, f) ↦ absurd (ground (arith, k, f, done))
    | inl f ↦ (k, f)
  ]
]

prepare-again :
    (h : Hashes) (caller : Caller) (r : Request) (target : Result HostError (Option CellTarget))
    (l : Local) (id : Uuid) (c : Core) (row : Row DeliveryRecord)
    → admit h caller r target c ≡ ok tt
    → lookup r.operation c.durable.voids ≡ none
    → lookup r.operation c.durable.deliveries ≡ some row
    → prepare h caller r target l id c ≡ prepare_again h caller r l row c
unfolding prepare
prepare-again h caller r target l id c row k f e = rw (k, prepare) (rw f (rw e refl))

prepare-first :
    (h : Hashes) (caller : Caller) (r : Request) (target : Result HostError (Option CellTarget))
    (l : Local) (id : Uuid) (c : Core)
    → admit h caller r target c ≡ ok tt
    → lookup r.operation c.durable.voids ≡ none
    → lookup r.operation c.durable.deliveries ≡ none
    → prepare h caller r target l id c ≡ prepare_first h caller r l id c
unfolding prepare
prepare-first h caller r target l id c k f e = rw (k, prepare) (rw f (rw e refl))

-- When `prepare`, over a store whose delivery rows stand under their operations, gives a record,
-- the same request, made again at once under any identifier and at any reading of the clock and
-- the guard, gives the same record and changes nothing.
pub prepare_twice :
    (h : Hashes) (caller : Caller) (r : Request) (target : Result HostError (Option CellTarget))
    (l again : Local) (id id' : Uuid) (c : Core) {d : DeliveryRecord}
    → IsKeyed c
    → (prepare h caller r target l id c).0 ≡ ok d
    → prepare h caller r target again id' (prepare h caller r target l id c).1
      ≡ (ok d, (prepare h caller r target l id c).1)
prepare_twice h caller r target l again id id' c keyed done =
    let (k, f) = prepare-admitted h caller r target l id c done in
    elim (Option-cases (lookup r.operation c.durable.deliveries)) [
      | inr (row, e) ↦
          let is = prepare-again h caller r target l id c row k f e in
          rw is (
            again-prepare h caller r target l again id' row c k f e
              (ground (arith, keyed r.operation, e)) (rw is at done))
      | inl e ↦
          let is = prepare-first h caller r target l id c k f e in
          rw is (first-prepare h caller r target l again id id' c k f (rw is at done))
    ]
