-- ===== src/Gate/Current/Submission.antt =====
-- `authorize` of runtime/rx-host/src/gate/dispatch.rs reaches the adapter from a current state only.
use rx_solutions.Base.{
  ◌≡◌, ◌≢◌, ◌⊎◌, inl, inr, refl, ◌∙◌, not, ◌||◌, Option, none, some, arith, ◌==◌, Result, ok, err,
  lookup, Bool-cases, Option-cases, Result-cases,
}
use rx_solutions.Domain.Types.{Uuid, Counter, TimePoint}
use rx_solutions.Gate.Model.{
  Caller, Request, NativeCapture, CellTarget, HostError, DeliveryRecord, send_entered,
}
use rx_solutions.Gate.Store.{Row, Store, put}
use rx_solutions.Gate.Store.Laws.{record_delivery-frame}
use rx_solutions.Gate.Core.{Core, Hashes, before}
use rx_solutions.Gate.Validation.{Local, same_operation, validate_current}
use rx_solutions.Gate.Receipts.{is_prepared}
use rx_solutions.Gate.Dispatch.{
  admit, is_invocation, Entry, replayed, entered, enter_tx, protect_entry, commit_entry, enter_row,
  enter, proceed, submit, authorize,
}
use rx_solutions.Gate.Current.{IsCurrent, validate_current-IsCurrent}
use rx_solutions.Gate.Once.{transact-ok, transact-err}

-- The same cells, grants, fences and permits, in the same process and with nothing new submitted.
pub record Beside (c c' : Core) : Type 0 where
  pub same_durable :
      (c'.durable.cells ≡ c.durable.cells)
      × (c'.durable.grants ≡ c.durable.grants)
      × (c'.durable.resources ≡ c.durable.resources)
      × (c'.durable.retired_permits ≡ c.durable.retired_permits)
  pub same_volatile : (c'.accepting ≡ c.accepting) × (c'.armed ≡ c.armed) × (c'.boot ≡ c.boot)
  pub same_native : c'.native ≡ c.native

itself-Beside : (c : Core) → Beside c c
itself-Beside c = record {
  same_durable = (refl, refl, refl, refl);
  same_volatile = (refl, refl, refl);
  same_native = refl;
}

Beside-IsCurrent :
    (caller : Caller) (r : Request) (now : TimePoint) (c c' : Core)
    → Beside c c'
    → IsCurrent caller r now c'
    → IsCurrent caller r now c
Beside-IsCurrent caller r now c c' b v =
    let (cells, grants, resources, permits) = b.same_durable in
    let (accepts, arms, boots) = b.same_volatile in
    record {
      accepting = ground (arith, accepts, v.accepting);
      armed = rw arms at v.armed;
      same_boot = ground (arith, boots, v.same_boot);
      unexpired = v.unexpired;
      not_retired = rw permits at v.not_retired;
      cell_open = rw cells at v.cell_open;
      grant_held = rw (grants, boots) at v.grant_held;
      covered = λ x e. rw (resources, grants) at v.covered x e;
    }

enter_tx-frame :
    (permit operation : Uuid) (d : DeliveryRecord) (revision : Counter) (s : Store)
    → let s' = (enter_tx permit operation d revision s).1 in
      (s'.cells ≡ s.cells)
      × (s'.grants ≡ s.grants)
      × (s'.resources ≡ s.resources)
      × (s'.retired_permits ≡ s.retired_permits)
unfolding enter_tx
enter_tx-frame permit operation d revision s =
    elim (Option-cases (lookup permit s.consumed_permits)) [
      | inr (row, f) ↦ rw (f, enter_tx) (refl, refl, refl, refl)
      | inl f ↦ elim (Result-cases (put permit none (permit, operation) s.consumed_permits)) [
        | inr (x, e) ↦ rw (f, enter_tx) (rw e (refl, refl, refl, refl))
        | inl (ps, e) ↦ ground (
          arith,
          f,
          e,
          record_delivery-frame d (some revision) (record s { consumed_permits = ps }),
        )
      ]
    ]

commit_entry-Beside :
    (r : Request) (row : Row DeliveryRecord) (c : Core) → Beside c (commit_entry r row c).1
unfolding commit_entry protect_entry
commit_entry-Beside r row c =
    let t =
      enter_tx r.permit.id r.operation (record (row.document) { state = send_entered })
        row.revision in
    elim (Result-cases (t c.durable).0) [
      | inr (x, e) ↦ rw (transact-err t c e) (record {
        same_durable = (refl, refl, refl, refl);
        same_volatile = (refl, refl, refl);
        same_native = refl;
      })
      | inl (d, e) ↦ rw (transact-ok t c e) (record {
        same_durable = enter_tx-frame r.permit.id r.operation _ row.revision c.durable;
        same_volatile = (refl, refl, refl);
        same_native = refl;
      })
    ]

enter_row-Beside :
    (caller : Caller) (r : Request) (invocation : Uuid) (l : Local) (row : Row DeliveryRecord)
    (c : Core)
    → Beside c (enter_row caller r invocation l row c).1
unfolding enter_row
enter_row-Beside caller r invocation l row c =
    elim (Bool-cases (
      not (is_invocation row.document.invocation invocation)
      || not (row.document.permit == r.permit.id))) [
        | inl e ↦ rw e (itself-Beside c)
        | inr e ↦ elim (Bool-cases (is_prepared row.document.state)) [
          | inr p ↦ rw e (rw p (itself-Beside c))
          | inl p ↦
              elim (Bool-cases (
                not (row.document.prepared_boot == c.boot)
                || not (before l.now row.document.prepare_until))) [
                  | inl b ↦ rw e (rw p (rw b (itself-Beside c)))
                  | inr b ↦ elim (Result-cases (validate_current caller r l c)) [
                    | inr (x, w) ↦ rw e (rw p (rw b (rw w (itself-Beside c))))
                    | inl (g, w) ↦
                        elim (Bool-cases (g.device_session == row.document.device_session)) [
                          | inr o ↦ rw e (rw p (rw b (rw w (rw o (itself-Beside c)))))
                          | inl o ↦ rw e (rw p (rw b (rw w (rw o (commit_entry-Beside r row c)))))
                        ]
                  ]
                ]
        ]
      ]

pub enter-Beside :
    (h : Hashes) (caller : Caller) (r : Request) (invocation : Uuid)
    (target : Result HostError (Option CellTarget)) (l : Local) (c : Core)
    → Beside c (enter h caller r invocation target l c).1
unfolding enter
enter-Beside h caller r invocation target l c = elim (Result-cases (admit h caller r target c)) [
  | inr (x, k) ↦ rw (k, enter) (itself-Beside c)
  | inl (u, k) ↦ elim (Option-cases (lookup r.operation c.durable.deliveries)) [
    | inl f ↦ rw (k, enter) (rw f (itself-Beside c))
    | inr (row, f) ↦ elim (Result-cases (same_operation h row.document r)) [
      | inr (x, s) ↦ rw (k, enter) (rw f (rw s (itself-Beside c)))
      | inl (y, s) ↦ rw (k, enter) (rw f (rw s (enter_row-Beside caller r invocation l row c)))
    ]
  ]
]

submit-cases :
    (caller : Caller) (r : Request) (l : Local) (answer : Result HostError NativeCapture)
    (id : Uuid) (d : DeliveryRecord) (c : Core)
    → ((submit caller r l answer id d c).1.native ≡ c.native) ⊎ IsCurrent caller r l.now c
unfolding submit
submit-cases caller r l answer id d c = elim (Result-cases (validate_current caller r l c)) [
  | inr (x, w) ↦ inl (rw (w, submit) refl)
  | inl (g, w) ↦ inr (validate_current-IsCurrent caller r l c w)
]

proceed-cases :
    (caller : Caller) (r : Request) (l : Local) (answer : Result HostError NativeCapture)
    (id : Uuid) (x : Result HostError Entry × Core)
    → ((proceed caller r l answer id x).1.native ≡ x.1.native) ⊎ IsCurrent caller r l.now x.1
unfolding proceed
proceed-cases caller r l answer id (err x, c) = inl refl
proceed-cases caller r l answer id (ok (replayed d), c) = inl refl
proceed-cases caller r l answer id (ok (entered d), c) = submit-cases caller r l answer id d c

pub authorize-cases :
    (h : Hashes) (caller : Caller) (r : Request) (invocation : Uuid)
    (target : Result HostError (Option CellTarget)) (l again : Local)
    (answer : Result HostError NativeCapture) (id : Uuid) (c : Core)
    → ((authorize h caller r invocation target l again answer id c).1.native ≡ c.native)
      ⊎ IsCurrent caller r again.now c
unfolding authorize
authorize-cases h caller r invocation target l again answer id c =
    let x = enter h caller r invocation target l c in
    let b = enter-Beside h caller r invocation target l c in
    elim (proceed-cases caller r again answer id x) [
      | inl e ↦ inl (e ∙ b.same_native)
      | inr v ↦ inr (Beside-IsCurrent caller r again.now c x.1 b v)
    ]

-- When `authorize` reached the adapter, then at the second reading of the clock the gate admitted work,
-- the cell was armed, as the permit says and blocked by nothing, the permit was of this process,
-- unexpired and not retired, and the grant was the caller's, not run out, and held every resource of
-- the intent under the highest fence of that resource.
pub authorize-IsCurrent :
    (h : Hashes) (caller : Caller) (r : Request) (invocation : Uuid)
    (target : Result HostError (Option CellTarget)) (l again : Local)
    (answer : Result HostError NativeCapture) (id : Uuid) (c : Core)
    → (authorize h caller r invocation target l again answer id c).1.native ≢ c.native
    → IsCurrent caller r again.now c
authorize-IsCurrent h caller r invocation target l again answer id c n =
    elim (authorize-cases h caller r invocation target l again answer id c) [
      | inl e ↦ absurd (n e)
      | inr v ↦ v
    ]
