-- ===== src/Gate/Marks/Scopes.antt =====
-- `fence` and `arm` of runtime/rx-host/src/gate/scopes.rs, the marks and the arming of a cell.
use rx_solutions.Base.{
  ◌≡◌, ◌≤◌, true, false, not, ◌||◌, ◌&&◌, is_empty, Option, none, some, List, arith, ltb, ◌==◌,
  Result, ok, err, any, lookup, inl, inr, Bool-cases, Option-cases, Result-cases,
}
use rx_solutions.Domain.Types.{Uuid, Digest, Name, Counter}
use rx_solutions.Gate.Model.{Caller, CellState, GateReceipt, CellTarget, StoreError, HostError}
use rx_solutions.Gate.Store.{Row, Store, put}
use rx_solutions.Gate.Store.Laws.{put-document_at, next_sequence-frame}
use rx_solutions.Gate.Core.{Core, Hashes, authorized, require_admission}
use rx_solutions.Gate.Validation.{validate_scopes, same_scopes, same_list}
use rx_solutions.Gate.Scopes.{
  Given, lowers, write_cell, keep_fence, keep_arm, fence_tx, disarm, fence, arm_tx, arm_cell, arm,
}
use rx_solutions.Gate.Marks.{Rises, stays, transact-Rises}

write_cell-Rises :
    (id boot : Uuid) (cell : Name) (row : Row CellState) (state : CellState) (s : Store)
    → lookup cell s.cells ≡ some row
    → row.document.epoch ≤ state.epoch
    → Rises s (write_cell id boot cell row state s).1
unfolding write_cell
write_cell-Rises id boot cell row state s f le =
    elim (Result-cases (put cell (some row.revision) state s.cells)) [
      | inr (x, e) ↦ rw (e, write_cell) (stays s)
      | inl (cs, e) ↦ record {
        maxima = λ x. ground (arith, e, next_sequence-frame (record s { cells = cs }));
        epochs = λ c. ground (
          arith,
          e,
          f,
          le,
          next_sequence-frame (record s { cells = cs }),
          put-document_at c cell (some row.revision) state s.cells e,
        );
        fences = λ g k h. ground (arith, e, h, next_sequence-frame (record s { cells = cs }));
      }
    ]

keep_fence-Rises :
    (id : Uuid) (fingerprint : Digest) (s : Store) (x : Result StoreError GateReceipt × Store)
    → Rises s x.1
    → Rises s (keep_fence id fingerprint x).1
unfolding keep_fence
keep_fence-Rises id fingerprint s (err e, s') w = w
keep_fence-Rises id fingerprint s (ok g, s') w =
    elim (Result-cases (put id none (fingerprint, g) s'.fence_requests)) [
      | inr (x, e) ↦ rw (e, keep_fence) w
      | inl (t, e) ↦
          rw (e, keep_fence) (record { maxima = w.maxima; epochs = w.epochs; fences = w.fences })
    ]

keep_arm-Rises :
    (id : Uuid) (fingerprint : Digest) (s : Store) (x : Result StoreError GateReceipt × Store)
    → Rises s x.1
    → Rises s (keep_arm id fingerprint x).1
unfolding keep_arm
keep_arm-Rises id fingerprint s (err e, s') w = w
keep_arm-Rises id fingerprint s (ok g, s') w =
    elim (Result-cases (put id none (fingerprint, g) s'.arm_requests)) [
      | inr (x, e) ↦ rw (e, keep_arm) w
      | inl (t, e) ↦
          rw (e, keep_arm) (record { maxima = w.maxima; epochs = w.epochs; fences = w.fences })
    ]

fence_tx-Rises :
    (id : Uuid) (fingerprint : Digest) (boot : Uuid) (cell : Name) (epoch : Counter)
    (scopes : List (Name × Counter)) (blocks : List Uuid) (s : Store)
    → Rises s (fence_tx id fingerprint boot cell epoch scopes blocks s).1
unfolding fence_tx
fence_tx-Rises id fingerprint boot cell epoch scopes blocks s =
    elim (Option-cases (lookup id s.fence_requests)) [
      | inr (row, e) ↦ rw (e, fence_tx) (stays s)
      | inl e ↦ elim (Option-cases (lookup cell s.cells)) [
        | inl f ↦ rw (e, fence_tx) (rw f (stays s))
        | inr (row, f) ↦
            elim (Bool-cases
              (ltb epoch row.document.epoch || any (lowers row.document.scopes) scopes)) [
                | inl w ↦ rw (e, fence_tx) (rw f (rw w (stays s)))
                | inr w ↦
                    rw (e, fence_tx)
                      (rw f (
                        rw w (
                          keep_fence-Rises id fingerprint s _
                            (write_cell-Rises id boot cell row _ s f (ground (arith, w))))))
              ]
      ]
    ]

arm_tx-Rises :
    (id : Uuid) (fingerprint : Digest) (boot : Uuid) (cell : Name) (epoch : Counter)
    (scopes : List (Name × Counter)) (clear : List Uuid) (s : Store)
    → Rises s (arm_tx id fingerprint boot cell epoch scopes clear s).1
unfolding arm_tx
arm_tx-Rises id fingerprint boot cell epoch scopes clear s =
    elim (Option-cases (lookup id s.arm_requests)) [
      | inr (row, e) ↦ rw (e, arm_tx) (stays s)
      | inl e ↦ elim (Option-cases (lookup cell s.cells)) [
        | inl f ↦ rw (e, arm_tx) (rw f (stays s))
        | inr (row, f) ↦
            elim (Bool-cases (
              not (row.document.epoch == epoch)
              || not (same_scopes row.document.scopes scopes)
              || not (same_list clear row.document.blocked))) [
                | inl w ↦ rw (e, arm_tx) (rw f (rw w (stays s)))
                | inr w ↦
                    rw (e, arm_tx)
                      (rw f (
                        rw w (
                          keep_arm-Rises id fingerprint s _
                            (write_cell-Rises id boot cell row _ s f (omega arith)))))
              ]
      ]
    ]

disarm-Rises :
    (cell : Name) (s : Store) (x : Result HostError Given × Core)
    → Rises s x.1.durable
    → Rises s (disarm cell x).1.durable
unfolding disarm
disarm-Rises cell s (err e, c') w = w
disarm-Rises cell s (ok (g, true), c') w = w
disarm-Rises cell s (ok (g, false), c') w = w

arm_cell-Rises :
    (cell : Name) (s : Store) (x : Result HostError Given × Core)
    → Rises s x.1.durable
    → Rises s (arm_cell cell x).1.durable
unfolding arm_cell
arm_cell-Rises cell s (err e, c') w = w
arm_cell-Rises cell s (ok (g, replayed), c') w =
    elim (Bool-cases (not replayed && is_empty g.state.blocked)) [
      | inl e ↦ rw (e, arm_cell) w
      | inr e ↦ rw (e, arm_cell) w
    ]

pub fence-Rises :
    (h : Hashes) (caller : Caller) (id : Uuid) (cell : Name) (epoch : Counter)
    (scopes : List (Name × Counter)) (blocks : List Uuid) (c : Core)
    → Rises c.durable (fence h caller id cell epoch scopes blocks c).1.durable
unfolding fence
fence-Rises h caller id cell epoch scopes blocks c = elim (Result-cases (authorized caller c)) [
  | inr (x, e) ↦ rw (e, fence) (stays c.durable)
  | inl (u, e) ↦ elim (Option-cases (lookup cell c.bindings)) [
    | inl f ↦ rw (e, fence) (rw f (stays c.durable))
    | inr (b, f) ↦ elim (Result-cases (validate_scopes b scopes)) [
      | inr (x, w) ↦ rw (e, fence) (rw f (rw w (stays c.durable)))
      | inl (y, w) ↦
          rw (e, fence)
            (rw f (
              rw w (
                disarm-Rises cell c.durable _ (
                  transact-Rises _ c
                    (λ a q. fence_tx-Rises id _ c.boot cell epoch scopes blocks c.durable)))))
    ]
  ]
]

pub arm-Rises :
    (h : Hashes) (caller : Caller) (id : Uuid) (cell : Name) (epoch : Counter)
    (scopes : List (Name × Counter)) (clear : List Uuid)
    (target : Result HostError (Option CellTarget)) (c : Core)
    → Rises c.durable (arm h caller id cell epoch scopes clear target c).1.durable
unfolding arm
arm-Rises h caller id cell epoch scopes clear target c = elim (Result-cases (authorized caller c)) [
  | inr (x, e) ↦ rw (e, arm) (stays c.durable)
  | inl (u, e) ↦ elim (Result-cases (require_admission c)) [
    | inr (x, f) ↦ rw (e, arm) (rw f (stays c.durable))
    | inl (y, f) ↦ elim (Result-cases target) [
      | inr (x, w) ↦ rw (e, arm) (rw f (rw w (stays c.durable)))
      | inl (q, w) ↦
          rw (e, arm)
            (rw f (
              rw w (
                arm_cell-Rises cell c.durable _ (
                  transact-Rises _ c
                    (λ a k. arm_tx-Rises id _ c.boot cell epoch scopes clear c.durable)))))
    ]
  ]
]
