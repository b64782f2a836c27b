-- ===== src/Gate/Marks/Closed.antt =====
-- A cell that `fence` of runtime/rx-host/src/gate/scopes.rs closes stays closed until it is armed.
use rx_solutions.Base.{
  ◌≡◌, refl, Bool, true, false, Option, none, List, [], ◌∷◌, arith, ◌==◌, Result, ok, err, any,
  contains, contains-set_insert, lookup, inl, inr, Bool-cases, Option-cases, Result-cases,
}
use rx_solutions.Domain.Types.{Uuid, Name, Counter}
use rx_solutions.Gate.Model.{
  Caller, Request, NativeCapture, GateReceipt, CellTarget, StoreError, HostError,
}
use rx_solutions.Gate.Store.{Store}
use rx_solutions.Gate.Core.{
  Core, Hashes, serves, other_session, authorized, require_admission, transact, bind_platform,
  request_service_stop,
}
use rx_solutions.Gate.Validation.{Local, validate_scopes}
use rx_solutions.Gate.Dispatch.{enter, authorize}
use rx_solutions.Gate.Scopes.{Given, fence_tx, disarm, fence, arm_tx, arm_cell, arm}
use rx_solutions.Gate.Current.Submission.{authorize-cases}
use rx_solutions.Gate.Work.{SameGate, prepare-SameGate}
use rx_solutions.Gate.Work.Receipts.{
  authorize-SameGate, void_before_send-SameGate, reconcile-SameGate,
}
use rx_solutions.Gate.Start.Opened.{reopen-armed}
use rx_solutions.Gate.Once.Frame.{acquire_grant-Quiet, renew_grant-Quiet}
use rx_solutions.Gate.Once.Calls.{
  Call, prepares, authorizes, dies_entered, voids, reconciles, acquires, renews, fences, arms,
  binds, stops, restarts, call, run,
}
use rx_solutions.Gate.Marks.Fenced.{contains-retain, fence-armed}

-- A call that asks to arm the cell.
abbrev pub asks_arm : Name → Call → Bool
asks_arm cell (arms caller id cell' epoch scopes clear target) = cell == cell'
asks_arm cell _ = false

abbrev IsClosed : Name → Core → Type 0
IsClosed cell c = contains cell c.armed ≡ false

gate-IsClosed : (cell : Name) (c c' : Core) → SameGate c c' → IsClosed cell c → IsClosed cell c'
gate-IsClosed cell c c' s v = rw (s.same_armed) v

disarm-IsClosed :
    (cell other : Name) (x : Result HostError Given × Core)
    → IsClosed cell x.1
    → IsClosed cell (disarm other x).1
unfolding disarm
disarm-IsClosed cell other (err e, c) v = v
disarm-IsClosed cell other (ok (r, true), c) v = v
disarm-IsClosed cell other (ok (r, false), c) v =
    ground (arith, contains-retain cell other c.armed, v)

arm_cell-IsClosed :
    (cell other : Name) (x : Result HostError Given × Core)
    → (cell == other) ≡ false
    → IsClosed cell x.1
    → IsClosed cell (arm_cell other x).1
unfolding arm_cell
arm_cell-IsClosed cell other (err e, c) n v = v
arm_cell-IsClosed cell other (ok (r, replayed), c) n v =
    ground (arith, contains-set_insert cell other c.armed, n, v)

transact-armed :
    {A : Type 0} (t : Store → Result StoreError A × Store) (c : Core)
    → (transact t c).1.armed ≡ c.armed
unfolding transact
transact-armed t c = elim (Result-cases (t c.durable).0) [
  | inl (a, e) ↦ rw (e, transact) refl
  | inr (x, e) ↦ rw (e, transact) refl
]

fence-IsClosed :
    (h : Hashes) (caller : Caller) (id : Uuid) (other : Name) (epoch : Counter)
    (scopes : List (Name × Counter)) (blocks : List Uuid) (cell : Name) (c : Core)
    → IsClosed cell c
    → IsClosed cell (fence h caller id other epoch scopes blocks c).1
unfolding fence
fence-IsClosed h caller id other epoch scopes blocks cell c v =
    elim (Result-cases (authorized caller c)) [
      | inr (x, e) ↦ rw (e, fence) v
      | inl (u, e) ↦ elim (Option-cases (lookup other c.bindings)) [
        | inl f ↦ rw (e, fence) (rw f v)
        | inr (b, f) ↦ elim (Result-cases (validate_scopes b scopes)) [
          | inr (x, w) ↦ rw (e, fence) (rw f (rw w v))
          | inl (y, w) ↦
              let t =
                fence_tx id (h.fence_hash other epoch scopes blocks) c.boot other epoch scopes
                  blocks in
              rw (e, fence)
                (rw f
                  (rw w (disarm-IsClosed cell other (transact t c) (rw (transact-armed t c) v))))
        ]
      ]
    ]

arm-IsClosed :
    (h : Hashes) (caller : Caller) (id : Uuid) (other : Name) (epoch : Counter)
    (scopes : List (Name × Counter)) (clear : List Uuid)
    (target : Result HostError (Option CellTarget)) (cell : Name) (c : Core)
    → (cell == other) ≡ false
    → IsClosed cell c
    → IsClosed cell (arm h caller id other epoch scopes clear target c).1
unfolding arm
arm-IsClosed h caller id other epoch scopes clear target cell c n v =
    elim (Result-cases (authorized caller c)) [
      | inr (x, e) ↦ rw (e, arm) v
      | inl (u, e) ↦ elim (Result-cases (require_admission c)) [
        | inr (x, f) ↦ rw (e, arm) (rw f v)
        | inl (y, f) ↦ elim (Result-cases target) [
          | inr (x, w) ↦ rw (e, arm) (rw f (rw w v))
          | inl (q, w) ↦
              let t =
                arm_tx id (h.arm_hash other epoch scopes clear) c.boot other epoch scopes clear in
              rw (e, arm)
                (rw f (
                  rw w (arm_cell-IsClosed cell other (transact t c) n (rw (transact-armed t c) v))))
        ]
      ]
    ]

bind_platform-IsClosed :
    (caller : Caller) (cell : Name) (c : Core)
    → IsClosed cell c
    → IsClosed cell (bind_platform caller c).1
unfolding bind_platform contains
bind_platform-IsClosed caller cell c v = elim (Bool-cases (serves caller.peer c.bindings)) [
  | inr e ↦ rw (e, bind_platform) v
  | inl e ↦ elim (Bool-cases (other_session c.caller caller)) [
    | inl f ↦ rw (e, bind_platform) (rw f refl)
    | inr f ↦ rw (e, bind_platform) (rw f v)
  ]
]

call-IsClosed :
    (h : Hashes) (k : Call) (cell : Name) (c : Core)
    → asks_arm cell k ≡ false
    → IsClosed cell c
    → IsClosed cell (call h k c)
unfolding call request_service_stop contains
call-IsClosed h (prepares caller r target l id) cell c n v =
    gate-IsClosed cell c _ (prepare-SameGate h caller r target l id c) v
call-IsClosed h (authorizes caller r i target l again answer id) cell c n v =
    gate-IsClosed cell c _ (authorize-SameGate h caller r i target l again answer id c) v
call-IsClosed h (dies_entered caller r i target l start) cell c n v =
    rw (reopen-armed start (enter h caller r i target l c).1) refl
call-IsClosed h (voids caller operation digest) cell c n v =
    gate-IsClosed cell c _ (void_before_send-SameGate caller operation digest c) v
call-IsClosed h (reconciles caller operation found id) cell c n v =
    gate-IsClosed cell c _ (reconcile-SameGate caller operation found id c) v
call-IsClosed h (acquires caller request resources f ttl now can_handover id) cell c n v =
    rw ((acquire_grant-Quiet h caller request resources f ttl now can_handover id c).1) v
call-IsClosed h (renews caller id sequence now) cell c n v =
    rw ((renew_grant-Quiet caller id sequence now c).1) v
call-IsClosed h (fences caller id other epoch scopes blocks) cell c n v =
    fence-IsClosed h caller id other epoch scopes blocks cell c v
call-IsClosed h (arms caller id other epoch scopes clear target) cell c n v =
    arm-IsClosed h caller id other epoch scopes clear target cell c n v
call-IsClosed h (binds caller) cell c n v = bind_platform-IsClosed caller cell c v
call-IsClosed h stops cell c n v = v
call-IsClosed h (restarts start) cell c n v = rw (reopen-armed start c) refl

run-IsClosed :
    (h : Hashes) (ks : List Call) (cell : Name) (c : Core)
    → any (asks_arm cell) ks ≡ false
    → IsClosed cell c
    → IsClosed cell (run h ks c)
unfolding run
run-IsClosed h [] cell c n v = v
run-IsClosed h (k ∷ ks) cell c n v =
    run-IsClosed h ks cell (call h k c) (ground (arith, n))
      (call-IsClosed h k cell c (ground (arith, n)) v)

-- After a fence of a cell that was not answered before, no `authorize` of an operation of that cell
-- reaches the adapter, whatever calls and restarts come between that do not ask to arm the cell.
pub fence-unsent :
    (h : Hashes) (caller : Caller) (id : Uuid) (cell : Name) (epoch : Counter)
    (scopes : List (Name × Counter)) (blocks : List Uuid) (c : Core) (ks : List Call)
    (sender : Caller) (r : Request) (invocation : Uuid)
    (target : Result HostError (Option CellTarget)) (l again : Local)
    (answer : Result HostError NativeCapture) (i : Uuid) {g : GateReceipt}
    → lookup id c.durable.fence_requests ≡ none
    → (fence h caller id cell epoch scopes blocks c).0 ≡ ok g
    → any (asks_arm cell) ks ≡ false
    → r.permit.cell ≡ cell
    → let c' = run h ks (fence h caller id cell epoch scopes blocks c).1 in
      (authorize h sender r invocation target l again answer i c').1.native ≡ c'.native
fence-unsent h caller id cell epoch scopes blocks c ks sender r invocation target l again answer i
      fresh done n same =
    let c' = run h ks (fence h caller id cell epoch scopes blocks c).1 in
    let v =
      run-IsClosed h ks cell (fence h caller id cell epoch scopes blocks c).1 n
        (fence-armed h caller id cell epoch scopes blocks c fresh done) in
    elim (authorize-cases h sender r invocation target l again answer i c') [
      | inl e ↦ e
      | inr w ↦ absurd (ground (arith, v, same, w.armed))
    ]
