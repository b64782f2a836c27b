-- ===== src/Gate/Marks/Histories.antt =====
-- Along every history of calls on the gate of runtime/rx-host/src/gate the marks only rise.
use rx_solutions.Base.{
  ◌≡◌, ◌≤◌, ◌<◌, true, Option, some, List, [], ◌∷◌, arith, Result, contains, Bool-cases, inl, inr,
}
use rx_solutions.Domain.Types.{Uuid, Name, Counter}
use rx_solutions.Gate.Model.{Caller, Request, NativeCapture, CellTarget, HostError}
use rx_solutions.Gate.Store.Laws.{document_at}
use rx_solutions.Gate.Core.{Core, Hashes, serves, bind_platform, request_service_stop}
use rx_solutions.Gate.Validation.{Local}
use rx_solutions.Gate.Start.Opened.{reopen-Rises}
use rx_solutions.Gate.Dispatch.{enter, authorize}
use rx_solutions.Gate.Current.{is_covered}
use rx_solutions.Gate.Current.Submission.{authorize-cases}
use rx_solutions.Gate.Work.{SameGate, prepare-SameGate}
use rx_solutions.Gate.Work.Receipts.{
  enter-SameGate, authorize-SameGate, void_before_send-SameGate, reconcile-SameGate,
}
use rx_solutions.Gate.Marks.{
  maximum, epoch_at, fence_at, Rises, stays, SameTables-Rises, then-Rises,
}
use rx_solutions.Gate.Marks.Grants.{acquire_grant-Rises, renew_grant-Rises}
use rx_solutions.Gate.Marks.Scopes.{fence-Rises, arm-Rises}
use rx_solutions.Gate.Once.Calls.{
  Call, prepares, authorizes, dies_entered, voids, reconciles, acquires, renews, fences, arms,
  binds, stops, restarts, call, run,
}

gate-Rises : (c c' : Core) → SameGate c c' → Rises c.durable c'.durable
gate-Rises c c' s = SameTables-Rises c.durable c'.durable s.tables

binding-Rises : (caller : Caller) (c : Core) → Rises c.durable (bind_platform caller c).1.durable
unfolding bind_platform
binding-Rises caller c = elim (Bool-cases (serves caller.peer c.bindings)) [
  | inl e ↦ rw (e, bind_platform) (stays c.durable)
  | inr e ↦ rw (e, bind_platform) (stays c.durable)
]

call-Rises : (h : Hashes) (k : Call) (c : Core) → Rises c.durable (call h k c).durable
unfolding call request_service_stop
call-Rises h (prepares caller r target l id) c =
    gate-Rises c _ (prepare-SameGate h caller r target l id c)
call-Rises h (authorizes caller r i target l again answer id) c =
    gate-Rises c _ (authorize-SameGate h caller r i target l again answer id c)
call-Rises h (dies_entered caller r i target l start) c =
    let c' : Core = (enter h caller r i target l c).1 in
    then-Rises c.durable c'.durable (call h (restarts start) c').durable
      (gate-Rises c c' (enter-SameGate h caller r i target l c)) (reopen-Rises start c')
call-Rises h (voids caller operation digest) c =
    gate-Rises c _ (void_before_send-SameGate caller operation digest c)
call-Rises h (reconciles caller operation found id) c =
    gate-Rises c _ (reconcile-SameGate caller operation found id c)
call-Rises h (acquires caller request resources f ttl now can_handover id) c =
    acquire_grant-Rises h caller request resources f ttl now can_handover id c
call-Rises h (renews caller id sequence now) c = renew_grant-Rises caller id sequence now c
call-Rises h (fences caller id cell epoch scopes blocks) c =
    fence-Rises h caller id cell epoch scopes blocks c
call-Rises h (arms caller id cell epoch scopes clear target) c =
    arm-Rises h caller id cell epoch scopes clear target c
call-Rises h (binds caller) c = binding-Rises caller c
call-Rises h stops c = stays c.durable
call-Rises h (restarts start) c = reopen-Rises start c

pub run-Rises : (h : Hashes) (ks : List Call) (c : Core) → Rises c.durable (run h ks c).durable
unfolding run
run-Rises h [] c = stays c.durable
run-Rises h (k ∷ ks) c =
    then-Rises c.durable (call h k c).durable (run h ks (call h k c)).durable (call-Rises h k c)
      (run-Rises h ks (call h k c))

-- Along every history of calls and restarts, neither the highest fence of a resource nor the epoch of
-- a cell falls.
pub run-marks :
    (h : Hashes) (ks : List Call) (c : Core) (x cell : Name)
    → (maximum x c.durable ≤ maximum x (run h ks c).durable)
      × (epoch_at cell c.durable ≤ epoch_at cell (run h ks c).durable)
run-marks h ks c x cell = let v = run-Rises h ks c in (v.maxima x, v.epochs cell)

covered-fence :
    (x g : Name) (c : Core) (f : Counter)
    → fence_at g c.durable ≡ some f
    → is_covered x c.durable.resources (document_at g c.durable.grants) ≡ true
    → f ≡ maximum x c.durable
covered-fence x g c f h e = ground (arith, h, e)

-- A grant whose fence is below the highest fence of some resource of an intent never reaches the
-- adapter with that intent again, whatever history of calls and restarts comes between.
pub superseded-unsent :
    (h : Hashes) (ks : List Call) (c : Core) (x : Name) (f : Counter) (caller : Caller)
    (r : Request) (invocation : Uuid) (target : Result HostError (Option CellTarget))
    (l again : Local) (answer : Result HostError NativeCapture) (id : Uuid)
    → fence_at r.grant c.durable ≡ some f
    → f < maximum x c.durable
    → contains x r.intent.resource_set ≡ true
    → (authorize h caller r invocation target l again answer id (run h ks c)).1.native
      ≡ (run h ks c).native
superseded-unsent h ks c x f caller r invocation target l again answer id given below named =
    let c' = run h ks c in
    let v = run-Rises h ks c in
    elim (authorize-cases h caller r invocation target l again answer id c') [
      | inl e ↦ e
      | inr w ↦ absurd (
          omega (
            arith,
            below,
            v.maxima x,
            covered-fence x r.grant c' f (v.fences r.grant f given) (w.covered x named),
          ))
    ]
