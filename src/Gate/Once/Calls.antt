-- ===== src/Gate/Once/Calls.antt =====
-- Histories of calls on the gate of runtime/rx-host/src/gate: what each operation has behind it.
use rx_solutions.Base.{
  ◌≤◌, ◌<◌, ◌≡◌, refl, Bool, true, Option, List, [], ◌∷◌, arith, Result, lookup,
}
use rx_solutions.Domain.Types.{Uuid, Digest, Name, Counter, TimePoint}
use rx_solutions.Gate.Model.{Caller, Request, NativeCapture, CellTarget, HostError}
use rx_solutions.Gate.Store.Laws.{document_at}
use rx_solutions.Gate.Core.{Core, Hashes, bind_platform, request_service_stop}
use rx_solutions.Gate.Validation.{Local}
use rx_solutions.Gate.Grants.{acquire_grant, renew_grant}
use rx_solutions.Gate.Scopes.{fence, arm}
use rx_solutions.Gate.Dispatch.{prepare, enter, authorize}
use rx_solutions.Gate.Start.{Start, reopen}
use rx_solutions.Gate.Start.Opened.{reopen-Still}
use rx_solutions.Gate.Receipts.{void_before_send, reconcile}
use rx_solutions.Gate.Once.{count, is_past, is_some, Inv}
use rx_solutions.Gate.Once.Prepare.{prepare-Inv}
use rx_solutions.Gate.Once.Dispatch.{enter-Inv, authorize-Inv}
use rx_solutions.Gate.Once.Receipts.{void_before_send-Inv, reconcile-Inv}
use rx_solutions.Gate.Once.Frame.{
  Still-Inv, acquire_grant-Quiet, renew_grant-Quiet, fence-Still, arm-Still, bind_platform-Still,
}

-- A call with its arguments and what the code outside the gate answers to it. `dies_entered` is a
-- process that ends between the commit of `SendEntered` and the command, and is started again.
pub data Call : Type 0 where
  prepares : Caller → Request → Result HostError (Option CellTarget) → Local → Uuid → Call
  authorizes :
      Caller
      → Request
      → Uuid
      → Result HostError (Option CellTarget)
      → Local
      → Local
      → Result HostError NativeCapture
      → Uuid
      → Call
  dies_entered :
      Caller → Request → Uuid → Result HostError (Option CellTarget) → Local → Start → Call
  voids : Caller → Uuid → Digest → Call
  reconciles : Caller → Uuid → Result HostError (Option NativeCapture) → Uuid → Call
  acquires : Caller → Uuid → List Name → Counter → Counter → TimePoint → Bool → Uuid → Call
  renews : Caller → Uuid → Counter → TimePoint → Call
  fences : Caller → Uuid → Name → Counter → List (Name × Counter) → List Uuid → Call
  arms :
      Caller
      → Uuid
      → Name
      → Counter
      → List (Name × Counter)
      → List Uuid
      → Result HostError (Option CellTarget)
      → Call
  binds : Caller → Call
  stops : Call
  restarts : Start → Call

unfoldable pub call : Hashes → Call → Core → Core
call h (prepares caller r target l id) c = (prepare h caller r target l id c).1
call h (authorizes caller r i target l again answer id) c =
    (authorize h caller r i target l again answer id c).1
call h (dies_entered caller r i target l start) c = reopen start (enter h caller r i target l c).1
call h (voids caller operation digest) c = (void_before_send caller operation digest c).1
call h (reconciles caller operation found id) c = (reconcile caller operation found id c).1
call h (acquires caller request resources f ttl now can_handover id) c =
    (acquire_grant h caller request resources f ttl now can_handover id c).1
call h (renews caller id sequence now) c = (renew_grant caller id sequence now c).1
call h (fences caller id cell epoch scopes blocks) c =
    (fence h caller id cell epoch scopes blocks c).1
call h (arms caller id cell epoch scopes clear target) c =
    (arm h caller id cell epoch scopes clear target c).1
call h (binds caller) c = (bind_platform caller c).1
call h stops c = request_service_stop c
call h (restarts start) c = reopen start c

unfoldable pub run : Hashes → List Call → Core → Core
run h [] c = c
run h (k ∷ ks) c = run h ks (call h k c)

-- Nothing was delivered, voided or submitted yet; cells, grants and bindings may be there.
pub record IsNew (c : Core) : Type 0 where
  pub no_deliveries : c.durable.deliveries ≡ []
  pub no_voids : c.durable.voids ≡ []
  pub no_commands : c.native ≡ []

pub IsNew-Inv : (c : Core) → IsNew c → Inv c
unfolding lookup
IsNew-Inv c n = record { keyed = λ j. ground (arith, n); safe = λ op. ground (arith, n) }

pub call-Inv : (h : Hashes) (k : Call) (c : Core) → Inv c → Inv (call h k c)
unfolding call request_service_stop
call-Inv h (prepares caller r target l id) c v = prepare-Inv h caller r target l id c v
call-Inv h (authorizes caller r i target l again answer id) c v =
    authorize-Inv h caller r i target l again answer id c v
call-Inv h (dies_entered caller r i target l start) c v =
    Still-Inv _ _ (reopen-Still start (enter h caller r i target l c).1)
      (enter-Inv h caller r i target l c v)
call-Inv h (voids caller operation digest) c v = void_before_send-Inv caller operation digest c v
call-Inv h (reconciles caller operation found id) c v = reconcile-Inv caller operation found id c v
call-Inv h (acquires caller request resources f ttl now can_handover id) c v =
    Still-Inv c _ (acquire_grant-Quiet h caller request resources f ttl now can_handover id c).0 v
call-Inv h (renews caller id sequence now) c v =
    Still-Inv c _ (renew_grant-Quiet caller id sequence now c).0 v
call-Inv h (fences caller id cell epoch scopes blocks) c v =
    Still-Inv c _ (fence-Still h caller id cell epoch scopes blocks c) v
call-Inv h (arms caller id cell epoch scopes clear target) c v =
    Still-Inv c _ (arm-Still h caller id cell epoch scopes clear target c) v
call-Inv h (binds caller) c v = Still-Inv c _ (bind_platform-Still caller c) v
call-Inv h stops c v = Still-Inv c _ ((refl, refl), refl) v
call-Inv h (restarts start) c v = Still-Inv c _ (reopen-Still start c) v

pub run-Inv : (h : Hashes) (ks : List Call) (c : Core) → Inv c → Inv (run h ks c)
unfolding run
run-Inv h [] c v = v
run-Inv h (k ∷ ks) c v = run-Inv h ks (call h k c) (call-Inv h k c v)

-- After any history of calls, restarts and stops between commit and command included, that begins
-- with no deliveries, voids or commands, the adapter was asked at most once for each operation.
pub run-once :
    (h : Hashes) (ks : List Call) (c : Core) (op : Uuid)
    → IsNew c
    → count op (run h ks c).native ≤ 1
run-once h ks c op n = ((run-Inv h ks c (IsNew-Inv c n)).safe op).once

-- After any history of calls that begins with no deliveries, voids or commands, an operation that the
-- adapter was asked for has a delivery record that is past preparation and not voided.
pub run-entered_first :
    (h : Hashes) (ks : List Call) (c : Core) (op : Uuid)
    → IsNew c
    → 0 < count op (run h ks c).native
    → is_past (document_at op (run h ks c).durable.deliveries) ≡ true
run-entered_first h ks c op n = ((run-Inv h ks c (IsNew-Inv c n)).safe op).entered_first

-- After any history of calls that begins with no deliveries, voids or commands, the adapter was never
-- asked for an operation that has a void, whatever calls come before the void or after it.
pub run-voided_unsent :
    (h : Hashes) (ks : List Call) (c : Core) (op : Uuid)
    → IsNew c
    → is_some (document_at op (run h ks c).durable.voids) ≡ true
    → count op (run h ks c).native ≡ 0
run-voided_unsent h ks c op n =
    let v = (run-Inv h ks c (IsNew-Inv c n)).safe op in ground (arith, v)
