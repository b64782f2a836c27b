-- ===== src/Gate/Marks/Tests.antt =====
-- Runs of the gate of runtime/rx-host/src/gate with grants and fences, and the laws at them.
use rx_solutions.Base.{
  ◌≤◌, ◌≡◌, refl, true, none, some, arith, [], ◌∷◌, ok, contains, set_insert, to_set, sort,
  sort_insert, lookup, insert,
}
use rx_solutions.Domain.Types.{nonzero, increment}
use rx_solutions.Domain.Intent.{repeats, normal_body, normalized}
use rx_solutions.Gate.Store.{put, next_revision, next_sequence, record_delivery}
use rx_solutions.Gate.Core.{Core, transact, authorized, require_admission, before, bind_platform}
use rx_solutions.Gate.Validation.{
  validate_scopes, digest_of, identity_fault, validate_identity, same_operation, context_fault,
  check_fences, check_guard, check_context, validate_current,
}
use rx_solutions.Gate.Grants.{
  has_equal_neighbours, declared, overlaps, write_fences, grant_tx, acquire_new, acquire_sorted,
  acquire_grant,
}
use rx_solutions.Gate.Scopes.{write_cell, keep_arm, arm_tx, arm_cell, arm}
use rx_solutions.Gate.Dispatch.{
  valid_until, admit, current, prepare_first, prepare, enter_tx, protect_entry, commit_entry,
  enter_row, enter, protect_capture, submit_native, submit, proceed, authorize,
}
use rx_solutions.Gate.Receipts.{capture_tx, persist_capture}
use rx_solutions.Base.{◌≢◌}
use rx_solutions.Gate.Model.{StoredGrant, GateReceipt}
use rx_solutions.Gate.Scopes.{extend_scopes, extend_blocked, keep_fence, fence_tx, disarm, fence}
use rx_solutions.Gate.Current.{IsCurrent}
use rx_solutions.Gate.Current.Submission.{authorize-IsCurrent}
use rx_solutions.Gate.Marks.{maximum, epoch_at, fence_at}
use rx_solutions.Gate.Marks.Acquired.{Fences, acquire_grant-Fences}
use rx_solutions.Gate.Marks.Closed.{fence-unsent}
use rx_solutions.Gate.Marks.Histories.{run-marks, superseded-unsent}
use rx_solutions.Gate.Once.Calls.{prepares, acquires, arms, binds, call, run}
use rx_solutions.Gate.Tests.{platform, sums, new_core, at, request, seen, done, sends, twice}

abbrev bound : Core
bound = record new_core { caller = some platform }

abbrev opened : Core
opened =
    run sums
      (acquires platform 71 (9 ∷ 4 ∷ []) 3 1000 (at 10) true 70
        ∷ arms platform 72 5 1 ((6, 1) ∷ []) [] (ok none)
        ∷ prepares platform request (ok none) (seen 20) 51
        ∷ [])
      bound

opened_native : opened.native ≡ []
unfolding contains set_insert to_set sort sort_insert lookup insert nonzero increment repeats
    normal_body normalized put next_revision next_sequence record_delivery transact authorized
    require_admission before bind_platform validate_scopes digest_of identity_fault
    validate_identity same_operation context_fault check_fences check_guard check_context
    validate_current has_equal_neighbours declared overlaps write_fences grant_tx acquire_new
    acquire_sorted acquire_grant write_cell keep_arm arm_tx arm_cell arm valid_until admit current
    prepare_first prepare enter_tx protect_entry commit_entry enter_row enter protect_capture
    submit_native submit proceed authorize capture_tx persist_capture call run
opened_native = refl

opened_sends :
    (authorize sums platform request 51 (ok none) (seen 30) (seen 31) (ok done) 52 opened).1.native
    ≡ 50 ∷ []
unfolding contains set_insert to_set sort sort_insert lookup insert nonzero increment repeats
    normal_body normalized put next_revision next_sequence record_delivery transact authorized
    require_admission before bind_platform validate_scopes digest_of identity_fault
    validate_identity same_operation context_fault check_fences check_guard check_context
    validate_current has_equal_neighbours declared overlaps write_fences grant_tx acquire_new
    acquire_sorted acquire_grant write_cell keep_arm arm_tx arm_cell arm valid_until admit current
    prepare_first prepare enter_tx protect_entry commit_entry enter_row enter protect_capture
    submit_native submit proceed authorize capture_tx persist_capture call run
opened_sends = refl

opened_moves :
    (authorize sums platform request 51 (ok none) (seen 30) (seen 31) (ok done) 52 opened).1.native
    ≢ opened.native
opened_moves = rw (opened_sends, opened_native) (λ e. cc)

authorize-IsCurrent_example : IsCurrent platform request (at 31) opened
authorize-IsCurrent_example =
    authorize-IsCurrent sums platform request 51 (ok none) (seen 30) (seen 31) (ok done) 52 opened
      opened_moves

run-marks_example :
    (maximum 4 new_core.durable ≤ maximum 4 (run sums twice new_core).durable)
    × (epoch_at 5 new_core.durable ≤ epoch_at 5 (run sums twice new_core).durable)
run-marks_example = run-marks sums twice new_core 4 5

-- Another grant of one of the resources, under a higher fence.
abbrev handed_over : Core
handed_over =
    run sums
      (acquires platform 71 (9 ∷ 4 ∷ []) 3 1000 (at 10) true 70
        ∷ acquires platform 73 (4 ∷ []) 8 1000 (at 12) true 74
        ∷ [])
      bound

handed_over_fence : fence_at 70 handed_over.durable ≡ some 3
unfolding contains set_insert to_set sort sort_insert lookup insert nonzero increment repeats
    normal_body normalized put next_revision next_sequence record_delivery transact authorized
    require_admission before bind_platform validate_scopes digest_of identity_fault
    validate_identity same_operation context_fault check_fences check_guard check_context
    validate_current has_equal_neighbours declared overlaps write_fences grant_tx acquire_new
    acquire_sorted acquire_grant write_cell keep_arm arm_tx arm_cell arm valid_until admit current
    prepare_first prepare enter_tx protect_entry commit_entry enter_row enter protect_capture
    submit_native submit proceed authorize capture_tx persist_capture call run
handed_over_fence = refl

handed_over_maximum : maximum 4 handed_over.durable ≡ 8
unfolding contains set_insert to_set sort sort_insert lookup insert nonzero increment repeats
    normal_body normalized put next_revision next_sequence record_delivery transact authorized
    require_admission before bind_platform validate_scopes digest_of identity_fault
    validate_identity same_operation context_fault check_fences check_guard check_context
    validate_current has_equal_neighbours declared overlaps write_fences grant_tx acquire_new
    acquire_sorted acquire_grant write_cell keep_arm arm_tx arm_cell arm valid_until admit current
    prepare_first prepare enter_tx protect_entry commit_entry enter_row enter protect_capture
    submit_native submit proceed authorize capture_tx persist_capture call run
handed_over_maximum = refl

named : contains 4 request.intent.resource_set ≡ true
unfolding contains
named = refl

superseded-unsent_example :
    (authorize sums platform request 51
      (ok none)
      (seen 30)
      (seen 31)
      (ok done)
      52
      (run sums twice handed_over)).1.native
    ≡ (run sums twice handed_over).native
superseded-unsent_example =
    superseded-unsent sums twice handed_over 4 3 platform request 51 (ok none) (seen 30) (seen 31)
      (ok done) 52 handed_over_fence (rw (handed_over_maximum) (omega arith)) named

abbrev first_grant : StoredGrant
first_grant = record {
  id = 70;
  host_boot = 100;
  owner = 1;
  session = 11;
  resources = 4 ∷ 9 ∷ [];
  fence = 3;
  expires_at = at 1010;
  renew_seq = 0;
  ttl_ns = 1000;
}

no_request : lookup 71 bound.durable.grant_requests ≡ none
unfolding lookup
no_request = refl

first_granted :
    (acquire_grant sums platform 71 (9 ∷ 4 ∷ []) 3 1000 (at 10) true 70 bound).0 ≡ ok first_grant
unfolding contains set_insert to_set sort sort_insert lookup insert nonzero increment repeats
    normal_body normalized put next_revision next_sequence record_delivery transact authorized
    require_admission before bind_platform validate_scopes digest_of identity_fault
    validate_identity same_operation context_fault check_fences check_guard check_context
    validate_current has_equal_neighbours declared overlaps write_fences grant_tx acquire_new
    acquire_sorted acquire_grant write_cell keep_arm arm_tx arm_cell arm valid_until admit current
    prepare_first prepare enter_tx protect_entry commit_entry enter_row enter protect_capture
    submit_native submit proceed authorize capture_tx persist_capture call run
first_granted = refl

acquire_grant-Fences_example :
    Fences
      (λ x. contains x (9 ∷ 4 ∷ []))
      3
      first_grant
      bound.durable
      (acquire_grant sums platform 71 (9 ∷ 4 ∷ []) 3 1000 (at 10) true 70 bound).1.durable
acquire_grant-Fences_example =
    acquire_grant-Fences sums platform 71 (9 ∷ 4 ∷ []) 3 1000 (at 10) true 70 bound no_request
      first_granted

abbrev closing : GateReceipt
closing = record {
  id = 75;
  host_boot = 100;
  journal = 90;
  sequence = 3;
  cell = 5;
  state = record { epoch = 2; scopes = (6, 2) ∷ []; blocked = 99 ∷ [] };
}

no_fence : lookup 75 opened.durable.fence_requests ≡ none
unfolding contains set_insert to_set sort sort_insert lookup insert nonzero increment repeats
    normal_body normalized put next_revision next_sequence record_delivery transact authorized
    require_admission before bind_platform validate_scopes digest_of identity_fault
    validate_identity same_operation context_fault check_fences check_guard check_context
    validate_current has_equal_neighbours declared overlaps write_fences grant_tx acquire_new
    acquire_sorted acquire_grant write_cell keep_arm arm_tx arm_cell arm valid_until admit current
    prepare_first prepare enter_tx protect_entry commit_entry enter_row enter protect_capture
    submit_native submit proceed authorize capture_tx persist_capture call run
no_fence = refl

opened_closes : (fence sums platform 75 5 2 ((6, 2) ∷ []) (99 ∷ []) opened).0 ≡ ok closing
unfolding contains set_insert to_set sort sort_insert lookup insert nonzero increment repeats
    normal_body normalized put next_revision next_sequence record_delivery transact authorized
    require_admission before bind_platform validate_scopes digest_of identity_fault
    validate_identity same_operation context_fault check_fences check_guard check_context
    validate_current has_equal_neighbours declared overlaps write_fences grant_tx acquire_new
    acquire_sorted acquire_grant write_cell keep_arm arm_tx arm_cell arm valid_until admit current
    prepare_first prepare enter_tx protect_entry commit_entry enter_row enter protect_capture
    submit_native submit proceed authorize capture_tx persist_capture call run fence fence_tx
    keep_fence disarm extend_scopes extend_blocked
opened_closes = refl

fence-unsent_example :
    let c =
      run sums
        (binds platform ∷ sends ∷ [])
        (fence sums platform 75 5 2 ((6, 2) ∷ []) (99 ∷ []) opened).1 in
    (authorize sums platform request 51 (ok none) (seen 30) (seen 31) (ok done) 52 c).1.native
    ≡ c.native
fence-unsent_example =
    fence-unsent sums platform 75 5 2 ((6, 2) ∷ []) (99 ∷ []) opened (binds platform ∷ sends ∷ [])
      platform request 51 (ok none) (seen 30) (seen 31) (ok done) 52 no_fence opened_closes refl
      refl
