-- ===== src/Gate/Once/Tests.antt =====
-- Runs of `prepare` of runtime/rx-host/src/gate/dispatch.rs, and its law at them.
use rx_solutions.Base.{
  ◌≡◌, refl, true, none, some, [], ◌∷◌, ok, contains, set_insert, to_set, sort, sort_insert, lookup,
  insert,
}
use rx_solutions.Domain.Types.{nonzero, increment}
use rx_solutions.Domain.Intent.{repeats, normal_body, normalized}
use rx_solutions.Gate.Store.{put, next_revision, next_sequence, record_delivery}
use rx_solutions.Gate.Core.{Core, transact, authorized, require_admission, before, bind_platform}
use rx_solutions.Gate.Validation.{
  validate_scopes, digest_of, identity_fault, validate_identity, same_operation, context_fault,
  check_fences, check_guard, check_context, validate_current,
}
use rx_solutions.Gate.Grants.{
  has_equal_neighbours, declared, overlaps, write_fences, grant_tx, acquire_new, acquire_sorted,
  acquire_grant,
}
use rx_solutions.Gate.Scopes.{write_cell, keep_arm, arm_tx, arm_cell, arm}
use rx_solutions.Gate.Dispatch.{
  valid_until, admit, current, prepare_first, prepare, enter_tx, protect_entry, commit_entry,
  enter_row, enter, protect_capture, submit_native, submit, proceed, authorize,
}
use rx_solutions.Gate.Receipts.{capture_tx, persist_capture}
use rx_solutions.Base.{List}
use rx_solutions.Gate.Model.{prepared, DeliveryRecord}
use rx_solutions.Gate.Once.{IsKeyed}
use rx_solutions.Gate.Once.Again.{prepare_twice}
use rx_solutions.Gate.Once.Calls.{Call, acquires, arms, call, run, IsNew, IsNew-Inv, run-Inv}
use rx_solutions.Gate.Tests.{platform, switch, sums, new_core, at, request, seen}

abbrev bound : Core
bound = record new_core { caller = some platform }

bound-IsNew : IsNew bound
bound-IsNew = record { no_deliveries = refl; no_voids = refl; no_commands = refl }

abbrev opens : List Call
opens =
    acquires platform 71 (9 ∷ 4 ∷ []) 3 1000 (at 10) true 70
    ∷ arms platform 72 5 1 ((6, 1) ∷ []) [] (ok none)
    ∷ []

armed_core-IsKeyed : IsKeyed (run sums opens bound)
armed_core-IsKeyed = (run-Inv sums opens bound (IsNew-Inv bound bound-IsNew)).keyed

abbrev first_record : DeliveryRecord
first_record = record {
  operation = 50;
  digest = 1;
  invocation = some 51;
  state = prepared;
  journal_seq = 2;
  prepared_boot = 100;
  prepare_until = at 50000020;
  cell = 5;
  intent = switch;
  permit = 60;
  device_session = 80;
  evidence_ids = [];
  permit_digest = 60;
}

prepares_first :
    (prepare sums platform request (ok none) (seen 20) 51 (run sums opens bound)).0
    ≡ ok first_record
unfolding contains set_insert to_set sort sort_insert lookup insert nonzero increment repeats
    normal_body normalized put next_revision next_sequence record_delivery transact authorized
    require_admission before bind_platform validate_scopes digest_of identity_fault
    validate_identity same_operation context_fault check_fences check_guard check_context
    validate_current has_equal_neighbours declared overlaps write_fences grant_tx acquire_new
    acquire_sorted acquire_grant write_cell keep_arm arm_tx arm_cell arm valid_until admit current
    prepare_first prepare enter_tx protect_entry commit_entry enter_row enter protect_capture
    submit_native submit proceed authorize capture_tx persist_capture call run
prepares_first = refl

prepare_twice_example :
    prepare sums platform request
      (ok none)
      (seen 25)
      53
      (prepare sums platform request (ok none) (seen 20) 51 (run sums opens bound)).1
    ≡ (
      ok first_record,
      (prepare sums platform request (ok none) (seen 20) 51 (run sums opens bound)).1,
    )
prepare_twice_example =
    prepare_twice sums platform request (ok none) (seen 20) (seen 25) 51 53 (run sums opens bound)
      armed_core-IsKeyed prepares_first
