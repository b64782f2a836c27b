-- ===== src/Gate/Tests.antt =====
-- Runs of the gate of runtime/rx-host/src/gate, and the laws at them.
use rx_solutions.Base.{
  ℕ, ◌≤◌, ◌≡◌, refl, true, none, some, arith, List, [], ◌∷◌, ok, contains, set_insert, to_set, sort,
  sort_insert, lookup, insert,
}
use rx_solutions.Domain.Types.{TimePoint, nonzero, increment}
use rx_solutions.Domain.Intent.{Intent, mode_transition, mode, repeats, normal_body, normalized}
use rx_solutions.Gate.Model.{
  Caller, Binding, simulation, production, mandate, Permit, Request, NativeCapture,
}
use rx_solutions.Gate.Store.{Store, put, next_sequence, record_delivery}
use rx_solutions.Gate.Store.Laws.{document_at}
use rx_solutions.Gate.Core.{
  Core, Hashes, transact, authorized, require_admission, before, bind_platform,
}
use rx_solutions.Gate.Validation.{
  Local, validate_scopes, digest_of, identity_fault, validate_identity, same_operation,
  context_fault, check_fences, check_guard, check_context, validate_current,
}
use rx_solutions.Gate.Grants.{
  has_equal_neighbours, declared, overlaps, write_fences, grant_tx, acquire_new, acquire_sorted,
  acquire_grant,
}
use rx_solutions.Gate.Scopes.{write_cell, keep_arm, arm_tx, arm_cell, arm}
use rx_solutions.Gate.Dispatch.{
  valid_until, admit, current, prepare_first, prepare, enter_tx, protect_entry, commit_entry,
  enter_row, enter, protect_capture, submit_native, submit, proceed, authorize,
}
use rx_solutions.Gate.Start.{Start}
use rx_solutions.Gate.Receipts.{
  capture_tx, persist_capture, void_tx, then_void, void_known, void_operation, or_busy,
  void_before_send,
}
use rx_solutions.Gate.Once.{count, is_past, is_some}
use rx_solutions.Gate.Once.Calls.{
  Call, prepares, authorizes, dies_entered, voids, acquires, arms, binds, call, run, IsNew,
  run-once, run-entered_first, run-voided_unsent,
}

abbrev pub platform : Caller
platform = record { peer = 1; session = 11 }

abbrev pub switch : Intent
switch = record {
  kind = mode_transition;
  target = 1;
  profile_digest = 2;
  site_config_digest = 3;
  calibration_digests = [];
  resource_set = 4 ∷ 9 ∷ [];
  execution_timeout_ms = 100;
  prepare_validity_ms = 50;
  completion_rule = 5;
  cancel_rule = 6;
  body = mode (record { mode_id = 7; transition_profile = 8 });
}

-- Sums of the parts stand for the hashes.
abbrev pub sums : Hashes
sums = record {
  intent_hash = λ i. i.target;
  permit_hash = λ p. p.id;
  grant_hash = λ peer resources fence ttl. fence;
  fence_hash = λ cell epoch scopes blocks. epoch;
  arm_hash = λ cell epoch scopes clear. epoch;
}

abbrev pub binding : Binding
binding = record {
  host = 20;
  platform = 1;
  cell = 5;
  definition = record { sha256 = 31; schema_id = 32; size_bytes = 1 };
  envelope = record { sha256 = 33; schema_id = 34; size_bytes = 1 };
  qualification = 40;
  qualification_revision = 1;
  allowed_intents = switch ∷ [];
  scope_ids = 6 ∷ [];
  condition_ids = 3 ∷ [];
  environment = simulation;
  purposes = production ∷ [];
}

abbrev pub empty_store : Store
empty_store = record {
  host_meta = some (record {
    revision = 1;
    document = record { delivery_journal = 90; evidence_journal = 91; delivery_seq = 0 };
  });
  cells =
      (
        5,
        record {
          revision = 1;
          document = record { epoch = 1; scopes = (6, 1) ∷ []; blocked = [] };
        },
      )
      ∷ [];
  resources = [];
  grants = [];
  grant_requests = [];
  fence_requests = [];
  arm_requests = [];
  deliveries = [];
  delivery_history = [];
  voids = [];
  retired_permits = [];
  consumed_permits = [];
  evidence = [];
}

abbrev pub new_core : Core
new_core = record {
  durable = empty_store;
  native = [];
  boot = 100;
  bindings = (5, binding) ∷ [];
  caller = none;
  armed = [];
  accepting = true;
  incidents = [];
}

new_core-IsNew : IsNew new_core
new_core-IsNew = record { no_deliveries = refl; no_voids = refl; no_commands = refl }

abbrev pub at : ℕ → TimePoint
at t = record { clock_id = 1; ticks_ns = t }

abbrev pub permit : Permit
permit = record {
  id = 60;
  operation = 50;
  digest = 1;
  cell = 5;
  epoch = 1;
  scopes = (6, 1) ∷ [];
  envelope = 33;
  qualification = 40;
  qualification_revision = 1;
  grant = 70;
  host_boot = 100;
  conditions = 3 ∷ [];
  expires_at = at 900;
  purpose = production;
  parent = mandate 61;
  source_digest = none;
}

abbrev pub request : Request
request = record { operation = 50; intent = switch; digest = 1; grant = 70; permit = permit }

abbrev pub seen : ℕ → Local
seen t = record {
  now = at t;
  target = ok none;
  native_guard = ok (record { device_session = 80; valid_until = at 950; satisfied = 3 ∷ [] });
  session = ok (some 80);
}

abbrev pub done : NativeCapture
done = record {
  status_schema = 2;
  status = 0;
  native_id = none;
  captured_at = at 40;
  device_session = 80;
}

abbrev pub sends : Call
sends = authorizes platform request 51 (ok none) (seen 30) (seen 31) (ok done) 52

abbrev pub twice : List Call
twice =
    binds platform
    ∷ acquires platform 71 (9 ∷ 4 ∷ []) 3 1000 (at 10) true 70
    ∷ arms platform 72 5 1 ((6, 1) ∷ []) [] (ok none)
    ∷ prepares platform request (ok none) (seen 20) 51
    ∷ sends
    ∷ sends
    ∷ []

twice_sends : (run sums twice new_core).native ≡ 50 ∷ []
unfolding contains set_insert to_set sort sort_insert lookup insert nonzero increment repeats
    normal_body normalized put next_sequence record_delivery transact authorized require_admission
    before bind_platform validate_scopes digest_of identity_fault validate_identity same_operation
    context_fault check_fences check_guard check_context validate_current has_equal_neighbours
    declared overlaps write_fences grant_tx acquire_new acquire_sorted acquire_grant write_cell
    keep_arm arm_tx arm_cell arm valid_until admit current prepare_first prepare enter_tx
    protect_entry commit_entry enter_row enter protect_capture submit_native submit proceed
    authorize capture_tx persist_capture call run
twice_sends = refl

abbrev next_process : Start
next_process = record {
  catalog = ok tt;
  environment = simulation;
  bindings = binding ∷ [];
  delivery = 92;
  evidence = 93;
  boot = 101;
}

-- A process that ends with the send committed leaves an operation that is never submitted.
run-once_example :
    count 50
      (run sums
        (dies_entered platform request 51 (ok none) (seen 30) next_process ∷ twice)
        new_core).native
    ≤ 1
run-once_example =
    run-once sums (dies_entered platform request 51 (ok none) (seen 30) next_process ∷ twice)
      new_core 50 new_core-IsNew

run-entered_first_example :
    is_past (document_at 50 (run sums twice new_core).durable.deliveries) ≡ true
run-entered_first_example =
    run-entered_first sums twice new_core 50 new_core-IsNew (rw (twice_sends, count) (omega arith))

abbrev void_between : List Call
void_between =
    binds platform
    ∷ acquires platform 71 (9 ∷ 4 ∷ []) 3 1000 (at 10) true 70
    ∷ arms platform 72 5 1 ((6, 1) ∷ []) [] (ok none)
    ∷ prepares platform request (ok none) (seen 20) 51
    ∷ voids platform 50 1
    ∷ sends
    ∷ []

void_between_voids : is_some (document_at 50 (run sums void_between new_core).durable.voids) ≡ true
unfolding contains set_insert to_set sort sort_insert lookup insert nonzero increment repeats
    normal_body normalized put next_sequence record_delivery transact authorized require_admission
    before bind_platform validate_scopes digest_of identity_fault validate_identity same_operation
    context_fault check_fences check_guard check_context validate_current has_equal_neighbours
    declared overlaps write_fences grant_tx acquire_new acquire_sorted acquire_grant write_cell
    keep_arm arm_tx arm_cell arm valid_until admit current prepare_first prepare enter_tx
    protect_entry commit_entry enter_row enter protect_capture submit_native submit proceed
    authorize capture_tx persist_capture void_tx then_void void_known void_operation or_busy
    void_before_send call run
void_between_voids = refl

run-voided_unsent_example : count 50 (run sums void_between new_core).native ≡ 0
run-voided_unsent_example =
    run-voided_unsent sums void_between new_core 50 new_core-IsNew void_between_voids
