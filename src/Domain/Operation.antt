-- ===== src/Domain/Operation.antt =====
-- sdk/crates/rx-domain/src/operation.rs: the record of one operation, its stored form and its
-- methods. `&mut self` is an `Action` on the record; `sort` keeps `evidence_ids` ascending.

pub mod Stored
pub mod Atomic
pub mod History
mod Tests
use rx_solutions.Base.{
  ℕ, ◌≡◌, Bool, true, false, not, differ, ◌&&◌, ◌||◌, List, [], ◌∷◌, ◌++◌, ◌==◌, if◌then◌else◌,
  Result, ok, err, Action, ◌>>=◌, ◌>>◌, when, gets, modify, raise_if, lift, is_empty, all, length,
  to_set, sort, contains,
}
use rx_solutions.Domain.Types.{
  Uuid, Digest, Counter, DomainError, invalid_input, invalid_transition, nonzero, increment,
}

pub data Phase : Type 0 where
  admitted active reconciling settled : Phase

pub data Knowledge : Type 0 where
  not_sent may_have_executed accepted running ended unknown : Knowledge

pub data Outcome : Type 0 where
  none succeeded failed canceled not_executed unresolved : Outcome

pub data Integrity : Type 0 where
  valid disputed : Integrity

pub data Disposition : Type 0 where
  held quarantined released : Disposition

-- The columns of the stored record, as serde writes and reads them.
pub record OperationSnapshot : Type 0 where
  pub operation_id : Uuid
  pub revision : Counter
  pub intent_digest : Digest
  pub phase : Phase
  pub execution_knowledge : Knowledge
  pub outcome : Outcome
  pub integrity : Integrity
  pub disposition : Disposition
  pub evidence_ids : List Uuid

pub record Operation : Type 0 where
  pub operation_id : Uuid
  pub revision : Counter
  pub intent_digest : Digest
  pub phase : Phase
  pub execution_knowledge : Knowledge
  pub outcome : Outcome
  pub integrity : Integrity
  pub disposition : Disposition
  pub evidence_ids : List Uuid

-- The tests `==` and `!=` of the enumerations.
abbrev pub is_admitted : Phase → Bool
is_admitted admitted = true
is_admitted _ = false

abbrev pub is_reconciling : Phase → Bool
is_reconciling reconciling = true
is_reconciling _ = false

abbrev pub is_settled : Phase → Bool
is_settled settled = true
is_settled _ = false

abbrev pub is_disputed : Integrity → Bool
is_disputed valid = false
is_disputed disputed = true

abbrev pub is_quarantined : Disposition → Bool
is_quarantined quarantined = true
is_quarantined _ = false

abbrev pub is_released : Disposition → Bool
is_released released = true
is_released _ = false

abbrev pub is_none : Outcome → Bool
is_none none = true
is_none _ = false

abbrev pub same_outcome : Outcome → Outcome → Bool
same_outcome none none = true
same_outcome succeeded succeeded = true
same_outcome failed failed = true
same_outcome canceled canceled = true
same_outcome not_executed not_executed = true
same_outcome unresolved unresolved = true
same_outcome _ _ = false

abbrev pub same_knowledge : Knowledge → Knowledge → Bool
same_knowledge not_sent not_sent = true
same_knowledge may_have_executed may_have_executed = true
same_knowledge accepted accepted = true
same_knowledge running running = true
same_knowledge ended ended = true
same_knowledge unknown unknown = true
same_knowledge _ _ = false

-- What a terminal outcome says of the execution.
unfoldable pub terminal_knowledge : Outcome → Knowledge
terminal_knowledge unresolved = unknown
terminal_knowledge not_executed = not_sent
terminal_knowledge _ = ended

-- `#[derive(Serialize)]`.
unfoldable pub to_snapshot : Operation → OperationSnapshot
to_snapshot o = record {
  operation_id = o.operation_id;
  revision = o.revision;
  intent_digest = o.intent_digest;
  phase = o.phase;
  execution_knowledge = o.execution_knowledge;
  outcome = o.outcome;
  integrity = o.integrity;
  disposition = o.disposition;
  evidence_ids = o.evidence_ids;
}

-- The last expression of `try_from`.
unfoldable pub from_columns : OperationSnapshot → Operation
from_columns s = record {
  operation_id = s.operation_id;
  revision = s.revision;
  intent_digest = s.intent_digest;
  phase = s.phase;
  execution_knowledge = s.execution_knowledge;
  outcome = s.outcome;
  integrity = s.integrity;
  disposition = s.disposition;
  evidence_ids = s.evidence_ids;
}

-- The test of the block `if s.phase == Phase::Settled`.
unfoldable pub terminal_fault : OperationSnapshot → Bool
unfolding terminal_knowledge
terminal_fault s =
    is_settled s.phase
    && (is_empty s.evidence_ids
        || not (same_knowledge s.execution_knowledge (terminal_knowledge s.outcome)))

-- `TryFrom<OperationSnapshot>`.
unfoldable pub try_from : OperationSnapshot → Result DomainError Operation
unfolding nonzero terminal_fault from_columns
try_from s = elim (nonzero s.revision) [
  | err e ↦ err e
  | ok _ ↦
      if differ (is_settled s.phase) (not (is_none s.outcome))
      then err invalid_input
      else if is_disputed s.integrity && not (is_quarantined s.disposition)
      then err invalid_input
      else if is_released s.disposition && not (is_settled s.phase)
      then err invalid_input
      else if terminal_fault s
      then err invalid_input
      else if not (length (to_set s.evidence_ids) == length s.evidence_ids)
      then err invalid_input
      else ok (from_columns s)
]

pub record Conclusion : Type 0 where
  pub outcome : Outcome
  pub evidence_ids : List Uuid

pub record ReleaseConditions : Type 0 where
  pub no_residual_native : Bool
  pub control_handover_confirmed : Bool
  pub support_handover_confirmed : Bool

-- `Operation::admitted`.
unfoldable pub admit : Uuid → Digest → Operation
admit id digest = record {
  operation_id = id;
  revision = 1;
  intent_digest = digest;
  phase = admitted;
  execution_knowledge = not_sent;
  outcome = none;
  integrity = valid;
  disposition = held;
  evidence_ids = [];
}

abbrev pub Method : Type 0
Method = Action Operation DomainError (Unit {0})

-- `self.revision = self.revision.increment()?`.
unfoldable pub bump : Method
unfolding increment
bump o = elim (increment o.revision) [
  | ok r ↦ (ok tt, record o { revision = r })
  | err e ↦ (err e, o)
]

unfoldable pub add_evidence : Uuid → Operation → Operation
add_evidence e o =
    if contains e o.evidence_ids
    then o
    else record o { evidence_ids = sort (o.evidence_ids ++ e ∷ []) }

unfoldable pub add_all : List Uuid → Operation → Operation
add_all [] o = o
add_all (e ∷ es) o = add_all es (add_evidence e o)

unfoldable pub quarantine : Method
unfolding bump
quarantine =
    when (λ o. not (is_quarantined o.disposition))
      (do bump; modify (λ o. record o { disposition = quarantined }))

unfoldable pub dispute : Method
unfolding bump
dispute = do
  when (λ o. not (is_disputed o.integrity))
      (do bump; modify (λ o. record o { integrity = disputed }))
  modify (λ o. record o { disposition = quarantined })
  when (λ o. not (is_settled o.phase))
      (modify (λ o. record o { phase = reconciling; execution_knowledge = unknown }))

unfoldable pub sent : Method
unfolding bump
sent = do
  o ← gets (λ o. o)
  raise_if (not (is_admitted o.phase) || not (same_knowledge o.execution_knowledge not_sent))
      invalid_transition
  bump
  modify (λ o. record o { phase = active; execution_knowledge = may_have_executed })

unfoldable pub lose_continuity : Method
unfolding bump
lose_continuity =
    when (λ o. not (is_settled o.phase))
      (do
        bump
        modify (λ o. record o {
          phase = reconciling;
          execution_knowledge = unknown;
          disposition = quarantined;
        }))

unfoldable pub observed_running : Uuid → Method
unfolding bump
observed_running evidence = do
  o ← gets (λ o. o)
  raise_if (is_settled o.phase) invalid_transition
  bump
  modify (λ o. record o { execution_knowledge = running })
  when (λ o. not (is_reconciling o.phase)) (modify (λ o. record o { phase = active }))
  modify (add_evidence evidence)

-- The end of `conclude`, after the revision and the evidence are written.
unfoldable pub settle : Outcome → Method
unfolding terminal_knowledge
settle outcome o =
    if is_settled o.phase && not (same_outcome o.outcome outcome)
    then (ok tt, record o { integrity = disputed; disposition = quarantined })
    else (
      ok tt,
      record o {
        phase = settled;
        outcome = outcome;
        execution_knowledge = terminal_knowledge outcome;
        disposition = if same_outcome outcome unresolved then quarantined else o.disposition;
      },
    )

unfoldable pub conclude : Conclusion → Method
unfolding bump settle
conclude c = do
  raise_if (is_none c.outcome || is_empty c.evidence_ids) invalid_input
  when
      (λ o.
        not
          (same_outcome o.outcome c.outcome && all (λ e. contains e o.evidence_ids) c.evidence_ids))
      (do bump; modify (add_all c.evidence_ids); settle c.outcome)

unfoldable pub release : ReleaseConditions → List Uuid → Method
unfolding bump
release c evidence = do
  o ← gets (λ o. o)
  raise_if
      (not (is_settled o.phase)
        || is_disputed o.integrity
        || not c.no_residual_native
        || not c.control_handover_confirmed
        || not c.support_handover_confirmed
        || is_empty evidence)
      invalid_transition
  bump
  modify (λ o. record o { disposition = released })
  modify (add_all evidence)

-- A call of one of the methods, and a history of calls. A failed call leaves what it wrote.
pub data Call : Type 0 where
  quarantines disputes sends loses_continuity : Call
  observes_running : Uuid → Call
  concludes : Conclusion → Call
  releases : ReleaseConditions → List Uuid → Call

unfoldable pub call : Call → Method
unfolding quarantine dispute sent lose_continuity observed_running conclude release
call quarantines = quarantine
call disputes = dispute
call sends = sent
call loses_continuity = lose_continuity
call (observes_running e) = observed_running e
call (concludes c) = conclude c
call (releases c es) = release c es

unfoldable pub run : List Call → Operation → Operation
run [] o = o
run (c ∷ cs) o = run cs (call c o).1
