-- ===== src/Domain/Intent.antt =====
-- sdk/crates/rx-domain/src/intent.rs: what an operation is asked to do, and its normal form.
pub mod Normal
mod Tests
use rx_solutions.Base.{
  ℕ, Bool, true, false, not, List, ◌==◌, if◌then◌else◌, Result, ok, err, is_empty, length, to_set,
  sort,
}
use rx_solutions.Domain.Types.{
  Uuid, Digest, Name, Counter, DomainError, invalid_input, nonzero, ArtifactRef, TypedValue,
}

pub data Kind : Type 0 where
  finite_action ensure_state mode_transition control_session lifecycle_transition : Kind

pub data LifecycleVerb : Type 0 where
  prepare activate deactivate shutdown : LifecycleVerb

pub record TrajectoryGoal : Type 0 where
  pub trajectory : ArtifactRef
  pub joint_group : Name
  pub tool_digest : Digest

pub record ProgramGoal : Type 0 where
  pub program : ArtifactRef
  pub parameter_set : ArtifactRef

pub record PredicateGoal : Type 0 where
  pub predicate_id : Name
  pub target : TypedValue
  pub settle_ms : Counter

pub record ModeGoal : Type 0 where
  pub mode_id : Name
  pub transition_profile : Digest

pub record ControlGoal : Type 0 where
  pub source_id : Name
  pub sample_schema : Name
  pub stream_profile : Digest

pub record LifecycleGoal : Type 0 where
  pub transition : LifecycleVerb
  pub target_level : Name
  pub support_evidence : List Uuid

pub data Body : Type 0 where
  trajectory : TrajectoryGoal → Body
  program : ProgramGoal → Body
  predicate : PredicateGoal → Body
  mode : ModeGoal → Body
  control : ControlGoal → Body
  lifecycle : LifecycleGoal → Body

pub record Intent : Type 0 where
  pub kind : Kind
  pub target : Name
  pub profile_digest : Digest
  pub site_config_digest : Digest
  pub calibration_digests : List Digest
  pub resource_set : List Name
  pub execution_timeout_ms : Counter
  pub prepare_validity_ms : Counter
  pub completion_rule : Name
  pub cancel_rule : Name
  pub body : Body

-- `unique` fails when the set of the values is shorter than the vector.
unfoldable pub repeats : List ℕ → Bool
repeats xs = not (length (to_set xs) == length xs)

abbrev pub kind_matches : Kind → Body → Bool
kind_matches finite_action (trajectory _) = true
kind_matches finite_action (program _) = true
kind_matches ensure_state (predicate _) = true
kind_matches mode_transition (mode _) = true
kind_matches control_session (control _) = true
kind_matches lifecycle_transition (lifecycle _) = true
kind_matches _ _ = false

-- The check and the sort of the evidence of a lifecycle goal; other bodies stay as they are.
unfoldable pub normal_body : Body → Result DomainError Body
unfolding repeats
normal_body (lifecycle g) =
    if repeats g.support_evidence
    then err invalid_input
    else ok (lifecycle (record g { support_evidence = sort g.support_evidence }))
normal_body b = ok b

-- `Intent::normalized`.
unfoldable pub normalized : Intent → Result DomainError Intent
unfolding nonzero repeats normal_body
normalized i = elim (nonzero i.execution_timeout_ms) [
  | err e ↦ err e
  | ok _ ↦ elim (nonzero i.prepare_validity_ms) [
    | err e ↦ err e
    | ok _ ↦
        if is_empty i.resource_set
        then err invalid_input
        else if repeats i.resource_set
        then err invalid_input
        else if repeats i.calibration_digests
        then err invalid_input
        else if not (kind_matches i.kind i.body)
        then err invalid_input
        else elim (normal_body i.body) [
          | err e ↦ err e
          | ok b ↦ ok (record i {
            resource_set = sort i.resource_set;
            calibration_digests = sort i.calibration_digests;
            body = b;
          })
        ]
  ]
]
