-- ===== src/Process/Frontier.antt =====
-- sdk/crates/rx-process-contract/src/frontier.rs: what a process can do next. The texts of errors are
-- constructors; those of reasons are the node that they name. The digests of `canonical` and of the
-- intents are parameters.
pub mod Evaluate
pub mod Plan
pub mod Merged
pub mod Nodes
pub mod Done
pub mod Enabled
pub mod Attention
pub mod Correlated
mod Tests
use rx_solutions.Base.{
  ℕ, suc, Bool, true, false, not, ◌&&◌, ◌||◌, Option, none, some, List, [], ◌∷◌, ◌++◌, leb, ltb,
  ◌==◌, if◌then◌else◌, Result, ok, err, any, all, is_empty, length, contains, lookup, has,
}
use rx_solutions.Domain.Types.{Uuid, Name, Digest}
use rx_solutions.Domain.Intent.{Intent}
use rx_solutions.Domain.Operation.{
  Operation, Outcome, Knowledge, is_disputed, is_released, same_outcome, same_knowledge,
}
use rx_solutions.Process.{
  ActionBinding, CompiledNode, compiled, CompiledBody, sequence, parallel_all, branch, operation,
  wait, intervention, Children, no_child, child, ResolvedProcess,
}

pub record OperationProgress : Type 0 where
  pub operation : Operation
  pub intent_digest : Digest

pub record BranchChoice : Type 0 where
  pub decision : Uuid
  pub chosen : Bool
  pub evidence_ids : List Uuid

pub data WaitProgress : Type 0 where
  satisfied : Uuid → List Uuid → WaitProgress
  timed_out : Uuid → WaitProgress

pub record ProgressView : Type 0 where
  pub run : Uuid
  pub resolved_digest : Digest
  pub complete : Bool
  pub operations : List (Name × OperationProgress)
  pub branches : List (Name × BranchChoice)
  pub waits : List (Name × WaitProgress)
  pub cleared_interventions : List (Name × Uuid)

pub data State : Type 0 where
  ready running blocked failed completed : State

pub record Frontier : Type 0 where
  pub state : State
  pub operations : List Name
  pub decisions : List Name
  pub waits : List Name
  pub handovers : List Name
  pub interventions : List Name
  pub pending_operations : List Uuid
  pub reasons : List Name

pub data PlanError : Type 0 where
  partial_progress different_process unencodable node_limit empty_control not_operation no_binding
        correlation :
      PlanError
  branch_evidence wait_evidence not_intervention crosses_predecessor unselected_branch
        uncommitted_branch :
      PlanError

abbrev pub is_ready : State → Bool
is_ready ready = true
is_ready _ = false

abbrev pub is_blocked : State → Bool
is_blocked blocked = true
is_blocked _ = false

abbrev pub is_failed : State → Bool
is_failed failed = true
is_failed _ = false

abbrev pub is_completed : State → Bool
is_completed completed = true
is_completed _ = false

-- `Frontier::state`, `merge` and `suppress_new`.
unfoldable pub at_state : State → Frontier
at_state s = record {
  state = s;
  operations = [];
  decisions = [];
  waits = [];
  handovers = [];
  interventions = [];
  pending_operations = [];
  reasons = [];
}

unfoldable pub merge : Frontier → Frontier → Frontier
merge f g = record {
  state = f.state;
  operations = f.operations ++ g.operations;
  decisions = f.decisions ++ g.decisions;
  waits = f.waits ++ g.waits;
  handovers = f.handovers ++ g.handovers;
  interventions = f.interventions ++ g.interventions;
  pending_operations = f.pending_operations ++ g.pending_operations;
  reasons = f.reasons ++ g.reasons;
}

unfoldable pub suppress_new : Frontier → Frontier
suppress_new f = record f { operations = []; decisions = []; waits = [] }

unfoldable pub merge_all : Frontier → List Frontier → Frontier
merge_all f [] = f
merge_all f (g ∷ gs) = merge_all (merge f g) gs

-- The arm `Operation` of `evaluate`, once the operation has progress.
abbrev pub is_unsure : Operation → Bool
is_unsure o =
    is_disputed o.integrity
    || same_outcome o.outcome Outcome.unresolved
    || same_knowledge o.execution_knowledge Knowledge.unknown

unfoldable pub of_outcome : Name → Operation → Frontier
unfolding at_state
of_outcome id o = elim (o.outcome) [
  | Outcome.succeeded ↦
      if is_released o.disposition
      then at_state completed
      else record (at_state running) { handovers = id ∷ [] }
  | Outcome.failed ↦ at_state failed
  | Outcome.canceled ↦ at_state failed
  | Outcome.not_executed ↦ at_state failed
  | _ ↦ record (at_state running) { pending_operations = o.operation_id ∷ [] }
]

unfoldable pub evaluate_operation : Name → Option OperationProgress → Frontier
unfolding at_state
evaluate_operation id none = record (at_state ready) { operations = id ∷ [] }
evaluate_operation id (some p) =
    if is_unsure p.operation
    then record (at_state blocked) {
      pending_operations = p.operation.operation_id ∷ [];
      reasons = id ∷ [];
    }
    else of_outcome id p.operation

unfoldable pub evaluate_wait : Name → Option WaitProgress → Frontier
unfolding at_state
evaluate_wait id none = record (at_state running) { waits = id ∷ [] }
evaluate_wait id (some (satisfied d es)) = at_state completed
evaluate_wait id (some (timed_out d)) = at_state failed

unfoldable pub evaluate_intervention : Name → Bool → Frontier
unfolding at_state
evaluate_intervention id true = at_state completed
evaluate_intervention id false = record (at_state blocked) { interventions = id ∷ [] }

-- The arm `ParallelAll`, once the children are evaluated.
abbrev pub joined_state : List Frontier → Frontier → State
joined_state rs merged =
    if any (λ r. is_blocked r.state) rs
      || any (λ r. is_failed r.state) rs && not (is_empty merged.pending_operations)
    then blocked
    else if any (λ r. is_failed r.state) rs
    then failed
    else if all (λ r. is_completed r.state) rs
    then completed
    else if not (is_empty merged.operations)
    then ready
    else running

unfoldable pub join : List Frontier → Frontier
join rs =
    let merged = merge_all (at_state running) rs in
    let result = record merged { state = joined_state rs merged } in
    if any (λ r. is_blocked r.state) rs || any (λ r. is_failed r.state) rs
    then suppress_new result
    else result
