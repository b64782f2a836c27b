-- ===== src/Process/Frontier/Evaluate.antt =====
-- `evaluate` and `has_progress` of sdk/crates/rx-process-contract/src/frontier.rs.
use rx_solutions.Base.{
  Bool, false, not, ◌||◌, Option, none, some, List, [], ◌∷◌, if◌then◌else◌, Result, ok, err, lookup,
  has,
}
use rx_solutions.Domain.Types.{Name}
use rx_solutions.Process.{
  CompiledNode, compiled, CompiledBody, sequence, parallel_all, branch, operation, wait,
  intervention, Children, no_child, child,
}
use rx_solutions.Process.Frontier.{
  BranchChoice, ProgressView, running, completed, is_completed, Frontier, PlanError,
  crosses_predecessor, unselected_branch, uncommitted_branch, at_state, evaluate_operation,
  evaluate_wait, evaluate_intervention, join,
}

unfoldable mutual
  pub has_progress : ProgressView → CompiledNode → Bool
  has_progress view (compiled id source body) =
      has id view.operations
      || has id view.branches
      || has id view.waits
      || has id view.cleared_interventions
      || body_has_progress view body

  pub body_has_progress : ProgressView → CompiledBody → Bool
  body_has_progress view (sequence cs) = any_has_progress view cs
  body_has_progress view (parallel_all cs) = any_has_progress view cs
  body_has_progress view (branch c t f) = has_progress view t || has_progress view f
  body_has_progress view (operation b) = false
  body_has_progress view (wait c n) = false
  body_has_progress view (intervention p) = false

  pub any_has_progress : ProgressView → Children → Bool
  any_has_progress view no_child = false
  any_has_progress view (child c cs) = has_progress view c || any_has_progress view cs

-- A branch: the selected child may be evaluated, the other one has no progress.
abbrev pub choose :
    Name
    → Option BranchChoice
    → Bool
    → Bool
    → Result PlanError Frontier
    → Result PlanError Frontier
    → Result PlanError Frontier
choose id none pt pf t f =
    if pt || pf
    then err uncommitted_branch
    else ok (record (at_state running) { decisions = id ∷ [] })
choose id (some c) pt pf t f =
    if (if c.chosen then pf else pt) then err unselected_branch else if c.chosen then t else f

-- The loop of a sequence: a child that is not complete ends it, when no later one has progress.
abbrev pub then_rest :
    Result PlanError Frontier → Bool → Result PlanError Frontier → Result PlanError Frontier
then_rest (err e) later rest = err e
then_rest (ok f) later rest =
    if not (is_completed f.state) then (if later then err crosses_predecessor else ok f) else rest

abbrev pub joined : Result PlanError (List Frontier) → Result PlanError Frontier
joined (err e) = err e
joined (ok fs) = ok (join fs)

abbrev pub collected :
    Result PlanError Frontier → Result PlanError (List Frontier) → Result PlanError (List Frontier)
collected (err e) rest = err e
collected (ok f) (err e) = err e
collected (ok f) (ok fs) = ok (f ∷ fs)

-- `evaluate`.
unfoldable mutual
  pub evaluate : ProgressView → CompiledNode → Result PlanError Frontier
  evaluate view (compiled id source body) = evaluate_body view id body

  pub evaluate_body : ProgressView → Name → CompiledBody → Result PlanError Frontier
  evaluate_body view id (operation b) = ok (evaluate_operation id (lookup id view.operations))
  evaluate_body view id (sequence cs) = evaluate_sequence view cs
  evaluate_body view id (parallel_all cs) = joined (evaluate_each view cs)
  evaluate_body view id (branch c t f) =
      choose id (lookup id view.branches) (has_progress view t) (has_progress view f)
        (evaluate view t) (evaluate view f)
  evaluate_body view id (wait c n) = ok (evaluate_wait id (lookup id view.waits))
  evaluate_body view id (intervention p) =
      ok (evaluate_intervention id (has id view.cleared_interventions))

  pub evaluate_sequence : ProgressView → Children → Result PlanError Frontier
  evaluate_sequence view no_child = ok (at_state completed)
  evaluate_sequence view (child c cs) =
      then_rest (evaluate view c) (any_has_progress view cs) (evaluate_sequence view cs)

  pub evaluate_each : ProgressView → Children → Result PlanError (List Frontier)
  evaluate_each view no_child = ok []
  evaluate_each view (child c cs) = collected (evaluate view c) (evaluate_each view cs)
