-- ===== src/Process/Frontier/Done.antt =====
-- When a process of sdk/crates/rx-process-contract/src/frontier.rs is completed.
use rx_solutions.Base.{
  ◌≡◌, refl, arith, Result-cases, inl, inr, Bool, true, false, not, ◌&&◌, ◌||◌, Option, none, some,
  List, [], ◌∷◌, if◌then◌else◌, ok, any, all, lookup, has,
}
use rx_solutions.Domain.Types.{Name}
use rx_solutions.Domain.Operation.{
  Outcome, Knowledge, is_disputed, is_released, same_outcome, same_knowledge,
}
use rx_solutions.Process.{
  CompiledNode, compiled, sequence, parallel_all, branch, operation, wait, intervention, Children,
  no_child, child,
}
use rx_solutions.Process.Frontier.{
  OperationProgress, BranchChoice, WaitProgress, satisfied, ProgressView, Frontier, is_blocked,
  is_failed, is_completed, at_state, suppress_new, of_outcome, evaluate_operation, evaluate_wait,
  evaluate_intervention, join,
}
use rx_solutions.Process.Frontier.Merged.{choose-cases, then_rest-cases}
use rx_solutions.Process.Frontier.Evaluate.{evaluate, evaluate_sequence, evaluate_each}

-- An operation that is done: it succeeded without doubt, and its resources are released.
abbrev pub is_done_operation : Option OperationProgress → Bool
is_done_operation none = false
is_done_operation (some p) =
    not (is_disputed p.operation.integrity)
    && not (same_knowledge p.operation.execution_knowledge Knowledge.unknown)
    && same_outcome p.operation.outcome Outcome.succeeded
    && is_released p.operation.disposition

abbrev pub is_satisfied : Option WaitProgress → Bool
is_satisfied (some (satisfied d es)) = true
is_satisfied _ = false

abbrev pub on_branch : Option BranchChoice → Bool → Bool → Bool
on_branch none t f = false
on_branch (some c) t f = if c.chosen then t else f

-- The specification, by the tree alone.
unfoldable mutual
  pub is_done : ProgressView → CompiledNode → Bool
  is_done view (compiled id source (operation b)) = is_done_operation (lookup id view.operations)
  is_done view (compiled id source (sequence cs)) = are_done view cs
  is_done view (compiled id source (parallel_all cs)) = are_done view cs
  is_done view (compiled id source (branch c t f)) =
      on_branch (lookup id view.branches) (is_done view t) (is_done view f)
  is_done view (compiled id source (wait c n)) = is_satisfied (lookup id view.waits)
  is_done view (compiled id source (intervention p)) = has id view.cleared_interventions

  pub are_done : ProgressView → Children → Bool
  are_done view no_child = true
  are_done view (child c cs) = is_done view c && are_done view cs

operation-done :
    (id : Name) (p : Option OperationProgress)
    → is_completed (evaluate_operation id p).state ≡ is_done_operation p
unfolding evaluate_operation of_outcome at_state
operation-done id p = ground arith

wait-done :
    (id : Name) (w : Option WaitProgress) → is_completed (evaluate_wait id w).state ≡ is_satisfied w
unfolding evaluate_wait at_state
wait-done id w = ground arith

intervention-done : (id : Name) (b : Bool) → is_completed (evaluate_intervention id b).state ≡ b
unfolding evaluate_intervention at_state
intervention-done id b = ground arith

completed_only :
    (fs : List Frontier)
    → all (λ r. is_completed r.state) fs ≡ true
    → any (λ r. is_blocked r.state) fs || any (λ r. is_failed r.state) fs ≡ false
completed_only [] c = refl
completed_only (f ∷ fs) c = ground (arith, completed_only fs)

join-done : (fs : List Frontier) → is_completed (join fs).state ≡ all (λ r. is_completed r.state) fs
unfolding join suppress_new
join-done fs = ground (arith, completed_only fs)

mutual
  unfolding evaluate is_done at_state

  evaluate_tree-done :
      (view : ProgressView) (n : CompiledNode) (f : Frontier)
      → evaluate view n ≡ ok f
      → is_completed f.state ≡ is_done view n
  evaluate_tree-done view (compiled id source (operation b)) f h =
      ground (arith, h, operation-done id (lookup id view.operations))
  evaluate_tree-done view (compiled id source (wait c n)) f h =
      ground (arith, h, wait-done id (lookup id view.waits))
  evaluate_tree-done view (compiled id source (intervention r)) f h =
      ground (arith, h, intervention-done id (has id view.cleared_interventions))
  evaluate_tree-done view (compiled id source (sequence cs)) f h = sequence-done view cs f h
  evaluate_tree-done view (compiled id source (parallel_all cs)) f h =
      elim (Result-cases (evaluate_each view cs)) [
        | inl (fs, e) ↦ ground (arith, h, e, join-done fs, each-done view cs fs e)
        | inr (x, e) ↦ ground (arith, h, e)
      ]
  evaluate_tree-done view (compiled id source (branch c t e)) f h =
      elim (choose-cases id (lookup id view.branches) _ _ (evaluate view t) (evaluate view e) f h) [
        | inl (q, s) ↦ ground (arith, q, s)
        | inr (inl (b, q, s, g)) ↦ ground (arith, q, s, evaluate_tree-done view t f g)
        | inr (inr (b, q, s, g)) ↦ ground (arith, q, s, evaluate_tree-done view e f g)
      ]

  sequence-done :
      (view : ProgressView) (cs : Children) (f : Frontier)
      → evaluate_sequence view cs ≡ ok f
      → is_completed f.state ≡ are_done view cs
  sequence-done view no_child f h = ground (arith, h)
  sequence-done view (child c cs) f h =
      elim (then_rest-cases (evaluate view c) _ (evaluate_sequence view cs) f h) [
        | inl (g, e, d, r) ↦
            ground (arith, d, evaluate_tree-done view c g e, sequence-done view cs f r)
        | inr (e, d, l) ↦ ground (arith, d, evaluate_tree-done view c f e)
      ]

  each-done :
      (view : ProgressView) (cs : Children) (fs : List Frontier)
      → evaluate_each view cs ≡ ok fs
      → all (λ r. is_completed r.state) fs ≡ are_done view cs
  each-done view no_child fs h = ground (arith, h)
  each-done view (child c cs) fs h = elim (Result-cases (evaluate view c)) [
    | inr (x, e) ↦ ground (arith, h, e)
    | inl (g, e) ↦ elim (Result-cases (evaluate_each view cs)) [
      | inr (x, d) ↦ ground (arith, h, e, d)
      | inl (gs, d) ↦ ground (arith, h, e, d, evaluate_tree-done view c g e, each-done view cs gs d)
    ]
  ]

-- A process is completed exactly when its tree is done: each operation on its way succeeded, is
-- undisputed and released, its waits are satisfied, its interventions cleared and its branches chosen.
pub evaluate-done :
    (view : ProgressView) (n : CompiledNode) (f : Frontier)
    → evaluate view n ≡ ok f
    → is_completed f.state ≡ is_done view n
evaluate-done view n f h = evaluate_tree-done view n f h
