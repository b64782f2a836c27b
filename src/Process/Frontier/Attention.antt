-- ===== src/Process/Frontier/Attention.antt =====
-- What the frontiers of sdk/crates/rx-process-contract/src/frontier.rs name in each state.
use rx_solutions.Base.{
  ◌≡◌, refl, arith, Bool, true, false, not, ◌&&◌, List, [], ◌∷◌, ok, any, all, is_empty,
}
use rx_solutions.Process.{CompiledNode}
use rx_solutions.Process.Frontier.{
  ProgressView, ready, running, blocked, failed, completed, Frontier, is_blocked, is_failed,
  is_completed, at_state, merge, suppress_new, of_outcome, evaluate_operation, evaluate_wait,
  evaluate_intervention, join,
}
use rx_solutions.Process.Frontier.Evaluate.{evaluate}
use rx_solutions.Process.Frontier.Merged.{
  is_empty-append, merge_all-test, is_blank, is_blank-merge, evaluate-keeps,
}

-- The parts of a frontier that start something, that someone outside has to see to, and that an operation
-- under way still needs.
abbrev pub starts_nothing : Frontier → Bool
starts_nothing f = is_empty f.operations && is_empty f.decisions && is_empty f.waits

abbrev pub waits_for_no_one : Frontier → Bool
waits_for_no_one f = is_empty f.interventions && is_empty f.pending_operations

abbrev pub is_idle : Frontier → Bool
is_idle f =
    is_empty f.decisions
    && is_empty f.waits
    && is_empty f.handovers
    && is_empty f.pending_operations

-- What a frontier names in each state.
abbrev pub is_explained : Frontier → Bool
is_explained f = elim (f.state) [
  | ready ↦ not (is_empty f.operations) && is_empty f.interventions
  | running ↦ is_empty f.operations && is_empty f.interventions && not (is_idle f)
  | blocked ↦ starts_nothing f && not (waits_for_no_one f)
  | failed ↦ starts_nothing f && waits_for_no_one f
  | completed ↦ is_blank f
]

merge-operations :
    (f g : Frontier)
    → is_empty (merge f g).operations ≡ (is_empty f.operations && is_empty g.operations)
unfolding merge
merge-operations f g = is_empty-append f.operations g.operations

merge-interventions :
    (f g : Frontier)
    → is_empty (merge f g).interventions ≡ (is_empty f.interventions && is_empty g.interventions)
unfolding merge
merge-interventions f g = is_empty-append f.interventions g.interventions

merge-pending :
    (f g : Frontier)
    → is_empty (merge f g).pending_operations
      ≡ (is_empty f.pending_operations && is_empty g.pending_operations)
unfolding merge
merge-pending f g = is_empty-append f.pending_operations g.pending_operations

merge-is_idle : (f g : Frontier) → is_idle (merge f g) ≡ (is_idle f && is_idle g)
unfolding merge
merge-is_idle f g = ground (
  arith,
  is_empty-append f.decisions g.decisions,
  is_empty-append f.waits g.waits,
  is_empty-append f.handovers g.handovers,
  is_empty-append f.pending_operations g.pending_operations,
)

-- A blocked child is one that someone outside has to see to.
blocked_waits :
    (fs : List Frontier)
    → all is_explained fs ≡ true
    → any (λ r. is_blocked r.state) fs ≡ true
    → all (λ r. is_empty r.interventions) fs && all (λ r. is_empty r.pending_operations) fs ≡ false
blocked_waits [] e b = cc
blocked_waits (f ∷ fs) e b = ground (arith, blocked_waits fs)

-- Only a blocked child names an intervention.
unblocked_free :
    (fs : List Frontier)
    → all is_explained fs ≡ true
    → any (λ r. is_blocked r.state) fs ≡ false
    → all (λ r. is_empty r.interventions) fs ≡ true
unblocked_free [] e b = refl
unblocked_free (f ∷ fs) e b = ground (arith, unblocked_free fs)

-- Among children that neither are blocked nor failed nor all completed, and that suggest no operation,
-- there is one under way.
running_busy :
    (fs : List Frontier)
    → all is_explained fs ≡ true
    → any (λ r. is_blocked r.state) fs ≡ false
    → any (λ r. is_failed r.state) fs ≡ false
    → all (λ r. is_completed r.state) fs ≡ false
    → all (λ r. is_empty r.operations) fs ≡ true
    → all is_idle fs ≡ false
running_busy [] e b d c o = cc
running_busy (f ∷ fs) e b d c o = ground (arith, running_busy fs)

completed_blank :
    (fs : List Frontier)
    → all is_explained fs ≡ true
    → all (λ r. is_completed r.state) fs ≡ true
    → all is_blank fs ≡ true
completed_blank [] e c = refl
completed_blank (f ∷ fs) e c = ground (arith, completed_blank fs)

join-explained : (fs : List Frontier) → all is_explained fs ≡ true → is_explained (join fs) ≡ true
unfolding join suppress_new at_state
join-explained fs e = ground (
  arith,
  e,
  blocked_waits fs e,
  unblocked_free fs e,
  running_busy fs e,
  completed_blank fs e,
  merge_all-test (λ f. is_empty f.operations) merge-operations (at_state running) fs,
  merge_all-test (λ f. is_empty f.interventions) merge-interventions (at_state running) fs,
  merge_all-test (λ f. is_empty f.pending_operations) merge-pending (at_state running) fs,
  merge_all-test is_idle merge-is_idle (at_state running) fs,
  merge_all-test is_blank is_blank-merge (at_state running) fs,
)

-- A frontier names what its state says. Ready: an operation to start and no intervention. Running: no
-- operation to start and no intervention, but an operation to watch or to hand over, a decision or a
-- wait. Blocked: an intervention or an operation to see to, and nothing to start. Failed: nothing to
-- start, no intervention and no operation that is still under way. Completed: nothing at all.
pub evaluate-explained :
    (view : ProgressView) (n : CompiledNode) (f : Frontier)
    → evaluate view n ≡ ok f
    → is_explained f ≡ true
unfolding evaluate_operation of_outcome evaluate_wait evaluate_intervention at_state
evaluate-explained view =
    evaluate-keeps view is_explained (λ id o. ground arith) (λ id w. ground arith)
      (λ id b. ground arith) (λ id. refl) refl join-explained
