-- ===== src/Process/Frontier/Merged.antt =====
-- What `merge` of sdk/crates/rx-process-contract/src/frontier.rs keeps of the frontiers of children.
use rx_solutions.Base.{
  ◌≡◌, refl, ap, arith, Bool-cases, Result-cases, inl, inr, Bool, true, false, ◌&&◌, ◌||◌, ◌⊎◌,
  Option, none, some, List, [], ◌∷◌, ◌++◌, Result, ok, err, all, is_empty, lookup, has,
}
use rx_solutions.Domain.Types.{Name}
use rx_solutions.Process.{
  CompiledNode, compiled, sequence, parallel_all, branch, operation, wait, intervention, Children,
  no_child, child,
}
use rx_solutions.Process.Frontier.{
  OperationProgress, BranchChoice, WaitProgress, ProgressView, running, completed, Frontier,
  PlanError, is_completed, at_state, merge, merge_all, evaluate_operation, evaluate_wait,
  evaluate_intervention, join,
}
use rx_solutions.Process.Frontier.Evaluate.{
  choose, then_rest, collected, evaluate, evaluate_sequence, evaluate_each,
}

pub is_empty-append :
    {A : Type 0} (xs ys : List A) → is_empty (xs ++ ys) ≡ (is_empty xs && is_empty ys)
is_empty-append [] ys = refl
is_empty-append (x ∷ xs) ys = refl

-- A test that a merge decides part by part is decided so by the merge of many.
pub merge_all-test :
    (p : Frontier → Bool) (split : (f g : Frontier) → p (merge f g) ≡ (p f && p g)) (f : Frontier)
    (gs : List Frontier)
    → p (merge_all f gs) ≡ (p f && all p gs)
unfolding merge_all
merge_all-test p split f [] = ground arith
merge_all-test p split f (g ∷ gs) = ground (arith, merge_all-test p split (merge f g) gs, split f g)

-- The frontier of a parallel node with no lists.
abbrev pub is_blank : Frontier → Bool
is_blank f =
    is_empty f.operations
    && is_empty f.decisions
    && is_empty f.waits
    && is_empty f.handovers
    && is_empty f.interventions
    && is_empty f.pending_operations
    && is_empty f.reasons

pub is_blank-merge : (f g : Frontier) → is_blank (merge f g) ≡ (is_blank f && is_blank g)
unfolding merge
is_blank-merge f g = ground (
  arith,
  is_empty-append f.operations g.operations,
  is_empty-append f.decisions g.decisions,
  is_empty-append f.waits g.waits,
  is_empty-append f.handovers g.handovers,
  is_empty-append f.interventions g.interventions,
  is_empty-append f.pending_operations g.pending_operations,
  is_empty-append f.reasons g.reasons,
)

-- How a branch was evaluated: to the decision that it asks for, or as the child that was chosen.
pub choose-cases :
    (id : Name) (c : Option BranchChoice) (pt pf : Bool) (t e : Result PlanError Frontier)
    (f : Frontier)
    → choose id c pt pf t e ≡ ok f
    → ((c ≡ none) × (f ≡ record (at_state running) { decisions = id ∷ [] }))
      ⊎ (((b : BranchChoice) × (c ≡ some b) × (b.chosen ≡ true) × (t ≡ ok f))
          ⊎ ((b : BranchChoice) × (c ≡ some b) × (b.chosen ≡ false) × (e ≡ ok f)))
choose-cases id none pt pf t e f h = elim (Bool-cases (pt || pf)) [
  | inl p ↦ absurd (ground (arith, h, p))
  | inr p ↦ inl (refl, ground (arith, h, p))
]
choose-cases id (some b) pt pf t e f h = elim (Bool-cases (b.chosen)) [
  | inl p ↦ inr (inl (b, refl, p, ground (arith, h, p)))
  | inr p ↦ inr (inr (b, refl, p, ground (arith, h, p)))
]

-- How the loop of a sequence went on after a child, or ended with it.
pub then_rest-cases :
    (r : Result PlanError Frontier) (later : Bool) (rest : Result PlanError Frontier) (f : Frontier)
    → then_rest r later rest ≡ ok f
    → ((g : Frontier) × (r ≡ ok g) × (is_completed g.state ≡ true) × (rest ≡ ok f))
      ⊎ ((r ≡ ok f) × (is_completed f.state ≡ false) × (later ≡ false))
then_rest-cases (err e) later rest f h = cc
then_rest-cases (ok g) later rest f h = elim (Bool-cases (is_completed g.state)) [
  | inl c ↦ inl (g, refl, c, ground (arith, h, c))
  | inr c ↦ elim (Bool-cases later) [
    | inl l ↦ absurd (ground (arith, h, c, l))
    | inr l ↦ let same : g ≡ f = ground (arith, h, c, l) in inr (ap ok same, rw (← same) c, l)
  ]
]

pub collected-cases :
    (r : Result PlanError Frontier) (rest : Result PlanError (List Frontier)) (fs : List Frontier)
    → collected r rest ≡ ok fs
    → (g : Frontier) × (gs : List Frontier) × (r ≡ ok g) × (rest ≡ ok gs) × (fs ≡ g ∷ gs)
collected-cases (err e) rest fs h = cc
collected-cases (ok g) (err e) fs h = cc
collected-cases (ok g) (ok gs) fs h = (g, gs, refl, refl, ground (arith, h))

-- An induction over the tree for a test that the leaves pass and `join` keeps.
module _ (view : ProgressView) (p : Frontier → Bool)
    (at_operation : (id : Name) (o : Option OperationProgress) → p (evaluate_operation id o) ≡ true)
    (at_wait : (id : Name) (w : Option WaitProgress) → p (evaluate_wait id w) ≡ true)
    (at_intervention : (id : Name) (b : Bool) → p (evaluate_intervention id b) ≡ true)
    (at_choice : (id : Name) → p (record (at_state running) { decisions = id ∷ [] }) ≡ true)
    (at_end : p (at_state completed) ≡ true)
    (at_join : (fs : List Frontier) → all p fs ≡ true → p (join fs) ≡ true) where
  mutual
    unfolding evaluate

    pub evaluate-keeps : (n : CompiledNode) (f : Frontier) → evaluate view n ≡ ok f → p f ≡ true
    evaluate-keeps (compiled id source (operation b)) f h =
        ground (arith, h, at_operation id (lookup id view.operations))
    evaluate-keeps (compiled id source (wait c n)) f h =
        ground (arith, h, at_wait id (lookup id view.waits))
    evaluate-keeps (compiled id source (intervention r)) f h =
        ground (arith, h, at_intervention id (has id view.cleared_interventions))
    evaluate-keeps (compiled id source (sequence cs)) f h = evaluate_sequence-keeps cs f h
    evaluate-keeps (compiled id source (parallel_all cs)) f h =
        elim (Result-cases (evaluate_each view cs)) [
          | inl (fs, e) ↦ ground (arith, h, e, at_join fs (evaluate_each-keeps cs fs e))
          | inr (x, e) ↦ ground (arith, h, e)
        ]
    evaluate-keeps (compiled id source (branch c t e)) f h =
        ground (arith, h, at_choice id, evaluate-keeps t f, evaluate-keeps e f)

    evaluate_sequence-keeps :
        (cs : Children) (f : Frontier) → evaluate_sequence view cs ≡ ok f → p f ≡ true
    evaluate_sequence-keeps no_child f h = ground (arith, h, at_end)
    evaluate_sequence-keeps (child c cs) f h = elim (Result-cases (evaluate view c)) [
      | inl (g, e) ↦ ground (arith, h, e, evaluate-keeps c g e, evaluate_sequence-keeps cs f)
      | inr (x, e) ↦ ground (arith, h, e)
    ]

    evaluate_each-keeps :
        (cs : Children) (fs : List Frontier) → evaluate_each view cs ≡ ok fs → all p fs ≡ true
    evaluate_each-keeps no_child fs h = ground (arith, h)
    evaluate_each-keeps (child c cs) fs h = elim (Result-cases (evaluate view c)) [
      | inr (x, e) ↦ ground (arith, h, e)
      | inl (g, e) ↦ elim (Result-cases (evaluate_each view cs)) [
        | inr (x, d) ↦ ground (arith, h, e, d)
        | inl (gs, d) ↦ ground (arith, h, e, d, evaluate-keeps c g e, evaluate_each-keeps cs gs d)
      ]
    ]
