-- ===== src/Process/Frontier/Enabled.antt =====
-- Which operations sdk/crates/rx-process-contract/src/frontier.rs suggests.
use rx_solutions.Base.{
  ◌≡◌, refl, sym, ◌∙◌, arith, Bool-cases, Result-cases, inl, inr, Bool, true, false, not, ◌&&◌,
  ◌||◌, Option, none, List, [], ◌∷◌, ◌==◌, ok, all, contains, lookup, has, contains-append,
}
use rx_solutions.Domain.Types.{Name}
use rx_solutions.Process.{
  CompiledNode, compiled, sequence, parallel_all, branch, operation, wait, intervention, Children,
  no_child, child,
}
use rx_solutions.Process.Frontier.{
  OperationProgress, WaitProgress, ProgressView, running, Frontier, at_state, merge, suppress_new,
  of_outcome, evaluate_operation, evaluate_wait, evaluate_intervention, join,
}
use rx_solutions.Process.Frontier.Evaluate.{evaluate, evaluate_sequence, evaluate_each}
use rx_solutions.Process.Frontier.Merged.{
  merge_all-test, choose-cases, then_rest-cases, collected-cases,
}
use rx_solutions.Process.Frontier.Done.{is_done, on_branch, evaluate-done}

-- The specification: the operation of this name has not been started, every earlier part of a sequence
-- that holds it is done, and every branch above it is chosen its way.
unfoldable mutual
  pub is_enabled : ProgressView → Name → CompiledNode → Bool
  is_enabled view name (compiled id source (operation b)) =
      name == id && not (has id view.operations)
  is_enabled view name (compiled id source (sequence cs)) = is_enabled_in view name cs
  is_enabled view name (compiled id source (parallel_all cs)) = is_enabled_beside view name cs
  is_enabled view name (compiled id source (branch c t f)) =
      on_branch (lookup id view.branches) (is_enabled view name t) (is_enabled view name f)
  is_enabled view name (compiled id source (wait c n)) = false
  is_enabled view name (compiled id source (intervention p)) = false

  pub is_enabled_in : ProgressView → Name → Children → Bool
  is_enabled_in view name no_child = false
  is_enabled_in view name (child c cs) =
      is_enabled view name c || is_done view c && is_enabled_in view name cs

  pub is_enabled_beside : ProgressView → Name → Children → Bool
  is_enabled_beside view name no_child = false
  is_enabled_beside view name (child c cs) =
      is_enabled view name c || is_enabled_beside view name cs

lookup-has : {A : Type 0} (k : Name) (m : List (Name × A)) → lookup k m ≡ none → has k m ≡ false
unfolding lookup
lookup-has k [] h = refl
lookup-has k ((j, a) ∷ m) h = ground (arith, lookup-has k m)

-- The name stands nowhere among the suggested operations.
abbrev omits : Name → Frontier → Bool
omits name f = not (contains name f.operations)

omits-merge :
    (name : Name) (f g : Frontier) → omits name (merge f g) ≡ (omits name f && omits name g)
unfolding merge
omits-merge name f g = ground (arith, contains-append name f.operations g.operations)

join-contains :
    (name : Name) (fs : List Frontier)
    → contains name (join fs).operations ≡ true
    → all (omits name) fs ≡ false
unfolding join suppress_new at_state contains
join-contains name fs h =
    ground (arith, h, merge_all-test (omits name) (omits-merge name) (at_state running) fs)

operation-enabled :
    (name id : Name) (p : Option OperationProgress)
    → contains name (evaluate_operation id p).operations ≡ true
    → (p ≡ none) × (name ≡ id)
unfolding evaluate_operation of_outcome at_state contains
operation-enabled name id p h = ground (arith, h)

wait-none :
    (name id : Name) (w : Option WaitProgress)
    → contains name (evaluate_wait id w).operations ≡ false
unfolding evaluate_wait at_state contains
wait-none name id w = ground arith

intervention-none :
    (name id : Name) (b : Bool) → contains name (evaluate_intervention id b).operations ≡ false
unfolding evaluate_intervention at_state contains
intervention-none name id b = ground arith

first : (a b : Bool) → a ≡ true → a || b ≡ true
first a b h = ground (arith, h)

second : (a b : Bool) → b ≡ true → a || b ≡ true
second a b h = ground (arith, h)

after : (a d r : Bool) → d ≡ true → r ≡ true → a || d && r ≡ true
after a d r g h = ground (arith, g, h)

mutual
  unfolding evaluate is_enabled at_state contains

  tree-enabled :
      (view : ProgressView) (name : Name) (n : CompiledNode) (f : Frontier)
      → evaluate view n ≡ ok f
      → contains name f.operations ≡ true
      → is_enabled view name n ≡ true
  tree-enabled view name (compiled id source (operation b)) f h m =
      let (absent, same) =
        operation-enabled name id (lookup id view.operations) (ground (arith, h, m)) in
      ground (arith, same, lookup-has id view.operations absent)
  tree-enabled view name (compiled id source (wait c n)) f h m =
      absurd (ground (arith, h, m, wait-none name id (lookup id view.waits)))
  tree-enabled view name (compiled id source (intervention r)) f h m =
      absurd (ground (arith, h, m, intervention-none name id (has id view.cleared_interventions)))
  tree-enabled view name (compiled id source (sequence cs)) f h m =
      sequence-enabled view name cs f h m
  tree-enabled view name (compiled id source (parallel_all cs)) f h m =
      elim (Result-cases (evaluate_each view cs)) [
        | inl (fs, e) ↦
            each-enabled view name cs fs e (join-contains name fs (ground (arith, h, e, m)))
        | inr (x, e) ↦ ground (arith, h, e)
      ]
  tree-enabled view name (compiled id source (branch c t e)) f h m =
      elim (choose-cases id (lookup id view.branches) _ _ (evaluate view t) (evaluate view e) f h) [
        | inl (q, s) ↦ ground (arith, q, s, m)
        | inr (inl (b, q, s, g)) ↦ ground (arith, q, s, tree-enabled view name t f g m)
        | inr (inr (b, q, s, g)) ↦ ground (arith, q, s, tree-enabled view name e f g m)
      ]

  sequence-enabled :
      (view : ProgressView) (name : Name) (cs : Children) (f : Frontier)
      → evaluate_sequence view cs ≡ ok f
      → contains name f.operations ≡ true
      → is_enabled_in view name cs ≡ true
  sequence-enabled view name no_child f h m = ground (arith, h, m)
  sequence-enabled view name (child c cs) f h m =
      elim (then_rest-cases (evaluate view c) _ (evaluate_sequence view cs) f h) [
        | inl (g, e, d, r) ↦
            after (is_enabled view name c) _ _ (sym (evaluate-done view c g e) ∙ d)
              (sequence-enabled view name cs f r m)
        | inr (e, d, l) ↦ first (is_enabled view name c) _ (tree-enabled view name c f e m)
      ]

  each-enabled :
      (view : ProgressView) (name : Name) (cs : Children) (fs : List Frontier)
      → evaluate_each view cs ≡ ok fs
      → all (omits name) fs ≡ false
      → is_enabled_beside view name cs ≡ true
  each-enabled view name no_child fs h m = ground (arith, h, m)
  each-enabled view name (child c cs) fs h m =
      let (g, gs, e, d, same) = collected-cases (evaluate view c) (evaluate_each view cs) fs h in
      elim (Bool-cases (contains name g.operations)) [
        | inl i ↦ first (is_enabled view name c) _ (tree-enabled view name c g e i)
        | inr i ↦
            second (is_enabled view name c) _
              (each-enabled view name cs gs d (ground (arith, m, same, i)))
      ]

-- Every suggested operation is enabled: it has no progress, what comes before it in a sequence is done,
-- and the branches above it are chosen its way.
pub evaluate-enabled :
    (view : ProgressView) (name : Name) (n : CompiledNode) (f : Frontier)
    → evaluate view n ≡ ok f
    → contains name f.operations ≡ true
    → is_enabled view name n ≡ true
evaluate-enabled view name n f h m = tree-enabled view name n f h m
