-- ===== src/Process/Frontier/Correlated.antt =====
-- Which views `plan` of sdk/crates/rx-process-contract/src/frontier.rs takes.
use rx_solutions.Base.{
  ℕ, ◌≡◌, refl, arith, Result-cases, inl, inr, distinct, Bool, true, false, not, ◌&&◌, Option, none,
  some, List, [], ◌∷◌, ◌==◌, ok, contains, lookup,
}
use rx_solutions.Domain.Types.{Uuid, Name, Digest}
use rx_solutions.Domain.Intent.{Intent}
use rx_solutions.Process.{
  CompiledBody, sequence, parallel_all, branch, operation, wait, intervention, ResolvedProcess,
}
use rx_solutions.Process.Frontier.{OperationProgress, ProgressView, Frontier}
use rx_solutions.Process.Frontier.Evaluate.{evaluate}
use rx_solutions.Process.Frontier.Plan.{
  Nodes, collect, resolved_digest, plan, plan_nodes, check_operation, check_operations,
}

abbrev pub operation_ids : List (Name × OperationProgress) → List Uuid
operation_ids [] = []
operation_ids ((k, p) ∷ m) = p.operation.operation_id ∷ operation_ids m

abbrev disjoint : List ℕ → List ℕ → Bool
disjoint [] ys = true
disjoint (x ∷ xs) ys = not (contains x ys) && disjoint xs ys

disjoint-cons :
    (y : ℕ) (xs ys : List ℕ) → disjoint xs (y ∷ ys) ≡ (not (contains y xs) && disjoint xs ys)
unfolding contains
disjoint-cons y [] ys = refl
disjoint-cons y (x ∷ xs) ys = ground (arith, disjoint-cons y xs ys)

disjoint-nil : (xs : List ℕ) → disjoint xs [] ≡ true
unfolding contains
disjoint-nil [] = refl
disjoint-nil (x ∷ xs) = disjoint-nil xs

module _ (process_digest : ResolvedProcess → Option Digest)
    (intent_digest : Intent → Option Digest) where
  -- The binding of an operation node has the digest that the progress was made under.
  abbrev pub is_bound : ResolvedProcess → Option CompiledBody → Digest → Bool
  is_bound process (some (operation b)) digest = elim (lookup b process.bindings) [
    | none ↦ false
    | some binding ↦ elim (intent_digest binding.intent) [ none ↦ false | some d ↦ digest == d ]
  ]
  is_bound process _ digest = false

  unfoldable pub are_bound : ResolvedProcess → Nodes → List (Name × OperationProgress) → Bool
  are_bound process nodes [] = true
  are_bound process nodes ((id, p) ∷ m) =
      is_bound process (lookup id nodes) p.intent_digest && are_bound process nodes m

  check_operation-bound :
      (process : ResolvedProcess) (body : Option CompiledBody) (ids : List Uuid)
      (p : OperationProgress)
      → check_operation process_digest intent_digest process body ids p ≡ ok tt
      → (is_bound process body p.intent_digest ≡ true)
        × (contains p.operation.operation_id ids ≡ false)
  check_operation-bound process none ids p h = cc
  check_operation-bound process (some (sequence cs)) ids p h = cc
  check_operation-bound process (some (parallel_all cs)) ids p h = cc
  check_operation-bound process (some (branch c t f)) ids p h = cc
  check_operation-bound process (some (wait c n)) ids p h = cc
  check_operation-bound process (some (intervention a)) ids p h = cc
  check_operation-bound process (some (operation b)) ids p h = ground (arith, h)

  check_operations-bound :
      (process : ResolvedProcess) (nodes : Nodes) (ids : List Uuid)
      (m : List (Name × OperationProgress))
      → check_operations process_digest intent_digest process nodes ids m ≡ ok tt
      → (are_bound process nodes m ≡ true)
        × (distinct (operation_ids m) ≡ true)
        × (disjoint (operation_ids m) ids ≡ true)
  unfolding check_operations are_bound distinct
  check_operations-bound process nodes ids [] h = (refl, refl, refl)
  check_operations-bound process nodes ids ((id, p) ∷ m) h =
      elim (Result-cases
        (check_operation process_digest intent_digest process (lookup id nodes) ids p)) [
          | inr (x, e) ↦ absurd (ground (arith, h, e))
          | inl (tt, e) ↦
              let (bound, new) = check_operation-bound process (lookup id nodes) ids p e in
              let (a, b, c) =
                check_operations-bound process nodes (p.operation.operation_id ∷ ids) m
                  (ground (arith, h, e)) in
              let d = disjoint-cons p.operation.operation_id (operation_ids m) ids in
              (ground (arith, a, bound), ground (arith, b, c, d), ground (arith, c, d, new))
        ]

  -- What a plan rests on: the view is complete and of this very process, each of its operations is at
  -- an operation node whose binding has the digest of the intent it was started under, no two of them
  -- are the same operation, and the frontier is the one of the tree.
  pub plan-correlated :
      (process : ResolvedProcess) (view : ProgressView) (f : Frontier)
      → plan process_digest intent_digest process view ≡ ok f
      → (nodes : Nodes) × (collect process.root [] 0 ≡ ok nodes)
        × (view.complete ≡ true)
        × (process_digest process ≡ some view.resolved_digest)
        × (are_bound process nodes view.operations ≡ true)
        × (distinct (operation_ids view.operations) ≡ true)
        × (evaluate view process.root ≡ ok f)
  unfolding plan plan_nodes resolved_digest
  plan-correlated process view f h = elim (Result-cases (collect process.root [] 0)) [
    | inr (x, e) ↦ absurd (ground (arith, h, e))
    | inl (nodes, e) ↦
        elim (Result-cases
          (check_operations process_digest intent_digest process nodes [] view.operations)) [
            | inr (x, c) ↦ absurd (ground (arith, h, e, c))
            | inl (tt, c) ↦
                let (a, b, d) = check_operations-bound process nodes [] view.operations c in
                (nodes, e, ground (arith, h), ground (arith, h, e), a, b, ground (arith, h, e, c))
          ]
  ]
