-- ===== src/Process/Frontier/Plan.antt =====
-- `collect`, `resolved_digest` and `plan` of sdk/crates/rx-process-contract/src/frontier.rs.
use rx_solutions.Base.{
  ℕ, suc, Bool, true, false, not, ◌&&◌, ◌||◌, Option, none, some, List, [], ◌∷◌, leb, ltb, ◌==◌,
  if◌then◌else◌, Result, ok, err, is_empty, length, contains, lookup, has,
}
use rx_solutions.Domain.Types.{Uuid, Name, Digest}
use rx_solutions.Domain.Intent.{Intent}
use rx_solutions.Process.{
  CompiledNode, compiled, CompiledBody, sequence, parallel_all, branch, operation, wait,
  intervention, Children, no_child, child, ResolvedProcess, is_no_child,
}
use rx_solutions.Process.Frontier.{
  OperationProgress, BranchChoice, WaitProgress, satisfied, timed_out, ProgressView, Frontier,
  PlanError, partial_progress, different_process, unencodable, node_limit, empty_control,
  not_operation, no_binding, correlation, branch_evidence, wait_evidence, not_intervention,
}
use rx_solutions.Process.Frontier.Evaluate.{evaluate}

-- The map of the nodes by their names.
abbrev pub Nodes : Type 0
Nodes = List (Name × CompiledBody)

unfoldable mutual
  pub collect : CompiledNode → Nodes → ℕ → Result PlanError Nodes
  collect (compiled id source body) nodes depth =
      let rest = collect_body body ((id, body) ∷ nodes) (suc depth) in
      if ltb 64 depth || leb 4096 (length nodes) || has id nodes then err node_limit else rest

  pub collect_body : CompiledBody → Nodes → ℕ → Result PlanError Nodes
  collect_body (sequence cs) nodes depth =
      let rest = collect_each cs nodes depth in if is_no_child cs then err empty_control else rest
  collect_body (parallel_all cs) nodes depth =
      let rest = collect_each cs nodes depth in if is_no_child cs then err empty_control else rest
  collect_body (branch c t f) nodes depth = elim (collect t nodes depth) [
    | err e ↦ err e
    | ok more ↦ collect f more depth
  ]
  collect_body (operation b) nodes depth = ok nodes
  collect_body (wait c n) nodes depth = ok nodes
  collect_body (intervention p) nodes depth = ok nodes

  pub collect_each : Children → Nodes → ℕ → Result PlanError Nodes
  collect_each no_child nodes depth = ok nodes
  collect_each (child c cs) nodes depth = elim (collect c nodes depth) [
    | err e ↦ err e
    | ok more ↦ collect_each cs more depth
  ]

abbrev pub is_branch : Option CompiledBody → Bool
is_branch (some (branch c t f)) = true
is_branch _ = false

abbrev pub is_wait : Option CompiledBody → Bool
is_wait (some (wait c n)) = true
is_wait _ = false

abbrev pub is_intervention : Option CompiledBody → Bool
is_intervention (some (intervention p)) = true
is_intervention _ = false

abbrev pub lacks_evidence : WaitProgress → Bool
lacks_evidence (satisfied d es) = is_empty es
lacks_evidence (timed_out d) = false

-- The loops of `plan` over the branches, the waits and the interventions of the view.
unfoldable pub check_branches : Nodes → List (Name × BranchChoice) → Bool
check_branches nodes [] = true
check_branches nodes ((id, c) ∷ m) =
    is_branch (lookup id nodes) && not (is_empty c.evidence_ids) && check_branches nodes m

unfoldable pub check_waits : Nodes → List (Name × WaitProgress) → Bool
check_waits nodes [] = true
check_waits nodes ((id, w) ∷ m) =
    is_wait (lookup id nodes) && not (lacks_evidence w) && check_waits nodes m

unfoldable pub check_interventions : Nodes → List (Name × Uuid) → Bool
check_interventions nodes [] = true
check_interventions nodes ((id, u) ∷ m) =
    is_intervention (lookup id nodes) && check_interventions nodes m

module _ (process_digest : ResolvedProcess → Option Digest)
    (intent_digest : Intent → Option Digest) where
  -- One entry of the loop over the operations; `ids` is what it has inserted.
  abbrev pub check_operation :
      ResolvedProcess
      → Option CompiledBody
      → List Uuid
      → OperationProgress
      → Result PlanError (Unit {0})
  check_operation process (some (operation b)) ids progress = elim (lookup b process.bindings) [
    | none ↦ err no_binding
    | some binding ↦ elim (intent_digest binding.intent) [
      | none ↦ err unencodable
      | some d ↦
          if not (progress.intent_digest == d) || contains progress.operation.operation_id ids
          then err correlation
          else ok tt
    ]
  ]
  check_operation process _ ids progress = err not_operation

  unfoldable pub check_operations :
      ResolvedProcess
      → Nodes
      → List Uuid
      → List (Name × OperationProgress)
      → Result PlanError (Unit {0})
  check_operations process nodes ids [] = ok tt
  check_operations process nodes ids ((id, p) ∷ m) =
      let rest = check_operations process nodes (p.operation.operation_id ∷ ids) m in
      elim (check_operation process (lookup id nodes) ids p) [ err e ↦ err e | ok u ↦ rest ]

  -- `resolved_digest`.
  unfoldable pub resolved_digest : ResolvedProcess → Result PlanError Digest
  resolved_digest process = elim (collect process.root [] 0) [
    | err e ↦ err e
    | ok nodes ↦ elim (process_digest process) [ none ↦ err unencodable | some d ↦ ok d ]
  ]

  -- What `plan` does with the nodes.
  unfoldable pub plan_nodes : ResolvedProcess → ProgressView → Nodes → Result PlanError Frontier
  plan_nodes process view nodes = elim (check_operations process nodes [] view.operations) [
    | err e ↦ err e
    | ok u ↦
        if not (check_branches nodes view.branches)
        then err branch_evidence
        else if not (check_waits nodes view.waits)
        then err wait_evidence
        else if not (check_interventions nodes view.cleared_interventions)
        then err not_intervention
        else evaluate view process.root
  ]

  -- `plan`.
  unfoldable pub plan : ResolvedProcess → ProgressView → Result PlanError Frontier
  plan process view =
      if not view.complete then err partial_progress else elim (resolved_digest process) [
        | err e ↦ err e
        | ok d ↦
            if not (view.resolved_digest == d)
            then err different_process
            else elim (collect process.root [] 0) [
              | err e ↦ err e
              | ok nodes ↦ plan_nodes process view nodes
            ]
      ]
