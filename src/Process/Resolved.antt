-- ===== src/Process/Resolved.antt =====
-- sdk/crates/rx-process-contract/src/validation.rs: the checks of a resolved process. The text that a
-- node's source hashes to is a parameter; a set of names is the ascending list of them, and the texts of
-- errors are constructors. `condition_shape` of this file is that of source_validation.rs written again.
pub mod Separate
mod Tests
use rx_solutions.Base.{
  ℕ, suc, Bool, true, false, not, ◌&&◌, ◌||◌, Option, none, some, List, [], ◌∷◌, ◌++◌, ltb, leb,
  ◌==◌, if◌then◌else◌, Result, ok, err, any, length, contains, lookup, set_insert, to_set, has,
}
use rx_solutions.Domain.Types.{Name}
use rx_solutions.Domain.Intent.{normalized}
use rx_solutions.Domain.Condition.{Condition}
use rx_solutions.Process.{
  ActionBinding, SourceLocation, CompiledNode, compiled, CompiledBody, sequence, parallel_all,
  branch, operation, wait, intervention, Children, no_child, child, ResolvedProcess, is_no_child,
}
use rx_solutions.Process.Source.Shapes.{condition_shape}

pub data Refusal : Type 0 where
  node_limit unencodable node_identity no_binding bad_intent empty_control resource_overlap
        no_condition wait_definition :
      Refusal
  process_schema binding_set bad_condition : Refusal

-- The nodes by name and the bindings that are used.
pub record Seen : Type 0 where
  pub nodes : List (Name × CompiledBody)
  pub used : List Name

abbrev pub is_disjoint : List Name → List Name → Bool
is_disjoint xs ys = not (any (λ x. contains x ys) xs)

abbrev pub extend : List Name → List Name → List Name
extend xs ys = to_set (xs ++ ys)

-- The arm `Operation` of `visit`.
abbrev pub visit_operation : Name → Option ActionBinding → Seen → Result Refusal (List Name × Seen)
visit_operation b none seen = err no_binding
visit_operation b (some action) seen = elim (normalized action.intent) [
  | err e ↦ err bad_intent
  | ok i ↦ ok (to_set action.intent.resource_set, record seen { used = set_insert b seen.used })
]

module _ (node_id : Name → SourceLocation → Option Name) (process : ResolvedProcess) where
  abbrev pub identity_fault : Name → Option Name → Option Refusal
  identity_fault id none = some unencodable
  identity_fault id (some text) = if id == text then none else some node_identity

  -- `visit`.
  unfoldable mutual
    pub visit : CompiledNode → Seen → ℕ → Result Refusal (List Name × Seen)
    visit (compiled id source body) seen depth =
        let rest = visit_body body (record seen { nodes = (id, body) ∷ seen.nodes }) (suc depth) in
        if ltb 64 depth || leb 4096 (length seen.nodes) || has id seen.nodes
        then err node_limit
        else elim (identity_fault id (node_id process.process source)) [
          | some e ↦ err e
          | none ↦ rest
        ]

    pub visit_body : CompiledBody → Seen → ℕ → Result Refusal (List Name × Seen)
    visit_body (operation b) seen depth = visit_operation b (lookup b process.bindings) seen
    visit_body (sequence cs) seen depth =
        let rest = visit_children false cs [] seen depth in
        if is_no_child cs then err empty_control else rest
    visit_body (parallel_all cs) seen depth =
        let rest = visit_children true cs [] seen depth in
        if is_no_child cs then err empty_control else rest
    visit_body (branch c t e) seen depth =
        let rest : Result Refusal (List Name × Seen) = elim (visit t seen depth) [
          | err x ↦ err x
          | ok (left, more) ↦ elim (visit e more depth) [
            | err x ↦ err x
            | ok (right, most) ↦ ok (extend (to_set left) right, most)
          ]
        ] in
        if not (has c process.conditions) then err no_condition else rest
    visit_body (wait c timeout) seen depth =
        if timeout == 0 || not (has c process.conditions)
        then err wait_definition
        else ok ([], seen)
    visit_body (intervention p) seen depth = ok ([], seen)

    -- The loop over the children, with the resources of those before.
    pub visit_children : Bool → Children → List Name → Seen → ℕ → Result Refusal (List Name × Seen)
    visit_children parallel no_child resources seen depth = ok (resources, seen)
    visit_children parallel (child c cs) resources seen depth = elim (visit c seen depth) [
      | err x ↦ err x
      | ok (subset, more) ↦
          let rest = visit_children parallel cs (extend resources subset) more depth in
          if parallel && not (is_disjoint resources subset) then err resource_overlap else rest
    ]

  unfoldable pub conditions_shaped : List (Name × Condition) → Bool
  conditions_shaped [] = true
  conditions_shaped ((k, c) ∷ m) = (condition_shape c 0 0).0 && conditions_shaped m

  abbrev pub binding_names : List (Name × ActionBinding) → List Name
  binding_names [] = []
  binding_names ((k, b) ∷ m) = k ∷ binding_names m

  abbrev pub same_names : List Name → List Name → Bool
  same_names [] [] = true
  same_names (x ∷ xs) (y ∷ ys) = x == y && same_names xs ys
  same_names _ _ = false

  abbrev pub finish : Result Refusal (List Name × Seen) → Result Refusal (Unit {0})
  finish (err x) = err x
  finish (ok (resources, seen)) =
      if not (same_names (binding_names process.bindings) seen.used)
      then err binding_set
      else if conditions_shaped process.conditions
      then ok tt
      else err bad_condition

  -- `validate`; `schema_known` says whether the schema is "rx.resolved-process.v1".
  unfoldable pub validate : Bool → Result Refusal (Unit {0})
  validate schema_known =
      if not schema_known
      then err process_schema
      else finish (visit process.root (record { nodes = []; used = [] }) 0)
