-- ===== src/Process/Source/Expand.antt =====
-- `visit` and `expand` of sdk/crates/rx-process-contract/src/source_validation.rs. Their last but one
-- argument counts the levels that the limit of 64 still allows.
use rx_solutions.Base.{
  ℕ, zero, suc, ◌-◌, none, some, List, [], ◌∷◌, ◌==◌, if◌then◌else◌, Result, ok, err, Action,
  contains, set_insert,
}
use rx_solutions.Domain.Types.{Name}
use rx_solutions.Process.Source.{
  NodeBody, sequence, parallel_all, branch, repeat, calls_flow, operation, wait, intervention, Node,
  Flow, children, IssueCode, tree_depth_or_cycle, expansion_limit, call_cycle, panics, find_node,
  find_flow,
}

abbrev pub Visit : Type 0
Visit = Action (List Name) IssueCode (Unit {0})

unfoldable pub visit_all : (Name → Visit) → List Name → Visit
visit_all f [] seen = (ok tt, seen)
visit_all f (c ∷ cs) seen =
    let (r, more) = f c seen in elim r [ err e ↦ (err e, more) | ok u ↦ visit_all f cs more ]

unfoldable pub visit : List Node → ℕ → Name → Visit
visit nodes zero id seen = (err tree_depth_or_cycle, seen)
visit nodes (suc levels) id seen =
    if contains id seen then (err tree_depth_or_cycle, seen) else elim (find_node id nodes) [
      | none ↦ (err panics, id ∷ seen)
      | some body ↦ visit_all (visit nodes levels) (children body) (id ∷ seen)
    ]

-- The flows that are being called, the last one first, those visited, and the nodes that may follow.
pub record Expansion : Type 0 where
  pub calls : List Name
  pub visited : List Name
  pub remaining : ℕ

abbrev pub Expand : Type 0
Expand = Action Expansion IssueCode (Unit {0})

unfoldable pub expand_all : (Name → Expand) → List Name → Expand
expand_all f [] s = (ok tt, s)
expand_all f (c ∷ cs) s =
    let (r, more) = f c s in elim r [ err e ↦ (err e, more) | ok u ↦ expand_all f cs more ]

unfoldable pub expand_times : Expand → ℕ → Expand
expand_times f zero s = (ok tt, s)
expand_times f (suc n) s =
    let (r, more) = f s in elim r [ err e ↦ (err e, more) | ok u ↦ expand_times f n more ]

abbrev pub last_call : List Name → List Name
last_call [] = []
last_call (c ∷ cs) = cs

-- `calls.pop()`.
abbrev pub pop_call :
    Result IssueCode (Unit {0}) × Expansion → Result IssueCode (Unit {0}) × Expansion
pop_call (err e, s) = (err e, s)
pop_call (ok u, s) = (ok tt, record s { calls = last_call s.calls })

-- The match of `expand` over the body of a node.
unfoldable pub expand_body : (Flow → Name → Expand) → List Flow → Flow → NodeBody → Expand
expand_body f flows flow (calls_flow target) s =
    if contains target s.calls then (err call_cycle, s) else elim (find_flow target flows) [
      | none ↦ (err panics, record s { calls = target ∷ s.calls })
      | some next ↦ pop_call (f next next.root (record s { calls = target ∷ s.calls }))
    ]
expand_body f flows flow (repeat n c) s = expand_times (f flow c) n s
expand_body f flows flow (sequence cs) s = expand_all (f flow) cs s
expand_body f flows flow (parallel_all cs) s = expand_all (f flow) cs s
expand_body f flows flow (branch c t e) s = expand_all (f flow) (t ∷ e ∷ []) s
expand_body f flows flow (operation b) s = (ok tt, s)
expand_body f flows flow (wait c t) s = (ok tt, s)
expand_body f flows flow (intervention p) s = (ok tt, s)

abbrev pub spend : Flow → Expansion → Expansion
spend flow s = record s { visited = set_insert flow.id s.visited; remaining = s.remaining - 1 }

-- `expand`.
unfoldable pub expand : List Flow → ℕ → Flow → Name → Expand
expand flows zero flow node s = (err expansion_limit, s)
expand flows (suc levels) flow node s =
    if s.remaining == 0 then (err expansion_limit, s) else elim (find_node node flow.nodes) [
      | none ↦ (err panics, spend flow s)
      | some body ↦ expand_body (expand flows levels) flows flow body (spend flow s)
    ]
