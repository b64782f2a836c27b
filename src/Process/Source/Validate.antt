-- ===== src/Process/Source/Validate.antt =====
-- `validate` of sdk/crates/rx-process-contract/src/source_validation.rs.
use rx_solutions.Base.{
  ◌-◌, not, ◌||◌, none, some, List, [], ◌∷◌, ◌++◌, ltb, ◌==◌, if◌then◌else◌, Result, ok, err,
  is_empty, length, contains, distinct, set_insert,
}
use rx_solutions.Domain.Types.{Name}
use rx_solutions.Domain.Condition.{Condition}
use rx_solutions.Process.Source.{
  NodeBody, sequence, parallel_all, branch, repeat, calls_flow, operation, wait, intervention, Node,
  Flow, ProcessSource, children, Location, at_source, at_name, at_node, IssueCode, source_shape,
  duplicate_flow, entry_missing, node_limit, duplicate_node, root_missing, child_missing,
  empty_control, repeat_limit, call_missing, condition_missing, wait_limit, shared_or_cyclic_node,
  unreachable_node, condition_shape_code, unreachable_flow, panics, Report, empty, issue, issue_if,
  find_node, find_flow, present, has_condition,
}
use rx_solutions.Process.Source.Expand.{visit, Expansion, expand}
use rx_solutions.Process.Source.Shapes.{condition_shape}

-- What the loops over flows and nodes keep: the report, the bindings, and the counts of parents.
pub record Walk : Type 0 where
  pub report : Report
  pub bindings : List Name
  pub parents : List Name

abbrev pub reporting : (Report → Report) → Walk → Walk
reporting f w = record w { report = f w.report }

-- The loop over the children of a node.
unfoldable pub check_children : Location → List Node → List Name → Walk → Walk
check_children at nodes [] w = w
check_children at nodes (c ∷ cs) w =
    check_children at nodes cs
      (record (reporting (issue_if (not (present (find_node c nodes))) at child_missing) w) {
        parents = c ∷ w.parents;
      })

-- The match over the body of a node.
unfoldable pub check_body : ProcessSource → Location → NodeBody → Walk → Walk
check_body source at (sequence cs) w = reporting (issue_if (is_empty cs) at empty_control) w
check_body source at (parallel_all cs) w = reporting (issue_if (is_empty cs) at empty_control) w
check_body source at (repeat n c) w = reporting (issue_if (n == 0 || ltb 1024 n) at repeat_limit) w
check_body source at (calls_flow f) w =
    reporting (issue_if (not (present (find_flow f source.flows))) at call_missing) w
check_body source at (operation b) w = record w { bindings = set_insert b w.bindings }
check_body source at (branch c t f) w =
    reporting (issue_if (not (has_condition c source.conditions)) at condition_missing) w
check_body source at (wait c t) w =
    if not (has_condition c source.conditions)
    then reporting (issue at condition_missing) w
    else reporting (issue_if (t == 0) at wait_limit) w
check_body source at (intervention p) w =
    reporting (λ r. record r { procedure_references = r.procedure_references ++ p ∷ [] }) w

-- The loop over the nodes of a flow.
unfoldable pub check_nodes : ProcessSource → Flow → List Node → Walk → Walk
check_nodes source flow [] w = w
check_nodes source flow (n ∷ ns) w =
    let at = at_node flow.id n.id in
    check_nodes source flow ns
      (check_body source at n.body (check_children at flow.nodes (children n.body) w))

abbrev pub node_ids : List Node → List Name
node_ids [] = []
node_ids (n ∷ ns) = n.id ∷ node_ids ns

abbrev pub flow_ids : List Flow → List Name
flow_ids [] = []
flow_ids (f ∷ fs) = f.id ∷ flow_ids fs

abbrev pub walked_tree : Flow → Report → Result IssueCode (Unit {0}) × List Name → Report
walked_tree flow r (err e, seen) = issue (at_name flow.id) e r
walked_tree flow r (ok u, seen) =
    issue_if (not (length seen == length flow.nodes)) (at_name flow.id) unreachable_node r

-- The walk from the root of a flow, which is made only while there are no issues.
unfoldable pub check_tree : Flow → Report → Report
check_tree flow r = walked_tree flow r (visit flow.nodes 65 flow.root [])

abbrev pub check_parents : Flow → Walk → Report
check_parents flow w =
    issue_if (contains flow.root w.parents || not (distinct w.parents)) (at_name flow.id)
      shared_or_cyclic_node w.report

abbrev pub tree_if_clean : Flow → Report → Report
tree_if_clean flow r = if is_empty r.issues then check_tree flow r else r

-- One round of the loop over the flows.
unfoldable pub check_flow : ProcessSource → Flow → Walk → Walk
check_flow source flow w =
    if is_empty flow.nodes || ltb 1024 (length flow.nodes)
    then reporting (issue (at_name flow.id) node_limit) w
    else if not (distinct (node_ids flow.nodes))
    then reporting (issue (at_name flow.id) duplicate_node) w
    else if not (present (find_node flow.root flow.nodes))
    then reporting (issue (at_name flow.id) root_missing) w
    else let walked = check_nodes source flow flow.nodes (record w { parents = [] }) in
      record walked { report = tree_if_clean flow (check_parents flow walked) }

unfoldable pub check_flows : ProcessSource → List Flow → Walk → Walk
check_flows source [] w = w
check_flows source (f ∷ fs) w = check_flows source fs (check_flow source f w)

unfoldable pub check_conditions : List (Name × Condition) → Report → Report
check_conditions [] r = r
check_conditions ((id, c) ∷ m) r =
    check_conditions m
      (issue_if (not (condition_shape c 0 0).0) (at_name id) condition_shape_code r)

abbrev pub at_start : Name → Expansion
at_start entry = record { calls = entry ∷ []; visited = []; remaining = 4096 }

abbrev pub expanded : ProcessSource → Report → Result IssueCode (Unit {0}) × Expansion → Report
expanded source r (err e, s) = record (issue (at_name source.entry) e r) {
  expanded_nodes = 4096 - s.remaining;
}
expanded source r (ok u, s) =
    record (issue_if (not (length s.visited == length source.flows)) at_source unreachable_flow r) {
      expanded_nodes = 4096 - s.remaining;
    }

-- The expansion from the entry flow, which is made only when there are no issues.
unfoldable pub check_expansion : ProcessSource → Report → Report
check_expansion source r = elim (find_flow source.entry source.flows) [
  | none ↦ issue (at_name source.entry) panics r
  | some entry ↦ expanded source r (expand source.flows 65 entry entry.root (at_start source.entry))
]

abbrev pub expansion_if_clean : ProcessSource → Report → Report
expansion_if_clean source r = if is_empty r.issues then check_expansion source r else r

-- What is checked when the flows can be told apart.
unfoldable pub check_source : ProcessSource → Report
check_source source =
    let entered =
      issue_if (not (present (find_flow source.entry source.flows))) (at_name source.entry)
        entry_missing empty in
    let walked =
      check_flows source source.flows (record { report = entered; bindings = []; parents = [] }) in
    expansion_if_clean source (record (check_conditions source.conditions walked.report) {
      required_bindings = walked.bindings;
    })

abbrev pub conclude : Report → Report
conclude r = record r { structurally_valid = is_empty r.issues }

-- `validate`.
unfoldable pub validate : ProcessSource → Report
validate source =
    if not source.schema_known || is_empty source.flows || ltb 128 (length source.flows)
    then issue at_source source_shape empty
    else if not (distinct (flow_ids source.flows))
    then issue at_source duplicate_flow empty
    else conclude (check_source source)
