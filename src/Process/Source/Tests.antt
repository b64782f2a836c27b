-- ===== src/Process/Source/Tests.antt =====
-- A source of sdk/crates/rx-process-contract: a flow that calls another one three times.
use rx_solutions.Base.{
  ◌≡◌, ◌≤◌, refl, true, some, [], ◌∷◌, ok, length, lookup, contains, distinct, set_insert,
}
use rx_solutions.Domain.Types.{boolean}
use rx_solutions.Domain.Condition.{Condition, all_of, nothing, more, eq, Context}
use rx_solutions.Domain.Condition.Evaluate.{evaluate}
use rx_solutions.Domain.Condition.Value.{value}
use rx_solutions.Process.Source.{
  Flow, ProcessSource, sequence, repeat, calls_flow, operation, wait, children, issue, find_node,
  find_flow, call_cycle, at_name,
}
use rx_solutions.Process.Source.Expand.{
  visit, visit_all, expand, expand_all, expand_times, expand_body, Expansion,
}
use rx_solutions.Process.Source.Shapes.{condition_shape}
use rx_solutions.Process.Source.Validate.{
  validate, check_source, check_flows, check_flow, check_nodes, check_body, check_children,
  check_tree, check_conditions, check_expansion, at_start,
}
use rx_solutions.Process.Source.Sound.{validate-evaluates}
use rx_solutions.Process.Source.Expanded.{weight, validate-expands}

abbrev closed : Condition
closed = all_of (more (eq 10 1 2 (boolean true)) nothing)

abbrev main : Flow
main = record {
  id = 1;
  root = 20;
  nodes =
      record { id = 20; body = sequence (21 ∷ 22 ∷ []) }
      ∷ record { id = 21; body = wait 30 500 }
      ∷ record { id = 22; body = repeat 3 23 }
      ∷ record { id = 23; body = calls_flow 2 }
      ∷ [];
}

abbrev inner : Flow
inner = record { id = 2; root = 20; nodes = record { id = 20; body = operation 40 } ∷ [] }

abbrev source : ProcessSource
source = record {
  schema_known = true;
  process = 5;
  entry = 1;
  flows = main ∷ inner ∷ [];
  conditions = (30, closed) ∷ [];
}

abbrev cyclic : ProcessSource
cyclic = record source {
  flows = record { id = 1; root = 20; nodes = record { id = 20; body = calls_flow 1 } ∷ [] } ∷ [];
}

source_valid : (validate source).structurally_valid ≡ true
unfolding validate check_source check_flows check_flow check_nodes check_body check_children
    check_tree check_conditions check_expansion visit visit_all expand expand_all expand_times
    expand_body condition_shape children find_node find_flow lookup contains distinct set_insert
    issue
source_valid = refl

source_size : (validate source).expanded_nodes ≡ 9
unfolding validate check_source check_flows check_flow check_nodes check_body check_children
    check_tree check_conditions check_expansion visit visit_all expand expand_all expand_times
    expand_body condition_shape children find_node find_flow lookup contains distinct set_insert
    issue
source_size = refl

cyclic_issues : (validate cyclic).issues ≡ record { location = at_name 1; code = call_cycle } ∷ []
unfolding validate check_source check_flows check_flow check_nodes check_body check_children
    check_tree check_conditions check_expansion visit visit_all expand expand_all expand_times
    expand_body condition_shape children find_node find_flow lookup contains distinct set_insert
    issue
cyclic_issues = refl

abbrev unread : Context
unread = record { now = record { clock_id = 7; ticks_ns = 1 }; facts = []; generations = [] }

validate-evaluates_example : evaluate unread closed ≡ ok (value unread closed)
unfolding lookup
validate-evaluates_example = validate-evaluates source unread 30 closed source_valid refl

validate-expands_example :
    (entry : Flow) × (s : Expansion) × (find_flow 1 source.flows ≡ some entry)
    × (expand source.flows 65 entry entry.root (at_start 1) ≡ (ok tt, s))
    × ((validate source).expanded_nodes ≡ weight source.flows 65 entry entry.root)
    × ((validate source).expanded_nodes ≤ 4096)
    × (length s.visited ≡ length source.flows)
validate-expands_example = validate-expands source source_valid
