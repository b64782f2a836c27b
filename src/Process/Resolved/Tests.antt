-- ===== src/Process/Resolved/Tests.antt =====
-- Two operations side by side in a process of sdk/crates/rx-process-contract/src/validation.rs.
use rx_solutions.Base.{
  ◌≡◌, refl, true, some, none, Option, List, [], ◌∷◌, ok, err, lookup, contains, set_insert, to_set,
  sort, sort_insert,
}
use rx_solutions.Domain.Types.{Name}
use rx_solutions.Domain.Intent.{Intent, mode_transition, mode, normalized}
use rx_solutions.Process.{
  SourceLocation, CompiledNode, compiled, parallel_all, operation, no_child, child, ResolvedProcess,
}
use rx_solutions.Process.Resolved.{visit, validate, resource_overlap, conditions_shaped}
use rx_solutions.Process.Resolved.Separate.{IsSeparate, validate-IsSeparate}

abbrev switch : List Name → Intent
switch resources = record {
  kind = mode_transition;
  target = 1;
  profile_digest = 2;
  site_config_digest = 3;
  calibration_digests = [];
  resource_set = resources;
  execution_timeout_ms = 100;
  prepare_validity_ms = 50;
  completion_rule = 5;
  cancel_rule = 6;
  body = mode (record { mode_id = 7; transition_profile = 8 });
}

abbrev node : Name → Name → CompiledNode
node id binding =
    compiled id (record { flow = 1; node = id; instantiation = [] }) (operation binding)

abbrev beside : List Name → ResolvedProcess
beside resources = record {
  schema = 1;
  package_digest = none;
  source_digest = 2;
  process = 3;
  root =
      compiled 10 (record { flow = 1; node = 10; instantiation = [] })
        (parallel_all (child (node 11 50) (child (node 12 51) no_child)));
  bindings =
      (50, record { host = 9; intent = switch (4 ∷ []) })
      ∷ (51, record { host = 9; intent = switch resources })
      ∷ [];
  conditions = [];
}

abbrev by_node : Name → SourceLocation → Option Name
by_node process source = some source.node

accepted : validate by_node (beside (6 ∷ [])) true ≡ ok tt
unfolding validate visit lookup contains set_insert to_set normalized sort sort_insert
    conditions_shaped
accepted = refl

overlapping : validate by_node (beside (6 ∷ 4 ∷ [])) true ≡ err resource_overlap
unfolding validate visit lookup contains set_insert to_set normalized sort sort_insert
overlapping = refl

validate-IsSeparate_example : IsSeparate by_node (beside (6 ∷ [])) (beside (6 ∷ [])).root
validate-IsSeparate_example = validate-IsSeparate by_node (beside (6 ∷ [])) true accepted
