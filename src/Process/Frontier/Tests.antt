-- ===== src/Process/Frontier/Tests.antt =====
-- A process of sdk/crates/rx-process-contract/src/frontier.rs: a pick, then a place beside a wait.
use rx_solutions.Base.{
  ℕ, ◌≡◌, ◌≤◌, refl, true, false, Option, some, none, List, [], ◌∷◌, ok, err, contains, lookup,
  distinct, length,
}
use rx_solutions.Domain.Types.{Digest}
use rx_solutions.Domain.Intent.{Intent, mode_transition, mode}
use rx_solutions.Domain.Operation.{Operation, Phase, Knowledge, Outcome, Integrity, Disposition}
use rx_solutions.Process.{
  CompiledBody, CompiledNode, compiled, sequence, parallel_all, operation, wait, no_child, child,
  ResolvedProcess,
}
use rx_solutions.Process.Frontier.{
  State, OperationProgress, ProgressView, ready, Frontier, crosses_predecessor, at_state, merge,
  merge_all, join, of_outcome, evaluate_operation, evaluate_wait,
}
use rx_solutions.Process.Frontier.Evaluate.{evaluate, has_progress}
use rx_solutions.Process.Frontier.Plan.{
  Nodes, collect, resolved_digest, plan, plan_nodes, check_operations, check_branches, check_waits,
  check_interventions,
}
use rx_solutions.Process.Frontier.Nodes.{keys, node_count, node_height, collect-bounds}
use rx_solutions.Process.Frontier.Done.{is_done, evaluate-done}
use rx_solutions.Process.Frontier.Enabled.{is_enabled, evaluate-enabled}
use rx_solutions.Process.Frontier.Attention.{is_explained, evaluate-explained}
use rx_solutions.Process.Frontier.Correlated.{operation_ids, are_bound, plan-correlated}

abbrev node : ℕ → CompiledBody → CompiledNode
node id body = compiled id (record { flow = 1; node = id; instantiation = [] }) body

abbrev root : CompiledNode
root = node 10 (
    sequence (
      child (node 11 (operation 50)) (
        child
          (node 12 (
            parallel_all
              (child (node 13 (operation 50)) (child (node 14 (wait 60 1000)) no_child))))
          no_child)))

abbrev switch : Intent
switch = record {
  kind = mode_transition;
  target = 1;
  profile_digest = 2;
  site_config_digest = 3;
  calibration_digests = [];
  resource_set = 4 ∷ [];
  execution_timeout_ms = 100;
  prepare_validity_ms = 50;
  completion_rule = 5;
  cancel_rule = 6;
  body = mode (record { mode_id = 7; transition_profile = 8 });
}

abbrev process : ResolvedProcess
process = record {
  schema = 1;
  package_digest = none;
  source_digest = 2;
  process = 3;
  root = root;
  bindings = (50, record { host = 9; intent = switch }) ∷ [];
  conditions = [];
}

abbrev operation_of : Outcome → Disposition → Operation
operation_of outcome disposition = record {
  operation_id = 70;
  revision = 5;
  intent_digest = 80;
  phase = Phase.settled;
  execution_knowledge = Knowledge.ended;
  outcome = outcome;
  integrity = Integrity.valid;
  disposition = disposition;
  evidence_ids = 90 ∷ [];
}

abbrev view_of : List (ℕ × OperationProgress) → ProgressView
view_of operations = record {
  run = 1;
  resolved_digest = 99;
  complete = true;
  operations = operations;
  branches = [];
  waits = [];
  cleared_interventions = [];
}

abbrev picked : ProgressView
picked = view_of (
    (
      11,
      record {
        operation = operation_of Outcome.succeeded Disposition.released;
        intent_digest = 80;
      },
    )
    ∷ [])

abbrev dropped : ProgressView
dropped = view_of (
    (11, record { operation = operation_of Outcome.failed Disposition.held; intent_digest = 80 })
    ∷ [])

abbrev place : Frontier
place = record {
  state = ready;
  operations = 13 ∷ [];
  decisions = [];
  waits = 14 ∷ [];
  handovers = [];
  interventions = [];
  pending_operations = [];
  reasons = [];
}

abbrev digest_of_process : ResolvedProcess → Option Digest
digest_of_process p = some 99

abbrev digest_of_intent : Intent → Option Digest
digest_of_intent i = some 80

picked_places : evaluate picked root ≡ ok place
unfolding evaluate evaluate_operation evaluate_wait of_outcome at_state merge merge_all join lookup
    has_progress
picked_places = refl

dropped_fails : evaluate dropped root ≡ ok (at_state State.failed)
unfolding evaluate evaluate_operation of_outcome at_state lookup has_progress
dropped_fails = refl

early_refused :
    evaluate
      (view_of (
        (13, record { operation = operation_of Outcome.none Disposition.held; intent_digest = 80 })
        ∷ []))
      root
    ≡ err crosses_predecessor
unfolding evaluate evaluate_operation at_state lookup has_progress
early_refused = refl

planned_pick : plan digest_of_process digest_of_intent process picked ≡ ok place
unfolding plan plan_nodes resolved_digest collect check_operations check_branches check_waits
    check_interventions evaluate evaluate_operation evaluate_wait of_outcome at_state merge
    merge_all join lookup contains has_progress
planned_pick = refl

abbrev all_nodes : Nodes
all_nodes =
    (14, wait 60 1000)
    ∷ (13, operation 50)
    ∷ (12, parallel_all (child (node 13 (operation 50)) (child (node 14 (wait 60 1000)) no_child)))
    ∷ (11, operation 50)
    ∷ (
      10,
      sequence (
          child (node 11 (operation 50)) (
            child
              (node 12 (
                parallel_all
                  (child (node 13 (operation 50)) (child (node 14 (wait 60 1000)) no_child))))
              no_child)),
    )
    ∷ []

root_nodes : collect root [] 0 ≡ ok all_nodes
unfolding collect
root_nodes = refl

collect-bounds_example :
    (length all_nodes ≡ node_count root)
    × (node_count root ≤ 4096)
    × (node_height root ≤ 65)
    × (distinct (keys all_nodes) ≡ true)
collect-bounds_example = collect-bounds root all_nodes root_nodes

evaluate-done_example : false ≡ is_done picked root
evaluate-done_example = evaluate-done picked root place picked_places

evaluate-enabled_example : is_enabled picked 13 root ≡ true
unfolding contains
evaluate-enabled_example = evaluate-enabled picked 13 root place picked_places refl

evaluate-explained_example : is_explained place ≡ true
evaluate-explained_example = evaluate-explained picked root place picked_places

plan-correlated_example :
    (nodes : Nodes) × (collect root [] 0 ≡ ok nodes)
    × (picked.complete ≡ true)
    × (digest_of_process process ≡ some picked.resolved_digest)
    × (are_bound digest_of_process digest_of_intent process nodes picked.operations ≡ true)
    × (distinct (operation_ids picked.operations) ≡ true)
    × (evaluate picked root ≡ ok place)
plan-correlated_example =
    plan-correlated digest_of_process digest_of_intent process picked place planned_pick
