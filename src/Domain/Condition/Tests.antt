-- ===== src/Domain/Condition/Tests.antt =====
-- Conditions of sdk/crates/rx-domain/src/condition.rs over a door and a temperature.
use rx_solutions.Base.{
  ◌≡◌, arith, refl, true, false, some, none, [], ◌∷◌, ok, err, lookup, to_set, set_insert,
}
use rx_solutions.Domain.Types.{age_ns, boolean, real, invalid_input}
use rx_solutions.Domain.Condition.{
  pass, unknown, Condition, all_of, any_of, eq, range, nothing, more, scalar, Fact, Context,
  Evaluation, leaf, is_usable, fresh_until, combine, group_verdict, limits, earliest, longest,
  FactValue,
}
use rx_solutions.Domain.Condition.Evaluate.{evaluate, eval}
use rx_solutions.Domain.Condition.Verdicts.{truth, both, evaluate-truth}
use rx_solutions.Domain.Condition.Bounded.{evaluate-value}
use rx_solutions.Domain.Condition.Value.{value, height, size, is_well_formed}
use rx_solutions.Domain.Condition.Lasting.{read_at, evaluate-lasts}

abbrev fact : FactValue → Fact
fact v = record {
  schema = 1;
  unit = 2;
  source_generation = 3;
  acquired_at = record { clock_id = 7; ticks_ns = 100 };
  maximum_age_ns = 50;
  acquisition_uncertainty_ns = 5;
  quality_good = true;
  origin_age_bounded = true;
  disputed = false;
  value = v;
  evidence_id = 40;
}

abbrev context : Context
context = record {
  now = record { clock_id = 7; ticks_ns = 120 };
  facts =
      (10, fact (scalar (boolean true)))
      ∷ (11, record (fact (scalar (real 30))) { evidence_id = 41 })
      ∷ [];
  generations = (10, 3) ∷ (11, 3) ∷ [];
}

abbrev closed : Condition
closed = eq 10 1 2 (boolean true)

abbrev warm : Condition
warm = range 11 1 2 20 40

abbrev missing : Condition
missing = eq 12 1 2 (boolean true)

abbrev safe : Condition
safe = all_of (more closed (more (any_of (more missing (more warm nothing))) nothing))

abbrev safe_result : Evaluation
safe_result = record {
  verdict = pass;
  evidence_ids = 40 ∷ 41 ∷ [];
  valid_until = some (record { clock_id = 7; ticks_ns = 145 });
}

safe_passes : evaluate context safe ≡ ok safe_result
unfolding evaluate eval leaf is_usable fresh_until age_ns combine group_verdict limits earliest
    longest lookup to_set set_insert
safe_passes = refl

missing_unknown : truth context (all_of (more closed (more missing nothing))) ≡ unknown
unfolding truth leaf is_usable age_ns lookup both
missing_unknown = refl

empty_refused : evaluate context (all_of nothing) ≡ err invalid_input
unfolding evaluate eval
empty_refused = refl

stale :
    evaluate (read_at context 146) closed
    ≡ ok (record { verdict = unknown; evidence_ids = 40 ∷ []; valid_until = none })
unfolding evaluate eval leaf is_usable age_ns lookup
stale = refl

evaluate-value_example : evaluate context safe ≡ ok (value context safe)
unfolding height size is_well_formed
evaluate-value_example = evaluate-value context safe

evaluate-truth_example : pass ≡ truth context safe
evaluate-truth_example = evaluate-truth context safe safe_result safe_passes

evaluate-lasts_example :
    (e : Evaluation) × (evaluate (read_at context 145) safe ≡ ok e) × (e.verdict ≡ pass)
evaluate-lasts_example =
    evaluate-lasts context safe safe_result (record { clock_id = 7; ticks_ns = 145 }) 145
      safe_passes refl refl (omega arith) (omega arith)
