-- ===== src/Domain/Budget/Tests.antt =====
-- Runs of sdk/crates/rx-domain/src/budget.rs, and the laws at them.
use rx_solutions.Base.{◌≡◌, refl, true, List, [], ◌∷◌, arith, ok, err}
use rx_solutions.Domain.Types.{invalid_transition}
use rx_solutions.Domain.Budget.{
  BudgetUnit, Consumption, RunBudget, new, contains_key, insert_key, consume, consume_series,
  to_snapshot, try_from,
}
use rx_solutions.Domain.Budget.Invariant.{IsBudget, new-IsBudget}
use rx_solutions.Domain.Budget.Restore.{try_from-consume_series}

abbrev two_parts : RunBudget
two_parts = record { unit = BudgetUnit.part_attempt; limit = 2; revision = 1; consumptions = [] }

abbrev part : Consumption
part = Consumption.part_attempt 8

abbrev calls : List Consumption
calls =
    part
    ∷ Consumption.operation 1
    ∷ part
    ∷ Consumption.part_attempt 3
    ∷ Consumption.part_attempt 9
    ∷ []

two_parts-new : new BudgetUnit.part_attempt 2 ≡ ok two_parts
unfolding new
two_parts-new = refl

two_parts-IsBudget : IsBudget two_parts
two_parts-IsBudget = new-IsBudget BudgetUnit.part_attempt 2 (omega arith) two_parts-new

third_refused :
    (consume (Consumption.part_attempt 9) (consume_series calls two_parts)).0
    ≡ err invalid_transition
unfolding consume_series consume contains_key insert_key
third_refused = refl

part_counted : (consume part two_parts).0 ≡ ok true
unfolding consume contains_key insert_key
part_counted = refl

try_from-consume_series_example :
    try_from (to_snapshot (consume_series calls two_parts)) ≡ ok (consume_series calls two_parts)
try_from-consume_series_example =
    try_from-consume_series BudgetUnit.part_attempt 2 calls (omega arith) two_parts-new
