-- ===== src/Domain/Budget.antt =====
-- sdk/crates/rx-domain/src/budget.rs: the budget of a run, counted once for each logical attempt.
pub mod Invariant
pub mod Restore
mod Tests
use rx_solutions.Base.{
  ℕ, zero, suc, ◌+◌, ◌-◌, ◌%◌, Bool, true, false, not, ◌&&◌, ◌||◌, List, [], ◌∷◌, ltb, ◌==◌,
  if◌then◌else◌, Result, ok, err, Action, length,
}
use rx_solutions.Domain.Types.{
  Uuid, Counter, DomainError, invalid_input, invalid_transition, nonzero, increment,
}

pub data BudgetUnit : Type 0 where
  part_attempt operation_count : BudgetUnit

pub data Consumption : Type 0 where
  part_attempt operation : Uuid → Consumption

-- The derived equality and order: the variant first, then the identifier.
abbrev pub same_key : Consumption → Consumption → Bool
same_key (Consumption.part_attempt a) (Consumption.part_attempt b) = a == b
same_key (Consumption.operation a) (Consumption.operation b) = a == b
same_key _ _ = false

abbrev pub key_before : Consumption → Consumption → Bool
key_before (Consumption.part_attempt a) (Consumption.part_attempt b) = ltb a b
key_before (Consumption.part_attempt a) (Consumption.operation b) = true
key_before (Consumption.operation a) (Consumption.part_attempt b) = false
key_before (Consumption.operation a) (Consumption.operation b) = ltb a b

-- `consumptions` is a `BTreeSet`: ascending, without repetition.
pub record RunBudget : Type 0 where
  pub unit : BudgetUnit
  pub limit : Counter
  pub revision : Counter
  pub consumptions : List Consumption

pub record BudgetSnapshot : Type 0 where
  pub unit : BudgetUnit
  pub limit : Counter
  pub revision : Counter
  pub consumptions : List Consumption

-- `BTreeSet::contains` and `BTreeSet::insert`.
unfoldable pub contains_key : Consumption → List Consumption → Bool
contains_key k [] = false
contains_key k (x ∷ xs) = same_key k x || contains_key k xs

unfoldable pub insert_key : Consumption → List Consumption → List Consumption
insert_key k [] = k ∷ []
insert_key k (x ∷ xs) =
    let rest = insert_key k xs in
    if key_before k x then k ∷ x ∷ xs else if same_key k x then x ∷ xs else x ∷ rest

-- `RunBudget::new`.
unfoldable pub new : BudgetUnit → Counter → Result DomainError RunBudget
unfolding nonzero
new unit limit = elim (nonzero limit) [
  | err e ↦ err e
  | ok _ ↦ ok (record { unit = unit; limit = limit; revision = 1; consumptions = [] })
]

abbrev pub consumed : RunBudget → Counter
consumed b = length b.consumptions

-- `self.limit.0 - self.consumed().0`, a subtraction of `u64`.
unfoldable pub remaining : RunBudget → Counter
remaining b = (b.limit + 18446744073709551616 - consumed b) % 18446744073709551616

abbrev pub kind_matches : BudgetUnit → Consumption → Bool
kind_matches BudgetUnit.part_attempt (Consumption.part_attempt _) = true
kind_matches BudgetUnit.operation_count (Consumption.operation _) = true
kind_matches _ _ = false

-- `RunBudget::consume`.
unfoldable pub consume : Consumption → Action RunBudget DomainError Bool
unfolding remaining increment
consume key b =
    if not (kind_matches b.unit key)
    then (err invalid_input, b)
    else if contains_key key b.consumptions
    then (ok false, b)
    else if remaining b == 0
    then (err invalid_transition, b)
    else elim (increment b.revision) [
      | err e ↦ (err e, b)
      | ok r ↦ (ok true, record b { revision = r; consumptions = insert_key key b.consumptions })
    ]

-- `#[derive(Serialize)]`: the set is written in its order.
unfoldable pub to_snapshot : RunBudget → BudgetSnapshot
to_snapshot b = record {
  unit = b.unit;
  limit = b.limit;
  revision = b.revision;
  consumptions = b.consumptions;
}

-- The loop of `try_from`.
unfoldable pub consume_all : List Consumption → RunBudget → Result DomainError RunBudget
consume_all [] b = ok b
consume_all (k ∷ ks) b =
    let (r, b') = consume k b in
    elim r [
      | err e ↦ err e
      | ok fresh ↦ let more = consume_all ks b' in if fresh then more else err invalid_input
    ]

-- `TryFrom<BudgetSnapshot>`.
unfoldable pub try_from : BudgetSnapshot → Result DomainError RunBudget
unfolding new
try_from s = elim (new s.unit s.limit) [
  | err e ↦ err e
  | ok start ↦ elim (consume_all s.consumptions start) [
    | err e ↦ err e
    | ok b ↦ if s.revision == b.revision then ok b else err invalid_input
  ]
]

-- The budget after a series of calls, and how many of them were counted.
abbrev pub counts : Result DomainError Bool → ℕ
counts (ok true) = 1
counts _ = 0

unfoldable pub consume_series : List Consumption → RunBudget → RunBudget
consume_series [] b = b
consume_series (k ∷ ks) b = consume_series ks (consume k b).1

unfoldable pub counted : List Consumption → RunBudget → ℕ
counted [] b = 0
counted (k ∷ ks) b = counts (consume k b).0 + counted ks (consume k b).1
