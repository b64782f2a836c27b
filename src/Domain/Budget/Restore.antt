-- ===== src/Domain/Budget/Restore.antt =====
-- `TryFrom<BudgetSnapshot>` of sdk/crates/rx-domain/src/budget.rs replays the stored history.
use rx_solutions.Base.{
  ◌+◌, ◌≤◌, ◌≡◌, refl, Bool, true, false, List, [], ◌∷◌, ◌++◌, arith, ok, length, length-append,
  all,
}
use mathlib.Core.List.{append-nil, append_assoc}
use rx_solutions.Domain.Types.{Counter, u64_max}
use rx_solutions.Domain.Budget.{
  BudgetUnit, Consumption, key_before, RunBudget, contains_key, insert_key, new, kind_matches,
  consume, consume_all, consume_series, to_snapshot, try_from,
}
use rx_solutions.Domain.Budget.Invariant.{
  KeysAfter, IsOrdered, IsBudget, new-IsBudget, consume_series-IsBudget,
}

-- Every key of the list comes before the bound.
abbrev KeysBefore : List Consumption → Consumption → Type 0
KeysBefore [] k = Unit {0}
KeysBefore (x ∷ xs) k = (key_before x k ≡ true) × KeysBefore xs k

insert_key-last :
    (k : Consumption) (s : List Consumption) → KeysBefore s k → insert_key k s ≡ s ++ k ∷ []
unfolding insert_key
insert_key-last k [] h = refl
insert_key-last k (x ∷ xs) h = ground (arith, insert_key-last k xs h.1)

contains_key-last :
    (k : Consumption) (s : List Consumption) → KeysBefore s k → contains_key k s ≡ false
unfolding contains_key
contains_key-last k [] h = refl
contains_key-last k (x ∷ xs) h = ground (arith, contains_key-last k xs h.1)

KeysAfter-before :
    (x k : Consumption) (s t : List Consumption) → KeysAfter x (s ++ k ∷ t) → key_before x k ≡ true
KeysAfter-before x k [] t h = h.0
KeysAfter-before x k (y ∷ s) t h = KeysAfter-before x k s t h.1

IsOrdered-before :
    (k : Consumption) (s t : List Consumption) → IsOrdered (s ++ k ∷ t) → KeysBefore s k
IsOrdered-before k [] t h = tt
IsOrdered-before k (x ∷ s) t h = (KeysAfter-before x k s t h.0, IsOrdered-before k s t h.1)

all-last :
    (p : Consumption → Bool) (s : List Consumption) (k : Consumption) (t : List Consumption)
    → all p (s ++ k ∷ t) ≡ true
    → p k ≡ true
all-last p [] k t h = ground arith
all-last p (x ∷ s) k t h = all-last p s k t (ground arith)

-- A budget that holds the keys `s` of the unit and limit.
abbrev holding : BudgetUnit → Counter → List Consumption → RunBudget
holding u limit s = record { unit = u; limit = limit; revision = length s + 1; consumptions = s }

consume-next :
    (u : BudgetUnit) (limit : Counter) (s : List Consumption) (k : Consumption)
    (t : List Consumption)
    → limit ≤ u64_max
    → length (s ++ k ∷ t) ≤ limit
    → length (s ++ k ∷ t) + 1 ≤ u64_max
    → IsOrdered (s ++ k ∷ t)
    → all (kind_matches u) (s ++ k ∷ t) ≡ true
    → consume k (holding u limit s) ≡ (ok true, holding u limit (s ++ k ∷ []))
unfolding consume
consume-next u limit s k t fits within small o a =
    let b = IsOrdered-before k s t o in
    ground (
      arith,
      insert_key-last k s b,
      contains_key-last k s b,
      all-last (kind_matches u) s k t a,
      length-append s (k ∷ t),
      length-append s (k ∷ []),
    )

consume_all-holding :
    (u : BudgetUnit) (limit : Counter) (s t : List Consumption)
    → limit ≤ u64_max
    → length (s ++ t) ≤ limit
    → length (s ++ t) + 1 ≤ u64_max
    → IsOrdered (s ++ t)
    → all (kind_matches u) (s ++ t) ≡ true
    → consume_all t (holding u limit s) ≡ ok (holding u limit (s ++ t))
unfolding consume_all
consume_all-holding u limit s [] fits within small o a = rw append-nil
consume_all-holding u limit s (k ∷ t) fits within small o a =
    let e = append_assoc s (k ∷ []) t in
    let more =
      consume_all-holding u limit (s ++ k ∷ []) t fits (rw e within) (rw e small) (rw e o)
        (rw e a) in
    ground (arith, consume-next u limit s k t fits within small o a, rw e at more)

-- A budget that meets the invariant is read back from its stored form, as it was.
pub try_from-to_snapshot : (b : RunBudget) → IsBudget b → try_from (to_snapshot b) ≡ ok b
unfolding try_from to_snapshot
try_from-to_snapshot b v =
    let small : length b.consumptions + 1 ≤ u64_max = omega arith in
    ground (
      arith,
      consume_all-holding b.unit b.limit [] b.consumptions v.limit_fits v.within_limit small
          v.ordered v.kinds,
    )

-- After any series of calls on a new budget, its stored form is read back as the budget.
pub try_from-consume_series :
    (u : BudgetUnit) (limit : Counter) (ks : List Consumption) {b : RunBudget}
    → limit ≤ u64_max
    → new u limit ≡ ok b
    → try_from (to_snapshot (consume_series ks b)) ≡ ok (consume_series ks b)
try_from-consume_series u limit ks {b} fits h =
    try_from-to_snapshot (consume_series ks b)
      (consume_series-IsBudget ks b (new-IsBudget u limit fits h))
