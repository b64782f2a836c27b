-- ===== src/Domain/Budget/Invariant.antt =====
-- What holds of a budget between calls of `consume` of sdk/crates/rx-domain/src/budget.rs.
use rx_solutions.Base.{
  suc, ◌+◌, ◌≤◌, ◌<◌, ◌≡◌, ◌↔◌, refl, Bool, true, false, ◌||◌, List, [], ◌∷◌, arith, ok, length,
  all,
}
use rx_solutions.Domain.Types.{Counter, u64_max}
use rx_solutions.Domain.Budget.{
  BudgetUnit, Consumption, same_key, key_before, RunBudget, contains_key, insert_key, new, consumed,
  remaining, kind_matches, consume, counts, consume_series, counted,
}

-- Every key of the list comes after the bound.
abbrev pub KeysAfter : Consumption → List Consumption → Type 0
KeysAfter k [] = Unit {0}
KeysAfter k (x ∷ xs) = (key_before k x ≡ true) × KeysAfter k xs

abbrev pub IsOrdered : List Consumption → Type 0
IsOrdered [] = Unit {0}
IsOrdered (x ∷ xs) = KeysAfter x xs × IsOrdered xs

pub record IsBudget (b : RunBudget) : Type 0 where
  pub limit_positive : 0 < b.limit
  pub limit_fits : b.limit ≤ u64_max
  pub within_limit : consumed b ≤ b.limit
  pub revision_counts : b.revision ≡ consumed b + 1
  pub revision_fits : b.revision ≤ u64_max
  pub kinds : all (kind_matches b.unit) b.consumptions ≡ true
  pub ordered : IsOrdered b.consumptions

insert_key-length :
    (k : Consumption) (s : List Consumption)
    → contains_key k s ≡ false
    → length (insert_key k s) ≡ suc (length s)
unfolding contains_key insert_key
insert_key-length k [] h = refl
insert_key-length k (x ∷ xs) h = ground (arith, insert_key-length k xs)

pub contains_key-insert_key :
    (j k : Consumption) (s : List Consumption)
    → contains_key j (insert_key k s) ≡ (same_key j k || contains_key j s)
unfolding contains_key insert_key
contains_key-insert_key j k [] = refl
contains_key-insert_key j k (x ∷ xs) = ground (arith, contains_key-insert_key j k xs)

insert_key-kinds :
    (u : BudgetUnit) (k : Consumption) (s : List Consumption)
    → kind_matches u k ≡ true
    → all (kind_matches u) s ≡ true
    → all (kind_matches u) (insert_key k s) ≡ true
unfolding insert_key
insert_key-kinds u k [] h a = rw h
insert_key-kinds u k (x ∷ xs) h a = ground (arith, insert_key-kinds u k xs h)

KeysAfter-mono :
    (j k : Consumption) (s : List Consumption)
    → key_before j k ≡ true
    → KeysAfter k s
    → KeysAfter j s
KeysAfter-mono j k [] h a = tt
KeysAfter-mono j k (x ∷ xs) h a = (ground arith, KeysAfter-mono j k xs h a.1)

insert_key-KeysAfter :
    (b k : Consumption) (s : List Consumption)
    → key_before b k ≡ true
    → KeysAfter b s
    → KeysAfter b (insert_key k s)
unfolding insert_key
insert_key-KeysAfter b k [] h a = (h, tt)
insert_key-KeysAfter b k (x ∷ xs) h a = ground (arith, insert_key-KeysAfter b k xs h a.1)

insert_key-IsOrdered :
    (k : Consumption) (s : List Consumption) → IsOrdered s → IsOrdered (insert_key k s)
unfolding insert_key
insert_key-IsOrdered k [] o = (tt, tt)
insert_key-IsOrdered k (x ∷ xs) o =
    ground
      (arith, KeysAfter-mono k x xs, insert_key-KeysAfter x k xs, insert_key-IsOrdered k xs o.1)

pub new-IsBudget :
    (u : BudgetUnit) (limit : Counter) {b : RunBudget}
    → limit ≤ u64_max
    → new u limit ≡ ok b
    → IsBudget b
unfolding new
new-IsBudget u limit fits h = ground arith

-- No underflow: what remains and what is consumed add up to the limit.
pub remaining-add_consumed : (b : RunBudget) → IsBudget b → remaining b + consumed b ≡ b.limit
unfolding remaining
remaining-add_consumed b v = omega arith

pub consume-IsBudget : (k : Consumption) (b : RunBudget) → IsBudget b → IsBudget (consume k b).1
unfolding consume
consume-IsBudget k b v = ground (
  arith,
  insert_key-length k b.consumptions,
  insert_key-kinds b.unit k b.consumptions,
  insert_key-IsOrdered k b.consumptions v.ordered,
)

pub consume_series-IsBudget :
    (ks : List Consumption) (b : RunBudget) → IsBudget b → IsBudget (consume_series ks b)
unfolding consume_series
consume_series-IsBudget [] b v = v
consume_series-IsBudget (k ∷ ks) b v =
    consume_series-IsBudget ks (consume k b).1 (consume-IsBudget k b v)

-- A key is counted exactly when its kind is the unit's, it was not counted before, and the limit
-- is not reached; the counter of revisions is never what fails while the limit is below 2^64 - 1.
pub consume_iff :
    (k : Consumption) (b : RunBudget)
    → IsBudget b
    → b.limit < u64_max
    → ((consume k b).0 ≡ ok true) ↔ (
        (kind_matches b.unit k ≡ true)
        × (contains_key k b.consumptions ≡ false)
        × (consumed b < b.limit))
unfolding consume
consume_iff k b v small = (λ h. ground arith, λ h. ground arith)

counts-consume :
    (k : Consumption) (b : RunBudget)
    → counts (consume k b).0 + consumed b ≡ consumed (consume k b).1
unfolding consume
counts-consume k b = ground (arith, insert_key-length k b.consumptions)

counted_grows :
    (ks : List Consumption) (b : RunBudget)
    → counted ks b + consumed b ≡ consumed (consume_series ks b)
unfolding counted consume_series
counted_grows [] b = omega arith
counted_grows (k ∷ ks) b = omega (arith, counts-consume k b, counted_grows ks (consume k b).1)

-- The calls that were counted are the growth of what is consumed, and they never pass the limit.
pub counted-consumed :
    (ks : List Consumption) (b : RunBudget)
    → IsBudget b
    → (counted ks b + consumed b ≡ consumed (consume_series ks b))
      × (consumed (consume_series ks b) ≤ (consume_series ks b).limit)
counted-consumed ks b v = (counted_grows ks b, (consume_series-IsBudget ks b v).within_limit)

-- A key that was counted, or had been before, is not counted again: the second call says so and
-- changes nothing.
pub consume_again :
    (k : Consumption) (b : RunBudget) {fresh : Bool}
    → (consume k b).0 ≡ ok fresh
    → consume k (consume k b).1 ≡ (ok false, (consume k b).1)
unfolding consume
consume_again k b h = ground (arith, contains_key-insert_key k k b.consumptions)
