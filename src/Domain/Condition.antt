-- ===== src/Domain/Condition.antt =====
-- sdk/crates/rx-domain/src/condition.rs: three-valued conditions over facts. The budget of nodes is
-- the state of an `Action`; the two maps are lists of entries.
pub mod Evaluate
pub mod Value
pub mod Bounded
pub mod Verdicts
pub mod Lasting
mod Tests
use rx_solutions.Base.{
  ℕ, suc, ◌+◌, ◌-◌, Bool, true, false, not, ◌&&◌, ◌||◌, Option, none, some, List, [], ◌∷◌, ◌++◌,
  leb, ltb, ◌==◌, if◌then◌else◌, Result, ok, err, Action, any, all, retain, contains, lookup,
  to_set,
}
use rx_solutions.Domain.Types.{
  Uuid, Name, Counter, DomainError, invalid_input, TimePoint, age_ns, checked_add, checked_sub,
  TypedValue, boolean, integer, real, symbol, reals,
}

pub data Verdict : Type 0 where
  pass fail unknown : Verdict

mutual
  pub data Condition : Type 0 where
    all_of any_of : Conditions → Condition
    eq : Name → Name → Name → TypedValue → Condition
    range : Name → Name → Name → ℕ → ℕ → Condition
    set_contains : Name → Name → Name → Name → Condition

  pub data Conditions : Type 0 where
    nothing : Conditions
    more : Condition → Conditions → Conditions

pub data FactValue : Type 0 where
  scalar : TypedValue → FactValue
  set : List Name → FactValue

pub record Fact : Type 0 where
  pub schema : Name
  pub unit : Name
  pub source_generation : Uuid
  pub acquired_at : TimePoint
  pub maximum_age_ns : Counter
  pub acquisition_uncertainty_ns : Counter
  pub quality_good : Bool
  pub origin_age_bounded : Bool
  pub disputed : Bool
  pub value : FactValue
  pub evidence_id : Uuid

pub record Context : Type 0 where
  pub now : TimePoint
  pub facts : List (Name × Fact)
  pub generations : List (Name × Uuid)

pub record Evaluation : Type 0 where
  pub verdict : Verdict
  pub evidence_ids : List Uuid
  pub valid_until : Option TimePoint

abbrev pub is_pass : Verdict → Bool
is_pass pass = true
is_pass _ = false

abbrev pub is_fail : Verdict → Bool
is_fail fail = true
is_fail _ = false

abbrev pub is_unknown : Verdict → Bool
is_unknown unknown = true
is_unknown _ = false

abbrev same_list : List ℕ → List ℕ → Bool
same_list [] [] = true
same_list (x ∷ xs) (y ∷ ys) = x == y && same_list xs ys
same_list _ _ = false

abbrev same_bool : Bool → Bool → Bool
same_bool true b = b
same_bool false b = not b

-- The closures that the leaves pass to `leaf`.
abbrev pub compare_eq : TypedValue → FactValue → Option Bool
compare_eq (boolean a) (scalar (boolean b)) = some (same_bool b a)
compare_eq (integer a) (scalar (integer b)) = some (b == a)
compare_eq (real a) (scalar (real b)) = some (b == a)
compare_eq (symbol a) (scalar (symbol b)) = some (b == a)
compare_eq (reals a) (scalar (reals b)) = some (same_list b a)
compare_eq _ _ = none

abbrev pub compare_range : ℕ → ℕ → FactValue → Option Bool
compare_range low high (scalar (real v)) = some (leb low v && leb v high)
compare_range low high _ = none

abbrev pub compare_set : Name → FactValue → Option Bool
compare_set expected (set v) = some (contains expected v)
compare_set expected _ = none

abbrev pub same_generation : Option Uuid → Uuid → Bool
same_generation none g = false
same_generation (some h) g = h == g

-- `age` of `leaf`, and its comparison with the greatest age.
abbrev pub age : TimePoint → Fact → Option ℕ
age now f = elim (age_ns now f.acquired_at) [
  | none ↦ none
  | some a ↦ checked_add a f.acquisition_uncertainty_ns
]

abbrev pub at_most : Option ℕ → ℕ → Bool
at_most none b = false
at_most (some a) b = leb a b

unfoldable pub is_usable : Context → Name → Name → Name → Fact → Bool
is_usable ctx id schema unit f =
    f.quality_good
    && f.origin_age_bounded
    && not f.disputed
    && f.schema == schema
    && f.unit == unit
    && same_generation (lookup id ctx.generations) f.source_generation
    && at_most (age ctx.now f) f.maximum_age_ns

abbrev pub verdict_of : Option Bool → Verdict
verdict_of none = unknown
verdict_of (some true) = pass
verdict_of (some false) = fail

abbrev pub at_clock : Name → Option ℕ → Option TimePoint
at_clock clock none = none
at_clock clock (some n) = some (record { clock_id = clock; ticks_ns = n })

unfoldable pub fresh_until : TimePoint → Fact → Option TimePoint
fresh_until now f =
    at_clock now.clock_id (elim (checked_add f.acquired_at.ticks_ns f.maximum_age_ns) [
      | none ↦ none
      | some n ↦ checked_sub n f.acquisition_uncertainty_ns
    ])

-- `leaf`.
unfoldable pub leaf : Context → Name → Name → Name → (FactValue → Option Bool) → Evaluation
leaf ctx id schema unit compare = elim (lookup id ctx.facts) [
  | none ↦ record { verdict = unknown; evidence_ids = []; valid_until = none }
  | some f ↦
      let verdict =
        if not (is_usable ctx id schema unit f) then unknown else verdict_of (compare f.value) in
      record {
        verdict = verdict;
        evidence_ids = f.evidence_id ∷ [];
        valid_until = if is_pass verdict then fresh_until ctx.now f else none;
      }
]

-- The verdict of a group, by the first parameter of all or of any of the results.
unfoldable pub group_verdict : Bool → List Evaluation → Verdict
group_verdict true rs =
    if any (λ r. is_fail r.verdict) rs
    then fail
    else if any (λ r. is_unknown r.verdict) rs
    then unknown
    else pass
group_verdict false rs =
    if any (λ r. is_pass r.verdict) rs
    then pass
    else if any (λ r. is_unknown r.verdict) rs
    then unknown
    else fail

-- The order of `Option<Counter>`, in which `None` is the least.
abbrev pub until_leb : Option TimePoint → Option TimePoint → Bool
until_leb none u = true
until_leb (some t) none = false
until_leb (some t) (some u) = leb t.ticks_ns u.ticks_ns

-- `max_by_key`, which returns the last of the greatest, and `min_by_key`, the first of the least.
unfoldable pub longest : Evaluation → List Evaluation → Evaluation
longest best [] = best
longest best (r ∷ rs) = longest (if until_leb best.valid_until r.valid_until then r else best) rs

unfoldable pub earliest : TimePoint → List TimePoint → TimePoint
earliest best [] = best
earliest best (t ∷ ts) = earliest (if ltb t.ticks_ns best.ticks_ns then t else best) ts

abbrev pub longest_of : List Evaluation → List Evaluation
longest_of [] = []
longest_of (r ∷ rs) = longest r rs ∷ []

abbrev pub earliest_of : List TimePoint → Option TimePoint
earliest_of [] = none
earliest_of (t ∷ ts) = some (earliest t ts)

abbrev pub supporting : Bool → Verdict → List Evaluation → List Evaluation
supporting is_all v rs =
    if not is_all && is_pass v then longest_of (retain (λ r. is_pass r.verdict) rs) else rs

abbrev pub is_some : {A : Type 0} → Option A → Bool
is_some none = false
is_some (some a) = true

unfoldable pub limits : List Evaluation → List TimePoint
limits [] = []
limits (r ∷ rs) = elim r.valid_until [ none ↦ limits rs | some t ↦ t ∷ limits rs ]

abbrev pub all_evidence : List Evaluation → List Uuid
all_evidence [] = []
all_evidence (r ∷ rs) = r.evidence_ids ++ all_evidence rs

-- What `eval` makes of the results of a group.
unfoldable pub combine : Bool → List Evaluation → Evaluation
combine is_all rs =
    let verdict = group_verdict is_all rs in
    let chosen = supporting is_all verdict rs in
    record {
      verdict = verdict;
      evidence_ids = to_set (all_evidence chosen);
      valid_until =
          if is_pass verdict && all (λ r. is_some r.valid_until) chosen
          then earliest_of (limits chosen)
          else none;
    }
