-- ===== src/Process/Source/Sound.antt =====
-- What sdk/crates/rx-process-contract/src/source_validation.rs promises of a valid source.
use rx_solutions.Base.{
  ◌≡◌, refl, arith, Bool, true, false, not, ◌||◌, some, List, [], ◌∷◌, ◌++◌, ltb, ◌==◌, ok,
  is_empty, length, lookup, distinct, Bool-cases, inl, inr,
}
use rx_solutions.Domain.Types.{Name}
use rx_solutions.Domain.Condition.{Condition, Context}
use rx_solutions.Domain.Condition.Evaluate.{evaluate}
use rx_solutions.Domain.Condition.Value.{value}
use rx_solutions.Process.Source.{ProcessSource, Location, IssueCode, Issue, Report, issue, issue_if}
use rx_solutions.Process.Source.Shapes.{condition_shape, shape-evaluates}
use rx_solutions.Process.Source.Validate.{
  check_conditions, check_source, expansion_if_clean, conclude, validate, flow_ids,
}

pub issue-dirty :
    (at : Location) (code : IssueCode) (r : Report) → is_empty (issue at code r).issues ≡ false
unfolding issue
issue-dirty at code r = elim (Bool-cases (ltb (length r.issues) 128)) [
  | inl l ↦ ground (arith, l, append_one r.issues (record { location = at; code = code }))
  | inr l ↦ ground (arith, l)
]
  where
    append_one : (xs : List Issue) (x : Issue) → is_empty (xs ++ x ∷ []) ≡ false
    append_one [] x = refl
    append_one (y ∷ ys) x = refl

pub issue_if-clean :
    (wrong : Bool) (at : Location) (code : IssueCode) (r : Report)
    → is_empty (issue_if wrong at code r).issues ≡ true
    → (is_empty r.issues ≡ true) × (wrong ≡ false)
issue_if-clean true at code r h = absurd (ground (arith, h, issue-dirty at code r))
issue_if-clean false at code r h = (h, refl)

-- The conditions of a source of which no issue was reported.
conditions-clean :
    (m : List (Name × Condition)) (r : Report) (id : Name) (c : Condition)
    → is_empty (check_conditions m r).issues ≡ true
    → lookup id m ≡ some c
    → (condition_shape c 0 0).0 ≡ true
unfolding check_conditions lookup
conditions-clean [] r id c h l = cc
conditions-clean ((k, d) ∷ m) r id c h l =
    let shaped = clean m (issue_if (not (condition_shape d 0 0).0) _ _ r) h in
    let (before, good) = issue_if-clean (not (condition_shape d 0 0).0) _ _ r shaped in
    elim (Bool-cases (id == k)) [
      | inl same ↦ let this : d ≡ c = ground (arith, l, same) in ground (arith, this, good)
      | inr other ↦ conditions-clean m _ id c h (ground (arith, l, other))
    ]
  where
    clean :
        (m : List (Name × Condition)) (r : Report)
        → is_empty (check_conditions m r).issues ≡ true
        → is_empty r.issues ≡ true
    clean [] r h = h
    clean ((k, d) ∷ m) r h = (issue_if-clean (not (condition_shape d 0 0).0) _ _ r (clean m _ h)).0

pub valid-source :
    (source : ProcessSource)
    → (validate source).structurally_valid ≡ true
    → (is_empty (check_source source).issues ≡ true)
      × (validate source ≡ conclude (check_source source))
unfolding validate issue
valid-source source h =
    elim (Bool-cases
      (not source.schema_known || is_empty source.flows || ltb 128 (length source.flows))) [
        | inl s ↦ absurd (ground (arith, h, s))
        | inr s ↦ elim (Bool-cases (not (distinct (flow_ids source.flows)))) [
          | inl d ↦ absurd (ground (arith, h, s, d))
          | inr d ↦ (ground (arith, h, s, d), ground (arith, s, d))
        ]
      ]

pub before_expansion :
    (source : ProcessSource) (r : Report)
    → is_empty (expansion_if_clean source r).issues ≡ true
    → is_empty r.issues ≡ true
before_expansion source r h = elim (Bool-cases (is_empty r.issues)) [
  | inl e ↦ e
  | inr e ↦ absurd (ground (arith, h, e))
]

-- Every condition of a source that is structurally valid is evaluated in every context, to its meaning
-- without limits: the evaluation refuses none of them.
pub validate-evaluates :
    (source : ProcessSource) (ctx : Context) (id : Name) (c : Condition)
    → (validate source).structurally_valid ≡ true
    → lookup id source.conditions ≡ some c
    → evaluate ctx c ≡ ok (value ctx c)
unfolding check_source
validate-evaluates source ctx id c h l = shape-evaluates ctx c (
    conditions-clean source.conditions _ id c (before_expansion source _ (valid-source source h).0)
      l)
