-- ===== src/Domain/Condition/Evaluate.antt =====
-- `eval` and `evaluate` of sdk/crates/rx-domain/src/condition.rs.
use rx_solutions.Base.{
  ℕ, suc, ◌-◌, Bool, true, false, ◌||◌, List, [], ◌∷◌, leb, ltb, ◌==◌, if◌then◌else◌, Result, ok,
  err, Action,
}
use rx_solutions.Domain.Types.{DomainError, invalid_input}
use rx_solutions.Domain.Condition.{
  Condition, all_of, any_of, eq, range, set_contains, Conditions, nothing, more, Context,
  Evaluation, leaf, combine, compare_eq, compare_range, compare_set,
}

abbrev pub is_nothing : Conditions → Bool
is_nothing nothing = true
is_nothing (more c cs) = false

abbrev pub combined : Bool → Result DomainError (List Evaluation) → Result DomainError Evaluation
combined is_all (err e) = err e
combined is_all (ok rs) = ok (combine is_all rs)

-- The test that opens `eval`.
abbrev pub is_over : ℕ → ℕ → Bool
is_over depth remaining = leb 32 depth || remaining == 0

abbrev group :
    Bool
    → Conditions
    → ℕ
    → ℕ
    → Result DomainError (List Evaluation) × ℕ
    → Result DomainError Evaluation × ℕ
group is_all cs depth remaining (rs, left) =
    if is_over depth remaining
    then (err invalid_input, remaining)
    else if is_nothing cs
    then (err invalid_input, remaining - 1)
    else (combined is_all rs, left)

abbrev simple : ℕ → ℕ → Result DomainError Evaluation → Result DomainError Evaluation × ℕ
simple depth remaining r =
    if is_over depth remaining then (err invalid_input, remaining) else (r, remaining - 1)

-- `eval`; its last argument is what `remaining` holds.
unfoldable mutual
  pub eval : Context → Condition → ℕ → Action ℕ DomainError Evaluation
  eval ctx (all_of cs) depth remaining =
      group true cs depth remaining (eval_each ctx cs (suc depth) (remaining - 1))
  eval ctx (any_of cs) depth remaining =
      group false cs depth remaining (eval_each ctx cs (suc depth) (remaining - 1))
  eval ctx (eq fact schema unit expected) depth remaining =
      simple depth remaining (ok (leaf ctx fact schema unit (compare_eq expected)))
  eval ctx (range fact schema unit low high) depth remaining = simple depth remaining (
      if ltb high low
      then err invalid_input
      else ok (leaf ctx fact schema unit (compare_range low high)))
  eval ctx (set_contains fact schema unit expected) depth remaining =
      simple depth remaining (ok (leaf ctx fact schema unit (compare_set expected)))

  pub eval_each : Context → Conditions → ℕ → Action ℕ DomainError (List Evaluation)
  eval_each ctx nothing depth remaining = (ok [], remaining)
  eval_each ctx (more c cs) depth remaining =
      let (r, left) = eval ctx c depth remaining in
      let (rs, last) = eval_each ctx cs depth left in
      elim r [
        | err e ↦ (err e, left)
        | ok x ↦ elim rs [ err e ↦ (err e, last) | ok xs ↦ (ok (x ∷ xs), last) ]
      ]

-- `Condition::evaluate`.
unfoldable pub evaluate : Context → Condition → Result DomainError Evaluation
evaluate ctx c = (eval ctx c 0 1024).0
