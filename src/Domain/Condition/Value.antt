-- ===== src/Domain/Condition/Value.antt =====
-- The meaning of sdk/crates/rx-domain/src/condition.rs without its limits, and the limits without the
-- meaning.
use rx_solutions.Base.{ℕ, suc, ◌+◌, max, Bool, true, false, not, ◌&&◌, List, [], ◌∷◌, leb}
use rx_solutions.Domain.Condition.{
  Condition, all_of, any_of, eq, range, set_contains, Conditions, nothing, more, Context,
  Evaluation, leaf, combine, compare_eq, compare_range, compare_set,
}
use rx_solutions.Domain.Condition.Evaluate.{is_nothing}

-- What a condition evaluates to when nothing of it is refused.
unfoldable mutual
  pub value : Context → Condition → Evaluation
  value ctx (all_of cs) = combine true (values ctx cs)
  value ctx (any_of cs) = combine false (values ctx cs)
  value ctx (eq fact schema unit expected) = leaf ctx fact schema unit (compare_eq expected)
  value ctx (range fact schema unit low high) = leaf ctx fact schema unit (compare_range low high)
  value ctx (set_contains fact schema unit expected) =
      leaf ctx fact schema unit (compare_set expected)

  pub values : Context → Conditions → List Evaluation
  values ctx nothing = []
  values ctx (more c cs) = value ctx c ∷ values ctx cs

-- How deep a condition is nested, its number of nodes, and its shape.
unfoldable mutual
  pub height : Condition → ℕ
  height (all_of cs) = suc (heights cs)
  height (any_of cs) = suc (heights cs)
  height (eq fact schema unit expected) = 1
  height (range fact schema unit low high) = 1
  height (set_contains fact schema unit expected) = 1

  pub heights : Conditions → ℕ
  heights nothing = 0
  heights (more c cs) = max (height c) (heights cs)

unfoldable mutual
  pub size : Condition → ℕ
  size (all_of cs) = suc (sizes cs)
  size (any_of cs) = suc (sizes cs)
  size (eq fact schema unit expected) = 1
  size (range fact schema unit low high) = 1
  size (set_contains fact schema unit expected) = 1

  pub sizes : Conditions → ℕ
  sizes nothing = 0
  sizes (more c cs) = size c + sizes cs

unfoldable mutual
  pub is_well_formed : Condition → Bool
  is_well_formed (all_of cs) = not (is_nothing cs) && are_well_formed cs
  is_well_formed (any_of cs) = not (is_nothing cs) && are_well_formed cs
  is_well_formed (eq fact schema unit expected) = true
  is_well_formed (range fact schema unit low high) = leb low high
  is_well_formed (set_contains fact schema unit expected) = true

  pub are_well_formed : Conditions → Bool
  are_well_formed nothing = true
  are_well_formed (more c cs) = is_well_formed c && are_well_formed cs
