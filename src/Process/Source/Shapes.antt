-- ===== src/Process/Source/Shapes.antt =====
-- `condition_shape` of sdk/crates/rx-process-contract/src/source_validation.rs against the evaluation of
-- conditions.
use rx_solutions.Base.{
  ℕ, suc, ◌+◌, ◌≡◌, arith, Bool, true, false, not, ◌&&◌, ◌||◌, leb, ltb, if◌then◌else◌, ok,
  Bool-cases, inl, inr,
}
use rx_solutions.Domain.Condition.{
  Condition, all_of, any_of, eq, range, set_contains, Conditions, nothing, more, Context,
}
use rx_solutions.Domain.Condition.Evaluate.{is_nothing, evaluate}
use rx_solutions.Domain.Condition.Value.{
  value, height, heights, size, sizes, is_well_formed, are_well_formed,
}
use rx_solutions.Domain.Condition.Bounded.{evaluate-value}

abbrev group_shape : Conditions → ℕ → ℕ → Bool × ℕ → Bool × ℕ
group_shape cs depth count rest =
    if leb 32 depth || ltb 1024 (suc count)
    then (false, suc count)
    else if is_nothing cs
    then (false, suc count)
    else rest

-- `condition_shape`: whether it succeeds, and the count that it leaves.
unfoldable mutual
  pub condition_shape : Condition → ℕ → ℕ → Bool × ℕ
  condition_shape (all_of cs) depth count =
      group_shape cs depth count (each_shape cs (suc depth) (suc count))
  condition_shape (any_of cs) depth count =
      group_shape cs depth count (each_shape cs (suc depth) (suc count))
  condition_shape (eq fact schema unit expected) depth count =
      (not (leb 32 depth || ltb 1024 (suc count)), suc count)
  condition_shape (range fact schema unit low high) depth count =
      (not (leb 32 depth || ltb 1024 (suc count)) && not (ltb high low), suc count)
  condition_shape (set_contains fact schema unit expected) depth count =
      (not (leb 32 depth || ltb 1024 (suc count)), suc count)

  pub each_shape : Conditions → ℕ → ℕ → Bool × ℕ
  each_shape nothing depth count = (true, count)
  each_shape (more c cs) depth count =
      let (good, left) = condition_shape c depth count in
      let (rest, last) = each_shape cs depth left in if good then (rest, last) else (false, left)

abbrev shapely : Condition → ℕ → ℕ → Bool
shapely c depth count = is_well_formed c && leb (depth + height c) 32 && leb (count + size c) 1024

abbrev shaped : Conditions → ℕ → ℕ → Bool
shaped cs depth count =
    are_well_formed cs
    && (leb (depth + heights cs) 32 || is_nothing cs)
    && (leb (count + sizes cs) 1024 || is_nothing cs)

mutual
  unfolding condition_shape height size is_well_formed

  shape-fits :
      (c : Condition) (depth count : ℕ)
      → (condition_shape c depth count).0 ≡ true
      → (shapely c depth count ≡ true) × ((condition_shape c depth count).1 ≡ count + size c)
  shape-fits (all_of cs) depth count h = ground (arith, h, each-fits cs (suc depth) (suc count))
  shape-fits (any_of cs) depth count h = ground (arith, h, each-fits cs (suc depth) (suc count))
  shape-fits (eq fact schema unit expected) depth count h = ground (arith, h)
  shape-fits (range fact schema unit low high) depth count h = ground (arith, h)
  shape-fits (set_contains fact schema unit expected) depth count h = ground (arith, h)

  each-fits :
      (cs : Conditions) (depth count : ℕ)
      → (each_shape cs depth count).0 ≡ true
      → (shaped cs depth count ≡ true) × ((each_shape cs depth count).1 ≡ count + sizes cs)
  each-fits nothing depth count h = ground (arith, h)
  each-fits (more c cs) depth count h = elim (Bool-cases (condition_shape c depth count).0) [
    | inr f ↦ absurd (ground (arith, h, f))
    | inl f ↦
        let (a, b) = shape-fits c depth count f in
        let (d, e) = each-fits cs depth (condition_shape c depth count).1 (ground (arith, h, f)) in
        ground (arith, a, b, d, e, f)
  ]

-- A condition whose shape is accepted is evaluated in every context: authoring never lets through a
-- condition that the evaluation would refuse.
pub shape-evaluates :
    (ctx : Context) (c : Condition)
    → (condition_shape c 0 0).0 ≡ true
    → evaluate ctx c ≡ ok (value ctx c)
shape-evaluates ctx c h = ground (arith, evaluate-value ctx c, (shape-fits c 0 0 h).0)
