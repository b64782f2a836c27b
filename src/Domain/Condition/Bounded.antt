-- ===== src/Domain/Condition/Bounded.antt =====
-- Which conditions `eval` of sdk/crates/rx-domain/src/condition.rs refuses.
use rx_solutions.Base.{
  ℕ, suc, ◌+◌, ◌-◌, ◌≤◌, ◌≡◌, Bool, true, false, ◌&&◌, ◌||◌, arith, leb, if◌then◌else◌, ok, err,
  Bool-cases, inl, inr,
}
use rx_solutions.Domain.Types.{invalid_input}
use rx_solutions.Domain.Condition.{
  Condition, all_of, any_of, eq, range, set_contains, Conditions, nothing, more, Context,
}
use rx_solutions.Domain.Condition.Evaluate.{is_nothing, eval, eval_each, evaluate}
use rx_solutions.Domain.Condition.Value.{
  value, values, height, heights, size, sizes, is_well_formed, are_well_formed,
}

abbrev fits : Condition → ℕ → ℕ → Bool
fits c depth remaining = is_well_formed c && leb (depth + height c) 32 && leb (size c) remaining

abbrev fit : Conditions → ℕ → ℕ → Bool
fit cs depth remaining =
    are_well_formed cs && (leb (depth + heights cs) 32 || is_nothing cs) && leb (sizes cs) remaining

height-positive : (c : Condition) → 1 ≤ height c
unfolding height
height-positive (all_of cs) = omega arith
height-positive (any_of cs) = omega arith
height-positive (eq fact schema unit expected) = omega arith
height-positive (range fact schema unit low high) = omega arith
height-positive (set_contains fact schema unit expected) = omega arith

mutual
  unfolding eval value height size is_well_formed

  eval-fits :
      (ctx : Context) (c : Condition) (depth remaining : ℕ)
      → fits c depth remaining ≡ true
      → eval ctx c depth remaining ≡ (ok (value ctx c), remaining - size c)
  eval-fits ctx (all_of cs) depth remaining h =
      ground (arith, eval_each-fit ctx cs (suc depth) (remaining - 1))
  eval-fits ctx (any_of cs) depth remaining h =
      ground (arith, eval_each-fit ctx cs (suc depth) (remaining - 1))
  eval-fits ctx (eq fact schema unit expected) depth remaining h = ground arith
  eval-fits ctx (range fact schema unit low high) depth remaining h = ground arith
  eval-fits ctx (set_contains fact schema unit expected) depth remaining h = ground arith

  eval_each-fit :
      (ctx : Context) (cs : Conditions) (depth remaining : ℕ)
      → fit cs depth remaining ≡ true
      → eval_each ctx cs depth remaining ≡ (ok (values ctx cs), remaining - sizes cs)
  eval_each-fit ctx nothing depth remaining h = ground arith
  eval_each-fit ctx (more c cs) depth remaining h =
      ground
        (arith, eval-fits ctx c depth remaining, eval_each-fit ctx cs depth (remaining - size c))

mutual
  unfolding eval height size is_well_formed

  eval-unfit :
      (ctx : Context) (c : Condition) (depth remaining : ℕ)
      → fits c depth remaining ≡ false
      → (eval ctx c depth remaining).0 ≡ err invalid_input
  eval-unfit ctx (all_of cs) depth remaining h =
      ground (arith, eval_each-unfit ctx cs (suc depth) (remaining - 1))
  eval-unfit ctx (any_of cs) depth remaining h =
      ground (arith, eval_each-unfit ctx cs (suc depth) (remaining - 1))
  eval-unfit ctx (eq fact schema unit expected) depth remaining h = ground arith
  eval-unfit ctx (range fact schema unit low high) depth remaining h = ground arith
  eval-unfit ctx (set_contains fact schema unit expected) depth remaining h = ground arith

  eval_each-unfit :
      (ctx : Context) (cs : Conditions) (depth remaining : ℕ)
      → fit cs depth remaining ≡ false
      → (eval_each ctx cs depth remaining).0 ≡ err invalid_input
  eval_each-unfit ctx nothing depth remaining h = ground arith
  eval_each-unfit ctx (more c cs) depth remaining h = elim (Bool-cases (fits c depth remaining)) [
    | inr f ↦ ground (arith, eval-unfit ctx c depth remaining f)
    | inl f ↦ ground (
      arith,
      f,
      eval-fits ctx c depth remaining f,
      eval_each-unfit ctx cs depth (remaining - size c),
      height-positive c,
    )
  ]

-- A condition is evaluated, to its meaning without limits, when its groups are not empty, its ranges
-- not reversed, its nesting at most 32 and its nodes at most 1024; every other one is refused. So the
-- facts do not decide whether a condition is accepted.
pub evaluate-value :
    (ctx : Context) (c : Condition)
    → evaluate ctx c ≡ (
        if is_well_formed c && leb (height c) 32 && leb (size c) 1024
        then ok (value ctx c)
        else err invalid_input)
unfolding evaluate
evaluate-value ctx c = elim (Bool-cases (fits c 0 1024)) [
  | inl f ↦ ground (arith, f, eval-fits ctx c 0 1024 f)
  | inr f ↦ ground (arith, f, eval-unfit ctx c 0 1024 f)
]
