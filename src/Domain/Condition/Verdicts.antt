-- ===== src/Domain/Condition/Verdicts.antt =====
-- The verdict of sdk/crates/rx-domain/src/condition.rs against three-valued logic.
use rx_solutions.Base.{◌≡◌, refl, true, false, List, ◌∷◌, arith, ok}
use rx_solutions.Domain.Condition.{
  Verdict, pass, fail, unknown, Condition, all_of, any_of, eq, range, set_contains, Conditions,
  nothing, more, Context, Evaluation, leaf, combine, group_verdict, compare_eq, compare_range,
  compare_set,
}
use rx_solutions.Domain.Condition.Evaluate.{evaluate}
use rx_solutions.Domain.Condition.Value.{value, values}
use rx_solutions.Domain.Condition.Bounded.{evaluate-value}

-- Kleene's conjunction and disjunction.
unfoldable pub both : Verdict → Verdict → Verdict
both fail v = fail
both pass v = v
both unknown fail = fail
both unknown _ = unknown

unfoldable pub either : Verdict → Verdict → Verdict
either pass v = pass
either fail v = v
either unknown pass = pass
either unknown _ = unknown

-- The specification: a condition's truth value by induction, the facts read by `leaf`.
unfoldable mutual
  pub truth : Context → Condition → Verdict
  truth ctx (all_of cs) = every ctx cs
  truth ctx (any_of cs) = some_of ctx cs
  truth ctx (eq fact schema unit expected) =
      (leaf ctx fact schema unit (compare_eq expected)).verdict
  truth ctx (range fact schema unit low high) =
      (leaf ctx fact schema unit (compare_range low high)).verdict
  truth ctx (set_contains fact schema unit expected) =
      (leaf ctx fact schema unit (compare_set expected)).verdict

  pub every : Context → Conditions → Verdict
  every ctx nothing = pass
  every ctx (more c cs) = both (truth ctx c) (every ctx cs)

  pub some_of : Context → Conditions → Verdict
  some_of ctx nothing = fail
  some_of ctx (more c cs) = either (truth ctx c) (some_of ctx cs)

all_verdict :
    (r : Evaluation) (rs : List Evaluation)
    → group_verdict true (r ∷ rs) ≡ both r.verdict (group_verdict true rs)
unfolding group_verdict both
all_verdict r rs = ground arith

any_verdict :
    (r : Evaluation) (rs : List Evaluation)
    → group_verdict false (r ∷ rs) ≡ either r.verdict (group_verdict false rs)
unfolding group_verdict either
any_verdict r rs = ground arith

mutual
  unfolding value truth combine group_verdict

  value-truth : (ctx : Context) (c : Condition) → (value ctx c).verdict ≡ truth ctx c
  value-truth ctx (all_of cs) = values-every ctx cs
  value-truth ctx (any_of cs) = values-some_of ctx cs
  value-truth ctx (eq fact schema unit expected) = refl
  value-truth ctx (range fact schema unit low high) = refl
  value-truth ctx (set_contains fact schema unit expected) = refl

  values-every :
      (ctx : Context) (cs : Conditions) → group_verdict true (values ctx cs) ≡ every ctx cs
  values-every ctx nothing = refl
  values-every ctx (more c cs) =
      rw (← value-truth ctx c)
        (rw (← values-every ctx cs) (all_verdict (value ctx c) (values ctx cs)))

  values-some_of :
      (ctx : Context) (cs : Conditions) → group_verdict false (values ctx cs) ≡ some_of ctx cs
  values-some_of ctx nothing = refl
  values-some_of ctx (more c cs) =
      rw (← value-truth ctx c)
        (rw (← values-some_of ctx cs) (any_verdict (value ctx c) (values ctx cs)))

-- The verdict of a condition that is evaluated is its truth value in Kleene's logic, in which an
-- unknown part of a group matters only when the other parts do not decide it.
pub evaluate-truth :
    (ctx : Context) (c : Condition) (e : Evaluation)
    → evaluate ctx c ≡ ok e
    → e.verdict ≡ truth ctx c
evaluate-truth ctx c e h = ground (arith, evaluate-value ctx c, value-truth ctx c)
