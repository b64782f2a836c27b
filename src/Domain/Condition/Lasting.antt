-- ===== src/Domain/Condition/Lasting.antt =====
-- How long a pass of sdk/crates/rx-domain/src/condition.rs lasts.
use rx_solutions.Base.{
  ℕ, ◌≤◌, ◌≡◌, refl, Bool, true, false, ◌&&◌, ◌||◌, Option, none, some, List, [], ◌∷◌, arith, leb,
  ltb, if◌then◌else◌, ok, any, all, retain, Bool-cases, inl, inr, lookup, Option-cases,
}
use rx_solutions.Domain.Types.{Name, TimePoint, age_ns}
use rx_solutions.Domain.Condition.{
  pass, Condition, all_of, any_of, eq, range, set_contains, Conditions, nothing, more, Context,
  Evaluation, FactValue, leaf, combine, group_verdict, is_pass, is_some, compare_eq, compare_range,
  compare_set, Fact, is_usable, fresh_until, longest, earliest, limits, longest_of, until_leb,
  earliest_of,
}
use rx_solutions.Domain.Condition.Evaluate.{evaluate}
use rx_solutions.Domain.Condition.Value.{value, values}
use rx_solutions.Domain.Condition.Bounded.{evaluate-value}

-- The same facts, read later.
abbrev pub read_at : Context → ℕ → Context
read_at ctx later = record ctx { now = record { clock_id = ctx.now.clock_id; ticks_ns = later } }

abbrev reaches : ℕ → Option TimePoint → Bool
reaches later none = false
reaches later (some t) = leb later t.ticks_ns

abbrev holds_to : ℕ → Evaluation → Bool
holds_to later r = is_pass r.verdict && reaches later r.valid_until

usable-later :
    (ctx : Context) (later : ℕ) (id schema unit : Name) (f : Fact)
    → ctx.now.ticks_ns ≤ later
    → is_usable ctx id schema unit f ≡ true
    → reaches later (fresh_until ctx.now f) ≡ true
    → is_usable (read_at ctx later) id schema unit f ≡ true
unfolding is_usable fresh_until age_ns
usable-later ctx later id schema unit f d u r = ground arith

leaf-later :
    (ctx : Context) (later : ℕ) (id schema unit : Name) (compare : FactValue → Option Bool)
    → ctx.now.ticks_ns ≤ later
    → holds_to later (leaf ctx id schema unit compare) ≡ true
    → is_pass (leaf (read_at ctx later) id schema unit compare).verdict ≡ true
unfolding leaf
leaf-later ctx later id schema unit compare d h = elim (Option-cases (lookup id ctx.facts)) [
  | inl e ↦ ground (arith, e)
  | inr (f, e) ↦ ground (arith, e, usable-later ctx later id schema unit f d)
]

earliest-reaches :
    (later : ℕ) (best : TimePoint) (ts : List TimePoint)
    → leb later (earliest best ts).ticks_ns ≡ true
    → leb later best.ticks_ns && all (λ t. leb later t.ticks_ns) ts ≡ true
unfolding earliest
earliest-reaches later best [] h = ground arith
earliest-reaches later best (t ∷ ts) h =
    ground (arith, earliest-reaches later (if ltb t.ticks_ns best.ticks_ns then t else best) ts h)

limits-reach :
    (later : ℕ) (rs : List Evaluation)
    → all (λ r. is_some r.valid_until) rs ≡ true
    → all (λ t. leb later t.ticks_ns) (limits rs) ≡ true
    → all (λ r. reaches later r.valid_until) rs ≡ true
unfolding limits
limits-reach later [] s h = refl
limits-reach later (r ∷ rs) s h = ground (arith, limits-reach later rs)

longest-holds :
    (p : Evaluation → Bool) (best : Evaluation) (rs : List Evaluation)
    → p (longest best rs) ≡ true
    → p best || any p rs ≡ true
unfolding longest
longest-holds p best [] h = ground arith
longest-holds p best (r ∷ rs) h =
    ground
      (arith, longest-holds p (if until_leb best.valid_until r.valid_until then r else best) rs h)

earliest_of-reaches :
    (later : ℕ) (ts : List TimePoint)
    → reaches later (earliest_of ts) ≡ true
    → all (λ t. leb later t.ticks_ns) ts ≡ true
earliest_of-reaches later [] h = refl
earliest_of-reaches later (t ∷ ts) h = earliest-reaches later t ts h

chosen-reach :
    (later : ℕ) (chosen : List Evaluation)
    → reaches later
        (if all (λ r. is_some r.valid_until) chosen then earliest_of (limits chosen) else none)
      ≡ true
    → all (λ r. reaches later r.valid_until) chosen ≡ true
chosen-reach later chosen h = elim (Bool-cases (all (λ r. is_some r.valid_until) chosen)) [
  | inl s ↦
      limits-reach later chosen s (earliest_of-reaches later (limits chosen) (ground (arith, s, h)))
  | inr s ↦ absurd (ground (arith, s, h))
]

all_pass :
    (later : ℕ) (rs : List Evaluation)
    → is_pass (group_verdict true rs) ≡ true
    → all (λ r. reaches later r.valid_until) rs ≡ true
    → all (holds_to later) rs ≡ true
unfolding group_verdict
all_pass later [] v h = refl
all_pass later (r ∷ rs) v h = ground (arith, all_pass later rs)

combine_conjunction :
    (later : ℕ) (rs : List Evaluation)
    → holds_to later (combine true rs) ≡ true
    → all (holds_to later) rs ≡ true
unfolding combine
combine_conjunction later rs h = elim (Bool-cases (is_pass (group_verdict true rs))) [
  | inl v ↦ all_pass later rs v (chosen-reach later rs (ground (arith, v, h)))
  | inr v ↦ absurd (ground (arith, v, h))
]

passing-holds :
    (later : ℕ) (rs : List Evaluation)
    → any (λ r. reaches later r.valid_until) (retain (λ r. is_pass r.verdict) rs) ≡ true
    → any (holds_to later) rs ≡ true
passing-holds later [] h = h
passing-holds later (r ∷ rs) h = ground (arith, passing-holds later rs)

longest_of-holds :
    (later : ℕ) (rs : List Evaluation)
    → reaches later (earliest_of (limits (longest_of rs))) ≡ true
    → any (λ r. reaches later r.valid_until) rs ≡ true
unfolding limits earliest
longest_of-holds later [] h = h
longest_of-holds later (r ∷ rs) h =
    longest-holds (λ x. reaches later x.valid_until) r rs (ground (arith, h))

combine_disjunction :
    (later : ℕ) (rs : List Evaluation)
    → holds_to later (combine false rs) ≡ true
    → any (holds_to later) rs ≡ true
unfolding combine
combine_disjunction later rs h = elim (Bool-cases (is_pass (group_verdict false rs))) [
  | inl v ↦
      passing-holds later rs
        (longest_of-holds later (retain (λ r. is_pass r.verdict) rs) (ground (arith, v, h)))
  | inr v ↦ absurd (ground (arith, v, h))
]

group-all :
    (rs : List Evaluation)
    → all (λ r. is_pass r.verdict) rs ≡ true
    → is_pass (group_verdict true rs) ≡ true
unfolding group_verdict
group-all [] h = refl
group-all (r ∷ rs) h = ground (arith, group-all rs)

group-any :
    (rs : List Evaluation)
    → any (λ r. is_pass r.verdict) rs ≡ true
    → is_pass (group_verdict false rs) ≡ true
unfolding group_verdict
group-any rs h = ground (arith, h)

mutual
  unfolding value combine

  value-later :
      (ctx : Context) (later : ℕ) (c : Condition)
      → ctx.now.ticks_ns ≤ later
      → holds_to later (value ctx c) ≡ true
      → is_pass (value (read_at ctx later) c).verdict ≡ true
  value-later ctx later (all_of cs) d h =
      group-all (values (read_at ctx later) cs)
        (values_conjunction ctx later cs d (combine_conjunction later (values ctx cs) h))
  value-later ctx later (any_of cs) d h =
      group-any (values (read_at ctx later) cs)
        (values_disjunction ctx later cs d (combine_disjunction later (values ctx cs) h))
  value-later ctx later (eq fact schema unit expected) d h =
      leaf-later ctx later fact schema unit (compare_eq expected) d h
  value-later ctx later (range fact schema unit low high) d h =
      leaf-later ctx later fact schema unit (compare_range low high) d h
  value-later ctx later (set_contains fact schema unit expected) d h =
      leaf-later ctx later fact schema unit (compare_set expected) d h

  values_conjunction :
      (ctx : Context) (later : ℕ) (cs : Conditions)
      → ctx.now.ticks_ns ≤ later
      → all (holds_to later) (values ctx cs) ≡ true
      → all (λ r. is_pass r.verdict) (values (read_at ctx later) cs) ≡ true
  values_conjunction ctx later nothing d h = refl
  values_conjunction ctx later (more c cs) d h =
      ground (arith, value-later ctx later c d, values_conjunction ctx later cs d)

  values_disjunction :
      (ctx : Context) (later : ℕ) (cs : Conditions)
      → ctx.now.ticks_ns ≤ later
      → any (holds_to later) (values ctx cs) ≡ true
      → any (λ r. is_pass r.verdict) (values (read_at ctx later) cs) ≡ true
  values_disjunction ctx later nothing d h = h
  values_disjunction ctx later (more c cs) d h =
      ground (arith, value-later ctx later c d, values_disjunction ctx later cs d)

-- A pass with a time limit stays a pass: read at any time from its own on and up to its limit, the same
-- facts are accepted again and make the condition pass.
pub evaluate-lasts :
    (ctx : Context) (c : Condition) (e : Evaluation) (limit : TimePoint) (later : ℕ)
    → evaluate ctx c ≡ ok e
    → e.verdict ≡ pass
    → e.valid_until ≡ some limit
    → ctx.now.ticks_ns ≤ later
    → later ≤ limit.ticks_ns
    → (e' : Evaluation) × (evaluate (read_at ctx later) c ≡ ok e') × (e'.verdict ≡ pass)
evaluate-lasts ctx c e limit later h v u d l =
    let same : value ctx c ≡ e = ground (arith, evaluate-value ctx c, h) in
    let p : is_pass (value (read_at ctx later) c).verdict ≡ true =
      value-later ctx later c d (ground (arith, same, v, u, l)) in
    (
      value (read_at ctx later) c,
      ground (arith, evaluate-value ctx c, evaluate-value (read_at ctx later) c, h),
      ground (arith, p),
    )
