-- ===== src/Domain/Intent/Normal.antt =====
-- The normal form of an intent: sdk/crates/rx-domain/src/intent.rs.
use mathlib.Core.List.{Permᴰ}
use rx_solutions.Base.{
  ℕ, ◌≡◌, refl, List, [], ◌∷◌, arith, ok, is_empty, length-to_set, distinct-sort, sort, sort-sort,
  sort-ne_nil, sort-perm,
}
use rx_solutions.Domain.Types.{Name}
use rx_solutions.Domain.Intent.{
  Intent, Body, lifecycle, trajectory, program, predicate, mode, control, kind_matches, repeats,
  normal_body, normalized,
}

repeats-sort : (xs : List ℕ) → repeats (sort xs) ≡ repeats xs
unfolding repeats
repeats-sort xs = ground (arith, length-to_set xs, length-to_set (sort xs), distinct-sort xs)

is_empty-sort : (xs : List ℕ) → is_empty (sort xs) ≡ is_empty xs
is_empty-sort [] = unfold sort in refl
is_empty-sort (x ∷ xs) = ground (arith, sort-ne_nil x xs)

normal_body-kind : (b : Body) {c : Body} → normal_body b ≡ ok c → normal_body c ≡ ok c
unfolding normal_body
normal_body-kind (lifecycle g) h =
    ground (arith, repeats-sort g.support_evidence, sort-sort g.support_evidence)
normal_body-kind (trajectory g) h = ground arith
normal_body-kind (program g) h = ground arith
normal_body-kind (predicate g) h = ground arith
normal_body-kind (mode g) h = ground arith
normal_body-kind (control g) h = ground arith

kind_matches-normal :
    (i : Intent) {c : Body}
    → normal_body i.body ≡ ok c
    → kind_matches i.kind c ≡ kind_matches i.kind i.body
unfolding normal_body
kind_matches-normal i h = ground arith

-- The normal form of an intent is its own normal form.
pub normalized-normalized : (i : Intent) {j : Intent} → normalized i ≡ ok j → normalized j ≡ ok j
unfolding normalized
normalized-normalized i {j} h = ground (
  arith,
  normal_body-kind i.body {c = j.body},
  kind_matches-normal i {c = j.body},
  repeats-sort i.resource_set,
  is_empty-sort i.resource_set,
  repeats-sort i.calibration_digests,
  sort-sort i.resource_set,
  sort-sort i.calibration_digests,
)

-- Two intents that differ in the order of the resources only have one normal form, or fail alike.
pub normalized-perm :
    (i : Intent) (xs : List Name)
    → Permᴰ i.resource_set xs
    → normalized (record i { resource_set = xs }) ≡ normalized i
unfolding normalized
normalized-perm i xs p = ground (
  arith,
  sort-perm p,
  repeats-sort i.resource_set,
  repeats-sort xs,
  is_empty-sort i.resource_set,
  is_empty-sort xs,
)
