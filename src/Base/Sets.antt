-- ===== src/Base/Sets.antt =====
-- A `BTreeSet` of numbers as the ascending list of its items.
use Prim.Native.Nat.{ℕ, suc, ◌≤◌, ◌<◌}
use mathlib.Core.Path.{◌≡◌, refl, ap, ◌∙◌}
use mathlib.Core.Logic.{◌≢◌}
use mathlib.Core.Bool.{true, false, not, ◌&&◌, ◌||◌}
use mathlib.Core.List.{List, [], ◌∷◌, ◌++◌}
use native.Mathlib.Omega.{arith}
use rx_solutions.Base.Tests.{◌==◌, ltb, if◌then◌else◌, ==-self}
use rx_solutions.Base.Lists.{length, contains, distinct}

unfoldable pub set_insert : ℕ → List ℕ → List ℕ
set_insert x [] = x ∷ []
set_insert x (y ∷ ys) =
    let rest = set_insert x ys in
    if ltb x y then x ∷ y ∷ ys else if x == y then y ∷ ys else y ∷ rest

-- `iter().collect::<BTreeSet<_>>()`.
unfoldable pub to_set : List ℕ → List ℕ
unfolding set_insert
to_set [] = []
to_set (x ∷ xs) = set_insert x (to_set xs)

-- `sort` of a vector keeps repetitions.
unfoldable pub sort_insert : ℕ → List ℕ → List ℕ
sort_insert x [] = x ∷ []
sort_insert x (y ∷ ys) = let rest = sort_insert x ys in if ltb y x then y ∷ rest else x ∷ y ∷ ys

unfoldable pub sort : List ℕ → List ℕ
sort [] = []
sort (x ∷ xs) = sort_insert x (sort xs)

-- Every item lies above the bound.
abbrev pub Above : ℕ → List ℕ → Type 0
Above x [] = Unit {0}
Above x (y ∷ ys) = (x < y) × Above x ys

-- Ascending, without repetition: what a `BTreeSet` holds.
abbrev pub IsAscending : List ℕ → Type 0
IsAscending [] = Unit {0}
IsAscending (x ∷ xs) = Above x xs × IsAscending xs

Above-mono : (x y : ℕ) (zs : List ℕ) → x < y → Above y zs → Above x zs
Above-mono x y [] h a = tt
Above-mono x y (z ∷ zs) h a = (omega arith, Above-mono x y zs h a.1)

contains-Above : (x y : ℕ) (zs : List ℕ) → y < suc x → Above x zs → contains y zs ≡ false
unfolding contains
contains-Above x y [] h a = refl
contains-Above x y (z ∷ zs) h a = ground (arith, contains-Above x y zs h a.1)

set_insert-Above : (b x : ℕ) (s : List ℕ) → b < x → Above b s → Above b (set_insert x s)
unfolding set_insert
set_insert-Above b x [] h a = (h, tt)
set_insert-Above b x (y ∷ ys) h a = ground (arith, set_insert-Above b x ys h a.1)

pub set_insert-IsAscending : (x : ℕ) (s : List ℕ) → IsAscending s → IsAscending (set_insert x s)
unfolding set_insert
set_insert-IsAscending x [] a = (tt, tt)
set_insert-IsAscending x (y ∷ ys) a =
    ground (arith, Above-mono x y ys, set_insert-Above y x ys, set_insert-IsAscending x ys a.1)

pub to_set-IsAscending : (xs : List ℕ) → IsAscending (to_set xs)
unfolding to_set
to_set-IsAscending [] = tt
to_set-IsAscending (x ∷ xs) = set_insert-IsAscending x (to_set xs) (to_set-IsAscending xs)

pub contains-set_insert :
    (y x : ℕ) (s : List ℕ) → contains y (set_insert x s) ≡ (y == x || contains y s)
unfolding contains set_insert
contains-set_insert y x [] = refl
contains-set_insert y x (z ∷ zs) = ground (arith, contains-set_insert y x zs)

pub length-set_insert :
    (x : ℕ) (s : List ℕ)
    → IsAscending s
    → length (set_insert x s) ≡ (if contains x s then length s else suc (length s))
unfolding contains set_insert
length-set_insert x [] a = refl
length-set_insert x (y ∷ ys) a = ground (arith, length-set_insert x ys a.1, contains-Above y x ys)

-- To insert what is there changes nothing.
pub set_insert-of_contains :
    (x : ℕ) (s : List ℕ) → IsAscending s → contains x s ≡ true → set_insert x s ≡ s
unfolding contains set_insert
set_insert-of_contains x [] a h = cc
set_insert-of_contains x (y ∷ ys) a h =
    ground (arith, set_insert-of_contains x ys a.1, contains-Above y x ys)

pub contains-to_set : (y : ℕ) (xs : List ℕ) → contains y (to_set xs) ≡ contains y xs
unfolding contains to_set
contains-to_set y [] = refl
contains-to_set y (x ∷ xs) =
    contains-set_insert y x (to_set xs) ∙ ap (λ b. y == x || b) (contains-to_set y xs)

pub length-to_set-le : (xs : List ℕ) → length (to_set xs) ≤ length xs
unfolding to_set
length-to_set-le [] = omega arith
length-to_set-le (x ∷ xs) =
    ground (arith, length-set_insert x (to_set xs) (to_set-IsAscending xs), length-to_set-le xs)

-- The set is as long as the vector exactly when the vector repeats nothing.
pub length-to_set : (xs : List ℕ) → (length (to_set xs) == length xs) ≡ distinct xs
unfolding to_set distinct
length-to_set [] = refl
length-to_set (x ∷ xs) = ground (
  arith,
  length-set_insert x (to_set xs) (to_set-IsAscending xs),
  length-to_set-le xs,
  length-to_set xs,
  contains-to_set x xs,
)

contains-sort_insert :
    (y x : ℕ) (s : List ℕ) → contains y (sort_insert x s) ≡ (y == x || contains y s)
unfolding contains sort_insert
contains-sort_insert y x [] = refl
contains-sort_insert y x (z ∷ zs) = ground (arith, contains-sort_insert y x zs)

pub contains-sort : (y : ℕ) (xs : List ℕ) → contains y (sort xs) ≡ contains y xs
unfolding contains sort
contains-sort y [] = refl
contains-sort y (x ∷ xs) =
    contains-sort_insert y x (sort xs) ∙ ap (λ b. y == x || b) (contains-sort y xs)

distinct-sort_insert :
    (x : ℕ) (s : List ℕ) → distinct (sort_insert x s) ≡ (not (contains x s) && distinct s)
unfolding distinct sort_insert contains
distinct-sort_insert x [] = refl
distinct-sort_insert x (y ∷ ys) =
    ground (arith, distinct-sort_insert x ys, contains-sort_insert y x ys)

pub distinct-sort : (xs : List ℕ) → distinct (sort xs) ≡ distinct xs
unfolding distinct sort
distinct-sort [] = refl
distinct-sort (x ∷ xs) =
    ground (arith, distinct-sort_insert x (sort xs), contains-sort x xs, distinct-sort xs)

contains-ne_nil : (y : ℕ) (s : List ℕ) → contains y s ≡ true → s ≢ []
unfolding contains
contains-ne_nil y [] h e = cc
contains-ne_nil y (x ∷ xs) h e = cc

pub sort-ne_nil : (x : ℕ) (xs : List ℕ) → sort (x ∷ xs) ≢ []
unfolding contains
sort-ne_nil x xs = contains-ne_nil x (sort (x ∷ xs)) (contains-sort x (x ∷ xs) ∙ (rw (==-self x)))

pub contains-append :
    (x : ℕ) (xs ys : List ℕ) → contains x (xs ++ ys) ≡ (contains x xs || contains x ys)
unfolding contains
contains-append x [] ys = refl
contains-append x (y ∷ xs) ys = ground (arith, contains-append x xs ys)
