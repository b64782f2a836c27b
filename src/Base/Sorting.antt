-- ===== src/Base/Sorting.antt =====
-- The order that `sort` makes: it is reached once, whatever the order of the items before.
use Prim.Native.Nat.{ℕ, ◌≤◌}
use mathlib.Core.Path.{◌≡◌, refl, ap₂, ◌∙◌}
use mathlib.Core.List.{List, [], ◌∷◌, Permᴰ}
use native.Mathlib.Omega.{arith}
use rx_solutions.Base.Sets.{sort_insert, sort}

-- In order, repetitions allowed: what `sort` gives.
abbrev AtLeast : ℕ → List ℕ → Type 0
AtLeast x [] = Unit {0}
AtLeast x (y ∷ ys) = (x ≤ y) × AtLeast x ys

abbrev IsSorted : List ℕ → Type 0
IsSorted [] = Unit {0}
IsSorted (x ∷ xs) = AtLeast x xs × IsSorted xs

AtLeast-mono : (x y : ℕ) (zs : List ℕ) → x ≤ y → AtLeast y zs → AtLeast x zs
AtLeast-mono x y [] h a = tt
AtLeast-mono x y (z ∷ zs) h a = (omega arith, AtLeast-mono x y zs h a.1)

sort_insert-AtLeast : (b x : ℕ) (s : List ℕ) → b ≤ x → AtLeast b s → AtLeast b (sort_insert x s)
unfolding sort_insert
sort_insert-AtLeast b x [] h a = (h, tt)
sort_insert-AtLeast b x (y ∷ ys) h a = ground (arith, sort_insert-AtLeast b x ys h a.1)

sort_insert-IsSorted : (x : ℕ) (s : List ℕ) → IsSorted s → IsSorted (sort_insert x s)
unfolding sort_insert
sort_insert-IsSorted x [] a = (tt, tt)
sort_insert-IsSorted x (y ∷ ys) a =
    ground (arith, AtLeast-mono x y ys, sort_insert-AtLeast y x ys, sort_insert-IsSorted x ys a.1)

sort-IsSorted : (xs : List ℕ) → IsSorted (sort xs)
unfolding sort
sort-IsSorted [] = tt
sort-IsSorted (x ∷ xs) = sort_insert-IsSorted x (sort xs) (sort-IsSorted xs)

sort_insert-front : (x : ℕ) (s : List ℕ) → AtLeast x s → sort_insert x s ≡ x ∷ s
unfolding sort_insert
sort_insert-front x [] a = refl
sort_insert-front x (y ∷ ys) a = ground arith

sort-of_IsSorted : (xs : List ℕ) → IsSorted xs → sort xs ≡ xs
unfolding sort
sort-of_IsSorted [] a = refl
sort-of_IsSorted (x ∷ xs) a = rw (sort-of_IsSorted xs a.1) (sort_insert-front x xs a.0)

pub sort-sort : (xs : List ℕ) → sort (sort xs) ≡ sort xs
sort-sort xs = sort-of_IsSorted (sort xs) (sort-IsSorted xs)

-- The order in which items are inserted does not matter.
sort_insert_comm :
    (x y : ℕ) (s : List ℕ) → sort_insert x (sort_insert y s) ≡ sort_insert y (sort_insert x s)
unfolding sort_insert
sort_insert_comm x y [] = ground arith
sort_insert_comm x y (z ∷ zs) = ground (arith, sort_insert_comm x y zs)

-- Two vectors of the same items sort to one.
pub sort-perm : {xs ys : List ℕ} → Permᴰ xs ys → sort xs ≡ sort ys
unfolding sort
sort-perm Permᴰ.nil = refl
sort-perm (Permᴰ.cons e p) = ap₂ sort_insert e (sort-perm p)
sort-perm (Permᴰ.swap {a = a} {b = b} {l = l} e d) =
    sort_insert_comm a b (sort l) ∙ ap₂ (λ x y. sort_insert x (sort_insert y (sort l))) d e
sort-perm (Permᴰ.trans p q) = sort-perm p ∙ sort-perm q
