-- ===== src/Base/Maps.antt =====
-- A `BTreeMap` with numbers for keys, as the list of its entries in ascending order of the keys.
use Prim.Native.Nat.{ℕ, suc, ◌<◌}
use mathlib.Core.Path.{◌≡◌, refl}
use mathlib.Core.List.{List, [], ◌∷◌}
use mathlib.Core.Bool.{Bool, false, ◌||◌}
use mathlib.Core.Option.{Option, none, some}
use native.Mathlib.Omega.{arith}
use rx_solutions.Base.Tests.{◌==◌, ltb, if◌then◌else◌}

module _ {V : Type 0} where
  -- `contains_key`.
  abbrev pub has : ℕ → List (ℕ × V) → Bool
  has k [] = false
  has k ((j, v) ∷ m) = k == j || has k m

  unfoldable pub lookup : ℕ → List (ℕ × V) → Option V
  lookup k [] = none
  lookup k ((j, v) ∷ m) = if k == j then some v else lookup k m

  unfoldable pub insert : ℕ → V → List (ℕ × V) → List (ℕ × V)
  insert k v [] = (k, v) ∷ []
  insert k v ((j, w) ∷ m) =
      let rest = insert k v m in
      if ltb k j then (k, v) ∷ (j, w) ∷ m else if k == j then (k, v) ∷ m else (j, w) ∷ rest

  pub lookup-insert :
      (j k : ℕ) (v : V) (m : List (ℕ × V))
      → lookup j (insert k v m) ≡ (if j == k then some v else lookup j m)
  unfolding lookup insert
  lookup-insert j k v [] = refl
  lookup-insert j k v ((i, w) ∷ m) = ground (arith, lookup-insert j k v m)

  abbrev pub KeysAbove : ℕ → List (ℕ × V) → Type 0
  KeysAbove k [] = Unit {0}
  KeysAbove k ((j, v) ∷ m) = (k < j) × KeysAbove k m

  abbrev pub IsOrdered : List (ℕ × V) → Type 0
  IsOrdered [] = Unit {0}
  IsOrdered ((k, v) ∷ m) = KeysAbove k m × IsOrdered m

  KeysAbove-mono : (i j : ℕ) (m : List (ℕ × V)) → i < j → KeysAbove j m → KeysAbove i m
  KeysAbove-mono i j [] h a = tt
  KeysAbove-mono i j ((k, v) ∷ m) h a = (omega arith, KeysAbove-mono i j m h a.1)

  insert-KeysAbove :
      (b k : ℕ) (v : V) (m : List (ℕ × V)) → b < k → KeysAbove b m → KeysAbove b (insert k v m)
  unfolding insert
  insert-KeysAbove b k v [] h a = (h, tt)
  insert-KeysAbove b k v ((j, w) ∷ m) h a = ground (arith, insert-KeysAbove b k v m h a.1)

  pub insert-IsOrdered : (k : ℕ) (v : V) (m : List (ℕ × V)) → IsOrdered m → IsOrdered (insert k v m)
  unfolding insert
  insert-IsOrdered k v [] o = (tt, tt)
  insert-IsOrdered k v ((j, w) ∷ m) o =
      ground (arith, KeysAbove-mono k j m, insert-KeysAbove j k v m, insert-IsOrdered k v m o.1)

  lookup-KeysAbove : (b k : ℕ) (m : List (ℕ × V)) → k < suc b → KeysAbove b m → lookup k m ≡ none
  unfolding lookup
  lookup-KeysAbove b k [] h a = refl
  lookup-KeysAbove b k ((j, w) ∷ m) h a = ground (arith, lookup-KeysAbove b k m h a.1)

  -- To write what is there changes nothing.
  pub insert_self :
      (k : ℕ) (v : V) (m : List (ℕ × V)) → IsOrdered m → lookup k m ≡ some v → insert k v m ≡ m
  unfolding lookup insert
  insert_self k v [] o h = cc
  insert_self k v ((j, w) ∷ m) o h = ground (arith, insert_self k v m o.1, lookup-KeysAbove j k m)
