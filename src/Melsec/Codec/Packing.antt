-- ===== src/Melsec/Codec/Packing.antt =====
-- A packer of bits, and what `bits` of drivers/rx-melsec-mc/src/codec.rs reads of it.
use rx_solutions.Base.{
  ℕ, ◌+◌, ◌*◌, ◌/◌, ◌%◌, ◌<◌, ◌≡◌, refl, ap, sym, ◌∙◌, arith, Bool, true, false, not, List, [], ◌∷◌,
  ◌++◌, ◌==◌, ok, length, length-append,
}
use rx_solutions.Melsec.Codec.{half_up, push_bit, bits_of, bits}

abbrev pub bit : Bool → ℕ
bit false = 0
bit true = 1

-- Two points to a byte, the first in the upper half; the half that is left over is zero.
unfoldable pub pack : List Bool → List ℕ
pack [] = []
pack (a ∷ []) = (16 * bit a) ∷ []
pack (a ∷ b ∷ vs) = (16 * bit a + bit b) ∷ pack vs

pub append_two :
    {A : Type 0} (xs ys : List A) (a b : A) → ((xs ++ a ∷ []) ++ b ∷ []) ++ ys ≡ xs ++ a ∷ b ∷ ys
append_two [] ys a b = refl
append_two (x ∷ xs) ys a b = ap (λ r. x ∷ r) (append_two xs ys a b)

push_bit-bit :
    (count : ℕ) (a : Bool) (values : List Bool)
    → length values < count
    → push_bit count (bit a) values ≡ ok (values ++ a ∷ [])
push_bit-bit count a values h = ground arith

upper : (a b : Bool) → (16 * bit a + bit b) / 16 ≡ bit a
upper false false = refl
upper false true = refl
upper true false = refl
upper true true = refl

lower : (a b : Bool) → (16 * bit a + bit b) % 16 ≡ bit b
lower false false = refl
lower false true = refl
lower true false = refl
lower true true = refl

length-pack : (vs : List Bool) → length (pack vs) ≡ half_up (length vs)
unfolding pack
length-pack [] = refl
length-pack (a ∷ []) = refl
length-pack (a ∷ b ∷ vs) = omega (arith, length-pack vs)

pub append_nil : {A : Type 0} (xs : List A) → xs ++ [] ≡ xs
append_nil [] = refl
append_nil (x ∷ xs) = ap (λ r. x ∷ r) (append_nil xs)

upper_alone : (a : Bool) → (16 * bit a) / 16 ≡ bit a
upper_alone false = refl
upper_alone true = refl

lower_alone : (a : Bool) → (16 * bit a) % 16 ≡ 0
lower_alone false = refl
lower_alone true = refl

push_bit-full :
    (count : ℕ) (values : List Bool) → length values ≡ count → push_bit count 0 values ≡ ok values
push_bit-full count values h = ground arith

bits_of-step :
    (count byte : ℕ) (rest : List ℕ) (values more most : List Bool)
    → push_bit count (byte / 16) values ≡ ok more
    → push_bit count (byte % 16) more ≡ ok most
    → bits_of count (byte ∷ rest) values ≡ bits_of count rest most
unfolding bits_of
bits_of-step count byte rest values more most h l = rw (h, bits_of) (rw (l, bits_of) refl)

bits_of-pack :
    (count : ℕ) (vs acc : List Bool)
    → length acc + length vs ≡ count
    → bits_of count (pack vs) acc ≡ ok (acc ++ vs)
unfolding bits_of pack
bits_of-pack count [] acc h = ap ok (sym (append_nil acc))
bits_of-pack count (a ∷ []) acc h =
    bits_of-step count (16 * bit a) [] acc (acc ++ a ∷ []) (acc ++ a ∷ [])
      (ap (λ x. push_bit count x acc) (upper_alone a) ∙ push_bit-bit count a acc (omega (arith, h)))
      (ap (λ x. push_bit count x (acc ++ a ∷ [])) (lower_alone a)
        ∙ push_bit-full count (acc ++ a ∷ []) (omega (arith, h, length-append acc (a ∷ []))))
bits_of-pack count (a ∷ b ∷ vs) acc h =
    let l1 = length-append acc (a ∷ []) in
    let l2 = length-append (acc ++ a ∷ []) (b ∷ []) in
    bits_of-step count (16 * bit a + bit b) (pack vs) acc (acc ++ a ∷ [])
      ((acc ++ a ∷ []) ++ b ∷ [])
      (ap (λ x. push_bit count x acc) (upper a b) ∙ push_bit-bit count a acc (omega (arith, h)))
      (ap (λ x. push_bit count x (acc ++ a ∷ [])) (lower a b)
        ∙ push_bit-bit count b (acc ++ a ∷ []) (omega (arith, h, l1)))
    ∙ bits_of-pack count vs ((acc ++ a ∷ []) ++ b ∷ []) (omega (arith, h, l1, l2))
    ∙ ap ok (append_two acc vs a b)

pub bits-pack : (vs : List Bool) → bits (pack vs) (length vs) ≡ ok vs
unfolding bits
bits-pack vs =
    let exact : not (length (pack vs) == half_up (length vs)) ≡ false =
      ground (arith, length-pack vs) in
    rw exact (bits_of-pack (length vs) vs [] (omega arith))
