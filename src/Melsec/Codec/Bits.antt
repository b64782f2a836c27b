-- ===== src/Melsec/Codec/Bits.antt =====
-- The bits of drivers/rx-melsec-mc/src/codec.rs against the packer of them.
use rx_solutions.Base.{
  ℕ, ◌+◌, ◌-◌, ◌*◌, ◌/◌, ◌%◌, ◌≤◌, ◌<◌, ◌≡◌, ◌↔◌, refl, ap, sym, subst, ==_iff, ◌∙◌, arith, Bool,
  true, false, List, [], ◌∷◌, ◌++◌, ◌==◌, ok, length, length-append, Bool-cases, Result-cases, inl,
  inr,
}
use rx_solutions.Melsec.Codec.{half_up, push_value, push_bit, bits_of, bits}
use rx_solutions.Melsec.Codec.Packing.{bit, pack, append_two, append_nil, bits-pack}

push_value-cases :
    (half : ℕ) (values more : List Bool)
    → push_value half values ≡ ok more
    → (a : Bool) × (half ≡ bit a) × (more ≡ values ++ a ∷ [])
push_value-cases half values more h = elim (Bool-cases (half == 0)) [
  | inl z ↦ (false, ground (arith, z), ground (arith, h, z))
  | inr z ↦ elim (Bool-cases (half == 1)) [
    | inl o ↦ (true, ground (arith, o), ground (arith, h, z, o))
    | inr o ↦ absurd (ground (arith, h, z, o))
  ]
]

push_bit-cases :
    (count half : ℕ) (values more : List Bool)
    → length values < count
    → push_bit count half values ≡ ok more
    → (a : Bool) × (half ≡ bit a) × (more ≡ values ++ a ∷ [])
push_bit-cases count half values more l h =
    let short : (length values == count) ≡ false = ground (arith, l) in
    push_value-cases half values more (ground (arith, h, short))

push_bit-padding :
    (count half : ℕ) (values most : List Bool)
    → length values ≡ count
    → push_bit count half values ≡ ok most
    → (half ≡ 0) × (most ≡ values)
push_bit-padding count half values most l h = elim (Bool-cases (half == 0)) [
  | inl z ↦ (ground (arith, z), ground (arith, h, l, z))
  | inr z ↦ absurd (ground (arith, h, l, z))
]

bits_of-cases :
    (count byte : ℕ) (rest : List ℕ) (values out : List Bool)
    → bits_of count (byte ∷ rest) values ≡ ok out
    → (more : List Bool) × (most : List Bool) × (push_bit count (byte / 16) values ≡ ok more)
      × (push_bit count (byte % 16) more ≡ ok most)
      × (bits_of count rest most ≡ ok out)
unfolding bits_of
bits_of-cases count byte rest values out h =
    elim (Result-cases (push_bit count (byte / 16) values)) [
      | inr (x, e) ↦ absurd (ground (arith, h, e))
      | inl (more, e) ↦ elim (Result-cases (push_bit count (byte % 16) more)) [
        | inr (x, d) ↦ absurd (ground (arith, h, e, d))
        | inl (most, d) ↦ (more, most, e, d, ground (arith, h, e, d))
      ]
    ]

halves : (byte : ℕ) (a b : Bool) → byte / 16 ≡ bit a → byte % 16 ≡ bit b → 16 * bit a + bit b ≡ byte
halves byte a b h l = omega (arith, h, l)

no_items : (xs : List ℕ) → length xs ≡ 0 → xs ≡ []
no_items [] h = refl
no_items (x ∷ xs) h = absurd (omega (arith, h))

consed : (x y : ℕ) (xs ys : List ℕ) → x ≡ y → xs ≡ ys → x ∷ xs ≡ y ∷ ys
consed x y xs ys h t = cc

done : (count : ℕ) (most out : List Bool) → bits_of count [] most ≡ ok out → most ≡ out
unfolding bits_of
done count most out h = ground (arith, h)

joined_two :
    (acc more most vs out : List Bool) (a b : Bool)
    → out ≡ most ++ vs
    → most ≡ more ++ b ∷ []
    → more ≡ acc ++ a ∷ []
    → out ≡ acc ++ a ∷ b ∷ vs
joined_two acc more most vs out a b o m n =
    o ∙ ap (λ x. x ++ vs) (m ∙ ap (λ x. x ++ b ∷ []) n) ∙ append_two acc vs a b

-- What was read, packed again, is what was sent.
record Read (count : ℕ) (data_left : List ℕ) (acc out : List Bool) : Type 0 where
  points : List Bool
  joined : out ≡ acc ++ points
  counted : length acc + length points ≡ count
  packed : pack points ≡ data_left

bits_of-Read :
    (count : ℕ) (data_left : List ℕ) (acc out : List Bool)
    → bits_of count data_left acc ≡ ok out
    → length acc ≤ count
    → length data_left ≡ (count - length acc + 1) / 2
    → Read count data_left acc out
unfolding bits_of pack
bits_of-Read count [] acc out h l d = record {
  points = [];
  joined = ground (arith, h, append_nil acc);
  counted = omega (arith, l, d);
  packed = refl;
}
bits_of-Read count (byte ∷ rest) acc out h l d =
    let (more, most, e, f, g) = bits_of-cases count byte rest acc out h in
    let (a, high, same) = push_bit-cases count (byte / 16) acc more (omega (arith, l, d)) e in
    let l1 = length-append acc (a ∷ []) in
    elim (Bool-cases (length more == count)) [
      | inl full ↦
          let (low, kept) = push_bit-padding count (byte % 16) more most (ground (arith, full)) f in
          let nothing : rest ≡ [] =
            no_items rest
              (omega (arith, d, ap length same, l1, (==_iff (length more) count).0 full)) in
          record {
            points = a ∷ [];
            joined =
                sym (done count most out (subst (λ r. bits_of count r most ≡ ok out) nothing g))
                ∙ kept
                ∙ same;
            counted = omega (arith, ap length same, l1, (==_iff (length more) count).0 full);
            packed = consed (16 * bit a) byte [] rest (omega (arith, high, low)) (sym nothing);
          }
      | inr full ↦
          let short : length more < count = ground (arith, full, d, l, l1, ap length same) in
          let (b, low, also) = push_bit-cases count (byte % 16) more most short f in
          let l2 = length-append more (b ∷ []) in
          let ih =
            bits_of-Read count rest most out g (omega (arith, ap length also, l2, short))
              (omega (arith, ap length also, l2, l1, ap length same, d, short)) in
          record {
            points = a ∷ b ∷ ih.points;
            joined = joined_two acc more most ih.points out a b ih.joined also same;
            counted = omega (arith, ih.counted, ap length also, l2, l1, ap length same);
            packed =
                consed (16 * bit a + bit b) byte (pack ih.points) rest (halves byte a b high low)
                  ih.packed;
          }
    ]

pack-bits :
    (data_left : List ℕ) (count : ℕ) (values : List Bool)
    → bits data_left count ≡ ok values
    → (length values ≡ count) × (pack values ≡ data_left)
unfolding bits
pack-bits data_left count values h = elim (Bool-cases (length data_left == half_up count)) [
  | inr e ↦ absurd (ground (arith, h, e))
  | inl e ↦
      let r =
        bits_of-Read count data_left [] values (ground (arith, h, e)) (omega arith)
          (ground (arith, e)) in
      (ap length r.joined ∙ omega (arith, r.counted), ap pack r.joined ∙ r.packed)
]

-- A payload is read as the points that it is the packing of, two to a byte and zero in the half that is
-- left over, and it is refused when it is not the packing of as many points as were asked for.
pub bits_iff :
    (data_left : List ℕ) (count : ℕ) (values : List Bool)
    → (bits data_left count ≡ ok values) ↔ ((length values ≡ count) × (pack values ≡ data_left))
bits_iff data_left count values = (
  pack-bits data_left count values,
  λ p.
      subst (λ n. bits data_left n ≡ ok values) p.0
        (subst (λ d. bits d (length values) ≡ ok values) p.1 (bits-pack values)),
)
