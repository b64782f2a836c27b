-- ===== src/Melsec/Client/Streams.antt =====
-- The loops of drivers/rx-melsec-mc/src/client.rs over the stream.
use rx_solutions.Base.{
  ℕ, zero, suc, ◌+◌, ◌-◌, ◌≡◌, refl, ap, sym, ◌∙◌, arith, Bool, true, false, ◌&&◌, List, [], ◌∷◌,
  ◌++◌, ◌==◌, ok, err, length,
}
use rx_solutions.Melsec.Client.{
  take, drop, WriteEvent, takes, write_interrupted, write_fails, write_until, ReadEvent, arrives,
  read_interrupted, read_fails, put_back, Reading, reading, read_until,
}

abbrev pub is_prefix : List ℕ → List ℕ → Bool
is_prefix [] ys = true
is_prefix (x ∷ xs) [] = false
is_prefix (x ∷ xs) (y ∷ ys) = x == y && is_prefix xs ys

prefix_joined :
    (n : ℕ) (xs buffer : List ℕ)
    → is_prefix xs (drop n buffer) ≡ true
    → is_prefix (take n buffer ++ xs) buffer ≡ true
prefix_joined zero xs buffer h = h
prefix_joined (suc n) [] [] h = refl
prefix_joined (suc n) (x ∷ xs) [] h = h
prefix_joined (suc n) xs (b ∷ buffer) h = ground (arith, prefix_joined n xs buffer h)

-- Only the bytes of the buffer are written, in order, from the first one on.
pub write_until-prefix :
    (time : ℕ) (events : List WriteEvent) (buffer : List ℕ)
    → is_prefix (write_until time events buffer).1 buffer ≡ true
unfolding write_until
write_until-prefix zero events buffer = refl
write_until-prefix (suc time) events [] = refl
write_until-prefix (suc time) [] (b ∷ buffer) = refl
write_until-prefix (suc time) (write_fails ∷ events) (b ∷ buffer) = refl
write_until-prefix (suc time) (write_interrupted ∷ events) (b ∷ buffer) =
    write_until-prefix time events (b ∷ buffer)
write_until-prefix (suc time) (takes zero ∷ events) (b ∷ buffer) = refl
write_until-prefix (suc time) (takes (suc n) ∷ events) (b ∷ buffer) =
    let rest = write_until-prefix time events (drop n buffer) in
    ground (arith, prefix_joined n (write_until time events (drop n buffer)).1 buffer rest)

-- The bytes that arrive, however they are cut into pieces.
abbrev pub content : List ReadEvent → List ℕ
content [] = []
content (arrives bs ∷ events) = bs ++ content events
content (read_interrupted ∷ events) = content events
content (read_fails ∷ events) = content events

content-put_back :
    (bs : List ℕ) (events : List ReadEvent) → content (put_back bs events) ≡ bs ++ content events
content-put_back [] events = refl
content-put_back (b ∷ bs) events = refl

take-drop : (n : ℕ) (xs ys : List ℕ) → take n xs ++ (drop n xs ++ ys) ≡ xs ++ ys
take-drop zero xs ys = refl
take-drop (suc n) [] ys = refl
take-drop (suc n) (x ∷ xs) ys = ap (λ r. x ∷ r) (take-drop n xs ys)

length-take : (n : ℕ) (xs : List ℕ) → length (take n xs) + (n - length xs) ≡ n
length-take zero xs = omega arith
length-take (suc n) [] = omega arith
length-take (suc n) (x ∷ xs) = omega (arith, length-take n xs)

length-joined : (xs ys : List ℕ) → length (xs ++ ys) ≡ length xs + length ys
length-joined [] ys = omega arith
length-joined (x ∷ xs) ys = omega (arith, length-joined xs ys)

append_three : (xs ys zs : List ℕ) → (xs ++ ys) ++ zs ≡ xs ++ (ys ++ zs)
append_three [] ys zs = refl
append_three (x ∷ xs) ys zs = ap (λ r. x ∷ r) (append_three xs ys zs)

reading-cases :
    (bs : List ℕ) (r : Reading) (got : List ℕ) (left : ℕ) (more : List ReadEvent)
    → reading bs r ≡ ok (got, left, more)
    → (rest : List ℕ) × (r ≡ ok (rest, left, more)) × (bs ++ rest ≡ got)
reading-cases bs (err e) got left more h = cc
reading-cases bs (ok (rest, time, events)) got left more h =
    (rest, ground (arith, h), ground (arith, h))

-- When a buffer is filled it holds the next bytes of the stream, as many as it has place for, however
-- they were cut into pieces and interrupted; the bytes after them are still to be read.
pub read_until-content :
    (time size : ℕ) (events more : List ReadEvent) (got : List ℕ) (left : ℕ)
    → read_until time events size ≡ ok (got, left, more)
    → (length got ≡ size) × (got ++ content more ≡ content events)
unfolding read_until
read_until-content zero size events more got left h = cc
read_until-content (suc time) zero events more got left h = (ground (arith, h), ground (arith, h))
read_until-content (suc time) (suc size) [] more got left h = cc
read_until-content (suc time) (suc size) (read_fails ∷ events) more got left h = cc
read_until-content (suc time) (suc size) (read_interrupted ∷ events) more got left h =
    read_until-content time (suc size) events more got left h
read_until-content (suc time) (suc size) (arrives [] ∷ events) more got left h = cc
read_until-content (suc time) (suc size) (arrives (b ∷ bs) ∷ events) more got left h =
    let (rest, e, same) = reading-cases (b ∷ take size bs) _ got left more h in
    let (len, joined) =
      read_until-content time (size - length bs) (put_back (drop size bs) events) more rest left
        e in
    (
      rw (← same) (omega (arith, len, length-joined (take size bs) rest, length-take size bs)),
      ap (λ g. g ++ content more) (sym same)
          ∙ ap (λ r. b ∷ r)
              (append_three (take size bs) rest (content more)
                ∙ ap (λ r. take size bs ++ r) (joined ∙ content-put_back (drop size bs) events)
                ∙ take-drop size bs (content events)),
    )
