-- ===== src/Melsec/Client/Exact.antt =====
-- What the controller reads of the requests of drivers/rx-melsec-mc/src/client.rs.
use rx_solutions.Base.{
  ℕ, ◌+◌, ◌-◌, ◌≤◌, ◌<◌, ◌≡◌, arith, true, false, Option, none, some, List, [], ◌∷◌, ltb, ok,
  contains, any, Bool-cases, inl, inr,
}
use rx_solutions.Melsec.Profile.{
  Configuration, validate, permits, AddressRange, valid_access, valid_ranges, within,
}
use rx_solutions.Melsec.Codec.{Request, read_m, read_d, write_m, encode, first_address, points}
use rx_solutions.Melsec.Codec.Frames.{parse, parse-encode}
use rx_solutions.Melsec.Client.Permitted.{is_permitted, covers}

permits-range :
    (ranges : List AddressRange) (limit : ℕ) (previous : Option ℕ) (first last : ℕ)
    → valid_ranges limit previous ranges ≡ true
    → any (within first last) ranges ≡ true
    → last ≤ limit
unfolding valid_ranges
permits-range [] limit previous first last v h = cc
permits-range (r ∷ rs) limit previous first last v h = elim (Bool-cases (within first last r)) [
  | inl w ↦ ground (arith, v, w)
  | inr w ↦
      permits-range rs limit (some r.last) first last (ground (arith, v)) (ground (arith, h, w))
]

any-within :
    (ranges : List AddressRange) (first last n : ℕ)
    → first ≤ n
    → n ≤ last
    → any (within first last) ranges ≡ true
    → any (within n n) ranges ≡ true
any-within [] first last n a b h = h
any-within (r ∷ rs) first last n a b h = ground (arith, a, b, any-within rs first last n a b)

permits-within :
    (ranges : List AddressRange) (first count most : ℕ)
    → permits ranges first count most ≡ true
    → (1 ≤ count) × (count ≤ most) × (any (within first (first + (count - 1))) ranges ≡ true)
unfolding permits
permits-within ranges first count most h = ground (arith, h)

contains-bounded :
    (n limit : ℕ) (xs : List ℕ)
    → any (λ m. ltb limit m) xs ≡ false
    → contains n xs ≡ true
    → n ≤ limit
unfolding contains
contains-bounded n limit [] v h = cc
contains-bounded n limit (x ∷ xs) v h = ground (arith, v, h, contains-bounded n limit xs)

-- The access profile of a configuration that is valid.
access_valid :
    (config : Configuration) → validate config ≡ ok tt → valid_access config.access ≡ true
unfolding validate
access_valid config h = ground (arith, h)

bounded_request :
    (config : Configuration) (r : Request)
    → valid_access config.access ≡ true
    → is_permitted config r ≡ true
    → (first_address r < 16777216) × (points r < 65536)
unfolding valid_access
bounded_request config (read_m first count) v p =
    let (low, high, w) = permits-within config.access.read_m first count 64 p in
    let last : first + (count - 1) ≤ config.access.m_last =
      permits-range config.access.read_m config.access.m_last none first (first + (count - 1))
        (ground (arith, v)) w in
    (ground (arith, v, last), omega (arith, high))
bounded_request config (read_d first count) v p =
    let (low, high, w) = permits-within config.access.read_d first count 32 p in
    let last : first + (count - 1) ≤ config.access.d_last =
      permits-range config.access.read_d config.access.d_last none first (first + (count - 1))
        (ground (arith, v)) w in
    (ground (arith, v, last), omega (arith, high))
bounded_request config (write_m address value) v p =
    let last : address ≤ config.access.m_last =
      contains-bounded address config.access.m_last config.access.write_m (ground (arith, v)) p in
    (ground (arith, v, last), omega arith)

covered_point :
    (config : Configuration) (r : Request) (k : ℕ)
    → is_permitted config r ≡ true
    → k < points r
    → covers config r (first_address r + k) ≡ true
covered_point config (read_m first count) k p h =
    let (low, high, w) = permits-within config.access.read_m first count 64 p in
    any-within config.access.read_m first (first + (count - 1)) (first + k) (omega arith)
      (omega (arith, h)) w
covered_point config (read_d first count) k p h =
    let (low, high, w) = permits-within config.access.read_d first count 32 p in
    any-within config.access.read_d first (first + (count - 1)) (first + k) (omega arith)
      (omega (arith, h)) w
covered_point config (write_m address value) k p h =
    let zero_offset : address + k ≡ address = omega (arith, h) in rw zero_offset p

-- Under a configuration that is valid, the controller reads the frame of a permitted request as that very
-- request, at most 64 points long, and every point of it lies in the profile.
pub permitted-exact :
    (config : Configuration) (r : Request) (k : ℕ)
    → validate config ≡ ok tt
    → is_permitted config r ≡ true
    → k < points r
    → (parse (encode r config.route config.monitoring_timer) ≡ some r)
      × (points r ≤ 64)
      × (covers config r (first_address r + k) ≡ true)
permitted-exact config r k v p h =
    let (address, size) = bounded_request config r (access_valid config v) p in
    (
      parse-encode r config.route config.monitoring_timer address size,
      few r p,
      covered_point config r k p h,
    )
  where
    few : (r : Request) → is_permitted config r ≡ true → points r ≤ 64
    few (read_m first count) p =
        omega (arith, (permits-within config.access.read_m first count 64 p).1)
    few (read_d first count) p =
        omega (arith, (permits-within config.access.read_d first count 32 p).1)
    few (write_m address value) p = omega arith
