-- ===== src/Melsec/Codec/Frames.antt =====
-- The request frames of drivers/rx-melsec-mc/src/codec.rs as the controller reads them.
use rx_solutions.Base.{
  ℕ, ◌+◌, ◌*◌, ◌/◌, ◌%◌, ◌<◌, ◌≡◌, refl, arith, true, false, not, ◌&&◌, Option, none, some, List,
  [], ◌∷◌, ◌==◌, if◌then◌else◌, length,
}
use rx_solutions.Melsec.Profile.{Route, bytes}
use rx_solutions.Melsec.Codec.{Request, read_m, read_d, write_m, first_address, points, encode}

abbrev request_of : ℕ → ℕ → ℕ → ℕ → ℕ → List ℕ → Option Request
request_of command subcommand address device count [] =
    if command == 1025 && subcommand == 1 && device == 144
    then some (read_m address count)
    else if command == 1025 && subcommand == 0 && device == 168
    then some (read_d address count)
    else none
request_of command subcommand address device count (v ∷ []) =
    if not (command == 5121 && subcommand == 1 && device == 144 && count == 1)
    then none
    else if v == 16
    then some (write_m address true)
    else if v == 0
    then some (write_m address false)
    else none
request_of command subcommand address device count _ = none

-- The 3E frame: subheader, five bytes of routing, the number of bytes from the timer on, the timer, and
-- the request.
unfoldable pub parse : List ℕ → Option Request
parse
      (s ∷ z ∷ n ∷ p ∷ i ∷ j ∷ st ∷ ll ∷ lh ∷ tl ∷ th ∷ cl ∷ ch ∷ sl ∷ sh ∷ a ∷ b ∷ c ∷ d ∷ pl ∷ ph
        ∷ rest) =
    if not (s == 80 && z == 0 && ll + 256 * lh == length rest + 12)
    then none
    else request_of (cl + 256 * ch) (sl + 256 * sh) (a + 256 * b + 65536 * c) d (pl + 256 * ph) rest
parse _ = none

word_read : (n : ℕ) → n < 65536 → n % 256 + 256 * (n / 256 % 256) ≡ n
word_read n h = omega (arith, h)

address_read :
    (n : ℕ) → n < 16777216 → n % 256 + 256 * (n / 256 % 256) + 65536 * (n / 65536 % 256) ≡ n
address_read n h = omega (arith, h)

-- A frame is read back as the request that it was made for, when the address has 24 bits and the number
-- of points 16.
pub parse-encode :
    (r : Request) (route : Route) (timer : ℕ)
    → first_address r < 16777216
    → points r < 65536
    → parse (encode r route timer) ≡ some r
unfolding parse encode bytes
parse-encode (read_m first count) route timer a p =
    rw (address_read first a) (rw (word_read count p) refl)
parse-encode (read_d first count) route timer a p =
    rw (address_read first a) (rw (word_read count p) refl)
parse-encode (write_m address true) route timer a p = rw (address_read address a) refl
parse-encode (write_m address false) route timer a p = rw (address_read address a) refl
