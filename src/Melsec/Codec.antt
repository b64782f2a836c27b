-- ===== src/Melsec/Codec.antt =====
-- drivers/rx-melsec-mc/src/codec.rs: the frames of requests and responses.
pub mod Packing
pub mod Bits
pub mod Frames
use rx_solutions.Base.{
  ℕ, suc, ◌+◌, ◌*◌, ◌/◌, ◌%◌, Bool, true, false, not, ◌&&◌, ◌||◌, List, [], ◌∷◌, ◌++◌, ltb, leb,
  ◌==◌, if◌then◌else◌, Result, ok, err, length, contains,
}
use rx_solutions.Melsec.{Error, access_denied, protocol, plc}
use rx_solutions.Melsec.Profile.{Route, bytes, word_bytes, Configuration, validate}

pub data Request : Type 0 where
  read_m read_d : ℕ → ℕ → Request
  write_m : ℕ → Bool → Request

-- The tuple at the head of `encode`.
abbrev pub command : Request → ℕ
command (read_m first count) = 1025
command (read_d first count) = 1025
command (write_m address value) = 5121

abbrev pub subcommand : Request → ℕ
subcommand (read_m first count) = 1
subcommand (read_d first count) = 0
subcommand (write_m address value) = 1

abbrev pub first_address : Request → ℕ
first_address (read_m first count) = first
first_address (read_d first count) = first
first_address (write_m address value) = address

abbrev pub device_code : Request → ℕ
device_code (read_m first count) = 144
device_code (read_d first count) = 168
device_code (write_m address value) = 144

abbrev pub points : Request → ℕ
points (read_m first count) = count
points (read_d first count) = count
points (write_m address value) = 1

abbrev pub is_write : Request → Bool
is_write (write_m address value) = true
is_write _ = false

abbrev pub request_length : Request → ℕ
request_length r = if is_write r then 13 else 12

abbrev pub write_data : Request → List ℕ
write_data (write_m address value) = (if value then 16 else 0) ∷ []
write_data _ = []

abbrev pub address_bytes : ℕ → List ℕ
address_bytes n = n % 256 ∷ n / 256 % 256 ∷ n / 65536 % 256 ∷ []

-- `Request::encode`.
unfoldable pub encode : Request → Route → ℕ → List ℕ
encode r route timer =
    80 ∷ 0 ∷ []
    ++ bytes route
    ++ word_bytes (request_length r)
    ++ word_bytes timer
    ++ word_bytes (command r)
    ++ word_bytes (subcommand r)
    ++ address_bytes (first_address r)
    ++ (device_code r ∷ [])
    ++ word_bytes (points r)
    ++ write_data r

-- `Configuration::write_m_frame`.
unfoldable pub write_m_frame : Configuration → ℕ → Bool → Result Error (List ℕ)
write_m_frame c address value = elim (validate c) [
  | err e ↦ err e
  | ok u ↦
      if not (contains address c.access.write_m)
      then err access_denied
      else ok (encode (write_m address value) c.route c.monitoring_timer)
]

-- `usize::div_ceil` by two.
abbrev pub half_up : ℕ → ℕ
half_up n = (n + 1) / 2

-- `Request::response_len`.
unfoldable pub response_len : Request → ℕ
response_len (read_m first count) = half_up count
response_len (read_d first count) = count * 2
response_len (write_m address value) = 0

abbrev pub same_bytes : List ℕ → List ℕ → Bool
same_bytes [] [] = true
same_bytes (x ∷ xs) (y ∷ ys) = x == y && same_bytes xs ys
same_bytes _ _ = false

abbrev bounded_length : ℕ → Result Error ℕ
bounded_length n = if not (leb 2 n && leb n 258) then err protocol else ok n

-- `response_length`; the header has nine bytes by its type, and any other list is refused here.
unfoldable pub response_length : List ℕ → Route → Result Error ℕ
response_length (s ∷ z ∷ a ∷ b ∷ c ∷ d ∷ e ∷ low ∷ high ∷ []) route =
    if not (s == 208 && z == 0) || not (same_bytes (a ∷ b ∷ c ∷ d ∷ e ∷ []) (bytes route))
    then err protocol
    else bounded_length (low + 256 * high)
response_length _ route = err protocol

-- `payload`.
unfoldable pub payload : List ℕ → ℕ → Result Error (List ℕ)
payload (low ∷ high ∷ rest) expected =
    if not (low + 256 * high == 0)
    then err (plc (low + 256 * high) rest)
    else if not (length rest + 2 == expected + 2)
    then err protocol
    else ok rest
payload _ expected = err protocol

abbrev pub push_value : ℕ → List Bool → Result Error (List Bool)
push_value bit values =
    if bit == 0
    then ok (values ++ false ∷ [])
    else if bit == 1
    then ok (values ++ true ∷ [])
    else err protocol

-- One half-byte of `bits`.
abbrev pub push_bit : ℕ → ℕ → List Bool → Result Error (List Bool)
push_bit count bit values =
    if length values == count
    then (if not (bit == 0) then err protocol else ok values)
    else push_value bit values

-- The loops of `bits`.
unfoldable pub bits_of : ℕ → List ℕ → List Bool → Result Error (List Bool)
bits_of count [] values = ok values
bits_of count (byte ∷ data_left) values = elim (push_bit count (byte / 16) values) [
  | err e ↦ err e
  | ok more ↦ elim (push_bit count (byte % 16) more) [
    | err e ↦ err e
    | ok most ↦ bits_of count data_left most
  ]
]

-- `bits`.
unfoldable pub bits : List ℕ → ℕ → Result Error (List Bool)
bits payload_bytes count =
    if not (length payload_bytes == half_up count)
    then err protocol
    else bits_of count payload_bytes []
