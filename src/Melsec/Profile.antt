-- ===== src/Melsec/Profile.antt =====
-- drivers/rx-melsec-mc/src/profile.rs: routes, access profiles and configurations.
use rx_solutions.Base.{
  ℕ, ◌+◌, ◌-◌, ◌/◌, ◌%◌, Bool, true, false, not, ◌&&◌, ◌||◌, Option, none, some, List, [], ◌∷◌, ltb,
  leb, ◌==◌, if◌then◌else◌, Result, ok, err, any, length,
}
use rx_solutions.Melsec.{Error, configuration}

pub record Route : Type 0 where
  pub network : ℕ
  pub pc : ℕ
  pub module_io : ℕ
  pub station : ℕ

-- `u16::to_le_bytes`.
abbrev pub word_bytes : ℕ → List ℕ
word_bytes n = n % 256 ∷ n / 256 % 256 ∷ []

-- `Route::bytes`.
unfoldable pub bytes : Route → List ℕ
bytes r = r.network ∷ r.pc ∷ r.module_io % 256 ∷ r.module_io / 256 % 256 ∷ r.station ∷ []

pub data Environment : Type 0 where
  simulation physical : Environment

pub record AddressRange : Type 0 where
  pub first : ℕ
  pub last : ℕ

pub record AccessProfile : Type 0 where
  pub m_last : ℕ
  pub d_last : ℕ
  pub read_m : List AddressRange
  pub read_d : List AddressRange
  pub write_m : List ℕ

abbrev is_above : Option ℕ → ℕ → Bool
is_above none n = true
is_above (some last) n = ltb last n

-- `AddressRange::validate`, as the test that it makes.
abbrev pub valid_range : ℕ → AddressRange → Bool
valid_range limit r = not (ltb r.last r.first || ltb limit r.last)

-- The loop of `validate` over the ranges of one kind.
unfoldable pub valid_ranges : ℕ → Option ℕ → List AddressRange → Bool
valid_ranges limit previous [] = true
valid_ranges limit previous (r ∷ rs) =
    valid_range limit r && is_above previous r.first && valid_ranges limit (some r.last) rs

-- `AccessProfile::validate`, as the test that it makes.
unfoldable pub valid_access : AccessProfile → Bool
valid_access a =
    not (ltb 16777215 a.m_last || ltb 16777215 a.d_last)
    && leb (length a.read_m) 64
    && valid_ranges a.m_last none a.read_m
    && leb (length a.read_d) 64
    && valid_ranges a.d_last none a.read_d
    && not (ltb 64 (length a.write_m) || any (λ n. ltb a.m_last n) a.write_m)

abbrev pub within : ℕ → ℕ → AddressRange → Bool
within first last r = leb r.first first && leb last r.last

-- `AccessProfile::permits`; the addition is checked in `u32`.
unfoldable pub permits : List AddressRange → ℕ → ℕ → ℕ → Bool
permits ranges first count most =
    if count == 0 || ltb most count
    then false
    else if ltb 4294967295 (first + (count - 1))
    then false
    else any (within first (first + (count - 1))) ranges

-- An address is its 32 bits; the tests are those of `Ipv4Addr`.
pub record Endpoint : Type 0 where
  pub ip : ℕ
  pub port : ℕ

abbrev pub is_multicast : ℕ → Bool
is_multicast ip = leb 224 (ip / 16777216) && leb (ip / 16777216) 239

abbrev pub is_loopback : ℕ → Bool
is_loopback ip = ip / 16777216 == 127

pub record Configuration : Type 0 where
  pub environment : Environment
  pub endpoint : Endpoint
  pub route : Route
  pub monitoring_timer : ℕ
  pub connect_timeout_ms : ℕ
  pub exchange_timeout_ms : ℕ
  pub access : AccessProfile

abbrev is_simulation : Environment → Bool
is_simulation simulation = true
is_simulation physical = false

abbrev between : ℕ → ℕ → ℕ → Bool
between low high n = leb low n && leb n high

-- `Configuration::validate`.
unfoldable pub validate : Configuration → Result Error (Unit {0})
validate c =
    if c.endpoint.ip == 0
      || is_multicast c.endpoint.ip
      || c.endpoint.ip == 4294967295
      || c.endpoint.port == 0
    then err configuration
    else if is_simulation c.environment && not (is_loopback c.endpoint.ip)
    then err configuration
    else if not (between 1 5000 c.connect_timeout_ms)
        || not (between 1 5000 c.exchange_timeout_ms)
        || not (between 1 20 c.monitoring_timer)
    then err configuration
    else if valid_access c.access
    then ok tt
    else err configuration
