-- ===== src/Domain/Types.antt =====
-- sdk/crates/rx-domain/src/types.rs and src/lib.rs: identifiers, counters, time points, errors.
-- A `Uuid` (the source's `Id`) is a canonical lower-case UUID text, a `Digest` 32 bytes and a `Name` a text of at most
-- 128 characters. The code only copies, compares and sorts them, so each stands here for its
-- position in that order, a number. The messages of errors are left out.
use rx_solutions.Base.{
  ℕ, Bool, List, ◌+◌, ◌-◌, Option, none, some, leb, ◌==◌, if◌then◌else◌, Result, ok, err,
}

abbrev pub Uuid : Type 0
Uuid = ℕ

abbrev pub Digest : Type 0
Digest = ℕ

abbrev pub Name : Type 0
Name = ℕ

-- `u64`.
abbrev pub Counter : Type 0
Counter = ℕ

abbrev pub u64_max : ℕ
u64_max = 18446744073709551615

pub data DomainError : Type 0 where
  invalid_input invalid_transition conflict : DomainError

-- `u64::checked_add` and `u64::checked_sub`.
abbrev pub checked_add : ℕ → ℕ → Option ℕ
checked_add a b = if leb (a + b) u64_max then some (a + b) else none

abbrev pub checked_sub : ℕ → ℕ → Option ℕ
checked_sub a b = if leb b a then some (a - b) else none

abbrev pub ok_or : {E A : Type 0} → Option A → E → Result E A
ok_or none e = err e
ok_or (some a) e = ok a

-- `Counter::nonzero`.
unfoldable pub nonzero : Counter → Result DomainError Counter
nonzero c = if c == 0 then err DomainError.invalid_input else ok c

-- `Counter::increment`.
unfoldable pub increment : Counter → Result DomainError Counter
increment c = ok_or (checked_add c 1) DomainError.invalid_transition

-- A reading of a clock that the text `clock_id` names; 0 is the empty text.
pub record TimePoint : Type 0 where
  pub clock_id : Name
  pub ticks_ns : Counter

-- `TimePoint::age_ns`.
unfoldable pub age_ns : TimePoint → TimePoint → Option ℕ
age_ns now older =
    if now.clock_id == 0
    then none
    else if now.clock_id == older.clock_id
    then checked_sub now.ticks_ns older.ticks_ns
    else none

pub record ArtifactRef : Type 0 where
  pub sha256 : Digest
  pub schema_id : Name
  pub size_bytes : Counter

-- An `i64`, and a finite `f64` (whose zero `Real::new` writes in one way), each stand for its
-- position in the order of its type, which is all that this code uses of them.
pub data TypedValue : Type 0 where
  boolean : Bool → TypedValue
  integer : ℕ → TypedValue
  real : ℕ → TypedValue
  symbol : Name → TypedValue
  reals : List ℕ → TypedValue
