-- ===== src/Melsec/Client/Faults.antt =====
-- Failures of drivers/rx-melsec-mc/src/client.rs.
use rx_solutions.Base.{
  ℕ, ◌≡◌, refl, arith, Bool, true, false, Option, none, some, List, [], ◌∷◌, Result, ok, err,
  contains, Bool-cases, Result-cases, inl, inr,
}
use rx_solutions.Melsec.{Error, access_denied, faulted}
use rx_solutions.Melsec.Profile.{permits}
use rx_solutions.Melsec.Codec.{Request, read_m, read_d, write_m, is_write, bits}
use rx_solutions.Melsec.Client.{
  FailureStage, before_send, exchange_entered, Failure, Client, before, Exchange, fail, finish,
  enter, exchange, then_bits, then_words, acknowledged, read_bits, read_words, write_bit,
}

-- The calls of a client, with what the world does in each.
pub data Call : Type 0 where
  reads_bits reads_words : ℕ → ℕ → Exchange → Call
  writes_bit : ℕ → Bool → Exchange → Call

abbrev pub failure_of : {A : Type 0} → Result Failure A → Option Failure
failure_of (ok a) = none
failure_of (err f) = some f

unfoldable pub call : Call → Client → Option Failure × Client
call (reads_bits first count x) c =
    let (r, after) = read_bits first count x c in (failure_of r, after)
call (reads_words first count x) c =
    let (r, after) = read_words first count x c in (failure_of r, after)
call (writes_bit address value x) c =
    let (r, after) = write_bit address value x c in (failure_of r, after)

unfoldable pub run : List Call → Client → Client
run [] c = c
run (k ∷ ks) c = run ks (call k c).1

abbrev pub is_writing : Call → Bool
is_writing (writes_bit address value x) = true
is_writing _ = false

abbrev pub is_entered : FailureStage → Bool
is_entered before_send = false
is_entered exchange_entered = true

-- What the failure of a call says of the client before and after it.
pub record Tells (writing : Bool) (c after : Client) (f : Failure) : Type 0 where
  pub nothing_sent : is_entered f.stage ≡ false → after ≡ c
  pub entered_faults : is_entered f.stage ≡ true → after.is_faulted ≡ true
  pub unknown_write : is_entered f.stage ≡ true → f.write_outcome_unknown ≡ writing
  pub known_write : is_entered f.stage ≡ false → f.write_outcome_unknown ≡ false

before-Tells : (writing : Bool) (c : Client) (e : Error) → Tells writing c c (before e)
before-Tells writing c e = record {
  nothing_sent = λ h. refl;
  entered_faults = λ h. cc;
  unknown_write = λ h. cc;
  known_write = λ h. refl;
}

fail-Tells :
    (writing : Bool) (c after : Client) (e : Error)
    → after.is_faulted ≡ true
    → Tells writing c after (fail e writing)
fail-Tells writing c after e h = record {
  nothing_sent = λ k. cc;
  entered_faults = λ k. h;
  unknown_write = λ k. refl;
  known_write = λ k. cc;
}

-- The end of an exchange that has been entered.
finish-Tells :
    (r : Request) (c after : Client) (outcome : Result Error (List ℕ)) (f : Failure)
    → (finish after r outcome).0 ≡ err f
    → Tells (is_write r) c (finish after r outcome).1 f
finish-Tells r c after (ok answer) f h = cc
finish-Tells r c after (err e) f h =
    let same : fail e (is_write r) ≡ f = ground (arith, h) in
    rw (← same) (fail-Tells (is_write r) c (record after { is_faulted = true }) e refl)

enter-Tells :
    (r : Request) (x : Exchange) (c : Client) (f : Failure)
    → (enter r x c).0 ≡ err f
    → Tells (is_write r) c (enter r x c).1 f
unfolding enter
enter-Tells r x c f h = finish-Tells r c _ _ f h

pub exchange-faulted :
    (r : Request) (x : Exchange) (c : Client)
    → c.is_faulted ≡ true
    → exchange r x c ≡ (err (before faulted), c)
unfolding exchange
exchange-faulted r x c k = ground (arith, k)

pub exchange-enter :
    (r : Request) (x : Exchange) (c : Client) → c.is_faulted ≡ false → exchange r x c ≡ enter r x c
unfolding exchange
exchange-enter r x c k = ground (arith, k)

exchange-Tells :
    (r : Request) (x : Exchange) (c : Client) (f : Failure)
    → (exchange r x c).0 ≡ err f
    → Tells (is_write r) c (exchange r x c).1 f
exchange-Tells r x c f h = elim (Bool-cases c.is_faulted) [
  | inl k ↦
      let same : before faulted ≡ f = ground (arith, h, exchange-faulted r x c k) in
      rw (exchange-faulted r x c k) (rw (← same) (before-Tells (is_write r) c faulted))
  | inr k ↦
      rw (exchange-enter r x c k) (enter-Tells r x c f (ground (arith, h, exchange-enter r x c k)))
]

bits-Tells :
    (count : ℕ) (c : Client) (r : Result Failure (List ℕ) × Client) (f : Failure)
    → ((g : Failure) → r.0 ≡ err g → Tells false c r.1 g)
    → failure_of (then_bits count r).0 ≡ some f
    → Tells false c (then_bits count r).1 f
bits-Tells count c (err e, after) f t h = t f (ground (arith, h))
bits-Tells count c (ok answer, after) f t h = elim (Result-cases (bits answer count)) [
  | inl (values, e) ↦ absurd (ground (arith, h, e))
  | inr (e, k) ↦
      let same : fail e false ≡ f = ground (arith, h, k) in
      rw k (rw (← same) (fail-Tells false c (record after { is_faulted = true }) e refl))
]

words-Tells :
    (c : Client) (r : Result Failure (List ℕ) × Client) (f : Failure)
    → ((g : Failure) → r.0 ≡ err g → Tells false c r.1 g)
    → failure_of (then_words r).0 ≡ some f
    → Tells false c (then_words r).1 f
words-Tells c (err e, after) f t h = t f (ground (arith, h))
words-Tells c (ok answer, after) f t h = cc

acknowledged-Tells :
    (address : ℕ) (value : Bool) (c : Client) (r : Result Failure (List ℕ) × Client) (f : Failure)
    → ((g : Failure) → r.0 ≡ err g → Tells true c r.1 g)
    → failure_of (acknowledged address value r).0 ≡ some f
    → Tells true c (acknowledged address value r).1 f
acknowledged-Tells address value c (err e, after) f t h = t f (ground (arith, h))
acknowledged-Tells address value c (ok answer, after) f t h = cc

-- What a failed call says is so: before the exchange was entered nothing was sent and the client is as it
-- was; afterwards the client is faulted, and the outcome is unknown exactly when the call was to write.
pub call-Tells :
    (k : Call) (c : Client) (f : Failure)
    → (call k c).0 ≡ some f
    → Tells (is_writing k) c (call k c).1 f
unfolding call read_bits read_words write_bit
call-Tells (reads_bits first count x) c f h =
    elim (Bool-cases (permits c.config.access.read_m first count 64)) [
      | inr p ↦
          let same : before access_denied ≡ f = ground (arith, h, p) in
          rw p (rw (← same) (before-Tells false c access_denied))
      | inl p ↦ rw p (
          bits-Tells count c (exchange (read_m first count) x c) f
            (exchange-Tells (read_m first count) x c) (ground (arith, h, p)))
    ]
call-Tells (reads_words first count x) c f h =
    elim (Bool-cases (permits c.config.access.read_d first count 32)) [
      | inr p ↦
          let same : before access_denied ≡ f = ground (arith, h, p) in
          rw p (rw (← same) (before-Tells false c access_denied))
      | inl p ↦ rw p (
          words-Tells c (exchange (read_d first count) x c) f
            (exchange-Tells (read_d first count) x c) (ground (arith, h, p)))
    ]
call-Tells (writes_bit address value x) c f h =
    elim (Bool-cases (contains address c.config.access.write_m)) [
      | inr p ↦
          let same : before access_denied ≡ f = ground (arith, h, p) in
          rw p (rw (← same) (before-Tells true c access_denied))
      | inl p ↦ rw p (
          acknowledged-Tells address value c (exchange (write_m address value) x c) f
            (exchange-Tells (write_m address value) x c) (ground (arith, h, p)))
    ]

-- A faulted client stays as it is and sends nothing, whatever is called.
pub run-faulted : (ks : List Call) (c : Client) → c.is_faulted ≡ true → run ks c ≡ c
unfolding run call read_bits read_words write_bit exchange
run-faulted [] c h = refl
run-faulted (reads_bits first count x ∷ ks) c h = ground (arith, h, run-faulted ks c h)
run-faulted (reads_words first count x ∷ ks) c h = ground (arith, h, run-faulted ks c h)
run-faulted (writes_bit address value x ∷ ks) c h = ground (arith, h, run-faulted ks c h)
