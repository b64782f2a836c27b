-- ===== src/Melsec/Client.antt =====
-- drivers/rx-melsec-mc/src/client.rs: one connection. `wire` holds what the stream took of each request.
-- What the stream does is a list of events, and the deadline a number of readings of the clock that
-- still find time left.
pub mod Streams
pub mod Permitted
pub mod Exact
pub mod Faults
use rx_solutions.Base.{
  ℕ, zero, suc, ◌+◌, ◌-◌, ◌*◌, min, Bool, true, false, not, ◌&&◌, ◌||◌, Option, none, some, List,
  [], ◌∷◌, ◌++◌, ltb, leb, ◌==◌, if◌then◌else◌, Result, ok, err, Action, is_empty, length, contains,
}
use rx_solutions.Melsec.{Error, access_denied, faulted, io}
use rx_solutions.Melsec.Profile.{Configuration, validate, permits}
use rx_solutions.Melsec.Codec.{
  Request, read_m, read_d, write_m, is_write, encode, response_len, response_length, payload, bits,
}

pub data FailureStage : Type 0 where
  before_send exchange_entered : FailureStage

pub record Failure : Type 0 where
  pub stage : FailureStage
  pub write_outcome_unknown : Bool
  pub cause : Error

pub record WriteAcknowledgement : Type 0 where
  pub address : ℕ
  pub requested_value : Bool

pub record Client : Type 0 where
  pub config : Configuration
  pub is_faulted : Bool
  pub wire : List (List ℕ)

-- `Failure::before`.
abbrev pub before : Error → Failure
before cause = record { stage = before_send; write_outcome_unknown = false; cause = cause }

-- `Client::connect`; `opens` says whether the connection could be made.
unfoldable pub connect : Configuration → Bool → Result Failure Client
connect config opens = elim (validate config) [
  | err e ↦ err (before e)
  | ok u ↦
      if opens
      then ok (record { config = config; is_faulted = false; wire = [] })
      else err (before io)
]

abbrev pub take : ℕ → List ℕ → List ℕ
take zero xs = []
take (suc n) [] = []
take (suc n) (x ∷ xs) = x ∷ take n xs

abbrev pub drop : ℕ → List ℕ → List ℕ
drop zero xs = xs
drop (suc n) [] = []
drop (suc n) (x ∷ xs) = drop n xs

-- What a call of `write` does: it takes some bytes, is interrupted, or fails.
pub data WriteEvent : Type 0 where
  takes : ℕ → WriteEvent
  write_interrupted write_fails : WriteEvent

-- `write_until`: its result with the readings that are left, and the bytes that the stream took.
unfoldable pub write_until : ℕ → List WriteEvent → List ℕ → Result Error ℕ × List ℕ
write_until zero events buffer = (err io, [])
write_until (suc time) events [] = (ok time, [])
write_until (suc time) [] (b ∷ buffer) = (err io, [])
write_until (suc time) (write_fails ∷ events) (b ∷ buffer) = (err io, [])
write_until (suc time) (write_interrupted ∷ events) (b ∷ buffer) =
    write_until time events (b ∷ buffer)
write_until (suc time) (takes zero ∷ events) (b ∷ buffer) = (err io, [])
write_until (suc time) (takes (suc n) ∷ events) (b ∷ buffer) =
    let (r, sent) = write_until time events (drop n buffer) in (r, (b ∷ take n buffer) ++ sent)

-- What a call of `read` finds: bytes that have arrived, an interruption or a failure.
pub data ReadEvent : Type 0 where
  arrives : List ℕ → ReadEvent
  read_interrupted read_fails : ReadEvent

abbrev pub put_back : List ℕ → List ReadEvent → List ReadEvent
put_back [] events = events
put_back (b ∷ bs) events = arrives (b ∷ bs) ∷ events

abbrev pub Reading : Type 0
Reading = Result Error (List ℕ × ℕ × List ReadEvent)

abbrev pub reading : List ℕ → Reading → Reading
reading bs (err e) = err e
reading bs (ok (more, time, events)) = ok (bs ++ more, time, events)

-- `read_until` for a buffer of so many bytes: the bytes, the readings left and the events left.
unfoldable pub read_until : ℕ → List ReadEvent → ℕ → Reading
read_until zero events size = err io
read_until (suc time) events zero = ok ([], time, events)
read_until (suc time) [] (suc size) = err io
read_until (suc time) (read_fails ∷ events) (suc size) = err io
read_until (suc time) (read_interrupted ∷ events) (suc size) = read_until time events (suc size)
read_until (suc time) (arrives [] ∷ events) (suc size) = err io
read_until (suc time) (arrives (b ∷ bs) ∷ events) (suc size) =
    reading (b ∷ take size bs) (read_until time (put_back (drop size bs) events) (size - length bs))

-- What the world does in one exchange.
pub record Exchange : Type 0 where
  pub time : ℕ
  pub writes : List WriteEvent
  pub reads : List ReadEvent

-- The closure of `exchange` after the request is written.
unfoldable pub receive : Client → Request → ℕ → List ReadEvent → Result Error (List ℕ)
receive c r time events = elim (read_until time events 9) [
  | err e ↦ err e
  | ok (header, left, more) ↦ elim (response_length header c.config.route) [
    | err e ↦ err e
    | ok size ↦ elim (read_until left more size) [
      | err e ↦ err e
      | ok (body, rest, later) ↦ payload body (response_len r)
    ]
  ]
]

-- `fail`.
abbrev pub fail : Error → Bool → Failure
fail cause writing = record {
  stage = exchange_entered;
  write_outcome_unknown = writing;
  cause = cause;
}

abbrev pub finish : Client → Request → Result Error (List ℕ) → Result Failure (List ℕ) × Client
finish c r (ok answer) = (ok answer, c)
finish c r (err e) = (err (fail e (is_write r)), record c { is_faulted = true })

abbrev pub sent : Client → List ℕ → Client
sent c taken = record c { wire = taken ∷ c.wire }

abbrev pub answered : Client → Request → Exchange → Result Error ℕ → Result Error (List ℕ)
answered c r x (err e) = err e
answered c r x (ok time) = receive c r time x.reads

-- `exchange` from the deadline on.
unfoldable pub enter : Request → Exchange → Action Client Failure (List ℕ)
enter r x c =
    let (written, taken) =
      write_until x.time x.writes (encode r c.config.route c.config.monitoring_timer) in
    finish (sent c taken) r (answered c r x written)

-- `exchange`.
unfoldable pub exchange : Request → Exchange → Action Client Failure (List ℕ)
exchange r x c = if c.is_faulted then (err (before faulted), c) else enter r x c

abbrev pub bits_or_fault : Result Error (List Bool) → Client → Result Failure (List Bool) × Client
bits_or_fault (ok values) c = (ok values, c)
bits_or_fault (err e) c = (err (fail e false), record c { is_faulted = true })

abbrev pub then_bits : ℕ → Result Failure (List ℕ) × Client → Result Failure (List Bool) × Client
then_bits count (err e, after) = (err e, after)
then_bits count (ok answer, after) = bits_or_fault (bits answer count) after

-- `Client::read_m`.
unfoldable pub read_bits : ℕ → ℕ → Exchange → Action Client Failure (List Bool)
read_bits first count x c =
    if not (permits c.config.access.read_m first count 64)
    then (err (before access_denied), c)
    else then_bits count (exchange (read_m first count) x c)

-- `as_chunks::<2>` with `u16::from_le_bytes`; an odd last byte is left out.
unfoldable pub words : List ℕ → List ℕ
words (low ∷ high ∷ rest) = (low + 256 * high) ∷ words rest
words _ = []

abbrev pub then_words : Result Failure (List ℕ) × Client → Result Failure (List ℕ) × Client
then_words (err e, after) = (err e, after)
then_words (ok answer, after) = (ok (words answer), after)

-- `Client::read_d`.
unfoldable pub read_words : ℕ → ℕ → Exchange → Action Client Failure (List ℕ)
read_words first count x c =
    if not (permits c.config.access.read_d first count 32)
    then (err (before access_denied), c)
    else then_words (exchange (read_d first count) x c)

abbrev pub acknowledged :
    ℕ → Bool → Result Failure (List ℕ) × Client → Result Failure WriteAcknowledgement × Client
acknowledged address value (err e, after) = (err e, after)
acknowledged address value (ok answer, after) =
    (ok (record { address = address; requested_value = value }), after)

-- `Client::write_m`.
unfoldable pub write_bit : ℕ → Bool → Exchange → Action Client Failure WriteAcknowledgement
write_bit address value x c =
    if not (contains address c.config.access.write_m)
    then (err (before access_denied), c)
    else acknowledged address value (exchange (write_m address value) x c)
