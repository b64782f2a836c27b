-- ===== src/Melsec/Tests.antt =====
-- An MC 3E client of drivers/rx-melsec-mc/src at a simulated controller.
use rx_solutions.Base.{
  ℕ, ◌+◌, ◌≡◌, ◌≤◌, ◌↔◌, arith, refl, Bool, true, false, some, none, List, [], ◌∷◌, ◌++◌, ok, err,
  length, contains,
}
use rx_solutions.Melsec.{Error}
use rx_solutions.Melsec.Profile.{
  Configuration, simulation, AccessProfile, validate, valid_access, valid_ranges, permits, bytes,
}
use rx_solutions.Melsec.Codec.{
  read_m, encode, response_len, response_length, payload, bits, bits_of, points,
}
use rx_solutions.Melsec.Codec.Packing.{pack}
use rx_solutions.Melsec.Codec.Bits.{bits_iff}
use rx_solutions.Melsec.Codec.Frames.{parse}
use rx_solutions.Melsec.Client.{
  Client, connect, Exchange, takes, ReadEvent, arrives, read_interrupted, read_until, write_until,
  exchange, enter, receive, write_bit, fail,
}
use rx_solutions.Melsec.Client.Streams.{content, read_until-content}
use rx_solutions.Melsec.Client.Faults.{writes_bit, call, run, Tells, call-Tells}
use rx_solutions.Melsec.Client.Permitted.{AllAllowed, run-AllAllowed, covers}
use rx_solutions.Melsec.Client.Exact.{permitted-exact}

abbrev access : AccessProfile
access = record {
  m_last = 8191;
  d_last = 12287;
  read_m = record { first = 100; last = 199 } ∷ [];
  read_d = [];
  write_m = 300 ∷ [];
}

abbrev config : Configuration
config = record {
  environment = simulation;
  endpoint = record { ip = 2130706433; port = 5007 };
  route = record { network = 0; pc = 255; module_io = 1023; station = 0 };
  monitoring_timer = 16;
  connect_timeout_ms = 1000;
  exchange_timeout_ms = 1000;
  access = access;
}

abbrev client : Client
client = record { config = config; is_faulted = false; wire = [] }

-- The answer to a write, in two pieces, after the request was taken in two.
abbrev good : Exchange
good = record {
  time = 20;
  writes = takes 9 ∷ takes 30 ∷ [];
  reads =
      arrives (208 ∷ 0 ∷ 0 ∷ 255 ∷ [])
      ∷ read_interrupted
      ∷ arrives (255 ∷ 3 ∷ 0 ∷ 2 ∷ 0 ∷ 0 ∷ 0 ∷ [])
      ∷ [];
}

abbrev cut : Exchange
cut = record { time = 20; writes = takes 9 ∷ []; reads = [] }

abbrev broken : Client
broken = (call (writes_bit 300 true cut) client).1

connected : connect config true ≡ ok client
unfolding connect validate valid_access valid_ranges
connected = refl

config_valid : validate config ≡ ok tt
unfolding validate valid_access valid_ranges
config_valid = refl

write_acknowledged : (call (writes_bit 300 true good) client).0 ≡ none
unfolding call write_bit exchange enter write_until read_until receive response_length payload
    response_len encode bytes contains
write_acknowledged = refl

write_cut : (call (writes_bit 300 true cut) client).0 ≡ some (fail Error.io true)
unfolding call write_bit exchange enter write_until encode bytes contains
write_cut = refl

broken_faulted : broken.is_faulted ≡ true
unfolding call write_bit exchange enter write_until encode bytes contains
broken_faulted = refl

abbrev three : List Bool
three = true ∷ false ∷ true ∷ []

bits_iff_example :
    (bits (16 ∷ 16 ∷ []) 3 ≡ ok three) ↔ ((length three ≡ 3) × (pack three ≡ 16 ∷ 16 ∷ []))
bits_iff_example = bits_iff (16 ∷ 16 ∷ []) 3 three

padded_accepted : bits (16 ∷ 16 ∷ []) 3 ≡ ok three
unfolding bits bits_of
padded_accepted = refl

bad_padding : bits (16 ∷ 17 ∷ []) 3 ≡ err Error.protocol
unfolding bits bits_of
bad_padding = refl

run-AllAllowed_example :
    AllAllowed config (run (writes_bit 300 true good ∷ writes_bit 300 false cut ∷ []) client).wire
run-AllAllowed_example =
    run-AllAllowed config true client (writes_bit 300 true good ∷ writes_bit 300 false cut ∷ [])
      connected

call-Tells_example : Tells true client broken (fail Error.io true)
call-Tells_example = call-Tells (writes_bit 300 true cut) client (fail Error.io true) write_cut

permitted-exact_example :
    (parse (encode (read_m 150 8) config.route config.monitoring_timer) ≡ some (read_m 150 8))
    × (points (read_m 150 8) ≤ 64)
    × (covers config (read_m 150 8) (150 + 7) ≡ true)
unfolding permits
permitted-exact_example = permitted-exact config (read_m 150 8) 7 config_valid refl (omega arith)

abbrev pieces : List ReadEvent
pieces = arrives (1 ∷ []) ∷ read_interrupted ∷ arrives (2 ∷ 3 ∷ 4 ∷ []) ∷ []

abbrev front : List ℕ
front = 1 ∷ 2 ∷ 3 ∷ []

three_read : read_until 9 pieces 3 ≡ ok (front, 5, arrives (4 ∷ []) ∷ [])
unfolding read_until
three_read = refl

read_until-content_example :
    (length front ≡ 3) × (front ++ content (arrives (4 ∷ []) ∷ []) ≡ content pieces)
read_until-content_example =
    read_until-content 9 3 pieces (arrives (4 ∷ []) ∷ []) front 5 three_read
