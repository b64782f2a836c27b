-- ===== src/Executor/Pending/Tests.antt =====
-- Runs of the queue of runtime/rx-executor/src/pending.rs, and the laws at them.
use rx_solutions.Base.{
  ◌+◌, ◌≡◌, arith, refl, true, none, some, List, [], ◌∷◌, Result, ok, err, length,
}
use rx_solutions.Executor.Frame.{
  Identity, kind_code, submit_operation, begin_wait, Request, Outcome, admitted, paused,
  ExecutorError, rpc, unavailable,
}
use rx_solutions.Executor.Pending.{
  pause_observed, Pending, PendingRequests, new, find, remove, extend, pause_request, request_pause,
  accept, offer, next, reply_to, conclude, complete, ms,
}
use rx_solutions.Executor.Pending.Sound.{IsSound}
use rx_solutions.Executor.Pending.Histories.{
  Call, accepts, pauses, offers, completes, call, run, run-IsSound,
}
use rx_solutions.Executor.Pending.Stops.{Follows, run-Follows}
use rx_solutions.Executor.Pending.Pauses.{pause_offered, pause_retried}

abbrev context : Identity
context = record { run = 1; executor_session = 2; resolved_digest = 3; visit = 1; epoch = 1 }

abbrev submit : Request
submit = record {
  identity = context;
  node = 11;
  kind = submit_operation;
  argument = 5;
  timeout_ns = 1000;
}

abbrev wait : Request
wait = record { identity = context; node = 12; kind = begin_wait; argument = 5; timeout_ns = 1000 }

-- Two requests of which the first is in flight.
abbrev start : List Call
start = accepts (submit ∷ wait ∷ []) 0 ∷ offers 0 ∷ []

abbrev busy : PendingRequests
busy = run start (new context 10)

abbrev offline : Result ExecutorError Outcome
offline = err (rpc unavailable)

abbrev asked : List Call
asked = accepts (submit ∷ wait ∷ []) 0 ∷ offers 0 ∷ pauses 7 ∷ offers 7 ∷ []

abbrev pausing : PendingRequests
pausing = run asked (new context 10)

abbrev flying : Pending
flying = record { request = pause_request busy; due = 7; delay = 0; in_flight = true }

abbrev between : List Call
between = completes submit offline 8 ∷ accepts (submit ∷ []) 9 ∷ pauses 10 ∷ []

busy_items : length busy.items ≡ 2
unfolding run call new accept extend find offer next kind_code
busy_items = refl

second_waits : (next 9 busy).0 ≡ none
unfolding run call new accept extend find offer next kind_code
second_waits = refl

finished_first : (next 9 (complete submit (ok (admitted 4)) 8 busy).1).0 ≡ some wait
unfolding run call new accept extend find remove offer next kind_code complete conclude reply_to
finished_first = refl

run-IsSound_example : IsSound busy
run-IsSound_example = run-IsSound start context 10

busy-IsSound : IsSound busy
busy-IsSound = run-IsSound start context 10

-- The pause is asked for, tried without an answer, tried again and confirmed.
abbrev to_pause : List Call
to_pause =
    pauses 7
    ∷ offers 7
    ∷ completes flying.request offline 9
    ∷ offers (ms 10000)
    ∷ completes flying.request (ok (paused 1 3)) (ms 10001)
    ∷ []

paused_at_last : (run to_pause busy).stop ≡ pause_observed
unfolding run call new accept extend find remove offer next kind_code request_pause complete
    conclude reply_to
paused_at_last = refl

run-Follows_example : Follows to_pause busy
run-Follows_example = run-Follows to_pause busy busy-IsSound

pausing-IsSound : IsSound pausing
pausing-IsSound = run-IsSound asked context 10

pause_offered_example : (next 20 (run between (request_pause 7 busy))).0 ≡ some (pause_request busy)
unfolding run call new accept extend find offer next kind_code
pause_offered_example = pause_offered between 7 20 busy busy-IsSound refl refl (omega arith)

pause_retried_example :
    (next (9 + ms 5000) (complete flying.request offline 9 pausing).1).0 ≡ some flying.request
unfolding run call new accept extend find offer next kind_code request_pause
pause_retried_example =
    pause_retried unavailable flying.request flying 9 (9 + ms 5000) pausing pausing-IsSound refl
      refl refl refl refl (omega arith)
