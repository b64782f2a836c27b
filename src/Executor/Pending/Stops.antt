-- ===== src/Executor/Pending/Stops.antt =====
-- How the calls on the queue of runtime/rx-executor/src/pending.rs move its stop.
use rx_solutions.Base.{
  ℕ, ◌≡◌, refl, Bool, true, false, not, ◌&&◌, ◌||◌, some, List, [], ◌∷◌, arith, ltb, Result, ok,
  err, ◌==◌, any, length, Bool-cases, Option-cases, Result-cases, inl, inr,
}
use rx_solutions.Domain.Types.{Uuid}
use rx_solutions.Executor.Frame.{
  Identity, is_pause, kind_code, Request, Outcome, context_changed, attention, unsupported, paused,
  ExecutorError, expired, rpc,
}
use rx_solutions.Executor.Pending.{
  StopState, running, pause_pending, pause_observed, needs_attention, is_running, Pending,
  PendingRequests, same, find, remove, extend, request_pause, accept, is_flying, offer, next,
  is_transient, Reply, finished, failed, stopped, refused, retry, reply_to, conclude, complete,
}
use rx_solutions.Executor.Pending.Sound.{IsSound}
use rx_solutions.Executor.Pending.Completes.{pause-pausing}
use rx_solutions.Executor.Pending.Histories.{
  Call, accepts, pauses, offers, completes, call, call-IsSound,
}

-- The specification of the stop. A fatal answer of the worker is any error but an expired view and a
-- transient one of the transport, and the outcomes that say the context is lost.
abbrev pub is_fatal : Result ExecutorError Outcome → Bool
is_fatal (ok context_changed) = true
is_fatal (ok (attention _)) = true
is_fatal (ok (unsupported _)) = true
is_fatal (ok _) = false
is_fatal (err expired) = false
is_fatal (err (rpc code)) = not (is_transient code)
is_fatal (err _) = true

-- The answer that the run `own` is paused.
abbrev pub is_paused : Uuid → Result ExecutorError Outcome → Bool
is_paused own (ok (paused run revision)) = run == own
is_paused own _ = false

-- A request to pause, a suggested pause, or a fatal answer to other work.
abbrev pub asks : Call → Bool
asks (accepts rs now) = any (λ r. is_pause r.kind) rs
asks (pauses now) = true
asks (offers now) = false
asks (completes r result now) = not (is_pause r.kind) && is_fatal result

-- The worker's answers to the pause: that the run is paused, or a fatal one.
abbrev pub confirms : Uuid → Call → Bool
confirms own (completes r result now) = is_pause r.kind && is_paused own result
confirms own _ = false

abbrev pub gives_up : Call → Bool
gives_up (completes r result now) = is_pause r.kind && is_fatal result
gives_up _ = false

-- The queue takes a call when it does not answer with an error.
abbrev pub is_ok : {A : Type 0} → Result ExecutorError A → Bool
is_ok (ok a) = true
is_ok (err e) = false

abbrev pub takes : PendingRequests → Call → Bool
takes q (accepts rs now) = is_ok (accept rs now q).0
takes q (pauses now) = true
takes q (offers now) = true
takes q (completes r result now) = is_ok (complete r result now q).0

-- The calls that have to move the stop `s` when they are taken.
abbrev pub has_to_move : Uuid → Call → StopState → Bool
has_to_move own k s = asks k && is_running s || confirms own k || gives_up k

-- What one call does to the stop in the queue of the run `own`: three moves, each made by the calls that
-- have to make it and no other, while every other call, and one that is not taken, leaves it.
pub data Moves (own : Uuid) (k : Call) (taken : Bool) : StopState → StopState → Type 0 where
  stays : (s : StopState) → taken && has_to_move own k s ≡ false → Moves own k taken s s
  asked : taken && asks k ≡ true → Moves own k taken running pause_pending
  observed : taken && confirms own k ≡ true → Moves own k taken pause_pending pause_observed
  faulted : taken && gives_up k ≡ true → Moves own k taken pause_pending needs_attention

abbrev pub Moved : Call → PendingRequests → Type 0
Moved k q = Moves q.identity.run k (takes q k) q.stop (call k q).stop

-- Every call of a history makes one move from the state that the calls before it left.
unfoldable pub Follows : List Call → PendingRequests → Type 0
Follows [] q = Unit {0}
Follows (k ∷ ks) q = Moved k q × Follows ks (call k q)

request_pause-Moves :
    (own : Uuid) (k : Call) (now : ℕ) (q : PendingRequests)
    → asks k ≡ true
    → confirms own k || gives_up k ≡ false
    → Moves own k true q.stop (request_pause now q).stop
unfolding request_pause
request_pause-Moves own k now q a n = by q.stop
  where
    by : (s : StopState) → Moves own k true s (request_pause now (record q { stop = s })).stop
    by running = asked a
    by pause_pending = stays pause_pending (ground (arith, n))
    by pause_observed = stays pause_observed (ground (arith, n))
    by needs_attention = stays needs_attention (ground (arith, n))

abbrev is_stop : Reply → Bool
is_stop stopped = true
is_stop _ = false

abbrev is_failure : Reply → Bool
is_failure failed = true
is_failure _ = false

reply_to-is_stop :
    (identity : Identity) (r : Request) (delay : ℕ) (result : Result ExecutorError Outcome)
    → is_stop (reply_to identity r delay result)
      ≡ (is_pause r.kind && is_paused identity.run result)
unfolding reply_to kind_code
reply_to-is_stop identity r delay result = ground arith

reply_to-is_failure :
    (identity : Identity) (r : Request) (delay : ℕ) (result : Result ExecutorError Outcome)
    → is_failure (reply_to identity r delay result) ≡ is_fatal result
unfolding reply_to kind_code
reply_to-is_failure identity r delay result = ground arith

conclude-Moves :
    (r : Request) (result : Result ExecutorError Outcome) (q : PendingRequests) (p : Pending)
    (now : ℕ) (reply : Reply)
    → IsSound q
    → find r q.items ≡ some p
    → is_stop reply ≡ (is_pause r.kind && is_paused q.identity.run result)
    → is_failure reply ≡ is_fatal result
    → Moves q.identity.run
        (completes r result now)
        (is_ok (conclude r p now reply q).0)
        q.stop
        (conclude r p now reply q).1.stop
unfolding conclude
conclude-Moves r result q p now refused v f n m = stays q.stop refl
conclude-Moves r result q p now finished v f n m = stays q.stop (ground (arith, n, m))
conclude-Moves r result q p now (retry d) v f n m = stays q.stop (ground (arith, n, m))
conclude-Moves r result q p now stopped v f n m =
    let (s, lone) = pause-pausing r q p v f (ground (arith, n)) in
    rw s (observed (ground (arith, n)))
conclude-Moves r result q p now failed v f n m = elim (Bool-cases (is_pause r.kind)) [
  | inl k ↦
      let (s, lone) = pause-pausing r q p v f k in
      let given : gives_up (completes r result now) ≡ true = ground (arith, k, m) in
      rw k (rw s (faulted given))
  | inr k ↦
      let given : asks (completes r result now) ≡ true = ground (arith, k, m) in
      rw k (
        request_pause-Moves q.identity.run (completes r result now) now
          (record q { items = remove r q.items }) given (ground (arith, k)))
]

complete-Moves :
    (r : Request) (result : Result ExecutorError Outcome) (now : ℕ) (q : PendingRequests)
    → IsSound q
    → Moves q.identity.run
        (completes r result now)
        (is_ok (complete r result now q).0)
        q.stop
        (complete r result now q).1.stop
unfolding complete
complete-Moves r result now q v = elim (Option-cases (find r q.items)) [
  | inl e ↦ elim (Bool-cases (not (is_running q.stop) && not (is_pause r.kind))) [
    | inl o ↦ rw (e, complete) (rw o (stays q.stop (ground (arith, o))))
    | inr o ↦ rw (e, complete) (rw o (stays q.stop refl))
  ]
  | inr (p, e) ↦ elim (Bool-cases (not (same p.request r) || not p.in_flight)) [
    | inl o ↦ rw (e, complete) (rw o (stays q.stop refl))
    | inr o ↦
        rw (e, complete)
          (rw o (
            conclude-Moves r result q p now _ v e (reply_to-is_stop q.identity r p.delay result)
              (reply_to-is_failure q.identity r p.delay result)))
  ]
]

accept-Moves :
    (rs : List Request) (now : ℕ) (q : PendingRequests)
    → Moves q.identity.run
        (accepts rs now)
        (is_ok (accept rs now q).0)
        q.stop
        (accept rs now q).1.stop
unfolding accept
accept-Moves rs now q = elim (Bool-cases (ltb 32 (length rs))) [
  | inl e ↦ rw (e, accept) (stays q.stop refl)
  | inr e ↦ elim (Result-cases (extend q.identity q.root now rs q.items)) [
    | inr (x, f) ↦ rw (e, accept) (rw f (stays q.stop refl))
    | inl (candidate, f) ↦ elim (Bool-cases (any (λ r. is_pause r.kind) rs)) [
      | inl p ↦
          rw (e, accept)
            (rw f (rw p (request_pause-Moves q.identity.run (accepts rs now) now q p refl)))
      | inr p ↦ elim (Bool-cases (is_running q.stop)) [
        | inr s ↦ rw (e, accept) (rw f (rw p (rw s (stays q.stop (ground (arith, p))))))
        | inl s ↦ elim (Bool-cases (ltb 32 (length candidate))) [
          | inl l ↦ rw (e, accept) (rw f (rw p (rw s (rw l (stays q.stop refl)))))
          | inr l ↦ rw (e, accept) (rw f (rw p (rw s (rw l (stays q.stop (ground (arith, p)))))))
        ]
      ]
    ]
  ]
]

next-Moves :
    (now : ℕ) (q : PendingRequests)
    → Moves q.identity.run (offers now) true q.stop (next now q).1.stop
unfolding next
next-Moves now q = elim (Option-cases (offer now (any is_flying q.items) q.items)) [
  | inl e ↦ rw (e, next) (stays q.stop refl)
  | inr ((r, qs), e) ↦ rw (e, next) (stays q.stop refl)
]

call-Moves : (k : Call) (q : PendingRequests) → IsSound q → Moved k q
unfolding call
call-Moves (accepts rs now) q v = accept-Moves rs now q
call-Moves (pauses now) q v = request_pause-Moves q.identity.run (pauses now) now q refl refl
call-Moves (offers now) q v = next-Moves now q
call-Moves (completes r result now) q v = complete-Moves r result now q v

-- Each call of any history on a sound queue makes exactly the move of the stop that is due, where a call
-- is taken when it does not answer with an error. From running the stop goes to the wait for a pause when
-- a taken call requests or suggests a pause or reports a fatal answer to other work; from there to the
-- observed pause when a taken call reports, for the pause, that this run is paused, and to attention when
-- it reports a fatal answer to the pause. By every other call the stop is left as it is.
pub run-Follows : (ks : List Call) (q : PendingRequests) → IsSound q → Follows ks q
unfolding Follows
run-Follows [] q v = tt
run-Follows (k ∷ ks) q v = (call-Moves k q v, run-Follows ks (call k q) (call-IsSound k q v))
