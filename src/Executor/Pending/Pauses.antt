-- ===== src/Executor/Pending/Pauses.antt =====
-- Pauses and the other work in the queue of runtime/rx-executor/src/pending.rs.
use rx_solutions.Base.{
  ℕ, ◌+◌, ◌*◌, min, max, ◌≤◌, ◌≡◌, refl, ap, Bool, true, false, not, ◌&&◌, ◌||◌, some, List, [],
  ◌∷◌, ◌++◌, arith, ltb, Result, err, any, length, Bool-cases, Option-cases, Result-cases, inl, inr,
}
use rx_solutions.Executor.Frame.{
  Identity, is_pause, kind_code, Request, Outcome, ExecutorError, rpc, Code,
}
use rx_solutions.Executor.Pending.{
  running, pause_pending, is_running, Pending, PendingRequests, same, find, remove, extend,
  pause_request, request_pause, accept, is_transient, ms, offer, next, reply_to, retry, conclude,
  complete, waiting,
}
use rx_solutions.Executor.Pending.Sound.{IsSound, request_pause-IsSound, new_pause, kept_pause}
use rx_solutions.Executor.Pending.Completes.{pause-pausing, normal-running}
use rx_solutions.Executor.Pending.Items.{find-remove}
use rx_solutions.Executor.Pending.Histories.{Call, accepts, pauses, offers, completes, call, run}

-- Every call but those that take up the pause or answer it.
abbrev pub is_bystander : Call → Bool
is_bystander (accepts rs now) = true
is_bystander (pauses now) = true
is_bystander (offers now) = false
is_bystander (completes r result now) = not (is_pause r.kind)

abbrev pub all_bystanders : List Call → Bool
all_bystanders [] = true
all_bystanders (k ∷ ks) = is_bystander k && all_bystanders ks

accept_pausing :
    (rs : List Request) (now : ℕ) (q : PendingRequests)
    → IsSound q
    → q.stop ≡ pause_pending
    → (accept rs now q).1 ≡ q
unfolding accept
accept_pausing rs now q v s = elim (Bool-cases (ltb 32 (length rs))) [
  | inl e ↦ rw (e, accept) refl
  | inr e ↦ elim (Result-cases (extend q.identity q.root now rs q.items)) [
    | inr (x, f) ↦ rw (e, accept) (rw f refl)
    | inl (candidate, f) ↦ elim (Bool-cases (any (λ r. is_pause r.kind) rs)) [
      | inl p ↦ rw (e, accept) (rw f (rw p (kept_pause q now s (v.only_pause s))))
      | inr p ↦
          let halted : is_running q.stop ≡ false = ground (arith, s) in
          rw (e, accept) (rw f (rw p (rw halted refl)))
    ]
  ]
]

complete_normal_pausing :
    (r : Request) (result : Result ExecutorError Outcome) (now : ℕ) (q : PendingRequests)
    → IsSound q
    → q.stop ≡ pause_pending
    → is_pause r.kind ≡ false
    → (complete r result now q).1 ≡ q
unfolding complete
complete_normal_pausing r result now q v s n = elim (Option-cases (find r q.items)) [
  | inl e ↦ rw (e, complete) refl
  | inr (p, e) ↦ absurd (ground (arith, s, normal-running r q p v e n))
]

bystander-same :
    (k : Call) (q : PendingRequests)
    → IsSound q
    → q.stop ≡ pause_pending
    → is_bystander k ≡ true
    → call k q ≡ q
unfolding call
bystander-same (accepts rs now) q v s b = accept_pausing rs now q v s
bystander-same (pauses now) q v s b = kept_pause q now s (v.only_pause s)
bystander-same (offers now) q v s b = cc
bystander-same (completes r result now) q v s b =
    complete_normal_pausing r result now q v s (ground (arith, b))

bystanders-same :
    (ks : List Call) (q : PendingRequests)
    → IsSound q
    → q.stop ≡ pause_pending
    → all_bystanders ks ≡ true
    → run ks q ≡ q
unfolding run
bystanders-same [] q v s b = refl
bystanders-same (k ∷ ks) q v s b =
    rw (bystander-same k q v s (ground (arith, b))) (bystanders-same ks q v s (ground (arith, b)))

-- The item of a pause is offered when it is due.
lone-next :
    (q : PendingRequests) (p : Pending) (now : ℕ)
    → q.items ≡ p ∷ []
    → is_pause p.request.kind ≡ true
    → p.in_flight ≡ false
    → p.due ≤ now
    → (next now q).0 ≡ some p.request
unfolding next offer
lone-next q p now e n l d = ground (arith, e, n, l)

-- When a running queue, full or with work in flight, is asked to pause, the pause is offered at any
-- later time, whatever was accepted and whatever normal work was completed in between.
pub pause_offered :
    (ks : List Call) (now later : ℕ) (q : PendingRequests)
    → IsSound q
    → q.stop ≡ running
    → all_bystanders ks ≡ true
    → now ≤ later
    → (next later (run ks (request_pause now q))).0 ≡ some (pause_request q)
unfolding kind_code
pause_offered ks now later q v s b d =
    let paused = new_pause q now (v.no_pause (ground (arith, s))) (ground (arith, s)) in
    let still =
      bystanders-same ks (request_pause now q) (request_pause-IsSound now q v)
        (ap (λ (x : PendingRequests). x.stop) paused) b in
    rw still (
      rw paused (
        lone-next (record q { stop = pause_pending; items = waiting (pause_request q) now ∷ [] })
          (waiting (pause_request q) now) later refl refl refl d))

-- A pause that is queued again is offered when its delay is over.
retried-next :
    (r : Request) (q : PendingRequests) (p : Pending) (delay now later : ℕ)
    → IsSound q
    → find r q.items ≡ some p
    → is_pause r.kind ≡ true
    → is_pause p.request.kind ≡ true
    → now + delay ≤ later
    → (next later (conclude r p now (retry delay) q).1).0 ≡ some p.request
unfolding conclude remove
retried-next r q p delay now later v f n m d =
    let (s, lone) = pause-pausing r q p v f n in
    let (flying, len, named) = find-remove r q.items p f in
    let p' = record p { due = now + delay; delay = delay; in_flight = false } in
    let left : remove r q.items ++ p' ∷ [] ≡ p' ∷ [] = rw lone (rw named refl) in
    lone-next (record q { items = remove r q.items ++ p' ∷ [] }) p' later left m refl d

transient-retry :
    (identity : Identity) (r : Request) (delay : ℕ) (code : Code)
    → is_transient code ≡ true
    → reply_to identity r delay (err (rpc code)) ≡ retry (min (max (delay * 2) (ms 100)) (ms 5000))
unfolding reply_to
transient-retry identity r delay code t = rw t refl

-- When the worker could not reach the platform with a pause that was in flight, the pause is offered
-- again at any time from five seconds on.
pub pause_retried :
    (code : Code) (r : Request) (p : Pending) (now later : ℕ) (q : PendingRequests)
    → IsSound q
    → is_pause r.kind ≡ true
    → find r q.items ≡ some p
    → same p.request r ≡ true
    → p.in_flight ≡ true
    → is_transient code ≡ true
    → now + ms 5000 ≤ later
    → (next later (complete r (err (rpc code)) now q).1).0 ≡ some p.request
unfolding complete
pause_retried code r p now later q v n f o l t d =
    let checked : not (same p.request r) || not p.in_flight ≡ false = rw o (rw l refl) in
    let least : min (max (p.delay * 2) (ms 100)) (ms 5000) ≤ ms 5000 = omega arith in
    rw (f, complete)
      (rw checked (
        rw (transient-retry q.identity r p.delay code t)
          (retried-next r q p _ now later v f n (ground (arith, n, o)) (omega (arith, d, least)))))
