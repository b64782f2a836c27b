-- ===== src/Executor/Pending/Completes.antt =====
-- `complete` of runtime/rx-executor/src/pending.rs and what holds of the queue.
use rx_solutions.Base.{
  ℕ, ◌≢◌, ◌+◌, ◌≡◌, refl, true, false, not, ◌||◌, some, List, [], ◌∷◌, ◌++◌, arith, Result,
  length-append, Bool-cases, Option-cases, inl, inr,
}
use rx_solutions.Executor.Frame.{Identity, is_pause, kind_code, Request, Outcome, ExecutorError}
use rx_solutions.Executor.Pending.{
  StopState, running, pause_pending, pause_observed, needs_attention, is_stopped, Pending,
  PendingRequests, same, find, remove, Reply, finished, failed, stopped, refused, retry, reply_to,
  conclude, complete,
}
use rx_solutions.Executor.Pending.Items.{
  is_of, asks_pause, is_keyed-append, flights-append, any-append, all-append, is_keyed-remove,
  any-remove, all-remove, find-remove, find-all, find-not_any, has_key-remove_self, has_key-same,
}
use rx_solutions.Executor.Pending.Sound.{
  is_lone_pause, IsSound, going-cases, request_pause-IsSound, pausing-IsSound,
}

-- Normal work is found in a running queue only, and a pause in a queue that waits for it.
pub normal-running :
    (r : Request) (q : PendingRequests) (p : Pending)
    → IsSound q
    → find r q.items ≡ some p
    → is_pause r.kind ≡ false
    → q.stop ≡ running
unfolding find
normal-running r q p v f n = elim (Bool-cases (is_stopped q.stop)) [
  | inl s ↦ absurd (ground (arith, f, v.nothing_left s))
  | inr s ↦ elim (going-cases q.stop s) [
    | inl k ↦ k
    | inr k ↦ absurd (lone q.items (v.only_pause k) f)
  ]
]
  where
    lone : (ps : List Pending) → is_lone_pause q.root ps ≡ true → find r ps ≡ some p → ⊥
    lone [] l f = cc
    lone (x ∷ []) l f = ground (arith, l, f, n)
    lone (x ∷ y ∷ ys) l f = cc

pub pause-pausing :
    (r : Request) (q : PendingRequests) (p : Pending)
    → IsSound q
    → find r q.items ≡ some p
    → is_pause r.kind ≡ true
    → (q.stop ≡ pause_pending) × (q.items ≡ p ∷ [])
unfolding find
pause-pausing r q p v f n = elim (Bool-cases (is_stopped q.stop)) [
  | inl s ↦ absurd (ground (arith, f, v.nothing_left s))
  | inr s ↦ elim (going-cases q.stop s) [
    | inl k ↦ absurd (
        ground (
          arith,
          n,
          find-not_any asks_pause r q.items p f (v.no_pause (ground (arith, k))),
          find-remove r q.items p f,
        ))
    | inr k ↦ (k, lone q.items (v.only_pause k) f)
  ]
]
  where
    lone : (ps : List Pending) → is_lone_pause q.root ps ≡ true → find r ps ≡ some p → ps ≡ p ∷ []
    lone [] l f = cc
    lone (x ∷ []) l f = ground (arith, l, f)
    lone (x ∷ y ∷ ys) l f = cc

removed-IsSound :
    (r : Request) (q : PendingRequests) (p : Pending)
    → IsSound q
    → q.stop ≡ running
    → find r q.items ≡ some p
    → IsSound (record q { items = remove r q.items })
removed-IsSound r q p v s f = record {
  bounded = omega (arith, v.bounded, find-remove r q.items p f);
  keyed = is_keyed-remove r q.items v.keyed;
  one_flight = omega (arith, v.one_flight, find-remove r q.items p f);
  contextual = all-remove (is_of q.identity) r q.items v.contextual;
  no_pause = λ k. any-remove asks_pause r q.items (v.no_pause k);
  only_pause = λ k. ground (arith, s, k);
  nothing_left = λ k. ground (arith, s, k);
}

requeued-IsSound :
    (r : Request) (q : PendingRequests) (p p' : Pending)
    → IsSound q
    → q.stop ≡ running
    → find r q.items ≡ some p
    → same p.request r ≡ true
    → p'.request ≡ p.request
    → p'.in_flight ≡ false
    → IsSound (record q { items = remove r q.items ++ p' ∷ [] })
requeued-IsSound r q p p' v s f same_request kept landed =
    let w = removed-IsSound r q p v s f in
    let gone = has_key-remove_self r q.items v.keyed in
    record {
      bounded =
          omega (
            arith,
            v.bounded,
            find-remove r q.items p f,
            length-append (remove r q.items) (p' ∷ []),
          );
      keyed = is_keyed-append p' (remove r q.items) w.keyed (
          rw (← gone)
            (has_key-same p'.request r (remove r q.items) (ground (arith, same_request, kept))));
      one_flight = ground (arith, w.one_flight, flights-append p' (remove r q.items), landed);
      contextual = ground (
        arith,
        w.contextual,
        all-append (is_of q.identity) p' (remove r q.items),
        find-all (is_of q.identity) r q.items p f v.contextual,
        kept,
      );
      no_pause = λ k. ground (
        arith,
        w.no_pause k,
        any-append asks_pause p' (remove r q.items),
        find-not_any asks_pause r q.items p f (v.no_pause k),
        kept,
      );
      only_pause = λ k. ground (arith, s, k);
      nothing_left = λ k. ground (arith, s, k);
    }

emptied-IsSound :
    (q : PendingRequests) (s : StopState)
    → is_stopped s ≡ true
    → IsSound (record q { items = []; stop = s })
emptied-IsSound q s e = record {
  bounded = omega arith;
  keyed = refl;
  one_flight = omega arith;
  contextual = refl;
  no_pause = λ k. refl;
  only_pause = λ k. ground (arith, e, k);
  nothing_left = λ k. refl;
}

-- No answer finishes a pause otherwise than by stopping.
pause_not_finished :
    (identity : Identity) (r : Request) (delay : ℕ) (result : Result ExecutorError Outcome)
    → is_pause r.kind ≡ true
    → reply_to identity r delay result ≢ finished
unfolding reply_to kind_code
pause_not_finished identity r delay result n e = ground arith

-- The answers to normal work in a running queue.
conclude_normal-IsSound :
    (r : Request) (q : PendingRequests) (p : Pending) (now : ℕ) (reply : Reply)
    → IsSound q
    → find r q.items ≡ some p
    → same p.request r ≡ true
    → is_pause r.kind ≡ false
    → IsSound (conclude r p now reply q).1
unfolding conclude
conclude_normal-IsSound r q p now refused v f e n = v
conclude_normal-IsSound r q p now stopped v f e n = emptied-IsSound q pause_observed refl
conclude_normal-IsSound r q p now finished v f e n =
    removed-IsSound r q p v (normal-running r q p v f n) f
conclude_normal-IsSound r q p now (retry d) v f e n =
    requeued-IsSound r q p _ v (normal-running r q p v f n) f e refl refl
conclude_normal-IsSound r q p now failed v f e n = rw n (
    request_pause-IsSound now (record q { items = remove r q.items })
      (removed-IsSound r q p v (normal-running r q p v f n) f))

-- The answers to the pause.
conclude_pause-IsSound :
    (r : Request) (q : PendingRequests) (p : Pending) (now : ℕ) (reply : Reply)
    → IsSound q
    → find r q.items ≡ some p
    → is_pause r.kind ≡ true
    → reply ≢ finished
    → IsSound (conclude r p now reply q).1
unfolding conclude remove
conclude_pause-IsSound r q p now refused v f n k = v
conclude_pause-IsSound r q p now stopped v f n k = emptied-IsSound q pause_observed refl
conclude_pause-IsSound r q p now finished v f n k = absurd (k refl)
conclude_pause-IsSound r q p now (retry d) v f n k =
    let (s, lone) = pause-pausing r q p v f n in
    let (flying, len, named) = find-remove r q.items p f in
    let p' = record p { due = now + d; delay = d; in_flight = false } in
    let left : remove r q.items ++ p' ∷ [] ≡ p' ∷ [] = rw lone (rw named refl) in
    rw left (
      rw s (
        pausing-IsSound q p' (ground (arith, v.contextual, lone))
          (ground (arith, v.only_pause s, lone))))
conclude_pause-IsSound r q p now failed v f n k = rw n (emptied-IsSound q needs_attention refl)

pub complete-IsSound :
    (r : Request) (result : Result ExecutorError Outcome) (now : ℕ) (q : PendingRequests)
    → IsSound q
    → IsSound (complete r result now q).1
unfolding complete
complete-IsSound r result now q v = elim (Option-cases (find r q.items)) [
  | inl e ↦ rw (e, complete) v
  | inr (p, e) ↦ elim (Bool-cases (not (same p.request r) || not p.in_flight)) [
    | inl o ↦ rw (e, complete) (rw o v)
    | inr o ↦
        rw (e, complete)
          (rw o (elim (Bool-cases (is_pause r.kind)) [
            | inr n ↦ conclude_normal-IsSound r q p now _ v e (ground (arith, o)) n
            | inl n ↦
                conclude_pause-IsSound r q p now _ v e n
                  (pause_not_finished q.identity r p.delay result n)
          ]))
  ]
]
