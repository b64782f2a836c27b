-- ===== src/Executor/Pending/Sound.antt =====
-- The well-formed queues of runtime/rx-executor/src/pending.rs.
use rx_solutions.Base.{
  ℕ, ◌≤◌, ◌≡◌, refl, Bool, true, false, ◌&&◌, List, [], ◌∷◌, ◌++◌, arith, ltb, ◌==◌, ok, any, all,
  retain, length, Bool-cases, Result-cases, inl, inr, ◌⊎◌,
}
use rx_solutions.Domain.Types.{Name}
use rx_solutions.Executor.Frame.{Identity, is_pause, kind_code, Request}
use rx_solutions.Executor.Pending.{
  StopState, running, pause_pending, pause_observed, needs_attention, is_running, is_stopped,
  Pending, PendingRequests, new, waiting, extend, pause_request, request_pause, accept,
}
use rx_solutions.Executor.Pending.Items.{
  is_keyed, flights, is_of, asks_pause, find-none, is_keyed-append, flights-append, any-append,
  all-append,
}

abbrev pub is_lone_pause : Name → List Pending → Bool
is_lone_pause root (p ∷ []) =
    is_pause p.request.kind
    && p.request.node == root
    && p.request.argument == 0
    && p.request.timeout_ns == 0
is_lone_pause root _ = false

-- At most 32 items, of one context and under different keys, of which one is in flight at most.
-- While the queue runs none is a pause; a pause is alone; and nothing is left once it has stopped.
pub record IsSound (q : PendingRequests) : Type 0 where
  pub bounded : length q.items ≤ 32
  pub keyed : is_keyed q.items ≡ true
  pub one_flight : flights q.items ≤ 1
  pub contextual : all (is_of q.identity) q.items ≡ true
  pub no_pause : is_running q.stop ≡ true → any asks_pause q.items ≡ false
  pub only_pause : q.stop ≡ pause_pending → is_lone_pause q.root q.items ≡ true
  pub nothing_left : is_stopped q.stop ≡ true → q.items ≡ []

pub new-IsSound : (identity : Identity) (root : Name) → IsSound (new identity root)
unfolding new
new-IsSound identity root = record {
  bounded = omega arith;
  keyed = refl;
  one_flight = omega arith;
  contextual = refl;
  no_pause = λ e. refl;
  only_pause = λ e. cc;
  nothing_left = λ e. refl;
}

-- The loop of `accept` keeps what it is given and adds new keys of the context, not in flight.
extend-keeps :
    (identity : Identity) (root : Name) (now : ℕ) (rs : List Request)
    (items candidate : List Pending)
    → extend identity root now rs items ≡ ok candidate
    → is_keyed items ≡ true
    → all (is_of identity) items ≡ true
    → (is_keyed candidate ≡ true)
      × (all (is_of identity) candidate ≡ true)
      × (flights candidate ≡ flights items)
unfolding extend
extend-keeps identity root now [] items candidate h k a = ground (arith, h)
extend-keeps identity root now (r ∷ rs) items candidate h k a = ground (
  arith,
  extend-keeps identity root now rs items candidate,
  extend-keeps identity root now rs (items ++ waiting r now ∷ []) candidate,
  find-none r items,
  is_keyed-append (waiting r now) items,
  all-append (is_of identity) (waiting r now) items,
  flights-append (waiting r now) items,
)

extend-no_pause :
    (identity : Identity) (root : Name) (now : ℕ) (rs : List Request)
    (items candidate : List Pending)
    → extend identity root now rs items ≡ ok candidate
    → any (λ r. is_pause r.kind) rs ≡ false
    → any asks_pause items ≡ false
    → any asks_pause candidate ≡ false
unfolding extend
extend-no_pause identity root now [] items candidate h n a = ground (arith, h)
extend-no_pause identity root now (r ∷ rs) items candidate h n a = ground (
  arith,
  extend-no_pause identity root now rs items candidate,
  extend-no_pause identity root now rs (items ++ waiting r now ∷ []) candidate,
  any-append asks_pause (waiting r now) items,
)

retain-none : (ps : List Pending) → any asks_pause ps ≡ false → retain asks_pause ps ≡ []
retain-none [] h = refl
retain-none (p ∷ ps) h = ground (arith, retain-none ps)

-- The queue with a pause alone in it.
pub pausing-IsSound :
    (q : PendingRequests) (p : Pending)
    → is_of q.identity p ≡ true
    → is_lone_pause q.root (p ∷ []) ≡ true
    → IsSound (record q { stop = pause_pending; items = p ∷ [] })
pausing-IsSound q p a l = record {
  bounded = omega arith;
  keyed = refl;
  one_flight = ground arith;
  contextual = ground (arith, a);
  no_pause = λ e. cc;
  only_pause = λ e. l;
  nothing_left = λ e. cc;
}

pub new_pause :
    (q : PendingRequests) (now : ℕ)
    → any asks_pause q.items ≡ false
    → is_stopped q.stop ≡ false
    → request_pause now q
      ≡ record q { stop = pause_pending; items = waiting (pause_request q) now ∷ [] }
unfolding request_pause
new_pause q now n s = rw (s, request_pause) (rw (retain-none q.items n) refl)

new_pause-IsSound :
    (q : PendingRequests) (now : ℕ)
    → any asks_pause q.items ≡ false
    → is_stopped q.stop ≡ false
    → IsSound (request_pause now q)
unfolding kind_code
new_pause-IsSound q now n s =
    rw (new_pause q now n s)
      (pausing-IsSound q (waiting (pause_request q) now) (ground arith) (ground arith))

-- A pause that is there stays as it is.
pub kept_pause :
    (q : PendingRequests) (now : ℕ)
    → q.stop ≡ pause_pending
    → is_lone_pause q.root q.items ≡ true
    → request_pause now q ≡ q
unfolding request_pause
kept_pause q now s l = kept q.items l
  where
    kept :
        (ps : List Pending)
        → is_lone_pause q.root ps ≡ true
        → request_pause now (record q { items = ps }) ≡ record q { items = ps }
    kept [] l = cc
    kept (p ∷ []) l = ground (arith, s, l)
    kept (p ∷ x ∷ xs) l = cc

-- A queue that has not stopped runs or waits for its pause.
pub going-cases : (s : StopState) → is_stopped s ≡ false → (s ≡ running) ⊎ (s ≡ pause_pending)
going-cases running h = inl refl
going-cases pause_pending h = inr refl
going-cases pause_observed h = cc
going-cases needs_attention h = cc

pub request_pause-IsSound :
    (now : ℕ) (q : PendingRequests) → IsSound q → IsSound (request_pause now q)
unfolding request_pause
request_pause-IsSound now q v = elim (Bool-cases (is_stopped q.stop)) [
  | inl s ↦ rw (s, request_pause) v
  | inr s ↦ elim (going-cases q.stop s) [
    | inl e ↦ new_pause-IsSound q now (v.no_pause (ground (arith, e))) s
    | inr e ↦ rw (kept_pause q now e (v.only_pause e)) v
  ]
]

pub accept-IsSound :
    (rs : List Request) (now : ℕ) (q : PendingRequests) → IsSound q → IsSound (accept rs now q).1
unfolding accept
accept-IsSound rs now q v = elim (Bool-cases (ltb 32 (length rs))) [
  | inl e ↦ rw (e, accept) v
  | inr e ↦ elim (Result-cases (extend q.identity q.root now rs q.items)) [
    | inr (x, f) ↦ rw (e, accept) (rw f v)
    | inl (candidate, f) ↦ elim (Bool-cases (any (λ r. is_pause r.kind) rs)) [
      | inl p ↦ rw (e, accept) (rw f (rw p (request_pause-IsSound now q v)))
      | inr p ↦ elim (Bool-cases (is_running q.stop)) [
        | inr s ↦ rw (e, accept) (rw f (rw p (rw s v)))
        | inl s ↦ elim (Bool-cases (ltb 32 (length candidate))) [
          | inl l ↦ rw (e, accept) (rw f (rw p (rw s (rw l v))))
          | inr l ↦
              let (keyed, context, flying) =
                extend-keeps q.identity q.root now rs q.items candidate f v.keyed v.contextual in
              rw (e, accept)
                (rw f (
                  rw p (
                    rw s (
                      rw l (record {
                        bounded = ground (arith, l);
                        keyed = keyed;
                        one_flight = omega (arith, flying, v.one_flight);
                        contextual = context;
                        no_pause = λ k.
                            extend-no_pause q.identity q.root now rs q.items candidate f p
                              (v.no_pause s);
                        only_pause = λ k. ground (arith, s, k);
                        nothing_left = λ k. ground (arith, s, k);
                      })))))
        ]
      ]
    ]
  ]
]
