-- ===== src/Executor/Pending.antt =====
-- runtime/rx-executor/src/pending.rs: the queue of requests that wait for the worker. Instants and
-- durations are in nanoseconds; the `VecDeque` is a list.
pub mod Items
pub mod Sound
pub mod Offers
pub mod Completes
pub mod Histories
pub mod Stops
pub mod Pauses
mod Tests
use rx_solutions.Base.{
  ℕ, ◌+◌, ◌*◌, min, max, Bool, true, false, not, ◌&&◌, ◌||◌, Option, none, some, List, [], ◌∷◌,
  ◌++◌, ltb, leb, ◌==◌, if◌then◌else◌, Result, ok, err, Action, is_empty, any, retain, length,
}
use rx_solutions.Domain.Types.{Uuid, Name, Counter}
use rx_solutions.Executor.Frame.{
  Identity, same_identity, RequestKind, submit_operation, resolve_branch, begin_wait,
  request_intervention, request_handover, pause_executor, same_kind, is_pause, Request,
  CheckpointAction, choose_branch, start_wait, check_wait, Outcome, checkpoint_observed,
  checkpoint_committed, waiting_condition, observed_operation, admitted, refresh_required,
  waiting_for_authority, context_changed, attention, unsupported, reconciliation_pending,
  resources_released, paused, Code, code_ok, cancelled, unknown, deadline_exceeded,
  resource_exhausted, internal, unavailable, ExecutorError, invalid, expired, rpc,
}

pub data StopState : Type 0 where
  running pause_pending pause_observed needs_attention : StopState

pub record Pending : Type 0 where
  pub request : Request
  pub due : ℕ
  pub delay : ℕ
  pub in_flight : Bool

pub record PendingRequests : Type 0 where
  pub identity : Identity
  pub root : Name
  pub items : List Pending
  pub stop : StopState

abbrev pub is_running : StopState → Bool
is_running running = true
is_running _ = false

abbrev pub is_stopped : StopState → Bool
is_stopped pause_observed = true
is_stopped needs_attention = true
is_stopped _ = false

abbrev pub ms : ℕ → ℕ
ms n = n * 1000000

-- `PendingRequests::new`.
unfoldable pub new : Identity → Name → PendingRequests
new identity root = record { identity = identity; root = root; items = []; stop = running }

abbrev pub same_key : Request → Request → Bool
same_key a b = a.node == b.node && same_kind a.kind b.kind

abbrev pub same : Request → Request → Bool
same a b =
    same_key a b
    && same_identity a.identity b.identity
    && a.argument == b.argument
    && a.timeout_ns == b.timeout_ns

-- The first item under the key of the request, and the items without it.
unfoldable pub find : Request → List Pending → Option Pending
find r [] = none
find r (p ∷ ps) = if same_key p.request r then some p else find r ps

unfoldable pub remove : Request → List Pending → List Pending
remove r [] = []
remove r (p ∷ ps) = let rest = remove r ps in if same_key p.request r then ps else p ∷ rest

abbrev pub waiting : Request → ℕ → Pending
waiting r now = record { request = r; due = now; delay = 0; in_flight = false }

abbrev is_bad_pause : Name → Request → Bool
is_bad_pause root r =
    is_pause r.kind && (not (r.node == root) || not (r.argument == 0) || not (r.timeout_ns == 0))

-- The loop of `accept` over the copy of the items.
unfoldable pub extend :
    Identity → Name → ℕ → List Request → List Pending → Result ExecutorError (List Pending)
extend identity root now [] items = ok items
extend identity root now (r ∷ rs) items =
    let added = extend identity root now rs (items ++ waiting r now ∷ []) in
    let known = extend identity root now rs items in
    if not (same_identity r.identity identity)
    then err invalid
    else if is_bad_pause root r
    then err invalid
    else elim (find r items) [
      | some old ↦ if not (same old.request r) then err invalid else known
      | none ↦ added
    ]

abbrev pub pause_request : PendingRequests → Request
pause_request q = record {
  identity = q.identity;
  node = q.root;
  kind = pause_executor;
  argument = 0;
  timeout_ns = 0;
}

abbrev pub or_pause : PendingRequests → ℕ → List Pending → List Pending
or_pause q now [] = waiting (pause_request q) now ∷ []
or_pause q now (p ∷ ps) = p ∷ ps

-- `request_pause`.
unfoldable pub request_pause : ℕ → PendingRequests → PendingRequests
request_pause now q = if is_stopped q.stop then q else record q {
  stop = pause_pending;
  items = or_pause q now (retain (λ p. is_pause p.request.kind) q.items);
}

-- `accept`.
unfoldable pub accept : List Request → ℕ → Action PendingRequests ExecutorError (Unit {0})
accept requests now q =
    if ltb 32 (length requests)
    then (err invalid, q)
    else elim (extend q.identity q.root now requests q.items) [
      | err e ↦ (err e, q)
      | ok candidate ↦
          if any (λ r. is_pause r.kind) requests
          then (ok tt, request_pause now q)
          else if not (is_running q.stop)
          then (ok tt, q)
          else if ltb 32 (length candidate)
          then (err invalid, q)
          else (ok tt, record q { items = candidate })
    ]

-- What `next` looks for: due, not in flight, and alone unless it is a pause.
abbrev pub is_ready : ℕ → Bool → Pending → Bool
is_ready now busy p = not p.in_flight && leb p.due now && (is_pause p.request.kind || not busy)

unfoldable pub offer : ℕ → Bool → List Pending → Option (Request × List Pending)
offer now busy [] = none
offer now busy (p ∷ ps) =
    let rest = offer now busy ps in
    if is_ready now busy p
    then some (p.request, record p { in_flight = true } ∷ ps)
    else elim rest [ none ↦ none | some (r, qs) ↦ some (r, p ∷ qs) ]

abbrev pub is_flying : Pending → Bool
is_flying p = p.in_flight

-- `next`.
unfoldable pub next : ℕ → PendingRequests → Option Request × PendingRequests
next now q = elim (offer now (any is_flying q.items) q.items) [
  | none ↦ (none, q)
  | some (r, items) ↦ (some r, record q { items = items })
]

-- What the match of `complete` over the worker's answer says.
pub data Reply : Type 0 where
  finished failed stopped refused : Reply
  retry : ℕ → Reply

abbrev if_kind : RequestKind → RequestKind → Reply → Reply
if_kind k wanted reply = if same_kind k wanted then reply else refused

abbrev checkpoint_reply : RequestKind → CheckpointAction → Reply
checkpoint_reply resolve_branch choose_branch = finished
checkpoint_reply begin_wait check_wait = finished
checkpoint_reply begin_wait start_wait = retry (ms 20)
checkpoint_reply _ _ = refused

abbrev pub is_transient : Code → Bool
is_transient unavailable = true
is_transient deadline_exceeded = true
is_transient cancelled = true
is_transient internal = true
is_transient unknown = true
is_transient resource_exhausted = true
is_transient _ = false

unfoldable pub reply_to : Identity → Request → ℕ → Result ExecutorError Outcome → Reply
reply_to identity r delay (ok (admitted _)) = if_kind r.kind submit_operation finished
reply_to identity r delay (ok (observed_operation _)) = if_kind r.kind submit_operation finished
reply_to identity r delay (ok (resources_released _)) = if_kind r.kind request_handover finished
reply_to identity r delay (ok (reconciliation_pending _)) =
    if_kind r.kind request_handover (retry (ms 100))
reply_to identity r delay (ok (checkpoint_committed node action)) =
    if node == r.node then checkpoint_reply r.kind action else refused
reply_to identity r delay (ok (checkpoint_observed node action)) =
    if node == r.node then checkpoint_reply r.kind action else refused
reply_to identity r delay (ok (paused run revision)) =
    if is_pause r.kind && run == identity.run then stopped else refused
reply_to identity r delay (ok waiting_condition) = retry (ms 20)
reply_to identity r delay (ok refresh_required) = retry (ms 20)
reply_to identity r delay (err expired) = retry (ms 20)
reply_to identity r delay (ok waiting_for_authority) = retry (ms 100)
reply_to identity r delay (err (rpc code)) =
    if is_transient code then retry (min (max (delay * 2) (ms 100)) (ms 5000)) else failed
reply_to identity r delay (ok context_changed) = failed
reply_to identity r delay (ok (attention _)) = failed
reply_to identity r delay (ok (unsupported _)) = failed
reply_to identity r delay (err _) = failed

-- The end of `complete`, once the item in flight is found.
unfoldable pub conclude :
    Request → Pending → ℕ → Reply → Action PendingRequests ExecutorError (Unit {0})
conclude r p now refused q = (err invalid, q)
conclude r p now stopped q = (ok tt, record q { items = []; stop = pause_observed })
conclude r p now finished q = (ok tt, record q { items = remove r q.items })
conclude r p now (retry d) q = (
  ok tt,
  record q {
    items = remove r q.items ++ (record p { due = now + d; delay = d; in_flight = false }) ∷ [];
  },
)
conclude r p now failed q =
    if is_pause r.kind
    then (ok tt, record q { items = []; stop = needs_attention })
    else (ok tt, request_pause now (record q { items = remove r q.items }))

-- `complete`.
unfoldable pub complete :
    Request → Result ExecutorError Outcome → ℕ → Action PendingRequests ExecutorError (Unit {0})
complete r result now q = elim (find r q.items) [
  | none ↦ (if not (is_running q.stop) && not (is_pause r.kind) then ok tt else err invalid, q)
  | some p ↦
      if not (same p.request r) || not p.in_flight
      then (err invalid, q)
      else conclude r p now (reply_to q.identity r p.delay result) q
]
