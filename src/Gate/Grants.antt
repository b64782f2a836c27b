-- ===== src/Gate/Grants.antt =====
-- runtime/rx-host/src/gate/grants.rs: grants of resources under rising fences.
use rx_solutions.Base.{
  Bool, true, false, not, ◌&&◌, ◌||◌, Option, none, some, List, [], ◌∷◌, ◌++◌, ltb, leb, ◌==◌,
  if◌then◌else◌, Result, ok, err, is_empty, any, contains, sort, lookup,
}
use rx_solutions.Domain.Types.{Uuid, Digest, Name, Counter, TimePoint, checked_add}
use rx_solutions.Domain.Intent.{Intent}
use rx_solutions.Gate.Model.{
  Caller, Binding, DeliveryRecord, StoredGrant, ResourceFence, StoreError, invalid_document,
  invalid, conflict, busy,
}
use rx_solutions.Gate.Store.{Row, Table, Tx, put}
use rx_solutions.Gate.Core.{Hashes, Method, authorized, require_admission, transact}
use rx_solutions.Gate.Receipts.{is_outstanding}

-- `resources.windows(2).any(|w| w[0] == w[1])`.
unfoldable pub has_equal_neighbours : List Name → Bool
has_equal_neighbours [] = false
has_equal_neighbours (x ∷ []) = false
has_equal_neighbours (x ∷ y ∷ zs) = x == y || has_equal_neighbours (y ∷ zs)

-- The resources of every intent that a binding allows.
abbrev intent_resources : List Intent → List Name
intent_resources [] = []
intent_resources (i ∷ is) = i.resource_set ++ intent_resources is

unfoldable pub declared : List (Name × Binding) → List Name
declared [] = []
declared ((cell, b) ∷ rest) = intent_resources b.allowed_intents ++ declared rest

-- A delivery that is with the native side and holds one of the resources.
unfoldable pub overlaps : List Name → Table DeliveryRecord → Bool
overlaps resources [] = false
overlaps resources ((k, row) ∷ rest) =
    (is_outstanding row.document.state
      && any (λ r. contains r resources) row.document.intent.resource_set)
    || overlaps resources rest

abbrev pub revision_of : {V : Type 0} → Option (Row V) → Option Counter
revision_of none = none
revision_of (some row) = some row.revision

abbrev pub is_stale_fence : Counter → Option (Row ResourceFence) → Bool
is_stale_fence fence none = false
is_stale_fence fence (some row) = leb fence row.document.maximum

-- The second loop of the transaction.
unfoldable pub write_fences :
    Counter → List Name → Table ResourceFence → Result StoreError (Table ResourceFence)
write_fences fence [] t = ok t
write_fences fence (x ∷ xs) t =
    elim (put x (revision_of (lookup x t)) (record { resource = x; maximum = fence }) t) [
      | err e ↦ err e
      | ok t' ↦ write_fences fence xs t'
    ]

-- The transaction of `acquire_grant`.
unfoldable pub grant_tx : Uuid → Digest → StoredGrant → Tx StoredGrant
grant_tx request fingerprint g s =
    if any (λ x. is_stale_fence g.fence (lookup x s.resources)) g.resources
    then (err invalid_document, s)
    else elim (write_fences g.fence g.resources s.resources) [
      | err e ↦ (err e, s)
      | ok rs ↦ elim (put g.id none g s.grants) [
        | err e ↦ (err e, record s { resources = rs })
        | ok gs ↦ elim (put request none (fingerprint, g) s.grant_requests) [
          | err e ↦ (err e, record s { resources = rs; grants = gs })
          | ok qs ↦ (ok g, record s { resources = rs; grants = gs; grant_requests = qs })
        ]
      ]
    ]

-- A request whose fields are good and which was not answered before.
unfoldable pub acquire_new :
    Caller
    → Uuid
    → Digest
    → List Name
    → Counter
    → Counter
    → TimePoint
    → Bool
    → Uuid
    → Method StoredGrant
acquire_new caller request fingerprint resources fence ttl now can_handover id c =
    if not can_handover
    then (err busy, c)
    else if overlaps resources c.durable.deliveries
    then (err busy, c)
    else elim (checked_add now.ticks_ns ttl) [
      | none ↦ (err invalid, c)
      | some expires ↦
          transact
            (grant_tx request fingerprint (record {
              id = id;
              host_boot = c.boot;
              owner = caller.peer;
              session = caller.session;
              resources = resources;
              fence = fence;
              expires_at = record now { ticks_ns = expires };
              renew_seq = 0;
              ttl_ns = ttl;
            }))
            c
    ]

-- The requests that were answered are answered again.
unfoldable pub acquire_sorted :
    Hashes
    → Caller
    → Uuid
    → List Name
    → Counter
    → Counter
    → TimePoint
    → Bool
    → Uuid
    → Method StoredGrant
acquire_sorted h caller request resources fence ttl now can_handover id c =
    if is_empty resources || ttl == 0 || fence == 0 || has_equal_neighbours resources
    then (err invalid, c)
    else if any (λ r. not (contains r (declared c.bindings))) resources
    then (err invalid, c)
    else elim (lookup request c.durable.grant_requests) [
      | some row ↦
          let (digest, g) = row.document in
          (if digest == h.grant_hash caller.peer resources fence ttl then ok g else err conflict, c)
      | none ↦
          acquire_new caller request (h.grant_hash caller.peer resources fence ttl) resources fence
            ttl now can_handover id c
    ]

-- `acquire_grant`: `now` is the clock, `can_handover` the adapter's answer and `id` the identifier
-- of the grant.
unfoldable pub acquire_grant :
    Hashes
    → Caller
    → Uuid
    → List Name
    → Counter
    → Counter
    → TimePoint
    → Bool
    → Uuid
    → Method StoredGrant
acquire_grant h caller request resources fence ttl now can_handover id c =
    elim (authorized caller c) [
      | err e ↦ (err e, c)
      | ok _ ↦ elim (require_admission c) [
        | err e ↦ (err e, c)
        | ok _ ↦ acquire_sorted h caller request (sort resources) fence ttl now can_handover id c
      ]
    ]

-- The loop of `renew_grant` over the fences.
unfoldable pub fences_hold : Counter → List Name → Table ResourceFence → Bool
fences_hold fence [] t = true
fences_hold fence (x ∷ xs) t =
    (elim (lookup x t) [ none ↦ false | some row ↦ row.document.maximum == fence ])
    && fences_hold fence xs t

abbrev pub lapsed : StoredGrant → Uuid → Caller → TimePoint → Counter → Bool
lapsed g boot caller now sequence =
    not (g.host_boot == boot)
    || not (g.session == caller.session)
    || not (g.owner == caller.peer)
    || not (g.expires_at.clock_id == now.clock_id)
    || leb g.expires_at.ticks_ns now.ticks_ns
    || sequence == 0

-- The transaction of `renew_grant`.
unfoldable pub renew_tx : Uuid → Caller → Uuid → Counter → TimePoint → Tx StoredGrant
renew_tx boot caller id sequence now s = elim (lookup id s.grants) [
  | none ↦ (err invalid_document, s)
  | some row ↦
      let g = row.document in
      if lapsed g boot caller now sequence
      then (err invalid_document, s)
      else if ltb sequence g.renew_seq
      then (err invalid_document, s)
      else if sequence == g.renew_seq
      then (ok g, s)
      else if not (fences_hold g.fence g.resources s.resources)
      then (err invalid_document, s)
      else elim (checked_add now.ticks_ns g.ttl_ns) [
        | none ↦ (err invalid_document, s)
        | some expires ↦
            let g' = record g {
              renew_seq = sequence;
              expires_at = record (g.expires_at) { ticks_ns = expires };
            } in
            elim (put id (some row.revision) g' s.grants) [
              | err e ↦ (err e, s)
              | ok gs ↦ (ok g', record s { grants = gs })
            ]
      ]
]

-- `renew_grant`.
unfoldable pub renew_grant : Caller → Uuid → Counter → TimePoint → Method StoredGrant
renew_grant caller id sequence now c = elim (authorized caller c) [
  | err e ↦ (err e, c)
  | ok _ ↦ elim (require_admission c) [
    | err e ↦ (err e, c)
    | ok _ ↦ transact (renew_tx c.boot caller id sequence now) c
  ]
]
