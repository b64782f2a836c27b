-- ===== src/Gate/Once/Frame.antt =====
-- The calls of runtime/rx-host/src/gate that move no delivery: grants, fences, arming, binding.
use rx_solutions.Base.{
  ◌≡◌, refl, Bool, true, false, not, ◌||◌, ltb, any, Option, some, List, arith, ◌==◌, Result, ok,
  err, sort, lookup, inl, inr, Bool-cases, Result-cases, Option-cases,
}
use rx_solutions.Domain.Types.{Uuid, Digest, Name, Counter, TimePoint, checked_add}
use rx_solutions.Gate.Model.{
  Caller, CellState, StoredGrant, CellTarget, StoreError, HostError, GateReceipt,
}
use rx_solutions.Gate.Store.{Row, Store, Tx, put}
use rx_solutions.Gate.Store.Laws.{next_sequence-frame}
use rx_solutions.Gate.Core.{Core, Hashes, authorized, require_admission, transact, bind_platform}
use rx_solutions.Gate.Validation.{validate_scopes, same_list, same_scopes}
use rx_solutions.Gate.Grants.{
  overlaps, grant_tx, acquire_new, acquire_sorted, acquire_grant, renew_tx, renew_grant,
}
use rx_solutions.Gate.Scopes.{
  Given, lowers, write_cell, keep_fence, fence_tx, disarm, fence, keep_arm, arm_tx, arm_cell, arm,
}
use rx_solutions.Gate.Once.{Inv}

abbrev pub SameWork : Store → Store → Type 0
SameWork s s' = (s'.deliveries ≡ s.deliveries) × (s'.voids ≡ s.voids)

abbrev pub Still : Core → Core → Type 0
Still c c' = SameWork c.durable c'.durable × (c'.native ≡ c.native)

-- The arming too.
abbrev pub Quiet : Core → Core → Type 0
Quiet c c' = Still c c' × (c'.armed ≡ c.armed)

-- The invariant reads the deliveries, the voids and the adapter's log alone.
pub Still-Inv : (c c' : Core) → Still c c' → Inv c → Inv c'
Still-Inv c c' e v = record {
  keyed = λ j. ground (arith, e, v.keyed j);
  safe = λ op. ground (arith, e, v.safe op);
}

transact-Still :
    {A : Type 0} (t : Tx A) (c : Core)
    → SameWork c.durable (t c.durable).1
    → Still c (transact t c).1
unfolding transact
transact-Still t c e = elim (Result-cases (t c.durable).0) [
  | inl (a, f) ↦ rw (f, transact) (e, refl)
  | inr (x, f) ↦ rw (f, transact) ((refl, refl), refl)
]

transact-Quiet :
    {A : Type 0} (t : Tx A) (c : Core)
    → SameWork c.durable (t c.durable).1
    → Quiet c (transact t c).1
unfolding transact
transact-Quiet t c e = elim (Result-cases (t c.durable).0) [
  | inl (a, f) ↦ rw (f, transact) ((e, refl), refl)
  | inr (x, f) ↦ rw (f, transact) (((refl, refl), refl), refl)
]

grant_tx-SameWork :
    (request : Uuid) (fingerprint : Digest) (g : StoredGrant) (s : Store)
    → SameWork s (grant_tx request fingerprint g s).1
unfolding grant_tx
grant_tx-SameWork request fingerprint g s = ground arith

acquire_new-Quiet :
    (caller : Caller) (request : Uuid) (fingerprint : Digest) (resources : List Name)
    (fence ttl : Counter) (now : TimePoint) (can_handover : Bool) (id : Uuid) (c : Core)
    → Quiet c (acquire_new caller request fingerprint resources fence ttl now can_handover id c).1
unfolding acquire_new
acquire_new-Quiet caller request fingerprint resources fence ttl now can_handover id c =
    elim (Bool-cases can_handover) [
      | inr e ↦ rw (e, acquire_new) stays
      | inl e ↦ elim (Bool-cases (overlaps resources c.durable.deliveries)) [
        | inl f ↦ rw (e, acquire_new) (rw f stays)
        | inr f ↦ elim (Option-cases (checked_add now.ticks_ns ttl)) [
          | inl w ↦ rw (e, acquire_new) (rw f (rw w stays))
          | inr (t, w) ↦
              rw (e, acquire_new)
                (rw f (
                  rw w (
                    transact-Quiet (grant_tx request fingerprint _) c
                      (grant_tx-SameWork request fingerprint _ c.durable))))
        ]
      ]
    ]
  where
    stays : Quiet c c
    stays = (((refl, refl), refl), refl)

pub acquire_grant-Quiet :
    (h : Hashes) (caller : Caller) (request : Uuid) (resources : List Name) (fence ttl : Counter)
    (now : TimePoint) (can_handover : Bool) (id : Uuid) (c : Core)
    → Quiet c (acquire_grant h caller request resources fence ttl now can_handover id c).1
unfolding acquire_grant acquire_sorted
acquire_grant-Quiet h caller request resources fence ttl now can_handover id c = ground (
  arith,
  acquire_new-Quiet caller request (h.grant_hash caller.peer (sort resources) fence ttl)
      (sort resources) fence ttl now can_handover id c,
)

renew_tx-SameWork :
    (boot : Uuid) (caller : Caller) (id : Uuid) (sequence : Counter) (now : TimePoint) (s : Store)
    → SameWork s (renew_tx boot caller id sequence now s).1
unfolding renew_tx
renew_tx-SameWork boot caller id sequence now s = ground arith

pub renew_grant-Quiet :
    (caller : Caller) (id : Uuid) (sequence : Counter) (now : TimePoint) (c : Core)
    → Quiet c (renew_grant caller id sequence now c).1
unfolding renew_grant
renew_grant-Quiet caller id sequence now c = ground (
  arith,
  transact-Quiet (renew_tx c.boot caller id sequence now) c
      (renew_tx-SameWork c.boot caller id sequence now c.durable),
)

write_cell-SameWork :
    (id boot : Uuid) (cell : Name) (row : Row CellState) (state : CellState) (s : Store)
    → SameWork s (write_cell id boot cell row state s).1
unfolding write_cell
write_cell-SameWork id boot cell row state s =
    elim (Result-cases (put cell (some row.revision) state s.cells)) [
      | inr (x, e) ↦ rw (e, write_cell) (refl, refl)
      | inl (cs, e) ↦ ground (arith, e, next_sequence-frame (record s { cells = cs }))
    ]

keep_fence-SameWork :
    (id : Uuid) (fingerprint : Digest) (s : Store) (x : Result StoreError GateReceipt × Store)
    → SameWork s x.1
    → SameWork s (keep_fence id fingerprint x).1
unfolding keep_fence
keep_fence-SameWork id fingerprint s (err e, s') w = w
keep_fence-SameWork id fingerprint s (ok g, s') w = ground (arith, w)

keep_arm-SameWork :
    (id : Uuid) (fingerprint : Digest) (s : Store) (x : Result StoreError GateReceipt × Store)
    → SameWork s x.1
    → SameWork s (keep_arm id fingerprint x).1
unfolding keep_arm
keep_arm-SameWork id fingerprint s (err e, s') w = w
keep_arm-SameWork id fingerprint s (ok g, s') w = ground (arith, w)

fence_tx-SameWork :
    (id : Uuid) (fingerprint : Digest) (boot : Uuid) (cell : Name) (epoch : Counter)
    (scopes : List (Name × Counter)) (blocks : List Uuid) (s : Store)
    → SameWork s (fence_tx id fingerprint boot cell epoch scopes blocks s).1
unfolding fence_tx
fence_tx-SameWork id fingerprint boot cell epoch scopes blocks s =
    elim (Option-cases (lookup id s.fence_requests)) [
      | inr (row, e) ↦ rw (e, fence_tx) (refl, refl)
      | inl e ↦ elim (Option-cases (lookup cell s.cells)) [
        | inl f ↦ rw (e, fence_tx) (rw f (refl, refl))
        | inr (row, f) ↦
            elim (Bool-cases
              (ltb epoch row.document.epoch || any (lowers row.document.scopes) scopes)) [
                | inl w ↦ rw (e, fence_tx) (rw f (rw w (refl, refl)))
                | inr w ↦
                    rw (e, fence_tx)
                      (rw f (
                        rw w (
                          keep_fence-SameWork id fingerprint s _
                            (write_cell-SameWork id boot cell row _ s))))
              ]
      ]
    ]

arm_tx-SameWork :
    (id : Uuid) (fingerprint : Digest) (boot : Uuid) (cell : Name) (epoch : Counter)
    (scopes : List (Name × Counter)) (clear : List Uuid) (s : Store)
    → SameWork s (arm_tx id fingerprint boot cell epoch scopes clear s).1
unfolding arm_tx
arm_tx-SameWork id fingerprint boot cell epoch scopes clear s =
    elim (Option-cases (lookup id s.arm_requests)) [
      | inr (row, e) ↦ rw (e, arm_tx) (refl, refl)
      | inl e ↦ elim (Option-cases (lookup cell s.cells)) [
        | inl f ↦ rw (e, arm_tx) (rw f (refl, refl))
        | inr (row, f) ↦
            elim (Bool-cases (
              not (row.document.epoch == epoch)
              || not (same_scopes row.document.scopes scopes)
              || not (same_list clear row.document.blocked))) [
                | inl w ↦ rw (e, arm_tx) (rw f (rw w (refl, refl)))
                | inr w ↦
                    rw (e, arm_tx)
                      (rw f (
                        rw w (
                          keep_arm-SameWork id fingerprint s _
                            (write_cell-SameWork id boot cell row _ s))))
              ]
      ]
    ]

disarm-Still :
    (cell : Name) (c : Core) (x : Result HostError Given × Core)
    → Still c x.1
    → Still c (disarm cell x).1
unfolding disarm
disarm-Still cell c (err e, c') w = w
disarm-Still cell c (ok (g, true), c') w = w
disarm-Still cell c (ok (g, false), c') w = w

arm_cell-Still :
    (cell : Name) (c : Core) (x : Result HostError Given × Core)
    → Still c x.1
    → Still c (arm_cell cell x).1
unfolding arm_cell
arm_cell-Still cell c (err e, c') w = w
arm_cell-Still cell c (ok (g, replayed), c') w = ground (arith, w)

pub fence-Still :
    (h : Hashes) (caller : Caller) (id : Uuid) (cell : Name) (epoch : Counter)
    (scopes : List (Name × Counter)) (blocks : List Uuid) (c : Core)
    → Still c (fence h caller id cell epoch scopes blocks c).1
unfolding fence
fence-Still h caller id cell epoch scopes blocks c =
    let fp = h.fence_hash cell epoch scopes blocks in
    elim (Result-cases (authorized caller c)) [
      | inr (x, e) ↦ rw (e, fence) stays
      | inl (u, e) ↦ elim (Option-cases (lookup cell c.bindings)) [
        | inl f ↦ rw (e, fence) (rw f stays)
        | inr (b, f) ↦ elim (Result-cases (validate_scopes b scopes)) [
          | inr (x, w) ↦ rw (e, fence) (rw f (rw w stays))
          | inl (y, w) ↦
              rw (e, fence)
                (rw f (
                  rw w (
                    disarm-Still cell c _ (
                      transact-Still (fence_tx id fp c.boot cell epoch scopes blocks) c
                        (fence_tx-SameWork id fp c.boot cell epoch scopes blocks c.durable)))))
        ]
      ]
    ]
  where
    stays : Still c c
    stays = ((refl, refl), refl)

pub arm-Still :
    (h : Hashes) (caller : Caller) (id : Uuid) (cell : Name) (epoch : Counter)
    (scopes : List (Name × Counter)) (clear : List Uuid)
    (target : Result HostError (Option CellTarget)) (c : Core)
    → Still c (arm h caller id cell epoch scopes clear target c).1
unfolding arm
arm-Still h caller id cell epoch scopes clear target c =
    let fp = h.arm_hash cell epoch scopes clear in
    elim (Result-cases (authorized caller c)) [
      | inr (x, e) ↦ rw (e, arm) stays
      | inl (u, e) ↦ elim (Result-cases (require_admission c)) [
        | inr (x, f) ↦ rw (e, arm) (rw f stays)
        | inl (y, f) ↦ elim (Result-cases target) [
          | inr (x, w) ↦ rw (e, arm) (rw f (rw w stays))
          | inl (q, w) ↦
              rw (e, arm)
                (rw f (
                  rw w (
                    arm_cell-Still cell c _ (
                      transact-Still (arm_tx id fp c.boot cell epoch scopes clear) c
                        (arm_tx-SameWork id fp c.boot cell epoch scopes clear c.durable)))))
        ]
      ]
    ]
  where
    stays : Still c c
    stays = ((refl, refl), refl)

pub bind_platform-Still : (caller : Caller) (c : Core) → Still c (bind_platform caller c).1
unfolding bind_platform
bind_platform-Still caller c = ground arith
