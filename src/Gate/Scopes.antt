-- ===== src/Gate/Scopes.antt =====
-- runtime/rx-host/src/gate/scopes.rs: fences close a cell, arming opens it.
use rx_solutions.Base.{
  Bool, true, false, not, ◌&&◌, ◌||◌, Option, none, some, List, [], ◌∷◌, ltb, ◌==◌, if◌then◌else◌,
  Result, ok, err, is_empty, any, contains, retain, set_insert, lookup, insert,
}
use rx_solutions.Domain.Types.{Uuid, Digest, Name, Counter}
use rx_solutions.Gate.Model.{
  Caller, CellState, GateReceipt, CellTarget, StoreError, key_conflict, invalid_document, HostError,
  forbidden,
}
use rx_solutions.Gate.Store.{Row, Table, Store, Tx, next_sequence, put}
use rx_solutions.Gate.Core.{Core, Hashes, Method, authorized, require_admission, transact}
use rx_solutions.Gate.Validation.{validate_scopes, same_list, same_scopes}

-- `BTreeMap::extend` and `BTreeSet::extend`.
unfoldable pub extend_scopes : List (Name × Counter) → List (Name × Counter) → List (Name × Counter)
extend_scopes m [] = m
extend_scopes m ((k, v) ∷ rest) = extend_scopes (insert k v m) rest

unfoldable pub extend_blocked : List Uuid → List Uuid → List Uuid
extend_blocked s [] = s
extend_blocked s (x ∷ xs) = extend_blocked (set_insert x s) xs

-- `state.scopes.get(k).is_some_and(|old| v < old)`.
abbrev pub lowers : List (Name × Counter) → Name × Counter → Bool
lowers m (k, v) = elim (lookup k m) [ none ↦ false | some old ↦ ltb v old ]

abbrev pub Receipts : Type 0
Receipts = Table (Digest × GateReceipt)

-- The end of both transactions: the state goes to its row, and the receipt takes a place in the
-- journal. The receipts of the request are written by the caller.
unfoldable pub write_cell : Uuid → Uuid → Name → Row CellState → CellState → Tx GateReceipt
write_cell id boot cell row state s = elim (put cell (some row.revision) state s.cells) [
  | err e ↦ (err e, s)
  | ok cs ↦
      let (n, s') = next_sequence (record s { cells = cs }) in
      elim n [
        | err e ↦ (err e, s')
        | ok (sequence, journal) ↦ (
          ok (record {
            id = id;
            host_boot = boot;
            journal = journal;
            sequence = sequence;
            cell = cell;
            state = state;
          }),
          s',
        )
      ]
]

-- A receipt, and whether it was given before.
abbrev pub Given : Type 0
Given = GateReceipt × Bool

unfoldable pub keep_fence :
    Uuid → Digest → Result StoreError GateReceipt × Store → Result StoreError Given × Store
keep_fence id fingerprint (err e, s) = (err e, s)
keep_fence id fingerprint (ok g, s) = elim (put id none (fingerprint, g) s.fence_requests) [
  | err e ↦ (err e, s)
  | ok t ↦ (ok (g, false), record s { fence_requests = t })
]

unfoldable pub keep_arm :
    Uuid → Digest → Result StoreError GateReceipt × Store → Result StoreError Given × Store
keep_arm id fingerprint (err e, s) = (err e, s)
keep_arm id fingerprint (ok g, s) = elim (put id none (fingerprint, g) s.arm_requests) [
  | err e ↦ (err e, s)
  | ok t ↦ (ok (g, false), record s { arm_requests = t })
]

-- A request that was answered before, under the same meaning or another.
abbrev pub replay : Digest → Row (Digest × GateReceipt) → Result StoreError Given
replay fingerprint row =
    let (digest, g) = row.document in
    if not (digest == fingerprint) then err key_conflict else ok (g, true)

-- The transaction of `fence`.
unfoldable pub fence_tx :
    Uuid → Digest → Uuid → Name → Counter → List (Name × Counter) → List Uuid → Tx Given
fence_tx id fingerprint boot cell epoch scopes blocks s = elim (lookup id s.fence_requests) [
  | some row ↦ (replay fingerprint row, s)
  | none ↦ elim (lookup cell s.cells) [
    | none ↦ (err invalid_document, s)
    | some row ↦
        let old = row.document in
        if ltb epoch old.epoch || any (lowers old.scopes) scopes
        then (err invalid_document, s)
        else keep_fence id fingerprint (
            write_cell id boot cell row
              (record {
                epoch = epoch;
                scopes = extend_scopes old.scopes scopes;
                blocked = extend_blocked old.blocked blocks;
              })
              s)
  ]
]

-- `core.armed.remove(cell)`, unless the receipt was given before.
unfoldable pub disarm : Name → Result HostError Given × Core → Result HostError GateReceipt × Core
disarm cell (err e, c) = (err e, c)
disarm cell (ok (g, true), c) = (ok g, c)
disarm cell (ok (g, false), c) = (ok g, record c { armed = retain (λ x. not (x == cell)) c.armed })

-- `fence`.
unfoldable pub fence :
    Hashes → Caller → Uuid → Name → Counter → List (Name × Counter) → List Uuid → Method GateReceipt
fence h caller id cell epoch scopes blocks c = elim (authorized caller c) [
  | err e ↦ (err e, c)
  | ok _ ↦ elim (lookup cell c.bindings) [
    | none ↦ (err forbidden, c)
    | some b ↦ elim (validate_scopes b scopes) [
      | err e ↦ (err e, c)
      | ok _ ↦ disarm cell (
          transact
            (fence_tx id (h.fence_hash cell epoch scopes blocks) c.boot cell epoch scopes blocks) c)
    ]
  ]
]

-- The transaction of `arm`.
unfoldable pub arm_tx :
    Uuid → Digest → Uuid → Name → Counter → List (Name × Counter) → List Uuid → Tx Given
arm_tx id fingerprint boot cell epoch scopes clear s = elim (lookup id s.arm_requests) [
  | some row ↦ (replay fingerprint row, s)
  | none ↦ elim (lookup cell s.cells) [
    | none ↦ (err invalid_document, s)
    | some row ↦
        let old = row.document in
        if not (old.epoch == epoch)
          || not (same_scopes old.scopes scopes)
          || not (same_list clear old.blocked)
        then (err invalid_document, s)
        else keep_arm id fingerprint (
            write_cell id boot cell row
              (record old { blocked = retain (λ x. not (contains x clear)) old.blocked }) s)
  ]
]

-- `core.armed.insert(cell)`, for a new receipt of a cell that nothing blocks.
unfoldable pub arm_cell : Name → Result HostError Given × Core → Result HostError GateReceipt × Core
arm_cell cell (err e, c) = (err e, c)
arm_cell cell (ok (g, replayed), c) = (
  ok g,
  if not replayed && is_empty g.state.blocked
      then record c { armed = set_insert cell c.armed }
      else c,
)

-- `arm`, over the answer of `qualification::current_target`.
unfoldable pub arm :
    Hashes
    → Caller
    → Uuid
    → Name
    → Counter
    → List (Name × Counter)
    → List Uuid
    → Result HostError (Option CellTarget)
    → Method GateReceipt
arm h caller id cell epoch scopes clear target c = elim (authorized caller c) [
  | err e ↦ (err e, c)
  | ok _ ↦ elim (require_admission c) [
    | err e ↦ (err e, c)
    | ok _ ↦ elim target [
      | err e ↦ (err e, c)
      | ok _ ↦ arm_cell cell (
          transact (arm_tx id (h.arm_hash cell epoch scopes clear) c.boot cell epoch scopes clear)
            c)
    ]
  ]
]
