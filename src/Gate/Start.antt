-- ===== src/Gate/Start.antt =====
-- runtime/rx-host/src/gate/mod.rs: `with_hooks`, which opens the gate over a store.
pub mod Opened
pub mod Cells
mod Tests
use rx_solutions.Base.{
  ℕ, Bool, true, false, not, ◌||◌, Option, none, some, List, [], ◌∷◌, ◌==◌, if◌then◌else◌, Result,
  ok, err, is_empty, any, length, lookup, insert,
}
use rx_solutions.Domain.Types.{Uuid, Name, Counter}
use rx_solutions.Domain.Intent.{Intent, repeats, normalized}
use rx_solutions.Gate.Model.{
  Binding, Environment, simulation, physical, HostMeta, CellState, StoreError, HostError, store,
  invalid,
}
use rx_solutions.Gate.Store.{Row, Table, Store, Tx, put}
use rx_solutions.Gate.Core.{Core}

abbrev same_environment : Environment → Environment → Bool
same_environment simulation simulation = true
same_environment physical physical = true
same_environment _ _ = false

abbrev is_not_normal : Intent → Bool
is_not_normal i = elim (normalized i) [ ok _ ↦ false | err _ ↦ true ]

-- The tests of the loop over the bindings, against the host and the platform of the first one.
unfoldable pub binding_fault : Name → Name → Environment → Binding → Bool
binding_fault host platform environment b =
    not (b.host == host)
    || not (b.platform == platform)
    || not (same_environment b.environment environment)
    || is_empty b.scope_ids
    || is_empty b.condition_ids
    || is_empty b.allowed_intents
    || b.qualification_revision == 0
    || is_empty b.purposes
    || repeats b.scope_ids
    || repeats b.condition_ids
    || any is_not_normal b.allowed_intents

-- The map of the bindings by their cells.
unfoldable pub by_cell : List Binding → List (Name × Binding) → List (Name × Binding)
by_cell [] m = m
by_cell (b ∷ bs) m = by_cell bs (insert b.cell b m)

unfoldable pub bindings_fault : Environment → List Binding → Bool
bindings_fault environment [] = true
bindings_fault environment (b ∷ bs) =
    any (binding_fault b.host b.platform environment) (b ∷ bs)
    || not (length (by_cell (b ∷ bs) []) == length (b ∷ bs))

-- Every scope of a new cell begins at 1.
unfoldable pub first_epochs : List Name → List (Name × Counter) → List (Name × Counter)
first_epochs [] m = m
first_epochs (x ∷ xs) m = first_epochs xs (insert x 1 m)

-- A cell that the store does not know is written at epoch 1; one that it knows stays as it is.
unfoldable pub add_cell : Binding → Table CellState → Result StoreError (Table CellState)
add_cell b t = elim (lookup b.cell t) [
  | some row ↦ ok t
  | none ↦
      put b.cell none (record { epoch = 1; scopes = first_epochs b.scope_ids []; blocked = [] }) t
]

unfoldable pub add_cells :
    List (Name × Binding) → Table CellState → Result StoreError (Table CellState)
add_cells [] t = ok t
add_cells ((cell, b) ∷ bs) t = elim (add_cell b t) [ err e ↦ err e | ok t' ↦ add_cells bs t' ]

-- `put` of the first meta row.
unfoldable pub add_meta : Uuid → Uuid → Option (Row HostMeta) → Option (Row HostMeta)
add_meta delivery evidence none = some (record {
  revision = 1;
  document = record { delivery_journal = delivery; evidence_journal = evidence; delivery_seq = 0 };
})
add_meta delivery evidence (some row) = some row

-- The transaction of `with_hooks`.
unfoldable pub open_tx : Uuid → Uuid → List (Name × Binding) → Tx (Unit {0})
open_tx delivery evidence bindings s = elim (add_cells bindings s.cells) [
  | err e ↦ (err e, s)
  | ok cs ↦ (ok tt, record s { host_meta = add_meta delivery evidence s.host_meta; cells = cs })
]

-- `with_hooks` over the store that `SqliteRepository::open` gave. `catalog` is the answer of
-- `builtin_catalog`, and `native` what the adapter was asked to do before.
unfoldable pub open_host :
    Result HostError (Unit {0})
    → Environment
    → List Binding
    → Uuid
    → Uuid
    → Uuid
    → List Uuid
    → Store
    → Result HostError Core
open_host catalog environment bindings delivery evidence boot native s = elim catalog [
  | err e ↦ err e
  | ok _ ↦
      if bindings_fault environment bindings
      then err invalid
      else let (r, s') = open_tx delivery evidence (by_cell bindings []) s in
        elim r [
          | err e ↦ err (store e)
          | ok _ ↦ ok (record {
            durable = s';
            native = native;
            boot = boot;
            bindings = by_cell bindings [];
            caller = none;
            armed = [];
            accepting = true;
            incidents = [];
          })
        ]
]

-- What a new process is started with: the answer of `builtin_catalog`, the environment that the
-- adapter is of, the bindings, and the identifiers that are drawn.
pub record Start : Type 0 where
  pub catalog : Result HostError (Unit {0})
  pub environment : Environment
  pub bindings : List Binding
  pub delivery : Uuid
  pub evidence : Uuid
  pub boot : Uuid

abbrev pub or_closed : Core → Result HostError Core → Core
or_closed c (ok next) = record next { incidents = c.incidents }
or_closed c (err e) = record c { caller = none; armed = []; accepting = false }

-- The end of a process and the start of the next one over the store it leaves: `with_hooks` with the
-- bindings that it is given now. The logs of the adapter and of the local protection go on. A start
-- that is refused leaves no gate: nobody is bound, no cell is armed and nothing is admitted.
unfoldable pub reopen : Start → Core → Core
reopen s c =
    or_closed c
      (open_host s.catalog s.environment s.bindings s.delivery s.evidence s.boot c.native c.durable)
