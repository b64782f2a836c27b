-- ===== src/Gate/Start/Cells.antt =====
-- What `with_hooks` of runtime/rx-host/src/gate/mod.rs leaves in the store.
use rx_solutions.Base.{◌≡◌, ◌∙◌, some, List, [], Result, ok}
use rx_solutions.Domain.Types.{Uuid, Name}
use rx_solutions.Gate.Model.{Binding, Environment, CellState, HostError}
use rx_solutions.Gate.Store.{Store}
use rx_solutions.Gate.Store.Laws.{document_at}
use rx_solutions.Gate.Core.{Core}
use rx_solutions.Gate.Start.{by_cell, open_host}
use rx_solutions.Gate.Start.Opened.{add_cells-known, open_host-durable}
use rx_solutions.Gate.Once.Calls.{IsNew}

-- A gate opened over a store keeps the state of every cell that the store knows, and has no cell armed.
pub open_host-cells :
    (catalog : Result HostError (Unit {0})) (environment : Environment) (bindings : List Binding)
    (delivery evidence boot : Uuid) (native : List Uuid) (s : Store) (cell : Name)
    (state : CellState) {c : Core}
    → open_host catalog environment bindings delivery evidence boot native s ≡ ok c
    → document_at cell s.cells ≡ some state
    → (document_at cell c.durable.cells ≡ some state) × (c.armed ≡ [])
open_host-cells catalog environment bindings delivery evidence boot native s cell state h e =
    let (cells, d, v, x, g, n, armed) =
      open_host-durable catalog environment bindings delivery evidence boot native s h in
    (add_cells-known (by_cell bindings []) s.cells cell state cells e, armed)

-- A gate opened over a store without deliveries and voids, and an adapter that was asked nothing, is
-- where the histories of calls begin.
pub open_host-IsNew :
    (catalog : Result HostError (Unit {0})) (environment : Environment) (bindings : List Binding)
    (delivery evidence boot : Uuid) (s : Store) {c : Core}
    → s.deliveries ≡ []
    → s.voids ≡ []
    → open_host catalog environment bindings delivery evidence boot [] s ≡ ok c
    → IsNew c
open_host-IsNew catalog environment bindings delivery evidence boot s d v h =
    let (cells, ds, vs, x, g, n, armed) =
      open_host-durable catalog environment bindings delivery evidence boot [] s h in
    record { no_deliveries = ds ∙ d; no_voids = vs ∙ v; no_commands = n }
