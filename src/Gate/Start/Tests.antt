-- ===== src/Gate/Start/Tests.antt =====
-- Opening the gate of runtime/rx-host/src/gate/mod.rs over a store that knows the cell.
use rx_solutions.Base.{
  ◌≡◌, refl, some, [], ◌∷◌, ok, lookup, insert, set_insert, to_set, sort, sort_insert,
}
use rx_solutions.Domain.Types.{nonzero}
use rx_solutions.Domain.Intent.{repeats, normal_body, normalized}
use rx_solutions.Gate.Model.{CellState, simulation}
use rx_solutions.Gate.Store.{put}
use rx_solutions.Gate.Store.Laws.{document_at}
use rx_solutions.Gate.Start.{
  binding_fault, bindings_fault, by_cell, add_cell, add_cells, add_meta, open_tx, open_host,
  first_epochs, Start, reopen,
}
use rx_solutions.Gate.Start.Cells.{open_host-cells}
use rx_solutions.Gate.Tests.{binding, empty_store, new_core}

opens_new : open_host (ok tt) simulation (binding ∷ []) 90 91 100 [] empty_store ≡ ok new_core
unfolding lookup insert set_insert to_set sort sort_insert nonzero repeats normal_body normalized
    binding_fault bindings_fault by_cell add_cell add_cells add_meta open_tx open_host
opens_new = refl

abbrev at_first : CellState
at_first = record { epoch = 1; scopes = (6, 1) ∷ []; blocked = [] }

knows_cell : document_at 5 empty_store.cells ≡ some at_first
unfolding lookup
knows_cell = refl

open_host-cells_example :
    (document_at 5 new_core.durable.cells ≡ some at_first) × (new_core.armed ≡ [])
open_host-cells_example =
    open_host-cells (ok tt) simulation (binding ∷ []) 90 91 100 [] empty_store 5 at_first opens_new
      knows_cell

-- A new process with a second cell keeps the first one, writes the other and arms none.
abbrev second_process : Start
second_process = record {
  catalog = ok tt;
  environment = simulation;
  bindings = binding ∷ record binding { cell = 8 } ∷ [];
  delivery = 92;
  evidence = 93;
  boot = 101;
}

reopens_cells :
    let c = reopen second_process (record new_core { armed = 5 ∷ [] }) in
    (document_at 5 c.durable.cells ≡ some at_first)
    × (document_at 8 c.durable.cells ≡ some at_first)
    × (c.armed ≡ [])
    × (c.boot ≡ 101)
unfolding lookup insert set_insert to_set sort sort_insert nonzero repeats normal_body normalized
    binding_fault bindings_fault by_cell first_epochs add_cell add_cells add_meta put open_tx
    open_host reopen
reopens_cells = (refl, refl, refl, refl)
