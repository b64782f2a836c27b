-- ===== src/Gate/Start/Opened.antt =====
-- The transaction of `with_hooks` of runtime/rx-host/src/gate/mod.rs, at the first start and after.
use rx_solutions.Base.{
  ◌≡◌, ◌≤◌, refl, none, some, List, [], ◌∷◌, arith, Result, ok, lookup, inl, inr, Bool-cases,
  Option-cases, Result-cases,
}
use rx_solutions.Domain.Types.{Uuid, Name}
use rx_solutions.Gate.Model.{Binding, Environment, CellState, HostError}
use rx_solutions.Gate.Store.{Table, Store}
use rx_solutions.Gate.Store.Laws.{document_at, put-document_at}
use rx_solutions.Gate.Core.{Core}
use rx_solutions.Gate.Once.Frame.{Still}
use rx_solutions.Gate.Marks.{epoch_of, epoch_at, Rises, stays}
use rx_solutions.Gate.Start.{
  first_epochs, add_cell, add_cells, by_cell, bindings_fault, open_tx, open_host, Start, reopen,
}

-- A cell that is there stays as it is.
add_cell-known :
    (b : Binding) (t : Table CellState) (cell : Name) (state : CellState) {t' : Table CellState}
    → add_cell b t ≡ ok t'
    → document_at cell t ≡ some state
    → document_at cell t' ≡ some state
unfolding add_cell
add_cell-known b t cell state {t'} h e = elim (Option-cases (lookup b.cell t)) [
  | inr (row, f) ↦ ground (arith, f, h, e)
  | inl f ↦
      let first : CellState = record {
        epoch = 1;
        scopes = first_epochs b.scope_ids [];
        blocked = [];
      } in
      ground
        (arith, f, e, put-document_at cell b.cell none first t {t' = t'} (rw (f, add_cell) at h))
]

pub add_cells-known :
    (bs : List (Name × Binding)) (t : Table CellState) (cell : Name) (state : CellState)
    {t' : Table CellState}
    → add_cells bs t ≡ ok t'
    → document_at cell t ≡ some state
    → document_at cell t' ≡ some state
unfolding add_cells
add_cells-known [] t cell state h e = ground (arith, h, e)
add_cells-known ((k, b) ∷ bs) t cell state h e = elim (Result-cases (add_cell b t)) [
  | inr (x, f) ↦ absurd (ground (arith, f, h))
  | inl (u, f) ↦
      add_cells-known bs u cell state (rw (f, add_cells) at h) (add_cell-known b t cell state f e)
]

open_tx-cells :
    (delivery evidence : Uuid) (bs : List (Name × Binding)) (s : Store) {u : Unit {0}}
    → (open_tx delivery evidence bs s).0 ≡ ok u
    → let s' = (open_tx delivery evidence bs s).1 in
      (add_cells bs s.cells ≡ ok s'.cells)
      × (s'.deliveries ≡ s.deliveries)
      × (s'.voids ≡ s.voids)
      × (s'.resources ≡ s.resources)
      × (s'.grants ≡ s.grants)
unfolding open_tx
open_tx-cells delivery evidence bs s h = elim (Result-cases (add_cells bs s.cells)) [
  | inr (x, e) ↦ absurd (ground (arith, e, h))
  | inl (cs, e) ↦ rw (e, open_tx) (refl, refl, refl, refl, refl)
]

pub open_host-durable :
    (catalog : Result HostError (Unit {0})) (environment : Environment) (bindings : List Binding)
    (delivery evidence boot : Uuid) (native : List Uuid) (s : Store) {c : Core}
    → open_host catalog environment bindings delivery evidence boot native s ≡ ok c
    → (add_cells (by_cell bindings []) s.cells ≡ ok c.durable.cells)
      × (c.durable.deliveries ≡ s.deliveries)
      × (c.durable.voids ≡ s.voids)
      × (c.durable.resources ≡ s.resources)
      × (c.durable.grants ≡ s.grants)
      × (c.native ≡ native)
      × (c.armed ≡ [])
unfolding open_host
open_host-durable catalog environment bindings delivery evidence boot native s {c} h =
    elim (Result-cases catalog) [
      | inr (x, e) ↦ absurd (ground (arith, e, h))
      | inl (u, e) ↦ elim (Bool-cases (bindings_fault environment bindings)) [
        | inl f ↦ absurd (ground (arith, e, f, h))
        | inr f ↦ elim (Result-cases (open_tx delivery evidence (by_cell bindings []) s).0) [
          | inr (x, w) ↦ absurd (ground (arith, e, f, w, h))
          | inl (y, w) ↦
              ground (arith, e, f, w, h, open_tx-cells delivery evidence (by_cell bindings []) s w)
        ]
      ]
    ]

-- A cell without a row has the mark 0, which a first row raises.
add_cells-epoch :
    (bs : List (Name × Binding)) (s s' : Store) (cell : Name)
    → add_cells bs s.cells ≡ ok s'.cells
    → epoch_at cell s ≤ epoch_at cell s'
add_cells-epoch bs s s' cell h = elim (Option-cases (document_at cell s.cells)) [
  | inl e ↦ rw (e, epoch_of) (omega arith)
  | inr (state, e) ↦ rw (e, add_cells-known bs s.cells cell state h e) (omega arith)
]

-- Neither a delivery nor the adapter's log is touched by a start.
pub reopen-Still : (start : Start) (c : Core) → Still c (reopen start c)
unfolding reopen
reopen-Still start c =
    elim (Result-cases (
      open_host start.catalog start.environment start.bindings start.delivery start.evidence
        start.boot c.native c.durable)) [
          | inr (x, e) ↦ rw (e, reopen) ((refl, refl), refl)
          | inl (next, e) ↦
              let (cells, d, v, x, g, n, a) =
                open_host-durable start.catalog start.environment start.bindings start.delivery
                  start.evidence start.boot c.native c.durable e in
              rw (e, reopen) ((d, v), n)
        ]

pub reopen-Rises : (start : Start) (c : Core) → Rises c.durable (reopen start c).durable
unfolding reopen
reopen-Rises start c =
    elim (Result-cases (
      open_host start.catalog start.environment start.bindings start.delivery start.evidence
        start.boot c.native c.durable)) [
          | inr (x, e) ↦ rw (e, reopen) (stays c.durable)
          | inl (next, e) ↦
              let (cells, d, v, x, g, n, a) =
                open_host-durable start.catalog start.environment start.bindings start.delivery
                  start.evidence start.boot c.native c.durable e in
              rw (e, reopen)
                (record {
                  maxima = λ y. ground (arith, x);
                  epochs = λ cell.
                      add_cells-epoch (by_cell start.bindings []) c.durable next.durable cell cells;
                  fences = λ y f h. ground (arith, g, h);
                })
        ]

-- A start arms no cell.
pub reopen-armed : (start : Start) (c : Core) → (reopen start c).armed ≡ []
unfolding reopen
reopen-armed start c =
    elim (Result-cases (
      open_host start.catalog start.environment start.bindings start.delivery start.evidence
        start.boot c.native c.durable)) [
          | inr (x, e) ↦ rw (e, reopen) refl
          | inl (next, e) ↦
              let (cells, d, v, x, g, n, a) =
                open_host-durable start.catalog start.environment start.bindings start.delivery
                  start.evidence start.boot c.native c.durable e in
              rw (e, reopen) a
        ]
