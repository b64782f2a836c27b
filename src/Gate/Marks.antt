-- ===== src/Gate/Marks.antt =====
-- The marks that the gate of runtime/rx-host/src/gate keeps: the highest fence of each resource, the
-- epoch of each cell, and the fence that each grant was given.
pub mod Grants
pub mod Scopes
pub mod Acquired
pub mod Fenced
pub mod Closed
pub mod Histories
mod Tests
use rx_solutions.Base.{
  ℕ, ◌≡◌, ◌≤◌, refl, ◌∙◌, ap, Option, none, some, arith, Result, ok, err, inl, inr, Result-cases,
}
use rx_solutions.Domain.Types.{Uuid, Name, Counter}
use rx_solutions.Gate.Model.{CellState, StoredGrant, ResourceFence, StoreError, HostError}
use rx_solutions.Gate.Store.{Row, Store, Table, Tx}
use rx_solutions.Gate.Store.Laws.{document_of, document_at}
use rx_solutions.Gate.Core.{Core, transact}
use rx_solutions.Gate.Work.{SameTables, SameGate}

abbrev pub maximum_of : Option ResourceFence → Counter
maximum_of none = 0
maximum_of (some f) = f.maximum

abbrev pub epoch_of : Option CellState → Counter
epoch_of none = 0
epoch_of (some s) = s.epoch

abbrev pub fence_of : Option StoredGrant → Option Counter
fence_of none = none
fence_of (some g) = some g.fence

abbrev pub maximum : Name → Store → Counter
maximum x s = maximum_of (document_at x s.resources)

abbrev pub epoch_at : Name → Store → Counter
epoch_at cell s = epoch_of (document_at cell s.cells)

abbrev pub fence_at : Uuid → Store → Option Counter
fence_at g s = fence_of (document_at g s.grants)

pub record Rises (s s' : Store) : Type 0 where
  pub maxima : (x : Name) → maximum x s ≤ maximum x s'
  pub epochs : (cell : Name) → epoch_at cell s ≤ epoch_at cell s'
  pub fences : (g : Uuid) (f : Counter) → fence_at g s ≡ some f → fence_at g s' ≡ some f

pub SameTables-Rises : (s s' : Store) → SameTables s s' → Rises s s'
SameTables-Rises s s' e = record {
  maxima = λ x. ground (arith, e.same_resources);
  epochs = λ cell. ground (arith, e.same_cells);
  fences = λ g f h. ground (arith, e.same_grants, h);
}

pub then-Rises : (a b c : Store) → Rises a b → Rises b c → Rises a c
then-Rises a b c u v = record {
  maxima = λ x. omega (arith, u.maxima x, v.maxima x);
  epochs = λ cell. omega (arith, u.epochs cell, v.epochs cell);
  fences = λ g f h. v.fences g f (u.fences g f h);
}

pub stays : (s : Store) → Rises s s
stays s =
    SameTables-Rises s s (record { same_cells = refl; same_grants = refl; same_resources = refl })

pub transact-Rises :
    {A : Type 0} (t : Tx A) (c : Core)
    → ((a : A) → (t c.durable).0 ≡ ok a → Rises c.durable (t c.durable).1)
    → Rises c.durable (transact t c).1.durable
unfolding transact
transact-Rises t c good = elim (Result-cases (t c.durable).0) [
  | inl (a, e) ↦ rw (e, transact) (good a e)
  | inr (x, e) ↦ rw (e, transact) (stays c.durable)
]
