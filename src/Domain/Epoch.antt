-- ===== src/Domain/Epoch.antt =====
-- sdk/crates/rx-domain/src/epoch.rs: the durable maximum epoch of each scope.
pub mod Install
pub mod Exact
mod Tests
use rx_solutions.Base.{
  ℕ, Bool, true, false, not, ◌&&◌, Option, none, some, List, [], ◌∷◌, map, ltb, ◌==◌, if◌then◌else◌,
  Result, ok, err, Action, is_empty, all, length, contains, set_insert, to_set, lookup, insert,
}
use rx_solutions.Domain.Types.{Name, Counter, DomainError, invalid_input, conflict, nonzero}

-- A `BTreeMap<Name, Counter>`.
pub record ScopeEpochs : Type 0 where
  pub epochs : List (Name × Counter)

abbrev pub Request : Type 0
Request = List (Name × Counter)

unfoldable pub get : Name → ScopeEpochs → Option Counter
get scope s = lookup scope s.epochs

-- `self.0.get(scope).is_some_and(|old| old > epoch)`.
unfoldable pub is_stale : Option Counter → Counter → Bool
is_stale none epoch = false
is_stale (some old) epoch = ltb epoch old

-- `next != self.0`.
unfoldable pub same_epochs : List (Name × Counter) → List (Name × Counter) → Bool
same_epochs [] [] = true
same_epochs ((k, v) ∷ m) ((j, w) ∷ n) = k == j && v == w && same_epochs m n
same_epochs _ _ = false

-- The loop of `install`, over the map as it was, the scopes seen and the map in the making.
unfoldable pub install_all :
    List (Name × Counter)
    → List Name
    → List (Name × Counter)
    → Request
    → Result DomainError (List (Name × Counter))
unfolding nonzero is_stale
install_all old seen next [] = ok next
install_all old seen next ((scope, epoch) ∷ rest) =
    let more = install_all old (set_insert scope seen) (insert scope epoch next) rest in
    elim (nonzero epoch) [
      | err e ↦ err e
      | ok _ ↦
          if contains scope seen
          then err invalid_input
          else if is_stale (lookup scope old) epoch
          then err conflict
          else more
    ]

-- `ScopeEpochs::install`.
unfoldable pub install : Request → Action ScopeEpochs DomainError Bool
install requested s =
    if is_empty requested
    then (err invalid_input, s)
    else elim (install_all s.epochs [] s.epochs requested) [
      | err e ↦ (err e, s)
      | ok next ↦ (ok (not (same_epochs next s.epochs)), record { epochs = next })
    ]

abbrev pub scopes : Request → List Name
scopes [] = []
scopes ((scope, epoch) ∷ rest) = scope ∷ scopes rest

-- `epoch.0 > 0 && self.0.get(scope) == Some(epoch)`.
unfoldable pub has_epoch : ScopeEpochs → Name × Counter → Bool
has_epoch s (scope, epoch) =
    ltb 0 epoch && (elim (lookup scope s.epochs) [ none ↦ false | some e ↦ e == epoch ])

-- `ScopeEpochs::matches_exact`.
unfoldable pub matches_exact : Request → ScopeEpochs → Bool
unfolding has_epoch
matches_exact required s =
    not (is_empty required)
    && length (to_set (scopes required)) == length required
    && all (has_epoch s) required

-- The maps after a series of calls; a call that fails leaves what it wrote.
unfoldable pub install_series : List Request → ScopeEpochs → ScopeEpochs
install_series [] s = s
install_series (r ∷ rs) s = install_series rs (install r s).1
