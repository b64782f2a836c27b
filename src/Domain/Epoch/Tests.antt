-- ===== src/Domain/Epoch/Tests.antt =====
-- Runs of sdk/crates/rx-domain/src/epoch.rs, and the laws at them.
use rx_solutions.Base.{◌≡◌, refl, true, [], ◌∷◌, ok, err, set_insert, lookup, insert, contains}
use rx_solutions.Domain.Types.{conflict}
use rx_solutions.Domain.Epoch.{
  ScopeEpochs, Request, install_all, install, same_epochs, matches_exact,
}
use rx_solutions.Domain.Epoch.Exact.{install-matches_exact}

abbrev cells : ScopeEpochs
cells = record { epochs = (2, 5) ∷ (4, 1) ∷ [] }

abbrev raise_two : Request
raise_two = (4, 3) ∷ (1, 7) ∷ []

raise_two_ok : (install raise_two cells).0 ≡ ok true
unfolding install install_all same_epochs lookup insert contains set_insert
raise_two_ok = refl

lower_refused : install ((2, 4) ∷ []) cells ≡ (err conflict, cells)
unfolding install install_all lookup insert contains
lower_refused = refl

install-matches_exact_example : matches_exact raise_two (install raise_two cells).1 ≡ true
install-matches_exact_example = install-matches_exact raise_two cells raise_two_ok
