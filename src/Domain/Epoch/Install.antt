-- ===== src/Domain/Epoch/Install.antt =====
-- What `install` of sdk/crates/rx-domain/src/epoch.rs writes, and what it never lowers.
use rx_solutions.Base.{
  ◌≤◌, ◌<◌, ◌≡◌, Bool, false, not, Option, none, some, List, [], ◌∷◌, arith, ◌==◌, if◌then◌else◌,
  ok, err, Bool-cases, Result-cases, inl, inr, is_empty, contains, set_insert, lookup, insert,
  lookup-insert,
}
use rx_solutions.Domain.Types.{Name, Counter, DomainError}
use rx_solutions.Domain.Epoch.{
  ScopeEpochs, Request, get, is_stale, same_epochs, install_all, install, install_series,
}

-- No scope has a lower epoch than before.
abbrev pub NotLower : Option Counter → Option Counter → Type 0
NotLower none after = Unit {0}
NotLower (some old) none = ⊥
NotLower (some old) (some new) = old ≤ new

-- What the map holds at a scope after the entries are written over it, the last one winning.
abbrev pub written : Name → Request → Option Counter → Option Counter
written j [] before = before
written j ((scope, epoch) ∷ rest) before =
    written j rest (if j == scope then some epoch else before)

pub install_all-lookup :
    (j : Name) (old : List (Name × Counter)) (seen : List Name) (next : List (Name × Counter))
    (r : Request) {m : List (Name × Counter)}
    → install_all old seen next r ≡ ok m
    → lookup j m ≡ written j r (lookup j next)
unfolding install_all
install_all-lookup j old seen next [] h = ground arith
install_all-lookup j old seen next ((scope, epoch) ∷ rest) h =
    rw (← lookup-insert j scope epoch next) (
      install_all-lookup j old (set_insert scope seen) (insert scope epoch next) rest
        (ground arith))

-- The conditions under which the loop of `install` runs to its end.
abbrev pub Accepts : List (Name × Counter) → List Name → Request → Type 0
Accepts old seen [] = Unit {0}
Accepts old seen ((scope, epoch) ∷ rest) =
    (0 < epoch)
    × (contains scope seen ≡ false)
    × (is_stale (lookup scope old) epoch ≡ false)
    × Accepts old (set_insert scope seen) rest

pub install_all-Accepts :
    (old : List (Name × Counter)) (seen : List Name) (next : List (Name × Counter)) (r : Request)
    {m : List (Name × Counter)}
    → install_all old seen next r ≡ ok m
    → Accepts old seen r
unfolding install_all
install_all-Accepts old seen next [] h = tt
install_all-Accepts old seen next ((scope, epoch) ∷ rest) {m} h =
    ground (
      arith,
      install_all-Accepts old (set_insert scope seen) (insert scope epoch next) rest {m = m},
    )

written-NotLower :
    (j : Name) (old : List (Name × Counter)) (seen : List Name) (r : Request)
    (before : Option Counter)
    → Accepts old seen r
    → NotLower (lookup j old) before
    → NotLower (lookup j old) (written j r before)
unfolding is_stale
written-NotLower j old seen [] before a n = n
written-NotLower j old seen ((scope, epoch) ∷ rest) before a n =
    written-NotLower j old (set_insert scope seen) rest _ a.3
      (elim (Bool-cases (j == scope)) [ inl e ↦ ground arith | inr e ↦ rw e n ])

NotLower-refl : (o : Option Counter) → NotLower o o
NotLower-refl none = tt
NotLower-refl (some c) = omega arith

NotLower-trans : (a b c : Option Counter) → NotLower a b → NotLower b c → NotLower a c
NotLower-trans none b c h k = tt
NotLower-trans (some x) none c h k = absurd h
NotLower-trans (some x) (some y) none h k = absurd k
NotLower-trans (some x) (some y) (some z) h k = omega arith

-- What a call wrote, from its result.
pub install-ok :
    (r : Request) (s : ScopeEpochs) {changed : Bool}
    → (install r s).0 ≡ ok changed
    → (is_empty r ≡ false)
      × (install_all s.epochs [] s.epochs r ≡ ok (install r s).1.epochs)
      × (changed ≡ not (same_epochs (install r s).1.epochs s.epochs))
unfolding install
install-ok r s h = ground arith

install-err :
    (r : Request) (s : ScopeEpochs) {e : DomainError}
    → (install r s).0 ≡ err e
    → (install r s).1 ≡ s
unfolding install
install-err r s h = ground arith

-- A successful call writes each requested epoch and leaves every other scope as it was.
pub install-get :
    (r : Request) (s : ScopeEpochs) (j : Name) {changed : Bool}
    → (install r s).0 ≡ ok changed
    → get j (install r s).1 ≡ written j r (get j s)
unfolding get
install-get r s j h = install_all-lookup j s.epochs [] s.epochs r (install-ok r s h).1

install-NotLower :
    (r : Request) (s : ScopeEpochs) (j : Name) → NotLower (get j s) (get j (install r s).1)
unfolding get
install-NotLower r s j = elim (Result-cases (install r s).0) [
  | inl (b, h) ↦
      let good = (install-ok r s h).1 in
      rw (install_all-lookup j s.epochs [] s.epochs r good) (
        written-NotLower j s.epochs [] r (lookup j s.epochs)
          (install_all-Accepts s.epochs [] s.epochs r good) (NotLower-refl (lookup j s.epochs)))
  | inr (e, h) ↦ rw (install-err r s h) (NotLower-refl (lookup j s.epochs))
]

-- No series of calls, whether they succeed or fail, lowers or forgets the epoch of any scope.
pub install_series-NotLower :
    (rs : List Request) (s : ScopeEpochs) (j : Name)
    → NotLower (get j s) (get j (install_series rs s))
unfolding install_series
install_series-NotLower [] s j = NotLower-refl (get j s)
install_series-NotLower (r ∷ rs) s j =
    NotLower-trans (get j s) (get j (install r s).1) (get j (install_series rs (install r s).1))
      (install-NotLower r s j) (install_series-NotLower rs (install r s).1 j)
