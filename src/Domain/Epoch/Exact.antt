-- ===== src/Domain/Epoch/Exact.antt =====
-- After `install` of sdk/crates/rx-domain/src/epoch.rs the map matches the request exactly, and the
-- same call again changes nothing.
use rx_solutions.Base.{
  ◌≡◌, refl, Bool, true, false, Option, some, List, [], ◌∷◌, arith, ok, is_empty, all, length,
  contains, distinct, set_insert, contains-set_insert, length-to_set, lookup, insert, lookup-insert,
  IsOrdered, insert-IsOrdered, insert_self,
}
use rx_solutions.Domain.Types.{Name, Counter}
use rx_solutions.Domain.Epoch.{
  ScopeEpochs, Request, is_stale, same_epochs, install_all, install, scopes, has_epoch,
  matches_exact,
}
use rx_solutions.Domain.Epoch.Install.{
  Accepts, written, install_all-Accepts, install_all-lookup, install-ok,
}

-- The loop runs to its end under these conditions.
abbrev write_all : Request → List (Name × Counter) → List (Name × Counter)
write_all [] m = m
write_all ((scope, epoch) ∷ rest) m = write_all rest (insert scope epoch m)

install_all-of_Accepts :
    (old : List (Name × Counter)) (seen : List Name) (next : List (Name × Counter)) (r : Request)
    → Accepts old seen r
    → install_all old seen next r ≡ ok (write_all r next)
unfolding install_all
install_all-of_Accepts old seen next [] a = refl
install_all-of_Accepts old seen next ((scope, epoch) ∷ rest) a =
    ground
      (arith, install_all-of_Accepts old (set_insert scope seen) (insert scope epoch next) rest a.3)

written-seen :
    (j : Name) (old : List (Name × Counter)) (seen : List Name) (r : Request)
    (before : Option Counter)
    → Accepts old seen r
    → contains j seen ≡ true
    → written j r before ≡ before
written-seen j old seen [] before a c = refl
written-seen j old seen ((scope, epoch) ∷ rest) before a c = ground (
  arith,
  contains-set_insert j scope seen,
  written-seen j old (set_insert scope seen) rest before a.3,
)

-- A map that holds what was written has each requested epoch.
has_epochs :
    (s : ScopeEpochs) (old : List (Name × Counter)) (seen : List Name)
    (next : List (Name × Counter)) (r : Request)
    → Accepts old seen r
    → ((j : Name) → lookup j s.epochs ≡ written j r (lookup j next))
    → all (has_epoch s) r ≡ true
unfolding has_epoch
has_epochs s old seen next [] a h = refl
has_epochs s old seen next ((scope, epoch) ∷ rest) a h = ground (
  arith,
  h scope,
  contains-set_insert scope scope seen,
  written-seen scope old (set_insert scope seen) rest (some epoch) a.3,
  has_epochs s old (set_insert scope seen) (insert scope epoch next) rest a.3
      (λ j. rw (lookup-insert j scope epoch next) (h j)),
)

fresh_of_Accepts :
    (j : Name) (old : List (Name × Counter)) (seen : List Name) (r : Request)
    → Accepts old seen r
    → contains j seen ≡ true
    → contains j (scopes r) ≡ false
unfolding contains
fresh_of_Accepts j old seen [] a h = refl
fresh_of_Accepts j old seen ((scope, epoch) ∷ rest) a h = ground (
  arith,
  contains-set_insert j scope seen,
  fresh_of_Accepts j old (set_insert scope seen) rest a.3,
)

distinct_of_Accepts :
    (old : List (Name × Counter)) (seen : List Name) (r : Request)
    → Accepts old seen r
    → distinct (scopes r) ≡ true
unfolding distinct
distinct_of_Accepts old seen [] a = refl
distinct_of_Accepts old seen ((scope, epoch) ∷ rest) a = ground (
  arith,
  contains-set_insert scope scope seen,
  fresh_of_Accepts scope old (set_insert scope seen) rest a.3,
  distinct_of_Accepts old (set_insert scope seen) rest a.3,
)

length-scopes : (r : Request) → length (scopes r) ≡ length r
length-scopes [] = refl
length-scopes ((scope, epoch) ∷ rest) = omega (arith, length-scopes rest)

-- After a successful call the map matches the requested vector exactly.
pub install-matches_exact :
    (r : Request) (s : ScopeEpochs) {changed : Bool}
    → (install r s).0 ≡ ok changed
    → matches_exact r (install r s).1 ≡ true
unfolding matches_exact
install-matches_exact r s h =
    let good = install-ok r s h in
    let a = install_all-Accepts s.epochs [] s.epochs r good.1 in
    ground (
      arith,
      good.0,
      length-scopes r,
      length-to_set (scopes r),
      distinct_of_Accepts s.epochs [] r a,
      has_epochs (install r s).1 s.epochs [] s.epochs r a
          (λ j. install_all-lookup j s.epochs [] s.epochs r good.1),
    )

Accepts-again :
    (s : ScopeEpochs) (old : List (Name × Counter)) (seen : List Name) (r : Request)
    → Accepts old seen r
    → all (has_epoch s) r ≡ true
    → Accepts s.epochs seen r
unfolding has_epoch is_stale
Accepts-again s old seen [] a h = tt
Accepts-again s old seen ((scope, epoch) ∷ rest) a h =
    ground (arith, Accepts-again s old (set_insert scope seen) rest a.3)

write_all-same :
    (s : ScopeEpochs) (r : Request)
    → IsOrdered s.epochs
    → all (has_epoch s) r ≡ true
    → write_all r s.epochs ≡ s.epochs
unfolding has_epoch
write_all-same s [] o h = refl
write_all-same s ((scope, epoch) ∷ rest) o h =
    ground (arith, insert_self scope epoch s.epochs o, write_all-same s rest o)

write_all-IsOrdered :
    (r : Request) (m : List (Name × Counter)) → IsOrdered m → IsOrdered (write_all r m)
write_all-IsOrdered [] m o = o
write_all-IsOrdered ((scope, epoch) ∷ rest) m o =
    write_all-IsOrdered rest (insert scope epoch m) (insert-IsOrdered scope epoch m o)

same_epochs_self : (m : List (Name × Counter)) → same_epochs m m ≡ true
unfolding same_epochs
same_epochs_self [] = refl
same_epochs_self ((k, v) ∷ m) = ground (arith, same_epochs_self m)

install-of_Accepts :
    (r : Request) (s : ScopeEpochs)
    → is_empty r ≡ false
    → Accepts s.epochs [] r
    → write_all r s.epochs ≡ s.epochs
    → install r s ≡ (ok false, s)
unfolding install
install-of_Accepts r s n a e =
    ground (arith, install_all-of_Accepts s.epochs [] s.epochs r a, same_epochs_self s.epochs)

install-IsOrdered :
    (r : Request) (s : ScopeEpochs) {changed : Bool}
    → IsOrdered s.epochs
    → (install r s).0 ≡ ok changed
    → IsOrdered (install r s).1.epochs
install-IsOrdered r s o h =
    let good = install-ok r s h in
    let a = install_all-Accepts s.epochs [] s.epochs r good.1 in
    let e : write_all r s.epochs ≡ (install r s).1.epochs =
      ground (arith, install_all-of_Accepts s.epochs [] s.epochs r a, good.1) in
    rw e at (write_all-IsOrdered r s.epochs o)

-- On a map in the order of its keys, a call that succeeded can be made again: it succeeds, says
-- that nothing changed, and changes nothing.
pub install_twice :
    (r : Request) (s : ScopeEpochs) {changed : Bool}
    → IsOrdered s.epochs
    → (install r s).0 ≡ ok changed
    → install r (install r s).1 ≡ (ok false, (install r s).1)
install_twice r s o h =
    let good = install-ok r s h in
    let a = install_all-Accepts s.epochs [] s.epochs r good.1 in
    let all_there =
      has_epochs (install r s).1 s.epochs [] s.epochs r a
        (λ j. install_all-lookup j s.epochs [] s.epochs r good.1) in
    install-of_Accepts r (install r s).1 good.0
      (Accepts-again (install r s).1 s.epochs [] r a all_there)
      (write_all-same (install r s).1 r (install-IsOrdered r s o h) all_there)
