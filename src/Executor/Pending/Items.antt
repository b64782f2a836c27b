-- ===== src/Executor/Pending/Items.antt =====
-- The list under the queue of runtime/rx-executor/src/pending.rs.
use rx_solutions.Base.{
  ℕ, ◌+◌, ◌≡◌, refl, Bool, true, false, not, ◌&&◌, ◌||◌, none, some, List, [], ◌∷◌, ◌++◌, arith,
  ltb, if◌then◌else◌, any, all, length,
}
use rx_solutions.Executor.Frame.{Identity, same_identity, is_pause, Request}
use rx_solutions.Executor.Pending.{Pending, same_key, find, remove, is_flying}

abbrev pub has_key : Request → List Pending → Bool
has_key r [] = false
has_key r (p ∷ ps) = same_key p.request r || has_key r ps

-- No key stands twice.
abbrev pub is_keyed : List Pending → Bool
is_keyed [] = true
is_keyed (p ∷ ps) = not (has_key p.request ps) && is_keyed ps

abbrev pub flights : List Pending → ℕ
flights [] = 0
flights (p ∷ ps) = (if p.in_flight then 1 else 0) + flights ps

abbrev pub is_of : Identity → Pending → Bool
is_of identity p = same_identity p.request.identity identity

abbrev pub asks_pause : Pending → Bool
asks_pause p = is_pause p.request.kind

pub find-none : (r : Request) (ps : List Pending) → find r ps ≡ none → has_key r ps ≡ false
unfolding find
find-none r [] h = refl
find-none r (p ∷ ps) h = ground (arith, find-none r ps)

pub has_key-append :
    (r : Request) (p : Pending) (ps : List Pending)
    → has_key r (ps ++ p ∷ []) ≡ (has_key r ps || same_key p.request r)
has_key-append r p [] = ground arith
has_key-append r p (x ∷ xs) = ground (arith, has_key-append r p xs)

pub is_keyed-append :
    (p : Pending) (ps : List Pending)
    → is_keyed ps ≡ true
    → has_key p.request ps ≡ false
    → is_keyed (ps ++ p ∷ []) ≡ true
is_keyed-append p [] k h = refl
is_keyed-append p (x ∷ xs) k h = ground (arith, is_keyed-append p xs, has_key-append x.request p xs)

pub flights-append :
    (p : Pending) (ps : List Pending)
    → flights (ps ++ p ∷ []) ≡ flights ps + (if p.in_flight then 1 else 0)
flights-append p [] = ground arith
flights-append p (x ∷ xs) = ground (arith, flights-append p xs)

pub any-append :
    (f : Pending → Bool) (p : Pending) (ps : List Pending)
    → any f (ps ++ p ∷ []) ≡ (any f ps || f p)
any-append f p [] = ground arith
any-append f p (x ∷ xs) = ground (arith, any-append f p xs)

pub all-append :
    (f : Pending → Bool) (p : Pending) (ps : List Pending)
    → all f (ps ++ p ∷ []) ≡ (all f ps && f p)
all-append f p [] = ground arith
all-append f p (x ∷ xs) = ground (arith, all-append f p xs)

pub any-is_flying : (ps : List Pending) → any is_flying ps ≡ ltb 0 (flights ps)
any-is_flying [] = ground arith
any-is_flying (p ∷ ps) = ground (arith, any-is_flying ps)

-- What is left after a key is removed.
pub has_key-remove :
    (k r : Request) (ps : List Pending) → has_key k (remove r ps) ≡ true → has_key k ps ≡ true
unfolding remove
has_key-remove k r [] h = h
has_key-remove k r (p ∷ ps) h = ground (arith, has_key-remove k r ps)

pub is_keyed-remove :
    (r : Request) (ps : List Pending) → is_keyed ps ≡ true → is_keyed (remove r ps) ≡ true
unfolding remove
is_keyed-remove r [] h = h
is_keyed-remove r (p ∷ ps) h = ground (arith, is_keyed-remove r ps, has_key-remove p.request r ps)

pub any-remove :
    (f : Pending → Bool) (r : Request) (ps : List Pending)
    → any f ps ≡ false
    → any f (remove r ps) ≡ false
unfolding remove
any-remove f r [] h = h
any-remove f r (p ∷ ps) h = ground (arith, any-remove f r ps)

pub all-remove :
    (f : Pending → Bool) (r : Request) (ps : List Pending)
    → all f ps ≡ true
    → all f (remove r ps) ≡ true
unfolding remove
all-remove f r [] h = h
all-remove f r (p ∷ ps) h = ground (arith, all-remove f r ps)

-- The item that is found is the one that is removed.
pub find-remove :
    (r : Request) (ps : List Pending) (p : Pending)
    → find r ps ≡ some p
    → (flights ps ≡ flights (remove r ps) + (if p.in_flight then 1 else 0))
      × (length ps ≡ length (remove r ps) + 1)
      × (same_key p.request r ≡ true)
unfolding find remove
find-remove r [] p h = cc
find-remove r (x ∷ xs) p h = ground (arith, find-remove r xs p)

pub find-all :
    (f : Pending → Bool) (r : Request) (ps : List Pending) (p : Pending)
    → find r ps ≡ some p
    → all f ps ≡ true
    → f p ≡ true
unfolding find
find-all f r [] p h a = cc
find-all f r (x ∷ xs) p h a = ground (arith, find-all f r xs p)

pub find-not_any :
    (f : Pending → Bool) (r : Request) (ps : List Pending) (p : Pending)
    → find r ps ≡ some p
    → any f ps ≡ false
    → f p ≡ false
unfolding find
find-not_any f r [] p h a = cc
find-not_any f r (x ∷ xs) p h a = ground (arith, find-not_any f r xs p)

pub has_key-same :
    (a b : Request) (qs : List Pending) → same_key a b ≡ true → has_key a qs ≡ has_key b qs
has_key-same a b [] e = refl
has_key-same a b (q ∷ qs) e = ground (arith, has_key-same a b qs)

-- A key that is removed from a list without repetitions is gone.
pub has_key-remove_self :
    (r : Request) (ps : List Pending) → is_keyed ps ≡ true → has_key r (remove r ps) ≡ false
unfolding remove
has_key-remove_self r [] h = refl
has_key-remove_self r (p ∷ ps) h =
    ground (arith, has_key-remove_self r ps, has_key-same p.request r ps)
