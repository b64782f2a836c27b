-- ===== src/Gate/Marks/Fenced.antt =====
-- A new fence of runtime/rx-host/src/gate/scopes.rs leaves its cell unarmed.
use rx_solutions.Base.{
  ◌≡◌, refl, Bool, true, false, not, ◌||◌, ◌&&◌, none, List, [], ◌∷◌, arith, ltb, ◌==◌, Result, ok,
  err, any, contains, retain, lookup, inl, inr, Bool-cases, Option-cases, Result-cases,
}
use rx_solutions.Domain.Types.{Uuid, Digest, Name, Counter}
use rx_solutions.Gate.Model.{Caller, GateReceipt, StoreError, HostError}
use rx_solutions.Gate.Store.{Store}
use rx_solutions.Gate.Core.{Core, Hashes, authorized, transact}
use rx_solutions.Gate.Validation.{validate_scopes}
use rx_solutions.Gate.Scopes.{Given, lowers, keep_fence, fence_tx, disarm, fence}
use rx_solutions.Gate.Once.{transact-ok, transact-err}

pub contains-retain :
    (x cell : Name) (xs : List Name)
    → contains x (retain (λ y. not (y == cell)) xs) ≡ (not (x == cell) && contains x xs)
unfolding contains
contains-retain x cell [] = ground arith
contains-retain x cell (y ∷ ys) = ground (arith, contains-retain x cell ys)

keep_fence-new :
    (id : Uuid) (fingerprint : Digest) (x : Result StoreError GateReceipt × Store) {g : GateReceipt}
    {replayed : Bool}
    → (keep_fence id fingerprint x).0 ≡ ok (g, replayed)
    → replayed ≡ false
unfolding keep_fence
keep_fence-new id fingerprint (err e, s) h = cc
keep_fence-new id fingerprint (ok r, s) h = ground arith

fence_tx-new :
    (id : Uuid) (fingerprint : Digest) (boot : Uuid) (cell : Name) (epoch : Counter)
    (scopes : List (Name × Counter)) (blocks : List Uuid) (s : Store) {g : GateReceipt}
    {replayed : Bool}
    → lookup id s.fence_requests ≡ none
    → (fence_tx id fingerprint boot cell epoch scopes blocks s).0 ≡ ok (g, replayed)
    → replayed ≡ false
unfolding fence_tx
fence_tx-new id fingerprint boot cell epoch scopes blocks s e h =
    elim (Option-cases (lookup cell s.cells)) [
      | inl f ↦ absurd (ground (arith, e, f, h))
      | inr (row, f) ↦
          elim (Bool-cases
            (ltb epoch row.document.epoch || any (lowers row.document.scopes) scopes)) [
              | inl w ↦ absurd (ground (arith, e, f, w, h))
              | inr w ↦ keep_fence-new id fingerprint _ (rw w at (rw f at (rw (e, fence_tx) at h)))
            ]
    ]

disarm-armed :
    (cell : Name) (x : Result HostError Given × Core) {g : GateReceipt}
    → ((r : GateReceipt) (replayed : Bool) → x.0 ≡ ok (r, replayed) → replayed ≡ false)
    → (disarm cell x).0 ≡ ok g
    → contains cell (disarm cell x).1.armed ≡ false
unfolding disarm
disarm-armed cell (err e, c) new h = cc
disarm-armed cell (ok (r, true), c) new h = absurd (ground (arith, new r true refl))
disarm-armed cell (ok (r, false), c) new h = ground (arith, contains-retain cell cell c.armed)

transact-new :
    (t : Store → Result StoreError Given × Store) (c : Core) (r : GateReceipt) (replayed : Bool)
    → ((r : GateReceipt) (replayed : Bool) → (t c.durable).0 ≡ ok (r, replayed) → replayed ≡ false)
    → (transact t c).0 ≡ ok (r, replayed)
    → replayed ≡ false
transact-new t c r replayed new h = elim (Result-cases (t c.durable).0) [
  | inr (x, e) ↦ absurd (ground (arith, transact-err t c e, h))
  | inl (a, e) ↦ new r replayed (ground (arith, transact-ok t c e, e, h))
]

pub fence-armed :
    (h : Hashes) (caller : Caller) (id : Uuid) (cell : Name) (epoch : Counter)
    (scopes : List (Name × Counter)) (blocks : List Uuid) (c : Core) {g : GateReceipt}
    → lookup id c.durable.fence_requests ≡ none
    → (fence h caller id cell epoch scopes blocks c).0 ≡ ok g
    → contains cell (fence h caller id cell epoch scopes blocks c).1.armed ≡ false
unfolding fence
fence-armed h caller id cell epoch scopes blocks c fresh k =
    elim (Result-cases (authorized caller c)) [
      | inr (x, e) ↦ absurd (ground (arith, e, k))
      | inl (u, e) ↦ elim (Option-cases (lookup cell c.bindings)) [
        | inl f ↦ absurd (ground (arith, e, f, k))
        | inr (b, f) ↦ elim (Result-cases (validate_scopes b scopes)) [
          | inr (x, w) ↦ absurd (ground (arith, e, f, w, k))
          | inl (y, w) ↦
              rw (e, fence)
                (rw f (
                  rw w (
                    disarm-armed cell _
                      (λ r replayed. transact-new _ c r replayed (λ r replayed.
                        fence_tx-new id _ c.boot cell epoch scopes blocks c.durable fresh))
                      (rw w at (rw f at (rw (e, fence) at k))))))
        ]
      ]
    ]
