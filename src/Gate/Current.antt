-- ===== src/Gate/Current.antt =====
-- What `validate_current` of runtime/rx-host/src/gate/validation.rs shows, and what it is for:
-- `authorize` of gate/dispatch.rs reaches the adapter from a current state of the gate only.
pub mod Submission
use rx_solutions.Base.{
  ℕ, ◌≡◌, ◌≢◌, ◌⊎◌, inl, inr, refl, Bool, true, false, not, ◌||◌, ◌&&◌, any, Option, none, some,
  List, [], ◌∷◌, arith, ltb, ◌==◌, if◌then◌else◌, Result, ok, err, is_empty, contains, lookup,
  Bool-cases, Option-cases, Result-cases,
}
use rx_solutions.Domain.Types.{Uuid, Name, Counter, TimePoint}
use rx_solutions.Gate.Model.{
  Caller, CellState, StoredGrant, ResourceFence, Request, Guard, NativeCapture, CellTarget,
  HostError, DeliveryRecord, StoreError,
}
use rx_solutions.Gate.Store.{Row, Store, Table}
use rx_solutions.Gate.Store.Laws.{document_of, document_at}
use rx_solutions.Gate.Core.{Core, Hashes, before, require_admission}
use rx_solutions.Gate.Validation.{
  Local, same_scopes, context_fault, check_fences, check_context, check_guard, validate_current,
}
use rx_solutions.Gate.Dispatch.{
  Entry, replayed, entered, enter, proceed, submit, submit_native, authorize,
}

abbrev pub is_maximum : Counter → Option ResourceFence → Bool
is_maximum fence none = false
is_maximum fence (some r) = fence == r.maximum

-- The cell is as the permit says, and nothing blocks it.
abbrev pub is_open : Request → Option CellState → Bool
is_open r none = false
is_open r (some s) =
    s.epoch == r.permit.epoch && same_scopes s.scopes r.permit.scopes && is_empty s.blocked

-- The grant is the caller's, from this process, and has not run out.
abbrev pub is_held : Caller → Uuid → TimePoint → Option StoredGrant → Bool
is_held caller boot now none = false
is_held caller boot now (some g) =
    g.host_boot == boot
    && g.owner == caller.peer
    && g.session == caller.session
    && before now g.expires_at

abbrev pub is_covered : Name → Table ResourceFence → Option StoredGrant → Bool
is_covered x t none = false
is_covered x t (some g) = contains x g.resources && is_maximum g.fence (document_at x t)

pub record IsCurrent (caller : Caller) (r : Request) (now : TimePoint) (c : Core) : Type 0 where
  pub accepting : c.accepting ≡ true
  pub armed : contains r.permit.cell c.armed ≡ true
  pub same_boot : r.permit.host_boot ≡ c.boot
  pub unexpired : before now r.permit.expires_at ≡ true
  pub not_retired : document_at r.permit.id c.durable.retired_permits ≡ none
  pub cell_open : is_open r (document_at r.permit.cell c.durable.cells) ≡ true
  pub grant_held : is_held caller c.boot now (document_at r.grant c.durable.grants) ≡ true
  pub covered :
      (x : Name)
      → contains x r.intent.resource_set ≡ true
      → is_covered x c.durable.resources (document_at r.grant c.durable.grants) ≡ true

check_fences-maximum :
    (fence : Counter) (xs : List Name) (s : Store) (x : Name)
    → check_fences fence xs s ≡ ok tt
    → contains x xs ≡ true
    → is_maximum fence (document_at x s.resources) ≡ true
unfolding check_fences contains
check_fences-maximum fence [] s x h e = cc
check_fences-maximum fence (y ∷ ys) s x h e = ground (arith, check_fences-maximum fence ys s x)

any_outside :
    (xs ys : List Name) (x : Name)
    → any (λ y. not (contains y ys)) xs ≡ false
    → contains x xs ≡ true
    → contains x ys ≡ true
unfolding contains
any_outside [] ys x h e = cc
any_outside (z ∷ zs) ys x h e = ground (arith, any_outside zs ys x)

check_context-IsCurrent :
    (caller : Caller) (r : Request) (l : Local) (c : Core)
    → c.accepting ≡ true
    → contains r.permit.cell c.armed ≡ true
    → r.permit.host_boot ≡ c.boot
    → before l.now r.permit.expires_at ≡ true
    → check_context caller r l c ≡ ok tt
    → IsCurrent caller r l.now c
unfolding check_context context_fault
check_context-IsCurrent caller r l c a m b u h =
    elim (Option-cases (lookup r.permit.id c.durable.retired_permits)) [
      | inr (row, p) ↦ absurd (ground (arith, p, h))
      | inl p ↦ elim (Option-cases (lookup r.permit.cell c.durable.cells)) [
        | inl q ↦ absurd (ground (arith, p, q, h))
        | inr (cell, q) ↦ elim (Option-cases (lookup r.grant c.durable.grants)) [
          | inl f ↦ absurd (ground (arith, p, q, f, h))
          | inr (grant, f) ↦
              elim (Bool-cases (context_fault cell.document grant.document caller r l.now c)) [
                | inl k ↦ absurd (ground (arith, p, q, f, k, h))
                | inr k ↦
                    elim (Result-cases
                      (check_fences grant.document.fence r.intent.resource_set c.durable)) [
                        | inr (x, w) ↦ absurd (ground (arith, p, q, f, k, w, h))
                        | inl (y, w) ↦ record {
                          accepting = a;
                          armed = m;
                          same_boot = b;
                          unexpired = u;
                          not_retired = rw p refl;
                          cell_open = rw q (ground (arith, k));
                          grant_held = rw f (ground (arith, k));
                          covered = λ x e. rw f (
                              ground (
                                arith,
                                k,
                                any_outside r.intent.resource_set grant.document.resources x,
                                check_fences-maximum grant.document.fence r.intent.resource_set
                                    c.durable x w e,
                                e,
                              ));
                        }
                      ]
              ]
        ]
      ]
    ]

pub validate_current-IsCurrent :
    (caller : Caller) (r : Request) (l : Local) (c : Core) {g : Guard}
    → validate_current caller r l c ≡ ok g
    → IsCurrent caller r l.now c
unfolding validate_current require_admission
validate_current-IsCurrent caller r l c h = elim (Result-cases (check_context caller r l c)) [
  | inr (x, e) ↦ absurd (ground (arith, e, h))
  | inl (u, e) ↦
      check_context-IsCurrent caller r l c (ground (arith, h)) (ground (arith, h))
        (ground (arith, h)) (ground (arith, h)) e
]
