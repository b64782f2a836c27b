-- ===== src/Gate/Validation.antt =====
-- runtime/rx-host/src/gate/validation.rs: what a request must meet before it reaches the native side.
use rx_solutions.Base.{
  ℕ, Bool, true, false, not, ◌&&◌, ◌||◌, Option, none, some, List, [], ◌∷◌, ltb, ◌==◌,
  if◌then◌else◌, Result, ok, err, is_empty, any, all, contains, to_set, lookup,
}
use rx_solutions.Domain.Types.{Uuid, Digest, Name, Counter, TimePoint}
use rx_solutions.Domain.Intent.{Intent, normalized}
use rx_solutions.Gate.Model.{
  Caller, Binding, Purpose, production, setup, recovery, PermitParent, mandate, recovery_step,
  CellState, DeliveryRecord, StoredGrant, Request, Guard, CellTarget, StoreError, invalid_document,
  HostError, store, invalid, conflict, forbidden, stale, guard,
}
use rx_solutions.Gate.Store.{Store}
use rx_solutions.Gate.Core.{Core, Hashes, require_admission, before}

abbrev pub same_list : List ℕ → List ℕ → Bool
same_list [] [] = true
same_list (x ∷ xs) (y ∷ ys) = x == y && same_list xs ys
same_list _ _ = false

abbrev pub same_scopes : List (Name × Counter) → List (Name × Counter) → Bool
same_scopes [] [] = true
same_scopes ((k, v) ∷ m) ((j, w) ∷ n) = k == j && v == w && same_scopes m n
same_scopes _ _ = false

abbrev pub scope_names : List (Name × Counter) → List Name
scope_names [] = []
scope_names ((k, v) ∷ m) = k ∷ scope_names m

abbrev pub has_zero : List (Name × Counter) → Bool
has_zero [] = false
has_zero ((k, v) ∷ m) = v == 0 || has_zero m

abbrev pub same_purpose : Purpose → Purpose → Bool
same_purpose production production = true
same_purpose setup setup = true
same_purpose recovery recovery = true
same_purpose _ _ = false

-- `validate_scopes`.
unfoldable pub validate_scopes : Binding → List (Name × Counter) → Result HostError (Unit {0})
validate_scopes b scopes =
    if not (same_list (to_set (scope_names scopes)) (to_set b.scope_ids)) || has_zero scopes
    then err stale
    else ok tt

-- `Intent::digest`: the hash of the normal form.
unfoldable pub digest_of : Hashes → Intent → Option Digest
digest_of h i = elim (normalized i) [ err e ↦ none | ok j ↦ some (h.intent_hash j) ]

abbrev pub is_digest : Option Digest → Digest → Bool
is_digest none d = false
is_digest (some e) d = e == d

abbrev pub qualified_as : Option CellTarget → Binding → Uuid
qualified_as none b = b.qualification
qualified_as (some q) b = q.qualification

abbrev pub qualified_at : Option CellTarget → Binding → Counter
qualified_at none b = b.qualification_revision
qualified_at (some q) b = q.qualification_revision

abbrev pub outside_target : Option CellTarget → Digest → Purpose → Bool
outside_target none d p = false
outside_target (some q) d p =
    not (contains d q.allowed_intents) || not (any (same_purpose p) q.purposes)

abbrev pub parent_fits : Purpose → PermitParent → Bool
parent_fits production (mandate m) = true
parent_fits setup (mandate m) = true
parent_fits recovery (recovery_step case plan step visit) = ltb 0 visit
parent_fits _ _ = false

-- The tests of `validate_identity` over the binding and the qualified target.
unfoldable pub identity_fault : Hashes → Option CellTarget → Binding → Request → Bool
identity_fault h q b r =
    not (any (same_purpose r.permit.purpose) b.purposes)
    || not (r.permit.operation == r.operation)
    || not (r.permit.digest == r.digest)
    || not (r.permit.grant == r.grant)
    || not (r.permit.envelope == b.envelope.sha256)
    || not (r.permit.qualification == qualified_as q b)
    || not (r.permit.qualification_revision == qualified_at q b)
    || outside_target q r.digest r.permit.purpose
    || not (any (λ i. is_digest (digest_of h i) r.digest) b.allowed_intents)

-- `validate_identity`, over the answer of `qualification::current_target`.
unfoldable pub validate_identity :
    Hashes → Result HostError (Option CellTarget) → Request → Core → Result HostError (Unit {0})
unfolding identity_fault validate_scopes
validate_identity h target r c = elim target [
  | err e ↦ err e
  | ok q ↦ elim (lookup r.permit.cell c.bindings) [
    | none ↦ err forbidden
    | some b ↦
        if not (any (same_purpose r.permit.purpose) b.purposes)
        then err conflict
        else elim (digest_of h r.intent) [
          | none ↦ err invalid
          | some d ↦
              if not (d == r.digest) || identity_fault h q b r
              then err conflict
              else if not (parent_fits r.permit.purpose r.permit.parent)
              then err conflict
              else validate_scopes b r.permit.scopes
        ]
  ]
]

-- `same_operation`.
unfoldable pub same_operation : Hashes → DeliveryRecord → Request → Result HostError (Unit {0})
same_operation h d r =
    if not (d.digest == r.digest)
      || not (d.cell == r.permit.cell)
      || (d.permit == r.permit.id && not (d.permit_digest == h.permit_hash r.permit))
    then err conflict
    else ok tt

-- What `validate_current` reads outside the store: the clock, `qualification::current_target`,
-- the adapter's guard and `qualification::device_session`.
pub record Local : Type 0 where
  pub now : TimePoint
  pub target : Result HostError (Option CellTarget)
  pub native_guard : Result HostError Guard
  pub session : Result HostError (Option Uuid)

-- The tests of a request against the cell and the grant.
unfoldable pub context_fault : CellState → StoredGrant → Caller → Request → TimePoint → Core → Bool
unfolding before
context_fault cell grant caller r now c =
    not (cell.epoch == r.permit.epoch)
    || not (same_scopes cell.scopes r.permit.scopes)
    || not (is_empty cell.blocked)
    || not (grant.host_boot == c.boot)
    || not (grant.owner == caller.peer)
    || not (grant.session == caller.session)
    || not (before now grant.expires_at)
    || not (r.permit.expires_at.clock_id == grant.expires_at.clock_id)
    || ltb grant.expires_at.ticks_ns r.permit.expires_at.ticks_ns
    || any (λ x. not (contains x grant.resources)) r.intent.resource_set

-- The loop over the fences of the resources.
unfoldable pub check_fences : Counter → List Name → Store → Result StoreError (Unit {0})
check_fences fence [] s = ok tt
check_fences fence (x ∷ xs) s =
    let rest = check_fences fence xs s in
    elim (lookup x s.resources) [
      | none ↦ err invalid_document
      | some row ↦ if not (fence == row.document.maximum) then err invalid_document else rest
    ]

abbrev pub is_other : Option Uuid → Uuid → Bool
is_other none s = false
is_other (some t) s = not (t == s)

-- The end of `validate_current`: the binding's conditions and the local guard.
unfoldable pub check_guard : Binding → Request → Local → Result HostError Guard
unfolding before
check_guard b r l =
    if not (same_list r.permit.conditions (to_set b.condition_ids))
    then err guard
    else elim l.native_guard [
      | err e ↦ err e
      | ok g ↦ elim l.session [
        | err e ↦ err e
        | ok s ↦
            if is_other s g.device_session
            then err guard
            else if not (all (λ x. contains x g.satisfied) b.condition_ids)
                || not (before l.now g.valid_until)
            then err guard
            else ok g
      ]
    ]

-- The middle: the rows of the permit, the cell and the grant.
unfoldable pub check_context : Caller → Request → Local → Core → Result HostError (Unit {0})
unfolding context_fault check_fences
check_context caller r l c = elim (lookup r.permit.id c.durable.retired_permits) [
  | some row ↦ err (store invalid_document)
  | none ↦ elim (lookup r.permit.cell c.durable.cells) [
    | none ↦ err (store invalid_document)
    | some cell ↦ elim (lookup r.grant c.durable.grants) [
      | none ↦ err (store invalid_document)
      | some grant ↦
          if context_fault cell.document grant.document caller r l.now c
          then err stale
          else elim (check_fences grant.document.fence r.intent.resource_set c.durable) [
            | err e ↦ err (store e)
            | ok _ ↦ ok tt
          ]
    ]
  ]
]

-- `validate_current`.
unfoldable pub validate_current : Caller → Request → Local → Core → Result HostError Guard
unfolding require_admission before check_context check_guard
validate_current caller r l c = elim (require_admission c) [
  | err e ↦ err e
  | ok _ ↦
      if not (r.permit.host_boot == c.boot)
        || not (before l.now r.permit.expires_at)
        || not (contains r.permit.cell c.armed)
      then err stale
      else elim l.target [
        | err e ↦ err e
        | ok _ ↦ elim (check_context caller r l c) [
          | err e ↦ err e
          | ok _ ↦ elim (lookup r.permit.cell c.bindings) [
            | none ↦ err forbidden
            | some b ↦ check_guard b r l
          ]
        ]
      ]
]
