-- ===== src/Domain/Operation/Atomic.antt =====
-- Failures of the methods of sdk/crates/rx-domain/src/operation.rs, and their revisions.
use rx_solutions.Base.{◌+◌, ◌≡◌, ◌⊎◌, arith, err}
use rx_solutions.Domain.Types.{DomainError}
use rx_solutions.Domain.Operation.{
  reconciling, running, unknown, disputed, released, active, Operation, Call, quarantines, disputes,
  sends, loses_continuity, observes_running, concludes, releases, call,
}
use rx_solutions.Domain.Operation.Stored.{IsStored, add_evidence-frame, add_all-frame}

-- A call that fails leaves the operation as it was.
pub call_error_unchanged :
    (c : Call) (o : Operation) {e : DomainError} → (call c o).0 ≡ err e → (call c o).1 ≡ o
unfolding call
call_error_unchanged quarantines o h = ground arith
call_error_unchanged disputes o h = ground arith
call_error_unchanged sends o h = ground arith
call_error_unchanged loses_continuity o h = ground arith
call_error_unchanged (observes_running e) o h = ground arith
call_error_unchanged (concludes c) o h = ground arith
call_error_unchanged (releases c es) o h = ground arith

-- What a call may do to the revision.
abbrev pub Revises : Operation → Operation → Type 0
Revises o p =
    (p ≡ o)
    ⊎ (p.revision ≡ o.revision + 1)
    ⊎ ((o.integrity ≡ disputed)
        × (p ≡ record o { phase = reconciling; execution_knowledge = unknown }))

-- On an operation that meets the conditions of the stored form, a call leaves it as it was, or
-- raises its revision by one, or, on a disputed operation, sets the phase to reconciling and the
-- knowledge to unknown and changes nothing else.
pub call-Revises : (c : Call) (o : Operation) → IsStored o → Revises o (call c o).1
unfolding call
call-Revises quarantines o h = ground arith
call-Revises disputes o h = ground arith
call-Revises sends o h = ground arith
call-Revises loses_continuity o h = ground arith
call-Revises (observes_running e) o h =
    let o' = record o { revision = o.revision + 1; execution_knowledge = running } in
    let o'' = record o' { phase = active } in
    ground (arith, add_evidence-frame e o', add_evidence-frame e o'')
call-Revises (concludes c) o h =
    ground (arith, add_all-frame c.evidence_ids (record o { revision = o.revision + 1 }))
call-Revises (releases c es) o h =
    ground
      (arith, add_all-frame es (record o { revision = o.revision + 1; disposition = released }))
