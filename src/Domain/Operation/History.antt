-- ===== src/Domain/Operation/History.antt =====
-- What holds along every history of calls on an operation.
use rx_solutions.Base.{
  ℕ, ◌+◌, ◌≤◌, ◌≡◌, Bool, true, false, not, ◌&&◌, List, [], ◌∷◌, arith, Result, ok, if◌then◌else◌,
  Bool-cases, inl, inr, is_empty, any,
}
use rx_solutions.Domain.Types.{DomainError}
use rx_solutions.Domain.Operation.{
  admitted, settled, disputed, quarantined, released, Operation, is_admitted, is_released, running,
  active, Call, quarantines, disputes, sends, loses_continuity, observes_running, concludes,
  releases, call, run,
}
use rx_solutions.Domain.Operation.Stored.{IsStored, add_evidence-frame, add_all-frame, run-IsStored}

-- Of the fields that the laws below speak of.
record Keeps (o p : Operation) : Type 0 where
  still_settled : o.phase ≡ settled → (p.phase ≡ settled) × (p.outcome ≡ o.outcome)
  still_disputed : o.integrity ≡ disputed → p.integrity ≡ disputed
  never_readmitted : p.phase ≡ admitted → o.phase ≡ admitted
  same_identity : (p.operation_id ≡ o.operation_id) × (p.intent_digest ≡ o.intent_digest)

call-Keeps : (c : Call) (o : Operation) → Keeps o (call c o).1
unfolding call
call-Keeps quarantines o = ground arith
call-Keeps disputes o = ground arith
call-Keeps sends o = ground arith
call-Keeps loses_continuity o = ground arith
call-Keeps (observes_running e) o =
    let o' = record o { revision = o.revision + 1; execution_knowledge = running } in
    let o'' = record o' { phase = active } in
    ground (arith, add_evidence-frame e o', add_evidence-frame e o'')
call-Keeps (concludes c) o =
    ground (arith, add_all-frame c.evidence_ids (record o { revision = o.revision + 1 }))
call-Keeps (releases c es) o =
    ground
      (arith, add_all-frame es (record o { revision = o.revision + 1; disposition = released }))

run-Keeps : (cs : List Call) (o : Operation) → Keeps o (run cs o)
unfolding run
run-Keeps [] o = ground arith
run-Keeps (c ∷ cs) o = ground (arith, call-Keeps c o, run-Keeps cs (call c o).1)

-- A settled operation stays settled, with the outcome that it settled with.
pub run-settled :
    (cs : List Call) (o : Operation)
    → o.phase ≡ settled
    → ((run cs o).phase ≡ settled) × ((run cs o).outcome ≡ o.outcome)
run-settled cs o h = (run-Keeps cs o).still_settled h

-- A disputed operation stays disputed and quarantined: its resources are never released again.
pub run-disputed :
    (cs : List Call) (o : Operation)
    → IsStored o
    → o.integrity ≡ disputed
    → ((run cs o).integrity ≡ disputed) × ((run cs o).disposition ≡ quarantined)
run-disputed cs o v h =
    let d = (run-Keeps cs o).still_disputed h in (d, (run-IsStored cs o v).disputed_quarantined d)

-- A call of `release` with every handover condition confirmed and some evidence.
abbrev pub is_proven : Call → Bool
is_proven (releases c es) =
    c.no_residual_native
    && c.control_handover_confirmed
    && c.support_handover_confirmed
    && not (is_empty es)
is_proven _ = false

call-released :
    (c : Call) (o : Operation)
    → is_released o.disposition ≡ false
    → is_released (call c o).1.disposition ≡ true
    → is_proven c ≡ true
unfolding call
call-released quarantines o n h = ground arith
call-released disputes o n h = ground arith
call-released sends o n h = ground arith
call-released loses_continuity o n h = ground arith
call-released (observes_running e) o n h =
    let o' = record o { revision = o.revision + 1; execution_knowledge = running } in
    let o'' = record o' { phase = active } in
    ground (arith, add_evidence-frame e o', add_evidence-frame e o'')
call-released (concludes c) o n h =
    ground (arith, add_all-frame c.evidence_ids (record o { revision = o.revision + 1 }))
call-released (releases c es) o n h = ground arith

-- From an operation that is not released, whatever the history, a resource that is released at its
-- end was released by a call that had every handover condition confirmed and gave evidence.
pub run-released :
    (cs : List Call) (o : Operation)
    → is_released o.disposition ≡ false
    → is_released (run cs o).disposition ≡ true
    → any is_proven cs ≡ true
unfolding run
run-released [] o n h = cc
run-released (c ∷ cs) o n h = elim (Bool-cases (is_released (call c o).1.disposition)) [
  | inl now ↦ rw (call-released c o n now)
  | inr later ↦ ground (arith, run-released cs (call c o).1 later)
]

-- How many calls of `sent` in a history succeed.
abbrev pub enters : Call → Result DomainError (Unit {0}) → ℕ
enters sends (ok _) = 1
enters _ _ = 0

pub entries : List Call → Operation → ℕ
entries [] o = 0
entries (c ∷ cs) o = enters c (call c o).0 + entries cs (call c o).1

call-enters :
    (c : Call) (o : Operation)
    → enters c (call c o).0 + (if is_admitted (call c o).1.phase then 1 else 0)
      ≤ (if is_admitted o.phase then 1 else 0)
unfolding call
call-enters sends o = ground arith
call-enters quarantines o = ground arith
call-enters disputes o = ground arith
call-enters loses_continuity o = ground arith
call-enters (observes_running e) o =
    let o' = record o { revision = o.revision + 1; execution_knowledge = running } in
    let o'' = record o' { phase = active } in
    ground (arith, add_evidence-frame e o', add_evidence-frame e o'')
call-enters (concludes c) o =
    ground (arith, add_all-frame c.evidence_ids (record o { revision = o.revision + 1 }))
call-enters (releases c es) o =
    ground
      (arith, add_all-frame es (record o { revision = o.revision + 1; disposition = released }))

entries-le :
    (cs : List Call) (o : Operation) → entries cs o ≤ (if is_admitted o.phase then 1 else 0)
unfolding entries
entries-le [] o = omega arith
entries-le (c ∷ cs) o = omega (arith, call-enters c o, entries-le cs (call c o).1)

-- An operation enters native dispatch at most once, whatever is called before, between and after.
pub entries-le_one : (cs : List Call) (o : Operation) → entries cs o ≤ 1
entries-le_one cs o = ground (arith, entries-le cs o)
