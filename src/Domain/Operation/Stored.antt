-- ===== src/Domain/Operation/Stored.antt =====
-- What a stored operation satisfies, and that each method keeps it.
use rx_solutions.Base.{
  ◌+◌, ◌<◌, ◌≡◌, refl, ◌↔◌, ◌∙◌, true, false, not, ◌&&◌, ◌||◌, List, [], ◌∷◌, ◌++◌, arith, ◌==◌,
  ==-self, ok, is_empty, length-to_set, contains, distinct, contains-sort, distinct-sort,
}
use rx_solutions.Domain.Types.{Uuid, Digest}
use rx_solutions.Domain.Operation.{
  active, running, settled, disputed, quarantined, released, Operation, Conclusion,
  ReleaseConditions, is_settled, is_none, is_empty, terminal_knowledge, to_snapshot, try_from,
  admit, add_evidence, add_all, quarantine, dispute, sent, lose_continuity, observed_running,
  conclude, release, Call, quarantines, disputes, sends, loses_continuity, observes_running,
  concludes, releases, call, run,
}

pub record IsStored (o : Operation) : Type 0 where
  pub revision_positive : 0 < o.revision
  pub outcome_settled : is_settled o.phase ≡ not (is_none o.outcome)
  pub disputed_quarantined : o.integrity ≡ disputed → o.disposition ≡ quarantined
  pub released_settled : o.disposition ≡ released → o.phase ≡ settled
  pub settled_evidence : o.phase ≡ settled → is_empty o.evidence_ids ≡ false
  pub settled_knowledge : o.phase ≡ settled → o.execution_knowledge ≡ terminal_knowledge o.outcome
  pub evidence_distinct : distinct o.evidence_ids ≡ true

-- The checks of `try_from` are these conditions.
pub try_from-IsStored : (o : Operation) → (try_from (to_snapshot o) ≡ ok o) ↔ IsStored o
unfolding try_from to_snapshot terminal_knowledge
try_from-IsStored o = (
  (λ h. ground (arith, length-to_set o.evidence_ids)),
  λ h. ground (arith, length-to_set o.evidence_ids),
)

-- Evidence is only added, and never twice.
pub add_evidence-frame :
    (e : Uuid) (o : Operation)
    → add_evidence e o ≡ record o { evidence_ids = (add_evidence e o).evidence_ids }
unfolding add_evidence
add_evidence-frame e o = ground arith

pub add_all-frame :
    (es : List Uuid) (o : Operation)
    → add_all es o ≡ record o { evidence_ids = (add_all es o).evidence_ids }
unfolding add_all
add_all-frame [] o = refl
add_all-frame (e ∷ es) o =
    ground (arith, add_all-frame es (add_evidence e o), add_evidence-frame e o)

contains-append :
    (y : Uuid) (xs : List Uuid) (e : Uuid) → contains y (xs ++ e ∷ []) ≡ (y == e || contains y xs)
unfolding contains
contains-append y [] e = refl
contains-append y (x ∷ xs) e = ground (arith, contains-append y xs e)

distinct-append :
    (xs : List Uuid) (e : Uuid) → distinct (xs ++ e ∷ []) ≡ (not (contains e xs) && distinct xs)
unfolding distinct contains
distinct-append [] e = refl
distinct-append (x ∷ xs) e = ground (arith, distinct-append xs e, contains-append x xs e)

add_evidence-distinct :
    (e : Uuid) (o : Operation)
    → distinct o.evidence_ids ≡ true
    → distinct (add_evidence e o).evidence_ids ≡ true
unfolding add_evidence
add_evidence-distinct e o h =
    ground (arith, distinct-sort (o.evidence_ids ++ e ∷ []), distinct-append o.evidence_ids e)

pub add_all-distinct :
    (es : List Uuid) (o : Operation)
    → distinct o.evidence_ids ≡ true
    → distinct (add_all es o).evidence_ids ≡ true
unfolding add_all
add_all-distinct [] o h = h
add_all-distinct (e ∷ es) o h = add_all-distinct es (add_evidence e o) (add_evidence-distinct e o h)

pub contains-add_evidence :
    (y e : Uuid) (o : Operation)
    → contains y (add_evidence e o).evidence_ids ≡ (y == e || contains y o.evidence_ids)
unfolding add_evidence
contains-add_evidence y e o =
    ground (arith, contains-sort y (o.evidence_ids ++ e ∷ []), contains-append y o.evidence_ids e)

pub contains-add_all :
    (y : Uuid) (es : List Uuid) (o : Operation)
    → contains y (add_all es o).evidence_ids ≡ (contains y es || contains y o.evidence_ids)
unfolding add_all contains
contains-add_all y [] o = refl
contains-add_all y (e ∷ es) o =
    ground (arith, contains-add_all y es (add_evidence e o), contains-add_evidence y e o)

is_empty-contains : (y : Uuid) (xs : List Uuid) → contains y xs ≡ true → is_empty xs ≡ false
unfolding contains
is_empty-contains y [] h = cc
is_empty-contains y (x ∷ xs) h = refl

pub is_empty-add_all :
    (es : List Uuid) (o : Operation)
    → is_empty es ≡ false
    → is_empty (add_all es o).evidence_ids ≡ false
unfolding contains
is_empty-add_all [] o h = cc
is_empty-add_all (e ∷ es) o h =
    is_empty-contains e (add_all (e ∷ es) o).evidence_ids
      (contains-add_all e (e ∷ es) o ∙ rw (==-self e))

is_empty-keep :
    (es : List Uuid) (o : Operation)
    → is_empty o.evidence_ids ≡ false
    → is_empty (add_all es o).evidence_ids ≡ false
is_empty-keep [] o h = unfold add_all in h
is_empty-keep (e ∷ es) o h = is_empty-add_all (e ∷ es) o refl

admit-IsStored : (id : Uuid) (digest : Digest) → IsStored (admit id digest)
unfolding admit distinct
admit-IsStored id digest = ground arith

quarantine-IsStored : (o : Operation) → IsStored o → IsStored (quarantine o).1
unfolding quarantine
quarantine-IsStored o h = ground arith

dispute-IsStored : (o : Operation) → IsStored o → IsStored (dispute o).1
unfolding dispute
dispute-IsStored o h = ground arith

sent-IsStored : (o : Operation) → IsStored o → IsStored (sent o).1
unfolding sent
sent-IsStored o h = ground arith

lose_continuity-IsStored : (o : Operation) → IsStored o → IsStored (lose_continuity o).1
unfolding lose_continuity
lose_continuity-IsStored o h = ground arith

observed_running-IsStored :
    (e : Uuid) (o : Operation) → IsStored o → IsStored (observed_running e o).1
unfolding observed_running
observed_running-IsStored e o h =
    let o' = record o { revision = o.revision + 1; execution_knowledge = running } in
    let o'' = record o' { phase = active } in
    ground (
      arith,
      add_evidence-frame e o',
      add_evidence-frame e o'',
      add_evidence-distinct e o',
      add_evidence-distinct e o'',
    )

conclude-IsStored : (c : Conclusion) (o : Operation) → IsStored o → IsStored (conclude c o).1
unfolding conclude
conclude-IsStored c o h = ground (
  arith,
  add_all-frame c.evidence_ids (record o { revision = o.revision + 1 }),
  add_all-distinct c.evidence_ids (record o { revision = o.revision + 1 }),
  is_empty-add_all c.evidence_ids (record o { revision = o.revision + 1 }),
)

release-IsStored :
    (c : ReleaseConditions) (es : List Uuid) (o : Operation)
    → IsStored o
    → IsStored (release c es o).1
unfolding release
release-IsStored c es o h = ground (
  arith,
  add_all-frame es (record o { revision = o.revision + 1; disposition = released }),
  add_all-distinct es (record o { revision = o.revision + 1; disposition = released }),
  is_empty-add_all es (record o { revision = o.revision + 1; disposition = released }),
)

-- Every method, whether it succeeds or fails, keeps the conditions of the stored form.
pub call-IsStored : (c : Call) (o : Operation) → IsStored o → IsStored (call c o).1
unfolding call
call-IsStored quarantines o h = quarantine-IsStored o h
call-IsStored disputes o h = dispute-IsStored o h
call-IsStored sends o h = sent-IsStored o h
call-IsStored loses_continuity o h = lose_continuity-IsStored o h
call-IsStored (observes_running e) o h = observed_running-IsStored e o h
call-IsStored (concludes c) o h = conclude-IsStored c o h
call-IsStored (releases c es) o h = release-IsStored c es o h

pub run-IsStored : (cs : List Call) (o : Operation) → IsStored o → IsStored (run cs o)
unfolding run
run-IsStored [] o h = h
run-IsStored (c ∷ cs) o h = run-IsStored cs (call c o).1 (call-IsStored c o h)

-- After any history of calls on a new operation, its stored form is read back as the operation.
pub try_from-run :
    (id : Uuid) (digest : Digest) (cs : List Call)
    → let o = run cs (admit id digest) in try_from (to_snapshot o) ≡ ok o
try_from-run id digest cs =
    (try_from-IsStored (run cs (admit id digest))).1
      (run-IsStored cs (admit id digest) (admit-IsStored id digest))
