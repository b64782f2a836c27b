-- ===== src/Domain/Operation/Tests.antt =====
-- Runs of the methods of sdk/crates/rx-domain/src/operation.rs, and the laws at them.
use rx_solutions.Base.{
  ◌≤◌, ◌≡◌, refl, true, List, [], ◌∷◌, ok, err, any, contains, sort, sort_insert,
}
use rx_solutions.Domain.Types.{invalid_transition}
use rx_solutions.Domain.Operation.{
  settled, succeeded, failed, Operation, Conclusion, ReleaseConditions, to_snapshot, try_from,
  admit, add_all, add_evidence, Call, disputes, sends, observes_running, concludes, releases, call,
  run,
}
use rx_solutions.Domain.Operation.Stored.{IsStored, try_from-IsStored, try_from-run}
use rx_solutions.Domain.Operation.Atomic.{call_error_unchanged}
use rx_solutions.Domain.Operation.History.{
  is_proven, run-settled, run-released, entries, entries-le_one,
}

abbrev confirmed : ReleaseConditions
confirmed = record {
  no_residual_native = true;
  control_handover_confirmed = true;
  support_handover_confirmed = true;
}

abbrev success : Conclusion
success = record { outcome = succeeded; evidence_ids = 9 ∷ 4 ∷ [] }

abbrev failure : Conclusion
failure = record { outcome = failed; evidence_ids = 5 ∷ [] }

-- Sent, seen running, concluded and handed over.
abbrev life : List Call
life = sends ∷ observes_running 7 ∷ concludes success ∷ releases confirmed (7 ∷ 3 ∷ []) ∷ []

abbrev finished : Operation
finished = run life (admit 1 2)

life_evidence : finished.evidence_ids ≡ 3 ∷ 4 ∷ 7 ∷ 9 ∷ []
unfolding run call admit add_all add_evidence contains sort sort_insert
life_evidence = refl

life_revision : finished.revision ≡ 5
unfolding run call admit add_all add_evidence contains sort sort_insert
life_revision = refl

second_sent_fails : (call sends finished).0 ≡ err invalid_transition
unfolding run call admit add_all add_evidence contains sort sort_insert
second_sent_fails = refl

finished-IsStored : IsStored finished
unfolding run call admit add_all add_evidence contains sort sort_insert
finished-IsStored = (try_from-IsStored finished).0 (try_from-run 1 2 life)

try_from-run_example : try_from (to_snapshot finished) ≡ ok finished
try_from-run_example = try_from-run 1 2 life

call_error_unchanged_example : (call sends finished).1 ≡ finished
call_error_unchanged_example = call_error_unchanged sends finished second_sent_fails

-- Disputed while it ran, then seen running again.
abbrev contested : Operation
contested = run (sends ∷ disputes ∷ observes_running 7 ∷ []) (admit 1 2)

run-settled_example :
    ((run (concludes failure ∷ disputes ∷ []) finished).phase ≡ settled)
    × ((run (concludes failure ∷ disputes ∷ []) finished).outcome ≡ finished.outcome)
unfolding run call admit add_all add_evidence contains sort sort_insert
run-settled_example = run-settled (concludes failure ∷ disputes ∷ []) finished refl

contested-IsStored : IsStored contested
contested-IsStored =
    (try_from-IsStored contested).0 (try_from-run 1 2 (sends ∷ disputes ∷ observes_running 7 ∷ []))

run-released_example : any is_proven life ≡ true
unfolding run call admit add_all add_evidence contains sort sort_insert
run-released_example = run-released life (admit 1 2) refl refl

entries-le_one_example : entries (sends ∷ life) (admit 1 2) ≤ 1
entries-le_one_example = entries-le_one (sends ∷ life) (admit 1 2)
