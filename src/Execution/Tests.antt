-- ===== src/Execution/Tests.antt =====
-- Runs of the execution core, and its theorems there.
use one_company.Execution.Samples.{key, criteria, task, item, at, ready}
use one_company.Prelude.{
  ◌+◌, ◌≡◌, ◌≢◌, ◌↔◌, refl, String, true, false, List, [], ◌∷◌, none, some, ℤ, pos, ok, err, any,
  strip, lookup, store, keys, vals, arith,
}
use one_company.Json.{Json, str, field, end, get, has}
use one_company.Execution.Context.{
  default_budget, validate_budget, active, completion_pending, complete, stale_generation,
  invalid_transition, value_error, unknown_evidence, met, validate_key, validate_context, new,
  assert_key, rotate_generation, insert_text, sorted, sorted_set, unknown_of, is_complete,
}
use one_company.Execution.Guard.{
  check, record_usage, record_error, enforce_decision, enforce, observe, is_allowed,
}
use one_company.Execution.Board.{edit, upsert, set_status, add, keep_last, add_lesson}
use one_company.Execution.Completion.{
  ids_where, refs_of, unmet_of, all_refs, reasons_of, assess, is_met, is_stopped,
  record_worker_claim, apply_evaluator_verdict,
}
use one_company.Execution.Transition.{
  pause, resume, unblock, block, budget_limit, dispatch, transition, supervise,
  run_completion_evaluator, continue,
}
use one_company.Execution.Proven.{IsProven, assess-IsProven_iff}
use one_company.Execution.Accepted.{Edge}
use one_company.Execution.Steps.{
  Op, edits, upserts, adds, observes, fails, enforces, claims, judges, commands, step,
}
use one_company.Execution.Histories.{
  run, Completed, run_complete, run-Edge, run-IsProven, run-fenced,
}
use one_company.Execution.Stalls.{repeated, run-stalls}
use one_company.Execution.Supervision.{supervise-action_iff}

program : Unit {0}
unfolding strip get has any lookup store keys vals validate_key validate_budget validate_context new
    assert_key rotate_generation insert_text sorted sorted_set unknown_of check record_usage
    record_error enforce_decision enforce observe edit upsert set_status add keep_last add_lesson
    ids_where refs_of unmet_of all_refs reasons_of assess record_worker_claim
    apply_evaluator_verdict pause resume unblock block budget_limit dispatch transition supervise
    step run
program = tt

abbrev same : String → String
same s = s

abbrev sum : ℤ → ℤ → ℤ
sum (pos a) (pos b) = pos (a + b)
sum a b = a

abbrev repr : Json → String
repr v = "?"

started : new "WU-1" "ship" criteria default_budget "r1" (pos 1) ≡ ok (at 1 active)
unfolding program
started = refl

no_criteria :
    new "WU-1" "ship" [] default_budget "r1" (pos 1)
    ≡ err (value_error "objective and acceptance criteria are required")
unfolding program
no_criteria = refl

abbrev work : List Op
work =
    upserts (key 1) task (pos 2)
    ∷ adds (key 1) item (pos 3)
    ∷ claims (key 1) " done " (pos 4)
    ∷ judges (key 1) met (pos 0) "" ("E-1" ∷ []) (pos 5)
    ∷ []

finished : is_complete (run same sum repr (at 1 active) work).status ≡ true
unfolding program
finished = refl

unevidenced :
    (step same sum repr (at 1 completion_pending) (judges (key 1) met (pos 0) "" [] (pos 5))).1
    ≡ some
        (invalid_transition "evaluator cannot override missing deterministic completion evidence")
unfolding program
unevidenced = refl

unknown :
    (step same sum repr
      (at 1 completion_pending)
      (judges (key 1) met (pos 0) "" ("b" ∷ "a" ∷ "b" ∷ []) (pos 5))).1
    ≡ some (unknown_evidence ("a" ∷ "b" ∷ []))
unfolding program
unknown = refl

-- `edit` refuses empty criteria, and has written the objective.
half_edited : step same sum repr (at 1 active) (edits (key 1) (some "other") (some []) (pos 2)) ≡ (
  record (at 1 active) { objective = "other" },
  some (value_error "acceptance criteria cannot be empty"),
)
unfolding program
half_edited = refl

stale :
    (step same sum repr (at 2 active) (fails (key 1) (pos 2))).1
    ≡ some (stale_generation (key 2) (key 1))
unfolding program
stale = refl

third_error :
    step same sum repr
      (run same sum repr
        (at 1 active)
        (fails (key 1) (pos 2) ∷ fails (key 1) (pos 2) ∷ fails (key 1) (pos 2) ∷ []))
      (commands (key 1) "resume" (pos 3) end)
    ≡ (
      record (at 1 active) { consecutive_errors = 3; updated_at = pos 2 },
      some (invalid_transition "resume requires paused or budget_limited state"),
    )
unfolding program
third_error = refl

run-IsProven_example : Completed (run same sum repr (at 1 active)) work
unfolding program
run-IsProven_example = run-IsProven same sum repr (at 1 active) work refl refl

abbrev claimed : List Op
claimed =
    upserts (key 1) task (pos 2) ∷ adds (key 1) item (pos 3) ∷ claims (key 1) " done " (pos 4) ∷ []

run-Edge_example : Edge completion_pending complete
unfolding program
run-Edge_example =
    run-Edge same sum repr (at 1 active) claimed
      (judges (key 1) met (pos 0) "" ("E-1" ∷ []) (pos 5))

run_complete_example :
    run same sum repr (at 1 complete) (
      fails (key 1) (pos 2)
      ∷ commands (key 1) "block" (pos 2) (field "reason" (str "x") end)
      ∷ work)
    ≡ at 1 complete
run_complete_example =
    run_complete same sum repr (at 1 complete)
      (fails (key 1) (pos 2)
        ∷ commands (key 1) "block" (pos 2) (field "reason" (str "x") end)
        ∷ work)
      refl

run-fenced_example :
    (step same sum repr
      (run same sum repr (at 2 active) (fails (key 2) (pos 2) ∷ []))
      (fails (key 1) (pos 3))).1
    ≢ none
run-fenced_example =
    run-fenced same sum repr (at 2 active) (fails (key 2) (pos 2) ∷ []) (fails (key 1) (pos 3))
      (omega arith)

run-stalls_example :
    let seen = run same sum repr (at 1 active) (repeated 4 (observes (key 1) "f" (pos 2))) in
    (is_allowed (check seen) ≡ false)
    × (is_stopped ((step same sum repr seen (enforces (key 1) none (pos 2))).0).status ≡ true)
unfolding validate_key strip
run-stalls_example = run-stalls same sum repr (at 1 active) "f" (pos 2) 3 refl refl (omega arith)

supervise-action_iff_example :
    (((supervise ready).action ≡ continue) ↔ ((false ≡ true) × (is_allowed (check ready) ≡ true)))
    × (((supervise ready).action ≡ run_completion_evaluator) ↔ ((true ≡ true) × IsProven ready))
supervise-action_iff_example = supervise-action_iff ready

assess-IsProven_iff_example : (is_met (assess ready).verdict ≡ true) ↔ IsProven ready
assess-IsProven_iff_example = assess-IsProven_iff ready

ready_met : is_met (assess ready).verdict ≡ true
unfolding program
ready_met = refl
