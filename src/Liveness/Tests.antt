-- ===== src/Liveness/Tests.antt =====
-- Runs of the liveness check, and its theorems there.
use one_company.Prelude.{
  ◌≤◌, ◌≡◌, refl, String, true, false, List, [], ◌∷◌, ◌++◌, pos, ok, err, any, starts_with,
}
use one_company.Json.{Json, int, str, obj, Fields, field, end, get, has}
use one_company.Kernel.Restraint.{dedupe, without}
use one_company.Liveness.{
  max_stagnant_runs_invalid, limit_failures, event_failures, is_bounded, stagnant_after, advance,
  stagnation_failures, failures_from, check_liveness,
}
use one_company.Liveness.Bound.{count_key, stagnates, check_liveness-stagnates}

abbrev budget : Json
budget = obj (
    field "ci_reruns" (int (pos 1)) (
      field "fix_iterations" (int (pos 5))
        (field "review_rounds" (int (pos 0)) (field "lease_acquisitions" (int (pos 12)) end))))

abbrev event : String → String → String → Fields
event item status head = field "repo" (str "r") (
    field "item_id" (str item) (
      field "status" (str status) (
        field "budget" budget
          (field "head" (str head) (field "base" (str "b") (field "reason" (str "CI_RED") end))))))

abbrev repr : Json → String
repr v = "?"

abbrev text_of : Json → String
text_of (str s) = s
text_of _ = ""

abbrev dumps : Json → Json → String
dumps head base = text_of head

program : Unit {0}
unfolding get has any starts_with dedupe without limit_failures event_failures is_bounded
    stagnant_after advance stagnation_failures failures_from check_liveness count_key stagnates
program = tt

-- Two failures of one item at one head, another item between them, and a named wait.
abbrev stretch : List Fields
stretch = event "1" "FAILED" "h" ∷ event "2" "IDLE" "g" ∷ event "1" "FAILED" "h" ∷ []

abbrev trace : List Fields
trace = event "1" "WAIT" "h" ∷ (stretch ++ (event "1" "COMPLETE" "h" ∷ []))

accepted : check_liveness repr dumps trace 3 ≡ ok (true, [])
unfolding program
accepted = refl

stagnant :
    check_liveness repr dumps (event "1" "FAILED" "h" ∷ event "1" "BLOCKED" "h" ∷ []) 1
    ≡ ok (false, "UNBOUNDED_STAGNATION" ∷ [])
unfolding program
stagnant = refl

unbounded : check_liveness repr dumps [] 0 ≡ err max_stagnant_runs_invalid
unfolding program
unbounded = refl

check_liveness-stagnates_example : 2 ≤ 3
unfolding program
check_liveness-stagnates_example =
    check_liveness-stagnates repr dumps 3 (event "1" "WAIT" "h" ∷ []) stretch
      (event "1" "COMPLETE" "h" ∷ []) ("r", "1") "h" [] accepted refl
