-- ===== src/Execution/Codec/Read.antt =====
-- `RunContext.from_dict` of scripts/execution_core.py. It gives `none` where the source raises, and for
-- a value of another type than the declared one, which the source takes as it is in some fields. The
-- time of a missing time stamp is an argument.
use one_company.Prelude.{
  ℕ, suc, ◌*◌, ◌-◌, String, Bool, true, false, ◌&&◌, List, [], ◌∷◌, Option, none, some, ℤ, pos,
  negsuc, ◌==◌, any, if◌then◌else◌, Result, ok, err, Dict,
}
use one_company.Json.{
  Json, null, bool, int, float, str, arr, obj, Items, nil, cons, Fields, end, field, get, get_or,
  unit, as_text, as_bool, as_dict,
}
use one_company.Execution.Codec.{of_nat}
use one_company.Execution.Context.{
  RunKey, ResourceBudget, validate_budget, RunStatus, active, paused, blocked, budget_limited,
  completion_pending, complete, TaskStatus, task_pending, task_in_progress, task_done, task_blocked,
  CompletionVerdict, continue, met, impossible, unavailable, TaskItem, EvidenceItem, LessonItem,
  RunContext, Error, validate_context,
}

-- What raises, raises.
infixl 5 ◌>>=◌
abbrev pub ◌>>=◌ : {A B : Type 0} → Option A → (A → Option B) → Option B
some a >>= next = next a
none >>= next = none

-- The readings of a value.
abbrev pub as_count : Json → Option ℕ
as_count (int (pos n)) = some n
as_count _ = none

-- float(v), for a float or an integer
abbrev pub as_units : Json → Option ℤ
as_units (float m) = some m
as_units (int (pos n)) = some (pos (n * unit))
as_units (int (negsuc n)) = some (negsuc (suc n * unit - 1))
as_units _ = none

abbrev pub as_optional : {A : Type 0} → (Json → Option A) → Json → Option (Option A)
as_optional f null = some none
as_optional f v = do a ← f v; some (some a)

module _ {A : Type 0} (read : Json → Option A) where
  unfoldable pub read_dict : Fields → Option (Dict A)
  read_dict end = some []
  read_dict (field k v fs) = do a ← read v; rest ← read_dict fs; some ((k, a) ∷ rest)

  unfoldable pub read_list : Items → Option (List A)
  read_list nil = some []
  read_list (cons v vs) = do a ← read v; rest ← read_list vs; some (a ∷ rest)

abbrev pub as_array : {A : Type 0} → (Json → Option A) → Json → Option (List A)
as_array f (arr vs) = read_list f vs
as_array f _ = none

abbrev pub as_object : {A : Type 0} → (Json → Option A) → Json → Option (Dict A)
as_object f (obj fs) = read_dict f fs
as_object f _ = none

abbrev pub run_status : String → Option RunStatus
run_status s =
    if s == "active"
    then some active
    else if s == "paused"
    then some paused
    else if s == "blocked"
    then some blocked
    else if s == "budget_limited"
    then some budget_limited
    else if s == "completion_pending"
    then some completion_pending
    else if s == "complete"
    then some complete
    else none

abbrev pub task_status : String → Option TaskStatus
task_status s =
    if s == "pending"
    then some task_pending
    else if s == "in_progress"
    then some task_in_progress
    else if s == "done"
    then some task_done
    else if s == "blocked"
    then some task_blocked
    else none

abbrev pub verdict_of : String → Option CompletionVerdict
verdict_of s =
    if s == "continue"
    then some continue
    else if s == "met"
    then some met
    else if s == "impossible"
    then some impossible
    else if s == "unavailable"
    then some unavailable
    else none

-- CompletionVerdict(verdict) if verdict else None
abbrev pub as_verdict : Json → Option (Option CompletionVerdict)
as_verdict null = some none
as_verdict (str s) = if s == "" then some none else (do v ← verdict_of s; some (some v))
as_verdict _ = none

-- A call with `**d` takes no other names than the fields'.
unfoldable pub only : List String → Fields → Bool
only names end = true
only names (field k v fs) = any (λ n. n == k) names && only names fs

abbrev pub checked : {A : Type 0} → Bool → Option A → Option A
checked true a = a
checked false a = none

abbrev pub is_ok : Result Error Unit → Bool
is_ok (ok _) = true
is_ok (err _) = false

abbrev pub as_key : Json → Option RunKey
as_key v = do
  d ← as_dict v
  wu_id ← as_text (get d "wu_id")
  run_id ← as_text (get d "run_id")
  generation ← as_count (get d "generation")
  checked (only ("wu_id" ∷ "run_id" ∷ "generation" ∷ []) d)
      (some (record { wu_id = wu_id; run_id = run_id; generation = generation }))

abbrev pub budget_names : List String
budget_names =
    "max_assistant_tokens" ∷ "max_active_seconds" ∷ "max_consecutive_errors"
    ∷ "max_unchanged_cycles" ∷ []

abbrev pub as_budget : Json → Option ResourceBudget
as_budget v = do
  d ← as_dict v
  tokens ← as_optional as_count (get d "max_assistant_tokens")
  seconds ← as_optional as_units (get d "max_active_seconds")
  errors ← as_count (get_or d "max_consecutive_errors" (of_nat 3))
  cycles ← as_count (get_or d "max_unchanged_cycles" (of_nat 3))
  let b : ResourceBudget = record {
    max_assistant_tokens = tokens;
    max_active_seconds = seconds;
    max_consecutive_errors = errors;
    max_unchanged_cycles = cycles;
  }
  checked (only budget_names d) (checked (is_ok (validate_budget b)) (some b))

abbrev pub as_task : Json → Option TaskItem
as_task v = do
  d ← as_dict v
  id ← as_text (get d "id")
  description ← as_text (get d "description")
  text ← as_text (get_or d "status" (str "pending"))
  status ← task_status text
  blocker ← as_optional as_text (get d "blocker")
  some (record { id = id; description = description; status = status; blocker = blocker })

abbrev pub evidence_names : List String
evidence_names =
    "id" ∷ "kind" ∷ "reference" ∷ "acceptance_criteria" ∷ "authoritative" ∷ "observed_at" ∷ []

-- The rest of the fields of `from_dict`, with the time of a missing stamp.
module _ (now : ℤ) where
  abbrev pub as_evidence : Json → Option EvidenceItem
  as_evidence v = do
    d ← as_dict v
    id ← as_text (get d "id")
    kind ← as_text (get d "kind")
    reference ← as_text (get d "reference")
    criteria ← as_array as_text (get_or d "acceptance_criteria" (arr nil))
    authoritative ← as_bool (get_or d "authoritative" (bool false))
    observed_at ← as_units (get_or d "observed_at" (float now))
    checked (only evidence_names d) (
        some (record {
          id = id;
          kind = kind;
          reference = reference;
          acceptance_criteria = criteria;
          authoritative = authoritative;
          observed_at = observed_at;
        }))

  abbrev pub as_lesson : Json → Option LessonItem
  as_lesson v = do
    d ← as_dict v
    kind ← as_text (get d "kind")
    text ← as_text (get d "text")
    created_at ← as_units (get_or d "created_at" (float now))
    checked (only ("kind" ∷ "text" ∷ "created_at" ∷ []) d)
        (some (record { kind = kind; text = text; created_at = created_at }))

  unfoldable pub from_dict : Fields → Option RunContext
  from_dict d = do
    tasks ← as_object as_task (get_or d "tasks" (obj end))
    evidence ← as_object as_evidence (get_or d "evidence" (obj end))
    key ← as_key (get d "key")
    objective ← as_text (get d "objective")
    criteria ← as_object as_text (get d "acceptance_criteria")
    budget ← as_budget (get_or d "budget" (obj end))
    text ← as_text (get_or d "status" (str "active"))
    status ← run_status text
    reason ← as_optional as_text (get d "blocked_reason")
    lessons ← as_array as_lesson (get_or d "lessons" (arr nil))
    tokens ← as_count (get_or d "assistant_tokens" (of_nat 0))
    seconds ← as_units (get_or d "active_seconds" (of_nat 0))
    errors ← as_count (get_or d "consecutive_errors" (of_nat 0))
    cycles ← as_count (get_or d "unchanged_cycles" (of_nat 0))
    fingerprint ← as_optional as_text (get d "last_progress_fingerprint")
    confidence ← as_units (get_or d "completion_confidence" (of_nat 0))
    claim ← as_optional as_text (get d "completion_claim")
    verdict ← as_verdict (get d "completion_verdict")
    notes ← as_optional as_text (get d "evaluator_notes")
    created_at ← as_units (get_or d "created_at" (float now))
    updated_at ← as_units (get_or d "updated_at" (float now))
    let c : RunContext = record {
      key = key;
      objective = objective;
      acceptance_criteria = criteria;
      budget = budget;
      status = status;
      blocked_reason = reason;
      tasks = tasks;
      evidence = evidence;
      lessons = lessons;
      assistant_tokens = tokens;
      active_seconds = seconds;
      consecutive_errors = errors;
      unchanged_cycles = cycles;
      last_progress_fingerprint = fingerprint;
      completion_confidence = confidence;
      completion_claim = claim;
      completion_verdict = verdict;
      evaluator_notes = notes;
      created_at = created_at;
      updated_at = updated_at;
    }
    checked (is_ok (validate_context c)) (some c)
