-- ===== src/Execution/Context.antt =====
-- scripts/execution_core.py: the identity, the limits and the state of one bounded run. A float is an
-- integer in units of 2 ^ -1074, as in Json; `now` stands for time.time().
use Prim.Native.String.{◌++◌, compare}
use Prim.Native.Nat.{Ordering}
use one_company.Prelude.{
  ℕ, ◌+◌, String, Bool, true, false, not, ◌&&◌, ◌||◌, List, [], ◌∷◌, Option, none, ℤ, pos, eqb, ltb,
  ◌==◌, any, is_empty, given, if◌then◌else◌, Result, ok, err, ◌>>◌, raise_if, strip, Dict, less,
}

pub data RunStatus : Type 0 where
  active paused blocked budget_limited completion_pending complete : RunStatus

pub data TaskStatus : Type 0 where
  task_pending task_in_progress task_done task_blocked : TaskStatus

pub data CompletionVerdict : Type 0 where
  continue met impossible unavailable : CompletionVerdict

pub record RunKey : Type 0 where
  pub wu_id : String
  pub run_id : String
  pub generation : ℕ

-- StaleGenerationError, InvalidTransitionError, ValueError and KeyError; the last two are the
-- ValueErrors that list ids.
pub data Error : Type 0 where
  stale_generation : (expected got : RunKey) → Error
  invalid_transition value_error key_error : String → Error
  unknown_acceptance_criteria unknown_evidence : List String → Error

abbrev pub is_blank : String → Bool
is_blank s = strip s == ""

abbrev pub status_text : RunStatus → String
status_text active = "active"
status_text paused = "paused"
status_text blocked = "blocked"
status_text budget_limited = "budget_limited"
status_text completion_pending = "completion_pending"
status_text complete = "complete"

abbrev pub is_complete : RunStatus → Bool
is_complete complete = true
is_complete _ = false

abbrev pub is_active : RunStatus → Bool
is_active active = true
is_active _ = false

abbrev pub is_pending : RunStatus → Bool
is_pending completion_pending = true
is_pending _ = false

-- status in {ACTIVE, COMPLETION_PENDING}
abbrev pub is_mutable : RunStatus → Bool
is_mutable active = true
is_mutable completion_pending = true
is_mutable _ = false

unfoldable pub validate_key : RunKey → Result Error Unit
validate_key key = do
  raise_if (is_blank key.wu_id || is_blank key.run_id) (value_error "wu_id and run_id are required")
  raise_if (ltb key.generation 1) (value_error "generation must be >= 1")

abbrev pub same_key : RunKey → RunKey → Bool
same_key a b = (a.wu_id == b.wu_id) && (a.run_id == b.run_id) && eqb a.generation b.generation

pub record ResourceBudget : Type 0 where
  pub max_assistant_tokens : Option ℕ
  pub max_active_seconds : Option ℤ
  pub max_consecutive_errors : ℕ
  pub max_unchanged_cycles : ℕ

abbrev pub default_budget : ResourceBudget
default_budget = record {
  max_assistant_tokens = none;
  max_active_seconds = none;
  max_consecutive_errors = 3;
  max_unchanged_cycles = 3;
}

-- `ResourceBudget.__post_init__`
unfoldable pub validate_budget : ResourceBudget → Result Error Unit
validate_budget b = do
  raise_if (ltb b.max_consecutive_errors 1 || ltb b.max_unchanged_cycles 1)
      (value_error "error and unchanged-cycle limits must be >= 1")
  raise_if (given b.max_assistant_tokens false (λ n. ltb n 1))
      (value_error "max_assistant_tokens must be positive")
  raise_if (given b.max_active_seconds false (λ s. not (less (pos 0) s)))
      (value_error "max_active_seconds must be positive")

pub record TaskItem : Type 0 where
  pub id : String
  pub description : String
  pub status : TaskStatus
  pub blocker : Option String

pub record EvidenceItem : Type 0 where
  pub id : String
  pub kind : String
  pub reference : String
  pub acceptance_criteria : List String
  pub authoritative : Bool
  pub observed_at : ℤ

pub record LessonItem : Type 0 where
  pub kind : String
  pub text : String
  pub created_at : ℤ

pub record RunContext : Type 0 where
  pub key : RunKey
  pub objective : String
  pub acceptance_criteria : Dict String
  pub budget : ResourceBudget
  pub status : RunStatus
  pub blocked_reason : Option String
  pub tasks : Dict TaskItem
  pub evidence : Dict EvidenceItem
  pub lessons : List LessonItem
  pub assistant_tokens : ℕ
  pub active_seconds : ℤ
  pub consecutive_errors : ℕ
  pub unchanged_cycles : ℕ
  pub last_progress_fingerprint : Option String
  pub completion_confidence : ℤ
  pub completion_claim : Option String
  pub completion_verdict : Option CompletionVerdict
  pub evaluator_notes : Option String
  pub created_at : ℤ
  pub updated_at : ℤ

-- An id or a description that is blank.
abbrev pub has_blank : Dict String → Bool
has_blank criteria = any (λ (k, v). is_blank k || is_blank v) criteria

-- `RunContext.__post_init__`
unfoldable pub validate_context : RunContext → Result Error Unit
validate_context c = do
  validate_key c.key
  raise_if (is_blank c.objective || is_empty c.acceptance_criteria)
      (value_error "objective and acceptance criteria are required")
  raise_if (has_blank c.acceptance_criteria)
      (value_error "acceptance criteria require non-empty ids and descriptions")

-- `RunContext.new`, with the run id given or fresh.
unfoldable pub new :
    (wu_id objective : String)
    → Dict String
    → ResourceBudget
    → (run_id : String) → (now : ℤ) → Result Error RunContext
new wu_id objective criteria budget run_id now =
    let c : RunContext = record {
      key = record { wu_id = wu_id; run_id = run_id; generation = 1 };
      objective = objective;
      acceptance_criteria = criteria;
      budget = budget;
      status = active;
      blocked_reason = none;
      tasks = [];
      evidence = [];
      lessons = [];
      assistant_tokens = 0;
      active_seconds = pos 0;
      consecutive_errors = 0;
      unchanged_cycles = 0;
      last_progress_fingerprint = none;
      completion_confidence = pos 0;
      completion_claim = none;
      completion_verdict = none;
      evaluator_notes = none;
      created_at = now;
      updated_at = now;
    } in
    validate_context c >> ok c

unfoldable pub assert_key : RunContext → RunKey → Result Error Unit
assert_key c supplied = do
  validate_key supplied
  raise_if (not (same_key supplied c.key)) (stale_generation c.key supplied)

unfoldable pub rotate_generation : RunContext → (now : ℤ) → Result Error RunContext
rotate_generation c now =
    if is_complete c.status
    then err (invalid_transition "cannot rotate generation for a complete run")
    else ok (record c {
      key = record c.key { generation = c.key.generation + 1 };
      consecutive_errors = 0;
      unchanged_cycles = 0;
      last_progress_fingerprint = none;
      updated_at = now;
    })

-- InvalidTransitionError(what + detail)
abbrev pub refusal : (what detail : String) → Error
refusal what detail = invalid_transition (what ++ detail)

-- raise InvalidTransitionError(f"cannot … while run is {status}")
abbrev pub mutable_or_raise : String → RunStatus → Result Error Unit
mutable_or_raise what s =
    raise_if (not (is_mutable s)) (refusal what (" while run is " ++ status_text s))

-- Texts in the order of their code points.
abbrev pub text_leb : String → String → Bool
text_leb s t = elim (compare s t) [ Ordering.gt ↦ false | _ ↦ true ]

unfoldable pub insert_text : String → List String → List String
insert_text s [] = s ∷ []
insert_text s (t ∷ ts) = if text_leb s t then s ∷ t ∷ ts else t ∷ insert_text s ts

-- sorted(l)
unfoldable pub sorted : List String → List String
sorted [] = []
sorted (s ∷ ss) = insert_text s (sorted ss)

-- sorted(set(l))
unfoldable pub sorted_set : List String → List String
sorted_set [] = []
sorted_set (s ∷ ss) =
    let rest = sorted_set ss in if any (λ t. t == s) rest then rest else insert_text s rest

-- sorted(set(l) - set(known))
unfoldable pub unknown_of : List String → List String → List String
unknown_of [] known = []
unknown_of (s ∷ ss) known =
    let rest = unknown_of ss known in
    if any (λ t. t == s) known || any (λ t. t == s) rest then rest else insert_text s rest
