-- ===== src/Ledger/Validate.antt =====
-- scripts/l5_ledger.py: what a durable ledger document must look like.
use one_company.Prelude.{
  ℕ, String, Bool, true, false, not, ◌&&◌, ◌||◌, List, [], ◌∷◌, Option, pos, eqb, ltb, ◌==◌, any,
  given, if◌then◌else◌, Result, ok, err, ◌>>=◌, ◌>>◌, raise_if,
}
use one_company.Json.{
  Json, null, bool, int, str, obj, Fields, get, get_or, values, eq_text, is_true, is_hashable,
  as_scaled, py_eq,
}
use one_company.Kernel.Types.{
  RepoMode, normal, merge_locked, main_broken, main_broken_env, automation_degraded,
  provider_throttled, governance_drift, security_integrity_failure, controller_integrity, halted,
  archived_permission_lost, is_human_clear_only,
}
use one_company.Kernel.Checks.{as_sha}

-- LedgerInvalid and LedgerConflict with their codes; a TypeError.
pub data Error : Type 0 where
  invalid conflict : String → Error
  unhashable : Error

abbrev pub schema_version : ℕ
schema_version = 2

abbrev pub is_sha : Json → Bool
is_sha v = given (as_sha v) false (λ s. true)

-- isinstance(v, str), and v is not empty
abbrev pub is_text : Json → Bool
is_text (str s) = true
is_text _ = false

abbrev pub is_name : Json → Bool
is_name (str s) = not (s == "")
is_name _ = false

-- isinstance(v, (int, float)): a boolean is an integer.
abbrev pub is_number : Json → Bool
is_number v = given (as_scaled v) false (λ m. true)

-- type(v) is int, and v is the number n
abbrev pub is_nat : ℕ → Json → Bool
is_nat n (int (pos m)) = eqb m n
is_nat n _ = false

-- type(v) is int and v >= 1, and v >= 0
abbrev pub is_positive : Json → Bool
is_positive (int (pos n)) = ltb 0 n
is_positive _ = false

abbrev pub is_count : Json → Bool
is_count (int (pos n)) = true
is_count _ = false

abbrev pub is_bool : Json → Bool
is_bool (bool b) = true
is_bool _ = false

-- v in {…} for texts
abbrev pub one_of : List String → Json → Result Error Bool
one_of names v = if is_hashable v then ok (any (eq_text v) names) else err unhashable

-- An intent in this state: isinstance(v, Mapping) and v.get("state") == state
abbrev pub is_in : String → Json → Bool
is_in state (obj row) = eq_text (get row "state") state
is_in state _ = false

unfoldable pub validate_observation : Json → Result Error Unit
validate_observation (obj row) = do
  raise_if (not (is_sha (get row "head")) || not (is_sha (get row "base")))
      (invalid "LEASE_OBSERVATION_REFS")
  raise_if (not (is_text (get_or row "wu_body_hash" (str ""))))
      (invalid "LEASE_OBSERVATION_WU_HASH")
  raise_if (not (is_text (get_or row "pr_updated_at" (str ""))))
      (invalid "LEASE_OBSERVATION_UPDATED_AT")
validate_observation _ = err (invalid "LEASE_OBSERVATION")

unfoldable pub validate_intent : Json → Json → Result Error Unit
validate_intent null epoch = ok tt
validate_intent (obj row) epoch = do
  raise_if (not (is_name (get row "op_id"))) (invalid "LEASE_INTENT_OP_ID")
  raise_if (not (is_name (get row "idem_key"))) (invalid "LEASE_INTENT_IDEM_KEY")
  raise_if (not (is_name (get row "operation"))) (invalid "LEASE_INTENT_OPERATION")
  raise_if (not (is_sha (get row "expected_head")) || not (is_sha (get row "expected_base")))
      (invalid "LEASE_INTENT_REFS")
  raise_if (not (py_eq (get row "epoch") epoch)) (invalid "LEASE_INTENT_EPOCH")
  known ← one_of ("PENDING" ∷ "DONE" ∷ "ABORTED" ∷ "VERIFIED" ∷ []) (get row "state")
  raise_if (not known) (invalid "LEASE_INTENT_STATE")
validate_intent _ epoch = err (invalid "LEASE_INTENT")

-- `validate_lease_record` on a mapping.
unfoldable pub validate_lease : Fields → Result Error Unit
validate_lease row = do
  raise_if (not (is_positive (get row "version"))) (invalid "LEASE_RECORD_VERSION")
  raise_if (not (is_positive (get row "epoch"))) (invalid "LEASE_RECORD_EPOCH")
  raise_if (not (is_name (get row "holder"))) (invalid "LEASE_RECORD_HOLDER")
  known ← one_of ("ACTIVE" ∷ "RELEASED" ∷ []) (get row "state")
  raise_if (not known) (invalid "LEASE_RECORD_STATE")
  raise_if (not (is_number (get row "acquired_at"))) (invalid "LEASE_RECORD_ACQUIRED_AT")
  raise_if (not (is_number (get row "expires_at"))) (invalid "LEASE_RECORD_EXPIRES_AT")
  validate_observation (get row "observed")
  validate_intent (get row "intent") (get row "epoch")
  raise_if (eq_text (get row "state") "RELEASED" && is_in "PENDING" (get row "intent"))
      (invalid "LEASE_RELEASED_WITH_PENDING_INTENT")

unfoldable pub validate_lease_record : Json → Result Error Unit
validate_lease_record (obj row) = validate_lease row
validate_lease_record _ = err (invalid "LEASE_RECORD")

-- `validate_budget_record` on a mapping.
unfoldable pub validate_budget : Fields → Result Error Unit
validate_budget row = do
  raise_if (not (is_positive (get row "version"))) (invalid "BUDGET_RECORD_VERSION")
  raise_if (not (is_count (get row "ci_reruns"))) (invalid "BUDGET_CI_RERUNS")
  raise_if (not (is_count (get row "fix_iterations"))) (invalid "BUDGET_FIX_ITERATIONS")
  raise_if (not (is_count (get row "review_rounds"))) (invalid "BUDGET_REVIEW_ROUNDS")
  raise_if (not (is_count (get row "lease_acquisitions"))) (invalid "BUDGET_LEASE_ACQUISITIONS")

unfoldable pub validate_budget_record : Json → Result Error Unit
validate_budget_record (obj row) = validate_budget row
validate_budget_record _ = err (invalid "BUDGET_RECORD")

-- The loops over the records.
unfoldable pub each_valid : (Json → Result Error Unit) → List Json → Result Error Unit
each_valid validate [] = ok tt
each_valid validate (v ∷ vs) = validate v >> each_valid validate vs

abbrev pub mode_text : RepoMode → String
mode_text normal = "NORMAL"
mode_text merge_locked = "MERGE_LOCKED"
mode_text main_broken = "MAIN_BROKEN"
mode_text main_broken_env = "MAIN_BROKEN_ENV"
mode_text automation_degraded = "AUTOMATION_DEGRADED"
mode_text provider_throttled = "PROVIDER_THROTTLED"
mode_text governance_drift = "GOVERNANCE_DRIFT"
mode_text security_integrity_failure = "SECURITY_INTEGRITY_FAILURE"
mode_text controller_integrity = "CONTROLLER_INTEGRITY"
mode_text halted = "HALTED"
mode_text archived_permission_lost = "ARCHIVED_PERMISSION_LOST"

abbrev modes : List RepoMode
modes =
    normal ∷ merge_locked ∷ main_broken ∷ main_broken_env ∷ automation_degraded ∷ provider_throttled
    ∷ governance_drift ∷ security_integrity_failure ∷ controller_integrity ∷ halted
    ∷ archived_permission_lost ∷ []

unfoldable pub find_mode : Json → List RepoMode → Result Error RepoMode
find_mode v [] = err (invalid "LEDGER_MODE")
find_mode v (m ∷ ms) = if eq_text v (mode_text m) then ok m else find_mode v ms

-- RepoMode(v)
abbrev pub as_mode : Json → Result Error RepoMode
as_mode v = find_mode v modes

abbrev pub records_of : String → Json → Result Error (List Json)
records_of code (obj fs) = ok (values fs)
records_of code _ = err (invalid code)

abbrev pub is_enforcement : Json → Bool
is_enforcement (obj row) =
    is_bool (get row "branch_protected") && is_count (get row "active_rulesets")
is_enforcement _ = false

-- `validate_ledger` on a mapping.
unfoldable pub validate_document : Fields → Option String → Result Error Unit
validate_document doc expected_repo = do
  raise_if (not (py_eq (get doc "schema_version") (int (pos schema_version))))
      (invalid "LEDGER_SCHEMA")
  raise_if (not (is_name (get doc "repository"))) (invalid "LEDGER_REPOSITORY")
  raise_if (given expected_repo false (λ r. not (eq_text (get doc "repository") r)))
      (invalid "LEDGER_REPOSITORY_MISMATCH")
  raise_if (not (is_count (get doc "revision"))) (invalid "LEDGER_REVISION")
  mode ← as_mode (get doc "mode")
  raise_if (not (is_positive (get doc "mode_version"))) (invalid "LEDGER_MODE_VERSION")
  raise_if (not (is_bool (get doc "human_clear_required"))) (invalid "LEDGER_HUMAN_CLEAR")
  raise_if (is_human_clear_only mode && not (is_true (get doc "human_clear_required")))
      (invalid "LEDGER_HUMAN_CLEAR_REQUIRED")
  leases ← records_of "LEDGER_LEASES" (get doc "leases")
  budgets ← records_of "LEDGER_BUDGETS" (get doc "budgets")
  records_of "LEDGER_OBSERVATIONS" (get doc "observations")
  each_valid validate_lease_record leases
  each_valid validate_budget_record budgets
  raise_if (not (is_enforcement (get doc "platform_enforcement")))
      (invalid "LEDGER_PLATFORM_ENFORCEMENT")

unfoldable pub validate_ledger : Json → Option String → Result Error Unit
validate_ledger (obj doc) expected_repo = validate_document doc expected_repo
validate_ledger _ expected_repo = err (invalid "LEDGER_NOT_OBJECT")
