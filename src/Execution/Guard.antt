-- ===== src/Execution/Guard.antt =====
-- `ResourceGuard` and `ProgressSentinel.observe` of scripts/execution_core.py.
use one_company.Prelude.{
  ℕ, ◌+◌, String, Bool, true, false, not, ◌||◌, Option, some, ℤ, pos, negsuc, leb, ◌==◌, given,
  if◌then◌else◌, Result, ok, err, ◌>>◌, raise_if, less,
}
use one_company.Execution.Context.{
  RunKey, RunContext, paused, budget_limited, Error, invalid_transition, value_error, assert_key,
  mutable_or_raise, is_complete,
}

-- The reasons that `check` gives.
pub data GuardReason : Type 0 where
  assistant_token_budget_exhausted active_time_budget_exhausted : GuardReason
  consecutive_error_limit_reached unchanged_progress_limit_reached : GuardReason

abbrev pub reason_text : GuardReason → String
reason_text assistant_token_budget_exhausted = "assistant_token_budget_exhausted"
reason_text active_time_budget_exhausted = "active_time_budget_exhausted"
reason_text consecutive_error_limit_reached = "consecutive_error_limit_reached"
reason_text unchanged_progress_limit_reached = "unchanged_progress_limit_reached"

-- A decision: allowed, or refused for a reason.
pub data GuardDecision : Type 0 where
  allowed : GuardDecision
  refused : GuardReason → GuardDecision

abbrev pub is_allowed : GuardDecision → Bool
is_allowed allowed = true
is_allowed _ = false

abbrev pub guard_text : GuardDecision → String
guard_text allowed = "None"
guard_text (refused why) = reason_text why

unfoldable pub check : RunContext → GuardDecision
check c =
    if given c.budget.max_assistant_tokens false (λ n. leb n c.assistant_tokens)
    then refused assistant_token_budget_exhausted
    else if given c.budget.max_active_seconds false (λ s. not (less c.active_seconds s))
    then refused active_time_budget_exhausted
    else if leb c.budget.max_consecutive_errors c.consecutive_errors
    then refused consecutive_error_limit_reached
    else if leb c.budget.max_unchanged_cycles c.unchanged_cycles
    then refused unchanged_progress_limit_reached
    else allowed

-- The increments of `record_usage`: tokens an integer, `add` the addition of floats.
abbrev pub is_negative : ℤ → Bool
is_negative (pos n) = false
is_negative (negsuc n) = true

abbrev pub magnitude : ℤ → ℕ
magnitude (pos n) = n
magnitude (negsuc n) = 0

unfoldable pub record_usage :
    (add : ℤ → ℤ → ℤ)
    → RunContext
    → RunKey
    → (assistant_tokens active_seconds now : ℤ) → Result Error (RunContext × GuardDecision)
record_usage add c supplied tokens seconds now = do
  assert_key c supplied
  mutable_or_raise "cannot record usage" c.status
  raise_if (is_negative tokens || is_negative seconds)
      (value_error "usage increments cannot be negative")
  let used = record c {
    assistant_tokens = c.assistant_tokens + magnitude tokens;
    active_seconds = add c.active_seconds seconds;
    updated_at = now;
  }
  ok (used, check used)

unfoldable pub record_error :
    RunContext → RunKey → (now : ℤ) → Result Error (RunContext × GuardDecision)
record_error c supplied now = do
  assert_key c supplied
  mutable_or_raise "cannot record errors" c.status
  let failed = record c { consecutive_errors = c.consecutive_errors + 1; updated_at = now }
  ok (failed, check failed)

abbrev pub is_budget : GuardReason → Bool
is_budget assistant_token_budget_exhausted = true
is_budget active_time_budget_exhausted = true
is_budget _ = false

-- The rest of `enforce`, on the decision given or made.
unfoldable pub enforce_decision :
    RunContext → GuardDecision → (now : ℤ) → Result Error (RunContext × GuardDecision)
enforce_decision c allowed now = ok (c, allowed)
enforce_decision c (refused why) now =
    if is_complete c.status
    then err (invalid_transition "cannot change lifecycle of a complete run")
    else ok (
      record c {
        status = if is_budget why then budget_limited else paused;
        blocked_reason = some (reason_text why);
        updated_at = now;
      },
      refused why,
    )

unfoldable pub enforce :
    RunContext
    → RunKey
    → Option GuardDecision
    → (now : ℤ) → Result Error (RunContext × GuardDecision)
enforce c supplied decision now =
    assert_key c supplied >> enforce_decision c (given decision (check c) (λ d. d)) now

-- The counters after a fingerprint.
abbrev pub observed : RunContext → String → RunContext
observed c fingerprint =
    given c.last_progress_fingerprint (record c { unchanged_cycles = 0 })
      λ last.
        if last == fingerprint
        then record c { unchanged_cycles = c.unchanged_cycles + 1 }
        else record c { unchanged_cycles = 0; consecutive_errors = 0 }

-- The context, and whether it is stalled.
unfoldable pub observe : RunContext → RunKey → String → (now : ℤ) → Result Error (RunContext × Bool)
observe c supplied fingerprint now = do
  assert_key c supplied
  mutable_or_raise "cannot record progress" c.status
  let seen = record (observed c fingerprint) {
    last_progress_fingerprint = some fingerprint;
    updated_at = now;
  }
  ok (seen, leb seen.budget.max_unchanged_cycles seen.unchanged_cycles)
