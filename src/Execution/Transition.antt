-- ===== src/Execution/Transition.antt =====
-- `TransitionEngine` and `ExecutionSupervisor` of scripts/execution_core.py.
use one_company.Prelude.{
  String, Bool, true, false, not, List, Option, none, some, ℤ, ◌==◌, given, if◌then◌else◌, Result,
  ok, err, ◌>>=◌, ◌>>◌, strip,
}
use one_company.Json.{Json, str, Fields, get, has}
use one_company.Liveness.{is_truthy}
use one_company.Execution.Context.{
  RunKey, RunContext, RunStatus, active, paused, blocked, budget_limited, completion_pending,
  complete, Error, invalid_transition, value_error, assert_key, is_mutable, is_complete,
  rotate_generation, refusal,
}
use one_company.Execution.Guard.{
  GuardReason, unchanged_progress_limit_reached, reason_text, is_budget, GuardDecision, allowed,
  refused, check, is_allowed,
}
use one_company.Execution.Completion.{Reason, is_met, assess}

abbrev pub is_resumable : RunStatus → Bool
is_resumable paused = true
is_resumable budget_limited = true
is_resumable _ = false

abbrev pub is_blocked : RunStatus → Bool
is_blocked blocked = true
is_blocked _ = false

pub record TransitionResult : Type 0 where
  pub context : RunContext
  pub event_type : String
  pub details : Fields

-- The status and the reason of a context.
abbrev pub with_status : RunContext → RunStatus → Option String → RunContext
with_status c status reason = record c { status = status; blocked_reason = reason }

unfoldable pub pause : RunContext → Result Error RunContext
pause c =
    if is_mutable c.status
    then ok (record c { status = paused })
    else err (invalid_transition "pause requires active or completion_pending state")

unfoldable pub resume : RunContext → Result Error RunContext
resume c =
    if not (is_resumable c.status)
    then err (invalid_transition "resume requires paused or budget_limited state")
    else if not (is_allowed (check c))
    then err (invalid_transition "cannot resume while resource guard is tripped")
    else ok (with_status c active none)

unfoldable pub unblock : RunContext → Result Error RunContext
unblock c =
    if is_blocked c.status
    then ok (with_status c active none)
    else err (invalid_transition "unblock requires blocked state")

-- `repr` is `str` on values that are no texts.
module _ (repr : Json → String) where
  abbrev pub text_of : Json → String
  text_of (str s) = s
  text_of v = repr v

  -- str(payload.get("reason", ""))
  abbrev pub block_reason : Fields → String
  block_reason payload = if has payload "reason" then text_of (get payload "reason") else ""

  -- str(payload.get("reason") or "execution_budget_limited")
  abbrev pub limit_reason : Fields → String
  limit_reason payload =
      let v = get payload "reason" in if is_truthy v then text_of v else "execution_budget_limited"

  unfoldable pub block : RunContext → Fields → Result Error RunContext
  block c payload =
      if strip (block_reason payload) == ""
      then err (value_error "block requires reason")
      else if is_complete c.status
      then err (invalid_transition "cannot block a complete run")
      else ok (with_status c blocked (some (strip (block_reason payload))))

  unfoldable pub budget_limit : RunContext → Fields → Result Error RunContext
  budget_limit c payload =
      if is_complete c.status
      then err (invalid_transition "cannot budget-limit a complete run")
      else ok (with_status c budget_limited (some (limit_reason payload)))

  unfoldable pub dispatch : RunContext → String → Fields → (now : ℤ) → Result Error RunContext
  dispatch c command payload now =
      if command == "pause"
      then pause c
      else if command == "resume"
      then resume c
      else if command == "block"
      then block c payload
      else if command == "unblock"
      then unblock c
      else if command == "budget_limit"
      then budget_limit c payload
      else if command == "rotate_generation"
      then rotate_generation c now
      else err (refusal "unknown execution transition: " command)

  unfoldable pub transition :
      RunContext → RunKey → String → (now : ℤ) → Fields → Result Error TransitionResult
  transition c supplied command now payload = do
    assert_key c supplied
    next ← dispatch c command payload now
    ok (record {
      context = record next { updated_at = now };
      event_type = command;
      details = payload;
    })

pub data Action : Type 0 where
  no_action escalate_blocker run_completion_evaluator resume_execution : Action
  pause_budget reconcile_or_failover remediate_or_failover continue : Action

-- The reason of a decision: a fixed text, one that was stored, the reasons of an assessment, or
-- the guard's.
pub data Why : Type 0 where
  because : String → Why
  because_all : List Reason → Why

pub record SupervisorDecision : Type 0 where
  pub action : Action
  pub reason : Why
  pub requires_new_generation : Bool

abbrev pub decide : Action → Why → Bool → SupervisorDecision
decide action why new = record { action = action; reason = why; requires_new_generation = new }

abbrev pub is_unchanged : GuardReason → Bool
is_unchanged unchanged_progress_limit_reached = true
is_unchanged _ = false

-- From the guard on.
abbrev pub supervise_guard : RunStatus → GuardDecision → SupervisorDecision
supervise_guard status (refused why) =
    if is_budget why
    then decide pause_budget (because (reason_text why)) false
    else if is_unchanged why
    then decide reconcile_or_failover (because (reason_text why)) true
    else decide remediate_or_failover (because (reason_text why)) true
supervise_guard budget_limited allowed = decide no_action (because "budget_limited") false
supervise_guard paused allowed = decide no_action (because "execution_paused") false
supervise_guard _ allowed = decide continue (because "execution_within_bounds") false

abbrev pub supervise_pending : RunContext → SupervisorDecision
supervise_pending c =
    if is_met (assess c).verdict
    then decide run_completion_evaluator (because "deterministic_completion_preflight_met") false
    else decide resume_execution (because_all (assess c).reasons) false

abbrev pub or_blocked : String → String
or_blocked reason = if reason == "" then "run_blocked" else reason

unfoldable pub supervise : RunContext → SupervisorDecision
supervise c = elim c.status [
  | complete ↦ decide no_action (because "execution_complete") false
  | blocked ↦
      decide escalate_blocker (because (given c.blocked_reason "run_blocked" or_blocked)) false
  | completion_pending ↦ supervise_pending c
  | status ↦ supervise_guard status (check c)
]
