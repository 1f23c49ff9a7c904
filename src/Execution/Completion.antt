-- ===== src/Execution/Completion.antt =====
-- `CompletionGate` of scripts/execution_core.py.
use one_company.Prelude.{
  String, Bool, true, false, not, ◌&&◌, List, [], ◌∷◌, ◌++◌, Option, some, ℤ, pos, ◌==◌, any,
  is_empty, if◌then◌else◌, Result, ok, ◌>>◌, raise_if, strip, keys, vals, less,
}
use one_company.Json.{unit}
use one_company.Execution.Context.{
  RunKey, RunContext, RunStatus, active, paused, blocked, budget_limited, completion_pending,
  complete, TaskStatus, task_done, task_blocked, TaskItem, EvidenceItem, CompletionVerdict,
  continue, met, impossible, unavailable, Error, invalid_transition, value_error, unknown_evidence,
  is_blank, assert_key, is_active, is_pending, sorted, sorted_set, unknown_of, refusal,
}
use one_company.Execution.Guard.{
  GuardReason, GuardDecision, allowed, refused, check, is_allowed, guard_text,
}

-- A reason of `assess`, with the sorted ids that its text lists.
pub data Reason : Type 0 where
  blocked_tasks unfinished_tasks uncovered : List String → Reason
  run_not_runnable : RunStatus → Reason
  resource_guard : GuardReason → Reason

pub record CompletionAssessment : Type 0 where
  pub verdict : CompletionVerdict
  pub confidence : ℤ
  pub unmet_acceptance_criteria : List String
  pub reasons : List Reason
  pub cited_evidence : List String

abbrev pub is_done : TaskStatus → Bool
is_done task_done = true
is_done _ = false

abbrev pub is_blocked : TaskStatus → Bool
is_blocked task_blocked = true
is_blocked _ = false

-- status in {BLOCKED, PAUSED, BUDGET_LIMITED}
abbrev pub is_stopped : RunStatus → Bool
is_stopped blocked = true
is_stopped paused = true
is_stopped budget_limited = true
is_stopped _ = false

-- The ids of the tasks that pass a test.
unfoldable pub ids_where : (TaskStatus → Bool) → List TaskItem → List String
ids_where test [] = []
ids_where test (t ∷ ts) =
    let rest = ids_where test ts in if test t.status then t.id ∷ rest else rest

-- Evidence counts for a criterion if it is authoritative and names it.
abbrev pub covers : String → EvidenceItem → Bool
covers ac e = e.authoritative && any (λ a. a == ac) e.acceptance_criteria

-- coverage[ac]
unfoldable pub refs_of : String → List EvidenceItem → List String
refs_of ac [] = []
refs_of ac (e ∷ es) = let rest = refs_of ac es in if covers ac e then e.id ∷ rest else rest

-- The criteria without a reference, and all references.
unfoldable pub unmet_of : List String → List EvidenceItem → List String
unmet_of [] es = []
unmet_of (ac ∷ acs) es =
    let rest = unmet_of acs es in if is_empty (refs_of ac es) then ac ∷ rest else rest

unfoldable pub all_refs : List String → List EvidenceItem → List String
all_refs [] es = []
all_refs (ac ∷ acs) es = refs_of ac es ++ all_refs acs es

abbrev pub unless_empty : List String → (List String → Reason) → List Reason
unless_empty [] reason = []
unless_empty (s ∷ ss) reason = reason (sorted (s ∷ ss)) ∷ []

abbrev pub guard_reasons : GuardDecision → List Reason
guard_reasons allowed = []
guard_reasons (refused why) = resource_guard why ∷ []

unfoldable pub reasons_of : RunContext → List Reason
reasons_of c =
    let tasks = vals c.tasks in
    unless_empty (ids_where is_blocked tasks) blocked_tasks
    ++ (unless_empty (ids_where (λ s. not (is_done s)) tasks) unfinished_tasks
        ++ (unless_empty (unmet_of (keys c.acceptance_criteria) (vals c.evidence)) uncovered
            ++ ((if is_stopped c.status then run_not_runnable c.status ∷ [] else [])
                ++ guard_reasons (check c))))

unfoldable pub assess : RunContext → CompletionAssessment
assess c =
    let cited = sorted_set (all_refs (keys c.acceptance_criteria) (vals c.evidence)) in
    let unmet = sorted (unmet_of (keys c.acceptance_criteria) (vals c.evidence)) in
    let reasons = reasons_of c in
    if is_empty reasons
    then record {
      verdict = met;
      confidence = pos unit;
      unmet_acceptance_criteria = [];
      reasons = [];
      cited_evidence = cited;
    }
    else record {
      verdict = continue;
      confidence = pos 0;
      unmet_acceptance_criteria = unmet;
      reasons = reasons;
      cited_evidence = cited;
    }

unfoldable pub record_worker_claim :
    RunContext → RunKey → String → (now : ℤ) → Result Error (RunContext × CompletionAssessment)
record_worker_claim c supplied claim now = do
  assert_key c supplied
  raise_if (not (is_allowed (check c)))
      (refusal "completion blocked by resource guard: " (guard_text (check c)))
  raise_if (not (is_active c.status))
      (invalid_transition "completion can only be claimed from active execution")
  raise_if (is_blank claim) (value_error "completion claim is required")
  let claimed = record c {
    completion_claim = some (strip claim);
    status = completion_pending;
    updated_at = now;
  }
  ok (claimed, assess claimed)

abbrev pub is_met : CompletionVerdict → Bool
is_met met = true
is_met _ = false

-- 0 <= confidence <= 1
abbrev pub is_confidence : ℤ → Bool
is_confidence x = not (less x (pos 0)) && not (less (pos unit) x)

-- The status that a verdict leads to, and the reason for a block.
abbrev pub verdict_status : CompletionVerdict → RunStatus
verdict_status met = complete
verdict_status impossible = blocked
verdict_status unavailable = paused
verdict_status continue = active

abbrev pub verdict_reason : CompletionVerdict → String → Option String → Option String
verdict_reason impossible notes reason =
    some (if notes == "" then "completion_evaluator_declared_impossible" else notes)
verdict_reason _ notes reason = reason

unfoldable pub apply_evaluator_verdict :
    RunContext
    → RunKey
    → CompletionVerdict
    → (confidence : ℤ) → (notes : String) → (cited_evidence : List String) → (now : ℤ)
    → Result Error RunContext
apply_evaluator_verdict c supplied verdict confidence notes cited now = do
  assert_key c supplied
  raise_if (not (is_pending c.status))
      (invalid_transition "external evaluation requires completion_pending state")
  raise_if (not (is_confidence confidence)) (value_error "confidence must be within [0, 1]")
  let unknown = unknown_of cited (keys c.evidence)
  raise_if (not (is_empty unknown)) (unknown_evidence unknown)
  raise_if (is_met verdict && not (is_met (assess c).verdict))
      (invalid_transition "evaluator cannot override missing deterministic completion evidence")
  ok (record c {
    completion_verdict = some verdict;
    completion_confidence = confidence;
    evaluator_notes = some notes;
    status = verdict_status verdict;
    blocked_reason = verdict_reason verdict notes c.blocked_reason;
    updated_at = now;
  })
