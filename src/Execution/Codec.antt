-- ===== src/Execution/Codec.antt =====
-- `RunContext.to_dict` of scripts/execution_core.py; its children model `from_dict`.
pub mod Read
pub mod Roundtrip
use one_company.Prelude.{
  ℕ, suc, ◌*◌, ◌-◌, String, Bool, true, false, not, ◌&&◌, ◌||◌, List, [], ◌∷◌, Option, none, some,
  ◌>>=◌, ◌>>◌, ℤ, pos, negsuc, ◌==◌, any, given, if◌then◌else◌, Result, ok, err, Dict,
}
use one_company.Json.{
  Json, null, bool, int, float, str, arr, obj, Items, nil, cons, Fields, end, field, get, has, put,
  get_or, unit, as_text, as_bool, as_dict,
}
use one_company.Execution.Context.{
  RunKey, ResourceBudget, validate_budget, RunStatus, active, paused, blocked, budget_limited,
  completion_pending, complete, status_text, TaskStatus, task_pending, task_in_progress, task_done,
  task_blocked, CompletionVerdict, continue, met, impossible, unavailable, TaskItem, EvidenceItem,
  LessonItem, RunContext, Error, validate_context,
}

abbrev pub task_text : TaskStatus → String
task_text task_pending = "pending"
task_text task_in_progress = "in_progress"
task_text task_done = "done"
task_text task_blocked = "blocked"

abbrev pub verdict_text : CompletionVerdict → String
verdict_text continue = "continue"
verdict_text met = "met"
verdict_text impossible = "impossible"
verdict_text unavailable = "unavailable"

abbrev pub of_option : {A : Type 0} → (A → Json) → Option A → Json
of_option f none = null
of_option f (some a) = f a

abbrev pub of_nat : ℕ → Json
of_nat n = int (pos n)

-- A dictionary as an object, and a list as an array.
module _ {A : Type 0} (value : A → Json) where
  unfoldable pub of_dict : Dict A → Fields
  of_dict [] = end
  of_dict ((k, a) ∷ d) = field k (value a) (of_dict d)

  unfoldable pub of_list : List A → Items
  of_list [] = nil
  of_list (a ∷ l) = cons (value a) (of_list l)

abbrev pub of_key : RunKey → Fields
of_key k =
    field "wu_id" (str k.wu_id)
      (field "run_id" (str k.run_id) (field "generation" (of_nat k.generation) end))

abbrev pub of_budget : ResourceBudget → Fields
of_budget b = field "max_assistant_tokens" (of_option of_nat b.max_assistant_tokens) (
    field "max_active_seconds" (of_option float b.max_active_seconds) (
      field "max_consecutive_errors" (of_nat b.max_consecutive_errors)
        (field "max_unchanged_cycles" (of_nat b.max_unchanged_cycles) end)))

abbrev pub of_task : TaskItem → Json
of_task t = obj (
    field "id" (str t.id) (
      field "description" (str t.description) (
        field "status" (str (task_text t.status)) (field "blocker" (of_option str t.blocker) end))))

abbrev pub of_evidence : EvidenceItem → Json
of_evidence e = obj (
    field "id" (str e.id) (
      field "kind" (str e.kind) (
        field "reference" (str e.reference) (
          field "acceptance_criteria" (arr (of_list str e.acceptance_criteria)) (
            field "authoritative" (bool e.authoritative)
              (field "observed_at" (float e.observed_at) end))))))

abbrev pub of_lesson : LessonItem → Json
of_lesson l = obj (
    field "kind" (str l.kind)
      (field "text" (str l.text) (field "created_at" (float l.created_at) end)))

unfoldable pub to_dict : RunContext → Fields
to_dict c = field "key" (obj (of_key c.key)) (
    field "objective" (str c.objective) (
      field "acceptance_criteria" (obj (of_dict str c.acceptance_criteria)) (
        field "budget" (obj (of_budget c.budget)) (
          field "status" (str (status_text c.status)) (
            field "blocked_reason" (of_option str c.blocked_reason) (
              field "tasks" (obj (of_dict of_task c.tasks)) (
                field "evidence" (obj (of_dict of_evidence c.evidence)) (
                  field "lessons" (arr (of_list of_lesson c.lessons)) (
                    field "assistant_tokens" (of_nat c.assistant_tokens) (
                      field "active_seconds" (float c.active_seconds) (
                        field "consecutive_errors" (of_nat c.consecutive_errors) (
                          field "unchanged_cycles" (of_nat c.unchanged_cycles) (
                            field "last_progress_fingerprint"
                              (of_option str c.last_progress_fingerprint)
                              (field "completion_confidence" (float c.completion_confidence) (
                                field "completion_claim" (of_option str c.completion_claim) (
                                  field "completion_verdict"
                                    (of_option (λ v. str (verdict_text v)) c.completion_verdict)
                                    (field "evaluator_notes" (of_option str c.evaluator_notes) (
                                      field "created_at" (float c.created_at) (
                                        field "updated_at" (float c.updated_at)
                                          end)))))))))))))))))))
