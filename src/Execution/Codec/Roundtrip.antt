-- ===== src/Execution/Codec/Roundtrip.antt =====
-- A context that is written and read back.
use one_company.Prelude.{ℕ, ◌≡◌, refl, String, List, [], ◌∷◌, Option, none, some, ℤ, Dict, ok, any}
use one_company.Json.{Json, str, float, obj, as_text, get, has}
use one_company.Execution.Context.{
  RunStatus, active, paused, blocked, budget_limited, completion_pending, complete, status_text,
  TaskStatus, task_pending, task_in_progress, task_done, task_blocked, CompletionVerdict, continue,
  met, impossible, unavailable, TaskItem, EvidenceItem, LessonItem, RunContext, RunKey,
  ResourceBudget, validate_context, validate_budget,
}
use one_company.Execution.Codec.{
  task_text, verdict_text, of_option, of_nat, of_dict, of_list, of_key, of_budget, of_task,
  of_evidence, of_lesson, to_dict,
}
use one_company.Execution.Codec.Read.{
  as_count, as_units, as_optional, read_dict, read_list, run_status, task_status, as_verdict, only,
  as_key, as_budget, as_task, as_evidence, as_lesson, from_dict,
}

module _ {A : Type 0} (value : A → Json) (read : Json → Option A)
    (back : (a : A) → read (value a) ≡ some a) where
  read_dict-of_dict : (d : Dict A) → read_dict read (of_dict value d) ≡ some d
  unfolding read_dict of_dict
  read_dict-of_dict [] = refl
  read_dict-of_dict ((k, a) ∷ d) = rw (back a, read_dict-of_dict d) refl

  read_list-of_list : (l : List A) → read_list read (of_list value l) ≡ some l
  unfolding read_list of_list
  read_list-of_list [] = refl
  read_list-of_list (a ∷ l) = rw (back a, read_list-of_list l) refl

run_status-status_text : (s : RunStatus) → run_status (status_text s) ≡ some s
run_status-status_text active = refl
run_status-status_text paused = refl
run_status-status_text blocked = refl
run_status-status_text budget_limited = refl
run_status-status_text completion_pending = refl
run_status-status_text complete = refl

task_status-task_text : (s : TaskStatus) → task_status (task_text s) ≡ some s
task_status-task_text task_pending = refl
task_status-task_text task_in_progress = refl
task_status-task_text task_done = refl
task_status-task_text task_blocked = refl

as_verdict-of_option :
    (v : Option CompletionVerdict) → as_verdict (of_option (λ w. str (verdict_text w)) v) ≡ some v
as_verdict-of_option none = refl
as_verdict-of_option (some continue) = refl
as_verdict-of_option (some met) = refl
as_verdict-of_option (some impossible) = refl
as_verdict-of_option (some unavailable) = refl

optional_text : (o : Option String) → as_optional as_text (of_option str o) ≡ some o
optional_text none = refl
optional_text (some s) = refl

optional_count : (o : Option ℕ) → as_optional as_count (of_option of_nat o) ≡ some o
optional_count none = refl
optional_count (some n) = refl

optional_units : (o : Option ℤ) → as_optional as_units (of_option float o) ≡ some o
optional_units none = refl
optional_units (some n) = refl

as_task-of_task : (t : TaskItem) → as_task (of_task t) ≡ some t
unfolding get has
as_task-of_task t = rw (task_status-task_text t.status, optional_text t.blocker) refl

as_evidence-of_evidence : (now : ℤ) (e : EvidenceItem) → as_evidence now (of_evidence e) ≡ some e
unfolding get has any only
as_evidence-of_evidence now e =
    rw (read_list-of_list str as_text (λ s. refl) e.acceptance_criteria) refl

as_lesson-of_lesson : (now : ℤ) (l : LessonItem) → as_lesson now (of_lesson l) ≡ some l
unfolding get has any only
as_lesson-of_lesson now l = refl

as_key-of_key : (k : RunKey) → as_key (obj (of_key k)) ≡ some k
unfolding get has any only
as_key-of_key k = refl

as_budget-of_budget :
    (b : ResourceBudget) → validate_budget b ≡ ok tt → as_budget (obj (of_budget b)) ≡ some b
unfolding get has any only
as_budget-of_budget b h =
    rw (optional_count b.max_assistant_tokens, optional_units b.max_active_seconds, h) refl

-- A context with a valid budget that is valid itself is read back as it was written, whatever the
-- time.
pub from_dict-to_dict :
    (now : ℤ) (c : RunContext)
    → validate_budget c.budget ≡ ok tt
    → validate_context c ≡ ok tt
    → from_dict now (to_dict c) ≡ some c
unfolding from_dict to_dict get has
from_dict-to_dict now c budget valid =
    rw
      (
        read_dict-of_dict of_task as_task as_task-of_task c.tasks,
        read_dict-of_dict of_evidence (as_evidence now) (as_evidence-of_evidence now) c.evidence,
        as_key-of_key c.key,
        read_dict-of_dict str as_text (λ s. refl) c.acceptance_criteria,
        as_budget-of_budget c.budget budget,
        run_status-status_text c.status,
        optional_text c.blocked_reason,
        read_list-of_list of_lesson (as_lesson now) (as_lesson-of_lesson now) c.lessons,
        optional_text c.last_progress_fingerprint,
        optional_text c.completion_claim,
        as_verdict-of_option c.completion_verdict,
        optional_text c.evaluator_notes,
        valid,
      )
      refl
