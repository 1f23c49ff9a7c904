-- ===== src/Execution/Board.antt =====
-- `ObjectiveTracker`, `TaskBoard` and `EvidenceRegistry` of scripts/execution_core.py.
use one_company.Prelude.{
  ℕ, String, Bool, true, false, not, ◌||◌, List, [], ◌∷◌, ◌++◌, Option, none, some, ℤ, leb, ◌==◌,
  is_empty, given, length, if◌then◌else◌, Result, ok, err, ◌>>◌, raise_if, strip, Dict, keys,
  lookup, store,
}
use one_company.Execution.Context.{
  RunKey, RunContext, TaskStatus, task_blocked, TaskItem, EvidenceItem, LessonItem, Error,
  invalid_transition, value_error, key_error, unknown_acceptance_criteria, is_blank, assert_key,
  mutable_or_raise, is_complete, rotate_generation, unknown_of, refusal,
}
use one_company.Execution.Guard.{guard_text, check, is_allowed}

-- The assignment of a criteria mapping, and the rotation.
abbrev pub edit_criteria : RunContext → Option (Dict String) → (now : ℤ) → RunContext × Option Error
edit_criteria c criteria now =
    if given criteria false (λ d. is_empty d)
    then (c, some (value_error "acceptance criteria cannot be empty"))
    else elim (rotate_generation
        (record c { acceptance_criteria = given criteria c.acceptance_criteria (λ d. d) }) now) [
          | ok rotated ↦ (rotated, none)
          | err e ↦ (
            record c { acceptance_criteria = given criteria c.acceptance_criteria (λ d. d) },
            some e,
          )
        ]

-- `edit` after the assertion of the key. It writes the objective before it looks at the criteria: the
-- context that it leaves, and what it raised.
abbrev pub edit_checked :
    RunContext
    → Option String
    → Option (Dict String)
    → (now : ℤ) → Result Error Unit
    → RunContext × Option Error
edit_checked c objective criteria now (err e) = (c, some e)
edit_checked c objective criteria now (ok _) =
    if is_complete c.status
    then (c, some (invalid_transition "cannot edit a complete objective"))
    else if given objective false (λ s. is_blank s)
    then (c, some (value_error "objective cannot be empty"))
    else edit_criteria (record c { objective = given objective c.objective (λ s. s) }) criteria now

unfoldable pub edit :
    RunContext
    → RunKey
    → Option String
    → Option (Dict String)
    → (now : ℤ) → RunContext × Option Error
edit c supplied objective criteria now =
    edit_checked c objective criteria now (assert_key c supplied)

unfoldable pub upsert : RunContext → RunKey → TaskItem → (now : ℤ) → Result Error RunContext
upsert c supplied item now = do
  assert_key c supplied
  mutable_or_raise "cannot mutate tasks" c.status
  raise_if (is_blank item.id || is_blank item.description)
      (value_error "task id and description are required")
  ok (record c { tasks = store c.tasks item.id item; updated_at = now })

abbrev pub is_task_blocked : TaskStatus → Bool
is_task_blocked task_blocked = true
is_task_blocked _ = false

unfoldable pub set_status :
    RunContext → RunKey → String → TaskStatus → Option String → (now : ℤ) → Result Error RunContext
set_status c supplied task_id status blocker now = do
  assert_key c supplied
  mutable_or_raise "cannot mutate tasks" c.status
  given (lookup c.tasks task_id) (err (key_error task_id)) λ item. ok (record c {
    tasks = store c.tasks task_id (record item {
      status = status;
      blocker = if is_task_blocked status then blocker else none;
    });
    updated_at = now;
  })

unfoldable pub add : RunContext → RunKey → EvidenceItem → (now : ℤ) → Result Error RunContext
add c supplied item now = do
  assert_key c supplied
  mutable_or_raise "cannot add evidence" c.status
  raise_if (not (is_allowed (check c)))
      (refusal "cannot add evidence while resource guard is tripped: " (guard_text (check c)))
  raise_if (is_blank item.id || is_blank item.kind || is_blank item.reference)
      (value_error "evidence id, kind, and reference are required")
  let unknown = unknown_of item.acceptance_criteria (keys c.acceptance_criteria)
  raise_if (not (is_empty unknown)) (unknown_acceptance_criteria unknown)
  ok (record c { evidence = store c.evidence item.id item; updated_at = now })

abbrev pub max_lessons : ℕ
max_lessons = 20

-- l[-n:]
unfoldable pub keep_last : ℕ → List LessonItem → List LessonItem
keep_last n [] = []
keep_last n (x ∷ xs) = let rest = keep_last n xs in if leb (length (x ∷ xs)) n then x ∷ xs else rest

abbrev pub is_lesson_kind : String → Bool
is_lesson_kind s = (s == "decision") || (s == "evidence") || (s == "dead_end")

abbrev lesson_of : (kind text : String) → (now : ℤ) → LessonItem
lesson_of kind text now = record { kind = kind; text = text; created_at = now }

-- `lower` is str.lower.
unfoldable pub add_lesson :
    (lower : String → String)
    → RunContext
    → RunKey
    → (kind text : String) → (now : ℤ) → Result Error RunContext
add_lesson lower c supplied kind text now = do
  assert_key c supplied
  raise_if (is_complete c.status) (invalid_transition "cannot mutate a complete run")
  let normalized = lower (strip kind)
  raise_if (not (is_lesson_kind normalized))
      (value_error "lesson kind must be decision, evidence, or dead_end")
  raise_if (is_blank text) (value_error "lesson text is required")
  ok (record c {
    lessons = keep_last max_lessons (c.lessons ++ (lesson_of normalized (strip text) now ∷ []));
    updated_at = now;
  })
