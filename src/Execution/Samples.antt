-- ===== src/Execution/Samples.antt =====
-- Contexts of a small run, for the tests.
use one_company.Prelude.{ℕ, String, true, [], ◌∷◌, none, pos, Dict}
use one_company.Execution.Context.{
  RunKey, default_budget, RunStatus, completion_pending, task_done, TaskItem, EvidenceItem,
  RunContext,
}

abbrev pub key : ℕ → RunKey
key generation = record { wu_id = "WU-1"; run_id = "r1"; generation = generation }

abbrev pub criteria : Dict String
criteria = ("AC-1", "the tests pass") ∷ []

abbrev pub task : TaskItem
task = record { id = "T-1"; description = "write it"; status = task_done; blocker = none }

abbrev pub item : EvidenceItem
item = record {
  id = "E-1";
  kind = "ci";
  reference = "run 7";
  acceptance_criteria = "AC-1" ∷ [];
  authoritative = true;
  observed_at = pos 5;
}

abbrev pub at : ℕ → RunStatus → RunContext
at generation status = record {
  key = key generation;
  objective = "ship";
  acceptance_criteria = criteria;
  budget = default_budget;
  status = status;
  blocked_reason = none;
  tasks = [];
  evidence = [];
  lessons = [];
  assistant_tokens = 0;
  active_seconds = pos 0;
  consecutive_errors = 0;
  unchanged_cycles = 0;
  last_progress_fingerprint = none;
  completion_confidence = pos 0;
  completion_claim = none;
  completion_verdict = none;
  evaluator_notes = none;
  created_at = pos 1;
  updated_at = pos 1;
}

-- A proven run that waits for completion.
abbrev pub ready : RunContext
ready = record (at 1 completion_pending) {
  tasks = ("T-1", task) ∷ [];
  evidence = ("E-1", item) ∷ [];
}
