-- ===== src/Recovery/Plan.antt =====
-- `plan_recovery` and `journal_record` of scripts/l5_recovery.py.
pub mod Budget
pub mod Handled
pub mod Retries
mod Tests
use one_company.Prelude.{
  ℕ, zero, suc, ◌+◌, String, ◌≡◌, refl, Bool, true, false, not, ◌&&◌, ◌||◌, List, [], ◌∷◌, map,
  Option, none, some, ℤ, pos, negsuc, arith, leb, eqb, ltb, ◌==◌, if◌then◌else◌, Result, given, ok,
  err, ◌>>=◌, ◌>>◌, raise_if, any, all, is_empty, strip, length, matches_all, is_lower_hex,
}
use one_company.Json.{Json, null, bool, int, str, arr, obj, Fields, field, end, get}
use one_company.StateMachine
use one_company.StateMachine.{
  Action, State, Decision, as_sha, as_positive, emergency_stop_hold, human_or_policy_blocked,
  duplicate_stream_reconciliation_required, canonical_stream_mismatch, replenish_next_ready_wu,
  await_authorized_expected_head_merge,
}
use one_company.Recovery.Defs.{
  Scope, Error, snapshot_invalid, unhandled_action, of_state, scope_of, is_recovery, max_retries,
  retry_state, event_key,
}
use one_company.Recovery.Candidates.{eligible_ready_candidates}

pub data Status : Type 0 where
  replay_noop planned blocked idle ready : Status

-- The plan's `next_action`: one of `reduce_evidence`, or one of the planner's own.
pub data NextAction : Type 0 where
  none_already_recorded idle_no_conflict_safe_ready_work plan_replenish_ready_wu : NextAction
  retry_budget_exhausted : NextAction
  reduced : Action → NextAction

-- What every plan but a replay holds.
pub record Details : Type 0 where
  pub repository : String
  pub issue : ℕ
  pub canonical_pr : Json
  pub state : State
  pub retry_count : ℕ
  pub retry_action : Option Scope

-- A key that the plan lacks is `none`.
pub record Plan : Type 0 where
  pub status : Status
  pub event_key : String
  pub next_action : NextAction
  pub mutation_allowed : Bool
  pub details : Option Details
  pub retry_count_after : Option ℕ
  pub retry_action_after : Option Scope
  pub selected_issue : Option ℕ

-- action in {"EMERGENCY_STOP_HOLD", ...}
abbrev pub is_hold : Action → Bool
is_hold emergency_stop_hold = true
is_hold human_or_policy_blocked = true
is_hold duplicate_stream_reconciliation_required = true
is_hold canonical_stream_mismatch = true
is_hold _ = false

abbrev pub is_replenish : Action → Bool
is_replenish replenish_next_ready_wu = true
is_replenish _ = false

abbrev pub is_await : Action → Bool
is_await await_authorized_expected_head_merge = true
is_await _ = false

abbrev pub lift_state : {A : Type 0} → Result StateMachine.Error A → Result Error A
lift_state (ok a) = ok a
lift_state (err e) = err (of_state e)

abbrev pub replay : String → Plan
replay key = record {
  status = replay_noop;
  event_key = key;
  next_action = none_already_recorded;
  mutation_allowed = false;
  details = none;
  retry_count_after = none;
  retry_action_after = none;
  selected_issue = none;
}

-- `result` before the branches, with the fields that some of them replace.
abbrev pub base_plan : String → Decision → Status → NextAction → ℕ → Option Scope → Plan
base_plan key d status next count scope = record {
  status = status;
  event_key = key;
  next_action = next;
  mutation_allowed = false;
  details = some (record {
    repository = d.repository;
    issue = d.issue;
    canonical_pr = d.canonical_pr;
    state = d.state;
    retry_count = count;
    retry_action = scope;
  });
  retry_count_after = none;
  retry_action_after = none;
  selected_issue = none;
}

-- candidates[0]["issue"], or IDLE.
abbrev pub replenish : String → Decision → List ℕ → Plan
replenish key d [] = base_plan key d idle idle_no_conflict_safe_ready_work 0 none
replenish key d (n ∷ ns) = record (base_plan key d planned plan_replenish_ready_wu 0 none) {
  selected_issue = some n;
}

-- The branches on the action.
pub dispatch : Fields → String → Decision → ℕ → Option Scope → Result Error Plan
dispatch snapshot key d count persisted =
    let action = d.next_action in
    let scope = scope_of action in
    let kept = if is_recovery action then scope else persisted in
    if is_hold action
    then ok (base_plan key d blocked (reduced action) count kept)
    else if is_replenish action
    then (do candidates ← eligible_ready_candidates snapshot; ok (replenish key d candidates))
    else if is_recovery action
    then if leb max_retries count
      then ok (base_plan key d blocked retry_budget_exhausted count kept)
      else ok (record (base_plan key d planned (reduced action) count kept) {
        retry_count_after = some (count + 1);
        retry_action_after = scope;
      })
    else if is_await action
    then ok (base_plan key d ready (reduced action) 0 none)
    else err (unhandled_action action)

module _ (lower : String → String) (digest : Fields → String) where
  pub plan_snapshot : Fields → List String → Result Error Plan
  plan_snapshot snapshot prior = do
    key ← event_key digest snapshot
    if any (λ k. k == key) prior then ok (replay key) else do
      d ← lift_state (StateMachine.reduce_evidence lower (obj snapshot))
      (count, persisted) ← retry_state snapshot d.next_action
      dispatch snapshot key d count persisted

  pub plan_recovery : Json → List String → Result Error Plan
  plan_recovery (obj snapshot) prior = plan_snapshot snapshot prior
  plan_recovery _ prior = err snapshot_invalid

-- The journal's line for a plan: what the plan lacks comes from the snapshot.
pub record JournalRecord : Type 0 where
  pub event_key : String
  pub repository : Json
  pub issue : Json
  pub canonical_pr : Option ℕ
  pub head_sha : Option String
  pub base_sha : Option String
  pub status : Status
  pub next_action : NextAction
  pub retry_count : ℕ
  pub retry_action : Option Scope
  pub retry_count_after : Option ℕ
  pub retry_action_after : Option Scope
  pub selected_issue : Option ℕ
  pub mutation_allowed : Bool

pub journal_record : Fields → Plan → JournalRecord
journal_record snapshot plan = record {
  event_key = plan.event_key;
  repository = given plan.details (get snapshot "repository") (λ d. str d.repository);
  issue = given plan.details (get snapshot "issue") (λ d. int (pos d.issue));
  canonical_pr =
      as_positive (given plan.details (get snapshot "canonical_pr") (λ d. d.canonical_pr));
  head_sha = as_sha (get snapshot "head_sha");
  base_sha = as_sha (get snapshot "base_sha");
  status = plan.status;
  next_action = plan.next_action;
  retry_count = given plan.details 0 (λ d. d.retry_count);
  retry_action = given plan.details none (λ d. d.retry_action);
  retry_count_after = plan.retry_count_after;
  retry_action_after = plan.retry_action_after;
  selected_issue = plan.selected_issue;
  mutation_allowed = false;
}
