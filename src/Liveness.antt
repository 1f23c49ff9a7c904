-- ===== src/Liveness.antt =====
-- `check_liveness` of scripts/l5_liveness.py: the trace of a controller's runs, event by event.
pub mod Bound
mod Tests
use one_company.Prelude.{
  ℕ, zero, suc, ◌+◌, String, Bool, true, false, not, ◌&&◌, ◌||◌, List, [], ◌∷◌, ◌++◌, Option, none,
  some, ℤ, pos, negsuc, eqb, leb, ltb, ◌==◌, any, is_empty, given, if◌then◌else◌, Result, ok, err,
  starts_with,
}
use one_company.Json.{
  Json, Items, null, bool, int, float, str, arr, obj, nil, cons, Fields, end, field, get, get_or,
  has, eq_text, is_true,
}
use Prim.Native.String
use one_company.Kernel.Restraint.{unless, dedupe}

-- max_stagnant_runs is out of range.
pub data Error : Type 0 where
  max_stagnant_runs_invalid : Error

abbrev pub terminal_run_statuses : List String
terminal_run_statuses = "COMPLETE" ∷ "BLOCKED" ∷ "WAIT" ∷ "IDLE" ∷ "FAILED" ∷ []

abbrev pub named_wait_prefixes : List String
named_wait_prefixes =
    "WAIT_" ∷ "CI_" ∷ "REVIEW_" ∷ "DEPENDENCY_" ∷ "PROVIDER_" ∷ "POST_MERGE_" ∷ "RECOVERY_"
    ∷ "OUTCOME_" ∷ "PLATFORM_" ∷ []

-- A limit: its name, the name in upper case, and the number.
abbrev pub limits : List (String × String × ℕ)
limits =
    ("ci_reruns", "CI_RERUNS", 2)
    ∷ ("fix_iterations", "FIX_ITERATIONS", 5)
    ∷ ("review_rounds", "REVIEW_ROUNDS", 3)
    ∷ ("lease_acquisitions", "LEASE_ACQUISITIONS", 12)
    ∷ []

-- bool(v)
abbrev pub is_truthy : Json → Bool
is_truthy null = false
is_truthy (bool b) = b
is_truthy (int (pos n)) = ltb 0 n
is_truthy (float (pos n)) = ltb 0 n
is_truthy (str s) = not (s == "")
is_truthy (arr nil) = false
is_truthy (obj end) = false
is_truthy _ = true

-- isinstance(status, str) and status in TERMINAL_RUN_STATUSES
abbrev pub status_valid : Json → Bool
status_valid (str s) = any (λ t. t == s) terminal_run_statuses
status_valid _ = false

-- type(value) is int and 0 <= value <= limit
abbrev pub is_within : ℕ → Json → Bool
is_within limit (int (pos n)) = leb n limit
is_within limit _ = false

-- The loop over LIMITS.
unfoldable pub limit_failures : Fields → List (String × String × ℕ) → List String
limit_failures budget [] = []
limit_failures budget ((name, upper, limit) ∷ rest) =
    let more = limit_failures budget rest in
    if not (has budget name)
    then (String.◌++◌ "BUDGET_MISSING_" upper) ∷ more
    else unless (is_within limit (get budget name)) (String.◌++◌ "BUDGET_INVALID_" upper) ++ more

abbrev pub budget_failures : Json → List String
budget_failures (obj budget) = limit_failures budget limits
budget_failures _ = "BUDGET_EVIDENCE_INVALID" ∷ []

-- The writes of an event, if they are a count.
abbrev pub count_of : Json → Option ℕ
count_of (int (pos n)) = some n
count_of _ = none

abbrev pub writes_of : Fields → Option ℕ
writes_of event =
    if is_true (get event "stable_cycle") && not (has event "writes")
    then none
    else count_of (get_or event "writes" (int (pos 0)))

-- A stable cycle may write only with evidence of an external change.
abbrev pub is_quiescent : Fields → ℕ → Bool
is_quiescent event writes =
    not (is_true (get event "stable_cycle"))
    || eqb writes 0
    || is_true (get event "external_changes")

-- The failures that an event shows by itself.
unfoldable pub event_failures : Fields → List String
event_failures event =
    unless (status_valid (get event "status")) "RUN_NOT_TERMINAL"
    ++ (budget_failures (get event "budget")
        ++ given (writes_of event) ("WRITE_COUNT_INVALID" ∷ [])
            (λ writes. unless (is_quiescent event writes) "IDLE_NOT_QUIESCENT"))

-- The items, by repository and id.
abbrev pub Key : Type 0
Key = String × String

abbrev pub is_key : Key → Key → Bool
is_key (a, b) (c, d) = (a == c) && (b == d)

-- `stagnant` and `last_epoch`: a missing count is 0.
pub record Stagnation : Type 0 where
  pub stagnant : Key → ℕ
  pub last_epoch : Key → Option String

abbrev pub start : Stagnation
start = record { stagnant = λ k. 0; last_epoch = λ k. none }

abbrev pub is_epoch : Option String → String → Bool
is_epoch none e = false
is_epoch (some d) e = d == e

-- `repr` is `str` on values that are no texts, and `dumps` is json.dumps of a pair.
module _ (repr : Json → String) (dumps : Json → Json → String) where
  -- str(v or default)
  abbrev pub text_or : String → Json → String
  text_or default (str s) = if s == "" then default else s
  text_or default v = if is_truthy v then repr v else default

  abbrev pub key_of : Fields → Key
  key_of event = (text_or "" (get event "repo"), text_or "repo" (get event "item_id"))

  abbrev pub epoch_of : Fields → String
  epoch_of event = dumps (get event "head") (get event "base")

  abbrev pub is_named_wait : Fields → Bool
  is_named_wait event =
      let reason = text_or "" (get event "reason") in
      eq_text (get event "status") "WAIT"
      && (any (λ p. starts_with p reason) named_wait_prefixes
          || (reason == "LEASE_BUSY")
          || (reason == "MERGED_UNVERIFIED"))

  -- A bounded outcome: success, idleness, parking or a named wait.
  unfoldable pub is_bounded : Fields → Bool
  is_bounded event =
      let status = get event "status" in
      status_valid status
      && (eq_text status "COMPLETE"
          || eq_text status "IDLE"
          || eq_text (get event "state") "PARKED"
          || is_named_wait event)

  -- stagnant[key] after the event.
  unfoldable pub stagnant_after : Stagnation → Fields → ℕ
  stagnant_after s event =
      if is_bounded event
      then 0
      else if is_epoch (s.last_epoch (key_of event)) (epoch_of event)
      then s.stagnant (key_of event) + 1
      else 1

  unfoldable pub advance : Stagnation → Fields → Stagnation
  advance s event = record {
    stagnant = λ k. if is_key (key_of event) k then stagnant_after s event else s.stagnant k;
    last_epoch = λ k. if is_key (key_of event) k then some (epoch_of event) else s.last_epoch k;
  }

  -- Only a further event of one epoch is tested.
  unfoldable pub stagnation_failures : ℕ → Stagnation → Fields → List String
  stagnation_failures max s event =
      if is_bounded event || not (is_epoch (s.last_epoch (key_of event)) (epoch_of event))
      then []
      else unless (leb (stagnant_after s event) max) "UNBOUNDED_STAGNATION"

  -- The loop over the events.
  unfoldable pub failures_from : ℕ → Stagnation → List Fields → List String
  failures_from max s [] = []
  failures_from max s (event ∷ events) =
      let rest = failures_from max (advance s event) events in
      event_failures event ++ (stagnation_failures max s event ++ rest)

  unfoldable pub check_liveness : List Fields → ℕ → Result Error (Bool × List String)
  check_liveness events max =
      if ltb max 1
      then err max_stagnant_runs_invalid
      else (let failures = dedupe (failures_from max start events) in
          ok (is_empty failures, failures))
