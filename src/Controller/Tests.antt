-- ===== src/Controller/Tests.antt =====
-- Runs of the controller over the in-memory store, and its theorems there.
use one_company.Prelude.{
  ℕ, ◌+◌, ◌≡◌, refl, true, false, List, [], ◌∷◌, none, some, any, all, strip, matches_all, decimal,
  digits, ok, Bool-cases, map,
}
use Prim.Native.String
use native.Mathlib.Decide.{ℕ_discrete}
use one_company.Json.{Fields, str, obj, bool, field, end, get, put, py_eq}
use one_company.Kernel.Types.{
  normal, merge_locked, Observation, String-discrete, Observation-discrete, Lease, Lease-discrete,
  exhausted, is_allowlisted,
}
use one_company.Kernel.Memory.{
  MemoryCasStore, RepoMode-discrete, init, update, read, cas, read_repo_mode, cas_repo_mode,
  mode-cas_repo_mode, memory_store,
}
use one_company.Kernel.Lease.{
  next_lease, swap, acquire, attach_intent, resolve_intent, verify_intent, release, fence_ok,
  intent_recovery,
}
use one_company.Kernel.Governance.{governance_mode, operational_mode}
use one_company.Kernel.Checks.{
  source_key, source_keys, has_duplicates, mappings, candidates, row_ok, checks_ok, is_excluded,
  review_ok,
}
use one_company.Kernel.Restraint.{
  missing_required, without, dedupe, pass_failures, intent_restraint_status, intent_restraint_ok,
}
use one_company.Kernel.Merge.{
  true_failures, false_failures, stage, merge_failures, merge_ok, merge_ok_v11, merge_precheck_v11,
  classify_green, classify_ci, classify_open, classify_item,
}
use one_company.Kernel.Merge.Samples.{with_all, snapshot, governed, head, base, lower, repr, budget}
use one_company.Controller.Io.{
  exit, RunResult, ControllerStore, ControllerIo, Imports, Write, State, pure, raise, lift, bound,
  ◌>>=◌, call, reading, on_store, settled, on_kernel, perform,
}
use one_company.Controller.Choice.{first_of, candidates_of}
use one_company.Controller.Recovery.{sync_mode, recover_all, recover_pending}
use one_company.Controller.PostMerge.{bound_items, post_merge}
use one_company.Controller.Run.{conclude, gate_merge, check_fence, work, run_once}
use one_company.Controller.Bridge.{Runtime, execute_guarded, Outcome, execute_guarded-Outcome}
use one_company.Controller.Permitted.{AtMostOne, Permitted}
use one_company.Controller.Safety.{run_once-Permitted}
use one_company.Controller.Idle.{run_once-idle}
use one_company.Controller.Candid.{run_once-Tells}

-- The in-memory store, whose mode no human clears here.
abbrev store : ControllerStore MemoryCasStore
store = record {
  leases = memory_store;
  cas_repo_mode =
      λ s repo expected mode verified. cas_repo_mode s repo expected mode false verified;
  mode-cas_repo_mode =
      λ s repo expected mode verified. mode-cas_repo_mode s repo expected mode false verified;
}

abbrev imports : Imports
imports = record {
  lower = lower;
  upper = lower;
  repr = repr;
  idem_key = λ repo item head base op. String.◌++◌ repo (String.◌++◌ item op);
}

abbrev observed : Observation
observed = record { head = head; base = base; wu_body_hash = "w"; pr_updated_at = "t" }

abbrev item : Fields
item = field "item_id" (str "42") snapshot

abbrev merged_item : Fields
merged_item = put (put item "merged" (bool true)) "main_verified" (bool false)

-- A world with one item, whose state is the number of calls that tell the time or write.
abbrev world : (repo item : Fields) → ControllerIo MemoryCasStore ℕ
world repo item = record {
  repo_snapshot = λ s w. (repo, s, w);
  pending_intent_leases = λ s w. ([], s, w);
  detect_intent_effect = λ lease s w. ("UNKNOWN", s, w);
  inventory = λ s w. (item ∷ [], s, w);
  refresh_item = λ item s w. (item, s, w);
  budget_for = λ item s w. (budget, s, w);
  observe_item = λ item s w. (observed, s, w);
  trusted_now = λ s w. (some (w + 1000), s, w + 1);
  post_merge_health = λ item s w. ("HEALTHY", s, w);
  execute_guarded =
      λ operation item lease s w. (obj (field "status" (str "COMPLETE") end), s, w + 1);
}

abbrev start : State MemoryCasStore ℕ
start = record {
  store = record init { modes = update (λ r. none) "r" (normal, 1) };
  world = 0;
  performed = [];
}

program : Unit {0}
unfolding with_all py_eq decimal digits get put source_key source_keys has_duplicates mappings
    candidates row_ok checks_ok is_excluded review_ok missing_required without dedupe pass_failures
    intent_restraint_status intent_restraint_ok true_failures false_failures stage merge_failures
    merge_ok merge_ok_v11 merge_precheck_v11 classify_green classify_ci classify_open classify_item
    exhausted any all strip matches_all governance_mode operational_mode swap acquire attach_intent
    resolve_intent verify_intent release fence_ok intent_recovery read cas read_repo_mode
    cas_repo_mode RepoMode-discrete String-discrete Observation-discrete Lease-discrete pure raise
    lift bound ◌>>=◌ call reading on_store settled on_kernel perform first_of candidates_of
    Bool-cases ℕ_discrete is_allowlisted sync_mode recover_all recover_pending bound_items
    post_merge conclude gate_merge check_fence work run_once execute_guarded
program = tt

abbrev after : State MemoryCasStore ℕ
after = (run_once store (world governed item) imports "r" "run-1" "op-1" start).0

merges : map (λ w. w.operation) after.performed ≡ "merge_expected_head" ∷ []
unfolding program
merges = refl

locks : (read_repo_mode after.store "r").0 ≡ merge_locked
unfolding program
locks = refl

abbrev verified : State MemoryCasStore ℕ
verified = (run_once store (world governed merged_item) imports "r" "run-2" "op-2" after).0

verifies : (read_repo_mode verified.store "r").0 ≡ normal
unfolding program
verifies = refl

no_more : map (λ w. w.operation) verified.performed ≡ "merge_expected_head" ∷ []
unfolding program
no_more = refl

-- The item is still reviewed by nobody: nothing is done about a merge, and a review is asked for.
unmerged :
    map
      (λ w. w.operation)
      (run_once store
        (world governed (put item "independent_review_pass" (bool false)))
        imports
        "r"
        "run-1"
        "op-1"
        start).0.performed
    ≡ "dispatch_review" ∷ []
unfolding program
unmerged = refl

run_once-Permitted_example :
    AtMostOne (Permitted store (world governed item) imports "r") [] after.performed
run_once-Permitted_example =
    run_once-Permitted store (world governed item) imports "r" "run-1" "op-1" start

abbrev halted_repo : Fields
halted_repo = put governed "halted" (bool true)

run_once-idle_example :
    (run_once store (world halted_repo item) imports "r" "run-1" "op-1" start).0.performed ≡ []
unfolding program
run_once-idle_example =
    run_once-idle store (world halted_repo item) imports "r" "run-1" "op-1" start refl

abbrev waiting : RunResult
waiting = record {
  run_id = "run-1";
  phase = exit;
  status = "WAIT";
  action = some "merge_expected_head";
  item_id = some "42";
  reason = some "MERGED_UNVERIFIED";
  mutation_result = some (obj (field "status" (str "COMPLETE") end));
}

run_once-Tells_example : (read_repo_mode after.store "r").0 ≡ merge_locked
unfolding program
run_once-Tells_example =
    run_once-Tells store (world governed item) imports "r" "run-1" "op-1" start waiting merge_locked
      refl refl

-- The write adapter of the example: the authorization is the snapshot.
abbrev runtime : Runtime MemoryCasStore ℕ
runtime = record {
  authorize_mutation = ok;
  execute_mutation = λ auth snapshot s w. (obj (field "status" (str "COMPLETE") end), s, w + 1);
}

abbrev authorization : Fields
authorization =
    field "mutation" (str "merge_expected_head")
      (field "expected_head_sha" (str head) (field "expected_base_sha" (str base) end))

abbrev authorized_item : Fields
authorized_item = put item "activation_snapshot" (obj authorization)

abbrev written : List (Write MemoryCasStore ℕ) → Lease
written [] = next_lease none "k" "nobody" observed 0 10
written (w ∷ ws) = w.lease

executes :
    (execute_guarded
      (ok runtime)
      "merge_expected_head"
      authorized_item
      (written after.performed)
      init
      4).2
    ≡ 5
unfolding program
executes = refl

execute_guarded-Outcome_example :
    Outcome
      (ok runtime)
      "merge_expected_head"
      authorized_item
      (written after.performed)
      init
      4
      (obj (field "status" (str "COMPLETE") end), init, 5)
unfolding program
execute_guarded-Outcome_example =
    execute_guarded-Outcome (ok runtime) "merge_expected_head" authorized_item
      (written after.performed) init 4
