-- ===== src/Kernel/Merge.antt =====
-- `merge_ok`, its L5.1 forms and `classify_item` of scripts/l5_kernel.py.
pub mod Gate
pub mod Eligible
pub mod Samples
mod Tests
use one_company.Prelude.{
  ℕ, suc, zero, ◌≡◌, ◌↔◌, ◌⊎◌, inl, inr, refl, String, Bool, true, false, not, ◌&&◌, ◌||◌, List, [],
  ◌∷◌, ◌++◌, map, Option, none, some, all, any, is_empty, if◌then◌else◌, given, arith, In,
  Bool-cases, ◌==◌,
}
use one_company.Json.{Json, null, bool, str, Fields, get, put, eq_text, is_true, is_false, is_null}
use one_company.Kernel.Types.{
  ItemState, governance_change, wait_ci, ci_missing, ci_red_infra, ci_red_deterministic,
  behind_base, ci_green_unreviewed, intent_restraint_pending, intent_restraint_failed,
  findings_open, disputed_finding, block_human, wait_dependency, merge_eligible, merge_queued,
  merge_outcome_unknown, merged_unverified, merged_verified, main_is_broken, superseded, parked,
  wait_provider, idle, Budget, exhausted,
}
use one_company.Kernel.Checks.{as_sha, checks_ok, review_ok}
use one_company.Kernel.Restraint.{
  Restraint, is_pending, is_failed, is_pass, intent_restraint_status, intent_restraint_ok,
}

abbrev pub true_fields : List String
true_fields =
    "merge_lock_owned" ∷ "fence_ok" ∷ "pr_open" ∷ "same_repo" ∷ "base_ref_expected"
    ∷ "head_ref_matches_api" ∷ "base_currency_ok" ∷ "mergeable" ∷ "mergeable_state_clean"
    ∷ "live_rules_at_least_pinned" ∷ "rulesets_or_protection_active" ∷ "files_fully_enumerated"
    ∷ "diff_within_limit" ∷ "adapter_hash_ok" ∷ "controller_hash_ok" ∷ "code_scanning_present"
    ∷ "review_decision_ok" ∷ "findings_confirmed_closed" ∷ "thread_resolution_policy_ok"
    ∷ "human_gate_checks_ok" ∷ "dependencies_verified" ∷ "required_check_sources_pinned"
    ∷ "credential_isolation_ok" ∷ "secret_hygiene_ok" ∷ []

abbrev pub false_fields : List String
false_fields =
    "global_halted" ∷ "repo_halted" ∷ "unresolved_other_intent" ∷ "pr_draft" ∷ "pr_locked"
    ∷ "fork_pr" ∷ "controller_admin" ∷ "controller_bypass" ∷ "governed_path_touched"
    ∷ "test_weakening" ∷ "new_security_alert" ∷ "secret_finding" ∷ "later_changes_requested"
    ∷ "unresolved_required_threads" ∷ "human_hold" ∷ []

-- A failure code: `not_true k` is K_NOT_TRUE and `not-false k` is K_NOT_FALSE, in upper case.
pub data Failure : Type 0 where
  head_unknown base_unknown repo_mode_not_normal expected_head_mismatch expected_base_mismatch :
      Failure
  required_checks_invalid security_checks_invalid review_invalid : Failure
  not_true not-false : String → Failure
  restraint : String → Failure

abbrev pub unless : Bool → Failure → List Failure
unless true f = []
unless false f = f ∷ []

-- The loops over TRUE_FIELDS and FALSE_FIELDS.
unfoldable pub true_failures : Fields → List String → List Failure
true_failures snapshot [] = []
true_failures snapshot (k ∷ ks) =
    unless (is_true (get snapshot k)) (not_true k) ++ true_failures snapshot ks

unfoldable pub false_failures : Fields → List String → List Failure
false_failures snapshot [] = []
false_failures snapshot (k ∷ ks) =
    unless (is_false (get snapshot k)) (not-false k) ++ false_failures snapshot ks

abbrev pub is_sha : Json → Bool
is_sha v = given (as_sha v) false (λ s. true)

-- `test` on the exact refs, if both are known.
abbrev pub on_refs : Fields → (String → String → Bool) → Bool
on_refs snapshot test =
    given (as_sha (get snapshot "head_sha")) false
      λ head. given (as_sha (get snapshot "base_sha")) false λ base. test head base

-- `value` equals the ref, if the ref is known.
abbrev pub agrees : Json → Json → Bool
agrees value ref = given (as_sha ref) true (eq_text value)

-- The fields that only the runtime knows, taken as good.
unfoldable pub stage : Fields → Fields
stage snapshot =
    put (put (put snapshot "merge_lock_owned" (bool true)) "fence_ok" (bool true))
      "unresolved_other_intent" (bool false)

module _ (lower : String → String) (repr : Json → String) where
  unfoldable pub merge_failures : Fields → List Failure
  merge_failures snapshot =
      unless (is_sha (get snapshot "head_sha")) head_unknown
      ++ (unless (is_sha (get snapshot "base_sha")) base_unknown
          ++ (unless (eq_text (get snapshot "repo_mode") "NORMAL") repo_mode_not_normal
              ++ (true_failures snapshot true_fields
                  ++ (false_failures snapshot false_fields
                      ++ (unless
                            (agrees (get snapshot "expected_head_sha") (get snapshot "head_sha"))
                            expected_head_mismatch
                          ++ (unless
                                (agrees (get snapshot "expected_base_sha")
                                  (get snapshot "base_sha"))
                                expected_base_mismatch
                              ++ (unless
                                    (on_refs snapshot λ head base.
                                      checks_ok (get snapshot "required_checks") head base
                                        (get snapshot "required_check_sources"))
                                    required_checks_invalid
                                  ++ (unless
                                        (on_refs snapshot λ head base.
                                          checks_ok (get snapshot "security_checks") head base
                                            (get snapshot "security_check_sources"))
                                        security_checks_invalid
                                      ++ unless
                                          (on_refs snapshot λ head base.
                                            review_ok lower repr (get snapshot "review") head base)
                                          review_invalid))))))))

  unfoldable pub merge_ok : Fields → Bool × List Failure
  merge_ok snapshot = let failures = merge_failures snapshot in (is_empty failures, failures)

  unfoldable pub merge_ok_v11 : Fields → Bool × List Failure
  merge_ok_v11 snapshot =
      let (base_ok, base_failures) = merge_ok snapshot in
      if not (is_true (get snapshot "l5_intent_restraint_required"))
      then (base_ok, base_failures)
      else (let (restraint_ok, reasons) = intent_restraint_ok lower repr snapshot in
          (base_ok && restraint_ok, base_failures ++ map restraint reasons))

  unfoldable pub merge_precheck_v11 : Fields → Bool × List Failure
  merge_precheck_v11 snapshot = merge_ok_v11 (stage snapshot)

  abbrev is_finding : Failure → Bool
  is_finding (not_true k) =
      (k == "findings_confirmed_closed") || (k == "thread_resolution_policy_ok")
  is_finding (not-false k) = k == "unresolved_required_threads"
  is_finding _ = false

  -- What the merge gate's answer makes of an item.
  abbrev pub gate_state : Bool × List Failure → ItemState
  gate_state (ok, failures) =
      if ok
      then merge_eligible
      else if not (is_empty failures) && all is_finding failures
      then findings_open
      else block_human

  abbrev pub restrained : Fields → Restraint → ItemState
  restrained snapshot is_pending = intent_restraint_pending
  restrained snapshot is_failed = intent_restraint_failed
  restrained snapshot is_pass = gate_state (merge_precheck_v11 snapshot)

  module _ (snapshot : Fields) where
    abbrev on : String → Bool
    on key = is_true (get snapshot key)

    -- From green CI on.
    unfoldable pub classify_green : ItemState
    classify_green =
        if on "provider_unavailable"
        then wait_provider
        else if not (on "independent_review_pass")
        then ci_green_unreviewed
        else if on "l5_intent_restraint_required"
        then restrained snapshot (intent_restraint_status lower repr snapshot).0
        else gate_state (merge_ok (stage snapshot))

    unfoldable pub classify_ci : ItemState
    classify_ci =
        let ci = get snapshot "ci" in
        if is_null ci || eq_text ci "PENDING"
        then wait_ci
        else if eq_text ci "MISSING"
        then ci_missing
        else if eq_text ci "INFRA_FAILED"
        then ci_red_infra
        else if eq_text ci "DETERMINISTIC_FAILED"
        then ci_red_deterministic
        else if not (eq_text ci "GREEN")
        then wait_ci
        else classify_green

    -- The states before CI is looked at.
    unfoldable pub classify_open : ItemState
    classify_open =
        if on "merge_outcome_unknown"
        then merge_outcome_unknown
        else if on "merge_queued"
        then merge_queued
        else if on "superseded"
        then superseded
        else if on "disputed_finding"
        then disputed_finding
        else if on "findings_open"
        then findings_open
        else if on "behind_base"
        then behind_base
        else classify_ci

    unfoldable pub classify_item : Budget → ItemState
    classify_item budget =
        if exhausted budget
        then parked
        else if on "no_actionable_work"
        then idle
        else if on "governed_path_touched" || on "test_weakening"
        then governance_change
        else if on "needs_human" || on "human_hold"
        then block_human
        else if on "dependency_wait"
        then wait_dependency
        else if on "merged"
        then (if on "main_broken"
            then main_is_broken
            else if on "post_merge_verified"
            then merged_verified
            else merged_unverified)
        else classify_open
