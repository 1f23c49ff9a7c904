-- ===== src/Kernel/Merge/Tests.antt =====
-- Runs of the gates on evidence that is in order, and their theorems there.
use one_company.Prelude.{
  ◌≡◌, refl, true, false, List, [], ◌∷◌, none, some, any, all, strip, matches_all, decimal, digits,
}
use one_company.Json.{
  Json, str, arr, obj, nil, cons, Fields, end, get, put, py_eq, is_true, as_list,
}
use one_company.Kernel.Types.{normal, halted, merge_eligible, exhausted}
use one_company.Kernel.Governance.{governance_mode, operational_mode}
use one_company.Kernel.Memory.{
  MemoryCasStore, init, update, ModeCall, run_modes, stored_mode, read_repo_mode,
  run_modes-human_clear_only,
}
use one_company.Kernel.Checks.{
  source_key, source_keys, has_duplicates, mappings, candidates, row_ok, checks_ok, is_excluded,
  review_ok,
}
use one_company.Kernel.Checks.Exact.{Vouched, Independent, checks_ok-Vouched, review_ok-Independent}
use one_company.Kernel.Restraint.{
  is_pass, missing_required, without, dedupe, pass_failures, intent_restraint_status,
  intent_restraint_ok,
}
use one_company.Kernel.Restraint.Pass.{Attestation, intent_restraint_status-pass}
use one_company.Kernel.Merge.{
  true_failures, false_failures, stage, merge_failures, merge_ok, merge_ok_v11, merge_precheck_v11,
  classify_green, classify_ci, classify_open, classify_item,
}
use one_company.Kernel.Merge.Gate.{MergeOk}
use one_company.Kernel.Merge.Eligible.{IsReady, classify_item-eligible}
use one_company.Kernel.Merge.Samples.{
  head, base, lower, repr, with_all, source, sources, checks, review, snapshot, budget, governed,
}

program : Unit {0}
unfolding with_all py_eq decimal digits get put source_key source_keys has_duplicates mappings
    candidates row_ok checks_ok is_excluded review_ok missing_required without dedupe pass_failures
    intent_restraint_status intent_restraint_ok true_failures false_failures stage merge_failures
    merge_ok merge_ok_v11 merge_precheck_v11 classify_green classify_ci classify_open classify_item
    exhausted any all strip matches_all
program = tt

checks_valid : checks_ok checks head base sources ≡ true
unfolding program
checks_valid = refl

review_valid : review_ok lower repr (obj review) head base ≡ true
unfolding program
review_valid = refl

attested : (intent_restraint_status lower repr snapshot).0 ≡ is_pass
unfolding program
attested = refl

eligible : classify_item lower repr snapshot budget ≡ merge_eligible
unfolding program
eligible = refl

-- Both sources are the same one.
twice : checks_ok checks head base (arr (cons (source end) (cons (source end) nil))) ≡ false
unfolding program
twice = refl

checks_ok-Vouched_example :
    (rs ss : List Json) × (as_list checks ≡ some rs)
    × (as_list sources ≡ some ss)
    × Vouched rs ss head base
checks_ok-Vouched_example = checks_ok-Vouched checks sources head base checks_valid

intent_restraint_status-pass_example :
    (evidence : Fields) × (get snapshot "intent_restraint" ≡ obj evidence)
    × (get evidence "state" ≡ str "PASS")
    × Attestation lower repr snapshot evidence
intent_restraint_status-pass_example = intent_restraint_status-pass lower repr snapshot attested

classify_item-eligible_example :
    IsReady lower repr snapshot budget
    × MergeOk lower repr (stage snapshot)
    × (is_true (get snapshot "l5_intent_restraint_required") ≡ true
        → (intent_restraint_status lower repr snapshot).0 ≡ is_pass)
classify_item-eligible_example = classify_item-eligible lower repr snapshot budget eligible

review_ok-Independent_example : Independent lower repr review head base
review_ok-Independent_example = review_ok-Independent lower repr review head base review_valid

governed_normal : governance_mode governed ≡ normal
unfolding program governance_mode operational_mode
governed_normal = refl

abbrev halted_store : MemoryCasStore
halted_store = record init { modes = update (λ r. none) "r" (halted, 4) }

abbrev clearing : ModeCall
clearing = record {
  repo = "r";
  expected = some 4;
  mode = normal;
  human_clear = false;
  post_merge_verified = true;
}

run_modes-human_clear_only_example :
    stored_mode (run_modes halted_store (clearing ∷ clearing ∷ [])) "r"
    ≡ stored_mode halted_store "r"
unfolding all read_repo_mode
run_modes-human_clear_only_example =
    run_modes-human_clear_only halted_store (clearing ∷ clearing ∷ []) "r" refl refl
