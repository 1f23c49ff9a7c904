-- ===== src/Kernel/Merge/Eligible.antt =====
-- When `classify_item` says MERGE_ELIGIBLE.
use one_company.Prelude.{
  ◌≡◌, inl, inr, refl, String, Bool, true, false, ◌||◌, List, arith, Bool-cases,
}
use one_company.Json.{Json, Fields, get, eq_text, is_true}
use one_company.Kernel.Types.{merge_eligible, Budget, exhausted}
use one_company.Kernel.Restraint.{
  Restraint, is_pending, is_failed, is_pass, intent_restraint_status,
}
use one_company.Kernel.Merge.{
  Failure, merge_ok, merge_ok_v11, merge_precheck_v11, stage, gate_state, restrained,
  classify_green, classify_ci, classify_open, classify_item,
}
use one_company.Kernel.Merge.Gate.{MergeOk, merge_ok_iff}

module _ (lower : String → String) (repr : Json → String) (snapshot : Fields) where
  abbrev on : String → Bool
  on key = is_true (get snapshot key)

  gate_state-eligible :
      (r : Bool × List Failure) → gate_state lower repr r ≡ merge_eligible → r.0 ≡ true
  gate_state-eligible (true, fs) h = refl
  gate_state-eligible (false, fs) h = ground arith

  -- What the merge gate leaves to the item: work to do and nobody's hold, an open change that is
  -- up to date, green CI and an independent review.
  pub record IsReady (budget : Budget) : Type 0 where
    pub in_budget : exhausted budget ≡ false
    pub ungoverned : (on "governed_path_touched" || on "test_weakening") ≡ false
    pub unheld : (on "needs_human" || on "human_hold") ≡ false
    pub independent : on "dependency_wait" ≡ false
    pub unmerged : on "merged" ≡ false
    pub no_findings : on "findings_open" ≡ false
    pub up_to_date : on "behind_base" ≡ false
    pub green : eq_text (get snapshot "ci") "GREEN" ≡ true
    pub reviewed : on "independent_review_pass" ≡ true

  open_of_item :
      (budget : Budget)
      → classify_item lower repr snapshot budget ≡ merge_eligible
      → (exhausted budget ≡ false)
        × ((on "governed_path_touched" || on "test_weakening") ≡ false)
        × ((on "needs_human" || on "human_hold") ≡ false)
        × (on "dependency_wait" ≡ false)
        × (on "merged" ≡ false)
        × (classify_open lower repr snapshot ≡ merge_eligible)
  unfolding classify_item
  open_of_item budget h = ground arith

  ci_of_open :
      classify_open lower repr snapshot ≡ merge_eligible
      → (on "findings_open" ≡ false)
        × (on "behind_base" ≡ false)
        × (classify_ci lower repr snapshot ≡ merge_eligible)
  unfolding classify_open
  ci_of_open h = ground arith

  green_of_ci :
      classify_ci lower repr snapshot ≡ merge_eligible
      → (eq_text (get snapshot "ci") "GREEN" ≡ true)
        × (classify_green lower repr snapshot ≡ merge_eligible)
  unfolding classify_ci
  green_of_ci h = ground arith

  pub base_of_v11 :
      (staged : Fields)
      → (merge_ok_v11 lower repr staged).0 ≡ true
      → (merge_ok lower repr staged).0 ≡ true
  unfolding merge_ok_v11
  base_of_v11 staged h = ground arith

  restrained-eligible :
      (r : Restraint)
      → restrained lower repr snapshot r ≡ merge_eligible
      → (r ≡ is_pass) × ((merge_ok lower repr (stage snapshot)).0 ≡ true)
  unfolding merge_precheck_v11
  restrained-eligible is_pending h = cc
  restrained-eligible is_failed h = cc
  restrained-eligible is_pass h = (refl, base_of_v11 (stage snapshot) (gate_state-eligible _ h))

  abbrev required : String
  required = "l5_intent_restraint_required"

  gate_of_green :
      classify_green lower repr snapshot ≡ merge_eligible
      → (on "independent_review_pass" ≡ true)
        × ((merge_ok lower repr (stage snapshot)).0 ≡ true)
        × (on required ≡ true → (intent_restraint_status lower repr snapshot).0 ≡ is_pass)
  unfolding classify_green
  gate_of_green h = elim (Bool-cases (on required)) [
    | inl e ↦
        let inner : restrained lower repr snapshot (intent_restraint_status lower repr snapshot).0
            ≡ merge_eligible =
          ground arith in
        let (pass, gate) = restrained-eligible _ inner in (ground arith, gate, λ _. pass)
    | inr e ↦
        let inner : gate_state lower repr (merge_ok lower repr (stage snapshot)) ≡ merge_eligible =
          ground arith in
        (ground arith, gate_state-eligible _ inner, λ p. cc)
  ]

  -- MERGE_ELIGIBLE is said only of an item within its budget, with no hold, finding or dependency
  -- before it, up to date, green and reviewed, whose evidence meets the whole merge gate but for
  -- the lock, the fence and other intents, and, where it is required, the intent attestation.
  pub classify_item-eligible :
      (budget : Budget)
      → classify_item lower repr snapshot budget ≡ merge_eligible
      → IsReady budget
        × MergeOk lower repr (stage snapshot)
        × (on required ≡ true → (intent_restraint_status lower repr snapshot).0 ≡ is_pass)
  classify_item-eligible budget h =
      let (in_budget, ungoverned, unheld, independent, unmerged, h1) = open_of_item budget h in
      let (no_findings, up_to_date, h2) = ci_of_open h1 in
      let (green, h3) = green_of_ci h2 in
      let (reviewed, gate, attested) = gate_of_green h3 in
      (
        record {
          in_budget = in_budget;
          ungoverned = ungoverned;
          unheld = unheld;
          independent = independent;
          unmerged = unmerged;
          no_findings = no_findings;
          up_to_date = up_to_date;
          green = green;
          reviewed = reviewed;
        },
        (merge_ok_iff lower repr (stage snapshot)).0 gate,
        attested,
      )
