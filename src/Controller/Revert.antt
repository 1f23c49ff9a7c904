-- ===== src/Controller/Revert.antt =====
-- No operation that `_operation_for` of scripts/l5_controller.py answers is a revert.
use one_company.Prelude.{
  ◌≡◌, refl, sym, ap, ◌∙◌, inl, inr, String, Bool, true, false, some, given, Result, ok, err, ◌==◌,
  if◌then◌else◌, arith, Bool-cases,
}
use one_company.Json.{Fields, get, is_true}
use one_company.Kernel.Types.{
  ItemState, ci_red_infra, ci_red_deterministic, ci_green_unreviewed, findings_open, behind_base,
  merge_eligible, idle,
}
use one_company.Controller.Io.{Failure}
use one_company.Controller.Choice.{intent_operation, operation_for}

-- An answer that is no revert.
pub record Differs (r : Result Failure String) : Type 0 where
  pub differs : (c : String) → r ≡ ok c → (c == "revert") ≡ false

Differs-ok : (c : String) → (c == "revert") ≡ false → Differs (ok c)
Differs-ok c e = record { differs = λ d h. rw (← e) (cc) }

Differs-err : (e : Failure) → Differs (err e)
Differs-err e = record { differs = λ d h. cc }

Differs-if :
    (b : Bool) (x y : Result Failure String) → Differs x → Differs y → Differs (if b then x else y)
Differs-if true x y hx hy = hx
Differs-if false x y hx hy = hy

ruleset differing = (Differs-ok, Differs-err, Differs-if)

pub intent_operation-Differs :
    (operation : String) → (operation == "revert") ≡ false → Differs (intent_operation operation)
intent_operation-Differs operation n = rw n (search differing depth 20)

differs_some : (s t : String) → (s == "revert") ≡ false → some s ≡ some t → (t == "revert") ≡ false
differs_some s t e h = sym (ap (λ o. given o false (λ x. x == "revert")) h) ∙ e

pub operation_for-ne-revert :
    (state : ItemState) (item : Fields) (operation : String)
    → operation_for state item ≡ some operation
    → (operation == "revert") ≡ false
operation_for-ne-revert idle item operation h =
    elim (Bool-cases (is_true (get item "replenish_candidate"))) [
      | inl e ↦ differs_some "reserve_next_wu" operation refl (rw e at h)
      | inr e ↦ absurd (ground (arith, h, e))
    ]
operation_for-ne-revert ci_red_infra item operation h = differs_some "retry_ci" operation refl h
operation_for-ne-revert ci_red_deterministic item operation h =
    differs_some "remediate_review" operation refl h
operation_for-ne-revert ci_green_unreviewed item operation h =
    differs_some "dispatch_review" operation refl h
operation_for-ne-revert findings_open item operation h =
    differs_some "remediate_review" operation refl h
operation_for-ne-revert behind_base item operation h = differs_some "update_branch" operation refl h
operation_for-ne-revert merge_eligible item operation h =
    differs_some "merge_expected_head" operation refl h
operation_for-ne-revert _ item operation h = cc
