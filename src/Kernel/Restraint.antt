-- ===== src/Kernel/Restraint.antt =====
-- `intent_restraint_status` of scripts/l5_kernel.py: the engineering-intent attestation.
pub mod Pass
use one_company.Prelude.{
  ℕ, suc, zero, ◌≡◌, ◌↔◌, ◌⊎◌, inl, inr, refl, String, Bool, true, false, not, ◌&&◌, ◌||◌, List, [],
  ◌∷◌, ◌++◌, map, Option, none, some, all, any, is_empty, if◌then◌else◌, given, arith, In, all-In,
  all_of_In, Bool-cases, ◌==◌, strip,
}
use one_company.Json.{
  Json, null, bool, str, arr, obj, Fields, get, eq_text, is_true, to_list, py_eq,
}
use one_company.Kernel.Checks.{as_sha, text_of, is_excluded}

-- The state of the gate.
pub data Restraint : Type 0 where
  is_pending is_failed is_pass : Restraint

abbrev pub reason_codes : List String
reason_codes =
    "INTENT_DRIFT" ∷ "OVERENGINEERED" ∷ "DUPLICATED_MECHANISM" ∷ "PERFORMANCE_REGRESSION"
    ∷ "SEMANTIC_CHANGE" ∷ "DIFF_DISPROPORTIONATE" ∷ "CONVENTION_DRIFT" ∷ "ARCHITECTURE_DRIFT"
    ∷ "UNRESOLVED_DELETION_CANDIDATES" ∷ "SELF_REVIEW" ∷ "ATTESTATION_INCOMPLETE" ∷ []

-- `required_true`, in its order.
abbrev pub required_true : List (String × String)
required_true =
    ("complete", "ATTESTATION_INCOMPLETE")
    ∷ ("designated_independent", "SELF_REVIEW")
    ∷ ("reviewer_eligible", "SELF_REVIEW")
    ∷ ("identity_source_verified", "ATTESTATION_INCOMPLETE")
    ∷ ("wu_contract_frozen", "INTENT_DRIFT")
    ∷ ("intent_preserved", "INTENT_DRIFT")
    ∷ ("scope_discipline_verified", "INTENT_DRIFT")
    ∷ ("minimal_change_verified", "OVERENGINEERED")
    ∷ ("no_overengineering", "OVERENGINEERED")
    ∷ ("existing_mechanism_reused_or_justified", "DUPLICATED_MECHANISM")
    ∷ ("conventions_preserved", "CONVENTION_DRIFT")
    ∷ ("architecture_consistent", "ARCHITECTURE_DRIFT")
    ∷ ("performance_preserved", "PERFORMANCE_REGRESSION")
    ∷ ("api_semantics_preserved", "SEMANTIC_CHANGE")
    ∷ ("diff_proportionate", "DIFF_DISPROPORTIONATE")
    ∷ ("adversarial_deletion_review_complete", "ATTESTATION_INCOMPLETE")
    ∷ ("deletion_candidates_resolved", "UNRESOLVED_DELETION_CANDIDATES")
    ∷ []

-- if not test: failures.append(reason)
abbrev pub unless : Bool → String → List String
unless true reason = []
unless false reason = reason ∷ []

-- The loop over `required_true`.
unfoldable pub missing_required : Fields → List (String × String) → List String
missing_required evidence [] = []
missing_required evidence ((key, reason) ∷ rest) =
    unless (is_true (get evidence key)) reason ++ missing_required evidence rest

-- tuple(dict.fromkeys(failures)): the first of each.
unfoldable pub without : String → List String → List String
without s [] = []
without s (t ∷ ts) = let rest = without s ts in if t == s then rest else t ∷ rest

unfoldable pub dedupe : List String → List String
dedupe [] = []
dedupe (s ∷ ss) = s ∷ without s (dedupe ss)

abbrev is_text : Json → Json → Bool
is_text (str s) v = not (s == "") && eq_text v s
is_text _ v = false

abbrev pub is_nil : Json → Bool
is_nil (arr vs) = is_empty (to_list vs)
is_nil _ = false

module _ (lower : String → String) (repr : Json → String) where
  abbrev texts_of : List Json → List String
  texts_of vs = map (text_of lower repr) vs

  -- A reported failure: its reasons, if they are known ones.
  abbrev pub failed_with : Json → List String
  failed_with (arr vs) =
      if is_empty (to_list vs)
        || any (λ r. not (any (λ c. c == r) reason_codes)) (texts_of (to_list vs))
      then "ATTESTATION_INCOMPLETE" ∷ []
      else texts_of (to_list vs)
  failed_with _ = "ATTESTATION_INCOMPLETE" ∷ []

  -- The reviewer: named, with lists of the people that it must not be, and none of them.
  abbrev pub reviewer_failures : Json → Json → Json → List String
  reviewer_failures (str reviewer) (arr authors) (arr controllers) =
      if strip reviewer == ""
      then "ATTESTATION_INCOMPLETE" ∷ []
      else unless (not (is_excluded lower repr reviewer (to_list authors) (to_list controllers)))
          "SELF_REVIEW"
  reviewer_failures _ _ _ = "ATTESTATION_INCOMPLETE" ∷ []

  -- The failures of an attestation that says PASS.
  unfoldable pub pass_failures : Fields → Fields → List String
  pass_failures snapshot evidence =
      let head = get snapshot "head_sha" in
      let base = get snapshot "base_sha" in
      unless (given (as_sha head) false (eq_text (get evidence "head_sha"))) "INTENT_DRIFT"
      ++ (unless (given (as_sha base) false (eq_text (get evidence "base_sha"))) "INTENT_DRIFT"
          ++ (unless (is_text (get snapshot "wu_body_hash") (get evidence "wu_body_hash"))
                "INTENT_DRIFT"
              ++ (unless (py_eq (get evidence "material_authors_head_sha") head) "INTENT_DRIFT"
                  ++ (missing_required evidence required_true
                      ++ (unless (is_nil (get evidence "failure_reasons")) "ATTESTATION_INCOMPLETE"
                          ++ reviewer_failures (get evidence "author")
                              (get evidence "material_authors")
                              (get evidence "controller_identities"))))))

  abbrev pub verdict : List String → Restraint × List String
  verdict [] = (is_pass, [])
  verdict (s ∷ ss) = (is_failed, s ∷ ss)

  abbrev pub attested : Fields → Json → Restraint × List String
  attested snapshot null = (is_pending, "INTENT_RESTRAINT_MISSING" ∷ [])
  attested snapshot (obj evidence) =
      if eq_text (get evidence "state") "PENDING"
      then (is_pending, "INTENT_RESTRAINT_PENDING" ∷ [])
      else if not (eq_text (get evidence "state") "PASS")
      then (is_failed, failed_with (get evidence "failure_reasons"))
      else verdict (dedupe (pass_failures snapshot evidence))
  attested snapshot _ = (is_failed, "ATTESTATION_INCOMPLETE" ∷ [])

  unfoldable pub intent_restraint_status : Fields → Restraint × List String
  intent_restraint_status snapshot = attested snapshot (get snapshot "intent_restraint")

  abbrev is_passed : Restraint → Bool
  is_passed is_pass = true
  is_passed _ = false

  unfoldable pub intent_restraint_ok : Fields → Bool × List String
  intent_restraint_ok snapshot =
      let (state, reasons) = intent_restraint_status snapshot in (is_passed state, reasons)
