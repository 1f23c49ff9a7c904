-- ===== src/Kernel/Merge/Samples.antt =====
-- Evidence that is in order for the gates of scripts/l5_kernel.py.
use one_company.Prelude.{String, true, false, List, [], ◌∷◌, pos}
use one_company.Json.{Json, bool, int, str, arr, obj, nil, cons, Fields, field, end}
use one_company.Kernel.Types.{Budget}
use one_company.Kernel.Governance.{governance_fields}
use one_company.Kernel.Restraint.{required_true}
use one_company.Kernel.Merge.{true_fields, false_fields}

abbrev pub head : String
head = "aaaaaaaaaaaaaaaaaaaaaaaaaaaaaaaaaaaaaaaa"

abbrev pub base : String
base = "bbbbbbbbbbbbbbbbbbbbbbbbbbbbbbbbbbbbbbbb"

-- The names here are in lower case already.
abbrev pub lower : String → String
lower s = s

abbrev pub repr : Json → String
repr v = "?"

-- The keys, each with the same value, before other fields.
unfoldable pub with_all : List String → Json → Fields → Fields
with_all [] v rest = rest
with_all (k ∷ ks) v rest = field k v (with_all ks v rest)

abbrev pub keys_of : List (String × String) → List String
keys_of [] = []
keys_of ((k, r) ∷ ks) = k ∷ keys_of ks

abbrev pub source : Fields → Json
source rest = obj (field "app_id" (int (pos 7)) (field "workflow_path" (str "ci.yml") rest))

abbrev pub sources : Json
sources = arr (cons (source end) nil)

abbrev pub checks : Json
checks = arr (
    cons
      (source (
        field "head_sha" (str head) (
          field "tested_base_sha" (str base) (
            field "latest_attempt" (bool true) (
              field "conclusion" (str "success") (
                field "assertion_failure_any_attempt" (bool false) (
                  field "attempt_history_complete" (bool true)
                    (field "source_verified" (bool true) end))))))))
      nil)

abbrev pub people : Fields → Fields
people rest = field "author" (str "mistral-vibe") (
    field "material_authors" (arr (cons (str "chatgpt") nil))
      (field "controller_identities" (arr (cons (str "l5-controller") nil)) rest))

abbrev pub review : Fields
review = field "state" (str "APPROVED") (
    field "commit_id" (str head) (
      field "base_sha" (str base) (
        field "skipped" (bool false) (
          field "material_authors_head_sha" (str head) (
            with_all
              ("complete" ∷ "covers_full_diff" ∷ "designated_independent" ∷ "reviewer_eligible"
                ∷ "authorship_complete" ∷ "identity_source_verified" ∷ [])
              (bool true) (people end))))))

abbrev pub attestation : Fields
attestation = field "state" (str "PASS") (
    field "head_sha" (str head) (
      field "base_sha" (str base) (
        field "wu_body_hash" (str "w") (
          field "material_authors_head_sha" (str head) (
            field "failure_reasons" (arr nil)
              (people (with_all (keys_of required_true) (bool true) end)))))))

abbrev pub snapshot : Fields
snapshot = field "head_sha" (str head) (
    field "base_sha" (str base) (
      field "expected_head_sha" (str head) (
        field "expected_base_sha" (str base) (
          field "repo_mode" (str "NORMAL") (
            field "wu_body_hash" (str "w") (
              field "ci" (str "GREEN") (
                field "independent_review_pass" (bool true) (
                  field "l5_intent_restraint_required" (bool true) (
                    field "intent_restraint" (obj attestation) (
                      field "required_checks" checks (
                        field "required_check_sources" sources (
                          field "security_checks" checks (
                            field "security_check_sources" sources (
                              field "review" (obj review) (
                                with_all true_fields (bool true)
                                  (with_all false_fields (bool false) end))))))))))))))))

abbrev pub budget : Budget
budget = record { ci_reruns = 0; fix_iterations = 1; review_rounds = 0; lease_acquisitions = 3 }

abbrev pub governed : Fields
governed = with_all ("ledger_reachable" ∷ governance_fields) (bool true) end
