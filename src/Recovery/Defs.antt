-- ===== src/Recovery/Defs.antt =====
-- scripts/l5_recovery.py: the retry scopes, the errors, and the readers of a snapshot.
use one_company.Prelude.{
  ℕ, String, Bool, true, false, ◌&&◌, Option, none, some, pos, ltb, ◌==◌, if◌then◌else◌, Result,
  given, ok, err, ◌>>=◌, ◌>>◌, raise_if, strip,
}
use one_company.Json.{Json, null, bool, int, str, Fields, field, end, get}
use one_company.StateMachine
use one_company.StateMachine.{
  Action, start_canonical_stream, reconcile_canonical_pr, reconcile_post_merge_stream_state,
  reconcile_exact_refs, reconcile_head_base, verify_merged_result,
  reconcile_verified_merge_evidence, continue_implementation, remediate_same_pr_ci,
  run_or_reconcile_exact_head_ci, reconcile_exact_head_ci_evidence, remediate_same_pr_review,
  failover_to_eligible_nonauthor_reviewer, dispatch_eligible_nonauthor_review,
  reconcile_exact_head_review_evidence, reconcile_reviewer_identity, reconcile_material_authorship,
  reconcile_mergeability,
}

abbrev pub max_retries : ℕ
max_retries = 3

-- The values of RETRY_SCOPES.
pub data Scope : Type 0 where
  stream ci review merge_ready verify : Scope

-- RETRY_SCOPES.get(action)
abbrev pub scope_of : Action → Option Scope
scope_of start_canonical_stream = some stream
scope_of reconcile_canonical_pr = some stream
scope_of continue_implementation = some stream
scope_of reconcile_head_base = some stream
scope_of reconcile_exact_refs = some stream
scope_of run_or_reconcile_exact_head_ci = some ci
scope_of reconcile_exact_head_ci_evidence = some ci
scope_of remediate_same_pr_ci = some ci
scope_of dispatch_eligible_nonauthor_review = some review
scope_of failover_to_eligible_nonauthor_reviewer = some review
scope_of reconcile_exact_head_review_evidence = some review
scope_of reconcile_reviewer_identity = some review
scope_of reconcile_material_authorship = some review
scope_of remediate_same_pr_review = some review
scope_of reconcile_mergeability = some merge_ready
scope_of verify_merged_result = some verify
scope_of reconcile_verified_merge_evidence = some verify
scope_of reconcile_post_merge_stream_state = some verify
scope_of _ = none

-- action in RECOVERY_ACTIONS
abbrev pub is_recovery : Action → Bool
is_recovery start_canonical_stream = true
is_recovery reconcile_canonical_pr = true
is_recovery continue_implementation = true
is_recovery run_or_reconcile_exact_head_ci = true
is_recovery reconcile_exact_head_ci_evidence = true
is_recovery remediate_same_pr_ci = true
is_recovery dispatch_eligible_nonauthor_review = true
is_recovery failover_to_eligible_nonauthor_reviewer = true
is_recovery reconcile_exact_head_review_evidence = true
is_recovery reconcile_reviewer_identity = true
is_recovery reconcile_material_authorship = true
is_recovery remediate_same_pr_review = true
is_recovery reconcile_mergeability = true
is_recovery verify_merged_result = true
is_recovery reconcile_verified_merge_evidence = true
is_recovery reconcile_post_merge_stream_state = true
is_recovery reconcile_head_base = true
is_recovery reconcile_exact_refs = true
is_recovery _ = false

-- `unknown k` is L5_RECOVERY_K_UNKNOWN; `of_state` passes on what `reduce_evidence` raised.
pub data Error : Type 0 where
  snapshot_invalid event_id_invalid retry_count_invalid retry_action_invalid : Error
  retry_action_required retry_action_unknown ready_candidates_invalid : Error
  ready_candidate_invalid ready_candidate_id_invalid : Error
  unknown : String → Error
  unhandled_action : Action → Error
  of_state : StateMachine.Error → Error

abbrev pub text_or_raise : Error → Json → Result Error String
text_or_raise e (str s) = if strip s == "" then err e else ok (strip s)
text_or_raise e _ = err e

abbrev pub bool_or_raise : Error → Json → Result Error Bool
bool_or_raise e (bool b) = ok b
bool_or_raise e _ = err e

unfoldable pub required_bool : Fields → String → Result Error Bool
required_bool row key = bool_or_raise (unknown key) (get row key)

-- normalized not in KNOWN_RETRY_SCOPES: the scope of a known text.
abbrev pub known_scope : String → Option Scope
known_scope s =
    if s == "STREAM"
    then some stream
    else if s == "CI"
    then some ci
    else if s == "REVIEW"
    then some review
    else if s == "MERGE_READY"
    then some merge_ready
    else if s == "VERIFY"
    then some verify
    else none

abbrev pub same_scope : Option Scope → Scope → Bool
same_scope (some stream) stream = true
same_scope (some ci) ci = true
same_scope (some review) review = true
same_scope (some merge_ready) merge_ready = true
same_scope (some verify) verify = true
same_scope _ _ = false

-- `retry_count`: an integer that is not negative.
abbrev pub count_or_raise : Json → Result Error ℕ
count_or_raise (int (pos n)) = ok n
count_or_raise _ = err retry_count_invalid

-- `retry_action`: None, or a text that is not blank; stripped.
abbrev pub action_or_raise : Json → Result Error (Option String)
action_or_raise null = ok none
action_or_raise (str s) = if strip s == "" then err retry_action_invalid else ok (some (strip s))
action_or_raise _ = err retry_action_invalid

abbrev pub scope_or_raise : Option String → Result Error (Option Scope)
scope_or_raise none = ok none
scope_or_raise (some s) = given (known_scope s) (err retry_action_unknown) λ scope. ok (some scope)

-- The count that applies to `action`, and the persisted scope.
unfoldable pub retry_state : Fields → Action → Result Error (ℕ × Option Scope)
retry_state snapshot action = do
  count ← count_or_raise (get snapshot "retry_count")
  persisted ← action_or_raise (get snapshot "retry_action")
  raise_if (ltb 0 count && given persisted true (λ _. false)) retry_action_required
  normalized ← scope_or_raise persisted
  ok (
      given (scope_of action) (count, normalized)
        λ current. (if same_scope normalized current then count else 0, normalized))

-- `digest` is SHA-256 over the canonical JSON text of a mapping.
module _ (digest : Fields → String) where
  unfoldable pub event_key : Fields → Result Error String
  event_key snapshot = do
    event_id ← text_or_raise event_id_invalid (get snapshot "event_id")
    ok (
        digest (
          field "repository" (get snapshot "repository") (
            field "issue" (get snapshot "issue") (
              field "canonical_pr" (get snapshot "canonical_pr") (
                field "head_sha" (get snapshot "head_sha") (
                  field "base_sha" (get snapshot "base_sha")
                    (field "event_id" (str event_id) end)))))))
