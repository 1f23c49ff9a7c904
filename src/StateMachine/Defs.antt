-- ===== src/StateMachine/Defs.antt =====
-- scripts/l5_state_machine.py: the vocabulary of states, actions and errors, and the readers of the evidence.
use one_company.Prelude.{
  ℕ, zero, suc, String, Bool, false, ◌&&◌, ◌||◌, List, [], ◌∷◌, Option, none, some, pos, eqb, ◌==◌,
  if◌then◌else◌, Result, ok, err, ◌>>=◌, any, strip, matches_all, is_lower_hex,
}
use Prim.Native.String.{◌++◌}
use one_company.Json.{Json, bool, int, str, arr, Fields, get, has, eq_text, is_hashable, to_list}

pub data State : Type 0 where
  selected implementing testing reviewing remediating merge_ready merged verifying complete : State

pub data Action : Type 0 where
  start_canonical_stream emergency_stop_hold human_or_policy_blocked : Action
  duplicate_stream_reconciliation_required reconcile_canonical_pr canonical_stream_mismatch : Action
  reconcile_post_merge_stream_state reconcile_exact_refs reconcile_head_base : Action
  verify_merged_result reconcile_verified_merge_evidence replenish_next_ready_wu : Action
  continue_implementation remediate_same_pr_ci run_or_reconcile_exact_head_ci : Action
  reconcile_exact_head_ci_evidence remediate_same_pr_review : Action
  failover_to_eligible_nonauthor_reviewer dispatch_eligible_nonauthor_review : Action
  reconcile_exact_head_review_evidence reconcile_reviewer_identity : Action
  reconcile_material_authorship reconcile_mergeability await_authorized_expected_head_merge : Action

-- `missing k` is L5_STATE_MISSING_K, `unknown k` is L5_STATE_K_UNKNOWN; the last is Python's own.
pub data Error : Type 0 where
  evidence_invalid issue_invalid active_prs_unknown active_prs_invalid active_prs_duplicate : Error
  canonical_pr_invalid behind_base_unknown type_error : Error
  missing unknown : String → Error

abbrev pub text_or_missing : String → Json → Result Error String
text_or_missing key (str s) = if strip s == "" then err (missing key) else ok (strip s)
text_or_missing key _ = err (missing key)

unfoldable pub required_text : Fields → String → Result Error String
required_text evidence key = text_or_missing key (get evidence key)

abbrev pub bool_or_raise : Error → Json → Result Error Bool
bool_or_raise e (bool b) = ok b
bool_or_raise e _ = err e

unfoldable pub required_bool : Fields → String → Result Error Bool
required_bool evidence key = bool_or_raise (unknown key) (get evidence key)

-- `_valid_sha`, with the text that it accepts.
abbrev pub as_sha : Json → Option String
as_sha (str s) = if matches_all is_lower_hex 40 s then some s else none
as_sha _ = none

unfoldable pub bound_exact_refs : Fields → String → String → String → Bool
bound_exact_refs evidence prefix head base =
    eq_text (get evidence (prefix ++ "_head_sha")) head
    && eq_text (get evidence (prefix ++ "_base_sha")) base

-- `type(value) is int and value > 0`, with the number.
abbrev pub as_positive : Json → Option ℕ
as_positive (int (pos zero)) = none
as_positive (int (pos (suc n))) = some (suc n)
as_positive _ = none

abbrev pub cons_positive : Option ℕ → Option (List ℕ) → Option (List ℕ)
cons_positive (some n) (some ns) = some (n ∷ ns)
cons_positive _ _ = none

unfoldable pub as_positives : List Json → Option (List ℕ)
as_positives [] = some []
as_positives (v ∷ vs) = cons_positive (as_positive v) (as_positives vs)

-- len(set(xs)) != len(xs)
unfoldable pub has_duplicates : List ℕ → Bool
has_duplicates [] = false
has_duplicates (x ∷ xs) = any (eqb x) xs || has_duplicates xs

-- `v in {...}` for a set of texts
abbrev pub in_texts : Json → List String → Result Error Bool
in_texts v names = if is_hashable v then ok (any (eq_text v) names) else err type_error

pub record Decision : Type 0 where
  pub repository : String
  pub issue : ℕ
  pub canonical_pr : Json
  pub state : State
  pub next_action : Action
  pub mutation_allowed : Bool

-- What `reduce_evidence` has read before it decides.
pub record Stream : Type 0 where
  pub repository : String
  pub issue : ℕ
  pub emergency_stop : Bool
  pub human_only : Bool
  pub blocked : Bool
  pub merged : Bool
  pub verified : Bool
  pub canonical_pr : Json
  pub active_prs : List ℕ

abbrev pub distinct_or_raise : Option (List ℕ) → Result Error (List ℕ)
distinct_or_raise none = err active_prs_invalid
distinct_or_raise (some ns) = if has_duplicates ns then err active_prs_duplicate else ok ns

abbrev pub prs_of : Json → Result Error (List ℕ)
prs_of (arr vs) = distinct_or_raise (as_positives (to_list vs))
prs_of _ = err active_prs_invalid

-- `evidence["active_prs"]`, checked.
unfoldable pub read_active_prs : Fields → Result Error (List ℕ)
read_active_prs evidence =
    if has evidence "active_prs" then prs_of (get evidence "active_prs") else err active_prs_unknown

-- `issue`, checked.
unfoldable pub read_issue : Fields → Result Error ℕ
read_issue evidence = elim (as_positive (get evidence "issue")) [
  | none ↦ err issue_invalid
  | some n ↦ ok n
]

-- The part of `reduce_evidence` that reads: each field in the source's order.
unfoldable pub read_stream : Fields → Result Error Stream
read_stream evidence = do
  repository ← required_text evidence "repository"
  issue ← read_issue evidence
  emergency_stop ← required_bool evidence "emergency_stop"
  human_only ← required_bool evidence "human_only"
  blocked ← required_bool evidence "blocked"
  is_merged ← required_bool evidence "merged"
  verified ← required_bool evidence "verified"
  active_prs ← read_active_prs evidence
  ok (record {
    repository = repository;
    issue = issue;
    emergency_stop = emergency_stop;
    human_only = human_only;
    blocked = blocked;
    merged = is_merged;
    verified = verified;
    canonical_pr = get evidence "canonical_pr";
    active_prs = active_prs;
  })
