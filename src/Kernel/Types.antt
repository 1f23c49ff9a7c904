-- ===== src/Kernel/Types.antt =====
-- scripts/l5_kernel.py: the modes, the records of leases and intents, and the work budget. Times are
-- whole ticks of the server's clock.
use native.Mathlib.Decide.{ℕ_discrete}
use mathlib.Core.Bool.{false≢true}
use one_company.Prelude.{
  ℕ, String, Bool, true, false, ◌||◌, List, [], ◌∷◌, Option, leb, any, ◌==◌, eq_iff, Bool-cases,
  inl, inr, sym, ◌∙◌,
}

pub data RepoMode : Type 0 where
  normal merge_locked main_broken main_broken_env automation_degraded provider_throttled : RepoMode
  governance_drift security_integrity_failure controller_integrity halted : RepoMode
  archived_permission_lost : RepoMode

-- mode in HUMAN_CLEAR_ONLY
abbrev pub is_human_clear_only : RepoMode → Bool
is_human_clear_only halted = true
is_human_clear_only controller_integrity = true
is_human_clear_only security_integrity_failure = true
is_human_clear_only governance_drift = true
is_human_clear_only _ = false

pub data ItemState : Type 0 where
  governance_change wait_ci ci_missing ci_red_infra ci_red_deterministic behind_base : ItemState
  ci_green_unreviewed intent_restraint_pending intent_restraint_failed findings_open : ItemState
  disputed_finding block_human wait_dependency merge_eligible merge_queued : ItemState
  merge_outcome_unknown merged_unverified merged_verified main_is_broken revert_pending : ItemState
  superseded parked wait_provider implement idle : ItemState

pub record Observation : Type 0 where
  pub head : String
  pub base : String
  pub wu_body_hash : String
  pub pr_updated_at : String

pub data IntentState : Type 0 where
  pending done aborted verified : IntentState

pub record Intent : Type 0 where
  pub op_id : String
  pub idem_key : String
  pub operation : String
  pub expected_head : String
  pub expected_base : String
  pub epoch : ℕ
  pub state : IntentState

pub data LeaseState : Type 0 where
  active released : LeaseState

pub record Lease : Type 0 where
  pub key : String
  pub holder : String
  pub epoch : ℕ
  pub observed : Observation
  pub acquired_at : ℕ
  pub expires_at : ℕ
  pub version : ℕ
  pub intent : Option Intent
  pub state : LeaseState

unfoldable pub String-discrete : Discrete String
String-discrete s t = elim (Bool-cases (s == t)) [
  | inl e ↦ yes ((eq_iff s t).0 e)
  | inr n ↦ no (λ p. false≢true (sym n ∙ (eq_iff s t).1 p))
]

-- The dataclasses' `==`.
unfoldable pub Observation-discrete : Discrete Observation
Observation-discrete = hlevel String-discrete

unfoldable pub Lease-discrete : Discrete Lease
Lease-discrete = hlevel (ℕ_discrete, String-discrete)

-- operation in DANGEROUS | HARMLESS
abbrev pub allowlist : List String
allowlist =
    "push" ∷ "update_branch" ∷ "merge" ∷ "enqueue" ∷ "revert" ∷ "reserve_next_wu" ∷ "comment"
    ∷ "review_request" ∷ "ci_rerun" ∷ []

unfoldable pub is_allowlisted : String → Bool
unfolding any
is_allowlisted operation = any (λ o. o == operation) allowlist

abbrev pub max_ci_reruns : ℕ
max_ci_reruns = 2

abbrev pub max_fix_iterations : ℕ
max_fix_iterations = 5

abbrev pub max_review_rounds : ℕ
max_review_rounds = 3

abbrev pub max_leases : ℕ
max_leases = 12

pub record Budget : Type 0 where
  pub ci_reruns : ℕ
  pub fix_iterations : ℕ
  pub review_rounds : ℕ
  pub lease_acquisitions : ℕ

unfoldable pub exhausted : Budget → Bool
exhausted b =
    leb max_ci_reruns b.ci_reruns
    || leb max_fix_iterations b.fix_iterations
    || leb max_review_rounds b.review_rounds
    || leb max_leases b.lease_acquisitions
