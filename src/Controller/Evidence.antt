-- ===== src/Controller/Evidence.antt =====
-- The tests of `run_once` of scripts/l5_controller.py on what it has read, and its constants.
use mathlib.Core.Logic.{ite}
use Prim.Native.String.{◌++◌}
use one_company.Prelude.{ℕ, String, Bool, true, false, ◌&&◌, ◌||◌, ◌==◌, given, if◌then◌else◌}
use one_company.Json.{Json, null, bool, str, Fields, get, put, eq_text, as_dict}
use one_company.Kernel.Types.{
  RepoMode, normal, main_broken, Observation, Observation-discrete, Lease,
}
use one_company.Kernel.Lease.{
  Fence, passed, lease_missing, lease_lost, lease_released, lease_too_close_to_expiry,
  observation_changed, intent_invalid, operation_not_allowlisted, repo_mode,
}
use one_company.Ledger.Validate.{mode_text}

-- The defaults of the kernel's `acquire` and `fence_ok`.
abbrev pub ttl : ℕ
ttl = 300

abbrev pub max_write_latency : ℕ
max_write_latency = 30

abbrev pub skew_margin : ℕ
skew_margin = 30

abbrev pub fence_text : Fence → String
fence_text passed = "OK"
fence_text lease_missing = "LEASE_MISSING"
fence_text lease_lost = "LEASE_LOST"
fence_text lease_released = "LEASE_RELEASED"
fence_text lease_too_close_to_expiry = "LEASE_TOO_CLOSE_TO_EXPIRY"
fence_text observation_changed = "OBSERVATION_CHANGED"
fence_text intent_invalid = "INTENT_INVALID"
fence_text operation_not_allowlisted = "OPERATION_NOT_ALLOWLISTED"
fence_text (repo_mode mode) = "REPO_MODE_" ++ mode_text mode

abbrev pub is_passed : Fence → Bool
is_passed passed = true
is_passed _ = false

-- fence_reason in {"LEASE_LOST", "LEASE_MISSING"}
abbrev pub is_gone : Fence → Bool
is_gone lease_lost = true
is_gone lease_missing = true
is_gone _ = false

abbrev pub same_observation : Observation → Observation → Bool
same_observation a b = ite (Observation-discrete a b) true false

-- mutation.get(key), of a mapping
abbrev pub part_of : Json → String → Json
part_of mutation key = given (as_dict mutation) null (λ d. get d key)

abbrev pub is_complete : Json → Bool
is_complete mutation =
    eq_text (part_of mutation "status") "COMPLETE"
    || eq_text (part_of mutation "status") "REPLAY_NOOP"
      && eq_text (part_of mutation "reason") "ALREADY_COMPLETE"

abbrev pub is_replay_pending : Json → Bool
is_replay_pending mutation =
    eq_text (part_of mutation "status") "REPLAY_NOOP"
    && (eq_text (part_of mutation "reason") "TOKEN_ALREADY_PERSISTED"
        || eq_text (part_of mutation "reason") "EFFECT_NOT_YET_VERIFIED")

-- The expected mode before a main write is locked.
abbrev pub mode_before : Lease → RepoMode
mode_before lease =
    given lease.intent normal (λ i. if i.operation == "revert" then main_broken else normal)

-- The fields that the runtime adds before the last gate of a merge.
abbrev pub owned : Fields → RepoMode → Fields
owned item mode =
    put
      (put (put (put item "merge_lock_owned" (bool true)) "fence_ok" (bool true))
        "unresolved_other_intent" (bool false))
      "repo_mode" (str (mode_text mode))
