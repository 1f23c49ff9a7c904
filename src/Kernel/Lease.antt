-- ===== src/Kernel/Lease.antt =====
-- The lease operations of scripts/l5_kernel.py, over any store. Each returns the store that it
-- leaves and the new lease, if there is one.
pub mod Steps
pub mod Fencing
pub mod Acquire
pub mod FencePassed
pub mod Attached
mod Tests
use mathlib.Core.Logic.{ite}
use one_company.Prelude.{
  ℕ, ◌+◌, ◌≡◌, String, Bool, true, false, not, ◌&&◌, ◌||◌, List, [], ◌∷◌, Option, none, some, eqb,
  ltb, leb, ◌==◌, given, if◌then◌else◌, Result, ok, err,
}
use Prim.Native.String.{◌++◌}
use one_company.Kernel.Types.{
  RepoMode, normal, main_broken, is_human_clear_only, Observation, Observation-discrete, Intent,
  IntentState, pending, done, aborted, verified, Lease, LeaseState, active, released,
  Lease-discrete, is_allowlisted,
}
use one_company.Kernel.Store.{CasStore, version_of}

-- The ValueErrors.
pub data Error : Type 0 where
  lease_ttl_invalid intent_resolution_invalid detection_result_invalid : Error

abbrev pub is_pending : Option Intent → Bool
is_pending none = false
is_pending (some i) = elim i.state [ pending ↦ true | _ ↦ false ]

abbrev pub is_done : Option Intent → Bool
is_done none = false
is_done (some i) = elim i.state [ done ↦ true | _ ↦ false ]

abbrev pub is_active : LeaseState → Bool
is_active active = true
is_active released = false

-- The key of a lease, and of the two that the kernel names itself; `decimal` is `str` on integers.
abbrev pub lease_key : String → String → String → String → String
lease_key repo_id item_kind item_id op_class =
    repo_id ++ (":" ++ (item_kind ++ (":" ++ (item_id ++ (":" ++ op_class)))))

abbrev pub repo_merge_lock_key : String → String
repo_merge_lock_key repo_id = lease_key repo_id "repo" repo_id "REPO_MERGE_LOCK"

-- The lease after an acquisition over `cur`.
abbrev pub next_lease : Option Lease → String → String → Observation → ℕ → ℕ → Lease
next_lease cur key holder observed now ttl = record {
  key = key;
  holder = holder;
  epoch = given cur 1 (λ c. c.epoch + 1);
  observed = observed;
  acquired_at = now;
  expires_at = now + ttl;
  version = given cur 1 (λ c. c.version + 1);
  intent = none;
  state = active;
}

-- The lease that is held unexpired, or that an unresolved intent keeps.
abbrev pub is_held : Option Lease → ℕ → Bool
is_held none now = false
is_held (some c) now = ltb now c.expires_at || is_pending c.intent

-- The source's further comparisons of `cur` with `lease`.
abbrev pub same_holder : Lease → Lease → Bool
same_holder cur lease = (cur.holder == lease.holder) && eqb cur.epoch lease.epoch

-- `replace(cur, intent=replace(cur.intent, state=state), version=cur.version + 1)`
abbrev pub with_intent_state : Lease → IntentState → Lease
with_intent_state cur state = record cur {
  intent = given cur.intent none (λ i. some (record i { state = state }));
  version = cur.version + 1;
}

module _ {S : Type 0} (store : CasStore S) where
  open store use {read, cas, read_repo_mode}

  -- `return nxt if store.cas(key, expected, nxt) else None`
  unfoldable pub swap : S → String → Option ℕ → Lease → S × Option Lease
  swap s key expected nxt =
      let (s', won) = cas s key expected nxt in (s', if won then some nxt else none)

  unfoldable pub acquire :
      S → String → String → Observation → ℕ → ℕ → Result Error (S × Option Lease)
  acquire s key holder observed now ttl =
      if leb ttl 0
      then err lease_ttl_invalid
      else ok (
          let cur = read s key in
          if is_held cur now
          then (s, none)
          else swap s key (version_of cur) (next_lease cur key holder observed now ttl))

  -- The rest of an operation on the exact current lease; anything else is refused.
  abbrev pub if_current : S → Lease → (Lease → S × Option Lease) → S × Option Lease
  if_current s lease rest =
      given (read s lease.key) (s, none) λ cur. ite (Lease-discrete cur lease) (rest cur) (s, none)

  pub renew : S → Lease → ℕ → ℕ → S × Option Lease
  renew s lease now ttl =
      if leb ttl 0 || leb lease.expires_at now || not (is_active lease.state)
      then (s, none)
      else if leb (now + ttl) lease.expires_at
      then (s, none)
      else if_current s lease λ cur.
        if not (same_holder cur lease) || not (is_active cur.state)
        then (s, none)
        else swap s lease.key (some lease.version)
            (record lease { expires_at = now + ttl; version = lease.version + 1 })

  -- `op_id` is the fresh identifier, and `idem_key` the digest of the operation and its refs.
  unfoldable pub attach_intent :
      (idem_key : String → String → String → String → String → String)
      → S
      → Lease
      → (repo_id item operation op_id : String) → ℕ
      → S × Option Lease
  attach_intent idem_key s lease repo_id item operation op_id now =
      if not (is_allowlisted operation) || leb lease.expires_at now || not (is_active lease.state)
      then (s, none)
      else if_current s lease λ cur.
        if not (same_holder cur lease)
        then (s, none)
        else if is_pending cur.intent
        then (s, none)
        else swap s cur.key (some cur.version) (record cur {
          intent = some (record {
            op_id = op_id;
            idem_key = idem_key repo_id item lease.observed.head lease.observed.base operation;
            operation = operation;
            expected_head = lease.observed.head;
            expected_base = lease.observed.base;
            epoch = lease.epoch;
            state = pending;
          });
          version = cur.version + 1;
        })

  -- The write of `resolve_intent`, for a state that it accepts.
  abbrev pub resolve_as : S → Lease → IntentState → S × Option Lease
  resolve_as s lease state = if_current s lease λ cur.
      if not (is_pending cur.intent)
      then (s, none)
      else swap s cur.key (some cur.version) (with_intent_state cur state)

  unfoldable pub resolve_intent : S → Lease → String → Result Error (S × Option Lease)
  resolve_intent s lease state =
      if state == "DONE"
      then ok (resolve_as s lease done)
      else if state == "ABORTED"
      then ok (resolve_as s lease aborted)
      else err intent_resolution_invalid

  unfoldable pub verify_intent : S → Lease → S × Option Lease
  verify_intent s lease = if_current s lease λ cur.
      if not (is_done cur.intent)
      then (s, none)
      else swap s cur.key (some cur.version) (with_intent_state cur verified)

  unfoldable pub release : S → Lease → ℕ → S × Option Lease
  release s lease now = if_current s lease λ cur.
      if not (is_active cur.state)
      then (s, none)
      else if is_pending cur.intent
      then (s, none)
      else swap s cur.key (some cur.version)
          (record cur { expires_at = now; version = cur.version + 1; state = released })

-- What to do with an orphaned intent, by the readback's evidence.
pub data Recovery : Type 0 where
  no_pending_intent resolve_done resolve_aborted readback_required : Recovery

unfoldable pub intent_recovery : Lease → String → Result Error Recovery
intent_recovery lease detection_result =
    if not (is_pending lease.intent)
    then ok no_pending_intent
    else if detection_result == "APPLIED"
    then ok resolve_done
    else if detection_result == "NOT_APPLIED"
    then ok resolve_aborted
    else if detection_result == "UNKNOWN"
    then ok readback_required
    else err detection_result_invalid

-- The reasons of `fence_ok`; `passed` is (True, "OK").
pub data Fence : Type 0 where
  passed lease_missing lease_lost lease_released lease_too_close_to_expiry : Fence
  observation_changed intent_invalid operation_not_allowlisted : Fence
  repo_mode : RepoMode → Fence

abbrev pub mode_fence : RepoMode → String → Fence
mode_fence mode operation = if is_human_clear_only mode then repo_mode mode else elim mode [
  | main_broken ↦ if operation == "revert" then passed else repo_mode main_broken
  | normal ↦ passed
  | other ↦ repo_mode other
]

module _ {S : Type 0} (store : CasStore S) where
  open store use {read, read_repo_mode}

  -- The intent is pending, of this epoch and of a known operation; then the repository's mode.
  abbrev pub intent_fence : S → String → Lease → Option Intent → Fence
  intent_fence s repo_id cur none = intent_invalid
  intent_fence s repo_id cur (some i) =
      if not (is_pending (some i)) || not (eqb i.epoch cur.epoch)
      then intent_invalid
      else if not (is_allowlisted i.operation)
      then operation_not_allowlisted
      else mode_fence (read_repo_mode s repo_id).0 i.operation

  -- The checks on the exact current lease, up to `deadline`.
  abbrev pub current_fence : S → String → Observation → ℕ → Lease → Fence
  current_fence s repo_id observed_now deadline cur =
      if not (is_active cur.state)
      then lease_released
      else if leb cur.expires_at deadline
      then lease_too_close_to_expiry
      else ite (Observation-discrete cur.observed observed_now)
          (intent_fence s repo_id cur cur.intent) observation_changed

  unfoldable pub fence_ok :
      S → String → Lease → Observation → (now max_write_latency skew_margin : ℕ) → Fence
  fence_ok s repo_id lease observed_now now max_write_latency skew_margin =
      given (read s lease.key) lease_missing λ cur.
        ite (Lease-discrete cur lease)
          (current_fence s repo_id observed_now (now + max_write_latency + skew_margin) cur)
          lease_lost
