-- ===== src/Controller/PostMerge.antt =====
-- `_find_merged_unverified` and `_post_merge_verify` of scripts/l5_controller.py: a merge that was
-- made keeps the repository MERGE_LOCKED until main's health is known.
use one_company.Prelude.{
  String, Bool, true, false, not, ◌&&◌, ◌||◌, List, [], ◌∷◌, Option, none, some, ◌==◌, given,
  if◌then◌else◌,
}
use one_company.Json.{Fields}
use one_company.Kernel.Types.{
  RepoMode, normal, merge_locked, main_broken, main_broken_env, ItemState, merged_unverified,
  Intent, IntentState, done, verified, Lease,
}
use one_company.Kernel.Lease.{repo_merge_lock_key, is_done, verify_intent, release}
use one_company.Kernel.Merge.{classify_item}
use one_company.Controller.Io.{
  RunPhase, post_merge_verify, exit, RunResult, ControllerStore, ControllerIo, Imports, M, pure,
  lift, ◌>>=◌, call, reading, on_store,
}
use one_company.Controller.Choice.{is_mode, item_id, trusted_now}
use one_company.Controller.Recovery.{is_lost}

abbrev pub answer : String → RunPhase → String → (action item reason : Option String) → RunResult
answer rid phase status action item reason = record {
  run_id = rid;
  phase = phase;
  status = status;
  action = action;
  item_id = item;
  reason = reason;
  mutation_result = none;
}

-- operation in {"merge", "revert"}
abbrev pub is_main_write : Intent → Bool
is_main_write i = (i.operation == "merge") || (i.operation == "revert")

abbrev pub is_merged_unverified : ItemState → Bool
is_merged_unverified merged_unverified = true
is_merged_unverified _ = false

-- The item of the list, if there is just one.
abbrev pub only_one : List Fields → Option Fields
only_one [] = none
only_one (item ∷ []) = some item
only_one (item ∷ other ∷ items) = none

-- The intent of a lock that holds a finished write of main.
abbrev pub is_settled : IntentState → Bool
is_settled done = true
is_settled verified = true
is_settled _ = false

abbrev pub evidence_of : Option Lease → Option (Lease × Intent)
evidence_of none = none
evidence_of (some lock) =
    given lock.intent none
      λ i. if is_settled i.state && is_main_write i then some (lock, i) else none

-- The mode that a terminal health leads to.
abbrev pub target_mode : String → Option RepoMode
target_mode health =
    if health == "HEALTHY"
    then some normal
    else if health == "BROKEN"
    then some main_broken
    else if health == "ENV_BROKEN"
    then some main_broken_env
    else none

module _ (repo_id rid : String) where
  abbrev pub waiting : String → (item reason : Option String) → RunResult
  waiting status item reason = answer rid post_merge_verify status none item reason

  abbrev pub verified_as : String → String → RunResult
  verified_as health id =
      if health == "HEALTHY"
      then answer rid exit "COMPLETE" (some "verify_post_merge") (some id)
          (some "POST_MERGE_VERIFIED")
      else if health == "BROKEN"
      then answer rid exit "WAIT" (some "verify_post_merge") (some id) (some "MAIN_BROKEN")
      else answer rid exit "WAIT" (some "verify_post_merge") (some id) (some "MAIN_BROKEN_ENV")

  module _ {S W : Type 0} (store : ControllerStore S) (io : ControllerIo S W) (py : Imports) where
    -- The digest that the intent has if the item is the one that it was made for.
    abbrev pub bound_key : String → Intent → String
    bound_key id i = py.idem_key repo_id id i.expected_head i.expected_base i.operation

    unfoldable pub bound_items : Intent → List Fields → M S W (List Fields)
    bound_items i [] = pure []
    bound_items i (item ∷ items) =
        let rest = bound_items i items in
        do
          budget ← call (io.budget_for item)
          if not (is_merged_unverified (classify_item py.lower py.repr item budget))
              then rest
              else (do
                id ← lift (item_id py item)
                found ← rest
                pure (if bound_key id i == i.idem_key then item ∷ found else found))

    abbrev pub find_merged_unverified : Intent → List Fields → M S W (Option Fields)
    find_merged_unverified i items = do found ← bound_items i items; pure (only_one found)

    -- The intent, verified if it was done only.
    abbrev pub verify_lock : Lease → Intent → M S W (Option Lease)
    verify_lock lock i =
        if is_done (some i)
        then on_store (λ s. verify_intent store.leases s lock)
        else pure (some lock)

    -- The write of the mode.
    abbrev pub unlock : String → RepoMode → String → M S W RunResult
    unlock health target id = do
      (mode, version) ← reading (λ s. store.leases.read_repo_mode s repo_id)
      if not (is_mode mode merge_locked)
          then pure (waiting "BLOCKED" (some id) (some "MERGE_LOCK_MODE_LOST"))
          else (do
            written ← on_store (λ s. store.cas_repo_mode s repo_id version target true)
            pure (
                if written
                then verified_as health id
                else waiting "WAIT" (some id) (some "POST_MERGE_MODE_CAS_FAILED")))

    abbrev pub release_lock : String → RepoMode → String → Lease → M S W RunResult
    release_lock health target id lock = do
      now ← trusted_now io
      released ← on_store (λ s. release store.leases s lock now)
      if is_lost released
          then pure (waiting "WAIT" (some id) (some "MERGE_LOCK_RELEASE_CAS_FAILED"))
          else unlock health target id

    -- A health that is terminal.
    abbrev pub terminal : String → RepoMode → String → Lease → Intent → M S W RunResult
    terminal health target id lock i = do
      kept ← verify_lock lock i
      given kept (pure (waiting "WAIT" (some id) (some "POST_MERGE_VERIFY_CAS_FAILED")))
          (release_lock health target id)

    abbrev pub judge_health : String → String → Lease → Intent → M S W RunResult
    judge_health health id lock i =
        if health == "UNKNOWN"
        then pure (waiting "WAIT" (some id) (some "POST_MERGE_HEALTH_UNKNOWN"))
        else given (target_mode health)
            (pure (waiting "BLOCKED" (some id) (some "POST_MERGE_HEALTH_INVALID")))
            (λ target. terminal health target id lock i)

    abbrev pub verify_item : Lease → Intent → Fields → M S W RunResult
    verify_item lock i item = do
      id ← lift (item_id py item)
      if not (i.idem_key == bound_key id i)
          then pure (waiting "WAIT" (some id) (some "MERGE_LOCK_EVIDENCE_INVALID"))
          else (do
            refreshed ← call (io.refresh_item item)
            now_id ← lift (item_id py refreshed)
            if not (now_id == id)
                then pure (waiting "BLOCKED" (some id) (some "ITEM_ID_CHANGED"))
                else (do
                  health ← call (io.post_merge_health refreshed)
                  judge_health health id lock i))

    unfoldable pub post_merge : List Fields → M S W RunResult
    post_merge items = do
      lock ← reading (λ s. store.leases.read s (repo_merge_lock_key repo_id))
      given (evidence_of lock) (pure (waiting "WAIT" none (some "MERGE_LOCK_EVIDENCE_INVALID")))
          λ (held, i). do
            item ← find_merged_unverified i items
            given item (pure (waiting "WAIT" none (some "MERGE_LOCK_RECONCILIATION_REQUIRED")))
                (verify_item held i)
