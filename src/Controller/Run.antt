-- ===== src/Controller/Run.antt =====
-- `run_once` of scripts/l5_controller.py, stage by stage.
use Prim.Native.String.{◌++◌}
use one_company.Prelude.{
  String, Bool, true, false, not, ◌&&◌, ◌||◌, List, Option, none, some, ◌==◌, given, if◌then◌else◌,
  Result, ok, err,
}
use one_company.Json.{Json, Fields, get, is_true, eq_text}
use one_company.Liveness.{is_truthy}
use one_company.Kernel.Types.{
  RepoMode, normal, merge_locked, main_broken, is_human_clear_only, Observation, Lease,
}
use one_company.Kernel.Lease.{acquire, attach_intent, resolve_intent, release, Fence, fence_ok}
use one_company.Kernel.Governance.{governance_mode}
use one_company.Kernel.Merge.{merge_ok_v11, merge_precheck_v11}
use one_company.Ledger.Validate.{mode_text}
use one_company.Controller.Io.{
  RunPhase, halt_check, repository_mode, intent_recovery, select, acquire_cas_lease, reconcile_item,
  write_intent, fence_check, action_phase, exit, RunResult, operation_missing, ControllerStore,
  ControllerIo, Imports, M, pure, raise, lift, ◌>>=◌, ◌>>◌, call, reading, on_store, on_kernel,
  perform,
}
use one_company.Controller.Choice.{
  Candidate, is_mode, operation_for, changes_main, intent_operation, restraint_required, item_id,
  lease_key_for, trusted_now,
}
use one_company.Controller.Choice
use one_company.Controller.Recovery.{Verdict, is_lost, sync_mode, recover_pending}
use one_company.Controller.PostMerge.{answer, post_merge}
use one_company.Controller.Evidence.{
  ttl, max_write_latency, skew_margin, fence_text, is_passed, is_gone, same_observation, part_of,
  is_complete, is_replay_pending, mode_before, owned,
}

-- `rid` is the run's id, and `op_id` the fresh id of an intent.
module _ {S W : Type 0} (store : ControllerStore S) (io : ControllerIo S W) (py : Imports)
    (repo_id rid op_id : String) where
  -- The evidence again, right before a write: the fresh item, or why there is none.
  abbrev pub revalidate : String → Fields → Observation → M S W (Result String Fields)
  revalidate operation original expected = do
    repo ← call io.repo_snapshot
    (mode, version) ← reading (λ s. store.leases.read_repo_mode s repo_id)
    let derived = governance_mode repo
    let allowed = if operation == "revert" then main_broken else normal
    if not (is_mode derived allowed) || not (is_mode mode allowed)
        then pure (err ("REPO_MODE_" ++ mode_text derived))
        else (do
          refreshed ← call (io.refresh_item original)
          let fresh = restraint_required refreshed
          fresh_id ← lift (item_id py fresh)
          id ← lift (item_id py original)
          if not (fresh_id == id) then pure (err "ITEM_ID_CHANGED") else (do
            observed ← call (io.observe_item fresh)
            pure (
                if not (same_observation observed expected)
                then err "OBSERVATION_CHANGED"
                else if (operation == "merge_expected_head")
                    && not (merge_precheck_v11 py.lower py.repr fresh).0
                then err "MERGE_OK_FALSE_FINAL"
                else ok fresh)))

  abbrev pub terminalize : Lease → String → M S W Verdict
  terminalize lease state = do
    resolved ← on_kernel (λ s. resolve_intent store.leases s lease state)
    given resolved (pure (false, "RESULT_COMMIT_CAS_FAILED")) λ l. do
      now ← trusted_now io
      released ← on_store (λ s. release store.leases s l now)
      pure (if is_lost released then (false, "LEASE_RELEASE_CAS_FAILED") else (true, "TERMINAL"))

  abbrev pub enter_merge_locked : Lease → M S W Verdict
  enter_merge_locked lease = do
    resolved ← on_kernel (λ s. resolve_intent store.leases s lease "DONE")
    if is_lost resolved then pure (false, "RESULT_COMMIT_CAS_FAILED") else (do
      (mode, version) ← reading (λ s. store.leases.read_repo_mode s repo_id)
      if not (is_mode mode (mode_before lease))
          then pure (false, "REPO_MODE_CHANGED_AFTER_WRITE")
          else (do
            written ← on_store (λ s. store.cas_repo_mode s repo_id version merge_locked false)
            pure (
                if written
                then (true, "MERGED_UNVERIFIED")
                else (false, "MERGE_LOCK_MODE_CAS_FAILED"))))

  -- `resolve_intent` as ABORTED: whether it went through.
  abbrev pub abort : Lease → M S W Bool
  abort lease = do
    resolved ← on_kernel (λ s. resolve_intent store.leases s lease "ABORTED")
    pure (not (is_lost resolved))

  module _ (operation id : String) where
    abbrev pub about : RunPhase → String → String → RunResult
    about phase status reason = answer rid phase status (some operation) (some id) (some reason)

    abbrev pub after_write : Json → RunPhase → String → Option String → RunResult
    after_write mutation phase status reason =
        record (answer rid phase status (some operation) (some id) reason) {
          mutation_result = some mutation;
        }

    -- What becomes of a write by its answer.
    abbrev pub completed : Lease → Json → M S W RunResult
    completed lease mutation =
        if changes_main operation
        then (do
          (locked, reason) ← enter_merge_locked lease
          pure (
              if locked
              then after_write mutation exit "WAIT" (some "MERGED_UNVERIFIED")
              else after_write mutation action_phase "WAIT" (some reason)))
        else (do
          (terminal, reason) ← terminalize lease "DONE"
          pure (
              if terminal
              then after_write mutation exit "COMPLETE" none
              else after_write mutation action_phase "WAIT" (some reason)))

    abbrev pub refused_write : Lease → Json → M S W RunResult
    refused_write lease mutation = do
      aborted ← abort lease
      let reason = part_of mutation "reason"
      pure (
          if aborted
          then after_write mutation exit "BLOCKED" (
              some
                (if is_truthy reason then Choice.text_of py reason else "ACTION_BLOCKED_COOLDOWN"))
          else after_write mutation action_phase "WAIT" (some "INTENT_ABORT_CAS_FAILED"))

    abbrev pub failed_write : Lease → Json → M S W RunResult
    failed_write lease mutation = do
      (terminal, reason) ← terminalize lease "ABORTED"
      pure (
          if terminal
          then after_write mutation exit "FAILED" none
          else after_write mutation action_phase "WAIT" (some reason))

    unfoldable pub conclude : Lease → Json → M S W RunResult
    conclude lease mutation =
        if is_replay_pending mutation
        then pure (after_write mutation action_phase "WAIT" (some "OUTCOME_UNKNOWN"))
        else if is_complete mutation
        then completed lease mutation
        else if eq_text (part_of mutation "status") "BLOCKED"
        then refused_write lease mutation
        else if eq_text (part_of mutation "status") "FAILED"
        then failed_write lease mutation
        else pure (after_write mutation action_phase "WAIT" (some "OUTCOME_UNKNOWN"))

    -- The write itself.
    abbrev pub act : Lease → Fields → M S W RunResult
    act lease item = do mutation ← perform io operation item lease; conclude lease mutation

    abbrev pub abort_blocked : Lease → String → M S W RunResult
    abort_blocked lease reason = do abort lease; pure (about fence_check "BLOCKED" reason)

    -- The last gate of a merge, on the refreshed item.
    abbrev pub last_gate : Lease → Fields → M S W RunResult
    last_gate lease item = do
      repo ← call io.repo_snapshot
      (mode, version) ← reading (λ s. store.leases.read_repo_mode s repo_id)
      let final = owned item mode
      if not (is_mode (governance_mode repo) normal) || not (merge_ok_v11 py.lower py.repr final).0
          then abort_blocked lease "MERGE_OK_FALSE_FINAL"
          else act lease final

    unfoldable pub gate_merge : Lease → Fields → Observation → M S W RunResult
    gate_merge lease item observed = do
      refreshed ← call (io.refresh_item item)
      let final = restraint_required refreshed
      final_id ← lift (item_id py final)
      if not (final_id == id) then abort_blocked lease "OBSERVATION_CHANGED" else (do
        seen ← call (io.observe_item final)
        if not (same_observation seen observed)
            then abort_blocked lease "OBSERVATION_CHANGED"
            else last_gate lease final)

    abbrev pub shut_out : Lease → Fence → M S W RunResult
    shut_out lease fence =
        if is_gone fence
        then pure (about fence_check "BLOCKED" (fence_text fence))
        else abort_blocked lease (fence_text fence)

    -- What the fence lets through.
    abbrev pub fenced : Lease → Fields → Observation → Fence → M S W RunResult
    fenced lease item observed fence =
        if not (is_passed fence)
        then shut_out lease fence
        else if operation == "merge_expected_head"
        then gate_merge lease item observed
        else act lease item

    unfoldable pub check_fence : Lease → Fields → Observation → M S W RunResult
    check_fence lease item observed = do
      seen ← call (io.observe_item item)
      now ← trusted_now io
      fence ←
          reading
            (λ s. fence_ok store.leases s repo_id lease seen now max_write_latency skew_margin)
      fenced lease item observed fence

    -- The second revalidation's answer.
    abbrev pub revalidated : Lease → Observation → Result String Fields → M S W RunResult
    revalidated lease observed (ok item) = check_fence lease item observed
    revalidated lease observed (err reason) = do
      aborted ← abort lease
      pure (
          if aborted
          then about fence_check "BLOCKED" reason
          else about fence_check "WAIT" "INTENT_ABORT_CAS_FAILED")

    abbrev pub final_item : Lease → Fields → Observation → M S W RunResult
    final_item lease fresh observed = do
      final ← revalidate operation fresh observed
      revalidated lease observed final

    abbrev pub with_intent : Lease → Fields → Observation → M S W RunResult
    with_intent lease fresh observed = do
      class ← lift (intent_operation operation)
      now ← trusted_now io
      attached ←
          on_store (λ s. attach_intent store.leases py.idem_key s lease repo_id id class op_id now)
      given attached (pure (about write_intent "WAIT" "INTENT_CAS_FAILED"))
          (λ l. final_item l fresh observed)

    -- The first revalidation's answer.
    abbrev pub reconciled : Lease → Observation → Result String Fields → M S W RunResult
    reconciled lease observed (ok fresh) = with_intent lease fresh observed
    reconciled lease observed (err reason) = pure (about reconcile_item "WAIT" reason)

    abbrev pub with_lease : Fields → Observation → Lease → M S W RunResult
    with_lease item observed lease = do
      fresh ← revalidate operation item observed
      reconciled lease observed fresh

    abbrev pub lease_item : Fields → M S W RunResult
    lease_item item = do
      observed ← call (io.observe_item item)
      key ← lift (lease_key_for py repo_id id operation item)
      now ← trusted_now io
      lease ← on_kernel (λ s. acquire store.leases s key rid observed now ttl)
      given lease (pure (about acquire_cas_lease "WAIT" "LEASE_BUSY")) (with_lease item observed)

    unfoldable pub work : Fields → M S W RunResult
    work item =
        if (operation == "merge_expected_head") && not (merge_precheck_v11 py.lower py.repr item).0
        then pure (about reconcile_item "BLOCKED" "MERGE_OK_FALSE")
        else lease_item item

  abbrev pub plain : RunPhase → String → String → RunResult
  plain phase status reason = answer rid phase status none none (some reason)

  -- The item that was chosen; its operation is there, or it was no candidate.
  abbrev pub take : Option Candidate → M S W RunResult
  take none = pure (plain select "IDLE" "NO_ACTIONABLE_ITEM")
  take (some c) = do
    id ← lift (item_id py c.item)
    given (operation_for c.state c.item) (raise operation_missing)
        (λ operation. work operation id c.item)

  abbrev pub is_workable : RepoMode → Bool
  is_workable derived = is_mode derived normal || is_mode derived main_broken

  abbrev pub choose : RepoMode → List Fields → M S W RunResult
  choose derived items =
      if not (is_workable derived)
      then pure (plain repository_mode "WAIT" (mode_text derived))
      else (do selected ← Choice.select store io py repo_id items; take selected)

  abbrev pub run_synced : RepoMode → List Fields → M S W RunResult
  run_synced derived items = do
    (synced, reason) ← sync_mode store repo_id derived
    if not synced then pure (plain repository_mode "BLOCKED" reason) else choose derived items

  abbrev pub run_items : RepoMode → M S W RunResult
  run_items derived = do
    items ← call io.inventory
    (mode, version) ← reading (λ s. store.leases.read_repo_mode s repo_id)
    if is_mode mode merge_locked
        then post_merge repo_id rid store io py items
        else run_synced derived items

  -- A derived mode that only a human clears is stored, unless the stored one is protected too.
  abbrev pub freeze : RepoMode → M S W Unit
  freeze derived = do
    (mode, first) ← reading (λ s. store.leases.read_repo_mode s repo_id)
    (again, version) ← reading (λ s. store.leases.read_repo_mode s repo_id)
    if is_mode mode derived || is_human_clear_only mode || is_mode mode merge_locked
        then pure tt
        else (do on_store (λ s. store.cas_repo_mode s repo_id version derived false); pure tt)

  abbrev pub frozen : RepoMode → M S W RunResult
  frozen derived = do freeze derived; pure (plain repository_mode "BLOCKED" (mode_text derived))

  abbrev pub recover_and_run : RepoMode → M S W RunResult
  recover_and_run derived = do
    (recovered, reason) ← recover_pending store io
    if not recovered then pure (plain intent_recovery "WAIT" reason) else run_items derived

  abbrev pub run_governed : RepoMode → M S W RunResult
  run_governed derived =
      if is_human_clear_only derived then frozen derived else recover_and_run derived

  unfoldable pub run_once : M S W RunResult
  run_once = do
    repo ← call io.repo_snapshot
    if is_true (get repo "halted")
        then pure (plain halt_check "BLOCKED" "HALTED")
        else run_governed (governance_mode repo)
