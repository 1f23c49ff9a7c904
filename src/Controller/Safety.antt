-- ===== src/Controller/Safety.antt =====
-- When `run_once` of scripts/l5_controller.py writes.
use one_company.Prelude.{String, not, List, Option, some, none}
use one_company.Json.{Fields, get, is_true}
use one_company.Kernel.Types.{RepoMode, merge_locked, is_human_clear_only}
use one_company.Kernel.Governance.{governance_mode}
use one_company.Controller.Io.{
  repository_mode, halt_check, intent_recovery, ControllerStore, ControllerIo, Imports, Write,
  State, pure,
}
use one_company.Controller.Choice.{Candidate, is_mode, item_id, operation_for}
use one_company.Controller.PostMerge.{post_merge}
use one_company.Controller.Run.{
  plain, take, is_workable, choose, run_synced, run_items, frozen, recover_and_run, run_governed,
  run_once,
}
use one_company.Controller.Careful.{NoWrites, NoWrites-pure, quiet_rules}
use one_company.Controller.Quiet.{
  select-NoWrites, sync_mode-NoWrites, recover_pending-NoWrites, post_merge-NoWrites,
  freeze-NoWrites,
}
use one_company.Controller.Permitted.{
  AtMostOne, Permitted, Careful, Careful-quiet, Careful-if, Careful-given, Careful-bind,
}
use one_company.Controller.Rules.{Careful-call, Careful-reading, Careful-lift}
use one_company.Controller.Revert.{operation_for-ne-revert}
use one_company.Controller.Stages.{work-Careful}

module _ {S W : Type 0} (store : ControllerStore S) (io : ControllerIo S W) (py : Imports)
    (repo_id rid op_id : String) where
  abbrev Allowed : Write S W → Type 0
  Allowed = Permitted store io py repo_id

  take-Careful :
      (o : Option Candidate) (σ : State S W)
      → Careful Allowed (take store io py repo_id rid op_id o) σ
  take-Careful none σ = Careful-quiet Allowed _ σ (NoWrites-pure _)
  take-Careful (some c) σ = Careful-lift Allowed (item_id py c.item) _ σ λ id of_id.
      Careful-given Allowed (operation_for c.state c.item) _ _ σ
        (Careful-quiet Allowed _ σ (search quiet_rules))
        λ operation e.
          work-Careful store io py repo_id rid op_id operation id c.item σ
            (operation_for-ne-revert c.state c.item operation e)

  choose-Careful :
      (derived : RepoMode) (items : List Fields) (σ : State S W)
      → Careful Allowed (choose store io py repo_id rid op_id derived items) σ
  choose-Careful derived items σ =
      Careful-if Allowed (not (is_workable store io py repo_id rid op_id derived)) _ _ σ
        (λ idle. Careful-quiet Allowed _ σ (NoWrites-pure _))
        λ workable.
          Careful-bind Allowed _ _ σ (select-NoWrites store io py repo_id items)
            λ o h. take-Careful o _

  run_synced-Careful :
      (derived : RepoMode) (items : List Fields) (σ : State S W)
      → Careful Allowed (run_synced store io py repo_id rid op_id derived items) σ
  run_synced-Careful derived items σ =
      Careful-bind Allowed _ _ σ (sync_mode-NoWrites store repo_id derived) λ r e.
        Careful-if Allowed (not r.0)
          (pure (plain store io py repo_id rid op_id repository_mode "BLOCKED" r.1))
          (choose store io py repo_id rid op_id derived items) _
          (λ lost. Careful-quiet Allowed _ _ (NoWrites-pure _))
          (λ fine. choose-Careful derived items _)

  run_items-Careful :
      (derived : RepoMode) (σ : State S W)
      → Careful Allowed (run_items store io py repo_id rid op_id derived) σ
  run_items-Careful derived σ = Careful-call Allowed io.inventory _ σ λ items τ listing.
      Careful-reading Allowed (λ s. store.leases.read_repo_mode s repo_id) _ τ
        (Careful-if Allowed (is_mode (store.leases.read_repo_mode τ.store repo_id).0 merge_locked)
          (post_merge repo_id rid store io py items)
          (run_synced store io py repo_id rid op_id derived items) τ
          (λ locked. Careful-quiet Allowed _ τ (post_merge-NoWrites store io py repo_id rid items))
          (λ free. run_synced-Careful derived items τ))

  frozen-NoWrites : (derived : RepoMode) → NoWrites (frozen store io py repo_id rid op_id derived)
  frozen-NoWrites derived = search (quiet_rules, freeze-NoWrites)

  recover_and_run-Careful :
      (derived : RepoMode) (σ : State S W)
      → Careful Allowed (recover_and_run store io py repo_id rid op_id derived) σ
  recover_and_run-Careful derived σ =
      Careful-bind Allowed _ _ σ (recover_pending-NoWrites store io) λ r e.
        Careful-if Allowed (not r.0)
          (pure (plain store io py repo_id rid op_id intent_recovery "WAIT" r.1))
          (run_items store io py repo_id rid op_id derived) _
          (λ stuck. Careful-quiet Allowed _ _ (NoWrites-pure _))
          (λ fine. run_items-Careful derived _)

  run_governed-Careful :
      (derived : RepoMode) (σ : State S W)
      → Careful Allowed (run_governed store io py repo_id rid op_id derived) σ
  run_governed-Careful derived σ =
      Careful-if Allowed (is_human_clear_only derived)
        (frozen store io py repo_id rid op_id derived)
        (recover_and_run store io py repo_id rid op_id derived) σ
        (λ held. Careful-quiet Allowed _ σ (frozen-NoWrites derived))
        (λ open_. recover_and_run-Careful derived σ)

  run_once-Careful : (σ : State S W) → Careful Allowed (run_once store io py repo_id rid op_id) σ
  unfolding run_once
  run_once-Careful σ = Careful-call Allowed io.repo_snapshot _ σ λ repo τ asking.
      Careful-if Allowed (is_true (get repo "halted"))
        (pure (plain store io py repo_id rid op_id halt_check "BLOCKED" "HALTED"))
        (run_governed store io py repo_id rid op_id (governance_mode repo)) τ
        (λ halted. Careful-quiet Allowed _ τ (NoWrites-pure _))
        (λ going. run_governed-Careful (governance_mode repo) τ)

  -- However the world and the other controllers behave, an invocation of `run_once` makes at most one
  -- call of `execute_guarded`, and when it makes one, the fence has passed for its lease: the item, read
  -- last, is as the lease recorded it, the lease is stored, live, before its deadline and with its
  -- pending intent, and the stored mode is NORMAL. For merge_expected_head, moreover, after the
  -- fence the item was read again and is unchanged, the repository was then governed NORMAL, and at the
  -- call the stored mode is NORMAL and the item written passes merge_ok_v11.
  pub run_once-Permitted :
      (σ : State S W)
      → AtMostOne
          (Permitted store io py repo_id)
          σ.performed
          (run_once store io py repo_id rid op_id σ).0.performed
  run_once-Permitted σ = (run_once-Careful σ).made
