-- ===== src/Controller/Idle.antt =====
-- When `run_once` of scripts/l5_controller.py does nothing but look.
use one_company.Prelude.{◌≡◌, String, Bool, true, false, not, ◌||◌, List, if◌then◌else◌}
use one_company.Json.{Fields, get, is_true}
use one_company.Kernel.Types.{RepoMode, normal, main_broken}
use one_company.Kernel.Governance.{governance_mode}
use one_company.Controller.Io.{
  RunResult, pure, ControllerStore, ControllerIo, Imports, State, M, ◌>>=◌, bound, call,
}
use one_company.Controller.Choice.{is_mode}
use one_company.Controller.Run.{is_workable, choose, run_governed, run_once}
use one_company.Controller.Careful.{NoWrites, NoWrites-pure, quiet_rules}
use one_company.Controller.Quiet.{
  sync_mode-NoWrites, recover_pending-NoWrites, post_merge-NoWrites, freeze-NoWrites,
}

module _ {S W : Type 0} (store : ControllerStore S) (io : ControllerIo S W) (py : Imports)
    (repo_id rid op_id : String) where
  NoWrites-first :
      {A : Type 0} (b : Bool) (x y : M S W A)
      → b ≡ true
      → NoWrites x
      → NoWrites (if b then x else y)
  NoWrites-first true x y h hx = hx
  NoWrites-first false x y h hx = cc

  choose-NoWrites :
      (derived : RepoMode) (items : List Fields)
      → not (is_workable store io py repo_id rid op_id derived) ≡ true
      → NoWrites (choose store io py repo_id rid op_id derived items)
  choose-NoWrites derived items h = NoWrites-first _ _ _ h (NoWrites-pure _)

  run_governed-NoWrites :
      (derived : RepoMode)
      → not (is_workable store io py repo_id rid op_id derived) ≡ true
      → NoWrites (run_governed store io py repo_id rid op_id derived)
  run_governed-NoWrites derived h =
      search
        (
          choose-NoWrites, quiet_rules, sync_mode-NoWrites, recover_pending-NoWrites,
          post_merge-NoWrites, freeze-NoWrites,
        )
        depth 30

  begin-NoWrites :
      (halted : Bool) (x : RunResult) (derived : RepoMode)
      → (halted || not (is_workable store io py repo_id rid op_id derived)) ≡ true
      → NoWrites (if halted then pure x else run_governed store io py repo_id rid op_id derived)
  begin-NoWrites true x derived h = NoWrites-pure x
  begin-NoWrites false x derived h = run_governed-NoWrites derived h

  -- If the first snapshot is halted, or is governed neither NORMAL nor MAIN_BROKEN, an invocation of
  -- `run_once` makes no call of `execute_guarded`, whatever the world and the other controllers do.
  pub run_once-idle :
      (σ : State S W)
      → (is_true (get (io.repo_snapshot σ.store σ.world).0 "halted")
          || not (
              is_mode (governance_mode (io.repo_snapshot σ.store σ.world).0) normal
              || is_mode (governance_mode (io.repo_snapshot σ.store σ.world).0) main_broken))
        ≡ true
      → (run_once store io py repo_id rid op_id σ).0.performed ≡ σ.performed
  unfolding run_once ◌>>=◌ bound call
  run_once-idle σ h = (begin-NoWrites _ _ _ h).kept _
