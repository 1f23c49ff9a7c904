-- ===== src/Controller/Quiet.antt =====
-- The stages of `run_once` apart from `execute_guarded` make no write.
use one_company.Prelude.{ℕ, String, List, [], ◌∷◌, err}
use one_company.Json.{Json, Fields}
use one_company.Kernel.Types.{RepoMode, Lease, Intent, Observation}
use one_company.Kernel.Lease.{
  Fence, Recovery, no_pending_intent, resolve_done, resolve_aborted, readback_required,
}
use one_company.Controller.Io.{ControllerStore, ControllerIo, Imports, M}
use one_company.Controller.Choice
use one_company.Controller.Choice.{consider, candidates_of}
use one_company.Controller.Recovery.{Verdict, decided, sync_mode, recover_all, recover_pending}
use one_company.Controller.PostMerge.{bound_items, post_merge}
use one_company.Controller.Run.{
  revalidate, terminalize, enter_merge_locked, abort, conclude, shut_out, revalidated, freeze,
}
use one_company.Controller.Careful.{NoWrites, quiet_rules}

module _ {S W : Type 0} (store : ControllerStore S) (io : ControllerIo S W) (py : Imports) where
  consider-NoWrites :
      (repo_id : String) (now : ℕ) (raw : Fields) → NoWrites (consider store io py repo_id now raw)
  consider-NoWrites repo_id now raw = search quiet_rules depth 20

  candidates_of-NoWrites :
      (repo_id : String) (now : ℕ) (items : List Fields)
      → NoWrites (candidates_of store io py repo_id now items)
  unfolding candidates_of
  candidates_of-NoWrites repo_id now [] = search quiet_rules
  candidates_of-NoWrites repo_id now (raw ∷ items) =
      let rest = candidates_of-NoWrites repo_id now items in
      search (quiet_rules, consider-NoWrites) depth 20

  pub select-NoWrites :
      (repo_id : String) (items : List Fields) → NoWrites (Choice.select store io py repo_id items)
  select-NoWrites repo_id items = search (quiet_rules, candidates_of-NoWrites) depth 20

module _ {S W : Type 0} (store : ControllerStore S) where
  pub sync_mode-NoWrites :
      (repo_id : String) (derived : RepoMode) → NoWrites (sync_mode {W = W} store repo_id derived)
  unfolding sync_mode
  sync_mode-NoWrites repo_id derived = search quiet_rules depth 20

  module _ (io : ControllerIo S W) where
    decided-NoWrites :
        (lease : Lease) (r : Recovery) (rest : M S W Verdict)
        → NoWrites rest
        → NoWrites (decided store lease r rest)
    decided-NoWrites lease readback_required rest h = search quiet_rules
    decided-NoWrites lease resolve_done rest h = search quiet_rules
    decided-NoWrites lease resolve_aborted rest h = search quiet_rules
    decided-NoWrites lease no_pending_intent rest h = h

    recover_all-NoWrites : (leases : List Lease) → NoWrites (recover_all store io leases)
    unfolding recover_all
    recover_all-NoWrites [] = search quiet_rules
    recover_all-NoWrites (lease ∷ leases) =
        let rest = recover_all-NoWrites leases in search (quiet_rules, decided-NoWrites) depth 20

    pub recover_pending-NoWrites : NoWrites (recover_pending store io)
    unfolding recover_pending
    recover_pending-NoWrites = search (quiet_rules, recover_all-NoWrites) depth 20

module _ {S W : Type 0} (store : ControllerStore S) (io : ControllerIo S W) (py : Imports)
    (repo_id rid : String) where
  bound_items-NoWrites :
      (i : Intent) (items : List Fields) → NoWrites (bound_items repo_id rid store io py i items)
  unfolding bound_items
  bound_items-NoWrites i [] = search quiet_rules
  bound_items-NoWrites i (item ∷ items) =
      let rest = bound_items-NoWrites i items in search quiet_rules depth 20

  pub post_merge-NoWrites :
      (items : List Fields) → NoWrites (post_merge repo_id rid store io py items)
  unfolding post_merge
  post_merge-NoWrites items = search (quiet_rules, bound_items-NoWrites) depth 40

module _ {S W : Type 0} (store : ControllerStore S) (io : ControllerIo S W) (py : Imports)
    (repo_id rid op_id : String) where
  pub revalidate-NoWrites :
      (operation : String) (original : Fields) (expected : Observation)
      → NoWrites (revalidate store io py repo_id rid op_id operation original expected)
  revalidate-NoWrites operation original expected = search quiet_rules depth 20

  pub freeze-NoWrites :
      (derived : RepoMode) → NoWrites (freeze store io py repo_id rid op_id derived)
  freeze-NoWrites derived = search quiet_rules depth 20

  pub abort-NoWrites : (lease : Lease) → NoWrites (abort store io py repo_id rid op_id lease)
  abort-NoWrites lease = search quiet_rules

  terminalize-NoWrites :
      (lease : Lease) (state : String)
      → NoWrites (terminalize store io py repo_id rid op_id lease state)
  terminalize-NoWrites lease state = search quiet_rules depth 20

  enter_merge_locked-NoWrites :
      (lease : Lease) → NoWrites (enter_merge_locked store io py repo_id rid op_id lease)
  enter_merge_locked-NoWrites lease = search quiet_rules depth 20

  pub conclude-NoWrites :
      (operation id : String) (lease : Lease) (mutation : Json)
      → NoWrites (conclude store io py repo_id rid op_id operation id lease mutation)
  unfolding conclude
  conclude-NoWrites operation id lease mutation =
      search (quiet_rules, terminalize-NoWrites, enter_merge_locked-NoWrites, abort-NoWrites) depth
        20

  pub shut_out-NoWrites :
      (operation id : String) (lease : Lease) (fence : Fence)
      → NoWrites (shut_out store io py repo_id rid op_id operation id lease fence)
  shut_out-NoWrites operation id lease fence = search (quiet_rules, abort-NoWrites)

  pub revalidated-err-NoWrites :
      (operation id : String) (lease : Lease) (observed : Observation) (reason : String)
      → NoWrites
          (revalidated store io py repo_id rid op_id operation id lease observed (err reason))
  revalidated-err-NoWrites operation id lease observed reason = search (quiet_rules, abort-NoWrites)
