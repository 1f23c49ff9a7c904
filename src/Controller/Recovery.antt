-- ===== src/Controller/Recovery.antt =====
-- `_sync_mode` and `_recover_pending` of scripts/l5_controller.py.
use mathlib.Core.Logic.{ite}
use one_company.Prelude.{
  String, Bool, true, false, not, List, [], ◌∷◌, Option, none, some, if◌then◌else◌, Result, ok, err,
}
use one_company.Kernel.Types.{RepoMode, merge_locked, is_human_clear_only, Lease, Lease-discrete}
use one_company.Kernel.Lease
use one_company.Kernel.Lease.{
  Recovery, no_pending_intent, resolve_done, resolve_aborted, readback_required, intent_recovery,
  resolve_intent,
}
use one_company.Controller.Io.{
  Failure, of_kernel, ControllerStore, ControllerIo, M, pure, lift, ◌>>=◌, call, reading, on_store,
  on_kernel,
}
use one_company.Controller.Choice.{is_mode}

-- The answer of a step that may stop the invocation: whether it went through, and why not.
abbrev pub Verdict : Type 0
Verdict = Bool × String

-- cur != lease, for what was read
abbrev pub is_exactly : Option Lease → Lease → Bool
is_exactly none lease = false
is_exactly (some cur) lease = ite (Lease-discrete cur lease) true false

abbrev pub is_lost : Option Lease → Bool
is_lost none = true
is_lost (some l) = false

abbrev pub recovery_of : Result Lease.Error Recovery → Result Failure Recovery
recovery_of (ok r) = ok r
recovery_of (err e) = err (of_kernel e)

module _ {S W : Type 0} (store : ControllerStore S) where
  unfoldable pub sync_mode : String → RepoMode → M S W Verdict
  sync_mode repo_id derived = do
    (current, version) ← reading (λ s. store.leases.read_repo_mode s repo_id)
    if is_mode current derived
        then pure (true, "UNCHANGED")
        else if is_human_clear_only current
        then pure (false, "HUMAN_CLEAR_REQUIRED")
        else if is_mode current merge_locked
        then pure (false, "POST_MERGE_VERIFICATION_REQUIRED")
        else (do
          written ← on_store (λ s. store.cas_repo_mode s repo_id version derived false)
          pure (if written then (true, "UPDATED") else (false, "MODE_CAS_CONFLICT")))

  -- A resolution, and the rest of the loop.
  abbrev pub resolving : Lease → String → M S W Verdict → M S W Verdict
  resolving lease state rest = do
    resolved ← on_kernel (λ s. resolve_intent store.leases s lease state)
    if is_lost resolved then pure (false, "RECOVERY_CAS_CONFLICT") else rest

  abbrev pub decided : Lease → Recovery → M S W Verdict → M S W Verdict
  decided lease readback_required rest = pure (false, "RECOVERY_READBACK_REQUIRED")
  decided lease resolve_done rest = resolving lease "DONE" rest
  decided lease resolve_aborted rest = resolving lease "ABORTED" rest
  decided lease no_pending_intent rest = rest

  unfoldable pub recover_all : ControllerIo S W → List Lease → M S W Verdict
  recover_all io [] = pure (true, "RECOVERED")
  recover_all io (lease ∷ leases) =
      let rest = recover_all io leases in
      do
        current ← reading (λ s. store.leases.read s lease.key)
        if not (is_exactly current lease) then pure (false, "RECOVERY_LEASE_STALE") else (do
          detected ← call (io.detect_intent_effect lease)
          decision ← lift (recovery_of (intent_recovery lease detected))
          decided lease decision rest)

  unfoldable pub recover_pending : ControllerIo S W → M S W Verdict
  recover_pending io = do leases ← call io.pending_intent_leases; recover_all io leases
