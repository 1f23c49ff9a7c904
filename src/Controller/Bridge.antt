-- ===== src/Controller/Bridge.antt =====
-- `GuardedWriteBridge` of scripts/l5_controller.py: the controller's writes, by way of the write
-- adapter. The adapter's two functions are parameters, as is whether their sources load.
use Prim.Native.String.{◌++◌}
use one_company.Prelude.{
  ◌≡◌, inl, inr, refl, String, true, not, ◌||◌, List, [], ◌∷◌, Option, some, none, given, Result,
  ok, err, ◌==◌, any, if◌then◌else◌, arith, Option-cases,
}
use one_company.Json.{Json, str, obj, Fields, field, end, get, as_dict, eq_text, eq_text-eq}
use one_company.Kernel.Types.{Lease, Intent}
use one_company.Controller.Io.{Call}

pub record Runtime (S W : Type 0) : Type 0 where
  pub authorize_mutation : Fields → Result String Fields
  pub execute_mutation : Fields → Fields → Call S W Json

-- {"status": "BLOCKED", "reason": reason}
abbrev pub blocked : String → Json
blocked reason = obj (field "status" (str "BLOCKED") (field "reason" (str reason) end))

abbrev pub guarded_operations : List String
guarded_operations =
    "retry_ci" ∷ "dispatch_review" ∷ "remediate_review" ∷ "update_branch" ∷ "merge_expected_head"
    ∷ "reserve_next_wu" ∷ []

module _ {S W : Type 0} (loaded : Result String (Runtime S W)) where
  -- Why an authorization is not for this operation and lease, if it is not.
  abbrev pub mismatch : String → Fields → Lease → Option String
  mismatch operation auth lease =
      if not (any (λ o. o == operation) guarded_operations)
        || not (eq_text (get auth "mutation") operation)
      then some "ACTION_AUTHORIZATION_MISMATCH"
      else given lease.intent (some "LEASE_INTENT_MISSING") λ i.
        if not (eq_text (get auth "expected_head_sha") i.expected_head)
        then some "LEASE_HEAD_MISMATCH"
        else if not (eq_text (get auth "expected_base_sha") i.expected_base)
        then some "LEASE_BASE_MISMATCH"
        else none

  abbrev pub execute_bound : Runtime S W → String → Lease → (auth snapshot : Fields) → Call S W Json
  execute_bound runtime operation lease auth snapshot s w =
      given (mismatch operation auth lease) (runtime.execute_mutation auth snapshot s w)
        λ reason. (blocked reason, s, w)

  abbrev pub authorized :
      Runtime S W → String → Lease → (snapshot : Fields) → Result String Fields → Call S W Json
  authorized runtime operation lease snapshot (err e) s w =
      (blocked ("AUTHORIZATION_INVALID:" ++ e), s, w)
  authorized runtime operation lease snapshot (ok auth) s w =
      execute_bound runtime operation lease auth snapshot s w

  abbrev pub with_runtime : Result String (Runtime S W) → String → Fields → Lease → Call S W Json
  with_runtime (err e) operation item lease s w = (blocked ("GUARDED_RUNTIME_INVALID:" ++ e), s, w)
  with_runtime (ok runtime) operation item lease s w =
      given (as_dict (get item "activation_snapshot")) (blocked "ACTIVATION_SNAPSHOT_MISSING", s, w)
        λ snapshot.
          authorized runtime operation lease snapshot (runtime.authorize_mutation snapshot) s w

  unfoldable pub execute_guarded : String → Fields → Lease → Call S W Json
  execute_guarded operation item lease s w = with_runtime loaded operation item lease s w

  -- An authorization for this operation, on the refs of the lease's intent.
  pub record IsBound (operation : String) (lease : Lease) (auth : Fields) : Type 0 where
    pub intent : Intent
    pub attached : lease.intent ≡ some intent
    pub known : any (λ o. o == operation) guarded_operations ≡ true
    pub mutation : get auth "mutation" ≡ str operation
    pub head : get auth "expected_head_sha" ≡ str intent.expected_head
    pub base : get auth "expected_base_sha" ≡ str intent.expected_base

  mismatch-none :
      (operation : String) (auth : Fields) (lease : Lease)
      → mismatch operation auth lease ≡ none
      → IsBound operation lease auth
  mismatch-none operation auth lease h = elim (Option-cases lease.intent) [
    | inl e ↦ absurd (ground (arith, h, e))
    | inr (i, e) ↦ record {
      intent = i;
      attached = e;
      known = ground (arith, h, e);
      mutation = eq_text-eq _ _ (ground (arith, h, e));
      head = eq_text-eq _ _ (ground (arith, h, e));
      base = eq_text-eq _ _ (ground (arith, h, e));
    }
  ]

  -- What a call did.
  pub data Outcome (operation : String) (item : Fields) (lease : Lease) (s : S) (w : W)
      : Json × S × W → Type 0 where
    refused : (reason : String) → Outcome operation item lease s w (blocked reason, s, w)
    executed :
        (runtime : Runtime S W) (snapshot auth : Fields)
        → loaded ≡ ok runtime
        → as_dict (get item "activation_snapshot") ≡ some snapshot
        → runtime.authorize_mutation snapshot ≡ ok auth
        → IsBound operation lease auth
        → Outcome operation item lease s w (runtime.execute_mutation auth snapshot s w)

  module _ (operation : String) (item : Fields) (lease : Lease) (s : S) (w : W) where
    bound_outcome :
        (runtime : Runtime S W) (snapshot auth : Fields)
        → loaded ≡ ok runtime
        → as_dict (get item "activation_snapshot") ≡ some snapshot
        → runtime.authorize_mutation snapshot ≡ ok auth
        → Outcome operation item lease s w (execute_bound runtime operation lease auth snapshot s w)
    bound_outcome runtime snapshot auth l a h =
        elim (Option-cases (mismatch operation auth lease)) [
          | inl e ↦
              rw e (executed runtime snapshot auth l a h (mismatch-none operation auth lease e))
          | inr (reason, e) ↦ rw e (refused reason)
        ]

    authorized_outcome :
        (runtime : Runtime S W) (snapshot : Fields) (r : Result String Fields)
        → loaded ≡ ok runtime
        → as_dict (get item "activation_snapshot") ≡ some snapshot
        → runtime.authorize_mutation snapshot ≡ r
        → Outcome operation item lease s w (authorized runtime operation lease snapshot r s w)
    authorized_outcome runtime snapshot (err e) l a h = refused ("AUTHORIZATION_INVALID:" ++ e)
    authorized_outcome runtime snapshot (ok auth) l a h = bound_outcome runtime snapshot auth l a h

    runtime_outcome :
        (r : Result String (Runtime S W))
        → loaded ≡ r
        → Outcome operation item lease s w (with_runtime r operation item lease s w)
    runtime_outcome (err e) l = refused ("GUARDED_RUNTIME_INVALID:" ++ e)
    runtime_outcome (ok runtime) l =
        elim (Option-cases (as_dict (get item "activation_snapshot"))) [
          | inl e ↦ rw e (refused "ACTIVATION_SNAPSHOT_MISSING")
          | inr (snapshot, e) ↦
              rw e
                (authorized_outcome runtime snapshot (runtime.authorize_mutation snapshot) l e refl)
        ]

    -- A call of the bridge either is refused as BLOCKED, and then leaves the store and the world as they
    -- were, or is a call of `execute_mutation` with an authorization of the item's activation snapshot
    -- for this very operation, one of the six, on the head and base of the lease's intent.
    pub execute_guarded-Outcome :
        Outcome operation item lease s w (execute_guarded operation item lease s w)
    unfolding execute_guarded
    execute_guarded-Outcome = runtime_outcome loaded refl
