-- ===== src/Controller/Stages.antt =====
-- The stages of `run_once` of scripts/l5_controller.py up to the write.
use one_company.Prelude.{
  ◌≡◌, refl, sym, ap, ◌∙◌, subst, ◌+◌, ◌⊎◌, inl, inr, String, Bool, true, false, not, ◌&&◌, given,
  Result, ok, err, ◌==◌, eq_iff, arith,
}
use one_company.Json.{Fields}
use one_company.Kernel.Types.{RepoMode, normal, main_broken, Observation, Lease}
use one_company.Kernel.Lease.{Fence, passed, fence_ok, attach_intent, acquire}
use one_company.Kernel.Lease.FencePassed.{Guarded, fence_ok-passed_iff}
use one_company.Kernel.Lease.Attached.{attach_intent-Attached, acquire-observed}
use one_company.Kernel.Merge.{merge_precheck_v11}
use one_company.Controller.Io.{
  ControllerStore, ControllerIo, Imports, Write, State, pure, reconcile_item,
}
use one_company.Controller.Choice.{restraint_required, item_id, intent_operation, lease_key_for}
use one_company.Controller.Evidence.{ttl, max_write_latency, skew_margin}
use one_company.Controller.Run.{
  gate_merge, fenced, check_fence, final_item, with_intent, with_lease, lease_item, reconciled,
  revalidated, work, about,
}
use one_company.Controller.Careful.{NoWrites-pure}
use one_company.Controller.Quiet.{shut_out-NoWrites, revalidated-err-NoWrites, revalidate-NoWrites}
use one_company.Controller.Permitted.{
  Fenced, Permitted, plainly, Careful, Careful-quiet, Careful-if, Careful-given, Careful-bind,
}
use one_company.Controller.Rules.{
  Careful-call, Careful-reading, Careful-on_store, Careful-on_kernel, Careful-lift, Careful-trusted,
}
use one_company.Controller.Writes.{
  is_passed-eq, same_observation-eq, act-Careful, abort_blocked-Careful, last_gate-Careful,
}
use one_company.Controller.Revert.{intent_operation-Differs}

of_not : (b : Bool) → not b ≡ false → b ≡ true
of_not true h = refl
of_not false h = cc

normal_of :
    {m : RepoMode} {operation : String}
    → (m ≡ normal) ⊎ (m ≡ main_broken) × (operation ≡ "revert")
    → (operation == "revert") ≡ false
    → m ≡ normal
normal_of (inl e) n = e
normal_of {operation = operation} (inr (e, r)) n =
    absurd (ground (arith, eq_iff operation "revert"))

module _ {S W : Type 0} (store : ControllerStore S) (io : ControllerIo S W) (py : Imports)
    (repo_id rid op_id operation id : String) where
  abbrev Allowed : Write S W → Type 0
  Allowed = Permitted store io py repo_id

  gate_merge-Careful :
      (lease : Lease) (item : Fields) (observed : Observation) (σ : State S W)
      → (operation == "merge_expected_head") ≡ true
      → lease.observed ≡ observed
      → Fenced store io py repo_id lease item σ.store σ.world
      → Careful Allowed
          (gate_merge store io py repo_id rid op_id operation id lease item observed)
          σ
  unfolding gate_merge
  gate_merge-Careful lease item observed σ merging recorded fence =
      Careful-call Allowed (io.refresh_item item) _ σ λ raw τ refreshing.
        Careful-lift Allowed (item_id py (restraint_required raw)) _ τ λ final_id is_id.
          Careful-if Allowed _ _ _ τ
            (λ other.
              abort_blocked-Careful store io py repo_id rid op_id operation id lease
                "OBSERVATION_CHANGED" τ)
            λ same.
              Careful-call Allowed (io.observe_item (restraint_required raw)) _ τ
                λ seen υ observing.
                  Careful-if Allowed _ _ _ υ
                    (λ changed.
                      abort_blocked-Careful store io py repo_id rid op_id operation id lease
                        "OBSERVATION_CHANGED" υ)
                    λ unchanged.
                      last_gate-Careful store io py repo_id rid op_id operation id lease item raw
                        σ.store τ.store σ.world τ.world υ merging fence refreshing
                        (observing
                          ∙ ap (λ o. (o, υ.store, υ.world))
                              (same_observation-eq seen observed (of_not _ unchanged)
                                ∙ sym recorded))

  fenced-Careful :
      (lease : Lease) (item : Fields) (observed : Observation) (fence : Fence) (σ : State S W)
      → lease.observed ≡ observed
      → (fence ≡ passed → Fenced store io py repo_id lease item σ.store σ.world)
      → Careful Allowed
          (fenced store io py repo_id rid op_id operation id lease item observed fence)
          σ
  fenced-Careful lease item observed fence σ recorded seen =
      Careful-if Allowed _ _ _ σ
        (λ shut.
          Careful-quiet Allowed _ σ
            (shut_out-NoWrites store io py repo_id rid op_id operation id lease fence))
        λ opened.
          let fence_here = seen (is_passed-eq fence (of_not _ opened)) in
          Careful-if Allowed _ _ _ σ
            (λ merging. gate_merge-Careful lease item observed σ merging recorded fence_here)
            (λ other.
              act-Careful store io py repo_id rid op_id operation id lease item σ
                (plainly other fence_here))

  check_fence-Careful :
      (lease : Lease) (item : Fields) (observed : Observation) (σ : State S W)
      → lease.observed ≡ observed
      → (given lease.intent "" (λ i. i.operation) == "revert") ≡ false
      → Careful Allowed
          (check_fence store io py repo_id rid op_id operation id lease item observed)
          σ
  unfolding check_fence
  check_fence-Careful lease item observed σ recorded kind =
      Careful-call Allowed (io.observe_item item) _ σ λ seen τ observing.
        Careful-trusted Allowed io _ τ λ now υ telling.
          Careful-reading Allowed
            (λ s. fence_ok store.leases s repo_id lease seen now max_write_latency skew_margin) _ υ
            (fenced-Careful lease item observed _ υ recorded λ passes.
              let guard =
                (fence_ok-passed_iff store.leases υ.store repo_id lease seen now max_write_latency
                    skew_margin).0
                  passes in
              record {
                s0 = σ.store;
                w0 = σ.world;
                s1 = τ.store;
                w1 = τ.world;
                now = now;
                observing = observing ∙ ap (λ o. (o, τ.store, τ.world)) (sym guard.unchanged);
                telling = telling;
                guarded =
                    subst
                      (λ o.
                        Guarded store.leases υ.store repo_id lease o
                          (now + max_write_latency + skew_margin))
                      (sym guard.unchanged) guard;
                mode = normal_of guard.mode (
                    ap (λ o. given o "" (λ i. i.operation) == "revert") (sym guard.attached)
                    ∙ kind);
              })

  revalidated-Careful :
      (lease : Lease) (observed : Observation) (r : Result String Fields) (σ : State S W)
      → lease.observed ≡ observed
      → (given lease.intent "" (λ i. i.operation) == "revert") ≡ false
      → Careful Allowed (revalidated store io py repo_id rid op_id operation id lease observed r) σ
  revalidated-Careful lease observed (ok item) σ recorded kind =
      check_fence-Careful lease item observed σ recorded kind
  revalidated-Careful lease observed (err reason) σ recorded kind =
      Careful-quiet Allowed _ σ
        (revalidated-err-NoWrites store io py repo_id rid op_id operation id lease observed reason)

  final_item-Careful :
      (lease : Lease) (fresh : Fields) (observed : Observation) (σ : State S W)
      → lease.observed ≡ observed
      → (given lease.intent "" (λ i. i.operation) == "revert") ≡ false
      → Careful Allowed
          (final_item store io py repo_id rid op_id operation id lease fresh observed)
          σ
  final_item-Careful lease fresh observed σ recorded kind =
      Careful-bind Allowed _ _ σ
        (revalidate-NoWrites store io py repo_id rid op_id operation fresh observed)
        λ r e. revalidated-Careful lease observed r _ recorded kind

  with_intent-Careful :
      (lease : Lease) (fresh : Fields) (observed : Observation) (σ : State S W)
      → lease.observed ≡ observed
      → (operation == "revert") ≡ false
      → Careful Allowed
          (with_intent store io py repo_id rid op_id operation id lease fresh observed)
          σ
  with_intent-Careful lease fresh observed σ recorded n =
      Careful-lift Allowed (intent_operation operation) _ σ λ class of_class.
        Careful-trusted Allowed io _ σ λ now τ telling.
          Careful-on_store Allowed
            (λ s. attach_intent store.leases py.idem_key s lease repo_id id class op_id now) _ τ
            λ o υ attaching.
              Careful-given Allowed o _ _ υ (Careful-quiet Allowed _ υ (NoWrites-pure _))
                λ l given_l.
                  let kept =
                    attach_intent-Attached store.leases py.idem_key τ.store lease repo_id id class
                      op_id now l (ap (λ r. r.1) attaching ∙ given_l) in
                  final_item-Careful l fresh observed υ (kept.observed ∙ recorded) (
                    ap (λ c. c == "revert") kept.made_for
                    ∙ (intent_operation-Differs operation n).differs class of_class)

  reconciled-Careful :
      (lease : Lease) (observed : Observation) (r : Result String Fields) (σ : State S W)
      → lease.observed ≡ observed
      → (operation == "revert") ≡ false
      → Careful Allowed (reconciled store io py repo_id rid op_id operation id lease observed r) σ
  reconciled-Careful lease observed (ok fresh) σ recorded n =
      with_intent-Careful lease fresh observed σ recorded n
  reconciled-Careful lease observed (err reason) σ recorded n =
      Careful-quiet Allowed _ σ (NoWrites-pure _)

  with_lease-Careful :
      (item : Fields) (observed : Observation) (lease : Lease) (σ : State S W)
      → lease.observed ≡ observed
      → (operation == "revert") ≡ false
      → Careful Allowed
          (with_lease store io py repo_id rid op_id operation id item observed lease)
          σ
  with_lease-Careful item observed lease σ recorded n =
      Careful-bind Allowed _ _ σ
        (revalidate-NoWrites store io py repo_id rid op_id operation item observed)
        λ r e. reconciled-Careful lease observed r _ recorded n

  lease_item-Careful :
      (item : Fields) (σ : State S W)
      → (operation == "revert") ≡ false
      → Careful Allowed (lease_item store io py repo_id rid op_id operation id item) σ
  lease_item-Careful item σ n =
      Careful-call Allowed (io.observe_item item) _ σ λ observed τ observing.
        Careful-lift Allowed (lease_key_for py repo_id id operation item) _ τ λ key of_key.
          Careful-trusted Allowed io _ τ λ now υ telling.
            Careful-on_kernel Allowed (λ s. acquire store.leases s key rid observed now ttl) _ υ
              λ o φ acquired.
                Careful-given Allowed o _ _ φ (Careful-quiet Allowed _ φ (NoWrites-pure _))
                  λ l given_l.
                    with_lease-Careful item observed l φ
                      (acquire-observed store.leases υ.store key rid observed now ttl φ.store l
                        (acquired ∙ ap (λ x. ok (φ.store, x)) given_l))
                      n

  pub work-Careful :
      (item : Fields) (σ : State S W)
      → (operation == "revert") ≡ false
      → Careful Allowed (work store io py repo_id rid op_id operation id item) σ
  unfolding work
  work-Careful item σ n =
      Careful-if Allowed
        ((operation == "merge_expected_head") && not (merge_precheck_v11 py.lower py.repr item).0)
        (pure (
          about store io py repo_id rid op_id operation id reconcile_item "BLOCKED"
            "MERGE_OK_FALSE"))
        (lease_item store io py repo_id rid op_id operation id item) σ
        (λ barred. Careful-quiet Allowed _ σ (NoWrites-pure _))
        (λ fine. lease_item-Careful item σ n)
