-- ===== src/Controller/Candid.antt =====
-- The stages of scripts/l5_controller.py that answer that a write of main is to be verified, or has
-- been.
use one_company.Prelude.{
  ℕ, ◌≡◌, refl, String, Bool, true, false, List, Option, some, none, Result, ok, err, ◌==◌,
  if◌then◌else◌, arith, Bool-cases, inl, inr,
}
use one_company.Json.{Json, Fields}
use one_company.Kernel.Types.{RepoMode, merge_locked, Observation, Lease, Intent}
use one_company.Controller.Io.{
  RunResult, action_phase, exit, ControllerStore, ControllerIo, Imports, State, ◌>>=◌, pure,
  on_store,
}
use one_company.Controller.Choice.{Candidate, changes_main}
use one_company.Controller.Recovery.{Verdict}
use one_company.Controller.PostMerge.{target_mode, verified_as, unlock, judge_health, post_merge}
use one_company.Controller.Run.{
  enter_merge_locked, after_write, completed, conclude, gate_merge, check_fence, revalidated,
  reconciled, work, take, run_governed, run_once,
}
use one_company.Controller.Answers.{
  mode_told, Ends, Ends-bind, Ends-if, Ends-map, Ends-on_store, Ends-pure, stored, Tells, told_if,
  Candid, candid_rules,
}

module _ {S W : Type 0} (store : ControllerStore S) (io : ControllerIo S W) (py : Imports)
    (repo_id rid : String) where
  verified_as-told :
      (health id : String) (target : RepoMode)
      → target_mode health ≡ some target
      → mode_told (verified_as repo_id rid health id) ≡ some target
  verified_as-told health id target h = elim (Bool-cases (health == "HEALTHY")) [
    | inl e ↦ rw e (rw e at h)
    | inr e ↦ elim (Bool-cases (health == "BROKEN")) [
      | inl f ↦ rw (e, f) (rw (e, f) at h)
      | inr f ↦ elim (Bool-cases (health == "ENV_BROKEN")) [
        | inl g ↦ rw (e, f) (rw (e, f, g) at h)
        | inr g ↦ absurd (ground (arith, h, e, f, g))
      ]
    ]
  ]

  unlock-Candid :
      (health : String) (target : RepoMode) (id : String)
      → target_mode health ≡ some target
      → Candid store repo_id (unlock repo_id rid store io py health target id)
  unlock-Candid health target id h =
      let told = verified_as-told health id target h in search candid_rules depth 20

  judge_health-Candid :
      (health id : String) (lock : Lease) (i : Intent)
      → Candid store repo_id (judge_health repo_id rid store io py health id lock i)
  judge_health-Candid health id lock i = search (candid_rules, unlock-Candid) depth 20

  pub post_merge-Candid :
      (items : List Fields) → Candid store repo_id (post_merge repo_id rid store io py items)
  unfolding post_merge
  post_merge-Candid items = search (candid_rules, judge_health-Candid) depth 30

module _ {S W : Type 0} (store : ControllerStore S) (io : ControllerIo S W) (py : Imports)
    (repo_id rid op_id : String) where
  -- Whether main was locked: if so, that is what is stored.
  abbrev Locked : Verdict → S → Type 0
  Locked v s = v.0 ≡ true → stored store repo_id s ≡ merge_locked

  Locked-if :
      (b : Bool) (x y : String) (s : S)
      → (b ≡ true → stored store repo_id s ≡ merge_locked)
      → Locked (if b then (true, x) else (false, y)) s
  Locked-if true x y s h = h
  Locked-if false x y s h = λ e. cc

  refused : (reason : String) → Ends Locked (pure {S = S} {W = W} (false, reason))
  refused reason = Ends-pure Locked (false, reason) (λ s e. cc)

  locking :
      (version : Option ℕ) (x y : String)
      → Ends {W = W} Locked (
          on_store (λ s. store.cas_repo_mode s repo_id version merge_locked false) >>= λ written.
          pure (if written then (true, x) else (false, y)))
  locking version x y =
      Ends-map Locked (on_store (λ s. store.cas_repo_mode s repo_id version merge_locked false))
        (λ written. if written then (true, x) else (false, y))
        (Ends-on_store (λ b s. b ≡ true → stored store repo_id s ≡ merge_locked) _
          (λ s. store.mode-cas_repo_mode s repo_id version merge_locked false))
        (λ b s h. Locked-if b x y s h)

  enter_merge_locked-Locked :
      (lease : Lease) → Ends Locked (enter_merge_locked store io py repo_id rid op_id lease)
  enter_merge_locked-Locked lease = search (Ends-bind, Ends-if, refused, locking) depth 20

  module _ (operation id : String) where
    locked-Candid :
        (lease : Lease) (x y : Verdict → RunResult)
        → ((v : Verdict) → mode_told (x v) ≡ some merge_locked)
        → ((v : Verdict) → mode_told (y v) ≡ none)
        → Candid store repo_id (
            enter_merge_locked store io py repo_id rid op_id lease >>= λ v.
            pure (if v.0 then x v else y v))
    locked-Candid lease x y hx hy =
        Ends-map (Tells store repo_id) (enter_merge_locked store io py repo_id rid op_id lease)
          (λ v. if v.0 then x v else y v) (enter_merge_locked-Locked lease)
          (λ v s h. told_if store repo_id merge_locked (x v) (y v) (hx v) (hy v) v.0 s h)

    completed-Candid :
        (lease : Lease) (mutation : Json)
        → Candid store repo_id (completed store io py repo_id rid op_id operation id lease mutation)
    completed-Candid lease mutation =
        Ends-if (Tells store repo_id) (changes_main operation) _ _
          (locked-Candid lease
            (λ v.
              after_write store io py repo_id rid op_id operation id mutation exit "WAIT"
                (some "MERGED_UNVERIFIED"))
            (λ v.
              after_write store io py repo_id rid op_id operation id mutation action_phase "WAIT"
                (some v.1))
            (λ v. refl) (λ v. refl))
          (search candid_rules depth 20)

    conclude-Candid :
        (lease : Lease) (mutation : Json)
        → Candid store repo_id (conclude store io py repo_id rid op_id operation id lease mutation)
    unfolding conclude
    conclude-Candid lease mutation = search (candid_rules, completed-Candid) depth 20

    gate_merge-Candid :
        (lease : Lease) (item : Fields) (observed : Observation)
        → Candid store repo_id
            (gate_merge store io py repo_id rid op_id operation id lease item observed)
    unfolding gate_merge
    gate_merge-Candid lease item observed = search (candid_rules, conclude-Candid) depth 30

    check_fence-Candid :
        (lease : Lease) (item : Fields) (observed : Observation)
        → Candid store repo_id
            (check_fence store io py repo_id rid op_id operation id lease item observed)
    unfolding check_fence
    check_fence-Candid lease item observed =
        search (candid_rules, conclude-Candid, gate_merge-Candid) depth 30

    revalidated-Candid :
        (lease : Lease) (observed : Observation) (r : Result String Fields)
        → Candid store repo_id
            (revalidated store io py repo_id rid op_id operation id lease observed r)
    revalidated-Candid lease observed (ok item) = check_fence-Candid lease item observed
    revalidated-Candid lease observed (err reason) = search candid_rules

    reconciled-Candid :
        (lease : Lease) (observed : Observation) (r : Result String Fields)
        → Candid store repo_id
            (reconciled store io py repo_id rid op_id operation id lease observed r)
    reconciled-Candid lease observed (ok fresh) = search (candid_rules, revalidated-Candid) depth 20
    reconciled-Candid lease observed (err reason) = search candid_rules

    work-Candid :
        (item : Fields)
        → Candid store repo_id (work store io py repo_id rid op_id operation id item)
    unfolding work
    work-Candid item = search (candid_rules, reconciled-Candid) depth 30

  take-Candid : (o : Option Candidate) → Candid store repo_id (take store io py repo_id rid op_id o)
  take-Candid none = search candid_rules
  take-Candid (some c) = search (candid_rules, work-Candid) depth 20

  run_governed-Candid :
      (derived : RepoMode)
      → Candid store repo_id (run_governed store io py repo_id rid op_id derived)
  run_governed-Candid derived = search (candid_rules, post_merge-Candid, take-Candid) depth 30

  run_once-Candid : Candid store repo_id (run_once store io py repo_id rid op_id)
  unfolding run_once
  run_once-Candid = search (candid_rules, run_governed-Candid) depth 20

  -- When an invocation of `run_once` answers at EXIT that a write of main waits to be verified
  -- (MERGED_UNVERIFIED), the stored mode is MERGE_LOCKED; when it answers that the verification has
  -- found main healthy, broken or its environment broken, it is NORMAL, MAIN_BROKEN or
  -- MAIN_BROKEN_ENV.
  pub run_once-Tells :
      (σ : State S W) (a : RunResult) (m : RepoMode)
      → (run_once store io py repo_id rid op_id σ).1 ≡ ok a
      → mode_told a ≡ some m
      → (store.leases.read_repo_mode (run_once store io py repo_id rid op_id σ).0.store repo_id).0
        ≡ m
  run_once-Tells σ a m h t = (run_once-Candid.ends σ a h).tells m t
