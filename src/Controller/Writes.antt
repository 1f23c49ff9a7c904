-- ===== src/Controller/Writes.antt =====
-- The write of `run_once` of scripts/l5_controller.py, stage by stage.
use mathlib.Core.Logic.{if_neg}
use one_company.Prelude.{
  ◌≡◌, refl, sym, ap, ◌∙◌, subst, String, true, false, not, ◌||◌, ◌==◌, arith,
}
use one_company.Json.{bool, str, Fields, get, put, get-put}
use one_company.Kernel.Types.{RepoMode, normal, Observation, Observation-discrete, Lease}
use one_company.Kernel.Lease.{Fence, passed}
use one_company.Kernel.Governance.{governance_mode}
use one_company.Kernel.Merge.{merge_ok_v11}
use one_company.Kernel.Merge.Gate.{merge_ok_iff}
use one_company.Kernel.Merge.Eligible.{base_of_v11}
use one_company.Ledger.Validate.{mode_text}
use one_company.Controller.Io.{
  ControllerStore, ControllerIo, Imports, Write, State, ◌>>=◌, bound, perform,
}
use one_company.Controller.Choice.{is_mode, restraint_required}
use one_company.Controller.Evidence.{is_passed, same_observation, owned}
use one_company.Controller.Run.{abort_blocked, act, last_gate}
use one_company.Controller.Careful.{quiet_rules}
use one_company.Controller.Quiet.{conclude-NoWrites, abort-NoWrites}
use one_company.Controller.Permitted.{
  AtMostOne, one_more, Fenced, Permitted, gated, Careful, Careful-quiet, Careful-if,
}
use one_company.Controller.Rules.{Careful-call, Careful-reading}

pub is_passed-eq : (f : Fence) → is_passed f ≡ true → f ≡ passed
is_passed-eq passed h = refl
is_passed-eq _ h = cc

is_mode-normal : (m : RepoMode) → is_mode m normal ≡ true → m ≡ normal
is_mode-normal normal h = refl
is_mode-normal _ h = cc

pub same_observation-eq : (a b : Observation) → same_observation a b ≡ true → a ≡ b
same_observation-eq a b h = elim (Observation-discrete a b) [
  | yes p ↦ p
  | no n ↦ absurd (ground (arith, rw (if_neg (Observation-discrete a b) n) at h))
]

text_mode : (m : RepoMode) → mode_text m ≡ "NORMAL" → m ≡ normal
text_mode m h = is_mode-normal m (ap (λ t. t == "NORMAL") h)

str_injective : (s t : String) → str s ≡ str t → s ≡ t
str_injective s t h = cc

put_mode :
    (item : Fields) (mode : RepoMode) → get (owned item mode) "repo_mode" ≡ str (mode_text mode)
put_mode item mode =
    get-put
      (put (put (put item "merge_lock_owned" (bool true)) "fence_ok" (bool true))
        "unresolved_other_intent" (bool false))
      "repo_mode" "repo_mode" (str (mode_text mode))

module _ {S W : Type 0} (store : ControllerStore S) (io : ControllerIo S W) (py : Imports)
    (repo_id rid op_id operation id : String) where
  abbrev Allowed : Write S W → Type 0
  Allowed = Permitted store io py repo_id

  pub act-Careful :
      (lease : Lease) (item : Fields) (σ : State S W)
      → Allowed (record {
        operation = operation;
        item = item;
        lease = lease;
        store = σ.store;
        world = σ.world;
      })
      → Careful Allowed (act store io py repo_id rid op_id operation id lease item) σ
  unfolding ◌>>=◌ bound perform
  act-Careful lease item σ p =
      let (answer, s, w) = io.execute_guarded operation item lease σ.store σ.world in
      record {
        made =
            subst (AtMostOne Allowed σ.performed)
              (sym (
                (conclude-NoWrites store io py repo_id rid op_id operation id lease answer).kept _))
              (one_more p);
      }

  pub abort_blocked-Careful :
      (lease : Lease) (reason : String) (σ : State S W)
      → Careful Allowed (abort_blocked store io py repo_id rid op_id operation id lease reason) σ
  abort_blocked-Careful lease reason σ =
      Careful-quiet Allowed _ σ (search (quiet_rules, abort-NoWrites))

  -- The gate asks for a NORMAL repository mode, which the runtime has put in.
  gate_mode :
      (item : Fields) (mode : RepoMode)
      → (merge_ok_v11 py.lower py.repr (owned item mode)).0 ≡ true
      → mode ≡ normal
  gate_mode item mode h =
      let g =
        (merge_ok_iff py.lower py.repr (owned item mode)).0
          (base_of_v11 py.lower py.repr (owned item mode) (owned item mode) h) in
      text_mode mode (str_injective _ _ (sym (put_mode item mode) ∙ g.mode))

  pub last_gate-Careful :
      (lease : Lease) (before raw : Fields) (s0 s1 : S) (w0 w1 : W) (σ : State S W)
      → (operation == "merge_expected_head") ≡ true
      → Fenced store io py repo_id lease before s0 w0
      → io.refresh_item before s0 w0 ≡ (raw, s1, w1)
      → io.observe_item (restraint_required raw) s1 w1 ≡ (lease.observed, σ.store, σ.world)
      → Careful Allowed
          (last_gate store io py repo_id rid op_id operation id lease (restraint_required raw))
          σ
  last_gate-Careful lease before raw s0 s1 w0 w1 σ merging fence refreshing observing =
      Careful-call Allowed io.repo_snapshot _ σ λ repo τ asking.
        Careful-reading Allowed (λ s. store.leases.read_repo_mode s repo_id) _ τ
          (Careful-if Allowed _ _ _ τ
            (λ refused. abort_blocked-Careful lease "MERGE_OK_FALSE_FINAL" τ)
            λ fine.
              let mode = (store.leases.read_repo_mode τ.store repo_id).0 in
              let final = owned (restraint_required raw) mode in
              let is_fine : (not (is_mode (governance_mode repo) normal)
                    || not (merge_ok_v11 py.lower py.repr final).0)
                  ≡ false =
                fine in
              let passes : (merge_ok_v11 py.lower py.repr final).0 ≡ true = ground arith in
              let is_normal : mode ≡ normal = gate_mode (restraint_required raw) mode passes in
              act-Careful lease final τ (
                gated merging (record {
                  before = before;
                  s0 = s0;
                  w0 = w0;
                  s1 = s1;
                  w1 = w1;
                  s2 = σ.store;
                  w2 = σ.world;
                  raw = raw;
                  repo = repo;
                  fence = fence;
                  refreshing = refreshing;
                  observing = observing;
                  asking = asking;
                  governed = is_mode-normal (governance_mode repo) (ground arith);
                  mode = is_normal;
                  written = ap (owned (restraint_required raw)) is_normal;
                  gate = passes;
                })))
