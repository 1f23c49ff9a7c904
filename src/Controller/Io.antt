-- ===== src/Controller/Io.antt =====
-- What an invocation of scripts/l5_controller.py works on: the store of the kernel, the world behind
-- `ControllerIO`, and what it has raised. Every call of the world may change the world and, since
-- other controllers go on meanwhile, the store.
use one_company.Prelude.{ℕ, ◌≡◌, String, Bool, true, List, ◌∷◌, Option, Result, ok, err}
use one_company.Json.{Json, Fields}
use one_company.Kernel.Types.{RepoMode, Observation, Lease, Budget}
use one_company.Kernel.Store.{CasStore}
use one_company.Kernel.Lease

pub data RunPhase : Type 0 where
  boot halt_check governance_audit repository_mode intent_recovery inventory_phase classify select :
      RunPhase
  acquire_cas_lease reconcile_item write_intent fence_check action_phase post_merge_verify exit :
      RunPhase

pub record RunResult : Type 0 where
  pub run_id : String
  pub phase : RunPhase
  pub status : String
  pub action : Option String
  pub item_id : Option String
  pub reason : Option String
  pub mutation_result : Option Json

-- The ValueErrors, those of the kernel among them, and the AssertionError of `run_once`.
pub data Failure : Type 0 where
  item_id_invalid trusted_time_invalid capacity_slot_unknown capacity_slot_invalid : Failure
  operation_not_allowlisted : Failure
  operation_missing : Failure
  of_kernel : Lease.Error → Failure

-- `CASStore` with the mode's guarded write, which, if it goes through, stores the mode.
pub record ControllerStore (S : Type 0) : Type 0 where
  pub leases : CasStore S
  pub cas_repo_mode : S → String → Option ℕ → RepoMode → (post_merge_verified : Bool) → S × Bool
  pub mode-cas_repo_mode :
      (s : S) (repo : String) (expected : Option ℕ) (mode : RepoMode) (post_merge_verified : Bool)
      → (cas_repo_mode s repo expected mode post_merge_verified).1 ≡ true
      → (leases.read_repo_mode (cas_repo_mode s repo expected mode post_merge_verified).0 repo).0
        ≡ mode

-- The world's answer and what it leaves.
abbrev pub Call : Type 0 → Type 0 → Type 0 → Type 0
Call S W A = S → W → A × S × W

-- The trusted time is in whole ticks, or none for what is no finite number.
pub record ControllerIo (S W : Type 0) : Type 0 where
  pub repo_snapshot : Call S W Fields
  pub pending_intent_leases : Call S W (List Lease)
  pub detect_intent_effect : Lease → Call S W String
  pub inventory : Call S W (List Fields)
  pub refresh_item : Fields → Call S W Fields
  pub budget_for : Fields → Call S W Budget
  pub observe_item : Fields → Call S W Observation
  pub trusted_now : Call S W (Option ℕ)
  pub post_merge_health : Fields → Call S W String
  pub execute_guarded : String → Fields → Lease → Call S W Json

-- What the scripts import: str.lower, str.upper, str on values that are no texts, and the digest of
-- an operation.
pub record Imports : Type 0 where
  pub lower : String → String
  pub upper : String → String
  pub repr : Json → String
  pub idem_key : String → String → String → String → String → String

-- A call of `execute_guarded`, with the store and the world that it is made in.
pub record Write (S W : Type 0) : Type 0 where
  pub operation : String
  pub item : Fields
  pub lease : Lease
  pub store : S
  pub world : W

-- The store, the world, and the calls of `execute_guarded`, the last one first.
pub record State (S W : Type 0) : Type 0 where
  pub store : S
  pub world : W
  pub performed : List (Write S W)

-- What was written stays written when the code raises.
abbrev pub M : Type 0 → Type 0 → Type 0 → Type 0
M S W A = State S W → State S W × Result Failure A

module _ {S W : Type 0} where
  unfoldable pub pure : {A : Type 0} → A → M S W A
  pure a s = (s, ok a)

  unfoldable pub raise : {A : Type 0} → Failure → M S W A
  raise e s = (s, err e)

  unfoldable pub lift : {A : Type 0} → Result Failure A → M S W A
  lift r s = (s, r)

  unfoldable pub bound :
      {A B : Type 0} → (A → M S W B) → State S W × Result Failure A → State S W × Result Failure B
  bound next (s, ok a) = next a s
  bound next (s, err e) = (s, err e)

  infixl 5 ◌>>=◌ ◌>>◌
  unfoldable pub ◌>>=◌ : {A B : Type 0} → M S W A → (A → M S W B) → M S W B
  (m >>= next) s = bound next (m s)

  abbrev pub ◌>>◌ : {A B : Type 0} → M S W A → M S W B → M S W B
  m >> next = m >>= λ _. next

  -- A call of the world.
  unfoldable pub call : {A : Type 0} → Call S W A → M S W A
  call f s =
      let (a, store, world) = f s.store s.world in (record s { store = store; world = world }, ok a)

  -- A reading, and an operation, of the store.
  unfoldable pub reading : {A : Type 0} → (S → A) → M S W A
  reading f s = (s, ok (f s.store))

  unfoldable pub on_store : {A : Type 0} → (S → S × A) → M S W A
  on_store f s = let (store, a) = f s.store in (record s { store = store }, ok a)

  -- An operation of the kernel that may raise.
  unfoldable pub settled :
      {A : Type 0} → State S W → Result Lease.Error (S × A) → State S W × Result Failure A
  settled s (ok (store, a)) = (record s { store = store }, ok a)
  settled s (err e) = (s, err (of_kernel e))

  unfoldable pub on_kernel : {A : Type 0} → (S → Result Lease.Error (S × A)) → M S W A
  on_kernel f s = settled s (f s.store)

  -- The call of `execute_guarded`.
  unfoldable pub perform : ControllerIo S W → String → Fields → Lease → M S W Json
  perform io operation item lease s =
      let (a, store, world) = io.execute_guarded operation item lease s.store s.world in
      let w : Write S W = record {
        operation = operation;
        item = item;
        lease = lease;
        store = s.store;
        world = s.world;
      } in
      (record { store = store; world = world; performed = w ∷ s.performed }, ok a)
