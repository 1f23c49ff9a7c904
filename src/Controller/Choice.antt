-- ===== src/Controller/Choice.antt =====
-- What to do about an item, and which item to take: `_select` and what it asks.
use Prim.Native.String.{◌++◌, compare}
use Prim.Native.Nat.{Ordering}
use one_company.Prelude.{
  ℕ, zero, suc, String, Bool, true, false, ◌&&◌, ◌||◌, List, [], ◌∷◌, Option, none, some, pos,
  negsuc, eqb, ltb, ◌==◌, given, if◌then◌else◌, Result, ok, err, decimal,
}
use one_company.Json.{Json, bool, int, str, Fields, get, put, is_true}
use one_company.Kernel.Types.{
  RepoMode, ItemState, merged_unverified, main_is_broken, ci_red_deterministic, findings_open,
  ci_red_infra, behind_base, ci_green_unreviewed, intent_restraint_failed, intent_restraint_pending,
  merge_eligible, implement, idle, Lease,
}
use one_company.Kernel.Lease.{lease_key, repo_merge_lock_key, is_pending}
use one_company.Kernel.Merge.{classify_item}
use one_company.Ledger.Validate.{mode_text}
use one_company.Controller.Io.{
  Failure, item_id_invalid, trusted_time_invalid, capacity_slot_unknown, capacity_slot_invalid,
  operation_not_allowlisted, ControllerStore, ControllerIo, Imports, M, pure, lift, ◌>>=◌, call,
  reading,
}

-- a == b on modes, which are texts
abbrev pub is_mode : RepoMode → RepoMode → Bool
is_mode a b = mode_text a == mode_text b

pub state_priority : ItemState → ℕ
state_priority merged_unverified = 0
state_priority main_is_broken = 1
state_priority ci_red_deterministic = 2
state_priority findings_open = 3
state_priority ci_red_infra = 4
state_priority behind_base = 5
state_priority ci_green_unreviewed = 6
state_priority intent_restraint_failed = 7
state_priority intent_restraint_pending = 8
state_priority merge_eligible = 9
state_priority implement = 10
state_priority idle = 11
state_priority _ = 100

abbrev pub operation_for : ItemState → Fields → Option String
operation_for ci_red_infra item = some "retry_ci"
operation_for ci_red_deterministic item = some "remediate_review"
operation_for ci_green_unreviewed item = some "dispatch_review"
operation_for findings_open item = some "remediate_review"
operation_for behind_base item = some "update_branch"
operation_for merge_eligible item = some "merge_expected_head"
operation_for idle item =
    if is_true (get item "replenish_candidate") then some "reserve_next_wu" else none
operation_for _ item = none

-- operation in {"merge_expected_head", "revert"}
abbrev pub changes_main : String → Bool
changes_main operation = (operation == "merge_expected_head") || (operation == "revert")

abbrev pub intent_operation : String → Result Failure String
intent_operation operation =
    if operation == "retry_ci"
    then ok "ci_rerun"
    else if operation == "dispatch_review"
    then ok "review_request"
    else if operation == "remediate_review"
    then ok "push"
    else if operation == "update_branch"
    then ok "update_branch"
    else if operation == "merge_expected_head"
    then ok "merge"
    else if operation == "reserve_next_wu"
    then ok "reserve_next_wu"
    else if operation == "revert"
    then ok "revert"
    else err operation_not_allowlisted

abbrev pub capacity_slot_key : String → Json → Result Failure String
capacity_slot_key repo_id (int (pos zero)) = err capacity_slot_invalid
capacity_slot_key repo_id (int (pos (suc n))) =
    let slot = decimal (suc n) in ok (lease_key repo_id "capacity" slot ("CAPACITY_SLOT_" ++ slot))
capacity_slot_key repo_id (int (negsuc n)) = err capacity_slot_invalid
capacity_slot_key repo_id _ = err capacity_slot_unknown

-- d["l5_intent_restraint_required"] = True
abbrev pub restraint_required : Fields → Fields
restraint_required d = put d "l5_intent_restraint_required" (bool true)

module _ (py : Imports) where
  -- str(v)
  abbrev pub text_of : Json → String
  text_of (str s) = s
  text_of v = py.repr v

  abbrev pub item_id : Fields → Result Failure String
  item_id item = elim (get item "item_id") [
    | str s ↦ if s == "" then err item_id_invalid else ok s
    | int n ↦ ok (py.repr (int n))
    | bool b ↦ ok (py.repr (bool b))
    | _ ↦ err item_id_invalid
  ]

  abbrev pub lease_key_for : String → String → String → Fields → Result Failure String
  lease_key_for repo_id id operation item =
      if changes_main operation
      then ok (repo_merge_lock_key repo_id)
      else if operation == "reserve_next_wu"
      then capacity_slot_key repo_id (get item "capacity_slot")
      else ok (lease_key repo_id "item" id (py.upper operation))

-- A lease that is unexpired, or that an unresolved intent keeps.
abbrev pub is_cooling : Option Lease → ℕ → Bool
is_cooling none now = false
is_cooling (some current) now = ltb now current.expires_at || is_pending current.intent

-- An item that something can be done about, with its rank.
pub record Candidate : Type 0 where
  pub priority : ℕ
  pub id : String
  pub item : Fields
  pub state : ItemState

-- (priority, id) of one row before another's, as tuples are compared.
abbrev pub is_before : Candidate → Candidate → Bool
is_before a b =
    ltb a.priority b.priority
    || eqb a.priority b.priority && elim (compare a.id b.id) [ Ordering.lt ↦ true | _ ↦ false ]

-- The first row of `candidates.sort(key=…)`: the first one that no other is before.
unfoldable pub first_of : Candidate → List Candidate → Candidate
first_of best [] = best
first_of best (c ∷ cs) = first_of (if is_before c best then c else best) cs

abbrev pub chosen : List Candidate → Option Candidate
chosen [] = none
chosen (c ∷ cs) = some (first_of c cs)

module _ {S W : Type 0} (io : ControllerIo S W) where
  -- `_trusted_now`
  abbrev pub trusted_now : M S W ℕ
  trusted_now = do now ← call io.trusted_now; lift (given now (err trusted_time_invalid) ok)

module _ {S W : Type 0} (store : ControllerStore S) (io : ControllerIo S W) (py : Imports) where
  -- One turn of the loop of `_select`.
  abbrev pub consider : String → (now : ℕ) → Fields → M S W (Option Candidate)
  consider repo_id now raw =
      let item = restraint_required raw in
      do
        budget ← call (io.budget_for item)
        let state = classify_item py.lower py.repr item budget
        given (operation_for state item) (pure none) λ operation. do
          id ← lift (item_id py item)
          key ← lift (lease_key_for py repo_id id operation item)
          current ← reading (λ s. store.leases.read s key)
          pure (
              if is_cooling current now
              then none
              else some
                  (record { priority = state_priority state; id = id; item = item; state = state }))

  unfoldable pub candidates_of : String → (now : ℕ) → List Fields → M S W (List Candidate)
  candidates_of repo_id now [] = pure []
  candidates_of repo_id now (raw ∷ items) = do
    one ← consider repo_id now raw
    rest ← candidates_of repo_id now items
    pure (given one rest (λ c. c ∷ rest))

  abbrev pub select : String → List Fields → M S W (Option Candidate)
  select repo_id items = do
    now ← trusted_now io
    candidates ← candidates_of repo_id now items
    pure (chosen candidates)
