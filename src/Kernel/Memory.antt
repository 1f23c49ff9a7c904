-- ===== src/Kernel/Memory.antt =====
-- `MemoryCASStore` of scripts/l5_kernel.py: it meets the laws of a store, and it guards the exits
-- from protected modes.
use mathlib.Core.Logic.{ite}
use one_company.Prelude.{
  ℕ, ◌+◌, ◌≡◌, refl, String, Bool, true, false, not, ◌&&◌, List, [], ◌∷◌, Option, none, some, ◌==◌,
  eq_iff, eq_refl, all, ◌∙◌, given, if◌then◌else◌, arith,
}
use one_company.Kernel.Types.{
  RepoMode, merge_locked, automation_degraded, is_human_clear_only, Lease,
}
use one_company.Kernel.Store.{CasStore, version_of, same_version}

pub record MemoryCasStore : Type 0 where
  pub leases : String → Option Lease
  pub modes : String → Option (RepoMode × ℕ)

-- d[k] = v
abbrev pub update {ℓ} : {A : Type ℓ} → (String → Option A) → String → A → String → Option A
update d k v j = if k == j then some v else d j

abbrev pub init : MemoryCasStore
init = record { leases = λ k. none; modes = λ r. none }

unfoldable pub read : MemoryCasStore → String → Option Lease
read s key = s.leases key

unfoldable pub cas : MemoryCasStore → String → Option ℕ → Lease → MemoryCasStore × Bool
cas s key expected value =
    if same_version (version_of (s.leases key)) expected
    then (record s { leases = update s.leases key value }, true)
    else (s, false)

-- A mode that is missing is degraded, never NORMAL.
unfoldable pub read_repo_mode : MemoryCasStore → String → RepoMode × Option ℕ
read_repo_mode s repo = given (s.modes repo) (automation_degraded, none) λ (m, v). (m, some v)

unfoldable pub RepoMode-discrete : Discrete RepoMode
RepoMode-discrete = hlevel

abbrev is_locked : RepoMode → Bool
is_locked merge_locked = true
is_locked _ = false

abbrev pub mode_version : Option (RepoMode × ℕ) → Option ℕ
mode_version none = none
mode_version (some (m, v)) = some v

abbrev pub mode_of : Option (RepoMode × ℕ) → RepoMode
mode_of none = automation_degraded
mode_of (some (m, v)) = m

abbrev next_version : Option (RepoMode × ℕ) → ℕ
next_version none = 1
next_version (some (m, v)) = v + 1

unfoldable pub cas_repo_mode :
    MemoryCasStore
    → String
    → Option ℕ
    → RepoMode
    → (human_clear post_merge_verified : Bool) → MemoryCasStore × Bool
unfolding RepoMode-discrete
cas_repo_mode s repo expected mode human_clear post_merge_verified =
    let cur = s.modes repo in
    let old_mode = mode_of cur in
    let changes = ite (RepoMode-discrete old_mode mode) false true in
    if not (same_version (mode_version cur) expected)
    then (s, false)
    else if is_human_clear_only old_mode && changes && not human_clear
    then (s, false)
    else if is_locked old_mode && changes && not post_merge_verified
    then (s, false)
    else (record s { modes = update s.modes repo (mode, next_version cur) }, true)

pub cas_iff :
    (s : MemoryCasStore) (k : String) (expected : Option ℕ) (l : Lease)
    → (cas s k expected l).1 ≡ same_version (version_of (read s k)) expected
unfolding cas read
cas_iff s k expected l = ground arith

pub read-cas :
    (s : MemoryCasStore) (k j : String) (expected : Option ℕ) (l : Lease)
    → read (cas s k expected l).0 j
      ≡ (if (cas s k expected l).1 && (k == j) then some l else read s j)
unfolding cas read
read-cas s k j expected l = ground arith

pub mode-cas :
    (s : MemoryCasStore) (k repo : String) (expected : Option ℕ) (l : Lease)
    → read_repo_mode (cas s k expected l).0 repo ≡ read_repo_mode s repo
unfolding cas read_repo_mode
mode-cas s k repo expected l = ground arith

-- A write of the mode that goes through stores it.
pub mode-cas_repo_mode :
    (s : MemoryCasStore) (repo : String) (expected : Option ℕ) (mode : RepoMode)
    (human_clear post_merge_verified : Bool)
    → (cas_repo_mode s repo expected mode human_clear post_merge_verified).1 ≡ true
    → (read_repo_mode (cas_repo_mode s repo expected mode human_clear post_merge_verified).0 repo).0
      ≡ mode
unfolding cas_repo_mode read_repo_mode
mode-cas_repo_mode s repo expected mode human_clear post_merge_verified h =
    ground (arith, eq_refl repo)

-- The store of the self-tests is a store.
abbrev pub memory_store : CasStore MemoryCasStore
memory_store = record {
  read = read;
  cas = cas;
  read_repo_mode = read_repo_mode;
  cas_iff = cas_iff;
  read-cas = read-cas;
  mode-cas = mode-cas;
}

-- One call of `cas_repo_mode`.
pub record ModeCall : Type 0 where
  pub repo : String
  pub expected : Option ℕ
  pub mode : RepoMode
  pub human_clear : Bool
  pub post_merge_verified : Bool

unfoldable pub run_modes : MemoryCasStore → List ModeCall → MemoryCasStore
run_modes s [] = s
run_modes s (c ∷ cs) =
    run_modes (cas_repo_mode s c.repo c.expected c.mode c.human_clear c.post_merge_verified).0 cs

abbrev pub stored_mode : MemoryCasStore → String → RepoMode
stored_mode s repo = (read_repo_mode s repo).0

mode_step :
    (s : MemoryCasStore) (c : ModeCall) (repo : String)
    → c.human_clear ≡ false
    → is_human_clear_only (stored_mode s repo) ≡ true
    → stored_mode
        (cas_repo_mode s c.repo c.expected c.mode c.human_clear c.post_merge_verified).0
        repo
      ≡ stored_mode s repo
unfolding cas_repo_mode read_repo_mode
mode_step s c repo unclear protected = ground (arith, eq_iff c.repo repo)

-- No sequence of mode writes leaves a mode that only a human clears, unless one of the writes
-- carries that clearance: whatever versions, modes and verifications they bring.
pub run_modes-human_clear_only :
    (s : MemoryCasStore) (calls : List ModeCall) (repo : String)
    → all (λ c. not c.human_clear) calls ≡ true
    → is_human_clear_only (stored_mode s repo) ≡ true
    → stored_mode (run_modes s calls) repo ≡ stored_mode s repo
unfolding run_modes all
run_modes-human_clear_only s [] repo none_clear protected = refl
run_modes-human_clear_only s (c ∷ cs) repo none_clear protected =
    let kept = mode_step s c repo (ground arith) protected in
    run_modes-human_clear_only
      (cas_repo_mode s c.repo c.expected c.mode c.human_clear c.post_merge_verified).0 cs repo
      (ground arith) (rw kept protected)
    ∙ kept
