-- ===== src/Kernel/Store.antt =====
-- scripts/l5_kernel.py: the store that the kernel asks for, `CASStore`, as operations with laws.
use one_company.Prelude.{
  ℕ, ◌≡◌, String, Bool, true, false, ◌&&◌, Option, none, some, eqb, ◌==◌, if◌then◌else◌,
}
use one_company.Kernel.Types.{RepoMode, Lease}

abbrev pub version_of : Option Lease → Option ℕ
version_of none = none
version_of (some l) = some l.version

-- actual == expected
abbrev pub same_version : Option ℕ → Option ℕ → Bool
same_version none none = true
same_version (some m) (some n) = eqb m n
same_version _ _ = false

-- Reads and guarded writes of leases, and the repository's mode. The laws: a write goes through
-- just if the expected version is the stored one; it then changes its own key and nothing else,
-- and a refused write changes nothing.
pub record CasStore (S : Type 0) : Type 0 where
  pub read : S → String → Option Lease
  pub cas : S → String → Option ℕ → Lease → S × Bool
  pub read_repo_mode : S → String → RepoMode × Option ℕ
  pub cas_iff :
      (s : S) (k : String) (expected : Option ℕ) (l : Lease)
      → (cas s k expected l).1 ≡ same_version (version_of (read s k)) expected
  pub read-cas :
      (s : S) (k j : String) (expected : Option ℕ) (l : Lease)
      → read (cas s k expected l).0 j
        ≡ (if (cas s k expected l).1 && (k == j) then some l else read s j)
  pub mode-cas :
      (s : S) (k repo : String) (expected : Option ℕ) (l : Lease)
      → read_repo_mode (cas s k expected l).0 repo ≡ read_repo_mode s repo
