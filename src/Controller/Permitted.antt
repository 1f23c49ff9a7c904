-- ===== src/Controller/Permitted.antt =====
-- What must have been seen when `run_once` calls `execute_guarded`, and the rules for what a stage
-- may do to the writes.
use one_company.Prelude.{
  ◌≡◌, refl, sym, subst, ℕ, ◌+◌, String, Bool, true, false, List, ◌∷◌, Option, some, none, given,
  Result, ok, err, ◌==◌, if◌then◌else◌,
}
use one_company.Json.{Fields}
use one_company.Kernel.Types.{normal, Lease}
use one_company.Kernel.Lease.FencePassed.{Guarded}
use one_company.Kernel.Governance.{governance_mode}
use one_company.Kernel.Merge.{merge_ok_v11}
use one_company.Controller.Io.{
  Failure, ControllerStore, ControllerIo, Imports, Write, State, M, ◌>>=◌, bound,
}
use one_company.Controller.Choice.{restraint_required}
use one_company.Controller.Evidence.{max_write_latency, skew_margin, owned}
use one_company.Controller.Careful.{NoWrites}

-- The list after a stage, by the one before.
pub data AtMostOne {A : Type 0} (Q : A → Type 0) (before : List A) : List A → Type 0 where
  unchanged : AtMostOne Q before before
  one_more : {a : A} → Q a → AtMostOne Q before (a ∷ before)

module _ {S W : Type 0} (store : ControllerStore S) (io : ControllerIo S W) (py : Imports)
    (repo_id : String) where
  -- The world's last two answers before the store `s` and the world `w`: the item is still as its
  -- lease recorded it, and the time is well before the lease's end; and there the lease is stored,
  -- live, of the intent's epoch, and the repository NORMAL.
  pub record Fenced (lease : Lease) (item : Fields) (s : S) (w : W) : Type 0 where
    pub s0 : S
    pub w0 : W
    pub s1 : S
    pub w1 : W
    pub now : ℕ
    pub observing : io.observe_item item s0 w0 ≡ (lease.observed, s1, w1)
    pub telling : io.trusted_now s1 w1 ≡ (some now, s, w)
    pub guarded :
        Guarded store.leases s repo_id lease lease.observed (now + max_write_latency + skew_margin)
    pub mode : (store.leases.read_repo_mode s repo_id).0 ≡ normal

  -- The world's last three answers after a fence that passed: the item, read again, is as its lease
  -- recorded it and the repository is governed NORMAL; and there the stored mode is NORMAL and
  -- `item`, that item with the runtime's fields, passes the merge gate.
  pub record Gated (lease : Lease) (item : Fields) (s : S) (w : W) : Type 0 where
    pub before : Fields
    pub s0 : S
    pub w0 : W
    pub s1 : S
    pub w1 : W
    pub s2 : S
    pub w2 : W
    pub raw : Fields
    pub repo : Fields
    pub fence : Fenced lease before s0 w0
    pub refreshing : io.refresh_item before s0 w0 ≡ (raw, s1, w1)
    pub observing : io.observe_item (restraint_required raw) s1 w1 ≡ (lease.observed, s2, w2)
    pub asking : io.repo_snapshot s2 w2 ≡ (repo, s, w)
    pub governed : governance_mode repo ≡ normal
    pub mode : (store.leases.read_repo_mode s repo_id).0 ≡ normal
    pub written : item ≡ owned (restraint_required raw) normal
    pub gate : (merge_ok_v11 py.lower py.repr item).0 ≡ true

  pub data Permitted (w : Write S W) : Type 0 where
    plainly :
        (w.operation == "merge_expected_head") ≡ false
        → Fenced w.lease w.item w.store w.world
        → Permitted w
    gated :
        (w.operation == "merge_expected_head") ≡ true
        → Gated w.lease w.item w.store w.world
        → Permitted w

module _ {S W : Type 0} (Q : Write S W → Type 0) where
  -- A stage that makes at most one write, and only one that has `Q`.
  pub record Careful {A : Type 0} (m : M S W A) (σ : State S W) : Type 0 where
    pub made : AtMostOne Q σ.performed (m σ).0.performed

  module _ {A : Type 0} where
    pub Careful-quiet : (m : M S W A) (σ : State S W) → NoWrites m → Careful m σ
    Careful-quiet m σ q = record {
      made = subst (AtMostOne Q σ.performed) (sym (q.kept σ)) unchanged;
    }

    -- Each branch may use how the test came out.
    pub Careful-if :
        (b : Bool) (x y : M S W A) (σ : State S W)
        → (b ≡ true → Careful x σ)
        → (b ≡ false → Careful y σ)
        → Careful (if b then x else y) σ
    Careful-if true x y σ hx hy = hx refl
    Careful-if false x y σ hx hy = hy refl

    pub Careful-given :
        {B : Type 0} (o : Option B) (x : M S W A) (f : B → M S W A) (σ : State S W)
        → Careful x σ
        → ((b : B) → o ≡ some b → Careful (f b) σ)
        → Careful (given o x f) σ
    Careful-given none x f σ hx hf = hx
    Careful-given (some b) x f σ hx hf = hf b refl

  module _ {A B : Type 0} where
    bound-Careful :
        (next : A → M S W B) (σ : State S W) (r : State S W × Result Failure A)
        → r.0.performed ≡ σ.performed
        → ((a : A) → r.1 ≡ ok a → Careful (next a) r.0)
        → AtMostOne Q σ.performed (bound next r).0.performed
    unfolding bound
    bound-Careful next σ (τ, ok a) kept later =
        subst (λ ws. AtMostOne Q ws (next a τ).0.performed) kept (later a refl).made
    bound-Careful next σ (τ, err e) kept later =
        subst (AtMostOne Q σ.performed) (sym kept) unchanged

    -- A stage that makes no write, and then a careful one, which may use how the first one ended.
    pub Careful-bind :
        (m : M S W A) (next : A → M S W B) (σ : State S W)
        → NoWrites m
        → ((a : A) → (m σ).1 ≡ ok a → Careful (next a) (m σ).0)
        → Careful (m >>= next) σ
    unfolding ◌>>=◌
    Careful-bind m next σ q later = record { made = bound-Careful next σ (m σ) (q.kept σ) later }
