-- ===== src/Controller/Answers.antt =====
-- What is stored when `run_once` of scripts/l5_controller.py answers that a write of main is to be
-- verified, or has been.
use one_company.Prelude.{
  ℕ, ◌≡◌, refl, ◌∙◌, sym, subst, String, Bool, true, false, ◌&&◌, Option, some, none, given, Result,
  ok, err, ◌==◌, if◌then◌else◌,
}
use one_company.Kernel.Types.{RepoMode, normal, merge_locked, main_broken, main_broken_env}
use one_company.Controller.Io.{
  exit, RunResult, Failure, ControllerStore, State, M, ◌>>=◌, bound, raise, on_store, pure,
}

-- The mode that an answer says the repository is left in.
abbrev told : String → Option String → Option RepoMode
told status none = none
told status (some reason) =
    if status == "WAIT"
    then (if reason == "MERGED_UNVERIFIED"
        then some merge_locked
        else if reason == "MAIN_BROKEN"
        then some main_broken
        else if reason == "MAIN_BROKEN_ENV"
        then some main_broken_env
        else none)
    else if (status == "COMPLETE") && (reason == "POST_MERGE_VERIFIED")
    then some normal
    else none

abbrev pub mode_told : RunResult → Option RepoMode
mode_told a = elim a.phase [ exit ↦ told a.status a.reason | _ ↦ none ]

ok_injective : {A : Type 0} (a b : A) → ◌≡◌ {A = Result Failure A} (ok a) (ok b) → a ≡ b
ok_injective a b h = cc

module _ {S W : Type 0} where
  -- What `m` answers has `R` in the store that it leaves.
  pub record Ends {A : Type 0} (R : A → S → Type 0) (m : M S W A) : Type 0 where
    pub ends : (σ : State S W) (a : A) → (m σ).1 ≡ ok a → R a (m σ).0.store

  module _ {A B : Type 0} (R : B → S → Type 0) where
    bound-ends :
        (next : A → M S W B)
        → ((a : A) → Ends R (next a))
        → (r : State S W × Result Failure A) (b : B) → (bound next r).1 ≡ ok b
        → R b (bound next r).0.store
    unfolding bound
    bound-ends next h (τ, ok a) b e = (h a).ends τ b e
    bound-ends next h (τ, err f) b e = cc

    pub Ends-bind :
        (m : M S W A) (next : A → M S W B) → ((a : A) → Ends R (next a)) → Ends R (m >>= next)
    unfolding ◌>>=◌
    Ends-bind m next h = record { ends = λ σ b e. bound-ends next h (m σ) b e }

    pub Ends-given :
        (o : Option A) (x : M S W B) (f : A → M S W B)
        → Ends R x
        → ((a : A) → o ≡ some a → Ends R (f a))
        → Ends R (given o x f)
    Ends-given none x f hx hf = hx
    Ends-given (some a) x f hx hf = hf a refl

    mapped-ends :
        (f : A → B) (P : A → S → Type 0)
        → ((a : A) (s : S) → P a s → R (f a) s)
        → (r : State S W × Result Failure A) → ((a : A) → r.1 ≡ ok a → P a r.0.store)
        → (b : B) → (bound (λ a. pure (f a)) r).1 ≡ ok b
        → R b (bound (λ a. pure (f a)) r).0.store
    unfolding bound pure
    mapped-ends f P h (τ, ok a) p b e =
        subst (λ x. R x τ.store) (ok_injective _ _ e) (h a τ.store (p a refl))
    mapped-ends f P h (τ, err x) p b e = cc

    -- A stage, and an answer by what it answered.
    pub Ends-map :
        (m : M S W A) (f : A → B) {P : A → S → Type 0}
        → Ends P m
        → ((a : A) (s : S) → P a s → R (f a) s)
        → Ends R (m >>= λ a. pure (f a))
    unfolding ◌>>=◌
    Ends-map m f {P} q h = record { ends = λ σ b e. mapped-ends f P h (m σ) (q.ends σ) b e }

  module _ {A : Type 0} (R : A → S → Type 0) where
    pub Ends-if : (b : Bool) (x y : M S W A) → Ends R x → Ends R y → Ends R (if b then x else y)
    Ends-if true x y hx hy = hx
    Ends-if false x y hx hy = hy

    pub Ends-raise : (e : Failure) → Ends R (raise e)
    unfolding raise
    Ends-raise e = record { ends = λ σ a h. cc }

    pub Ends-pure : (a : A) → ((s : S) → R a s) → Ends R (pure a)
    unfolding pure
    Ends-pure a r = record {
      ends = λ σ b h. subst (λ x. R x σ.store) (ok_injective _ _ h) (r σ.store);
    }

    pub Ends-on_store : (f : S → S × A) → ((s : S) → R (f s).1 (f s).0) → Ends R (on_store f)
    unfolding on_store
    Ends-on_store f r = record {
      ends = λ σ b h. subst (λ x. R x (f σ.store).0) (ok_injective _ _ h) (r σ.store);
    }

some_injective : {m n : RepoMode} → some m ≡ some n → m ≡ n
some_injective h = cc

some-none : (m : RepoMode) → some m ≡ none → ⊥
some-none m h = cc

module _ {S : Type 0} (store : ControllerStore S) (repo_id : String) where
  abbrev pub stored : S → RepoMode
  stored s = (store.leases.read_repo_mode s repo_id).0

  -- The mode that an answer tells is the one that is stored.
  pub record Tells (a : RunResult) (s : S) : Type 0 where
    pub tells : (m : RepoMode) → mode_told a ≡ some m → stored s ≡ m

  pub told_if :
      (mode : RepoMode) (x y : RunResult)
      → mode_told x ≡ some mode
      → mode_told y ≡ none
      → (b : Bool) (s : S) → (b ≡ true → stored s ≡ mode)
      → Tells (if b then x else y) s
  told_if mode x y hx hy true s h = record { tells = λ m e. h refl ∙ some_injective (sym hx ∙ e) }
  told_if mode x y hx hy false s h = record { tells = λ m e. absurd (some-none m (sym e ∙ hy)) }

  module _ {W : Type 0} where
    abbrev pub Candid : M S W RunResult → Type 0
    Candid = Ends Tells

    pub Candid-silent : (a : RunResult) → mode_told a ≡ none → Candid (pure a)
    Candid-silent a e =
        Ends-pure Tells a λ s. record { tells = λ m h. absurd (some-none m (sym h ∙ e)) }

    pub Candid-pure_if :
        (b : Bool) (x y : RunResult)
        → mode_told x ≡ none
        → mode_told y ≡ none
        → Candid (pure (if b then x else y))
    Candid-pure_if true x y hx hy = Candid-silent x hx
    Candid-pure_if false x y hx hy = Candid-silent y hy

    -- The mode's guarded write, and an answer by whether it went through.
    pub Candid-written :
        (version : Option ℕ) (mode : RepoMode) (verified : Bool) (x y : RunResult)
        → mode_told x ≡ some mode
        → mode_told y ≡ none
        → Candid (
            on_store (λ s. store.cas_repo_mode s repo_id version mode verified) >>= λ written.
            pure (if written then x else y))
    Candid-written version mode verified x y hx hy =
        Ends-map Tells (on_store (λ s. store.cas_repo_mode s repo_id version mode verified))
          (λ written. if written then x else y)
          (Ends-on_store (λ b s. b ≡ true → stored s ≡ mode) _
            (λ s. store.mode-cas_repo_mode s repo_id version mode verified))
          (told_if mode x y hx hy)

    pub ruleset candid_rules =
        (Ends-bind, Ends-given, Ends-if, Ends-raise, Candid-silent, Candid-pure_if, Candid-written)
