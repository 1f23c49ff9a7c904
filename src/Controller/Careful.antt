-- ===== src/Controller/Careful.antt =====
-- The stages of an invocation that make no write.
use one_company.Prelude.{
  ◌≡◌, refl, ◌∙◌, Bool, true, false, Option, some, none, given, if◌then◌else◌, Result, ok, err,
}
use one_company.Kernel.Lease
use one_company.Controller.Io.{
  Failure, ControllerIo, State, M, pure, lift, raise, ◌>>=◌, bound, Call, call, reading, on_store,
  on_kernel, settled,
}
use one_company.Controller.Choice.{trusted_now}

module _ {S W : Type 0} where
  -- However it ends, `m` leaves the calls of `execute_guarded` as they were.
  pub record NoWrites {A : Type 0} (m : M S W A) : Type 0 where
    pub kept : (σ : State S W) → (m σ).0.performed ≡ σ.performed

  module _ {A B : Type 0} where
    bound-kept :
        (next : A → M S W B)
        → ((a : A) → NoWrites (next a))
        → (r : State S W × Result Failure A) → (bound next r).0.performed ≡ r.0.performed
    unfolding bound
    bound-kept next h (τ, ok a) = (h a).kept τ
    bound-kept next h (τ, err e) = refl

    pub NoWrites-bind :
        (m : M S W A) (next : A → M S W B)
        → NoWrites m
        → ((a : A) → NoWrites (next a))
        → NoWrites (m >>= next)
    unfolding ◌>>=◌
    NoWrites-bind m next q later = record { kept = λ σ. bound-kept next later (m σ) ∙ q.kept σ }

    pub NoWrites-given :
        (o : Option B) (x : M S W A) (f : B → M S W A)
        → NoWrites x
        → ((b : B) → NoWrites (f b))
        → NoWrites (given o x f)
    NoWrites-given none x f hx hf = hx
    NoWrites-given (some b) x f hx hf = hf b

  module _ {A : Type 0} where
    pub NoWrites-if :
        (b : Bool) (x y : M S W A) → NoWrites x → NoWrites y → NoWrites (if b then x else y)
    NoWrites-if true x y hx hy = hx
    NoWrites-if false x y hx hy = hy

    pub NoWrites-pure : (a : A) → NoWrites (pure a)
    unfolding pure
    NoWrites-pure a = record { kept = λ σ. refl }

    pub NoWrites-raise : (e : Failure) → NoWrites (raise {A = A} e)
    unfolding raise
    NoWrites-raise e = record { kept = λ σ. refl }

    pub NoWrites-lift : (r : Result Failure A) → NoWrites (lift r)
    unfolding lift
    NoWrites-lift r = record { kept = λ σ. refl }

    pub NoWrites-call : (f : Call S W A) → NoWrites (call f)
    unfolding call
    NoWrites-call f = record { kept = λ σ. refl }

    pub NoWrites-reading : (f : S → A) → NoWrites (reading f)
    unfolding reading
    NoWrites-reading f = record { kept = λ σ. refl }

    pub NoWrites-on_store : (f : S → S × A) → NoWrites (on_store f)
    unfolding on_store
    NoWrites-on_store f = record { kept = λ σ. refl }

    settled-kept :
        (σ : State S W) (r : Result Lease.Error (S × A)) → (settled σ r).0.performed ≡ σ.performed
    unfolding settled
    settled-kept σ (ok (s, a)) = refl
    settled-kept σ (err e) = refl

    pub NoWrites-on_kernel : (f : S → Result Lease.Error (S × A)) → NoWrites (on_kernel f)
    unfolding on_kernel
    NoWrites-on_kernel f = record { kept = λ σ. settled-kept σ (f σ.store) }

  pub NoWrites-trusted_now : (io : ControllerIo S W) → NoWrites (trusted_now io)
  NoWrites-trusted_now io = search (NoWrites-bind, NoWrites-call, NoWrites-lift)

pub ruleset quiet_rules = (
  NoWrites-bind, NoWrites-given, NoWrites-if, NoWrites-pure, NoWrites-raise, NoWrites-lift,
  NoWrites-call, NoWrites-reading, NoWrites-on_store, NoWrites-on_kernel, NoWrites-trusted_now,
)
