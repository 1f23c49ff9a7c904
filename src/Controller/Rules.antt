-- ===== src/Controller/Rules.antt =====
-- The steps of a careful stage, each with what the next one may use of it.
use one_company.Prelude.{◌≡◌, refl, ℕ, Option, some, none, given, Result, ok, err}
use one_company.Kernel.Lease
use one_company.Kernel.Lease.{Fence, passed, fence_ok}
use one_company.Controller.Io.{
  Failure, ControllerIo, Write, State, M, Call, ◌>>=◌, bound, call, reading, on_store, on_kernel,
  settled, lift,
}
use one_company.Controller.Choice.{trusted_now}
use one_company.Controller.Permitted.{AtMostOne, unchanged, Careful}

module _ {S W : Type 0} (Q : Write S W → Type 0) {A B : Type 0} where
  pub Careful-call :
      (f : Call S W A) (next : A → M S W B) (σ : State S W)
      → ((a : A) (τ : State S W) → f σ.store σ.world ≡ (a, τ.store, τ.world) → Careful Q (next a) τ)
      → Careful Q (call f >>= next) σ
  unfolding ◌>>=◌ bound call
  Careful-call f next σ later = record {
    made = (later (f σ.store σ.world).0 (call f σ).0 refl).made;
  }

  pub Careful-reading :
      (f : S → A) (next : A → M S W B) (σ : State S W)
      → Careful Q (next (f σ.store)) σ
      → Careful Q (reading f >>= next) σ
  unfolding ◌>>=◌ bound reading
  Careful-reading f next σ later = record { made = later.made }

  pub Careful-on_store :
      (f : S → S × A) (next : A → M S W B) (σ : State S W)
      → ((a : A) (τ : State S W) → f σ.store ≡ (τ.store, a) → Careful Q (next a) τ)
      → Careful Q (on_store f >>= next) σ
  unfolding ◌>>=◌ bound on_store
  Careful-on_store f next σ later = record {
    made = (later (f σ.store).1 (on_store f σ).0 refl).made;
  }

  settled-Careful :
      (next : A → M S W B) (σ : State S W) (r : Result Lease.Error (S × A))
      → ((a : A) (τ : State S W) → r ≡ ok (τ.store, a) → Careful Q (next a) τ)
      → AtMostOne Q σ.performed (bound next (settled σ r)).0.performed
  unfolding bound settled
  settled-Careful next σ (ok (s, a)) later = (later a (record σ { store = s }) refl).made
  settled-Careful next σ (err e) later = unchanged

  pub Careful-on_kernel :
      (f : S → Result Lease.Error (S × A)) (next : A → M S W B) (σ : State S W)
      → ((a : A) (τ : State S W) → f σ.store ≡ ok (τ.store, a) → Careful Q (next a) τ)
      → Careful Q (on_kernel f >>= next) σ
  unfolding ◌>>=◌ on_kernel
  Careful-on_kernel f next σ later = record { made = settled-Careful next σ (f σ.store) later }

  pub Careful-lift :
      (r : Result Failure A) (next : A → M S W B) (σ : State S W)
      → ((a : A) → r ≡ ok a → Careful Q (next a) σ)
      → Careful Q (lift r >>= next) σ
  unfolding ◌>>=◌ bound lift
  Careful-lift (ok a) next σ later = record { made = (later a refl).made }
  Careful-lift (err e) next σ later = record { made = unchanged }

module _ {S W : Type 0} (Q : Write S W → Type 0) (io : ControllerIo S W) {B : Type 0} where
  timed-Careful :
      (next : ℕ → M S W B) (σ : State S W) (r : Option ℕ × S × W)
      → ((now : ℕ) (τ : State S W) → r ≡ (some now, τ.store, τ.world) → Careful Q (next now) τ)
      → AtMostOne Q σ.performed
          (bound next (
            lift
              (given r.0 (err Failure.trusted_time_invalid) ok)
              (record σ { store = r.1; world = r.2 }))).0.performed
  unfolding bound lift
  timed-Careful next σ (some now, s, w) later =
      (later now (record σ { store = s; world = w }) refl).made
  timed-Careful next σ (none, s, w) later = unchanged

  pub Careful-trusted :
      (next : ℕ → M S W B) (σ : State S W)
      → ((now : ℕ) (τ : State S W)
          → io.trusted_now σ.store σ.world ≡ (some now, τ.store, τ.world)
          → Careful Q (next now) τ)
      → Careful Q (trusted_now io >>= next) σ
  unfolding ◌>>=◌ bound call lift
  Careful-trusted next σ later = record {
    made = timed-Careful next σ (io.trusted_now σ.store σ.world) later;
  }
