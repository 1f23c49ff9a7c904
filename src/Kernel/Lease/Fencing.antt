-- ===== src/Kernel/Lease/Fencing.antt =====
-- Histories of lease operations: what the fence lets through, and what an unresolved intent keeps.
use one_company.Prelude.{
  ℕ, ◌≤◌, ◌<◌, ◌≡◌, ◌≢◌, refl, sym, ap, subst, ◌∙◌, ◌⊎◌, inl, inr, String, true, List, [], ◌∷◌,
  Option, none, some, ◌==◌, Result, ok, err, arith, Bool-cases,
}
use one_company.Kernel.Types.{Observation, done, aborted, Lease}
use one_company.Kernel.Store.{CasStore}
use one_company.Kernel.Lease.{
  Error, is_pending, acquire, renew, attach_intent, resolve_intent, verify_intent, release, passed,
  fence_ok,
}
use one_company.Kernel.Lease.Steps.{
  KeepsIntent, Moves, Moving, applied, dropped, renew-Moving, attach-Moving, resolve_as-Moving,
  verify-Moving, release-Moving, acquire-Moving, Moving-none,
}

-- A call of one operation, by any party, with whatever lease that party holds.
pub data Op : Type 0 where
  acquires : (key holder : String) → Observation → (now ttl : ℕ) → Op
  renews : Lease → (now ttl : ℕ) → Op
  attaches : Lease → (repo_id item operation op_id : String) → ℕ → Op
  resolves : Lease → String → Op
  verifies : Lease → Op
  releases : Lease → ℕ → Op

-- `n` is `o`, or a later record: its version is higher, its epoch no lower, and within one epoch
-- the holder is the same.
pub record Grown (o n : Lease) : Type 0 where
  pub same_or_later : (n ≡ o) ⊎ (o.version < n.version)
  pub epoch : o.epoch ≤ n.epoch
  pub holder : n.epoch ≡ o.epoch → n.holder ≡ o.holder

some_inj : (m n : Lease) → some m ≡ some n → m ≡ n
some_inj m n h = cc

Grown-to :
    (o m n : Lease)
    → m ≡ n
    → Grown o m
    → (o.epoch ≤ n.epoch) × (n.epoch ≡ o.epoch → n.holder ≡ o.holder)
Grown-to o m n e g =
    subst (λ l. (o.epoch ≤ l.epoch) × (l.epoch ≡ o.epoch → l.holder ≡ o.holder)) e
      (g.epoch, g.holder)

later_trans :
    (a b c : Lease)
    → (b ≡ a) ⊎ (a.version < b.version)
    → (c ≡ b) ⊎ (b.version < c.version)
    → (c ≡ a) ⊎ (a.version < c.version)
later_trans a b c (inl p) (inl q) = inl (q ∙ p)
later_trans a b c (inl p) (inr q) = inr (ground arith)
later_trans a b c (inr p) (inl q) = inr (ground arith)
later_trans a b c (inr p) (inr q) = inr (omega arith)

Grown-trans : (a b c : Lease) → Grown a b → Grown b c → Grown a c
Grown-trans a b c g h = record {
  same_or_later = later_trans a b c g.same_or_later h.same_or_later;
  epoch = omega (arith, g.epoch, h.epoch);
  holder =
      λ e. h.holder (omega (arith, g.epoch, h.epoch)) ∙ g.holder (omega (arith, g.epoch, h.epoch));
}

Grown-once :
    (o : Lease) (m : Option Lease) → Moves (some o) m → (n : Lease) × (m ≡ some n) × Grown o n
Grown-once o m (inl e) =
    (o, e, record { same_or_later = inl refl; epoch = omega arith; holder = λ _. refl })
Grown-once o (some n) (inr f) = (
  n,
  refl,
  record { same_or_later = inr (omega (arith, f.version)); epoch = f.epoch; holder = f.holder },
)
Grown-once o none (inr f) = elim f [ ]

keeps_once :
    (o : Lease) (m : Option Lease)
    → is_pending o.intent ≡ true
    → Moves (some o) m
    → (n : Lease) × (m ≡ some n) × ((n ≡ o) ⊎ KeepsIntent o n)
keeps_once o m p (inl e) = (o, e, inl refl)
keeps_once o (some n) p (inr f) = (n, refl, inr (f.keeps p))
keeps_once o none p (inr f) = elim f [ ]

module _ {S : Type 0} (store : CasStore S)
    (idem_key : String → String → String → String → String → String) where
  open store use {read}

  -- A call that raises leaves the store as it was.
  abbrev pub settle : S → Result Error (S × Option Lease) → S × Option Lease
  settle s (ok r) = r
  settle s (err e) = (s, none)

  unfoldable pub perform : S → Op → S × Option Lease
  perform s (acquires key holder observed now ttl) =
      settle s (acquire store s key holder observed now ttl)
  perform s (renews lease now ttl) = renew store s lease now ttl
  perform s (attaches lease repo_id item operation op_id now) =
      attach_intent store idem_key s lease repo_id item operation op_id now
  perform s (resolves lease state) = settle s (resolve_intent store s lease state)
  perform s (verifies lease) = verify_intent store s lease
  perform s (releases lease now) = release store s lease now

  unfoldable pub run : S → List Op → S
  run s [] = s
  run s (op ∷ ops) = run (perform s op).0 ops

  settle-Moving :
      (s : S) (m : Result Error (S × Option Lease))
      → ((r : S × Option Lease) → m ≡ ok r → Moving store s r)
      → Moving store s (settle s m)
  settle-Moving s (ok r) h = h r refl
  settle-Moving s (err e) h = Moving-none store s

  resolve-Moving :
      (s : S) (lease : Lease) (state : String)
      → Moving store s (settle s (resolve_intent store s lease state))
  unfolding resolve_intent
  resolve-Moving s lease state = elim (Bool-cases (state == "DONE")) [
    | inl e ↦ rw e (resolve_as-Moving store s lease done applied)
    | inr e ↦ elim (Bool-cases (state == "ABORTED")) [
      | inl f ↦ rw (e, f) (resolve_as-Moving store s lease aborted dropped)
      | inr f ↦ rw (e, f) (Moving-none store s)
    ]
  ]

  perform-Moving : (s : S) (op : Op) → Moving store s (perform s op)
  unfolding perform
  perform-Moving s (acquires key holder observed now ttl) =
      settle-Moving s _ (acquire-Moving store s key holder observed now ttl)
  perform-Moving s (renews lease now ttl) = renew-Moving store s lease now ttl
  perform-Moving s (attaches lease repo_id item operation op_id now) =
      attach-Moving store idem_key s lease repo_id item operation op_id now
  perform-Moving s (resolves lease state) = resolve-Moving s lease state
  perform-Moving s (verifies lease) = verify-Moving store s lease
  perform-Moving s (releases lease now) = release-Moving store s lease now

  -- While an intent is unresolved, no call of any party loses it: the record stays as it is, or it
  -- keeps its epoch and holder, and the intent all but its state, which may become DONE or ABORTED.
  pub perform-KeepsIntent :
      (s : S) (op : Op) (j : String) (o : Lease)
      → read s j ≡ some o
      → is_pending o.intent ≡ true
      → (n : Lease) × (read (perform s op).0 j ≡ some n) × ((n ≡ o) ⊎ KeepsIntent o n)
  perform-KeepsIntent s op j o e p = keeps_once o _ p (rw e at ((perform-Moving s op).each j))

  -- Over any calls, a stored record is replaced only by later ones.
  pub run-Grown :
      (s : S) (ops : List Op) (j : String) (o : Lease)
      → read s j ≡ some o
      → (n : Lease) × (read (run s ops) j ≡ some n) × Grown o n
  unfolding run
  run-Grown s [] j o e =
      (o, e, record { same_or_later = inl refl; epoch = omega arith; holder = λ _. refl })
  run-Grown s (op ∷ ops) j o e =
      let (m, e', g) = Grown-once o _ (rw e at ((perform-Moving s op).each j)) in
      let (n, e'', h) = run-Grown (perform s op).0 ops j m e' in (n, e'', Grown-trans o m n g h)

  fenced_current :
      (s : S) (repo_id : String) (o : Lease) (observed : Observation) (now latency skew : ℕ)
      → fence_ok store s repo_id o observed now latency skew ≡ passed
      → read s o.key ≡ some o
  unfolding fence_ok
  fenced_current s repo_id o observed now latency skew h = ground arith

  -- A lease that another record has overtaken under its key never passes the fence again, whatever
  -- is called after: no old holder writes with a stale lease.
  pub fence_ok-superseded :
      (s : S) (ops : List Op) (repo_id : String) (o n : Lease) (observed : Observation)
      (now latency skew : ℕ)
      → read s o.key ≡ some n
      → o.version < n.version
      → fence_ok store (run s ops) repo_id o observed now latency skew ≢ passed
  fence_ok-superseded s ops repo_id o n observed now latency skew e newer h =
      let (m, e', g) = run-Grown s ops o.key n e in
      let current = fenced_current (run s ops) repo_id o observed now latency skew h in
      stale o m n newer (some_inj _ _ (sym e' ∙ current)) g.same_or_later
    where
      stale :
          (o m n : Lease) → o.version < n.version → m ≡ o → (m ≡ n) ⊎ (n.version < m.version) → ⊥
      stale o m n newer same (inl p) = ground arith
      stale o m n newer same (inr p) = ground arith

  -- Two leases on one key that pass the fence, the second after any calls: the second has an epoch
  -- no lower, and in the same epoch it has the same holder.
  pub fence_ok-one_holder :
      (s : S) (ops : List Op) (repo : String) (o n : Lease) (seen seen' : Observation)
      (now now' latency skew : ℕ)
      → n.key ≡ o.key
      → fence_ok store s repo o seen now latency skew ≡ passed
      → fence_ok store (run s ops) repo n seen' now' latency skew ≡ passed
      → (o.epoch ≤ n.epoch) × (n.epoch ≡ o.epoch → n.holder ≡ o.holder)
  fence_ok-one_holder s ops repo o n seen seen' now now' latency skew key first second =
      let (m, e, g) =
        run-Grown s ops o.key o (fenced_current s repo o seen now latency skew first) in
      let current = fenced_current (run s ops) repo n seen' now' latency skew second in
      let same : m ≡ n = some_inj m n (sym e ∙ ap (read (run s ops)) (sym key) ∙ current) in
      Grown-to o m n same g
