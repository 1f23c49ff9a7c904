-- ===== src/Kernel/Lease/Attached.antt =====
-- What the lease of an operation of the kernel records, when the operation gives one.
use mathlib.Core.Logic.{if_pos, if_neg}
use one_company.Prelude.{
  ℕ, ◌≡◌, refl, ap, subst, inl, inr, String, Bool, true, false, Option, some, none, given,
  if◌then◌else◌, Result, ok, Bool-cases, Option-cases, leb, arith,
}
use one_company.Kernel.Types.{Observation, Intent, Lease, Lease-discrete}
use one_company.Kernel.Store.{CasStore, version_of}
use one_company.Kernel.Lease
use one_company.Kernel.Lease.{swap, is_held, next_lease, acquire, if_current, attach_intent}

module _ {S : Type 0} (store : CasStore S) (P : Lease → Type 0) where
  open store use {read, cas}

  -- The lease that is given, if there is one, has `P`.
  record Gives (r : S × Option Lease) : Type 0 where
    gives : (l : Lease) → r.1 ≡ some l → P l

  Gives-none : (s : S) → Gives (s, none)
  Gives-none s = record { gives = λ l h. cc }

  some_if : (b : Bool) (l m : Lease) → (if b then some l else none) ≡ some m → l ≡ m
  some_if true l m h = cc
  some_if false l m h = cc

  Gives-swap : (s : S) (k : String) (v : Option ℕ) (l : Lease) → P l → Gives (swap store s k v l)
  unfolding swap
  Gives-swap s k v l p = record { gives = λ m h. subst P (some_if (cas s k v l).1 l m h) p }

  Gives-if : (b : Bool) (x y : S × Option Lease) → Gives x → Gives y → Gives (if b then x else y)
  Gives-if true x y mx my = mx
  Gives-if false x y mx my = my

  Gives-current :
      (s : S) (lease : Lease) (rest : Lease → S × Option Lease)
      → ((cur : Lease) → cur ≡ lease → Gives (rest cur))
      → Gives (if_current store s lease rest)
  Gives-current s lease rest h = elim (Option-cases (read s lease.key)) [
    | inl e ↦ rw e (Gives-none s)
    | inr (cur, e) ↦ elim (Lease-discrete cur lease) [
      | yes p ↦ rw (e, if_pos _ p) (h cur p)
      | no n ↦ rw (e, if_neg _ n) (Gives-none s)
    ]
  ]

  ruleset gives_rules = (Gives-none, Gives-swap, Gives-if, Gives-current)

module _ {S : Type 0} (store : CasStore S) where
  open store use {read}

  taken :
      (P : Lease → Type 0) (s' : S) (l : Lease) (r : S × Option Lease)
      → Gives store P r
      → ◌≡◌ {A = Result Lease.Error (S × Option Lease)} (ok r) (ok (s', some l))
      → P l
  taken P s' l r g e = g.gives l cc

  -- `acquire` records the observation that it is given.
  pub acquire-observed :
      (s : S) (key holder : String) (observed : Observation) (now ttl : ℕ) (s' : S) (l : Lease)
      → acquire store s key holder observed now ttl ≡ ok (s', some l)
      → l.observed ≡ observed
  unfolding acquire
  acquire-observed s key holder observed now ttl s' l h = elim (Bool-cases (leb ttl 0)) [
    | inl e ↦ absurd (ground (arith, e, h))
    | inr e ↦
        taken (λ m. m.observed ≡ observed) s' l
          (let cur = read s key in
            if is_held cur now
            then (s, none)
            else swap store s key (version_of cur) (next_lease cur key holder observed now ttl))
          (search gives_rules) (rw e at h)
  ]

  -- The intent that `attach_intent` records is the operation's, under the lease's observation.
  pub record Attached (lease : Lease) (operation : String) (l : Lease) : Type 0 where
    pub observed : l.observed ≡ lease.observed
    pub made_for : given l.intent "" (λ i. i.operation) ≡ operation

  Attached-next :
      (lease cur : Lease) (i : Intent) (v : ℕ)
      → cur ≡ lease
      → Attached lease i.operation (record cur { intent = some i; version = v })
  Attached-next lease cur i v e = record { observed = ap (λ c. c.observed) e; made_for = refl }

  attach-Gives :
      (idem_key : String → String → String → String → String → String) (s : S) (lease : Lease)
      (repo_id item operation op_id : String) (now : ℕ)
      → Gives store
          (Attached lease operation)
          (attach_intent store idem_key s lease repo_id item operation op_id now)
  unfolding attach_intent
  attach-Gives idem_key s lease repo_id item operation op_id now =
      search (gives_rules, Attached-next) depth 12

  pub attach_intent-Attached :
      (idem_key : String → String → String → String → String → String) (s : S) (lease : Lease)
      (repo_id item operation op_id : String) (now : ℕ) (l : Lease)
      → (attach_intent store idem_key s lease repo_id item operation op_id now).1 ≡ some l
      → Attached lease operation l
  attach_intent-Attached idem_key s lease repo_id item operation op_id now l h =
      (attach-Gives idem_key s lease repo_id item operation op_id now).gives l h
