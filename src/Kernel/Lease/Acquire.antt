-- ===== src/Kernel/Lease/Acquire.antt =====
-- `acquire` on each of its branches, apart from its code.
use one_company.Prelude.{
  ℕ, ◌+◌, ◌<◌, ◌≤◌, ◌≡◌, ◌≢◌, refl, ◌∙◌, ◌⊎◌, inl, inr, String, true, false, Option, none, some,
  eq_iff, eq_refl, given, ok, arith, Bool-cases, Option-cases,
}
use one_company.Kernel.Types.{Observation, Intent, pending, Lease, active}
use one_company.Kernel.Store.{CasStore, version_of, same_version}
use one_company.Kernel.Lease.{is_pending, is_held, next_lease, swap, acquire}

same_version_self : (v : Option ℕ) → same_version v v ≡ true
same_version_self none = refl
same_version_self (some n) = ground arith

-- A lease from its acquisition on, one up from the number of the lease before.
pub record Granted (key holder : String) (observed : Observation) (now ttl epoch version : ℕ)
    (l : Lease) : Type 0 where
  pub for_key : l.key ≡ key
  pub for_holder : l.holder ≡ holder
  pub on : l.observed ≡ observed
  pub since : l.acquired_at ≡ now
  pub until : l.expires_at ≡ now + ttl
  pub live : l.state ≡ active
  pub unused : l.intent ≡ none
  pub epoch_up : l.epoch ≡ epoch + 1
  pub version_up : l.version ≡ version + 1

module _ {S : Type 0} (store : CasStore S) where
  open store use {read, cas, cas_iff, read-cas}

  -- A key that cannot be taken: its lease is unexpired, or has an unresolved intent.
  pub record Kept (s : S) (key : String) (now : ℕ) : Type 0 where
    pub held : Lease
    pub stored : read s key ≡ some held
    pub why :
        (now < held.expires_at) ⊎ ((i : Intent) × (held.intent ≡ some i) × (i.state ≡ pending))

  -- A key that can be taken: without a lease, or with one that is expired and has no unresolved
  -- intent.
  pub record Lapsed (s : S) (key : String) (now : ℕ) (held : Lease) : Type 0 where
    pub stored : read s key ≡ some held
    pub expired : held.expires_at ≤ now
    pub resolved : (i : Intent) → held.intent ≡ some i → i.state ≢ pending

  -- What a store may hold at a key, with the epoch and the version that the next lease follows.
  pub data Free (s : S) (key : String) (now : ℕ) : (epoch version : ℕ) → Type 0 where
    fresh : read s key ≡ none → Free s key now 0 0
    lapsed : (held : Lease) → Lapsed s key now held → Free s key now held.epoch held.version

  Kept-of_held : (s : S) (key : String) (now : ℕ) → is_held (read s key) now ≡ true → Kept s key now
  Kept-of_held s key now h = elim (Option-cases (read s key)) [
    | inl e ↦ absurd (ground (arith, e))
    | inr (c, e) ↦ elim (Bool-cases (is_pending c.intent)) [
      | inl p ↦ elim (Option-cases c.intent) [
        | inl f ↦ absurd (ground arith)
        | inr (i, f) ↦ record { held = c; stored = e; why = inr (i, f, ground arith) }
      ]
      | inr n ↦ record { held = c; stored = e; why = inl (ground arith) }
    ]
  ]

  Granted-next :
      (s : S) (key holder : String) (observed : Observation) (now ttl : ℕ)
      → Granted key holder observed now ttl
          (given (read s key) 0 (λ c. c.epoch))
          (given (read s key) 0 (λ c. c.version))
          (next_lease (read s key) key holder observed now ttl)
  Granted-next s key holder observed now ttl = record {
    for_key = refl;
    for_holder = refl;
    on = refl;
    since = refl;
    until = refl;
    live = refl;
    unused = refl;
    epoch_up = elim (Option-cases (read s key)) [ inl e ↦ rw e refl | inr (c, e) ↦ rw e refl ];
    version_up = elim (Option-cases (read s key)) [ inl e ↦ rw e refl | inr (c, e) ↦ rw e refl ];
  }

  Free-of_unheld :
      (s : S) (key : String) (now : ℕ)
      → is_held (read s key) now ≡ false
      → Free s key now (given (read s key) 0 (λ c. c.epoch)) (given (read s key) 0 (λ c. c.version))
  Free-of_unheld s key now h = elim (Option-cases (read s key)) [
    | inl e ↦ rw e (fresh e)
    | inr (c, e) ↦ rw e (
        lapsed c (record {
          stored = e;
          expired = ground arith;
          resolved = λ i f p. absurd (ground arith);
        }))
  ]

  -- With a positive ttl, `acquire` gives no lease and leaves the store, on a key whose lease is
  -- unexpired or has an unresolved intent; or else, on a key without a lease or with one that is
  -- expired and has no unresolved intent, it stores and returns a lease: of the key, the holder and
  -- the observation, active from now for the ttl, with no intent, its epoch and version one up from
  -- those before, or 1. No other key changes then.
  pub acquire_lem :
      (s : S) (key holder : String) (observed : Observation) (now ttl : ℕ)
      → 0 < ttl
      → Kept s key now × (acquire store s key holder observed now ttl ≡ ok (s, none))
        ⊎ ((epoch version : ℕ) × (l : Lease) × (s' : S) × Free s key now epoch version
            × Granted key holder observed now ttl epoch version l
            × (acquire store s key holder observed now ttl ≡ ok (s', some l))
            × (read s' key ≡ some l)
            × ((j : String) → j ≢ key → read s' j ≡ read s j))
  unfolding acquire swap
  acquire_lem s key holder observed now ttl pos = elim (Bool-cases (is_held (read s key) now)) [
    | inl held ↦ inl (Kept-of_held s key now held, ground arith)
    | inr free ↦
        let l = next_lease (read s key) key holder observed now ttl in
        let v = version_of (read s key) in
        let won : (cas s key v l).1 ≡ true = cas_iff s key v l ∙ same_version_self v in
        inr (
          given (read s key) 0 (λ c. c.epoch),
          given (read s key) 0 (λ c. c.version),
          l,
          (cas s key v l).0,
          Free-of_unheld s key now free,
          Granted-next s key holder observed now ttl,
          ground arith,
          ground (arith, read-cas s key key v l, eq_refl key),
          (λ j other. ground (arith, read-cas s key j v l, eq_iff key j)),
        )
  ]
