-- ===== src/Kernel/Lease/Steps.antt =====
-- What one lease operation may do to the stored leases, over any store.
use mathlib.Core.Logic.{if_pos, if_neg}
use one_company.Prelude.{
  ℕ, ◌+◌, ◌≤◌, ◌≡◌, refl, ap, subst, ◌∙◌, ◌⊎◌, inl, inr, String, Bool, true, false, not, ◌&&◌,
  Option, none, some, leb, ◌==◌, eq_iff, if◌then◌else◌, ok, arith, Bool-cases, Option-cases,
}
use one_company.Kernel.Types.{
  Observation, Intent, IntentState, pending, done, aborted, verified, Lease, released,
  Lease-discrete,
}
use one_company.Kernel.Store.{CasStore, version_of}
use one_company.Kernel.Lease.{
  is_pending, is_done, next_lease, swap, is_held, acquire, if_current, renew, attach_intent,
  with_intent_state, resolve_as, verify_intent, release,
}

-- The intent of `n` is that of `o`, with a state that a pending intent may take.
pub data Resolution : IntentState → Type 0 where
  stays : Resolution pending
  applied : Resolution done
  dropped : Resolution aborted

-- An unresolved intent keeps its lease's epoch and holder, and is itself kept but for its state.
pub record KeepsIntent (o n : Lease) : Type 0 where
  pub epoch : n.epoch ≡ o.epoch
  pub holder : n.holder ≡ o.holder
  pub state : IntentState
  pub resolution : Resolution state
  pub intent : n.intent ≡ (with_intent_state o state).intent

-- The record `n` may follow `o` under a key: the version goes up by one, the epoch never down, and
-- within an epoch the holder stays.
pub record Follows (o n : Lease) : Type 0 where
  pub version : n.version ≡ o.version + 1
  pub epoch : o.epoch ≤ n.epoch
  pub holder : n.epoch ≡ o.epoch → n.holder ≡ o.holder
  pub keeps : is_pending o.intent ≡ true → KeepsIntent o n

abbrev pub Later : Option Lease → Option Lease → Type 0
Later none none = ⊥
Later none (some n) = (n.version ≡ 1) × (n.epoch ≡ 1)
Later (some o) none = ⊥
Later (some o) (some n) = Follows o n

abbrev pub Moves : Option Lease → Option Lease → Type 0
Moves o n = (n ≡ o) ⊎ Later o n

module _ (lease : Lease) where
  Follows-renewed :
      (t : ℕ) → Follows lease (record lease { expires_at = t; version = lease.version + 1 })
  Follows-renewed t = record {
    version = refl;
    epoch = omega arith;
    holder = λ _. refl;
    keeps = λ p. record {
      epoch = refl;
      holder = refl;
      state = pending;
      resolution = stays;
      intent = ground arith;
    };
  }

  Follows-attached :
      (i : Intent)
      → is_pending lease.intent ≡ false
      → Follows lease (record lease { intent = some i; version = lease.version + 1 })
  Follows-attached i free = record {
    version = refl;
    epoch = omega arith;
    holder = λ _. refl;
    keeps = λ p. cc;
  }

  Follows-released :
      (t : ℕ)
      → is_pending lease.intent ≡ false
      → Follows lease
          (record lease { expires_at = t; version = lease.version + 1; state = released })
  Follows-released t free = record {
    version = refl;
    epoch = omega arith;
    holder = λ _. refl;
    keeps = λ p. cc;
  }

  Follows-resolved : (st : IntentState) → Resolution st → Follows lease (with_intent_state lease st)
  Follows-resolved st r = record {
    version = refl;
    epoch = omega arith;
    holder = λ _. refl;
    keeps = λ p. record { epoch = refl; holder = refl; state = st; resolution = r; intent = refl };
  }

  Follows-verified :
      not (is_done lease.intent) ≡ false → Follows lease (with_intent_state lease verified)
  Follows-verified d = record {
    version = refl;
    epoch = omega arith;
    holder = λ _. refl;
    keeps = λ p. absurd (ground arith);
  }

module _ {S : Type 0} (store : CasStore S) where
  open store use {read, cas, read-cas, cas_iff}

  swap-Moves :
      (s : S) (k j : String) (v : Option ℕ) (l : Lease)
      → Later (read s k) (some l)
      → Moves (read s j) (read (swap store s k v l).0 j)
  unfolding swap
  swap-Moves s k j v l later = elim (Bool-cases ((cas s k v l).1 && (k == j))) [
    | inl e ↦
        let at_j = (eq_iff k j).0 (ground arith) in inr (rw (read-cas s k j v l, e, ← at_j) later)
    | inr e ↦ inl (rw (read-cas s k j v l, e))
  ]

  -- The result `r` of an operation on `s` leaves each key as it was, or moves it on.
  pub record Moving (s : S) (r : S × Option Lease) : Type 0 where
    pub each : (j : String) → Moves (read s j) (read r.0 j)

  pub Moving-none : (s : S) → Moving s (s, none)
  Moving-none s = record { each = λ j. inl refl }

  Moving-swap :
      (s : S) (k : String) (v : Option ℕ) (l : Lease)
      → Later (read s k) (some l)
      → Moving s (swap store s k v l)
  Moving-swap s k v l later = record { each = λ j. swap-Moves s k j v l later }

  -- The second branch may use that the test failed.
  Moving-if :
      (s : S) (b : Bool) (x y : S × Option Lease)
      → Moving s x
      → (b ≡ false → Moving s y)
      → Moving s (if b then x else y)
  Moving-if s true x y mx my = mx
  Moving-if s false x y mx my = my refl

  -- Inside `if_current` the given lease is the stored one.
  Moving-current :
      (s : S) (lease : Lease) (rest : Lease → S × Option Lease)
      → (read s lease.key ≡ some lease → Moving s (rest lease))
      → Moving s (if_current store s lease rest)
  Moving-current s lease rest h = elim (Option-cases (read s lease.key)) [
    | inl e ↦ rw e (Moving-none s)
    | inr (cur, e) ↦ elim (Lease-discrete cur lease) [
      | yes p ↦ rw (e, if_pos _ p, p) (h (e ∙ ap some p))
      | no n ↦ rw (e, if_neg _ n) (Moving-none s)
    ]
  ]

  swap_current :
      (s : S) (lease n : Lease) (v : Option ℕ)
      → read s lease.key ≡ some lease
      → Follows lease n
      → Moving s (swap store s lease.key v n)
  swap_current s lease n v e follows = Moving-swap s lease.key v n (rw e follows)

  ruleset moving_rules = (Moving-none, Moving-if, Moving-current, swap_current)

  pub renew-Moving : (s : S) (lease : Lease) (now ttl : ℕ) → Moving s (renew store s lease now ttl)
  unfolding renew
  renew-Moving s lease now ttl = search (moving_rules, Follows-renewed) depth 12

  pub attach-Moving :
      (idem_key : String → String → String → String → String → String) (s : S) (lease : Lease)
      (repo_id item operation op_id : String) (now : ℕ)
      → Moving s (attach_intent store idem_key s lease repo_id item operation op_id now)
  unfolding attach_intent
  attach-Moving idem_key s lease repo_id item operation op_id now =
      search (moving_rules, Follows-attached) depth 12

  pub resolve_as-Moving :
      (s : S) (lease : Lease) (st : IntentState)
      → Resolution st
      → Moving s (resolve_as store s lease st)
  resolve_as-Moving s lease st r = search (moving_rules, Follows-resolved) depth 12

  pub verify-Moving : (s : S) (lease : Lease) → Moving s (verify_intent store s lease)
  unfolding verify_intent
  verify-Moving s lease = search (moving_rules, Follows-verified) depth 12

  pub release-Moving : (s : S) (lease : Lease) (now : ℕ) → Moving s (release store s lease now)
  unfolding release
  release-Moving s lease now = search (moving_rules, Follows-released) depth 12

  Later-next :
      (cur : Option Lease) (key holder : String) (observed : Observation) (now ttl : ℕ)
      → is_held cur now ≡ false
      → Later cur (some (next_lease cur key holder observed now ttl))
  Later-next none key holder observed now ttl free = (refl, refl)
  Later-next (some c) key holder observed now ttl free = record {
    version = refl;
    epoch = omega arith;
    holder = λ p. absurd (omega arith);
    keeps = λ p. absurd (ground arith);
  }

  pub acquire-Moving :
      (s : S) (key holder : String) (observed : Observation) (now ttl : ℕ) (r : S × Option Lease)
      → acquire store s key holder observed now ttl ≡ ok r
      → Moving s r
  unfolding acquire
  acquire-Moving s key holder observed now ttl r h = elim (Bool-cases (leb ttl 0)) [
    | inl e ↦ absurd (ground arith)
    | inr e ↦ subst (Moving s) (ground arith) won
  ]
    where
      won : Moving s (
          if is_held (read s key) now
          then (s, none)
          else swap store s key
              (version_of (read s key))
              (next_lease (read s key) key holder observed now ttl))
      won =
          Moving-if s _ _ _ (Moving-none s)
            λ free. Moving-swap s key _ _ (Later-next (read s key) key holder observed now ttl free)
