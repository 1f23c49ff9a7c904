-- ===== src/Kernel/Lease/FencePassed.antt =====
-- What the fence of an effect asks, apart from its code.
use mathlib.Core.Logic.{if_pos}
use one_company.Prelude.{
  ℕ, ◌+◌, ◌<◌, ◌≡◌, ◌↔◌, refl, ap, ◌∙◌, ◌⊎◌, inl, inr, String, true, false, Option, none, some, leb,
  eq_iff, given, arith,
}
use one_company.Kernel.Types.{
  RepoMode, normal, main_broken, Observation, Observation-discrete, Intent, pending, Lease, active,
  Lease-discrete, is_allowlisted,
}
use one_company.Kernel.Store.{CasStore}
use one_company.Kernel.Lease.{passed, intent_fence, current_fence, mode_fence, fence_ok}

leb_of_lt : (a b : ℕ) → a < b → leb b a ≡ false
leb_of_lt a b h = ground arith

given-some :
    {A B : Type 0} (o : Option A) (a : A) (x : B) (f : A → B) {b : B}
    → o ≡ some a
    → f a ≡ b
    → given o x f ≡ b
given-some o a x f e h = rw e h

module _ {S : Type 0} (store : CasStore S) where
  open store use {read, read_repo_mode}

  -- What the fence checks, apart from its code.
  pub record Guarded (s : S) (repo_id : String) (lease : Lease) (observed_now : Observation)
      (deadline : ℕ) : Type 0 where
    pub intent : Intent
    pub current : read s lease.key ≡ some lease
    pub live : lease.state ≡ active
    pub in_time : deadline < lease.expires_at
    pub unchanged : lease.observed ≡ observed_now
    pub attached : lease.intent ≡ some intent
    pub unresolved : intent.state ≡ pending
    pub same_epoch : intent.epoch ≡ lease.epoch
    pub known : is_allowlisted intent.operation ≡ true
    pub mode :
        ((read_repo_mode s repo_id).0 ≡ normal)
        ⊎ ((read_repo_mode s repo_id).0 ≡ main_broken) × (intent.operation ≡ "revert")

  mode_fence-eq :
      (m : RepoMode) (op : String)
      → mode_fence m op ≡ passed
      → (m ≡ normal) ⊎ (m ≡ main_broken) × (op ≡ "revert")
  mode_fence-eq normal op h = inl refl
  mode_fence-eq main_broken op h = inr (refl, ground (arith, eq_iff op "revert"))
  mode_fence-eq _ op h = cc

  mode_passes :
      (m : RepoMode) (op : String)
      → (m ≡ normal) ⊎ (m ≡ main_broken) × (op ≡ "revert")
      → mode_fence m op ≡ passed
  mode_passes m op h = ground (arith, eq_iff op "revert")

  intent_of_fence :
      (s : S) (repo_id : String) (cur : Lease) (i : Option Intent)
      → intent_fence store s repo_id cur i ≡ passed
      → (j : Intent) × (i ≡ some j)
        × (j.state ≡ pending)
        × (j.epoch ≡ cur.epoch)
        × (is_allowlisted j.operation ≡ true)
        × (mode_fence (read_repo_mode s repo_id).0 j.operation ≡ passed)
  intent_of_fence s repo_id cur none h = cc
  intent_of_fence s repo_id cur (some i) h =
      (i, refl, ground arith, ground arith, ground arith, ground arith)

  current_of_fence :
      (s : S) (repo_id : String) (lease : Lease) (observed_now : Observation) (now latency skew : ℕ)
      → fence_ok store s repo_id lease observed_now now latency skew ≡ passed
      → (read s lease.key ≡ some lease)
        × (current_fence store s repo_id observed_now (now + latency + skew) lease ≡ passed)
  unfolding fence_ok
  current_of_fence s repo_id lease observed_now now latency skew h = ground arith

  parts_of_fence :
      (s : S) (repo_id : String) (lease : Lease) (observed_now : Observation) (deadline : ℕ)
      → current_fence store s repo_id observed_now deadline lease ≡ passed
      → (lease.state ≡ active)
        × (deadline < lease.expires_at)
        × (lease.observed ≡ observed_now)
        × (intent_fence store s repo_id lease lease.intent ≡ passed)
  parts_of_fence s repo_id lease observed_now deadline h =
      elim (Observation-discrete lease.observed observed_now) [
        | yes p ↦ (ground arith, ground arith, p, ground arith)
        | no n ↦ absurd (ground arith)
      ]

  Guarded-of_fence :
      (s : S) (repo_id : String) (lease : Lease) (observed_now : Observation) (now latency skew : ℕ)
      → fence_ok store s repo_id lease observed_now now latency skew ≡ passed
      → Guarded s repo_id lease observed_now (now + latency + skew)
  Guarded-of_fence s repo_id lease observed_now now latency skew h =
      let (current, rest) = current_of_fence s repo_id lease observed_now now latency skew h in
      let (live, in_time, unchanged, intent_ok) =
        parts_of_fence s repo_id lease observed_now _ rest in
      let (i, attached, unresolved, same_epoch, known, mode_ok) =
        intent_of_fence s repo_id lease lease.intent intent_ok in
      record {
        intent = i;
        current = current;
        live = live;
        in_time = in_time;
        unchanged = unchanged;
        attached = attached;
        unresolved = unresolved;
        same_epoch = same_epoch;
        known = known;
        mode = mode_fence-eq _ i.operation mode_ok;
      }

  fence_parts :
      (s : S) (repo_id : String) (lease : Lease) (observed_now : Observation) (deadline : ℕ)
      → lease.state ≡ active
      → leb lease.expires_at deadline ≡ false
      → lease.observed ≡ observed_now
      → intent_fence store s repo_id lease lease.intent ≡ passed
      → current_fence store s repo_id observed_now deadline lease ≡ passed
  fence_parts s repo_id lease observed_now deadline live late same h = ground arith

  intent_passes :
      (s : S) (repo_id : String) (lease : Lease) (i : Intent)
      → lease.intent ≡ some i
      → i.state ≡ pending
      → i.epoch ≡ lease.epoch
      → is_allowlisted i.operation ≡ true
      → mode_fence (read_repo_mode s repo_id).0 i.operation ≡ passed
      → intent_fence store s repo_id lease (some i) ≡ passed
  intent_passes s repo_id lease i attached unresolved same_epoch known mode = ground arith

  fence_of_Guarded :
      (s : S) (repo_id : String) (lease : Lease) (observed_now : Observation) (now latency skew : ℕ)
      → Guarded s repo_id lease observed_now (now + latency + skew)
      → fence_ok store s repo_id lease observed_now now latency skew ≡ passed
  unfolding fence_ok
  fence_of_Guarded s repo_id lease observed_now now latency skew g =
      let intent_ok =
        intent_passes s repo_id lease g.intent g.attached g.unresolved g.same_epoch g.known
          (mode_passes _ g.intent.operation g.mode) in
      let late = leb_of_lt (now + latency + skew) lease.expires_at g.in_time in
      given-some (read s lease.key) lease _ _ g.current (
        if_pos (Lease-discrete lease lease) refl _ _
        ∙ fence_parts s repo_id lease observed_now (now + latency + skew) g.live late g.unchanged
            (ap (intent_fence store s repo_id lease) g.attached ∙ intent_ok))

  -- The fence passes exactly for the stored, active lease that outlives the deadline, on the
  -- observation that it was taken for, with an unresolved intent of its own epoch and of a known
  -- operation, while the repository is NORMAL, or MAIN_BROKEN and the operation a revert.
  pub fence_ok-passed_iff :
      (s : S) (repo_id : String) (lease : Lease) (observed_now : Observation) (now latency skew : ℕ)
      → (fence_ok store s repo_id lease observed_now now latency skew ≡ passed)
        ↔ Guarded s repo_id lease observed_now (now + latency + skew)
  fence_ok-passed_iff s repo_id lease observed_now now latency skew = (
    Guarded-of_fence s repo_id lease observed_now now latency skew,
    fence_of_Guarded s repo_id lease observed_now now latency skew,
  )
