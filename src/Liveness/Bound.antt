-- ===== src/Liveness/Bound.antt =====
-- What a trace that `check_liveness` accepts is like.
use one_company.Prelude.{
  ℕ, suc, ◌+◌, ◌≤◌, ◌≡◌, ◌⊎◌, ◌∙◌, refl, ap, inl, inr, String, Bool, true, false, not, ◌&&◌, ◌||◌,
  List, [], ◌∷◌, ◌++◌, some, ◌==◌, eq_iff, is_empty, if◌then◌else◌, ok, arith, append-eq-nil,
  eq_refl, subst, Option-cases, Bool-cases, In,
}
use one_company.Json.{Json, Fields, get}
use one_company.Kernel.Restraint.{unless, dedupe}
use one_company.Liveness.{
  status_valid, budget_failures, writes_of, is_quiescent, event_failures, Key, is_key, Stagnation,
  start, is_epoch, key_of, epoch_of, is_bounded, stagnant_after, advance, stagnation_failures,
  failures_from, check_liveness,
}

is_key-eq : (j k : Key) → is_key j k ≡ true → j ≡ k
is_key-eq (a, b) (c, d) h =
    let p = (eq_iff a c).0 (ground arith) in let q = (eq_iff b d).0 (ground arith) in rw (p, q)

is_key_self : (k : Key) → is_key k k ≡ true
is_key_self (a, b) = simp eq_refl

leb_of_unless : (b : Bool) (f : String) → unless b f ≡ [] → b ≡ true
leb_of_unless true f h = refl
leb_of_unless false f h = cc

nil_of_dedupe : (fs : List String) → is_empty (dedupe fs) ≡ true → fs ≡ []
unfolding dedupe
nil_of_dedupe [] h = refl
nil_of_dedupe (f ∷ fs) h = cc

-- The evidence that each event of an accepted trace carries.
pub record IsSound (event : Fields) : Type 0 where
  pub terminal : status_valid (get event "status") ≡ true
  pub in_budget : budget_failures (get event "budget") ≡ []
  pub writes : ℕ
  pub counted : writes_of event ≡ some writes
  pub quiescent : is_quiescent event writes ≡ true

event-IsSound : (event : Fields) → event_failures event ≡ [] → IsSound event
unfolding event_failures
event-IsSound event h =
    let (a, h1) = append-eq-nil (unless (status_valid (get event "status")) _) _ h in
    let (b, d) = append-eq-nil (budget_failures (get event "budget")) _ h1 in
    elim (Option-cases (writes_of event)) [
      | inl e ↦ absurd (ground arith)
      | inr (w, e) ↦ record {
        terminal = leb_of_unless _ _ a;
        in_budget = b;
        writes = w;
        counted = e;
        quiescent = leb_of_unless _ _ (rw e at d);
      }
    ]

module _ (repr : Json → String) (dumps : Json → Json → String) (max : ℕ) where
  -- The events of a key.
  unfoldable pub count_key : Key → List Fields → ℕ
  count_key k [] = 0
  count_key k (event ∷ events) =
      let rest = count_key k events in if is_key (key_of repr dumps event) k then suc rest else rest

  -- The events of the key do not leave the epoch and none has a bounded outcome; those of other
  -- keys are free.
  unfoldable pub stagnates : Key → String → List Fields → Bool
  stagnates k e [] = true
  stagnates k e (event ∷ events) =
      let rest = stagnates k e events in
      (not (is_key (key_of repr dumps event) k)
        || not (is_bounded repr dumps event) && (epoch_of repr dumps event == e))
      && rest

  -- At least `c` events of the epoch are counted for the key.
  Counted : Key → String → ℕ → Stagnation → Type 0
  Counted k e c s = (c ≡ 0) ⊎ (is_epoch (s.last_epoch k) e ≡ true) × (c ≤ s.stagnant k)

  Counted-other :
      (k : Key) (e : String) (c : ℕ) (s : Stagnation) (event : Fields)
      → is_key (key_of repr dumps event) k ≡ false
      → Counted k e c s
      → Counted k e c (advance repr dumps s event)
  unfolding Counted advance
  Counted-other k e c s event n h = rw n h

  -- One more stagnating event of the key.
  Counted-own :
      (c : ℕ) (s : Stagnation) (event : Fields)
      → 1 ≤ max
      → is_bounded repr dumps event ≡ false
      → stagnation_failures repr dumps max s event ≡ []
      → Counted (key_of repr dumps event) (epoch_of repr dumps event) c s
      → Counted
          (key_of repr dumps event)
          (epoch_of repr dumps event)
          (suc c)
          (advance repr dumps s event)
        × (suc c ≤ max)
  unfolding Counted advance stagnation_failures stagnant_after
  Counted-own c s event positive open_ended h counted =
      let self = is_key_self (key_of repr dumps event) in
      let same = eq_refl (epoch_of repr dumps event) in
      elim (Bool-cases
        (is_epoch (s.last_epoch (key_of repr dumps event)) (epoch_of repr dumps event))) [
          | inl e ↦
              let b = leb_of_unless _ _ (rw (open_ended, e) at h) in
              (rw (self, open_ended, e) (inr (same, ground arith)), ground arith)
          | inr e ↦ (rw (self, open_ended, e) (inr (same, ground arith)), ground arith)
        ]

  own_at :
      (k : Key) (e : String) (c : ℕ) (s : Stagnation) (event : Fields)
      → key_of repr dumps event ≡ k
      → epoch_of repr dumps event ≡ e
      → 1 ≤ max
      → is_bounded repr dumps event ≡ false
      → stagnation_failures repr dumps max s event ≡ []
      → Counted k e c s
      → Counted k e (suc c) (advance repr dumps s event) × (suc c ≤ max)
  own_at k e c s event p q positive open_ended h counted =
      subst
        (λ j. Counted j e c s → Counted j e (suc c) (advance repr dumps s event) × (suc c ≤ max)) p
        (subst
          (λ x.
            Counted (key_of repr dumps event) x c s
            → Counted (key_of repr dumps event) x (suc c) (advance repr dumps s event)
              × (suc c ≤ max))
          q (Counted-own c s event positive open_ended h))
        counted

  stretch_bound :
      (k : Key) (e : String) (events : List Fields) (c : ℕ) (s : Stagnation)
      → 1 ≤ max
      → stagnates k e events ≡ true
      → failures_from repr dumps max s events ≡ []
      → Counted k e c s
      → c ≤ max
      → c + count_key k events ≤ max
  unfolding stagnates failures_from count_key
  stretch_bound k e [] c s positive st h counted within = omega arith
  stretch_bound k e (event ∷ events) c s positive st h counted within =
      let (_, h1) = append-eq-nil (event_failures event) _ h in
      let (here, later) = append-eq-nil (stagnation_failures repr dumps max s event) _ h1 in
      let rest : stagnates k e events ≡ true = ground arith in
      elim (Bool-cases (is_key (key_of repr dumps event) k)) [
        | inl own ↦
            let (counted', within') =
              own_at k e c s event (is_key-eq _ _ own) ((eq_iff _ e).0 (ground arith)) positive
                (ground arith) here counted in
            let ih =
              stretch_bound k e events (suc c) (advance repr dumps s event) positive rest later
                counted' within' in
            rw own (omega (arith, ih))
        | inr other ↦ rw other (
            stretch_bound k e events c (advance repr dumps s event) positive rest later
              (Counted-other k e c s event other counted) within)
      ]

  failures_from-front :
      (s : Stagnation) (xs ys : List Fields)
      → failures_from repr dumps max s (xs ++ ys) ≡ []
      → failures_from repr dumps max s xs ≡ []
  unfolding failures_from
  failures_from-front s [] ys h = refl
  failures_from-front s (x ∷ xs) ys h =
      let (own, h1) = append-eq-nil (event_failures x) _ h in
      let (here, later) = append-eq-nil (stagnation_failures repr dumps max s x) _ h1 in
      rw (own, here) (failures_from-front (advance repr dumps s x) xs ys later)

  failures_from-back :
      (s : Stagnation) (xs ys : List Fields)
      → failures_from repr dumps max s (xs ++ ys) ≡ []
      → (s' : Stagnation) × (failures_from repr dumps max s' ys ≡ [])
  unfolding failures_from
  failures_from-back s [] ys h = (s, h)
  failures_from-back s (x ∷ xs) ys h =
      let (_, h1) = append-eq-nil (event_failures x) _ h in
      let (_, later) = append-eq-nil (stagnation_failures repr dumps max s x) _ h1 in
      failures_from-back (advance repr dumps s x) xs ys later

  accepted :
      (events : List Fields) (fs : List String)
      → check_liveness repr dumps events max ≡ ok (true, fs)
      → (1 ≤ max) × (failures_from repr dumps max start events ≡ [])
  unfolding check_liveness
  accepted events fs h = (ground arith, nil_of_dedupe _ (ground arith))

  -- A trace that is accepted holds no long stagnation: among any consecutive events in which an item
  -- stays at one head and base and has no bounded outcome, at most `max` are that item's, whatever
  -- other items do in between.
  pub check_liveness-stagnates :
      (before stretch after : List Fields) (k : Key) (e : String) (fs : List String)
      → check_liveness repr dumps (before ++ (stretch ++ after)) max ≡ ok (true, fs)
      → stagnates k e stretch ≡ true
      → count_key k stretch ≤ max
  unfolding Counted
  check_liveness-stagnates before stretch after k e fs h st =
      let (positive, none_failed) = accepted (before ++ (stretch ++ after)) fs h in
      let (s, later) = failures_from-back start before (stretch ++ after) none_failed in
      let bound =
        stretch_bound k e stretch 0 s positive st (failures_from-front s stretch after later)
          (inl refl) (omega arith) in
      omega (arith, bound)

  each-IsSound :
      (s : Stagnation) (events : List Fields)
      → failures_from repr dumps max s events ≡ []
      → (event : Fields) → In event events
      → IsSound event
  unfolding failures_from
  each-IsSound s [] h event m = elim m [ ]
  each-IsSound s (x ∷ xs) h event (inl e) =
      let (own, _) = append-eq-nil (event_failures x) _ h in
      event-IsSound event (ap event_failures e ∙ own)
  each-IsSound s (x ∷ xs) h event (inr m) =
      let (_, h1) = append-eq-nil (event_failures x) _ h in
      let (_, later) = append-eq-nil (stagnation_failures repr dumps max s x) _ h1 in
      each-IsSound (advance repr dumps s x) xs later event m

  -- Each event of an accepted trace has a terminal status, a whole budget within its limits, a write
  -- count, and, in a stable cycle, no write without an external change.
  pub check_liveness-IsSound :
      (events : List Fields) (fs : List String)
      → check_liveness repr dumps events max ≡ ok (true, fs)
      → (event : Fields) → In event events
      → IsSound event
  check_liveness-IsSound events fs h = each-IsSound start events (accepted events fs h).1
