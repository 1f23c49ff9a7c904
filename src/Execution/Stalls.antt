-- ===== src/Execution/Stalls.antt =====
-- A worker that only reports the same fingerprint is stopped by the guard.
use one_company.Prelude.{
  ℕ, zero, inl, inr, suc, ◌+◌, ◌≤◌, ◌≡◌, ◌∙◌, refl, ap, String, true, false, List, [], ◌∷◌, none,
  some, ℤ, ok, arith, Bool-cases, Option-cases, ◌==◌, eq_refl,
}
use one_company.Json.{Json}
use one_company.Execution.Context.{
  RunKey, RunContext, is_mutable, is_complete, validate_key, same_key, assert_key,
}
use one_company.Execution.Guard.{
  GuardDecision, allowed, refused, is_allowed, check, enforce_decision, enforce, observed, observe,
}
use one_company.Execution.Completion.{is_stopped}
use one_company.Execution.Steps.{Op, settle, observes, enforces, step}
use one_company.Execution.Histories.{run}

same_key_self : (k : RunKey) → same_key k k ≡ true
same_key_self k = rw (eq_refl k.wu_id, eq_refl k.run_id) (ground arith)

assert_key-own :
    (c : RunContext) (k : RunKey) → c.key ≡ k → validate_key k ≡ ok tt → assert_key c k ≡ ok tt
unfolding assert_key
assert_key-own c k own h = rw (h, own, same_key_self k) refl

-- The context that an accepted report leaves.
abbrev reported : RunContext → String → ℤ → RunContext
reported c fingerprint now = record (observed c fingerprint) {
  last_progress_fingerprint = some fingerprint;
  updated_at = now;
}

abbrev pub repeated : ℕ → Op → List Op
repeated zero op = []
repeated (suc n) op = op ∷ repeated n op

-- What a report keeps.
record SameRun (c c' : RunContext) : Type 0 where
  key : c'.key ≡ c.key
  status : c'.status ≡ c.status
  budget : c'.budget ≡ c.budget

observed-SameRun : (c : RunContext) (fingerprint : String) → SameRun c (observed c fingerprint)
observed-SameRun c fingerprint = elim (Option-cases c.last_progress_fingerprint) [
  | inl e ↦ rw e (record { key = refl; status = refl; budget = refl })
  | inr (last, e) ↦ elim (Bool-cases (last == fingerprint)) [
    | inl f ↦ rw (e, f) (record { key = refl; status = refl; budget = refl })
    | inr f ↦ rw (e, f) (record { key = refl; status = refl; budget = refl })
  ]
]

guarded :
    (c : RunContext)
    → c.budget.max_unchanged_cycles ≤ c.unchanged_cycles
    → is_allowed (check c) ≡ false
unfolding check
guarded c h = ground (arith, h)

enforced-is_stopped :
    (c : RunContext) (d : GuardDecision) (now : ℤ)
    → is_mutable c.status ≡ true
    → is_allowed d ≡ false
    → is_stopped ((settle c (λ r. r.0) (enforce_decision c d now)).0).status ≡ true
unfolding enforce_decision
enforced-is_stopped c allowed now live tripped = cc
enforced-is_stopped c (refused why) now live tripped =
    let unfinished : is_complete c.status ≡ false = ground arith in rw unfinished (ground arith)

module _ (lower : String → String) (plus : ℤ → ℤ → ℤ) (repr : Json → String) where
  step-reported :
      (c : RunContext) (k : RunKey) (fingerprint : String) (now : ℤ)
      → c.key ≡ k
      → is_mutable c.status ≡ true
      → validate_key k ≡ ok tt
      → (step lower plus repr c (observes k fingerprint now)).0 ≡ reported c fingerprint now
  unfolding step observe
  step-reported c k fingerprint now own live key = rw (assert_key-own c k own key, live) refl

  run-suc :
      (n : ℕ) (c : RunContext) (op : Op) (d : RunContext)
      → (step lower plus repr c op).0 ≡ d
      → run lower plus repr c (repeated (suc n) op) ≡ run lower plus repr d (repeated n op)
  unfolding run
  run-suc n c op d p = ap (λ x. run lower plus repr x (repeated n op)) p

  -- The key and the counter after n reports, from a context whose last fingerprint is the same.
  counted :
      (n : ℕ) (c : RunContext) (k : RunKey) (fingerprint : String) (now : ℤ)
      → c.key ≡ k
      → is_mutable c.status ≡ true
      → validate_key k ≡ ok tt
      → c.last_progress_fingerprint ≡ some fingerprint
      → let c' = run lower plus repr c (repeated n (observes k fingerprint now)) in
        SameRun c c' × (c'.unchanged_cycles ≡ c.unchanged_cycles + n)
  unfolding run
  counted zero c k fingerprint now own live key last =
      (record { key = refl; status = refl; budget = refl }, omega arith)
  counted (suc n) c k fingerprint now own live key last =
      let one_more = record c {
        unchanged_cycles = c.unchanged_cycles + 1;
        last_progress_fingerprint = some fingerprint;
        updated_at = now;
      } in
      let again : reported c fingerprint now ≡ one_more = rw (last, eq_refl fingerprint) refl in
      let p =
        run-suc n c (observes k fingerprint now) one_more
          (step-reported c k fingerprint now own live key ∙ again) in
      let (same, count) = counted n one_more k fingerprint now own live key refl in
      rw p (
        record { key = same.key; status = same.status; budget = same.budget },
        omega (arith, count),
      )

  step-enforced :
      (c : RunContext) (k : RunKey) (now : ℤ)
      → c.key ≡ k
      → is_mutable c.status ≡ true
      → validate_key k ≡ ok tt
      → is_allowed (check c) ≡ false
      → is_stopped ((step lower plus repr c (enforces k none now)).0).status ≡ true
  unfolding step enforce
  step-enforced c k now own live key tripped =
      rw (assert_key-own c k own key) (enforced-is_stopped c (check c) now live tripped)

  -- A run that goes on, from which one report after another gives the same fingerprint: one more
  -- report than the limit on unchanged cycles trips the guard, and its enforcement stops the run.
  pub run-stalls :
      (c : RunContext) (fingerprint : String) (now : ℤ) (n : ℕ)
      → is_mutable c.status ≡ true
      → validate_key c.key ≡ ok tt
      → c.budget.max_unchanged_cycles ≤ n
      → let seen = run lower plus repr c (repeated (suc n) (observes c.key fingerprint now)) in
        (is_allowed (check seen) ≡ false)
        × (is_stopped ((step lower plus repr seen (enforces c.key none now)).0).status ≡ true)
  run-stalls c fingerprint now n live key bound =
      let first = reported c fingerprint now in
      let kept = observed-SameRun c fingerprint in
      let seen = run lower plus repr first (repeated n (observes c.key fingerprint now)) in
      let (same, count) =
        counted n first c.key fingerprint now kept.key (rw kept.status live) key refl in
      let tripped : is_allowed (check seen) ≡ false = guarded seen (
        omega
          (arith, count, bound, ap (λ b. b.max_unchanged_cycles) (same.budget ∙ kept.budget))) in
      rw
        (run-suc n c (observes c.key fingerprint now) first
          (step-reported c c.key fingerprint now refl live key))
        (
          tripped,
          step-enforced seen c.key now (same.key ∙ kept.key) (rw (same.status ∙ kept.status) live)
              key tripped,
        )
