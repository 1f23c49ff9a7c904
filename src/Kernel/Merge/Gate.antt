-- ===== src/Kernel/Merge/Gate.antt =====
-- What `merge_ok` asks, apart from the code.
use one_company.Prelude.{
  ◌≡◌, ◌↔◌, ◌∙◌, sym, inl, inr, refl, ap, String, Bool, true, false, List, [], ◌∷◌, ◌++◌, some,
  is_empty, arith, In, Option-cases, append-eq-nil, eq_refl,
}
use one_company.Json.{Json, bool, str, Fields, get, eq_text-eq, is_true-eq, is_false-eq}
use one_company.Kernel.Checks.{as_sha, checks_ok, review_ok}
use one_company.Kernel.Merge.{
  Failure, true_fields, false_fields, unless, true_failures, false_failures, is_sha, on_refs,
  agrees, merge_failures, merge_ok,
}

unless-nil : (b : Bool) (f : Failure) → unless b f ≡ [] → b ≡ true
unless-nil true f h = refl
unless-nil false f h = cc

nil-unless : (b : Bool) (f : Failure) → b ≡ true → unless b f ≡ []
nil-unless b f h = rw h

nil-append : (xs ys : List Failure) → xs ≡ [] → ys ≡ [] → xs ++ ys ≡ []
nil-append xs ys hx hy = rw (hx, hy)

module _ (snapshot : Fields) where
  true_failures-nil :
      (ks : List String)
      → true_failures snapshot ks ≡ []
      → (k : String) → In k ks
      → get snapshot k ≡ bool true
  unfolding true_failures
  true_failures-nil [] h k m = elim m [ ]
  true_failures-nil (j ∷ ks) h k (inl e) =
      let (now, later) = append-eq-nil _ _ h in
      ap (get snapshot) e ∙ is_true-eq _ (unless-nil _ _ now)
  true_failures-nil (j ∷ ks) h k (inr m) =
      let (now, later) = append-eq-nil _ _ h in true_failures-nil ks later k m

  nil-true_failures :
      (ks : List String)
      → ((k : String) → In k ks → get snapshot k ≡ bool true)
      → true_failures snapshot ks ≡ []
  unfolding true_failures
  nil-true_failures [] h = refl
  nil-true_failures (j ∷ ks) h = rw (h j (inl refl)) (nil-true_failures ks (λ k m. h k (inr m)))

  false_failures-nil :
      (ks : List String)
      → false_failures snapshot ks ≡ []
      → (k : String) → In k ks
      → get snapshot k ≡ bool false
  unfolding false_failures
  false_failures-nil [] h k m = elim m [ ]
  false_failures-nil (j ∷ ks) h k (inl e) =
      let (now, later) = append-eq-nil _ _ h in
      ap (get snapshot) e ∙ is_false-eq _ (unless-nil _ _ now)
  false_failures-nil (j ∷ ks) h k (inr m) =
      let (now, later) = append-eq-nil _ _ h in false_failures-nil ks later k m

  nil-false_failures :
      (ks : List String)
      → ((k : String) → In k ks → get snapshot k ≡ bool false)
      → false_failures snapshot ks ≡ []
  unfolding false_failures
  nil-false_failures [] h = refl
  nil-false_failures (j ∷ ks) h = rw (h j (inl refl)) (nil-false_failures ks (λ k m. h k (inr m)))

-- The gate: exact refs that are the expected ones, a NORMAL repository, every field that must be
-- true and every one that must be false, and valid checks and review on those refs.
pub record MergeOk (lower : String → String) (repr : Json → String) (snapshot : Fields)
    : Type 0 where
  pub head : String
  pub base : String
  pub head_known : as_sha (get snapshot "head_sha") ≡ some head
  pub base_known : as_sha (get snapshot "base_sha") ≡ some base
  pub mode : get snapshot "repo_mode" ≡ str "NORMAL"
  pub required : (k : String) → In k true_fields → get snapshot k ≡ bool true
  pub forbidden : (k : String) → In k false_fields → get snapshot k ≡ bool false
  pub expected_head : get snapshot "expected_head_sha" ≡ str head
  pub expected_base : get snapshot "expected_base_sha" ≡ str base
  pub checks :
      checks_ok (get snapshot "required_checks") head base (get snapshot "required_check_sources")
      ≡ true
  pub security :
      checks_ok (get snapshot "security_checks") head base (get snapshot "security_check_sources")
      ≡ true
  pub review : review_ok lower repr (get snapshot "review") head base ≡ true

sha_known : (v : Json) → is_sha v ≡ true → (s : String) × (as_sha v ≡ some s)
sha_known v h = elim (Option-cases (as_sha v)) [ inl e ↦ absurd (ground arith) | inr p ↦ p ]

agrees_known : (v ref : Json) (s : String) → as_sha ref ≡ some s → agrees v ref ≡ true → v ≡ str s
agrees_known v ref s e h = eq_text-eq v s (rw e at h)

known_agrees : (v ref : Json) (s : String) → as_sha ref ≡ some s → v ≡ str s → agrees v ref ≡ true
known_agrees v ref s e h = rw (e, h, eq_refl)

on_refs-known :
    (snapshot : Fields) (head base : String) (test : String → String → Bool)
    → as_sha (get snapshot "head_sha") ≡ some head
    → as_sha (get snapshot "base_sha") ≡ some base
    → on_refs snapshot test ≡ test head base
on_refs-known snapshot head base test hk bk = rw (hk, bk)

module _ (lower : String → String) (repr : Json → String) (snapshot : Fields) where
  gate_of_failures : merge_failures lower repr snapshot ≡ [] → MergeOk lower repr snapshot
  unfolding merge_failures
  gate_of_failures h =
      let (f1, r1) = append-eq-nil _ _ h in
      let (f2, r2) = append-eq-nil _ _ r1 in
      let (f3, r3) = append-eq-nil _ _ r2 in
      let (f4, r4) = append-eq-nil _ _ r3 in
      let (f5, r5) = append-eq-nil _ _ r4 in
      let (f6, r6) = append-eq-nil _ _ r5 in
      let (f7, r7) = append-eq-nil _ _ r6 in
      let (f8, r8) = append-eq-nil _ _ r7 in
      let (f9, f10) = append-eq-nil _ _ r8 in
      let (head, hk) = sha_known _ (unless-nil _ _ f1) in
      let (base, bk) = sha_known _ (unless-nil _ _ f2) in
      record {
        head = head;
        base = base;
        head_known = hk;
        base_known = bk;
        mode = eq_text-eq _ _ (unless-nil _ _ f3);
        required = true_failures-nil snapshot true_fields f4;
        forbidden = false_failures-nil snapshot false_fields f5;
        expected_head = agrees_known _ _ head hk (unless-nil _ _ f6);
        expected_base = agrees_known _ _ base bk (unless-nil _ _ f7);
        checks = sym (on_refs-known snapshot head base _ hk bk) ∙ unless-nil _ _ f8;
        security = sym (on_refs-known snapshot head base _ hk bk) ∙ unless-nil _ _ f9;
        review = sym (on_refs-known snapshot head base _ hk bk) ∙ unless-nil _ _ f10;
      }

  failures_of_gate : MergeOk lower repr snapshot → merge_failures lower repr snapshot ≡ []
  unfolding merge_failures
  failures_of_gate g =
      let required = nil-true_failures snapshot true_fields g.required in
      let forbidden = nil-false_failures snapshot false_fields g.forbidden in
      simp (
        g.head_known, g.base_known, g.mode, required, forbidden, g.expected_head, g.expected_base,
        eq_refl, g.checks, g.security, g.review,
      )

  pub merge_ok_iff : ((merge_ok lower repr snapshot).0 ≡ true) ↔ MergeOk lower repr snapshot
  unfolding merge_ok
  merge_ok_iff = (
    (λ h. gate_of_failures (nil_of_empty (merge_failures lower repr snapshot) h)),
    λ g. rw (failures_of_gate g),
  )
    where
      nil_of_empty : (fs : List Failure) → is_empty fs ≡ true → fs ≡ []
      nil_of_empty [] h = refl
      nil_of_empty (f ∷ fs) h = cc
