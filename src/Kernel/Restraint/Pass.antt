-- ===== src/Kernel/Restraint/Pass.antt =====
-- What a PASS of the attestation gate asks.
use one_company.Prelude.{
  ◌≡◌, ◌∙◌, inl, inr, refl, ap, String, Bool, true, false, List, [], ◌∷◌, ◌++◌, some, given, arith,
  In, Bool-cases, Option-cases, append-eq-nil, ◌==◌, eq_iff, strip, keys, any-false-In,
}
use one_company.Json.{
  Json, Items, nil, cons, null, bool, int, float, str, arr, obj, Fields, get, py_eq, eq_text,
  eq_text-eq, is_true-eq, to_list,
}
use one_company.Kernel.Checks.{as_sha, is_excluded, normalized, text_of}
use one_company.Kernel.Restraint.{
  is_pass, required_true, unless, missing_required, dedupe, is_text, is_nil, reviewer_failures,
  pass_failures, verdict, attested, intent_restraint_status,
}

unless-nil : (b : Bool) (r : String) → unless b r ≡ [] → b ≡ true
unless-nil true r h = refl
unless-nil false r h = cc

dedupe-nil : (fs : List String) → dedupe fs ≡ [] → fs ≡ []
unfolding dedupe
dedupe-nil [] h = refl
dedupe-nil (f ∷ fs) h = cc

missing-nil :
    (evidence : Fields) (rs : List (String × String))
    → missing_required evidence rs ≡ []
    → (key : String) → In key (keys rs)
    → get evidence key ≡ bool true
unfolding missing_required keys
missing-nil evidence [] h key m = elim m [ ]
missing-nil evidence ((k, r) ∷ rs) h key (inl e) =
    let (now, later) = append-eq-nil _ _ h in
    ap (λ j. get evidence j) e ∙ is_true-eq _ (unless-nil _ _ now)
missing-nil evidence ((k, r) ∷ rs) h key (inr m) =
    let (now, later) = append-eq-nil _ _ h in missing-nil evidence rs later key m

-- The findings that an attestation has to make.
abbrev pub findings : List String
findings =
    "complete" ∷ "designated_independent" ∷ "reviewer_eligible" ∷ "identity_source_verified"
    ∷ "wu_contract_frozen" ∷ "intent_preserved" ∷ "scope_discipline_verified"
    ∷ "minimal_change_verified" ∷ "no_overengineering" ∷ "existing_mechanism_reused_or_justified"
    ∷ "conventions_preserved" ∷ "architecture_consistent" ∷ "performance_preserved"
    ∷ "api_semantics_preserved" ∷ "diff_proportionate" ∷ "adversarial_deletion_review_complete"
    ∷ "deletion_candidates_resolved" ∷ []

found :
    (evidence : Fields)
    → missing_required evidence required_true ≡ []
    → (key : String) → In key findings
    → get evidence key ≡ bool true
unfolding keys
found evidence h key m = missing-nil evidence required_true h key m

nil-of : (v : Json) → is_nil v ≡ true → v ≡ arr nil
nil-of (arr nil) h = refl
nil-of (arr (cons v vs)) h = cc
nil-of null h = cc
nil-of _ h = cc

-- A head known as a text is a text, and `==` on it is equality.
same_sha :
    (v ref : Json) (head : String) → as_sha ref ≡ some head → py_eq v ref ≡ true → v ≡ str head
unfolding py_eq
same_sha (str s) (str t) head known h = ground (arith, eq_iff s t)
same_sha null (str t) head known h = cc
same_sha (arr vs) (str t) head known h = cc
same_sha (obj fs) (str t) head known h = cc
same_sha (bool b) (str t) head known h = cc
same_sha (int n) (str t) head known h = cc
same_sha (float m) (str t) head known h = cc
same_sha v null head known h = cc
same_sha v _ head known h = cc

module _ (lower : String → String) (repr : Json → String) where
  -- An attestation in order, apart from the code: bound to the exact refs, to the authors of that
  -- head and to the frozen work unit, with each finding true and no reason of a failure, by a named
  -- reviewer whom no author and no controller matches, names compared without case and outer space.
  pub record Attestation (snapshot evidence : Fields) : Type 0 where
    pub head : String
    pub base : String
    pub work_unit : String
    pub reviewer : String
    pub authors : Items
    pub controllers : Items
    pub head_known : as_sha (get snapshot "head_sha") ≡ some head
    pub base_known : as_sha (get snapshot "base_sha") ≡ some base
    pub work_unit_known : get snapshot "wu_body_hash" ≡ str work_unit
    pub work_unit_named : (work_unit == "") ≡ false
    pub on_head : get evidence "head_sha" ≡ str head
    pub on_base : get evidence "base_sha" ≡ str base
    pub on_work_unit : get evidence "wu_body_hash" ≡ str work_unit
    pub authors_head : get evidence "material_authors_head_sha" ≡ str head
    pub each_found : (key : String) → In key findings → get evidence key ≡ bool true
    pub no_failure : get evidence "failure_reasons" ≡ arr nil
    pub author : get evidence "author" ≡ str reviewer
    pub named : (strip reviewer == "") ≡ false
    pub authors_listed : get evidence "material_authors" ≡ arr authors
    pub controllers_listed : get evidence "controller_identities" ≡ arr controllers
    pub apart :
        (v : Json)
        → In v (to_list authors ++ to_list controllers)
        → (normalized lower repr (text_of lower repr v) == normalized lower repr reviewer) ≡ false

  bound_ref :
      (v ref : Json)
      → given (as_sha ref) false (eq_text v) ≡ true
      → (s : String) × (as_sha ref ≡ some s) × (v ≡ str s)
  bound_ref v ref h = elim (Option-cases (as_sha ref)) [
    | inl e ↦ absurd (ground arith)
    | inr (s, e) ↦ (s, e, eq_text-eq v s (rw e at h))
  ]

  same_text :
      (w v : Json)
      → is_text w v ≡ true
      → (s : String) × (w ≡ str s) × (v ≡ str s) × ((s == "") ≡ false)
  same_text (str s) v h = (s, refl, eq_text-eq v s (ground arith), ground arith)
  same_text null v h = cc
  same_text _ v h = cc

  apart_parts :
      (r : String) (as' cs : Items)
      → reviewer_failures lower repr (str r) (arr as') (arr cs) ≡ []
      → ((strip r == "") ≡ false) × (is_excluded lower repr r (to_list as') (to_list cs) ≡ false)
  apart_parts r as' cs h = elim (Bool-cases (strip r == "")) [
    | inl e ↦ let q : ◌≡◌ {A = List String} ("ATTESTATION_INCOMPLETE" ∷ []) [] = rw e at h in cc
    | inr e ↦ (e, ground arith)
  ]

  reviewer_parts :
      (a b c : Json)
      → reviewer_failures lower repr a b c ≡ []
      → (r : String) × (as' cs : Items) × (a ≡ str r)
        × (b ≡ arr as')
        × (c ≡ arr cs)
        × ((strip r == "") ≡ false)
        × (is_excluded lower repr r (to_list as') (to_list cs) ≡ false)
  reviewer_parts (str r) (arr as') (arr cs) h =
      let (named, apart) = apart_parts r as' cs h in (r, as', cs, refl, refl, refl, named, apart)
  reviewer_parts null b c h = cc
  reviewer_parts (str r) null c h = cc
  reviewer_parts (str r) (arr as') null h = cc
  reviewer_parts _ _ _ h = cc

  Attestation-of_failures :
      (snapshot evidence : Fields)
      → pass_failures lower repr snapshot evidence ≡ []
      → Attestation snapshot evidence
  unfolding pass_failures is_excluded
  Attestation-of_failures snapshot evidence h =
      let (f1, r1) = append-eq-nil _ _ h in
      let (f2, r2) = append-eq-nil _ _ r1 in
      let (f3, r3) = append-eq-nil _ _ r2 in
      let (f4, r4) = append-eq-nil _ _ r3 in
      let (f5, r5) = append-eq-nil _ _ r4 in
      let (f6, f7) = append-eq-nil _ _ r5 in
      let (head, hk, on_head) = bound_ref _ _ (unless-nil _ _ f1) in
      let (base, bk, on_base) = bound_ref _ _ (unless-nil _ _ f2) in
      let (work, wk, on_work, work_named) = same_text _ _ (unless-nil _ _ f3) in
      let (r, authors, controllers, author, listed, listed', named, apart) =
        reviewer_parts _ _ _ f7 in
      record {
        head = head;
        base = base;
        work_unit = work;
        reviewer = r;
        authors = authors;
        controllers = controllers;
        head_known = hk;
        base_known = bk;
        work_unit_known = wk;
        work_unit_named = work_named;
        on_head = on_head;
        on_base = on_base;
        on_work_unit = on_work;
        authors_head = same_sha _ (get snapshot "head_sha") head hk (unless-nil _ _ f4);
        each_found = found evidence f5;
        no_failure = nil-of _ (unless-nil _ _ f6);
        author = author;
        named = named;
        authors_listed = listed;
        controllers_listed = listed';
        apart = λ v m. any-false-In _ (to_list authors ++ to_list controllers) apart v m;
      }

  verdict-pass : (fs : List String) → (verdict lower repr fs).0 ≡ is_pass → fs ≡ []
  verdict-pass [] h = refl
  verdict-pass (f ∷ fs) h = cc

  attested-pass :
      (snapshot : Fields) (v : Json)
      → (attested lower repr snapshot v).0 ≡ is_pass
      → (evidence : Fields) × (v ≡ obj evidence)
        × (get evidence "state" ≡ str "PASS")
        × Attestation snapshot evidence
  attested-pass snapshot (obj evidence) h =
      elim (Bool-cases (eq_text (get evidence "state") "PASS")) [
        | inl e ↦
            let failed : (verdict lower repr
                  (dedupe (pass_failures lower repr snapshot evidence))).0
                ≡ is_pass =
              ground arith in
            (
              evidence,
              refl,
              eq_text-eq _ _ e,
              Attestation-of_failures snapshot evidence (dedupe-nil _ (verdict-pass _ failed)),
            )
        | inr e ↦ absurd (ground arith)
      ]
  attested-pass snapshot null h = cc
  attested-pass snapshot _ h = cc

  -- The gate passes only on evidence that says PASS and is an attestation in order: of the exact
  -- head and base, the authors of that head and the work unit's text, with all seventeen findings
  -- true and no reason of a failure, by a named reviewer whom no author and no controller matches.
  pub intent_restraint_status-pass :
      (snapshot : Fields)
      → (intent_restraint_status lower repr snapshot).0 ≡ is_pass
      → (evidence : Fields) × (get snapshot "intent_restraint" ≡ obj evidence)
        × (get evidence "state" ≡ str "PASS")
        × Attestation snapshot evidence
  unfolding intent_restraint_status
  intent_restraint_status-pass snapshot h =
      attested-pass snapshot (get snapshot "intent_restraint") h
