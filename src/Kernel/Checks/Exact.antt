-- ===== src/Kernel/Checks/Exact.antt =====
-- What `_checks_ok` and `_review_ok` accept.
use one_company.Prelude.{
  ◌≡◌, inl, inr, refl, String, true, false, List, [], ◌∷◌, ◌++◌, some, all, is_empty, arith, In,
  all-In, any-false-In, and_true, Option-cases, ◌==◌,
}
use one_company.Json.{
  Json, Items, as_list, null, bool, str, arr, obj, Fields, get, eq_text, to_list, eq_text-eq,
  is_true-eq, is_false-eq,
}
use one_company.Kernel.Checks.{
  SourceKey, source_keys, has_duplicates, mappings, candidates, only_ok, row_ok, checks_ok,
  reviewer_ok, is_excluded, normalized, eq_bool, text_of, review_ok,
}

-- A row that vouches for the refs: the last attempt, a success with a whole history that holds no
-- assertion failure, from a verified source.
pub record IsGreen (head base : String) (row : Fields) : Type 0 where
  pub on_head : get row "head_sha" ≡ str head
  pub on_base : get row "tested_base_sha" ≡ str base
  pub latest : get row "latest_attempt" ≡ bool true
  pub success : get row "conclusion" ≡ str "success"
  pub no_failure : get row "assertion_failure_any_attempt" ≡ bool false
  pub complete : get row "attempt_history_complete" ≡ bool true
  pub verified : get row "source_verified" ≡ bool true

IsGreen-of_row :
    (head base : String) (row : Fields) → row_ok head base row ≡ true → IsGreen head base row
unfolding row_ok
IsGreen-of_row head base row h = record {
  on_head = eq_text-eq _ _ (ground arith);
  on_base = eq_text-eq _ _ (ground arith);
  latest = is_true-eq _ (ground arith);
  success = eq_text-eq _ _ (ground arith);
  no_failure = is_false-eq _ (ground arith);
  complete = is_true-eq _ (ground arith);
  verified = is_true-eq _ (ground arith);
}

only-IsGreen :
    (head base : String) (rows : List Fields)
    → only_ok head base rows ≡ true
    → (row : Fields) × (rows ≡ row ∷ []) × IsGreen head base row
only-IsGreen head base [] h = cc
only-IsGreen head base (row ∷ []) h = (row, refl, IsGreen-of_row head base row h)
only-IsGreen head base (row ∷ next ∷ rows) h = cc

-- Every expected source is known and named once, there is at least one, and each has exactly one
-- row among the rows, which vouches for the refs.
pub record Vouched (rows sources : List Json) (head base : String) : Type 0 where
  pub keys : List SourceKey
  pub found : List Fields
  pub known : source_keys sources ≡ some keys
  pub rows_known : mappings rows ≡ some found
  pub some_source : is_empty keys ≡ false
  pub once : has_duplicates keys ≡ false
  pub each :
      (k : SourceKey)
      → In k keys
      → (row : Fields) × (candidates k found ≡ row ∷ []) × IsGreen head base row

checks_parts :
    (rows sources : Items) (head base : String)
    → checks_ok (arr rows) head base (arr sources) ≡ true
    → (keys : List SourceKey) × (found : List Fields) × (source_keys (to_list sources) ≡ some keys)
      × (mappings (to_list rows) ≡ some found)
      × (is_empty keys ≡ false)
      × (has_duplicates keys ≡ false)
      × (all (λ k. only_ok head base (candidates k found)) keys ≡ true)
unfolding checks_ok
checks_parts rows sources head base h = elim (Option-cases (source_keys (to_list sources))) [
  | inl e ↦ absurd (ground arith)
  | inr (keys, e) ↦ elim (Option-cases (mappings (to_list rows))) [
    | inl f ↦ absurd (ground arith)
    | inr (found, f) ↦ (keys, found, e, f, ground arith, ground arith, ground arith)
  ]
]

-- Checks are accepted only if they are lists, and vouched for on the exact refs.
pub checks_ok-Vouched :
    (rows sources : Json) (head base : String)
    → checks_ok rows head base sources ≡ true
    → (rs ss : List Json) × (as_list rows ≡ some rs)
      × (as_list sources ≡ some ss)
      × Vouched rs ss head base
unfolding checks_ok
checks_ok-Vouched (arr rows) (arr sources) head base h =
    let (keys, found, known, rows_known, some_source, once, each) =
      checks_parts rows sources head base h in
    (
      to_list rows,
      to_list sources,
      refl,
      refl,
      record {
        keys = keys;
        found = found;
        known = known;
        rows_known = rows_known;
        some_source = some_source;
        once = once;
        each = λ k m.
            only-IsGreen head base (candidates k found)
              (all-In (λ j. only_ok head base (candidates j found)) keys each k m);
      },
    )
checks_ok-Vouched (arr rows) null head base h = cc
checks_ok-Vouched (arr rows) _ head base h = cc
checks_ok-Vouched null sources head base h = cc
checks_ok-Vouched _ sources head base h = cc

-- The tests of a review that go by `==` on booleans.
pub record IsWhole (review : Fields) : Type 0 where
  pub complete : eq_bool (get review "complete") true ≡ true
  pub unskipped : eq_bool (get review "skipped") false ≡ true
  pub full_diff : eq_bool (get review "covers_full_diff") true ≡ true
  pub designated : eq_bool (get review "designated_independent") true ≡ true
  pub eligible : eq_bool (get review "reviewer_eligible") true ≡ true
  pub authorship : eq_bool (get review "authorship_complete") true ≡ true
  pub identity : eq_bool (get review "identity_source_verified") true ≡ true

module _ (lower : String → String) (repr : Json → String) where
  -- An approval of the exact refs by a named reviewer whom no author and no controller matches,
  -- names compared without case and outer space.
  pub record Independent (review : Fields) (head base : String) : Type 0 where
    pub reviewer : String
    pub authors : Items
    pub controllers : Items
    pub approved : get review "state" ≡ str "APPROVED"
    pub on_head : get review "commit_id" ≡ str head
    pub on_base : get review "base_sha" ≡ str base
    pub authors_head : get review "material_authors_head_sha" ≡ str head
    pub is_whole : IsWhole review
    pub author : get review "author" ≡ str reviewer
    pub authors_listed : get review "material_authors" ≡ arr authors
    pub controllers_listed : get review "controller_identities" ≡ arr controllers
    pub apart :
        (v : Json)
        → In v (to_list authors ++ to_list controllers)
        → (normalized lower repr (text_of lower repr v) == normalized lower repr reviewer) ≡ false

  reviewer_parts :
      (a b c : Json)
      → reviewer_ok lower repr a b c ≡ true
      → (r : String) × (as' cs : Items) × (a ≡ str r)
        × (b ≡ arr as')
        × (c ≡ arr cs)
        × (is_excluded lower repr r (to_list as') (to_list cs) ≡ false)
  reviewer_parts (str r) (arr as') (arr cs) h = (r, as', cs, refl, refl, refl, ground arith)
  reviewer_parts null b c h = cc
  reviewer_parts (str r) null c h = cc
  reviewer_parts (str r) (arr as') null h = cc
  reviewer_parts _ _ _ h = cc

  review_parts :
      (review : Fields) (head base : String)
      → review_ok lower repr (obj review) head base ≡ true
      → (eq_text (get review "state") "APPROVED" ≡ true)
        × (eq_text (get review "commit_id") head ≡ true)
        × (eq_text (get review "base_sha") base ≡ true)
        × (eq_text (get review "material_authors_head_sha") head ≡ true)
        × IsWhole review
        × (reviewer_ok lower repr
              (get review "author")
              (get review "material_authors")
              (get review "controller_identities")
            ≡ true)
  unfolding review_ok
  review_parts review head base h =
      let (h1, who) = and_true _ _ h in
      let (h2, identity) = and_true _ _ h1 in
      let (h3, authors_head) = and_true _ _ h2 in
      let (h4, authorship) = and_true _ _ h3 in
      let (h5, eligible) = and_true _ _ h4 in
      let (h6, designated) = and_true _ _ h5 in
      let (h7, full_diff) = and_true _ _ h6 in
      let (h8, unskipped) = and_true _ _ h7 in
      let (h9, complete) = and_true _ _ h8 in
      let (h10, on_base) = and_true _ _ h9 in
      let (approved, on_head) = and_true _ _ h10 in
      let whole : IsWhole review = record {
        complete = complete;
        unskipped = unskipped;
        full_diff = full_diff;
        designated = designated;
        eligible = eligible;
        authorship = authorship;
        identity = identity;
      } in
      (approved, on_head, on_base, authors_head, whole, who)

  -- An accepted review is an approval of the exact head and base, whole and not skipped, by a
  -- designated and eligible reviewer of a verified identity whom no author and no controller matches.
  pub review_ok-Independent :
      (review : Fields) (head base : String)
      → review_ok lower repr (obj review) head base ≡ true
      → Independent review head base
  unfolding is_excluded
  review_ok-Independent review head base h =
      let (approved, on_head, on_base, authors_head, whole, who) =
        review_parts review head base h in
      let (r, authors, controllers, author, listed, listed', apart) = reviewer_parts _ _ _ who in
      record {
        reviewer = r;
        authors = authors;
        controllers = controllers;
        approved = eq_text-eq _ _ approved;
        on_head = eq_text-eq _ _ on_head;
        on_base = eq_text-eq _ _ on_base;
        authors_head = eq_text-eq _ _ authors_head;
        is_whole = whole;
        author = author;
        authors_listed = listed;
        controllers_listed = listed';
        apart = λ v m. any-false-In _ (to_list authors ++ to_list controllers) apart v m;
      }
