-- ===== src/Kernel/Checks.antt =====
-- `_source_key`, `_checks_ok` and `_review_ok` of scripts/l5_kernel.py: checks and reviews bound to
-- an exact head and base.
pub mod Exact
use one_company.Prelude.{
  ℕ, suc, zero, ◌≡◌, ◌↔◌, ◌⊎◌, inl, inr, refl, String, Bool, true, false, not, ◌&&◌, ◌||◌, List, [],
  ◌∷◌, ◌++◌, map, Option, none, some, all, any, is_empty, if◌then◌else◌, given, arith, In, all-In,
  all_of_In, Bool-cases, ◌==◌, strip, decimal, matches_all, is_hex, ℤ, pos, negsuc, eqb,
}
use Prim.Native.String
use one_company.Json.{
  Json, null, bool, int, float, str, arr, obj, Fields, get, eq_text, is_true, is_false, to_list,
  scaled, eq_int, as_text, as_list,
}

-- `_sha`, with the text that it accepts.
abbrev pub as_sha : Json → Option String
as_sha (str s) = if matches_all is_hex 40 s then some s else none
as_sha _ = none

-- str(app) for a text or an integer; a boolean is an integer too.
abbrev pub app_text : Json → Option String
app_text (str s) = some s
app_text (int (pos n)) = some (decimal n)
app_text (int (negsuc n)) = some (String.◌++◌ "-" (decimal (suc n)))
app_text (bool true) = some "True"
app_text (bool false) = some "False"
app_text _ = none

abbrev pub path_text : Json → Option String
path_text (str s) = if s == "" then none else some s
path_text _ = none

abbrev pub SourceKey : Type 0
SourceKey = String × String

unfoldable pub source_key : Json → Option SourceKey
source_key (obj fs) =
    given (app_text (get fs "app_id")) none
      λ app. given (path_text (get fs "workflow_path")) none λ path. some (app, path)
source_key _ = none

abbrev pub is_key : SourceKey → SourceKey → Bool
is_key (a, p) (b, q) = (a == b) && (p == q)

abbrev cons_key : Option SourceKey → Option (List SourceKey) → Option (List SourceKey)
cons_key (some k) (some ks) = some (k ∷ ks)
cons_key _ _ = none

-- The keys of the expected sources; `none` if some source has none.
unfoldable pub source_keys : List Json → Option (List SourceKey)
source_keys [] = some []
source_keys (v ∷ vs) = cons_key (source_key v) (source_keys vs)

unfoldable pub has_duplicates : List SourceKey → Bool
has_duplicates [] = false
has_duplicates (k ∷ ks) = any (is_key k) ks || has_duplicates ks

-- The mappings among the rows; `none` if some row is none.
abbrev cons_row : Json → Option (List Fields) → Option (List Fields)
cons_row (obj row) (some rows) = some (row ∷ rows)
cons_row _ _ = none

unfoldable pub mappings : List Json → Option (List Fields)
mappings [] = some []
mappings (v ∷ vs) = cons_row v (mappings vs)

abbrev has_key : SourceKey → Fields → Bool
has_key k row = given (source_key (obj row)) false (λ j. is_key j k)

-- by_source.get(key, [])
unfoldable pub candidates : SourceKey → List Fields → List Fields
candidates k [] = []
candidates k (row ∷ rows) =
    let rest = candidates k rows in if has_key k row then row ∷ rest else rest

-- The tests on the one row of a source.
unfoldable pub row_ok : String → String → Fields → Bool
row_ok head base row =
    eq_text (get row "head_sha") head
    && eq_text (get row "tested_base_sha") base
    && is_true (get row "latest_attempt")
    && eq_text (get row "conclusion") "success"
    && is_false (get row "assertion_failure_any_attempt")
    && is_true (get row "attempt_history_complete")
    && is_true (get row "source_verified")

abbrev only_ok : String → String → List Fields → Bool
only_ok head base (row ∷ []) = row_ok head base row
only_ok head base _ = false

unfoldable pub checks_ok : Json → String → String → Json → Bool
checks_ok (arr rows) head base (arr sources) =
    given (source_keys (to_list sources)) false λ expected.
      if is_empty expected || has_duplicates expected
      then false
      else given (mappings (to_list rows)) false
          λ rows. all (λ k. only_ok head base (candidates k rows)) expected
checks_ok _ head base _ = false

-- v == True and v == False: 1 and 1.0 equal True, 0 and 0.0 equal False.
abbrev pub eq_bool : Json → Bool → Bool
eq_bool (bool true) b = b
eq_bool (bool false) b = not b
eq_bool (int n) true = eq_int n (pos 1)
eq_bool (int n) false = eq_int n (pos 0)
eq_bool (float m) true = eq_int m (scaled (pos 1))
eq_bool (float m) false = eq_int m (pos 0)
eq_bool _ b = false

-- `lower` is `str.lower`, and `repr` is `str` on values that are no texts.
module _ (lower : String → String) (repr : Json → String) where
  abbrev pub text_of : Json → String
  text_of (str s) = s
  text_of v = repr v

  abbrev pub normalized : String → String
  normalized s = lower (strip s)

  -- norm in {str(x).strip().lower() for x in authors + controllers}
  unfoldable pub is_excluded : String → List Json → List Json → Bool
  is_excluded reviewer authors controllers =
      any (λ v. normalized (text_of v) == normalized reviewer) (authors ++ controllers)

  -- The author of a review, and the people that it must not be.
  abbrev pub reviewer_ok : Json → Json → Json → Bool
  reviewer_ok (str reviewer) (arr authors) (arr controllers) =
      not (reviewer == "") && not (is_excluded reviewer (to_list authors) (to_list controllers))
  reviewer_ok _ _ _ = false

  unfoldable pub review_ok : Json → String → String → Bool
  review_ok (obj review) head base =
      eq_text (get review "state") "APPROVED"
      && eq_text (get review "commit_id") head
      && eq_text (get review "base_sha") base
      && eq_bool (get review "complete") true
      && eq_bool (get review "skipped") false
      && eq_bool (get review "covers_full_diff") true
      && eq_bool (get review "designated_independent") true
      && eq_bool (get review "reviewer_eligible") true
      && eq_bool (get review "authorship_complete") true
      && eq_text (get review "material_authors_head_sha") head
      && eq_bool (get review "identity_source_verified") true
      && reviewer_ok (get review "author") (get review "material_authors")
          (get review "controller_identities")
  review_ok _ head base = false
