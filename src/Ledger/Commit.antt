-- ===== src/Ledger/Commit.antt =====
-- What a guarded write commits, and that no write is lost to another of the same revision.
use one_company.Prelude.{
  ℕ, ◌+◌, ◌≡◌, ◌∙◌, sym, refl, ap, String, Bool, true, false, not, ◌&&◌, Option, none, some, pos,
  ◌==◌, Result, ok, ◌>>=◌, >>=-eq-ok, >>-eq-ok, raise_if-then, eqb_iff, eq_iff, eq_refl, subst,
  arith,
}
use one_company.Json.{Json, null, int, str, obj, Fields, get, put, get-put}
use one_company.Kernel.Types.{RepoMode, is_human_clear_only}
use one_company.Ledger.Validate.{
  Error, validate_budget, is_nat, as_mode, mode_text, validate_document,
}
use one_company.Ledger.Write.{
  begin, with_mode, validated, cas_mode, is_version, record_at, with_record, next_budget, is_locked,
  validate_lease_transition, cas_lease, cas_budget,
}

is_nat-eq : (n : ℕ) (v : Json) → is_nat n v ≡ true → v ≡ int (pos n)
is_nat-eq n (int (pos m)) h = ap (λ i. int (pos i)) ((eqb_iff m n).0 h)
is_nat-eq n null h = cc
is_nat-eq n _ h = cc

not-false : (b : Bool) → not b ≡ false → b ≡ true
not-false true h = refl
not-false false h = cc

begin-eq :
    (doc : Fields) (r : ℕ) (out : Fields)
    → begin doc r ≡ ok out
    → (validate_document doc none ≡ ok tt)
      × (get doc "revision" ≡ int (pos r))
      × (out ≡ put doc "revision" (int (pos (r + 1))))
unfolding begin
begin-eq doc r out h =
    let (_, valid, rest) = >>-eq-ok (validate_document doc none) _ h in
    let (fresh, same) = raise_if-then _ _ _ rest in
    let revision = is_nat-eq r (get doc "revision") (not-false _ fresh) in
    (ground arith, revision, ground (arith, revision))

validated-eq :
    (next out : Fields)
    → validated next ≡ ok out
    → (out ≡ next) × (validate_document out none ≡ ok tt)
validated-eq next out h =
    let (_, valid, same) = >>-eq-ok (validate_document next none) _ h in
    (ground arith, ground arith)

-- A write of revision `r`: the document was valid and of that revision, and it is valid again, one
-- revision later.
pub record Committed (doc : Fields) (r : ℕ) (out : Fields) : Type 0 where
  pub was_valid : validate_document doc none ≡ ok tt
  pub is_valid : validate_document out none ≡ ok tt
  pub before : get doc "revision" ≡ int (pos r)
  pub after : get out "revision" ≡ int (pos (r + 1))

-- The record `row` stands under its key in a table, as the caller expected it to be replaced;
-- nothing else of the document changes but the revision.
pub record Replaced (doc : Fields) (table key : String) (expected : Option ℕ) (row out : Fields)
    : Type 0 where
  pub was_expected : is_version expected (record_at doc table key) ≡ true
  pub stored : record_at out table key ≡ obj row
  pub others : (j : String) → (key == j) ≡ false → record_at out table j ≡ record_at doc table j
  pub untouched :
      (k : String) → (table == k) ≡ false → ("revision" == k) ≡ false → get out k ≡ get doc k

abbrev next_of : Fields → ℕ → Fields
next_of doc r = put doc "revision" (int (pos (r + 1)))

module _ (doc : Fields) (r : ℕ) where
  next-get : (k : String) → ("revision" == k) ≡ false → get (next_of doc r) k ≡ get doc k
  next-get k h = get-put doc "revision" k _ ∙ rw h

  Replaced-next :
      (table key : String) (expected : Option ℕ) (row : Fields)
      → ("revision" == table) ≡ false
      → is_version expected (record_at (next_of doc r) table key) ≡ true
      → Replaced doc table key expected row (with_record (next_of doc r) table key row)
  Replaced-next table key expected row apart h =
      let same = next-get table apart in
      record {
        was_expected = rw same at h;
        stored = simp (get-put, eq_refl);
        others = λ j n. simp (get-put, eq_refl, n, apart);
        untouched = λ k n m. simp (get-put, n, m);
      }

  Committed-next :
      (next out : Fields)
      → validate_document doc none ≡ ok tt
      → get doc "revision" ≡ int (pos r)
      → get next "revision" ≡ int (pos (r + 1))
      → validated next ≡ ok out
      → Committed doc r out × (out ≡ next)
  Committed-next next out valid before after h =
      let (same, again) = validated-eq next out h in
      (record { was_valid = valid; is_valid = again; before = before; after = rw same after }, same)

begun :
    (doc : Fields) (r : ℕ) (rest : Fields → Result Error Fields) (out : Fields)
    → (begin doc r >>= rest) ≡ ok out
    → (validate_document doc none ≡ ok tt)
      × (get doc "revision" ≡ int (pos r))
      × (rest (next_of doc r) ≡ ok out)
begun doc r rest out h =
    let (next, started, after) = >>=-eq-ok (begin doc r) rest h in
    let (valid, before, same) = begin-eq doc r next started in
    (valid, before, subst (λ n. rest n ≡ ok out) same after)

-- A lease write commits: the revision goes up by one, the record is the new one, of the expected
-- version before it and a lawful successor, and nothing else changes.
pub cas_lease-Committed :
    (doc : Fields) (key : String) (r : ℕ) (expected : Option ℕ) (row out : Fields)
    → cas_lease doc key r expected (some row) ≡ ok out
    → Committed doc r out
      × Replaced doc "leases" key expected row out
      × (validate_lease_transition (record_at doc "leases" key) row ≡ ok tt)
unfolding cas_lease
cas_lease-Committed doc key r expected row out h =
    let (_, named) = raise_if-then (key == "") _ _ h in
    let (valid, before, rest) = begun doc r _ out named in
    let (current, rest') = raise_if-then _ _ _ rest in
    let (_, lawful, done) =
      >>-eq-ok (validate_lease_transition (record_at (next_of doc r) "leases" key) row) _ rest' in
    let (committed, written) =
      Committed-next doc r (with_record (next_of doc r) "leases" key row) out valid before
        (simp get-put) done in
    let kept : record_at (next_of doc r) "leases" key ≡ record_at doc "leases" key = simp get-put in
    (
      committed,
      subst (Replaced doc "leases" key expected row) (sym written)
          (Replaced-next doc r "leases" key expected row refl (not-false _ current)),
      ap (λ v. validate_lease_transition v row) (sym kept) ∙ lawful,
    )

-- A budget write commits likewise.
pub cas_budget-Committed :
    (doc : Fields) (key : String) (r : ℕ) (expected : Option ℕ) (row out : Fields)
    → cas_budget doc key r expected row ≡ ok out
    → Committed doc r out × Replaced doc "budgets" key expected row out
unfolding cas_budget
cas_budget-Committed doc key r expected row out h =
    let (valid, before, rest) = begun doc r _ out h in
    let (current, rest') = raise_if-then _ _ _ rest in
    let (_, _, rest2) = >>-eq-ok (validate_budget row) _ rest' in
    let (_, _, done) = >>-eq-ok (next_budget expected row) _ rest2 in
    let (committed, written) =
      Committed-next doc r (with_record (next_of doc r) "budgets" key row) out valid before
        (simp get-put) done in
    (
      committed,
      subst (Replaced doc "budgets" key expected row) (sym written)
          (Replaced-next doc r "budgets" key expected row refl (not-false _ current)),
    )

exit-eq :
    (guarded allowed : Bool) (s t : String)
    → (guarded && not (s == t) && not allowed) ≡ false
    → guarded ≡ true
    → allowed ≡ false
    → s ≡ t
exit-eq guarded allowed s t h g a = ground (arith, eq_iff s t)

-- A mode write commits: the mode is the new one, one mode version later, and the stored mode allows
-- the exit: only with a human's clearance or a verified merge where it asks for them.
pub cas_mode-Committed :
    (doc : Fields) (r version : ℕ) (mode : RepoMode) (human_clear post_merge_verified : Bool)
    (out : Fields)
    → cas_mode doc r version mode human_clear post_merge_verified ≡ ok out
    → Committed doc r out
      × (get doc "mode_version" ≡ int (pos version))
      × (get out "mode_version" ≡ int (pos (version + 1)))
      × (get out "mode" ≡ str (mode_text mode))
      × (old : RepoMode) × (as_mode (get doc "mode") ≡ ok old)
      × (is_human_clear_only old ≡ true → human_clear ≡ false → mode_text old ≡ mode_text mode)
      × (is_locked old ≡ true → post_merge_verified ≡ false → mode_text old ≡ mode_text mode)
unfolding cas_mode
cas_mode-Committed doc r version mode human_clear post_merge_verified out h =
    let (valid, before, rest) = begun doc r _ out h in
    let (current, rest') = raise_if-then _ _ _ rest in
    let (old, stored, rest2) = >>=-eq-ok (as_mode (get (next_of doc r) "mode")) _ rest' in
    let (cleared, rest3) = raise_if-then _ _ _ rest2 in
    let (verified, done) = raise_if-then _ _ _ rest3 in
    let (committed, written) =
      Committed-next doc r (with_mode (next_of doc r) mode) out valid before (simp get-put) done in
    let kept : get (next_of doc r) "mode_version" ≡ get doc "mode_version" = simp get-put in
    let mode_kept : get (next_of doc r) "mode" ≡ get doc "mode" = simp get-put in
    let versioned : get doc "mode_version" ≡ int (pos version) =
      sym kept ∙ is_nat-eq version _ (not-false _ current) in
    (
      committed,
      versioned,
      ap (λ o. get o "mode_version") written ∙ simp (get-put, versioned),
      ap (λ o. get o "mode") written ∙ simp get-put,
      old,
      ap as_mode (sym mode_kept) ∙ stored,
      exit-eq (is_human_clear_only old) human_clear (mode_text old) (mode_text mode) cleared,
      exit-eq (is_locked old) post_merge_verified (mode_text old) (mode_text mode) verified,
    )
