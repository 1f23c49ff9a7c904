-- ===== src/Ledger/History.antt =====
-- Histories of guarded writes by several controllers.
use one_company.Prelude.{
  ℕ, ◌≤◌, ◌≡◌, ◌≢◌, refl, String, Bool, List, [], ◌∷◌, Option, none, some, Result, ok, err, arith,
}
use one_company.Json.{Fields, get}
use one_company.Kernel.Types.{RepoMode}
use one_company.Ledger.Validate.{Error, validate_document}
use one_company.Ledger.Write.{nat_of, cas_mode, cas_lease, cas_budget}
use one_company.Ledger.Commit.{
  Committed, cas_mode-Committed, cas_lease-Committed, cas_budget-Committed,
}

-- One call of a guarded write, with the revision that its caller has read.
pub data Write : Type 0 where
  of_mode : ℕ → ℕ → RepoMode → (human_clear post_merge_verified : Bool) → Write
  of_lease : String → ℕ → Option ℕ → Option Fields → Write
  of_budget : String → ℕ → Option ℕ → Fields → Write

abbrev pub revision_of : Write → ℕ
revision_of (of_mode r version mode human_clear post_merge_verified) = r
revision_of (of_lease key r version row) = r
revision_of (of_budget key r version row) = r

unfoldable pub write : Fields → Write → Result Error Fields
write doc (of_mode r version mode human_clear post_merge_verified) =
    cas_mode doc r version mode human_clear post_merge_verified
write doc (of_lease key r version row) = cas_lease doc key r version row
write doc (of_budget key r version row) = cas_budget doc key r version row

-- A refused write leaves the document as it was.
abbrev pub settle : Fields → Result Error Fields → Fields
settle doc (ok out) = out
settle doc (err e) = doc

unfoldable pub run : Fields → List Write → Fields
run doc [] = doc
run doc (w ∷ ws) = run (settle doc (write doc w)) ws

undeleted :
    (doc : Fields) (key : String) (r : ℕ) (version : Option ℕ) (out : Fields)
    → cas_lease doc key r version none ≢ ok out
unfolding cas_lease
undeleted doc key r version out h = ground arith

write-Committed :
    (doc : Fields) (w : Write) (out : Fields)
    → write doc w ≡ ok out
    → Committed doc (revision_of w) out
unfolding write
write-Committed doc (of_mode r version mode human_clear verified) out h =
    (cas_mode-Committed doc r version mode human_clear verified out h).0
write-Committed doc (of_lease key r version (some row)) out h =
    (cas_lease-Committed doc key r version row out h).0
write-Committed doc (of_budget key r version row) out h =
    (cas_budget-Committed doc key r version row out h).0
write-Committed doc (of_lease key r version none) out h = absurd (undeleted doc key r version out h)

abbrev revision : Fields → ℕ
revision doc = nat_of (get doc "revision")

settle-revision :
    (doc : Fields) (w : Write) (m : Result Error Fields)
    → write doc w ≡ m
    → revision doc ≤ revision (settle doc m)
settle-revision doc w (ok out) h =
    let c = write-Committed doc w out h in ground (arith, c.before, c.after)
settle-revision doc w (err e) h = omega arith

run-revision : (doc : Fields) (ws : List Write) → revision doc ≤ revision (run doc ws)
unfolding run
run-revision doc [] = omega arith
run-revision doc (w ∷ ws) =
    omega
      (arith, settle-revision doc w (write doc w) refl, run-revision (settle doc (write doc w)) ws)

-- Of the writes that have read the same revision, one at most goes through: once one has, each
-- other is refused, whatever is written in between.
pub write-once :
    (doc : Fields) (w : Write) (out : Fields) (between : List Write) (late : Write) (next : Fields)
    → write doc w ≡ ok out
    → revision_of late ≡ revision_of w
    → write (run out between) late ≢ ok next
write-once doc w out between late next won same h =
    let first = write-Committed doc w out won in
    let second = write-Committed (run out between) late next h in
    let grown = run-revision out between in ground (arith, first.after, second.before)

settle-valid :
    (doc : Fields) (w : Write) (m : Result Error Fields)
    → write doc w ≡ m
    → validate_document doc none ≡ ok tt
    → validate_document (settle doc m) none ≡ ok tt
settle-valid doc w (ok out) h valid = (write-Committed doc w out h).is_valid
settle-valid doc w (err e) h valid = valid

-- A valid document stays valid under any writes, and its revision never goes down.
pub run-valid :
    (doc : Fields) (ws : List Write)
    → validate_document doc none ≡ ok tt
    → (validate_document (run doc ws) none ≡ ok tt)
      × (nat_of (get doc "revision") ≤ nat_of (get (run doc ws) "revision"))
unfolding run
run-valid doc [] valid = (valid, omega arith)
run-valid doc (w ∷ ws) valid =
    let (kept, grown) =
      run-valid (settle doc (write doc w)) ws (settle-valid doc w (write doc w) refl valid) in
    (kept, omega (arith, grown, settle-revision doc w (write doc w) refl))
