-- ===== src/Ledger/Succession.antt =====
-- Which lease record may replace another in the ledger.
use one_company.Prelude.{
  ℕ, ◌<◌, ◌≤◌, ◌≡◌, ◌∙◌, sym, refl, ap, String, true, false, not, ◌&&◌, ◌||◌, Option, some, all, ok,
  >>=-eq-ok, >>-eq-ok, raise_if-then, leb, eq_iff, arith, In, all-In,
}
use one_company.Json.{Json, str, obj, Fields, get, eq_text, py_eq}
use one_company.Ledger.Validate.{one_of, validate_lease}
use one_company.Ledger.Write.{
  nat_of, same_text, is_before, same_fields, bound_fields, same_holder, same_epoch,
  same_owner_epoch, new_epoch, if_in, pending_transition, succession, validate_lease_transition,
  record_at, cas_lease,
}
use one_company.Ledger.Commit.{cas_lease-Committed}

-- The next intent is the current one, but for its state.
pub record SameIntent (cur next : Fields) : Type 0 where
  pub op_id : py_eq (get next "op_id") (get cur "op_id") ≡ true
  pub bound : (k : String) → In k bound_fields → py_eq (get next k) (get cur k) ≡ true

-- A lawful successor: a higher version; no lower epoch, and within an epoch the same holder; no
-- takeover of an active lease before it expires; and an unresolved intent is kept, by the same
-- holder in the same epoch.
pub record Succeeds (cur row : Fields) : Type 0 where
  pub version : nat_of (get cur "version") < nat_of (get row "version")
  pub epoch : nat_of (get cur "epoch") ≤ nat_of (get row "epoch")
  pub holder :
      nat_of (get row "epoch") ≡ nat_of (get cur "epoch")
      → same_text (get row "holder") (get cur "holder") ≡ true
  pub no_takeover :
      get cur "state" ≡ str "ACTIVE"
      → nat_of (get cur "epoch") < nat_of (get row "epoch")
      → is_before (get row "acquired_at") (get cur "expires_at") ≡ false
  pub kept :
      (i : Fields)
      → get cur "intent" ≡ obj i
      → get i "state" ≡ str "PENDING"
      → (next : Fields) × (get row "intent" ≡ obj next)
        × SameIntent i next
        × (nat_of (get row "epoch") ≡ nat_of (get cur "epoch"))
        × (same_text (get row "holder") (get cur "holder") ≡ true)

module _ (cur row : Fields) where
  kept_of_transition :
      (i : Fields) (v : Json) (u : Unit {0})
      → pending_transition cur row i v ≡ ok u
      → (next : Fields) × (v ≡ obj next)
        × SameIntent i next
        × (same_epoch cur row ≡ true)
        × (same_holder cur row ≡ true)
  unfolding pending_transition same_fields
  kept_of_transition i (obj next) u h =
      let (op, h1) = raise_if-then (not (py_eq (get next "op_id") (get i "op_id"))) _ _ h in
      let (bound, h2) =
        raise_if-then (not (all (λ k. py_eq (get next k) (get i k)) bound_fields)) _ _ h1 in
      let (known, _, h3) = >>=-eq-ok (one_of _ (get next "state")) _ h2 in
      let (_, h4) = raise_if-then (not known) _ _ h3 in
      (
        next,
        refl,
        record {
          op_id = ground arith;
          bound = all-In (λ k. py_eq (get next k) (get i k)) bound_fields (ground arith);
        },
        ground arith,
        ground arith,
      )
  kept_of_transition i Json.null u h = cc
  kept_of_transition i _ u h = cc

  Succeeds-of_succession : (u : Unit {0}) → succession cur row ≡ ok u → Succeeds cur row
  unfolding succession
  Succeeds-of_succession u h =
      let (_, _, h1) = >>-eq-ok (validate_lease cur) _ h in
      let (newer, h2) =
        raise_if-then (leb (nat_of (get row "version")) (nat_of (get cur "version"))) _ _ h1 in
      let (epochs, h3) =
        raise_if-then (not (same_owner_epoch cur row || new_epoch cur row)) _ _ h2 in
      let (taken, h4) =
        raise_if-then
          (eq_text (get cur "state") "ACTIVE"
            && new_epoch cur row
            && is_before (get row "acquired_at") (get cur "expires_at"))
          _ _ h3 in
      let (v, pending, _) =
        >>-eq-ok
          (if_in cur row "PENDING" (get cur "intent")
            (λ i. pending_transition cur row i (get row "intent")))
          _ h4 in
      record {
        version = ground arith;
        epoch = ground arith;
        holder = λ e. ground arith;
        no_takeover = λ a e. ground (arith, eq_iff "ACTIVE" "ACTIVE");
        kept = λ i a p.
            let (next, there, same, e, s) =
              kept_of_transition i (get row "intent") v
                (ground (arith, eq_iff "PENDING" "PENDING")) in
            (next, there, same, ground arith, s);
      }

-- A lease record of the ledger is replaced only by a lawful successor.
pub cas_lease-Succeeds :
    (doc : Fields) (key : String) (r : ℕ) (expected : Option ℕ) (cur row out : Fields)
    → record_at doc "leases" key ≡ obj cur
    → cas_lease doc key r expected (some row) ≡ ok out
    → (record_at out "leases" key ≡ obj row) × Succeeds cur row
unfolding validate_lease_transition
cas_lease-Succeeds doc key r expected cur row out there h =
    let (_, replaced, lawful) = cas_lease-Committed doc key r expected row out h in
    let (u, _, after) =
      >>-eq-ok (validate_lease row) (succession cur row)
        (ap (λ v. validate_lease_transition v row) (sym there) ∙ lawful) in
    (replaced.stored, Succeeds-of_succession cur row u after)
