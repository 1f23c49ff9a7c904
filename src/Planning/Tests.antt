-- ===== src/Planning/Tests.antt =====
-- Runs of the planning of dependencies, and its theorems there.
use one_company.Prelude.{
  ◌≤◌, List, length, arith, ℤ, pos, inl, inr, subst, ap, sym, strip, starts_with, eqb, ◌==◌,
  if◌then◌else◌, ◌&&◌, ◌||◌, Bool, none, some, ◌≡◌, ◌↔◌, refl, String, true, false, [], ◌∷◌, any,
  lookup, Dict, In,
}
use one_company.Json.{
  Json, int, bool, obj, has, put, str, arr, Items, nil, cons, Fields, field, end, get,
}
use one_company.Execution.Context.{sorted_set, insert_text}
use one_company.Planning.{closing, pushed, close, weight, dependency_closure}
use one_company.Planning.Closure.{Reach, dependency_closure-Reach_iff}
use Prim.Native.Char.{code}
use one_company.Planning.Scopes.{
  slashes, lstrip_chars, rstrip_slashes, any_char, until_char, drop_here, split_slashes, normalize,
  bare, scope_prefix, scope_covers_path, scopes_overlap, ends_with_star, all_but_last,
  locks_overlap,
}
use one_company.Planning.Conflicts.{work_item_for_lease, dependency_view, work_units_conflict}
use one_company.Planning.Symmetry.{work_units_conflict_comm}
use one_company.Planning.Admission.{
  filter_leases, find_lease, conflicts_with, implementation_admission_violations,
}
use one_company.Planning.Admissible.{
  item_of, IsAdmissible, implementation_admission_violations-nil_iff,
}
use one_company.Planning.Admitted.{
  Claim, Event, claims, releases, step, run, IsLease, Separate, run-Separate,
}
use one_company.Planning.Ready.{truthy, missing_of, unsatisfied_of, required_of, dependency_ready}

program : Unit {0}
unfolding any lookup get pushed close weight dependency_closure sorted_set insert_text truthy
    missing_of unsatisfied_of required_of dependency_ready
program = tt

abbrev repr : Json → String
repr v = "?"

abbrev unit_of : (id status : String) → Items → Fields
unit_of id status needs =
    field "id" (str id) (field "status" (str status) (field "dependencies" (arr needs) end))

-- C needs B, B and A need each other, and A needs D, which is in no map.
abbrev work_map : Dict Fields
work_map =
    ("A", unit_of "A" "MERGED" (cons (str "B") (cons (str "D") nil)))
    ∷ ("B", unit_of "B" "DONE" (cons (str "A") nil))
    ∷ ("C", unit_of "C" "READY" (cons (str "B") nil))
    ∷ []

cycle : dependency_closure repr work_map "C" ≡ ("D" ∷ "A" ∷ "B" ∷ [])
unfolding program
cycle = refl

unready : dependency_ready repr (unit_of "C" "READY" nil) work_map [] ≡ some (false, "D" ∷ [], [])
unfolding program
unready = refl

ready : dependency_ready repr (unit_of "C" "READY" nil) work_map ("D" ∷ []) ≡ some (true, [], [])
unfolding program
ready = refl

-- A status that is a list has no hash.
unhashable :
    dependency_ready repr
      (unit_of "E" "READY" (cons (str "F") nil))
      (("F", field "status" (arr nil) end) ∷ [])
      []
    ≡ none
unfolding program
unhashable = refl

dependency_closure-Reach_iff_example :
    (closing repr work_map "C" ≡ some (dependency_closure repr work_map "C"))
    × ((y : String) → In y (dependency_closure repr work_map "C") ↔ Reach repr work_map "C" y)
dependency_closure-Reach_iff_example = dependency_closure-Reach_iff repr work_map "C"

-- A matcher of file names, for patterns with no wildcard but *.
unfoldable any_suffix : (String → Bool) → String → Bool
any_suffix f String.[] = f ""
any_suffix f (String.◌∷◌ c s) = f (String.◌∷◌ c s) || any_suffix f s

unfoldable glob : (pattern name : String) → Bool
glob String.[] name = name == ""
glob (String.◌∷◌ c p) String.[] = let rest = glob p "" in eqb (code c) b'*' && rest
glob (String.◌∷◌ c p) (String.◌∷◌ d s) =
    if eqb (code c) b'*'
    then any_suffix (glob p) (String.◌∷◌ d s)
    else eqb (code c) (code d) && glob p s

abbrev fnmatchcase : String → String → Bool
fnmatchcase name pattern = glob pattern name

overlapping : Unit {0}
unfolding any strip starts_with slashes lstrip_chars rstrip_slashes any_char until_char drop_here
    split_slashes normalize bare scope_prefix scopes_overlap ends_with_star all_but_last
    locks_overlap any_suffix glob
overlapping = tt

locks : (locks_overlap "db:*" "db:users" ≡ true) × (locks_overlap "db" "db:users" ≡ false)
unfolding overlapping
locks = (refl, refl)

scopes :
    (scopes_overlap fnmatchcase "src/a/" "./src/a/b" ≡ true)
    × (scopes_overlap fnmatchcase "src/a" "src/ab" ≡ false)
unfolding overlapping
scopes = (refl, refl)

-- Two scopes that cover a path both and do not overlap.
missed :
    (scope_covers_path fnmatchcase "src/a*.py" "src/ab/x.py" ≡ true)
    × (scope_covers_path fnmatchcase "src/ab" "src/ab/x.py" ≡ true)
    × (scopes_overlap fnmatchcase "src/a*.py" "src/ab" ≡ false)
unfolding overlapping
missed = (refl, refl, refl)

abbrev py_int : Json → ℤ
py_int v = pos 1

abbrev planning : Fields
planning =
    field "parallel_execution"
      (obj (
        field "enabled" (bool true)
          (field "max_concurrent_implementation_streams" (int (pos 2)) end)))
      end

abbrev lease_of : (id work_unit scope lock : String) → Fields
lease_of id work_unit scope lock = field "id" (str id) (
    field "work_unit" (str work_unit) (
      field "actor" (str "alice") (
        field "planning_snapshot"
          (obj (
            field "write_scope" (arr (cons (str scope) nil)) (
              field "resource_locks" (arr (cons (str lock) nil))
                (field "dependency_closure" (arr nil) end))))
          end)))

abbrev lease_a : Fields
lease_a = lease_of "L1" "WU-1" "src/a" "db:users"

abbrev lease_b : Fields
lease_b = lease_of "L2" "WU-2" "src/a/b" "db:*"

abbrev lease_c : Fields
lease_c = lease_of "L3" "WU-3" "docs" "site"

abbrev claim_of : Fields → Claim
claim_of lease = record { lease = lease; actor = some "alice"; actor_limit = some (pos 3) }

admitting : Unit {0}
unfolding overlapping program has put work_item_for_lease dependency_view work_units_conflict
    filter_leases find_lease conflicts_with implementation_admission_violations step run
admitting = tt

conflicting :
    work_units_conflict repr fnmatchcase planning []
      (item_of repr py_int fnmatchcase planning [] lease_a)
      (item_of repr py_int fnmatchcase planning [] lease_b)
    ≡ (true, "resource_lock_overlap" ∷ "write_scope_overlap" ∷ [])
unfolding admitting
conflicting = refl

abbrev events : List Event
events = claims (claim_of lease_a) ∷ claims (claim_of lease_b) ∷ claims (claim_of lease_c) ∷ []

-- The second lease conflicts with the first one.
in_force : run repr py_int fnmatchcase planning [] [] events ≡ lease_c ∷ lease_a ∷ []
unfolding admitting
in_force = refl

-- The first one's release lets the second one in.
released_first :
    run repr py_int fnmatchcase planning []
      (lease_a ∷ [])
      (releases "L1" ∷ claims (claim_of lease_b) ∷ [])
    ≡ lease_b ∷ []
unfolding admitting
released_first = refl

work_units_conflict_comm_example :
    work_units_conflict repr fnmatchcase planning []
      (item_of repr py_int fnmatchcase planning [] lease_b)
      (item_of repr py_int fnmatchcase planning [] lease_a)
    ≡ (true, "resource_lock_overlap" ∷ "write_scope_overlap" ∷ [])
unfolding admitting
work_units_conflict_comm_example =
    work_units_conflict_comm repr fnmatchcase planning []
      (item_of repr py_int fnmatchcase planning [] lease_b)
      (item_of repr py_int fnmatchcase planning [] lease_a)

implementation_admission_violations-nil_iff_example :
    (implementation_admission_violations repr py_int fnmatchcase planning []
        (item_of repr py_int fnmatchcase planning [] lease_c)
        (lease_a ∷ [])
        (some "alice")
        (some (pos 3))
      ≡ [])
    ↔ IsAdmissible repr py_int fnmatchcase planning []
        (item_of repr py_int fnmatchcase planning [] lease_c)
        (lease_a ∷ [])
        (some "alice")
        (some (pos 3))
unfolding admitting
implementation_admission_violations-nil_iff_example =
    implementation_admission_violations-nil_iff repr py_int fnmatchcase planning []
      (item_of repr py_int fnmatchcase planning [] lease_c) (lease_a ∷ []) (some "alice")
      (some (pos 3))

is_lease :
    (id work_unit scope lock : String)
    → (work_unit == "") ≡ false
    → IsLease repr py_int fnmatchcase planning [] (lease_of id work_unit scope lock)
unfolding admitting
is_lease id work_unit scope lock h = record { implementation = refl; named = ground (arith, h) }

lease-eq : {c d : Claim} → claims c ≡ claims d → d.lease ≡ c.lease
lease-eq e = ap (λ x. elim x [ claims c ↦ c.lease | releases id ↦ end ]) (sym e)

regular : (c : Claim) → In (claims c) events → IsLease repr py_int fnmatchcase planning [] c.lease
regular c (inl e) =
    subst (λ l. IsLease repr py_int fnmatchcase planning [] l) (lease-eq e)
      (is_lease "L1" "WU-1" "src/a" "db:users" refl)
regular c (inr (inl e)) =
    subst (λ l. IsLease repr py_int fnmatchcase planning [] l) (lease-eq e)
      (is_lease "L2" "WU-2" "src/a/b" "db:*" refl)
regular c (inr (inr (inl e))) =
    subst (λ l. IsLease repr py_int fnmatchcase planning [] l) (lease-eq e)
      (is_lease "L3" "WU-3" "docs" "site" refl)
regular c (inr (inr (inr e))) = absurd e

run-Separate_example :
    Separate repr py_int fnmatchcase planning [] (lease_c ∷ lease_a ∷ [])
    × (length (lease_c ∷ lease_a ∷ []) ≤ 2)
unfolding admitting
run-Separate_example = run-Separate repr py_int fnmatchcase planning [] 2 events refl regular
