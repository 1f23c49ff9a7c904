-- ===== src/Planning/Admission.antt =====
-- `implementation_admission_violations` of scripts/planning_lib.py.
use one_company.Prelude.{
  ℕ, String, Bool, true, not, ◌&&◌, List, [], ◌∷◌, ◌++◌, Option, some, none, given, length, leb, ℤ,
  pos, negsuc, ◌==◌, if◌then◌else◌, Dict,
}
use one_company.Json.{Json, int, Fields, get, has, eq_text}
use one_company.Liveness.{is_truthy}
use one_company.Planning
use one_company.Planning.Ready.{id_of}
use one_company.Planning.Conflicts.{WorkItem, settings, work_item_for_lease, work_units_conflict}

pub data Violation : Type 0 where
  already_active : (work_unit : String) (with_lease_id : Json) → Violation
  wip_limit_reached : (limit : ℤ) (active : ℕ) → Violation
  actor_capacity_reached : (actor : String) (limit : ℤ) (active : ℕ) → Violation
  unit_conflict : (with_work_unit with_lease_id : Json) (details : List String) → Violation

-- item.get("role", "implementation") == "implementation"
abbrev pub is_implementation : Fields → Bool
is_implementation lease =
    if has lease "role" then eq_text (get lease "role") "implementation" else true

unfoldable pub filter_leases : (Fields → Bool) → List Fields → List Fields
filter_leases p [] = []
filter_leases p (l ∷ ls) = let rest = filter_leases p ls in if p l then l ∷ rest else rest

-- count >= limit
abbrev pub reaches : ℕ → ℤ → Bool
reaches count (pos n) = leb n count
reaches count (negsuc n) = true

-- The first lease that has it, as `next` finds it.
unfoldable pub find_lease : (Fields → Bool) → List Fields → Option Fields
find_lease p [] = none
find_lease p (l ∷ ls) = let rest = find_lease p ls in if p l then some l else rest

-- `repr` is str, and `py_int` int, on values that are no texts and no integers.
module _ (repr : Json → String) (py_int : Json → ℤ) (fnmatchcase : String → String → Bool) where
  abbrev pub int_of : Json → ℤ
  int_of (int n) = n
  int_of v = py_int v

  -- str(item.get("work_unit") or item.get("id") or "")
  abbrev pub unit_of : Fields → String
  unit_of lease =
      let wu = get lease "work_unit" in
      if is_truthy wu then Planning.text_of repr wu else id_of repr lease

  -- int(parallel.get("max_concurrent_implementation_streams", 1) or 1)
  abbrev pub wip_limit : Fields → ℤ
  wip_limit planning =
      let v = get (settings planning) "max_concurrent_implementation_streams" in
      if is_truthy v then int_of v else pos 1

  module _ (planning : Fields) (work_map : Dict Fields) where
    abbrev pub same_unit : String → List Fields → List Violation
    same_unit candidate_id active =
        given (find_lease (λ l. unit_of l == candidate_id) active) []
          λ l. already_active candidate_id (get l "id") ∷ []

    abbrev pub over_limit : List Fields → List Violation
    over_limit active =
        let limit = wip_limit planning in
        if reaches (length active) limit then wip_limit_reached limit (length active) ∷ [] else []

    abbrev pub leases_of : String → List Fields → ℕ
    leases_of actor active = length (filter_leases (λ l. eq_text (get l "actor") actor) active)

    abbrev pub over_capacity : Option String → Option ℤ → List Fields → List Violation
    over_capacity none limit active = []
    over_capacity (some actor) none active = []
    over_capacity (some actor) (some limit) active =
        if not (actor == "") && reaches (leases_of actor active) limit
        then actor_capacity_reached actor limit (leases_of actor active) ∷ []
        else []

    abbrev pub conflict_with : WorkItem → Fields → List Violation
    conflict_with candidate lease =
        let other = work_item_for_lease repr lease work_map in
        if id_of repr other.fields == id_of repr candidate.fields
        then []
        else (let (conflict, reasons) =
              work_units_conflict repr fnmatchcase planning work_map candidate other in
            if conflict
            then unit_conflict (get other.fields "id") (get lease "id") reasons ∷ []
            else [])

    unfoldable pub conflicts_with : WorkItem → List Fields → List Violation
    conflicts_with candidate [] = []
    conflicts_with candidate (lease ∷ leases) =
        conflict_with candidate lease ++ conflicts_with candidate leases

    unfoldable pub implementation_admission_violations :
        (candidate : WorkItem) (active_leases : List Fields) (actor : Option String)
        (actor_limit : Option ℤ)
        → List Violation
    implementation_admission_violations candidate active_leases actor actor_limit =
        let active = filter_leases is_implementation active_leases in
        same_unit (id_of repr candidate.fields) active
        ++ (over_limit active
            ++ (over_capacity actor actor_limit active ++ conflicts_with candidate active))
