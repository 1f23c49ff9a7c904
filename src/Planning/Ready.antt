-- ===== src/Planning/Ready.antt =====
-- `dependency_ready` of scripts/planning_lib.py: the dependencies of a work unit that are not done.
use one_company.Prelude.{
  ◌≡◌, ◌⊎◌, String, Bool, true, false, not, ◌&&◌, ◌||◌, List, [], ◌∷◌, Option, none, some, is_empty,
  ◌==◌, given, if◌then◌else◌, Dict, lookup, map,
}
use one_company.Json.{Json, str, Fields, get, eq_text, is_hashable}
use one_company.Liveness.{is_truthy}
use one_company.Execution.Context.{sorted_set}
use one_company.Planning.{member, items_of, text_of, dependency_closure}

-- status in DONE; a list or an object has no hash, and `in` raises a TypeError.
abbrev pub is_done : Json → Option Bool
is_done v = if is_hashable v then some (eq_text v "MERGED" || eq_text v "DONE") else none

-- [item for item in l if item]
unfoldable pub truthy : List Json → List Json
truthy [] = []
truthy (v ∷ l) = let rest = truthy l in if is_truthy v then v ∷ rest else rest

abbrev pub is_known : Dict Fields → String → Bool
is_known work_map x = given (lookup work_map x) false (λ item. true)

-- work_map[dep].get("status") not in DONE, of a dependency that the map has
abbrev pub is_unsatisfied : Dict Fields → String → Option Bool
is_unsatisfied work_map x =
    given (lookup work_map x) (some false)
      (λ item. given (is_done (get item "status")) none (λ b. some (not b)))

-- A dependency that the durable ledger has is passed over before its status is read.
abbrev pub is_open : Dict Fields → (durable_done : List String) → String → Option Bool
is_open work_map durable_done x =
    if member x durable_done then some false else is_unsatisfied work_map x

unfoldable pub missing_of : Dict Fields → (durable_done required : List String) → List String
missing_of work_map durable_done [] = []
missing_of work_map durable_done (x ∷ l) =
    let rest = missing_of work_map durable_done l in
    if not (member x durable_done) && not (is_known work_map x) then x ∷ rest else rest

unfoldable pub unsatisfied_of :
    Dict Fields → (durable_done required : List String) → Option (List String)
unsatisfied_of work_map durable_done [] = some []
unsatisfied_of work_map durable_done (x ∷ l) =
    let rest = unsatisfied_of work_map durable_done l in
    given (is_open work_map durable_done x) none
      λ b. given rest none λ xs. some (if b then x ∷ xs else xs)

module _ (repr : Json → String) where
  -- str(item.get("id") or "")
  abbrev pub id_of : Fields → String
  id_of item = let v = get item "id" in if is_truthy v then text_of repr v else ""

  unfoldable pub required_of : Dict Fields → Fields → List String
  required_of work_map item =
      let id = id_of item in
      if not (id == "") && is_known work_map id
      then sorted_set (dependency_closure repr work_map id)
      else sorted_set (map (text_of repr) (truthy (items_of (get item "dependencies"))))

  -- none is the TypeError of a status that has no hash.
  unfoldable pub dependency_ready :
      Fields
      → Dict Fields
      → (durable_done : List String) → Option (Bool × List String × List String)
  dependency_ready item work_map durable_done =
      let required = required_of work_map item in
      let missing = missing_of work_map durable_done required in
      given (unsatisfied_of work_map durable_done required) none
        λ unsatisfied. some (is_empty missing && is_empty unsatisfied, missing, unsatisfied)

-- A dependency that is done: by the durable ledger, or by its status in the work map.
abbrev pub Met : Dict Fields → List String → String → Type 0
Met work_map durable_done x =
    (member x durable_done ≡ true)
    ⊎ ((item : Fields) × (lookup work_map x ≡ some item)
        × ((get item "status" ≡ str "MERGED") ⊎ (get item "status" ≡ str "DONE")))

-- A true answer, which a TypeError is not.
abbrev pub is_ready : Option (Bool × List String × List String) → Bool
is_ready r = given r false (λ t. t.0)
