-- ===== src/Planning.antt =====
-- scripts/planning_lib.py: the dependencies of a work unit. A work map is the list of its entries, and
-- the value of "dependencies" a list.
pub mod Closure
pub mod Ready
pub mod Scopes
pub mod Conflicts
pub mod Symmetry
pub mod Admission
pub mod Admissible
pub mod Admitted
mod Tests
use one_company.Prelude.{
  ℕ, zero, suc, ◌+◌, String, Bool, true, false, ◌||◌, List, [], ◌∷◌, Option, none, some, any,
  length, ◌==◌, given, if◌then◌else◌, Dict, lookup, map,
}
use one_company.Json.{Json, str, arr, Fields, get, to_list}

-- The items of a value that is a list; a missing one has none.
abbrev pub items_of : Json → List Json
items_of (arr vs) = to_list vs
items_of _ = []

abbrev pub member : String → List String → Bool
member x l = any (λ y. y == x) l

-- stack.extend(xs), with the end of the stack in front.
unfoldable pub pushed : List String → List String → List String
pushed [] stack = stack
pushed (x ∷ xs) stack = pushed xs (x ∷ stack)

-- `repr` is str on values that are no texts.
module _ (repr : Json → String) where
  abbrev pub text_of : Json → String
  text_of (str s) = s
  text_of v = repr v

  abbrev pub dependencies_of : Fields → List String
  dependencies_of item = map text_of (items_of (get item "dependencies"))

  -- work_map.get(node, {}).get("dependencies", [])
  abbrev pub dependencies : Dict Fields → String → List String
  dependencies work_map node = given (lookup work_map node) [] dependencies_of

  -- The loop of `dependency_closure`, in so many turns at most.
  unfoldable pub close :
      (turns : ℕ) → Dict Fields → (result stack : List String) → Option (List String)
  close turns work_map result [] = some result
  close zero work_map result (node ∷ stack) = none
  close (suc turns) work_map result (node ∷ stack) =
      let known = member node result in
      close turns work_map (if known then result else node ∷ result)
        (if known then stack else pushed (dependencies work_map node) stack)

  -- The dependencies of the work units that are not in a result.
  unfoldable pub weight : Dict Fields → (result : List String) → ℕ
  weight [] result = 0
  weight ((k, item) ∷ work_map) result =
      (if member k result then 0 else length (dependencies_of item)) + weight work_map result

  -- Enough turns.
  abbrev pub turns_of : Dict Fields → (start : String) → ℕ
  turns_of work_map start = length (dependencies work_map start) + weight work_map []

  -- `dependency_closure`, or none if the loop has not ended.
  abbrev pub closing : Dict Fields → (start : String) → Option (List String)
  closing work_map start =
      close (turns_of work_map start) work_map [] (pushed (dependencies work_map start) [])

  unfoldable pub dependency_closure : Dict Fields → (start : String) → List String
  dependency_closure work_map start = given (closing work_map start) [] (λ result. result)
