-- ===== src/Planning/Conflicts.antt =====
-- `work_item_for_lease`, `_dependency_view` and `work_units_conflict` of scripts/planning_lib.py. A
-- list of the mappings is a list, and the map of the work units is keyed by their ids.
use one_company.Prelude.{
  String, Bool, true, false, not, ◌&&◌, ◌||◌, List, [], ◌∷◌, ◌++◌, map, Option, some, none, given,
  any, is_empty, ◌==◌, if◌then◌else◌, Dict, lookup,
}
use one_company.Json.{
  Json, str, arr, nil, cons, Fields, end, field, get, has, put, eq_text, as_dict,
}
use one_company.Liveness.{is_truthy}
use one_company.Execution.Context.{sorted_set}
use one_company.Planning.{items_of, member, dependency_closure}
use one_company.Planning
use one_company.Planning.Ready.{truthy, is_known, id_of}
use one_company.Planning.Scopes.{scopes_overlap, locks_overlap}

-- A work unit, and whether it is the very entry of the work map (`is`, not `==`).
pub record WorkItem : Type 0 where
  pub fields : Fields
  pub from_queue : Bool

abbrev pub is_nonempty : Fields → Bool
is_nonempty end = false
is_nonempty (field k v d) = true

-- {"id": wu, **snapshot}
abbrev pub with_id : Json → Fields → Fields
with_id id snapshot = if has snapshot "id" then snapshot else put snapshot "id" id

-- What nothing is known of conflicts with everything.
abbrev pub placeholder : String → Fields
placeholder wu = field "id" (str wu) (
    field "parallelism" (str "serial") (
      field "write_scope" (arr nil) (
        field "resource_locks" (arr (cons (str "*") nil)) (
          field "risk_class" (str "CRITICAL")
            (field "dependencies" (arr nil) (field "dependency_closure" (arr nil) end))))))

-- planning.get(key, {}), for a mapping
abbrev pub settings : Fields → Fields
settings planning = given (as_dict (get planning "parallel_execution")) end (λ d. d)

-- d.get(key, True)
abbrev pub is_on_by_default : Fields → String → Bool
is_on_by_default d key = if has d key then is_truthy (get d key) else true

abbrev pub closure_list : Json → Option (List Json)
closure_list (arr vs) = some (items_of (arr vs))
closure_list _ = none

abbrev pub when : Bool → String → List String
when b reason = if b then reason ∷ [] else []

abbrev pub any_pair : (String → String → Bool) → List String → List String → Bool
any_pair f xs ys = any (λ x. any (λ y. f x y) ys) xs

module _ (repr : Json → String) where
  -- [str(v) for v in item.get(key, [])]
  abbrev pub texts_of : Fields → String → List String
  texts_of item key = map (Planning.text_of repr) (items_of (get item key))

  -- str(item.get("id", ""))
  abbrev pub shown_id : Fields → String
  shown_id item = if has item "id" then Planning.text_of repr (get item "id") else ""

  abbrev pub work_unit_of : Fields → String
  work_unit_of lease =
      let v = get lease "work_unit" in if is_truthy v then Planning.text_of repr v else ""

  abbrev pub queued_item : Dict Fields → String → WorkItem
  queued_item work_map wu =
      given (if wu == "" then none else lookup work_map wu)
        (record { fields = placeholder wu; from_queue = false })
        (λ item. record { fields = item; from_queue = true })

  unfoldable pub work_item_for_lease : (lease : Fields) → Dict Fields → WorkItem
  work_item_for_lease lease work_map =
      let wu = work_unit_of lease in
      given (as_dict (get lease "planning_snapshot")) (queued_item work_map wu) λ snapshot.
        if is_nonempty snapshot
        then record { fields = with_id (str wu) snapshot; from_queue = false }
        else queued_item work_map wu

  -- The closure, if it is known to be complete; else none.
  unfoldable pub dependency_view : WorkItem → Dict Fields → Option (List String)
  dependency_view item work_map =
      let id = id_of repr item.fields in
      if not (id == "") && is_known work_map id && item.from_queue
      then some (dependency_closure repr work_map id)
      else given (closure_list (get item.fields "dependency_closure")) none
          (λ vs. some (map (Planning.text_of repr) (truthy vs)))

  module _ (fnmatchcase : String → String → Bool) (planning : Fields) (work_map : Dict Fields) where
    abbrev pub is_unknown : Option (List String) → Bool
    is_unknown none = true
    is_unknown (some closure) = false

    -- id and id in closure
    abbrev pub depends : String → Option (List String) → Bool
    depends id closure = not (id == "") && member id (given closure [] (λ c. c))

    -- left is work_map.get(left_id)
    abbrev pub is_entry : WorkItem → String → Bool
    is_entry item id = item.from_queue && is_known work_map id

    abbrev pub are_related : WorkItem → WorkItem → Bool
    are_related left right =
        let l = shown_id left.fields in
        let r = shown_id right.fields in
        not (l == "")
        && not (r == "")
        && is_entry left l
        && is_entry right r
        && (member r (dependency_closure repr work_map l)
            || member l (dependency_closure repr work_map r))

    abbrev pub scope_reasons : List String → List String → List String
    scope_reasons left right =
        if is_on_by_default (settings planning) "require_write_scope_for_parallel"
          && (is_empty left || is_empty right)
        then "unknown_write_scope" ∷ []
        else when (any_pair (scopes_overlap fnmatchcase) left right) "write_scope_overlap"

    -- The reasons, in the order that they are found.
    abbrev pub reasons_of : WorkItem → WorkItem → List String
    reasons_of left right =
        let l = left.fields in
        let r = right.fields in
        let left_view = dependency_view left work_map in
        let right_view = dependency_view right work_map in
        when (eq_text (get l "parallelism") "serial" || eq_text (get r "parallelism") "serial")
          "serial_policy"
        ++ (when
              ((eq_text (get l "risk_class") "CRITICAL" || eq_text (get r "risk_class") "CRITICAL")
                && eq_text (get (settings planning) "critical_risk_default") "serialize")
              "critical_risk_serialized"
            ++ (when (is_unknown left_view || is_unknown right_view) "unknown_dependency_closure"
                ++ (when (depends (shown_id r) left_view) "dependency_relationship"
                    ++ (when (depends (shown_id l) right_view) "dependency_relationship"
                        ++ (when (are_related left right) "dependency_relationship"
                            ++ (when
                                  (any_pair locks_overlap (texts_of l "resource_locks")
                                    (texts_of r "resource_locks"))
                                  "resource_lock_overlap"
                                ++ scope_reasons (texts_of l "write_scope")
                                    (texts_of r "write_scope")))))))

    unfoldable pub work_units_conflict : WorkItem → WorkItem → Bool × List String
    work_units_conflict left right =
        let l = shown_id left.fields in
        if not (l == "") && (l == shown_id right.fields)
        then (true, "same_work_unit" ∷ [])
        else if not (is_truthy (get (settings planning) "enabled"))
        then (true, "parallel_execution_disabled" ∷ [])
        else (let reasons = reasons_of left right in (not (is_empty reasons), sorted_set reasons))
