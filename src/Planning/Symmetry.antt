-- ===== src/Planning/Symmetry.antt =====
-- A conflict of work units, of scripts/planning_lib.py, does not depend on which one is asked about.
use one_company.Prelude.{
  ◌≡◌, refl, sym, String, Bool, true, false, not, ◌&&◌, ◌||◌, List, [], ◌∷◌, ◌++◌, any, is_empty,
  ◌==◌, Dict, arith, eq_iff,
}
use one_company.Json.{Json, Fields, get, eq_text}
use one_company.Planning.Scopes.{
  scopes_overlap, locks_overlap, scopes_overlap_comm, locks_overlap_comm, or_comm, text-eq-sym,
}
use one_company.Planning.Conflicts.{
  WorkItem, when, any_pair, texts_of, shown_id, dependency_view, is_unknown, depends, are_related,
  scope_reasons, reasons_of, work_units_conflict,
}

when_comm :
    (b c : Bool) (x : String) (r : List String)
    → when b x ++ (when c x ++ r) ≡ when c x ++ (when b x ++ r)
when_comm true true x r = refl
when_comm true false x r = refl
when_comm false true x r = refl
when_comm false false x r = refl

any-or : (p q : String → Bool) (l : List String) → any (λ y. p y || q y) l ≡ (any p l || any q l)
unfolding any
any-or p q [] = refl
any-or p q (y ∷ l) = let rest = any-or p q l in ground (arith, rest)

any_pair-nil : (f : String → String → Bool) (l : List String) → any_pair f l [] ≡ false
unfolding any
any_pair-nil f [] = refl
any_pair-nil f (y ∷ l) = any_pair-nil f l

any_pair-cons :
    (f : String → String → Bool) (x : String) (xs ys : List String)
    → any_pair f ys (x ∷ xs) ≡ (any (λ y. f y x) ys || any_pair f ys xs)
unfolding any
any_pair-cons f x xs ys = any-or (λ y. f y x) (λ y. any (f y) xs) ys

any-cong :
    (p q : String → Bool) → ((y : String) → p y ≡ q y) → (l : List String) → any p l ≡ any q l
unfolding any
any-cong p q h [] = refl
any-cong p q h (y ∷ l) = let rest = any-cong p q h l in ground (arith, rest, h y)

any_pair_comm :
    (f : String → String → Bool)
    → ((a b : String) → f a b ≡ f b a)
    → (xs ys : List String) → any_pair f xs ys ≡ any_pair f ys xs
unfolding any
any_pair_comm f h [] ys = sym (any_pair-nil f ys)
any_pair_comm f h (x ∷ xs) ys =
    let rest = any_pair_comm f h xs ys in
    let first = any-cong (f x) (λ y. f y x) (h x) ys in
    let split = any_pair-cons f x xs ys in ground (arith, rest, first, split)

module _ (repr : Json → String) (fnmatchcase : String → String → Bool) (planning : Fields)
    (work_map : Dict Fields) where
  scope_reasons_comm :
      (xs ys : List String)
      → scope_reasons repr fnmatchcase planning work_map xs ys
        ≡ scope_reasons repr fnmatchcase planning work_map ys xs
  scope_reasons_comm xs ys =
      rw
        (
          or_comm (is_empty xs) (is_empty ys),
          any_pair_comm (scopes_overlap fnmatchcase) (scopes_overlap_comm fnmatchcase) xs ys,
        )
        refl

  are_related_comm :
      (left right : WorkItem)
      → are_related repr fnmatchcase planning work_map left right
        ≡ are_related repr fnmatchcase planning work_map right left
  are_related_comm left right = ground arith

  reasons_of_comm :
      (left right : WorkItem)
      → reasons_of repr fnmatchcase planning work_map left right
        ≡ reasons_of repr fnmatchcase planning work_map right left
  reasons_of_comm left right =
      let l = left.fields in
      let r = right.fields in
      let left_view = dependency_view repr left work_map in
      let right_view = dependency_view repr right work_map in
      rw
        (
          or_comm (eq_text (get l "parallelism") "serial") (eq_text (get r "parallelism") "serial"),
          or_comm (eq_text (get l "risk_class") "CRITICAL")
              (eq_text (get r "risk_class") "CRITICAL"),
          or_comm (is_unknown repr fnmatchcase planning work_map left_view)
              (is_unknown repr fnmatchcase planning work_map right_view),
          are_related_comm left right,
          any_pair_comm locks_overlap locks_overlap_comm (texts_of repr l "resource_locks")
              (texts_of repr r "resource_locks"),
          scope_reasons_comm (texts_of repr l "write_scope") (texts_of repr r "write_scope"),
          when_comm (depends repr fnmatchcase planning work_map (shown_id repr r) left_view)
              (depends repr fnmatchcase planning work_map (shown_id repr l) right_view)
              "dependency_relationship" _,
        )
        refl

  -- Whether two work units conflict, and for which reasons, does not depend on the order in which they
  -- are given.
  pub work_units_conflict_comm :
      (left right : WorkItem)
      → work_units_conflict repr fnmatchcase planning work_map left right
        ≡ work_units_conflict repr fnmatchcase planning work_map right left
  unfolding work_units_conflict
  work_units_conflict_comm left right =
      let l = shown_id repr left.fields in
      let r = shown_id repr right.fields in
      let same : (not (l == "") && (l == r)) ≡ (not (r == "") && (r == l)) =
        ground (arith, text-eq-sym l r, eq_iff l r, eq_iff l "", eq_iff r "") in
      rw (same, reasons_of_comm left right) refl
