-- ===== src/StateMachine/Reduce/Gates.antt =====
-- The gates of a merge, apart from the code: what MERGE_READY promises.
use one_company.Prelude.{
  ℕ, suc, String, ◌≡◌, Bool, true, false, List, [], ◌∷◌, some, pos, arith, Result, ok, any, eq_refl,
}
use Prim.Native.String.{◌++◌}
use one_company.Json.{Json, null, bool, int, str, Fields, get, get_or, eq_text-eq, is_true-eq}
use one_company.StateMachine.Defs.{
  merge_ready, await_authorized_expected_head_merge, Error, required_bool, bool_or_raise, as_sha,
  bound_exact_refs, Stream,
}
use one_company.StateMachine.Reduce.{
  Outcome, at, as_actor, as_authors, is_author, decide_reviewer, decide_review,
}

abbrev pub ready : Result Error Outcome
ready = at merge_ready await_authorized_expected_head_merge

-- Evidence of the part `prefix` was taken on the exact refs.
pub record IsBound (e : Fields) (prefix head base : String) : Type 0 where
  pub on_head : get e (prefix ++ "_head_sha") ≡ str head
  pub on_base : get e (prefix ++ "_base_sha") ≡ str base

-- An eligible reviewer who wrote none of the change, and a change that can be merged.
pub record IsReviewed (lower : String → String) (e : Fields) (head : String) : Type 0 where
  pub reviewer : String
  pub authors : List String
  pub reviewer_named : as_actor (get e "reviewer_actor") ≡ some reviewer
  pub authors_named : as_authors (get e "material_authors") ≡ some authors
  pub authors_head : get e "material_authors_head_sha" ≡ str head
  pub eligible : get e "review_eligible" ≡ bool true
  pub nonauthor : is_author lower reviewer authors ≡ false
  pub mergeable : get e "mergeable" ≡ bool true

pub bool_or_raise-eq : (x : Error) (v : Json) (b : Bool) → bool_or_raise x v ≡ ok b → v ≡ bool b
bool_or_raise-eq x (bool c) b h = ground arith
bool_or_raise-eq x null b h = cc
bool_or_raise-eq x _ b h = cc

module _ (lower : String → String) (e : Fields) where
  IsReviewed-of_ready :
      (head : String) → decide_reviewer lower e head ≡ ready → IsReviewed lower e head
  unfolding decide_reviewer required_bool
  IsReviewed-of_ready head h =
      ground
        (arith, eq_text-eq (get e "material_authors_head_sha") head, is_true-eq (get e "mergeable"))

-- The whole gate: no hold, one canonical PR, current exact refs, finished work, green CI and a
-- passed review on those refs, by a reviewer as above.
pub record Gates (lower : String → String) (e : Fields) (stream : Stream) : Type 0 where
  pub pr : ℕ
  pub head : String
  pub base : String
  pub running : stream.emergency_stop ≡ false
  pub automatic : stream.human_only ≡ false
  pub unblocked : stream.blocked ≡ false
  pub unmerged : stream.merged ≡ false
  pub canonical : stream.canonical_pr ≡ int (pos (suc pr))
  pub only : stream.active_prs ≡ suc pr ∷ []
  pub head_sha : as_sha (get e "head_sha") ≡ some head
  pub base_sha : as_sha (get e "base_sha") ≡ some base
  pub head_current : get e "head_current" ≡ bool true
  pub base_current : get e "base_current" ≡ bool true
  pub up_to_date : get_or e "behind_base" (bool false) ≡ bool false
  pub implemented : get e "implementation_complete" ≡ bool true
  pub ci : get_or e "ci" (str "UNKNOWN") ≡ str "SUCCESS"
  pub ci_bound : IsBound e "ci" head base
  pub threads : get e "unresolved_threads" ≡ bool false
  pub review : get_or e "review" (str "UNKNOWN") ≡ str "PASS"
  pub review_bound : IsBound e "review" head base
  pub reviewed : IsReviewed lower e head

module _ (e : Fields) where
  pub IsBound-of :
      (prefix head base : String)
      → bound_exact_refs e prefix head base ≡ true
      → IsBound e prefix head base
  unfolding bound_exact_refs
  IsBound-of prefix head base h = ground (
    arith,
    eq_text-eq (get e (prefix ++ "_head_sha")) head,
    eq_text-eq (get e (prefix ++ "_base_sha")) base,
  )

  pub bound_of_IsBound :
      (prefix head base : String)
      → IsBound e prefix head base
      → bound_exact_refs e prefix head base ≡ true
  unfolding bound_exact_refs
  bound_of_IsBound prefix head base h = simp (h.on_head, h.on_base, eq_refl)

module _ (lower : String → String) (e : Fields) where
  ready_of_reviewed :
      (head : String) → IsReviewed lower e head → decide_reviewer lower e head ≡ ready
  unfolding decide_reviewer required_bool
  ready_of_reviewed head r = ground (arith, eq_refl head)

  abbrev pub ReviewPassed : String → String → Type 0
  ReviewPassed head base =
      (get e "unresolved_threads" ≡ bool false)
      × (get_or e "review" (str "UNKNOWN") ≡ str "PASS")
      × IsBound e "review" head base
      × IsReviewed lower e head

  pub review_of_ready :
      (head base : String) → decide_review lower e head base ≡ ready → ReviewPassed head base
  unfolding decide_review required_bool any
  review_of_ready head base h = ground (
    arith,
    eq_text-eq (get_or e "review" (str "UNKNOWN")) "PASS",
    IsBound-of e "review" head base,
    IsReviewed-of_ready lower e head,
  )

  pub ready_of_review :
      (head base : String) → ReviewPassed head base → decide_review lower e head base ≡ ready
  unfolding decide_review required_bool any
  ready_of_review head base (threads, review, bound, reviewed) =
      rw (threads, review, bound_of_IsBound e "review" head base bound)
        (ready_of_reviewed head reviewed)
