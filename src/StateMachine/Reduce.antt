-- ===== src/StateMachine/Reduce.antt =====
-- `reduce_evidence` of scripts/l5_state_machine.py, cut where the source's guards change their subject.
pub mod Gates
mod Vocabulary
pub mod Ready
pub mod Sample
mod Tests
use one_company.Prelude.{
  ℕ, String, Bool, false, not, ◌&&◌, ◌||◌, List, [], ◌∷◌, Option, none, some, eqb, ltb, ◌==◌,
  if◌then◌else◌, Result, given, ok, err, ◌>>=◌, any, is_empty, strip, length,
}
use one_company.Json.{
  Json, bool, str, arr, obj, Fields, get, get_or, eq_text, is_true, is_null, to_list,
}
use one_company.StateMachine.Defs.{
  State, selected, implementing, testing, reviewing, remediating, merge_ready, verifying, complete,
  Action, start_canonical_stream, emergency_stop_hold, human_or_policy_blocked,
  duplicate_stream_reconciliation_required, reconcile_canonical_pr, canonical_stream_mismatch,
  reconcile_post_merge_stream_state, reconcile_exact_refs, reconcile_head_base,
  verify_merged_result, reconcile_verified_merge_evidence, replenish_next_ready_wu,
  continue_implementation, remediate_same_pr_ci, run_or_reconcile_exact_head_ci,
  reconcile_exact_head_ci_evidence, remediate_same_pr_review,
  failover_to_eligible_nonauthor_reviewer, dispatch_eligible_nonauthor_review,
  reconcile_exact_head_review_evidence, reconcile_reviewer_identity, reconcile_material_authorship,
  reconcile_mergeability, await_authorized_expected_head_merge, Error, evidence_invalid,
  canonical_pr_invalid, behind_base_unknown, required_bool, bool_or_raise, as_sha, bound_exact_refs,
  as_positive, in_texts, Decision, Stream, read_stream,
}

pub record Outcome : Type 0 where
  pub state : State
  pub next_action : Action

abbrev pub at : State → Action → Result Error Outcome
at s a = ok (record { state = s; next_action = a })

-- A list of texts, none blank; `none` if some item is not so.
abbrev pub cons_actor : Json → Option (List String) → Option (List String)
cons_actor (str s) (some rest) = if strip s == "" then none else some (s ∷ rest)
cons_actor _ _ = none

unfoldable pub as_actors : List Json → Option (List String)
as_actors [] = some []
as_actors (v ∷ vs) = cons_actor v (as_actors vs)

-- A list of at least one actor.
abbrev pub as_authors : Json → Option (List String)
as_authors (arr vs) = elim (as_actors (to_list vs)) [
  | none ↦ none
  | some [] ↦ none
  | some (a ∷ l) ↦ some (a ∷ l)
]
as_authors _ = none

abbrev pub as_actor : Json → Option String
as_actor (str s) = if strip s == "" then none else some s
as_actor _ = none

-- active_prs == [n]
abbrev pub is_only : ℕ → List ℕ → Bool
is_only n (m ∷ []) = eqb n m
is_only n _ = false

module _ (lower : String → String) where
  -- actor.strip().lower()
  abbrev pub normalized : String → String
  normalized actor = lower (strip actor)

  pub is_author : String → List String → Bool
  is_author reviewer authors = any (λ a. normalized a == normalized reviewer) authors

  module _ (evidence : Fields) where
    -- From the reviewer's identity on.
    pub decide_reviewer : String → Result Error Outcome
    decide_reviewer head =
        given (as_actor (get evidence "reviewer_actor")) (at reviewing reconcile_reviewer_identity)
          λ reviewer.
            given (as_authors (get evidence "material_authors"))
              (at reviewing reconcile_material_authorship)
              λ authors.
                if not (eq_text (get evidence "material_authors_head_sha") head)
                then at reviewing reconcile_material_authorship
                else do
                  review_eligible ← required_bool evidence "review_eligible"
                  if not review_eligible || is_author reviewer authors
                      then at reviewing dispatch_eligible_nonauthor_review
                      else if not (is_true (get evidence "mergeable"))
                      then at remediating reconcile_mergeability
                      else at merge_ready await_authorized_expected_head_merge

    -- The review, once CI is green on the exact refs.
    pub decide_review : String → String → Result Error Outcome
    decide_review head base = do
      let review = get_or evidence "review" (str "UNKNOWN")
      unresolved_threads ← required_bool evidence "unresolved_threads"
      changes ← in_texts review ("CHANGES_REQUESTED" ∷ "FINDINGS" ∷ [])
      if changes || unresolved_threads
          then at remediating remediate_same_pr_review
          else if eq_text review "OUTAGE"
          then at reviewing failover_to_eligible_nonauthor_reviewer
          else if not (eq_text review "PASS")
          then at reviewing dispatch_eligible_nonauthor_review
          else if not (bound_exact_refs evidence "review" head base)
          then at reviewing reconcile_exact_head_review_evidence
          else decide_reviewer head

    -- The implementation and its CI.
    pub decide_ci : String → String → Result Error Outcome
    decide_ci head base = do
      implementation_complete ← required_bool evidence "implementation_complete"
      if not implementation_complete then at implementing continue_implementation else do
        let ci = get_or evidence "ci" (str "UNKNOWN")
        failed ← in_texts ci ("FAILURE" ∷ "CANCELLED" ∷ "TIMED_OUT" ∷ [])
        if failed
            then at remediating remediate_same_pr_ci
            else if not (eq_text ci "SUCCESS")
            then at testing run_or_reconcile_exact_head_ci
            else if not (bound_exact_refs evidence "ci" head base)
            then at testing reconcile_exact_head_ci_evidence
            else decide_review head base

    -- After a merge: `verified`, and on which refs.
    pub decide_merged : Bool → String → String → Result Error Outcome
    decide_merged verified head base =
        if not verified
        then at verifying verify_merged_result
        else if not (bound_exact_refs evidence "verified" head base)
        then at verifying reconcile_verified_merge_evidence
        else at complete replenish_next_ready_wu

    -- The refs are exact: are they current?
    pub decide_current : Stream → String → String → Result Error Outcome
    decide_current stream head base = do
      head_current ← required_bool evidence "head_current"
      -- `or` asks for the second only if the first holds
      current ← if head_current then required_bool evidence "base_current" else ok false
      if not current then at implementing reconcile_head_base else do
        behind_base ← bool_or_raise behind_base_unknown (get_or evidence "behind_base" (bool false))
        if not stream.merged && behind_base
            then at implementing reconcile_head_base
            else if stream.merged
            then decide_merged stream.verified head base
            else decide_ci head base

    pub decide_refs : Stream → Result Error Outcome
    decide_refs stream =
        given (as_sha (get evidence "head_sha")) (at implementing reconcile_exact_refs) λ head.
          given (as_sha (get evidence "base_sha")) (at implementing reconcile_exact_refs)
            λ base. decide_current stream head base

    -- The canonical PR against the active ones.
    pub decide_stream : Stream → Result Error Outcome
    decide_stream stream =
        if is_null stream.canonical_pr
        then if stream.merged
          then at verifying reconcile_canonical_pr
          else if not (is_empty stream.active_prs)
          then at selected reconcile_canonical_pr
          else at selected start_canonical_stream
        else given (as_positive stream.canonical_pr) (err canonical_pr_invalid) λ n.
          if not (is_empty stream.active_prs) && not (is_only n stream.active_prs)
          then at selected canonical_stream_mismatch
          else if not stream.merged && not (is_only n stream.active_prs)
          then at implementing reconcile_canonical_pr
          else if stream.merged && not (is_empty stream.active_prs)
          then at verifying reconcile_post_merge_stream_state
          else decide_refs stream

    -- The holds that come before all else.
    pub decide : Stream → Result Error Outcome
    decide stream =
        if stream.emergency_stop
        then at selected emergency_stop_hold
        else if stream.human_only || stream.blocked
        then at selected human_or_policy_blocked
        else if ltb 1 (length stream.active_prs)
        then at selected duplicate_stream_reconciliation_required
        else decide_stream stream

  pub reduce_evidence : Json → Result Error Decision
  reduce_evidence (obj evidence) = do
    stream ← read_stream evidence
    outcome ← decide evidence stream
    ok (record {
      repository = stream.repository;
      issue = stream.issue;
      canonical_pr = stream.canonical_pr;
      state = outcome.state;
      next_action = outcome.next_action;
      mutation_allowed = false;
    })
  reduce_evidence _ = err evidence_invalid
