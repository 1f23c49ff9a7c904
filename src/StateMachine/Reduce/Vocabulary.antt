-- ===== src/StateMachine/Reduce/Vocabulary.antt =====
-- Which action `reduce_evidence` may name in which state.
use one_company.Prelude.{
  ◌≡◌, refl, Bool, true, false, Result, given, ◌>>=◌, if◌then◌else◌, ok, err, arith, String, Option,
  none, some, >>=-eq-ok,
}
use one_company.Json.{Fields, obj}
use one_company.StateMachine.Defs.{
  State, selected, implementing, testing, reviewing, remediating, merge_ready, verifying, complete,
  Action, start_canonical_stream, emergency_stop_hold, human_or_policy_blocked,
  duplicate_stream_reconciliation_required, reconcile_canonical_pr, canonical_stream_mismatch,
  reconcile_post_merge_stream_state, reconcile_exact_refs, reconcile_head_base,
  verify_merged_result, reconcile_verified_merge_evidence, replenish_next_ready_wu,
  continue_implementation, remediate_same_pr_ci, run_or_reconcile_exact_head_ci,
  reconcile_exact_head_ci_evidence, remediate_same_pr_review,
  failover_to_eligible_nonauthor_reviewer, dispatch_eligible_nonauthor_review,
  reconcile_exact_head_review_evidence, reconcile_reviewer_identity, reconcile_material_authorship,
  reconcile_mergeability, await_authorized_expected_head_merge, Error, Decision, Stream,
  read_stream,
}
use one_company.StateMachine.Reduce.{
  Outcome, at, decide_reviewer, decide_review, decide_ci, decide_merged, decide_current,
  decide_refs, decide_stream, decide, reduce_evidence,
}

-- The vocabulary: each action, and the states in which it may be named.
abbrev pub is_allowed : Action → State → Bool
is_allowed start_canonical_stream selected = true
is_allowed emergency_stop_hold selected = true
is_allowed human_or_policy_blocked selected = true
is_allowed duplicate_stream_reconciliation_required selected = true
is_allowed reconcile_canonical_pr selected = true
is_allowed reconcile_canonical_pr implementing = true
is_allowed reconcile_canonical_pr verifying = true
is_allowed canonical_stream_mismatch selected = true
is_allowed reconcile_post_merge_stream_state verifying = true
is_allowed reconcile_exact_refs implementing = true
is_allowed reconcile_head_base implementing = true
is_allowed verify_merged_result verifying = true
is_allowed reconcile_verified_merge_evidence verifying = true
is_allowed replenish_next_ready_wu complete = true
is_allowed continue_implementation implementing = true
is_allowed remediate_same_pr_ci remediating = true
is_allowed run_or_reconcile_exact_head_ci testing = true
is_allowed reconcile_exact_head_ci_evidence testing = true
is_allowed remediate_same_pr_review remediating = true
is_allowed failover_to_eligible_nonauthor_reviewer reviewing = true
is_allowed dispatch_eligible_nonauthor_review reviewing = true
is_allowed reconcile_exact_head_review_evidence reviewing = true
is_allowed reconcile_reviewer_identity reviewing = true
is_allowed reconcile_material_authorship reviewing = true
is_allowed reconcile_mergeability remediating = true
is_allowed await_authorized_expected_head_merge merge_ready = true
is_allowed _ _ = false

-- An error, or an outcome of the vocabulary.
pub record Fits (r : Result Error Outcome) : Type 0 where
  pub each : (o : Outcome) → r ≡ ok o → is_allowed o.next_action o.state ≡ true

Fits-at : (s : State) (a : Action) → is_allowed a s ≡ true → Fits (at s a)
Fits-at s a h = record { each = λ o p. ground arith }

Fits-err : (x : Error) → Fits (err x)
Fits-err x = record { each = λ o p. cc }

Fits-if : (b : Bool) (x y : Result Error Outcome) → Fits x → Fits y → Fits (if b then x else y)
Fits-if true x y fx fy = fx
Fits-if false x y fx fy = fy

Fits-bind :
    {A : Type 0} (m : Result Error A) (f : A → Result Error Outcome)
    → ((a : A) → Fits (f a))
    → Fits (m >>= f)
Fits-bind (ok a) f h = h a
Fits-bind (err x) f h = Fits-err x

Fits-option :
    {A : Type 0} (m : Option A) (x : Result Error Outcome) (f : A → Result Error Outcome)
    → Fits x
    → ((a : A) → Fits (f a))
    → Fits (given m x f)
Fits-option none x f fx ff = fx
Fits-option (some a) x f fx ff = ff a

ruleset fits_rules = (Fits-at, Fits-err, Fits-if, Fits-bind, Fits-option)

module _ (lower : String → String) (e : Fields) where
  reviewer-Fits : (head : String) → Fits (decide_reviewer lower e head)
  unfolding decide_reviewer
  reviewer-Fits head = search fits_rules depth 12

  review-Fits : (head base : String) → Fits (decide_review lower e head base)
  unfolding decide_review
  review-Fits head base = search (fits_rules, reviewer-Fits) depth 12

  ci-Fits : (head base : String) → Fits (decide_ci lower e head base)
  unfolding decide_ci
  ci-Fits head base = search (fits_rules, review-Fits) depth 12

  merged-Fits : (v : Bool) (head base : String) → Fits (decide_merged lower e v head base)
  unfolding decide_merged
  merged-Fits v head base = search fits_rules depth 12

  current-Fits :
      (stream : Stream) (head base : String) → Fits (decide_current lower e stream head base)
  unfolding decide_current
  current-Fits stream head base = search (fits_rules, ci-Fits, merged-Fits) depth 12

  refs-Fits : (stream : Stream) → Fits (decide_refs lower e stream)
  unfolding decide_refs
  refs-Fits stream = search (fits_rules, current-Fits) depth 12

  stream-Fits : (stream : Stream) → Fits (decide_stream lower e stream)
  unfolding decide_stream
  stream-Fits stream = search (fits_rules, refs-Fits) depth 12

  pub decide-Fits : (stream : Stream) → Fits (decide lower e stream)
  unfolding decide
  decide-Fits stream = search (fits_rules, stream-Fits) depth 12

await_of_merge_ready :
    (a : Action) → is_allowed a merge_ready ≡ true → a ≡ await_authorized_expected_head_merge
await_of_merge_ready await_authorized_expected_head_merge h = refl
await_of_merge_ready start_canonical_stream h = cc
await_of_merge_ready _ h = cc

pub decide-merge_ready :
    (lower : String → String) (e : Fields) (stream : Stream) (o : Outcome)
    → decide lower e stream ≡ ok o
    → o.state ≡ merge_ready
    → decide lower e stream ≡ at merge_ready await_authorized_expected_head_merge
decide-merge_ready lower e stream o h s =
    let fits = (decide-Fits lower e stream).each o h in
    ground (arith, await_of_merge_ready o.next_action)

-- Whatever the evidence: the reported action belongs to the reported state, the repository, the
-- issue and the PR are those that were read, and no mutation is allowed.
pub reduce_evidence-is_allowed :
    (lower : String → String) (evidence : Fields) (d : Decision)
    → reduce_evidence lower (obj evidence) ≡ ok d
    → (is_allowed d.next_action d.state ≡ true)
      × (d.mutation_allowed ≡ false)
      × (stream : Stream) × (read_stream evidence ≡ ok stream)
      × (d.repository ≡ stream.repository)
      × (d.issue ≡ stream.issue)
      × (d.canonical_pr ≡ stream.canonical_pr)
unfolding reduce_evidence
reduce_evidence-is_allowed lower evidence d h =
    let (stream, readable, rest) = >>=-eq-ok (read_stream evidence) _ h in
    let (outcome, decided, same) = >>=-eq-ok (decide lower evidence stream) _ rest in
    let fits = (decide-Fits lower evidence stream).each outcome decided in
    (ground arith, ground arith, stream, readable, ground arith, ground arith, ground arith)
