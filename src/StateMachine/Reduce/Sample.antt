-- ===== src/StateMachine/Reduce/Sample.antt =====
-- The evidence of the self-test of scripts/l5_state_machine.py, and of a snapshot for the planner.
use one_company.Prelude.{ℕ, ◌≡◌, refl, String, Bool, true, false, pos, ok, any, strip, matches_all}
use one_company.Json.{
  null, Json, bool, int, str, arr, obj, nil, cons, Fields, field, end, get, has, put,
}
use one_company.StateMachine.Defs.{
  State, merge_ready, testing, complete, run_or_reconcile_exact_head_ci, replenish_next_ready_wu,
  Action, await_authorized_expected_head_merge, Decision, required_text, required_bool, read_issue,
  read_active_prs, read_stream, as_positives, has_duplicates, bound_exact_refs,
}
use one_company.StateMachine.Reduce.{
  as_actors, is_author, decide_reviewer, decide_review, decide_ci, decide_merged, decide_current,
  decide_refs, decide_stream, decide, reduce_evidence,
}

abbrev pub head : String
head = "aaaaaaaaaaaaaaaaaaaaaaaaaaaaaaaaaaaaaaaa"

abbrev pub base : String
base = "bbbbbbbbbbbbbbbbbbbbbbbbbbbbbbbbbbbbbbbb"

abbrev pub evidence : Fields
evidence = field "repository" (str "NTinkicht/OneCompany") (
    field "issue" (int (pos 251)) (
      field "canonical_pr" (int (pos 252)) (
        field "active_prs" (arr (cons (int (pos 252)) nil)) (
          field "head_sha" (str head) (
            field "base_sha" (str base) (
              field "head_current" (bool true) (
                field "base_current" (bool true) (
                  field "implementation_complete" (bool true) (
                    field "emergency_stop" (bool false) (
                      field "human_only" (bool false) (
                        field "blocked" (bool false) (
                          field "merged" (bool false) (
                            field "verified" (bool false) (
                              field "ci" (str "SUCCESS") (
                                field "ci_head_sha" (str head) (
                                  field "ci_base_sha" (str base) (
                                    field "review" (str "PASS") (
                                      field "review_head_sha" (str head) (
                                        field "review_base_sha" (str base) (
                                          field "reviewer_actor" (str "mistral-vibe") (
                                            field "material_authors"
                                              (arr (cons (str "chatgpt") nil))
                                              (field "material_authors_head_sha" (str head) (
                                                field "review_eligible" (bool true) (
                                                  field "unresolved_threads" (bool false) (
                                                    field "mergeable" (bool true)
                                                      end)))))))))))))))))))))))))

-- The names here are in lower case already.
abbrev pub lower : String → String
lower s = s

unfoldable pub program : Unit {0}
unfolding reduce_evidence read_stream required_text required_bool read_issue read_active_prs
    as_positives has_duplicates decide decide_stream decide_refs decide_current decide_merged
    decide_ci decide_review decide_reviewer bound_exact_refs is_author as_actors any strip
    matches_all get has put
program = tt

abbrev pub decision : Json → State → Action → Decision
decision pr s a = record {
  repository = "NTinkicht/OneCompany";
  issue = 251;
  canonical_pr = pr;
  state = s;
  next_action = a;
  mutation_allowed = false;
}

abbrev pub ready : Decision
ready = decision (int (pos 252)) merge_ready await_authorized_expected_head_merge

pub evidence-ready : reduce_evidence lower (obj evidence) ≡ ok ready
unfolding program
evidence-ready = refl

-- Finished work whose CI runs, with one retry of CI behind it.
abbrev pub waiting : Fields
waiting = field "event_id" (str " ci-1 ") (
    field "retry_count" (int (pos 1))
      (field "retry_action" (str "CI") (put evidence "ci" (str "PENDING"))))

abbrev pub wait_for_ci : Decision
wait_for_ci = decision (int (pos 252)) testing run_or_reconcile_exact_head_ci

pub waiting_reduced : reduce_evidence lower (obj waiting) ≡ ok wait_for_ci
unfolding program
waiting_reduced = refl

abbrev pub candidate : ℕ → Bool → Json
candidate n safe = obj (
    field "issue" (int (pos n)) (
      field "ready" (bool true) (
        field "blocked" (bool false)
          (field "human_only" (bool false) (field "conflict_safe" (bool safe) end)))))

-- A verified merge, with three ready units of which the second is the least safe one.
abbrev pub finished : Fields
finished = field "event_id" (str "done") (
    field "retry_count" (int (pos 0)) (
      field "retry_action" null (
        field "ready_candidates"
          (arr (cons (candidate 9 true) (cons (candidate 4 true) (cons (candidate 2 false) nil))))
          (field "verified_head_sha" (str head) (
            field "verified_base_sha" (str base) (
              put (put (put evidence "merged" (bool true)) "verified" (bool true)) "active_prs"
                (arr nil)))))))

pub finished_reduced :
    reduce_evidence lower (obj finished)
    ≡ ok (decision (int (pos 252)) complete replenish_next_ready_wu)
unfolding program
finished_reduced = refl
