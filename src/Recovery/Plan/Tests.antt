-- ===== src/Recovery/Plan/Tests.antt =====
-- Runs of the planner, and its theorems there.
use one_company.Prelude.{
  ℕ, ◌≡◌, refl, String, [], ◌∷◌, Option, none, some, pos, ok, any, strip, matches_all,
}
use one_company.Json.{Json, int, str, obj, Fields, get, put}
use one_company.StateMachine
use one_company.StateMachine.{
  Decision, complete, replenish_next_ready_wu, run_or_reconcile_exact_head_ci,
}
use one_company.StateMachine.Reduce.Sample.{
  lower, decision, waiting, wait_for_ci, waiting_reduced, finished, head,
}
use one_company.Recovery.Defs.{Scope, ci, event_key, retry_state}
use one_company.Recovery.Candidates.{eligible_ready_candidates, collect, is_eligible, sort, insert}
use one_company.Recovery.Defs.{required_bool}
use one_company.Recovery.Plan.{
  Plan, base_plan, replenish, planned, reduced, dispatch, plan_snapshot, plan_recovery, replay,
  journal_record,
}
use one_company.Recovery.Plan.Budget.{IsCounted, plan_recovery-budget}
use one_company.Recovery.Plan.Retries.{plan_recovery-retries, IsReplay, plan_recovery-IsReplay}

abbrev text_of : Json → String
text_of (str s) = s
text_of _ = "?"

-- A digest that tells the events apart.
abbrev digest : Fields → String
digest fs = text_of (get fs "event_id")

program : Unit {0}
unfolding event_key retry_state plan_recovery plan_snapshot dispatch journal_record sort insert
    collect is_eligible required_bool eligible_ready_candidates get strip any
program = tt

waiting_keyed : event_key digest waiting ≡ ok "ci-1"
unfolding program
waiting_keyed = refl

waiting_state : retry_state waiting run_or_reconcile_exact_head_ci ≡ ok (1, some ci)
unfolding program
waiting_state = refl

-- The least of the eligible issues is selected.
finished-dispatch :
    dispatch finished "done" (decision (int (pos 252)) complete replenish_next_ready_wu) 0 none
    ≡ ok (replenish "done" (decision (int (pos 252)) complete replenish_next_ready_wu) (4 ∷ 9 ∷ []))
unfolding program
finished-dispatch = refl

abbrev counted : Plan
counted =
    record (base_plan "ci-1" wait_for_ci planned (reduced run_or_reconcile_exact_head_ci) 1
      (some ci)) { retry_count_after = some 2; retry_action_after = some ci }

waiting_planned : plan_recovery lower digest (obj waiting) [] ≡ ok counted
unfolding program
waiting_planned = rw waiting_reduced refl

replay_recorded : (journal_record waiting (replay "ci-1")).head_sha ≡ some head
unfolding program put matches_all
replay_recorded = refl

plan_recovery-retries_example :
    (p : Plan) × (plan_recovery lower digest (obj waiting) [] ≡ ok p)
    × (p.status ≡ planned)
    × (p.next_action ≡ reduced run_or_reconcile_exact_head_ci)
    × (p.retry_count_after ≡ some 2)
unfolding program
plan_recovery-retries_example =
    plan_recovery-retries lower digest waiting [] "ci-1" "CI" 1 ci ci wait_for_ci waiting_keyed refl
      refl refl refl waiting_reduced refl

plan_recovery-budget_example :
    (key : String) × (d : Decision) × (count : ℕ) × (persisted : Option Scope)
    × (StateMachine.reduce_evidence lower (obj waiting) ≡ ok d)
    × (retry_state waiting d.next_action ≡ ok (count, persisted))
    × IsCounted waiting key d count persisted counted 2
plan_recovery-budget_example =
    plan_recovery-budget lower digest waiting [] counted 2 waiting_planned refl

plan_recovery-IsReplay_example :
    (p : Plan) × (plan_recovery lower digest (obj waiting) ("a" ∷ "ci-1" ∷ []) ≡ ok p)
    × IsReplay "ci-1" p
unfolding program
plan_recovery-IsReplay_example =
    (plan_recovery-IsReplay lower digest waiting ("a" ∷ "ci-1" ∷ []) "ci-1" waiting_keyed).0 refl
