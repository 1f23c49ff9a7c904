-- ===== src/Recovery/Plan/Budget.antt =====
-- The planner's budget, replays, and that no action of the state machine is left unhandled.
use one_company.Prelude.{
  ℕ, ◌+◌, ◌≤◌, String, ◌≡◌, true, List, Option, some, arith, ◌==◌, Result, ok, err, any, >>=-eq-ok,
  Bool-cases, inl, inr,
}
use one_company.Json.{obj, Fields}
use one_company.StateMachine
use one_company.StateMachine.{Action, State, Decision}
use one_company.Recovery.Defs.{Scope, scope_of, is_recovery, max_retries, retry_state, event_key}
use one_company.Recovery.Plan.{
  Plan, lift_state, planned, blocked, reduced, retry_budget_exhausted, dispatch, plan_snapshot,
  plan_recovery,
}

module _ (snapshot : Fields) (key : String) (d : Decision) (count : ℕ)
    (persisted : Option Scope) where
  -- What a plan that counts a retry looks like.
  pub record IsCounted (p : Plan) (n : ℕ) : Type 0 where
    pub within : n ≤ max_retries
    pub is_planned : p.status ≡ planned
    pub next : p.next_action ≡ reduced d.next_action
    pub counted : n ≡ count + 1
    pub scope : p.retry_action_after ≡ scope_of d.next_action
    pub recovery : is_recovery d.next_action ≡ true

  IsCounted-of_dispatch :
      (p : Plan) (n : ℕ)
      → dispatch snapshot key d count persisted ≡ ok p
      → p.retry_count_after ≡ some n
      → IsCounted p n
  unfolding dispatch
  IsCounted-of_dispatch p n h r = ground arith

  exhausted :
      is_recovery d.next_action ≡ true
      → max_retries ≤ count
      → (p : Plan) → dispatch snapshot key d count persisted ≡ ok p
      → (p.status ≡ blocked) × (p.next_action ≡ retry_budget_exhausted)
  unfolding dispatch
  exhausted r m p h = ground arith

lift_state-eq :
    (r : Result StateMachine.Error Decision) (d : Decision) → lift_state r ≡ ok d → r ≡ ok d
lift_state-eq (ok a) d h = ground arith
lift_state-eq (err e) d h = cc

-- A planned retry is within the budget: it is counted up to MAX_RETRIES at most, the plan names a
-- recovery action and its own scope, and the count before it is the one that applied.
pub plan_recovery-budget :
    (lower : String → String) (digest : Fields → String) (snapshot : Fields) (prior : List String)
    (p : Plan) (n : ℕ)
    → plan_recovery lower digest (obj snapshot) prior ≡ ok p
    → p.retry_count_after ≡ some n
    → (key : String) × (d : Decision) × (count : ℕ) × (persisted : Option Scope)
      × (StateMachine.reduce_evidence lower (obj snapshot) ≡ ok d)
      × (retry_state snapshot d.next_action ≡ ok (count, persisted))
      × IsCounted snapshot key d count persisted p n
unfolding plan_recovery plan_snapshot
plan_recovery-budget lower digest snapshot prior p n h r =
    let (key, keyed, rest) = >>=-eq-ok (event_key digest snapshot) _ h in
    elim (Bool-cases (any (λ k. k == key) prior)) [
      | inl seen ↦ absurd (ground arith)
      | inr fresh ↦
          let (d, reduced_to, after) =
            >>=-eq-ok (lift_state (StateMachine.reduce_evidence lower (obj snapshot))) _
              (rw fresh at rest) in
          let ((count, persisted), state, dispatched) =
            >>=-eq-ok (retry_state snapshot d.next_action) _ after in
          (
            key,
            d,
            count,
            persisted,
            lift_state-eq _ d reduced_to,
            state,
            IsCounted-of_dispatch snapshot key d count persisted p n dispatched r,
          )
    ]
