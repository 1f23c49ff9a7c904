-- ===== src/Recovery/Plan/Retries.antt =====
-- The retry budget, from the count and the scope that a snapshot carries; and replays.
use one_company.Prelude.{
  ℕ, ◌+◌, String, ◌≡◌, ◌≢◌, refl, true, false, List, [], ◌∷◌, Option, none, some, pos, arith, leb,
  ◌==◌, eq_iff, if◌then◌else◌, ok, any, strip, >>=-eq-ok, Bool-cases, and_false, inl, inr,
}
use one_company.Json.{int, str, obj, Fields, get}
use one_company.StateMachine
use one_company.StateMachine.{Action, State, Decision}
use one_company.Recovery.Defs.{
  Scope, scope_of, max_retries, known_scope, same_scope, action_or_raise, retry_state, event_key,
}
use one_company.Recovery.Plan.{
  Plan, replenish, base_plan, lift_state, replay_noop, none_already_recorded, planned, blocked,
  reduced, retry_budget_exhausted, replay, is_replenish, dispatch, plan_snapshot, plan_recovery,
}

-- A text that names a scope is not blank.
action_of_known :
    (t : String) (sc : Scope)
    → known_scope (strip t) ≡ some sc
    → action_or_raise (str t) ≡ ok (some (strip t))
action_of_known t sc h = elim (Bool-cases (strip t == "")) [
  | inl e ↦ absurd (blank (rw ((eq_iff (strip t) "").0 e) at h))
  | inr e ↦ rw e
]
  where
    blank : known_scope "" ≡ some sc → ⊥
    blank p = cc

-- The count before this action: what the snapshot carries counts only for its own scope.
abbrev pub applied : Scope → Scope → ℕ → ℕ
applied carried current k = if same_scope (some carried) current then k else 0

retry_state_of_known :
    (snapshot : Fields) (action : Action) (k : ℕ) (t : String) (carried current : Scope)
    → get snapshot "retry_count" ≡ int (pos k)
    → get snapshot "retry_action" ≡ str t
    → known_scope (strip t) ≡ some carried
    → scope_of action ≡ some current
    → retry_state snapshot action ≡ ok (applied carried current k, some carried)
unfolding retry_state
retry_state_of_known snapshot action k t carried current counted named known scoped =
    rw (counted, named, action_of_known t carried known, known, scoped, and_false)

module _ (snapshot : Fields) (key : String) (d : Decision) (count : ℕ)
    (persisted : Option Scope) where
  dispatch_of_scope :
      (current : Scope)
      → scope_of d.next_action ≡ some current
      → (p : Plan) × (dispatch snapshot key d count persisted ≡ ok p)
        × (p.status ≡ (if leb max_retries count then blocked else planned))
        × (p.next_action
            ≡ (if leb max_retries count then retry_budget_exhausted else reduced d.next_action))
        × (p.retry_count_after ≡ (if leb max_retries count then none else some (count + 1)))
  unfolding dispatch
  dispatch_of_scope current scoped = elim (Bool-cases (leb max_retries count)) [
    | inl e ↦ (
      base_plan key d blocked retry_budget_exhausted count (scope_of d.next_action),
      ground arith,
      ground arith,
      ground arith,
      ground arith,
    )
    | inr e ↦ (
      record (base_plan key d planned (reduced d.next_action) count (scope_of d.next_action)) {
        retry_count_after = some (count + 1);
        retry_action_after = scope_of d.next_action;
      },
      ground arith,
      ground arith,
      ground arith,
      ground arith,
    )
  ]

replenish-status :
    (key : String) (d : Decision) (ns : List ℕ) → (replenish key d ns).status ≢ replay_noop
replenish-status key d [] h = cc
replenish-status key d (n ∷ ns) h = cc

dispatch-status :
    (snapshot : Fields) (key : String) (d : Decision) (count : ℕ) (persisted : Option Scope)
    (p : Plan)
    → dispatch snapshot key d count persisted ≡ ok p
    → p.status ≢ replay_noop
unfolding dispatch
dispatch-status snapshot key d count persisted p h r =
    elim (Bool-cases (is_replenish d.next_action)) [
      | inl e ↦ ground (arith, λ (ns : List ℕ). replenish-status key d ns)
      | inr e ↦ ground arith
    ]

-- A fresh event whose snapshot carries `k` retries of a known scope, reduced to an action of scope
-- `current`: the retries count only if they are of that scope, and the action is planned, with
-- one more retry counted, just if fewer than MAX_RETRIES count; else the budget is exhausted.
pub plan_recovery-retries :
    (lower : String → String) (digest : Fields → String) (snapshot : Fields) (prior : List String)
    (key t : String) (k : ℕ) (carried current : Scope) (d : Decision)
    → event_key digest snapshot ≡ ok key
    → any (λ j. j == key) prior ≡ false
    → get snapshot "retry_count" ≡ int (pos k)
    → get snapshot "retry_action" ≡ str t
    → known_scope (strip t) ≡ some carried
    → StateMachine.reduce_evidence lower (obj snapshot) ≡ ok d
    → scope_of d.next_action ≡ some current
    → (p : Plan) × (plan_recovery lower digest (obj snapshot) prior ≡ ok p)
      × (p.status ≡ (if leb max_retries (applied carried current k) then blocked else planned))
      × (p.next_action ≡ (
          if leb max_retries (applied carried current k)
          then retry_budget_exhausted
          else reduced d.next_action))
      × (p.retry_count_after ≡ (
          if leb max_retries (applied carried current k)
          then none
          else some (applied carried current k + 1)))
unfolding plan_recovery plan_snapshot
plan_recovery-retries lower digest snapshot prior key t k carried current d keyed fresh counted
      named known decided scoped =
    let (p, planned_as, status, next, after) =
      dispatch_of_scope snapshot key d (applied carried current k) (some carried) current scoped in
    let state =
      retry_state_of_known snapshot d.next_action k t carried current counted named known scoped in
    (p, rw (keyed, fresh, decided, state) planned_as, status, next, after)

-- A plan that acts on nothing: no mutation, no retry counted, and no work selected.
pub record IsReplay (key : String) (p : Plan) : Type 0 where
  pub status : p.status ≡ replay_noop
  pub key_kept : p.event_key ≡ key
  pub next_action : p.next_action ≡ none_already_recorded
  pub unchanged : p.mutation_allowed ≡ false
  pub no_details : p.details ≡ none
  pub uncounted : (p.retry_count_after ≡ none) × (p.retry_action_after ≡ none)
  pub unselected : p.selected_issue ≡ none

-- An event that is recorded already is not acted on, whatever else the snapshot says: there is a
-- plan, a replay of its key that allows no mutation, counts no retry and selects no work. A fresh
-- event never gets a plan with a replay's status.
pub plan_recovery-IsReplay :
    (lower : String → String) (digest : Fields → String) (snapshot : Fields) (prior : List String)
    (key : String)
    → event_key digest snapshot ≡ ok key
    → ((any (λ j. j == key) prior ≡ true)
        → (p : Plan) × (plan_recovery lower digest (obj snapshot) prior ≡ ok p) × IsReplay key p)
      × ((any (λ j. j == key) prior ≡ false)
          → (p : Plan) → plan_recovery lower digest (obj snapshot) prior ≡ ok p
          → p.status ≢ replay_noop)
unfolding plan_recovery plan_snapshot
plan_recovery-IsReplay lower digest snapshot prior key keyed = (
  λ seen. (
    replay key,
    rw (keyed, seen) refl,
    record {
      status = refl;
      key_kept = refl;
      next_action = refl;
      unchanged = refl;
      no_details = refl;
      uncounted = (refl, refl);
      unselected = refl;
    },
  ),
  λ fresh p h.
      let (d, _, after) =
        >>=-eq-ok (lift_state (StateMachine.reduce_evidence lower (obj snapshot))) _
          (rw (keyed, fresh) at h) in
      let ((count, persisted), _, dispatched) =
        >>=-eq-ok (retry_state snapshot d.next_action) _ after in
      dispatch-status snapshot key d count persisted p dispatched,
)
