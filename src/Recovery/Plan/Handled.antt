-- ===== src/Recovery/Plan/Handled.antt =====
-- Every action of the state machine is handled by the planner.
use one_company.Prelude.{
  ℕ, String, ◌≡◌, ◌≢◌, refl, Bool, true, false, ◌||◌, List, [], ◌∷◌, Option, none, some, pos, arith,
  if◌then◌else◌, Result, given, ok, err, ◌>>=◌, raise_if, suc,
}
use one_company.Json.{Json, null, str, int, obj, arr, bool, Fields, get}
use one_company.StateMachine
use one_company.StateMachine.{Action, Decision}
use one_company.Recovery.Defs.{
  Scope, Error, unknown, of_state, unhandled_action, required_bool, retry_state, event_key,
  text_or_raise, bool_or_raise, count_or_raise, action_or_raise, scope_or_raise, is_recovery,
}
use one_company.Recovery.Candidates.{
  collect, is_eligible, eligible_ready_candidates, row_or_raise, issue_or_raise, rows_or_raise,
}
use one_company.Recovery.Plan.{
  lift_state, is_hold, is_replenish, is_await, dispatch, plan_snapshot, plan_recovery,
}

-- `r` is not the error of an unhandled action.
record Handled {A : Type 0} (r : Result Error A) : Type 0 where
  each : (a : Action) → r ≢ err (unhandled_action a)

abbrev is_unhandled : Error → Bool
is_unhandled (unhandled_action a) = true
is_unhandled _ = false

module _ {A : Type 0} where
  Handled-ok : (a : A) → Handled (ok a)
  Handled-ok a = record { each = λ x p. cc }

  Handled-err : (e : Error) → is_unhandled e ≡ false → Handled {A = A} (err e)
  Handled-err e h = record { each = λ x p. ground arith }

  Handled-if :
      (b : Bool) (x y : Result Error A) → Handled x → Handled y → Handled (if b then x else y)
  Handled-if true x y fx fy = fx
  Handled-if false x y fx fy = fy

  -- The second branch may use that the test failed.
  Handled-else :
      (b : Bool) (x y : Result Error A)
      → Handled x
      → (b ≡ false → Handled y)
      → Handled (if b then x else y)
  Handled-else true x y fx fy = fx
  Handled-else false x y fx fy = fy refl

  Handled-given :
      {B : Type 0} (m : Option B) (x : Result Error A) (f : B → Result Error A)
      → Handled x
      → ((b : B) → Handled (f b))
      → Handled (given m x f)
  Handled-given none x f hx hf = hx
  Handled-given (some b) x f hx hf = hf b

  Handled-bind :
      {B : Type 0} (m : Result Error B) (f : B → Result Error A)
      → Handled m
      → ((b : B) → Handled (f b))
      → Handled (m >>= f)
  Handled-bind (ok b) f hm hf = hf b
  Handled-bind (err e) f hm hf = record { each = λ x p. hm.each x (ground arith) }

  Handled-lift : (r : Result StateMachine.Error A) → Handled (lift_state r)
  Handled-lift (ok a) = Handled-ok a
  Handled-lift (err e) = Handled-err (of_state e) refl

Handled-raise_if : (b : Bool) (e : Error) → is_unhandled e ≡ false → Handled (raise_if b e)
Handled-raise_if true e h = Handled-err e h
Handled-raise_if false e h = Handled-ok tt

ruleset rules = (
  Handled-ok, Handled-err, Handled-if, Handled-given, Handled-bind, Handled-lift, Handled-raise_if,
)

text-Handled : (e : Error) (v : Json) → is_unhandled e ≡ false → Handled (text_or_raise e v)
text-Handled e (str s) h = search rules
text-Handled e null h = search rules
text-Handled e _ h = search rules

bool-Handled : (e : Error) (v : Json) → is_unhandled e ≡ false → Handled (bool_or_raise e v)
bool-Handled e (bool b) h = search rules
bool-Handled e _ h = search rules

required-Handled : (row : Fields) (key : String) → Handled (required_bool row key)
unfolding required_bool
required-Handled row key = bool-Handled (unknown key) (get row key) refl

count-Handled : (v : Json) → Handled (count_or_raise v)
count-Handled (int (pos n)) = search rules
count-Handled null = search rules
count-Handled _ = search rules

action-Handled : (v : Json) → Handled (action_or_raise v)
action-Handled null = search rules
action-Handled (str s) = search rules
action-Handled _ = search rules

scope-Handled : (o : Option String) → Handled (scope_or_raise o)
scope-Handled none = search rules
scope-Handled (some s) = search rules

state-Handled : (snapshot : Fields) (a : Action) → Handled (retry_state snapshot a)
unfolding retry_state
state-Handled snapshot a = search (rules, count-Handled, action-Handled, scope-Handled) depth 12

row-Handled : (v : Json) → Handled (row_or_raise v)
row-Handled (obj row) = search rules
row-Handled _ = search rules

rows-Handled : (v : Json) → Handled (rows_or_raise v)
rows-Handled (arr row) = search rules
rows-Handled _ = search rules

issue-Handled : (seen : List ℕ) (v : Json) → Handled (issue_or_raise seen v)
issue-Handled seen (int (pos (suc n))) = search rules
issue-Handled seen null = search rules
issue-Handled seen _ = search rules

eligible-Handled : (row : Fields) → Handled (is_eligible row)
unfolding is_eligible
eligible-Handled row = search (rules, required-Handled) depth 12

collect-Handled : (seen : List ℕ) (vs : List Json) → Handled (collect seen vs)
unfolding collect
collect-Handled seen [] = search rules
collect-Handled seen (v ∷ vs) =
    let ih = λ (s : List ℕ). collect-Handled s vs in
    search (rules, row-Handled, issue-Handled, eligible-Handled, ih) depth 12

candidates-Handled : (snapshot : Fields) → Handled (eligible_ready_candidates snapshot)
unfolding eligible_ready_candidates
candidates-Handled snapshot = search (rules, rows-Handled, collect-Handled) depth 12

key-Handled : (digest : Fields → String) (snapshot : Fields) → Handled (event_key digest snapshot)
unfolding event_key
key-Handled digest snapshot = search (rules, text-Handled)

-- One of the branches takes each action.
some_branch : (a : Action) → (is_hold a || is_replenish a || is_recovery a || is_await a) ≡ true
some_branch StateMachine.start_canonical_stream = refl
some_branch _ = refl

no_branch :
    (a : Action)
    → is_hold a ≡ false
    → is_replenish a ≡ false
    → is_recovery a ≡ false
    → is_await a ≡ false
    → ⊥
no_branch a h r c w = cc (some_branch a)

dispatch-Handled :
    (snapshot : Fields) (key : String) (d : Decision) (count : ℕ) (persisted : Option Scope)
    → Handled (dispatch snapshot key d count persisted)
unfolding dispatch
dispatch-Handled snapshot key d count persisted = Handled-else _ _ _ (Handled-ok _) λ no_hold.
    Handled-else _ _ _ (search (rules, candidates-Handled)) λ no_replenish.
      Handled-else _ _ _ (search rules) λ no_recovery.
        Handled-else _ _ _ (Handled-ok _)
          λ no_await. absurd (no_branch d.next_action no_hold no_replenish no_recovery no_await)

-- The planner's last `raise` is never reached: the state machine has no action that the planner
-- does not handle, for any snapshot and any prior events.
pub plan_recovery-ne-unhandled_action :
    (lower : String → String) (digest : Fields → String) (snapshot : Json) (prior : List String)
    (a : Action)
    → plan_recovery lower digest snapshot prior ≢ err (unhandled_action a)
unfolding plan_recovery plan_snapshot
plan_recovery-ne-unhandled_action lower digest (obj snapshot) prior a = planned.each a
  where
    planned : Handled (plan_snapshot lower digest snapshot prior)
    planned = search (rules, key-Handled, state-Handled, dispatch-Handled) depth 12
plan_recovery-ne-unhandled_action lower digest null prior a = cc
plan_recovery-ne-unhandled_action lower digest _ prior a = cc
