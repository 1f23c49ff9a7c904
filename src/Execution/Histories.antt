-- ===== src/Execution/Histories.antt =====
-- Histories of calls on a run by any workers: what no such history can do.
use one_company.Prelude.{
  ◌≤◌, ◌<◌, ◌≡◌, ◌≢◌, ◌∙◌, refl, sym, ap, subst, inl, inr, String, true, false, List, [], ◌∷◌, ◌++◌,
  Option, none, some, ℤ, length, arith, Bool-cases, Option-cases,
}
use one_company.Json.{Json}
use one_company.Execution.Context.{RunKey, RunContext, Error, is_complete, same_key}
use one_company.Execution.Board.{max_lessons}
use one_company.Execution.Proven.{IsProven}
use one_company.Execution.Accepted.{Edge, stays}
use one_company.Execution.Steps.{Op, supplied, Done, step, step-Done}

-- What a step can be: accepted, refused with the run open, or nothing at all.
record Moved (c : RunContext) (k : RunKey) (r : RunContext × Option Error) : Type 0 where
  complete_kept : is_complete c.status ≡ true → r.0 ≡ c
  edge : Edge c.status (r.0).status
  proven : is_complete c.status ≡ false → is_complete (r.0).status ≡ true → IsProven c
  run : ((r.0).key.wu_id ≡ c.key.wu_id) × ((r.0).key.run_id ≡ c.key.run_id)
  generation : c.key.generation ≤ (r.0).key.generation
  lessons : length c.lessons ≤ max_lessons → length (r.0).lessons ≤ max_lessons

same_generation : (a b : RunKey) → same_key a b ≡ true → a.generation ≡ b.generation
same_generation a b h = ground arith

Moved-Done :
    (c : RunContext) (k : RunKey) (r : RunContext × Option Error) → Done c k r → Moved c k r
Moved-Done c k r d = elim (Option-cases r.1) [
  | inl p ↦
      let a = d.accepted p in
      record {
        complete_kept = λ f. elim a.open_or_kept [ inl n ↦ absurd (cc) | inr kept ↦ kept ];
        edge = a.edge;
        proven = a.proven;
        run = a.run;
        generation = elim a.generation [ inl e ↦ omega (arith, e) | inr e ↦ omega (arith, e) ];
        lessons = a.lessons;
      }
  | inr (e, p) ↦
      let (kept, whole) = d.refused e p in
      record {
        complete_kept = whole;
        edge = subst (λ (x : RunContext). Edge c.status x.status) (sym kept) (stays c.status);
        proven = λ n f. absurd (ground (arith, kept));
        run = (ap (λ x. x.key.wu_id) kept, ap (λ x. x.key.run_id) kept);
        generation = omega (arith, ap (λ x. x.key.generation) kept);
        lessons = λ h. subst (λ (x : RunContext). length x.lessons ≤ max_lessons) (sym kept) h;
      }
]

-- The calls before the one that completes a run, which is proven then, that call, and the rest.
pub record Completed (run : List Op → RunContext) (ops : List Op) : Type 0 where
  pub before : List Op
  pub op : Op
  pub after : List Op
  pub ops_eq : ops ≡ before ++ (op ∷ after)
  pub unfinished : is_complete (run before).status ≡ false
  pub proven : IsProven (run before)
  pub finished : is_complete (run (before ++ (op ∷ []))).status ≡ true

module _ (lower : String → String) (plus : ℤ → ℤ → ℤ) (repr : Json → String) where
  unfoldable pub run : RunContext → List Op → RunContext
  run c [] = c
  run c (op ∷ ops) = run (step lower plus repr c op).0 ops

  moved : (c : RunContext) (op : Op) → Moved c (supplied op) (step lower plus repr c op)
  moved c op = Moved-Done c (supplied op) _ (step-Done lower plus repr c op)

  -- A complete run is final: no calls change anything of it.
  pub run_complete : (c : RunContext) (ops : List Op) → is_complete c.status ≡ true → run c ops ≡ c
  unfolding run
  run_complete c [] h = refl
  run_complete c (op ∷ ops) h =
      let kept = (moved c op).complete_kept h in rw kept (run_complete c ops h)

  run-snoc :
      (c : RunContext) (before : List Op) (op : Op)
      → run c (before ++ (op ∷ [])) ≡ (step lower plus repr (run c before) op).0
  unfolding run
  run-snoc c [] op = refl
  run-snoc c (first ∷ before) op = run-snoc (step lower plus repr c first).0 before op

  -- At each call of a history, accepted or not, the status stays or takes one edge of the lifecycle:
  -- from ACTIVE to COMPLETION_PENDING, from there to COMPLETE or back to ACTIVE, from one of the
  -- stops (BLOCKED, PAUSED, BUDGET_LIMITED) to ACTIVE, or from any but COMPLETE to a stop.
  pub run-Edge :
      (c : RunContext) (before : List Op) (op : Op)
      → Edge (run c before).status (run c (before ++ (op ∷ []))).status
  run-Edge c before op =
      subst (λ (r : RunContext). Edge (run c before).status r.status) (sym (run-snoc c before op))
        (moved (run c before) op).edge

  -- A run that is COMPLETE in the end, and was not at first, was completed by one of the calls, and
  -- right before it the run had every task done, an authoritative piece of evidence for every
  -- criterion, a status that is not stopped and no limit reached.
  pub run-IsProven :
      (c : RunContext) (ops : List Op)
      → is_complete c.status ≡ false
      → is_complete (run c ops).status ≡ true
      → Completed (run c) ops
  unfolding run
  run-IsProven c [] n h = absurd (ground (arith, n, h))
  run-IsProven c (op ∷ ops) n h =
      let next = (step lower plus repr c op).0 in
      elim (Bool-cases (is_complete next.status)) [
        | inl e ↦ record {
          before = [];
          op = op;
          after = ops;
          ops_eq = refl;
          unfinished = n;
          proven = (moved c op).proven n e;
          finished = e;
        }
        | inr e ↦
            let rest = run-IsProven next ops e h in
            record {
              before = op ∷ rest.before;
              op = rest.op;
              after = rest.after;
              ops_eq = ap (λ l. op ∷ l) rest.ops_eq;
              unfinished = rest.unfinished;
              proven = rest.proven;
              finished = rest.finished;
            }
      ]

  run-generation : (c : RunContext) (ops : List Op) → c.key.generation ≤ (run c ops).key.generation
  unfolding run
  run-generation c [] = omega arith
  run-generation c (op ∷ ops) =
      let next = (step lower plus repr c op).0 in
      omega (arith, (moved c op).generation, run-generation next ops)

  -- A worker of an older generation is fenced off: its calls are refused after any further calls.
  pub run-fenced :
      (c : RunContext) (ops : List Op) (op : Op)
      → (supplied op).generation < c.key.generation
      → (step lower plus repr (run c ops) op).1 ≢ none
  run-fenced c ops op old accepted =
      let a = (step-Done lower plus repr (run c ops) op).accepted accepted in
      let same = same_generation (supplied op) (run c ops).key a.supplied in
      omega (arith, old, same, run-generation c ops)

  -- No calls turn a run into another one or its generation back, and lessons stay within their bound.
  pub run-kept :
      (c : RunContext) (ops : List Op)
      → length c.lessons ≤ max_lessons
      → ((run c ops).key.wu_id ≡ c.key.wu_id)
        × ((run c ops).key.run_id ≡ c.key.run_id)
        × (c.key.generation ≤ (run c ops).key.generation)
        × (length (run c ops).lessons ≤ max_lessons)
  unfolding run
  run-kept c [] h = (refl, refl, omega arith, h)
  run-kept c (op ∷ ops) h =
      let next = (step lower plus repr c op).0 in
      let m = moved c op in
      let (wu, id, generation, lessons) = run-kept next ops (m.lessons h) in
      (wu ∙ (m.run).0, id ∙ (m.run).1, omega (arith, generation, m.generation), lessons)

  -- A refused call, whatever it is, leaves everything but the objective as it was.
  pub step-refused :
      (c : RunContext) (op : Op) (e : Error)
      → (step lower plus repr c op).1 ≡ some e
      → (step lower plus repr c op).0
        ≡ record c { objective = ((step lower plus repr c op).0).objective }
  step-refused c op e h = ((step-Done lower plus repr c op).refused e h).0
