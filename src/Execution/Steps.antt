-- ===== src/Execution/Steps.antt =====
-- The mutations of a run as steps: the context that a call leaves, and what it raised.
use one_company.Prelude.{
  ◌≡◌, refl, sym, inl, inr, String, true, false, List, Option, none, some, ℤ, is_empty, given,
  Result, ◌+◌, ok, err, Bool-cases, Dict,
}
use one_company.Json.{Json, Fields}
use one_company.Execution.Context.{
  RunKey, RunContext, TaskStatus, TaskItem, EvidenceItem, CompletionVerdict, Error, is_complete,
  is_blank, assert_key, rotate_generation, same_key,
}
use one_company.Execution.Guard.{GuardDecision, record_usage, record_error, enforce, observe}
use one_company.Execution.Board.{
  edit_criteria, edit_checked, edit, upsert, set_status, add, add_lesson,
}
use one_company.Execution.Completion.{record_worker_claim, apply_evaluator_verdict}
use one_company.Execution.Transition.{transition}
use one_company.Execution.Accepted.{
  stays, Accepted, asserted, upsert-Accepted, set_status-Accepted, add-Accepted,
  add_lesson-Accepted, observe-Accepted, record_usage-Accepted, record_error-Accepted,
}
use one_company.Execution.Commands.{transition-Accepted}
use one_company.Execution.Moves.{enforce-Accepted, claim-Accepted, verdict-Accepted}

-- A call of one mutation: the key that its caller holds, its arguments, and the time.
pub data Op : Type 0 where
  edits : RunKey → Option String → Option (Dict String) → ℤ → Op
  upserts : RunKey → TaskItem → ℤ → Op
  sets_status : RunKey → String → TaskStatus → Option String → ℤ → Op
  adds : RunKey → EvidenceItem → ℤ → Op
  learns : RunKey → (kind text : String) → ℤ → Op
  observes : RunKey → String → ℤ → Op
  uses : RunKey → (tokens seconds now : ℤ) → Op
  fails : RunKey → ℤ → Op
  enforces : RunKey → Option GuardDecision → ℤ → Op
  claims : RunKey → String → ℤ → Op
  judges : RunKey → CompletionVerdict → ℤ → String → List String → ℤ → Op
  commands : RunKey → String → ℤ → Fields → Op

abbrev pub supplied : Op → RunKey
supplied (edits k objective criteria now) = k
supplied (upserts k item now) = k
supplied (sets_status k id status blocker now) = k
supplied (adds k item now) = k
supplied (learns k kind text now) = k
supplied (observes k fingerprint now) = k
supplied (uses k tokens seconds now) = k
supplied (fails k now) = k
supplied (enforces k decision now) = k
supplied (claims k claim now) = k
supplied (judges k verdict confidence notes cited now) = k
supplied (commands k command now payload) = k

-- What a call leaves: a refused one leaves the context as it was.
abbrev pub settle :
    {A : Type 0} → RunContext → (A → RunContext) → Result Error A → RunContext × Option Error
settle c left (ok a) = (left a, none)
settle c left (err e) = (c, some e)

-- An accepted call, or a refused one, which leaves all but perhaps the objective, and all of a
-- complete run.
pub record Done (c : RunContext) (k : RunKey) (r : RunContext × Option Error) : Type 0 where
  pub accepted : r.1 ≡ none → Accepted c k r.0
  pub refused :
      (e : Error)
      → r.1 ≡ some e
      → (r.0 ≡ record c { objective = (r.0).objective }) × (is_complete c.status ≡ true → r.0 ≡ c)

Done-settle :
    {A : Type 0} (c : RunContext) (k : RunKey) (left : A → RunContext) (m : Result Error A)
    → ((a : A) → m ≡ ok a → Accepted c k (left a))
    → Done c k (settle c left m)
Done-settle c k left (ok a) h = record { accepted = λ _. h a refl; refused = λ e p. cc }
Done-settle c k left (err x) h = record { accepted = λ p. cc; refused = λ e p. (refl, λ _. refl) }

Done-refused : (c : RunContext) (k : RunKey) (e : Error) → Done c k (c, some e)
Done-refused c k e = record { accepted = λ p. cc; refused = λ x p. (refl, λ _. refl) }

module _ (c : RunContext) (k : RunKey) where
  Accepted-edited :
      (objective : String) (criteria : Dict String) (now : ℤ)
      → same_key k c.key ≡ true
      → is_complete c.status ≡ false
      → Accepted c k (record c {
        objective = objective;
        acceptance_criteria = criteria;
        key = record c.key { generation = c.key.generation + 1 };
        consecutive_errors = 0;
        unchanged_cycles = 0;
        last_progress_fingerprint = none;
        updated_at = now;
      })
  Accepted-edited objective criteria now key unfinished = record {
    supplied = key;
    open_or_kept = inl unfinished;
    edge = stays c.status;
    proven = λ _ e. cc;
    run = (refl, refl);
    generation = inr refl;
    lessons = λ l. l;
  }

  criteria-Done :
      (objective : String) (criteria : Option (Dict String)) (now : ℤ)
      → same_key k c.key ≡ true
      → is_complete c.status ≡ false
      → Done c k (edit_criteria (record c { objective = objective }) criteria now)
  unfolding rotate_generation
  criteria-Done objective criteria now key unfinished =
      elim (Bool-cases (given criteria false (λ d. is_empty d))) [
        | inl e ↦ rw e (record { accepted = λ p. cc; refused = λ x p. (refl, λ f. cc) })
        | inr e ↦
            rw (e, unfinished)
              (record {
                accepted = λ _. Accepted-edited objective _ now key unfinished;
                refused = λ x p. cc;
              })
      ]

  checked-Done :
      (objective : Option String) (criteria : Option (Dict String)) (now : ℤ)
      (m : Result Error Unit)
      → m ≡ assert_key c k
      → Done c k (edit_checked c objective criteria now m)
  checked-Done objective criteria now (err e) p = Done-refused c k e
  checked-Done objective criteria now (ok u) p =
      let (key, _) = asserted c k (ok u) (rw (sym p) refl) in
      elim (Bool-cases (is_complete c.status)) [
        | inl f ↦ rw f (Done-refused c k _)
        | inr f ↦ elim (Bool-cases (given objective false (λ s. is_blank s))) [
          | inl b ↦ rw (f, b) (Done-refused c k _)
          | inr b ↦
              rw (f, b) (criteria-Done (given objective c.objective (λ s. s)) criteria now key f)
        ]
      ]

  edit-Done :
      (objective : Option String) (criteria : Option (Dict String)) (now : ℤ)
      → Done c k (edit c k objective criteria now)
  unfolding edit
  edit-Done objective criteria now = checked-Done objective criteria now (assert_key c k) refl

-- `lower` is str.lower, `plus` the addition of floats, `repr` str on values that are no texts.
module _ (lower : String → String) (plus : ℤ → ℤ → ℤ) (repr : Json → String) where
  unfoldable pub step : RunContext → Op → RunContext × Option Error
  step c (edits k objective criteria now) = edit c k objective criteria now
  step c (upserts k item now) = settle c (λ x. x) (upsert c k item now)
  step c (sets_status k id status blocker now) =
      settle c (λ x. x) (set_status c k id status blocker now)
  step c (adds k item now) = settle c (λ x. x) (add c k item now)
  step c (learns k kind text now) = settle c (λ x. x) (add_lesson lower c k kind text now)
  step c (observes k fingerprint now) = settle c (λ r. r.0) (observe c k fingerprint now)
  step c (uses k tokens seconds now) =
      settle c (λ r. r.0) (record_usage plus c k tokens seconds now)
  step c (fails k now) = settle c (λ r. r.0) (record_error c k now)
  step c (enforces k decision now) = settle c (λ r. r.0) (enforce c k decision now)
  step c (claims k claim now) = settle c (λ r. r.0) (record_worker_claim c k claim now)
  step c (judges k verdict confidence notes cited now) =
      settle c (λ x. x) (apply_evaluator_verdict c k verdict confidence notes cited now)
  step c (commands k command now payload) =
      settle c (λ r. r.context) (transition repr c k command now payload)

  pub step-Done : (c : RunContext) (op : Op) → Done c (supplied op) (step c op)
  unfolding step
  step-Done c (edits k objective criteria now) = edit-Done c k objective criteria now
  step-Done c (upserts k item now) = Done-settle c k _ _ (upsert-Accepted c k item now)
  step-Done c (sets_status k id status blocker now) =
      Done-settle c k _ _ (set_status-Accepted c k id status blocker now)
  step-Done c (adds k item now) = Done-settle c k _ _ (add-Accepted c k item now)
  step-Done c (learns k kind text now) =
      Done-settle c k _ _ (add_lesson-Accepted c k lower kind text now)
  step-Done c (observes k fingerprint now) =
      Done-settle c k _ _ (λ (c', b). observe-Accepted c k fingerprint now c' b)
  step-Done c (uses k tokens seconds now) =
      Done-settle c k _ _ (λ (c', d). record_usage-Accepted c k plus tokens seconds now c' d)
  step-Done c (fails k now) = Done-settle c k _ _ (λ (c', d). record_error-Accepted c k now c' d)
  step-Done c (enforces k decision now) =
      Done-settle c k _ _ (λ (c', d). enforce-Accepted c k decision now c' d)
  step-Done c (claims k claim now) = Done-settle c k _ _ (claim-Accepted c k claim now)
  step-Done c (judges k verdict confidence notes cited now) =
      Done-settle c k _ _ (verdict-Accepted c k verdict confidence notes cited now)
  step-Done c (commands k command now payload) =
      Done-settle c k _ _ (transition-Accepted c k repr command now payload)
