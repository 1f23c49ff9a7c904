-- ===== src/Execution/Supervision.antt =====
-- What the advice of the supervisor rests on.
use one_company.Prelude.{◌≡◌, ◌↔◌, refl, sym, ap, ◌∙◌, Bool, true, false, ◌&&◌, arith}
use one_company.Execution.Context.{RunContext, is_active, is_pending}
use one_company.Execution.Guard.{check, is_allowed}
use one_company.Execution.Completion.{is_met, assess}
use one_company.Execution.Transition.{Action, continue, run_completion_evaluator, supervise}
use one_company.Execution.Proven.{IsProven, assess-IsProven_iff}

abbrev is_continue : Action → Bool
is_continue continue = true
is_continue _ = false

abbrev is_evaluator : Action → Bool
is_evaluator run_completion_evaluator = true
is_evaluator _ = false

continue_of : (a : Action) → is_continue a ≡ true → a ≡ continue
continue_of a h = ground arith

evaluator_of : (a : Action) → is_evaluator a ≡ true → a ≡ run_completion_evaluator
evaluator_of a h = ground arith

module _ (c : RunContext) where
  continues : is_continue (supervise c).action ≡ (is_active c.status && is_allowed (check c))
  unfolding supervise
  continues = ground arith

  evaluates : is_evaluator (supervise c).action ≡ (is_pending c.status && is_met (assess c).verdict)
  unfolding supervise
  evaluates = ground arith

  -- The supervisor says CONTINUE exactly for an active run with no limit reached, and asks for the
  -- completion evaluator exactly for a proven run that waits for completion.
  pub supervise-action_iff :
      (((supervise c).action ≡ continue)
        ↔ ((is_active c.status ≡ true) × (is_allowed (check c) ≡ true)))
      × (((supervise c).action ≡ run_completion_evaluator)
          ↔ ((is_pending c.status ≡ true) × IsProven c))
  supervise-action_iff = (
    (
      (λ h.
          let q : (is_active c.status && is_allowed (check c)) ≡ true =
            sym continues ∙ ap is_continue h in
          (ground arith, ground arith)),
      λ (a, g). continue_of _ (rw (continues, a, g) refl),
    ),
    (
      (λ h.
          let q : (is_pending c.status && is_met (assess c).verdict) ≡ true =
            sym evaluates ∙ ap is_evaluator h in
          (ground arith, (assess-IsProven_iff c).0 (ground arith))),
      λ (a, g). evaluator_of _ (rw (evaluates, a, (assess-IsProven_iff c).1 g) refl),
    ),
  )
