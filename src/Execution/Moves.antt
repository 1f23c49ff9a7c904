-- ===== src/Execution/Moves.antt =====
-- The guard, the claim and the verdict, which move a run along its lifecycle.
use one_company.Prelude.{
  ◌≡◌, refl, sym, ap, subst, inl, inr, String, true, false, not, ◌&&◌, List, Option, ℤ, given, ok,
  raise_if-then, arith, Bool-cases,
}
use one_company.Execution.Context.{
  RunKey, RunContext, RunStatus, active, paused, completion_pending, CompletionVerdict, met,
  impossible, unavailable, continue, same_key, is_blank, is_complete, is_active, is_pending,
}
use one_company.Execution.Guard.{
  GuardDecision, allowed, refused, is_allowed, check, enforce_decision, enforce,
}
use one_company.Execution.Completion.{
  CompletionAssessment, is_met, is_confidence, verdict_status, assess, record_worker_claim,
  apply_evaluator_verdict,
}
use one_company.Execution.Proven.{assess-IsProven_iff}
use one_company.Execution.Accepted.{
  Edge, stays, claims, completes, reopens, stop-Edge, Accepted, Accepted-moved, asserted, ok_eq,
}

active_of : (s : RunStatus) → not (is_active s) ≡ false → s ≡ active
active_of active h = refl
active_of _ h = cc

pending_of : (s : RunStatus) → not (is_pending s) ≡ false → s ≡ completion_pending
pending_of completion_pending h = refl
pending_of paused h = cc
pending_of _ h = cc

module _ (c : RunContext) (k : RunKey) where
  Accepted-same : same_key k c.key ≡ true → Accepted c k c
  Accepted-same key = record {
    supplied = key;
    open_or_kept = inr refl;
    edge = stays c.status;
    proven = λ n e. cc;
    run = (refl, refl);
    generation = inl refl;
    lessons = λ h. h;
  }

  decision-Accepted :
      (given_d : GuardDecision) (now : ℤ) (c' : RunContext) (d : GuardDecision)
      → same_key k c.key ≡ true
      → enforce_decision c given_d now ≡ ok (c', d)
      → Accepted c k c'
  unfolding enforce_decision
  decision-Accepted allowed now c' d key h =
      subst (Accepted c k) (ap (λ (r : RunContext × GuardDecision). r.0) (ok_eq _ (c', d) h))
        (Accepted-same key)
  decision-Accepted (refused why) now c' d key h = elim (Bool-cases (is_complete c.status)) [
    | inl e ↦ absurd (ground arith)
    | inr e ↦
        subst (Accepted c k)
          (ap (λ (r : RunContext × GuardDecision). r.0) (ok_eq _ (c', d) (rw e at h)))
          (Accepted-moved c k _ key e (stop-Edge _ _ e (ground arith)) (ground arith) refl refl)
  ]

  pub enforce-Accepted :
      (decision : Option GuardDecision) (now : ℤ) (c' : RunContext) (d : GuardDecision)
      → enforce c k decision now ≡ ok (c', d)
      → Accepted c k c'
  unfolding enforce
  enforce-Accepted decision now c' d h =
      let (key, h1) = asserted c k _ h in
      decision-Accepted (given decision (check c) (λ x. x)) now c' d key h1

  pub claim-Accepted :
      (claim : String) (now : ℤ) (r : RunContext × CompletionAssessment)
      → record_worker_claim c k claim now ≡ ok r
      → Accepted c k r.0
  unfolding record_worker_claim
  claim-Accepted claim now r h =
      let (key, h1) = asserted c k _ h in
      let (_, h2) = raise_if-then (not (is_allowed (check c))) _ _ h1 in
      let (act, h3) = raise_if-then (not (is_active c.status)) _ _ h2 in
      let (_, h4) = raise_if-then (is_blank claim) _ _ h3 in
      let running = active_of c.status act in
      subst (Accepted c k) (ap (λ (q : RunContext × CompletionAssessment). q.0) (ok_eq _ r h4)) (
        Accepted-moved c k _ key (rw running refl)
          (subst (λ s. Edge s completion_pending) (sym running) claims) refl refl refl)

  judged :
      (verdict : CompletionVerdict) (c' : RunContext)
      → same_key k c.key ≡ true
      → c.status ≡ completion_pending
      → (is_met verdict && not (is_met (assess c).verdict)) ≡ false
      → c'.status ≡ verdict_status verdict
      → c'.key ≡ c.key
      → c'.lessons ≡ c.lessons
      → Accepted c k c'
  judged met c' key pending proof status run lessons = record {
    supplied = key;
    open_or_kept = inl (rw pending refl);
    edge =
        subst (λ s. Edge s c'.status) (sym pending)
          (subst (Edge completion_pending) (sym status) completes);
    proven = λ _ _. (assess-IsProven_iff c).0 (ground arith);
    run = (ap (λ j. j.wu_id) run, ap (λ j. j.run_id) run);
    generation = inl (ap (λ j. j.generation) run);
    lessons = λ h. rw lessons h;
  }
  judged impossible c' key pending proof status run lessons =
      Accepted-moved c k c' key (rw pending refl) (stop-Edge _ _ (rw pending refl) (rw status refl))
        (rw status refl) run lessons
  judged unavailable c' key pending proof status run lessons =
      Accepted-moved c k c' key (rw pending refl) (stop-Edge _ _ (rw pending refl) (rw status refl))
        (rw status refl) run lessons
  judged continue c' key pending proof status run lessons =
      Accepted-moved c k c' key (rw pending refl)
        (subst (λ s. Edge s c'.status) (sym pending)
          (subst (Edge completion_pending) (sym status) reopens))
        (rw status refl) run lessons

  pub verdict-Accepted :
      (verdict : CompletionVerdict) (confidence : ℤ) (notes : String) (cited : List String)
      (now : ℤ) (c' : RunContext)
      → apply_evaluator_verdict c k verdict confidence notes cited now ≡ ok c'
      → Accepted c k c'
  unfolding apply_evaluator_verdict
  verdict-Accepted verdict confidence notes cited now c' h =
      let (key, h1) = asserted c k _ h in
      let (pend, h2) = raise_if-then (not (is_pending c.status)) _ _ h1 in
      let (_, h3) = raise_if-then (not (is_confidence confidence)) _ _ h2 in
      let (_, h4) = raise_if-then _ _ _ h3 in
      let (proof, h5) = raise_if-then (is_met verdict && not (is_met (assess c).verdict)) _ _ h4 in
      subst (Accepted c k) (ok_eq _ c' h5)
        (judged verdict _ key (pending_of c.status pend) proof refl refl refl)
