-- ===== src/Execution/Accepted.antt =====
-- What any accepted mutation of a run may do: the lifecycle's edges, and one lemma for each mutation.
use one_company.Prelude.{
  ℕ, ◌+◌, ◌≤◌, ◌≡◌, ◌≢◌, ◌⊎◌, refl, sym, ap, subst, inl, inr, String, Bool, true, false, not, ◌||◌,
  List, [], ◌∷◌, Option, ℤ, ◌==◌, length, Result, ok, ◌>>◌, raise_if, raise_if-then, >>-eq-ok,
  arith, Bool-cases, Option-cases, lookup, strip,
}
use one_company.Execution.Context.{
  RunKey, RunContext, RunStatus, active, blocked, paused, budget_limited, completion_pending,
  complete, TaskStatus, TaskItem, EvidenceItem, LessonItem, Error, same_key, is_blank, is_complete,
  is_mutable, validate_key, assert_key,
}
use one_company.Execution.Guard.{
  GuardDecision, is_allowed, is_negative, check, record_usage, record_error, observed, observe,
}
use one_company.Execution.Board.{
  upsert, set_status, add, max_lessons, keep_last, is_lesson_kind, add_lesson,
}
use one_company.Execution.Completion.{is_stopped}
use one_company.Execution.Transition.{is_resumable}
use one_company.Execution.Proven.{IsProven}

-- The lifecycle of a run, apart from its code: a stop may come at any time but at the end, and
-- nothing leaves COMPLETE.
pub data IsStop : RunStatus → Type 0 where
  at_block : IsStop blocked
  at_pause : IsStop paused
  at_limit : IsStop budget_limited

pub data Edge : RunStatus → RunStatus → Type 0 where
  stays : (s : RunStatus) → Edge s s
  claims : Edge active completion_pending
  completes : Edge completion_pending complete
  reopens : Edge completion_pending active
  leaves : {s : RunStatus} → IsStop s → Edge s active
  stops : {s t : RunStatus} → s ≢ complete → IsStop t → Edge s t

IsStop-of : (s : RunStatus) → is_stopped s ≡ true → IsStop s
IsStop-of blocked h = at_block
IsStop-of paused h = at_pause
IsStop-of budget_limited h = at_limit
IsStop-of _ h = cc

pub resume-Edge : (s : RunStatus) → is_resumable s ≡ true → Edge s active
resume-Edge paused h = leaves at_pause
resume-Edge budget_limited h = leaves at_limit
resume-Edge _ h = cc

pub stop-Edge : (s t : RunStatus) → is_complete s ≡ false → is_stopped t ≡ true → Edge s t
stop-Edge s t h g = stops (λ p. let q : true ≡ false = rw p at h in cc) (IsStop-of t g)

-- An accepted mutation: its caller knows the exact key; a complete run is left as it is; the status
-- follows an edge; COMPLETE is entered from a proven run only; the run stays the same run, its
-- generation as it is or one higher; and there are no more lessons than allowed.
pub record Accepted (c : RunContext) (k : RunKey) (c' : RunContext) : Type 0 where
  pub supplied : same_key k c.key ≡ true
  pub open_or_kept : (is_complete c.status ≡ false) ⊎ (c' ≡ c)
  pub edge : Edge c.status c'.status
  pub proven : is_complete c.status ≡ false → is_complete c'.status ≡ true → IsProven c
  pub run : (c'.key.wu_id ≡ c.key.wu_id) × (c'.key.run_id ≡ c.key.run_id)
  pub generation :
      (c'.key.generation ≡ c.key.generation) ⊎ (c'.key.generation ≡ c.key.generation + 1)
  pub lessons : length c.lessons ≤ max_lessons → length c'.lessons ≤ max_lessons

pub asserted :
    {A : Type 0} (c : RunContext) (k : RunKey) (rest : Result Error A) {a : A}
    → (assert_key c k >> rest) ≡ ok a
    → (same_key k c.key ≡ true) × (rest ≡ ok a)
unfolding assert_key
asserted c k rest h =
    let (u, held, after) = >>-eq-ok (assert_key c k) rest h in
    let (_, _, same) = >>-eq-ok (validate_key k) (raise_if (not (same_key k c.key)) _) held in
    (ground arith, after)

pub ok_eq : {A : Type 0} (a b : A) → ◌≡◌ {A = Result Error A} (ok a) (ok b) → a ≡ b
ok_eq a b h = cc

pub open_of_mutable : (s : RunStatus) → not (is_mutable s) ≡ false → is_complete s ≡ false
open_of_mutable s h = ground arith

keep_last-le : (n : ℕ) (ls : List LessonItem) → length (keep_last n ls) ≤ n
unfolding keep_last
keep_last-le n [] = omega arith
keep_last-le n (x ∷ xs) = ground (arith, keep_last-le n xs)

observed_keeps :
    (c : RunContext) (fingerprint : String)
    → ((observed c fingerprint).status ≡ c.status)
      × ((observed c fingerprint).key ≡ c.key)
      × ((observed c fingerprint).lessons ≡ c.lessons)
observed_keeps c fingerprint = elim (Option-cases c.last_progress_fingerprint) [
  | inl e ↦ rw e (refl, refl, refl)
  | inr (last, e) ↦ elim (Bool-cases (last == fingerprint)) [
    | inl f ↦ rw (e, f) (refl, refl, refl)
    | inr f ↦ rw (e, f) (refl, refl, refl)
  ]
]

module _ (c : RunContext) (k : RunKey) where
  -- The run, its lessons and an open status.
  pub Accepted-moved :
      (c' : RunContext)
      → same_key k c.key ≡ true
      → is_complete c.status ≡ false
      → Edge c.status c'.status
      → is_complete c'.status ≡ false
      → c'.key ≡ c.key
      → c'.lessons ≡ c.lessons
      → Accepted c k c'
  Accepted-moved c' key unfinished edge still run lessons = record {
    supplied = key;
    open_or_kept = inl unfinished;
    edge = edge;
    proven = λ _ e. cc;
    run = (ap (λ j. j.wu_id) run, ap (λ j. j.run_id) run);
    generation = inl (ap (λ j. j.generation) run);
    lessons = λ h. rw lessons h;
  }

  pub upsert-Accepted :
      (item : TaskItem) (now : ℤ) (c' : RunContext) → upsert c k item now ≡ ok c' → Accepted c k c'
  unfolding upsert
  upsert-Accepted item now c' h =
      let (key, h1) = asserted c k _ h in
      let (mut, h2) = raise_if-then (not (is_mutable c.status)) _ _ h1 in
      let (_, h3) = raise_if-then (is_blank item.id || is_blank item.description) _ _ h2 in
      let unfinished = open_of_mutable c.status mut in
      subst (Accepted c k) (ok_eq _ c' h3)
        (Accepted-moved _ key unfinished (stays c.status) unfinished refl refl)

  pub set_status-Accepted :
      (task_id : String) (status : TaskStatus) (blocker : Option String) (now : ℤ) (c' : RunContext)
      → set_status c k task_id status blocker now ≡ ok c'
      → Accepted c k c'
  unfolding set_status
  set_status-Accepted task_id status blocker now c' h =
      let (key, h1) = asserted c k _ h in
      let (mut, h2) = raise_if-then (not (is_mutable c.status)) _ _ h1 in
      let unfinished = open_of_mutable c.status mut in
      elim (Option-cases (lookup c.tasks task_id)) [
        | inl e ↦ absurd (ground arith)
        | inr (item, e) ↦
            subst (Accepted c k) (ok_eq _ c' (rw e at h2))
              (Accepted-moved _ key unfinished (stays c.status) unfinished refl refl)
      ]

  pub add-Accepted :
      (item : EvidenceItem) (now : ℤ) (c' : RunContext) → add c k item now ≡ ok c' → Accepted c k c'
  unfolding add
  add-Accepted item now c' h =
      let (key, h1) = asserted c k _ h in
      let (mut, h2) = raise_if-then (not (is_mutable c.status)) _ _ h1 in
      let (_, h3) = raise_if-then (not (is_allowed (check c))) _ _ h2 in
      let (_, h4) =
        raise_if-then (is_blank item.id || is_blank item.kind || is_blank item.reference) _ _ h3 in
      let (_, h5) = raise_if-then _ _ _ h4 in
      let unfinished = open_of_mutable c.status mut in
      subst (Accepted c k) (ok_eq _ c' h5)
        (Accepted-moved _ key unfinished (stays c.status) unfinished refl refl)

  pub add_lesson-Accepted :
      (lower : String → String) (kind text : String) (now : ℤ) (c' : RunContext)
      → add_lesson lower c k kind text now ≡ ok c'
      → Accepted c k c'
  unfolding add_lesson
  add_lesson-Accepted lower kind text now c' h =
      let (key, h1) = asserted c k _ h in
      let (unfinished, h2) = raise_if-then (is_complete c.status) _ _ h1 in
      let (_, h3) = raise_if-then (not (is_lesson_kind (lower (strip kind)))) _ _ h2 in
      let (_, h4) = raise_if-then (is_blank text) _ _ h3 in
      subst (Accepted c k) (ok_eq _ c' h4) (record {
        supplied = key;
        open_or_kept = inl unfinished;
        edge = stays c.status;
        proven = λ _ e. cc;
        run = (refl, refl);
        generation = inl refl;
        lessons = λ _. keep_last-le max_lessons _;
      })

  pub observe-Accepted :
      (fingerprint : String) (now : ℤ) (c' : RunContext) (stalled : Bool)
      → observe c k fingerprint now ≡ ok (c', stalled)
      → Accepted c k c'
  unfolding observe
  observe-Accepted fingerprint now c' stalled h =
      let (key, h1) = asserted c k _ h in
      let (mut, h2) = raise_if-then (not (is_mutable c.status)) _ _ h1 in
      let unfinished = open_of_mutable c.status mut in
      let (status, run, lessons) = observed_keeps c fingerprint in
      subst (Accepted c k) (ap (λ (r : RunContext × Bool). r.0) (ok_eq _ (c', stalled) h2)) (
        Accepted-moved _ key unfinished (subst (Edge c.status) (sym status) (stays c.status))
          (rw status unfinished) run lessons)

  pub record_usage-Accepted :
      (plus : ℤ → ℤ → ℤ) (tokens seconds now : ℤ) (c' : RunContext) (d : GuardDecision)
      → record_usage plus c k tokens seconds now ≡ ok (c', d)
      → Accepted c k c'
  unfolding record_usage
  record_usage-Accepted plus tokens seconds now c' d h =
      let (key, h1) = asserted c k _ h in
      let (mut, h2) = raise_if-then (not (is_mutable c.status)) _ _ h1 in
      let (_, h3) = raise_if-then (is_negative tokens || is_negative seconds) _ _ h2 in
      let unfinished = open_of_mutable c.status mut in
      subst (Accepted c k) (ap (λ (r : RunContext × GuardDecision). r.0) (ok_eq _ (c', d) h3))
        (Accepted-moved _ key unfinished (stays c.status) unfinished refl refl)

  pub record_error-Accepted :
      (now : ℤ) (c' : RunContext) (d : GuardDecision)
      → record_error c k now ≡ ok (c', d)
      → Accepted c k c'
  unfolding record_error
  record_error-Accepted now c' d h =
      let (key, h1) = asserted c k _ h in
      let (mut, h2) = raise_if-then (not (is_mutable c.status)) _ _ h1 in
      let unfinished = open_of_mutable c.status mut in
      subst (Accepted c k) (ap (λ (r : RunContext × GuardDecision). r.0) (ok_eq _ (c', d) h2))
        (Accepted-moved _ key unfinished (stays c.status) unfinished refl refl)
