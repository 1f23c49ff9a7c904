-- ===== src/Execution/Proven.antt =====
-- What `CompletionGate.assess` asks before it says MET.
use one_company.Prelude.{
  ◌≡◌, ◌↔◌, refl, sym, inl, inr, String, Bool, true, false, not, List, [], ◌∷◌, is_empty,
  if◌then◌else◌, arith, In, append-eq-nil, Bool-cases, keys, vals,
}
use one_company.Execution.Context.{RunContext, TaskStatus, TaskItem, EvidenceItem}
use one_company.Execution.Guard.{GuardDecision, allowed, refused, check}
use one_company.Execution.Completion.{
  Reason, blocked_tasks, unfinished_tasks, uncovered, run_not_runnable, is_done, is_blocked,
  is_stopped, is_met, ids_where, covers, refs_of, unmet_of, unless_empty, guard_reasons, reasons_of,
  assess,
}

-- Every task is done, every criterion has an authoritative piece of evidence that names it, the run
-- is not stopped, and no limit is reached.
pub record IsProven (c : RunContext) : Type 0 where
  pub tasks_done : (t : TaskItem) → In t (vals c.tasks) → is_done t.status ≡ true
  pub covered :
      (ac : String)
      → In ac (keys c.acceptance_criteria)
      → (e : EvidenceItem) × In e (vals c.evidence) × (covers ac e ≡ true)
  pub runnable : is_stopped c.status ≡ false
  pub within : check c ≡ allowed

ids_none :
    (test : TaskStatus → Bool) (ts : List TaskItem)
    → ids_where test ts ≡ []
    → (t : TaskItem) → In t ts
    → test t.status ≡ false
unfolding ids_where
ids_none test [] h t m = elim m [ ]
ids_none test (u ∷ ts) h t (inl e) = rw e (ground arith)
ids_none test (u ∷ ts) h t (inr m) = ids_none test ts (ground arith) t m

none_ids :
    (test : TaskStatus → Bool) (ts : List TaskItem)
    → ((t : TaskItem) → In t ts → test t.status ≡ false)
    → ids_where test ts ≡ []
unfolding ids_where
none_ids test [] h = refl
none_ids test (u ∷ ts) h = rw (h u (inl refl)) (none_ids test ts (λ t m. h t (inr m)))

found_ref :
    (ac : String) (es : List EvidenceItem)
    → is_empty (refs_of ac es) ≡ false
    → (e : EvidenceItem) × In e es × (covers ac e ≡ true)
unfolding refs_of
found_ref ac [] h = cc
found_ref ac (e ∷ es) h = elim (Bool-cases (covers ac e)) [
  | inl c ↦ (e, inl refl, c)
  | inr n ↦ let (f, m, c) = found_ref ac es (ground arith) in (f, inr m, c)
]

ref_found :
    (ac : String) (es : List EvidenceItem) (e : EvidenceItem)
    → In e es
    → covers ac e ≡ true
    → is_empty (refs_of ac es) ≡ false
unfolding refs_of
ref_found ac [] e m c = elim m [ ]
ref_found ac (f ∷ es) e (inl p) c = rw (sym p, c) refl
ref_found ac (f ∷ es) e (inr m) c = ground (arith, ref_found ac es e m c)

covered_of :
    (acs : List String) (es : List EvidenceItem)
    → unmet_of acs es ≡ []
    → (ac : String) → In ac acs
    → is_empty (refs_of ac es) ≡ false
unfolding unmet_of
covered_of [] es h ac m = elim m [ ]
covered_of (k ∷ acs) es h ac (inl e) = rw e (ground arith)
covered_of (k ∷ acs) es h ac (inr m) = covered_of acs es (ground arith) ac m

of_covered :
    (acs : List String) (es : List EvidenceItem)
    → ((ac : String) → In ac acs → is_empty (refs_of ac es) ≡ false)
    → unmet_of acs es ≡ []
unfolding unmet_of
of_covered [] es h = refl
of_covered (k ∷ acs) es h = rw (h k (inl refl)) (of_covered acs es (λ ac m. h ac (inr m)))

unless_empty-nil : (ss : List String) (r : List String → Reason) → unless_empty ss r ≡ [] → ss ≡ []
unless_empty-nil [] r h = refl
unless_empty-nil (s ∷ ss) r h = cc

guard-nil : (d : GuardDecision) → guard_reasons d ≡ [] → d ≡ allowed
guard-nil allowed h = refl
guard-nil (refused why) h = cc

not_done : (s : TaskStatus) → not (is_done s) ≡ false → is_done s ≡ true
not_done s h = ground arith

not_blocked : (s : TaskStatus) → is_done s ≡ true → is_blocked s ≡ false
not_blocked s h = ground arith

module _ (c : RunContext) where
  IsProven-reasons : reasons_of c ≡ [] → IsProven c
  unfolding reasons_of
  IsProven-reasons h =
      let (_, r1) =
        append-eq-nil (unless_empty (ids_where is_blocked (vals c.tasks)) blocked_tasks) _ h in
      let (unfinished, r2) =
        append-eq-nil
          (unless_empty (ids_where (λ s. not (is_done s)) (vals c.tasks)) unfinished_tasks) _ r1 in
      let (unmet, r3) =
        append-eq-nil
          (unless_empty (unmet_of (keys c.acceptance_criteria) (vals c.evidence)) uncovered) _ r2 in
      let (stopped, guarded) =
        append-eq-nil (if is_stopped c.status then run_not_runnable c.status ∷ [] else []) _ r3 in
      record {
        tasks_done = λ t m. not_done t.status (
            ids_none (λ s. not (is_done s)) (vals c.tasks)
              (unless_empty-nil _ unfinished_tasks unfinished) t m);
        covered = λ ac m. found_ref ac (vals c.evidence) (
            covered_of (keys c.acceptance_criteria) (vals c.evidence)
              (unless_empty-nil _ uncovered unmet) ac m);
        runnable = ground arith;
        within = guard-nil (check c) guarded;
      }

  reasons-IsProven : IsProven c → reasons_of c ≡ []
  unfolding reasons_of
  reasons-IsProven p =
      let unfinished =
        none_ids (λ s. not (is_done s)) (vals c.tasks) (λ t m. rw (p.tasks_done t m) refl) in
      let blocked =
        none_ids is_blocked (vals c.tasks) (λ t m. not_blocked t.status (p.tasks_done t m)) in
      let unmet =
        of_covered (keys c.acceptance_criteria) (vals c.evidence)
          (λ ac m. let (e, i, v) = p.covered ac m in ref_found ac (vals c.evidence) e i v) in
      rw (blocked, unfinished, unmet, p.runnable, p.within) refl

  -- The preflight says MET exactly for a proven run.
  pub assess-IsProven_iff : (is_met (assess c).verdict ≡ true) ↔ IsProven c
  unfolding assess
  assess-IsProven_iff = (
    (λ h. IsProven-reasons (nil_of_empty (reasons_of c) (ground arith))),
    λ p. rw (reasons-IsProven p) refl,
  )
    where
      nil_of_empty : (rs : List Reason) → is_empty rs ≡ true → rs ≡ []
      nil_of_empty [] h = refl
      nil_of_empty (r ∷ rs) h = cc
