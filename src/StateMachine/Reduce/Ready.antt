-- ===== src/StateMachine/Reduce/Ready.antt =====
-- When `reduce_evidence` says MERGE_READY: just when the gates are met.
use one_company.Prelude.{
  ℕ, zero, suc, String, ◌≡◌, refl, ap, true, false, List, [], ◌∷◌, some, pos, arith, ok, any,
  >>=-eq-ok, Option-cases, inl, inr, ◌↔◌, ◌∙◌, ◌⊎◌,
}
use one_company.Json.{Json, null, bool, int, str, obj, Fields, get, get_or, eq_text, eq_text-eq}
use one_company.StateMachine.Defs.{
  merge_ready, await_authorized_expected_head_merge, required_bool, as_sha, bound_exact_refs,
  as_positive, Decision, Stream, read_stream,
}
use one_company.StateMachine.Reduce.{
  is_only, decide_merged, decide_review, decide_ci, decide_current, decide_refs, decide_stream,
  decide, reduce_evidence,
}
use one_company.StateMachine.Reduce.Gates.{
  ready, IsBound, Gates, IsBound-of, bound_of_IsBound, ReviewPassed, review_of_ready,
  ready_of_review,
}
use one_company.StateMachine.Reduce.Vocabulary.{decide-merge_ready}

module _ (lower : String → String) (e : Fields) where
  abbrev CiPassed : String → String → Type 0
  CiPassed head base =
      (get e "implementation_complete" ≡ bool true)
      × (get_or e "ci" (str "UNKNOWN") ≡ str "SUCCESS")
      × IsBound e "ci" head base
      × ReviewPassed lower e head base

  ci_step :
      (head base : String)
      → decide_ci lower e head base ≡ ready
      → (get e "implementation_complete" ≡ bool true)
        × (eq_text (get_or e "ci" (str "UNKNOWN")) "SUCCESS" ≡ true)
        × (bound_exact_refs e "ci" head base ≡ true)
        × (decide_review lower e head base ≡ ready)
  unfolding decide_ci required_bool any
  ci_step head base h = ground arith

  ci_of_ready : (head base : String) → decide_ci lower e head base ≡ ready → CiPassed head base
  ci_of_ready head base h =
      let (done, ci, bound, review) = ci_step head base h in
      (
        done,
        eq_text-eq _ _ ci,
        IsBound-of e "ci" head base bound,
        review_of_ready lower e head base review,
      )

  ready_of_ci : (head base : String) → CiPassed head base → decide_ci lower e head base ≡ ready
  unfolding decide_ci required_bool any
  ready_of_ci head base (done, ci, bound, review) =
      rw (done, ci, bound_of_IsBound e "ci" head base bound)
        (ready_of_review lower e head base review)

  abbrev Current : Stream → String → String → Type 0
  Current stream head base =
      (stream.merged ≡ false)
      × (get e "head_current" ≡ bool true)
      × (get e "base_current" ≡ bool true)
      × (get_or e "behind_base" (bool false) ≡ bool false)
      × CiPassed head base

  current_step :
      (stream : Stream) (head base : String)
      → decide_current lower e stream head base ≡ ready
      → (stream.merged ≡ false)
        × (get e "head_current" ≡ bool true)
        × (get e "base_current" ≡ bool true)
        × (get_or e "behind_base" (bool false) ≡ bool false)
        × (decide_ci lower e head base ≡ ready)
  unfolding decide_current decide_merged required_bool
  current_step stream head base h = ground arith

  Current-of_ready :
      (stream : Stream) (head base : String)
      → decide_current lower e stream head base ≡ ready
      → Current stream head base
  Current-of_ready stream head base h =
      let (unmerged, headc, basec, behind, ci) = current_step stream head base h in
      (unmerged, headc, basec, behind, ci_of_ready head base ci)

  ready_of_Current :
      (stream : Stream) (head base : String)
      → Current stream head base
      → decide_current lower e stream head base ≡ ready
  unfolding decide_current required_bool
  ready_of_Current stream head base (unmerged, headc, basec, behind, ci) =
      rw (headc, basec, behind, unmerged) (ready_of_ci head base ci)

as_positive-eq :
    (v : Json) (n : ℕ) → as_positive v ≡ some n → (m : ℕ) × (n ≡ suc m) × (v ≡ int (pos (suc m)))
as_positive-eq (int (pos (suc m))) n h = (m, ground arith, refl)
as_positive-eq (int (pos zero)) n h = cc
as_positive-eq null n h = cc
as_positive-eq _ n h = cc

is_only-eq : (n : ℕ) (ms : List ℕ) → is_only n ms ≡ true → ms ≡ n ∷ []
is_only-eq n [] h = cc
is_only-eq n (m ∷ []) h = ground arith
is_only-eq n (m ∷ k ∷ ms) h = cc

module _ (lower : String → String) (e : Fields) (stream : Stream) where
  pub record Refs : Type 0 where
    pub head : String
    pub base : String
    pub head_sha : as_sha (get e "head_sha") ≡ some head
    pub base_sha : as_sha (get e "base_sha") ≡ some base
    pub current : Current lower e stream head base

  refs_step :
      decide_refs lower e stream ≡ ready
      → (head base : String) × (as_sha (get e "head_sha") ≡ some head)
        × (as_sha (get e "base_sha") ≡ some base)
        × (decide_current lower e stream head base ≡ ready)
  unfolding decide_refs
  refs_step h = elim (Option-cases (as_sha (get e "head_sha"))) [
    | inl p ↦ absurd (ground arith)
    | inr (head, p) ↦ elim (Option-cases (as_sha (get e "base_sha"))) [
      | inl q ↦ absurd (ground arith)
      | inr (base, q) ↦ (head, base, p, q, ground arith)
    ]
  ]

  refs_of_ready : decide_refs lower e stream ≡ ready → Refs
  refs_of_ready h =
      let (head, base, p, q, rest) = refs_step h in
      record {
        head = head;
        base = base;
        head_sha = p;
        base_sha = q;
        current = Current-of_ready lower e stream head base rest;
      }

  ready_of_refs : Refs → decide_refs lower e stream ≡ ready
  unfolding decide_refs
  ready_of_refs r = ground (arith, ready_of_Current lower e stream r.head r.base r.current)

  decide_step :
      decide lower e stream ≡ ready
      → (n : ℕ) × (stream.emergency_stop ≡ false)
        × (stream.human_only ≡ false)
        × (stream.blocked ≡ false)
        × (as_positive stream.canonical_pr ≡ some n)
        × (decide_refs lower e stream ≡ ready)
        × ((stream.merged ≡ true) ⊎ (is_only n stream.active_prs ≡ true))
  unfolding decide decide_stream
  decide_step h = elim (Option-cases (as_positive stream.canonical_pr)) [
    | inl p ↦ absurd (ground arith)
    | inr (n, p) ↦ (n, ground arith, ground arith, ground arith, p, ground arith, ground arith)
  ]

  Gates-of_decide : decide lower e stream ≡ ready → Gates lower e stream
  Gates-of_decide h =
      let (n, running, automatic, unblocked, p, rest, open_pr) = decide_step h in
      let (pr, n_suc, canonical) = as_positive-eq _ n p in
      let r = refs_of_ready rest in
      let (unmerged, headc, basec, behind, ci) = r.current in
      let (done, green, ci_bound, passed) = ci in
      let (threads, review, review_bound, reviewed) = passed in
      record {
        pr = pr;
        head = r.head;
        base = r.base;
        running = running;
        automatic = automatic;
        unblocked = unblocked;
        unmerged = unmerged;
        canonical = canonical;
        only = only_of pr n n_suc unmerged open_pr;
        head_sha = r.head_sha;
        base_sha = r.base_sha;
        head_current = headc;
        base_current = basec;
        up_to_date = behind;
        implemented = done;
        ci = green;
        ci_bound = ci_bound;
        threads = threads;
        review = review;
        review_bound = review_bound;
        reviewed = reviewed;
      }
    where
      only_of :
          (pr n : ℕ)
          → n ≡ suc pr
          → stream.merged ≡ false
          → (stream.merged ≡ true) ⊎ (is_only n stream.active_prs ≡ true)
          → stream.active_prs ≡ suc pr ∷ []
      only_of pr n e' m (inl t) = cc
      only_of pr n e' m (inr o) = is_only-eq n stream.active_prs o ∙ ap (λ k. k ∷ []) e'

  refs_of_Gates : Gates lower e stream → decide_refs lower e stream ≡ ready
  refs_of_Gates g = ready_of_refs (record {
    head = g.head;
    base = g.base;
    head_sha = g.head_sha;
    base_sha = g.base_sha;
    current = (
      g.unmerged,
      g.head_current,
      g.base_current,
      g.up_to_date,
      (g.implemented, g.ci, g.ci_bound, (g.threads, g.review, g.review_bound, g.reviewed)),
    );
  })

  decide_through :
      (n : ℕ)
      → stream.emergency_stop ≡ false
      → stream.human_only ≡ false
      → stream.blocked ≡ false
      → stream.merged ≡ false
      → stream.canonical_pr ≡ int (pos (suc n))
      → stream.active_prs ≡ suc n ∷ []
      → decide_refs lower e stream ≡ ready
      → decide lower e stream ≡ ready
  unfolding decide decide_stream
  decide_through n a b c d p q h = ground arith

  decide_of_Gates : Gates lower e stream → decide lower e stream ≡ ready
  decide_of_Gates g =
      decide_through g.pr g.running g.automatic g.unblocked g.unmerged g.canonical g.only
        (refs_of_Gates g)

module _ (lower : String → String) (evidence : Fields) where
  Gates-of_reduce :
      (d : Decision)
      → reduce_evidence lower (obj evidence) ≡ ok d
      → d.state ≡ merge_ready
      → (stream : Stream) × (read_stream evidence ≡ ok stream) × Gates lower evidence stream
  unfolding reduce_evidence
  Gates-of_reduce d h s =
      let (stream, readable, rest) = >>=-eq-ok (read_stream evidence) _ h in
      let (outcome, decided, same) = >>=-eq-ok (decide lower evidence stream) _ rest in
      let at_ready : outcome.state ≡ merge_ready = cc (s, same) in
      (
        stream,
        readable,
        Gates-of_decide lower evidence stream
            (decide-merge_ready lower evidence stream outcome decided at_ready),
      )

  -- MERGE_READY is said just of evidence that can be read and meets every gate: no stop, hold or
  -- block; one open canonical PR; current exact refs; finished work; green CI and a passed review
  -- bound to those refs; no open thread; an eligible reviewer who is no material author; mergeable.
  pub reduce_evidence-merge_ready_iff :
      ((d : Decision) × (reduce_evidence lower (obj evidence) ≡ ok d) × (d.state ≡ merge_ready))
      ↔ ((stream : Stream) × (read_stream evidence ≡ ok stream) × Gates lower evidence stream)
  unfolding reduce_evidence
  reduce_evidence-merge_ready_iff = (
    (λ (d, h, s). Gates-of_reduce d h s),
    λ (stream, readable, g).
        let h = decide_of_Gates lower evidence stream g in
        (
          record {
            repository = stream.repository;
            issue = stream.issue;
            canonical_pr = stream.canonical_pr;
            state = merge_ready;
            next_action = await_authorized_expected_head_merge;
            mutation_allowed = false;
          },
          rw (readable, h),
          refl,
        ),
  )
