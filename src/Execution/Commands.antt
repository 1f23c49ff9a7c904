-- ===== src/Execution/Commands.antt =====
-- The lifecycle commands of `TransitionEngine.transition`, each from a run that is not complete.
use one_company.Prelude.{
  ◌≡◌, refl, sym, ap, subst, inl, inr, String, Bool, true, false, not, Option, none, ℤ, ◌==◌,
  if◌then◌else◌, Result, ok, err, >>=-eq-ok, arith, strip,
}
use one_company.Execution.Context.{
  RunKey, RunContext, RunStatus, active, paused, blocked, budget_limited, Error, same_key,
  is_complete, is_active, is_mutable, rotate_generation,
}
use one_company.Execution.Guard.{is_allowed, check}
use one_company.Execution.Completion.{is_stopped}
use one_company.Execution.Transition.{
  block_reason, is_resumable, is_blocked, with_status, pause, resume, block, unblock, budget_limit,
  dispatch, TransitionResult, transition,
}
use one_company.Json.{Json, Fields}
use one_company.Execution.Accepted.{
  Edge, stays, leaves, at_block, resume-Edge, stop-Edge, Accepted, Accepted-moved, asserted, ok_eq,
}

active_of : (s : RunStatus) → not (is_active s) ≡ false → s ≡ active
active_of active h = refl
active_of _ h = cc

blocked_of : (s : RunStatus) → is_blocked s ≡ true → s ≡ blocked
blocked_of blocked h = refl
blocked_of active h = cc
blocked_of _ h = cc

module _ (c : RunContext) (k : RunKey) where
  -- Accepted, from an open run.
  record Opens (r : Result Error RunContext) : Type 0 where
    pub each : (c' : RunContext) → r ≡ ok c' → Accepted c k c' × (is_complete c.status ≡ false)

  Opens-err : (e : Error) → Opens (err e)
  Opens-err e = record { each = λ c' h. cc }

  Opens-if :
      (b : Bool) (x y : Result Error RunContext)
      → (b ≡ true → Opens x)
      → (b ≡ false → Opens y)
      → Opens (if b then x else y)
  Opens-if true x y hx hy = hx refl
  Opens-if false x y hx hy = hy refl

  Opens-status :
      (status : RunStatus) (reason : Option String)
      → same_key k c.key ≡ true
      → is_complete c.status ≡ false
      → Edge c.status status
      → is_complete status ≡ false
      → Opens (ok (with_status c status reason))
  Opens-status status reason key unfinished edge still = record {
    each = λ c' h. (
      subst (Accepted c k) (ok_eq (with_status c status reason) c' h)
          (Accepted-moved c k (with_status c status reason) key unfinished edge still refl refl),
      unfinished,
    );
  }

  pause-Opens : same_key k c.key ≡ true → Opens (pause c)
  unfolding pause
  pause-Opens key =
      Opens-if (is_mutable c.status) _ _
        (λ m.
          let n : is_complete c.status ≡ false = ground arith in
          Opens-status paused c.blocked_reason key n (stop-Edge _ _ n refl) refl)
        (λ _. Opens-err _)

  resume-Opens : same_key k c.key ≡ true → Opens (resume c)
  unfolding resume
  resume-Opens key =
      Opens-if (not (is_resumable c.status)) _ _ (λ _. Opens-err _)
        (λ m.
          Opens-if (not (is_allowed (check c))) _ _ (λ _. Opens-err _)
            (λ _.
              let n : is_complete c.status ≡ false = ground arith in
              let s : is_resumable c.status ≡ true = ground arith in
              Opens-status active none key n (resume-Edge _ s) refl))

  -- A stop, unless the run is complete.
  stop-Opens :
      (status : RunStatus) (reason : Option String) (e : Error)
      → same_key k c.key ≡ true
      → is_stopped status ≡ true
      → Opens (if is_complete c.status then err e else ok (with_status c status reason))
  stop-Opens status reason e key s =
      Opens-if (is_complete c.status) _ _ (λ _. Opens-err _)
        (λ n. Opens-status status reason key n (stop-Edge _ _ n s) (ground arith))

  block-Opens :
      (repr : Json → String) (payload : Fields)
      → same_key k c.key ≡ true
      → Opens (block repr c payload)
  unfolding block
  block-Opens repr payload key =
      Opens-if (strip (block_reason repr payload) == "") _ _ (λ _. Opens-err _)
        (λ _. stop-Opens blocked _ _ key refl)

  unblock-Opens : same_key k c.key ≡ true → Opens (unblock c)
  unfolding unblock
  unblock-Opens key =
      Opens-if (is_blocked c.status) _ _
        (λ b.
          let s : c.status ≡ blocked = blocked_of c.status b in
          Opens-status active none key (rw s refl)
            (subst (λ t. Edge t active) (sym s) (leaves at_block)) refl)
        (λ _. Opens-err _)

  limit-Opens :
      (repr : Json → String) (payload : Fields)
      → same_key k c.key ≡ true
      → Opens (budget_limit repr c payload)
  unfolding budget_limit
  limit-Opens repr payload key = stop-Opens budget_limited _ _ key refl

  rotate-Opens : (now : ℤ) → same_key k c.key ≡ true → Opens (rotate_generation c now)
  unfolding rotate_generation
  rotate-Opens now key =
      Opens-if (is_complete c.status) _ _ (λ _. Opens-err _)
        (λ n. record {
          each = λ c' h. (
            subst (Accepted c k) (ok_eq _ c' h) (record {
              supplied = key;
              open_or_kept = inl n;
              edge = stays c.status;
              proven = λ _ e. cc;
              run = (refl, refl);
              generation = inr refl;
              lessons = λ l. l;
            }),
            n,
          );
        })

  dispatch-Opens :
      (repr : Json → String) (command : String) (payload : Fields) (now : ℤ)
      → same_key k c.key ≡ true
      → Opens (dispatch repr c command payload now)
  unfolding dispatch
  dispatch-Opens repr command payload now key =
      Opens-if (command == "pause") _ _ (λ _. pause-Opens key)
        (λ _.
          Opens-if (command == "resume") _ _ (λ _. resume-Opens key)
            (λ _.
              Opens-if (command == "block") _ _ (λ _. block-Opens repr payload key)
                (λ _.
                  Opens-if (command == "unblock") _ _ (λ _. unblock-Opens key)
                    (λ _.
                      Opens-if (command == "budget_limit") _ _ (λ _. limit-Opens repr payload key)
                        (λ _.
                          Opens-if (command == "rotate_generation") _ _ (λ _. rotate-Opens now key)
                            (λ _. Opens-err _))))))

  -- The time of an update does not matter.
  touched :
      (c1 : RunContext) (now : ℤ)
      → is_complete c.status ≡ false
      → Accepted c k c1
      → Accepted c k (record c1 { updated_at = now })
  touched c1 now n a = record {
    supplied = a.supplied;
    open_or_kept = inl n;
    edge = a.edge;
    proven = a.proven;
    run = a.run;
    generation = a.generation;
    lessons = a.lessons;
  }

  pub transition-Accepted :
      (repr : Json → String) (command : String) (now : ℤ) (payload : Fields) (r : TransitionResult)
      → transition repr c k command now payload ≡ ok r
      → Accepted c k r.context
  unfolding transition
  transition-Accepted repr command now payload r h =
      let (key, h1) = asserted c k _ h in
      let (c1, moved, h2) = >>=-eq-ok (dispatch repr c command payload now) _ h1 in
      let (a, n) = (dispatch-Opens repr command payload now key).each c1 moved in
      subst (Accepted c k) (ap (λ (q : TransitionResult). q.context) (ok_eq _ r h2))
        (touched c1 now n a)
