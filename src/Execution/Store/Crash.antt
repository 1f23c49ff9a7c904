-- ===== src/Execution/Store/Crash.antt =====
-- A write of the store that is cut off at any step, and what is loaded after it.
use one_company.Prelude.{
  ℕ, zero, suc, ◌+◌, ◌≡◌, ◌∙◌, ◌⊎◌, inl, inr, refl, sym, subst, String, Bool, true, false, List, [],
  ◌∷◌, ◌++◌, none, some, ℤ, length, Result, ok, err, eq_refl,
}
use one_company.Json.{Fields, get, put, eq_text_self}
use one_company.Execution.Context.{RunContext}
use one_company.Execution.Codec.{to_dict}
use one_company.Execution.Journal.{
  Fault, invalid_json, crashed, Line, last_record, verify, append, sealed, next_body,
}
use one_company.Execution.Journal.Chain.{verify-append, last_record-snoc}
use one_company.Execution.Store.{
  Document, holding, Files, Io, write, Pending, of_pending, committed_of, save, clear_pending,
  append_event, recover_pending, load, persist_event, ◌>>◌,
}
use one_company.Execution.Store.Loads.{
  as_pending-of_pending, committed_of-snoc, verify-torn, is_empty-snoc, IsClean, settled,
  load-recovered, load-settled, recovers, IsFresh,
}

module _ (hash : Fields → String) (now : ℤ) (p : Pending) (ls : List Line) (rs : List Fields) where
  abbrev pub event : Fields
  event =
      sealed hash (next_body hash rs p.event_type p.context p.details p.recorded_at p.operation_id)

  abbrev pub longer : List Line
  longer = ls ++ (some event ∷ [])

  -- The same lines with the event cut off.
  abbrev pub torn_lines : List Line
  torn_lines = ls ++ (none ∷ [])

  abbrev marked : Document → List Line → (ended : Bool) → Files
  marked state lines ended = record {
    state = state;
    journal = lines;
    ended = ended;
    pending = holding (of_pending p);
  }

  -- The rest of a recovery that finds the marker, and not the event in the journal, or finds both.
  abbrev closing : Io Unit
  closing = save p.context >> clear_pending

  abbrev redoing : Io Unit
  redoing = (save p.context >> append_event hash p) >> closing

  -- The files that a write may leave, whole or cut off, from those of a context before it.
  pub data Phase (c : RunContext) : Files → Type 0 where
    before : Phase c (settled c ls true)
    half : (state : Document) → Phase c (marked state ls true)
    torn : (state : Document) → Phase c (marked state torn_lines false)
    logged : (state : Document) (ended : Bool) → Phase c (marked state longer ended)
    written : (ended : Bool) → Phase c (settled p.context longer ended)

  module _ (fresh : IsFresh hash p ls rs) where
    appended :
        (verify hash longer ≡ ok (rs ++ (event ∷ [])))
        × (append hash ls p.event_type p.context p.details p.recorded_at p.operation_id
            ≡ ok (longer, event))
    appended =
        let (a, b) =
          verify-append hash ls rs p.event_type p.context p.details p.recorded_at p.operation_id
            fresh.verified in
        (b, a)

    committed : committed_of p.operation_id (rs ++ (event ∷ [])) ≡ event ∷ []
    unfolding get put
    committed = committed_of-snoc p.operation_id rs event fresh.new_id (eq_text_self p.operation_id)

    recover-half :
        (state : Document) (power : ℕ)
        → recover_pending hash now p.context.key.wu_id (marked state ls true) power
          ≡ redoing (marked state ls true) power
    unfolding recover_pending
    recover-half state power =
        rw
          (
            as_pending-of_pending now p fresh.budget fresh.valid,
            eq_refl p.context.key.wu_id,
            fresh.verified,
            fresh.new_id,
          )
          refl

    recover-torn :
        (state : Document) (power : ℕ)
        → recover_pending hash now p.context.key.wu_id (marked state torn_lines false) power
          ≡ (marked state torn_lines false, power, err (invalid_json (1 + length ls)))
    unfolding recover_pending
    recover-torn state power =
        rw
          (
            as_pending-of_pending now p fresh.budget fresh.valid,
            eq_refl p.context.key.wu_id,
            verify-torn hash ls rs fresh.verified,
          )
          refl

    recover-logged :
        (state : Document) (ended : Bool) (power : ℕ)
        → recover_pending hash now p.context.key.wu_id (marked state longer ended) power
          ≡ closing (marked state longer ended) power
    unfolding recover_pending get put last_record
    recover-logged state ended power =
        rw
          (
            as_pending-of_pending now p fresh.budget fresh.valid,
            eq_refl p.context.key.wu_id,
            appended.0,
            committed,
            last_record-snoc rs event,
            eq_text_self p.operation_id,
            eq_text_self (hash (to_dict p.context)),
          )
          refl

    module _ (c : RunContext) where
      closing-Phase :
          (state : Document) (ended : Bool) (power : ℕ)
          → Phase c (closing (marked state longer ended) power).0
      unfolding save clear_pending write
      closing-Phase state ended zero = logged state ended
      closing-Phase state ended (suc zero) = logged (holding (to_dict p.context)) ended
      closing-Phase state ended (suc (suc power)) = written ended

      abbrev saved_state : Document
      saved_state = holding (to_dict p.context)

      redoing-Phase :
          (state : Document) (power : ℕ) → Phase c (redoing (marked state ls true) power).0
      unfolding save append_event clear_pending write
      redoing-Phase state zero = half state
      redoing-Phase state (suc zero) = rw appended.1 (half saved_state)
      redoing-Phase state (suc (suc zero)) = rw appended.1 (torn saved_state)
      redoing-Phase state (suc (suc (suc zero))) = rw appended.1 (logged saved_state false)
      redoing-Phase state (suc (suc (suc (suc zero)))) = rw appended.1 (logged saved_state true)
      redoing-Phase state (suc (suc (suc (suc (suc zero))))) =
          rw appended.1 (logged saved_state true)
      redoing-Phase state (suc (suc (suc (suc (suc (suc power)))))) = rw appended.1 (written true)

      recover-Phase :
          (fs : Files) (power : ℕ)
          → Phase c fs
          → Phase c (recover_pending hash now p.context.key.wu_id fs power).0
      unfolding recover_pending
      recover-Phase fs power before = before
      recover-Phase fs power (half state) =
          subst (λ r. Phase c r.0) (sym (recover-half state power)) (redoing-Phase state power)
      recover-Phase fs power (torn state) =
          subst (λ r. Phase c r.0) (sym (recover-torn state power)) (torn state)
      recover-Phase fs power (logged state ended) =
          subst (λ r. Phase c r.0) (sym (recover-logged state ended power))
            (closing-Phase state ended power)
      recover-Phase fs power (written ended) = written ended

      recovers-Phase :
          (fs : Files) (powers : List ℕ)
          → Phase c fs
          → Phase c (recovers hash now p.context.key.wu_id fs powers)
      unfolding recovers
      recovers-Phase fs [] h = h
      recovers-Phase fs (power ∷ powers) h =
          recovers-Phase (recover_pending hash now p.context.key.wu_id fs power).0 powers
            (recover-Phase fs power h)

      -- A phase, and a crash or the whole write.
      abbrev Outcome : Files × ℕ × Result Fault Unit → Type 0
      Outcome r = Phase c r.0 × ((r.2 ≡ err crashed) ⊎ (r.0 ≡ settled p.context longer true))

      persist-Outcome : (power : ℕ) → Outcome (persist_event hash now p (settled c ls true) power)
      unfolding persist_event recover_pending save append_event clear_pending write
      persist-Outcome zero = rw fresh.verified (before, inl refl)
      persist-Outcome (suc zero) = rw fresh.verified (half (holding (to_dict c)), inl refl)
      persist-Outcome (suc (suc zero)) =
          rw (fresh.verified, appended.1) (half saved_state, inl refl)
      persist-Outcome (suc (suc (suc zero))) =
          rw (fresh.verified, appended.1) (torn saved_state, inl refl)
      persist-Outcome (suc (suc (suc (suc zero)))) =
          rw (fresh.verified, appended.1) (logged saved_state false, inl refl)
      persist-Outcome (suc (suc (suc (suc (suc zero))))) =
          rw (fresh.verified, appended.1) (logged saved_state true, inl refl)
      persist-Outcome (suc (suc (suc (suc (suc (suc power)))))) =
          rw (fresh.verified, appended.1) (written true, inr refl)

      IsClean-longer : IsClean hash p.context longer (rs ++ (event ∷ []))
      unfolding get put
      IsClean-longer = record {
        verified = appended.0;
        evidence = is_empty-snoc rs event;
        matches = rw (last_record-snoc rs event) (eq_text_self (hash (to_dict p.context)));
        budget = fresh.budget;
        valid = fresh.valid;
      }

      abbrev enough : ℕ → ℕ
      enough rest = suc (suc (suc (suc (suc (suc rest)))))

      -- What a load gives with six steps, and whether the event was cut off.
      abbrev Loaded : Files → ℕ → Type 0
      Loaded fs rest =
          let loaded = load hash now p.context.key.wu_id fs (enough rest) in
          (loaded.2 ≡ ok c)
          ⊎ (loaded.2 ≡ ok p.context)
          ⊎ (loaded.2 ≡ err (invalid_json (1 + length ls))) × (fs.journal ≡ torn_lines)

      load-half : (state : Document) (rest : ℕ) → Loaded (marked state ls true) rest
      unfolding save append_event clear_pending write
      load-half state rest = inr (
          inl (
            load-recovered hash now p.context longer _ _ (marked state ls true) true (enough rest)
              rest IsClean-longer (recover-half state (enough rest) ∙ rw appended.1 refl)))

      load-torn : (state : Document) (rest : ℕ) → Loaded (marked state torn_lines false) rest
      unfolding load
      load-torn state rest = inr (inr (rw (recover-torn state (enough rest)) refl, refl))

      load-logged :
          (state : Document) (ended : Bool) (rest : ℕ) → Loaded (marked state longer ended) rest
      unfolding save append_event clear_pending write
      load-logged state ended rest = inr (
          inl (
            load-recovered hash now p.context longer _ _ (marked state longer ended) ended
              (enough rest) (suc (suc (suc (suc rest)))) IsClean-longer
              (recover-logged state ended (enough rest))))

      load-Phase : (fs : Files) (rest : ℕ) → IsClean hash c ls rs → Phase c fs → Loaded fs rest
      load-Phase fs rest clean before = inl (load-settled hash now c ls rs _ true _ clean)
      load-Phase fs rest clean (half state) = load-half state rest
      load-Phase fs rest clean (torn state) = load-torn state rest
      load-Phase fs rest clean (logged state ended) = load-logged state ended rest
      load-Phase fs rest clean (written ended) =
          inr (inl (load-settled hash now p.context longer _ _ ended _ IsClean-longer))

      recovers-written :
          (powers : List ℕ)
          → recovers hash now p.context.key.wu_id (settled p.context longer true) powers
            ≡ settled p.context longer true
      unfolding recovers recover_pending
      recovers-written [] = refl
      recovers-written (power ∷ powers) = recovers-written powers

      persist-enough :
          (rest : ℕ) → (persist_event hash now p (settled c ls true) (enough rest)).2 ≡ ok tt
      unfolding persist_event recover_pending save append_event clear_pending write
      persist-enough rest = rw (fresh.verified, appended.1) refl

      load-persisted :
          (power : ℕ) (powers : List ℕ) (rest : ℕ)
          → let saved = persist_event hash now p (settled c ls true) power in
            saved.2 ≡ ok tt
            → (load hash now p.context.key.wu_id
                (recovers hash now p.context.key.wu_id saved.0 powers)
                (enough rest)).2
              ≡ ok p.context
      load-persisted power powers rest done = elim (persist-Outcome power).1 [
        | inl e ↦ absurd (cc)
        | inr whole ↦
            rw (whole, recovers-written powers)
              (load-settled hash now p.context longer _ _ true _ IsClean-longer)
      ]

      -- A write of a valid context under a fresh operation id, to a store that holds a valid context and
      -- its verified journal, whose last line is whole: cut off at any step, and after any recoveries
      -- that are cut off too, a load gives the old context or the new one, or it is refused, at the
      -- line that the cut left torn at the journal's end, and never gives another. If the write
      -- returned, the load gives the new context. Six steps are enough for the write to return, and
      -- for the load.
      pub persist_event-fails_closed :
          (power : ℕ) (powers : List ℕ) (rest : ℕ)
          → IsClean hash c ls rs
          → let saved = persist_event hash now p (settled c ls true) power in
            let left = recovers hash now p.context.key.wu_id saved.0 powers in
            let steps = suc (suc (suc (suc (suc (suc rest))))) in
            let loaded = load hash now p.context.key.wu_id left steps in
            ((loaded.2 ≡ ok c)
              ⊎ (loaded.2 ≡ ok p.context)
              ⊎ (loaded.2 ≡ err (invalid_json (1 + length ls)))
                × (left.journal ≡ ls ++ (none ∷ [])))
            × (saved.2 ≡ ok tt → loaded.2 ≡ ok p.context)
            × ((persist_event hash now p (settled c ls true) steps).2 ≡ ok tt)
      persist_event-fails_closed power powers rest clean =
          let saved = persist_event hash now p (settled c ls true) power in
          let left = recovers hash now p.context.key.wu_id saved.0 powers in
          (
            load-Phase left rest clean (recovers-Phase saved.0 powers (persist-Outcome power).0),
            load-persisted power powers rest,
            persist-enough rest,
          )
