-- ===== src/Execution/Store.antt =====
-- `ExecutionStore` of scripts/execution_core.py for one work unit, under its lock: the state, the
-- journal and the marker of a pending write. A replacement of a file is one step, and so is a
-- removal. An appended line is three steps, since it can be cut off: a part of the record, the whole
-- record, its line feed. `power` counts the steps before a crash. `now` is time.time().
pub mod Loads
pub mod Crash
mod Tests
use one_company.Prelude.{
  ℕ, zero, suc, ◌+◌, String, Bool, true, false, not, ◌||◌, List, [], ◌∷◌, ◌++◌, Option, none, some,
  ℤ, pos, any, is_empty, ◌==◌, if◌then◌else◌, Result, ok, err, raise_if, given,
}
use one_company.Json.{
  Json, int, float, str, obj, Fields, end, field, get, get_or, eq_text, as_text, as_dict,
}
use one_company.Execution.Context.{RunKey, RunContext}
use one_company.Execution.Codec.{to_dict}
use one_company.Execution.Codec.Read.{as_units, from_dict}
use one_company.Execution.Journal.{
  Fault, pending_invalid, pending_foreign, pending_conflict, no_evidence, state_mismatch,
  unreadable, crashed, Line, last_record, verify, append,
}

-- A file of one JSON document.
pub data Document : Type 0 where
  absent garbled : Document
  holding : Fields → Document

pub record Files : Type 0 where
  pub state : Document
  pub journal : List Line
  -- whether the last line of the journal has its line feed
  pub ended : Bool
  pub pending : Document

-- The files and the steps before a crash, and what an operation leaves of them.
abbrev pub Io : Type 0 → Type 0
Io A = Files → ℕ → Files × ℕ × Result Fault A

abbrev pub pure : {A : Type 0} → A → Io A
pure a fs power = (fs, power, ok a)

abbrev pub lift : {A : Type 0} → Result Fault A → Io A
lift r fs power = (fs, power, r)

abbrev pub after_result :
    {A B : Type 0} → (A → Io B) → Files × ℕ × Result Fault A → Files × ℕ × Result Fault B
after_result next (fs, power, ok a) = next a fs power
after_result next (fs, power, err e) = (fs, power, err e)

infixl 5 ◌>>=◌
abbrev pub ◌>>=◌ : {A B : Type 0} → Io A → (A → Io B) → Io B
(m >>= next) fs power = after_result next (m fs power)

infixl 5 ◌>>◌
abbrev pub ◌>>◌ : {A B : Type 0} → Io A → Io B → Io B
m >> next = m >>= λ _. next

abbrev pub files : Io Files
files fs power = (fs, power, ok fs)

-- A step, or the crash before it.
unfoldable pub write : (Files → Files) → Io Unit
write change fs zero = (fs, 0, err crashed)
write change fs (suc power) = (change fs, power, ok tt)

-- The marker of a write.
pub record Pending : Type 0 where
  pub context : RunContext
  pub operation_id : String
  pub event_type : String
  pub details : Fields
  pub recorded_at : ℤ

abbrev pub of_pending : Pending → Fields
of_pending p = field "schema_version" (int (pos 1)) (
    field "operation_id" (str p.operation_id) (
      field "event_type" (str p.event_type) (
        field "details" (obj p.details) (
          field "recorded_at" (float p.recorded_at)
            (field "context" (obj (to_dict p.context)) end)))))

abbrev pub or_fault : {A : Type 0} → Fault → Option A → Result Fault A
or_fault e o = given o (err e) ok

-- The records of an operation.
unfoldable pub committed_of : String → List Fields → List Fields
committed_of operation_id [] = []
committed_of operation_id (r ∷ rs) =
    let rest = committed_of operation_id rs in
    if eq_text (get r "operation_id") operation_id then r ∷ rest else rest

unfoldable pub save : RunContext → Io Unit
save c = write (λ fs. record fs { state = holding (to_dict c) })

abbrev pub is_present : Document → Bool
is_present absent = false
is_present _ = true

unfoldable pub clear_pending : Io Unit
clear_pending = do
  fs ← files
  if is_present fs.pending then write (λ gs. record gs { pending = absent }) else pure tt

-- A text after the last line, when that line has no line feed: two objects, or the part of one and
-- more, are no JSON.
unfoldable pub glued : List Line → Line → List Line
glued [] l = l ∷ []
glued (first ∷ []) l = none ∷ []
glued (first ∷ second ∷ rest) l = first ∷ glued (second ∷ rest) l

abbrev pub extended : (ended : Bool) → List Line → Line → List Line
extended true lines l = lines ++ (l ∷ [])
extended false lines l = glued lines l

module _ (hash : Fields → String) where
  -- `ExecutionJournal.append` on the file.
  unfoldable pub append_event : Pending → Io Unit
  append_event p = do
    fs ← files
    (_, last) ←
        lift (append hash fs.journal p.event_type p.context p.details p.recorded_at p.operation_id)
    write (λ gs. record gs { journal = extended fs.ended fs.journal none; ended = false })
    write (λ gs. record gs { journal = extended fs.ended fs.journal (some last) })
    write (λ gs. record gs { ended = true })

  -- The pending operation is in the journal, but not as its last record or with another state.
  abbrev pub conflicts : Pending → List Fields → Bool
  conflicts p records =
      not (eq_text (get (last_record records) "operation_id") p.operation_id)
      || not (
          eq_text (get (last_record (committed_of p.operation_id records)) "state_hash")
            (hash (to_dict p.context)))

  abbrev pub finish : Pending → List Fields → Io Unit
  finish p records =
      if not (is_empty (committed_of p.operation_id records))
      then lift (raise_if (conflicts p records) pending_conflict)
      else (save p.context >> append_event p)

module _ (now : ℤ) where
  unfoldable pub as_pending : Fields → Result Fault Pending
  as_pending payload = or_fault pending_invalid (
      given (as_dict (get payload "context")) none λ d. given (from_dict now d) none λ context.
        given (as_text (get payload "operation_id")) none λ operation_id.
          given (as_text (get payload "event_type")) none λ event_type.
            given (as_dict (get_or payload "details" (obj end))) none λ details.
              given (as_units (get payload "recorded_at")) none λ recorded_at. some (record {
                context = context;
                operation_id = operation_id;
                event_type = event_type;
                details = details;
                recorded_at = recorded_at;
              }))

  abbrev pub read_state : Document → Result Fault RunContext
  read_state (holding d) = or_fault unreadable (from_dict now d)
  read_state _ = err unreadable

module _ (hash : Fields → String) (now : ℤ) where
  abbrev pub recover_document : String → List Line → Document → Io Unit
  recover_document wu_id journal absent = pure tt
  recover_document wu_id journal garbled = lift (err pending_invalid)
  recover_document wu_id journal (holding payload) = do
    p ← lift (as_pending now payload)
    lift (raise_if (not (p.context.key.wu_id == wu_id)) pending_foreign)
    records ← lift (verify hash journal)
    finish hash p records
    save p.context
    clear_pending

  unfoldable pub recover_pending : String → Io Unit
  recover_pending wu_id = do fs ← files; recover_document wu_id fs.journal fs.pending

  unfoldable pub load : String → Io RunContext
  load wu_id = do
    recover_pending wu_id
    fs ← files
    c ← lift (read_state now fs.state)
    records ← lift (verify hash fs.journal)
    lift (raise_if (is_empty records) no_evidence)
    lift (
        raise_if (not (eq_text (get (last_record records) "state_hash") (hash (to_dict c))))
          state_mismatch)
    pure c

  unfoldable pub persist_event : Pending → Io Unit
  persist_event p = do
    recover_pending p.context.key.wu_id
    fs ← files
    lift (verify hash fs.journal)
    write (λ gs. record gs { pending = holding (of_pending p) })
    save p.context
    append_event hash p
    clear_pending
