-- ===== src/Execution/Journal.antt =====
-- `ExecutionJournal` of scripts/execution_core.py: the records of a run, each with the hash of the one
-- before. A line of the file is the object that it holds, or none if it is not JSON; lines that are
-- blank, or that hold no object, are left out. `hash` is canonical_hash.
pub mod Chain
use one_company.Prelude.{
  ℕ, ◌+◌, ◌≡◌, String, Bool, true, false, not, ◌||◌, List, [], ◌∷◌, ◌++◌, Option, none, some, ℤ,
  pos, length, ◌==◌, if◌then◌else◌, Result, ok, err, ◌>>=◌, ◌>>◌, raise_if,
}
use one_company.Json.{Json, int, float, str, obj, Fields, end, field, get, put, eq_text, py_eq}
use one_company.Execution.Context.{RunContext}
use one_company.Execution.Codec.{of_key, to_dict}

-- JournalIntegrityError, by what its text says, and the other ends of an operation of the store.
pub data Fault : Type 0 where
  invalid_json : (line : ℕ) → Fault
  chain_broken hash_mismatch : Fault
  pending_invalid pending_foreign pending_conflict : Fault
  no_evidence state_mismatch unreadable : Fault
  crashed : Fault

abbrev pub Line : Type 0
Line = Option Fields

unfoldable pub read_from : (line : ℕ) → List Line → Result Fault (List Fields)
read_from n [] = ok []
read_from n (none ∷ ls) = err (invalid_json n)
read_from n (some r ∷ ls) = do rest ← read_from (n + 1) ls; ok (r ∷ rest)

-- The items of a record but one.
unfoldable pub without_key : String → Fields → Fields
without_key k end = end
without_key k (field j v fs) =
    let rest = without_key k fs in if j == k then rest else field j v rest

abbrev pub body_of : Fields → Fields
body_of r = without_key "record_hash" r

-- "0" * 64
abbrev pub genesis_hash : String
genesis_hash = "0000000000000000000000000000000000000000000000000000000000000000"

-- records[-1], for records that are not empty
unfoldable pub last_record : List Fields → Fields
last_record [] = end
last_record (r ∷ []) = r
last_record (r ∷ s ∷ rs) = last_record (s ∷ rs)

-- The hash that the next record names.
abbrev pub tip : List Fields → Json
tip [] = str genesis_hash
tip (r ∷ rs) = get (last_record (r ∷ rs)) "record_hash"

module _ (hash : Fields → String) where
  unfoldable pub verify_from :
      (expected_sequence : ℕ) → (previous : String) → List Fields → Result Fault Unit
  verify_from n previous [] = ok tt
  verify_from n previous (r ∷ rs) = do
    raise_if
        (not (py_eq (get r "sequence") (int (pos n)))
          || not (eq_text (get r "previous_hash") previous))
        chain_broken
    raise_if (not (eq_text (get r "record_hash") (hash (body_of r)))) hash_mismatch
    verify_from (n + 1) (hash (body_of r)) rs

  unfoldable pub verify : List Line → Result Fault (List Fields)
  verify ls = do records ← read_from 1 ls; verify_from 1 genesis_hash records; ok records

  -- The record after some records, without its hash.
  abbrev pub next_body :
      List Fields
      → (event_type : String) → RunContext
      → (details : Fields) → (recorded_at : ℤ) → (operation_id : String) → Fields
  next_body records event_type c details recorded_at operation_id =
      field "sequence" (int (pos (length records + 1))) (
        field "event_type" (str event_type) (
          field "run_key" (obj (of_key c.key)) (
            field "details" (obj details) (
              field "previous_hash" (tip records) (
                field "state_hash" (str (hash (to_dict c))) (
                  field "recorded_at" (float recorded_at)
                    (field "operation_id" (str operation_id) end)))))))

  abbrev pub sealed : Fields → Fields
  sealed body = put body "record_hash" (str (hash body))

  unfoldable pub append :
      List Line
      → (event_type : String) → RunContext
      → (details : Fields) → (recorded_at : ℤ) → (operation_id : String)
      → Result Fault (List Line × Fields)
  append ls event_type c details recorded_at operation_id = do
    records ← verify ls
    let record_ = sealed (next_body records event_type c details recorded_at operation_id)
    ok (ls ++ (some record_ ∷ []), record_)
