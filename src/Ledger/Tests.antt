-- ===== src/Ledger/Tests.antt =====
-- Runs of the guarded writes, and their theorems there.
use one_company.Prelude.{
  ℕ, ◌≤◌, ◌≡◌, ◌≢◌, refl, String, true, false, [], ◌∷◌, none, some, pos, ok, err, all, any,
  matches_all,
}
use one_company.Json.{
  Json, null, bool, int, str, obj, Fields, field, end, get, put, py_eq, scaled, has,
}
use one_company.Kernel.Types.{RepoMode, normal, halted, is_human_clear_only}
use one_company.Ledger.Validate.{
  conflict, validate_observation, validate_intent, validate_lease, validate_lease_record,
  validate_budget, validate_budget_record, each_valid, find_mode, mode_text, validate_document,
  validate_ledger,
}
use one_company.Ledger.Write.{
  nat_of, begin, cas_mode, same_fields, pending_transition, done_transition, succession,
  validate_lease_transition, record_at, cas_lease, cas_budget,
}
use one_company.Ledger.Commit.{Committed, Replaced, cas_lease-Committed}
use one_company.Ledger.History.{Write, of_mode, of_lease, write, run, write-once, run-valid}
use one_company.Ledger.Succession.{Succeeds, cas_lease-Succeeds}

abbrev head : String
head = "aaaaaaaaaaaaaaaaaaaaaaaaaaaaaaaaaaaaaaaa"

abbrev intent : String → Json
intent state = obj (
    field "op_id" (str "op-1") (
      field "idem_key" (str "i") (
        field "operation" (str "merge") (
          field "expected_head" (str head) (
            field "expected_base" (str head)
              (field "epoch" (int (pos 1)) (field "state" (str state) end)))))))

abbrev lease : ℕ → Json → Fields
lease version i = field "version" (int (pos version)) (
    field "epoch" (int (pos 1)) (
      field "holder" (str "alice") (
        field "state" (str "ACTIVE") (
          field "acquired_at" (int (pos 5)) (
            field "expires_at" (int (pos 9)) (
              field "observed" (obj (field "head" (str head) (field "base" (str head) end)))
                (field "intent" i end)))))))

abbrev budget : Fields
budget = field "version" (int (pos 1)) (
    field "ci_reruns" (int (pos 0)) (
      field "fix_iterations" (int (pos 0))
        (field "review_rounds" (int (pos 0)) (field "lease_acquisitions" (int (pos 1)) end))))

abbrev ledger : RepoMode → Fields
ledger mode = field "schema_version" (int (pos 2)) (
    field "repository" (str "r") (
      field "revision" (int (pos 6)) (
        field "mode" (str (mode_text mode)) (
          field "mode_version" (int (pos 3)) (
            field "human_clear_required" (bool (is_human_clear_only mode)) (
              field "leases" (obj (field "k" (obj (lease 1 (intent "PENDING"))) end)) (
                field "budgets" (obj end) (
                  field "observations" (obj end) (
                    field "platform_enforcement"
                      (obj (
                        field "branch_protected" (bool true)
                          (field "active_rulesets" (int (pos 1)) end)))
                      end)))))))))

program : Unit {0}
unfolding has scaled get put py_eq all any matches_all validate_observation validate_intent
    validate_lease validate_lease_record validate_budget validate_budget_record each_valid find_mode
    validate_document validate_ledger begin cas_mode same_fields pending_transition done_transition
    succession validate_lease_transition cas_lease cas_budget write run
program = tt

valid : validate_ledger (obj (ledger normal)) (some "r") ≡ ok tt
unfolding program
valid = refl

valid_document : validate_document (ledger normal) none ≡ ok tt
unfolding program
valid_document = refl

abbrev resolved : Fields
resolved = lease 2 (intent "DONE")

abbrev after_resolved : Fields
after_resolved =
    put (put (ledger normal) "revision" (int (pos 7))) "leases" (obj (field "k" (obj resolved) end))

resolved_ok : cas_lease (ledger normal) "k" 6 (some 1) (some resolved) ≡ ok after_resolved
unfolding program
resolved_ok = refl

-- An unresolved intent is not dropped, and a stop is not left without clearance.
dropped :
    cas_lease (ledger normal) "k" 6 (some 1) (some (lease 2 null))
    ≡ err (conflict "PENDING_INTENT_LOST")
unfolding program
dropped = refl

uncleared : cas_mode (ledger halted) 6 3 normal false true ≡ err (conflict "HUMAN_CLEAR_REQUIRED")
unfolding program
uncleared = refl

abbrev after_cleared : Fields
after_cleared =
    put
      (put (put (put (ledger halted) "revision" (int (pos 7))) "mode" (str "NORMAL")) "mode_version"
        (int (pos 4)))
      "human_clear_required" (bool false)

cleared_ok : cas_mode (ledger halted) 6 3 normal true false ≡ ok after_cleared
unfolding program
cleared_ok = refl

abbrev after_budget : Fields
after_budget =
    put (put (ledger normal) "revision" (int (pos 7))) "budgets" (obj (field "wu" (obj budget) end))

budget_ok : cas_budget (ledger normal) "wu" 6 none budget ≡ ok after_budget
unfolding program
budget_ok = refl

cas_lease-Succeeds_example :
    (record_at after_resolved "leases" "k" ≡ obj resolved)
    × Succeeds (lease 1 (intent "PENDING")) resolved
unfolding program
cas_lease-Succeeds_example =
    cas_lease-Succeeds (ledger normal) "k" 6 (some 1) (lease 1 (intent "PENDING")) resolved
      after_resolved refl resolved_ok

cas_lease-Committed_example :
    Committed (ledger normal) 6 after_resolved
    × Replaced (ledger normal) "leases" "k" (some 1) resolved after_resolved
    × (validate_lease_transition (record_at (ledger normal) "leases" "k") resolved ≡ ok tt)
cas_lease-Committed_example =
    cas_lease-Committed (ledger normal) "k" 6 (some 1) resolved after_resolved resolved_ok

resolved_written :
    write (ledger normal) (of_lease "k" 6 (some 1) (some resolved)) ≡ ok after_resolved
unfolding write
resolved_written = resolved_ok

abbrev late : Write
late = of_mode 6 3 halted true false

write-once_example : write (run after_resolved []) late ≢ ok after_cleared
write-once_example =
    write-once (ledger normal) (of_lease "k" 6 (some 1) (some resolved)) after_resolved [] late
      after_cleared resolved_written refl

run-valid_example :
    (validate_document (run (ledger normal) (late ∷ late ∷ [])) none ≡ ok tt)
    × (nat_of (get (ledger normal) "revision")
        ≤ nat_of (get (run (ledger normal) (late ∷ late ∷ [])) "revision"))
run-valid_example = run-valid (ledger normal) (late ∷ late ∷ []) valid_document
