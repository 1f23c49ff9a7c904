-- ===== src/Ledger/Write.antt =====
-- The guarded writes of scripts/l5_ledger.py: each takes the revision that its caller has read.
use one_company.Prelude.{
  less, ℕ, ◌+◌, String, Bool, true, false, not, ◌&&◌, ◌||◌, List, [], ◌∷◌, Option, none, some, pos,
  eqb, ltb, leb, ◌==◌, all, given, if◌then◌else◌, Result, ok, err, ◌>>=◌, ◌>>◌, raise_if,
}
use one_company.Json.{
  Json, null, bool, int, str, obj, Fields, end, get, put, eq_text, as_scaled, py_eq,
}
use one_company.Kernel.Types.{RepoMode, merge_locked, is_human_clear_only}
use one_company.Ledger.Validate.{
  Error, invalid, conflict, is_nat, is_in, one_of, mode_text, as_mode, validate_lease,
  validate_budget, validate_document,
}

-- v + 1, for a validated count.
abbrev pub incremented : Json → Json
incremented (int (pos n)) = int (pos (n + 1))
incremented v = v

-- A validated count.
abbrev pub nat_of : Json → ℕ
nat_of (int (pos n)) = n
nat_of _ = 0

-- v == w for a validated text v
abbrev pub same_text : Json → Json → Bool
same_text (str s) w = eq_text w s
same_text _ w = false

-- v < w for validated numbers
abbrev pub is_before : Json → Json → Bool
is_before v w = given (as_scaled v) false λ m. given (as_scaled w) false λ n. less m n

unfoldable pub begin : Fields → ℕ → Result Error Fields
begin doc expected_revision = do
  validate_document doc none
  raise_if (not (is_nat expected_revision (get doc "revision"))) (conflict "LEDGER_REVISION_STALE")
  ok (put doc "revision" (incremented (get doc "revision")))

abbrev pub is_locked : RepoMode → Bool
is_locked merge_locked = true
is_locked _ = false

-- The document with another mode.
abbrev pub with_mode : Fields → RepoMode → Fields
with_mode out mode =
    put
      (put (put out "mode" (str (mode_text mode))) "mode_version"
        (incremented (get out "mode_version")))
      "human_clear_required" (bool (is_human_clear_only mode))

-- What a document is after its validation.
abbrev pub validated : Fields → Result Error Fields
validated out = validate_document out none >> ok out

unfoldable pub cas_mode :
    Fields → ℕ → ℕ → RepoMode → (human_clear post_merge_verified : Bool) → Result Error Fields
cas_mode doc expected_revision expected_mode_version new_mode human_clear post_merge_verified = do
  out ← begin doc expected_revision
  raise_if (not (is_nat expected_mode_version (get out "mode_version")))
      (conflict "MODE_VERSION_STALE")
  old ← as_mode (get out "mode")
  let changes = not (mode_text old == mode_text new_mode)
  raise_if (is_human_clear_only old && changes && not human_clear) (conflict "HUMAN_CLEAR_REQUIRED")
  raise_if (is_locked old && changes && not post_merge_verified)
      (conflict "POST_MERGE_VERIFICATION_REQUIRED")
  validated (with_mode out new_mode)

-- next.get(k) == cur.get(k) for each k
unfoldable pub same_fields : List String → Fields → Fields → Bool
same_fields names next cur = all (λ k. py_eq (get next k) (get cur k)) names

abbrev pub bound_fields : List String
bound_fields = "idem_key" ∷ "operation" ∷ "expected_head" ∷ "expected_base" ∷ "epoch" ∷ []

module _ (cur row : Fields) where
  abbrev pub same_holder : Bool
  same_holder = same_text (get row "holder") (get cur "holder")

  abbrev pub same_epoch : Bool
  same_epoch = eqb (nat_of (get row "epoch")) (nat_of (get cur "epoch"))

  abbrev pub later_epoch : Bool
  later_epoch = ltb (nat_of (get cur "epoch")) (nat_of (get row "epoch"))

  -- same_owner_epoch; a new epoch of another holder or of the same one
  abbrev pub same_owner_epoch : Bool
  same_owner_epoch = same_holder && same_epoch

  abbrev pub new_epoch : Bool
  new_epoch = not same_holder && later_epoch || same_holder && later_epoch

  -- The next intent, where the current one is PENDING.
  unfoldable pub pending_transition : Fields → Json → Result Error Unit
  pending_transition cur_intent (obj next) = do
    raise_if (not (py_eq (get next "op_id") (get cur_intent "op_id")))
        (conflict "PENDING_INTENT_REPLACED")
    raise_if (not (same_fields bound_fields next cur_intent)) (conflict "PENDING_INTENT_MUTATED")
    known ← one_of ("PENDING" ∷ "DONE" ∷ "ABORTED" ∷ []) (get next "state")
    raise_if (not known) (invalid "PENDING_INTENT_TRANSITION")
    raise_if (not same_epoch || not same_holder) (conflict "PENDING_INTENT_REASSIGNED")
  pending_transition cur_intent _ = err (conflict "PENDING_INTENT_LOST")

  -- The next intent, where the current one is DONE and its owner stays.
  unfoldable pub done_transition : Fields → Json → Result Error Unit
  done_transition cur_intent (obj next) = do
    raise_if (not (same_fields ("op_id" ∷ bound_fields) next cur_intent))
        (conflict "DONE_INTENT_MUTATED")
    known ← one_of ("DONE" ∷ "VERIFIED" ∷ []) (get next "state")
    raise_if (not known) (invalid "DONE_INTENT_TRANSITION")
  done_transition cur_intent _ = err (conflict "DONE_INTENT_LOST")

  -- The rest on the current intent, if it is in this state.
  abbrev pub if_in : String → Json → (Fields → Result Error Unit) → Result Error Unit
  if_in state (obj i) rest = if eq_text (get i "state") state then rest i else ok tt
  if_in state _ rest = ok tt

  -- `_validate_lease_transition` from a record that is there.
  unfoldable pub succession : Result Error Unit
  succession = do
    validate_lease cur
    raise_if (leb (nat_of (get row "version")) (nat_of (get cur "version")))
        (invalid "LEASE_VERSION_NOT_MONOTONIC")
    raise_if (not (same_owner_epoch || new_epoch)) (invalid "LEASE_EPOCH_NOT_MONOTONIC")
    raise_if
        (eq_text (get cur "state") "ACTIVE"
          && new_epoch
          && is_before (get row "acquired_at") (get cur "expires_at"))
        (conflict "ACTIVE_LEASE_TAKEOVER")
    if_in "PENDING" (get cur "intent") (λ i. pending_transition i (get row "intent"))
    if_in "DONE" (get cur "intent")
        (λ i. if same_owner_epoch then done_transition i (get row "intent") else ok tt)
    raise_if
        (eq_text (get cur "state") "RELEASED"
          && same_owner_epoch
          && not (eq_text (get row "state") "RELEASED"))
        (conflict "RELEASED_LEASE_REACTIVATION")
    raise_if
        (eq_text (get cur "state") "ACTIVE"
          && eq_text (get row "state") "RELEASED"
          && is_in "PENDING" (get row "intent"))
        (conflict "PENDING_INTENT_RELEASE")

unfoldable pub validate_lease_transition : Json → Fields → Result Error Unit
validate_lease_transition null row = do
  validate_lease row
  raise_if (not (is_nat 1 (get row "version"))) (invalid "LEASE_INITIAL_VERSION")
validate_lease_transition (obj cur) row = validate_lease row >> succession cur row
validate_lease_transition _ row = validate_lease row >> err (invalid "LEASE_RECORD")

-- actual == expected, for the version of the current record
abbrev pub is_version : Option ℕ → Json → Bool
is_version none null = true
is_version (some n) (obj cur) = is_nat n (get cur "version")
is_version _ _ = false

-- d[table]; validated to be a mapping
abbrev pub table_of : Json → Fields
table_of (obj fs) = fs
table_of _ = end

abbrev pub record_at : Fields → String → String → Json
record_at doc table key = get (table_of (get doc table)) key

abbrev pub with_record : Fields → String → String → Fields → Fields
with_record doc table key row = put doc table (obj (put (table_of (get doc table)) key (obj row)))

unfoldable pub cas_lease : Fields → String → ℕ → Option ℕ → Option Fields → Result Error Fields
cas_lease doc key expected_revision expected_lease_version none = do
  raise_if (key == "") (invalid "LEASE_KEY")
  err (invalid "LEASE_DELETE_FORBIDDEN")
cas_lease doc key expected_revision expected_lease_version (some row) = do
  raise_if (key == "") (invalid "LEASE_KEY")
  out ← begin doc expected_revision
  raise_if (not (is_version expected_lease_version (record_at out "leases" key)))
      (conflict "LEASE_VERSION_STALE")
  validate_lease_transition (record_at out "leases" key) row
  validated (with_record out "leases" key row)

abbrev pub next_budget : Option ℕ → Fields → Result Error Unit
next_budget none row =
    raise_if (not (is_nat 1 (get row "version"))) (invalid "BUDGET_INITIAL_VERSION")
next_budget (some n) row =
    raise_if (leb (nat_of (get row "version")) n) (invalid "BUDGET_VERSION_NOT_MONOTONIC")

unfoldable pub cas_budget : Fields → String → ℕ → Option ℕ → Fields → Result Error Fields
cas_budget doc key expected_revision expected_budget_version row = do
  out ← begin doc expected_revision
  raise_if (not (is_version expected_budget_version (record_at out "budgets" key)))
      (conflict "BUDGET_VERSION_STALE")
  validate_budget row
  next_budget expected_budget_version row
  validated (with_record out "budgets" key row)
