-- ===== src/Recovery/Candidates.antt =====
-- `_eligible_ready_candidates` of scripts/l5_recovery.py. Of an eligible row only its issue is read
-- later, so the result is the sorted list of their issues.
use one_company.Prelude.{
  ℕ, suc, Bool, false, not, List, [], ◌∷◌, pos, leb, eqb, if◌then◌else◌, Result, ok, err, ◌>>=◌,
  any,
}
use one_company.Json.{Json, int, arr, obj, Fields, get, to_list}
use one_company.Recovery.Defs.{
  Error, ready_candidates_invalid, ready_candidate_invalid, ready_candidate_id_invalid,
  required_bool,
}

-- `sorted`, by insertion.
unfoldable pub insert : ℕ → List ℕ → List ℕ
insert n [] = n ∷ []
insert n (m ∷ ms) = if leb n m then n ∷ m ∷ ms else m ∷ insert n ms

unfoldable pub sort : List ℕ → List ℕ
sort [] = []
sort (n ∷ ns) = insert n (sort ns)

-- ready and not blocked and not human_only and conflict_safe: a later field is read only if the
-- earlier ones let it count.
unfoldable pub is_eligible : Fields → Result Error Bool
is_eligible row = do
  ready ← required_bool row "ready"
  if not ready then ok false else do
    blocked ← required_bool row "blocked"
    if blocked then ok false else do
      human_only ← required_bool row "human_only"
      if human_only then ok false else required_bool row "conflict_safe"

abbrev pub row_or_raise : Json → Result Error Fields
row_or_raise (obj row) = ok row
row_or_raise _ = err ready_candidate_invalid

-- A positive issue that has not been seen.
abbrev pub issue_or_raise : List ℕ → Json → Result Error ℕ
issue_or_raise seen (int (pos (suc n))) =
    if any (eqb (suc n)) seen then err ready_candidate_id_invalid else ok (suc n)
issue_or_raise seen _ = err ready_candidate_id_invalid

-- The loop over the rows, with the issues seen.
unfoldable pub collect : List ℕ → List Json → Result Error (List ℕ)
collect seen [] = ok []
collect seen (v ∷ vs) = do
  row ← row_or_raise v
  issue ← issue_or_raise seen (get row "issue")
  eligible ← is_eligible row
  rest ← collect (issue ∷ seen) vs
  ok (if eligible then issue ∷ rest else rest)

abbrev pub rows_or_raise : Json → Result Error (List Json)
rows_or_raise (arr vs) = ok (to_list vs)
rows_or_raise _ = err ready_candidates_invalid

unfoldable pub eligible_ready_candidates : Fields → Result Error (List ℕ)
eligible_ready_candidates snapshot = do
  rows ← rows_or_raise (get snapshot "ready_candidates")
  eligible ← collect [] rows
  ok (sort eligible)
