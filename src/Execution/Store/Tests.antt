-- ===== src/Execution/Store/Tests.antt =====
-- Runs of the codec, the journal and the store, and their theorems there.
use one_company.Prelude.{
  ◌≡◌, ◌⊎◌, inl, inr, refl, String, true, List, [], ◌∷◌, ◌++◌, none, some, pos, ok, err, any, strip,
  In, map, keys,
}
use one_company.Json.{Json, str, Fields, field, end, get, has, put, py_eq, scaled}
use one_company.Execution.Context.{active, validate_key, validate_context, validate_budget}
use one_company.Execution.Codec.{to_dict, of_dict, of_list}
use one_company.Execution.Codec.Read.{from_dict, read_dict, read_list, only}
use one_company.Execution.Codec.Roundtrip.{from_dict-to_dict}
use one_company.Execution.Journal.{
  invalid_json, chain_broken, crashed, Line, read_from, without_key, body_of, last_record,
  verify_from, verify, append, sealed, next_body,
}
use one_company.Execution.Journal.Chain.{verify-binds}
use one_company.Execution.Store.{
  write, glued, Pending, committed_of, as_pending, save, clear_pending, append_event,
  recover_pending, load, persist_event,
}
use one_company.Execution.Store.Loads.{IsClean, settled, recovers, IsFresh}
use one_company.Execution.Store.Crash.{persist_event-fails_closed}
use one_company.Execution.Samples.{at, ready}

program : Unit {0}
unfolding strip get has put any py_eq scaled keys validate_key validate_budget validate_context
    to_dict of_dict of_list from_dict read_dict read_list only read_from without_key last_record
    verify_from verify append write committed_of as_pending save clear_pending append_event
    recover_pending load persist_event recovers
program = tt

-- A hash that tells the records below apart by their operation ids.
abbrev text_or_state : Json → String
text_or_state (str s) = s
text_or_state _ = "state"

abbrev hash : Fields → String
hash d = text_or_state (get d "operation_id")

abbrev first : Fields
first = sealed hash (next_body hash [] "start" (at 1 active) end (pos 1) "op-1")

abbrev start : List Line
start = some first ∷ []

started : verify hash start ≡ ok (first ∷ [])
unfolding program
started = refl

repeated : verify hash (start ++ start) ≡ err chain_broken
unfolding program
repeated = refl

torn : verify hash (start ++ (none ∷ [])) ≡ err (invalid_json 2)
unfolding program
torn = refl

abbrev claim : Pending
claim = record {
  context = ready;
  operation_id = "op-2";
  event_type = "claim";
  details = end;
  recorded_at = pos 2;
}

read_back : from_dict (pos 9) (to_dict ready) ≡ some ready
unfolding program
read_back = refl

half_done : (persist_event hash (pos 9) claim (settled (at 1 active) start true) 1).2 ≡ err crashed
unfolding program
half_done = refl

recovered :
    (load hash
      (pos 9)
      "WU-1"
      (persist_event hash (pos 9) claim (settled (at 1 active) start true) 1).0
      6).2
    ≡ ok ready
unfolding program
recovered = refl

-- The write is cut off inside the record.
torn_tail :
    (load hash
      (pos 9)
      "WU-1"
      (persist_event hash (pos 9) claim (settled (at 1 active) start true) 3).0
      6).2
    ≡ err (invalid_json 2)
unfolding program
torn_tail = refl

abbrev next : Pending
next = record claim { operation_id = "op-3" }

-- The write is cut off right before its line feed and recovered, and another write follows: its
-- record is glued to the one before, and no load is possible after it.
glued_tail :
    let cut = (persist_event hash (pos 9) claim (settled (at 1 active) start true) 4).0 in
    let recovered_files = (recover_pending hash (pos 9) "WU-1" cut 6).0 in
    let after = persist_event hash (pos 9) next recovered_files 6 in
    (after.2 ≡ ok tt) × ((load hash (pos 9) "WU-1" after.0 6).2 ≡ err (invalid_json 2))
unfolding program glued
glued_tail = (refl, refl)

from_dict-to_dict_example : from_dict (pos 9) (to_dict ready) ≡ some ready
unfolding program
from_dict-to_dict_example = from_dict-to_dict (pos 9) ready refl refl

-- The first record with its hash in front.
abbrev moved : Fields
moved =
    field "record_hash" (str "op-1") (next_body hash [] "start" (at 1 active) end (pos 1) "op-1")

moved_verifies : verify hash (some moved ∷ []) ≡ ok (moved ∷ [])
unfolding program
moved_verifies = refl

one_body :
    (r s : Fields)
    → In r (first ∷ [])
    → In s (moved ∷ [])
    → hash (body_of r) ≡ hash (body_of s)
    → body_of r ≡ body_of s
unfolding program
one_body r s (inl p) (inl q) h = rw (p, q) refl
one_body r s (inl p) (inr x) h = elim x [ ]
one_body r s (inr x) _ h = elim x [ ]

verify-binds_example : map body_of (first ∷ []) ≡ map body_of (moved ∷ [])
unfolding program
verify-binds_example =
    verify-binds hash start (some moved ∷ []) (first ∷ []) (moved ∷ []) started moved_verifies refl
      refl one_body

clean : IsClean hash (at 1 active) start (first ∷ [])
unfolding program
clean = record { verified = refl; evidence = refl; matches = refl; budget = refl; valid = refl }

fresh : IsFresh hash claim start (first ∷ [])
unfolding program
fresh = record { verified = refl; new_id = refl; budget = refl; valid = refl }

persist_event-fails_closed_example :
    let saved = persist_event hash (pos 9) claim (settled (at 1 active) start true) 3 in
    let left = recovers hash (pos 9) "WU-1" saved.0 (3 ∷ 0 ∷ []) in
    let loaded = load hash (pos 9) "WU-1" left 6 in
    ((loaded.2 ≡ ok (at 1 active))
      ⊎ (loaded.2 ≡ ok ready)
      ⊎ (loaded.2 ≡ err (invalid_json 2)) × (left.journal ≡ start ++ (none ∷ [])))
    × (saved.2 ≡ ok tt → loaded.2 ≡ ok ready)
    × ((persist_event hash (pos 9) claim (settled (at 1 active) start true) 6).2 ≡ ok tt)
persist_event-fails_closed_example =
    persist_event-fails_closed hash (pos 9) claim start (first ∷ []) fresh (at 1 active) 3
      (3 ∷ 0 ∷ []) 0 clean
