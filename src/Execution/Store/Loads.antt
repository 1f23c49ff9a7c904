-- ===== src/Execution/Store/Loads.antt =====
-- Loads from a store that no write is pending in, and repeated recoveries.
use one_company.Prelude.{
  ℕ, ◌+◌, ◌≡◌, inl, inr, refl, ap, String, Bool, true, false, List, [], ◌∷◌, ◌++◌, none, some, ℤ,
  length, is_empty, ok, err, >>=-eq-ok, arith, Bool-cases,
}
use one_company.Json.{Fields, get, has, eq_text}
use one_company.Execution.Context.{RunContext, validate_context, validate_budget}
use one_company.Execution.Codec.{to_dict}
use one_company.Execution.Codec.Roundtrip.{from_dict-to_dict}
use one_company.Execution.Journal.{invalid_json, Line, read_from, last_record, verify}
use one_company.Execution.Store.{
  absent, holding, Files, Pending, of_pending, committed_of, as_pending, recover_pending, load,
}

pub as_pending-of_pending :
    (now : ℤ) (p : Pending)
    → validate_budget p.context.budget ≡ ok tt
    → validate_context p.context ≡ ok tt
    → as_pending now (of_pending p) ≡ ok p
unfolding as_pending get has
as_pending-of_pending now p budget valid = rw (from_dict-to_dict now p.context budget valid) refl

pub committed_of-snoc :
    (op : String) (rs : List Fields) (r : Fields)
    → committed_of op rs ≡ []
    → eq_text (get r "operation_id") op ≡ true
    → committed_of op (rs ++ (r ∷ [])) ≡ r ∷ []
unfolding committed_of
committed_of-snoc op [] r h e = rw e refl
committed_of-snoc op (s ∷ rs) r h e = elim (Bool-cases (eq_text (get s "operation_id") op)) [
  | inl f ↦ let q : (s ∷ committed_of op rs) ≡ [] = rw f at h in cc
  | inr f ↦ let q : committed_of op rs ≡ [] = rw f at h in rw f (committed_of-snoc op rs r q e)
]

read_from-torn :
    (n : ℕ) (ls : List Line) (rs : List Fields)
    → read_from n ls ≡ ok rs
    → read_from n (ls ++ (none ∷ [])) ≡ err (invalid_json (n + length ls))
unfolding read_from
read_from-torn n [] rs h = ap (λ m. err (invalid_json m)) (omega arith)
read_from-torn n (none ∷ ls) rs h = cc
read_from-torn n (some r ∷ ls) rs h =
    let (rest, read, done) = >>=-eq-ok (read_from (n + 1) ls) _ h in
    rw (read_from-torn (n + 1) ls rest read) (ap (λ m. err (invalid_json m)) (omega arith))

-- A verified journal with a line cut off at its end is refused there.
pub verify-torn :
    (hash : Fields → String) (ls : List Line) (rs : List Fields)
    → verify hash ls ≡ ok rs
    → verify hash (ls ++ (none ∷ [])) ≡ err (invalid_json (1 + length ls))
unfolding verify
verify-torn hash ls rs h =
    let (records, read, _) = >>=-eq-ok (read_from 1 ls) _ h in
    rw (read_from-torn 1 ls records read) refl

-- A store with the context of the last write, whose hash its journal ends with.
pub record IsClean (hash : Fields → String) (c : RunContext) (ls : List Line) (rs : List Fields)
    : Type 0 where
  pub verified : verify hash ls ≡ ok rs
  pub evidence : is_empty rs ≡ false
  pub matches : eq_text (get (last_record rs) "state_hash") (hash (to_dict c)) ≡ true
  pub budget : validate_budget c.budget ≡ ok tt
  pub valid : validate_context c ≡ ok tt

abbrev pub settled : RunContext → List Line → (ended : Bool) → Files
settled c ls ended = record {
  state = holding (to_dict c);
  journal = ls;
  ended = ended;
  pending = absent;
}

pub is_empty-snoc : {A : Type 0} (l : List A) (a : A) → is_empty (l ++ (a ∷ [])) ≡ false
is_empty-snoc [] a = refl
is_empty-snoc (x ∷ l) a = refl

module _ (hash : Fields → String) (now : ℤ) where
  pub load-recovered :
      (c : RunContext) (ls : List Line) (rs : List Fields) (wu_id : String) (fs : Files)
      (ended : Bool) (power left : ℕ)
      → IsClean hash c ls rs
      → recover_pending hash now wu_id fs power ≡ (settled c ls ended, left, ok tt)
      → (load hash now wu_id fs power).2 ≡ ok c
  unfolding load
  load-recovered c ls rs wu_id fs ended power left clean done =
      rw
        (
          done,
          from_dict-to_dict now c clean.budget clean.valid,
          clean.verified,
          clean.evidence,
          clean.matches,
        )
        refl

  pub load-settled :
      (c : RunContext) (ls : List Line) (rs : List Fields) (wu_id : String) (ended : Bool)
      (power : ℕ)
      → IsClean hash c ls rs
      → (load hash now wu_id (settled c ls ended) power).2 ≡ ok c
  unfolding recover_pending
  load-settled c ls rs wu_id ended power clean =
      load-recovered c ls rs wu_id (settled c ls ended) ended power power clean refl

  -- Recoveries with so many steps each before a crash.
  unfoldable pub recovers : (wu_id : String) → Files → List ℕ → Files
  recovers wu_id fs [] = fs
  recovers wu_id fs (power ∷ powers) =
      recovers wu_id (recover_pending hash now wu_id fs power).0 powers

-- A write of a valid context, with an operation id that is not in the journal.
pub record IsFresh (hash : Fields → String) (p : Pending) (ls : List Line) (rs : List Fields)
    : Type 0 where
  pub verified : verify hash ls ≡ ok rs
  pub new_id : committed_of p.operation_id rs ≡ []
  pub budget : validate_budget p.context.budget ≡ ok tt
  pub valid : validate_context p.context ≡ ok tt
