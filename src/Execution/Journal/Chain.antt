-- ===== src/Execution/Journal/Chain.antt =====
-- What a verified journal promises.
use one_company.Prelude.{
  ℕ, ◌+◌, ◌*◌, ◌≡◌, ◌∙◌, refl, sym, ap, subst, inl, inr, String, true, false, not, ◌||◌, List, [],
  ◌∷◌, ◌++◌, none, some, ℤ, pos, length, ◌==◌, ok, raise_if-then, >>=-eq-ok, >>-eq-ok, arith, In,
  map, Bool-cases, eq_iff, eqb_iff,
}
use one_company.Json.{
  int, str, Fields, end, field, get, put, eq_text, py_eq, eq_text-eq, eq_text_self, scaled, unit,
}
use one_company.Execution.Context.{RunContext}
use one_company.Execution.Journal.{
  Line, read_from, without_key, body_of, genesis_hash, last_record, tip, verify_from, verify,
  next_body, sealed, append,
}

str_eq : (s t : String) → str s ≡ str t → s ≡ t
str_eq s t h = cc

get-without_key :
    (k j : String) (fs : Fields) → (j == k) ≡ false → get (without_key k fs) j ≡ get fs j
unfolding without_key get
get-without_key k j end n = refl
get-without_key k j (field i v fs) n = elim (Bool-cases (i == k)) [
  | inl e ↦ ground (arith, get-without_key k j fs n, eq_iff i k, eq_iff i j, eq_iff j k)
  | inr e ↦ ground (arith, get-without_key k j fs n)
]

py_eq_nat : (m n : ℕ) → m ≡ n → py_eq (int (pos m)) (int (pos n)) ≡ true
unfolding py_eq scaled
py_eq_nat m n h = rw h ((eqb_iff (n * unit) (n * unit)).1 refl)

read_from-snoc :
    (n : ℕ) (ls : List Line) (rs : List Fields) (r : Fields)
    → read_from n ls ≡ ok rs
    → read_from n (ls ++ (some r ∷ [])) ≡ ok (rs ++ (r ∷ []))
unfolding read_from
read_from-snoc n [] rs r h = let e : [] ≡ rs = cc in ap (λ (l : List Fields). ok (l ++ (r ∷ []))) e
read_from-snoc n (none ∷ ls) rs r h = cc
read_from-snoc n (some s ∷ ls) rs r h =
    let (rest, read, done) = >>=-eq-ok (read_from (n + 1) ls) _ h in
    let p = read_from-snoc (n + 1) ls rest r read in
    let e : s ∷ rest ≡ rs = cc in rw p (ap (λ (l : List Fields). ok (l ++ (r ∷ []))) e)

pub last_record-snoc : (rs : List Fields) (r : Fields) → last_record (rs ++ (r ∷ [])) ≡ r
unfolding last_record
last_record-snoc [] r = refl
last_record-snoc (s ∷ []) r = refl
last_record-snoc (s ∷ t ∷ rs) r = last_record-snoc (t ∷ rs) r

-- Each record of a list with its number and the hash before it.
record Step (hash : Fields → String) (n : ℕ) (previous : String) (r : Fields) : Type 0 where
  sequence : py_eq (get r "sequence") (int (pos n)) ≡ true
  previous_hash : get r "previous_hash" ≡ str previous
  record_hash : get r "record_hash" ≡ str (hash (body_of r))

previous_eq :
    (r s : Fields) (p q : String)
    → body_of r ≡ body_of s
    → get r "previous_hash" ≡ str p
    → get s "previous_hash" ≡ str q
    → p ≡ q
previous_eq r s p q h a b = str_eq p q (
    sym a
    ∙ sym (get-without_key "record_hash" "previous_hash" r refl)
    ∙ ap (λ x. get x "previous_hash") h
    ∙ get-without_key "record_hash" "previous_hash" s refl
    ∙ b)

module _ (hash : Fields → String) where
  -- The hash after some records that begin after another.
  after : String → List Fields → String
  after previous [] = previous
  after previous (r ∷ rs) = after (hash (body_of r)) rs

  verify_from-cons :
      (n : ℕ) (previous : String) (r : Fields) (rs : List Fields)
      → verify_from hash n previous (r ∷ rs) ≡ ok tt
      → Step hash n previous r × (verify_from hash (n + 1) (hash (body_of r)) rs ≡ ok tt)
  unfolding verify_from
  verify_from-cons n previous r rs h =
      let (chained, h1) =
        raise_if-then
          (not (py_eq (get r "sequence") (int (pos n)))
            || not (eq_text (get r "previous_hash") previous))
          _ _ h in
      let (hashed, h2) =
        raise_if-then (not (eq_text (get r "record_hash") (hash (body_of r)))) _ _ h1 in
      (
        record {
          sequence = ground arith;
          previous_hash = eq_text-eq (get r "previous_hash") previous (ground arith);
          record_hash = eq_text-eq (get r "record_hash") (hash (body_of r)) (ground arith);
        },
        h2,
      )

  cons-verify_from :
      (n : ℕ) (previous : String) (r : Fields) (rs : List Fields)
      → Step hash n previous r
      → verify_from hash n previous (r ∷ rs) ≡ verify_from hash (n + 1) (hash (body_of r)) rs
  unfolding verify_from
  cons-verify_from n previous r rs s =
      rw
        (
          s.sequence,
          s.previous_hash,
          eq_text_self previous,
          s.record_hash,
          eq_text_self (hash (body_of r)),
        )
        refl

  verify_from-snoc :
      (n : ℕ) (previous : String) (rs : List Fields) (r : Fields)
      → verify_from hash n previous rs ≡ ok tt
      → Step hash (n + length rs) (after previous rs) r
      → verify_from hash n previous (rs ++ (r ∷ [])) ≡ ok tt
  unfolding verify_from after
  verify_from-snoc n previous [] r h s =
      cons-verify_from n previous r [] (subst (λ m. Step hash m previous r) (omega arith) s)
  verify_from-snoc n previous (t ∷ rs) r h s =
      let (first, rest) = verify_from-cons n previous t rs h in
      cons-verify_from n previous t (rs ++ (r ∷ [])) first
      ∙ verify_from-snoc (n + 1) (hash (body_of t)) rs r rest
          (subst (λ m. Step hash m (after (hash (body_of t)) rs) r) (omega arith) s)

  last-after :
      (n : ℕ) (previous : String) (r : Fields) (rs : List Fields)
      → verify_from hash n previous (r ∷ rs) ≡ ok tt
      → get (last_record (r ∷ rs)) "record_hash" ≡ str (after previous (r ∷ rs))
  unfolding last_record after
  last-after n previous r [] h = (verify_from-cons n previous r [] h).0.record_hash
  last-after n previous r (t ∷ rs) h =
      last-after (n + 1) (hash (body_of r)) t rs (verify_from-cons n previous r (t ∷ rs) h).1

  tip-after :
      (rs : List Fields)
      → verify_from hash 1 genesis_hash rs ≡ ok tt
      → tip rs ≡ str (after genesis_hash rs)
  unfolding after
  tip-after [] h = refl
  tip-after (r ∷ rs) h = last-after 1 genesis_hash r rs h

  verify-cases :
      (ls : List Line) (rs : List Fields)
      → verify hash ls ≡ ok rs
      → (read_from 1 ls ≡ ok rs) × (verify_from hash 1 genesis_hash rs ≡ ok tt)
  unfolding verify
  verify-cases ls rs h =
      let (records, read, h1) = >>=-eq-ok (read_from 1 ls) _ h in
      let (u, chained, done) = >>-eq-ok (verify_from hash 1 genesis_hash records) _ h1 in
      let e : records ≡ rs = cc in (rw (sym e) read, rw (sym e) chained)

  next-Step :
      (rs : List Fields) (event_type : String) (c : RunContext) (details : Fields) (recorded_at : ℤ)
      (operation_id : String)
      → verify_from hash 1 genesis_hash rs ≡ ok tt
      → Step hash
          (1 + length rs)
          (after genesis_hash rs)
          (sealed hash (next_body hash rs event_type c details recorded_at operation_id))
  unfolding get put without_key
  next-Step rs event_type c details recorded_at operation_id h = record {
    sequence = py_eq_nat (length rs + 1) (1 + length rs) (omega arith);
    previous_hash = tip-after rs h;
    record_hash = refl;
  }

  -- What is appended to a verified journal makes a verified journal of one record more, the new one
  -- last.
  pub verify-append :
      (ls : List Line) (rs : List Fields) (event_type : String) (c : RunContext) (details : Fields)
      (recorded_at : ℤ) (operation_id : String)
      → verify hash ls ≡ ok rs
      → let r = sealed hash (next_body hash rs event_type c details recorded_at operation_id) in
        (append hash ls event_type c details recorded_at operation_id ≡ ok (ls ++ (some r ∷ []), r))
        × (verify hash (ls ++ (some r ∷ [])) ≡ ok (rs ++ (r ∷ [])))
  unfolding append verify
  verify-append ls rs event_type c details recorded_at operation_id h =
      let (read, chained) = verify-cases ls rs h in
      let r = sealed hash (next_body hash rs event_type c details recorded_at operation_id) in
      (
        rw h refl,
        rw
            (
              read_from-snoc 1 ls rs r read,
              verify_from-snoc 1 genesis_hash rs r chained
                  (next-Step rs event_type c details recorded_at operation_id chained),
            )
            refl,
      )

  bodies-eq :
      (n : ℕ) (p q : String) (rs ss : List Fields)
      → ((r s : Fields)
          → In r rs
          → In s ss
          → hash (body_of r) ≡ hash (body_of s)
          → body_of r ≡ body_of s)
      → verify_from hash n p rs ≡ ok tt
      → verify_from hash n q ss ≡ ok tt
      → length rs ≡ length ss
      → after p rs ≡ after q ss
      → (p ≡ q) × (map body_of rs ≡ map body_of ss)
  unfolding after
  bodies-eq n p q [] [] free h g len last = (last, refl)
  bodies-eq n p q [] (s ∷ ss) free h g len last = absurd (omega (arith, len))
  bodies-eq n p q (r ∷ rs) [] free h g len last = absurd (omega (arith, len))
  bodies-eq n p q (r ∷ rs) (s ∷ ss) free h g len last =
      let (one, h1) = verify_from-cons n p r rs h in
      let (two, g1) = verify_from-cons n q s ss g in
      let (same, rest) =
        bodies-eq (n + 1) (hash (body_of r)) (hash (body_of s)) rs ss
          (λ x y i j. free x y (inr i) (inr j)) h1 g1 (omega (arith, len)) last in
      let body : body_of r ≡ body_of s = free r s (inl refl) (inl refl) same in
      (previous_eq r s p q body one.previous_hash two.previous_hash, cc)

  -- Two journals that verify, of as many records and with the same last hash, hold the same records,
  -- hashes aside, if the hash tells the records of one from those of the other.
  pub verify-binds :
      (ls ms : List Line) (rs ss : List Fields)
      → verify hash ls ≡ ok rs
      → verify hash ms ≡ ok ss
      → length rs ≡ length ss
      → tip rs ≡ tip ss
      → ((r s : Fields)
          → In r rs
          → In s ss
          → hash (body_of r) ≡ hash (body_of s)
          → body_of r ≡ body_of s)
      → map body_of rs ≡ map body_of ss
  verify-binds ls ms rs ss h g len last free =
      let (_, one) = verify-cases ls rs h in
      let (_, two) = verify-cases ms ss g in
      (bodies-eq 1 genesis_hash genesis_hash rs ss free one two len
        (str_eq _ _ (sym (tip-after rs one) ∙ last ∙ tip-after ss two))).1
