-- ===== src/Planning/Admitted.antt =====
-- Which implementation leases are in force together, if each was let in by
-- `implementation_admission_violations` of scripts/planning_lib.py.
use one_company.Prelude.{
  ℕ, ◌≡◌, ◌≤◌, inl, inr, refl, ap, sym, ◌∙◌, subst, String, Bool, true, false, not, List, [], ◌∷◌,
  Option, is_empty, length, leb, ℤ, pos, ◌==◌, if◌then◌else◌, Dict, In, arith, Bool-cases,
}
use one_company.Json.{Json, Fields, get, eq_text}
use one_company.Planning.Ready.{id_of}
use one_company.Planning.Scopes.{text-eq-sym}
use one_company.Planning.Conflicts.{work_units_conflict}
use one_company.Planning.Admission.{
  Violation, is_implementation, filter_leases, reaches, unit_of, wip_limit,
  implementation_admission_violations,
}
use one_company.Planning.Admissible.{
  In-filter, item_of, IsAdmissible, implementation_admission_violations-nil_iff,
}

pub record Claim : Type 0 where
  pub lease : Fields
  pub actor : Option String
  pub actor_limit : Option ℤ

-- A claim of a lease, or the release of the lease of an id.
pub data Event : Type 0 where
  claims : Claim → Event
  releases : (lease_id : String) → Event

filter_all :
    (p : Fields → Bool) (ls : List Fields)
    → ((l : Fields) → In l ls → p l ≡ true)
    → filter_leases p ls ≡ ls
unfolding filter_leases
filter_all p [] h = refl
filter_all p (l ∷ ls) h = rw (h l (inl refl), filter_all p ls (λ m i. h m (inr i))) refl

length-filter_leases :
    (p : Fields → Bool) (ls : List Fields) → length (filter_leases p ls) ≤ length ls
unfolding filter_leases
length-filter_leases p [] = ground arith
length-filter_leases p (l ∷ ls) = let rest = length-filter_leases p ls in ground (arith, rest)

is_empty-nil : (vs : List Violation) → is_empty vs ≡ true → vs ≡ []
is_empty-nil [] h = refl
is_empty-nil (v ∷ vs) h = cc

module _ (repr : Json → String) (py_int : Json → ℤ) (fnmatchcase : String → String → Bool)
    (planning : Fields) (work_map : Dict Fields) where
  abbrev violations_of : List Fields → Claim → List Violation
  violations_of active c =
      implementation_admission_violations repr py_int fnmatchcase planning work_map
        (item_of repr py_int fnmatchcase planning work_map c.lease) active c.actor c.actor_limit

  -- A claim is let in if there is no violation.
  unfoldable pub step : List Fields → Event → List Fields
  step active (claims c) = if is_empty (violations_of active c) then c.lease ∷ active else active
  step active (releases id) = filter_leases (λ l. not (eq_text (get l "id") id)) active

  unfoldable pub run : List Fields → List Event → List Fields
  run active [] = active
  run active (e ∷ es) = run (step active e) es

  -- An implementation lease whose work unit is the one that its item names.
  pub record IsLease (lease : Fields) : Type 0 where
    pub implementation : is_implementation lease ≡ true
    pub named :
        unit_of repr py_int fnmatchcase lease
        ≡ id_of repr (item_of repr py_int fnmatchcase planning work_map lease).fields

  -- Two leases for different work units that do not conflict.
  pub record Distinct (l m : Fields) : Type 0 where
    pub units : (unit_of repr py_int fnmatchcase l == unit_of repr py_int fnmatchcase m) ≡ false
    pub peace :
        (work_units_conflict repr fnmatchcase planning work_map
          (item_of repr py_int fnmatchcase planning work_map l)
          (item_of repr py_int fnmatchcase planning work_map m)).0
        ≡ false

  -- Every lease with every later one of the list.
  pub data Separate : List Fields → Type 0 where
    nothing : Separate []
    onto :
        {l : Fields} {ls : List Fields}
        → ((m : Fields) → In m ls → Distinct l m)
        → Separate ls
        → Separate (l ∷ ls)

  record Sound (n : ℕ) (active : List Fields) : Type 0 where
    leases : (l : Fields) → In l active → IsLease l
    separate : Separate active
    within : length active ≤ n

  Separate-filter :
      (p : Fields → Bool) (ls : List Fields) → Separate ls → Separate (filter_leases p ls)
  unfolding filter_leases
  Separate-filter p [] s = s
  Separate-filter p (l ∷ ls) (onto h s) = elim (Bool-cases (p l)) [
    | inl e ↦ rw e (onto (λ m i. h m ((In-filter p ls m).0 i).0) (Separate-filter p ls s))
    | inr e ↦ rw e (Separate-filter p ls s)
  ]

  Distinct-admitted :
      (active : List Fields) (c : Claim)
      → ((l : Fields) → In l active → IsLease l)
      → IsLease c.lease
      → IsAdmissible repr py_int fnmatchcase planning work_map
          (item_of repr py_int fnmatchcase planning work_map c.lease)
          active
          c.actor
          c.actor_limit
      → (m : Fields) → In m active
      → Distinct c.lease m
  Distinct-admitted active c known is_lease g m i =
      let unit = unit_of repr py_int fnmatchcase in
      let id = id_of repr (item_of repr py_int fnmatchcase planning work_map c.lease).fields in
      let other = id_of repr (item_of repr py_int fnmatchcase planning work_map m).fields in
      let free : (unit m == id) ≡ false = g.fresh m i in
      record {
        units = text-eq-sym (unit c.lease) (unit m) ∙ ap (λ x. unit m == x) is_lease.named ∙ free;
        peace = elim (g.compatible m i) [
          | inl same ↦
              absurd (ground (arith, sym (ap (λ x. x == id) (known m i).named) ∙ free, same))
          | inr peace ↦ peace
        ];
      }

  Sound-claimed :
      (n : ℕ) (active : List Fields) (c : Claim)
      → wip_limit repr py_int fnmatchcase planning ≡ pos n
      → Sound n active
      → IsLease c.lease
      → violations_of active c ≡ []
      → Sound n (c.lease ∷ active)
  Sound-claimed n active c limited s is_lease h =
      let all = filter_all is_implementation active (λ l i. (s.leases l i).implementation) in
      let item = item_of repr py_int fnmatchcase planning work_map c.lease in
      let g =
        subst
          (λ ls.
            IsAdmissible repr py_int fnmatchcase planning work_map item ls c.actor c.actor_limit)
          all
          ((implementation_admission_violations-nil_iff repr py_int fnmatchcase planning work_map
              item active c.actor c.actor_limit).0
            h) in
      let room : leb n (length active) ≡ false =
        ap (reaches (length active)) (sym limited) ∙ g.room in
      record {
        leases = λ l i. elim i [ inl q ↦ subst IsLease (sym q) is_lease | inr j ↦ s.leases l j ];
        separate = onto (Distinct-admitted active c s.leases is_lease g) s.separate;
        within = ground (arith, room);
      }

  Sound-step :
      (n : ℕ) (active : List Fields) (e : Event)
      → wip_limit repr py_int fnmatchcase planning ≡ pos n
      → ((c : Claim) → e ≡ claims c → IsLease c.lease)
      → Sound n active
      → Sound n (step active e)
  unfolding step
  Sound-step n active (claims c) limited regular s =
      elim (Bool-cases (is_empty (violations_of active c))) [
        | inl e ↦ rw e (Sound-claimed n active c limited s (regular c refl) (is_empty-nil _ e))
        | inr e ↦ rw e s
      ]
  Sound-step n active (releases id) limited regular s =
      let p : Fields → Bool = λ l. not (eq_text (get l "id") id) in
      let shorter = length-filter_leases p active in
      let bound = s.within in
      record {
        leases = λ l i. s.leases l ((In-filter p active l).0 i).0;
        separate = Separate-filter p active s.separate;
        within = omega (arith, shorter, bound);
      }

  Sound-run :
      (n : ℕ) (active : List Fields) (events : List Event)
      → wip_limit repr py_int fnmatchcase planning ≡ pos n
      → ((c : Claim) → In (claims c) events → IsLease c.lease)
      → Sound n active
      → Sound n (run active events)
  unfolding run
  Sound-run n active [] limited regular s = s
  Sound-run n active (e ∷ es) limited regular s =
      Sound-run n (step active e) es limited (λ c i. regular c (inr i))
        (Sound-step n active e limited (λ c q. regular c (inl (sym q))) s)

  -- Let a sequence of claims and releases begin with no lease, each claim for an implementation lease
  -- whose work unit is the one that its item names, and let in if there is no violation. Then of the
  -- leases that are in force at the end no two are for one work unit, no two work units conflict, and
  -- they are at most as many as the limit of streams, if that is not negative.
  pub run-Separate :
      (n : ℕ) (events : List Event)
      → wip_limit repr py_int fnmatchcase planning ≡ pos n
      → ((c : Claim) → In (claims c) events → IsLease c.lease)
      → Separate (run [] events) × (length (run [] events) ≤ n)
  run-Separate n events limited regular =
      let s =
        Sound-run n [] events limited regular
          (record { leases = λ l i. elim i [ ]; separate = nothing; within = ground arith }) in
      (s.separate, s.within)
