-- ===== src/Planning/Admissible.antt =====
-- What `implementation_admission_violations` of scripts/planning_lib.py lets in.
use one_company.Prelude.{
  ◌≡◌, ◌↔◌, ◌⊎◌, inl, inr, refl, ap, sym, ◌∙◌, subst, String, Bool, true, false, not, List, [], ◌∷◌,
  Option, some, none, given, length, ℤ, ◌==◌, Dict, In, arith, Bool-cases, append-eq-nil,
}
use one_company.Json.{Json, Fields, get}
use one_company.Planning.Ready.{id_of}
use one_company.Planning.Conflicts.{WorkItem, work_item_for_lease, work_units_conflict}
use one_company.Planning.Admission.{
  Violation, already_active, is_implementation, filter_leases, reaches, find_lease, unit_of,
  wip_limit, same_unit, over_limit, leases_of, over_capacity, conflict_with, conflicts_with,
  implementation_admission_violations,
}

pub In-filter :
    (p : Fields → Bool) (ls : List Fields) (l : Fields)
    → In l (filter_leases p ls) ↔ (In l ls × (p l ≡ true))
unfolding filter_leases
In-filter p [] l = ((λ i. elim i [ ]), λ i. elim i.0 [ ])
In-filter p (m ∷ ls) l = elim (Bool-cases (p m)) [
  | inl e ↦ rw e (
    (λ i. elim i [
      | inl q ↦ (inl q, ap p q ∙ e)
      | inr j ↦ (inr ((In-filter p ls l).0 j).0, ((In-filter p ls l).0 j).1)
    ]),
    λ i. elim i.0 [ inl q ↦ inl q | inr j ↦ inr ((In-filter p ls l).1 (j, i.1)) ],
  )
  | inr e ↦ rw e (
    (λ i. (inr ((In-filter p ls l).0 i).0, ((In-filter p ls l).0 i).1)),
    λ i. elim i.0 [
      | inl q ↦ absurd (ground (arith, sym (ap p q) ∙ i.1, e))
      | inr j ↦ (In-filter p ls l).1 (j, i.1)
    ],
  )
]

find_lease-none :
    (p : Fields → Bool) (ls : List Fields)
    → find_lease p ls ≡ none
    → (l : Fields) → In l ls
    → p l ≡ false
unfolding find_lease
find_lease-none p [] h l i = elim i [ ]
find_lease-none p (m ∷ ls) h l i = elim (Bool-cases (p m)) [
  | inl e ↦ absurd (ground (arith, rw e at h))
  | inr e ↦ elim i [ inl q ↦ ap p q ∙ e | inr j ↦ find_lease-none p ls (rw e at h) l j ]
]

none-find_lease :
    (p : Fields → Bool) (ls : List Fields)
    → ((l : Fields) → In l ls → p l ≡ false)
    → find_lease p ls ≡ none
unfolding find_lease
none-find_lease p [] h = refl
none-find_lease p (m ∷ ls) h = rw (h m (inl refl)) (none-find_lease p ls (λ l i. h l (inr i)))

of_false : (b : Bool) → not b ≡ true → b ≡ false
of_false true h = cc
of_false false h = refl

module _ (repr : Json → String) (py_int : Json → ℤ) (fnmatchcase : String → String → Bool)
    (planning : Fields) (work_map : Dict Fields) where
  abbrev pub item_of : Fields → WorkItem
  item_of lease = work_item_for_lease repr lease work_map

  -- Work units that may be worked on at once: the same one, or two without a conflict.
  abbrev pub Apart : WorkItem → WorkItem → Type 0
  Apart candidate other =
      ((id_of repr other.fields == id_of repr candidate.fields) ≡ true)
      ⊎ ((work_units_conflict repr fnmatchcase planning work_map candidate other).0 ≡ false)

  conflict_with-nil :
      (candidate : WorkItem) (lease : Fields)
      → conflict_with repr py_int fnmatchcase planning work_map candidate lease ≡ []
      → Apart candidate (item_of lease)
  conflict_with-nil candidate lease h =
      elim (Bool-cases (id_of repr (item_of lease).fields == id_of repr candidate.fields)) [
        | inl e ↦ inl e
        | inr e ↦
            elim (Bool-cases
              (work_units_conflict repr fnmatchcase planning work_map candidate
                (item_of lease)).0) [ inl c ↦ absurd (ground (arith, h, e, c)) | inr c ↦ inr c ]
      ]

  nil-conflict_with :
      (candidate : WorkItem) (lease : Fields)
      → Apart candidate (item_of lease)
      → conflict_with repr py_int fnmatchcase planning work_map candidate lease ≡ []
  nil-conflict_with candidate lease (inl e) = rw e refl
  nil-conflict_with candidate lease (inr c) = ground (arith, c)

  conflicts_with-nil :
      (candidate : WorkItem) (ls : List Fields)
      → conflicts_with repr py_int fnmatchcase planning work_map candidate ls ≡ []
      → (l : Fields) → In l ls
      → Apart candidate (item_of l)
  unfolding conflicts_with
  conflicts_with-nil candidate [] h l i = elim i [ ]
  conflicts_with-nil candidate (m ∷ ls) h l i =
      let (now, later) = append-eq-nil _ _ h in
      elim i [
        | inl q ↦
            subst (λ x. Apart candidate (item_of x)) (sym q) (conflict_with-nil candidate m now)
        | inr j ↦ conflicts_with-nil candidate ls later l j
      ]

  nil-conflicts_with :
      (candidate : WorkItem) (ls : List Fields)
      → ((l : Fields) → In l ls → Apart candidate (item_of l))
      → conflicts_with repr py_int fnmatchcase planning work_map candidate ls ≡ []
  unfolding conflicts_with
  nil-conflicts_with candidate [] h = refl
  nil-conflicts_with candidate (m ∷ ls) h =
      rw (nil-conflict_with candidate m (h m (inl refl)))
        (nil-conflicts_with candidate ls (λ l i. h l (inr i)))

  -- What admission asks of the implementation leases that are active.
  pub record IsAdmissible (candidate : WorkItem) (active : List Fields) (actor : Option String)
      (limit : Option ℤ) : Type 0 where
    pub fresh :
        (l : Fields)
        → In l active
        → (unit_of repr py_int fnmatchcase l == id_of repr candidate.fields) ≡ false
    pub room : reaches (length active) (wip_limit repr py_int fnmatchcase planning) ≡ false
    pub capacity :
        (a : String) (n : ℤ)
        → actor ≡ some a
        → limit ≡ some n
        → (a == "") ≡ false
        → reaches (leases_of repr py_int fnmatchcase planning work_map a active) n ≡ false
    pub compatible : (l : Fields) → In l active → Apart candidate (item_of l)

  unit_free :
      (o : Option Fields) (id : String)
      → ◌≡◌ {A = List Violation} (given o [] (λ l. already_active id (get l "id") ∷ [])) []
      → o ≡ none
  unit_free none id h = refl
  unit_free (some l) id h = cc

  capacity_free :
      (actor : Option String) (limit : Option ℤ) (active : List Fields)
      → over_capacity repr py_int fnmatchcase planning work_map actor limit active ≡ []
      → (a : String) (n : ℤ) → actor ≡ some a
      → limit ≡ some n
      → (a == "") ≡ false
      → reaches (leases_of repr py_int fnmatchcase planning work_map a active) n ≡ false
  capacity_free none limit active h a n ea en named = cc
  capacity_free (some b) none active h a n ea en named = cc
  capacity_free (some b) (some m) active h a n ea en named =
      let same : b ≡ a = cc in
      let same_limit : m ≡ n = cc in
      elim (Bool-cases (reaches (leases_of repr py_int fnmatchcase planning work_map a active) n)) [
        | inl e ↦ absurd (ground (arith, rw (same, same_limit) at h, e, named))
        | inr e ↦ e
      ]

  free_capacity :
      (actor : Option String) (limit : Option ℤ) (active : List Fields)
      → ((a : String) (n : ℤ)
          → actor ≡ some a
          → limit ≡ some n
          → (a == "") ≡ false
          → reaches (leases_of repr py_int fnmatchcase planning work_map a active) n ≡ false)
      → over_capacity repr py_int fnmatchcase planning work_map actor limit active ≡ []
  free_capacity none limit active h = refl
  free_capacity (some a) none active h = refl
  free_capacity (some a) (some n) active h = elim (Bool-cases (a == "")) [
    | inl e ↦ ground (arith, e)
    | inr e ↦ let free = h a n refl refl e in ground (arith, e, free)
  ]

  -- No violation is found exactly when, among the implementation leases that
  -- are active, none is for the candidate's work unit, there are fewer than the limit of streams, the
  -- actor (if one with a limit is given) has fewer than that, and none is for another work unit that
  -- conflicts with the candidate.
  pub implementation_admission_violations-nil_iff :
      (candidate : WorkItem) (active : List Fields) (actor : Option String) (limit : Option ℤ)
      → (implementation_admission_violations repr py_int fnmatchcase planning work_map candidate
            active actor limit
          ≡ [])
        ↔ IsAdmissible candidate (filter_leases is_implementation active) actor limit
  unfolding implementation_admission_violations
  implementation_admission_violations-nil_iff candidate active actor limit = (
    (λ h.
        let ls = filter_leases is_implementation active in
        let id = id_of repr candidate.fields in
        let same = same_unit repr py_int fnmatchcase planning work_map id ls in
        let over = over_limit repr py_int fnmatchcase planning work_map ls in
        let (f1, r1) = append-eq-nil same _ h in
        let (f2, r2) = append-eq-nil over _ r1 in
        let (f3, f4) = append-eq-nil _ _ r2 in
        record {
          fresh =
              find_lease-none (λ l. unit_of repr py_int fnmatchcase l == id) ls (unit_free _ id f1);
          room = ground (arith, f2);
          capacity = capacity_free actor limit ls f3;
          compatible = conflicts_with-nil candidate ls f4;
        }),
    λ g.
        let ls = filter_leases is_implementation active in
        rw
          (
            none-find_lease (λ l. unit_of repr py_int fnmatchcase l == id_of repr candidate.fields)
                ls g.fresh,
            g.room,
            free_capacity actor limit ls g.capacity,
            nil-conflicts_with candidate ls g.compatible,
          )
          refl,
  )
