-- ===== src/Planning/Closure.antt =====
-- The closure of the dependencies is what they reach.
use one_company.Prelude.{
  ℕ, zero, suc, ◌+◌, ◌≤◌, ◌≡◌, ◌↔◌, ◌⊎◌, refl, sym, ap, subst, inl, inr, String, Bool, true, false,
  List, [], ◌∷◌, Option, some, any, length, ◌==◌, eq_iff, eq_refl, if◌then◌else◌, Dict, lookup, In,
  arith, Bool-cases,
}
use one_company.Json.{Json, Fields}
use one_company.Planning.{
  turns_of, closing, member, pushed, dependencies, close, weight, dependency_closure,
}

pub member-In : (x : String) (l : List String) → member x l ≡ true → In x l
unfolding any
member-In x [] h = cc
member-In x (y ∷ l) h = elim (Bool-cases (y == x)) [
  | inl e ↦ inl (sym ((eq_iff y x).0 e))
  | inr e ↦ inr (member-In x l (ground arith))
]

In-pushed : (xs stack : List String) (y : String) → (In y xs ⊎ In y stack) ↔ In y (pushed xs stack)
unfolding pushed
In-pushed [] stack y = ((λ h. elim h [ inl m ↦ elim m [ ] | inr m ↦ m ]), λ m. inr m)
In-pushed (x ∷ xs) stack y =
    let (there, back) = In-pushed xs (x ∷ stack) y in
    (
      (λ h. elim h [
        | inl m ↦ elim m [ inl e ↦ there (inr (inl e)) | inr n ↦ there (inl n) ]
        | inr m ↦ there (inr (inr m))
      ]),
      λ m. elim (back m) [
        | inl n ↦ inl (inr n)
        | inr n ↦ elim n [ inl e ↦ inl (inl e) | inr o ↦ inr o ]
      ],
    )

length-pushed : (xs stack : List String) → length (pushed xs stack) ≡ length xs + length stack
unfolding pushed
length-pushed [] stack = omega arith
length-pushed (x ∷ xs) stack = omega (arith, length-pushed xs (x ∷ stack))

module _ (repr : Json → String) where
  weight-cons :
      (m : Dict Fields) (x : String) (result : List String)
      → weight repr m (x ∷ result) ≤ weight repr m result
  unfolding weight any
  weight-cons [] x result = omega arith
  weight-cons ((k, item) ∷ m) x result = ground (arith, weight-cons m x result)

  weight-new :
      (m : Dict Fields) (x : String) (result : List String)
      → member x result ≡ false
      → length (dependencies repr m x) + weight repr m (x ∷ result) ≤ weight repr m result
  unfolding weight any lookup
  weight-new [] x result h = omega arith
  weight-new ((k, item) ∷ m) x result h = elim (Bool-cases (k == x)) [
    | inl e ↦
        let same : k ≡ x = (eq_iff k x).0 e in
        let out : member k result ≡ false = rw same h in
        let self : (x == k) ≡ true = rw same (eq_refl x) in
        rw (e, out, self) (omega (arith, weight-cons m x result))
    | inr e ↦
        let other : (x == k) ≡ false = ground (arith, eq_iff k x, eq_iff x k) in
        rw (e, other) (omega (arith, weight-new m x result h))
  ]

  -- What the dependencies of a work unit reach.
  pub data Reach (m : Dict Fields) (start : String) : String → Type 0 where
    direct : {y : String} → In y (dependencies repr m start) → Reach m start y
    further : {x y : String} → Reach m start x → In y (dependencies repr m x) → Reach m start y

  module _ (m : Dict Fields) (start : String) where
    record Sound (result stack : List String) : Type 0 where
      reached : (y : String) → (In y result ⊎ In y stack) → Reach m start y
      closed :
          (x y : String) → In x result → In y (dependencies repr m x) → In y result ⊎ In y stack
      roots : (y : String) → In y (dependencies repr m start) → In y result ⊎ In y stack

    of_empty : (result : List String) (y : String) → (In y result ⊎ In y []) → In y result
    of_empty result y (inl i) = i
    of_empty result y (inr i) = elim i [ ]

    complete :
        (result : List String) → Sound result [] → (y : String) → Reach m start y → In y result
    complete result s y (direct i) = of_empty result y (s.roots y i)
    complete result s y (further {x = x} r i) =
        of_empty result y (s.closed x y (complete result s x r) i)

    moved :
        (result stack rest : List String) (x : String)
        → ((y : String) → In y (x ∷ stack) → In y result ⊎ In y rest)
        → (y : String) → In y result ⊎ In y (x ∷ stack)
        → In y result ⊎ In y rest
    moved result stack rest x h y (inl i) = inl i
    moved result stack rest x h y (inr i) = h y i

    Sound-known :
        (result stack : List String) (x : String)
        → In x result
        → Sound result (x ∷ stack)
        → Sound result stack
    Sound-known result stack x known s =
        let still = moved result stack stack x (λ y i. elim i [
          | inl e ↦ inl (subst (λ z. In z result) (sym e) known)
          | inr j ↦ inr j
        ]) in
        record {
          reached = λ y i. s.reached y (elim i [ inl j ↦ inl j | inr j ↦ inr (inr j) ]);
          closed = λ z y i j. still y (s.closed z y i j);
          roots = λ y i. still y (s.roots y i);
        }

    Sound-new :
        (result stack : List String) (x : String)
        → Sound result (x ∷ stack)
        → Sound (x ∷ result) (pushed (dependencies repr m x) stack)
    Sound-new result stack x s =
        let next = pushed (dependencies repr m x) stack in
        let still : (y : String) → In y result ⊎ In y (x ∷ stack) → In y (x ∷ result) ⊎ In y next =
          λ y i. elim i [
            | inl j ↦ inl (inr j)
            | inr j ↦ elim j [
              | inl e ↦ inl (inl e)
              | inr k ↦ inr ((In-pushed (dependencies repr m x) stack y).0 (inr k))
            ]
          ] in
        let here : Reach m start x = s.reached x (inr (inl refl)) in
        record {
          reached = λ y i. elim i [
            | inl j ↦ elim j [
              | inl e ↦ subst (Reach m start) (sym e) here
              | inr k ↦ s.reached y (inl k)
            ]
            | inr j ↦ elim ((In-pushed (dependencies repr m x) stack y).1 j) [
              | inl k ↦ further here k
              | inr k ↦ s.reached y (inr (inr k))
            ]
          ];
          closed = λ z y i j. elim i [
            | inl e ↦ inr (
                (In-pushed (dependencies repr m x) stack y).0
                  (inl (subst (λ w. In y (dependencies repr m w)) e j)))
            | inr k ↦ still y (s.closed z y k j)
          ];
          roots = λ y i. still y (s.roots y i);
        }

    abbrev Closed : Option (List String) → Type 0
    Closed o = (r : List String) × (o ≡ some r) × ((y : String) → In y r ↔ Reach m start y)

    close-suc :
        (turns : ℕ) (result stack : List String) (x : String) (b : Bool)
        → member x result ≡ b
        → close repr (suc turns) m result (x ∷ stack)
          ≡ close repr turns m
              (if b then result else x ∷ result)
              (if b then stack else pushed (dependencies repr m x) stack)
    unfolding close
    close-suc turns result stack x b e =
        ap
          (λ known.
            close repr turns m (if known then result else x ∷ result)
              (if known then stack else pushed (dependencies repr m x) stack))
          e

    close-Closed :
        (turns : ℕ) (result stack : List String)
        → Sound result stack
        → length stack + weight repr m result ≤ turns
        → Closed (close repr turns m result stack)
    unfolding close
    close-Closed turns result [] s h =
        (result, refl, λ y. ((λ i. s.reached y (inl i)), complete result s y))
    close-Closed zero result (x ∷ stack) s h = absurd (omega (arith, h))
    close-Closed (suc turns) result (x ∷ stack) s h = elim (Bool-cases (member x result)) [
      | inl e ↦ rw (close-suc turns result stack x true e) (
          close-Closed turns result stack (Sound-known result stack x (member-In x result e) s)
            (omega (arith, h)))
      | inr e ↦ rw (close-suc turns result stack x false e) (
          close-Closed turns (x ∷ result) (pushed (dependencies repr m x) stack)
            (Sound-new result stack x s)
            (omega
              (arith, h, length-pushed (dependencies repr m x) stack, weight-new m x result e)))
    ]

    start-Sound : Sound [] (pushed (dependencies repr m start) [])
    start-Sound =
        let first = dependencies repr m start in
        record {
          reached = λ y i. elim i [
            | inl j ↦ elim j [ ]
            | inr j ↦ elim ((In-pushed first [] y).1 j) [ inl k ↦ direct k | inr k ↦ elim k [ ] ]
          ];
          closed = λ z y i j. elim i [ ];
          roots = λ y i. inr ((In-pushed first [] y).0 (inl i));
        }

  -- The loop over the stack ends, also on a cycle, and gives exactly the work units that the
  -- dependencies reach.
  pub dependency_closure-Reach_iff :
      (m : Dict Fields) (start : String)
      → (closing repr m start ≡ some (dependency_closure repr m start))
        × ((y : String) → In y (dependency_closure repr m start) ↔ Reach m start y)
  unfolding dependency_closure
  dependency_closure-Reach_iff m start =
      let (r, ends, iff) =
        close-Closed m start (turns_of repr m start) [] (pushed (dependencies repr m start) [])
          (start-Sound m start) (omega (arith, length-pushed (dependencies repr m start) [])) in
      rw ends (refl, iff)
