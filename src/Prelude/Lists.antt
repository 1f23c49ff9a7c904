-- ===== src/Prelude/Lists.antt =====
-- Lists measured by native numbers, tests over lists, and membership by recursion.
use Prim.Native.Nat.{ℕ, suc}
use mathlib.Core.Path.{◌≡◌, refl}
use mathlib.Core.Logic.{◌⊎◌, inl, inr}
use mathlib.Core.Bool.{Bool, true, false, ◌&&◌, ◌||◌}
use mathlib.Core.List.{List, [], ◌∷◌, ◌++◌}
use native.Mathlib.Omega.{arith}

module _ {ℓ} {A : Type ℓ} where
  abbrev pub length : List A → ℕ
  length [] = 0
  length (x ∷ xs) = suc (length xs)

  abbrev pub is_empty : List A → Bool
  is_empty [] = true
  is_empty (x ∷ xs) = false

  -- Python's `all(...)` and `any(...)`.
  unfoldable pub all : (A → Bool) → List A → Bool
  all p [] = true
  all p (x ∷ xs) = p x && all p xs

  unfoldable pub any : (A → Bool) → List A → Bool
  any p [] = false
  any p (x ∷ xs) = p x || any p xs

-- `x` is an item of the list, with its place.
abbrev pub In : {A : Type 0} → A → List A → Type 0
In x [] = ⊥
In x (y ∷ ys) = (x ≡ y) ⊎ In x ys

-- What a test over a list says of its items.
module _ {A : Type 0} (p : A → Bool) where
  pub all-In : (xs : List A) → all p xs ≡ true → (x : A) → In x xs → p x ≡ true
  unfolding all
  all-In [] h x m = elim m [ ]
  all-In (y ∷ ys) h x (inl e) = ground arith
  all-In (y ∷ ys) h x (inr m) = all-In ys (ground arith) x m

  pub all_of_In : (xs : List A) → ((x : A) → In x xs → p x ≡ true) → all p xs ≡ true
  unfolding all
  all_of_In [] h = refl
  all_of_In (y ∷ ys) h = rw (h y (inl refl)) (all_of_In ys (λ x m. h x (inr m)))

  pub any-false-In : (xs : List A) → any p xs ≡ false → (x : A) → In x xs → p x ≡ false
  unfolding any
  any-false-In [] h x m = elim m [ ]
  any-false-In (y ∷ ys) h x (inl e) = ground arith
  any-false-In (y ∷ ys) h x (inr m) = any-false-In ys (ground arith) x m

  pub any_of_In : (xs : List A) (x : A) → In x xs → p x ≡ true → any p xs ≡ true
  unfolding any
  any_of_In [] x m h = elim m [ ]
  any_of_In (y ∷ ys) x (inl e) h = ground arith
  any_of_In (y ∷ ys) x (inr m) h = ground (arith, any_of_In ys x m h)

  pub all_append : (xs ys : List A) → all p xs ≡ true → all p ys ≡ true → all p (xs ++ ys) ≡ true
  unfolding all
  all_append [] ys hx hy = hy
  all_append (x ∷ xs) ys hx hy = ground (arith, all_append xs ys)

  pub all_split : (xs ys : List A) → all p (xs ++ ys) ≡ true → (all p xs ≡ true) × (all p ys ≡ true)
  unfolding all
  all_split [] ys h = (refl, h)
  all_split (x ∷ xs) ys h = ground (arith, all_split xs ys)

-- A list of failures is empty just if its parts are.
pub append-eq-nil {ℓ} : {A : Type ℓ} (xs ys : List A) → xs ++ ys ≡ [] → (xs ≡ []) × (ys ≡ [])
append-eq-nil [] ys h = (refl, h)
append-eq-nil (x ∷ xs) ys h = cc
