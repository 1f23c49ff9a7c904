-- ===== src/Prelude/Mappings.antt =====
-- Python's mappings from texts, as the list of their entries: a write replaces an entry in its place,
-- or appends one.
use Prim.Native.String.{String}
use mathlib.Core.Path.{◌≡◌, refl}
use mathlib.Core.Logic.{inl, inr}
use mathlib.Core.Option.{Option, none, some}
use mathlib.Core.List.{List, [], ◌∷◌}
use native.Mathlib.Omega.{arith}
use text.Mathlib.Text.{◌==◌}
use text.Mathlib.TextEquality.{eq_iff}
use one_company.Prelude.Tests.{Bool-cases, if◌then◌else◌}

abbrev pub Dict : Type 0 → Type 0
Dict A = List (String × A)

module _ {A : Type 0} where
  unfoldable pub lookup : Dict A → String → Option A
  lookup [] k = none
  lookup ((j, a) ∷ d) k = if j == k then some a else lookup d k

  unfoldable pub store : Dict A → String → A → Dict A
  store [] k a = (k, a) ∷ []
  store ((j, b) ∷ d) k a = if j == k then (j, a) ∷ d else (j, b) ∷ store d k a

  -- d.keys(), d.values()
  unfoldable pub keys : Dict A → List String
  keys [] = []
  keys ((k, a) ∷ d) = k ∷ keys d

  unfoldable pub vals : Dict A → List A
  vals [] = []
  vals ((k, a) ∷ d) = a ∷ vals d

  pub lookup-store :
      (d : Dict A) (k j : String) (a : A)
      → lookup (store d k a) j ≡ (if k == j then some a else lookup d j)
  unfolding lookup store
  lookup-store [] k j a = refl
  lookup-store ((i, b) ∷ d) k j a = elim (Bool-cases (i == k)) [
    | inl e ↦ elim (Bool-cases (k == j)) [
      | inl f ↦ ground (arith, eq_iff i k)
      | inr f ↦ ground (arith, eq_iff i k)
    ]
    | inr e ↦ ground (arith, lookup-store d k j a, eq_iff i j, eq_iff k j, eq_iff i k)
  ]
