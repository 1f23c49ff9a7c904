-- ===== src/Json.antt =====
-- The values of the program: what `json.loads` gives, and the Python tests and comparisons on them.
-- A mapping is a list of its entries; reading takes the first entry of a key, and writing replaces it.
use one_company.Prelude.{
  Bool-cases, inl, inr, refl, ℕ, suc, pos, negsuc, ◌+◌, ◌-◌, ◌*◌, eqb, ◌&&◌, ◌^◌, ◌≡◌, ap, eq_iff,
  eq_refl, arith, String, Bool, true, false, ◌||◌, List, [], ◌∷◌, Option, none, some, ℤ, ◌==◌,
  if◌then◌else◌,
}

-- `float m` is the finite float m / 2 ^ 1074: each finite float is one of these.
mutual
  pub data Json : Type 0 where
    null : Json
    bool : Bool → Json
    int : ℤ → Json
    float : ℤ → Json
    str : String → Json
    arr : Items → Json
    obj : Fields → Json

  pub data Items : Type 0 where
    nil : Items
    cons : Json → Items → Items

  pub data Fields : Type 0 where
    end : Fields
    field : String → Json → Fields → Fields

-- d.get(k), with None for a missing key
unfoldable pub get : Fields → String → Json
get end k = null
get (field j v fs) k = if j == k then v else get fs k

-- k in d
unfoldable pub has : Fields → String → Bool
has end k = false
has (field j v fs) k = j == k || has fs k

-- d.get(k, default)
abbrev pub get_or : Fields → String → Json → Json
get_or d k v = if has d k then get d k else v

-- d[k] = v
unfoldable pub put : Fields → String → Json → Fields
put end k v = field k v end
put (field j w fs) k v = if j == k then field j v fs else field j w (put fs k v)

abbrev pub to_list : Items → List Json
to_list nil = []
to_list (cons v vs) = v ∷ to_list vs

-- d.values()
abbrev pub values : Fields → List Json
values end = []
values (field k v fs) = v ∷ values fs

-- v is True, v is False
abbrev pub is_true : Json → Bool
is_true (bool b) = b
is_true _ = false

abbrev pub is_false : Json → Bool
is_false (bool true) = false
is_false (bool false) = true
is_false _ = false

abbrev pub is_null : Json → Bool
is_null null = true
is_null _ = false

-- v == s for a text s
abbrev pub eq_text : Json → String → Bool
eq_text (str t) s = t == s
eq_text _ s = false

-- The number of units of 2 ^ -1074 in 1.
abbrev pub unit : ℕ
unit = 2 ^ 1074

-- The parts of `v` by type, as `isinstance` tells them apart; `type(v) is int` leaves out booleans.
abbrev pub as_text : Json → Option String
as_text (str s) = some s
as_text _ = none

abbrev pub as_bool : Json → Option Bool
as_bool (bool b) = some b
as_bool _ = none

abbrev pub as_int : Json → Option ℤ
as_int (int n) = some n
as_int _ = none

abbrev pub as_list : Json → Option (List Json)
as_list (arr vs) = some (to_list vs)
as_list _ = none

abbrev pub as_dict : Json → Option Fields
as_dict (obj fs) = some fs
as_dict _ = none

-- Values that a set or a key cannot hold raise a TypeError.
abbrev pub is_hashable : Json → Bool
is_hashable (arr _) = false
is_hashable (obj _) = false
is_hashable _ = true

-- Reading a type test back.
pub eq_text-eq : (v : Json) (s : String) → eq_text v s ≡ true → v ≡ str s
eq_text-eq (str t) s h = ap str ((eq_iff t s).0 h)
eq_text-eq null s h = cc
eq_text-eq _ s h = cc

pub eq_text_self : (s : String) → eq_text (str s) s ≡ true
eq_text_self s = eq_refl s

pub is_true-eq : (v : Json) → is_true v ≡ true → v ≡ bool true
is_true-eq v h = ground arith

pub is_false-eq : (v : Json) → is_false v ≡ true → v ≡ bool false
is_false-eq v h = ground arith

-- v == w, as Python compares the values of JSON: numbers by their values, a boolean as 0 or 1,
-- lists item by item, and mappings whatever their order.
abbrev as_number : Bool → ℤ
as_number false = pos 0
as_number true = pos 1

unfoldable pub scaled : ℤ → ℤ
scaled (pos n) = pos (n * unit)
scaled (negsuc n) = negsuc ((n + 1) * unit - 1)

abbrev pub eq_int : ℤ → ℤ → Bool
eq_int (pos m) (pos n) = eqb m n
eq_int (negsuc m) (negsuc n) = eqb m n
eq_int _ _ = false

-- A number, in units of 2 ^ -1074.
abbrev pub as_scaled : Json → Option ℤ
as_scaled (bool b) = some (scaled (as_number b))
as_scaled (int n) = some (scaled n)
as_scaled (float m) = some m
as_scaled _ = none

abbrev eq_scaled : Option ℤ → Option ℤ → Bool
eq_scaled (some m) (some n) = eq_int m n
eq_scaled _ _ = false

abbrev count_fields : Fields → ℕ
count_fields end = 0
count_fields (field k v fs) = suc (count_fields fs)

unfoldable mutual
  pub py_eq : Json → Json → Bool
  py_eq null null = true
  py_eq (str s) (str t) = s == t
  py_eq (arr vs) (arr ws) = eq_items vs ws
  py_eq (obj fs) (obj gs) = eqb (count_fields fs) (count_fields gs) && eq_fields fs gs
  py_eq (bool b) w = eq_scaled (as_scaled (bool b)) (as_scaled w)
  py_eq (int n) w = eq_scaled (as_scaled (int n)) (as_scaled w)
  py_eq (float m) w = eq_scaled (as_scaled (float m)) (as_scaled w)
  py_eq _ _ = false

  pub eq_items : Items → Items → Bool
  eq_items nil nil = true
  eq_items (cons v vs) (cons w ws) = py_eq v w && eq_items vs ws
  eq_items _ _ = false

  pub eq_fields : Fields → Fields → Bool
  eq_fields end gs = true
  eq_fields (field k v fs) gs = has gs k && py_eq v (get gs k) && eq_fields fs gs

-- Reading after a write.
pub get-put :
    (d : Fields) (k j : String) (v : Json) → get (put d k v) j ≡ (if k == j then v else get d j)
unfolding get put
get-put end k j v = refl
get-put (field i w d) k j v = elim (Bool-cases (i == k)) [
  | inl e ↦ elim (Bool-cases (k == j)) [
    | inl f ↦ ground (arith, eq_iff i k)
    | inr f ↦ ground (arith, eq_iff i k)
  ]
  | inr e ↦ ground (arith, get-put d k j v, eq_iff i j, eq_iff k j, eq_iff i k)
]
