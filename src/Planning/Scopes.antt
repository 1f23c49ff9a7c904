-- ===== src/Planning/Scopes.antt =====
-- Whether write scopes and resource locks overlap: `scopes_overlap` and `locks_overlap` of
-- scripts/planning_lib.py, and `scope_covers_path` of scripts/scope_guard.py. `fnmatchcase` is the
-- standard library's.
use Prim.Native.Char.{code}
use Prim.Native.String.{◌++◌}
use one_company.Prelude.{
  ℕ, ◌≡◌, refl, String, Bool, true, false, ◌&&◌, ◌||◌, List, [], ◌∷◌, Option, some, none, any, eqb,
  ◌==◌, eq_iff, if◌then◌else◌, strip, starts_with, arith, Bool-cases, inl, inr,
}

-- value.replace("\\", "/")
unfoldable pub slashes : String → String
slashes String.[] = ""
slashes (String.◌∷◌ c s) =
    let rest = slashes s in if eqb (code c) b'\\' then "/" ++ rest else String.◌∷◌ c rest

abbrev pub is_anchor : ℕ → Bool
is_anchor c = eqb c b'.' || eqb c b'/'

-- value.lstrip(chars), for a set of characters
unfoldable pub lstrip_chars : (ℕ → Bool) → String → String
lstrip_chars p String.[] = ""
lstrip_chars p (String.◌∷◌ c s) =
    let rest = lstrip_chars p s in if p (code c) then rest else String.◌∷◌ c s

-- value.rstrip("/")
unfoldable pub rstrip_slashes : String → String
rstrip_slashes String.[] = ""
rstrip_slashes (String.◌∷◌ c s) =
    let rest = rstrip_slashes s in
    if eqb (code c) b'/' && (rest == "") then "" else String.◌∷◌ c rest

unfoldable pub any_char : (ℕ → Bool) → String → Bool
any_char p String.[] = false
any_char p (String.◌∷◌ c s) = p (code c) || any_char p s

-- The text before the first character of a set.
unfoldable pub until_char : (ℕ → Bool) → String → String
until_char p String.[] = ""
until_char p (String.◌∷◌ c s) =
    let rest = until_char p s in if p (code c) then "" else String.◌∷◌ c rest

-- while text.startswith("./"): text = text[2:]
unfoldable pub drop_here : String → String
drop_here String.[] = ""
drop_here (String.◌∷◌ c String.[]) = String.◌∷◌ c ""
drop_here (String.◌∷◌ c (String.◌∷◌ d s)) =
    let rest = drop_here s in
    if eqb (code c) b'.' && eqb (code d) b'/' then rest else String.◌∷◌ c (String.◌∷◌ d s)

abbrev pub onto_first : String → List String → List String
onto_first c [] = c ∷ []
onto_first c (s ∷ l) = (c ++ s) ∷ l

-- text.split("/")
unfoldable pub split_slashes : String → List String
split_slashes String.[] = "" ∷ []
split_slashes (String.◌∷◌ c s) =
    let rest = split_slashes s in
    if eqb (code c) b'/' then "" ∷ rest else onto_first (String.◌∷◌ c "") rest

-- segment in {"", ".", ".."}
abbrev pub is_unsafe : String → Bool
is_unsafe s = (s == "") || (s == ".") || (s == "..")

-- `_normalize`
unfoldable pub normalize : String → Option String
normalize value =
    let text = strip (slashes value) in
    let path = rstrip_slashes (lstrip_chars (λ c. eqb c b'/') (drop_here text)) in
    if any_char (λ c. eqb c 0) text || (path == "") || any is_unsafe (split_slashes path)
    then none
    else some path

abbrev pub is_wild : ℕ → Bool
is_wild c = eqb c b'*' || eqb c b'?' || eqb c b'['

abbrev pub has_wildcards : String → Bool
has_wildcards pattern = any_char is_wild pattern

-- scope in {"*", "**", "**/*"}
abbrev pub is_everything : String → Bool
is_everything s = (s == "*") || (s == "**") || (s == "**/*")

-- A scope without its anchors.
unfoldable pub bare : String → String
bare s = rstrip_slashes (lstrip_chars is_anchor (strip (slashes s)))

unfoldable pub scope_prefix : String → String
scope_prefix pattern =
    let value = lstrip_chars is_anchor (strip (slashes pattern)) in
    rstrip_slashes (until_char is_wild value)

-- ap == bp or ap.startswith(bp + "/") or bp.startswith(ap + "/")
abbrev pub is_nested : String → String → Bool
is_nested a b = (a == b) || starts_with (b ++ "/") a || starts_with (a ++ "/") b

module _ (fnmatchcase : String → String → Bool) where
  abbrev pub covers : Option String → Option String → Bool
  covers none candidate = false
  covers (some scope) none = false
  covers (some scope) (some candidate) =
      if is_everything scope
      then true
      else if has_wildcards scope
      then fnmatchcase candidate scope
      else (candidate == scope) || starts_with (scope ++ "/") candidate

  abbrev pub scope_covers_path : String → String → Bool
  scope_covers_path pattern path = covers (normalize pattern) (normalize path)

  abbrev pub bare_overlap : String → String → Bool
  bare_overlap a b =
      if (a == "") || (b == "")
      then true
      else if is_everything a || is_everything b
      then true
      else if scope_covers_path a b || scope_covers_path b a
      then true
      else if has_wildcards a && fnmatchcase b a
      then true
      else if has_wildcards b && fnmatchcase a b
      then true
      else (let p = scope_prefix a in
          let q = scope_prefix b in if (p == "") || (q == "") then true else is_nested p q)

  unfoldable pub scopes_overlap : String → String → Bool
  scopes_overlap left right = bare_overlap (bare left) (bare right)

-- a.endswith(":*")
unfoldable pub ends_with_star : String → Bool
ends_with_star String.[] = false
ends_with_star (String.◌∷◌ c s) = (String.◌∷◌ c s == ":*") || ends_with_star s

-- a[:-1]
unfoldable pub all_but_last : String → String
all_but_last String.[] = ""
all_but_last (String.◌∷◌ c s) =
    let rest = all_but_last s in if s == "" then "" else String.◌∷◌ c rest

abbrev pub is_family_of : String → String → Bool
is_family_of a b = ends_with_star a && starts_with (all_but_last a) b

abbrev pub bare_locks_overlap : String → String → Bool
bare_locks_overlap a b =
    if (a == "") || (b == "")
    then false
    else if (a == "*") || (b == "*")
    then true
    else if a == b
    then true
    else if is_family_of a b
    then true
    else is_family_of b a

unfoldable pub locks_overlap : String → String → Bool
locks_overlap left right = bare_locks_overlap (strip left) (strip right)

pub text-eq-sym : (a b : String) → (a == b) ≡ (b == a)
text-eq-sym a b = elim (Bool-cases (a == b)) [
  | inl e ↦ rw ((eq_iff a b).0 e) refl
  | inr e ↦ ground (arith, eq_iff a b, eq_iff b a, e)
]

pub locks_overlap_comm : (a b : String) → locks_overlap a b ≡ locks_overlap b a
unfolding locks_overlap
locks_overlap_comm a b = ground (arith, text-eq-sym (strip a) (strip b))

pub or_comm : (a b : Bool) → (a || b) ≡ (b || a)
or_comm a b = ground arith

-- Branches that answer true, and the rest.
same_branch :
    {c d : Bool} {x y : Bool} → c ≡ d → x ≡ y → (if c then true else x) ≡ (if d then true else y)
same_branch e f = rw (e, f) refl

swapped :
    (p q : Bool) {x y : Bool}
    → x ≡ y
    → (if p then true else if q then true else x) ≡ (if q then true else if p then true else y)
swapped p q e = ground arith

nested_comm : (p q : String) → is_nested p q ≡ is_nested q p
nested_comm p q = ground (arith, text-eq-sym p q)

module _ (fnmatchcase : String → String → Bool) where
  bare_overlap_comm : (a b : String) → bare_overlap fnmatchcase a b ≡ bare_overlap fnmatchcase b a
  bare_overlap_comm a b = same_branch (or_comm (a == "") (b == "")) (
      same_branch (or_comm (is_everything a) (is_everything b)) (
        same_branch
          (or_comm (scope_covers_path fnmatchcase a b) (scope_covers_path fnmatchcase b a))
          (swapped (has_wildcards a && fnmatchcase b a) (has_wildcards b && fnmatchcase a b) (
            same_branch (or_comm (scope_prefix a == "") (scope_prefix b == ""))
              (nested_comm (scope_prefix a) (scope_prefix b))))))

  pub scopes_overlap_comm :
      (a b : String) → scopes_overlap fnmatchcase a b ≡ scopes_overlap fnmatchcase b a
  unfolding scopes_overlap
  scopes_overlap_comm a b = bare_overlap_comm (bare a) (bare b)
