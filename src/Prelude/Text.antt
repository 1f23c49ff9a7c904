-- ===== src/Prelude/Text.antt =====
-- Python's text operations that the program uses, over the native texts.
use Prim.Native.Nat.{ℕ, zero, suc, ◌≤◌, ◌/◌, ◌%◌}
use Prim.Native.Char.{code}
use Prim.Native.String.{String, ◌++◌}
use mathlib.Core.Path.{◌≡◌, refl}
use mathlib.Core.Logic.{inl, inr}
use native.Mathlib.Omega.{arith}
use mathlib.Core.Bool.{Bool, true, false, ◌&&◌, ◌||◌}
use text.Mathlib.Text.{◌==◌}
use one_company.Prelude.Tests.{Bool-cases, leb, eqb, if◌then◌else◌}

-- The characters for which `str.isspace` holds.
abbrev pub is_space : ℕ → Bool
is_space c =
    leb 0x9 c && leb c 0xd
    || leb 0x1c c && leb c 0x20
    || eqb c 0x85
    || eqb c 0xa0
    || eqb c 0x1680
    || leb 0x2000 c && leb c 0x200a
    || eqb c 0x2028
    || eqb c 0x2029
    || eqb c 0x202f
    || eqb c 0x205f
    || eqb c 0x3000

unfoldable pub lstrip : String → String
lstrip String.[] = ""
lstrip (String.◌∷◌ c s) = let rest = lstrip s in if is_space (code c) then rest else String.◌∷◌ c s

unfoldable pub rstrip : String → String
rstrip String.[] = ""
rstrip (String.◌∷◌ c s) =
    let rest = rstrip s in if is_space (code c) && (rest == "") then "" else String.◌∷◌ c rest

-- `s.strip()`
unfoldable pub strip : String → String
unfolding lstrip rstrip
strip s = rstrip (lstrip s)

-- [0-9a-f]
abbrev pub is_lower_hex : ℕ → Bool
is_lower_hex c = leb b'0' c && leb c b'9' || leb b'a' c && leb c b'f'

-- [0-9a-fA-F]
abbrev pub is_hex : ℕ → Bool
is_hex c = is_lower_hex c || leb b'A' c && leb c b'F'

-- `re.fullmatch`: just `n` characters, each of a class.
unfoldable pub matches_all : (ℕ → Bool) → ℕ → String → Bool
matches_all p zero String.[] = true
matches_all p zero (String.◌∷◌ c s) = false
matches_all p (suc n) String.[] = false
matches_all p (suc n) (String.◌∷◌ c s) = p (code c) && matches_all p n s

strip_both : strip " \t a b\n" ≡ "a b"
unfolding strip
strip_both = refl

abbrev digit : ℕ → String
digit n =
    if eqb n 0
    then "0"
    else if eqb n 1
    then "1"
    else if eqb n 2
    then "2"
    else if eqb n 3
    then "3"
    else if eqb n 4
    then "4"
    else if eqb n 5
    then "5"
    else if eqb n 6
    then "6"
    else if eqb n 7
    then "7"
    else if eqb n 8
    then "8"
    else "9"

-- The decimal digits of a number below 10 ^ fuel.
unfoldable pub digits : ℕ → ℕ → String
digits zero n = digit (n % 10)
digits (suc fuel) n =
    let front = digits fuel (n / 10) in if leb n 9 then digit n else front ++ digit (n % 10)

-- `str(n)`
unfoldable pub decimal : ℕ → String
unfolding digits
decimal n = digits n n

-- The fuel of `decimal` is enough: any that is at least the number gives the same digits.
pub digits_enough : (f g n : ℕ) → n ≤ f → n ≤ g → digits g n ≡ digits f n
unfolding digits
digits_enough zero zero n hf hg = refl
digits_enough zero (suc g) zero hf hg = refl
digits_enough zero (suc g) (suc n) hf hg = absurd (omega arith)
digits_enough (suc f) zero zero hf hg = refl
digits_enough (suc f) zero (suc n) hf hg = absurd (omega arith)
digits_enough (suc f) (suc g) n hf hg = elim (Bool-cases (leb n 9)) [
  | inl e ↦ rw e
  | inr e ↦ rw (e, digits_enough f g (n / 10) (ground arith) (ground arith))
]

-- `s.startswith(prefix)`
unfoldable pub starts_with : String → String → Bool
starts_with String.[] s = true
starts_with (String.◌∷◌ c prefix) String.[] = false
starts_with (String.◌∷◌ c prefix) (String.◌∷◌ d s) = eqb (code c) (code d) && starts_with prefix s

starts_with_wait : starts_with "WAIT_" "WAIT_CI" ≡ true
unfolding starts_with
starts_with_wait = refl
