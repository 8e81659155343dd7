-- ===== src/Tokens/Owner/ParseUint.antt =====
-- Go's `strconv.ParseUint(s, 0, 64)`, over the bytes of the text: the base is read from the prefix,
-- and underscores may stand between digits.
use Prim.Native.Char.{code}
use fabric_x_samples.Prelude.{
  ℕ, String, ◌≡◌, ◌<◌, arith, inl, inr, Bool-cases, ◌+◌, ◌-◌, ◌*◌, ◌^◌, Bool, true, false, ◌&&◌,
  ◌||◌, not, Option, none, some, List, [], ◌∷◌, nat_eq, leb, ltb, if◌then◌else◌,
}

-- The bytes of an ASCII text.
abbrev pub codes : String → List ℕ
codes String.[] = []
codes (String.◌∷◌ c s) = code c ∷ codes s

abbrev is_between : ℕ → ℕ → ℕ → Bool
is_between lo hi c = leb lo c && leb c hi

-- `c | ('x' - 'X')` of a letter
abbrev lower : ℕ → ℕ
lower c = if is_between b'A' b'Z' c then c + 32 else c

abbrev pub Base : Type 0
Base = ℕ × List ℕ

-- The base and the digits that follow its prefix.
abbrev prefixed : ℕ → List ℕ → List ℕ → Base
prefixed c rest octal =
    if nat_eq (lower c) b'b'
    then (2, rest)
    else if nat_eq (lower c) b'o'
    then (8, rest)
    else if nat_eq (lower c) b'x'
    then (16, rest)
    else (8, octal)

abbrev split_base : List ℕ → Base
split_base [] = (10, [])
split_base (z ∷ []) = if nat_eq z b'0' then (8, []) else (10, z ∷ [])
split_base (z ∷ c ∷ []) = if nat_eq z b'0' then (8, c ∷ []) else (10, z ∷ c ∷ [])
split_base (z ∷ c ∷ d ∷ rest) =
    if nat_eq z b'0' then prefixed c (d ∷ rest) (c ∷ d ∷ rest) else (10, z ∷ c ∷ d ∷ rest)

abbrev digit_of : ℕ → Option ℕ
digit_of c =
    if is_between b'0' b'9' c
    then some (c - b'0')
    else if is_between b'a' b'z' (lower c)
    then some (lower c - b'a' + 10)
    else none

-- One digit: refused outside of the base, and out of range at 2 ^ 64.
abbrev add_digit : ℕ → ℕ → ℕ → Option ℕ
add_digit base n d =
    if leb base d then none else if ltb (n * base + d) (2 ^ 64) then some (n * base + d) else none

abbrev add : ℕ → Option ℕ → Option ℕ → Option ℕ
add base none d = none
add base (some n) none = none
add base (some n) (some d) = add_digit base n d

-- The loop over the digits, over what was read so far; an error stays one.
digits : ℕ → List ℕ → Option ℕ → Option ℕ
digits base [] acc = acc
digits base (c ∷ rest) acc =
    digits base rest (if nat_eq c b'_' then acc else add base acc (digit_of c))

-- `underscoreOK`: what the last byte was, and what may follow it.
pub data Seen : Type 0 where
  start digit underscore other : Seen

abbrev is_digit : Bool → ℕ → Bool
is_digit hex c = is_between b'0' b'9' c || hex && is_between b'a' b'f' (lower c)

abbrev sees_underscore : Seen → Bool
sees_underscore underscore = true
sees_underscore start = false
sees_underscore digit = false
sees_underscore other = false

abbrev sees_digit : Seen → Bool
sees_digit digit = true
sees_digit start = false
sees_digit underscore = false
sees_digit other = false

underscores : Bool → List ℕ → Seen → Bool
underscores hex [] seen = not (sees_underscore seen)
underscores hex (c ∷ rest) seen =
    let after_digit = underscores hex rest digit in
    let after_underscore = underscores hex rest underscore in
    let after_other = underscores hex rest other in
    if is_digit hex c
    then after_digit
    else if nat_eq c b'_'
    then (if sees_digit seen then after_underscore else false)
    else if sees_underscore seen
    then false
    else after_other

abbrev has_base : ℕ → Bool
has_base c = nat_eq (lower c) b'b' || nat_eq (lower c) b'o' || nat_eq (lower c) b'x'

-- A sign, which `ParseUint` refuses anyway, is not looked at.
underscore_ok : List ℕ → Bool
unfolding underscores
underscore_ok [] = underscores false [] start
underscore_ok (z ∷ []) = underscores false (z ∷ []) start
underscore_ok (z ∷ c ∷ rest) =
    if nat_eq z b'0' && has_base c
    then underscores (nat_eq (lower c) b'x') rest digit
    else underscores false (z ∷ c ∷ rest) start

-- `none` is an error, whichever.
parse_codes : List ℕ → Option ℕ
unfolding digits underscore_ok
parse_codes [] = none
parse_codes (c ∷ rest) =
    let (base, ds) = split_base (c ∷ rest) in
    if underscore_ok (c ∷ rest) then digits base ds (some 0) else none

unfoldable pub parse_uint : String → Option ℕ
unfolding parse_codes
parse_uint s = parse_codes (codes s)

abbrev Fits : Option ℕ → Type 0
Fits none = Unit
Fits (some n) = n < 2 ^ 64

add-Fits : (base : ℕ) (acc d : Option ℕ) → Fits (add base acc d)
add-Fits base none d = tt
add-Fits base (some n) none = tt
add-Fits base (some n) (some d) = ground arith

digits-Fits : (base : ℕ) (ds : List ℕ) (acc : Option ℕ) → Fits acc → Fits (digits base ds acc)
unfolding digits
digits-Fits base [] acc h = h
digits-Fits base (c ∷ rest) acc h = elim (Bool-cases (nat_eq c b'_')) [
  | inl e ↦ rw e (digits-Fits base rest acc h)
  | inr e ↦ rw e (digits-Fits base rest _ (add-Fits base acc (digit_of c)))
]

parse_codes-Fits : (cs : List ℕ) → Fits (parse_codes cs)
unfolding parse_codes
parse_codes-Fits [] = tt
parse_codes-Fits (c ∷ rest) = elim (Bool-cases (underscore_ok (c ∷ rest))) [
  | inl e ↦
      rw e (digits-Fits (split_base (c ∷ rest)).0 (split_base (c ∷ rest)).1 (some 0) (omega arith))
  | inr e ↦ rw e tt
]

-- What is read fits in a uint64.
pub parse_uint-lt : (s : String) {n : ℕ} → parse_uint s ≡ some n → n < 2 ^ 64
unfolding parse_uint
parse_uint-lt s e = ground (arith, parse_codes-Fits (codes s))
