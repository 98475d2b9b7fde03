-- ===== src/Strings.antt =====
-- What the program uses of Go's packages strings, strconv and unicode, on lists of code points.
pub mod Split
mod Tests
use deploypilot.Base.{
  ℕ, zero, suc, ◌+◌, ◌*◌, ◌/◌, ◌%◌, ◌-◌, ◌^◌, Bool, true, false, ◌||◌, ◌&&◌, List, [], ◌∷◌, ◌++◌,
  Option, none, some, Text, ltb, leb, ◌==◌, nat_tested, if◌then◌else◌,
}
use mathlib.Core.List.{reverse}

-- `unicode.IsSpace`
unfoldable pub is_space : ℕ → Bool
is_space c =
    (leb 9 c && leb c 13)
    || c == 32
    || c == 0x85
    || c == 0xA0
    || c == 0x1680
    || (leb 0x2000 c && leb c 0x200a)
    || c == 0x2028
    || c == 0x2029
    || c == 0x202f
    || c == 0x205f
    || c == 0x3000

trim_left : Text → Text
trim_left [] = []
trim_left (c ∷ s) = let rest = trim_left s in if is_space c then rest else c ∷ s

-- `strings.TrimSpace`
unfoldable pub trim_space : Text → Text
unfolding trim_left is_space
trim_space s = reverse (trim_left (reverse (trim_left s)))

-- The first part of a split, and the others.
unfoldable pub split_on : ℕ → Text → Text × List Text
split_on sep [] = ([], [])
split_on sep (c ∷ s) =
    let (p, ps) = split_on sep s in if c == sep then ([], p ∷ ps) else (c ∷ p, ps)

-- `strings.Split` by one character.
unfoldable pub split : Text → ℕ → List Text
unfolding split_on
split s sep = let (p, ps) = split_on sep s in p ∷ ps

-- `strings.TrimPrefix` by one character.
unfoldable pub trim_prefix : ℕ → Text → Text
trim_prefix p [] = []
trim_prefix p (c ∷ s) = if c == p then s else c ∷ s

-- A Go int: `negsuc n` is -(n + 1).
pub data ℤ : Type 0 where
  pos : ℕ → ℤ
  negsuc : ℕ → ℤ

abbrev max_uint64 : ℕ
max_uint64 = 0xffff_ffff_ffff_ffff

-- The loop of `strconv.ParseUint`: `none` for a syntax error; a value out of range stops the loop.
scan_digits : ℕ → Text → Option ℕ
scan_digits n [] = some n
scan_digits n (c ∷ s) =
    let rest = scan_digits (n * 10 + (c - b'0')) s in
    if leb b'0' c && leb c b'9'
    then (if ltb max_uint64 (n * 10 + (c - b'0')) then some max_uint64 else rest)
    else none

parse_digits : Text → Option ℕ
unfolding scan_digits
parse_digits [] = none
parse_digits (c ∷ s) = scan_digits 0 (c ∷ s)

to_int64 : Bool → Option ℕ → ℤ
to_int64 negative none = pos 0
to_int64 false (some n) = pos (if ltb n (2 ^ 63) then n else 2 ^ 63 - 1)
to_int64 true (some n) =
    if n == 0 then pos 0 else negsuc (if ltb (2 ^ 63) n then 2 ^ 63 - 1 else n - 1)

-- The value of `strconv.Atoi`, its error ignored.
unfoldable pub atoi : Text → ℤ
unfolding parse_digits to_int64
atoi [] = pos 0
atoi (c ∷ s) =
    if c == b'-'
    then to_int64 true (parse_digits s)
    else if c == b'+'
    then to_int64 false (parse_digits s)
    else to_int64 false (parse_digits (c ∷ s))

positive_int : Option ℕ → Option ℤ
positive_int none = none
positive_int (some n) = if ltb n (2 ^ 63) then some (pos n) else none

negative_int : Option ℕ → Option ℤ
negative_int none = none
negative_int (some n) =
    if n == 0 then some (pos 0) else if ltb (2 ^ 63) n then none else some (negsuc (n - 1))

-- `strconv.Atoi`, where none stands for its error.
unfoldable pub parse_int : Text → Option ℤ
unfolding parse_digits positive_int negative_int
parse_int [] = none
parse_int (c ∷ s) =
    if c == b'-'
    then negative_int (parse_digits s)
    else if c == b'+'
    then positive_int (parse_digits s)
    else positive_int (parse_digits (c ∷ s))

-- The decimal digits of a number above 0 before `out`; the fuel bounds the number itself.
decimal_onto : ℕ → ℕ → Text → Text
decimal_onto zero n out = out
decimal_onto (suc f) n out =
    let more = decimal_onto f (n / 10) ((b'0' + n % 10) ∷ out) in if n == 0 then out else more

-- `%d` of a number that is not negative.
unfoldable pub decimal : ℕ → Text
unfolding decimal_onto
decimal n = if n == 0 then b'0' ∷ [] else decimal_onto n n []

-- `strings.ToLower`, for a text that is then compared with one of ASCII letters other than k and s
-- (to which alone characters beyond ASCII lower).
unfoldable pub to_lower : Text → Text
to_lower [] = []
to_lower (c ∷ s) = (if leb b'A' c && leb c b'Z' then c + 32 else c) ∷ to_lower s
