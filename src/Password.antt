-- ===== src/Password.antt =====
-- internal/middleware/password.go. A password is a text of code points. The tables of the package
-- unicode are a parameter, and so is the parsing of a time.
pub mod Policy
mod Tests
use deploypilot.Base.{
  ℕ, zero, suc, ◌+◌, ◌-◌, ◌*◌, ◌/◌, ◌%◌, Bool, true, false, not, ◌&&◌, ◌||◌, List, [], ◌∷◌, ◌++◌,
  map, Option, none, some, Text, codes, is_empty, any_of, ltb, leb, if◌then◌else◌, ◌==◌, nat_tested,
  text_tested,
}
use mathlib.Core.List.{reverse}

pub record Unicode : Type 0 where
  pub is_upper : ℕ → Bool
  pub is_lower : ℕ → Bool
  pub is_letter : ℕ → Bool
  pub is_digit : ℕ → Bool
  pub is_punct : ℕ → Bool
  pub is_symbol : ℕ → Bool
  pub to_lower : ℕ → ℕ

pub record SecurityConfig : Type 0 where
  pub password_min_len : ℕ
  pub require_upper : Bool
  pub require_lower : Bool
  pub require_digit : Bool
  pub require_special : Bool

pub record PasswordValidator : Type 0 where
  pub min_len : ℕ
  pub require_upper : Bool
  pub require_lower : Bool
  pub require_digit : Bool
  pub require_special : Bool

-- `NewPasswordValidator`
unfoldable pub new_password_validator : SecurityConfig → PasswordValidator
new_password_validator cfg = record {
  min_len = if ltb cfg.password_min_len 8 then 8 else cfg.password_min_len;
  require_upper = cfg.require_upper;
  require_lower = cfg.require_lower;
  require_digit = cfg.require_digit;
  require_special = cfg.require_special;
}

abbrev pub rune_bytes : ℕ → ℕ
rune_bytes c = if ltb c 0x80 then 1 else if ltb c 0x800 then 2 else if ltb c 0x1_0000 then 3 else 4

-- `len(s)`, in bytes of UTF-8.
unfoldable pub byte_length : Text → ℕ
byte_length [] = 0
byte_length (c ∷ s) = rune_bytes c + byte_length s

-- The tests of a rune in `hasUpper` to `hasUnicode`.
abbrev pub upper_rune : Unicode → ℕ → Bool
upper_rune u r = u.is_upper r && u.is_letter r

abbrev pub lower_rune : Unicode → ℕ → Bool
lower_rune u r = u.is_lower r && u.is_letter r

abbrev pub special_rune : Unicode → ℕ → Bool
special_rune u r = u.is_punct r || u.is_symbol r

abbrev pub wide_rune : ℕ → Bool
wide_rune r = ltb 127 r

-- `strings.ToLower`
abbrev pub lowered : Unicode → Text → Text
lowered u s = map u.to_lower s

abbrev pub common_passwords : List Text
common_passwords =
    codes "password"
    ∷ codes "123456"
    ∷ codes "12345678"
    ∷ codes "qwerty"
    ∷ codes "abc123"
    ∷ codes "monkey"
    ∷ codes "master"
    ∷ codes "dragon"
    ∷ codes "login"
    ∷ codes "princess"
    ∷ codes "football"
    ∷ codes "shadow"
    ∷ codes "sunshine"
    ∷ codes "trustno1"
    ∷ codes "iloveyou"
    ∷ codes "batman"
    ∷ codes "access"
    ∷ codes "hello"
    ∷ codes "charlie"
    ∷ codes "donald"
    ∷ codes "123456789"
    ∷ codes "1234567890"
    ∷ codes "password1"
    ∷ codes "qwerty123"
    ∷ codes "admin"
    ∷ codes "root"
    ∷ codes "toor"
    ∷ codes "pass"
    ∷ codes "test"
    ∷ codes "deploypilot"
    ∷ codes "deploy"
    ∷ codes "pilot"
    ∷ []

-- `isCommonPassword`
unfoldable pub is_common_password : Unicode → Text → Bool
is_common_password u s = any_of (λ p. p == lowered u s) common_passwords

pub data PasswordError : Type 0 where
  too_short no_upper no_lower no_digit no_special too_common : PasswordError

abbrev pub error_if : Bool → PasswordError → List PasswordError
error_if true e = e ∷ []
error_if false e = []

-- `Validate`: the errors, in order; none stand for nil.
unfoldable pub validate : Unicode → PasswordValidator → Text → List PasswordError
unfolding byte_length is_common_password
validate u v s =
    error_if (ltb (byte_length s) v.min_len) too_short
    ++ (error_if (v.require_upper && not (any_of (upper_rune u) s)) no_upper
        ++ (error_if (v.require_lower && not (any_of (lower_rune u) s)) no_lower
            ++ (error_if (v.require_digit && not (any_of u.is_digit s)) no_digit
                ++ (error_if (v.require_special && not (any_of (special_rune u) s)) no_special
                    ++ error_if (is_common_password u s) too_common))))

-- `strings.HasPrefix` and `strings.Contains` of a text.
unfoldable pub starts : Text → Text → Bool
starts [] s = true
starts (c ∷ p) [] = false
starts (c ∷ p) (d ∷ s) = c == d && starts p s

unfoldable pub contains : Text → Text → Bool
unfolding starts
contains [] p = starts p []
contains (c ∷ s) p = starts p (c ∷ s) || contains s p

-- The loop of `isSequential`; `reverseString` reverses the runes.
unfoldable pub in_sequence : List Text → Text → Bool
unfolding contains
in_sequence [] lower = false
in_sequence (seq ∷ seqs) lower =
    contains seq lower || contains (reverse seq) lower || in_sequence seqs lower

-- `isSequential`
unfoldable pub is_sequential : Unicode → Text → Bool
unfolding in_sequence
is_sequential u s =
    in_sequence
      (codes "abcdefghijklmnopqrstuvwxyz"
        ∷ codes "01234567890"
        ∷ codes "qwertyuiop"
        ∷ codes "asdfghjkl"
        ∷ codes "zxcvbnm"
        ∷ [])
      (lowered u s)

-- The loop of `isRepeating`.
unfoldable pub three_in_row : Text → Bool
three_in_row (a ∷ b ∷ c ∷ s) = (a == b && b == c) || three_in_row (b ∷ c ∷ s)
three_in_row s = false

-- `isRepeating`
unfoldable pub is_repeating : Text → Bool
unfolding three_in_row byte_length
is_repeating s = if ltb (byte_length s) 3 then false else three_in_row s

abbrev pub points : Bool → ℕ → ℕ
points true n = n
points false n = 0

-- The points for the length, and for the variety of the characters.
unfoldable pub length_points : ℕ → ℕ
length_points n =
    points (leb 8 n) 10 + points (leb 12 n) 10 + points (leb 16 n) 10 + points (leb 20 n) 10

unfoldable pub variety_points : Unicode → Text → ℕ
variety_points u s =
    points (any_of (lower_rune u) s) 8
    + points (any_of (upper_rune u) s) 8
    + points (any_of u.is_digit s) 8
    + points (any_of (special_rune u) s) 8
    + points (any_of wide_rune s) 8

-- `StrengthScore`. What the penalties would take below 0 is set to 0 at the end, and nothing is added
-- after them, so that the subtractions may stop at 0.
unfoldable pub strength_score : Unicode → Text → ℕ
unfolding byte_length length_points variety_points is_sequential is_repeating is_common_password
strength_score u s =
    length_points (byte_length s)
    + variety_points u s
    - points (is_sequential u s) 10
    - points (is_repeating s) 10
    - points (is_common_password u s) 20

-- The loop of `itoa`; the number is fuel enough.
unfoldable pub itoa_onto : ℕ → ℕ → Text → Text
itoa_onto zero n s = s
itoa_onto (suc fuel) n s =
    let more = itoa_onto fuel (n / 10) ((b'0' + n % 10) ∷ s) in if ltb 0 n then more else s

-- `itoa`
unfoldable pub itoa : ℕ → Text
unfolding itoa_onto
itoa n = if n == 0 then codes "0" else itoa_onto n n []

-- A day in nanoseconds.
abbrev pub day : ℕ
day = 86_400_000_000_000

expired_since : Option ℕ → ℕ → ℕ → Bool
expired_since none days now = true
expired_since (some changed) days now = ltb (days * day) (now - changed)

-- `CheckPasswordExpired`: whether it is an error. A limit that is not positive is 0, and a change in
-- the future is none ago.
pub check_password_expired : (Text → Option ℕ) → Text → ℕ → ℕ → Bool
unfolding expired_since
check_password_expired parse_time changed_at days now =
    if days == 0
    then false
    else if is_empty changed_at
    then true
    else expired_since (parse_time changed_at) days now
