-- ===== src/Password/Policy.antt =====
-- internal/middleware/password.go: which passwords the policy admits.
use deploypilot.Base.{
  ℕ, zero, suc, ◌+◌, ◌-◌, ◌*◌, ◌/◌, ◌%◌, ◌≤◌, ◌≡◌, ◌≢◌, ◌↔◌, refl, ap, ◌∙◌, Bool, true, false, not,
  ◌&&◌, List, [], ◌∷◌, ◌++◌, Text, length, length-append, Bool-cases, inl, inr, if◌then◌else◌,
  any_of, ltb, leb, ◌==◌, nat_tested, text_tested, text_beq_iff, arith, All, if_cases, ◌⊎◌,
}
use deploypilot.Password.{
  Unicode, PasswordValidator, byte_length, rune_bytes, upper_rune, lower_rune, special_rune,
  wide_rune, lowered, common_passwords, is_common_password, PasswordError, too_short, no_upper,
  no_lower, no_digit, no_special, too_common, error_if, validate, points, length_points,
  variety_points, strength_score, itoa, itoa_onto,
}

-- Some element has a property.
abbrev pub Some : (ℕ → Type 0) → Text → Type 0
Some P [] = ⊥
Some P (x ∷ xs) = P x ⊎ Some P xs

any_of_iff :
    (p : ℕ → Bool) (P : ℕ → Type 0)
    → ((c : ℕ) → (p c ≡ true) ↔ P c)
    → (s : Text) → (any_of p s ≡ true) ↔ Some P s
unfolding any_of
any_of_iff p P iff [] = (λ e. cc e, λ f. absurd f)
any_of_iff p P iff (c ∷ s) = ground (arith, iff c, any_of_iff p P iff s)

module _ (u : Unicode) where
  abbrev pub IsUpper : ℕ → Type 0
  IsUpper c = (u.is_upper c ≡ true) × (u.is_letter c ≡ true)

  abbrev pub IsLower : ℕ → Type 0
  IsLower c = (u.is_lower c ≡ true) × (u.is_letter c ≡ true)

  abbrev pub IsDigit : ℕ → Type 0
  IsDigit c = u.is_digit c ≡ true

  abbrev pub IsSpecial : ℕ → Type 0
  IsSpecial c = (u.is_punct c ≡ true) ⊎ (u.is_symbol c ≡ true)

  any_of-IsUpper : (s : Text) → (any_of (upper_rune u) s ≡ true) ↔ Some IsUpper s
  any_of-IsUpper s = any_of_iff (upper_rune u) IsUpper (λ c. ground arith) s

  any_of-IsLower : (s : Text) → (any_of (lower_rune u) s ≡ true) ↔ Some IsLower s
  any_of-IsLower s = any_of_iff (lower_rune u) IsLower (λ c. ground arith) s

  any_of-IsDigit : (s : Text) → (any_of u.is_digit s ≡ true) ↔ Some IsDigit s
  any_of-IsDigit s = any_of_iff u.is_digit IsDigit (λ c. (λ e. e, λ e. e)) s

  any_of-IsSpecial : (s : Text) → (any_of (special_rune u) s ≡ true) ↔ Some IsSpecial s
  any_of-IsSpecial s = any_of_iff (special_rune u) IsSpecial (λ c. ground arith) s

-- The bytes of a text in UTF-8.
abbrev utf8_rune : ℕ → List ℕ
utf8_rune c =
    if ltb c 0x80
    then c ∷ []
    else if ltb c 0x800
    then (0xc0 + c / 64) ∷ (0x80 + c % 64) ∷ []
    else if ltb c 0x1_0000
    then (0xe0 + c / 4096) ∷ (0x80 + c / 64 % 64) ∷ (0x80 + c % 64) ∷ []
    else (0xf0 + c / 0x4_0000)
      ∷ (0x80 + c / 4096 % 64)
      ∷ (0x80 + c / 64 % 64)
      ∷ (0x80 + c % 64)
      ∷ []

pub utf8 : Text → List ℕ
utf8 [] = []
utf8 (c ∷ s) = utf8_rune c ++ utf8 s

rune_length : (c : ℕ) → length (utf8_rune c) ≡ rune_bytes c
rune_length c = elim (Bool-cases (ltb c 0x80)) [
  | inl e ↦ rw e refl
  | inr e ↦ elim (Bool-cases (ltb c 0x800)) [
    | inl f ↦ rw (e, f) refl
    | inr f ↦ elim (Bool-cases (ltb c 0x1_0000)) [
      | inl g ↦ rw (e, f, g) refl
      | inr g ↦ rw (e, f, g) refl
    ]
  ]
]

byte_length-utf8 : (s : Text) → byte_length s ≡ length (utf8 s)
unfolding byte_length utf8
byte_length-utf8 [] = refl
byte_length-utf8 (c ∷ s) =
    omega (arith, length-append (utf8_rune c) (utf8 s), rune_length c, byte_length-utf8 s)

-- What the policy asks of a password.
pub record IsAdmitted (u : Unicode) (v : PasswordValidator) (s : Text) : Type 0 where
  pub long : v.min_len ≤ length (utf8 s)
  pub upper : v.require_upper ≡ true → Some (IsUpper u) s
  pub lower : v.require_lower ≡ true → Some (IsLower u) s
  pub digit : v.require_digit ≡ true → Some (IsDigit u) s
  pub special : v.require_special ≡ true → Some (IsSpecial u) s
  pub uncommon : All (λ p. p ≢ lowered u s) common_passwords

-- The value of decimal digits behind a number.
unfoldable pub digits_value : ℕ → Text → ℕ
digits_value n [] = n
digits_value n (c ∷ s) = digits_value (n * 10 + (c - b'0')) s

itoa_onto-value :
    (fuel n : ℕ) (s : Text) → n ≤ fuel → digits_value 0 (itoa_onto fuel n s) ≡ digits_value n s
unfolding itoa_onto digits_value
itoa_onto-value zero n s h = ap (λ m. digits_value m s) (omega (arith, h))
itoa_onto-value (suc fuel) n s h =
    if_cases (λ t. digits_value 0 t ≡ digits_value n s) (ltb 0 n) _ _
      (λ e.
        itoa_onto-value fuel (n / 10) ((b'0' + n % 10) ∷ s) (ground (arith, h, e))
        ∙ ap (λ m. digits_value m s) (omega arith))
      (λ e. ap (λ m. digits_value m s) (ground (arith, e)))

-- `itoa` ends, and writes the decimal digits of the number.
pub digits_value-itoa : (n : ℕ) → digits_value 0 (itoa n) ≡ n
unfolding itoa digits_value
digits_value-itoa n =
    if_cases (λ t. digits_value 0 t ≡ n) (n == 0) _ _ (λ e. ground (arith, e))
      (λ _. itoa_onto-value n n [] (omega arith))

points-le : (b : Bool) (n : ℕ) → points b n ≤ n
points-le true n = omega arith
points-le false n = omega arith

variety_points-le : (u : Unicode) (s : Text) → variety_points u s ≤ 40
unfolding variety_points
variety_points-le u s = omega (
  arith,
  points-le (any_of (lower_rune u) s) 8,
  points-le (any_of (upper_rune u) s) 8,
  points-le (any_of u.is_digit s) 8,
  points-le (any_of (special_rune u) s) 8,
  points-le (any_of wide_rune s) 8,
)

length_points-le : (n : ℕ) → length_points n ≤ 40
unfolding length_points
length_points-le n = omega (
  arith,
  points-le (leb 8 n) 10,
  points-le (leb 12 n) 10,
  points-le (leb 16 n) 10,
  points-le (leb 20 n) 10,
)

-- The score of a password is at most 80.
pub strength_score-le : (u : Unicode) (s : Text) → strength_score u s ≤ 80
unfolding strength_score
strength_score-le u s = omega (arith, length_points-le (byte_length s), variety_points-le u s)

error_if-nil :
    (b : Bool) (e : PasswordError) (es : List PasswordError)
    → (error_if b e ++ es ≡ []) ↔ ((b ≡ false) × (es ≡ []))
error_if-nil true e es = (λ f. cc f, λ f. cc (f.0))
error_if-nil false e es = (λ f. (refl, f), λ f. f.1)

no_match : (ps : List Text) (s : Text) → (any_of (λ p. p == s) ps ≡ false) ↔ All (λ p. p ≢ s) ps
unfolding any_of
no_match [] s = (λ _. tt, λ _. refl)
no_match (p ∷ ps) s = ground (arith, no_match ps s, text_beq_iff p s)

asked : (required met : Bool) → ((required && not met) ≡ false) ↔ (required ≡ true → met ≡ true)
asked required met = ground arith

error_if-last : (b : Bool) (e : PasswordError) → (error_if b e ≡ []) ↔ (b ≡ false)
error_if-last true e = (λ f. cc f, λ f. cc f)
error_if-last false e = (λ _. refl, λ _. refl)

-- Six rules make no error exactly if each is kept.
six_rules :
    (b1 b2 b3 b4 b5 b6 : Bool)
    → (error_if b1 too_short
          ++ (error_if b2 no_upper
              ++ (error_if b3 no_lower
                  ++ (error_if b4 no_digit ++ (error_if b5 no_special ++ error_if b6 too_common))))
        ≡ [])
      ↔ ((b1 ≡ false) × (b2 ≡ false) × (b3 ≡ false) × (b4 ≡ false) × (b5 ≡ false) × (b6 ≡ false))
six_rules true b2 b3 b4 b5 b6 = (λ f. cc f, λ f. cc (f.0))
six_rules false true b3 b4 b5 b6 = (λ f. cc f, λ f. cc (f.1))
six_rules false false true b4 b5 b6 = (λ f. cc f, λ f. cc (f.2))
six_rules false false false true b5 b6 = (λ f. cc f, λ f. cc (f.3))
six_rules false false false false true b6 = (λ f. cc f, λ f. cc (f.4))
six_rules false false false false false true = (λ f. cc f, λ f. cc (f.5))
six_rules false false false false false false =
    (λ _. (refl, refl, refl, refl, refl, refl), λ _. refl)

-- None of the tests of the six errors holds.
abbrev KeepsRules : Unicode → PasswordValidator → Text → Type 0
KeepsRules u v s =
    (ltb (byte_length s) v.min_len ≡ false)
    × ((v.require_upper && not (any_of (upper_rune u) s)) ≡ false)
    × ((v.require_lower && not (any_of (lower_rune u) s)) ≡ false)
    × ((v.require_digit && not (any_of u.is_digit s)) ≡ false)
    × ((v.require_special && not (any_of (special_rune u) s)) ≡ false)
    × (any_of (λ p. p == lowered u s) common_passwords ≡ false)

-- A policy admits a password exactly if it has as many bytes in UTF-8 as the least length, a character of
-- each class that is required (a letter in upper case, one in lower case, a digit, punctuation or a
-- symbol), and is not, in lower case, one of the common passwords.
pub validate_iff :
    (u : Unicode) (v : PasswordValidator) (s : Text) → (validate u v s ≡ []) ↔ IsAdmitted u v s
unfolding validate is_common_password
validate_iff u v s =
    let six =
      six_rules (ltb (byte_length s) v.min_len) (v.require_upper && not (any_of (upper_rune u) s))
        (v.require_lower && not (any_of (lower_rune u) s))
        (v.require_digit && not (any_of u.is_digit s))
        (v.require_special && not (any_of (special_rune u) s))
        (any_of (λ p. p == lowered u s) common_passwords) in
    (λ e. admitted (six.0 e), λ a. six.1 (kept a))
  where
    admitted : KeepsRules u v s → IsAdmitted u v s
    admitted (a, b, c, d, e, f) = record {
      long = ground (arith, a, byte_length-utf8 s);
      upper = λ r. (any_of-IsUpper u s).0 ((asked v.require_upper _).0 b r);
      lower = λ r. (any_of-IsLower u s).0 ((asked v.require_lower _).0 c r);
      digit = λ r. (any_of-IsDigit u s).0 ((asked v.require_digit _).0 d r);
      special = λ r. (any_of-IsSpecial u s).0 ((asked v.require_special _).0 e r);
      uncommon = (no_match common_passwords (lowered u s)).0 f;
    }

    kept : IsAdmitted u v s → KeepsRules u v s
    kept a = (
      ground (arith, a.long, byte_length-utf8 s),
      (asked v.require_upper _).1 (λ r. (any_of-IsUpper u s).1 (a.upper r)),
      (asked v.require_lower _).1 (λ r. (any_of-IsLower u s).1 (a.lower r)),
      (asked v.require_digit _).1 (λ r. (any_of-IsDigit u s).1 (a.digit r)),
      (asked v.require_special _).1 (λ r. (any_of-IsSpecial u s).1 (a.special r)),
      (no_match common_passwords (lowered u s)).1 a.uncommon,
    )
