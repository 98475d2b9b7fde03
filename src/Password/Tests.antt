-- ===== src/Password/Tests.antt =====
-- Concrete passwords.
use deploypilot.Base.{
  ℕ, ◌≡◌, ◌↔◌, ◌≤◌, ◌+◌, ◌||◌, ◌&&◌, refl, Bool, true, false, [], ◌∷◌, codes, ltb, leb,
  if◌then◌else◌,
}
use deploypilot.Password.{
  Unicode, PasswordValidator, new_password_validator, validate, too_short, no_digit, too_common,
  byte_length, is_common_password,
}
use deploypilot.Password.Policy.{IsAdmitted, validate_iff}

-- The tables of the package unicode for ASCII.
abbrev within : ℕ → ℕ → ℕ → Bool
within low high c = leb low c && leb c high

abbrev ascii : Unicode
ascii = record {
  is_upper = within b'A' b'Z';
  is_lower = within b'a' b'z';
  is_letter = λ c. within b'A' b'Z' c || within b'a' b'z' c;
  is_digit = within b'0' b'9';
  is_punct = within 33 47;
  is_symbol = within 58 64;
  to_lower = λ c. if within b'A' b'Z' c then c + 32 else c;
}

abbrev strict : PasswordValidator
unfolding new_password_validator
strict = new_password_validator (record {
  password_min_len = 4;
  require_upper = true;
  require_lower = true;
  require_digit = true;
  require_special = false;
})

admiral : validate ascii strict (codes "Admin") ≡ too_short ∷ no_digit ∷ too_common ∷ []
unfolding validate strict byte_length is_common_password deploypilot.Base.any_of
    deploypilot.Base.text_beq
admiral = refl

validate_iff_example :
    (validate ascii strict (codes "Harbour77") ≡ []) ↔ IsAdmitted ascii strict (codes "Harbour77")
validate_iff_example = validate_iff ascii strict (codes "Harbour77")
