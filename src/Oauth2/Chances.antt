-- ===== src/Oauth2/Chances.antt =====
-- internal/service/oauth2_service.go: how often a code may still be redeemed.
use deploypilot.Base.{
  ℕ, ◌+◌, ◌≤◌, ◌≡◌, refl, subst, Bool, true, false, ◌||◌, List, [], ◌∷◌, some, String,
  if◌then◌else◌, arith, Bool-cases, inl, inr, ◌==◌, string_tested, any_of, count_if, str_eq_refl,
}
use deploypilot.Oauth2.Store.{Authorization, find_first, update_rows}
use deploypilot.Oauth2.Grants.{is_open_code}

unfoldable pub has_code : String → List Authorization → Bool
has_code code rows = any_of (λ a. a.code == code) rows

unfoldable pub open_codes : String → List Authorization → ℕ
open_codes code rows = count_if (is_open_code code) rows

-- How often a code may still be redeemed: as often as it stands unused, or once if it may yet be issued.
unfoldable pub chance : String → List Authorization → ℕ
chance code rows = if has_code code rows then open_codes code rows else 1

unfoldable pub mark : Authorization → Authorization
mark a = record a { used = true }

unfoldable pub marked : String → List Authorization → List Authorization
marked id rows = update_rows (λ a. a.id == id) mark rows

module _ (code id : String) where
  has_code-marked :
      (rows : List Authorization) → has_code code (marked id rows) ≡ has_code code rows
  unfolding has_code any_of update_rows marked mark
  has_code-marked [] = refl
  has_code-marked (a ∷ rows) = ground (arith, has_code-marked rows)

  open_codes-marked-le :
      (rows : List Authorization) → open_codes code (marked id rows) ≤ open_codes code rows
  unfolding open_codes count_if update_rows marked mark
  open_codes-marked-le [] = omega arith
  open_codes-marked-le (a ∷ rows) = ground (arith, open_codes-marked-le rows)

  pub chance-marked-le :
      (rows : List Authorization) → chance code (marked id rows) ≤ chance code rows
  unfolding chance
  chance-marked-le rows = rw (has_code-marked rows) (ground (arith, open_codes-marked-le rows))

first_marked :
    (code : String) (x : Authorization) (rows : List Authorization)
    → is_open_code code x ≡ true
    → open_codes code (marked x.id (x ∷ rows)) + 1 ≤ open_codes code (x ∷ rows)
unfolding open_codes count_if update_rows marked mark
first_marked code x rows e =
    ground (arith, e, str_eq_refl x.id, open_codes-marked-le code x.id rows)

open_codes-marked-lt :
    (code : String) (rows : List Authorization) (a : Authorization)
    → find_first (is_open_code code) rows ≡ some a
    → open_codes code (marked a.id rows) + 1 ≤ open_codes code rows
unfolding open_codes count_if update_rows marked mark find_first
open_codes-marked-lt code [] a h = cc h
open_codes-marked-lt code (x ∷ rows) a h = elim (Bool-cases (is_open_code code x)) [
  | inl e ↦
      subst
        (λ (b : Authorization).
          open_codes code (marked b.id (x ∷ rows)) + 1 ≤ open_codes code (x ∷ rows))
        (let same : x ≡ a = ground (arith, h, e) in same) (first_marked code x rows e)
  | inr e ↦ ground (arith, e, open_codes-marked-lt code rows a (ground (arith, h, e)))
]

has_code-found :
    (code : String) (rows : List Authorization) (a : Authorization)
    → find_first (is_open_code code) rows ≡ some a
    → has_code code rows ≡ true
unfolding has_code any_of find_first
has_code-found code [] a h = cc h
has_code-found code (x ∷ rows) a h = ground (arith, h, has_code-found code rows a)

pub chance-marked-lt :
    (code : String) (rows : List Authorization) (a : Authorization)
    → find_first (is_open_code code) rows ≡ some a
    → chance code (marked a.id rows) + 1 ≤ chance code rows
unfolding chance
chance-marked-lt code rows a h =
    rw (has_code-marked code a.id rows, has_code-found code rows a h)
      (open_codes-marked-lt code rows a h)

open_codes-none :
    (code : String) (rows : List Authorization)
    → has_code code rows ≡ false
    → open_codes code rows ≡ 0
unfolding has_code any_of open_codes count_if
open_codes-none code [] h = refl
open_codes-none code (x ∷ rows) h = ground (arith, h, open_codes-none code rows)

has_code-clash :
    (a : Authorization) (rows : List Authorization)
    → any_of (λ r. r.id == a.id || r.code == a.code) rows ≡ false
    → has_code a.code rows ≡ false
unfolding has_code any_of
has_code-clash a [] h = refl
has_code-clash a (x ∷ rows) h = ground (arith, h, has_code-clash a rows)

-- A new code that clashes with none takes the place of the chance to be issued.
pub chance-cons-le :
    (code : String) (a : Authorization) (rows : List Authorization)
    → a.used ≡ false
    → any_of (λ r. r.id == a.id || r.code == a.code) rows ≡ false
    → chance code (a ∷ rows) ≤ chance code rows
unfolding chance has_code any_of open_codes count_if
chance-cons-le code a rows u clash = elim (Bool-cases (a.code == code)) [
  | inl same ↦
      let none_before =
        subst (λ k. has_code k rows ≡ false) ((string_tested.same_iff a.code code).0 same)
          (has_code-clash a rows clash) in
      ground (arith, same, u, none_before, open_codes-none code rows none_before)
  | inr other ↦ ground (arith, other)
]
