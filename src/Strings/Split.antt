-- ===== src/Strings/Split.antt =====
-- Splitting a joined text.
use deploypilot.Base.{
  ℕ, false, ◌≡◌, ◌≢◌, refl, ap, List, [], ◌∷◌, ◌++◌, Text, All, join, nat_tested, arith,
}
use deploypilot.Strings.{split, split_on, is_space, trim_left, trim_space}
use mathlib.Core.List.{reverse, reverse-cons, reverse-reverse}

abbrev pub Lacks : ℕ → Text → Type 0
Lacks sep s = All (λ c. c ≢ sep) s

split_on_part :
    (sep : ℕ) (p s : Text)
    → Lacks sep p
    → split_on sep (p ++ sep ∷ s) ≡ (p, (split_on sep s).0 ∷ (split_on sep s).1)
unfolding split_on
split_on_part sep [] s h = ground arith
split_on_part sep (c ∷ p) s h = ground (arith, split_on_part sep p s h.1)

split_on_last : (sep : ℕ) (p : Text) → Lacks sep p → split_on sep p ≡ (p, [])
unfolding split_on
split_on_last sep [] h = refl
split_on_last sep (c ∷ p) h = ground (arith, split_on_last sep p h.1)

-- The parts that a separator joins come back from the split, if none of them holds it.
pub split-join :
    (sep : ℕ) (p : Text) (ps : List Text)
    → All (Lacks sep) (p ∷ ps)
    → split (join (sep ∷ []) (p ∷ ps)) sep ≡ p ∷ ps
unfolding split join
split-join sep p [] h = rw (split_on_last sep p h.0)
split-join sep p (q ∷ qs) h =
    rw (split_on_part sep p (join (sep ∷ []) (q ∷ qs)) h.0) (ap (◌∷◌ p) (split-join sep q qs h.1))

-- A text with no blank is its own trimming.
abbrev pub IsClean : Text → Type 0
IsClean s = All (λ c. is_space c ≡ false) s

pub append-IsClean : (xs ys : Text) → IsClean xs → IsClean ys → IsClean (xs ++ ys)
append-IsClean [] ys h k = k
append-IsClean (x ∷ xs) ys h k = (h.0, append-IsClean xs ys h.1 k)

reverse-IsClean : (s : Text) → IsClean s → IsClean (reverse s)
reverse-IsClean [] h = h
reverse-IsClean (c ∷ s) h =
    rw (reverse-cons c s) (append-IsClean (reverse s) (c ∷ []) (reverse-IsClean s h.1) (h.0, tt))

trim_left-clean : (s : Text) → IsClean s → trim_left s ≡ s
unfolding trim_left
trim_left-clean [] h = refl
trim_left-clean (c ∷ s) h = rw (h.0) refl

pub trim_space-clean : (s : Text) → IsClean s → trim_space s ≡ s
unfolding trim_space
trim_space-clean s h =
    rw (trim_left-clean s h, trim_left-clean (reverse s) (reverse-IsClean s h)) (reverse-reverse s)

pub append-Lacks : (sep : ℕ) (xs ys : Text) → Lacks sep xs → Lacks sep ys → Lacks sep (xs ++ ys)
append-Lacks sep [] ys h k = k
append-Lacks sep (x ∷ xs) ys h k = (h.0, append-Lacks sep xs ys h.1 k)
