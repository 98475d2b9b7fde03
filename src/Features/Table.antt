-- ===== src/Features/Table.antt =====
-- internal/service/feature_flag_service.go: the rows of the flags, each under its own key.
use deploypilot.Base.{
  ◌≡◌, refl, sym, ◌∙◌, subst, Bool, true, false, not, ◌&&◌, List, [], ◌∷◌, none, some, String, Dict,
  lookup, insert, lookup-insert, values, if_cases, ◌==◌, string_tested, arith, Bool-cases, inl, inr,
  any_of, str_eq_ne, str_ne,
}
use deploypilot.License.Data.{has_feature}
use deploypilot.Features.{FeatureFlag, by_key, or_read}
use deploypilot.Features.Changes.{seed, default_flag}

-- Each row stands under its own key, and no other row does.
unfoldable pub IsTable : Dict FeatureFlag → Type 0
IsTable [] = Unit
IsTable ((k, f) ∷ rows) = (f.key ≡ k) × (lookup k rows ≡ none) × IsTable rows

other_way : (j k : String) → (j == k) ≡ false → (k == j) ≡ false
other_way j k h = str_eq_ne k j (λ e. str_ne j k h (sym e))

pub insert-IsTable :
    (k : String) (f : FeatureFlag) (rows : Dict FeatureFlag)
    → f.key ≡ k
    → IsTable rows
    → IsTable (insert k f rows)
unfolding IsTable insert lookup
insert-IsTable k f [] e t = (e, refl, tt)
insert-IsTable k f ((j, g) ∷ rows) e t =
    if_cases IsTable (j == k) ((k, f) ∷ rows) ((j, g) ∷ insert k f rows)
      (λ same.
        (e, subst (λ i. lookup i rows ≡ none) ((string_tested.same_iff j k).0 same) t.1, t.2))
      (λ other. (
        t.0,
        (rw (lookup-insert k j f rows, other_way j k other) t.1),
        insert-IsTable k f rows e t.2,
      ))

pub lookup-by_key :
    (k : String) (acc rows : Dict FeatureFlag)
    → IsTable rows
    → lookup k (by_key acc (values rows)) ≡ or_read true (lookup k rows) (lookup k acc)
unfolding IsTable by_key values lookup
lookup-by_key k acc [] t = refl
lookup-by_key k acc ((j, g) ∷ rows) t =
    lookup-by_key k (insert g.key g acc) rows t.2
    ∙ rw (lookup-insert g.key k g acc, t.0)
        (elim (Bool-cases (j == k)) [
          | inl same ↦
              let gone : lookup k rows ≡ none =
                subst (λ i. lookup i rows ≡ none) ((string_tested.same_iff j k).0 same) t.1 in
              rw (same, gone)
          | inr other ↦ rw other
        ])

unfoldable pub distinct : List String → Bool
distinct [] = true
distinct (f ∷ fs) = not (has_feature fs f) && distinct fs

lookup-seed : (k : String) (fs : List String) → has_feature fs k ≡ false → lookup k (seed fs) ≡ none
unfolding seed lookup has_feature any_of
lookup-seed k [] h = refl
lookup-seed k (f ∷ fs) h = ground (arith, h, lookup-seed k fs)

pub seed-IsTable : (fs : List String) → distinct fs ≡ true → IsTable (seed fs)
unfolding seed IsTable distinct default_flag
seed-IsTable [] h = tt
seed-IsTable (f ∷ fs) h =
    (refl, lookup-seed f fs (ground (arith, h)), seed-IsTable fs (ground (arith, h)))

-- The key of a row that is found.
pub key_of :
    (k : String) (f : FeatureFlag) (rows : Dict FeatureFlag)
    → IsTable rows
    → lookup k rows ≡ some f
    → f.key ≡ k
unfolding IsTable lookup
key_of k f [] t e = cc e
key_of k f ((j, g) ∷ rows) t e = elim (Bool-cases (j == k)) [
  | inl same ↦
      subst (λ (x : FeatureFlag). x.key ≡ k) (let is : g ≡ f = ground (arith, e, same) in is)
        (t.0 ∙ (string_tested.same_iff j k).0 same)
  | inr other ↦ key_of k f rows t.2 (ground (arith, e, other))
]
