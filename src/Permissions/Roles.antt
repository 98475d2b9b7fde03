-- ===== src/Permissions/Roles.antt =====
-- internal/mcp/permissions.go: the roles are ranked, and an unknown tool or role is refused.
use deploypilot.Base.{
  ℕ, ◌≤◌, ◌≡◌, ◌↔◌, refl, Bool, true, Option, none, some, [], ◌∷◌, String, Dict, lookup, values,
  all_of, ◌&&◌, leb, string_tested, arith,
}
use deploypilot.Permissions.{
  tool_permissions, role_levels, required_role_name, permits, check_permission,
}

permits_iff :
    (o p : Option ℕ)
    → (permits o p ≡ true)
      ↔ ((required : ℕ) × (level : ℕ) × (o ≡ some required) × (p ≡ some level) × (required ≤ level))
unfolding permits
permits_iff none p = (λ h. absurd (ground (arith, h)), λ h. absurd (ground (arith, h.2)))
permits_iff (some r) none = (λ h. absurd (ground (arith, h)), λ h. absurd (ground (arith, h.3)))
permits_iff (some r) (some l) =
    (λ h. (r, l, refl, refl, ground (arith, h)), λ h. ground (arith, h.2, h.3, h.4))

-- A call is allowed exactly for a tool of the table and a role whose level is at least the tool's: an
-- unknown tool is refused to every role, and an unknown role every tool.
pub check_permission_iff :
    (tool role : String)
    → (check_permission tool role ≡ true) ↔ (
        (required : ℕ) × (level : ℕ) × (lookup tool tool_permissions ≡ some required)
        × (lookup role role_levels ≡ some level)
        × (required ≤ level))
unfolding check_permission
check_permission_iff tool role =
    permits_iff (lookup tool tool_permissions) (lookup role role_levels)

ranked : ℕ → Bool
ranked n = leb 1 n && leb n 4

ranked-le : (n : ℕ) → ranked n ≡ true → n ≤ 4
unfolding ranked
ranked-le n h = ground (arith, h)

lookup-ranked :
    (key : String) (n : ℕ) (table : Dict ℕ)
    → all_of ranked (values table) ≡ true
    → lookup key table ≡ some n
    → ranked n ≡ true
unfolding lookup values all_of
lookup-ranked key n [] h e = absurd (ground (arith, e))
lookup-ranked key n ((k, v) ∷ rest) h e = ground (arith, lookup-ranked key n rest, h, e)

tools_ranked : all_of ranked (values tool_permissions) ≡ true
unfolding all_of ranked values tool_permissions
tools_ranked = refl

levels :
    (lookup "viewer" role_levels ≡ some 1)
    × (lookup "dev" role_levels ≡ some 2)
    × (lookup "admin" role_levels ≡ some 3)
    × (lookup "owner" role_levels ≡ some 4)
unfolding lookup role_levels
levels = (refl, refl, refl, refl)

lookup-required_role_name :
    (n : ℕ) → ranked n ≡ true → lookup (required_role_name n) role_levels ≡ some n
unfolding ranked required_role_name
lookup-required_role_name n h = ground (arith, levels.0, levels.1, levels.2, levels.3, h)

-- The role that a refusal names for a tool may call it: for each tool of the table, the role of
-- `RequiredRoleName` exists and passes, and so does the owner.
pub check_permission-required_role_name :
    (tool : String) (n : ℕ)
    → lookup tool tool_permissions ≡ some n
    → (check_permission tool (required_role_name n) ≡ true) × (check_permission tool "owner" ≡ true)
unfolding check_permission permits
check_permission-required_role_name tool n e =
    let r = lookup-ranked tool n tool_permissions tools_ranked e in
    let named = lookup-required_role_name n r in
    (rw (e, named) (ground arith), rw (e, levels.3) (ground (arith, ranked-le n r)))
