-- ===== src/Permissions/Tests.antt =====
-- Concrete tools and roles.
use deploypilot.Base.{ℕ, ◌≤◌, ◌≡◌, ◌↔◌, refl, true, false, some, lookup}
use deploypilot.Permissions.{tool_permissions, role_levels, check_permission, permits}
use deploypilot.Permissions.Roles.{check_permission_iff}

check_permission_iff_example : (check_permission "exec_command" "dev" ≡ true) ↔ (
    (required : ℕ) × (level : ℕ) × (lookup "exec_command" tool_permissions ≡ some required)
    × (lookup "dev" role_levels ≡ some level)
    × (required ≤ level))
check_permission_iff_example = check_permission_iff "exec_command" "dev"

dev_cannot_exec : check_permission "exec_command" "dev" ≡ false
unfolding check_permission permits lookup tool_permissions role_levels
dev_cannot_exec = refl
