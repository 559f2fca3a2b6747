-- ===== src/Permissions/Tests.antt =====
-- Tests of the permissions (packages/domain/src/authorization-policy.ts).
use splitsaathi.Common.{arith, false, true, ◌≡◌}
use splitsaathi.Permissions.{
  GroupPermission, Permission, export_data, member, owner, permission_by_action, policy_can,
  role_allows,
}
use splitsaathi.Permissions.Roles.{financial_actions, roles_monotone}

member_to_owner_test :
    ((p : Permission) → policy_can member p ≡ true → policy_can owner p ≡ true)
    × ((p : GroupPermission) → role_allows member p ≡ true → role_allows owner p ≡ true)
member_to_owner_test = roles_monotone member owner (omega arith)

financial_actions_test : role_allows member (permission_by_action export_data) ≡ false
financial_actions_test = financial_actions member export_data
