-- ===== src/Permissions/Roles.antt =====
-- How the permissions of the roles compare (packages/domain/src/authorization-policy.ts and
-- apps/api/src/modules/groups/policies/group-permissions.ts).
use splitsaathi.Common.{arith, leb, true, ℕ, ◌≡◌, ◌≤◌}
use splitsaathi.Permissions.{
  FinancialAction, GroupPermission, MembershipRole, Permission, admin, confirm_a_settlement,
  create_an_expense, edit_an_expense, export_data, member, owner, permission_by_action, policy_can,
  read, role_allows, viewer, void_an_expense,
}

-- The order of the roles.
abbrev pub rank : MembershipRole → ℕ
rank viewer = 0
rank member = 1
rank admin = 2
rank owner = 3

policy_can-monotone :
    (lower higher : MembershipRole) (permission : Permission)
    → rank lower ≤ rank higher
    → policy_can lower permission ≡ true
    → policy_can higher permission ≡ true
unfolding policy_can
policy_can-monotone lower higher permission le may = ground arith

role_allows-monotone :
    (lower higher : MembershipRole) (permission : GroupPermission)
    → rank lower ≤ rank higher
    → role_allows lower permission ≡ true
    → role_allows higher permission ≡ true
unfolding role_allows
role_allows-monotone lower higher permission le may = ground arith

-- A higher role may do whatever a lower one may, by both tables.
pub roles_monotone :
    (lower higher : MembershipRole)
    → rank lower ≤ rank higher
    → ((p : Permission) → policy_can lower p ≡ true → policy_can higher p ≡ true)
      × ((p : GroupPermission) → role_allows lower p ≡ true → role_allows higher p ≡ true)
roles_monotone lower higher le = (
  λ p may. policy_can-monotone lower higher p le may,
  λ p may. role_allows-monotone lower higher p le may,
)

-- A viewer may read and nothing else; every other role may do all financial actions but the export,
-- which takes an admin or the owner.
pub financial_actions :
    (role : MembershipRole) (action : FinancialAction)
    → role_allows role (permission_by_action action) ≡ elim action [
      | read ↦ true
      | export_data ↦ leb 2 (rank role)
      | create_an_expense ↦ leb 1 (rank role)
      | edit_an_expense ↦ leb 1 (rank role)
      | void_an_expense ↦ leb 1 (rank role)
      | confirm_a_settlement ↦ leb 1 (rank role)
    ]
unfolding role_allows
financial_actions role action = ground arith
