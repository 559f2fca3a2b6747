-- ===== src/Permissions.antt =====
-- Who may do what: packages/domain/src/authorization-policy.ts,
-- apps/api/src/modules/groups/policies/group-permissions.ts and
-- apps/api/src/modules/ledger/financial-authorization.ts.
pub mod Roles
mod Tests
use splitsaathi.Common.{Bool, List, [], any, nat_beq, ℕ, ◌∷◌}

-- `MembershipRole`.
pub data MembershipRole : Type 0 where
  owner admin member viewer : MembershipRole

-- `Permission`.
pub data Permission : Type 0 where
  expense_create expense_edit_own expense_edit_any expense_void : Permission
  settlement_confirm member_invite member_role_change export_all archive : Permission

-- `left === right` on permissions.
abbrev permission_number : Permission → ℕ
permission_number expense_create = 0
permission_number expense_edit_own = 1
permission_number expense_edit_any = 2
permission_number expense_void = 3
permission_number settlement_confirm = 4
permission_number member_invite = 5
permission_number member_role_change = 6
permission_number export_all = 7
permission_number archive = 8

-- `defaults`.
abbrev pub defaults : MembershipRole → List Permission
defaults owner =
    expense_create ∷ expense_edit_own ∷ expense_edit_any ∷ expense_void ∷ settlement_confirm
    ∷ member_invite ∷ member_role_change ∷ export_all ∷ archive ∷ []
defaults admin =
    expense_create ∷ expense_edit_own ∷ expense_edit_any ∷ expense_void ∷ settlement_confirm
    ∷ member_invite ∷ export_all ∷ []
defaults member = expense_create ∷ expense_edit_own ∷ settlement_confirm ∷ []
defaults viewer = []

-- `AuthorizationPolicy.can`.
unfoldable pub policy_can : MembershipRole → Permission → Bool
policy_can role permission =
    any (λ given. nat_beq (permission_number given) (permission_number permission)) (defaults role)

-- `GroupPermission`.
pub data GroupPermission : Type 0 where
  group_read group_update group_invite_create participant_create : GroupPermission
  membership_role_update group_archive membership_exit_lock : GroupPermission
  obligation_transfer_create financial_expense_create : GroupPermission
  financial_expense_edit_any financial_expense_void : GroupPermission
  financial_settlement_confirm financial_export : GroupPermission

abbrev group_permission_number : GroupPermission → ℕ
group_permission_number group_read = 0
group_permission_number group_update = 1
group_permission_number group_invite_create = 2
group_permission_number participant_create = 3
group_permission_number membership_role_update = 4
group_permission_number group_archive = 5
group_permission_number membership_exit_lock = 6
group_permission_number obligation_transfer_create = 7
group_permission_number financial_expense_create = 8
group_permission_number financial_expense_edit_any = 9
group_permission_number financial_expense_void = 10
group_permission_number financial_settlement_confirm = 11
group_permission_number financial_export = 12

-- `GroupPermissions`.
abbrev pub all_group_permissions : List GroupPermission
all_group_permissions =
    group_read ∷ group_update ∷ group_invite_create ∷ participant_create ∷ membership_role_update
    ∷ group_archive ∷ membership_exit_lock ∷ obligation_transfer_create ∷ financial_expense_create
    ∷ financial_expense_edit_any ∷ financial_expense_void ∷ financial_settlement_confirm
    ∷ financial_export ∷ []

-- `DEFAULT_ROLE_PERMISSIONS`, of which `permissionsForRole` is the lookup.
unfoldable pub permissions_for_role : MembershipRole → List GroupPermission
permissions_for_role owner = all_group_permissions
permissions_for_role admin =
    group_read ∷ group_update ∷ group_invite_create ∷ participant_create ∷ membership_role_update
    ∷ group_archive ∷ membership_exit_lock ∷ obligation_transfer_create ∷ financial_expense_create
    ∷ financial_expense_edit_any ∷ financial_expense_void ∷ financial_settlement_confirm
    ∷ financial_export ∷ []
permissions_for_role member =
    group_read ∷ group_invite_create ∷ participant_create ∷ financial_expense_create
    ∷ financial_expense_edit_any ∷ financial_expense_void ∷ financial_settlement_confirm ∷ []
permissions_for_role viewer = group_read ∷ []

-- `permissionsForRole(role).includes(permission)`
unfoldable pub role_allows : MembershipRole → GroupPermission → Bool
unfolding permissions_for_role
role_allows role permission =
    any (λ given. nat_beq (group_permission_number given) (group_permission_number permission))
      (permissions_for_role role)

-- `FinancialAction`.
pub data FinancialAction : Type 0 where
  read create_an_expense edit_an_expense void_an_expense confirm_a_settlement export_data :
      FinancialAction

-- `permissionByAction`.
abbrev pub permission_by_action : FinancialAction → GroupPermission
permission_by_action read = group_read
permission_by_action create_an_expense = financial_expense_create
permission_by_action edit_an_expense = financial_expense_edit_any
permission_by_action void_an_expense = financial_expense_void
permission_by_action confirm_a_settlement = financial_settlement_confirm
permission_by_action export_data = financial_export
