-- ===== src/Access/AccountsGate.antt =====
-- internal/service/authz_accounts.go: groups and members are for admins; a customer may also read
-- the group of their partner.
pub mod Refusals
use migration_planner.Prelude.{
  String, Bool, false, ◌&&◌, ◌||◌, Option, none, some, List, str_eq, if◌then◌else◌,
}
use migration_planner.Access.Model.{User, Group, Member, forbidden}
use migration_planner.Access.Store.{M, ◌>>=◌, ◌>>◌, pure, throw}
use migration_planner.Access.Identity.{admin, customer, same_kind, get_identity}
use migration_planner.Access.Accounts
use migration_planner.Access.Admins
use migration_planner.Access.Admins.{GroupQueryFilter}

unfoldable pub require_admin : User → M (Unit {0})
require_admin user = do
  identity ← get_identity user
  if same_kind identity.kind admin then pure tt else throw forbidden

unfoldable pub list_groups : User → GroupQueryFilter → M (List Group)
list_groups user tests = require_admin user >> Admins.list_groups tests

-- `identity.PartnerID != nil && *identity.PartnerID == id.String()`
abbrev pub is_partner : Option String → String → Bool
is_partner none id = false
is_partner (some partner_id) id = str_eq partner_id id

unfoldable pub get_group : User → String → M Group
get_group user id = do
  identity ← get_identity user
  if same_kind identity.kind admin
        || same_kind identity.kind customer && is_partner identity.partner_id id
      then Accounts.find_group id
      else throw forbidden

unfoldable pub create_group : User → Group → M Group
create_group user group = require_admin user >> Accounts.create_group group

unfoldable pub update_group : User → Group → M Group
update_group user group = require_admin user >> Admins.update_group group

unfoldable pub delete_group : User → String → M (Unit {0})
delete_group user id = require_admin user >> Accounts.delete_group id

unfoldable pub get_member : User → String → M (Member × Option Group)
get_member user username = require_admin user >> Accounts.find_member username

unfoldable pub list_group_members : User → String → M (List Member)
list_group_members user group_id = require_admin user >> Accounts.list_group_members group_id

unfoldable pub create_member : (String → Option String) → String → User → Member → M Member
create_member user_info new_id user m =
    require_admin user >> Accounts.create_member user_info new_id m

unfoldable pub update_group_member : User → String → String → Member → M Member
update_group_member user group_id username m =
    require_admin user >> Accounts.update_group_member group_id username m

unfoldable pub remove_group_member : User → String → String → M (Unit {0})
remove_group_member user group_id username =
    require_admin user >> Accounts.remove_group_member group_id username
