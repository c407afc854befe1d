-- ===== src/Access/Identity.antt =====
-- internal/service/accounts.go: what a user is.
pub mod Known
use migration_planner.Prelude.{
  String, Bool, true, false, Option, none, some, List, [], ◌∷◌, str_eq, if◌then◌else◌,
}
use migration_planner.Access.Model.{
  User, Group, Member, PartnerCustomer, Error, record_not_found, accepted,
}
use migration_planner.Access.Store.{M, ◌>>=◌, pure, throw, catch}
use migration_planner.Access.Requests.{by_username, by_status, list_requests, get_member}

pub data IdentityKind : Type 0 where
  regular customer partner admin : IdentityKind

pub record Identity : Type 0 where
  pub username : String
  pub kind : IdentityKind
  pub group_id : Option String
  pub partner_id : Option String

abbrev pub regular_identity : User → Identity
regular_identity user = record {
  username = user.username;
  kind = regular;
  group_id = none;
  partner_id = none;
}

-- The member-based roles; any other kind of group leaves the user regular.
abbrev pub member_identity : User → Option (Member × Option Group) → Identity
member_identity user none = regular_identity user
member_identity user (some (m, none)) = regular_identity user
member_identity user (some (m, some g)) =
    if str_eq g.kind "partner"
    then record {
      username = m.username;
      kind = partner;
      group_id = some m.group_id;
      partner_id = none;
    }
    else if str_eq g.kind "admin"
    then record {
      username = m.username;
      kind = admin;
      group_id = some m.group_id;
      partner_id = none;
    }
    else regular_identity user

-- The error of GetMember that is not passed on.
abbrev pub no_member : Error → M (Option (Member × Option Group))
no_member record_not_found = pure none
no_member e = throw e

abbrev pub identify : User → List PartnerCustomer → M Identity
identify user (pc ∷ rest) = pure (record {
  username = user.username;
  kind = customer;
  group_id = none;
  partner_id = some pc.partner_id;
})
identify user [] = do
  found ← catch (do m ← get_member user.username; pure (some m)) no_member
  pure (member_identity user found)

unfoldable pub get_identity : User → M Identity
get_identity user = do
  partners ← list_requests (by_username user.username ∷ by_status accepted ∷ [])
  identify user partners

abbrev pub same_kind : IdentityKind → IdentityKind → Bool
same_kind regular regular = true
same_kind customer customer = true
same_kind partner partner = true
same_kind admin admin = true
same_kind _ _ = false

unfoldable pub is_kind : User → IdentityKind → M Bool
is_kind user kind = do identity ← get_identity user; pure (same_kind identity.kind kind)
