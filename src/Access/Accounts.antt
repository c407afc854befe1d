-- ===== src/Access/Accounts.antt =====
-- internal/service/accounts.go and the writes of internal/store/accounts.go: groups and members.
-- `user_info` is the organization that the identity service gives for a username, or its error.
pub mod Members
use migration_planner.Prelude.{
  String, Bool, not, ◌&&◌, ◌||◌, Option, none, some, List, [], ◌∷◌, ◌++◌, map, str_eq,
  if◌then◌else◌, any, filter, find,
}
use migration_planner.Access.Model.{
  PartnerCustomer, Group, Member, Error, record_not_found, duplicate_key, db_error,
  resource_not_found, active_request_exists, member_not_found, membership_mismatch,
  member_duplicate, member_in_other_group, iam_error, new_org_resource, new_user_subject,
  member_relation,
}
use migration_planner.Access.Store.{
  Result, ok, err, Db, M, ◌>>=◌, ◌>>◌, pure, throw, catch, statement, query, transaction,
}
use migration_planner.Access.Authz.{with, without, write_relationships}
use migration_planner.Access.Requests.{
  or_not_found, list_requests, by_username, by_active_status, get_group, get_member,
}
use migration_planner.Access.Partner.{not_found_as}

abbrev pub same_group_name : Group → Group → Bool
same_group_name g h = str_eq g.id h.id || str_eq g.name h.name && str_eq g.company h.company

-- The primary key and the unique index on name and company.
abbrev pub insert_group : Group → Db → Result (Group × Db)
insert_group group db =
    if any (same_group_name group) db.groups
    then err duplicate_key
    else ok (group, record db { groups = db.groups ++ group ∷ [] })

abbrev pub create_group_row : Group → M Group
create_group_row group = statement (insert_group group)

-- DELETE, with the cascade to the members and the requests of the group.
abbrev pub delete_group_rows : String → Db → Result (Unit {0} × Db)
delete_group_rows id db = ok (
  tt,
  record db {
    groups = filter (λ (g : Group). not (str_eq g.id id)) db.groups;
    members = filter (λ (m : Member). not (str_eq m.group_id id)) db.members;
    requests = filter (λ (r : PartnerCustomer). not (str_eq r.partner_id id)) db.requests;
  },
)

unfoldable pub delete_group : String → M (Unit {0})
delete_group id = statement (delete_group_rows id)

abbrev pub duplicate_as : Error → Error → Error
duplicate_as e duplicate_key = e
duplicate_as e x = x

unfoldable pub create_group : Group → M Group
create_group group = catch (create_group_row group) (λ e. throw (duplicate_as member_duplicate e))

unfoldable pub find_group : String → M Group
find_group id = catch (get_group id) (λ e. throw (not_found_as resource_not_found e))

unfoldable pub find_member : String → M (Member × Option Group)
find_member username = catch (get_member username) (λ e. throw (not_found_as member_not_found e))

unfoldable pub list_group_members : String → M (List Member)
list_group_members group_id =
    find_group group_id
    >> query (λ db. ok (filter (λ (m : Member). str_eq m.group_id group_id) db.members))

-- uuid.Nil
abbrev pub no_id : String
no_id = "00000000-0000-0000-0000-000000000000"

abbrev pub is_same_member : Member → Member → Bool
is_same_member m n = str_eq m.id n.id || str_eq m.username n.username

abbrev pub insert_member : Member → Db → Result (Member × Db)
insert_member m db =
    if any (is_same_member m) db.members
    then err duplicate_key
    else if any (λ (g : Group). str_eq g.id m.group_id) db.groups
    then ok (m, record db { members = db.members ++ m ∷ [] })
    else err db_error

abbrev pub create_member_row : String → Member → M Member
create_member_row new_id m =
    statement (insert_member (if str_eq m.id no_id then record m { id = new_id } else m))

abbrev pub delete_member_row : String → M (Unit {0})
delete_member_row id =
    statement λ db.
      ok (tt, record db { members = filter (λ (m : Member). not (str_eq m.id id)) db.members })

-- `Updates` writes the fields that are not empty.
abbrev pub or_old : String → String → String
or_old old new = if str_eq new "" then old else new

abbrev pub update_member_fields : Member → Member → Member
update_member_fields m r =
    if str_eq r.id m.id
    then record r {
      username = or_old r.username m.username;
      email = or_old r.email m.email;
      group_id = or_old r.group_id m.group_id;
      org_id = or_old r.org_id m.org_id;
    }
    else r

abbrev pub update_member_row : Member → M Member
update_member_row m =
    query (λ db. or_not_found (find (λ (r : Member). str_eq r.id m.id) db.members))
    >> statement (λ db. ok (m, record db { members = map (update_member_fields m) db.members }))

-- What the lookup of the username means for CreateMember.
abbrev pub refuse_existing : Member → Result (Member × Option Group) → M (Unit {0})
refuse_existing m (ok (existing, group)) =
    if not (str_eq existing.group_id m.group_id)
    then throw member_in_other_group
    else throw member_duplicate
refuse_existing m (err record_not_found) = pure tt
refuse_existing m (err e) = throw e

abbrev pub check_absent : Member → M (Unit {0})
check_absent m w = let (found, w') = get_member m.username w in refuse_existing m found w'

abbrev pub enrol_without_request : String → Member → List PartnerCustomer → M Member
enrol_without_request new_id m (pc ∷ rest) = throw active_request_exists
enrol_without_request new_id m [] = do
  created ← catch (create_member_row new_id m) (λ e. throw (duplicate_as member_duplicate e))
  write_relationships
      (with [] (new_org_resource m.group_id) member_relation (new_user_subject m.username))
  pure created

abbrev pub enrol : String → Member → M Member
enrol new_id m = do
  active ← list_requests (by_username m.username ∷ by_active_status ∷ [])
  enrol_without_request new_id m active

abbrev pub create_known_member : String → Member → M Member
create_known_member new_id m = do
  find_group m.group_id
  check_absent m
  transaction (enrol new_id m)

abbrev pub create_member_of : String → Member → Option String → M Member
create_member_of new_id m none = throw iam_error
create_member_of new_id m (some org_id) = create_known_member new_id (record m { org_id = org_id })

unfoldable pub create_member : (String → Option String) → String → Member → M Member
create_member user_info new_id m = create_member_of new_id m (user_info m.username)

abbrev pub update_found : String → Member → Member → M Member
update_found group_id m existing =
    if not (str_eq existing.group_id group_id)
    then throw membership_mismatch
    else catch
        (update_member_row (record m {
          id = existing.id;
          username = existing.username;
          group_id = existing.group_id;
        }))
        (λ e. throw (not_found_as member_not_found e))

unfoldable pub update_group_member : String → String → Member → M Member
update_group_member group_id username m = do
  find_group group_id
  existing ← find_member username
  update_found group_id m existing.0

abbrev pub remove_found : String → String → Member → M (Unit {0})
remove_found group_id username m =
    if not (str_eq m.group_id group_id)
    then throw membership_mismatch
    else delete_member_row m.id
      >> write_relationships
          (without [] (new_org_resource group_id) member_relation (new_user_subject username))

unfoldable pub remove_group_member : String → String → M (Unit {0})
remove_group_member group_id username =
    transaction do find_group group_id; m ← find_member username; remove_found group_id username m.0
