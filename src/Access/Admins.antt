-- ===== src/Access/Admins.antt =====
-- The rest of internal/service/accounts.go and internal/store/accounts.go: groups listed and
-- updated, and Initialize, which replaces the admin group at the start of the program. `ilike` is
-- the match of ILIKE '%…%', `new_ids` gives uuid.New.
pub mod Initialized
use migration_planner.Prelude.{
  ℕ, suc, String, Bool, true, not, ◌&&◌, Option, List, [], ◌∷◌, map, str_eq, if◌then◌else◌, any,
  filter, find, reverse,
}
use migration_planner.Access.Model.{
  Group, Member, Error, duplicate_key, resource_not_found, member_duplicate,
}
use migration_planner.Access.Store.{
  Result, ok, err, Db, M, ◌>>=◌, ◌>>◌, pure, throw, catch, statement, query, transaction,
}
use migration_planner.Access.Requests.{or_not_found, get_member}
use migration_planner.Access.Accounts.{
  no_id, create_group_row, delete_group, duplicate_as, create_member_row,
}
use migration_planner.Access.Partner.{not_found_as}

abbrev pub GroupQueryFilter : Type 0
GroupQueryFilter = List (Group → Bool)

abbrev pub passes_all : GroupQueryFilter → Group → Bool
passes_all [] g = true
passes_all (test ∷ tests) g = test g && passes_all tests g

abbrev pub by_kind : String → Group → Bool
by_kind kind g = str_eq g.kind kind

abbrev pub by_name : (String → String → Bool) → String → Group → Bool
by_name ilike name g = ilike name g.name

-- ORDER BY created_at DESC; the table is in the order of creation.
unfoldable pub list_groups : GroupQueryFilter → M (List Group)
list_groups tests = query (λ db. ok (reverse (filter (passes_all tests) db.groups)))

abbrev pub is_group : String → Group → Bool
is_group id g = str_eq g.id id

-- The unique index on name and company.
abbrev pub group_clashes : Group → List Group → Bool
group_clashes g rows =
    any (λ h. not (is_group g.id h) && str_eq h.name g.name && str_eq h.company g.company) rows

-- UPDATE of the selected columns, of which the model has name and company.
abbrev pub update_group_fields : Group → Db → Result (Group × Db)
update_group_fields g db =
    if group_clashes g db.groups
    then err duplicate_key
    else ok (
      g,
      record db {
        groups =
            map
              (λ h. if is_group g.id h then record h { name = g.name; company = g.company } else h)
              db.groups;
      },
    )

unfoldable pub update_group_row : Group → M Group
update_group_row g =
    query (λ db. or_not_found (find (is_group g.id) db.groups)) >> statement (update_group_fields g)

abbrev pub update_error : Error → Error
update_error e = duplicate_as member_duplicate (not_found_as resource_not_found e)

unfoldable pub update_group : Group → M Group
update_group g = catch (update_group_row g) (λ e. throw (update_error e))

pub record AdminMember : Type 0 where
  pub username : String
  pub email : String

pub record AdminGroup : Type 0 where
  pub name : String
  pub members : List AdminMember

abbrev pub delete_groups : List Group → M (Unit {0})
delete_groups [] = pure tt
delete_groups (g ∷ rest) = delete_group g.id >> delete_groups rest

abbrev pub new_member : String → AdminMember → Member
new_member group_id m = record {
  id = no_id;
  username = m.username;
  email = m.email;
  group_id = group_id;
  org_id = "";
}

-- A member that is found is left where it is; any error means that there is none.
abbrev pub add_unless_found :
    String → String → AdminMember → Result (Member × Option Group) → M (Unit {0})
add_unless_found new_id group_id m (ok found) = pure tt
add_unless_found new_id group_id m (err e) =
    create_member_row new_id (new_member group_id m) >> pure tt

abbrev pub add_admin : String → String → AdminMember → M (Unit {0})
add_admin new_id group_id m w =
    let (found, w') = get_member m.username w in add_unless_found new_id group_id m found w'

abbrev pub add_admins : (ℕ → String) → ℕ → String → List AdminMember → M (Unit {0})
add_admins new_ids n group_id [] = pure tt
add_admins new_ids n group_id (m ∷ rest) =
    add_admin (new_ids n) group_id m >> add_admins new_ids (suc n) group_id rest

abbrev pub admin_group_row : String → String → Group
admin_group_row id name = record { id = id; name = name; company = name; kind = "admin" }

abbrev pub initialize_body : (String → String → Bool) → (ℕ → String) → AdminGroup → M (Unit {0})
initialize_body ilike new_ids admin_group = do
  groups ← list_groups (by_name ilike admin_group.name ∷ by_kind "admin" ∷ [])
  delete_groups groups
  group ← create_group_row (admin_group_row (new_ids 0) admin_group.name)
  add_admins new_ids 1 group.id admin_group.members

unfoldable pub initialize : (String → String → Bool) → (ℕ → String) → AdminGroup → M (Unit {0})
initialize ilike new_ids admin_group = transaction (initialize_body ilike new_ids admin_group)
