-- ===== src/Access/Authz.antt =====
-- internal/store/authz.go and authz_builder.go: the table of relations, with the SQL conditions of
-- its queries as tests on a row.
pub mod Grants
pub mod Updates
use migration_planner.Prelude.{
  String, Bool, not, ◌&&◌, ◌||◌, none, some, List, [], ◌∷◌, ◌++◌, map, str_eq, if◌then◌else◌, any,
  filter, Dict, lookup, insert,
}
use migration_planner.Access.Model.{
  ResourceType, Relation, Permission, Resource, Subject, Relationship, RelationshipUpdate, touch,
  delete, org_resource, user_subject, org_subject, member_relation, is_in, permissions,
  same_resource_type, same_subject_type, same_relation, same_relationship,
}
use migration_planner.Access.Store.{ok, M, pure, statement, query, ◌>>◌}

-- RelationshipBuilder: With and Without append an update.
abbrev pub with : List RelationshipUpdate → Resource → Relation → Subject → List RelationshipUpdate
with updates resource relation subject =
    updates
    ++ touch (record {
      resource_type = resource.type;
      resource_id = resource.id;
      relation = relation;
      subject = subject;
    })
      ∷ []

abbrev pub without :
    List RelationshipUpdate → Resource → Relation → Subject → List RelationshipUpdate
without updates resource relation subject =
    updates
    ++ delete (record {
      resource_type = resource.type;
      resource_id = resource.id;
      relation = relation;
      subject = subject;
    })
      ∷ []

abbrev pub touch_rows : List RelationshipUpdate → List Relationship
touch_rows [] = []
touch_rows (touch r ∷ us) = r ∷ touch_rows us
touch_rows (delete r ∷ us) = touch_rows us

abbrev pub delete_rows : List RelationshipUpdate → List Relationship
delete_rows [] = []
delete_rows (touch r ∷ us) = delete_rows us
delete_rows (delete r ∷ us) = r ∷ delete_rows us

-- Whether a row with these columns stands in the table.
abbrev pub holds : Relationship → List Relationship → Bool
holds x rows = any (same_relationship x) rows

-- INSERT … ON CONFLICT DO NOTHING, under the unique index on the five columns.
unfoldable pub insert_rows : List Relationship → List Relationship → List Relationship
insert_rows table [] = table
insert_rows table (r ∷ rs) = insert_rows (if holds r table then table else table ++ r ∷ []) rs

-- DELETE … WHERE (resource, …) IN (…)
unfoldable pub remove_rows : List Relationship → List Relationship → List Relationship
remove_rows table rows = filter (λ r. not (holds r rows)) table

abbrev pub touch_statement : List Relationship → M (Unit {0})
touch_statement [] = pure tt
touch_statement (r ∷ rs) =
    statement λ db. ok (tt, record db { relationships = insert_rows db.relationships (r ∷ rs) })

abbrev pub delete_statement : List Relationship → M (Unit {0})
delete_statement [] = pure tt
delete_statement (r ∷ rs) =
    statement λ db. ok (tt, record db { relationships = remove_rows db.relationships (r ∷ rs) })

unfoldable pub write_relationships : List RelationshipUpdate → M (Unit {0})
write_relationships updates =
    touch_statement (touch_rows updates) >> delete_statement (delete_rows updates)

-- WHERE resource = ? [AND resource_id = ?]
abbrev pub of_resource : Resource → Relationship → Bool
of_resource resource r =
    same_resource_type r.resource_type resource.type
    && (str_eq resource.id "" || str_eq r.resource_id resource.id)

unfoldable pub delete_relationships : Resource → M (Unit {0})
delete_relationships resource = statement λ db.
    ok (
      tt,
      record db { relationships = filter (λ r. not (of_resource resource r)) db.relationships },
    )

unfoldable pub list_relationships : Resource → M (List Relationship)
list_relationships resource = query (λ db. ok (filter (of_resource resource) db.relationships))

abbrev pub is_text_in : String → List String → Bool
is_text_in s xs = any (str_eq s) xs

-- The rows grouped by resource id, in the order of the table.
abbrev pub group_by_resource :
    Dict (List Relationship) → List Relationship → Dict (List Relationship)
group_by_resource m [] = m
group_by_resource m (r ∷ rs) =
    group_by_resource
      (insert r.resource_id
        (elim (lookup r.resource_id m) [ none ↦ r ∷ [] | some old ↦ old ++ r ∷ [] ]) m)
      rs

unfoldable pub list_bulk_relationship : List String → M (Dict (List Relationship))
list_bulk_relationship resource_ids = query λ db.
    ok (group_by_resource [] (filter (λ r. is_text_in r.resource_id resource_ids) db.relationships))

-- The direct relations of a user: the SELECT over subject_namespace 'user'.
abbrev pub is_direct : String → Relationship → Bool
is_direct user_id r = same_subject_type r.subject.kind user_subject && str_eq r.subject.id user_id

-- `m.resource = 'org' AND m.resource_id = … AND m.relation = 'member' AND m.subject_… = user`
abbrev pub is_membership : String → String → Relationship → Bool
is_membership user_id org_id m =
    same_resource_type m.resource_type org_resource
    && str_eq m.resource_id org_id
    && same_relation m.relation member_relation
    && same_subject_type m.subject.kind user_subject
    && str_eq m.subject.id user_id

-- The indirect relations: the JOIN with the memberships of the user.
abbrev pub is_indirect : List Relationship → String → Relationship → Bool
is_indirect table user_id r =
    same_subject_type r.subject.kind org_subject && any (is_membership user_id r.subject.id) table

-- `UNION` drops the duplicates of the relations selected.
abbrev pub distinct : List Relation → List Relation
distinct [] = []
distinct (r ∷ rs) = let rest = distinct rs in if any (same_relation r) rs then rest else r ∷ rest

-- `if !p.In(perms) { perms = append(perms, p) }`, for the permissions of one relation.
abbrev pub add_permissions : List Permission → List Permission → List Permission
add_permissions perms [] = perms
add_permissions perms (p ∷ ps) =
    add_permissions (if is_in p perms then perms else perms ++ p ∷ []) ps

abbrev pub add_relations : List Permission → List Relation → List Permission
add_relations perms [] = perms
add_relations perms (r ∷ rs) = add_relations (add_permissions perms (permissions r)) rs

abbrev pub of_exactly : Resource → Relationship → Bool
of_exactly resource r =
    same_resource_type r.resource_type resource.type && str_eq r.resource_id resource.id

abbrev pub relation_of : Relationship → Relation
relation_of r = r.relation

-- The rows that the two SELECTs of `GetPermissions` find.
abbrev pub direct_rows : List Relationship → String → Resource → List Relationship
direct_rows table user_id resource =
    filter (λ r. of_exactly resource r && is_direct user_id r) table

abbrev pub indirect_rows : List Relationship → String → Resource → List Relationship
indirect_rows table user_id resource =
    filter (λ r. of_exactly resource r && is_indirect table user_id r) table

unfoldable pub permissions_of : List Relationship → String → Resource → Resource
permissions_of table user_id resource = record resource {
  permissions = add_relations resource.permissions (
      distinct (
        map relation_of (direct_rows table user_id resource)
        ++ map relation_of (indirect_rows table user_id resource)));
}

unfoldable pub get_permissions : String → Resource → M Resource
get_permissions user_id resource =
    query (λ db. ok (permissions_of db.relationships user_id resource))

-- `ListResources`: the permissions found, by resource id. The rows that UNION drops as duplicates
-- would add nothing; Go leaves the order of the result open, here it is that of the rows.
abbrev pub selected : List Relationship → String → ResourceType → List Relationship
selected table user_id resource_type =
    filter
      (λ r.
        same_resource_type r.resource_type resource_type
        && (is_direct user_id r || is_indirect table user_id r))
      table

abbrev pub permissions_by_id : Dict (List Permission) → List Relationship → Dict (List Permission)
permissions_by_id m [] = m
permissions_by_id m (r ∷ rs) =
    permissions_by_id
      (elim (permissions r.relation) [
        | [] ↦ m
        | p ∷ ps ↦
            insert r.resource_id
              (add_permissions (elim (lookup r.resource_id m) [ none ↦ [] | some old ↦ old ])
                (p ∷ ps))
              m
      ])
      rs

abbrev pub to_resource : ResourceType → String × List Permission → Resource
to_resource resource_type (id, perms) = record {
  type = resource_type;
  id = id;
  permissions = perms;
}

unfoldable pub list_resources : String → ResourceType → M (List Resource)
list_resources user_id resource_type = query λ db. ok (
    map (to_resource resource_type)
      (permissions_by_id [] (selected db.relationships user_id resource_type)))
