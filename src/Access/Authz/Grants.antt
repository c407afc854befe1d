-- ===== src/Access/Authz/Grants.antt =====
-- What `GetPermissions` answers, against the table of relations.
use mathlib.Core.Path.{ap₂}
use migration_planner.Prelude.{
  String, ◌≡◌, refl, ap, ◌∙◌, Bool, true, ◌&&◌, ◌||◌, List, [], ◌∷◌, ◌++◌, map, arith,
  if◌then◌else◌, any, any-append, any-filter,
}
use migration_planner.Access.Model.{
  Relation, other, owner_relation, viewer_relation, member_relation, Permission, Resource,
  Relationship, is_in, permissions, relations, same_permission, same_relation, same_relation_eq,
}
use migration_planner.Access.Authz.{
  is_direct, is_indirect, distinct, add_permissions, add_relations, of_exactly, relation_of,
  direct_rows, indirect_rows, permissions_of,
}

-- The two tables of authz.go agree: a relation gives a permission exactly when the permission
-- lists the relation.
pub permissions-relations :
    (r : Relation) (p : Permission) → is_in p (permissions r) ≡ any (same_relation r) (relations p)
permissions-relations owner_relation p = ground arith
permissions-relations viewer_relation p = ground arith
permissions-relations member_relation p = ground arith
permissions-relations (other t) p = ground arith

is_in-append :
    (p : Permission) (xs ys : List Permission) → is_in p (xs ++ ys) ≡ is_in p xs || is_in p ys
is_in-append p [] ys = refl
is_in-append p (x ∷ xs) ys = ground (arith, is_in-append p xs ys)

same_permission_eq : (p q : Permission) → same_permission p q ≡ true → p ≡ q
same_permission_eq p q h = ground arith

is_in-add_permissions :
    (p : Permission) (perms ps : List Permission)
    → is_in p (add_permissions perms ps) ≡ is_in p perms || is_in p ps
is_in-add_permissions p perms [] = ground arith
is_in-add_permissions p perms (q ∷ ps) = ground (
  arith,
  is_in-add_permissions p (if is_in q perms then perms else perms ++ q ∷ []) ps,
  is_in-append p perms (q ∷ []),
  same_permission_eq q p,
)

gives : Permission → Relation → Bool
gives p r = is_in p (permissions r)

is_in-add_relations :
    (p : Permission) (perms : List Permission) (rs : List Relation)
    → is_in p (add_relations perms rs) ≡ is_in p perms || any (gives p) rs
unfolding gives
is_in-add_relations p perms [] = ground arith
is_in-add_relations p perms (r ∷ rs) = ground (
  arith,
  is_in-add_relations p (add_permissions perms (permissions r)) rs,
  is_in-add_permissions p perms (permissions r),
)

-- A relation that is dropped as a duplicate gives nothing new.
any-gives_same :
    (p : Permission) (r : Relation) (rs : List Relation)
    → any (same_relation r) rs ≡ true
    → gives p r ≡ true
    → any (gives p) rs ≡ true
any-gives_same p r [] h g = h
any-gives_same p r (s ∷ rs) h g =
    ground (arith, any-gives_same p r rs, same_relation_eq r s, ap (gives p), gives p s)

any-distinct :
    (p : Permission) (rs : List Relation) → any (gives p) (distinct rs) ≡ any (gives p) rs
any-distinct p [] = refl
any-distinct p (r ∷ rs) = ground (arith, any-distinct p rs, any-gives_same p r rs)

any-map_relation :
    (p : Permission) (rows : List Relationship)
    → any (gives p) (map relation_of rows) ≡ any (λ row. gives p row.relation) rows
any-map_relation p [] = refl
any-map_relation p (r ∷ rows) = ground (arith, any-map_relation p rows)

-- The row gives the user the permission on the resource: it relates the resource to the user, or
-- to an organization of which the table has the user as a member, by a relation with that
-- permission.
unfoldable pub row_grants : List Relationship → String → Resource → Permission → Relationship → Bool
unfolding gives
row_grants table user_id resource p row =
    of_exactly resource row
    && (is_direct user_id row || is_indirect table user_id row)
    && gives p row.relation

any_or :
    (f g h : Relationship → Bool) (rows : List Relationship)
    → ((row : Relationship) → (f row || g row) ≡ h row)
    → (any f rows || any g rows) ≡ any h rows
any_or f g h [] same = refl
any_or f g h (r ∷ rows) same = ground (arith, same r, any_or f g h rows same)

-- `GetPermissions` adds exactly the permissions that some row of the table gives the user on the
-- resource, directly or through an organization; UNION, the loops and the test for duplicates
-- lose none and add none.
pub permissions_of-row_grants :
    (table : List Relationship) (user_id : String) (resource : Resource) (p : Permission)
    → is_in p (permissions_of table user_id resource).permissions
      ≡ is_in p resource.permissions || any (row_grants table user_id resource p) table
unfolding permissions_of row_grants
permissions_of-row_grants table user_id resource p =
    let with_p = λ (row : Relationship). gives p row.relation in
    let is_d = λ (row : Relationship). of_exactly resource row && is_direct user_id row in
    let is_i = λ (row : Relationship). of_exactly resource row && is_indirect table user_id row in
    let direct = direct_rows table user_id resource in
    let indirect = indirect_rows table user_id resource in
    let found : any (gives p) (distinct (map relation_of direct ++ map relation_of indirect))
        ≡ any (row_grants table user_id resource p) table =
      any-distinct p (map relation_of direct ++ map relation_of indirect)
      ∙ any-append (gives p) (map relation_of direct) (map relation_of indirect)
      ∙ ap₂ (λ a b. a || b) (any-map_relation p direct ∙ any-filter with_p is_d table)
          (any-map_relation p indirect ∙ any-filter with_p is_i table)
      ∙ any_or (λ row. is_d row && with_p row) (λ row. is_i row && with_p row)
          (row_grants table user_id resource p) table (λ row. ground arith) in
    is_in-add_relations p resource.permissions
      (distinct (map relation_of direct ++ map relation_of indirect))
    ∙ ap (λ b. is_in p resource.permissions || b) found
