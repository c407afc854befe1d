-- ===== src/Access/Sharing/Removal.antt =====
-- DeleteAssessment: the assessment, its relations, and so everybody's permissions on it.
use migration_planner.Prelude.{
  ◌≡◌, refl, sym, ap, ◌∙◌, String, Bool, true, false, not, ◌&&◌, List, [], ◌∷◌, arith, str_eq,
  eq_iff, any, filter, any-filter,
}
use migration_planner.Access.Model.{
  User, AssessmentRow, Permission, Relationship, delete_permission, new_assessment_resource,
  resource_not_found,
}
use migration_planner.Access.Store.{
  ok, Db, World, M, throw, catch, ◌>>◌, statement_ok, transaction, transaction_ok, >>=_ok,
}
use migration_planner.Access.Authz.{of_resource, is_membership, delete_relationships}
use migration_planner.Access.Authz.Grants.{row_grants}
use migration_planner.Access.Partner.{not_found_as}
use migration_planner.Access.AssessmentStore.{has_id, get_assessment_row, delete_assessment_row}
use migration_planner.Access.Assessments
use migration_planner.Access.Assessments.Shares.{get_row-Same}
use migration_planner.Access.Sharing.{delete_assessment}
use migration_planner.Access.Sharing.Permitted.{may, require_permission_ok}

-- The rows that DeleteRelationships leaves.
abbrev others : String → List Relationship → List Relationship
others id rows = filter (λ r. not (of_resource (new_assessment_resource id) r)) rows

-- Memberships are relations of organizations and stay.
any_membership-others :
    (id user_id org_id : String) (rows : List Relationship)
    → any (is_membership user_id org_id) (others id rows) ≡ any (is_membership user_id org_id) rows
any_membership-others id user_id org_id [] = refl
any_membership-others id user_id org_id (r ∷ rows) =
    ground (arith, any_membership-others id user_id org_id rows)

any_guarded :
    (f g : Relationship → Bool) (b : Bool) (rows : List Relationship)
    → ((r : Relationship) → f r ≡ g r && b)
    → any f rows ≡ any g rows && b
any_guarded f g b [] h = refl
any_guarded f g b (r ∷ rows) h = ground (arith, h r, any_guarded f g b rows h)

row_grants-others :
    (p : Permission) (user_id id other : String) (table : List Relationship) (r : Relationship)
    → str_eq id "" ≡ false
    → not (of_resource (new_assessment_resource id) r)
        && row_grants (others id table) user_id (new_assessment_resource other) p r
      ≡ row_grants table user_id (new_assessment_resource other) p r && not (str_eq other id)
unfolding row_grants
row_grants-others p user_id id other table r h = ground (
  arith,
  any_membership-others id user_id r.subject.id table,
  eq_iff r.resource_id id,
  eq_iff r.resource_id other,
  eq_iff other id,
)

-- The tables without the assessment and its relations.
abbrev pub without_assessment : String → Db → Db
without_assessment id db = record db {
  assessments = filter (λ a. not (has_id id a)) db.assessments;
  relationships = others id db.relationships;
}

may-without_assessment :
    (p : Permission) (user : User) (id other : String) (db : Db)
    → str_eq id "" ≡ false
    → may p user other (without_assessment id db) ≡ may p user other db && not (str_eq other id)
unfolding may
may-without_assessment p user id other db h =
    any-filter
      (row_grants (others id db.relationships) user.username (new_assessment_resource other) p)
      (λ r. not (of_resource (new_assessment_resource id) r)) db.relationships
    ∙ any_guarded _ (row_grants db.relationships user.username (new_assessment_resource other) p)
        (not (str_eq other id)) db.relationships
        (λ r. row_grants-others p user.username id other db.relationships r h)

delete_body_ok :
    (id : String) (w : World)
    → let body =
        Assessments.delete_assessment id >> delete_relationships (new_assessment_resource id) in
      (body w).0 ≡ ok tt → (body w).1.db ≡ without_assessment id w.db
unfolding Assessments.delete_assessment delete_assessment_row delete_relationships
delete_body_ok id w h =
    let reader = catch (get_assessment_row id) (λ e. throw (not_found_as resource_not_found e)) in
    let (_, first, next) =
      >>=_ok (Assessments.delete_assessment id)
        (λ _. delete_relationships (new_assessment_resource id)) w tt h in
    let (_, _, next₁) = >>=_ok reader (λ _. delete_assessment_row id) w tt first in
    let w₁ = (Assessments.delete_assessment id w).1 in
    let removed = statement_ok _ (reader w).1 tt _ refl tt (ap (λ o. o.0) (sym next₁) ∙ first) in
    let revoked = statement_ok _ w₁ tt _ refl tt (ap (λ o. o.0) (sym next) ∙ h) in
    ap (λ o. o.1.db) next
    ∙ revoked
    ∙ ap {A = Db} (λ db. record db { relationships = others id db.relationships })
        (ap (λ o. o.1.db) next₁
          ∙ removed
          ∙ ap {A = Db}
              (λ db. record db { assessments = filter (λ a. not (has_id id a)) db.assessments })
              (get_row-Same id w))

-- A DeleteAssessment that succeeds was called by a user with the delete permission on it. After it
-- nobody has any permission on the assessment, and everybody has on every other assessment the
-- permissions that they had.
pub may-delete_assessment :
    (user : User) (id : String) (w : World)
    → str_eq id "" ≡ false
    → (delete_assessment user id w).0 ≡ ok tt
    → (may delete_permission user id w.db ≡ true)
      × ((delete_assessment user id w).1.db ≡ without_assessment id w.db)
      × ((p : Permission) (u : User) (other : String)
          → may p u other (delete_assessment user id w).1.db
            ≡ may p u other w.db && not (str_eq other id))
unfolding delete_assessment
may-delete_assessment user id w named h =
    let body =
      Assessments.delete_assessment id >> delete_relationships (new_assessment_resource id) in
    let inner : AssessmentRow → List Permission → M (Unit {0}) = λ _ _. transaction body in
    let (row, perms, w', same, _, permitted, run) =
      require_permission_ok delete_permission user id inner w tt h in
    let (w₀, start, ran, kept) = transaction_ok body w' tt (ap (λ o. o.0) (sym run) ∙ h) in
    let after : (delete_assessment user id w).1.db ≡ without_assessment id w.db =
      ap (λ o. o.1.db) run
      ∙ kept
      ∙ delete_body_ok id w₀ ran
      ∙ ap (without_assessment id) (start ∙ same) in
    (
      permitted,
      after,
      λ p u other. ap (may p u other) after ∙ may-without_assessment p u id other w.db named,
    )
