-- ===== src/Access/Sharing/Permitted.antt =====
-- Which calls of the wrapper succeed, and what they then do to the tables.
use migration_planner.Prelude.{
  ◌≡◌, refl, sym, ap, ◌∙◌, String, Bool, true, false, some, List, arith, find, any, if◌then◌else◌,
}
use migration_planner.Access.Model.{
  User, AssessmentRow, Error, Permission, Resource, is_in, forbidden, new_assessment_resource,
}
use migration_planner.Access.Store.{ok, ok_injective, Db, World, M, throw, >>=_ok}
use migration_planner.Access.Store.Effects.{Reads-query}
use migration_planner.Access.Authz.{permissions_of, get_permissions}
use migration_planner.Access.Authz.Grants.{row_grants, permissions_of-row_grants}
use migration_planner.Access.AssessmentStore.{has_id}
use migration_planner.Access.Assessments
use migration_planner.Access.Assessments.Shares.{found_assessment, get_row-Same}
use migration_planner.Access.Sharing.{require_permission}

-- Some relation gives the user the permission on the assessment.
unfoldable pub may : Permission → User → String → Db → Bool
may p user id db =
    any (row_grants db.relationships user.username (new_assessment_resource id) p) db.relationships

guarded_ok :
    {A : Type 0} (b : Bool) (m : M A) (e : Error) (w : World) (a : A)
    → ((if b then m else throw e) w).0 ≡ ok a
    → (b ≡ true) × ((if b then m else throw e) w ≡ m w)
guarded_ok true m e w a h = (refl, refl)
guarded_ok false m e w a h = ground arith

-- A guarded call that succeeds: the assessment exists, the user has the permission, and the method
-- behind the guard has run on the same tables.
pub require_permission_ok :
    {A : Type 0} (p : Permission) (user : User) (id : String)
    (inner : AssessmentRow → List Permission → M A) (w : World) (a : A)
    → (require_permission p user id inner w).0 ≡ ok a
    → (row : AssessmentRow) × (perms : List Permission) × (w' : World) × (w'.db ≡ w.db)
      × (find (has_id id) w.db.assessments ≡ some row)
      × (may p user id w.db ≡ true)
      × (require_permission p user id inner w ≡ inner row perms w')
unfolding Assessments.get_assessment get_permissions may
require_permission_ok p user id inner w a h =
    let resource_of : Db → Resource =
      λ db. permissions_of db.relationships user.username (new_assessment_resource id) in
    let (row, read, next) = >>=_ok (Assessments.get_assessment id) _ w a h in
    let w₁ = (Assessments.get_assessment id w).1 in
    let (resource, given, next₁) =
      >>=_ok (get_permissions user.username (new_assessment_resource id)) _ w₁ a
        (ap (λ o. o.0) (sym next) ∙ h) in
    let w₂ = (get_permissions user.username (new_assessment_resource id) w₁).1 in
    let (same₂, known) = Reads-query (λ db. ok (resource_of db)) w₁ in
    let (permitted, next₂) =
      guarded_ok (is_in p resource.permissions) (inner row resource.permissions) forbidden w₂ a
        (ap (λ o. o.0) (sym next₁) ∙ ap (λ o. o.0) (sym next) ∙ h) in
    let same₁ = get_row-Same id w in
    let answer : resource_of w.db ≡ resource =
      ap resource_of (sym same₁)
      ∙ ok_injective (resource_of w₁.db) resource (known resource given) in
    (
      row,
      resource.permissions,
      w₂,
      same₂ ∙ same₁,
      found_assessment id w row read,
      sym (
            permissions_of-row_grants w.db.relationships user.username (new_assessment_resource id)
              p)
          ∙ ap (λ (r : Resource). is_in p r.permissions) answer
          ∙ permitted,
      next ∙ next₁ ∙ next₂,
    )
