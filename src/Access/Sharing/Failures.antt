-- ===== src/Access/Sharing/Failures.antt =====
-- Calls of the wrapper that return an error, and the calls that only read.
use migration_planner.Prelude.{ℕ, ◌≡◌, String, List, []}
use migration_planner.Access.Model.{
  User, AssessmentRow, Error, Permission, delete_permission, share_permission, is_in, forbidden,
  new_assessment_resource,
}
use migration_planner.Access.Store.{err, World, M, ◌>>◌, pure, throw}
use migration_planner.Access.Store.Effects.{Same-query}
use migration_planner.Access.Store.Atomic.{
  Atomic, Atomic-transaction, Atomic-if, Atomic-read, Atomic-done,
}
use migration_planner.Access.Authz.{with, without, get_permissions, delete_relationships}
use migration_planner.Access.Partner.Failures.{throw-Atomic}
use migration_planner.Access.Assessments
use migration_planner.Access.Assessments.{Parser, change_share}
use migration_planner.Access.Assessments.Shares.{get_row-Same}
use migration_planner.Access.Sharing.{
  require_permission, create_body, create_assessment, delete_assessment, share_assessment,
  unshare_assessment,
}

-- The calls that change assessments or relations in one transaction.
pub data Change : Type 0 where
  create : (ℕ → String) → Parser → User → AssessmentRow → Change
  delete share unshare : User → String → Change

unfoldable pub apply : Change → M (Unit {0})
apply (create new_ids parse user form) = create_assessment new_ids parse user form >> pure tt
apply (delete user id) = delete_assessment user id
apply (share user id) = share_assessment user id
apply (unshare user id) = unshare_assessment user id

require_permission-Atomic :
    {A : Type 0} (p : Permission) (user : User) (id : String)
    (inner : AssessmentRow → List Permission → M A)
    → ((a : AssessmentRow) (perms : List Permission) → Atomic (inner a perms))
    → Atomic (require_permission p user id inner)
unfolding Assessments.get_assessment get_permissions
require_permission-Atomic p user id inner safe =
    Atomic-read (Assessments.get_assessment id) _ (get_row-Same id) λ a.
      Atomic-read (get_permissions user.username (new_assessment_resource id)) _ (Same-query _)
        λ resource.
          Atomic-if (is_in p resource.permissions) (inner a resource.permissions) (throw forbidden)
            (safe a resource.permissions) (throw-Atomic forbidden)

-- A CreateAssessment, DeleteAssessment, ShareAssessment or UnshareAssessment that returns an error
-- leaves every table as it was, whichever check refuses and whichever database call fails.
pub failed_change-Same :
    (change : Change) (w : World) (e : Error)
    → (apply change w).0 ≡ err e
    → (apply change w).1.db ≡ w.db
unfolding apply create_assessment delete_assessment share_assessment unshare_assessment
    Assessments.share_assessment Assessments.unshare_assessment
failed_change-Same (create new_ids parse user form) w e f =
    Atomic-done (create_assessment new_ids parse user form) tt
      (Atomic-transaction (create_body new_ids parse user form)) w e f
failed_change-Same (delete user id) w e f =
    require_permission-Atomic delete_permission user id _
      (λ _ _.
        Atomic-transaction
          (Assessments.delete_assessment id >> delete_relationships (new_assessment_resource id)))
      w e f
failed_change-Same (share user id) w e f =
    require_permission-Atomic share_permission user id _
      (λ _ _. Atomic-transaction (change_share (with []) user id)) w e f
failed_change-Same (unshare user id) w e f =
    require_permission-Atomic share_permission user id _
      (λ _ _. Atomic-transaction (change_share (without []) user id)) w e f
