-- ===== src/Access/Sharing/Creation.antt =====
-- CreateAssessment, from the form to the permissions of the one who made it.
use mathlib.Core.Path.{subst, subst₂}
use migration_planner.Prelude.{
  ℕ, ◌≡◌, refl, sym, ap, ◌∙◌, String, Bool, true, false, List, [], ◌∷◌, ◌++◌, arith, any,
}
use text.Mathlib.TextPositions.{eq_refl}
use migration_planner.Access.Model.{
  User, AssessmentRow, Error, Permission, read_permission, edit_permission, share_permission,
  delete_permission, Relationship, assessment_resource, owner_relation, new_user_subject,
  new_assessment_resource, same_relationship, same_relationship_eq, same_relationship_refl,
  duplicate_name,
}
use migration_planner.Access.Store.{
  ok, ok_injective, Db, World, pure, throw, catch, catch_result, Result, err, transaction_ok,
  >>=_ok,
}
use migration_planner.Access.Authz.{holds, with, write_relationships}
use migration_planner.Access.Authz.Grants.{row_grants}
use migration_planner.Access.Authz.Updates.{
  after_updates, holds-after_updates, write_relationships_ok,
}
use migration_planner.Access.Accounts.{duplicate_as}
use migration_planner.Access.AssessmentStore.{same_assessment, create_assessment_row}
use migration_planner.Access.Assessments
use migration_planner.Access.Assessments.{Parser, with_inventories}
use migration_planner.Access.Assessments.Creation.{
  Fills, OwnSource, is_given, with_inventories-Same, with_inventories-Fills,
}
use migration_planner.Access.Assessments.Rows.{create_assessment_row_ok}
use migration_planner.Access.Sharing.{create_body, create_assessment}
use migration_planner.Access.Sharing.Permitted.{may}

-- The row by which the user owns the assessment.
abbrev owner_of : String → String → Relationship
owner_of id username = record {
  resource_type = assessment_resource;
  resource_id = id;
  relation = owner_relation;
  subject = new_user_subject username;
}

any_held :
    (f : Relationship → Bool) (x : Relationship) (rows : List Relationship)
    → holds x rows ≡ true
    → f x ≡ true
    → any f rows ≡ true
any_held f x [] h k = ground arith
any_held f x (r ∷ rows) h k =
    let moved : same_relationship x r ≡ true → f x ≡ f r = λ e. ap f (same_relationship_eq x r e) in
    ground (arith, moved, any_held f x rows)

owner_grants :
    (table : List Relationship) (user : User) (id : String) (p : Permission)
    → row_grants table user.username (new_assessment_resource id) p (owner_of id user.username)
      ≡ true
unfolding row_grants
owner_grants table user id read_permission = ground (arith, eq_refl id, eq_refl user.username)
owner_grants table user id edit_permission = ground (arith, eq_refl id, eq_refl user.username)
owner_grants table user id share_permission = ground (arith, eq_refl id, eq_refl user.username)
owner_grants table user id delete_permission = ground (arith, eq_refl id, eq_refl user.username)

caught_ok :
    {A : Type 0} (c : Error → Error) (o : Result A × World) (a : A)
    → (catch_result (λ e. throw {A = A} (c e)) o.0 o.1).0 ≡ ok a
    → (o.0 ≡ ok a) × (catch_result (λ e. throw {A = A} (c e)) o.0 o.1 ≡ o)
caught_ok c (ok x, w) a h = (h, refl)
caught_ok c (err e, w) a h = ground arith

service_create_ok :
    (new_ids : ℕ → String) (parse : Parser) (form : AssessmentRow) (w : World) (a : AssessmentRow)
    → (Assessments.create_assessment true new_ids parse form w).0 ≡ ok a
    → Fills form a
      × OwnSource (is_given form) new_ids parse w.db form form.source_id a.inventories
      × (any (same_assessment a) w.db.assessments ≡ false)
      × ((Assessments.create_assessment true new_ids parse form w).1.db
          ≡ record w.db { assessments = w.db.assessments ++ a ∷ [] })
unfolding Assessments.create_assessment
service_create_ok new_ids parse form w a h =
    let write = λ (b : AssessmentRow).
      catch (create_assessment_row b) (λ e. throw (duplicate_as duplicate_name e)) in
    let (b, filled, next) = >>=_ok (with_inventories new_ids parse form) write w a h in
    let w₁ = (with_inventories new_ids parse form w).1 in
    let same = with_inventories-Same new_ids parse form w in
    let (fills, own) = with_inventories-Fills new_ids parse form w b filled in
    let (created, kept) =
      caught_ok (duplicate_as duplicate_name) (create_assessment_row b w₁) a
        (ap (λ o. o.0) (sym next) ∙ h) in
    let (one, fresh, after) = create_assessment_row_ok b w₁ a created in
    subst
      (λ x.
        Fills form x
        × OwnSource (is_given form) new_ids parse w.db form form.source_id x.inventories
        × (any (same_assessment x) w.db.assessments ≡ false)
        × ((Assessments.create_assessment true new_ids parse form w).1.db
            ≡ record w.db { assessments = w.db.assessments ++ x ∷ [] }))
      (sym one)
      (
        fills,
        own,
        ap (λ (db : Db). any (same_assessment b) db.assessments) (sym same) ∙ fresh,
        ap (λ o. o.1.db) (next ∙ kept)
            ∙ after
            ∙ ap {A = Db} (λ db. record db { assessments = db.assessments ++ b ∷ [] }) same,
      )

-- What creation leaves: the form filled with inventories, its own or made of a source, stands last,
-- where no assessment had its id, or its user, organization and name; and the user may do everything
-- with it.
abbrev pub Created : (ℕ → String) → Parser → User → AssessmentRow → Db → AssessmentRow → Db → Type 0
Created new_ids parse user form before a after =
    Fills form a
    × OwnSource (is_given form) new_ids parse before form form.source_id a.inventories
    × (any (same_assessment a) before.assessments ≡ false)
    × (after.assessments ≡ before.assessments ++ a ∷ [])
    × ((p : Permission) → may p user a.id after ≡ true)

create_body_ok :
    (new_ids : ℕ → String) (parse : Parser) (user : User) (form : AssessmentRow) (w : World)
    (a : AssessmentRow)
    → (create_body new_ids parse user form w).0 ≡ ok a
    → Created new_ids parse user form w.db a (create_body new_ids parse user form w).1.db
unfolding may
create_body_ok new_ids parse user form w a h =
    let inner = Assessments.create_assessment true new_ids parse form in
    let updates = λ (x : AssessmentRow).
      with [] (new_assessment_resource x.id) owner_relation (new_user_subject user.username) in
    let (b, made, next) = >>=_ok inner _ w a h in
    let w₁ = (inner w).1 in
    let (_, wrote, last) =
      >>=_ok (write_relationships (updates b)) (λ _. pure b) w₁ a (ap (λ o. o.0) (sym next) ∙ h) in
    let one : b ≡ a = ok_injective b a (ap (λ o. o.0) (sym last) ∙ ap (λ o. o.0) (sym next) ∙ h) in
    let (fills, own, fresh, after) = service_create_ok new_ids parse form w b made in
    let final = ap (λ o. o.1.db) (next ∙ last) ∙ write_relationships_ok (updates b) w₁ wrote in
    let table = after_updates (updates b) w₁.db.relationships in
    let owner = owner_of b.id user.username in
    let held : holds owner table ≡ true =
      holds-after_updates (updates b) w₁.db.relationships owner
      ∙ ground (arith, same_relationship_refl owner) in
    subst (λ x. Created new_ids parse user form w.db x (create_body new_ids parse user form w).1.db)
      one
      (
        fills,
        own,
        fresh,
        ap (λ (db : Db). db.assessments) final ∙ ap (λ (db : Db). db.assessments) after,
        λ p.
            ap (may p user b.id) final
            ∙ any_held (row_grants table user.username (new_assessment_resource b.id) p) owner table
                held (owner_grants table user b.id p),
      )

-- A CreateAssessment that succeeds returns the assessment of the form, filled with inventories,
-- which stands last among the assessments; none before it had its id, or its user, organization
-- and name. Its creator has every permission on it. For the types "rvtools" and "inventory" the
-- inventories are the form's. Else they are made of a source of the same user and organization:
-- first the one that is no subset, with the name of the assessment and the virtual machines of the
-- source's inventory, which has some; then one of each subset of the source, with its name and
-- virtual machines; with new ids in this order.
pub create_assessment-Created :
    (new_ids : ℕ → String) (parse : Parser) (user : User) (form : AssessmentRow) (w : World)
    (a : AssessmentRow)
    → (create_assessment new_ids parse user form w).0 ≡ ok a
    → Created new_ids parse user form w.db a (create_assessment new_ids parse user form w).1.db
unfolding create_assessment
create_assessment-Created new_ids parse user form w a h =
    let (w₀, start, ran, kept) = transaction_ok (create_body new_ids parse user form) w a h in
    subst₂ (λ x y. Created new_ids parse user form x a y) start (sym kept)
      (create_body_ok new_ids parse user form w₀ a ran)
