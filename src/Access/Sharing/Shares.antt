-- ===== src/Access/Sharing/Shares.antt =====
-- ShareAssessment and UnshareAssessment, from the permission of the caller to the rows they write.
use migration_planner.Prelude.{
  ◌≡◌, sym, ap, ◌∙◌, String, true, false, not, ◌&&◌, ◌||◌, some, List, [], ◌∷◌, arith,
}
use migration_planner.Access.Model.{
  User, AssessmentRow, Permission, Relationship, RelationshipUpdate, Resource, Relation, Subject,
  touch, delete, share_permission, assessment_resource, viewer_relation, new_org_subject,
  same_relationship,
}
use migration_planner.Access.Store.{ok, Db, World, M, transaction}
use migration_planner.Access.Authz.{holds, with, without}
use migration_planner.Access.Authz.Updates.{after_updates, holds-after_updates, touch_then_delete}
use migration_planner.Access.Identity.{customer}
use migration_planner.Access.Identity.Known.{identity_of, identity_of-relations}
use migration_planner.Access.Assessments
use migration_planner.Access.Assessments.{change_share}
use migration_planner.Access.Assessments.Shares.{change_share_ok, share_update}
use migration_planner.Access.Sharing.{require_permission, share_assessment, unshare_assessment}
use migration_planner.Access.Sharing.Permitted.{may, require_permission_ok}

-- The row by which an assessment is shared with a partner's group.
abbrev pub share_of : String → String → Relationship
share_of id partner_id = record {
  resource_type = assessment_resource;
  resource_id = id;
  relation = viewer_relation;
  subject = new_org_subject partner_id;
}

-- The tables with other relations.
abbrev pub with_relations : Db → List Relationship → Db
with_relations db rows = record db { relationships = rows }

-- What both methods do when they succeed.
share_change_ok :
    (update : Resource → Relation → Subject → List RelationshipUpdate) (user : User) (id : String)
    (w : World)
    → let run =
        require_permission share_permission user id
          (λ _ _. transaction (change_share update user id)) in
      (run w).0 ≡ ok tt
      → (partner_id : String) × (may share_permission user id w.db ≡ true)
        × ((identity_of w.db user).kind ≡ customer)
        × ((identity_of w.db user).partner_id ≡ some partner_id)
        × ((run w).1.db
            ≡ with_relations w.db
                (after_updates (share_update update id partner_id) w.db.relationships))
share_change_ok update user id w h =
    let inner : AssessmentRow → List Permission → M (Unit {0}) =
      λ _ _. transaction (change_share update user id) in
    let (row, perms, w', same, _, permitted, run) =
      require_permission_ok share_permission user id inner w tt h in
    let (g, is_customer, of_partner, wrote) =
      change_share_ok update user id w' (ap (λ o. o.0) (sym run) ∙ h) in
    (
      g,
      permitted,
      ap (λ db. (identity_of db user).kind) (sym same) ∙ is_customer,
      ap (λ db. (identity_of db user).partner_id) (sym same) ∙ of_partner,
      ap (λ o. o.1.db) run
          ∙ wrote
          ∙ ap {A = Db}
              (λ db. with_relations db (after_updates (share_update update id g) db.relationships))
              same,
    )

-- A ShareAssessment that succeeds was called by a customer, who has the share permission on the
-- assessment by some relation of the table. After it the assessment is shared with the customer's
-- partner, and the table has no other new row and has lost none; the other tables are as they were.
pub holds-share_assessment :
    (user : User) (id : String) (w : World)
    → (share_assessment user id w).0 ≡ ok tt
    → (partner_id : String) × (may share_permission user id w.db ≡ true)
      × ((identity_of w.db user).kind ≡ customer)
      × ((identity_of w.db user).partner_id ≡ some partner_id)
      × ((x : Relationship)
          → holds x (share_assessment user id w).1.db.relationships
            ≡ holds x w.db.relationships || same_relationship x (share_of id partner_id))
      × (with_relations (share_assessment user id w).1.db w.db.relationships ≡ w.db)
unfolding share_assessment Assessments.share_assessment
holds-share_assessment user id w h =
    let (g, permitted, is_customer, of_partner, after) = share_change_ok (with []) user id w h in
    (
      g,
      permitted,
      is_customer,
      of_partner,
      λ x.
          ap (λ (db : Db). holds x db.relationships) after
          ∙ holds-after_updates (touch (share_of id g) ∷ []) w.db.relationships x
          ∙ ground arith,
      ap (λ db. with_relations db w.db.relationships) after,
    )

-- An UnshareAssessment that succeeds takes away the row for the customer's partner and no other.
pub holds-unshare_assessment :
    (user : User) (id : String) (w : World)
    → (unshare_assessment user id w).0 ≡ ok tt
    → (partner_id : String) × (may share_permission user id w.db ≡ true)
      × ((identity_of w.db user).kind ≡ customer)
      × ((identity_of w.db user).partner_id ≡ some partner_id)
      × ((x : Relationship)
          → holds x (unshare_assessment user id w).1.db.relationships
            ≡ holds x w.db.relationships && not (same_relationship x (share_of id partner_id)))
      × (with_relations (unshare_assessment user id w).1.db w.db.relationships ≡ w.db)
unfolding unshare_assessment Assessments.unshare_assessment
holds-unshare_assessment user id w h =
    let (g, permitted, is_customer, of_partner, after) = share_change_ok (without []) user id w h in
    (
      g,
      permitted,
      is_customer,
      of_partner,
      λ x.
          ap (λ (db : Db). holds x db.relationships) after
          ∙ holds-after_updates (delete (share_of id g) ∷ []) w.db.relationships x
          ∙ ground arith,
      ap (λ db. with_relations db w.db.relationships) after,
    )

some_injective : (x y : String) → some x ≡ some y → x ≡ y
some_injective x y h = ground arith

-- An UnshareAssessment right after the ShareAssessment of the same user, both with success, leaves
-- every table exactly as it was, where the assessment was not shared with the partner before.
pub unshare_assessment-share_assessment :
    (user : User) (id partner_id : String) (w : World)
    → (identity_of w.db user).partner_id ≡ some partner_id
    → holds (share_of id partner_id) w.db.relationships ≡ false
    → (share_assessment user id w).0 ≡ ok tt
    → (unshare_assessment user id (share_assessment user id w).1).0 ≡ ok tt
    → (unshare_assessment user id (share_assessment user id w).1).1.db ≡ w.db
unfolding share_assessment Assessments.share_assessment unshare_assessment
    Assessments.unshare_assessment
unshare_assessment-share_assessment user id partner_id w mine absent first second =
    let w₁ = (share_assessment user id w).1 in
    let (g, _, _, of_g, shared) = share_change_ok (with []) user id w first in
    let (k, _, _, of_k, unshared) = share_change_ok (without []) user id w₁ second in
    let same_g : g ≡ partner_id = some_injective g partner_id (sym of_g ∙ mine) in
    let same_k : k ≡ partner_id = some_injective k partner_id (
      sym of_k
      ∙ ap (λ db. (identity_of db user).partner_id) shared
      ∙ ap (λ i. i.partner_id) (identity_of-relations w.db _ user)
      ∙ mine) in
    unshared
    ∙ ap (λ db. with_relations db (after_updates (share_update (without []) id k) db.relationships))
        shared
    ∙ ap
        (λ i. with_relations w.db (
          after_updates (share_update (without []) id i)
            (after_updates (share_update (with []) id g) w.db.relationships)))
        same_k
    ∙ ap
        (λ i. with_relations w.db (
          after_updates (share_update (without []) id partner_id)
            (after_updates (share_update (with []) id i) w.db.relationships)))
        same_g
    ∙ ap (with_relations w.db)
        (touch_then_delete (share_of id partner_id) w.db.relationships absent)
