-- ===== src/Access/Assessments/Shares.antt =====
-- What sharing an assessment does to the relations: one row for the partner of the customer.
use migration_planner.Prelude.{
  ◌≡◌, refl, sym, ap, ◌∙◌, String, Option, none, some, List, arith, find,
}
use migration_planner.Access.Model.{
  User, AssessmentRow, Resource, Relation, Subject, RelationshipUpdate, viewer_relation,
  new_assessment_resource, new_org_subject, resource_not_found,
}
use migration_planner.Access.Store.{
  ok, ok_injective, Db, World, throw, catch, transaction, transaction_ok, >>=_ok,
}
use migration_planner.Access.Store.Effects.{Reads-query, Reads-catch}
use migration_planner.Access.Authz.Updates.{after_updates, write_relationships_ok}
use migration_planner.Access.Requests.{or_not_found}
use migration_planner.Access.Identity.{
  IdentityKind, customer, regular, partner, admin, get_identity,
}
use migration_planner.Access.Identity.Known.{identity_of, get_identity-identity_of}
use migration_planner.Access.Partner.{not_found_as}
use migration_planner.Access.AssessmentStore.{has_id, get_assessment_row}
use migration_planner.Access.Assessments.{partner_of, change_share}

pub or_not_found-some : {A : Type 0} (o : Option A) (a : A) → or_not_found o ≡ ok a → o ≡ some a
or_not_found-some none a h = ground arith
or_not_found-some (some x) a h = ap some (ok_injective x a h)

-- The assessment that a read finds.
pub found_assessment :
    (id : String) (w : World) (a : AssessmentRow)
    → (catch (get_assessment_row id) (λ e. throw (not_found_as resource_not_found e)) w).0 ≡ ok a
    → find (has_id id) w.db.assessments ≡ some a
unfolding get_assessment_row
found_assessment id w a h = or_not_found-some _ a (
    (Reads-catch (λ db a. or_not_found (find (has_id id) db.assessments) ≡ ok a)
        (get_assessment_row id) (not_found_as resource_not_found)
        (Reads-query (λ db. or_not_found (find (has_id id) db.assessments))) w).1
      a h)

pub get_row-Same :
    (id : String) (w : World)
    → (catch (get_assessment_row id) (λ e. throw (not_found_as resource_not_found e)) w).1.db ≡ w.db
unfolding get_assessment_row
get_row-Same id w =
    (Reads-catch (λ db a. or_not_found (find (has_id id) db.assessments) ≡ ok a)
      (get_assessment_row id) (not_found_as resource_not_found)
      (Reads-query (λ db. or_not_found (find (has_id id) db.assessments))) w).0

partner_of_ok :
    (kind : IdentityKind) (partner_id : Option String) (w : World) (g : String)
    → (partner_of kind partner_id w).0 ≡ ok g
    → (kind ≡ customer) × (partner_id ≡ some g) × ((partner_of kind partner_id w).1 ≡ w)
partner_of_ok kind none w g h = ground arith
partner_of_ok customer (some p) w g h = (refl, ap some (ok_injective p g h), refl)
partner_of_ok regular (some p) w g h = ground arith
partner_of_ok partner (some p) w g h = ground arith
partner_of_ok admin (some p) w g h = ground arith

-- The update that is written for the partner.
abbrev pub share_update :
    (Resource → Relation → Subject → List RelationshipUpdate)
    → String
    → String
    → List RelationshipUpdate
share_update update id partner_id =
    update (new_assessment_resource id) viewer_relation (new_org_subject partner_id)

-- A change of a share that succeeds: the assessment exists, the user is a customer, and the one
-- update for their partner is written.
pub change_share_ok :
    (update : Resource → Relation → Subject → List RelationshipUpdate) (user : User) (id : String)
    (w : World)
    → (transaction (change_share update user id) w).0 ≡ ok tt
    → (partner_id : String) × ((identity_of w.db user).kind ≡ customer)
      × ((identity_of w.db user).partner_id ≡ some partner_id)
      × ((transaction (change_share update user id) w).1.db ≡ record w.db {
        relationships = after_updates (share_update update id partner_id) w.db.relationships;
      })
change_share_ok update user id w h =
    let reader = catch (get_assessment_row id) (λ e. throw (not_found_as resource_not_found e)) in
    let (w₀, start, ran, kept) = transaction_ok (change_share update user id) w tt h in
    let (a, _, next) = >>=_ok reader _ w₀ tt ran in
    let w₁ = (reader w₀).1 in
    let (identity, known, next₁) =
      >>=_ok (get_identity user) _ w₁ tt (ap (λ o. o.0) (sym next) ∙ ran) in
    let w₂ = (get_identity user w₁).1 in
    let (g, is_customer, next₂) =
      >>=_ok (partner_of identity.kind identity.partner_id) _ w₂ tt
        (ap (λ o. o.0) (sym next₁) ∙ ap (λ o. o.0) (sym next) ∙ ran) in
    let (kind, of_partner, same₂) =
      partner_of_ok identity.kind identity.partner_id w₂ g is_customer in
    let (same₁, is_known) = get_identity-identity_of user w₁ in
    let w₃ = (partner_of identity.kind identity.partner_id w₂).1 in
    let wrote =
      write_relationships_ok (share_update update id g) w₃
        (ap (λ o. o.0) (sym next₂) ∙ ap (λ o. o.0) (sym next₁) ∙ ap (λ o. o.0) (sym next) ∙ ran) in
    let before : w₁.db ≡ w.db = get_row-Same id w₀ ∙ start in
    let all : w₃.db ≡ w.db = ap (λ x. x.db) same₂ ∙ same₁ ∙ before in
    let same_identity : identity ≡ identity_of w.db user =
      is_known identity known ∙ ap (λ db. identity_of db user) before in
    (
      g,
      ap (λ i. i.kind) (sym same_identity) ∙ kind,
      ap (λ i. i.partner_id) (sym same_identity) ∙ of_partner,
      kept
          ∙ ap (λ o. o.1.db) (next ∙ next₁ ∙ next₂)
          ∙ wrote
          ∙ ap
              (λ (db : Db). record db {
                relationships = after_updates (share_update update id g) db.relationships;
              })
              all,
    )
