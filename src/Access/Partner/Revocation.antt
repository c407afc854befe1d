-- ===== src/Access/Partner/Revocation.antt =====
-- What the end of a partnership leaves of the relations: the shares of the user with the partner
-- are gone, and nothing else.
use mathlib.Core.Path.{ap₂}
use migration_planner.Prelude.{
  ℕ, String, ◌≡◌, refl, sym, ap, ◌∙◌, Bool, not, ◌&&◌, ◌||◌, List, [], ◌∷◌, ◌++◌, arith, str_eq,
  any, filter, any-filter,
}
use migration_planner.Access.Model.{
  User, accepted, resource_not_found, PartnerCustomer, Relationship, RelationshipUpdate, touch,
  delete, AssessmentRow, viewer_relation, new_assessment_resource, new_org_subject,
  same_relationship,
}
use migration_planner.Access.Store.{
  ok, ok_injective, Db, World, throw, catch, ◌>>◌, statement, query, transaction_ok, >>=_ok,
}
use migration_planner.Access.Store.Effects.{
  Effects, Reads-query, Effects-statement, Effects-transaction, Effects-then_read,
}
use migration_planner.Access.Authz.{touch_rows, delete_rows, holds, without}
use migration_planner.Access.Authz.Updates.{holds-write_relationships}
use migration_planner.Access.Requests.{
  list_assessments, PartnerQueryFilter, by_username, by_partner_id, by_status, get_request,
  update_statement, update_request, first_request,
}
use migration_planner.Access.Partner.{
  termination, revocations, revoke_all, revoke_shared_assessments, terminate, not_found_as,
  leave_partner,
}
use migration_planner.Access.Partner.Lifecycle.{Reads-get_request}

-- The row by which the assessment is shared with the partner's group.
abbrev pub share_row : String → AssessmentRow → Relationship
share_row partner_id a = record {
  resource_type = (new_assessment_resource a.id).type;
  resource_id = (new_assessment_resource a.id).id;
  relation = viewer_relation;
  subject = new_org_subject partner_id;
}

pub is_share_of : String → Relationship → AssessmentRow → Bool
is_share_of partner_id x a = same_relationship x (share_row partner_id a)

delete_rows-append :
    (x : Relationship) (us vs : List RelationshipUpdate)
    → holds x (delete_rows (us ++ vs)) ≡ holds x (delete_rows us) || holds x (delete_rows vs)
delete_rows-append x [] vs = refl
delete_rows-append x (touch r ∷ us) vs = delete_rows-append x us vs
delete_rows-append x (delete r ∷ us) vs = ground (arith, delete_rows-append x us vs)

touch_rows-append :
    (x : Relationship) (us vs : List RelationshipUpdate)
    → holds x (touch_rows (us ++ vs)) ≡ holds x (touch_rows us) || holds x (touch_rows vs)
touch_rows-append x [] vs = refl
touch_rows-append x (touch r ∷ us) vs = ground (arith, touch_rows-append x us vs)
touch_rows-append x (delete r ∷ us) vs = touch_rows-append x us vs

revocations_delete :
    (partner_id : String) (x : Relationship) (us : List RelationshipUpdate)
    (rows : List AssessmentRow)
    → holds x (delete_rows (revocations partner_id us rows))
      ≡ holds x (delete_rows us) || any (is_share_of partner_id x) rows
unfolding is_share_of
revocations_delete partner_id x us [] = ground arith
revocations_delete partner_id x us (a ∷ rest) =
    let us' =
      without us (new_assessment_resource a.id) viewer_relation (new_org_subject partner_id) in
    ground (
      arith,
      revocations_delete partner_id x us' rest,
      delete_rows-append x us (delete (share_row partner_id a) ∷ []),
    )

revocations_touch :
    (partner_id : String) (x : Relationship) (us : List RelationshipUpdate)
    (rows : List AssessmentRow)
    → holds x (touch_rows (revocations partner_id us rows)) ≡ holds x (touch_rows us)
revocations_touch partner_id x us [] = refl
revocations_touch partner_id x us (a ∷ rest) =
    let us' =
      without us (new_assessment_resource a.id) viewer_relation (new_org_subject partner_id) in
    revocations_touch partner_id x us' rest
    ∙ ground (arith, touch_rows-append x us (delete (share_row partner_id a) ∷ []))

holds-revoke_all :
    (partner_id : String) (rows : List AssessmentRow) (w : World)
    → (revoke_all partner_id rows w).0 ≡ ok tt
    → (x : Relationship)
    → holds x (revoke_all partner_id rows w).1.db.relationships
      ≡ holds x w.db.relationships && not (any (is_share_of partner_id x) rows)
holds-revoke_all partner_id [] w h x = ground arith
holds-revoke_all partner_id (a ∷ rest) w h x =
    let updates = revocations partner_id [] (a ∷ rest) in
    ground (
      arith,
      (holds-write_relationships updates w h x).0,
      revocations_touch partner_id x [] (a ∷ rest),
      revocations_delete partner_id x [] (a ∷ rest),
    )

-- Some assessment of the user is shared by the row.
pub is_share : List AssessmentRow → String → String → Relationship → Bool
unfolding is_share_of
is_share assessments username partner_id x =
    any (λ (a : AssessmentRow). str_eq a.username username && is_share_of partner_id x a)
      assessments

any-of_user :
    (username partner_id : String) (x : Relationship) (rows : List AssessmentRow)
    → any
        (is_share_of partner_id x)
        (filter (λ (a : AssessmentRow). str_eq a.username username) rows)
      ≡ is_share rows username partner_id x
unfolding is_share
any-of_user username partner_id x rows =
    any-filter (is_share_of partner_id x) (λ (a : AssessmentRow). str_eq a.username username) rows

list_assessments_ok :
    (username : String) (w : World) (rows : List AssessmentRow)
    → (list_assessments username w).0 ≡ ok rows
    → ((list_assessments username w).1.db ≡ w.db)
      × (filter (λ (a : AssessmentRow). str_eq a.username username) w.db.assessments ≡ rows)
unfolding list_assessments
list_assessments_ok username w rows h =
    let (same, listed) =
      Reads-query
        (λ db. ok (filter (λ (a : AssessmentRow). str_eq a.username username) db.assessments)) w in
    (same, ok_injective _ rows (listed rows h))

holds-revoke_shared_assessments :
    (username partner_id : String) (w : World)
    → (revoke_shared_assessments username partner_id w).0 ≡ ok tt
    → (x : Relationship)
    → holds x (revoke_shared_assessments username partner_id w).1.db.relationships
      ≡ holds x w.db.relationships && not (is_share w.db.assessments username partner_id x)
unfolding revoke_shared_assessments
holds-revoke_shared_assessments username partner_id w h x =
    let (rows, found, rest) = >>=_ok (list_assessments username) (revoke_all partner_id) w tt h in
    let (same, listed) = list_assessments_ok username w rows found in
    let w₁ = (list_assessments username w).1 in
    ap (λ o. holds x o.1.db.relationships) rest
    ∙ holds-revoke_all partner_id rows w₁ (ap (λ o. o.0) (sym rest) ∙ h) x
    ∙ ap₂ (λ (db : Db) b. holds x db.relationships && not b) same
        (ap (any (is_share_of partner_id x)) (sym listed)
          ∙ any-of_user username partner_id x w.db.assessments)

-- Relations and assessments stay as they are.
abbrev KeepsRelations : Db → Db → Type 0
KeepsRelations db db' = (db'.relationships ≡ db.relationships) × (db'.assessments ≡ db.assessments)

update_request-KeepsRelations : (pc : PartnerCustomer) → Effects KeepsRelations (update_request pc)
unfolding update_request
update_request-KeepsRelations pc =
    Effects-transaction KeepsRelations (λ db. (refl, refl))
      (statement (update_statement pc) >> query (first_request pc.id))
      (Effects-then_read KeepsRelations (λ db. (refl, refl))
        (λ _ db x. first_request pc.id db ≡ ok x) (statement (update_statement pc))
        (λ _. query (first_request pc.id))
        (Effects-statement KeepsRelations (λ db. (refl, refl)) (update_statement pc)
          (λ db db' a h. (ground arith, ground arith)))
        (λ _. Reads-query (first_request pc.id)))

-- The transaction that ends a partnership, when it succeeds.
holds-terminate :
    (now : ℕ) (pc : PartnerCustomer) (username partner_id : String) (w : World)
    → (terminate now pc username partner_id w).0 ≡ ok tt
    → (x : Relationship)
    → holds x (terminate now pc username partner_id w).1.db.relationships
      ≡ holds x w.db.relationships && not (is_share w.db.assessments username partner_id x)
unfolding terminate
holds-terminate now pc username partner_id w h x =
    let update = update_request (termination now pc) in
    let revoke = revoke_shared_assessments username partner_id in
    let (w₀, start, ran, kept) = transaction_ok (update >> revoke) w tt h in
    let (_, updated, rest) = >>=_ok update (λ _. revoke) w₀ tt ran in
    let (relations, assessments) = update_request-KeepsRelations (termination now pc) w₀ in
    ap (λ (db : Db). holds x db.relationships) kept
    ∙ ap (λ o. holds x o.1.db.relationships) rest
    ∙ holds-revoke_shared_assessments username partner_id (update w₀).1
        (ap (λ o. o.0) (sym rest) ∙ ran) x
    ∙ ap₂ (λ rs rows. holds x rs && not (is_share rows username partner_id x)) relations assessments
    ∙ ap
        (λ (db : Db).
          holds x db.relationships && not (is_share db.assessments username partner_id x))
        start

-- After a LeavePartner that succeeds the user's shares with that partner are gone, those with a
-- row for any of the user's assessments; every other row of the relations is as it was.
pub holds-leave_partner :
    (now : ℕ) (user : User) (partner_id : String) (w : World)
    → (leave_partner now user partner_id w).0 ≡ ok tt
    → (x : Relationship)
    → holds x (leave_partner now user partner_id w).1.db.relationships
      ≡ holds x w.db.relationships && not (is_share w.db.assessments user.username partner_id x)
unfolding leave_partner get_request
holds-leave_partner now user partner_id w h x =
    let tests : PartnerQueryFilter =
      by_username user.username ∷ by_partner_id partner_id ∷ by_status accepted ∷ [] in
    let found = catch (get_request tests) (λ e. throw (not_found_as resource_not_found e)) in
    let (pc, _, rest) = >>=_ok found (λ pc. terminate now pc user.username partner_id) w tt h in
    let (same, _) = Reads-get_request tests (not_found_as resource_not_found) w in
    ap (λ o. holds x o.1.db.relationships) rest
    ∙ holds-terminate now pc user.username partner_id (found w).1 (ap (λ o. o.0) (sym rest) ∙ h) x
    ∙ ap
        (λ (db : Db).
          holds x db.relationships && not (is_share db.assessments user.username partner_id x))
        same
