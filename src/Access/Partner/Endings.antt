-- ===== src/Access/Partner/Endings.antt =====
-- The methods that end an accepted request: the request and the relations change together.
use mathlib.Core.Path.{subst}
use migration_planner.Prelude.{
  ℕ, String, ◌≡◌, refl, sym, ◌∙◌, Bool, true, Option, none, some, List, [], ◌∷◌, arith,
}
use migration_planner.Access.Model.{
  cancelled, accepted, PartnerCustomer, User, resource_not_found, Relationship, RelationshipUpdate,
  AssessmentRow,
}
use migration_planner.Access.Store.{Db, ◌>>◌, throw, catch}
use migration_planner.Access.Store.Effects.{
  Effects, Reads-query, Effects-statement, Effects-transaction, Effects-read, Effects-bind,
  Reads-Same,
}
use migration_planner.Access.Authz.{
  touch_rows, delete_rows, touch_statement, delete_statement, write_relationships,
}
use migration_planner.Access.Requests.{
  list_assessments, PartnerQueryFilter, matches, by_username, by_partner_id, by_status, get_request,
  update_request,
}
use migration_planner.Access.Identity.{get_identity}
use migration_planner.Access.Partner.Reading.{get_identity-Same}
use migration_planner.Access.Partner.{
  not_found_as, termination, revocations, revoke_all, revoke_shared_assessments, terminate,
  leave_partner, remove_customer, remove_customer_of,
}
use migration_planner.Access.Partner.Rows.{may_become, Moves, Moves-refl, UniqueIds, find_passes}
use migration_planner.Access.Partner.Lifecycle.{
  Lives, Lives-refl, Lives-trans, Found, Reads-get_request, Updates, update_request-Updates,
}

-- The rows of requests do not change.
abbrev Keeps : Db → Db → Type 0
Keeps db db' = db'.requests ≡ db.requests

Lives-Keeps : (db db' : Db) → Keeps db db' → Lives db db'
Lives-Keeps db db' h u =
    (subst UniqueIds (sym h) u, subst (Moves db.requests) (sym h) (Moves-refl db.requests))

touch_statement-Keeps : (rows : List Relationship) → Effects Keeps (touch_statement rows)
touch_statement-Keeps [] w = refl
touch_statement-Keeps (r ∷ rs) w =
    Effects-statement Keeps (λ _. refl) _ (λ db db' a h. ground arith) w

delete_statement-Keeps : (rows : List Relationship) → Effects Keeps (delete_statement rows)
delete_statement-Keeps [] w = refl
delete_statement-Keeps (r ∷ rs) w =
    Effects-statement Keeps (λ _. refl) _ (λ db db' a h. ground arith) w

write_relationships-Keeps :
    (updates : List RelationshipUpdate) → Effects Keeps (write_relationships updates)
unfolding write_relationships
write_relationships-Keeps updates =
    Effects-bind Keeps (λ _. refl) Keeps (touch_statement (touch_rows updates))
      (λ _. delete_statement (delete_rows updates)) (λ x y z h k. k ∙ h)
      (touch_statement-Keeps (touch_rows updates))
      (λ _. delete_statement-Keeps (delete_rows updates))

revoke_all-Keeps :
    (partner_id : String) (rows : List AssessmentRow) → Effects Keeps (revoke_all partner_id rows)
revoke_all-Keeps partner_id [] w = refl
revoke_all-Keeps partner_id (a ∷ rest) w =
    write_relationships-Keeps (revocations partner_id [] (a ∷ rest)) w

revoke_shared_assessments-Keeps :
    (username partner_id : String) → Effects Keeps (revoke_shared_assessments username partner_id)
unfolding revoke_shared_assessments list_assessments
revoke_shared_assessments-Keeps username partner_id =
    Effects-read Keeps (λ _. refl) (λ db rows. Unit {0}) (list_assessments username)
      (revoke_all partner_id) (λ w. ((Reads-query _ w).0, λ a h. tt))
      (λ rows w _. revoke_all-Keeps partner_id rows w)

-- The transaction that ends an accepted request.
terminate-Updates :
    (now : ℕ) (tests : PartnerQueryFilter) (pc : PartnerCustomer) (username partner_id : String)
    → may_become pc.request_status cancelled ≡ true
    → Effects (Updates tests pc) (terminate now pc username partner_id)
unfolding terminate
terminate-Updates now tests pc username partner_id allowed =
    Effects-transaction (Updates tests pc) (λ db f. Lives-refl db)
      (update_request (termination now pc) >> revoke_shared_assessments username partner_id)
      (Effects-bind (Updates tests pc) (λ db f. Lives-refl db) Keeps
        (update_request (termination now pc)) (λ _. revoke_shared_assessments username partner_id)
        (λ x y z h k f. Lives-trans x y z (h f) (Lives-Keeps y z k))
        (update_request-Updates tests pc (termination now pc) refl allowed)
        (λ _. revoke_shared_assessments-Keeps username partner_id))

accepted_may_become :
    (pc : PartnerCustomer)
    → by_status accepted pc ≡ true
    → may_become pc.request_status cancelled ≡ true
accepted_may_become pc h = ground arith

accepted_of_Found :
    (test₁ test₂ : PartnerCustomer → Bool) (pc : PartnerCustomer) (db : Db)
    → Found (test₁ ∷ test₂ ∷ by_status accepted ∷ []) db pc
    → may_become pc.request_status cancelled ≡ true
accepted_of_Found test₁ test₂ pc db found =
    let passes =
      find_passes (matches (test₁ ∷ test₂ ∷ by_status accepted ∷ [])) db.requests pc found in
    accepted_may_become pc (ground arith)

-- LeavePartner, whoever calls it for whichever partner.
pub leave_partner-Lives :
    (now : ℕ) (user : User) (partner_id : String)
    → Effects Lives (leave_partner now user partner_id)
unfolding leave_partner
leave_partner-Lives now user partner_id =
    let by_user = by_username user.username in
    let tests : PartnerQueryFilter = by_user ∷ by_partner_id partner_id ∷ by_status accepted ∷ [] in
    Effects-read Lives Lives-refl (Found tests)
      (catch (get_request tests) (λ e. throw (not_found_as resource_not_found e))) _
      (Reads-get_request tests (not_found_as resource_not_found))
      λ pc w found.
        terminate-Updates now tests pc user.username partner_id
          (accepted_of_Found by_user (by_partner_id partner_id) pc w.db found) w found

-- The end of RemoveCustomer, for the partner's group.
remove_customer_of-Lives :
    (now : ℕ) (username : String) (group_id : Option String)
    → Effects Lives (remove_customer_of now username group_id)
remove_customer_of-Lives now username none w = Lives-refl w.db
remove_customer_of-Lives now username (some group_id) w =
    let tests : PartnerQueryFilter =
      by_username username ∷ by_partner_id group_id ∷ by_status accepted ∷ [] in
    Effects-read Lives Lives-refl (Found tests)
      (catch (get_request tests) (λ e. throw (not_found_as resource_not_found e)))
      (λ pc. terminate now pc username pc.partner_id)
      (Reads-get_request tests (not_found_as resource_not_found))
      (λ pc w found.
        terminate-Updates now tests pc username pc.partner_id
          (accepted_of_Found (by_username username) (by_partner_id group_id) pc w.db found) w found)
      w

-- RemoveCustomer, whoever calls it for whichever user.
pub remove_customer-Lives :
    (now : ℕ) (user : User) (username : String) → Effects Lives (remove_customer now user username)
unfolding remove_customer
remove_customer-Lives now user username =
    Effects-read Lives Lives-refl (λ db a. Unit {0}) (get_identity user)
      (λ identity. remove_customer_of now username identity.group_id)
      (Reads-Same (get_identity user) (get_identity-Same user))
      (λ identity w _. remove_customer_of-Lives now username identity.group_id w)
