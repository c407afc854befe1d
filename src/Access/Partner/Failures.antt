-- ===== src/Access/Partner/Failures.antt =====
-- A call that returns an error changes nothing, whichever of its database calls fails.
use migration_planner.Prelude.{ℕ, String, ◌≡◌, refl, not, ◌&&◌, Option, none, some, [], ◌∷◌, str_eq}
use migration_planner.Access.Model.{
  User, Request, Error, PartnerCustomer, pending, accepted, rejected, same_status, invalid_request,
  resource_not_found, active_request_exists,
}
use migration_planner.Access.Store.{err, World, ◌>>◌, throw, catch, statement, query}
use migration_planner.Access.Store.Effects.{Effects, Same, Same-query, Same-catch}
use migration_planner.Access.Store.Atomic.{
  Atomic, Atomic-transaction, Atomic-catch, Atomic-if, Atomic-read, Atomic-done,
}
use migration_planner.Access.Requests.{
  PartnerQueryFilter, by_id, by_username, by_partner_id, by_status, get_request, list_requests,
  create_request, insert_request, update_request, update_statement, first_request,
}
use migration_planner.Access.Identity.{get_identity}
use migration_planner.Access.Partner.{
  Uuids, not_found_as, duplicate_as_active, has_active, partner_group, termination, terminate,
  revoke_shared_assessments, create_partner_request, cancel_partner_request, leave_partner,
  update_partner_request, remove_customer, remove_customer_of,
}
use migration_planner.Access.Partner.Reading.{get_identity-Same, partner_group-Same}
use migration_planner.Access.Partner.Calls.{Call, create, cancel, leave, answer, remove, serve}

pub found-Same :
    (tests : PartnerQueryFilter)
    → Effects Same (catch (get_request tests) (λ e. throw (not_found_as resource_not_found e)))
unfolding get_request
found-Same tests =
    Same-catch (get_request tests) (λ e. throw (not_found_as resource_not_found e)) (Same-query _)
      (λ e w. refl)

pub throw-Atomic : {A : Type 0} (e : Error) → Atomic {A = A} (throw e)
throw-Atomic e w x f = refl

create_request-Atomic : (pc : PartnerCustomer) → Atomic (create_request pc)
unfolding create_request
create_request-Atomic pc =
    Atomic-transaction (statement (insert_request pc) >> query (first_request pc.id))

update_request-Atomic : (pc : PartnerCustomer) → Atomic (update_request pc)
unfolding update_request
update_request-Atomic pc =
    Atomic-transaction (statement (update_statement pc) >> query (first_request pc.id))

terminate-Atomic :
    (now : ℕ) (pc : PartnerCustomer) (username partner_id : String)
    → Atomic (terminate now pc username partner_id)
unfolding terminate
terminate-Atomic now pc username partner_id =
    Atomic-transaction
      (update_request (termination now pc) >> revoke_shared_assessments username partner_id)

pub create_partner_request-Atomic :
    (parse_uuid : Uuids) (new_id : String) (user : User) (partner_id : String)
    (pc : PartnerCustomer)
    → Atomic (create_partner_request parse_uuid new_id user partner_id pc)
unfolding create_partner_request list_requests
create_partner_request-Atomic parse_uuid new_id user partner_id pc =
    Atomic-read (list_requests (by_username user.username ∷ [])) _ (Same-query _) λ existing.
      Atomic-if (has_active existing) _ _ (throw-Atomic active_request_exists) (
        Atomic-read (partner_group (parse_uuid partner_id)) _
          (partner_group-Same (parse_uuid partner_id))
          (λ group. Atomic-catch _ duplicate_as_active (create_request-Atomic _)))

pub cancel_partner_request-Atomic :
    (now : ℕ) (user : User) (request_id : String)
    → Atomic (cancel_partner_request now user request_id)
unfolding cancel_partner_request
cancel_partner_request-Atomic now user request_id =
    let tests : PartnerQueryFilter = by_id request_id ∷ [] in
    Atomic-read _ _ (found-Same tests) λ pc.
      Atomic-if (not (str_eq pc.username user.username)) _ _ (throw-Atomic resource_not_found) (
        Atomic-if (not (same_status pc.request_status pending)) _ _ (throw-Atomic invalid_request) (
          Atomic-done _ tt
            (update_request-Atomic (termination now (record pc { id = request_id })))))

pub update_partner_request-Atomic :
    (now : ℕ) (request_id : String) (req : Request)
    → Atomic (update_partner_request now request_id req)
unfolding update_partner_request
update_partner_request-Atomic now request_id req =
    let tests : PartnerQueryFilter = by_id request_id ∷ [] in
    Atomic-read _ _ (found-Same tests) λ pc.
      Atomic-if (same_status req.status rejected && str_eq req.reason "") _ _
        (throw-Atomic invalid_request)
        (Atomic-if (not (same_status pc.request_status pending)) _ _ (throw-Atomic invalid_request)
          (update_request-Atomic _))

pub leave_partner-Atomic :
    (now : ℕ) (user : User) (partner_id : String) → Atomic (leave_partner now user partner_id)
unfolding leave_partner
leave_partner-Atomic now user partner_id =
    let tests : PartnerQueryFilter =
      by_username user.username ∷ by_partner_id partner_id ∷ by_status accepted ∷ [] in
    Atomic-read _ _ (found-Same tests) (λ pc. terminate-Atomic now pc user.username partner_id)

remove_customer_of-Atomic :
    (now : ℕ) (username : String) (group_id : Option String)
    → Atomic (remove_customer_of now username group_id)
remove_customer_of-Atomic now username none w e f = refl
remove_customer_of-Atomic now username (some group_id) w e f =
    let tests : PartnerQueryFilter =
      by_username username ∷ by_partner_id group_id ∷ by_status accepted ∷ [] in
    Atomic-read (catch (get_request tests) (λ e. throw (not_found_as resource_not_found e)))
      (λ pc. terminate now pc username pc.partner_id) (found-Same tests)
      (λ pc. terminate-Atomic now pc username pc.partner_id) w e f

pub remove_customer-Atomic :
    (now : ℕ) (user : User) (username : String) → Atomic (remove_customer now user username)
unfolding remove_customer
remove_customer-Atomic now user username =
    Atomic-read (get_identity user) _ (get_identity-Same user)
      (λ identity. remove_customer_of-Atomic now username identity.group_id)

-- A call of the service that returns an error leaves every table as it was: CreateRequest,
-- CancelRequest, LeavePartner, UpdateRequest and RemoveCustomer, whichever of their database calls
-- fails and whichever of their checks refuses.
pub failed_call-Same :
    (parse_uuid : Uuids) (call : Call) (w : World) (e : Error)
    → (serve parse_uuid call w).0 ≡ err e
    → (serve parse_uuid call w).1.db ≡ w.db
unfolding serve
failed_call-Same parse_uuid (create new_id user partner_id pc) w e f =
    Atomic-done (create_partner_request parse_uuid new_id user partner_id pc) tt
      (create_partner_request-Atomic parse_uuid new_id user partner_id pc) w e f
failed_call-Same parse_uuid (cancel now user request_id) w e f =
    cancel_partner_request-Atomic now user request_id w e f
failed_call-Same parse_uuid (leave now user partner_id) w e f =
    leave_partner-Atomic now user partner_id w e f
failed_call-Same parse_uuid (answer now request_id req) w e f =
    Atomic-done (update_partner_request now request_id req) tt
      (update_partner_request-Atomic now request_id req) w e f
failed_call-Same parse_uuid (remove now user username) w e f =
    remove_customer-Atomic now user username w e f
