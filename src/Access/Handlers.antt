-- ===== src/Access/Handlers.antt =====
-- internal/handlers/v1alpha1/partner.go: the endpoints of partners, requests and customers. A
-- response is its kind of status and, where it succeeds, what the service returned, before it is
-- turned into the types of the API.
pub mod Responses
use migration_planner.Prelude.{ℕ, String, Option, none, some, List}
use migration_planner.Access.Model.{
  User, Group, PartnerCustomer, Request, accepted, rejected, resource_not_found, forbidden,
  invalid_request, active_request_exists,
}
use migration_planner.Access.Store.{Result, ok, err, World, M}
use migration_planner.Access.Partner.{Uuids, list_partner_requests, cancel_partner_request}
use migration_planner.Access.Gate

-- The status codes: 200 or 201, 400, 403, 404, 500.
pub data Response (A : Type 0) : Type 0 where
  success : A → Response A
  bad_request not_found not_allowed internal_error : Response A

module _ {A : Type 0} where
  abbrev pub list_requests_response : Result A → Response A
  list_requests_response (ok a) = success a
  list_requests_response (err e) = internal_error

  abbrev pub create_response : Result A → Response A
  create_response (ok a) = success a
  create_response (err invalid_request) = bad_request
  create_response (err active_request_exists) = bad_request
  create_response (err forbidden) = not_allowed
  create_response (err resource_not_found) = not_found
  create_response (err e) = internal_error

  abbrev pub cancel_response : Result A → Response A
  cancel_response (ok a) = success a
  cancel_response (err resource_not_found) = not_found
  cancel_response (err e) = internal_error

  -- Of GetPartner and LeavePartner.
  abbrev pub partner_response : Result A → Response A
  partner_response (ok a) = success a
  partner_response (err forbidden) = not_allowed
  partner_response (err resource_not_found) = not_found
  partner_response (err e) = internal_error

  abbrev pub list_customers_response : Result A → Response A
  list_customers_response (ok a) = success a
  list_customers_response (err invalid_request) = bad_request
  list_customers_response (err forbidden) = not_allowed
  list_customers_response (err e) = internal_error

  -- Of UpdatePartnerRequest and RemoveCustomer.
  abbrev pub update_response : Result A → Response A
  update_response (ok a) = success a
  update_response (err invalid_request) = bad_request
  update_response (err forbidden) = not_allowed
  update_response (err resource_not_found) = not_found
  update_response (err e) = internal_error

  abbrev pub answer_with : (Result A → Response A) → M A → World → Response A × World
  answer_with respond m w = let (result, w') = m w in (respond result, w')

unfoldable pub handle_list_partner_requests : User → World → Response (List PartnerCustomer) × World
handle_list_partner_requests user = answer_with list_requests_response (list_partner_requests user)

-- `request.Body` may be nil.
unfoldable pub handle_create_partner_request :
    Uuids
    → String
    → User
    → String
    → Option PartnerCustomer
    → World
    → Response PartnerCustomer × World
handle_create_partner_request parse_uuid new_id user partner_id none w = (bad_request, w)
handle_create_partner_request parse_uuid new_id user partner_id (some pc) w =
    answer_with create_response (Gate.create_partner_request parse_uuid new_id user partner_id pc) w

unfoldable pub handle_cancel_partner_request :
    ℕ → User → String → World → Response (Unit {0}) × World
handle_cancel_partner_request now user request_id =
    answer_with cancel_response (cancel_partner_request now user request_id)

unfoldable pub handle_get_partner : Uuids → User → String → World → Response Group × World
handle_get_partner parse_uuid user partner_id =
    answer_with partner_response (Gate.get_partner parse_uuid user partner_id)

unfoldable pub handle_leave_partner : ℕ → User → String → World → Response (Unit {0}) × World
handle_leave_partner now user partner_id =
    answer_with partner_response (Gate.leave_partner now user partner_id)

unfoldable pub handle_list_customers : User → World → Response (List PartnerCustomer) × World
handle_list_customers user = answer_with list_customers_response (Gate.list_customers user)

-- `request.Body` may be nil, and only two statuses are let through.
unfoldable pub handle_update_partner_request :
    ℕ → User → String → Option Request → World → Response PartnerCustomer × World
handle_update_partner_request now user request_id none w = (bad_request, w)
handle_update_partner_request now user request_id (some req) w = elim req.status [
  | accepted ↦ answer_with update_response (Gate.update_partner_request now user request_id req) w
  | rejected ↦ answer_with update_response (Gate.update_partner_request now user request_id req) w
  | _ ↦ (bad_request, w)
]

unfoldable pub handle_remove_customer : ℕ → User → String → World → Response (Unit {0}) × World
handle_remove_customer now user username =
    answer_with update_response (Gate.remove_customer now user username)
