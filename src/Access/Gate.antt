-- ===== src/Access/Gate.antt =====
-- internal/service/authz_partner.go: who may call what of the partner service. ListPartners,
-- ListRequests and CancelRequest are passed on as they are.
pub mod Answers
use migration_planner.Prelude.{
  ℕ, String, not, Option, none, some, List, [], ◌∷◌, str_eq, if◌then◌else◌,
}
use migration_planner.Access.Model.{
  User, Group, PartnerCustomer, Request, accepted, resource_not_found, forbidden,
}
use migration_planner.Access.Store.{M, ◌>>=◌, throw, catch}
use migration_planner.Access.Requests.{by_id, by_username, by_status, get_request}
use migration_planner.Access.Identity.{
  IdentityKind, Identity, regular, customer, partner, same_kind, get_identity,
}
use migration_planner.Access.Partner
use migration_planner.Access.Partner.{Uuids, not_found_as}

-- `if identity.Kind != kind { return NewErrForbidden(…) }`
abbrev pub require_kind : {A : Type 0} → User → IdentityKind → M A → M A
require_kind user kind inner = do
  identity ← get_identity user
  if same_kind identity.kind kind then inner else throw forbidden

abbrev pub as_group : {A : Type 0} → IdentityKind → Option String → (String → M A) → M A
as_group kind none inner = throw forbidden
as_group kind (some group_id) inner =
    if same_kind kind partner then inner group_id else throw forbidden

-- `if identity.Kind != KindPartner || identity.GroupID == nil { … }`, then with the group.
abbrev pub as_partner : {A : Type 0} → Identity → (String → M A) → M A
as_partner identity inner = as_group identity.kind identity.group_id inner

unfoldable pub create_partner_request :
    Uuids → String → User → String → PartnerCustomer → M PartnerCustomer
create_partner_request parse_uuid new_id user partner_id pc =
    require_kind user regular (Partner.create_partner_request parse_uuid new_id user partner_id pc)

unfoldable pub get_partner : Uuids → User → String → M Group
get_partner parse_uuid user partner_id =
    require_kind user customer (Partner.get_partner parse_uuid user partner_id)

unfoldable pub leave_partner : ℕ → User → String → M (Unit {0})
leave_partner now user partner_id =
    require_kind user customer (Partner.leave_partner now user partner_id)

unfoldable pub list_customers : User → M (List PartnerCustomer)
list_customers user = do
  identity ← get_identity user
  as_partner identity (λ group_id. Partner.list_customers user)

-- The check of the request's partner, and the call it guards.
abbrev pub answer_as : ℕ → String → Request → String → M PartnerCustomer
answer_as now request_id req group_id = do
  pc ← catch (get_request (by_id request_id ∷ [])) (λ e. throw (not_found_as resource_not_found e))
  if not (str_eq pc.partner_id group_id)
      then throw forbidden
      else Partner.update_partner_request now request_id req

unfoldable pub update_partner_request : ℕ → User → String → Request → M PartnerCustomer
update_partner_request now user request_id req = do
  identity ← get_identity user
  as_partner identity (answer_as now request_id req)

unfoldable pub remove_customer : ℕ → User → String → M (Unit {0})
remove_customer now user username = do
  identity ← get_identity user
  as_partner identity λ group_id. do
    pc ←
        catch (get_request (by_username username ∷ by_status accepted ∷ []))
          (λ e. throw (not_found_as resource_not_found e))
    if not (str_eq pc.partner_id group_id)
        then throw forbidden
        else Partner.remove_customer now user username
