-- ===== src/Access/Partner.antt =====
-- internal/service/partner.go: the life of a partner request. `now` is time.Now(), `new_id` is
-- uuid.New(), and `parse_uuid` is uuid.Parse followed by String.
pub mod Rows
pub mod Lifecycle
pub mod Endings
pub mod Reading
pub mod Calls
pub mod Revocation
pub mod Failures
use migration_planner.Prelude.{
  ℕ, String, Bool, not, ◌&&◌, ◌||◌, Option, none, some, List, [], ◌∷◌, str_eq, if◌then◌else◌, any,
}
use migration_planner.Access.Model.{
  User, Group, PartnerCustomer, Request, pending, accepted, rejected, cancelled, AssessmentRow,
  Error, record_not_found, resource_not_found, duplicate_key, active_request_exists,
  invalid_request, panic, RelationshipUpdate, viewer_relation, same_status, new_assessment_resource,
  new_org_subject,
}
use migration_planner.Access.Store.{M, ◌>>=◌, ◌>>◌, pure, throw, catch, transaction}
use migration_planner.Access.Authz.{without, write_relationships}
use migration_planner.Access.Requests.{
  by_id, by_username, by_partner_id, by_status, list_requests, get_request, create_request,
  update_request, get_group, list_assessments,
}
use migration_planner.Access.Identity.{partner, same_kind, get_identity}

abbrev pub Uuids : Type 0
Uuids = String → Option String

-- The loop over the user's assessments.
abbrev pub revocations :
    String → List RelationshipUpdate → List AssessmentRow → List RelationshipUpdate
revocations partner_id updates [] = updates
revocations partner_id updates (a ∷ rest) =
    revocations partner_id
      (without updates (new_assessment_resource a.id) viewer_relation (new_org_subject partner_id))
      rest

abbrev pub revoke_all : String → List AssessmentRow → M (Unit {0})
revoke_all partner_id [] = pure tt
revoke_all partner_id (a ∷ rest) = write_relationships (revocations partner_id [] (a ∷ rest))

unfoldable pub revoke_shared_assessments : String → String → M (Unit {0})
revoke_shared_assessments username partner_id = do
  assessments ← list_assessments username
  revoke_all partner_id assessments

-- `if errors.Is(err, store.ErrRecordNotFound) { return e }; return err`
abbrev pub not_found_as : Error → Error → Error
not_found_as e record_not_found = e
not_found_as e x = x

unfoldable pub list_partner_requests : User → M (List PartnerCustomer)
list_partner_requests user = do
  identity ← get_identity user
  elim identity.group_id [
    | none ↦ list_requests (by_username user.username ∷ [])
    | some group_id ↦
        if same_kind identity.kind partner
        then list_requests (by_partner_id group_id ∷ [])
        else list_requests (by_username user.username ∷ [])
  ]

abbrev pub has_active : List PartnerCustomer → Bool
has_active rows =
    any (λ e. same_status e.request_status pending || same_status e.request_status accepted) rows

abbrev pub group_of : String → M Group
group_of group_id = do
  group ← catch (get_group group_id) (λ e. throw (not_found_as resource_not_found e))
  if str_eq group.kind "partner" then pure group else throw resource_not_found

abbrev pub partner_group : Option String → M Group
partner_group none = throw resource_not_found
partner_group (some group_id) = group_of group_id

abbrev pub duplicate_as_active : Error → Error
duplicate_as_active duplicate_key = active_request_exists
duplicate_as_active e = e

unfoldable pub create_partner_request :
    Uuids → String → User → String → PartnerCustomer → M PartnerCustomer
create_partner_request parse_uuid new_id user partner_id pc = do
  existing ← list_requests (by_username user.username ∷ [])
  if has_active existing then throw active_request_exists else do
    partner_group (parse_uuid partner_id) >>= λ group.
        catch
          (create_request (record pc {
            id = new_id;
            username = user.username;
            username_org_id = user.organization;
            partner_id = partner_id;
            request_status = pending;
          }))
          (λ e. throw (duplicate_as_active e))

-- The update that CancelRequest, LeavePartner and RemoveCustomer write. Only the four columns
-- of Update are read from it.
abbrev pub termination : ℕ → PartnerCustomer → PartnerCustomer
termination now pc = record pc {
  request_status = cancelled;
  reason = none;
  accepted_at = none;
  terminated_at = some now;
}

unfoldable pub cancel_partner_request : ℕ → User → String → M (Unit {0})
cancel_partner_request now user request_id = do
  pc ← catch (get_request (by_id request_id ∷ [])) (λ e. throw (not_found_as resource_not_found e))
  if not (str_eq pc.username user.username)
      then throw resource_not_found
      else if not (same_status pc.request_status pending)
      then throw invalid_request
      else do update_request (termination now (record pc { id = request_id })); pure tt

unfoldable pub get_partner : Uuids → User → String → M Group
get_partner parse_uuid user partner_id = do
  pc ←
      catch
        (get_request
          (by_username user.username ∷ by_partner_id partner_id ∷ by_status accepted ∷ []))
        (λ e. throw (not_found_as resource_not_found e))
  elim (parse_uuid pc.partner_id) [
    | none ↦ throw resource_not_found
    | some group_id ↦ catch (get_group group_id) (λ e. throw (not_found_as resource_not_found e))
  ]

-- The transaction of LeavePartner and RemoveCustomer.
unfoldable pub terminate : ℕ → PartnerCustomer → String → String → M (Unit {0})
terminate now pc username partner_id =
    transaction
      do update_request (termination now pc); revoke_shared_assessments username partner_id

unfoldable pub leave_partner : ℕ → User → String → M (Unit {0})
leave_partner now user partner_id = do
  pc ←
      catch
        (get_request
          (by_username user.username ∷ by_partner_id partner_id ∷ by_status accepted ∷ []))
        (λ e. throw (not_found_as resource_not_found e))
  terminate now pc user.username partner_id

unfoldable pub list_customers : User → M (List PartnerCustomer)
list_customers user = do
  identity ← get_identity user
  elim identity.group_id [
    | none ↦ throw panic
    | some group_id ↦ list_requests (by_partner_id group_id ∷ by_status accepted ∷ [])
  ]

-- `if req.Reason != "" { reason = &req.Reason }`
abbrev pub reason_of : Request → Option String
reason_of req = if str_eq req.reason "" then none else some req.reason

unfoldable pub update_partner_request : ℕ → String → Request → M PartnerCustomer
update_partner_request now request_id req = do
  pc ← catch (get_request (by_id request_id ∷ [])) (λ e. throw (not_found_as resource_not_found e))
  if same_status req.status rejected && str_eq req.reason ""
      then throw invalid_request
      else if not (same_status pc.request_status pending)
      then throw invalid_request
      else update_request (record pc {
        request_status = req.status;
        reason = reason_of req;
        accepted_at = if same_status req.status accepted then some now else none;
        terminated_at = none;
      })

abbrev pub remove_customer_of : ℕ → String → Option String → M (Unit {0})
remove_customer_of now username none = throw panic
remove_customer_of now username (some group_id) = do
  pc ←
      catch (get_request (by_username username ∷ by_partner_id group_id ∷ by_status accepted ∷ []))
        (λ e. throw (not_found_as resource_not_found e))
  terminate now pc username pc.partner_id

-- `*identity.GroupID` panics without a group.
unfoldable pub remove_customer : ℕ → User → String → M (Unit {0})
remove_customer now user username = do
  identity ← get_identity user
  remove_customer_of now username identity.group_id
