-- ===== src/Access/Handlers/Responses.antt =====
-- What a response says of the tables.
use migration_planner.Prelude.{
  ℕ, String, ◌≡◌, refl, Bool, true, false, Option, none, some, [], ◌∷◌, not, str_eq, inl, inr,
  eq_iff, ◌≢◌,
}
use migration_planner.Access.Model.{
  User, PartnerCustomer, Request, RequestStatus, pending, accepted, rejected, cancelled, forbidden,
  invalid_request, same_status,
}
use migration_planner.Access.Store.{Result, ok, err, World, M, Result-cases}
use migration_planner.Access.Store.Atomic.{Atomic, Atomic-if, Atomic-read}
use migration_planner.Access.Requests.{by_id, by_username, by_status, get_request}
use migration_planner.Access.Identity.{
  IdentityKind, regular, customer, partner, same_kind, get_identity,
}
use migration_planner.Access.Partner
use migration_planner.Access.Partner.{Uuids, cancel_partner_request}
use migration_planner.Access.Partner.Reading.{get_identity-Same}
use migration_planner.Access.Partner.Failures.{
  found-Same, throw-Atomic, create_partner_request-Atomic, cancel_partner_request-Atomic,
  leave_partner-Atomic, update_partner_request-Atomic, remove_customer-Atomic,
}
use migration_planner.Access.Gate
use migration_planner.Access.Gate.{require_kind, as_group, answer_as}
use migration_planner.Access.Handlers.{
  Response, success, internal_error, create_response, cancel_response, partner_response,
  update_response, answer_with, handle_create_partner_request, handle_cancel_partner_request,
  handle_leave_partner, handle_update_partner_request, handle_remove_customer,
}

abbrev pub is_success : {A : Type 0} → Response A → Bool
is_success (success a) = true
is_success _ = false

module _ {A : Type 0} where
  require_kind-Atomic :
      (user : User) (kind : IdentityKind) (inner : M A)
      → Atomic inner
      → Atomic (require_kind user kind inner)
  require_kind-Atomic user kind inner h =
      Atomic-read (get_identity user) _ (get_identity-Same user)
        (λ identity. Atomic-if (same_kind identity.kind kind) inner _ h (throw-Atomic forbidden))

  as_group-Atomic :
      (kind : IdentityKind) (group : Option String) (inner : String → M A)
      → ((group_id : String) → Atomic (inner group_id))
      → Atomic (as_group kind group inner)
  as_group-Atomic kind none inner h = throw-Atomic forbidden
  as_group-Atomic kind (some group_id) inner h =
      Atomic-if (same_kind kind partner) (inner group_id) _ (h group_id) (throw-Atomic forbidden)

create-Atomic :
    (parse_uuid : Uuids) (new_id : String) (user : User) (partner_id : String)
    (pc : PartnerCustomer)
    → Atomic (Gate.create_partner_request parse_uuid new_id user partner_id pc)
unfolding Gate.create_partner_request
create-Atomic parse_uuid new_id user partner_id pc =
    require_kind-Atomic user regular
      (Partner.create_partner_request parse_uuid new_id user partner_id pc)
      (create_partner_request-Atomic parse_uuid new_id user partner_id pc)

leave-Atomic :
    (now : ℕ) (user : User) (partner_id : String) → Atomic (Gate.leave_partner now user partner_id)
unfolding Gate.leave_partner
leave-Atomic now user partner_id =
    require_kind-Atomic user customer (Partner.leave_partner now user partner_id)
      (leave_partner-Atomic now user partner_id)

answer-Atomic :
    (now : ℕ) (user : User) (request_id : String) (req : Request)
    → Atomic (Gate.update_partner_request now user request_id req)
unfolding Gate.update_partner_request
answer-Atomic now user request_id req =
    Atomic-read (get_identity user) _ (get_identity-Same user) λ identity.
      as_group-Atomic identity.kind identity.group_id (answer_as now request_id req) λ group_id.
        Atomic-read _ _ (found-Same (by_id request_id ∷ [])) λ pc.
          Atomic-if (not (str_eq pc.partner_id group_id)) _ _ (throw-Atomic forbidden)
            (update_partner_request-Atomic now request_id req)

remove-Atomic :
    (now : ℕ) (user : User) (username : String) → Atomic (Gate.remove_customer now user username)
unfolding Gate.remove_customer
remove-Atomic now user username =
    Atomic-read (get_identity user) _ (get_identity-Same user) λ identity.
      as_group-Atomic identity.kind identity.group_id _ λ group_id.
        Atomic-read _ _ (found-Same (by_username username ∷ by_status accepted ∷ [])) λ pc.
          Atomic-if (not (str_eq pc.partner_id group_id)) _ _ (throw-Atomic forbidden)
            (remove_customer-Atomic now user username)

answer_with-Same :
    {A : Type 0} (respond : Result A → Response A) (m : M A) (w : World)
    → ((a : A) → is_success (respond (ok a)) ≡ true)
    → Atomic m
    → is_success (answer_with respond m w).0 ≡ false
    → (answer_with respond m w).1.db ≡ w.db
answer_with-Same respond m w succeeds atomic failed = elim (Result-cases (m w).0) [
  | inl (a, done) ↦ absurd (cc (succeeds a, done, failed))
  | inr (e, error) ↦ atomic w e error
]

-- The requests that may change the tables.
pub data Call : Type 0 where
  create : String → User → String → Option PartnerCustomer → Call
  cancel : ℕ → User → String → Call
  leave : ℕ → User → String → Call
  answer : ℕ → User → String → Option Request → Call
  remove : ℕ → User → String → Call

-- Whether the response is a success, and the tables after it.
unfoldable pub respond : Uuids → Call → World → Bool × World
respond parse_uuid (create new_id user partner_id pc) w =
    let (r, w') = handle_create_partner_request parse_uuid new_id user partner_id pc w in
    (is_success r, w')
respond parse_uuid (cancel now user request_id) w =
    let (r, w') = handle_cancel_partner_request now user request_id w in (is_success r, w')
respond parse_uuid (leave now user partner_id) w =
    let (r, w') = handle_leave_partner now user partner_id w in (is_success r, w')
respond parse_uuid (answer now user request_id req) w =
    let (r, w') = handle_update_partner_request now user request_id req w in (is_success r, w')
respond parse_uuid (remove now user username) w =
    let (r, w') = handle_remove_customer now user username w in (is_success r, w')

answer_status-Same :
    (now : ℕ) (user : User) (request_id reason : String) (status : RequestStatus) (w : World)
    → let o =
        handle_update_partner_request now user request_id
          (some (record { status = status; reason = reason }))
          w in
      is_success o.0 ≡ false → o.1.db ≡ w.db
unfolding handle_update_partner_request
answer_status-Same now user request_id reason accepted w failed =
    let req : Request = record { status = accepted; reason = reason } in
    answer_with-Same update_response (Gate.update_partner_request now user request_id req) w
      (λ a. refl) (answer-Atomic now user request_id req) failed
answer_status-Same now user request_id reason rejected w failed =
    let req : Request = record { status = rejected; reason = reason } in
    answer_with-Same update_response (Gate.update_partner_request now user request_id req) w
      (λ a. refl) (answer-Atomic now user request_id req) failed
answer_status-Same now user request_id reason pending w failed = refl
answer_status-Same now user request_id reason cancelled w failed = refl

-- An endpoint that creates, cancels, leaves, answers or removes and that responds with anything
-- but a success has left every table as it was, whichever of its database calls fails.
pub failed_response-Same :
    (parse_uuid : Uuids) (call : Call) (w : World)
    → (respond parse_uuid call w).0 ≡ false
    → (respond parse_uuid call w).1.db ≡ w.db
unfolding respond handle_create_partner_request handle_cancel_partner_request handle_leave_partner
    handle_remove_customer handle_update_partner_request
failed_response-Same parse_uuid (create new_id user partner_id none) w failed = refl
failed_response-Same parse_uuid (create new_id user partner_id (some pc)) w failed =
    answer_with-Same create_response
      (Gate.create_partner_request parse_uuid new_id user partner_id pc) w (λ a. refl)
      (create-Atomic parse_uuid new_id user partner_id pc) failed
failed_response-Same parse_uuid (cancel now user request_id) w failed =
    answer_with-Same cancel_response (cancel_partner_request now user request_id) w (λ a. refl)
      (cancel_partner_request-Atomic now user request_id) failed
failed_response-Same parse_uuid (leave now user partner_id) w failed =
    answer_with-Same partner_response (Gate.leave_partner now user partner_id) w (λ a. refl)
      (leave-Atomic now user partner_id) failed
failed_response-Same parse_uuid (answer now user request_id none) w failed = refl
failed_response-Same parse_uuid (answer now user request_id (some req)) w failed =
    answer_status-Same now user request_id req.reason req.status w failed
failed_response-Same parse_uuid (remove now user username) w failed =
    answer_with-Same update_response (Gate.remove_customer now user username) w (λ a. refl)
      (remove-Atomic now user username) failed

not_pending : (s : RequestStatus) → s ≢ pending → same_status s pending ≡ false
not_pending pending h = absurd (h refl)
not_pending accepted h = refl
not_pending rejected h = refl
not_pending cancelled h = refl

-- A user who cancels a request of theirs that is not pending any more is answered with an internal
-- error, although the service returns an invalid request. The request is read without an error.
cancel_answered_request :
    (now : ℕ) (user : User) (request_id : String) (w : World) (pc : PartnerCustomer)
    → (get_request (by_id request_id ∷ []) w).0 ≡ ok pc
    → pc.username ≡ user.username
    → pc.request_status ≢ pending
    → ((cancel_partner_request now user request_id w).0 ≡ err invalid_request)
      × ((handle_cancel_partner_request now user request_id w).0 ≡ internal_error)
unfolding handle_cancel_partner_request cancel_partner_request
cancel_answered_request now user request_id w pc found own answered =
    let mine : str_eq pc.username user.username ≡ true = (eq_iff pc.username user.username).1 own in
    let late : same_status pc.request_status pending ≡ false =
      not_pending pc.request_status answered in
    (rw (found, mine, late) refl, rw (found, mine, late) refl)
