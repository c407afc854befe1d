-- ===== src/Access/Gate/Answers.antt =====
-- Who may answer a partner request, and which.
use migration_planner.Prelude.{
  ℕ, String, ◌≡◌, refl, sym, ap, ◌∙◌, false, not, ◌&&◌, Option, none, some, [], ◌∷◌, arith, str_eq,
  eq_iff, find,
}
use migration_planner.Access.Model.{
  User, Request, PartnerCustomer, RequestStatus, pending, rejected, resource_not_found, forbidden,
  invalid_request, same_status,
}
use migration_planner.Access.Store.{ok, Db, World, M, throw, catch, >>=_ok, guard_ok}
use migration_planner.Access.Requests.{PartnerQueryFilter, matches, by_id, get_request}
use migration_planner.Access.Identity.{IdentityKind, Identity, partner, get_identity}
use migration_planner.Access.Partner
use migration_planner.Access.Partner.{not_found_as}
use migration_planner.Access.Partner.Lifecycle.{Reads-get_request}
use migration_planner.Access.Partner.Reading.{get_identity-Same}
use migration_planner.Access.Gate.{as_group, answer_as, update_partner_request}

module _ {A : Type 0} where
  as_group_ok :
      (kind : IdentityKind) (group : Option String) (inner : String → M A) (w : World) (a : A)
      → (as_group kind group inner w).0 ≡ ok a
      → (group_id : String) × (kind ≡ partner)
        × (group ≡ some group_id)
        × ((inner group_id w).0 ≡ ok a)
  as_group_ok kind none inner w a h = ground arith
  as_group_ok partner (some g) inner w a h = (g, refl, refl, h)
  as_group_ok _ (some g) inner w a h = ground arith

some_injective : (x y : PartnerCustomer) → some x ≡ some y → x ≡ y
some_injective x y h = ground arith

is_pending : (s : RequestStatus) → not (same_status s pending) ≡ false → s ≡ pending
is_pending s h = ground arith

same_partner : (x y : String) → not (str_eq x y) ≡ false → x ≡ y
same_partner x y h = (eq_iff x y).0 (ground arith)

found_request :
    (request_id : String) (w : World) (pc : PartnerCustomer)
    → (catch
        (get_request (by_id request_id ∷ []))
        (λ e. throw (not_found_as resource_not_found e))
        w).0
      ≡ ok pc
    → find (matches (by_id request_id ∷ [])) w.db.requests ≡ some pc
found_request request_id w pc h =
    (Reads-get_request (by_id request_id ∷ []) (not_found_as resource_not_found) w).1 pc h

-- The service answers a pending request only, and rejects only with a reason.
service_answer_ok :
    (now : ℕ) (request_id : String) (req : Request) (w : World) (pc : PartnerCustomer)
    → (Partner.update_partner_request now request_id req w).0 ≡ ok pc
    → (r : PartnerCustomer) × (find (matches (by_id request_id ∷ [])) w.db.requests ≡ some r)
      × (r.request_status ≡ pending)
      × ((same_status req.status rejected && str_eq req.reason "") ≡ false)
unfolding Partner.update_partner_request
service_answer_ok now request_id req w pc h =
    let tests : PartnerQueryFilter = by_id request_id ∷ [] in
    let (r, read, rest) =
      >>=_ok (catch (get_request tests) (λ e. throw (not_found_as resource_not_found e))) _ w pc
        h in
    let (reasoned, h₁) =
      guard_ok (same_status req.status rejected && str_eq req.reason "") invalid_request _ _ pc
        (ap (λ o. o.0) (sym rest) ∙ h) in
    let (waiting, _) =
      guard_ok (not (same_status r.request_status pending)) invalid_request _ _ pc h₁ in
    (r, found_request request_id w r read, is_pending r.request_status waiting, reasoned)

-- A request is answered only for a member of a partner group, and only a request that is pending
-- and addressed to the partner of that group; a rejection has a reason.
pub update_partner_request_ok :
    (now : ℕ) (user : User) (request_id : String) (req : Request) (w : World) (pc : PartnerCustomer)
    → (update_partner_request now user request_id req w).0 ≡ ok pc
    → (identity : Identity) × (r : PartnerCustomer) × ((get_identity user w).0 ≡ ok identity)
      × (identity.kind ≡ partner)
      × (find (matches (by_id request_id ∷ [])) w.db.requests ≡ some r)
      × (identity.group_id ≡ some r.partner_id)
      × (r.request_status ≡ pending)
      × ((same_status req.status rejected && str_eq req.reason "") ≡ false)
unfolding update_partner_request
update_partner_request_ok now user request_id req w pc h =
    let tests : PartnerQueryFilter = by_id request_id ∷ [] in
    let reader = catch (get_request tests) (λ e. throw (not_found_as resource_not_found e)) in
    let (identity, known, rest) = >>=_ok (get_identity user) _ w pc h in
    let w₁ = (get_identity user w).1 in
    let (group_id, is_partner, in_group, h₁) =
      as_group_ok identity.kind identity.group_id (answer_as now request_id req) w₁ pc
        (ap (λ o. o.0) (sym rest) ∙ h) in
    let (r, read, rest₁) = >>=_ok reader _ w₁ pc h₁ in
    let (addressed, h₂) =
      guard_ok (not (str_eq r.partner_id group_id)) forbidden _ _ pc
        (ap (λ o. o.0) (sym rest₁) ∙ h₁) in
    let w₂ = (reader w₁).1 in
    let same₁ = get_identity-Same user w in
    let same₂ = (Reads-get_request tests (not_found_as resource_not_found) w₁).0 in
    let found₁ = found_request request_id w₁ r read in
    let (r', found₂, waiting, reasoned) = service_answer_ok now request_id req w₂ pc h₂ in
    let one : r' ≡ r =
      some_injective r' r
        (sym found₂ ∙ ap (λ (db : Db). find (matches tests) db.requests) same₂ ∙ found₁) in
    (
      identity,
      r,
      known,
      is_partner,
      ap (λ (db : Db). find (matches tests) db.requests) (sym same₁) ∙ found₁,
      in_group ∙ ap some (sym (same_partner r.partner_id group_id addressed)),
      ap (λ x. x.request_status) (sym one) ∙ waiting,
      reasoned,
    )
