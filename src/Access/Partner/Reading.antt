-- ===== src/Access/Partner/Reading.antt =====
-- The parts of the service that only read: GetIdentity, the group of a partner, the lists.
use migration_planner.Prelude.{
  String, refl, Option, none, some, List, [], ◌∷◌, str_eq, if◌then◌else◌,
}
use migration_planner.Access.Model.{
  User, PartnerCustomer, Error, record_not_found, accepted, resource_not_found,
}
use migration_planner.Access.Store.{◌>>=◌, pure, throw, catch}
use migration_planner.Access.Store.Effects.{Effects, Same, Same-query, Same-bind, Same-catch, at_if}
use migration_planner.Access.Requests.{list_requests, get_group, get_member, by_username, by_status}
use migration_planner.Access.Identity.{no_member, identify, member_identity, get_identity}
use migration_planner.Access.Partner.{not_found_as, group_of, partner_group}

no_member-Same : (e : Error) → Effects Same (no_member e)
no_member-Same record_not_found w = refl
no_member-Same _ w = refl

identify-Same : (user : User) (rows : List PartnerCustomer) → Effects Same (identify user rows)
unfolding get_member
identify-Same user (pc ∷ rest) w = refl
identify-Same user [] w =
    Same-bind (catch (get_member user.username >>= λ m. pure (some m)) no_member)
      (λ found. pure (member_identity user found))
      (Same-catch (get_member user.username >>= λ m. pure (some m)) no_member
        (Same-bind (get_member user.username) (λ m. pure (some m)) (Same-query _) (λ m w. refl))
        no_member-Same)
      (λ found w. refl) w

pub get_identity-Same : (user : User) → Effects Same (get_identity user)
unfolding get_identity list_requests
get_identity-Same user =
    Same-bind (list_requests (by_username user.username ∷ by_status accepted ∷ [])) (identify user)
      (Same-query _) (identify-Same user)

group_of-Same : (group_id : String) → Effects Same (group_of group_id)
unfolding get_group
group_of-Same group_id =
    Same-bind (catch (get_group group_id) (λ e. throw (not_found_as resource_not_found e)))
      (λ group. if str_eq group.kind "partner" then pure group else throw resource_not_found)
      (Same-catch (get_group group_id) (λ e. throw (not_found_as resource_not_found e))
        (Same-query _) (λ e w. refl))
      λ group w.
        at_if (λ db. Same w.db db) (str_eq group.kind "partner") (pure group)
          (throw resource_not_found) w (λ _. refl) (λ _. refl)

pub partner_group-Same : (id : Option String) → Effects Same (partner_group id)
partner_group-Same none w = refl
partner_group-Same (some group_id) w = group_of-Same group_id w
