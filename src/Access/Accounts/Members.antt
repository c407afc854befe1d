-- ===== src/Access/Accounts/Members.antt =====
-- Members come and go together with their relation to the group, or not at all.
use migration_planner.Prelude.{
  String, ◌≡◌, refl, sym, ap, ◌∙◌, Bool, true, false, not, ◌&&◌, Option, none, some, List, [], ◌∷◌,
  str_eq, arith, if◌then◌else◌,
}
use migration_planner.Access.Model.{
  Relationship, new_org_resource, new_user_subject, member_relation, same_relationship,
  same_relationship_refl, Member, Group, Error, membership_mismatch, resource_not_found,
  member_not_found, record_not_found, member_duplicate, member_in_other_group, PartnerCustomer,
  org_resource,
}
use migration_planner.Access.Store.{
  Result, ok, err, Db, World, M, ◌>>=◌, ◌>>◌, pure, throw, catch, transaction, transaction_ok,
  >>=_ok,
}
use migration_planner.Access.Store.Effects.{
  Effects, Same, Same-query, Same-catch, Effects-statement, at_if,
}
use migration_planner.Access.Store.Atomic.{Atomic, Atomic-transaction, Atomic-read}
use migration_planner.Access.Authz.{holds, with, without, write_relationships}
use migration_planner.Access.Authz.Updates.{holds-write_relationships}
use migration_planner.Access.Requests.{
  get_group, get_member, list_requests, by_username, by_active_status,
}
use migration_planner.Access.Partner.{not_found_as}
use migration_planner.Access.Accounts.{
  find_group, find_member, delete_member_row, remove_found, remove_group_member, create_member,
  create_member_of, check_absent, refuse_existing, enrol, enrol_without_request, create_member_row,
  duplicate_as,
}

find_group-Same : (id : String) → Effects Same (find_group id)
unfolding find_group get_group
find_group-Same id =
    Same-catch (get_group id) (λ e. throw (not_found_as resource_not_found e)) (Same-query _)
      (λ e w. refl)

find_member-Same : (username : String) → Effects Same (find_member username)
unfolding find_member get_member
find_member-Same username =
    Same-catch (get_member username) (λ e. throw (not_found_as member_not_found e)) (Same-query _)
      (λ e w. refl)

-- The row that makes the user a member of the group's organization.
abbrev pub membership : String → String → Relationship
membership group_id username = record {
  resource_type = org_resource;
  resource_id = group_id;
  relation = member_relation;
  subject = new_user_subject username;
}

delete_member_row-relations :
    (id : String) (w : World) → (delete_member_row id w).1.db.relationships ≡ w.db.relationships
delete_member_row-relations id w =
    Effects-statement (λ x y. y.relationships ≡ x.relationships) (λ _. refl) _
      (λ db db' a h. ground arith) w

guard_run :
    (test : Bool) (e : Error) (m : M (Unit {0})) (w : World)
    → ((if test then throw e else m) w).0 ≡ ok tt
    → (if test then throw e else m) w ≡ m w
guard_run true e m w h = ground arith
guard_run false e m w h = refl

holds-remove_found :
    (group_id username : String) (m : Member) (w : World)
    → (remove_found group_id username m w).0 ≡ ok tt
    → (x : Relationship)
    → holds x (remove_found group_id username m w).1.db.relationships
      ≡ holds x w.db.relationships && not (same_relationship x (membership group_id username))
holds-remove_found group_id username m w h x =
    let updates =
      without [] (new_org_resource group_id) member_relation (new_user_subject username) in
    let remove = delete_member_row m.id >> write_relationships updates in
    let run = guard_run (not (str_eq m.group_id group_id)) membership_mismatch remove w h in
    let w₁ = (delete_member_row m.id w).1 in
    let (_, _, next) =
      >>=_ok (delete_member_row m.id) (λ _. write_relationships updates) w tt
        (ap (λ o. o.0) (sym run) ∙ h) in
    let written =
      (holds-write_relationships updates w₁ (ap (λ o. o.0) (sym next) ∙ ap (λ o. o.0) (sym run) ∙ h)
        x).0 in
    let table = ap (holds x) (delete_member_row-relations m.id w) in
    ap (λ o. holds x o.1.db.relationships) (run ∙ next) ∙ written ∙ ground (arith, table)

-- After a RemoveGroupMember that succeeds the user is no member of the group's organization in the
-- relations, and every other row of the relations is as it was.
pub holds-remove_group_member :
    (group_id username : String) (w : World)
    → (remove_group_member group_id username w).0 ≡ ok tt
    → (x : Relationship)
    → holds x (remove_group_member group_id username w).1.db.relationships
      ≡ holds x w.db.relationships && not (same_relationship x (membership group_id username))
unfolding remove_group_member
holds-remove_group_member group_id username w h x =
    let rest = λ (_ : Group). find_member username >>= λ m. remove_found group_id username m.0 in
    let (w₀, start, ran, kept) = transaction_ok (find_group group_id >>= rest) w tt h in
    let (group, _, next) = >>=_ok (find_group group_id) rest w₀ tt ran in
    let w₁ = (find_group group_id w₀).1 in
    let (m, _, last) =
      >>=_ok (find_member username) (λ m. remove_found group_id username m.0) w₁ tt
        (ap (λ o. o.0) (sym next) ∙ ran) in
    let w₂ = (find_member username w₁).1 in
    let gone =
      holds-remove_found group_id username m.0 w₂
        (ap (λ o. o.0) (sym last) ∙ ap (λ o. o.0) (sym next) ∙ ran) x in
    let same : w₂.db ≡ w.db = find_member-Same username w₁ ∙ find_group-Same group_id w₀ ∙ start in
    ap (λ (db : Db). holds x db.relationships) kept
    ∙ ap (λ o. holds x o.1.db.relationships) (next ∙ last)
    ∙ gone
    ∙ ap
        (λ (db : Db).
          holds x db.relationships && not (same_relationship x (membership group_id username)))
        same

refuse_existing-Same :
    (m : Member) (r : Result (Member × Option Group)) → Effects Same (refuse_existing m r)
refuse_existing-Same m (ok (existing, group)) w =
    at_if (λ db. Same w.db db) (not (str_eq existing.group_id m.group_id))
      (throw member_in_other_group) (throw member_duplicate) w (λ _. refl) (λ _. refl)
refuse_existing-Same m (err record_not_found) w = refl
refuse_existing-Same m (err _) w = refl

check_absent-Same : (m : Member) → Effects Same (check_absent m)
unfolding get_member
check_absent-Same m w =
    refuse_existing-Same m (get_member m.username w).0 (get_member m.username w).1 ∙ Same-query _ w

create_member_of-Atomic :
    (new_id : String) (m : Member) (org : Option String) → Atomic (create_member_of new_id m org)
create_member_of-Atomic new_id m none w e f = refl
create_member_of-Atomic new_id m (some org_id) w e f =
    let n : Member = record m { org_id = org_id } in
    Atomic-read (find_group m.group_id) (λ _. check_absent n >>= λ _. transaction (enrol new_id n))
      (find_group-Same m.group_id)
      (λ _.
        Atomic-read (check_absent n) (λ _. transaction (enrol new_id n)) (check_absent-Same n)
          (λ _. Atomic-transaction (enrol new_id n)))
      w e f

-- A CreateMember that returns an error leaves every table as it was, the member and the relation
-- included, whichever of its checks or database calls fails.
failed_create_member-Same :
    (user_info : String → Option String) (new_id : String) (m : Member) (w : World) (e : Error)
    → (create_member user_info new_id m w).0 ≡ err e
    → (create_member user_info new_id m w).1.db ≡ w.db
unfolding create_member
failed_create_member-Same user_info new_id m w e f =
    create_member_of-Atomic new_id m (user_info m.username) w e f

enrol_without_request_ok :
    (new_id : String) (m : Member) (rows : List PartnerCustomer) (w : World) (n : Member)
    → (enrol_without_request new_id m rows w).0 ≡ ok n
    → (rows ≡ [])
      × (holds
            (membership m.group_id m.username)
            (enrol_without_request new_id m rows w).1.db.relationships
          ≡ true)
enrol_without_request_ok new_id m (pc ∷ rest) w n h = ground arith
enrol_without_request_ok new_id m [] w n h =
    let updates =
      with [] (new_org_resource m.group_id) member_relation (new_user_subject m.username) in
    let row = catch (create_member_row new_id m) (λ e. throw (duplicate_as member_duplicate e)) in
    let (created, _, next) =
      >>=_ok row (λ created. write_relationships updates >> pure created) w n h in
    let w₁ = (row w).1 in
    let (_, wrote, last) =
      >>=_ok (write_relationships updates) (λ _. pure created) w₁ n
        (ap (λ o. o.0) (sym next) ∙ h) in
    let written =
      (holds-write_relationships updates w₁ wrote (membership m.group_id m.username)).0 in
    let itself = same_relationship_refl (membership m.group_id m.username) in
    (
      refl,
      ap (λ o. holds (membership m.group_id m.username) o.1.db.relationships) (next ∙ last)
          ∙ written
          ∙ ground (arith, itself),
    )

create_member_of_ok :
    (new_id : String) (m : Member) (org : Option String) (w : World) (n : Member)
    → (create_member_of new_id m org w).0 ≡ ok n
    → holds (membership m.group_id m.username) (create_member_of new_id m org w).1.db.relationships
      ≡ true
create_member_of_ok new_id m none w n h = ground arith
create_member_of_ok new_id m (some org_id) w n h =
    let k : Member = record m { org_id = org_id } in
    let enrolled = transaction (enrol new_id k) in
    let (_, _, next) = >>=_ok (find_group m.group_id) (λ _. check_absent k >> enrolled) w n h in
    let w₁ = (find_group m.group_id w).1 in
    let (_, _, last) =
      >>=_ok (check_absent k) (λ _. enrolled) w₁ n (ap (λ o. o.0) (sym next) ∙ h) in
    let w₂ = (check_absent k w₁).1 in
    let (w₃, _, ran, kept) =
      transaction_ok (enrol new_id k) w₂ n
        (ap (λ o. o.0) (sym last) ∙ ap (λ o. o.0) (sym next) ∙ h) in
    let reads = list_requests (by_username m.username ∷ by_active_status ∷ []) in
    let (rows, _, step) = >>=_ok reads (enrol_without_request new_id k) w₃ n ran in
    let (_, member) =
      enrol_without_request_ok new_id k rows (reads w₃).1 n (ap (λ o. o.0) (sym step) ∙ ran) in
    ap (λ o. holds (membership m.group_id m.username) o.1.db.relationships) (next ∙ last)
    ∙ ap (λ (db : Db). holds (membership m.group_id m.username) db.relationships) kept
    ∙ ap (λ o. holds (membership m.group_id m.username) o.1.db.relationships) step
    ∙ member

-- After a CreateMember that succeeds the user is a member of the group's organization in the
-- relations.
pub holds-create_member :
    (user_info : String → Option String) (new_id : String) (m : Member) (w : World) (n : Member)
    → (create_member user_info new_id m w).0 ≡ ok n
    → holds
        (membership m.group_id m.username)
        (create_member user_info new_id m w).1.db.relationships
      ≡ true
unfolding create_member
holds-create_member user_info new_id m w n h =
    create_member_of_ok new_id m (user_info m.username) w n h
