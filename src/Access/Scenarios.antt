-- ===== src/Access/Scenarios.antt =====
-- Small tables, and calls of the services on them.
use migration_planner.Prelude.{
  ℕ, Bool, All, ◌≡◌, refl, false, not, ◌&&◌, ◌||◌, none, some, List, [], ◌∷◌, any, find, str_eq,
  true, Option, String,
}
use migration_planner.Access.Model.{
  read_permission, RelationshipUpdate, touch, delete, is_in, new_assessment_resource, pending,
  accepted, rejected, PartnerCustomer, Request, resource_not_found, same_relationship, Member,
  same_status,
}
use migration_planner.Access.Samples.{
  ann, pat, request_of_ann, share_of_a1, membership_of_pat, rows, tables,
}
use migration_planner.Access.Store.{ok, query, statement, transaction}
use migration_planner.Access.Authz.{
  touch_rows, delete_rows, holds, write_relationships, permissions_of,
}
use migration_planner.Access.Authz.Grants.{row_grants, permissions_of-row_grants}
use migration_planner.Access.Authz.Updates.{holds-write_relationships}
use migration_planner.Access.Requests.{
  matches, by_id, list_requests, get_request, update_request, list_assessments, get_member,
  get_group,
}
use migration_planner.Access.Identity.{Identity, partner, get_identity}
use migration_planner.Access.Partner.{
  cancel_partner_request, Uuids, leave_partner, terminate, revoke_shared_assessments,
  update_partner_request,
}
use migration_planner.Access.Partner.Rows.{UniqueIds, Moves}
use migration_planner.Access.Partner.Calls.{Call, cancel, leave, serve, Reaches, calls-Moves}
use migration_planner.Access.Partner.Failures.{failed_call-Same}
use migration_planner.Access.Partner.Revocation.{is_share, holds-leave_partner}
use migration_planner.Access.Gate
use migration_planner.Access.Handlers.{handle_cancel_partner_request}
use migration_planner.Access.Handlers.Responses
use migration_planner.Access.Handlers.Responses.{respond, failed_response-Same}
use migration_planner.Access.Accounts.{
  no_id, find_group, find_member, create_member, remove_group_member,
}
use migration_planner.Access.Accounts.Members.{
  membership, holds-remove_group_member, holds-create_member,
}
use migration_planner.Access.Admins.{AdminMember, list_groups, initialize}
use migration_planner.Access.Admins.Initialized.{is_enrolled, initialize-All}
use migration_planner.Access.AccountsGate.Refusals.{
  AdminCall, admin_call, Refuses, admin_call-Refuses,
}
use migration_planner.Access.Identity.Known.{identity_of, member_in}
use migration_planner.Access.Gate.Answers.{update_partner_request_ok}

permissions_of-row_grants_example :
    is_in read_permission (permissions_of rows "pat" (new_assessment_resource "a1")).permissions
    ≡ false || any (row_grants rows "pat" (new_assessment_resource "a1") read_permission) rows
permissions_of-row_grants_example =
    permissions_of-row_grants rows "pat" (new_assessment_resource "a1") read_permission

abbrev exchange : List RelationshipUpdate
exchange = delete share_of_a1 ∷ touch share_of_a1 ∷ touch membership_of_pat ∷ []

holds-write_relationships_example :
    (holds share_of_a1 (write_relationships exchange (tables accepted)).1.db.relationships ≡ (
      (holds share_of_a1 rows || holds share_of_a1 (touch_rows exchange))
      && not (holds share_of_a1 (delete_rows exchange))))
    × ((write_relationships exchange (tables accepted)).1.db ≡ record (tables accepted).db {
      relationships = (write_relationships exchange (tables accepted)).1.db.relationships;
    })
unfolding write_relationships statement
holds-write_relationships_example =
    holds-write_relationships exchange (tables accepted) refl share_of_a1

abbrev no_uuids : Uuids
no_uuids s = none

abbrev withdrawal : Call
withdrawal = cancel 9 ann "r1"

calls-Moves_example :
    UniqueIds (serve no_uuids withdrawal (tables pending)).1.db.requests
    × Moves (tables pending).db.requests (serve no_uuids withdrawal (tables pending)).1.db.requests
calls-Moves_example =
    calls-Moves no_uuids (tables pending).db (serve no_uuids withdrawal (tables pending)).1.db
      (refl, tt)
      (Reaches.served withdrawal (tables pending) (serve no_uuids withdrawal (tables pending)).1.db
        (Reaches.stays (serve no_uuids withdrawal (tables pending)).1.db))

-- Ann's request is not accepted: there is no partner to leave.
failed_call-Same_example :
    (serve no_uuids (leave 9 ann "g1") (tables pending)).1.db ≡ (tables pending).db
unfolding serve leave_partner get_request query statement
failed_call-Same_example =
    failed_call-Same no_uuids (leave 9 ann "g1") (tables pending) resource_not_found refl

holds-leave_partner_example :
    holds share_of_a1 (leave_partner 9 ann "g1" (tables accepted)).1.db.relationships
    ≡ holds share_of_a1 rows
      && not (is_share (tables accepted).db.assessments "ann" "g1" share_of_a1)
unfolding leave_partner get_request terminate update_request revoke_shared_assessments
    list_assessments write_relationships transaction query statement
holds-leave_partner_example = holds-leave_partner 9 ann "g1" (tables accepted) refl share_of_a1

abbrev acceptance : Request
acceptance = record { status = accepted; reason = "" }

abbrev accepted_request : PartnerCustomer
accepted_request = record (request_of_ann accepted) { accepted_at = some 9 }

update_partner_request_ok_example :
    (identity : Identity) × (r : PartnerCustomer) × ((get_identity pat (tables pending)).0
      ≡ ok identity)
    × (identity.kind ≡ partner)
    × (find (matches (by_id "r1" ∷ [])) (tables pending).db.requests ≡ some r)
    × (identity.group_id ≡ some r.partner_id)
    × (r.request_status ≡ pending)
    × ((same_status acceptance.status rejected && str_eq acceptance.reason "") ≡ false)
unfolding Gate.update_partner_request update_partner_request get_identity list_requests get_member
    get_request update_request transaction query statement
update_partner_request_ok_example =
    update_partner_request_ok 9 pat "r1" acceptance (tables pending) accepted_request refl

-- Pat cannot cancel the request of ann.
failed_response-Same_example :
    (respond no_uuids (Responses.cancel 9 pat "r1") (tables pending)).1.db ≡ (tables pending).db
unfolding respond handle_cancel_partner_request cancel_partner_request get_request query statement
failed_response-Same_example =
    failed_response-Same no_uuids (Responses.cancel 9 pat "r1") (tables pending) refl

holds-remove_group_member_example :
    holds membership_of_pat (remove_group_member "g1" "pat" (tables accepted)).1.db.relationships
    ≡ holds membership_of_pat rows
      && not (same_relationship membership_of_pat (membership "g1" "pat"))
unfolding remove_group_member find_group find_member get_group get_member write_relationships
    transaction query statement
holds-remove_group_member_example =
    holds-remove_group_member "g1" "pat" (tables accepted) refl membership_of_pat

abbrev bob : Member
bob = record { id = no_id; username = "bob"; email = "b"; group_id = "g1"; org_id = "" }

abbrev same_org : String → Option String
same_org username = some "o2"

holds-create_member_example :
    holds
      (membership "g1" "bob")
      (create_member same_org "m2" bob (tables accepted)).1.db.relationships
    ≡ true
unfolding create_member find_group get_group get_member list_requests write_relationships
    transaction query statement
holds-create_member_example =
    holds-create_member same_org "m2" bob (tables accepted)
      (record { id = "m2"; username = "bob"; email = "b"; group_id = "g1"; org_id = "o2" }) refl

abbrev ann_as_member : Member
ann_as_member = record { id = no_id; username = "ann"; email = "a"; group_id = "g1"; org_id = "" }

abbrev boss : AdminMember
boss = record { username = "boss"; email = "b" }

abbrev some_ids : ℕ → String
some_ids n = "i"

abbrev no_match : String → String → Bool
no_match pattern text = false

-- Pat belongs to a group already.
initialize-All_example :
    All
      (λ m.
        is_enrolled
          (initialize no_match some_ids
            (record {
              name = "admins";
              members = boss ∷ record { username = "pat"; email = "p" } ∷ [];
            })
            (tables accepted)).1.db
          m
        ≡ true)
      (boss ∷ record { username = "pat"; email = "p" } ∷ [])
unfolding initialize list_groups get_member transaction query statement
initialize-All_example =
    initialize-All no_match some_ids
      (record { name = "admins"; members = boss ∷ record { username = "pat"; email = "p" } ∷ [] })
      (tables accepted) refl

admin_call-Refuses_example : Refuses (tables accepted) (admin_call pat (AdminCall.drop_group "g1"))
unfolding identity_of member_in
admin_call-Refuses_example =
    admin_call-Refuses pat (AdminCall.drop_group "g1") (tables accepted) refl
