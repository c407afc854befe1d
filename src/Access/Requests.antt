-- ===== src/Access/Requests.antt =====
-- internal/store/partner.go and accounts.go: the tables of partner requests, groups and members.
-- The constraints are those of pkg/migrations/sql: primary key, unique index on the active
-- requests of a user, reference to the group.
use migration_planner.Prelude.{
  String, Bool, true, not, ◌&&◌, Option, none, some, List, [], ◌∷◌, ◌++◌, map, str_eq,
  if◌then◌else◌, any, filter, find,
}
use migration_planner.Access.Model.{
  RequestStatus, PartnerCustomer, Group, Member, AssessmentRow, record_not_found, duplicate_key,
  db_error, is_active, same_status,
}
use migration_planner.Access.Store.{Result, ok, err, Db, M, ◌>>◌, statement, query, transaction}

-- PartnerQueryFilter: the conditions, joined by AND.
abbrev pub PartnerQueryFilter : Type 0
PartnerQueryFilter = List (PartnerCustomer → Bool)

abbrev pub matches : PartnerQueryFilter → PartnerCustomer → Bool
matches [] pc = true
matches (test ∷ tests) pc = test pc && matches tests pc

abbrev pub by_id : String → PartnerCustomer → Bool
by_id id pc = str_eq pc.id id

abbrev pub by_username : String → PartnerCustomer → Bool
by_username username pc = str_eq pc.username username

abbrev pub by_partner_id : String → PartnerCustomer → Bool
by_partner_id partner_id pc = str_eq pc.partner_id partner_id

abbrev pub by_status : RequestStatus → PartnerCustomer → Bool
by_status status pc = same_status pc.request_status status

abbrev pub by_active_status : PartnerCustomer → Bool
by_active_status pc = is_active pc.request_status

unfoldable pub list_requests : PartnerQueryFilter → M (List PartnerCustomer)
list_requests tests = query (λ db. ok (filter (matches tests) db.requests))

abbrev pub or_not_found {ℓ} : {A : Type ℓ} → Option A → Result A
or_not_found none = err record_not_found
or_not_found (some a) = ok a

unfoldable pub get_request : PartnerQueryFilter → M PartnerCustomer
get_request tests = query (λ db. or_not_found (find (matches tests) db.requests))

-- An active request of the user, under another id.
abbrev pub is_rival : String → String → PartnerCustomer → Bool
is_rival id username r =
    not (str_eq r.id id) && str_eq r.username username && is_active r.request_status

abbrev pub insert_request : PartnerCustomer → Db → Result (Unit {0} × Db)
insert_request pc db =
    if any (by_id pc.id) db.requests
    then err duplicate_key
    else if is_active pc.request_status && any (is_rival pc.id pc.username) db.requests
    then err duplicate_key
    else if any (λ g. str_eq g.id pc.partner_id) db.groups
    then ok (tt, record db { requests = db.requests ++ pc ∷ [] })
    else err db_error

abbrev pub first_request : String → Db → Result PartnerCustomer
first_request id db = elim (find (by_id id) db.requests) [ none ↦ err db_error | some pc ↦ ok pc ]

unfoldable pub create_request : PartnerCustomer → M PartnerCustomer
create_request pc = transaction (statement (insert_request pc) >> query (first_request pc.id))

-- UPDATE … SET request_status, reason, accepted_at, terminated_at WHERE id = …; a field that the
-- caller leaves out is written as NULL.
abbrev pub update_row : PartnerCustomer → PartnerCustomer → PartnerCustomer
update_row pc r =
    if str_eq r.id pc.id
    then record r {
      request_status = pc.request_status;
      reason = pc.reason;
      accepted_at = pc.accepted_at;
      terminated_at = pc.terminated_at;
    }
    else r

-- The unique index refuses to make a request active beside another active one of its user.
abbrev pub update_clashes : PartnerCustomer → List PartnerCustomer → Bool
update_clashes pc rows =
    is_active pc.request_status
    && any (λ r. str_eq r.id pc.id && any (is_rival r.id r.username) rows) rows

abbrev pub update_statement : PartnerCustomer → Db → Result (Unit {0} × Db)
update_statement pc db =
    if update_clashes pc db.requests
    then err db_error
    else ok (tt, record db { requests = map (update_row pc) db.requests })

unfoldable pub update_request : PartnerCustomer → M PartnerCustomer
update_request pc = transaction (statement (update_statement pc) >> query (first_request pc.id))

unfoldable pub get_group : String → M Group
get_group id = query (λ db. or_not_found (find (λ (g : Group). str_eq g.id id) db.groups))

-- The member with its group, which the query preloads.
unfoldable pub get_member : String → M (Member × Option Group)
get_member username = query λ db.
    elim (find (λ (m : Member). str_eq m.username username) db.members) [
      | none ↦ err record_not_found
      | some m ↦ ok (m, find (λ (g : Group). str_eq g.id m.group_id) db.groups)
    ]

unfoldable pub list_assessments : String → M (List AssessmentRow)
list_assessments username =
    query (λ db. ok (filter (λ (a : AssessmentRow). str_eq a.username username) db.assessments))
