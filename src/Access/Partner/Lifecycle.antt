-- ===== src/Access/Partner/Lifecycle.antt =====
-- The life of a partner request under every method of the service, whichever database calls fail.
use mathlib.Core.Path.{subst}
use migration_planner.Prelude.{
  ℕ, String, ◌≡◌, refl, sym, true, false, not, ◌&&◌, Option, none, some, [], ◌∷◌, ◌++◌, map, arith,
  str_eq, eq_iff, any, find,
}
use migration_planner.Access.Model.{
  RequestStatus, pending, rejected, cancelled, PartnerCustomer, Request, User, Error,
  resource_not_found, same_status,
}
use migration_planner.Access.Store.{ok, Db, ◌>>◌, pure, throw, catch, statement, query}
use migration_planner.Access.Store.Effects.{
  Effects, Reads, Reads-query, Reads-catch, Effects-statement, Effects-transaction, Effects-read,
  Effects-then_read, Reads-pure, at_if, Reads-Same, Same-query, Effects-catch,
}
use migration_planner.Access.Requests.{
  PartnerQueryFilter, matches, by_id, or_not_found, by_username, get_request, list_requests,
  insert_request, first_request, create_request, update_row, update_statement, update_request,
}
use migration_planner.Access.Partner.{
  has_active, duplicate_as_active, partner_group, Uuids, not_found_as, termination,
  cancel_partner_request, update_partner_request, create_partner_request,
}
use migration_planner.Access.Partner.Reading.{partner_group-Same}
use migration_planner.Access.Partner.Rows.{
  may_become, Moves, Moves-refl, Moves-append, Moves-trans, UniqueIds, find_passes, find-Only,
  Moves-update, UniqueIds-update, UniqueIds-append,
}

-- From tables with the primary key on requests to such tables, by moves that the diagram has.
abbrev pub Lives : Db → Db → Type 0
Lives db db' = UniqueIds db.requests → UniqueIds db'.requests × Moves db.requests db'.requests

pub Lives-refl : (db : Db) → Lives db db
Lives-refl db u = (u, Moves-refl db.requests)

pub Lives-trans : (x y z : Db) → Lives x y → Lives y z → Lives x z
Lives-trans x y z h k u =
    let (u₁, m₁) = h u in
    let (u₂, m₂) = k u₁ in (u₂, Moves-trans x.requests y.requests z.requests m₁ m₂)

-- A request that was read is the first that passes the filter.
abbrev pub Found : PartnerQueryFilter → Db → PartnerCustomer → Type 0
Found tests db pc = find (matches tests) db.requests ≡ some pc

or_not_found-some : {A : Type 0} (o : Option A) (a : A) → or_not_found o ≡ ok a → o ≡ some a
or_not_found-some none a h = ground arith
or_not_found-some (some x) a h = ground arith

pub Reads-get_request :
    (tests : PartnerQueryFilter) (c : Error → Error)
    → Reads (Found tests) (catch (get_request tests) (λ e. throw (c e)))
unfolding get_request
Reads-get_request tests c = Reads-catch (Found tests) (get_request tests) c λ w.
    let (same, found) = Reads-query (λ db. or_not_found (find (matches tests) db.requests)) w in
    (same, λ a h. or_not_found-some (find (matches tests) w.db.requests) a (found a h))

update_statement_rows :
    (pc' : PartnerCustomer) (db db' : Db) (a : Unit {0})
    → update_statement pc' db ≡ ok (a, db')
    → db'.requests ≡ map (update_row pc') db.requests
update_statement_rows pc' db db' a h = ground arith

-- Where `pc` is what the filter finds, `Updates` is what an update of its row may do.
abbrev pub Updates : PartnerQueryFilter → PartnerCustomer → Db → Db → Type 0
Updates tests pc db db' = Found tests db pc → Lives db db'

-- An update that moves the row of `pc` as the diagram allows.
module _ (tests : PartnerQueryFilter) (pc pc' : PartnerCustomer) (same : pc'.id ≡ pc.id)
    (allowed : may_become pc.request_status pc'.request_status ≡ true) where
  update_statement-Updates : Effects (Updates tests pc) (statement (update_statement pc'))
  update_statement-Updates =
      Effects-statement (Updates tests pc) (λ db f. Lives-refl db) (update_statement pc')
        λ db db' a h found u.
          let rows = sym (update_statement_rows pc' db db' a h) in
          (
            subst UniqueIds rows (UniqueIds-update pc' db.requests u),
            subst (Moves db.requests) rows (
                Moves-update pc pc' db.requests same allowed
                  (find-Only (matches tests) db.requests pc u found)),
          )

  pub update_request-Updates : Effects (Updates tests pc) (update_request pc')
  unfolding update_request
  update_request-Updates =
      Effects-transaction (Updates tests pc) (λ db f. Lives-refl db)
        (statement (update_statement pc') >> query (first_request pc'.id))
        (Effects-then_read (Updates tests pc) (λ db f. Lives-refl db)
          (λ _ db x. first_request pc'.id db ≡ ok x) (statement (update_statement pc'))
          (λ _. query (first_request pc'.id)) update_statement-Updates
          (λ _. Reads-query (first_request pc'.id)))

pending_may_become :
    (s t : RequestStatus) → not (same_status s pending) ≡ false → may_become s t ≡ true
pending_may_become s t h = ground arith

id_of_Found :
    (request_id : String) (pc : PartnerCustomer) (db : Db)
    → Found (by_id request_id ∷ []) db pc
    → request_id ≡ pc.id
id_of_Found request_id pc db found = ground (
  arith,
  find_passes (matches (by_id request_id ∷ [])) db.requests pc found,
  eq_iff pc.id request_id,
)

-- CancelRequest, whoever calls it for whichever request.
pub cancel_partner_request-Lives :
    (now : ℕ) (user : User) (request_id : String)
    → Effects Lives (cancel_partner_request now user request_id)
unfolding cancel_partner_request
cancel_partner_request-Lives now user request_id =
    let tests : PartnerQueryFilter = by_id request_id ∷ [] in
    Effects-read Lives Lives-refl (Found tests)
      (catch (get_request tests) (λ e. throw (not_found_as resource_not_found e))) _
      (Reads-get_request tests (not_found_as resource_not_found))
      λ pc w found.
        let new = termination now (record pc { id = request_id }) in
        at_if (Lives w.db) (not (str_eq pc.username user.username)) _ _ w (λ _. Lives-refl w.db)
          λ _.
            at_if (Lives w.db) (not (same_status pc.request_status pending)) _ _ w
              (λ _. Lives-refl w.db)
              λ p.
                Effects-then_read (Updates tests pc) (λ db f. Lives-refl db) (λ _ db x. x ≡ tt)
                  (update_request new) (λ _. pure tt)
                  (update_request-Updates tests pc new (id_of_Found request_id pc w.db found)
                    (pending_may_become pc.request_status cancelled p))
                  (λ _. Reads-pure tt) w found

-- UpdateRequest, for whichever request and new status.
pub update_partner_request-Lives :
    (now : ℕ) (request_id : String) (req : Request)
    → Effects Lives (update_partner_request now request_id req)
unfolding update_partner_request
update_partner_request-Lives now request_id req =
    let tests : PartnerQueryFilter = by_id request_id ∷ [] in
    Effects-read Lives Lives-refl (Found tests)
      (catch (get_request tests) (λ e. throw (not_found_as resource_not_found e))) _
      (Reads-get_request tests (not_found_as resource_not_found))
      λ pc w found.
        at_if (Lives w.db) (same_status req.status rejected && str_eq req.reason "") _ _ w
          (λ _. Lives-refl w.db)
          λ _.
            at_if (Lives w.db) (not (same_status pc.request_status pending)) _ _ w
              (λ _. Lives-refl w.db)
              λ p.
                update_request-Updates tests pc _ refl
                  (pending_may_become pc.request_status req.status p) w found

insert_request_ok :
    (pc : PartnerCustomer) (db db' : Db) (a : Unit {0})
    → insert_request pc db ≡ ok (a, db')
    → (any (by_id pc.id) db.requests ≡ false) × (db'.requests ≡ db.requests ++ pc ∷ [])
insert_request_ok pc db db' a h = (ground arith, ground arith)

insert_request-Lives : (pc : PartnerCustomer) → Effects Lives (statement (insert_request pc))
insert_request-Lives pc = Effects-statement Lives Lives-refl (insert_request pc) λ db db' a h u.
    let (absent, rows) = insert_request_ok pc db db' a h in
    (
      subst UniqueIds (sym rows) (UniqueIds-append pc db.requests absent u),
      subst (Moves db.requests) (sym rows) (Moves-append db.requests (pc ∷ [])),
    )

create_request-Lives : (pc : PartnerCustomer) → Effects Lives (create_request pc)
unfolding create_request
create_request-Lives pc =
    Effects-transaction Lives Lives-refl
      (statement (insert_request pc) >> query (first_request pc.id))
      (Effects-then_read Lives Lives-refl (λ _ db x. first_request pc.id db ≡ ok x)
        (statement (insert_request pc)) (λ _. query (first_request pc.id)) (insert_request-Lives pc)
        (λ _. Reads-query (first_request pc.id)))

duplicate_as_active-throws :
    (pc : PartnerCustomer)
    → Effects Lives (catch (create_request pc) (λ e. throw (duplicate_as_active e)))
duplicate_as_active-throws pc =
    Effects-catch Lives (create_request pc) duplicate_as_active (create_request-Lives pc)

-- CreateRequest, whoever calls it for whichever partner.
pub create_partner_request-Lives :
    (parse_uuid : Uuids) (new_id : String) (user : User) (partner_id : String)
    (pc : PartnerCustomer)
    → Effects Lives (create_partner_request parse_uuid new_id user partner_id pc)
unfolding create_partner_request list_requests
create_partner_request-Lives parse_uuid new_id user partner_id pc =
    Effects-read Lives Lives-refl (λ db a. Unit {0})
      (list_requests (by_username user.username ∷ [])) _
      (Reads-Same (list_requests (by_username user.username ∷ [])) (Same-query _))
      λ existing w _.
        at_if (Lives w.db) (has_active existing) _ _ w (λ _. Lives-refl w.db)
          λ _.
            Effects-read Lives Lives-refl (λ db a. Unit {0}) (partner_group (parse_uuid partner_id))
              _
              (Reads-Same (partner_group (parse_uuid partner_id))
                (partner_group-Same (parse_uuid partner_id)))
              (λ group w _. duplicate_as_active-throws _ w) w
