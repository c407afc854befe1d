-- ===== src/Access/Partner/Calls.antt =====
-- Any sequence of calls of the service that change requests, by any users, in any order, whichever
-- database calls fail.
use migration_planner.Prelude.{ℕ, String, ◌≡◌}
use migration_planner.Access.Model.{PartnerCustomer, User, Request}
use migration_planner.Access.Store.{Db, World, M, ◌>>◌, pure}
use migration_planner.Access.Store.Effects.{Effects, Effects-then_read, Reads-pure}
use migration_planner.Access.Partner.{
  Uuids, create_partner_request, cancel_partner_request, leave_partner, update_partner_request,
  remove_customer,
}
use migration_planner.Access.Partner.Rows.{Moves, UniqueIds}
use migration_planner.Access.Partner.Lifecycle.{
  Lives, Lives-refl, Lives-trans, create_partner_request-Lives, cancel_partner_request-Lives,
  update_partner_request-Lives,
}
use migration_planner.Access.Partner.Endings.{leave_partner-Lives, remove_customer-Lives}

pub data Call : Type 0 where
  create : String → User → String → PartnerCustomer → Call
  cancel : ℕ → User → String → Call
  leave : ℕ → User → String → Call
  answer : ℕ → String → Request → Call
  remove : ℕ → User → String → Call

-- The call, of which only the error is kept.
unfoldable pub serve : Uuids → Call → M (Unit {0})
unfolding create_partner_request cancel_partner_request leave_partner update_partner_request
    remove_customer
serve parse_uuid (create new_id user partner_id pc) =
    create_partner_request parse_uuid new_id user partner_id pc >> pure tt
serve parse_uuid (cancel now user request_id) = cancel_partner_request now user request_id
serve parse_uuid (leave now user partner_id) = leave_partner now user partner_id
serve parse_uuid (answer now request_id req) = update_partner_request now request_id req >> pure tt
serve parse_uuid (remove now user username) = remove_customer now user username

-- Each call finds the tables that the call before left; which of its database calls fail is free.
pub data Reaches (parse_uuid : Uuids) : Db → Db → Type 0 where
  stays : (db : Db) → Reaches parse_uuid db db
  served :
      (call : Call) (w : World) (z : Db)
      → Reaches parse_uuid (serve parse_uuid call w).1.db z
      → Reaches parse_uuid w.db z

then_done : {A : Type 0} (m : M A) → Effects Lives m → Effects Lives (m >> pure tt)
then_done m lives =
    Effects-then_read Lives Lives-refl (λ _ db x. x ≡ tt) m (λ _. pure tt) lives
      (λ _. Reads-pure tt)

serve-Lives : (parse_uuid : Uuids) (call : Call) → Effects Lives (serve parse_uuid call)
unfolding serve
serve-Lives parse_uuid (create new_id user partner_id pc) w =
    then_done (create_partner_request parse_uuid new_id user partner_id pc)
      (create_partner_request-Lives parse_uuid new_id user partner_id pc) w
serve-Lives parse_uuid (cancel now user request_id) w =
    cancel_partner_request-Lives now user request_id w
serve-Lives parse_uuid (leave now user partner_id) w = leave_partner-Lives now user partner_id w
serve-Lives parse_uuid (answer now request_id req) w =
    then_done (update_partner_request now request_id req)
      (update_partner_request-Lives now request_id req) w
serve-Lives parse_uuid (remove now user username) w = remove_customer-Lives now user username w

reached-Lives : (parse_uuid : Uuids) (x y : Db) → Reaches parse_uuid x y → Lives x y
reached-Lives parse_uuid x _ (stays _) = Lives-refl x
reached-Lives parse_uuid _ z (served call w _ rest) =
    Lives-trans w.db (serve parse_uuid call w).1.db z (serve-Lives parse_uuid call w)
      (reached-Lives parse_uuid (serve parse_uuid call w).1.db z rest)

-- After any sequence of calls the ids of requests are still unique, no request is lost, each
-- keeps its user, organization, partner and contact, and its status went only where the diagram
-- lets it: what was rejected or cancelled stays so, and what was accepted stays accepted or is
-- cancelled. The ids were unique before.
pub calls-Moves :
    (parse_uuid : Uuids) (x y : Db)
    → UniqueIds x.requests
    → Reaches parse_uuid x y
    → UniqueIds y.requests × Moves x.requests y.requests
calls-Moves parse_uuid x y unique reached = reached-Lives parse_uuid x y reached unique
