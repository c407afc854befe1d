-- ===== src/Sources/Store/ImageRows.antt =====
-- internal/store/image.go and key.go.
use migration_planner.Prelude.{
  String, Bool, not, ◌&&◌, Option, none, some, [], ◌∷◌, ◌++◌, map, str_eq, if◌then◌else◌, any,
  filter, find,
}
use migration_planner.Access.Model.{ImageInfra, Key, record_not_found, db_error}
use migration_planner.Access.Store.{Result, ok, err, Db, M, statement, query}
use migration_planner.Access.Requests.{or_not_found}
use migration_planner.Sources.Store.Tests.{image_of}

unfoldable pub create_image_infra : ImageInfra → M (Unit {0})
create_image_infra i =
    statement λ db. ok (tt, record db { image_infras = db.image_infras ++ i ∷ [] })

-- The version and the token of the agent are left out of the write.
abbrev pub written_image : ImageInfra → ImageInfra → ImageInfra
written_image i old =
    if image_of i.source_id old
    then record i { agent_version = old.agent_version; agent_token = old.agent_token }
    else old

-- A source without an image has none to save.
abbrev pub save_image : Option ImageInfra → Db → Result (Unit {0} × Db)
save_image none db = err db_error
save_image (some i) db = ok (tt, record db { image_infras = map (written_image i) db.image_infras })

unfoldable pub update_image_infra : Option ImageInfra → M (Unit {0})
update_image_infra i = statement (save_image i)

abbrev pub set_token : String → String → ImageInfra → ImageInfra
set_token source_id token i =
    if image_of source_id i then record i { agent_token = some token } else i

abbrev pub write_token : String → String → Db → Result (Unit {0} × Db)
write_token source_id token db =
    if any (image_of source_id) db.image_infras
    then ok (tt, record db { image_infras = map (set_token source_id token) db.image_infras })
    else err record_not_found

unfoldable pub update_agent_token : String → String → M (Unit {0})
update_agent_token source_id token = statement (write_token source_id token)

unfoldable pub get_key : String → M Key
get_key org_id = query (λ db. or_not_found (find (λ (k : Key). str_eq k.org_id org_id) db.keys))

abbrev pub same_key : Key → Key → Bool
same_key a b = str_eq a.id b.id && str_eq a.org_id b.org_id

abbrev pub insert_key : Key → Db → Result (Unit {0} × Db)
insert_key k db =
    if any (same_key k) db.keys
    then err db_error
    else ok (tt, record db { keys = db.keys ++ k ∷ [] })

unfoldable pub create_key : Key → M (Unit {0})
create_key k = statement (insert_key k)

-- A key that is not there is deleted as well.
unfoldable delete_key : String → M (Unit {0})
delete_key org_id =
    statement λ db. ok (tt, record db { keys = filter (λ k. not (str_eq k.org_id org_id)) db.keys })

abbrev set_version : String → String → ImageInfra → ImageInfra
set_version source_id version i =
    if image_of source_id i then record i { agent_version = some version } else i

abbrev write_version : String → String → Db → Result (Unit {0} × Db)
write_version source_id version db =
    if any (image_of source_id) db.image_infras
    then ok (tt, record db { image_infras = map (set_version source_id version) db.image_infras })
    else err record_not_found

unfoldable update_agent_version : String → String → M (Unit {0})
update_agent_version source_id version = statement (write_version source_id version)
