-- ===== src/Sources/Store/AgentRows.antt =====
-- internal/store/agent.go and source_subset_inventory.go.
use migration_planner.Prelude.{
  String, not, ◌||◌, Option, none, some, List, [], ◌∷◌, ◌++◌, map, if◌then◌else◌, any, filter, find,
}
use migration_planner.Access.Model.{
  SourceSubsetInventory, Agent, record_not_found, duplicate_key, db_error,
}
use migration_planner.Access.Store.{Result, ok, err, Db, M, ◌>>◌, pure, statement, query}
use migration_planner.Access.Requests.{or_not_found}
use migration_planner.Access.Accounts.{or_old}
use migration_planner.Sources.Store.Tests.{has_agent_id, has_subset_id, subset_of, source_exists}

unfoldable pub get_agent : String → M Agent
get_agent id = query (λ db. or_not_found (find (has_agent_id id) db.agents))

abbrev pub insert_agent : Agent → Db → Result (Agent × Db)
insert_agent a db =
    if any (has_agent_id a.id) db.agents || not (source_exists a.source_id db)
    then err db_error
    else ok (a, record db { agents = db.agents ++ a ∷ [] })

unfoldable pub create_agent : Agent → M Agent
create_agent a = statement (insert_agent a)

abbrev pub written_agent : Agent → Agent → Agent
written_agent a old =
    if has_agent_id a.id old
    then record {
      id = old.id;
      status = or_old old.status a.status;
      status_info = or_old old.status_info a.status_info;
      cred_url = or_old old.cred_url a.cred_url;
      version = or_old old.version a.version;
      source_id = or_old old.source_id a.source_id;
    }
    else old

unfoldable pub update_agent : Agent → M (Unit {0})
unfolding get_agent
update_agent a =
    get_agent a.id
    >> statement λ db. ok (tt, record db { agents = map (written_agent a) db.agents })

unfoldable pub delete_agent : String → M (Unit {0})
delete_agent id =
    statement λ db. ok (tt, record db { agents = filter (λ a. not (has_agent_id id a)) db.agents })

unfoldable pub get_subset : String → M SourceSubsetInventory
get_subset id = query (λ db. or_not_found (find (has_subset_id id) db.source_subsets))

abbrev pub insert_subset : SourceSubsetInventory → Db → Result (SourceSubsetInventory × Db)
insert_subset s db =
    if any (has_subset_id s.id) db.source_subsets
    then err duplicate_key
    else if not (source_exists s.source_id db)
    then err db_error
    else ok (s, record db { source_subsets = db.source_subsets ++ s ∷ [] })

unfoldable pub create_subset : SourceSubsetInventory → M SourceSubsetInventory
create_subset s = statement (insert_subset s)

-- Every field is written, empty ones too.
abbrev pub written_subset : SourceSubsetInventory → SourceSubsetInventory → SourceSubsetInventory
written_subset s old = if has_subset_id s.id old then s else old

abbrev pub write_subset : SourceSubsetInventory → Db → Result (SourceSubsetInventory × Db)
write_subset s db =
    if any (has_subset_id s.id) db.source_subsets
    then ok (s, record db { source_subsets = map (written_subset s) db.source_subsets })
    else err record_not_found

unfoldable pub update_subset : SourceSubsetInventory → M SourceSubsetInventory
update_subset s = statement (write_subset s)

unfoldable pub delete_subset : String → M (Unit {0})
delete_subset id = statement λ db.
    ok (tt, record db { source_subsets = filter (λ s. not (has_subset_id id s)) db.source_subsets })

unfoldable pub delete_subsets_of : String → M (Unit {0})
delete_subsets_of source_id = statement λ db.
    ok (
      tt,
      record db { source_subsets = filter (λ s. not (subset_of source_id s)) db.source_subsets },
    )

-- One INSERT of all rows.
abbrev pub insert_all :
    List SourceSubsetInventory → List SourceSubsetInventory → Option (List SourceSubsetInventory)
insert_all rows [] = some rows
insert_all rows (s ∷ ss) =
    let rest = insert_all (rows ++ s ∷ []) ss in
    if any (has_subset_id s.id) rows then none else rest

abbrev pub insert_subsets : List SourceSubsetInventory → Db → Result (Unit {0} × Db)
insert_subsets ss db = elim (insert_all db.source_subsets ss) [
  | none ↦ err duplicate_key
  | some rows ↦ ok (tt, record db { source_subsets = rows })
]

-- `if len(sourceInventories) == 0`
unfoldable pub create_subsets : List SourceSubsetInventory → M (Unit {0})
create_subsets [] = pure tt
create_subsets (s ∷ ss) = statement (insert_subsets (s ∷ ss))
