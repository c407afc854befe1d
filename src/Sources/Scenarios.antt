-- ===== src/Sources/Scenarios.antt =====
-- Calls on the small tables.
use migration_planner.Prelude.{true, false, ◌≡◌, refl, some, [], ◌∷◌, find}
use migration_planner.Access.Model.{Source, db_error}
use migration_planner.Access.Store.{ok, World, query, statement, transaction}
use migration_planner.Sources.Store.{
  has_subset_id, get_source, get_agent, create_agent, delete_agent, get_subset, create_subset,
  delete_subset, delete_subsets_of, create_subsets, update_source_row, update_agent_token, get_key,
  create_key,
}
use migration_planner.Sources.Agents.{
  find_source, SubsetForm, update_source_subset, delete_source_subset, delete_placeholders,
  update_agent_status,
}
use migration_planner.Sources.Uploads.{
  UploadForm, uploaded, replace_source_subsets, update_inventory, ensure_agent_token,
  get_source_download,
}
use migration_planner.Sources.Samples.{
  s1, agent, subset_form, subset, db, key, near_end, sign, sign-fresh,
}
use migration_planner.Sources.Keeping.{source_at, Kept}
use migration_planner.Sources.Calls.{
  Call, agent_subset, upload, remove, serve, stays, served, calls-Kept,
}
use migration_planner.Sources.Failures.{failed_source_call-Same}
use migration_planner.Sources.Replacing.{Replaced, with_upload, update_inventory-Replaced}
use migration_planner.Sources.Subsets.{
  agent_row, Allowed, Written, healthy, update_source_subset-Written,
  delete_source_subset-update_source_subset, update_source_subset_takes,
}
use migration_planner.Sources.Tokens.{get_source_download-get_source_download}

abbrev hand_upload : UploadForm
hand_upload = record {
  source_id = "s1";
  agent_id = "a3";
  vcenter_id = "v1";
  inventory = "[]";
  subsets = subset_form "i1" "" ∷ subset_form "i3" "" ∷ [];
}

abbrev run : Call → World → World
run call w = (serve near_end sign call w).1

-- A new subset, then an upload whose last statement fails, then the deletion of the other source.
abbrev after_subset : World
after_subset = run (agent_subset (subset_form "i1" "s1")) (healthy db)

abbrev faulty : World
faulty = record { db = after_subset.db; faults = false ∷ false ∷ false ∷ false ∷ true ∷ [] }

abbrev after_upload : World
after_upload = run (upload hand_upload) faulty

abbrev after_removal : World
after_removal = run (remove "s2") after_upload

calls-Kept_example : (t : Source) × (source_at "s1" after_removal.db ≡ some t) × Kept s1 t
calls-Kept_example =
    calls-Kept near_end sign "s1" db after_removal.db s1
      (served (agent_subset (subset_form "i1" "s1")) (healthy db) after_removal.db tt (
        served (upload hand_upload) faulty after_removal.db tt
          (served (remove "s2") after_upload after_removal.db refl (stays after_removal.db))))
      refl

failed_source_call-Same_example : (serve near_end sign (upload hand_upload) faulty).1.db ≡ faulty.db
unfolding serve update_inventory transaction find_source get_source create_agent update_source_row
    replace_source_subsets delete_subsets_of create_subsets query statement update_source_subset
    get_subset create_subset
failed_source_call-Same_example =
    failed_source_call-Same near_end sign (upload hand_upload) faulty db_error tt refl

abbrev twice : World → World
twice w = (get_source_download near_end sign (some key) "s1" w).1

-- The second call's database calls all fail.
abbrev next : World
next = record { db = (twice (healthy db)).db; faults = true ∷ true ∷ [] }

get_source_download-get_source_download_example :
    (get_source_download near_end sign (some key) "s1" next).1.db ≡ next.db
unfolding get_source_download ensure_agent_token find_source get_source get_key create_key
    update_agent_token query statement
get_source_download-get_source_download_example =
    get_source_download-get_source_download near_end sign sign-fresh (some key) "s1" (healthy db)
      next s1 refl refl

update_inventory-Replaced_example :
    (s : Source) × (source_at "s1" db ≡ some s)
    × (uploaded hand_upload s1 ≡ with_upload hand_upload s)
    × Replaced db hand_upload s (update_inventory hand_upload (healthy db)).1.db
unfolding update_inventory transaction find_source get_source create_agent update_source_row
    replace_source_subsets delete_subsets_of create_subsets query statement
update_inventory-Replaced_example =
    update_inventory-Replaced hand_upload (healthy db) (uploaded hand_upload s1) refl

abbrev new_form : SubsetForm
new_form = subset_form "i1" "s1"

update_source_subset-Written_example :
    let after = (update_source_subset new_form (healthy db)).1.db in
    Allowed db new_form
    × Written db.source_subsets after.source_subsets new_form (agent_row new_form, true)
    × (after ≡ record db { source_subsets = after.source_subsets })
unfolding update_source_subset find_source get_source get_subset create_subset query statement
update_source_subset-Written_example =
    update_source_subset-Written new_form (healthy db) (agent_row new_form, true) refl

delete_source_subset-update_source_subset_example :
    (delete_source_subset "s1" "i1" after_subset).1.db ≡ db
unfolding serve update_source_subset delete_source_subset delete_subset find_source get_source
    get_subset create_subset query statement
delete_source_subset-update_source_subset_example =
    delete_source_subset-update_source_subset new_form (healthy db) after_subset
      (agent_row new_form) refl refl refl

-- The subset of s2 becomes one of s1.
update_source_subset_takes_example :
    let (result, w) = update_source_subset (subset_form "i2" "s1") (healthy db) in
    (result ≡ ok (agent_row (subset_form "i2" "s1"), false))
    × (find (has_subset_id "i2") w.db.source_subsets ≡ some (agent_row (subset_form "i2" "s1")))
update_source_subset_takes_example =
    update_source_subset_takes (subset_form "i2" "s1") db s1 subset refl refl refl refl

-- An agent that reports for the first time takes the place of the placeholder.
new_agent :
    (update_agent_status (agent "a9" "up") (healthy db)).1.db.agents
    ≡ agent "a1" "waiting" ∷ agent "a9" "up" ∷ []
unfolding update_agent_status find_source get_source get_agent delete_placeholders delete_agent
    create_agent query statement
new_agent = refl

-- The placeholder is gone although the agent was not created.
failed_agent :
    (update_agent_status
      (agent "a9" "up")
      (record { db = db; faults = false ∷ false ∷ false ∷ true ∷ [] })).1.db.agents
    ≡ agent "a1" "waiting" ∷ []
unfolding update_agent_status find_source get_source get_agent delete_placeholders delete_agent
    create_agent query statement
failed_agent = refl
