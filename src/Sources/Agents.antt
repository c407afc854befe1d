-- ===== src/Sources/Agents.antt =====
-- internal/service/agent.go: what an agent does to the source that it belongs to.
use migration_planner.Prelude.{
  ℕ, String, Bool, true, false, not, ◌&&◌, Option, none, some, List, [], ◌∷◌, str_eq, if◌then◌else◌,
}
use migration_planner.Access.Model.{
  Source, SourceSubsetInventory, Agent, Error, record_not_found, resource_not_found,
  agent_not_found, agent_update_forbidden, invalid_vcenter_id, source_inventory_required,
}
use migration_planner.Access.Store.{M, ◌>>=◌, ◌>>◌, pure, throw, catch}
use migration_planner.Access.Partner.{not_found_as}
use migration_planner.Sources.Store.{
  LoadedSource, get_source, update_source_row, get_agent, create_agent, update_agent, delete_agent,
  get_subset, create_subset, update_subset, delete_subset,
}

unfoldable pub find_source : String → M LoadedSource
unfolding get_source
find_source id = catch (get_source id) (λ e. throw (not_found_as resource_not_found e))

-- A row that may be missing: `err != nil && !errors.Is(err, store.ErrRecordNotFound)`.
abbrev pub is_missing : Error → Bool
is_missing record_not_found = true
is_missing e = false

abbrev pub absent : {A : Type 0} → Error → M (Option A)
absent e = if is_missing e then pure none else throw e

abbrev pub optional : {A : Type 0} → M A → M (Option A)
optional m = catch (m >>= λ a. pure (some a)) absent

-- `source.VCenterID != "" && source.VCenterID != form.VCenterID`
abbrev pub other_vcenter : Source → String → Bool
other_vcenter s vcenter_id = not (str_eq s.vcenter_id "") && not (str_eq s.vcenter_id vcenter_id)

-- mappers.UpdateSourceFromApi, and the update type.
abbrev pub updated_by_agent : Source → String → String → Source
updated_by_agent s vcenter_id inventory = record s {
  inventory = some inventory;
  vcenter_id = vcenter_id;
  update_type = "auto";
}

pub record InventoryForm : Type 0 where
  pub source_id : String
  pub vcenter_id : String
  pub inventory : String

abbrev pub write_inventory : InventoryForm → Source → M Source
write_inventory form s =
    if other_vcenter s form.vcenter_id
    then throw invalid_vcenter_id
    else update_source_row (updated_by_agent s form.vcenter_id form.inventory)

unfoldable pub update_source_inventory : String → InventoryForm → M Source
unfolding get_agent
update_source_inventory agent_id form = do
  loaded ← find_source form.source_id
  agent ← catch (get_agent agent_id) (λ e. throw (not_found_as agent_not_found e))
  if not (str_eq form.source_id agent.source_id)
      then throw agent_update_forbidden
      else write_inventory form loaded.source

unfoldable pub update_source : InventoryForm → M Source
update_source form = find_source form.source_id >>= λ loaded. write_inventory form loaded.source

-- The form of a subset, as the row that an agent or an upload writes.
pub record SubsetForm : Type 0 where
  pub id : String
  pub name : String
  pub source_id : String
  pub vcenter_id : String
  pub vms_count : ℕ
  pub inventory : String

abbrev pub subset_row : String → SubsetForm → SourceSubsetInventory
subset_row update_type form = record {
  id = form.id;
  name = form.name;
  source_id = form.source_id;
  vcenter_id = form.vcenter_id;
  vms_count = form.vms_count;
  inventory = form.inventory;
  update_type = update_type;
}

-- `len(source.Inventory) == 0`
abbrev pub has_no_inventory : Source → Bool
has_no_inventory s = elim (s.inventory) [ none ↦ true | some inventory ↦ str_eq inventory "" ]

abbrev pub write_subset :
    SubsetForm → Option SourceSubsetInventory → M (SourceSubsetInventory × Bool)
write_subset form none = create_subset (subset_row "auto" form) >>= λ s. pure (s, true)
write_subset form (some existing) = update_subset (subset_row "auto" form) >>= λ s. pure (s, false)

unfoldable pub update_source_subset : SubsetForm → M (SourceSubsetInventory × Bool)
unfolding get_subset
update_source_subset form = do
  loaded ← find_source form.source_id
  if has_no_inventory loaded.source
      then throw source_inventory_required
      else if other_vcenter loaded.source form.vcenter_id
      then throw invalid_vcenter_id
      else optional (get_subset form.id) >>= write_subset form

unfoldable pub delete_source_subset : String → String → M (Unit {0})
unfolding get_subset
delete_source_subset source_id subset_id = do
  find_source source_id
  subset ← catch (get_subset subset_id) (λ e. throw (not_found_as resource_not_found e))
  if not (str_eq subset.source_id source_id)
      then throw resource_not_found
      else delete_subset subset_id

-- The loop over the source's agents: one without a status is a placeholder.
unfoldable pub delete_placeholders : List Agent → M (Unit {0})
delete_placeholders [] = pure tt
delete_placeholders (a ∷ agents) =
    let rest = delete_placeholders agents in
    if not (str_eq a.status "") then rest else delete_agent a.id >> rest

abbrev pub write_agent : Agent → List Agent → Option Agent → M (Agent × Bool)
write_agent form agents none =
    delete_placeholders agents >> create_agent form >>= λ a. pure (a, true)
write_agent form agents (some agent) = update_agent form >> pure (agent, false)

unfoldable pub update_agent_status : Agent → M (Agent × Bool)
unfolding get_agent
update_agent_status form = do
  loaded ← find_source form.source_id
  agent ← optional (get_agent form.id)
  write_agent form loaded.agents agent
